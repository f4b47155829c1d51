-- ===== src/Driver.antt =====
-- src/test/test.c: the program that runs lexer, parser and code generator on files and compares
-- what they give with other files. A test is `true` if its assertions hold; a failing one aborts.
pub mod Compares
pub mod Computes
use lilc.Ast.{Node, ast_readf}
use lilc.Buffer.{Out, full}
use lilc.Codegen.Drive.{Engine, lilc_eval}
use lilc.Codegen.Interface.{Llvm, NamedVals}
use lilc.Common.{
  ℕ, suc, Bool, true, false, ◌&&◌, none, List, [], ◌∷◌, Bytes, codes, bytes_eq, ltb, leb, ◌==◌,
  if◌then◌else◌,
}
use lilc.Double.{Double}
use lilc.Lex.Stream.{tok_strm_readf}
use lilc.Lex.{Lexer, lex_init}
use lilc.Outcome.{Outcome, ok, fault, Fault, bind, M, pure, ◌>>=◌, ◌>>◌}
use lilc.Parse.{Parser, parser_init, parse}
use lilc.Token.{tok_err, unset}
use lilc.Util.{Stdio, read_file}

-- What test.c uses of C's library on doubles: `strtod(s, NULL)`, `fabs(a - b) < 0.000001`.
pub record Floats (D : Type 0) : Type 0 where
  pub strtod : Bytes → D
  pub fabs : D → D
  pub sub : D → D → D
  pub less : D → D → Bool
  pub tolerance : D

-- A C string ends at its first NUL byte.
abbrev pub c_string : Bytes → Bytes
c_string [] = []
c_string (c ∷ s) = let others = c_string s in if c == 0 then [] else c ∷ others

-- `0 == strcmp(a, b)`
abbrev pub str_same : Bytes → Bytes → Bool
str_same a b = bytes_eq (c_string a) (c_string b)

-- both `MAX_TOK_STR` and `MAX_NODES`
abbrev pub max_text : ℕ
max_text = 512

-- A complete text and its NUL byte were written to an array of `max_text` characters, none of which
-- was tested before.
abbrev pub in_array : {A : Type 0} → Out → Outcome A → Outcome A
in_array out r = if ltb out.i max_text then r else fault Fault.buffer_overflow

-- `struct lexer l;`, and the struct of a parser on `l`, of which nothing is set.
abbrev pub new_lexer : {D : Type 0} → Lexer D
new_lexer = record {
  source = [];
  offset = 0;
  tok = record { cls = tok_err; val = unset };
  filename = [];
  lineno = 0;
  err = none;
}

abbrev pub new_parser : {D : Type 0} → Lexer D → Parser D
new_parser l = parser_init (record { lex = new_lexer; err = none }) l

module _ {W F : Type 0} (D : Type 0) ⦃dbl : Double D⦄ (io : Stdio W F) (here : Bytes) where
  unfoldable pub test_lexer : Bytes → Bytes → M W Bool
  test_lexer src_path want_path = do
    src ← read_file io here src_path
    want ← read_file io here want_path
    λ w.
        bind (tok_strm_readf {D = D} (lex_init new_lexer src src_path))
          λ (l, got). in_array got (ok (leb got.i max_text && str_same want got.buf, w))

  unfoldable pub test_parser : Bytes → Bytes → M W Bool
  test_parser src_path want_path = do
    src ← read_file io here src_path
    want ← read_file io here want_path
    λ w. bind (parse {D = D} (new_parser (lex_init new_lexer src src_path))) λ (node, p).
        bind (ast_readf 0 node (full []))
          λ (_, got). in_array got (ok (ltb got.i max_text && str_same want got.buf, w))

module _ {W F D S T V B : Type 0} ⦃dbl : Double D⦄ (io : Stdio W F) (here : Bytes)
    (api : Llvm D S V B) (table : NamedVals T V) (engine : Engine D S V) (empty : T)
    (floats : Floats D) where
  unfoldable pub test_codegen : Bytes → Bytes → M W Bool
  test_codegen src_path want_path = do
    src ← read_file io here src_path
    want ← read_file io here want_path
    λ w. bind (parse (new_parser (lex_init new_lexer src src_path))) λ (node, p).
        bind (lilc_eval api table engine empty node) λ got.
          ok (floats.less (floats.fabs (floats.sub got (floats.strtod want))) floats.tolerance, w)

  -- A test that fails stops the program.
  abbrev run_all : List (M W Bool) → M W Bool
  run_all [] = pure true
  run_all (test ∷ tests) = do passed ← test; if passed then run_all tests else pure false

  unfoldable pub main : M W Bool
  main = run_all (
      test_lexer D io here (codes "src_examples/arith_basic.lilc") (codes "lexer/arith_basic.tok")
      ∷ test_lexer D io here (codes "src_examples/arith_parens.lilc")
          (codes "lexer/arith_parens.tok")
      ∷ test_lexer D io here (codes "src_examples/func_basic.lilc") (codes "lexer/func_basic.tok")
      ∷ test_parser D io here (codes "src_examples/arith_basic.lilc")
          (codes "parser/arith_basic.ast")
      ∷ test_parser D io here (codes "src_examples/arith_parens.lilc")
          (codes "parser/arith_parens.ast")
      ∷ test_parser D io here (codes "src_examples/func_basic.lilc") (codes "parser/func_basic.ast")
      ∷ test_parser D io here (codes "src_examples/if_else.lilc") (codes "parser/if_else.ast")
      ∷ test_codegen (codes "src_examples/arith_basic.lilc") (codes "codegen/arith_basic.result")
      ∷ test_codegen (codes "src_examples/func_basic.lilc") (codes "codegen/func_basic.result")
      ∷ test_codegen (codes "src_examples/func_no_params.lilc")
          (codes "codegen/func_no_params.result")
      ∷ test_codegen (codes "src_examples/cmp_basic.lilc") (codes "codegen/cmp_basic.result")
      ∷ test_codegen (codes "src_examples/if_else.lilc") (codes "codegen/if_else.result")
      ∷ [])
