-- ===== src/Tests/Driver.antt =====
-- The tests of test/test.c on files of the stand-in.
use lilc.Ast.Layout.{layout}
use lilc.Ast.{Node, Proto, block_node, dbl_node, var_node, op_bin_node, funccall_node, nil, cons}
use lilc.Codegen.Programs.{nodes_of as defs_nodes, AreDefs}
use lilc.Codegen.Scope.{IsExpr}
use lilc.Common.{
  ℕ, ◌+◌, ◌-◌, ◌++◌, length, ◌≡◌, refl, none, List, [], ◌∷◌, Bytes, codes, ltb, arith,
}
use lilc.Driver.Compares.{Files, compare_text, test_lexer-show_tokens, test_parser-layout}
use lilc.Driver.{Floats, test_lexer, test_parser}
use lilc.Lex.Lexeme.{IsLexeme}
use lilc.Lex.Spec.{numeral}
use lilc.Lex.Stream.{show_tokens}
use lilc.Lex.Text.{text, text-Written}
use lilc.Lex.Written.{tokens_of}
use lilc.Outcome.{ok}
use lilc.Parse.Legible.{stmts-AreLexemes}
use lilc.Parse.Source.{
  Word, plus, var, bin, call, def, Exprs, more, emit_stmts, nodes_of, IsSource, AreSource,
}
use lilc.Tests.Codegen.{f_proto, main_def}
use lilc.Tests.Files.{Disk, disk}
use lilc.Tests.Sources.{
  letter, digit, one_expr, program_text, program-AreSource, source, f-IsName, x-IsName,
}
use lilc.Tests.{parse_text, whole}
use lilc.Token.{unset, tok_add}
use lilc.Util.{read_file, file_size}

-- `def f(x) { x + 2; }; def main() { f(3); };`
abbrev main_word : Word
main_word = record { first = b'm'; others = codes "ain" }

abbrev pub defs_text : Exprs
defs_text =
    more (def (letter b'f') (letter b'x' ∷ []) (one_expr (bin plus (var (letter b'x')) (digit 2))))
      (one_expr (def main_word [] (one_expr (call (letter b'f') (one_expr (digit 3))))))

pub defs-AreSource : AreSource defs_text
unfolding IsSource IsLexeme parse_text
defs-AreSource = (
  (f-IsName, (x-IsName, tt), omega arith, ((x-IsName, (refl, tt)), tt)),
  (
    (
      ((refl, (refl, (refl, (refl, tt))), omega arith), refl),
      tt,
      omega arith,
      ((f-IsName, omega arith, ((refl, tt), tt)), tt),
    ),
    tt,
  ),
)

abbrev defs_source : Bytes
defs_source = text (emit_stmts defs_text [])

abbrev pub a_disk : Disk
a_disk = record {
  files = (codes "src", source) ∷ (codes "defs", defs_source) ∷ (codes "want", codes "7") ∷ [];
  place = 0;
}

abbrev pub here : Bytes
here = codes "util.c"

-- after reading `n` bytes
abbrev pub at_place : ℕ → Disk
at_place n = record { files = a_disk.files; place = n }

abbrev want : Bytes
want = codes "7" ++ 0 ∷ []

src_read :
    read_file disk here (codes "src") a_disk ≡ ok (source ++ 0 ∷ [], at_place (length source))
unfolding read_file file_size emit_stmts
src_read = refl

pub defs_read :
    read_file disk here (codes "defs") a_disk
    ≡ ok (defs_source ++ 0 ∷ [], at_place (length defs_source))
unfolding read_file file_size emit_stmts
defs_read = refl

pub want_read : (n : ℕ) → read_file disk here (codes "want") (at_place n) ≡ ok (want, at_place 1)
unfolding read_file file_size
want_read n = refl

abbrev src_files : Files disk here (codes "src") (codes "want") a_disk
src_files = record {
  src = source ++ 0 ∷ [];
  want = want;
  after_src = at_place (length source);
  after_want = at_place 1;
  read_src = src_read;
  read_want = want_read (length source);
}

abbrev pub defs_files : Files disk here (codes "defs") (codes "want") a_disk
defs_files = record {
  src = defs_source ++ 0 ∷ [];
  want = want;
  after_src = at_place (length defs_source);
  after_want = at_place 1;
  read_src = defs_read;
  read_want = want_read (length defs_source);
}

test_lexer-show_tokens_example :
    test_lexer ℕ disk here (codes "src") (codes "want") a_disk
    ≡ compare_text want
        (show_tokens (tokens_of {D = ℕ} unset (emit_stmts program_text [])))
        (at_place 1)
test_lexer-show_tokens_example =
    test_lexer-show_tokens ℕ src_files (emit_stmts program_text [])
      (stmts-AreLexemes program_text [] program-AreSource tt)
      (text-Written (emit_stmts program_text []) [] refl)

test_parser-layout_example :
    test_parser ℕ disk here (codes "src") (codes "want") a_disk
    ≡ compare_text want (layout {D = ℕ} 0 (block_node (nodes_of program_text))) (at_place 1)
test_parser-layout_example =
    test_parser-layout ℕ src_files program_text program-AreSource
      (text-Written (emit_stmts program_text []) [] refl)

-- the distance of whole numbers
abbrev pub floats : Floats ℕ
floats = record {
  strtod = λ s. 7;
  fabs = λ n. n;
  sub = λ a b. (a - b) + (b - a);
  less = ltb;
  tolerance = 1;
}

abbrev pub defs_body : Node ℕ
defs_body = block_node (cons (op_bin_node (var_node (codes "x")) (dbl_node 2) tok_add) nil)

abbrev pub defs_main : Node ℕ
defs_main = block_node (cons (funccall_node (codes "f") (cons (dbl_node 3) nil)) nil)

abbrev pub two_defs : List (Proto × Node ℕ)
two_defs = (f_proto, defs_body) ∷ (main_def, defs_main) ∷ []

pub two-AreDefs : AreDefs two_defs (λ n. none)
unfolding IsExpr
two-AreDefs = (refl, ((tt, tt), tt), (refl, ((tt, tt), tt), tt))

pub two_nodes : nodes_of defs_text ≡ defs_nodes two_defs
unfolding nodes_of parse_text numeral
two_nodes = refl
