-- ===== src/Tests/Witnesses.antt =====
-- The theorems at concrete programs.
use lilc.Ast.Layout.{IsPrintable, layout, ast_readf-layout}
use lilc.Ast.{Node, dbl_node, block_node, op_bin_node, nil, cons, ast_readf}
use lilc.Buffer.{Out, full}
use lilc.Common.{
  ◌<◌, All, ◌++◌, List, ℕ, ◌+◌, ◌^◌, ◌≤◌, ◌≡◌, refl, inl, ◌⊎◌, none, [], ◌∷◌, ◌++◌, take, length,
  Bytes, codes, arith,
}
use lilc.Lex.Typed.{Typed}
use lilc.Lex.Ends.{lex_scan-Typed}
use lilc.Lex.Number.{decimal, lex_scan-IsNumber}
use lilc.Lex.Safety.{Inside, lex_scan_safe, LineOk, lex_scan-LineOk}
use lilc.Lex.Scan.{ScanEnds, lex_scan_sound}
use lilc.Lex.Complete.{behind, lex_scan_complete}
use lilc.Lex.Spec.{IsBlanks, IsBlanks, Spells, word, IsNumber, rest}
use lilc.Lex.Lexeme.{Lexeme, word_of, number_of, mark, IsLexeme, AreLexemes}
use lilc.Lex.Text.{text, text-Tokens}
use lilc.Lex.Written.{tokens_of}
use lilc.Lex.Stream.{tok_strm_readf, show_tokens, Tokens, end, token, tok_strm_readf-Tokens}
use lilc.Lex.{Lexer, lex_scan}
use lilc.Outcome.{ok, Fault, Ensures}
use lilc.Parse.Post.{Allowed, HasErr, IsBlock}
use lilc.Parse.Printing.{ast_readf-parse}
use lilc.Parse.Total.{parse_total}
use lilc.Parse.{Parser, parse}
use lilc.Tests.{parse_text, parser_on, whole}
use lilc.Token.{unset, Token, TokType, tok_eos, tok_semi, tok_dbl, tok_add, tok_id, as_dbl, as_str}

abbrev sum_text : Bytes
sum_text = codes "1+\n2;"

abbrev start : Lexer ℕ
start = (parser_on sum_text).lex

abbrev at_token : ℕ → ℕ → TokType → ℕ → Lexer ℕ
at_token offset line cls val = record start {
  offset = offset;
  lineno = line;
  tok = record { cls = cls; val = as_dbl val };
}

lex_scan_sound_example : ScanEnds start (lex_scan start)
lex_scan_sound_example = lex_scan_sound start

lex_scan_safe_example :
    Ensures
      (λ _. ⊥)
      (λ (t, l'). Inside sum_text start t l' × (l'.offset < 2 ^ 31) × All (λ c. c < 128) l'.source)
      (lex_scan start)
lex_scan_safe_example =
    lex_scan_safe sum_text start refl (omega arith)
      (omega arith, (omega arith, (omega arith, (omega arith, (omega arith, tt))))) (omega arith)

lex_scan-LineOk_example :
    Ensures
      (λ e. e ≡ Fault.out_of_bounds)
      (λ (t, l'). LineOk l')
      (lex_scan (at_token 2 1 tok_add 1))
lex_scan-LineOk_example = lex_scan-LineOk (at_token 2 1 tok_add 1) refl

scan_one : lex_scan start ≡ ok (tok_dbl, at_token 1 1 tok_dbl 1)
unfolding parse_text
scan_one = refl

lex_scan-IsNumber_example :
    (blanks : Bytes) × (w : Bytes) × (rest start ≡ blanks ++ (w ++ rest (at_token 1 1 tok_dbl 1)))
    × IsBlanks blanks
    × IsNumber w (rest (at_token 1 1 tok_dbl 1))
    × (decimal 0 w ≤ 2 ^ 53 → as_dbl 1 ≡ as_dbl (decimal 0 w))
lex_scan-IsNumber_example = lex_scan-IsNumber start scan_one

abbrev sum_list : List (Token ℕ)
sum_list =
    record { cls = tok_dbl; val = as_dbl 1 }
    ∷ record { cls = tok_add; val = as_dbl 1 }
    ∷ record { cls = tok_dbl; val = as_dbl 2 }
    ∷ record { cls = tok_semi; val = as_dbl 2 }
    ∷ []

sum-Tokens : Tokens (at_token 6 2 tok_eos 2) start sum_list
unfolding parse_text
sum-Tokens = token {l' = at_token 1 1 tok_dbl 1} tok_dbl refl (cc) (
    token {l' = at_token 2 1 tok_add 1} tok_add refl (cc) (
      token {l' = at_token 4 2 tok_dbl 2} tok_dbl refl (cc)
        (token {l' = at_token 5 2 tok_semi 2} tok_semi refl (cc) (end refl))))

tok_strm_readf-Tokens_example :
    tok_strm_readf start
    ≡ ok (
      at_token 6 2 tok_eos 2,
      record { buf = show_tokens sum_list; i = length (show_tokens sum_list) },
    )
tok_strm_readf-Tokens_example = tok_strm_readf-Tokens sum-Tokens

parse_total_example :
    Ensures Allowed
      (λ (n, q). HasErr q ⊎ IsBlock n)
      (parse (parser_on (codes "if (1) { 2; } else { ;; 3; };")))
parse_total_example = parse_total (parser_on (codes "if (1) { 2; } else { ;; 3; };"))

abbrev sum_tree : Node ℕ
sum_tree = block_node (cons (op_bin_node (dbl_node 1) (dbl_node 2) tok_add) nil)

abbrev sum_end : Parser ℕ
sum_end = record { lex = at_token 6 2 tok_eos 2; err = none }

sum_parsed : parse (parser_on sum_text) ≡ ok (sum_tree, sum_end)
unfolding parse_text
sum_parsed = refl

ast_readf-parse_example : ast_readf 0 sum_tree (full []) ≡ ok (tt, full (layout 0 sum_tree))
ast_readf-parse_example = ast_readf-parse (parser_on sum_text) sum_parsed refl

abbrev half_full : Out
half_full = record { buf = codes "tree: old text"; i = 6 }

sum_tree-IsPrintable : IsPrintable sum_tree
unfolding IsPrintable
sum_tree-IsPrintable = ((tt, tt), tt)

ast_readf-layout_example :
    ast_readf 2 sum_tree half_full
    ≡ ok (
      tt,
      record {
        buf = take 6 half_full.buf ++ layout 2 sum_tree;
        i = 6 + length (layout 2 sum_tree);
      },
    )
ast_readf-layout_example = ast_readf-layout sum_tree 2 half_full (omega arith) sum_tree-IsPrintable

abbrev word_start : Lexer ℕ
word_start = (parser_on (codes "\n if1 +")).lex

if1-Spells :
    Spells word_start.tok.val (codes " +" ++ 0 ∷ []) tok_id (as_str (codes "if1")) (codes "if1")
unfolding parse_text
if1-Spells =
    word
      (record {
        first = b'i';
        others = codes "f1";
        next = b' ';
        after_next = b'+' ∷ 0 ∷ [];
        splits = refl;
        follows = refl;
        letter = refl;
        idents = (refl, (refl, tt));
        short = omega arith;
        maximal = inl refl;
      })
      refl (λ e. refl) (λ n. absurd (n refl))

two-IsBlanks : IsBlanks (codes "\n ")
unfolding parse_text
two-IsBlanks = (refl, (refl, tt))

lex_scan_complete_example :
    lex_scan word_start
    ≡ ok (tok_id, behind word_start (codes "\n ") (codes "if1") tok_id (as_str (codes "if1")))
lex_scan_complete_example =
    lex_scan_complete word_start (codes "\n ") (codes "if1") (codes " +" ++ 0 ∷ []) tok_id
      (as_str (codes "if1")) two-IsBlanks if1-Spells (λ e. cc) refl

-- ` def f ( 12`
abbrev four_lexemes : List Lexeme
four_lexemes =
    word_of b'd' (codes "ef") ∷ word_of b'f' [] ∷ mark b'(' ∷ number_of b'1' (codes "2") ∷ []

four-AreLexemes : AreLexemes four_lexemes
unfolding IsLexeme parse_text
four-AreLexemes = (
  (refl, (refl, (refl, tt)), omega arith),
  ((refl, tt, omega arith), (((λ e. omega (arith, e)), λ e. cc), ((refl, (refl, tt)), tt))),
)

text-Tokens_example :
    (last : Lexer ℕ) × Tokens last
      (parser_on (text four_lexemes)).lex
      (tokens_of unset four_lexemes)
text-Tokens_example =
    text-Tokens four_lexemes (parser_on (text four_lexemes)).lex [] four-AreLexemes refl

lex_scan-Typed_example :
    Ensures
      (λ e. e ≡ Fault.out_of_bounds)
      (λ (t, l'). (l'.tok.cls ≡ t) × Typed l'.tok)
      (lex_scan start)
lex_scan-Typed_example = lex_scan-Typed start
