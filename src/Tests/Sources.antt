-- ===== src/Tests/Sources.antt =====
-- The parser's theorems at a concrete program.
use lilc.Ast.{block_node}
use lilc.Common.{ℕ, ◌+◌, refl, [], ◌∷◌, arith, Bytes}
use lilc.Lex.Lexeme.{IsLexeme}
use lilc.Lex.Text.{text, text-Written}
use lilc.Parse.Ahead.{Reads}
use lilc.Parse.RoundTrip.{parse-emit_stmts}
use lilc.Parse.Source.{
  Word, less, plus, minus, times, Expr, num, var, bin, parens, call, if_else, def, Exprs, more,
  emit_stmts, nodes_of, IsName, IsSource, AreSource,
}
use lilc.Parse.{parse}
use lilc.Tests.{parse_text, parser_on, whole}

abbrev pub letter : ℕ → Word
letter c = record { first = c; others = [] }

abbrev pub digit : ℕ → Expr
digit n = num (letter (b'0' + n))

abbrev pub one_expr : Expr → Exprs
one_expr e = more e Exprs.none

-- ` def f ( x ) { x - 1 - 2 * ( x + 3 ) ; } ; if ( 1 < 2 ) { f ( 4 ) ; } else { ( 5 ) ; } ;`
abbrev body : Expr
body =
    bin minus (bin minus (var (letter b'x')) (digit 1))
      (bin times (digit 2) (bin plus (var (letter b'x')) (digit 3)))

abbrev statement : Expr
statement =
    if_else (bin less (digit 1) (digit 2)) (one_expr (call (letter b'f') (one_expr (digit 4))))
      (one_expr (parens (digit 5)))

abbrev pub program_text : Exprs
program_text = more (def (letter b'f') (letter b'x' ∷ []) (one_expr body)) (one_expr statement)

abbrev pub source : Bytes
source = text (emit_stmts program_text [])

pub f-IsName : IsName (letter b'f')
unfolding IsLexeme parse_text
f-IsName = ((refl, tt, omega arith), refl)

pub x-IsName : IsName (letter b'x')
unfolding IsLexeme parse_text
x-IsName = ((refl, tt, omega arith), refl)

pub program-AreSource : AreSource program_text
unfolding IsSource IsLexeme parse_text
program-AreSource = (
  (
    f-IsName,
    (x-IsName, tt),
    omega arith,
    (((x-IsName, (refl, tt)), ((refl, tt), (x-IsName, (refl, tt)))), tt),
  ),
  (
    (((refl, tt), (refl, tt)), ((f-IsName, omega arith, ((refl, tt), tt)), tt), ((refl, tt), tt)),
    tt,
  ),
)

parse-emit_stmts_example : Reads [] (block_node (nodes_of program_text)) (parse (parser_on source))
parse-emit_stmts_example =
    parse-emit_stmts program_text (parser_on source) program-AreSource refl
      (text-Written (emit_stmts program_text []) [] refl)
