-- ===== src/Tests/Faults.antt =====
-- The theorems on programs with a fault, at concrete ones.
use lilc.Common.{
  ap, sym, some_inj, ◌≢◌, false, some, none, ℕ, zero, suc, ◌≡◌, refl, List, [], ◌∷◌, All, arith,
  Bytes,
}
use lilc.Lex.Lexeme.{Lexeme, IsLexeme, AreLexemes, mark}
use lilc.Lex.Text.{text, text-Written}
use lilc.Lex.{expected_message, punct}
use lilc.Outcome.{fault, Fault}
use lilc.Parse.Ahead.{Dies, class_of}
use lilc.Parse.Errors.{parse_no_semi}
use lilc.Parse.Legible.{semi-IsLexeme}
use lilc.Parse.Operands.{operand_message, parse_no_operand}
use lilc.Parse.Overflow.{parse_overflow}
use lilc.Parse.Parameters.{def_head, parse_param_overflow, parse_too_many_params}
use lilc.Parse.Pratt.{Stops}
use lilc.Parse.Source.{Word, call, Exprs, more, emit, emit_stmts, IsName, IsSource, AreSource}
use lilc.Parse.{parse, Vtable, vtables}
use lilc.Tests.Sources.{letter, digit, program_text, program-AreSource, f-IsName, x-IsName}
use lilc.Tests.{parse_text, parser_on, whole}
use lilc.Token.{tok_semi, tok_else, tok_eos, tok_rparen, tok_rcurl, tok_eq, to_int}

abbrev after_program : List Lexeme → Bytes
after_program xs = text (emit_stmts program_text xs)

-- `1` at the end of the source
one-IsSource : IsSource (digit 1)
unfolding IsSource IsLexeme parse_text
one-IsSource = (refl, tt)

end-Stops : Stops 0 []
unfolding vtables
end-Stops = record { row = _; found = refl; loose = omega arith }

parse_no_semi_example :
    Dies
      (expected_message tok_semi tok_eos)
      (parse (parser_on (after_program (emit 0 (digit 1) []))))
unfolding parse_text
parse_no_semi_example =
    parse_no_semi program_text (digit 1) [] (parser_on (after_program (emit 0 (digit 1) [])))
      program-AreSource one-IsSource end-Stops refl tt refl
      (text-Written (emit_stmts program_text (emit 0 (digit 1) [])) [] refl)

-- `f(1, 1, …)`
abbrev ones : ℕ → Exprs
ones zero = Exprs.none
ones (suc n) = more (digit 1) (ones n)

ones-AreSource : (n : ℕ) → AreSource (ones n)
unfolding IsSource
ones-AreSource zero = tt
ones-AreSource (suc n) = (one-IsSource, ones-AreSource n)

abbrev long_call : List Lexeme
long_call = emit_stmts program_text (emit 0 (call (letter b'f') (ones 17)) [])

parse_overflow_example : parse (parser_on (text long_call)) ≡ fault Fault.buffer_overflow
parse_overflow_example =
    parse_overflow program_text (letter b'f') (ones 17) [] (parser_on (text long_call))
      program-AreSource f-IsName (ones-AreSource 17) (omega arith) tt refl
      (text-Written long_call [] refl)

-- `def f(x, x, …)`
abbrev xs : ℕ → List Word
xs zero = []
xs (suc n) = letter b'x' ∷ xs n

xs-IsName : (n : ℕ) → All IsName (xs n)
xs-IsName zero = tt
xs-IsName (suc n) = (x-IsName, xs-IsName n)

abbrev long_def : ℕ → List Lexeme
long_def n = emit_stmts program_text (def_head (letter b'f') (xs n) [])

parse_param_overflow_example : parse (parser_on (text (long_def 17))) ≡ fault Fault.buffer_overflow
parse_param_overflow_example =
    parse_param_overflow program_text (letter b'f') (xs 17) [] (parser_on (text (long_def 17)))
      program-AreSource f-IsName (xs-IsName 17) (omega arith) tt refl
      (text-Written (long_def 17) [] refl)

parse_too_many_params_example :
    Dies (expected_message tok_semi tok_rparen) (parse (parser_on (text (long_def 16))))
parse_too_many_params_example =
    parse_too_many_params program_text (letter b'f') (xs 16) [] (parser_on (text (long_def 16)))
      program-AreSource f-IsName (xs-IsName 16) refl tt refl (text-Written (long_def 16) [] refl)

-- `; ;`
abbrev two_semis : List Lexeme
two_semis = mark b';' ∷ mark b';' ∷ []

two_semis-AreLexemes : AreLexemes two_semis
two_semis-AreLexemes = (semi-IsLexeme, (semi-IsLexeme, tt))

semi-row : (row : Vtable) → vtables (class_of (mark b';')) ≡ some row → row.as_prefix ≡ none
unfolding vtables punct
semi-row row e = ap (λ (r : Vtable). r.as_prefix) (sym (some_inj e))

no_end :
    (tok_eq (class_of (mark b';')) tok_eos ≡ false)
    × (tok_eq (class_of (mark b';')) tok_rcurl ≡ false)
unfolding punct to_int
no_end = (refl, refl)

parse_no_operand_example :
    (class_of (mark b';') ≢ tok_else
      → Dies (operand_message (mark b';' ∷ [])) (parse (parser_on (after_program two_semis))))
    × (class_of (mark b';') ≡ tok_else
        → parse (parser_on (after_program two_semis)) ≡ fault Fault.bad_table_index)
parse_no_operand_example =
    parse_no_operand program_text (mark b';') (mark b';' ∷ []) (parser_on (after_program two_semis))
      program-AreSource semi-row no_end.0 no_end.1 two_semis-AreLexemes refl
      (text-Written (emit_stmts program_text two_semis) [] refl)
