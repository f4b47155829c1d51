-- ===== src/Lex/Number.antt =====
-- The value of a number token.
use lilc.Common.{ℕ, ◌+◌, ◌-◌, ◌*◌, ◌^◌, ◌≤◌, ◌≡◌, refl, ap, sym, ◌∙◌, [], ◌∷◌, ◌++◌, arith, Bytes}
use lilc.Double.{Double}
use lilc.Lex.Scan.{lex_scan-Ensures}
use lilc.Lex.Spec.{IsBlanks, IsNumber, numeral, Spells, one, word, number, unknown, rest}
use lilc.Lex.Typed.{punct-ne, word_class-ne}
use lilc.Lex.{Lexer, lex_scan}
use lilc.Outcome.{ok, Ensures-ok}
use lilc.Token.{TokType, tok_dbl, Val, as_dbl}

-- The number that decimal digits stand for, after `n`.
unfoldable pub decimal : ℕ → Bytes → ℕ
decimal n [] = n
decimal n (c ∷ cs) = decimal (n * 10 + (c - b'0')) cs

decimal-ge : (n : ℕ) (w : Bytes) → n ≤ decimal n w
unfolding decimal
decimal-ge n [] = omega arith
decimal-ge n (c ∷ cs) = omega (arith, decimal-ge (n * 10 + (c - b'0')) cs)

module _ {D : Type 0} ⦃dbl : Double D⦄ where
  numeral-decimal :
      (n : ℕ) (w : Bytes)
      → decimal n w ≤ 2 ^ 53
      → numeral (dbl.of_int n) w ≡ dbl.of_int (decimal n w)
  unfolding numeral decimal
  numeral-decimal n [] h = refl
  numeral-decimal n (c ∷ cs) h =
      let m = n * 10 + (c - b'0') in
      rw (dbl.horner_exact n (c - b'0') (omega (arith, decimal-ge m cs))) (numeral-decimal m cs h)

  IsNumber-value :
      {old v : Val D} {after w : Bytes} {t : TokType}
      → Spells old after t v w
      → t ≡ tok_dbl
      → IsNumber w after × (v ≡ as_dbl (numeral (dbl.of_int 0) w))
  IsNumber-value {t = t} (one c e p k) d = absurd ((punct-ne c t p).1 d)
  IsNumber-value {w = w} (word x e n k) d = absurd (word_class-ne w (sym e ∙ d))
  IsNumber-value (number x e k) d = (x, k)
  IsNumber-value (unknown c e f p a g k) d = cc

  -- A scan that returns a number has read blanks and then a whole run of digits, which ends at a
  -- character of another kind; the value is the decimal number, exactly up to 2 ^ 53.
  pub lex_scan-IsNumber :
      (l : Lexer D) {l' : Lexer D}
      → lex_scan l ≡ ok (tok_dbl, l')
      → (blanks : Bytes) × (w : Bytes) × (rest l ≡ blanks ++ (w ++ rest l'))
        × IsBlanks blanks
        × IsNumber w (rest l')
        × (decimal 0 w ≤ 2 ^ 53 → l'.tok.val ≡ as_dbl (dbl.of_int (decimal 0 w)))
  lex_scan-IsNumber l e =
      let (x, _) = Ensures-ok (lex_scan-Ensures l) e in
      let (run, value) = IsNumber-value x.spelled refl in
      (
        x.blanks,
        x.lexeme,
        x.splits,
        x.all_blank,
        run,
        λ h. value ∙ ap as_dbl (numeral-decimal 0 x.lexeme h),
      )
