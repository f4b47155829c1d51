-- ===== src/Lex/Ends.antt =====
-- `tok_strm_readf` on any text, and the union of the tokens it reads.
use lilc.Common.{◌≡◌, sym}
use lilc.Double.{Double}
use lilc.Lex.Scan.{lex_scan-Ensures}
use lilc.Lex.Spec.{Scanned}
use lilc.Lex.Typed.{Typed, Spells-Typed}
use lilc.Lex.{Lexer, lex_scan}
use lilc.Outcome.{Fault, Ensures, Ensures-map}
use lilc.Token.{TokType}

module _ {D : Type 0} ⦃dbl : Double D⦄ where
  Scanned-Typed : (l l' : Lexer D) (t : TokType) → Scanned l t l' → (l'.tok.cls ≡ t) × Typed l'.tok
  Scanned-Typed l l' t x =
      let (typed, pos) = Spells-Typed x.spelled in (x.cls, rw (sym x.cls) at typed)

  -- A scan that returns leaves a token of the class that it returns; the member of the token's union
  -- that belongs to this class, if there is one, is the member written last.
  pub lex_scan-Typed :
      (l : Lexer D)
      → Ensures
          (λ e. e ≡ Fault.out_of_bounds)
          (λ (t, l'). (l'.tok.cls ≡ t) × Typed l'.tok)
          (lex_scan l)
  lex_scan-Typed l =
      Ensures-map (lex_scan-Ensures l) (λ e f. f.0) λ (t, l') x. Scanned-Typed l l' t x.0
