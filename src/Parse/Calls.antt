-- ===== src/Parse/Calls.antt =====
-- The parser's calls of the lexer: each leaves a typed token, and a scan consumes a byte.
use lilc.Common.{
  ◌+◌, ◌≤◌, ◌≡◌, ap, sym, Bool, true, false, ◌++◌, length, length-append, arith, if◌then◌else◌,
}
use lilc.Double.{Double}
use lilc.Lex.Scan.{lex_scan-Ensures}
use lilc.Lex.Spec.{rest}
use lilc.Lex.Typed.{Typed, Spells-Typed}
use lilc.Lex.{Lexer, lex_scan, lex_consume, lex_consumef, expected_message}
use lilc.Outcome.{ok, died, Ensures, holds, exits, Ensures-bind, Ensures-map, Ensures-if}
use lilc.Parse.Post.{Allowed, Done, After, Runs}
use lilc.Parse.{Parser, on_lex, scan, consume, consumef}
use lilc.Token.{TokType, tok_eq→eq, tok_eq}

module _ {D : Type 0} ⦃dbl : Double D⦄ where
  abbrev LexPost : Lexer D → TokType × Lexer D → Type 0
  LexPost l r = (length (rest r.1) + 1 ≤ length (rest l)) × Typed r.1.tok

  lex_scan-LexPost : (l : Lexer D) → Ensures Allowed (LexPost l) (lex_scan l)
  lex_scan-LexPost l =
      Ensures-map (lex_scan-Ensures l) (λ e h. rw h.0 tt)
        λ (t, l') (x, _).
          let (typed, pos) = Spells-Typed x.spelled in
          (
            omega (
              arith,
              ap length x.splits,
              length-append x.blanks (x.lexeme ++ rest l'),
              length-append x.lexeme (rest l'),
            ),
            rw (sym x.cls) at typed,
          )

  pub scan-Runs : (p : Parser D) → Runs Done 1 p (scan p)
  unfolding on_lex
  scan-Runs p =
      Ensures-bind (lex_scan-LexPost p.lex) (λ e h. h)
        λ (t, l) h. holds (record { shrinks = h.0; typed = h.1; err_kept = λ e. e; result = tt })

  -- What `lex_consume` did: it advanced past a token of class `t`, or nothing.
  data Consumed (t : TokType) (l : Lexer D) : Bool × Lexer D → Type 0 where
    advanced : {l' : Lexer D} → l.tok.cls ≡ t → LexPost l (t, l') → Consumed t l (true, l')
    stayed : Consumed t l (false, l)

  lex_consume-Consumed :
      (t : TokType) (l : Lexer D) → Ensures Allowed (Consumed t l) (lex_consume t l)
  unfolding lex_consume
  lex_consume-Consumed t l =
      Ensures-if (tok_eq l.tok.cls t)
        (λ e.
          Ensures-bind (lex_scan-LexPost l) (λ x h. h)
            λ (_, l') h. holds (advanced (tok_eq→eq _ _ e) h))
        (λ e. holds stayed)

  pub consume-Runs : (t : TokType) (p : Parser D) → Typed p.lex.tok → Runs Done 0 p (consume t p)
  unfolding on_lex
  consume-Runs t p typed =
      Ensures-bind (lex_consume-Consumed t p.lex) (λ e h. h) λ r c. holds (after r c)
    where
      after :
          (r : Bool × Lexer D) → Consumed t p.lex r → After Done 0 p (r.0, record p { lex = r.1 })
      after r (advanced e h) = record {
        shrinks = omega (arith, h.0);
        typed = h.1;
        err_kept = λ x. x;
        result = tt;
      }
      after r stayed = record {
        shrinks = omega arith;
        typed = typed;
        err_kept = λ x. x;
        result = tt;
      }

  lex_consumef-Consumed :
      (t : TokType) (l : Lexer D)
      → Ensures Allowed (λ r. (l.tok.cls ≡ t) × LexPost l (t, r.1)) (lex_consumef t l)
  unfolding lex_consumef
  lex_consumef-Consumed t l = Ensures-bind (lex_consume-Consumed t l) (λ e h. h) finish
    where
      finish :
          (r : Bool × Lexer D)
          → Consumed t l r
          → Ensures Allowed
              (λ (s : Bool × Lexer D). (l.tok.cls ≡ t) × LexPost l (t, s.1))
              (if r.0
                then ok (true, r.1)
                else died r.1.filename r.1.lineno (expected_message t r.1.tok.cls))
      finish r (advanced e h) = holds (e, h)
      finish r stayed = exits

  pub consumef-Runs :
      (t : TokType) (p : Parser D) → Runs (λ _ _. p.lex.tok.cls ≡ t) 1 p (consumef t p)
  unfolding on_lex
  consumef-Runs t p =
      Ensures-bind (lex_consumef-Consumed t p.lex) (λ e h. h)
        λ r (e, h). holds (record { shrinks = h.0; typed = h.1; err_kept = λ x. x; result = e })
