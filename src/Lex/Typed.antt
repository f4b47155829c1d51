-- ===== src/Lex/Typed.antt =====
-- A scanned token holds the union member that its class selects.
use lilc.Common.{ℕ, ◌<◌, ◌≡◌, sym, ◌∙◌, ◌≢◌, some, arith, length, Bytes, subst}
use lilc.Double.{Double}
use lilc.Lex.Spec.{word_class, Spells, one, word, number, unknown}
use lilc.Lex.{punct}
use lilc.Token.{TokType, tok_id, tok_dbl, Token, Val, as_dbl, as_str}

abbrev pub HasStr : {D : Type 0} → Val D → Type 0
HasStr (as_str _) = Unit
HasStr _ = ⊥

abbrev pub HasDbl : {D : Type 0} → Val D → Type 0
HasDbl (as_dbl _) = Unit
HasDbl _ = ⊥

-- The union member that a class reads is the one that was written.
abbrev pub Typed : {D : Type 0} → Token D → Type 0
Typed tok = (tok.cls ≡ tok_id → HasStr tok.val) × (tok.cls ≡ tok_dbl → HasDbl tok.val)

pub punct-ne : (c : ℕ) (t : TokType) → punct c ≡ some t → (t ≢ tok_id) × (t ≢ tok_dbl)
unfolding punct
punct-ne c t h = ground arith

pub word_class-ne : (w : Bytes) → word_class w ≢ tok_dbl
word_class-ne w = ground arith

module _ {D : Type 0} ⦃dbl : Double D⦄ where
  pub Spells-Typed :
      {old v : Val D} {after w : Bytes} {t : TokType}
      → Spells old after t v w
      → Typed (record { cls = t; val = v }) × (0 < length w)
  Spells-Typed {t = t} (one c e p k) =
      ((λ i. absurd ((punct-ne c t p).0 i), λ d. absurd ((punct-ne c t p).1 d)), rw e (omega arith))
  Spells-Typed {w = w} (word x e n k) = (
    (λ i. subst HasStr (sym (n i)) tt, λ d. absurd (word_class-ne w (sym e ∙ d))),
    rw x.splits (omega arith),
  )
  Spells-Typed (number x e k) = ((λ i. cc, λ d. subst HasDbl (sym k) tt), rw x.splits (omega arith))
  Spells-Typed (unknown c e f p a d k) = ((λ i. cc, λ d. cc), rw e (omega arith))
