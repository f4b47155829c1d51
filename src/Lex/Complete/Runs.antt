-- ===== src/Lex/Complete/Runs.antt =====
-- Runs of the scanner's loops on the characters that are ahead of it.
use lilc.Common.{
  ℕ, zero, suc, ◌+◌, ◌<◌, ◌≤◌, ◌≡◌, refl, ap, sym, ◌∙◌, ◌≢◌, ◌⊎◌, inl, inr, Bool, true, false, ◌&&◌,
  none, some, [], ◌∷◌, ◌++◌, arith, length, Bytes, codes, get_elem?-drop, drop-suc, length-drop-le,
  length-append, bytes_eq, Bool-cases, ltb, append_assoc,
}
use lilc.Double.{Double}
use lilc.Lex.Loops.{store-room, length-snoc, at_offset}
use lilc.Lex.Spec.{rest, IsIdents, IsDigits, word_class, numeral}
use lilc.Lex.{
  Lexer, is_alpha, is_digit, is_ident, is_blank, punct, bump, max_ident, putback, next_char,
  read_char, id_loop, id_token, consume_id, digit_step, number_loop, consume_number, set_tok_type,
}
use native.Mathlib.Numerals.{add-one}
use lilc.Outcome.{Outcome, ok}
use lilc.Token.{TokType, tok_id, tok_def, tok_if, tok_else, tok_dbl, Val, as_dbl, as_str}

pub alpha-range : (c : ℕ) → is_alpha c ≡ true → (65 ≤ c) × (c ≤ 122)
unfolding is_alpha
alpha-range c h = ground arith

pub digit-range : (c : ℕ) → is_digit c ≡ true → (48 ≤ c) × (c ≤ 57)
unfolding is_digit
digit-range c h = ground arith

pub range-punct : (c : ℕ) → 60 < c → c < 123 → punct c ≡ none
unfolding punct
range-punct c h k = ground arith

pub digit-punct : (c : ℕ) → 48 ≤ c → c ≤ 57 → punct c ≡ none
unfolding punct
digit-punct c h k = ground arith

pub range-is_blank : (c : ℕ) → 48 ≤ c → is_blank c ≡ false
unfolding is_blank
range-is_blank c h = ground arith

pub range-is_alpha : (c : ℕ) → c ≤ 57 → is_alpha c ≡ false
unfolding is_alpha
range-is_alpha c h = ground arith

pub punct-is_blank : (c : ℕ) {t : TokType} → punct c ≡ some t → is_blank c ≡ false
unfolding is_blank punct
punct-is_blank c h = ground arith

no_more :
    (i : Bool) (c : ℕ) (buf : Bytes)
    → (i ≡ false) ⊎ (length buf ≡ 62)
    → (i && ltb (length (buf ++ c ∷ [])) 63) ≡ false
no_more i c buf h = ground (arith, length-snoc buf c)

module _ {D : Type 0} where
  abbrev pub advance : ℕ → Lexer D → Lexer D
  advance n l = record l { offset = l.offset + n }

  pub ok-at :
      {A : Type 0} {a b : A} (l : Lexer D) {m n : ℕ}
      → a ≡ b
      → m ≡ n
      → ◌≡◌ {A = Outcome (A × Lexer D)}
          (ok (a, record l { offset = m }))
          (ok (b, record l { offset = n }))
  ok-at l p q = λ i. ok (p i, record l { offset = q i })

  pub next_char-rest :
      (l : Lexer D) {c : ℕ} {r : Bytes} → rest l ≡ c ∷ r → next_char l ≡ ok (c, bump l)
  unfolding next_char
  next_char-rest l h = ap (λ o. read_char o l) (get_elem?-drop l.source l.offset h)

  pub bump-rest : (l : Lexer D) {c : ℕ} {r : Bytes} → rest l ≡ c ∷ r → rest (bump l) ≡ r
  bump-rest l h = rw add-one (drop-suc l.source l.offset h)

  id_loop-run :
      (f c : ℕ) (buf others : Bytes) (l : Lexer D) (next : ℕ) (after : Bytes)
      → length others < f
      → length buf + length others < 63
      → rest l ≡ others ++ next ∷ after
      → IsIdents others
      → (is_ident next ≡ false) ⊎ (length buf + length others ≡ 62)
      → id_loop f c buf l ≡ ok (buf ++ c ∷ others, advance (suc (length others)) l)
  unfolding id_loop
  id_loop-run zero c buf others l next after fuel room h ids stop = absurd (omega arith)
  id_loop-run (suc f) c buf [] l next after fuel room h ids stop =
      rw
        (
          store-room max_ident buf c (omega arith),
          next_char-rest l h,
          no_more (is_ident next) c buf (ground arith),
        )
        refl
  id_loop-run (suc f) c buf (d ∷ ds) l next after fuel room h ids stop =
      let more : (is_ident d && ltb (length (buf ++ c ∷ [])) 63) ≡ true =
        ground (arith, length-snoc buf c) in
      rw (store-room max_ident buf c (omega arith), next_char-rest l h, more)
        (id_loop-run f d (buf ++ c ∷ []) ds (bump l) next after (omega arith)
            (omega (arith, length-snoc buf c)) (bump-rest l h) ids.1
            (ground (arith, length-snoc buf c))
          ∙ ok-at l (append_assoc buf (c ∷ []) (d ∷ ds)) (omega arith))

  ok-token :
      {t u : TokType} {v x : Val D} (l : Lexer D)
      → u ≡ t
      → x ≡ v
      → ◌≡◌ {A = Outcome (TokType × Lexer D)}
          (ok (u, record l { tok = record { cls = u; val = x } }))
          (ok (t, record l { tok = record { cls = t; val = v } }))
  ok-token l p q = λ i. ok (p i, record l { tok = record { cls = p i; val = q i } })

  id_token-word :
      (w : Bytes) (l : Lexer D) (t : TokType) (v : Val D)
      → t ≡ word_class w
      → (t ≡ tok_id → v ≡ as_str w)
      → (t ≢ tok_id → v ≡ l.tok.val)
      → id_token w l ≡ ok (t, record l { tok = record { cls = t; val = v } })
  unfolding id_token set_tok_type
  id_token-word w l t v h named kept = elim (Bool-cases (bytes_eq w (codes "def"))) [
    | inl a ↦
        let e : t ≡ tok_def = h ∙ rw (word_class, a) refl in
        rw a (ok-token l (sym e) (sym (kept λ n. cc)))
    | inr a ↦ elim (Bool-cases (bytes_eq w (codes "if"))) [
      | inl b ↦
          let e : t ≡ tok_if = h ∙ rw (word_class, a, b) refl in
          rw (a, b) (ok-token l (sym e) (sym (kept λ n. cc)))
      | inr b ↦ elim (Bool-cases (bytes_eq w (codes "else"))) [
        | inl c ↦
            let e : t ≡ tok_else = h ∙ rw (word_class, a, b, c) refl in
            rw (a, b, c) (ok-token l (sym e) (sym (kept λ n. cc)))
        | inr c ↦
            let e : t ≡ tok_id = h ∙ rw (word_class, a, b, c) refl in
            rw (a, b, c) (ok-token l (sym e) (sym (named e)))
      ]
    ]
  ]

  putback-advance : (l : Lexer D) (n : ℕ) → putback (advance (suc n) l) ≡ advance n l
  unfolding putback
  putback-advance l n = at_offset l _ _ (omega arith)

  pub consume_id-run :
      (l : Lexer D) (c : ℕ) (others : Bytes) (next : ℕ) (after : Bytes) (t : TokType) (v : Val D)
      → suc (length others) ≤ 63
      → rest l ≡ others ++ next ∷ after
      → IsIdents others
      → (is_ident next ≡ false) ⊎ (suc (length others) ≡ 63)
      → t ≡ word_class (c ∷ others)
      → (t ≡ tok_id → v ≡ as_str (c ∷ others))
      → (t ≢ tok_id → v ≡ l.tok.val)
      → consume_id c l
        ≡ ok (t, record l { offset = l.offset + length others; tok = record { cls = t; val = v } })
  unfolding consume_id
  consume_id-run l c others next after t v short h ids stop k named kept =
      rw
        (
          id_loop-run max_ident c [] others l next after (omega arith) (omega arith) h ids
              (ground arith),
          store-room max_ident (c ∷ others) 0 (omega arith),
          putback-advance l (length others),
        )
        (id_token-word (c ∷ others) (advance (length others) l) t v k named kept)

module _ {D : Type 0} ⦃dbl : Double D⦄ where
  number_loop-run :
      (f c : ℕ) (n : D) (digits : Bytes) (l : Lexer D) (next : ℕ) (after : Bytes)
      → length digits < f
      → rest l ≡ digits ++ next ∷ after
      → IsDigits digits
      → is_digit next ≡ false
      → number_loop f c n l ≡ ok (numeral n (c ∷ digits), advance (suc (length digits)) l)
  unfolding number_loop numeral digit_step
  number_loop-run zero c n digits l next after fuel h ds stop = absurd (omega arith)
  number_loop-run (suc f) c n [] l next after fuel h ds stop = rw (next_char-rest l h, stop) refl
  number_loop-run (suc f) c n (d ∷ digits) l next after fuel h ds stop =
      rw (next_char-rest l h, ds.0)
        (number_loop-run f d (digit_step n c) digits (bump l) next after (omega arith)
            (bump-rest l h) ds.1 stop
          ∙ ok-at l refl (omega arith))

  pub consume_number-run :
      (l : Lexer D) (c : ℕ) (digits : Bytes) (next : ℕ) (after : Bytes)
      → rest l ≡ digits ++ next ∷ after
      → IsDigits digits
      → is_digit next ≡ false
      → consume_number c l
        ≡ ok (
          tok_dbl,
          record l {
            offset = l.offset + length digits;
            tok = record { cls = tok_dbl; val = as_dbl (numeral (dbl.of_int 0) (c ∷ digits)) };
          },
        )
  unfolding consume_number
  consume_number-run l c digits next after h ds stop =
      rw
        (
          number_loop-run (length l.source + 1) c (dbl.of_int 0) digits l next after
              (omega (
                arith,
                ap length h,
                length-append digits (next ∷ after),
                length-drop-le l.offset l.source,
              ))
              h ds stop,
          putback-advance l (length digits),
        )
        refl
