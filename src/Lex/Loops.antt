-- ===== src/Lex/Loops.antt =====
-- The two loops inside a token: an identifier's characters and a number's digits.
use lilc.Common.{
  ℕ, zero, suc, ◌+◌, ◌≤◌, ◌<◌, ◌≡◌, refl, ap, ◌∙◌, ◌≢◌, ◌⊎◌, true, false, ◌&&◌, [], ◌∷◌, ◌++◌,
  arith, length, ltb, length-append, Bytes, append_assoc,
}
use lilc.Double.{Double}
use lilc.Lex.Spec.{rest, IsIdents, IsDigits, ReadsPast, numeral, next_char-Yields}
use lilc.Lex.{Lexer, is_digit, is_ident, store, bump, max_ident, id_loop, number_loop, digit_step}
use lilc.Outcome.{ok, Yields, yields, Yields-bind, Yields-map, Yields-if}

pub ident-ne-zero : (c : ℕ) → is_ident c ≡ true → c ≢ 0
unfolding is_ident
ident-ne-zero c h e = ground arith

pub digit-ne-zero : (c : ℕ) → is_digit c ≡ true → c ≢ 0
unfolding is_digit
digit-ne-zero c h e = ground arith

pub store-room : (n : ℕ) (buf : Bytes) (c : ℕ) → length buf < n → store n buf c ≡ ok (buf ++ c ∷ [])
unfolding store
store-room n buf c h = ground arith

pub length-snoc : (buf : Bytes) (c : ℕ) → length (buf ++ c ∷ []) ≡ suc (length buf)
length-snoc buf c = omega (arith, length-append buf (c ∷ []))

module _ {D : Type 0} where
  -- Where the loop stops: `chars` followed `c`, and `next` was read but not kept.
  pub record IdRun (c : ℕ) (buf : Bytes) (l : Lexer D) (r : Bytes × Lexer D) : Type 0 where
    pub chars : Bytes
    pub next : ℕ
    pub after : Bytes
    pub kept : r.0 ≡ buf ++ c ∷ chars
    pub suffix : rest l ≡ chars ++ next ∷ after
    pub idents : IsIdents chars
    pub short : length r.0 ≤ 63
    pub maximal : (is_ident next ≡ false) ⊎ (length r.0 ≡ 63)
    pub ends : r.1 ≡ record l { offset = l.offset + suc (length chars) }

  pub at_offset :
      (l : Lexer D) (m n : ℕ) → m ≡ n → record l { offset = m } ≡ record l { offset = n }
  at_offset l m n e = ap (λ o. record l { offset = o }) e

  IdRun-stop :
      (c next : ℕ) (buf : Bytes) (l : Lexer D)
      → rest l ≡ next ∷ rest (bump l)
      → length buf < 63
      → (is_ident next && ltb (length (buf ++ c ∷ [])) 63) ≡ false
      → IdRun c buf l (buf ++ c ∷ [], bump l)
  IdRun-stop c next buf l s room t = record {
    chars = [];
    next = next;
    after = rest (bump l);
    kept = refl;
    suffix = s;
    idents = tt;
    short = omega (arith, length-snoc buf c);
    maximal = ground (arith, length-snoc buf c);
    ends = at_offset l _ _ (omega arith);
  }

  IdRun-more :
      (c next : ℕ) (buf : Bytes) (l : Lexer D) (r : Bytes × Lexer D)
      → rest l ≡ next ∷ rest (bump l)
      → is_ident next ≡ true
      → IdRun next (buf ++ c ∷ []) (bump l) r
      → IdRun c buf l r
  IdRun-more c next buf l r s i t = record {
    chars = next ∷ t.chars;
    next = t.next;
    after = t.after;
    kept = t.kept ∙ append_assoc buf (c ∷ []) (next ∷ t.chars);
    suffix = s ∙ ap (◌∷◌ next) t.suffix;
    idents = (i, t.idents);
    short = t.short;
    maximal = t.maximal;
    ends = t.ends ∙ at_offset l _ _ (omega arith);
  }

  pub id_loop-Yields :
      (f c : ℕ) (buf : Bytes) (l : Lexer D)
      → length buf < 63
      → 63 ≤ length buf + f
      → Yields (ReadsPast l) (IdRun c buf l) (id_loop f c buf l)
  unfolding id_loop
  id_loop-Yields zero c buf l room fuel = absurd (omega arith)
  id_loop-Yields (suc f) c buf l room fuel = rw (store-room max_ident buf c (omega arith)) (
      Yields-bind (next_char-Yields l) (λ e h. (h.0, rw h.1 tt))
        λ (c', l') (bumped, s). rw bumped (
          Yields-if (is_ident c' && ltb (length (buf ++ c ∷ [])) 63)
            (λ more.
              Yields-map
                (id_loop-Yields f c' (buf ++ c ∷ []) (bump l) (ground (arith, length-snoc buf c))
                  (omega (arith, length-snoc buf c)))
                (λ e h. (h.0, rw s (ident-ne-zero c' (ground arith), h.1)))
                (λ r t. IdRun-more c c' buf l r s (ground arith) t))
            (λ stop. yields (IdRun-stop c c' buf l s room stop))))

module _ {D : Type 0} ⦃dbl : Double D⦄ where
  pub record NumberRun (c : ℕ) (n : D) (l : Lexer D) (r : D × Lexer D) : Type 0 where
    pub digits : Bytes
    pub next : ℕ
    pub after : Bytes
    pub value : r.0 ≡ numeral n (c ∷ digits)
    pub suffix : rest l ≡ digits ++ next ∷ after
    pub all_digits : IsDigits digits
    pub maximal : is_digit next ≡ false
    pub ends : r.1 ≡ record l { offset = l.offset + suc (length digits) }

  NumberRun-stop :
      (c next : ℕ) (n : D) (l : Lexer D)
      → rest l ≡ next ∷ rest (bump l)
      → is_digit next ≡ false
      → NumberRun c n l (digit_step n c, bump l)
  unfolding numeral digit_step
  NumberRun-stop c next n l s stop = record {
    digits = [];
    next = next;
    after = rest (bump l);
    value = refl;
    suffix = s;
    all_digits = tt;
    maximal = stop;
    ends = at_offset l _ _ (omega arith);
  }

  NumberRun-more :
      (c next : ℕ) (n : D) (l : Lexer D) (r : D × Lexer D)
      → rest l ≡ next ∷ rest (bump l)
      → is_digit next ≡ true
      → NumberRun next (digit_step n c) (bump l) r
      → NumberRun c n l r
  unfolding numeral digit_step
  NumberRun-more c next n l r s i t = record {
    digits = next ∷ t.digits;
    next = t.next;
    after = t.after;
    value = t.value;
    suffix = s ∙ ap (◌∷◌ next) t.suffix;
    all_digits = (i, t.all_digits);
    maximal = t.maximal;
    ends = t.ends ∙ at_offset l _ _ (omega arith);
  }

  pub number_loop-Yields :
      (f c : ℕ) (n : D) (l : Lexer D)
      → length (rest l) < f
      → Yields (ReadsPast l) (NumberRun c n l) (number_loop f c n l)
  unfolding number_loop
  number_loop-Yields zero c n l fuel = absurd (omega arith)
  number_loop-Yields (suc f) c n l fuel =
      Yields-bind (next_char-Yields l) (λ e h. (h.0, rw h.1 tt))
        λ (c', l') (bumped, s). rw bumped (
          Yields-if (is_digit c')
            (λ more.
              Yields-map
                (number_loop-Yields f c' (digit_step n c) (bump l) (omega (arith, ap length s)))
                (λ e h. (h.0, rw s (digit-ne-zero c' more, h.1)))
                (λ r t. NumberRun-more c c' n l r s more t))
            (λ stop. yields (NumberRun-stop c c' n l s stop)))
