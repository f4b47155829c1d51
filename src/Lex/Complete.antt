-- ===== src/Lex/Complete.antt =====
-- The scanner run on a token that is spelled ahead of it.
mod Runs
use lilc.Lex.Complete.Runs.{
  alpha-range, digit-range, range-punct, digit-punct, range-is_blank, range-is_alpha,
  punct-is_blank, ok-at, next_char-rest, bump-rest, consume_id-run, consume_number-run,
}
use lilc.Common.{
  ℕ, zero, suc, ◌+◌, ◌*◌, ◌<◌, ◌≤◌, ◌≡◌, refl, ap, sym, ◌∙◌, ◌≢◌, ◌⊎◌, inl, inr, Bool, true, false,
  ◌&&◌, Option, none, some, [], ◌∷◌, ◌++◌, arith, length, Bytes, codes, get_elem?, get_elem?-drop,
  drop-suc, drop-add, length-drop-le, length-append, count, bytes_eq, Bool-cases, ltb, append_assoc,
  if◌then◌else◌, ◌==◌,
}
use lilc.Double.{Double}
use lilc.Lex.Loops.{store-room, length-snoc, at_offset}
use lilc.Lex.Spec.{
  rest, IsIdents, IsDigits, IsBlanks, IsWord, IsNumber, word_class, numeral, Spells, one, word,
  number, unknown,
}
use lilc.Lex.{
  Lexer, is_alpha, is_digit, is_ident, is_blank, punct, bump, max_ident, putback, store, next_char,
  read_char, id_loop, id_token, consume_id, digit_step, number_loop, consume_number, scan_default,
  scan_loop, set_tok_type, lex_scan, lex_scan_raw,
}
use native.Mathlib.Numerals.{add-one}
use lilc.Outcome.{Outcome, ok, bind}
use lilc.Token.{
  TokType, tok_eq, ne-tok_eq, tok_err, tok_id, tok_def, tok_if, tok_else, tok_dbl, Val, as_dbl,
  as_str,
}

module _ {D : Type 0} ⦃dbl : Double D⦄ where
  -- What the scanner leaves in the lexer that is `n` bytes further on.
  abbrev read : ℕ → TokType → Val D → Lexer D → Lexer D
  read n t v l = record l { offset = l.offset + n; tok = record { cls = t; val = v } }

  one-run :
      (f : ℕ) (l : Lexer D) (c : ℕ) (after : Bytes) (t : TokType)
      → punct c ≡ some t
      → rest l ≡ c ∷ after
      → scan_loop (suc f) l ≡ ok (t, read 1 t l.tok.val l)
  unfolding scan_loop scan_default set_tok_type
  one-run f l c after t p h = rw (next_char-rest l h, punct-is_blank c p, p) refl

  word-run :
      (f : ℕ) (l : Lexer D) (w after : Bytes) (t : TokType) (v : Val D)
      → IsWord w after
      → t ≡ word_class w
      → (t ≡ tok_id → v ≡ as_str w)
      → (t ≢ tok_id → v ≡ l.tok.val)
      → rest l ≡ w ++ after
      → scan_loop (suc f) l ≡ ok (t, read (length w) t v l)
  unfolding scan_loop scan_default
  word-run f l w after t v x k named kept h =
      let r : rest l ≡ x.first ∷ (x.others ++ x.next ∷ x.after_next) =
        h ∙ ap (λ w. w ++ after) x.splits ∙ ap (λ a. x.first ∷ (x.others ++ a)) x.follows in
      let (low, high) = alpha-range x.first x.letter in
      rw
        (
          next_char-rest l r,
          range-is_blank x.first (omega (arith, low)),
          range-punct x.first (omega (arith, low)) (omega (arith, high)),
          x.letter,
          x.splits,
        )
        (consume_id-run (bump l) x.first x.others x.next x.after_next t v
            (omega (arith, ap length x.splits, x.short)) (bump-rest l r) x.idents
            (rw x.splits at x.maximal) (rw x.splits at k) (rw x.splits at named) kept
          ∙ ok-at (record l { tok = record { cls = t; val = v } }) refl (omega arith))

  number-run :
      (f : ℕ) (l : Lexer D) (w after : Bytes)
      → IsNumber w after
      → rest l ≡ w ++ after
      → scan_loop (suc f) l
        ≡ ok (tok_dbl, read (length w) tok_dbl (as_dbl (numeral (dbl.of_int 0) w)) l)
  unfolding scan_loop scan_default
  number-run f l w after x h =
      let r : rest l ≡ x.first ∷ (x.others ++ x.next ∷ x.after_next) =
        h ∙ ap (λ w. w ++ after) x.splits ∙ ap (λ a. x.first ∷ (x.others ++ a)) x.follows in
      let (low, high) = digit-range x.first x.digit in
      rw
        (
          next_char-rest l r,
          range-is_blank x.first low,
          digit-punct x.first low high,
          range-is_alpha x.first high,
          x.digit,
          x.splits,
        )
        (consume_number-run (bump l) x.first x.others x.next x.after_next (bump-rest l r) x.digits
            x.maximal
          ∙ ok-at
              (record l {
                tok = record {
                  cls = tok_dbl;
                  val = as_dbl (numeral (dbl.of_int 0) (x.first ∷ x.others));
                };
              })
              refl (omega arith))

  token-run :
      (f : ℕ) (l : Lexer D) (w after : Bytes) (t : TokType) (v : Val D)
      → Spells l.tok.val after t v w
      → t ≢ tok_err
      → rest l ≡ w ++ after
      → scan_loop (suc f) l ≡ ok (t, read (length w) t v l)
  token-run f l w after t v (one c e p k) n h =
      rw (e, k) (one-run f l c after t p (h ∙ ap (λ w. w ++ after) e))
  token-run f l w after t v (word x k named kept) n h = word-run f l w after t v x k named kept h
  token-run f l w after t v (number x e k) n h = rw (e, k) (number-run f l w after x h)
  token-run f l w after t v (unknown c e k p a d o) n h = absurd (n k)

  -- The lexer behind the blanks `bs` and the token `w` of class `t` and value `v`.
  abbrev pub behind : Lexer D → Bytes → Bytes → TokType → Val D → Lexer D
  behind l bs w t v = record l {
    offset = l.offset + length bs + length w;
    lineno = l.lineno + count b'\n' bs;
    tok = record { cls = t; val = v };
  }

  behind-at :
      (l : Lexer D) (t : TokType) (v : Val D) {m n i j : ℕ}
      → m ≡ n
      → i ≡ j
      → ◌≡◌ {A = Outcome (TokType × Lexer D)}
          (ok (t, record l { offset = m; lineno = i; tok = record { cls = t; val = v } }))
          (ok (t, record l { offset = n; lineno = j; tok = record { cls = t; val = v } }))
  behind-at l t v p q =
      λ k. ok (t, record l { offset = p k; lineno = q k; tok = record { cls = t; val = v } })

  blanks-run :
      (f : ℕ) (l : Lexer D) (bs w after : Bytes) (t : TokType) (v : Val D)
      → length bs < f
      → IsBlanks bs
      → Spells l.tok.val after t v w
      → t ≢ tok_err
      → rest l ≡ bs ++ (w ++ after)
      → scan_loop f l ≡ ok (t, behind l bs w t v)
  unfolding scan_loop
  blanks-run zero l bs w after t v fuel b s n h = absurd (omega arith)
  blanks-run (suc f) l [] w after t v fuel b s n h =
      token-run f l w after t v s n h ∙ behind-at l t v (omega arith) (omega arith)
  blanks-run (suc f) l (c ∷ bs) w after t v fuel b s n h =
      let line = if c == b'\n' then l.lineno + 1 else l.lineno in
      rw (next_char-rest l h, b.0)
        (blanks-run f (record (bump l) { lineno = line }) bs w after t v (omega arith) b.1 s n
            (bump-rest l h)
          ∙ behind-at l t v (omega arith) (ground arith))

  -- A token that is spelled behind blanks is the one that the scanner reads, and it leaves the lexer
  -- right behind it.
  pub lex_scan_complete :
      (l : Lexer D) (bs w after : Bytes) (t : TokType) (v : Val D)
      → IsBlanks bs
      → Spells l.tok.val after t v w
      → t ≢ tok_err
      → rest l ≡ bs ++ (w ++ after)
      → lex_scan l ≡ ok (t, behind l bs w t v)
  unfolding lex_scan lex_scan_raw
  lex_scan_complete l bs w after t v b s n h =
      rw
        (
          blanks-run (length l.source + 1) l bs w after t v
              (omega (
                arith,
                ap length h,
                length-append bs (w ++ after),
                length-drop-le l.offset l.source,
              ))
              b s n h,
          ne-tok_eq t tok_err n,
        )
        refl
