-- ===== src/Lex/Scan.antt =====
-- `lex_scan`: what it reads spells the token that it returns, and it needs a NUL byte to be safe.
pub mod OneToken
use lilc.Lex.Scan.OneToken.{Lexed, scan_default-Lexed, punct-ne_err, word_class-ne_err}
use lilc.Common.{
  ℕ, zero, suc, ◌+◌, ◌<◌, ◌≡◌, refl, ap, ◌∙◌, ◌≢◌, Bool, true, false, Bool-cases, inl, inr, sym,
  if◌then◌else◌, Option, none, some, [], ◌∷◌, ◌++◌, arith, length, Bytes, codes, drop-add,
  length-drop-le, count, bytes_eq,
}
use lilc.Double.{Double}
use lilc.Lex.Loops.{IdRun, id_loop-Yields, number_loop-Yields, store-room}
use lilc.Lex.Spec.{
  rest, IsBlanks, BeginsNoBlank, unknown_input, ReadsPast, word_class, Spells, one, word, number,
  unknown, Scanned, next_char-Yields,
}
use lilc.Lex.{
  Lexer, is_alpha, is_digit, is_blank, punct, bump, max_ident, putback, id_token, consume_id,
  consume_number, scan_default, scan_loop, set_tok_type, lex_err, message, lex_scan, lex_scan_raw,
}
use lilc.Outcome.{
  Outcome, ok, died, fault, Fault, bind, Ensures, holds, exits, faults, Yields, yields, misses,
  Yields-bind, Yields-map, Yields-if,
}
use lilc.Token.{TokType, Val, tok_eq, tok_eq-ne, tok_eq→eq, tok_err, tok_id, as_dbl, as_str}

pub blank-ne-zero : (c : ℕ) → is_blank c ≡ true → c ≢ 0
unfolding is_blank
blank-ne-zero c h e = ground arith

-- A byte that begins no token.
record Unknown (w : Bytes) : Type 0 where
  byte : ℕ
  only : w ≡ byte ∷ []
  no_blank : is_blank byte ≡ false
  no_mark : punct byte ≡ none
  no_letter : is_alpha byte ≡ false
  no_digit : is_digit byte ≡ false

module _ {D : Type 0} ⦃dbl : Double D⦄ where
  Scanned-here :
      (c : ℕ) (l : Lexer D) (t : TokType) (l' : Lexer D)
      → is_blank c ≡ false
      → rest l ≡ c ∷ rest (bump l)
      → Lexed c (bump l) t l'
      → Scanned l t l'
  Scanned-here c l t l' b s x = record {
    blanks = [];
    lexeme = c ∷ x.others;
    splits = s ∙ ap (◌∷◌ c) x.splits;
    all_blank = tt;
    begins = b;
    spelled = x.spelled;
    cls = x.cls;
    err = x.err;
    source = x.source;
    filename = x.filename;
    moved = omega (arith, x.moved);
    lines = omega (arith, x.lineno);
  }

  Scanned-blank :
      (c line : ℕ) (l : Lexer D) (t : TokType) (l' : Lexer D)
      → rest l ≡ c ∷ rest (bump l)
      → is_blank c ≡ true
      → line ≡ l.lineno + count b'\n' (c ∷ [])
      → Scanned (record (bump l) { lineno = line }) t l'
      → Scanned l t l'
  Scanned-blank c line l t l' s b e x = record {
    blanks = c ∷ x.blanks;
    lexeme = x.lexeme;
    splits = s ∙ ap (◌∷◌ c) x.splits;
    all_blank = (b, x.all_blank);
    begins = x.begins;
    spelled = x.spelled;
    cls = x.cls;
    err = x.err;
    source = x.source;
    filename = x.filename;
    moved = omega (arith, x.moved);
    lines = omega (arith, x.lines);
  }

  scan_loop-Scanned :
      (f : ℕ) (l : Lexer D)
      → length (rest l) < f
      → Yields (ReadsPast l) (λ (t, l'). Scanned l t l') (scan_loop f l)
  unfolding scan_loop
  scan_loop-Scanned zero l fuel = absurd (omega arith)
  scan_loop-Scanned (suc f) l fuel =
      Yields-bind (next_char-Yields l) (λ e h. (h.0, rw h.1 tt))
        λ (c, l1) (bumped, s). rw bumped (
          Yields-if (is_blank c)
            (λ b.
              Yields-map
                (scan_loop-Scanned f (record (bump l) { lineno = _ }) (omega (arith, ap length s)))
                (λ e h. (h.0, rw s (blank-ne-zero c b, h.1)))
                (λ (t, l') x. Scanned-blank c _ l t l' s b (ground arith) x))
            (λ b.
              Yields-map (scan_default-Lexed (punct c) c (bump l) refl)
                (λ e h. (h.0.0, rw s (h.1, h.0.1))) (λ (t, l') x. Scanned-here c l t l' b s x)))

  -- How a scan ends.
  pub data ScanEnds (l : Lexer D) : Outcome (TokType × Lexer D) → Type 0 where
    -- It reads blanks and a token.
    reads : {t : TokType} {l' : Lexer D} → Scanned l t l' → t ≢ tok_err → ScanEnds l (ok (t, l'))
    -- It stops behind blanks at the byte `c`, with the name of the file and the line of this byte.
    stops :
        (blanks : Bytes) (c : ℕ) (after : Bytes)
        → rest l ≡ blanks ++ c ∷ after
        → IsBlanks blanks
        → is_blank c ≡ false
        → punct c ≡ none
        → is_alpha c ≡ false
        → is_digit c ≡ false
        → ScanEnds l (died l.filename (l.lineno + count b'\n' blanks) unknown_input)
    past : {e : Fault} → ReadsPast l e → ScanEnds l (fault e)

  Spells-Unknown :
      {old v : Val D} {after w : Bytes} {t : TokType}
      → Spells old after t v w
      → t ≡ tok_err
      → BeginsNoBlank w
      → Unknown w
  Spells-Unknown {t = t} (one c e p k) h b = absurd (punct-ne_err c t p h)
  Spells-Unknown {w = w} (word x e n k) h b = absurd (word_class-ne_err w (sym e ∙ h))
  Spells-Unknown (number x e k) h b = cc
  Spells-Unknown (unknown c e f p a d k) h b = record {
    byte = c;
    only = e;
    no_blank = rw e at b;
    no_mark = p;
    no_letter = a;
    no_digit = d;
  }

  err-stops :
      (l l' : Lexer D) (t : TokType)
      → Scanned l t l'
      → t ≡ tok_err
      → ScanEnds l (died l'.filename l'.lineno (message l'.err))
  err-stops l l' t x e =
      let u = Spells-Unknown x.spelled e x.begins in
      rw (x.filename, x.lines, x.err e)
        (stops x.blanks u.byte (rest l') (x.splits ∙ ap (λ w. x.blanks ++ (w ++ rest l')) u.only)
          x.all_blank u.no_blank u.no_mark u.no_letter u.no_digit)

  ends-ScanEnds :
      (l : Lexer D) {r : Outcome (TokType × Lexer D)}
      → Yields (ReadsPast l) (λ (t, l'). Scanned l t l') r
      → ScanEnds l (
          bind r λ (t, l').
            if tok_eq t tok_err then died l'.filename l'.lineno (message l'.err) else ok (t, l'))
  ends-ScanEnds l (misses h) = past h
  ends-ScanEnds l (yields {a} x) = elim (Bool-cases (tok_eq a.0 tok_err)) [
    | inl e ↦ rw e (err-stops l a.1 a.0 x (tok_eq→eq a.0 tok_err e))
    | inr e ↦ rw e (reads x (tok_eq-ne a.0 tok_err e))
  ]

  -- A scan reads blanks and then the longest token there is, but for an identifier cut at 63
  -- characters; it returns the class and leaves class, value, offset and line in the lexer. It stops with
  -- the scanner's message, the file and the line only at a byte, behind blanks, that is no blank and
  -- begins no token, and reads out of bounds only if the rest of the buffer has no NUL byte. It
  -- always ends.
  pub lex_scan_sound : (l : Lexer D) → ScanEnds l (lex_scan l)
  unfolding lex_scan lex_scan_raw
  lex_scan_sound l =
      ends-ScanEnds l (
        scan_loop-Scanned (length l.source + 1) l (omega (arith, length-drop-le l.offset l.source)))

  ScanEnds-Ensures :
      (l : Lexer D) {r : Outcome (TokType × Lexer D)}
      → ScanEnds l r
      → Ensures (ReadsPast l) (λ (t, l'). Scanned l t l' × (t ≢ tok_err)) r
  ScanEnds-Ensures l (reads x n) = holds (x, n)
  ScanEnds-Ensures l (stops _ _ _ _ _ _ _ _ _) = exits
  ScanEnds-Ensures l (past h) = faults h

  -- What a scan that returns has read, and where it reads out of bounds.
  pub lex_scan-Ensures :
      (l : Lexer D) → Ensures (ReadsPast l) (λ (t, l'). Scanned l t l' × (t ≢ tok_err)) (lex_scan l)
  lex_scan-Ensures l = ScanEnds-Ensures l (lex_scan_sound l)
