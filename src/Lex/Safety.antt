-- ===== src/Lex/Safety.antt =====
-- The scanner on a buffer that ends in a NUL byte: it stays inside the buffer and keeps count of lines.
use lilc.Common.{
  ◌^◌, true, length-drop, subst, ℕ, zero, suc, ◌+◌, ◌≤◌, ◌<◌, ◌≡◌, refl, ap, ◌∙◌, sym, ◌≢◌, some,
  [], ◌∷◌, ◌++◌, arith, length, take, drop, Bytes, All, All-append, append-nil, append_assoc,
  take-add, lt_of_drop, count, count-append, length-append,
}
use lilc.Double.{Double}
use lilc.Lex.Loops.{ident-ne-zero, digit-ne-zero}
use lilc.Lex.Scan.OneToken.{none-ne-zero}
use lilc.Lex.Scan.{lex_scan-Ensures, blank-ne-zero}
use lilc.Lex.Spec.{
  rest, IsIdents, IsDigits, IsBlanks, NoNul, Spells, one, word, number, unknown, Scanned,
}
use lilc.Lex.{Lexer, is_alpha, is_digit, is_ident, punct, lex_scan}
use lilc.Outcome.{Fault, Ensures, Ensures-map}
use lilc.Token.{TokType, tok_eos, tok_err, Val}

pub nul-ahead : (text : Bytes) (i : ℕ) → i ≤ length text → NoNul (drop i (text ++ 0 ∷ [])) → ⊥
nul-ahead [] zero h n = n.0 refl
nul-ahead [] (suc i) h n = absurd (omega arith)
nul-ahead (c ∷ text) zero h n = nul-ahead text zero (omega arith) n.1
nul-ahead (c ∷ text) (suc i) h n = nul-ahead text i (omega arith) n

idents-nonzero : (w : Bytes) → IsIdents w → NoNul w
idents-nonzero [] h = tt
idents-nonzero (c ∷ w) h = (ident-ne-zero c h.0, idents-nonzero w h.1)

digits-nonzero : (w : Bytes) → IsDigits w → NoNul w
digits-nonzero [] h = tt
digits-nonzero (c ∷ w) h = (digit-ne-zero c h.0, digits-nonzero w h.1)

blanks-nonzero : (w : Bytes) → IsBlanks w → NoNul w
blanks-nonzero [] h = tt
blanks-nonzero (c ∷ w) h = (blank-ne-zero c h.0, blanks-nonzero w h.1)

alpha-ident : (c : ℕ) → is_alpha c ≡ true → is_ident c ≡ true
unfolding is_ident is_alpha
alpha-ident c h = ground arith

punct-nonzero : (c : ℕ) {t : TokType} → punct c ≡ some t → t ≢ tok_eos → c ≢ 0
unfolding punct
punct-nonzero c h n e = ground arith

ident-newline : (c : ℕ) → is_ident c ≡ true → c ≢ b'\n'
unfolding is_ident is_alpha is_digit
ident-newline c h e = ground arith

digit-newline : (c : ℕ) → is_digit c ≡ true → c ≢ b'\n'
unfolding is_digit
digit-newline c h e = ground arith

punct-newline : (c : ℕ) {t : TokType} → punct c ≡ some t → c ≢ b'\n'
unfolding punct
punct-newline c h e = ground arith

abbrev NoNewline : Bytes → Type 0
NoNewline = All (λ c. c ≢ b'\n')

idents-newline : (w : Bytes) → IsIdents w → NoNewline w
idents-newline [] h = tt
idents-newline (c ∷ w) h = (ident-newline c h.0, idents-newline w h.1)

digits-newline : (w : Bytes) → IsDigits w → NoNewline w
digits-newline [] h = tt
digits-newline (c ∷ w) h = (digit-newline c h.0, digits-newline w h.1)

count-newline : (w : Bytes) → NoNewline w → count b'\n' w ≡ 0
count-newline [] h = refl
count-newline (c ∷ w) h = ground (arith, count-newline w h.1)

module _ {D : Type 0} ⦃dbl : Double D⦄ where
  lexeme-nonzero :
      {old v : Val D} {after w : Bytes} {t : TokType}
      → Spells old after t v w
      → t ≢ tok_eos
      → NoNul w
  lexeme-nonzero (one c e p k) n = rw e (punct-nonzero c p n, tt)
  lexeme-nonzero (word x e m k) n =
      rw x.splits
        (ident-ne-zero x.first (alpha-ident x.first x.letter), idents-nonzero x.others x.idents)
  lexeme-nonzero (number x e k) n =
      rw x.splits (digit-ne-zero x.first x.digit, digits-nonzero x.others x.digits)
  lexeme-nonzero (unknown c e f p a d k) n = rw e (none-ne-zero c p, tt)

  lexeme-newline :
      {old v : Val D} {after w : Bytes} {t : TokType}
      → Spells old after t v w
      → t ≢ tok_err
      → NoNewline w
  lexeme-newline (one c e p k) n = rw e (punct-newline c p, tt)
  lexeme-newline (word x e m k) n =
      rw x.splits
        (ident-newline x.first (alpha-ident x.first x.letter), idents-newline x.others x.idents)
  lexeme-newline (number x e k) n =
      rw x.splits (digit-newline x.first x.digit, digits-newline x.others x.digits)
  lexeme-newline (unknown c e f p a d k) n = absurd (n f)

  pub lexeme_pos :
      {old v : Val D} {after w : Bytes} {t : TokType} → Spells old after t v w → 0 < length w
  lexeme_pos (one c e p k) = rw e (omega arith)
  lexeme_pos (word x e m k) = rw x.splits (omega arith)
  lexeme_pos (number x e k) = rw x.splits (omega arith)
  lexeme_pos (unknown c e f p a d k) = rw e (omega arith)

  -- Where a scan leaves the offset, in a buffer that holds `text` and a NUL byte.
  pub record Inside (text : Bytes) (l : Lexer D) (t : TokType) (l' : Lexer D) : Type 0 where
    pub source : l'.source ≡ l.source
    pub forward : l.offset < l'.offset
    pub within : l'.offset ≤ length text + 1
    pub before_nul : t ≢ tok_eos → l'.offset ≤ length text

  pub ends-Inside :
      (text : Bytes) (l : Lexer D) (t : TokType) (l' : Lexer D)
      → l.source ≡ text ++ 0 ∷ []
      → l.offset ≤ length text
      → Scanned l t l'
      → Inside text l t l'
  ends-Inside text l t l' src off x =
      let whole = λ (e : rest l' ≡ []).
        x.splits
        ∙ ap (λ r. x.blanks ++ (x.lexeme ++ r)) e
        ∙ ap (λ w. x.blanks ++ w) (append-nil x.lexeme) in
      let room = λ (n : t ≢ tok_eos). lt_of_drop l'.source l'.offset λ e.
        nul-ahead text l.offset off (
          subst (λ s. NoNul (drop l.offset s)) src
            (subst NoNul (sym (whole e)) (
              All-append (λ c. c ≢ 0) x.blanks x.lexeme (blanks-nonzero x.blanks x.all_blank)
                (lexeme-nonzero x.spelled n)))) in
      record {
        source = x.source;
        forward = omega (arith, x.moved, lexeme_pos x.spelled);
        within = omega (
          arith,
          x.moved,
          ap length x.splits,
          length-append x.blanks (x.lexeme ++ rest l'),
          length-append x.lexeme (rest l'),
          length-drop l.offset l.source,
          ap length src,
          length-append text (0 ∷ []),
        );
        before_nul = λ n.
            omega (arith, room n, ap length x.source, ap length src, length-append text (0 ∷ []));
      }

  -- In a buffer that holds an ASCII text shorter than 2 ^ 31 - 1 bytes and a NUL byte, a scan from
  -- inside the text never reads out of bounds, nor overflows its buffer; it moves forward, and stops
  -- behind the NUL byte only at the end of the source. The offset stays in the range of an `int` of 32 bits, and the buffer's
  -- bytes in that of a `char`, signed or not.
  pub lex_scan_safe :
      (text : Bytes) (l : Lexer D)
      → l.source ≡ text ++ 0 ∷ []
      → l.offset ≤ length text
      → All (λ c. c < 128) text
      → length text + 1 < 2 ^ 31
      → Ensures
          (λ _. ⊥)
          (λ (t, l'). Inside text l t l' × (l'.offset < 2 ^ 31) × All (λ c. c < 128) l'.source)
          (lex_scan l)
  lex_scan_safe text l src off ascii short =
      Ensures-map (lex_scan-Ensures l) (λ e h. nul-ahead text l.offset off (rw src at h.1))
        λ (t, l') (x, _).
          let inside = ends-Inside text l t l' src off x in
          (
            inside,
            omega (arith, inside.within),
            subst (All (λ c. c < 128)) (sym (inside.source ∙ src))
                (All-append (λ c. c < 128) text (0 ∷ []) ascii (omega arith, tt)),
          )

  -- The line number is one more than the newlines read.
  abbrev pub LineOk : Lexer D → Type 0
  LineOk l = l.lineno ≡ 1 + count b'\n' (take l.offset l.source)

  -- A scan keeps the line number right, whatever it skips.
  pub lex_scan-LineOk :
      (l : Lexer D)
      → LineOk l
      → Ensures (λ e. e ≡ Fault.out_of_bounds) (λ (t, l'). LineOk l') (lex_scan l)
  lex_scan-LineOk l h =
      Ensures-map (lex_scan-Ensures l) (λ e f. f.0)
        λ (t, l') (x, n).
          let consumed = x.blanks ++ x.lexeme in
          let moved : l'.offset ≡ l.offset + length consumed =
            omega (arith, x.moved, length-append x.blanks x.lexeme) in
          let split : rest l ≡ consumed ++ rest l' =
            x.splits ∙ sym (append_assoc x.blanks x.lexeme _) in
          rw (x.source, moved, take-add l.source consumed (rest l') l.offset split)
            (omega (
              arith,
              x.lines,
              count-append b'\n' (take l.offset l.source) consumed,
              count-append b'\n' x.blanks x.lexeme,
              count-newline x.lexeme (lexeme-newline x.spelled n),
            ))
