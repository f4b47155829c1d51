-- ===== src/Lex/Written.antt =====
-- The scanner on a list of lexemes as they may be written: with any blanks between them, and with
-- none where the next character does not belong to the lexeme.
use lilc.Lex.Lexeme.{Lexeme, spell, AreLexemes, Apart, IsLexeme, token_of, lexeme-Ready}
use lilc.Outcome.{ok}
use lilc.Common.{
  ◌+◌, ◌≤◌, ◌≡◌, refl, ap, ◌≢◌, List, [], ◌∷◌, ◌++◌, arith, length, length-append, Bytes, subst,
  drop-add,
}
use lilc.Double.{Double}
use lilc.Lex.Complete.{behind, lex_scan_complete}
use lilc.Lex.Spec.{rest, one, IsBlanks}
use lilc.Lex.Stream.{Tokens, end, token}
use lilc.Lex.{Lexer, lex_scan, punct}
use lilc.Token.{TokType, tok_eos, Token, Val}

-- The bytes begin with the lexemes and a NUL byte.
abbrev pub Written : List Lexeme → Bytes → Type 0
Written [] b = (blanks : Bytes) × (after : Bytes) × IsBlanks blanks × (b ≡ blanks ++ 0 ∷ after)
Written (x ∷ xs) b =
    (blanks : Bytes) × (r : Bytes) × IsBlanks blanks
    × Apart x r
    × (b ≡ blanks ++ (spell x ++ r))
    × Written xs r

spell-longer : (x : Lexeme) → 1 ≤ length (spell x)
spell-longer (Lexeme.word_of c cs) = omega arith
spell-longer (Lexeme.number_of c cs) = omega arith
spell-longer (Lexeme.mark c) = omega arith

pub Written-longer : (xs : List Lexeme) (b : Bytes) → Written xs b → length xs ≤ length b
Written-longer [] b w = omega arith
Written-longer (x ∷ xs) b (blanks, r, k, a, e, w) = omega (
  arith,
  Written-longer xs r w,
  ap length e,
  length-append blanks (spell x ++ r),
  length-append (spell x) r,
  spell-longer x,
)

module _ {D : Type 0} ⦃dbl : Double D⦄ where
  abbrev pub tokens_of : Val D → List Lexeme → List (Token D)
  tokens_of old [] = []
  tokens_of old (x ∷ xs) = token_of old x ∷ tokens_of (token_of old x).val xs

  behind-rest :
      (l : Lexer D) (bs w : Bytes) {after : Bytes} (t : TokType) (v : Val D)
      → rest l ≡ bs ++ (w ++ after)
      → rest (behind l bs w t v) ≡ after
  behind-rest l bs w t v h =
      drop-add l.source w (l.offset + length bs) (drop-add l.source bs l.offset h)

  -- `l'` is behind a scan at `l` that made the token `t`, before `xs`.
  pub record Scans (xs : List Lexeme) (l : Lexer D) (t : Token D) (l' : Lexer D) : Type 0 where
    pub run : lex_scan l ≡ ok (t.cls, l')
    pub tok : l'.tok ≡ t
    pub ahead : Written xs (rest l')
    pub goes_on : t.cls ≢ tok_eos

  pub Written-Scans :
      (x : Lexeme) (xs : List Lexeme) (l : Lexer D)
      → IsLexeme x
      → Written (x ∷ xs) (rest l)
      → (l' : Lexer D) × Scans xs l (token_of l.tok.val x) l'
  Written-Scans x xs l h (blanks, r, k, a, e, w) =
      let t = token_of l.tok.val x in
      let ready = lexeme-Ready l.tok.val x r h a in
      (
        behind l blanks (spell x) t.cls t.val,
        record {
          run = lex_scan_complete l blanks (spell x) r t.cls t.val k ready.spells ready.no_err e;
          tok = refl;
          ahead = rw (behind-rest l blanks (spell x) t.cls t.val e) w;
          goes_on = ready.no_eos;
        },
      )

  -- the lexer behind the NUL byte
  abbrev pub at_end : Bytes → Lexer D → Lexer D
  at_end blanks l = behind l blanks (0 ∷ []) tok_eos l.tok.val

  pub Written-end :
      (l : Lexer D) (w : Written [] (rest l)) → lex_scan l ≡ ok (tok_eos, at_end w.0 l)
  unfolding punct
  Written-end l (blanks, after, k, e) =
      lex_scan_complete l blanks (0 ∷ []) after tok_eos l.tok.val k (one 0 refl refl refl) (λ k. cc)
        e

  pub Written-Tokens :
      (xs : List Lexeme) (l : Lexer D)
      → AreLexemes xs
      → Written xs (rest l)
      → (last : Lexer D) × Tokens last l (tokens_of l.tok.val xs)
  Written-Tokens [] l h w = (_, end (Written-end l w))
  Written-Tokens (x ∷ xs) l h w =
      let (l', s) = Written-Scans x xs l h.0 w in
      let (last, more) = Written-Tokens xs l' h.1 s.ahead in
      (
        last,
        subst (λ t. Tokens last l (t ∷ tokens_of t.val xs)) s.tok
            (token (token_of l.tok.val x).cls s.run s.goes_on more),
      )
