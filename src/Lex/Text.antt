-- ===== src/Lex/Text.antt =====
-- One way to write a list of lexemes: each behind a space.
use lilc.Common.{◌≡◌, refl, ap, ◌∙◌, inl, List, [], ◌∷◌, ◌++◌, Bytes, append_assoc, false, ℕ}
use lilc.Double.{Double}
use lilc.Lex.Lexeme.{Lexeme, word_of, number_of, mark, spell, AreLexemes, Apart}
use lilc.Lex.Spec.{rest}
use lilc.Lex.Stream.{Tokens}
use lilc.Lex.Written.{Written, tokens_of, Written-Tokens}
use lilc.Lex.{Lexer, is_alpha, is_digit, is_ident, is_blank}

abbrev pub text : List Lexeme → Bytes
text [] = []
text (x ∷ xs) = b' ' ∷ (spell x ++ text xs)

space_or_nul-Apart :
    (x : Lexeme) (n : ℕ) (r : Bytes) → is_ident n ≡ false → is_digit n ≡ false → Apart x (n ∷ r)
space_or_nul-Apart (word_of c cs) n r i d = (n, r, refl, inl i)
space_or_nul-Apart (number_of c cs) n r i d = (n, r, refl, d)
space_or_nul-Apart (mark c) n r i d = tt

text-Apart : (x : Lexeme) (xs : List Lexeme) (after : Bytes) → Apart x (text xs ++ 0 ∷ after)
unfolding is_ident is_alpha is_digit
text-Apart x [] after = space_or_nul-Apart x 0 after refl refl
text-Apart x (y ∷ xs) after = space_or_nul-Apart x b' ' _ refl refl

pub text-Written :
    (xs : List Lexeme) (after : Bytes) {b : Bytes} → b ≡ text xs ++ 0 ∷ after → Written xs b
unfolding is_blank
text-Written [] after e = ([], after, tt, e)
text-Written (x ∷ xs) after e = (
  b' ' ∷ [],
  text xs ++ 0 ∷ after,
  (refl, tt),
  text-Apart x xs after,
  e ∙ ap (◌∷◌ b' ') (append_assoc (spell x) (text xs) (0 ∷ after)),
  text-Written xs after refl,
)

module _ {D : Type 0} ⦃dbl : Double D⦄ where
  -- A text of lexemes, each behind a space, with a NUL byte at its end scans to their tokens.
  pub text-Tokens :
      (xs : List Lexeme) (l : Lexer D) (after : Bytes)
      → AreLexemes xs
      → rest l ≡ text xs ++ 0 ∷ after
      → (last : Lexer D) × Tokens last l (tokens_of l.tok.val xs)
  text-Tokens xs l after h e = Written-Tokens xs l h (text-Written xs after e)
