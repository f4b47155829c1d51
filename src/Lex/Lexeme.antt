-- ===== src/Lex/Lexeme.antt =====
-- Lexemes: what is written for a token, and the token that the scanner makes of it.
use lilc.Common.{
  ℕ, suc, ◌≤◌, ◌≡◌, refl, ap, sym, ◌∙◌, ◌≢◌, ◌⊎◌, Bool, true, false, Option, none, some, List, [],
  ◌∷◌, arith, length, Bytes, codes, All, bytes_eq,
}
use lilc.Double.{Double}
use lilc.Lex.Spec.{IsIdents, IsDigits, word_class, numeral, Spells, one, word, number}
use lilc.Lex.{is_alpha, is_digit, is_ident, punct}
use lilc.Token.{
  TokType, tok_err, tok_eos, tok_id, tok_def, tok_if, tok_else, tok_dbl, Token, Val, as_dbl, as_str,
}

-- A word or a number by its first character and the others, or a character that is a token.
pub data Lexeme : Type 0 where
  word_of number_of : ℕ → Bytes → Lexeme
  mark : ℕ → Lexeme

abbrev pub spell : Lexeme → Bytes
spell (word_of c cs) = c ∷ cs
spell (number_of c cs) = c ∷ cs
spell (mark c) = c ∷ []

unfoldable pub IsLexeme : Lexeme → Type 0
IsLexeme (word_of c cs) = (is_alpha c ≡ true) × IsIdents cs × (suc (length cs) ≤ 63)
IsLexeme (number_of c cs) = (is_digit c ≡ true) × IsDigits cs
IsLexeme (mark c) = (c ≢ 0) × (punct c ≢ none)

abbrev pub AreLexemes : List Lexeme → Type 0
AreLexemes = All IsLexeme

-- What follows a lexeme does not belong to it.
abbrev pub Apart : Lexeme → Bytes → Type 0
Apart (word_of c cs) r =
    (n : ℕ) × (others : Bytes) × (r ≡ n ∷ others) × ((is_ident n ≡ false) ⊎ (suc (length cs) ≡ 63))
Apart (number_of c cs) r = (n : ℕ) × (others : Bytes) × (r ≡ n ∷ others) × (is_digit n ≡ false)
Apart (mark c) r = Unit

word_class-ne : (w : Bytes) → (word_class w ≢ tok_err) × (word_class w ≢ tok_eos)
word_class-ne w =
    go (bytes_eq w (codes "def")) (bytes_eq w (codes "if")) (bytes_eq w (codes "else"))
  where
    keyword : Bool → Bool → Bool → TokType
    keyword a b c = elim a [
      | true ↦ tok_def
      | false ↦ elim b [ true ↦ tok_if | false ↦ elim c [ true ↦ tok_else | false ↦ tok_id ] ]
    ]

    go : (a b c : Bool) → (keyword a b c ≢ tok_err) × (keyword a b c ≢ tok_eos)
    go true b c = (λ e. cc, λ e. cc)
    go false true c = (λ e. cc, λ e. cc)
    go false false true = (λ e. cc, λ e. cc)
    go false false false = (λ e. cc, λ e. cc)

punct-ne_err : (c : ℕ) → punct c ≢ some tok_err
unfolding punct
punct-ne_err c h = ground arith

punct-eos : (c : ℕ) → punct c ≡ some tok_eos → c ≡ 0
unfolding punct
punct-eos c h = ground arith

module _ {D : Type 0} ⦃dbl : Double D⦄ where
  -- A keyword and a mark keep the value of the token before, `old`.
  abbrev pub word_token : TokType → Bytes → Val D → Token D
  word_token tok_id w old = record { cls = tok_id; val = as_str w }
  word_token t w old = record { cls = t; val = old }

  abbrev pub mark_token : Option TokType → Val D → Token D
  mark_token none old = record { cls = tok_err; val = old }
  mark_token (some t) old = record { cls = t; val = old }

  abbrev pub token_of : Val D → Lexeme → Token D
  token_of old (word_of c cs) = word_token (word_class (c ∷ cs)) (c ∷ cs) old
  token_of old (number_of c cs) = record {
    cls = tok_dbl;
    val = as_dbl (numeral (dbl.of_int 0) (c ∷ cs));
  }
  token_of old (mark c) = mark_token (punct c) old

  -- What `lex_scan_complete` needs of a token.
  pub record Ready (old : Val D) (after w : Bytes) (t : Token D) : Type 0 where
    pub spells : Spells old after t.cls t.val w
    pub no_err : t.cls ≢ tok_err
    pub no_eos : t.cls ≢ tok_eos

  pub word_token-cls : (u : TokType) (w : Bytes) (old : Val D) → (word_token u w old).cls ≡ u
  word_token-cls tok_id w old = refl
  word_token-cls _ w old = refl

  pub word_token-named :
      (u : TokType) (w : Bytes) (old : Val D)
      → (word_token u w old).cls ≡ tok_id
      → (word_token u w old).val ≡ as_str w
  word_token-named tok_id w old e = refl
  word_token-named tok_eos w old e = cc
  word_token-named _ w old e = cc

  word_token-kept :
      (u : TokType) (w : Bytes) (old : Val D)
      → (word_token u w old).cls ≢ tok_id
      → (word_token u w old).val ≡ old
  word_token-kept tok_id w old n = absurd (n refl)
  word_token-kept _ w old n = refl

  pub lexeme-Ready :
      (old : Val D) (x : Lexeme) (r : Bytes)
      → IsLexeme x
      → Apart x r
      → Ready old r (spell x) (token_of old x)
  unfolding IsLexeme
  lexeme-Ready old (word_of c cs) r h a =
      let cls : (token_of old (word_of c cs)).cls ≡ word_class (c ∷ cs) =
        word_token-cls (word_class (c ∷ cs)) (c ∷ cs) old in
      let (no_err, no_eos) = word_class-ne (c ∷ cs) in
      record {
        spells =
            word
              (record {
                first = c;
                others = cs;
                next = a.0;
                after_next = a.1;
                splits = refl;
                follows = a.2;
                letter = h.0;
                idents = h.1;
                short = h.2;
                maximal = a.3;
              })
              cls (word_token-named _ _ old) (word_token-kept _ _ old);
        no_err = λ e. no_err (sym cls ∙ e);
        no_eos = λ e. no_eos (sym cls ∙ e);
      }
  lexeme-Ready old (number_of c cs) r h a = record {
    spells =
        number
          (record {
            first = c;
            others = cs;
            next = a.0;
            after_next = a.1;
            splits = refl;
            follows = a.2;
            digit = h.0;
            digits = h.1;
            maximal = a.3;
          })
          refl refl;
    no_err = λ e. cc;
    no_eos = λ e. cc;
  }
  lexeme-Ready old (mark c) r h a = go (punct c) refl
    where
      go : (o : Option TokType) → punct c ≡ o → Ready old r (c ∷ []) (mark_token o old)
      go none e = absurd (h.1 e)
      go (some t) e = record {
        spells = one c refl e refl;
        no_err = λ k. punct-ne_err c (e ∙ ap some k);
        no_eos = λ k. h.0 (punct-eos c (e ∙ ap some k));
      }
