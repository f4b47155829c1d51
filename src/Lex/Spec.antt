-- ===== src/Lex/Spec.antt =====
-- What a token is: the bytes that spell it, described with no reference to the scanning code.
use lilc.Common.{
  ℕ, ◌+◌, ◌-◌, ◌≤◌, ◌≡◌, refl, ◌≢◌, ◌⊎◌, Bool, true, false, none, some, Option, [], ◌∷◌, ◌++◌,
  length, drop, get_elem?, drop-get_elem?, drop-none, All, Bytes, codes, count, bytes_eq,
}
use lilc.Double.{Double}
use lilc.Lex.{Lexer, is_alpha, is_digit, is_ident, is_blank, punct, next_char, bump}
use lilc.Outcome.{Fault, Yields, yields, misses}
use native.Mathlib.Numerals.{add-one}
use lilc.Token.{TokType, tok_err, tok_id, tok_def, tok_dbl, tok_if, tok_else, Val, as_dbl, as_str}

-- The part of the source that is not read yet.
abbrev pub rest : {D : Type 0} → Lexer D → Bytes
rest l = drop l.offset l.source

abbrev pub IsIdents : Bytes → Type 0
IsIdents = All (λ c. is_ident c ≡ true)

abbrev pub IsDigits : Bytes → Type 0
IsDigits = All (λ c. is_digit c ≡ true)

abbrev pub IsBlanks : Bytes → Type 0
IsBlanks = All (λ c. is_blank c ≡ true)

abbrev pub NoNul : Bytes → Type 0
NoNul = All (λ c. c ≢ 0)

-- The first byte, if there is one, is no blank.
abbrev pub BeginsNoBlank : Bytes → Type 0
BeginsNoBlank [] = Unit
BeginsNoBlank (c ∷ w) = is_blank c ≡ false

abbrev pub unknown_input : Bytes
unknown_input = codes "LEX - Unrecognized input character\n"

-- A read past the end of the buffer, which holds no NUL byte from where the lexer stood.
abbrev pub ReadsPast : {D : Type 0} → Lexer D → Fault → Type 0
ReadsPast l e = (e ≡ Fault.out_of_bounds) × NoNul (rest l)

-- A keyword's class, or `tok_id`.
abbrev pub word_class : Bytes → TokType
word_class w = elim (bytes_eq w (codes "def")) [
  | Bool.true ↦ tok_def
  | Bool.false ↦ elim (bytes_eq w (codes "if")) [
    | Bool.true ↦ tok_if
    | Bool.false ↦ elim (bytes_eq w (codes "else")) [ Bool.true ↦ tok_else | Bool.false ↦ tok_id ]
  ]
]

-- A word: a letter and identifier characters, at most 63 in all. It ends at a character of
-- another kind, or because it has its full length.
pub record IsWord (w after : Bytes) : Type 0 where
  pub first : ℕ
  pub others : Bytes
  pub next : ℕ
  pub after_next : Bytes
  pub splits : w ≡ first ∷ others
  pub follows : after ≡ next ∷ after_next
  pub letter : is_alpha first ≡ true
  pub idents : IsIdents others
  pub short : length w ≤ 63
  pub maximal : (is_ident next ≡ false) ⊎ (length w ≡ 63)

-- A nonempty run of digits that ends at a character of another kind.
pub record IsNumber (w after : Bytes) : Type 0 where
  pub first : ℕ
  pub others : Bytes
  pub next : ℕ
  pub after_next : Bytes
  pub splits : w ≡ first ∷ others
  pub follows : after ≡ next ∷ after_next
  pub digit : is_digit first ≡ true
  pub digits : IsDigits others
  pub maximal : is_digit next ≡ false

module _ {D : Type 0} ⦃dbl : Double D⦄ where
  -- The value that digits stand for, after `n`: ten times what came before, plus the digit.
  unfoldable pub numeral : D → Bytes → D
  numeral n [] = n
  numeral n (c ∷ cs) = numeral (dbl.add (dbl.mul n (dbl.of_int 10)) (dbl.of_int (c - b'0'))) cs

  -- The bytes `w`, with `after` behind them, spell a token of class `t`; `old` is the value of the
  -- token before it, which a token with no value of its own keeps.
  pub data Spells (old : Val D) (after : Bytes) : TokType → Val D → Bytes → Type 0 where
    one :
        {t : TokType} {v : Val D} {w : Bytes} (c : ℕ)
        → w ≡ c ∷ []
        → punct c ≡ some t
        → v ≡ old
        → Spells old after t v w
    word :
        {t : TokType} {v : Val D} {w : Bytes}
        → IsWord w after
        → t ≡ word_class w
        → (t ≡ tok_id → v ≡ as_str w)
        → (t ≢ tok_id → v ≡ old)
        → Spells old after t v w
    number :
        {t : TokType} {v : Val D} {w : Bytes}
        → IsNumber w after
        → t ≡ tok_dbl
        → v ≡ as_dbl (numeral (dbl.of_int 0) w)
        → Spells old after t v w
    unknown :
        {t : TokType} {v : Val D} {w : Bytes} (c : ℕ)
        → w ≡ c ∷ []
        → t ≡ tok_err
        → punct c ≡ none
        → is_alpha c ≡ false
        → is_digit c ≡ false
        → v ≡ old
        → Spells old after t v w

  -- One call of the scanner: from `l` it skips blanks, counts their newlines, and reads one token.
  pub record Scanned (l : Lexer D) (t : TokType) (l' : Lexer D) : Type 0 where
    pub blanks : Bytes
    pub lexeme : Bytes
    pub splits : rest l ≡ blanks ++ (lexeme ++ rest l')
    pub all_blank : IsBlanks blanks
    pub begins : BeginsNoBlank lexeme
    pub spelled : Spells l.tok.val (rest l') t l'.tok.val lexeme
    pub cls : l'.tok.cls ≡ t
    pub err : t ≡ tok_err → l'.err ≡ some unknown_input
    pub source : l'.source ≡ l.source
    pub filename : l'.filename ≡ l.filename
    pub moved : l'.offset ≡ l.offset + length blanks + length lexeme
    pub lines : l'.lineno ≡ l.lineno + count b'\n' blanks

module _ {D : Type 0} where
  pub next_char-Yields :
      (l : Lexer D)
      → Yields
          (λ e. (e ≡ Fault.out_of_bounds) × (rest l ≡ []))
          (λ r. (r.1 ≡ bump l) × (rest l ≡ r.0 ∷ rest (bump l)))
          (next_char l)
  unfolding next_char
  next_char-Yields l = go (get_elem? l.source l.offset) refl
    where
      go :
          (o : Option ℕ)
          → get_elem? l.source l.offset ≡ o
          → Yields
              (λ e. (e ≡ Fault.out_of_bounds) × (rest l ≡ []))
              (λ r. (r.1 ≡ bump l) × (rest l ≡ r.0 ∷ rest (bump l)))
              (next_char l)
      go none e = rw e (misses (refl, drop-none l.source l.offset e))
      go (some c) e = rw e (yields (refl, rw add-one (drop-get_elem? l.source l.offset e)))
