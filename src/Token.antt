-- ===== src/Token.antt =====
-- src/token.h and src/token.c: the token classes, the token struct and the printable names.
use lilc.Common.{
  ℕ, ◌≡◌, refl, ap, sym, ◌∙◌, ◌≢◌, Bool, true, false, List, [], ◌∷◌, ◌==◌, ==_iff, Bytes, codes,
  arith,
}

pub data TokType : Type 0 where
  tok_err tok_eos tok_id tok_def tok_semi tok_comma tok_lparen tok_rparen : TokType
  tok_lcurl tok_rcurl tok_dbl tok_add tok_sub tok_mul tok_div tok_cmplt tok_if tok_else : TokType

-- The value of the enumerator, by which C compares token classes and indexes tables.
unfoldable pub to_int : TokType → ℕ
to_int tok_err = 0
to_int tok_eos = 1
to_int tok_id = 2
to_int tok_def = 3
to_int tok_semi = 4
to_int tok_comma = 5
to_int tok_lparen = 6
to_int tok_rparen = 7
to_int tok_lcurl = 8
to_int tok_rcurl = 9
to_int tok_dbl = 10
to_int tok_add = 11
to_int tok_sub = 12
to_int tok_mul = 13
to_int tok_div = 14
to_int tok_cmplt = 15
to_int tok_if = 16
to_int tok_else = 17

-- The union `val`. The enumerator says which member was written last; `unset` is a struct that
-- nothing has written to.
pub data Val (D : Type 0) : Type 0 where
  as_dbl : D → Val D
  as_str : Bytes → Val D
  unset : Val D

pub record Token (D : Type 0) : Type 0 where
  pub cls : TokType
  pub val : Val D

-- Human-readable strings for each token class. The table has no entry for `tok_err`, so that one
-- is a NULL pointer; no caller prints it.
unfoldable pub lilc_token_str : TokType → Bytes
lilc_token_str tok_err = []
lilc_token_str tok_eos = codes "end-of-source"
lilc_token_str tok_id = codes "id"
lilc_token_str tok_def = codes "def"
lilc_token_str tok_semi = codes ";"
lilc_token_str tok_comma = codes ","
lilc_token_str tok_lparen = codes "("
lilc_token_str tok_rparen = codes ")"
lilc_token_str tok_lcurl = codes "{"
lilc_token_str tok_rcurl = codes "}"
lilc_token_str tok_dbl = codes "dbl"
lilc_token_str tok_add = codes "+"
lilc_token_str tok_sub = codes "-"
lilc_token_str tok_mul = codes "*"
lilc_token_str tok_div = codes "/"
lilc_token_str tok_cmplt = codes "<"
lilc_token_str tok_if = codes "if"
lilc_token_str tok_else = codes "else"

of_int : ℕ → List TokType → TokType
of_int n [] = tok_err
of_int n (t ∷ ts) = elim (to_int t == n) [ Bool.true ↦ t | _ ↦ of_int n ts ]

all_types : List TokType
all_types =
    tok_eos ∷ tok_id ∷ tok_def ∷ tok_semi ∷ tok_comma ∷ tok_lparen ∷ tok_rparen ∷ tok_lcurl
    ∷ tok_rcurl ∷ tok_dbl ∷ tok_add ∷ tok_sub ∷ tok_mul ∷ tok_div ∷ tok_cmplt ∷ tok_if ∷ tok_else
    ∷ []

of_int-to_int : (t : TokType) → of_int (to_int t) all_types ≡ t
unfolding to_int of_int all_types
of_int-to_int tok_err = refl
of_int-to_int _ = refl

-- Enumerators with the same value are the same.
pub to_int-injective : (s t : TokType) → to_int s ≡ to_int t → s ≡ t
to_int-injective s t e = sym (of_int-to_int s) ∙ ap (λ n. of_int n all_types) e ∙ of_int-to_int t

abbrev pub tok_eq : TokType → TokType → Bool
tok_eq s t = to_int s == to_int t

pub tok_eq→eq : (s t : TokType) → tok_eq s t ≡ true → s ≡ t
tok_eq→eq s t h = to_int-injective s t ((==_iff _ _).0 h)

pub tok_eq_refl : (t : TokType) → tok_eq t t ≡ true
tok_eq_refl t = (==_iff _ _).1 refl

pub tok_eq-ne : (s t : TokType) → tok_eq s t ≡ false → s ≢ t
tok_eq-ne s t h e = cc (h, e, tok_eq_refl t)

pub ne-tok_eq : (s t : TokType) → s ≢ t → tok_eq s t ≡ false
ne-tok_eq s t n = ground (arith, to_int-injective s t)
