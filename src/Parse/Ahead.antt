-- ===== src/Parse/Ahead.antt =====
-- The parser in front of a list of lexemes: its current token is the first, and the others are
-- written ahead of its lexer.
use lilc.Common.{
  Bool, ◌≡◌, refl, ap, sym, ◌∙◌, true, false, Option, none, some, List, [], ◌∷◌, Bytes, subst, ℕ,
}
use lilc.Double.{Double}
use lilc.Lex.Lexeme.{
  Lexeme, word_of, number_of, mark, AreLexemes, token_of, word_token-cls, mark_token,
}
use lilc.Lex.Spec.{rest, word_class}
use lilc.Lex.Written.{Written, Written-Scans, Written-end, at_end}
use lilc.Lex.{Lexer, punct, lex_scan, lex_is, lex_consume, lex_consumef, expected_message}
use lilc.Outcome.{Outcome, ok, bind, died}
use lilc.Parse.{Parser, on_lex, scan, consume, consumef}
use lilc.Token.{TokType, tok_err, tok_eos, tok_dbl, tok_eq, tok_eq_refl, Token, Val}

abbrev mark_class : Option TokType → TokType
mark_class none = tok_err
mark_class (some t) = t

abbrev pub class_of : Lexeme → TokType
class_of (word_of c cs) = word_class (c ∷ cs)
class_of (number_of c cs) = tok_dbl
class_of (mark c) = mark_class (punct c)

abbrev pub head_class : List Lexeme → TokType
head_class [] = tok_eos
head_class (x ∷ xs) = class_of x

-- The run stops with this message, at some place of some file.
pub data Dies {A : Type 0} (msg : Bytes) : Outcome A → Type 0 where
  dies : {file : Bytes} {line : ℕ} → Dies msg (died file line msg)

module _ {D : Type 0} ⦃dbl : Double D⦄ where
  abbrev pub head_token : Val D → List Lexeme → Token D
  head_token old [] = record { cls = tok_eos; val = old }
  head_token old (x ∷ xs) = token_of old x

  -- What is ahead of the lexer when the current token is the first of `xs`.
  abbrev pub Behind : List Lexeme → Lexer D → Type 0
  Behind [] l = Unit
  Behind (x ∷ xs) l = Written xs (rest l) × AreLexemes xs

  pub record At (xs : List Lexeme) (p : Parser D) : Type 0 where
    pub old : Val D
    pub tok : p.lex.tok ≡ head_token old xs
    pub behind : Behind xs p.lex
    pub no_err : p.err ≡ none

  -- The run returns `a` in front of `xs`.
  pub data Reads {A : Type 0} (xs : List Lexeme) (a : A) : Outcome (A × Parser D) → Type 0 where
    reads : {q : Parser D} → At xs q → Reads xs a (ok (a, q))

  pub Reads-ok :
      {A : Type 0} {xs : List Lexeme} {a : A} {r : Outcome (A × Parser D)}
      → Reads xs a r
      → (q : Parser D) × (r ≡ ok (a, q)) × At xs q
  Reads-ok (reads {q} h) = (q, refl, h)

  -- What holds behind a run that returns.
  pub Reads-then :
      {A B : Type 0} {xs : List Lexeme} {a : A} {r : Outcome (A × Parser D)}
      (F : Outcome B → Type 0) (f : A × Parser D → Outcome B)
      → Reads xs a r
      → ((q : Parser D) → At xs q → F (f (a, q)))
      → F (bind r f)
  Reads-then F f (reads {q} h) k = k q h

  pub Reads-bind :
      {A B : Type 0} {xs ys : List Lexeme} {a : A} {b : B} {r : Outcome (A × Parser D)}
      (f : A × Parser D → Outcome (B × Parser D))
      → Reads xs a r
      → ((q : Parser D) → At xs q → Reads ys b (f (a, q)))
      → Reads ys b (bind r f)
  Reads-bind f h k = Reads-then (Reads _ _) f h k

  head_token-cls : (old : Val D) (xs : List Lexeme) → (head_token old xs).cls ≡ head_class xs
  head_token-cls old [] = refl
  head_token-cls old (number_of c cs ∷ xs) = refl
  head_token-cls old (mark c ∷ xs) = go (punct c)
    where
      go : (o : Option TokType) → (mark_token o old).cls ≡ mark_class o
      go none = refl
      go (some t) = refl
  head_token-cls old (word_of c cs ∷ xs) = word_token-cls _ _ old

  pub At-cls : {xs : List Lexeme} {p : Parser D} → At xs p → p.lex.tok.cls ≡ head_class xs
  At-cls {xs} h = ap (λ (t : Token D). t.cls) h.tok ∙ head_token-cls h.old xs

  pub At-is :
      {xs : List Lexeme} {p : Parser D} (t : TokType)
      → At xs p
      → lex_is p.lex t ≡ tok_eq (head_class xs) t
  unfolding lex_is
  At-is t h = ap (λ c. tok_eq c t) (At-cls h)

  -- A scan of `l` leaves the parser `p` in front of `xs`.
  abbrev pub Next : List Lexeme → Lexer D → Parser D → Type 0
  Next xs l p =
      (l' : Lexer D) × (lex_scan l ≡ ok (head_class xs, l')) × At xs (record p { lex = l' })

  Written-Next :
      (xs : List Lexeme) (p : Parser D)
      → Written xs (rest p.lex)
      → AreLexemes xs
      → p.err ≡ none
      → Next xs p.lex p
  Written-Next [] p w h n = (
    at_end w.0 p.lex,
    Written-end p.lex w,
    record { old = p.lex.tok.val; tok = refl; behind = tt; no_err = n },
  )
  Written-Next (x ∷ xs) p w h n =
      let (l', s) = Written-Scans x xs p.lex h.0 w in
      (
        l',
        rw (sym (head_token-cls p.lex.tok.val (x ∷ xs))) s.run,
        record { old = p.lex.tok.val; tok = s.tok; behind = (s.ahead, h.1); no_err = n },
      )

  pub At-Next : {x : Lexeme} {xs : List Lexeme} {p : Parser D} → At (x ∷ xs) p → Next xs p.lex p
  At-Next {xs} {p} h = Written-Next xs p h.behind.0 h.behind.1 h.no_err

  Next-Reads :
      {xs : List Lexeme} (p : Parser D) → Next xs p.lex p → Reads xs (head_class xs) (scan p)
  unfolding on_lex
  Next-Reads p (l', e, h) = rw e (reads h)

  -- The first scan.
  pub first-Reads :
      (xs : List Lexeme) (p : Parser D)
      → Written xs (rest p.lex)
      → AreLexemes xs
      → p.err ≡ none
      → Reads xs (head_class xs) (scan p)
  first-Reads xs p w h n = Next-Reads p (Written-Next xs p w h n)

  pub scan-Reads :
      {x : Lexeme} {xs : List Lexeme} {p : Parser D}
      → At (x ∷ xs) p
      → Reads xs (head_class xs) (scan p)
  scan-Reads {p} h = Next-Reads p (At-Next h)

  pub consume-Reads :
      {x : Lexeme} {xs : List Lexeme} {p : Parser D} (t : TokType)
      → class_of x ≡ t
      → At (x ∷ xs) p
      → Reads xs true (consume t p)
  unfolding on_lex lex_consume
  consume-Reads t c h =
      let (l', e, k) = At-Next h in
      rw (At-is t h ∙ ap (λ u. tok_eq u t) c ∙ tok_eq_refl t, e) (reads k)

  -- A token of another class stays.
  pub consume-stays :
      {xs : List Lexeme} {p : Parser D} (t : TokType)
      → tok_eq (head_class xs) t ≡ false
      → At xs p
      → Reads xs false (consume t p)
  unfolding on_lex lex_consume
  consume-stays t n h = rw (At-is t h ∙ n) (reads h)

  pub consumef-Reads :
      {x : Lexeme} {xs : List Lexeme} {p : Parser D} (t : TokType)
      → class_of x ≡ t
      → At (x ∷ xs) p
      → Reads xs true (consumef t p)
  unfolding on_lex lex_consumef lex_consume
  consumef-Reads t c h =
      let (l', e, k) = At-Next h in
      rw (At-is t h ∙ ap (λ u. tok_eq u t) c ∙ tok_eq_refl t, e) (reads k)

  -- A token of another class is an error, whatever message was set before.
  pub consumef-Dies :
      {xs : List Lexeme} {p : Parser D} (t : TokType) (err : Option Bytes)
      → tok_eq (head_class xs) t ≡ false
      → At xs p
      → Dies (expected_message t (head_class xs)) (consumef t (record p { err = err }))
  unfolding on_lex lex_consumef lex_consume
  consumef-Dies {xs} {p} t err n h = rw (At-is t h ∙ n) (
      subst
        (λ c.
          Dies {A = Bool × Parser D} (expected_message t (head_class xs))
            (died p.lex.filename p.lex.lineno (expected_message t c)))
        (sym (At-cls h)) dies)
