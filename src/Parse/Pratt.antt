-- ===== src/Parse/Pratt.antt =====
-- The two loops of the Pratt parser, `expression` and `infix_loop`, in front of known lexemes.
use lilc.Ast.{Node}
use lilc.Common.{ℕ, suc, ◌≤◌, ◌<◌, ◌≡◌, refl, true, false, some, List, ◌∷◌, arith, ltb, leb}
use lilc.Double.{Double}
use lilc.Lex.Lexeme.{Lexeme, token_of}
use lilc.Outcome.{ok, Outcome, bind}
use lilc.Parse.Ahead.{
  class_of, head_class, At, At-cls, Reads, reads, Reads-bind, Reads-then, scan-Reads,
}
use lilc.Parse.{
  Parser, Prefix, Infix, Vtable, vtables, lookup, expression, infix_loop, prefix, infix_call,
}
use lilc.Token.{TokType, Val}

-- An operator in front of `ys` does not bind tighter than `n`, so that `infix_loop` stops at `n`.
pub record Stops (n : ℕ) (ys : List Lexeme) : Type 0 where
  pub row : Vtable
  pub found : vtables (head_class ys) ≡ some row
  pub loose : row.lbp ≤ n

pub Stops-weaken : {m n : ℕ} {ys : List Lexeme} → m ≤ n → Stops m ys → Stops n ys
Stops-weaken h s = record { row = s.row; found = s.found; loose = omega (arith, h, s.loose) }

not-ltb : (m n : ℕ) → n ≤ m → ltb m n ≡ false
not-ltb m n h = ground arith

pub is-ltb : (m n : ℕ) → m < n → ltb m n ≡ true
is-ltb m n h = ground arith

pub is-leb : (m n : ℕ) → m ≤ n → leb m n ≡ true
is-leb m n h = ground arith

module _ {D : Type 0} ⦃dbl : Double D⦄ where
  pub lookup-row :
      {c t : TokType} {row : Vtable} (q : Parser D)
      → t ≡ c
      → vtables c ≡ some row
      → lookup t q ≡ ok (row, q)
  unfolding lookup
  lookup-row q c e = rw (c, e) refl

  pub infix_loop-Stops :
      {ys : List Lexeme} {p : Parser D} (f rbp : ℕ) (n : Node D)
      → Stops rbp ys
      → At ys p
      → Reads ys n (infix_loop (suc f) rbp n p)
  unfolding infix_loop
  infix_loop-Stops {p} f rbp n s h =
      rw (lookup-row p (At-cls h) s.found, not-ltb rbp s.row.lbp s.loose) (reads h)

  -- An operator that binds tighter than `rbp`, whatever is stated of the run.
  pub infix_loop-then :
      {x : Lexeme} {xs : List Lexeme} {p : Parser D} {row : Vtable} {k : Infix}
      (F : Outcome (Node D × Parser D) → Type 0) (f rbp : ℕ) (n : Node D)
      → vtables (class_of x) ≡ some row
      → row.as_infix ≡ some k
      → rbp < row.lbp
      → ((old : Val D) (q : Parser D)
          → At xs q
          → F (bind (infix_call f k (token_of old x) n q) λ (m, q1). infix_loop f rbp m q1))
      → At (x ∷ xs) p
      → F (infix_loop (suc f) rbp n p)
  unfolding infix_loop
  infix_loop-then {p} {row} F f rbp n e k less call h =
      rw (lookup-row p (At-cls h) e, is-ltb rbp row.lbp less)
        (Reads-then F _ (scan-Reads h) λ q h1. rw (k, h.tok) (call h.old q h1))

  pub infix_loop-goes :
      {x : Lexeme} {xs ys zs : List Lexeme} {p : Parser D} {row : Vtable} {k : Infix} (f rbp : ℕ)
      (n m r : Node D)
      → vtables (class_of x) ≡ some row
      → row.as_infix ≡ some k
      → rbp < row.lbp
      → ((old : Val D) (q : Parser D) → At xs q → Reads ys m (infix_call f k (token_of old x) n q))
      → ((q : Parser D) → At ys q → Reads zs r (infix_loop f rbp m q))
      → At (x ∷ xs) p
      → Reads zs r (infix_loop (suc f) rbp n p)
  infix_loop-goes {zs} f rbp n m r e k less call rest h =
      infix_loop-then (Reads zs r) f rbp n e k less (λ old q h1. Reads-bind _ (call old q h1) rest)
        h

  pub expression-then :
      {x : Lexeme} {xs : List Lexeme} {p : Parser D} {row : Vtable} {k : Prefix}
      (F : Outcome (Node D × Parser D) → Type 0) (f rbp : ℕ)
      → vtables (class_of x) ≡ some row
      → row.as_prefix ≡ some k
      → ((old : Val D) (q : Parser D)
          → At xs q
          → F (bind (prefix f k (token_of old x) q) λ (n, q1). infix_loop f rbp n q1))
      → At (x ∷ xs) p
      → F (expression (suc f) rbp p)
  unfolding expression
  expression-then {p} F f rbp e k head h =
      Reads-then F _ (scan-Reads h)
        λ q h1. rw (lookup-row q (At-cls h) e, k, h.tok) (head h.old q h1)

  pub expression-Reads :
      {x : Lexeme} {xs ys zs : List Lexeme} {p : Parser D} {row : Vtable} {k : Prefix} (f rbp : ℕ)
      (n r : Node D)
      → vtables (class_of x) ≡ some row
      → row.as_prefix ≡ some k
      → ((old : Val D) (q : Parser D) → At xs q → Reads ys n (prefix f k (token_of old x) q))
      → ((q : Parser D) → At ys q → Reads zs r (infix_loop f rbp n q))
      → At (x ∷ xs) p
      → Reads zs r (expression (suc f) rbp p)
  expression-Reads {zs} f rbp n r e k head rest h =
      expression-then (Reads zs r) f rbp e k (λ old q h1. Reads-bind _ (head old q h1) rest) h
