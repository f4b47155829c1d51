-- ===== src/Parse/Operands.antt =====
-- A statement that begins with a token that begins no expression.
use lilc.Ast.{null, Nodes}
use lilc.Common.{
  ℕ, suc, zero, ◌≤◌, ◌≡◌, ◌≢◌, refl, ap, ◌∙◌, true, false, Option, none, some, List, [], ◌∷◌, Bytes,
  codes, if◌then◌else◌, arith, Bool-cases, inl, inr,
}
use lilc.Double.{Double}
use lilc.Lex.Lexeme.{Lexeme, AreLexemes}
use lilc.Lex.Spec.{rest}
use lilc.Lex.Written.{Written}
use lilc.Lex.{Lexer, lex_consume, lex_consumef, expected_message}
use lilc.Outcome.{ok, fault, Fault, bind}
use lilc.Parse.Ahead.{
  class_of, head_class, At, At-is, At-cls, At-Next, Reads-ok, scan-Reads, consumef-Dies, Dies, dies,
}
use lilc.Parse.Errors.{parse-then, behind_block, Dies-bind}
use lilc.Parse.Pratt.{lookup-row}
use lilc.Parse.Source.{Exprs, emit_stmts, AreSource}
use lilc.Parse.{
  Parser, Vtable, vtables, on_lex, parse_err, lookup, consumef, parse, expression, block_loop,
}
use lilc.Token.{TokType, tok_semi, tok_eos, tok_rcurl, tok_else, tok_eq, to_int}

abbrev no_prefix : Bytes
no_prefix = codes "expression: No prefix function found\n"

-- The message for a statement that begins with a token in front of `xs` that begins no expression.
abbrev pub operand_message : List Lexeme → Bytes
operand_message xs =
    if tok_eq (head_class xs) tok_semi then no_prefix else expected_message tok_semi (head_class xs)

spend3 : (P : ℕ → Type 0) (f : ℕ) → 3 ≤ f → ((g : ℕ) → P (suc (suc (suc g)))) → P f
spend3 P zero h k = absurd (omega arith)
spend3 P (suc zero) h k = absurd (omega arith)
spend3 P (suc (suc zero)) h k = absurd (omega arith)
spend3 P (suc (suc (suc f))) h k = k f

else-row : vtables tok_else ≡ none
unfolding vtables
else-row = refl

row-none : (t : TokType) → vtables t ≡ none → t ≡ tok_else
unfolding vtables
row-none t e = ground arith

-- Each class but that of `else` has a row.
row-of : (t : TokType) → t ≢ tok_else → (row : Vtable) × (vtables t ≡ some row)
unfolding vtables
row-of t n = go (vtables t) refl
  where
    go : (o : Option Vtable) → vtables t ≡ o → (row : Vtable) × (o ≡ some row)
    go (some row) e = (row, refl)
    go none e = absurd (n (row-none t e))

module _ {D : Type 0} ⦃dbl : Double D⦄ where
  -- A semicolon is consumed, whatever message was set before.
  consumef-Ends :
      {xs : List Lexeme} {p : Parser D} (t : TokType) (err : Option Bytes)
      → tok_eq (head_class xs) t ≡ true
      → tok_eq tok_eos t ≡ false
      → At xs p
      → (l : Lexer D) × (consumef t (record p { err = err })
          ≡ ok (true, record p { lex = l; err = err }))
  unfolding on_lex lex_consumef lex_consume
  consumef-Ends {xs = []} t err e n h = cc
  consumef-Ends {xs = x ∷ xs} t err e n h =
      let (l, run, k) = At-Next h in (l, rw (At-is t h ∙ e, run) refl)

  -- `expression` sets its message and returns NULL.
  expression-null :
      (x : Lexeme) (xs : List Lexeme) (f : ℕ) (p : Parser D) {row : Vtable}
      → vtables (class_of x) ≡ some row
      → row.as_prefix ≡ none
      → At (x ∷ xs) p
      → (q : Parser D) × (expression (suc f) 0 p ≡ ok (null, record q { err = some no_prefix }))
        × At xs q
  unfolding expression parse_err
  expression-null x xs f p e k h =
      let (q, run, h1) = Reads-ok (scan-Reads h) in
      (q, rw (run, lookup-row q (At-cls h) e, k) refl, h1)

  no_operand-Dies :
      (x : Lexeme) (xs : List Lexeme) (acc : Nodes D) (f : ℕ) (p : Parser D) {row : Vtable}
      → vtables (class_of x) ≡ some row
      → row.as_prefix ≡ none
      → tok_eq (class_of x) tok_eos ≡ false
      → tok_eq (class_of x) tok_rcurl ≡ false
      → At (x ∷ xs) p
      → Dies (operand_message xs) (bind (block_loop (suc (suc (suc f))) acc p) behind_block)
  unfolding expression to_int
  no_operand-Dies x xs acc f p e k n1 n2 h =
      let (q, run, h1) = expression-null x xs f p e k h in
      rw (At-is tok_eos h, At-is tok_rcurl h, n1, n2, run)
        (elim (Bool-cases (tok_eq (head_class xs) tok_semi)) [
          | inl e1 ↦
              let (l, run1) = consumef-Ends tok_semi (some no_prefix) e1 refl h1 in
              rw (e1, run1) dies
          | inr e1 ↦ rw e1 (
              Dies-bind _
                (Dies-bind _ (Dies-bind _ (consumef-Dies tok_semi (some no_prefix) e1 h1))))
        ])

  lookup-past :
      {c t : TokType} (q : Parser D)
      → t ≡ c
      → vtables c ≡ none
      → lookup t q ≡ fault Fault.bad_table_index
  unfolding lookup
  lookup-past q c e = rw (c, e) refl

  -- `expression` looks up a class that has no row.
  no_row-faults :
      (x : Lexeme) (xs : List Lexeme) (acc : Nodes D) (f : ℕ) (p : Parser D)
      → vtables (class_of x) ≡ none
      → tok_eq (class_of x) tok_eos ≡ false
      → tok_eq (class_of x) tok_rcurl ≡ false
      → At (x ∷ xs) p
      → bind (block_loop (suc (suc (suc f))) acc p) behind_block ≡ fault Fault.bad_table_index
  unfolding expression
  no_row-faults x xs acc f p e n1 n2 h =
      let (q, run, h1) = Reads-ok (scan-Reads h) in
      rw (At-is tok_eos h, At-is tok_rcurl h, n1, n2, run, lookup-past q (At-cls h) e) refl

  -- When no message was set, take a source that holds whole statements and then a token that begins
  -- no expression and ends no block. If this token is not `else`, `parse` stops; the message says that
  -- no expression begins there only if the next token is a semicolon, and otherwise it says that a
  -- semicolon was expected. If it is `else`, `parse` reads behind the end of `vtables`.
  pub parse_no_operand :
      (es : Exprs) (x : Lexeme) (xs : List Lexeme) (p : Parser D)
      → AreSource es
      → ((row : Vtable) → vtables (class_of x) ≡ some row → row.as_prefix ≡ none)
      → tok_eq (class_of x) tok_eos ≡ false
      → tok_eq (class_of x) tok_rcurl ≡ false
      → AreLexemes (x ∷ xs)
      → p.err ≡ none
      → Written (emit_stmts es (x ∷ xs)) (rest p.lex)
      → (class_of x ≢ tok_else → Dies (operand_message xs) (parse p))
        × (class_of x ≡ tok_else → parse p ≡ fault Fault.bad_table_index)
  parse_no_operand es x xs p n k n1 n2 lexemes clean w = (
    λ other.
        let (row, e) = row-of (class_of x) other in
        parse-then (Dies _) es (x ∷ xs) p n lexemes clean w λ acc g q fuel h.
          spend3 (λ g. Dies (operand_message xs) (bind (block_loop g acc q) behind_block)) g
            (omega arith) (λ g. no_operand-Dies x xs acc g q e (k row e) n1 n2 h),
    λ same.
        parse-then (λ r. r ≡ fault Fault.bad_table_index) es (x ∷ xs) p n lexemes clean w
          λ acc g q fuel h.
            spend3 (λ g. bind (block_loop g acc q) behind_block ≡ fault Fault.bad_table_index) g
              (omega arith) (λ g. no_row-faults x xs acc g q (ap vtables same ∙ else-row) n1 n2 h),
  )
