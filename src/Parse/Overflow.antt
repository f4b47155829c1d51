-- ===== src/Parse/Overflow.antt =====
-- A call with more arguments than the array of `lparen_infix` holds.
use lilc.Ast.{Nodes, nil, size, lilc_node_vec_push, lilc_var_node_new}
use lilc.Common.{
  ℕ, zero, suc, ◌+◌, ◌*◌, ◌≤◌, ◌≡◌, refl, ap, Bool-cases, inl, inr, none, List, ◌∷◌, length, arith,
  ltb,
}
use lilc.Double.{Double}
use lilc.Lex.Lexeme.{Lexeme, mark, AreLexemes}
use lilc.Lex.Spec.{rest}
use lilc.Lex.Written.{Written}
use lilc.Lex.{punct}
use lilc.Outcome.{Outcome, fault, Fault, bind}
use lilc.Parse.Ahead.{At, At-is, Reads-then}
use lilc.Parse.Cases.{whole-Reads, name-token, not_null}
use lilc.Parse.Branches.{spend4}
use lilc.Parse.Compound.{lparen_row}
use lilc.Parse.Emitted.{emit-Begins, emit-longer, args-longer, comma-longer, args-Stops}
use lilc.Parse.Errors.{parse-then, behind_block}
use lilc.Parse.Legible.{args-AreLexemes, lparen-IsLexeme, rparen-IsLexeme}
use lilc.Parse.Parts.{size-push}
use lilc.Parse.Pratt.{is-leb, infix_loop-then, expression-then}
use lilc.Parse.RoundTrip.{read_expr}
use lilc.Parse.Sequences.{comma-Reads}
use lilc.Parse.Source.{
  Word, call, Exprs, more, comma, emit, emit_args, emit_stmts, node_of, var, IsName, count,
  IsSource, AreSource,
}
use lilc.Parse.{
  Parser, Infix, vtables, id_prefix, read_str, check_store, parse, expression, args_loop,
  block_loop,
}
use lilc.Token.{tok_rparen, tok_eos, tok_rcurl, to_int}

abbrev pub Overflows : {A : Type 0} → Outcome A → Type 0
Overflows r = r ≡ fault Fault.buffer_overflow

module _ {D : Type 0} ⦃dbl : Double D⦄ where
  args-Overflows :
      (args : Exprs) (acc : Nodes D) (f : ℕ) (ys : List Lexeme) (p : Parser D)
      → AreSource args
      → size acc ≤ 16
      → 17 ≤ size acc + count args
      → 6 * length (emit_args args (mark b')' ∷ ys)) + 2 ≤ f
      → At (emit_args args (mark b')' ∷ ys)) p
      → Overflows (args_loop f acc p)
  unfolding expression emit IsSource check_store
  args-Overflows Exprs.none acc f ys p n room many fuel h = absurd (omega arith)
  args-Overflows (more e es) acc zero ys p n room many fuel h = absurd (omega arith)
  args-Overflows (more e es) acc (suc f) ys p n room many fuel h =
      let after = emit_args es (mark b')' ∷ ys) in
      let b = emit-Begins 0 e (comma es after) n.0 in
      rw (At-is tok_rparen h, b.no_rparen, is-leb (size acc) 16 room)
        (Reads-then Overflows _
          (whole-Reads e 0 f (comma es after) p (read_expr D e n.0) (omega arith)
            (args-Stops 0 es ys) (omega arith) h)
          λ q h1. rw (not_null D e) (elim (Bool-cases (ltb (size acc) 16)) [
            | inl fits ↦ rw fits (
                Reads-then Overflows _ (comma-Reads es ys q h1).1 λ q1 h2.
                  args-Overflows es (lilc_node_vec_push acc (node_of e)) f ys q1 n.1
                    (ground (arith, size-push acc (node_of e), fits))
                    (omega (arith, size-push acc (node_of e)))
                    (omega (arith, emit-longer 0 e (comma es after), comma-longer es after)) h2)
            | inr full ↦ rw full refl
          ]))

  call-Overflows :
      (w : Word) (args : Exprs) (b rbp f : ℕ) (ys : List Lexeme) (p : Parser D)
      → IsName w
      → AreSource args
      → rbp ≤ 9
      → 17 ≤ count args
      → 6 * length (emit b (call w args) ys) + 1 ≤ f
      → At (emit b (call w args) ys) p
      → Overflows (expression f rbp p)
  unfolding emit node_of expression vtables punct id_prefix read_str lilc_var_node_new
  call-Overflows w args b rbp f ys p n ns lo many fuel h =
      spend4 (λ f. 6 * length (emit b (call w args) ys) + 1 ≤ f → Overflows (expression f rbp p)) f
        (omega (arith, args-longer args (mark b')' ∷ ys)))
        (λ f fuel.
          expression-then {xs = mark b'(' ∷ emit_args args (mark b')' ∷ ys)} Overflows
            (suc (suc (suc f))) rbp (ap vtables n.1) refl
            (λ old q h1. rw (name-token w old n) (
              infix_loop-then {x = mark b'('} {row = lparen_row} {k = Infix.of_lparen} Overflows
                (suc (suc f)) rbp (node_of (var w)) refl refl (omega arith)
                (λ old q1 h2.
                  rw
                    (args-Overflows args nil f ys q1 ns (omega arith) (omega arith) (omega arith)
                      h2)
                    refl)
                h1))
            h)
        fuel

  stmt-Overflows :
      (w : Word) (args : Exprs) (ys : List Lexeme) (acc : Nodes D) (f : ℕ) (p : Parser D)
      → IsName w
      → AreSource args
      → 17 ≤ count args
      → 6 * length (emit 0 (call w args) ys) + 3 ≤ f
      → At (emit 0 (call w args) ys) p
      → Overflows (block_loop f acc p)
  unfolding expression emit to_int
  stmt-Overflows w args ys acc zero p n ns many fuel h = absurd (omega arith)
  stmt-Overflows w args ys acc (suc zero) p n ns many fuel h = absurd (omega arith)
  stmt-Overflows w args ys acc (suc (suc f)) p n ns many fuel h =
      rw
        (
          At-is tok_eos h,
          At-is tok_rcurl h,
          n.1,
          call-Overflows w args 0 0 f ys p n ns (omega arith) many (omega arith) h,
        )
        refl

  -- When no message was set, a source that holds whole statements and then a call with 17
  -- arguments or more makes `parse` write behind the array of arguments.
  pub parse_overflow :
      (es : Exprs) (w : Word) (args : Exprs) (xs : List Lexeme) (p : Parser D)
      → AreSource es
      → IsName w
      → AreSource args
      → 17 ≤ count args
      → AreLexemes xs
      → p.err ≡ none
      → Written (emit_stmts es (emit 0 (call w args) xs)) (rest p.lex)
      → parse p ≡ fault Fault.buffer_overflow
  unfolding emit
  parse_overflow es w args xs p ns n wf many lexemes clean c =
      parse-then Overflows es (emit 0 (call w args) xs) p ns
        (
          n.0,
          (lparen-IsLexeme, args-AreLexemes args (mark b')' ∷ xs) wf (rparen-IsLexeme, lexemes)),
        )
        clean c
        λ acc g q fuel h.
          ap (λ r. bind r behind_block) (stmt-Overflows w args xs acc g q n wf many fuel h)
