-- ===== src/Parse/Errors.antt =====
-- Programs with a fault in a statement: what `parse` does with them.
use lilc.Ast.{Node, Nodes, is_null, lilc_node_vec_push, lilc_node_vec_new}
use lilc.Common.{
  ℕ, zero, suc, ◌+◌, ◌*◌, ◌≤◌, ◌≡◌, false, none, List, length, Bytes, arith, if◌then◌else◌,
}
use lilc.Double.{Double}
use lilc.Lex.Lexeme.{Lexeme, AreLexemes}
use lilc.Lex.Spec.{rest}
use lilc.Lex.Written.{Written}
use lilc.Lex.{expected_message}
use lilc.Outcome.{Outcome, ok, bind}
use lilc.Parse.Ahead.{head_class, At, Reads-then, first-Reads, consumef-Dies, Dies, dies, At-is}
use lilc.Parse.Cases.{whole-Reads}
use lilc.Parse.Emitted.{emit-Begins}
use lilc.Parse.Legible.{emit-AreLexemes, stmts-AreLexemes}
use lilc.Parse.Pratt.{Stops}
use lilc.Parse.RoundTrip.{read_expr, enough}
use lilc.Parse.Sequences.{stmt-then}
use lilc.Parse.Source.{Expr, Exprs, more, emit, emit_stmts, node_of, IsSource, AreSource}
use lilc.Parse.{Parser, parse, program, stop, expression, block, block_loop}
use lilc.Token.{tok_semi, tok_eos, tok_rcurl, tok_eq}

pub Dies-bind :
    {A B : Type 0} {msg : Bytes} {r : Outcome A} (f : A → Outcome B)
    → Dies msg r
    → Dies msg (bind r f)
Dies-bind f dies = dies

module _ {D : Type 0} ⦃dbl : Double D⦄ where
  -- The loop over statements in front of some whole ones.
  stmts-then :
      (F : Outcome (Node D × Parser D) → Type 0) (es : Exprs) (ys : List Lexeme)
      → AreSource es
      → ((acc : Nodes D) (g : ℕ) (q : Parser D)
          → 6 * length ys + 3 ≤ g
          → At ys q
          → F (block_loop g acc q))
      → (acc : Nodes D) (f : ℕ) (p : Parser D) → 6 * length (emit_stmts es ys) + 3 ≤ f
      → At (emit_stmts es ys) p
      → F (block_loop f acc p)
  unfolding emit_stmts IsSource
  stmts-then F Exprs.none ys n k acc f p fuel h = k acc f p fuel h
  stmts-then F (more e es) ys n k acc f p fuel h =
      stmt-then F e (emit_stmts es ys) acc f p n.0 (read_expr D e n.0) fuel
        (λ g q m h1. stmts-then F es ys n.1 k (lilc_node_vec_push acc (node_of e)) g q m h1) h

  -- What `parse` does with the result of `block`.
  abbrev pub behind_block : Node D × Parser D → Outcome (Node D × Parser D)
  behind_block (root, p) = if◌then◌else◌ (is_null root) (stop p.err p) (ok (root, p))

  block-then :
      (F : Outcome (Node D × Parser D) → Type 0) (es : Exprs) (ys : List Lexeme)
      → AreSource es
      → ((acc : Nodes D) (g : ℕ) (q : Parser D)
          → 6 * length ys + 3 ≤ g
          → At ys q
          → F (block_loop g acc q))
      → (f : ℕ) (p : Parser D) → 6 * length (emit_stmts es ys) + 4 ≤ f
      → At (emit_stmts es ys) p
      → F (block f p)
  unfolding expression
  block-then F es ys n k zero p fuel h = absurd (omega arith)
  block-then F es ys n k (suc f) p fuel h =
      stmts-then F es ys n k lilc_node_vec_new f p (omega arith) h

  -- `parse` in front of some whole statements.
  pub parse-then :
      (F : Outcome (Node D × Parser D) → Type 0) (es : Exprs) (ys : List Lexeme) (p : Parser D)
      → AreSource es
      → AreLexemes ys
      → p.err ≡ none
      → Written (emit_stmts es ys) (rest p.lex)
      → ((acc : Nodes D) (g : ℕ) (q : Parser D)
          → 6 * length ys + 3 ≤ g
          → At ys q
          → F (bind (block_loop g acc q) behind_block))
      → F (parse p)
  unfolding parse program
  parse-then F es ys p n lexemes clean w k =
      Reads-then (λ r. F (bind r behind_block)) _
        (first-Reads (emit_stmts es ys) p w (stmts-AreLexemes es ys n lexemes) clean)
        λ q h.
          block-then (λ r. F (bind r behind_block)) es ys n k (6 * length p.lex.source + 6) q
            (enough p (emit_stmts es ys) w) h

  -- A statement without its semicolon.
  no_semi-Dies :
      (e : Expr) (xs : List Lexeme) (acc : Nodes D) (f : ℕ) (p : Parser D)
      → IsSource e
      → Stops 0 xs
      → tok_eq (head_class xs) tok_semi ≡ false
      → 6 * length (emit 0 e xs) + 3 ≤ f
      → At (emit 0 e xs) p
      → Dies (expected_message tok_semi (head_class xs)) (block_loop f acc p)
  unfolding expression
  no_semi-Dies e xs acc zero p n s o fuel h = absurd (omega arith)
  no_semi-Dies e xs acc (suc zero) p n s o fuel h = absurd (omega arith)
  no_semi-Dies e xs acc (suc (suc f)) p n s o fuel h =
      let b = emit-Begins 0 e xs n in
      rw (At-is tok_eos h, At-is tok_rcurl h, b.no_eos, b.no_rcurl)
        (Dies-bind _ (
          Reads-then (Dies _) _
            (whole-Reads e 0 f xs p (read_expr D e n) (omega arith) s (omega arith) h)
            λ q h1. Dies-bind _ (consumef-Dies tok_semi q.err o h1)))

  -- When no message was set, a source that holds whole statements and then an expression, which
  -- is not followed by an operator, an opening parenthesis, a semicolon or `else`, makes `parse`
  -- stop with the message that a semicolon was expected and the token behind the expression
  -- seen.
  pub parse_no_semi :
      (es : Exprs) (e : Expr) (xs : List Lexeme) (p : Parser D)
      → AreSource es
      → IsSource e
      → Stops 0 xs
      → tok_eq (head_class xs) tok_semi ≡ false
      → AreLexemes xs
      → p.err ≡ none
      → Written (emit_stmts es (emit 0 e xs)) (rest p.lex)
      → Dies (expected_message tok_semi (head_class xs)) (parse p)
  parse_no_semi es e xs p ns n s o lexemes clean w =
      parse-then (Dies _) es (emit 0 e xs) p ns (emit-AreLexemes 0 e xs n lexemes) clean w
        λ acc g q fuel h. Dies-bind _ (no_semi-Dies e xs acc g q n s o fuel h)
