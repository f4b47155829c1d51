-- ===== src/Parse/Sequences.antt =====
-- Reading back the statements of a block and the arguments of a call.
use lilc.Parse.Cases.{ReadsExpr, ReadsArgs, ReadsStmts, join, whole-Reads, not_null}
use lilc.Ast.{Node, block_node, Nodes, nil, cons, size, lilc_node_vec_push, lilc_block_node_new}
use lilc.Common.{
  zero, suc, ◌≡◌, refl, ap, subst, Bool, true, false, some, List, ◌∷◌, arith, ℕ, ◌+◌, ◌*◌, ◌≤◌,
  length,
}
use lilc.Double.{Double}
use lilc.Lex.Lexeme.{Lexeme, mark}
use lilc.Lex.{punct}
use lilc.Outcome.{Outcome}
use lilc.Parse.Ahead.{
  At, At-is, Reads, reads, Reads-bind, Reads-then, consume-Reads, consume-stays, consumef-Reads,
}
use lilc.Parse.Emitted.{comma-longer, emit-longer, emit-Begins, semi-Stops, args-Stops}
use lilc.Parse.Parts.{size-push}
use lilc.Parse.Pratt.{is-leb, is-ltb}
use lilc.Parse.Source.{
  Expr, Exprs, more, comma, emit, emit_args, emit_stmts, node_of, nodes_of, IsSource,
}
use lilc.Parse.{Parser, check_store, expression, consume, args_loop, block_loop}
use lilc.Token.{tok_semi, tok_comma, tok_rparen, tok_rcurl, tok_eos, to_int}

module _ {D : Type 0} ⦃dbl : Double D⦄ where
  join-push :
      (acc : Nodes D) (n : Node D) (ns : Nodes D)
      → join D (lilc_node_vec_push acc n) ns ≡ join D acc (cons n ns)
  unfolding lilc_node_vec_push
  join-push nil n ns = refl
  join-push (cons m ms) n ns = ap (cons m) (join-push ms n ns)

  join-nil : (acc : Nodes D) → join D acc nil ≡ acc
  join-nil nil = refl
  join-nil (cons m ms) = ap (cons m) (join-nil ms)

  pub none-ReadsStmts : ReadsStmts D Exprs.none
  unfolding expression emit node_of lilc_block_node_new
  none-ReadsStmts acc zero ys p e fuel h = absurd (omega arith)
  none-ReadsStmts acc (suc f) ys p e fuel h =
      rw (At-is tok_eos h, At-is tok_rcurl h, e, join-nil acc) (reads h)

  -- One round of the loop over statements, whatever is stated of the run.
  pub stmt-then :
      (F : Outcome (Node D × Parser D) → Type 0) (e : Expr) (ys : List Lexeme) (acc : Nodes D)
      (f : ℕ) (p : Parser D)
      → IsSource e
      → ReadsExpr D e
      → 6 * length (emit 0 e (mark b';' ∷ ys)) + 3 ≤ f
      → ((g : ℕ) (q : Parser D)
          → 6 * length ys + 3 ≤ g
          → At ys q
          → F (block_loop g (lilc_node_vec_push acc (node_of e)) q))
      → At (emit 0 e (mark b';' ∷ ys)) p
      → F (block_loop f acc p)
  unfolding expression punct
  stmt-then F e ys acc zero p w ih fuel k h = absurd (omega arith)
  stmt-then F e ys acc (suc zero) p w ih fuel k h = absurd (omega arith)
  stmt-then F e ys acc (suc (suc f)) p w ih fuel k h =
      let after = mark b';' ∷ ys in
      let b = emit-Begins 0 e after w in
      rw (At-is tok_eos h, At-is tok_rcurl h, b.no_eos, b.no_rcurl)
        (Reads-then F _
          (Reads-bind _
            (whole-Reads e 0 f after p ih (omega arith) (semi-Stops 0 _) (omega arith) h)
            λ q h1. Reads-bind _ (consumef-Reads tok_semi refl h1) λ q1 h2. reads h2)
          λ q h1. rw (not_null D e) (k (suc f) q (omega (arith, emit-longer 0 e after)) h1))

  pub more-ReadsStmts :
      (e : Expr) (es : Exprs)
      → IsSource e
      → ReadsExpr D e
      → ReadsStmts D es
      → ReadsStmts D (more e es)
  unfolding emit node_of
  more-ReadsStmts e es w ih ihs acc f ys p stop fuel h =
      stmt-then (Reads ys (block_node (join D acc (nodes_of (more e es))))) e (emit_stmts es ys) acc
        f p w ih fuel
        (λ g q m h1.
          subst
            (λ ns. Reads ys (block_node ns) (block_loop g (lilc_node_vec_push acc (node_of e)) q))
            (join-push acc (node_of e) (nodes_of es))
            (ihs (lilc_node_vec_push acc (node_of e)) g ys q stop m h1))
        h

  pub none-ReadsArgs : ReadsArgs D Exprs.none
  unfolding expression emit node_of punct to_int
  none-ReadsArgs acc zero ys p room fuel h = absurd (omega arith)
  none-ReadsArgs acc (suc f) ys p room fuel h = rw (At-is tok_rparen h, join-nil acc) (reads h)

  -- The comma behind an argument, if there is one.
  pub comma-Reads :
      (es : Exprs) (ys : List Lexeme) (p : Parser D)
      → At (comma es (emit_args es (mark b')' ∷ ys))) p
      → (b : Bool) × Reads (emit_args es (mark b')' ∷ ys)) b (consume tok_comma p)
  unfolding punct emit to_int
  comma-Reads Exprs.none ys p h = (false, consume-stays tok_comma refl h)
  comma-Reads (more e es) ys p h = (true, consume-Reads tok_comma refl h)

  pub more-ReadsArgs :
      (e : Expr) (es : Exprs)
      → IsSource e
      → ReadsExpr D e
      → ReadsArgs D es
      → ReadsArgs D (more e es)
  unfolding expression emit node_of check_store
  more-ReadsArgs e es w ih ihs acc zero ys p room fuel h = absurd (omega arith)
  more-ReadsArgs e es w ih ihs acc (suc f) ys p room fuel h =
      let after = emit_args es (mark b')' ∷ ys) in
      let b = emit-Begins 0 e (comma es after) w in
      rw (At-is tok_rparen h, b.no_rparen, is-leb (size acc) 16 (omega arith))
        (Reads-bind _
          (whole-Reads e 0 f (comma es after) p ih (omega arith) (args-Stops 0 es ys) (omega arith)
            h)
          λ q h1.
            rw (not_null D e, is-ltb (size acc) 16 (omega arith))
              (Reads-bind _ (comma-Reads es ys q h1).1 λ q1 h2.
                subst
                  (λ ns.
                    Reads (mark b')' ∷ ys) (some ns)
                      (args_loop f (lilc_node_vec_push acc (node_of e)) q1))
                  (join-push acc (node_of e) (nodes_of es))
                  (ihs (lilc_node_vec_push acc (node_of e)) f ys q1
                    (omega (arith, size-push acc (node_of e)))
                    (omega (arith, emit-longer 0 e (comma es after), comma-longer es after)) h2)))
