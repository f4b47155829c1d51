-- ===== src/Parse/RoundTrip.antt =====
-- Printed programs are read back by `parse`.
use lilc.Ast.{block_node}
use lilc.Common.{◌+◌, ◌*◌, ◌≤◌, ◌≡◌, refl, List, [], none, length, length-drop-le, arith}
use lilc.Double.{Double}
use lilc.Lex.Lexeme.{Lexeme}
use lilc.Lex.Spec.{rest}
use lilc.Lex.Written.{Written, Written-longer}
use lilc.Parse.Ahead.{Reads, reads, Reads-bind, first-Reads}
use lilc.Parse.Cases.{
  ReadsExpr, ReadsArgs, ReadsStmts, num-ReadsExpr, var-ReadsExpr, bin-ReadsExpr, parens-ReadsExpr,
}
use lilc.Parse.Branches.{block-Reads, if_only-ReadsExpr, if_else-ReadsExpr}
use lilc.Parse.Compound.{call-ReadsExpr, def-ReadsExpr}
use lilc.Token.{to_int}
use lilc.Parse.Legible.{stmts-AreLexemes}
use lilc.Parse.Sequences.{none-ReadsStmts, more-ReadsStmts, none-ReadsArgs, more-ReadsArgs}
use lilc.Parse.Source.{
  Expr, num, var, bin, parens, call, if_only, if_else, def, Exprs, more, emit_stmts, nodes_of,
  IsSource, AreSource,
}
use lilc.Parse.{Parser, parse, program}

module _ (D : Type 0) ⦃dbl : Double D⦄ where
  mutual
    unfolding IsSource

    pub read_expr : (e : Expr) → IsSource e → ReadsExpr D e
    read_expr (num w) n = num-ReadsExpr w
    read_expr (var w) n = var-ReadsExpr w n
    read_expr (bin op l r) n = bin-ReadsExpr op l r (read_expr l n.0) (read_expr r n.1)
    read_expr (parens e) n = parens-ReadsExpr e (read_expr e n)
    read_expr (call w args) n = call-ReadsExpr w args n (read_args args n.2)
    read_expr (if_only c th) n = if_only-ReadsExpr c th (read_expr c n.0) (read_stmts th n.1)
    read_expr (if_else c th el) n =
        if_else-ReadsExpr c th el (read_expr c n.0) (read_stmts th n.1) (read_stmts el n.2)
    read_expr (def w params body) n = def-ReadsExpr w params body n (read_stmts body n.3)

    read_args : (es : Exprs) → AreSource es → ReadsArgs D es
    read_args Exprs.none n = none-ReadsArgs
    read_args (more e es) n = more-ReadsArgs e es n.0 (read_expr e n.0) (read_args es n.1)

    read_stmts : (es : Exprs) → AreSource es → ReadsStmts D es
    read_stmts Exprs.none n = none-ReadsStmts
    read_stmts (more e es) n = more-ReadsStmts e es n.0 (read_expr e n.0) (read_stmts es n.1)

module _ {D : Type 0} ⦃dbl : Double D⦄ where
  -- The fuel of `parse` is enough for the lexemes of its source.
  pub enough :
      (p : Parser D) (xs : List Lexeme)
      → Written xs (rest p.lex)
      → 6 * length xs + 4 ≤ 6 * length p.lex.source + 6
  enough p xs w =
      omega (arith, Written-longer xs (rest p.lex) w, length-drop-le p.lex.offset p.lex.source)

  -- When no message was set, a source that holds a program, with blanks anywhere and with the
  -- parentheses that the binding powers demand or with more, is read by `parse` to the tree of
  -- the program, and still no message is set: operators bind by their powers and associate to
  -- the left. Names and numbers are spelled right, calls have at most 16 arguments and
  -- definitions at most 15 parameters.
  pub parse-emit_stmts :
      (es : Exprs) (p : Parser D)
      → AreSource es
      → p.err ≡ none
      → Written (emit_stmts es []) (rest p.lex)
      → Reads [] (block_node (nodes_of es)) (parse p)
  unfolding parse program to_int
  parse-emit_stmts es p n clean w =
      Reads-bind _
        (Reads-bind _ (first-Reads (emit_stmts es []) p w (stmts-AreLexemes es [] n tt) clean)
          λ q h.
            block-Reads es (6 * length p.lex.source + 6) [] q (read_stmts D es n) refl
              (enough p (emit_stmts es []) w) h)
        λ q h. reads h
