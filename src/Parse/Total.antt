-- ===== src/Parse/Total.antt =====
-- The parser ends on every input: the fuel of `parse` is enough. It returns a complete tree unless
-- it recorded an error.
use lilc.Ast.{
  Node, null, Nodes, nil, size, is_null, lilc_node_vec_new, lilc_node_vec_push, lilc_dbl_node_new,
  lilc_block_node_new, lilc_var_node_new, lilc_bin_op_node_new, lilc_proto_node_new,
  lilc_funcdef_node_new, lilc_funccall_node_new, lilc_if_node_new,
}
use lilc.Common.{
  ℕ, zero, suc, ◌+◌, ◌*◌, ◌≤◌, ◌≡◌, refl, ap, ◌∙◌, ◌≢◌, ◌⊎◌, inl, inr, true, not, ◌&&◌, Option,
  none, some, [], length, take-length, length-drop-le, arith, Bytes, leb, ltb, ◌==◌,
}
use lilc.Double.{Double}
use lilc.Lex.Typed.{Typed}
use lilc.Lex.{lex_is}
use lilc.Outcome.{Ensures, holds, exits, Ensures-bind, Ensures-if}
use lilc.Parse.Calls.{scan-Runs, consume-Runs, consumef-Runs}
use lilc.Parse.Parts.{
  both, later, take_nodes-size, size-push, AreTrees-push, not-null, ParamsOrErr, ArgsOrErr,
  params_loop-Runs,
}
use lilc.Parse.Post.{
  Allowed, IsBinOp, IsTree, IsBlock, AreTrees, left, HasErr, TreeOrErr, BlockOrErr, Runs, Runs-bind,
  Runs-pure, Runs-if, Runs-cases, Runs-either, parse_err-Runs, lookup-Runs, read_str-Runs,
  read_dbl-Runs, read_name-Runs, check_store-Runs, PrefixTok, PrefixTok-row, IsBinOp-row,
}
use lilc.Parse.{
  Parser, Prefix, of_dbl, of_id, of_if, of_funcdef, Infix, of_bin_op, dbl_prefix, id_prefix,
  if_prefix, lparen_prefix, funcdef_prefix, bin_op_infix, lparen_infix, max_func_params, expression,
  infix_loop, prefix, infix_call, args_loop, expr_stmt, block, block_loop, program, parse, stop,
}
use lilc.Token.{tok_eos, tok_rcurl, tok_rparen, Token}

module _ {D : Type 0} ⦃dbl : Double D⦄ where
  mutual
    unfolding expression dbl_prefix id_prefix IsTree lilc_dbl_node_new lilc_var_node_new
        lilc_bin_op_node_new lilc_if_node_new lilc_funcdef_node_new lilc_proto_node_new
        lilc_block_node_new lilc_funccall_node_new lilc_node_vec_new

    expression-Runs :
        (f rbp : ℕ) (p : Parser D)
        → Typed p.lex.tok
        → 6 * left p + 1 ≤ f
        → Runs TreeOrErr 1 p (expression f rbp p)
    expression-Runs zero rbp p t fuel = absurd (omega arith)
    expression-Runs (suc f) rbp p t fuel = Runs-bind 1 1 0 (omega arith) (scan-Runs p) λ (_, p1) a1.
        Runs-bind 0 0 0 (omega arith) (lookup-Runs p.lex.tok.cls p1 a1.typed) λ (row, p2) a2.
          Runs-cases row.as_prefix _ _ p2 (λ e. parse_err-Runs _ p2 a2.typed (λ q h. inl h))
            (λ k e.
              Runs-bind 0 0 0 (omega arith)
                (prefix-Runs f k p.lex.tok p2 a2.typed (PrefixTok-row _ _ k t a2.result e)
                  (omega (arith, a1.shrinks, a2.shrinks)))
                λ (n, p3) a3.
                  infix_loop-Runs f rbp n p3 a3.typed a3.result
                    (omega (arith, a1.shrinks, a2.shrinks, a3.shrinks)))

    infix_loop-Runs :
        (f rbp : ℕ) (n : Node D) (p : Parser D)
        → Typed p.lex.tok
        → TreeOrErr n p
        → 6 * left p + 1 ≤ f
        → Runs TreeOrErr 0 p (infix_loop f rbp n p)
    infix_loop-Runs zero rbp n p t h fuel = absurd (omega arith)
    infix_loop-Runs (suc f) rbp n p t h fuel =
        Runs-bind 0 0 0 (omega arith) (lookup-Runs p.lex.tok.cls p t) λ (row, p1) a1.
          Runs-if (ltb rbp row.lbp) _ _ p1
            (λ more. Runs-bind 0 1 0 (omega arith) (scan-Runs p1) λ (_, p2) a2.
              Runs-cases row.as_infix _ _ p2 (λ e. parse_err-Runs _ p2 a2.typed (λ q x. inl x))
                (λ k e.
                  Runs-bind 0 0 0 (omega arith)
                    (infix_call-Runs f k p.lex.tok n p2 a2.typed
                      (later h (λ x. a2.err_kept (a1.err_kept x)) (λ x. x))
                      (λ b. IsBinOp-row p.lex.tok.cls a1.result (e ∙ ap some b))
                      (omega (arith, a1.shrinks, a2.shrinks)))
                    λ (m, p3) a3.
                      infix_loop-Runs f rbp m p3 a3.typed a3.result
                        (omega (arith, a1.shrinks, a2.shrinks, a3.shrinks))))
            (λ stop. Runs-pure n p1 a1.typed (later h a1.err_kept (λ x. x)))

    prefix-Runs :
        (f : ℕ) (k : Prefix) (tok : Token D) (p : Parser D)
        → Typed p.lex.tok
        → PrefixTok k tok
        → 6 * left p + 6 ≤ f
        → Runs TreeOrErr 0 p (prefix f k tok p)
    prefix-Runs zero k tok p t h fuel = absurd (omega arith)
    prefix-Runs (suc f) of_dbl tok p t h fuel =
        Runs-bind 0 0 0 (omega arith) (read_dbl-Runs tok.val p t h)
          λ (x, p1) a1. Runs-pure _ p1 a1.typed (inr tt)
    prefix-Runs (suc f) of_id tok p t h fuel =
        Runs-bind 0 0 0 (omega arith) (read_str-Runs tok.val p t h)
          λ (x, p1) a1. Runs-pure _ p1 a1.typed (inr tt)
    prefix-Runs (suc f) of_if tok p t h fuel = if_prefix-Runs f p t (omega arith)
    prefix-Runs (suc f) Prefix.of_lparen tok p t h fuel = lparen_prefix-Runs f p t (omega arith)
    prefix-Runs (suc f) of_funcdef tok p t h fuel = funcdef_prefix-Runs f p t (omega arith)

    if_prefix-Runs :
        (f : ℕ) (p : Parser D)
        → Typed p.lex.tok
        → 6 * left p + 5 ≤ f
        → Runs TreeOrErr 0 p (if_prefix f p)
    if_prefix-Runs zero p t fuel = absurd (omega arith)
    if_prefix-Runs (suc f) p t fuel =
        Runs-bind 0 1 0 (omega arith) (consumef-Runs _ p) λ (_, p1) a1.
          Runs-bind 0 1 0 (omega arith)
            (expression-Runs f 0 p1 a1.typed (omega (arith, a1.shrinks)))
            λ (c, p2) a2. Runs-bind 0 1 0 (omega arith) (consumef-Runs _ p2) λ (_, p3) a3.
              Runs-bind 0 1 0 (omega arith) (consumef-Runs _ p3) λ (_, p4) a4.
                Runs-bind 0 0 0 (omega arith)
                  (block-Runs f p4 a4.typed
                    (omega (arith, a1.shrinks, a2.shrinks, a3.shrinks, a4.shrinks)))
                  λ (b1, p5) a5. Runs-bind 0 1 0 (omega arith) (consumef-Runs _ p5) λ (_, p6) a6.
                    Runs-bind 0 0 0 (omega arith) (consume-Runs _ p6 a6.typed) λ (has_else, p7) a7.
                      let head =
                        both a2.result (λ x. a5.err_kept (a4.err_kept (a3.err_kept x))) a5.result in
                      let less : left p7 ≤ left p = omega (
                        arith, a1.shrinks, a2.shrinks, a3.shrinks, a4.shrinks, a5.shrinks,
                        a6.shrinks, a7.shrinks,
                      ) in
                      Runs-if has_else _ _ p7
                        (λ e. Runs-bind 0 1 0 (omega arith) (consumef-Runs _ p7) λ (_, p8) a8.
                          Runs-bind 0 0 0 (omega arith)
                            (block-Runs f p8 a8.typed (omega (arith, less, a8.shrinks)))
                            λ (b2, p9) a9.
                              Runs-bind 0 0 0 (omega arith)
                                (block-Runs f p9 a9.typed
                                  (omega (arith, less, a8.shrinks, a9.shrinks)))
                                λ (b3, p10) a10.
                                  Runs-if (is_null b3) _ _ p10
                                    (λ z. parse_err-Runs _ p10 a10.typed (λ q x. inl x))
                                    (λ z.
                                      Runs-bind 0 1 0 (omega arith) (consumef-Runs _ p10)
                                        λ (_, p11) a11. Runs-pure _ p11 a11.typed (
                                          later
                                            (both head
                                              (λ x.
                                                a9.err_kept
                                                  (a8.err_kept (a7.err_kept (a6.err_kept x))))
                                              a9.result)
                                            (λ x. a11.err_kept (a10.err_kept x))
                                            (λ x. (x.0.0, x.0.1, inr x.1)))))
                        (λ e. Runs-pure _ p7 a7.typed (
                          later head (λ x. a7.err_kept (a6.err_kept x))
                            (λ x. (x.0, x.1, inl refl))))

    lparen_prefix-Runs :
        (f : ℕ) (p : Parser D)
        → Typed p.lex.tok
        → 6 * left p + 5 ≤ f
        → Runs TreeOrErr 0 p (lparen_prefix f p)
    lparen_prefix-Runs zero p t fuel = absurd (omega arith)
    lparen_prefix-Runs (suc f) p t fuel =
        Runs-bind 0 1 0 (omega arith) (expression-Runs f 0 p t (omega arith)) λ (n, p1) a1.
          Runs-bind 0 1 0 (omega arith) (consumef-Runs _ p1)
            λ (_, p2) a2. Runs-pure n p2 a2.typed (later a1.result a2.err_kept (λ x. x))

    funcdef_prefix-Runs :
        (f : ℕ) (p : Parser D)
        → Typed p.lex.tok
        → 6 * left p + 5 ≤ f
        → Runs TreeOrErr 0 p (funcdef_prefix f p)
    funcdef_prefix-Runs zero p t fuel = absurd (omega arith)
    funcdef_prefix-Runs (suc f) p t fuel =
        Runs-bind 0 1 0 (omega arith) (consumef-Runs _ p) λ (_, p1) a1.
          Runs-bind 0 1 0 (omega arith) (consumef-Runs _ p1) λ (_, p2) a2.
            Runs-bind 0 0 0 (omega arith)
              (params_loop-Runs 18 [] p2 a2.typed (omega arith) (omega arith))
              λ (o, p3) a3.
                Runs-either (λ o'. ParamsOrErr o' p3) o _ _ p3 a3.result
                  (λ e. Runs-pure null p3 a3.typed (inl e))
                  (λ ps short.
                    Runs-if (length ps == max_func_params) _ _ p3
                      (λ e. parse_err-Runs _ p3 a3.typed (λ q x. inl x))
                      (λ e. Runs-bind 0 1 0 (omega arith) (consumef-Runs _ p3) λ (_, p4) a4.
                        Runs-bind 0 1 0 (omega arith) (consumef-Runs _ p4) λ (_, p5) a5.
                          Runs-bind 0 0 0 (omega arith)
                            (block-Runs f p5 a5.typed (
                              omega (
                                arith, a1.shrinks, a2.shrinks, a3.shrinks, a4.shrinks, a5.shrinks,
                              )))
                            λ (b, p6) a6.
                              Runs-bind 0 1 0 (omega arith) (consumef-Runs _ p6) λ (_, p7) a7.
                                Runs-bind 0 0 0 (omega arith)
                                  (read_str-Runs p.lex.tok.val p7 a7.typed (t.0 a1.result))
                                  λ (name, p8) a8. Runs-pure _ p8 a8.typed (
                                    later a6.result (λ x. a8.err_kept (a7.err_kept x))
                                      (λ x. (rw take-length (ground arith), x)))))

    infix_call-Runs :
        (f : ℕ) (k : Infix) (tok : Token D) (n : Node D) (p : Parser D)
        → Typed p.lex.tok
        → TreeOrErr n p
        → (k ≡ of_bin_op → IsBinOp tok.cls)
        → 6 * left p + 4 ≤ f
        → Runs TreeOrErr 0 p (infix_call f k tok n p)
    infix_call-Runs zero k tok n p t h b fuel = absurd (omega arith)
    infix_call-Runs (suc f) of_bin_op tok n p t h b fuel =
        bin_op_infix-Runs f tok n p t h (b refl) (omega arith)
    infix_call-Runs (suc f) Infix.of_lparen tok n p t h b fuel =
        lparen_infix-Runs f n p t (omega arith)

    bin_op_infix-Runs :
        (f : ℕ) (tok : Token D) (n : Node D) (p : Parser D)
        → Typed p.lex.tok
        → TreeOrErr n p
        → IsBinOp tok.cls
        → 6 * left p + 3 ≤ f
        → Runs TreeOrErr 0 p (bin_op_infix f tok n p)
    bin_op_infix-Runs zero tok n p t h b fuel = absurd (omega arith)
    bin_op_infix-Runs (suc f) tok n p t h b fuel =
        Runs-bind 0 0 0 (omega arith) (lookup-Runs tok.cls p t) λ (row, p1) a1.
          Runs-bind 0 1 0 (omega arith)
            (expression-Runs f row.lbp p1 a1.typed (omega (arith, a1.shrinks)))
            λ (m, p2) a2.
              Runs-if (is_null m) _ _ p2 (λ e. parse_err-Runs _ p2 a2.typed (λ q x. inl x))
                (λ e. Runs-pure _ p2 a2.typed (
                  later (both h (λ x. a2.err_kept (a1.err_kept x)) a2.result) (λ x. x)
                    (λ x. (x.0, x.1, b))))

    lparen_infix-Runs :
        (f : ℕ) (n : Node D) (p : Parser D)
        → Typed p.lex.tok
        → 6 * left p + 3 ≤ f
        → Runs TreeOrErr 0 p (lparen_infix f n p)
    lparen_infix-Runs zero n p t fuel = absurd (omega arith)
    lparen_infix-Runs (suc f) n p t fuel =
        Runs-bind 0 0 0 (omega arith)
          (args_loop-Runs f nil p t (omega arith) (inr tt) (omega arith))
          λ (o, p1) a1.
            Runs-either (λ o'. ArgsOrErr o' p1) o _ _ p1 a1.result
              (λ e. Runs-pure null p1 a1.typed (inl e))
              (λ xs x. Runs-bind 0 1 0 (omega arith) (consumef-Runs _ p1) λ (_, p2) a2.
                Runs-bind 0 0 0 (omega arith) (read_name-Runs n p2 a2.typed) λ (name, p3) a3.
                  Runs-pure _ p3 a3.typed (
                    later x.1 (λ e. a3.err_kept (a2.err_kept e))
                      (λ ts. rw take_nodes-size (x.0, ts))))

    args_loop-Runs :
        (f : ℕ) (args : Nodes D) (p : Parser D)
        → Typed p.lex.tok
        → size args ≤ max_func_params
        → HasErr p ⊎ AreTrees args
        → 6 * left p + 2 ≤ f
        → Runs ArgsOrErr 0 p (args_loop f args p)
    args_loop-Runs zero args p t n h fuel = absurd (omega arith)
    args_loop-Runs (suc f) args p t n h fuel =
        Runs-if (not (lex_is p.lex tok_rparen) && leb (size args) max_func_params) _ _ p
          (λ more.
            Runs-bind 0 1 0 (omega arith) (expression-Runs f 0 p t (omega arith)) λ (arg, p1) a1.
              Runs-if (is_null arg) _ _ p1
                (λ e.
                  Runs-bind 0 0 0 (omega arith)
                    (parse_err-Runs {Q = λ _ q. HasErr q} _ p1 a1.typed (λ q x. x))
                    λ (_, q) a. Runs-pure none q a.typed a.result)
                (λ e.
                  Runs-bind 0 0 0 (omega arith) (check_store-Runs (size args) p1 a1.typed)
                    λ (_, p2) a2.
                      Runs-bind 0 0 0 (omega arith) (consume-Runs _ p2 a2.typed) λ (_, p3) a3.
                        args_loop-Runs f (lilc_node_vec_push args arg) p3 a3.typed
                          (omega (arith, size-push args arg, a2.result))
                          (later (both h a1.err_kept a1.result) (λ x. a3.err_kept (a2.err_kept x))
                            (λ x. AreTrees-push args arg x.0 x.1))
                          (omega (arith, a1.shrinks, a2.shrinks, a3.shrinks))))
          (λ stop. Runs-pure (some args) p t (n, h))

    expr_stmt-Runs :
        (f : ℕ) (p : Parser D)
        → Typed p.lex.tok
        → 6 * left p + 2 ≤ f
        → Runs TreeOrErr 1 p (expr_stmt f p)
    expr_stmt-Runs zero p t fuel = absurd (omega arith)
    expr_stmt-Runs (suc f) p t fuel =
        Runs-bind 1 1 0 (omega arith) (expression-Runs f 0 p t (omega arith)) λ (n, p1) a1.
          Runs-bind 0 1 0 (omega arith) (consumef-Runs _ p1)
            λ (_, p2) a2. Runs-pure n p2 a2.typed (later a1.result a2.err_kept (λ x. x))

    block-Runs :
        (f : ℕ) (p : Parser D)
        → Typed p.lex.tok
        → 6 * left p + 4 ≤ f
        → Runs BlockOrErr 0 p (block f p)
    block-Runs zero p t fuel = absurd (omega arith)
    block-Runs (suc f) p t fuel = block_loop-Runs f nil p t (inr tt) (omega arith)

    block_loop-Runs :
        (f : ℕ) (stmts : Nodes D) (p : Parser D)
        → Typed p.lex.tok
        → HasErr p ⊎ AreTrees stmts
        → 6 * left p + 3 ≤ f
        → Runs BlockOrErr 0 p (block_loop f stmts p)
    block_loop-Runs zero stmts p t h fuel = absurd (omega arith)
    block_loop-Runs (suc f) stmts p t h fuel =
        Runs-if (not (lex_is p.lex tok_eos) && not (lex_is p.lex tok_rcurl)) _ _ p
          (λ more. Runs-bind 0 1 0 (omega arith) (expr_stmt-Runs f p t (omega arith)) λ (n, p1) a1.
            Runs-if (is_null n) _ _ p1
              (λ e. Runs-pure null p1 a1.typed (inl (not-null n e a1.result)))
              (λ e.
                block_loop-Runs f (lilc_node_vec_push stmts n) p1 a1.typed
                  (later (both h a1.err_kept a1.result) (λ x. x)
                    (λ x. AreTrees-push stmts n x.0 x.1))
                  (omega (arith, a1.shrinks))))
          (λ stop. Runs-pure _ p t h)

  length-rest : (p : Parser D) → left p ≤ length p.lex.source
  length-rest p = length-drop-le p.lex.offset p.lex.source

  not-null-block : (n : Node D) {E : Type 0} → is_null n ≡ true → E ⊎ IsBlock n → E
  unfolding IsTree
  not-null-block null e (inl h) = h
  not-null-block null e (inr h) = absurd h
  not-null-block _ e h = cc

  program-Runs : (p : Parser D) → Runs BlockOrErr 1 p (program (6 * length p.lex.source + 6) p)
  unfolding program
  program-Runs p =
      Runs-bind 1 1 0 (omega arith) (scan-Runs p)
        λ (_, q) a. block-Runs _ q a.typed (omega (arith, a.shrinks, length-rest p))

  -- From any state `parse` ends. It never reads a union member that was not written or an error
  -- message that was not set; a tree that it returns is complete, or an error was recorded.
  pub parse_total : (p : Parser D) → Ensures Allowed (λ (n, q). HasErr q ⊎ IsBlock n) (parse p)
  unfolding parse
  parse_total p =
      Ensures-bind (program-Runs p) (λ e h. h)
        λ (n, q) a.
          Ensures-if (is_null n) (λ e. set q.err q (not-null-block n e a.result))
            (λ e. holds a.result)
    where
      set :
          (o : Option Bytes) (q : Parser D)
          → o ≢ none
          → Ensures Allowed (λ (s : Node D × Parser D). HasErr s.1 ⊎ IsBlock s.0) (stop o q)
      set none q h = absurd (h refl)
      set (some msg) q h = exits
