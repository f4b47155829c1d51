-- ===== src/Codegen/Execute/Expressions.antt =====
-- The code for whole expressions.
use lilc.Ast.{
  Node, null, dbl_node, block_node, var_node, op_bin_node, proto_node, funcdef_node, funccall_node,
  if_node, Nodes, nil, cons, size,
}
use lilc.Codegen.Execute.Laws.{CodeLaws}
use lilc.Codegen.Execute.Branches.{if-WalksTo}
use lilc.Codegen.Execute.Operations.{WalksTo, dbl-WalksTo, var-WalksTo, binop-WalksTo}
use lilc.Codegen.Execute.Sequences.{
  GoesOn, call-WalksTo, nil-WalksTo, cons-WalksTo, done-GoesOn, next-GoesOn, first-WalksTo,
}
use lilc.Codegen.Execute.Steps.{Frame, number_in, numbers_in}
use lilc.Codegen.Interface.{LlvmLaws}
use lilc.Codegen.Scope.{IsExpr, AreExprs}
use lilc.Codegen.Semantics.{value, value_block, value_args}
use lilc.Codegen.{do_codegen, codegen_block, codegen_args}
use lilc.Common.{some}
use lilc.Double.{Double}

module _ {D S T V B : Type 0} ⦃dbl : Double D⦄ (fr : Frame D S T V B) (laws : LlvmLaws fr.api)
    (lows : CodeLaws fr.ar fr.view fr.api) where
  mutual
    unfolding do_codegen value IsExpr

    pub expr-WalksTo :
        (n : Node D)
        → IsExpr n
        → WalksTo fr laws lows
            (value fr.ar fr.call_value fr.vars n)
            (number_in fr)
            (do_codegen fr.api fr.table n)
    expr-WalksTo null w = absurd w
    expr-WalksTo (dbl_node val) w = dbl-WalksTo fr laws lows val
    expr-WalksTo (var_node name) w = var-WalksTo fr laws lows name
    expr-WalksTo (block_node nil) w = absurd w
    expr-WalksTo (block_node (cons n ns)) w =
        first-WalksTo fr laws lows (value fr.ar fr.call_value fr.vars n)
          (λ d. value_block fr.ar fr.call_value fr.vars d ns) (do_codegen fr.api fr.table n)
          (λ v. codegen_block fr.api fr.table (some v) ns) (expr-WalksTo n w.0)
          (block-GoesOn ns w.1)
    expr-WalksTo (op_bin_node left right op) w =
        binop-WalksTo fr laws lows (value fr.ar fr.call_value fr.vars left)
          (value fr.ar fr.call_value fr.vars right) (do_codegen fr.api fr.table left)
          (do_codegen fr.api fr.table right) op (expr-WalksTo left w.0) (expr-WalksTo right w.1)
    expr-WalksTo (proto_node proto) w = absurd w
    expr-WalksTo (funcdef_node proto body) w = absurd w
    expr-WalksTo (funccall_node name args) w =
        call-WalksTo fr laws lows name (size args) (value_args fr.ar fr.call_value fr.vars args)
          (codegen_args fr.api fr.table args) (args-WalksTo args w)
    expr-WalksTo (if_node cond then_block else_block) w =
        if-WalksTo fr laws lows (value fr.ar fr.call_value fr.vars cond)
          (value fr.ar fr.call_value fr.vars then_block)
          (value fr.ar fr.call_value fr.vars else_block) (do_codegen fr.api fr.table cond)
          (do_codegen fr.api fr.table then_block) (do_codegen fr.api fr.table else_block)
          (expr-WalksTo cond w.0) (expr-WalksTo then_block w.1) (expr-WalksTo else_block w.2)

    block-GoesOn :
        (ns : Nodes D)
        → AreExprs ns
        → GoesOn fr laws lows
            (λ d. value_block fr.ar fr.call_value fr.vars d ns)
            (λ v. codegen_block fr.api fr.table (some v) ns)
    block-GoesOn nil w = done-GoesOn fr laws lows
    block-GoesOn (cons n ns) w =
        next-GoesOn fr laws lows (value fr.ar fr.call_value fr.vars n)
          (λ d. value_block fr.ar fr.call_value fr.vars d ns) (do_codegen fr.api fr.table n)
          (λ v. codegen_block fr.api fr.table (some v) ns) (expr-WalksTo n w.0)
          (block-GoesOn ns w.1)

    args-WalksTo :
        (ns : Nodes D)
        → AreExprs ns
        → WalksTo fr laws lows
            (value_args fr.ar fr.call_value fr.vars ns)
            (numbers_in fr)
            (codegen_args fr.api fr.table ns)
    args-WalksTo nil w = nil-WalksTo fr laws lows
    args-WalksTo (cons n ns) w =
        cons-WalksTo fr laws lows (value fr.ar fr.call_value fr.vars n)
          (value_args fr.ar fr.call_value fr.vars ns) (do_codegen fr.api fr.table n)
          (codegen_args fr.api fr.table ns) (expr-WalksTo n w.0) (args-WalksTo ns w.1)
