-- ===== src/Codegen/Resolve.antt =====
-- Code generation for expressions.
mod Steps
use lilc.Codegen.Resolve.Steps.{
  Any, Says, Safe, Safe-null, build-Safe, append-Safe, incoming-Safe, position-Safe,
  insert_block-Safe, Walks, binop-Walks, Safe-keep, funccall-Walks, arm-Walks, merge_arms-Walks,
}
use lilc.Ast.{
  Node, null, dbl_node, block_node, var_node, op_bin_node, proto_node, funcdef_node, funccall_node,
  if_node, Nodes, nil, cons, size,
}
use lilc.Codegen.Interface.{Instr, ui_to_fp, call, Llvm, LlvmLaws, NamedVals}
use lilc.Codegen.Scope.{
  Returns, returns, Returns-bind, is_some, Scope, is_bin_op, takes, resolves, all_resolve, IsExpr,
  AreExprs, arity_of, Ready-same, Ready,
}
use lilc.Codegen.{
  Gen, Walk, or_null, call_llvm, change_llvm, block_or_fault, build, insert_block, codegen_dbl,
  codegen_var, build_op, codegen_binop, codegen_funccall, open_branches, arm, merge_arms,
  codegen_if, do_codegen, codegen_block, codegen_args,
}
use lilc.Common.{
  ℕ, ◌∙◌, ap, subst, ◌≡◌, refl, Bool, true, false, not, ◌&&◌, Option, none, some, List, ◌==◌, Bytes,
  codes, if◌then◌else◌,
}
use lilc.Double.{Double}
use lilc.Outcome.{Outcome, ok, bind, M, pure}
use lilc.Token.{TokType, tok_add, tok_sub, tok_mul, tok_div, tok_cmplt}

module _ {D S T V B : Type 0} ⦃dbl : Double D⦄ {api : Llvm D S V B} (laws : LlvmLaws api)
    (table : NamedVals T V) (sc : Scope) where
  open_branches-Safe :
      (c : V) (g : Gen S T) → Ready api table sc g → Safe laws table sc Any (open_branches api c g)
  unfolding open_branches
  open_branches-Safe c g h = Returns-bind (build-Safe laws table sc _ g h) λ s1 _ h1.
      Returns-bind (insert_block-Safe laws table sc s1.1 h1) λ s2 _ h2.
        Returns-bind (append-Safe laws table sc _ (codes "then") s2.1 h2) λ s3 _ h3.
          Returns-bind (append-Safe laws table sc _ (codes "else") s3.1 h3) λ s4 _ h4.
            Returns-bind (append-Safe laws table sc _ (codes "ifcont") s4.1 h4)
              λ s5 _ h5. Returns-bind (build-Safe laws table sc _ s5.1 h5) λ s6 _ h6. returns tt h6

  if-Walks :
      {b c d : Bool} {wc wt we : Walk S T V}
      → Walks laws table sc b wc
      → Walks laws table sc c wt
      → Walks laws table sc d we
      → Walks laws table sc (b && (c && d)) (codegen_if api wc wt we)
  unfolding codegen_if
  if-Walks {b} {c} {d} hc ht he g h = Returns-bind (hc g h) λ s e1 h1.
      Safe-null laws table sc b _ s.0 s.1 e1 h1 λ v.
        Returns-bind (open_branches-Safe v s.1 h1) λ s2 _ h2.
          Returns-bind (arm-Walks laws table sc _ _ ht s2.1 h2) λ s3 e3 h3.
            Safe-null laws table sc c _ s3.0 s3.1 e3 h3 λ t.
              Returns-bind (arm-Walks laws table sc _ _ he s3.1 h3) λ s4 e4 h4.
                Safe-keep laws table sc _ s4.0 s4.1 e4 h4
                  λ e. merge_arms-Walks laws table sc _ t e s4.1 h4

  mutual
    unfolding do_codegen resolves IsExpr codegen_dbl codegen_var

    Expr-Walks :
        (n : Node D) → IsExpr n → Walks laws table sc (resolves sc n) (do_codegen api table n)
    Expr-Walks null w g h = absurd w
    Expr-Walks (dbl_node val) w g h = returns refl h
    Expr-Walks (var_node name) w g h = returns (h.offers.bound name) h
    Expr-Walks (block_node nil) w g h = absurd w
    Expr-Walks (block_node (cons n ns)) w g h = Returns-bind (Expr-Walks n w.0 g h) λ s e h'.
        Safe-null laws table sc (resolves sc n) _ s.0 s.1 e h' λ v. Block-Walks v ns w.1 s.1 h'
    Expr-Walks (op_bin_node left right op) w g h =
        binop-Walks laws table sc op (Expr-Walks left w.0) (Expr-Walks right w.1) g h
    Expr-Walks (proto_node proto) w g h = absurd w
    Expr-Walks (funcdef_node proto body) w g h = absurd w
    Expr-Walks (funccall_node name args) w g h =
        funccall-Walks laws table sc name (size args) (Args-Walks args w) g h
    Expr-Walks (if_node cond then_block else_block) w g h =
        if-Walks (Expr-Walks cond w.0) (Expr-Walks then_block w.1) (Expr-Walks else_block w.2) g h

    Block-Walks :
        (v : V) (ns : Nodes D)
        → AreExprs ns
        → Walks laws table sc (all_resolve sc ns) (codegen_block api table (some v) ns)
    Block-Walks v nil w g h = returns refl h
    Block-Walks v (cons n ns) w g h = Returns-bind (Expr-Walks n w.0 g h) λ s e h'.
        Safe-null laws table sc (resolves sc n) _ s.0 s.1 e h' λ v'. Block-Walks v' ns w.1 s.1 h'

    Args-Walks :
        (ns : Nodes D)
        → AreExprs ns
        → Walks laws table sc (all_resolve sc ns) (codegen_args api table ns)
    Args-Walks nil w g h = returns refl h
    Args-Walks (cons n ns) w g h = Returns-bind (Expr-Walks n w.0 g h) λ s e h'.
        Safe-null laws table sc (resolves sc n) _ s.0 s.1 e h' λ v.
          Returns-bind (Args-Walks ns w.1 s.1 h')
            λ t e' k. Safe-keep laws table sc _ t.0 t.1 e' k λ vs. returns refl k

  -- In a state that offers a scope and whose builder stands in a block, code generation for an
  -- expression returns. It gives a value if and only if the expression resolves in that scope, and
  -- leaves the scope as it is and the builder in a block.
  pub do_codegen-resolves :
      (g : Gen S T) (n : Node D)
      → IsExpr n
      → Ready api table sc g
      → Returns (λ v. is_some v ≡ resolves sc n) (Ready api table sc) (do_codegen api table n g)
  do_codegen-resolves g n w h = Expr-Walks n w g h
