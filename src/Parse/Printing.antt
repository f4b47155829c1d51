-- ===== src/Parse/Printing.antt =====
-- The parser's trees and the printer `ast_readf`.
use lilc.Ast.Layout.{IsPrintable, ArePrintable, layout, ast_readf-layout}
use lilc.Ast.{
  Node, null, dbl_node, block_node, var_node, op_bin_node, proto_node, funcdef_node, funccall_node,
  if_node, Nodes, nil, cons, is_null, ast_readf,
}
use lilc.Buffer.{full}
use lilc.Common.{ℕ, ap, ◌∙◌, ◌≡◌, refl, ◌⊎◌, inl, inr, false, none, [], arith}
use lilc.Double.{Double}
use lilc.Outcome.{ok, Ensures-ok}
use lilc.Parse.Post.{IsTree, IsBlock, AreTrees}
use lilc.Parse.Total.{parse_total}
use lilc.Parse.{Parser, parse}

module _ {D : Type 0} where
  not_null : (n : Node D) → IsBlock n → is_null n ≡ false
  unfolding IsTree
  not_null null h = absurd h
  not_null _ h = refl

  else_part :
      (n : Node D)
      → (IsBlock n → IsPrintable n)
      → (n ≡ null) ⊎ IsBlock n
      → (n ≡ null) ⊎ ((is_null n ≡ false) × IsPrintable n)
  else_part n f (inl e) = inl e
  else_part n f (inr b) = inr (not_null n b, f b)

  mutual
    unfolding IsTree IsPrintable

    Tree-IsPrintable : (n : Node D) → IsTree n → IsPrintable n
    Tree-IsPrintable null h = absurd h
    Tree-IsPrintable (dbl_node val) h = tt
    Tree-IsPrintable (block_node stmts) h = Trees-ArePrintable stmts h
    Tree-IsPrintable (var_node name) h = tt
    Tree-IsPrintable (op_bin_node left right op) h =
        (Tree-IsPrintable left h.0, Tree-IsPrintable right h.1)
    Tree-IsPrintable (proto_node proto) h = tt
    Tree-IsPrintable (funcdef_node proto body) h = Block-IsPrintable body h.1
    Tree-IsPrintable (funccall_node name args) h = Trees-ArePrintable args h.1
    Tree-IsPrintable (if_node cond then_block else_block) h = (
      Tree-IsPrintable cond h.0,
      Block-IsPrintable then_block h.1,
      else_part else_block (Block-IsPrintable else_block) h.2,
    )

    Block-IsPrintable : (n : Node D) → IsBlock n → IsPrintable n
    Block-IsPrintable (block_node stmts) h = Trees-ArePrintable stmts h
    Block-IsPrintable _ h = absurd h

    Trees-ArePrintable : (ns : Nodes D) → AreTrees ns → ArePrintable ns
    Trees-ArePrintable nil h = tt
    Trees-ArePrintable (cons n ns) h = (Tree-IsPrintable n h.0, Trees-ArePrintable ns h.1)

module _ {D : Type 0} ⦃dbl : Double D⦄ where
  -- When a parse returns and no error message was set, the printer writes the whole tree that it
  -- returned, and never meets a NULL node.
  pub ast_readf-parse :
      (p : Parser D) {q : Parser D} {n : Node D}
      → parse p ≡ ok (n, q)
      → q.err ≡ none
      → ast_readf 0 n (full []) ≡ ok (tt, full (layout 0 n))
  ast_readf-parse p {n = n} e clean = elim (Ensures-ok (parse_total p) e) [
    | inl failed ↦ absurd (failed clean)
    | inr tree ↦
        ast_readf-layout n 0 (full []) (omega arith) (Block-IsPrintable n tree)
        ∙ ap (λ (k : ℕ). ok (tt, record { buf = layout 0 n; i = k })) (omega arith)
  ]
