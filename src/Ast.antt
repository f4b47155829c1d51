-- ===== src/Ast.antt =====
-- src/ast.h and src/ast.c: the nodes of the syntax tree, their constructors, and `ast_readf`.
-- A `Node` is a `struct lilc_node_t *`: `null` is the NULL pointer, and each other constructor is a
-- node of the type that its tag says, with the fields of its struct. Allocation is taken to succeed.
-- A `lilc_node_vec_t` (src/lib/kvec.h) is the sequence of its elements.
pub mod Layout
use lilc.Buffer.{Out, emit, put}
use lilc.Common.{
  ℕ, ◌+◌, ◌-◌, ◌≡◌, refl, Bool, true, false, not, Bytes, List, [], ◌∷◌, ◌++◌, take, length, codes,
  zero, suc, ltb, if◌then◌else◌,
}
use lilc.Double.{Double}
use lilc.Outcome.{Outcome, ok, fault, Fault, bind, M, pure, ◌>>=◌, ◌>>◌}
use lilc.Token.{TokType, lilc_token_str}

-- The arrays of parameters are as long as `param_count` says.
pub record Proto : Type 0 where
  pub name : Bytes
  pub params : List Bytes

-- `Nodes` is a vector of nodes, or an array of arguments as long as `arg_count` says.
mutual
  pub data Node (D : Type 0) : Type 0 where
    null : Node D
    dbl_node : D → Node D
    block_node : Nodes D → Node D
    var_node : Bytes → Node D
    op_bin_node : Node D → Node D → TokType → Node D
    proto_node : Proto → Node D
    funcdef_node : Proto → Node D → Node D
    funccall_node : Bytes → Nodes D → Node D
    if_node : Node D → Node D → Node D → Node D

  pub data Nodes (D : Type 0) : Type 0 where
    nil : Nodes D
    cons : Node D → Nodes D → Nodes D

module _ {D : Type 0} where
  abbrev pub is_null : Node D → Bool
  is_null null = true
  is_null _ = false

  abbrev pub size : Nodes D → ℕ
  size nil = 0
  size (cons n ns) = suc (size ns)

  -- `kv_init`
  unfoldable pub lilc_node_vec_new : Nodes D
  lilc_node_vec_new = nil

  -- `kv_push`, and a store behind the last element of an array
  unfoldable pub lilc_node_vec_push : Nodes D → Node D → Nodes D
  lilc_node_vec_push nil x = cons x nil
  lilc_node_vec_push (cons n ns) x = cons n (lilc_node_vec_push ns x)

  unfoldable pub lilc_dbl_node_new : D → Node D
  lilc_dbl_node_new val = dbl_node val

  unfoldable pub lilc_block_node_new : Nodes D → Node D
  lilc_block_node_new stmts = block_node stmts

  unfoldable pub lilc_var_node_new : Bytes → Node D
  lilc_var_node_new name = var_node name

  unfoldable pub lilc_bin_op_node_new : Node D → Node D → TokType → Node D
  lilc_bin_op_node_new left right op = op_bin_node left right op

  unfoldable pub lilc_funcdef_node_new : Proto → Node D → Node D
  lilc_funcdef_node_new proto body = funcdef_node proto body

  -- The loop copies the first `arg_count` pointers.
  unfoldable pub take_nodes : ℕ → Nodes D → Nodes D
  take_nodes zero ns = nil
  take_nodes (suc k) nil = nil
  take_nodes (suc k) (cons n ns) = cons n (take_nodes k ns)

  unfoldable pub lilc_funccall_node_new : Bytes → Nodes D → ℕ → Node D
  lilc_funccall_node_new name args arg_count = funccall_node name (take_nodes arg_count args)

  unfoldable pub lilc_if_node_new : Node D → Node D → Node D
  lilc_if_node_new cond then_block = if_node cond then_block null

-- The loop copies the first `param_count` pointers.
unfoldable pub lilc_proto_node_new : Bytes → List Bytes → ℕ → Proto
lilc_proto_node_new name params param_count = record {
  name = name;
  params = take param_count params;
}

unfoldable pub spaces : ℕ → Bytes
spaces zero = []
spaces (suc n) = b' ' ∷ spaces n

unfoldable pub put_params : List Bytes → Out → Out
put_params [] o = o
put_params (x ∷ xs) o = put_params xs (emit (x ++ b',' ∷ []) o)

-- `i--` behind the loop deletes the last comma.
unfoldable pub put_param_list : List Bytes → Out → Out
put_param_list params o =
    if ltb 0 (length params)
    then (let o' = put_params params o in record o' { i = o'.i - 1 })
    else o

abbrev pub node_str_funcdef : Bytes
node_str_funcdef = codes "funcdef"

abbrev pub node_str_if : Bytes
node_str_if = codes "if"

unfoldable pub put_proto : Proto → M Out (Unit {0})
put_proto proto = do
  put proto.name
  put (codes "[")
  λ o. ok (tt, put_param_list proto.params o)
  put (codes "]")

module _ {D : Type 0} ⦃dbl : Double D⦄ where
  -- What stands between the parentheses, by the node's tag, and each list of children.
  unfoldable mutual
    pub ast_readf : ℕ → Node D → M Out (Unit {0})
    ast_readf indent null = λ o. fault Fault.null_deref
    ast_readf indent (dbl_node val) = do
      put (spaces indent ++ codes "(")
      put (codes "dbl ")
      put (dbl.show val)
      put (codes ")")
    ast_readf indent (block_node stmts) = do
      put (spaces indent ++ codes "(")
      put (codes "block")
      readf_children (indent + 2) stmts
      put (codes ")")
    ast_readf indent (var_node name) = do
      put (spaces indent ++ codes "(")
      put (codes "var ")
      put name
      put (codes ")")
    ast_readf indent (op_bin_node left right op) = do
      put (spaces indent ++ codes "(")
      put (lilc_token_str op)
      put (codes "\n")
      ast_readf (indent + 2) left
      put (codes "\n")
      ast_readf (indent + 2) right
      put (codes ")")
    ast_readf indent (funcdef_node proto body) = do
      put (spaces indent ++ codes "(")
      put node_str_funcdef
      put (codes "\n")
      put (spaces (indent + 2) ++ codes "(")
      put_proto proto
      put (codes ")")
      put (codes "\n")
      ast_readf (indent + 2) body
      put (codes ")")
    ast_readf indent (proto_node proto) = do
      put (spaces indent ++ codes "(")
      put_proto proto
      put (codes ")")
    ast_readf indent (funccall_node name args) = do
      put (spaces indent ++ codes "(")
      put (codes "call " ++ name)
      readf_children (indent + 2) args
      put (codes ")")
    ast_readf indent (if_node cond then_block else_block) = do
      put (spaces indent ++ codes "(")
      put node_str_if
      put (codes "\n")
      ast_readf (indent + 2) cond
      put (codes "\n")
      ast_readf (indent + 2) then_block
      let else_out = ast_readf (indent + 2) else_block
      if is_null else_block then pure tt else do put (codes " else"); put (codes "\n"); else_out
      put (codes ")")

    -- the loops over a block's statements and a call's arguments
    pub readf_children : ℕ → Nodes D → M Out (Unit {0})
    readf_children indent nil = pure tt
    readf_children indent (cons n ns) = do
      put (codes "\n")
      ast_readf indent n
      readf_children indent ns
