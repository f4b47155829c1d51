-- ===== src/Codegen.antt =====
-- src/codegen.c: the walk over the tree that builds LLVM code, over the interfaces of LLVM and of the
-- symbol table (Codegen/Interface). A NULL `LLVMValueRef` is `none`.
pub mod Interface
pub mod Scope
pub mod Resolve
pub mod Meaning
pub mod Value
pub mod Semantics
pub mod Execute
pub mod Define
pub mod Programs
pub mod Drive
use lilc.Ast.{
  Proto, Node, null, dbl_node, block_node, var_node, op_bin_node, proto_node, funcdef_node,
  funccall_node, if_node, Nodes, nil, cons, size, lilc_proto_node_new, lilc_funcdef_node_new,
}
use lilc.Codegen.Interface.{
  Instr, fadd, fsub, fmul, fdiv, fcmp_ult, fcmp_one, ui_to_fp, ret, call, cond_br, br, phi, Llvm,
  NamedVals,
}
use lilc.Common.{
  ℕ, suc, ◌+◌, Bool, true, false, not, Option, none, some, List, [], ◌∷◌, ◌++◌, ◌==◌, if◌then◌else◌,
  length, Bytes, codes,
}
use lilc.Double.{Double}
use lilc.Outcome.{ok, fault, exited, Fault, bind, Outcome, M, pure, ◌>>=◌, ◌>>◌}
use lilc.Token.{TokType, tok_add, tok_sub, tok_mul, tok_div, tok_cmplt}

-- The module and the builder, which LLVM keeps, and the symbol table.
pub record Gen (S T : Type 0) : Type 0 where
  pub llvm : S
  pub named_vals : T

-- `if (!x) return NULL`, and the rest with the value otherwise
abbrev pub or_null {ℓ} :
    {S : Type ℓ} {A B : Type ℓ} → Option A → (A → M S (Option B)) → M S (Option B)
or_null none f s = ok (none, s)
or_null (some a) f s = f a s

-- The code for one node, as `do_codegen` builds it; `none` is NULL.
abbrev pub Walk : Type 0 → Type 0 → Type 0 → Type 0
Walk S T V = M (Gen S T) (Option V)

module _ {S T : Type 0} where
  -- a call of LLVM that changes the module or the builder
  unfoldable pub call_llvm : {A : Type 0} → (S → A × S) → M (Gen S T) A
  call_llvm op g = let (a, s) = op g.llvm in ok (a, record g { llvm = s })

  unfoldable pub change_llvm : (S → S) → M (Gen S T) (Unit {0})
  change_llvm op g = ok (tt, record g { llvm = op g.llvm })

  abbrev pub get_gen : M (Gen S T) (Gen S T)
  get_gen g = ok (g, g)

  abbrev pub set_names : T → M (Gen S T) (Unit {0})
  set_names t g = ok (tt, record g { named_vals = t })

  abbrev pub block_or_fault : {B : Type 0} → Option B → M (Gen S T) B
  block_or_fault none g = fault Fault.null_deref
  block_or_fault (some b) g = ok (b, g)

module _ {D S T V B : Type 0} (api : Llvm D S V B) where
  abbrev pub build : Instr V B → M (Gen S T) V
  build i = call_llvm (api.build i)

  -- `LLVMGetInsertBlock`, whose NULL the callers dereference
  unfoldable pub insert_block : M (Gen S T) B
  insert_block g = block_or_fault (api.get_insert_block g.llvm) g

  unfoldable pub codegen_dbl : D → Walk S T V
  codegen_dbl val g = ok (some (api.const_real val), g)

  -- the switch of `codegen_binop`
  unfoldable pub build_op : TokType → V → V → Walk S T V
  build_op tok_add lhs rhs = build (fadd lhs rhs (codes "addtmp")) >>= λ v. pure (some v)
  build_op tok_sub lhs rhs = build (fsub lhs rhs (codes "subtmp")) >>= λ v. pure (some v)
  build_op tok_mul lhs rhs = build (fmul lhs rhs (codes "multmp")) >>= λ v. pure (some v)
  build_op tok_div lhs rhs = build (fdiv lhs rhs (codes "divtmp")) >>= λ v. pure (some v)
  build_op tok_cmplt lhs rhs = do
    cmp_result ← build (fcmp_ult lhs rhs (codes "cmptmp"))
    v ← build (ui_to_fp cmp_result (codes "boolcasttmp"))
    pure (some v)
  build_op _ lhs rhs = pure none

  -- The function that a prototype stands for: one that exists and is empty, or a new one.
  unfoldable pub proto_function : Option V → Proto → Walk S T V
  proto_function (some func) proto g =
      if not (api.count_params func g.llvm == length proto.params)
      then ok (none, g)
      else if not (api.count_basic_blocks func g.llvm == 0)
      then ok (none, g)
      else ok (some func, g)
  proto_function none proto g =
      let (func, s) = api.add_function proto.name (length proto.params) g.llvm in
      ok (some func, record g { llvm = api.set_external_linkage func s })

  -- what `codegen_funcdef` does with the value of the body
  unfoldable pub finish_function : V → Option V → Walk S T V
  finish_function func none = change_llvm (api.delete_function func) >> pure none
  finish_function func (some body) = do
    build (ret body)
    g ← get_gen
    if api.verify_fails func g.llvm
        then (change_llvm (api.delete_function func) >> pure none)
        else pure (some func)

  -- The functions for the nodes that have children take what `do_codegen` does on each child.

  -- both operands are generated before either is tested
  unfoldable pub codegen_binop : Walk S T V → Walk S T V → TokType → Walk S T V
  codegen_binop left right op = do
    lhs ← left
    rhs ← right
    or_null lhs λ l. or_null rhs λ r. build_op op l r

  unfoldable pub codegen_funccall : Bytes → ℕ → M (Gen S T) (Option (List V)) → Walk S T V
  codegen_funccall name arg_count walk_args = do
    g ← get_gen
    or_null (api.get_named_function name g.llvm) λ func.
        if not (api.count_params func g.llvm == arg_count) then pure none else do
          args ← walk_args
          or_null args λ vs. build (call func vs name) >>= λ v. pure (some v)

  -- `codegen_funcdef` from the entry block on
  unfoldable pub fill_function : V → Walk S T V → Walk S T V
  fill_function func walk_body = do
    block ← call_llvm (api.append_basic_block func (codes "entry"))
    change_llvm (api.position_at_end block)
    body ← walk_body
    finish_function func body

  -- One arm: its value and the block that it ends in, or `none` when its value is NULL.
  unfoldable pub arm : B → B → Walk S T V → M (Gen S T) (Option (V × B))
  arm start merge_block walk = do
    change_llvm (api.position_at_end start)
    value ← walk
    or_null value λ v. do build (br merge_block); end ← insert_block; pure (some (v, end))

  -- the phi of the two arms
  unfoldable pub merge_arms : B → V × B → V × B → Walk S T V
  merge_arms merge_block (then_value, then_end) (else_value, else_end) = do
    change_llvm (api.position_at_end merge_block)
    result ← build (phi (codes "ifphitmp"))
    change_llvm (api.add_incoming result then_value then_end)
    change_llvm (api.add_incoming result else_value else_end)
    pure (some result)

module _ {D S T V B : Type 0} ⦃dbl : Double D⦄ (api : Llvm D S V B) where
  -- `codegen_if` up to the branch on the condition: the starts of the three blocks
  unfoldable pub open_branches : V → M (Gen S T) (B × B × B)
  open_branches cond = do
    test ← build api (fcmp_one cond (api.const_real (dbl.of_int 0)) (codes "ifcond"))
    here ← insert_block api
    g ← get_gen
    let func = api.get_block_parent here g.llvm
    then_block ← call_llvm (api.append_basic_block func (codes "then"))
    else_block ← call_llvm (api.append_basic_block func (codes "else"))
    merge_block ← call_llvm (api.append_basic_block func (codes "ifcont"))
    build api (cond_br test then_block else_block)
    pure (then_block, else_block, merge_block)

  unfoldable pub codegen_if : Walk S T V → Walk S T V → Walk S T V → Walk S T V
  codegen_if walk_cond walk_then walk_else = do
    value ← walk_cond
    or_null value λ cond. do
      blocks ← open_branches cond
      let (then_block, else_block, merge_block) = blocks
      then_arm ← arm api then_block merge_block walk_then
      or_null then_arm λ t. do
        else_arm ← arm api else_block merge_block walk_else
        or_null else_arm λ e. merge_arms api merge_block t e

module _ {D S T V B : Type 0} (api : Llvm D S V B) (table : NamedVals T V) where
  unfoldable pub codegen_var : Bytes → Walk S T V
  codegen_var name g = ok (table.get g.named_vals name, g)

  -- The loop of `codegen_proto` from parameter `i` on.
  unfoldable pub name_params : V → ℕ → List Bytes → M (Gen S T) (Unit {0})
  name_params func i [] = pure tt
  name_params func i (name ∷ names) = do
    g ← get_gen
    let param = api.get_param func i g.llvm
    change_llvm (api.set_value_name param name)
    set_names (table.put g.named_vals name param)
    name_params func (suc i) names

  unfoldable pub codegen_proto : Proto → Walk S T V
  codegen_proto proto = do
    g ← get_gen
    func ← proto_function api (api.get_named_function proto.name g.llvm) proto
    or_null func λ f. name_params f 0 proto.params >> pure (some f)

  unfoldable pub clear_names : M (Gen S T) (Unit {0})
  clear_names g = ok (tt, record g { named_vals = table.clear g.named_vals })

  unfoldable pub codegen_funcdef : Proto → Walk S T V → Walk S T V
  codegen_funcdef proto walk_body = do
    clear_names
    func ← codegen_proto proto
    or_null func λ f. fill_function api f walk_body

module _ {D S T V B : Type 0} ⦃dbl : Double D⦄ (api : Llvm D S V B) (table : NamedVals T V) where
  -- Recursively walk an AST and generate LLVM IR.
  unfoldable mutual
    pub do_codegen : Node D → Walk S T V
    do_codegen null = λ g. fault Fault.null_deref
    do_codegen (dbl_node val) = codegen_dbl api val
    do_codegen (var_node name) = codegen_var api table name
    do_codegen (block_node stmts) = codegen_block none stmts
    do_codegen (op_bin_node left right op) =
        codegen_binop api (do_codegen left) (do_codegen right) op
    do_codegen (proto_node proto) = codegen_proto api table proto
    do_codegen (funcdef_node proto body) = codegen_funcdef api table proto (do_codegen body)
    do_codegen (funccall_node name args) = codegen_funccall api name (size args) (codegen_args args)
    do_codegen (if_node cond then_block else_block) =
        codegen_if api (do_codegen cond) (do_codegen then_block) (do_codegen else_block)

    -- The statements from one on, with the value of the one before; `val` is not set before the
    -- first, and an empty block returns it.
    pub codegen_block : Option V → Nodes D → Walk S T V
    codegen_block none nil = λ g. fault Fault.uninitialised
    codegen_block (some val) nil = pure (some val)
    codegen_block last (cons n ns) = do
      val ← do_codegen n
      or_null val λ v. codegen_block (some v) ns

    -- The loop of `codegen_funccall`; `none` is its early return of NULL.
    pub codegen_args : Nodes D → M (Gen S T) (Option (List V))
    codegen_args nil = pure (some [])
    codegen_args (cons n ns) = do
      val ← do_codegen n
      or_null val λ v. do values ← codegen_args ns; or_null values λ vs. pure (some (v ∷ vs))
