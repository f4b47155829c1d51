-- ===== src/Codegen/Meaning.antt =====
-- What the values of generated code stand for, and the value of an expression.
use lilc.Ast.{
  Node, dbl_node, block_node, var_node, op_bin_node, funccall_node, Nodes, nil, cons, size,
}
use lilc.Codegen.Interface.{fadd, fsub, fmul, fdiv, fcmp_ult, ui_to_fp, call, Llvm, NamedVals}
use lilc.Codegen.{Gen}
use lilc.Common.{ℕ, ◌≡◌, Option, none, some, List, [], ◌∷◌, map, ◌==◌, Bytes, if◌then◌else◌}
use lilc.Token.{TokType, tok_add, tok_sub, tok_mul, tok_div, tok_cmplt}

-- The doubles that values stand for while a function runs, which executes each of its instructions
-- at most once when it has no loop; the functions that function values stand for; and the machine's
-- operations on doubles. `below` is 1.0 if the first is less or one is no number, and 0.0 otherwise.
pub record Meaning (D V : Type 0) : Type 0 where
  pub value_of : V → D
  pub apply : V → List D → D
  pub add : D → D → D
  pub sub : D → D → D
  pub mul : D → D → D
  pub div : D → D → D
  pub below : D → D → D

-- LLVM's instructions as they are documented.
pub record MeaningLaws {D S V B : Type 0} (api : Llvm D S V B) (m : Meaning D V) : Type 0 where
  pub of_real : (x : D) → m.value_of (api.const_real x) ≡ x
  pub of_add :
      (a b : V) (name : Bytes) (s : S)
      → m.value_of (api.build (fadd a b name) s).0 ≡ m.add (m.value_of a) (m.value_of b)
  pub of_sub :
      (a b : V) (name : Bytes) (s : S)
      → m.value_of (api.build (fsub a b name) s).0 ≡ m.sub (m.value_of a) (m.value_of b)
  pub of_mul :
      (a b : V) (name : Bytes) (s : S)
      → m.value_of (api.build (fmul a b name) s).0 ≡ m.mul (m.value_of a) (m.value_of b)
  pub of_div :
      (a b : V) (name : Bytes) (s : S)
      → m.value_of (api.build (fdiv a b name) s).0 ≡ m.div (m.value_of a) (m.value_of b)
  pub of_below :
      (a b : V) (name hint : Bytes) (s t : S)
      → m.value_of (api.build (ui_to_fp (api.build (fcmp_ult a b name) s).0 hint) t).0
        ≡ m.below (m.value_of a) (m.value_of b)
  pub of_call :
      (f : V) (vs : List V) (name : Bytes) (s : S)
      → m.value_of (api.build (call f vs name) s).0 ≡ m.apply f (map m.value_of vs)

abbrev pub and_then : {A C : Type 0} → Option A → (A → Option C) → Option C
and_then none k = none
and_then (some a) k = k a

-- The variables with their values, and the functions with the numbers of their parameters.
pub record Names (D V : Type 0) : Type 0 where
  pub variable : Bytes → Option D
  pub function : Bytes → Option V
  pub params : V → ℕ

module _ {D V : Type 0} (m : Meaning D V) where
  abbrev pub op_of : TokType → D → D → Option D
  op_of tok_add a b = some (m.add a b)
  op_of tok_sub a b = some (m.sub a b)
  op_of tok_mul a b = some (m.mul a b)
  op_of tok_div a b = some (m.div a b)
  op_of tok_cmplt a b = some (m.below a b)
  op_of _ a b = none

  -- The value of an expression; a block's is its last statement's.
  unfoldable mutual
    pub eval : Names D V → Node D → Option D
    eval names (dbl_node val) = some val
    eval names (var_node name) = names.variable name
    eval names (op_bin_node left right op) =
        and_then (eval names left) λ a. and_then (eval names right) λ b. op_of op a b
    eval names (block_node (cons n ns)) = and_then (eval names n) λ d. eval_block names d ns
    eval names (funccall_node name args) = and_then (names.function name) λ f.
        if names.params f == size args
        then and_then (eval_args names args) (λ ds. some (m.apply f ds))
        else none
    eval names _ = none

    pub eval_block : Names D V → D → Nodes D → Option D
    eval_block names last nil = some last
    eval_block names last (cons n ns) = and_then (eval names n) λ d. eval_block names d ns

    pub eval_args : Names D V → Nodes D → Option (List D)
    eval_args names nil = some []
    eval_args names (cons n ns) =
        and_then (eval names n) λ d. and_then (eval_args names ns) λ ds. some (d ∷ ds)

-- The symbol table and the module offer these names.
pub record Means {D S T V B : Type 0} (api : Llvm D S V B) (table : NamedVals T V) (m : Meaning D V)
    (names : Names D V) (g : Gen S T) : Type 0 where
  pub variables :
      (x : Bytes)
      → names.variable x ≡ and_then (table.get g.named_vals x) (λ v. some (m.value_of v))
  pub functions : (n : Bytes) → api.get_named_function n g.llvm ≡ names.function n
  pub counts : (f : V) → api.count_params f g.llvm ≡ names.params f
