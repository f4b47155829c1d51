-- ===== src/Codegen/Semantics.antt =====
-- What a program means: the number that an expression stands for, and that a call of a function gives.
use lilc.Ast.{
  Proto, Node, dbl_node, block_node, var_node, op_bin_node, funccall_node, if_node, Nodes, nil,
  cons,
}
use lilc.Codegen.Meaning.{and_then}
use lilc.Codegen.Scope.{is_name}
use lilc.Common.{
  ℕ, zero, suc, Bool, Option, none, some, List, [], ◌∷◌, length, Bytes, ◌==◌, if◌then◌else◌,
}
use lilc.Double.{Double}
use lilc.Token.{TokType, tok_add, tok_sub, tok_mul, tok_div, tok_cmplt}

-- The machine's arithmetic. `ult`: less, or one is no number. `one`: both are numbers, and differ.
pub record Arith (D : Type 0) : Type 0 where
  pub add : D → D → D
  pub sub : D → D → D
  pub mul : D → D → D
  pub div : D → D → D
  pub ult : D → D → Bool
  pub one : D → D → Bool

abbrev pub or_else : {A : Type 0} → Option A → Option A → Option A
or_else none y = y
or_else (some a) y = some a

-- The last of the parameters with the name has its argument.
abbrev pub bind_params : {D : Type 0} → List Bytes → List D → Bytes → Option D
bind_params (p ∷ ps) (x ∷ xs) name =
    or_else (bind_params ps xs name) (if is_name name p then some x else none)
bind_params _ _ name = none

abbrev pub find_def : {D : Type 0} → List (Proto × Node D) → Bytes → Option (Proto × Node D)
find_def [] name = none
find_def ((proto, body) ∷ defs) name =
    if is_name name proto.name then some (proto, body) else find_def defs name

module _ {D : Type 0} ⦃dbl : Double D⦄ (ar : Arith D) where
  abbrev pub truth : Bool → D
  truth b = if b then dbl.of_int 1 else dbl.of_int 0

  abbrev pub apply_op : TokType → D → D → Option D
  apply_op tok_add a b = some (ar.add a b)
  apply_op tok_sub a b = some (ar.sub a b)
  apply_op tok_mul a b = some (ar.mul a b)
  apply_op tok_div a b = some (ar.div a b)
  apply_op tok_cmplt a b = some (truth (ar.ult a b))
  apply_op _ a b = none

  -- `call` says what calls give, and `vars` what the variables stand for.
  unfoldable mutual
    pub value : (Bytes → List D → Option D) → (Bytes → Option D) → Node D → Option D
    value call vars (dbl_node val) = some val
    value call vars (var_node name) = vars name
    value call vars (op_bin_node left right op) =
        and_then (value call vars left) λ a. and_then (value call vars right) λ b. apply_op op a b
    value call vars (block_node (cons n ns)) =
        and_then (value call vars n) λ d. value_block call vars d ns
    value call vars (funccall_node name args) =
        and_then (value_args call vars args) λ xs. call name xs
    value call vars (if_node cond then_block else_block) =
        let first = value call vars then_block in
        let second = value call vars else_block in
        and_then (value call vars cond) λ c. if ar.one c (dbl.of_int 0) then first else second
    value call vars _ = none

    pub value_block : (Bytes → List D → Option D) → (Bytes → Option D) → D → Nodes D → Option D
    value_block call vars last nil = some last
    value_block call vars last (cons n ns) =
        and_then (value call vars n) λ d. value_block call vars d ns

    pub value_args : (Bytes → List D → Option D) → (Bytes → Option D) → Nodes D → Option (List D)
    value_args call vars nil = some []
    value_args call vars (cons n ns) =
        and_then (value call vars n) λ x. and_then (value_args call vars ns) λ xs. some (x ∷ xs)

  abbrev pub apply_def : (Bytes → List D → Option D) → List D → Proto × Node D → Option D
  apply_def call xs (proto, body) =
      if length xs == length proto.params
      then value call (bind_params proto.params xs) body
      else none

  -- The result of a call in a program, with calls nested at most `k` deep.
  unfoldable pub run_program : List (Proto × Node D) → ℕ → Bytes → List D → Option D
  run_program defs zero name xs = none
  run_program defs (suc k) name xs =
      and_then (find_def defs name) (apply_def (run_program defs k) xs)
