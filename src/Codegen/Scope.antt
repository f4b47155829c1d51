-- ===== src/Codegen/Scope.antt =====
-- What the code generator can name: the values of the symbol table and the functions of the module.
use lilc.Ast.{
  Proto, Node, dbl_node, block_node, var_node, op_bin_node, funccall_node, if_node, Nodes, nil,
  cons, size,
}
use lilc.Codegen.Interface.{Llvm, SameFunctions, NamedVals}
use lilc.Codegen.{Gen}
use lilc.Common.{
  ℕ, ◌∙◌, ap, ◌≡◌, ◌≢◌, refl, Bool, true, false, ◌&&◌, ◌||◌, Option, none, some, List, [], ◌∷◌,
  length, ◌==◌, Bytes, arith, sym, if◌then◌else◌,
}
use lilc.Outcome.{Outcome, ok, bind}
use lilc.Token.{TokType, tok_add, tok_sub, tok_mul, tok_div, tok_cmplt}

-- The run ends and returns; `P` holds of the result, and `I` of the state.
pub data Returns {A G : Type 0} (P : A → Type 0) (I : G → Type 0) : Outcome (A × G) → Type 0 where
  returns : {a : A} {g : G} → P a → I g → Returns P I (ok (a, g))

pub Returns-bind :
    {A C G : Type 0} {P : A → Type 0} {Q : C → Type 0} {I J : G → Type 0} {r : Outcome (A × G)}
    {f : A × G → Outcome (C × G)}
    → Returns P I r
    → ((s : A × G) → P s.0 → I s.1 → Returns Q J (f s))
    → Returns Q J (bind r f)
Returns-bind (returns {a} {g} p h) k = k (a, g) p h

-- The same for any predicate on the runs.
pub Returns-then :
    {A C G : Type 0} {P : A → Type 0} {I : G → Type 0} {r : Outcome (A × G)}
    {f : A × G → Outcome (C × G)} (F : Outcome (C × G) → Type 0)
    → Returns P I r
    → ((s : A × G) → P s.0 → I s.1 → F (f s))
    → F (bind r f)
Returns-then F (returns {a} {g} p h) k = k (a, g) p h

abbrev pub is_some : {A : Type 0} → Option A → Bool
is_some none = false
is_some (some a) = true

-- The names that have a value, and the functions with the numbers of their parameters.
pub record Scope : Type 0 where
  pub bound : Bytes → Bool
  pub arity : Bytes → Option ℕ

abbrev pub is_bin_op : TokType → Bool
is_bin_op tok_add = true
is_bin_op tok_sub = true
is_bin_op tok_mul = true
is_bin_op tok_div = true
is_bin_op tok_cmplt = true
is_bin_op _ = false

abbrev pub takes : ℕ → Option ℕ → Bool
takes n none = false
takes n (some k) = k == n

module _ {D : Type 0} where
  -- Every name is in scope, and every call has as many arguments as its function has parameters.
  unfoldable mutual
    pub resolves : Scope → Node D → Bool
    resolves sc (dbl_node val) = true
    resolves sc (var_node name) = sc.bound name
    resolves sc (block_node stmts) = all_resolve sc stmts
    resolves sc (op_bin_node left right op) =
        resolves sc left && (resolves sc right && is_bin_op op)
    resolves sc (funccall_node name args) = takes (size args) (sc.arity name) && all_resolve sc args
    resolves sc (if_node cond then_block else_block) =
        resolves sc cond && (resolves sc then_block && resolves sc else_block)
    resolves sc _ = false

    pub all_resolve : Scope → Nodes D → Bool
    all_resolve sc nil = true
    all_resolve sc (cons n ns) = resolves sc n && all_resolve sc ns

  -- An expression: no definition inside, no empty block, and an else block at each if.
  unfoldable mutual
    pub IsExpr : Node D → Type 0
    IsExpr (dbl_node val) = Unit
    IsExpr (var_node name) = Unit
    IsExpr (block_node nil) = ⊥
    IsExpr (block_node (cons n ns)) = IsExpr n × AreExprs ns
    IsExpr (op_bin_node left right op) = IsExpr left × IsExpr right
    IsExpr (funccall_node name args) = AreExprs args
    IsExpr (if_node cond then_block else_block) =
        IsExpr cond × IsExpr then_block × IsExpr else_block
    IsExpr _ = ⊥

    pub AreExprs : Nodes D → Type 0
    AreExprs nil = Unit
    AreExprs (cons n ns) = IsExpr n × AreExprs ns

abbrev pub arity_of : {D S V B : Type 0} → Llvm D S V B → S → Option V → Option ℕ
arity_of api s none = none
arity_of api s (some f) = some (api.count_params f s)

pub arity-same :
    {D S V B : Type 0} (api : Llvm D S V B) {s s' : S}
    → SameFunctions api s s'
    → (n : Bytes)
    → arity_of api s' (api.get_named_function n s') ≡ arity_of api s (api.get_named_function n s)
arity-same {V} api {s} {s'} same n =
    ap (arity_of api s') (same.named n) ∙ go (api.get_named_function n s)
  where
    go : (o : Option V) → arity_of api s' o ≡ arity_of api s o
    go none = refl
    go (some f) = ap some (same.params f)

module _ {D S T V B : Type 0} (api : Llvm D S V B) (table : NamedVals T V) where
  abbrev pub scope : Gen S T → Scope
  scope g = record {
    bound = λ x. is_some (table.get g.named_vals x);
    arity = λ n. arity_of api g.llvm (api.get_named_function n g.llvm);
  }

  -- The generator's state offers the scope `sc`.
  pub record Offers (sc : Scope) (g : Gen S T) : Type 0 where
    pub bound : (x : Bytes) → is_some (table.get g.named_vals x) ≡ sc.bound x
    pub arity : (n : Bytes) → arity_of api g.llvm (api.get_named_function n g.llvm) ≡ sc.arity n

  -- and the builder stands in a block
  pub record Ready (sc : Scope) (g : Gen S T) : Type 0 where
    pub offers : Offers sc g
    pub here : (b : B) × (api.get_insert_block g.llvm ≡ some b)

module _ {D S T V B : Type 0} {api : Llvm D S V B} {table : NamedVals T V} {sc : Scope} where
  pub Offers-same :
      {g : Gen S T} {s : S}
      → Offers api table sc g
      → SameFunctions api g.llvm s
      → Offers api table sc (record g { llvm = s })
  Offers-same h same = record { bound = h.bound; arity = λ n. arity-same api same n ∙ h.arity n }

  pub Ready-same :
      {g : Gen S T} {s : S}
      → Ready api table sc g
      → SameFunctions api g.llvm s
      → (b : B) × (api.get_insert_block s ≡ some b)
      → Ready api table sc (record g { llvm = s })
  Ready-same h same here = record { offers = Offers-same h.offers same; here = here }

abbrev pub is_name : Bytes → Bytes → Bool
is_name [] [] = true
is_name (a ∷ x) (b ∷ y) = (a == b) && is_name x y
is_name _ _ = false

pub is_name-eq : (x y : Bytes) → is_name x y ≡ true → x ≡ y
is_name-eq [] [] h = refl
is_name-eq [] (b ∷ y) h = cc
is_name-eq (a ∷ x) [] h = cc
is_name-eq (a ∷ x) (b ∷ y) h = grind (arith, is_name-eq x y)

pub is_name_self : (x : Bytes) → is_name x x ≡ true
is_name_self [] = refl
is_name_self (a ∷ x) = ground (arith, is_name_self x)

pub is_name-ne : (x y : Bytes) → is_name x y ≡ false → x ≢ y
is_name-ne x y h e = cc (sym h ∙ ap (is_name x) (sym e) ∙ is_name_self x)

abbrev pub is_member : Bytes → List Bytes → Bool
is_member x [] = false
is_member x (y ∷ ys) = is_name x y || is_member x ys

-- The scope of a function's body: its parameters, the functions of the module, and itself.
abbrev pub body_scope : Proto → (Bytes → Option ℕ) → Scope
body_scope proto arity = record {
  bound = λ x. is_member x proto.params;
  arity = λ n. if is_name n proto.name then some (length proto.params) else arity n;
}
