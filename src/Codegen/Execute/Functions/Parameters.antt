-- ===== src/Codegen/Execute/Functions/Parameters.antt =====
-- The code for a prototype: a new function, and the values of its parameters.
use lilc.Ast.{Proto}
use lilc.Codegen.Execute.{argument, declare_function, Env, operand_of, argument_of, as_num, View}
use lilc.Codegen.Execute.Laws.{CodeLaws}
use lilc.Codegen.Interface.{Llvm, SameFunctions, same_refl, same_trans, LlvmLaws, NamedVals}
use lilc.Codegen.Scope.{Returns, returns, Returns-bind, is_name, is_name-eq, is_name-ne}
use lilc.Codegen.Semantics.{Arith, or_else, bind_params}
use lilc.Codegen.{Gen, or_null, change_llvm, proto_function, name_params, codegen_proto}
use lilc.Common.{
  some_inj, not_some, ℕ, suc, ◌≡◌, ◌⊎◌, inl, inr, refl, sym, ap, ◌∙◌, subst, Option, none, some,
  List, [], ◌∷◌, length, drop, drop-suc, get_elem?, get_elem?-drop, Bytes, if◌then◌else◌,
  Bool-cases, arith,
}
use lilc.Double.{Double}
use lilc.Outcome.{Outcome, bind, pure, ◌>>◌}

module _ {D S T V B : Type 0} ⦃dbl : Double D⦄ {ar : Arith D} {view : View D S V B}
    {api : Llvm D S V B} (laws : LlvmLaws api) (lows : CodeLaws ar view api)
    (table : NamedVals T V) where
  abbrev pub number_at : List D → V → Option D
  number_at xs v = as_num (operand_of xs (λ n. none) (view.kind v))

  -- `v` is the parameter that `x` names, or else what `x` named before.
  abbrev IsBound : (names : List Bytes) (xs zs : List D) → Bytes → V → Option V → Type 0
  IsBound names xs zs x v old =
      ((i : ℕ) × (d : D) × (view.kind v ≡ argument i)
        × (get_elem? xs i ≡ some d)
        × (bind_params names zs x ≡ some d))
      ⊎ ((bind_params names zs x ≡ none) × (old ≡ some v))

  record Bound (i : ℕ) (names : List Bytes) (g g' : Gen S T) : Type 0 where
    look : view.look g'.llvm ≡ view.look g.llvm
    same : SameFunctions api g.llvm g'.llvm
    binds :
        (xs zs : List D) (x : Bytes) (v : V)
        → drop i xs ≡ zs
        → length zs ≡ length names
        → table.get g'.named_vals x ≡ some v
        → IsBound names xs zs x v (table.get g.named_vals x)

  name_params-Bound :
      (f : V) (i : ℕ) (names : List Bytes) (g : Gen S T)
      → Returns (λ (u : Unit {0}). Unit) (Bound i names g) (name_params api table f i names g)
  unfolding name_params change_llvm
  name_params-Bound f i [] g = returns tt (record {
    look = refl;
    same = same_refl api g.llvm;
    binds = λ xs zs x v e l h. inr (no_params zs x, h);
  })
    where
      no_params : (zs : List D) (x : Bytes) → bind_params [] zs x ≡ none
      no_params [] x = refl
      no_params (z ∷ zs) x = refl
  name_params-Bound f i (name ∷ names) g = widen (name_params-Bound f (suc i) names next)
    where
      param : V
      param = api.get_param f i g.llvm

      next : Gen S T
      next = record {
        llvm = api.set_value_name param name g.llvm;
        named_vals = table.put g.named_vals name param;
      }

      put :
          (xs zs : List D) (z : D) (x : Bytes) (v : V)
          → drop i xs ≡ z ∷ zs
          → IsBound names xs zs x v (table.get next.named_vals x)
          → IsBound (name ∷ names) xs (z ∷ zs) x v (table.get g.named_vals x)
      put xs zs z x v e (inl (j, d, k, at, b)) =
          inl (j, d, k, at, ap (λ o. or_else o (if is_name x name then some z else none)) b)
      put xs zs z x v e (inr (b, old)) = elim (Bool-cases (is_name x name)) [
        | inl t ↦
            let same_value : param ≡ v = some_inj (
              sym (table.get-put_self g.named_vals name param)
              ∙ ap (table.get next.named_vals) (sym (is_name-eq x name t))
              ∙ old) in
            inl (
              i,
              z,
              ap view.kind (sym same_value) ∙ lows.kind-param f i g.llvm,
              get_elem?-drop xs i e,
              ap (λ o. or_else o (if is_name x name then some z else none)) b
                  ∙ ap (λ t. if t then some z else none) t,
            )
        | inr t ↦ inr (
          ap (λ o. or_else o (if is_name x name then some z else none)) b
              ∙ ap (λ t. if t then some z else none) t,
          sym (table.get-put_ne g.named_vals name x param (is_name-ne x name t)) ∙ old,
        )
      ]

      bound :
          {g' : Gen S T} (h : Bound (suc i) names next g') (xs zs : List D) (x : Bytes) (v : V)
          → drop i xs ≡ zs
          → length zs ≡ suc (length names)
          → table.get g'.named_vals x ≡ some v
          → IsBound (name ∷ names) xs zs x v (table.get g.named_vals x)
      bound h xs [] x v e l w = absurd (omega arith)
      bound h xs (z ∷ zs) x v e l w =
          put xs zs z x v e (h.binds xs zs x v (drop-suc xs i e) (omega arith) w)

      widen :
          {r : Outcome (Unit {0} × Gen S T)}
          → Returns (λ (u : Unit {0}). Unit) (Bound (suc i) names next) r
          → Returns (λ (u : Unit {0}). Unit) (Bound i (name ∷ names) g) r
      widen (returns u h) = returns u (record {
        look = h.look ∙ lows.look-value_name param name g.llvm;
        same = same_trans api (laws.same-value_name param name g.llvm) h.same;
        binds = bound h;
      })

  -- After `codegen_proto` at `g`, whose symbol table is empty: the table has the parameters.
  pub record Begun (proto : Proto) (g g' : Gen S T) : Type 0 where
    pub look : view.look g'.llvm ≡ declare_function (view.look g.llvm)
    pub same :
        SameFunctions api (api.add_function proto.name (length proto.params) g.llvm).1 g'.llvm
    pub binds :
        (xs : List D) (x : Bytes) (v : V)
        → length xs ≡ length proto.params
        → table.get g'.named_vals x ≡ some v
        → (env : Env D) → as_num (operand_of xs env (view.kind v)) ≡ bind_params proto.params xs x

  pub codegen_proto-Begun :
      (proto : Proto) (g : Gen S T)
      → api.get_named_function proto.name g.llvm ≡ none
      → ((x : Bytes) → table.get g.named_vals x ≡ none)
      → Returns
          (λ v. v ≡ some ((api.add_function proto.name (length proto.params) g.llvm).0))
          (Begun proto g)
          (codegen_proto api table proto g)
  unfolding codegen_proto proto_function
  codegen_proto-Begun proto g fresh empty =
      subst
        (λ o.
          Returns (λ v. v ≡ some ((api.add_function proto.name (length proto.params) g.llvm).0))
            (Begun proto g) (run o))
        (sym fresh)
        (Returns-bind (name_params-Bound func 0 proto.params added) λ s _ h. returns refl (record {
          look =
              h.look
              ∙ lows.look-linkage func new.1
              ∙ lows.look-add proto.name (length proto.params) g.llvm;
          same = same_trans api (laws.same-linkage func new.1) h.same;
          binds = λ xs x v l w env. value_of xs x v env (h.binds xs xs x v refl l w);
        }))
    where
      new : V × S
      new = api.add_function proto.name (length proto.params) g.llvm

      func : V
      func = new.0

      added : Gen S T
      added = record g { llvm = api.set_external_linkage func new.1 }

      run : Option V → Outcome (Option V × Gen S T)
      run o =
          bind (proto_function api o proto g) λ (func, g).
            or_null func (λ f. name_params api table f 0 proto.params >> pure (some f)) g

      value_of :
          (xs : List D) (x : Bytes) (v : V) (env : Env D)
          → IsBound proto.params xs xs x v (table.get g.named_vals x)
          → as_num (operand_of xs env (view.kind v)) ≡ bind_params proto.params xs x
      value_of xs x v env (inl (i, d, k, at, b)) =
          ap (λ k. as_num (operand_of xs env k)) k ∙ ap (λ o. as_num (argument_of o)) at ∙ sym b
      value_of xs x v env (inr (b, old)) = absurd (not_some (sym (empty x) ∙ old))
