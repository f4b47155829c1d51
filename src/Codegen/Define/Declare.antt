-- ===== src/Codegen/Define/Declare.antt =====
-- Code generation for a prototype, and what follows the body of a function.
use lilc.Ast.{Proto}
use lilc.Codegen.Interface.{ret, Llvm, SameFunctions, same_refl, same_trans, LlvmLaws, NamedVals}
use lilc.Codegen.Scope.{
  Returns, returns, Returns-bind, is_some, is_name, is_member, body_scope, Scope, arity_of,
  arity-same, Offers, Offers-same, is_name-eq, is_name-ne,
}
use lilc.Codegen.{
  Gen, or_null, call_llvm, change_llvm, proto_function, finish_function, name_params, codegen_proto,
}
use lilc.Common.{
  ℕ, suc, ◌∙◌, ap, ◌≡◌, refl, Bool, true, false, not, ◌||◌, ◌&&◌, Option, none, some, List, [], ◌∷◌,
  length, Bytes, sym, if◌then◌else◌, Bool-cases, inl, inr,
}
use lilc.Outcome.{Outcome, ok, pure, ◌>>◌}

or_swap : (a b c : Bool) → (a || (b || c)) ≡ ((b || a) || c)
or_swap true true c = refl
or_swap true false c = refl
or_swap false true c = refl
or_swap false false c = refl

or_false : (a : Bool) → (a || false) ≡ a
or_false true = refl
or_false false = refl

module _ {D S T V B : Type 0} {api : Llvm D S V B} (laws : LlvmLaws api)
    (table : NamedVals T V) where
  get-put :
      (t : T) (k x : Bytes) (v : V)
      → is_some (table.get (table.put t k v) x) ≡ (is_name x k || is_some (table.get t x))
  get-put t k x v = elim (Bool-cases (is_name x k)) [
    | inl e ↦
        ap is_some (ap (table.get (table.put t k v)) (is_name-eq x k e) ∙ table.get-put_self t k v)
        ∙ ap (λ b. b || is_some (table.get t x)) (sym e)
    | inr e ↦
        ap is_some (table.get-put_ne t k x v (is_name-ne x k e))
        ∙ ap (λ b. b || is_some (table.get t x)) (sym e)
  ]

  -- What naming parameters leaves: their names are bound, and the functions are those of `s`.
  record Named (names : List Bytes) (g g' : Gen S T) : Type 0 where
    bound :
        (x : Bytes)
        → is_some (table.get g'.named_vals x)
          ≡ (is_member x names || is_some (table.get g.named_vals x))
    same : SameFunctions api g.llvm g'.llvm

  name_params-Named :
      (f : V) (i : ℕ) (names : List Bytes) (g : Gen S T)
      → Returns (λ (u : Unit {0}). Unit) (Named names g) (name_params api table f i names g)
  unfolding name_params change_llvm
  name_params-Named f i [] g =
      returns tt (record { bound = λ x. refl; same = same_refl api g.llvm })
  name_params-Named f i (name ∷ names) g = widen (name_params-Named f (suc i) names next)
    where
      param : V
      param = api.get_param f i g.llvm

      next : Gen S T
      next = record {
        llvm = api.set_value_name param name g.llvm;
        named_vals = table.put g.named_vals name param;
      }

      widen :
          {r : Outcome (Unit {0} × Gen S T)}
          → Returns (λ (u : Unit {0}). Unit) (Named names next) r
          → Returns (λ (u : Unit {0}). Unit) (Named (name ∷ names) g) r
      widen (returns u h) = returns u (record {
        bound = λ x.
            h.bound x
            ∙ ap (λ b. is_member x names || b) (get-put g.named_vals name x param)
            ∙ or_swap (is_member x names) (is_name x name) (is_some (table.get g.named_vals x));
        same = same_trans api (laws.same-value_name param name g.llvm) h.same;
      })

  -- The functions once `proto` is declared in `s`.
  add-arity :
      (proto : Proto) (s : S)
      → api.get_named_function proto.name s ≡ none
      → (n : Bytes)
      → arity_of api
          (api.add_function proto.name (length proto.params) s).1
          (api.get_named_function n (api.add_function proto.name (length proto.params) s).1)
        ≡ (if is_name n proto.name
            then some (length proto.params)
            else arity_of api s (api.get_named_function n s))
  add-arity proto s fresh n = elim (Bool-cases (is_name n proto.name)) [
    | inl e ↦
        ap (λ m. arity_of api added (api.get_named_function m added)) (is_name-eq n proto.name e)
        ∙ ap (arity_of api added) (laws.named-add_self proto.name k s fresh)
        ∙ ap some (laws.params-add_self proto.name k s)
        ∙ ap (λ b. if b then some k else arity_of api s (api.get_named_function n s)) (sym e)
    | inr e ↦
        ap (arity_of api added)
          (laws.named-add_ne proto.name n k s fresh (is_name-ne n proto.name e))
        ∙ old (api.get_named_function n s) refl
        ∙ ap (λ b. if b then some k else arity_of api s (api.get_named_function n s)) (sym e)
  ]
    where
      k : ℕ
      k = length proto.params

      added : S
      added = (api.add_function proto.name k s).1

      old :
          (o : Option V) → api.get_named_function n s ≡ o → arity_of api added o ≡ arity_of api s o
      old none e = refl
      old (some f) e = ap some (laws.params-add_old proto.name n k f s e)

  -- After `proto_function` made a function in the state `g`.
  record Added (proto : Proto) (g g' : Gen S T) : Type 0 where
    kept : g'.named_vals ≡ g.named_vals
    same : SameFunctions api (api.add_function proto.name (length proto.params) g.llvm).1 g'.llvm

  abbrev pub new_function : Proto → S → V
  new_function proto s = (api.add_function proto.name (length proto.params) s).0

  proto_function-Added :
      (proto : Proto) (g : Gen S T) (o : Option V)
      → o ≡ none
      → Returns
          (λ v. v ≡ some (new_function proto g.llvm))
          (Added proto g)
          (proto_function api o proto g)
  unfolding proto_function
  proto_function-Added proto g none e =
      returns refl (record { kept = refl; same = laws.same-linkage _ _ })
  proto_function-Added proto g (some f) e = cc

  -- After `codegen_proto` at `g`.
  pub record Declared (proto : Proto) (g g' : Gen S T) : Type 0 where
    bound :
        (x : Bytes)
        → is_some (table.get g'.named_vals x)
          ≡ (is_member x proto.params || is_some (table.get g.named_vals x))
    same : SameFunctions api (api.add_function proto.name (length proto.params) g.llvm).1 g'.llvm

  pub codegen_proto-Declared :
      (proto : Proto) (g : Gen S T)
      → api.get_named_function proto.name g.llvm ≡ none
      → Returns
          (λ v. v ≡ some (new_function proto g.llvm))
          (Declared proto g)
          (codegen_proto api table proto g)
  unfolding codegen_proto
  codegen_proto-Declared proto g fresh =
      Returns-bind (proto_function-Added proto g (api.get_named_function proto.name g.llvm) fresh)
        λ s e h. named s.0 s.1 e h
    where
      named :
          (v : Option V) (g1 : Gen S T)
          → v ≡ some (new_function proto g.llvm)
          → Added proto g g1
          → Returns
              (λ v. v ≡ some (new_function proto g.llvm))
              (Declared proto g)
              (or_null v (λ f. name_params api table f 0 proto.params >> pure (some f)) g1)
      named none g1 e h = cc
      named (some f) g1 e h = Returns-bind (name_params-Named f 0 proto.params g1) λ s _ k.
          returns e (record {
            bound = λ x.
                k.bound x ∙ ap (λ t. is_member x proto.params || is_some (table.get t x)) h.kept;
            same = same_trans api h.same k.same;
          })

  pub Declared-Offers :
      (proto : Proto) (g : Gen S T) {g' : Gen S T}
      → api.get_named_function proto.name g.llvm ≡ none
      → ((x : Bytes) → table.get g.named_vals x ≡ none)
      → Declared proto g g'
      → Offers api table
          (body_scope proto (λ n. arity_of api g.llvm (api.get_named_function n g.llvm)))
          g'
  Declared-Offers proto g fresh empty h = record {
    bound = λ x.
        h.bound x
        ∙ ap (λ o. is_member x proto.params || is_some o) (empty x)
        ∙ or_false (is_member x proto.params);
    arity = λ n. arity-same api h.same n ∙ add-arity proto g.llvm fresh n;
  }

  -- Nothing is left of a definition whose body has no value, or that LLVM rejects.
  abbrev pub outcome_of : Bool → V → Gen S T → Outcome (Option V × Gen S T)
  outcome_of accepted func g =
      if accepted
      then ok (some func, g)
      else ok (none, record g { llvm = api.delete_function func g.llvm })

  -- The last instruction that was built is a return.
  abbrev pub Returned : S → Type 0
  Returned s = (v : V) × (before : S) × (s ≡ (api.build (ret v) before).1)

  -- The run accepts `func` if `b` and if LLVM verifies it, once its return is built.
  abbrev pub Defines : Scope → V → Bool → Outcome (Option V × Gen S T) → Type 0
  Defines sc func b r =
      (g' : Gen S T) × Offers api table sc g'
      × (r ≡ outcome_of (b && not (api.verify_fails func g'.llvm)) func g')
      × (b ≡ true → Returned g'.llvm)

  pub finish_function-Defines :
      {sc : Scope} (func : V) (b : Bool) (v : Option V) (g : Gen S T)
      → is_some v ≡ b
      → Offers api table sc g
      → Defines sc func b (finish_function api func v g)
  unfolding finish_function call_llvm change_llvm
  finish_function-Defines func false none g e h = (g, h, refl, λ t. cc)
  finish_function-Defines func true none g e h = cc
  finish_function-Defines func false (some body) g e h = cc
  finish_function-Defines func true (some body) g e h = (
    g',
    Offers-same h (laws.same-build (ret body) g.llvm),
    go (api.verify_fails func g'.llvm),
    λ t. (body, g.llvm, refl),
  )
    where
      g' : Gen S T
      g' = record g { llvm = (api.build (ret body) g.llvm).1 }

      go :
          (c : Bool)
          → (if c then (change_llvm (api.delete_function func) >> pure none) else pure (some func))
              g'
            ≡ outcome_of (not c) func g'
      go true = refl
      go false = refl
