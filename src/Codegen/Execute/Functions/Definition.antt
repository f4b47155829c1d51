-- ===== src/Codegen/Execute/Functions/Definition.antt =====
-- What a call of a defined function gives in every module that has its code.
use lilc.Ast.{Proto, Node, funcdef_node}
use lilc.Codegen.Define.{Returned, outcome_of, codegen_funcdef-Defines}
use lilc.Codegen.Execute.Functions.Body.{
  Use, use_in, value_in, no_call, Filled, fill_function-Gives,
}
use lilc.Codegen.Execute.Functions.Parameters.{Begun, codegen_proto-Begun}
use lilc.Codegen.Execute.Grows.{Extends, Extends-trans, declare_function-Extends, eq_self}
use lilc.Codegen.Execute.Gives.{Gives, Gives-all, Gives-map}
use lilc.Codegen.Execute.{View, Calls}
use lilc.Codegen.Execute.Laws.{CodeLaws}
use lilc.Codegen.Interface.{Llvm, LlvmLaws, NamedVals}
use lilc.Codegen.Scope.{
  Returns-then, arity_of, body_scope, resolves, IsExpr, is_name, is_name-eq, is_name-ne,
}
use lilc.Codegen.Semantics.{Arith}
use lilc.Codegen.{
  Gen, or_null, change_llvm, clear_names, fill_function, codegen_funcdef, do_codegen,
}
use lilc.Common.{
  not_some, ℕ, suc, ◌<◌, ◌≡◌, inl, inr, refl, sym, ap, ◌∙◌, subst, Bool, true, false, not, ◌&&◌,
  Option, none, some, length, Bytes, if◌then◌else◌, arith, Bool-cases,
}
use lilc.Double.{Double}

module _ {D S T V B : Type 0} ⦃dbl : Double D⦄ {ar : Arith D} {view : View D S V B}
    {api : Llvm D S V B} (laws : LlvmLaws api) (lows : CodeLaws ar view api)
    (table : NamedVals T V) where
  -- After the definition of `f` at `g`.
  pub record Defined (proto : Proto) (body : Node D) (g : Gen S T) (f : V) (g' : Gen S T)
      : Type 0 where
    pub extends : Extends (view.look g.llvm) (view.look g'.llvm)
    pub found : api.get_named_function proto.name g'.llvm ≡ some f
    pub kept :
        (n : Bytes) (h : V)
        → api.get_named_function n g.llvm ≡ some h
        → api.get_named_function n g'.llvm ≡ some h
    pub calls :
        (u : Use laws lows table proto g'.llvm)
        → Extends (view.look g'.llvm) u.module_code
        → (d : D) → value_in laws lows table u body ≡ some d
        → Calls ar view u.module_code (suc u.depth) f u.args d

  named_before :
      (proto : Proto) (s : S) (n : Bytes) {h : V}
      → api.get_named_function proto.name s ≡ none
      → api.get_named_function n s ≡ some h
      → api.get_named_function n (api.add_function proto.name (length proto.params) s).1 ≡ some h
  named_before proto s n {h} fresh e = elim (Bool-cases (is_name n proto.name)) [
    | inl t ↦ absurd (
        not_some
          (sym fresh ∙ ap (λ n. api.get_named_function n s) (sym (is_name-eq n proto.name t)) ∙ e))
    | inr t ↦
        laws.named-add_ne proto.name n (length proto.params) s fresh (is_name-ne n proto.name t) ∙ e
  ]

  pub funcdef-Gives :
      (proto : Proto) (body : Node D) (g : Gen S T)
      → IsExpr body
      → api.get_named_function proto.name g.llvm ≡ none
      → Gives (Defined proto body g) (do_codegen api table (funcdef_node proto body) g)
  unfolding do_codegen codegen_funcdef clear_names change_llvm
  funcdef-Gives proto body g w fresh =
      Returns-then (Gives (Defined proto body g))
        (codegen_proto-Begun laws lows table proto cleared fresh (table.get-clear g.named_vals))
        λ s e h. go s.0 s.1 e h
    where
      cleared : Gen S T
      cleared = record g { named_vals = table.clear g.named_vals }

      new : V × S
      new = api.add_function proto.name (length proto.params) g.llvm

      number : ℕ
      number = (view.look g.llvm).functions

      filled :
          (f : V) (g1 : Gen S T)
          → f ≡ new.0
          → Begun laws lows table proto cleared g1
          → (u : Use laws lows table proto g1.llvm)
          → Gives
              (Filled laws lows table proto body f g1 u)
              (fill_function api f (do_codegen api table body) g1)
      filled f g1 e h u =
          fill_function-Gives laws lows table proto body f g1 u number
            (ap view.kind e ∙ lows.kind-add proto.name (length proto.params) g.llvm)
            (subst (λ c. number < c.functions) (sym h.look) (omega arith))
            (ap (λ c. c.entry number) h.look
              ∙ ap (λ b. if b then none else (view.look g.llvm).entry number) (eq_self number))
            (λ x v t env. h.binds u.args x v u.enough t env) w

      defined :
          (f : V) (g1 : Gen S T)
          → f ≡ new.0
          → Begun laws lows table proto cleared g1
          → (f' : V) (g' : Gen S T)
          → ((u : Use laws lows table proto g1.llvm)
              → Filled laws lows table proto body f g1 u f' g')
          → Defined proto body g f' g'
      defined f g1 e h f' g' fill =
          let some_fill = fill (no_call laws lows table) in
          record {
            extends =
                Extends-trans
                  (subst (Extends (view.look g.llvm)) (sym h.look)
                    (declare_function-Extends (view.look g.llvm)))
                  some_fill.extends;
            found =
                some_fill.same.named proto.name
                ∙ h.same.named proto.name
                ∙ laws.named-add_self proto.name (length proto.params) g.llvm fresh
                ∙ ap some (sym (some_fill.same_function ∙ e));
            kept = λ n k t.
                some_fill.same.named n ∙ h.same.named n ∙ named_before proto g.llvm n fresh t;
            calls = λ u x d v.
                let made = fill (use_in laws lows table (λ n k e. some_fill.same.named n ∙ e) u) in
                subst (λ f. Calls ar view u.module_code (suc u.depth) f u.args d)
                  (sym made.same_function) (made.calls x d v);
          }

      go :
          (v : Option V) (g1 : Gen S T)
          → v ≡ some new.0
          → Begun laws lows table proto cleared g1
          → Gives
              (Defined proto body g)
              (or_null v (λ f. fill_function api f (do_codegen api table body)) g1)
      go none g1 e h = tt
      go (some f) g1 e h =
          Gives-map _ (Defined proto body g) (fill_function api f (do_codegen api table body) g1)
            (λ f' g' fill. defined f g1 (cc) h f' g' fill)
            (Gives-all (λ u. Filled laws lows table proto body f g1 u)
              (fill_function api f (do_codegen api table body) g1) (filled f g1 (cc) h))

  -- For a function whose name is new and whose body is an expression, code generation returns, and it
  -- accepts the function if the body resolves in its scope and LLVM verifies it, which it is asked when
  -- the function's return is built. An accepted function has the name, other names keep their functions, and the code that was there before stays. In every
  -- module that has the new code, and in which calls of the functions, nested at most to some depth,
  -- give what they give in the source, a call of the function with as many arguments as parameters
  -- gives, by LLVM's semantics and one level deeper, the number that the body stands for.
  pub codegen_funcdef-Defined :
      (proto : Proto) (body : Node D) (g : Gen S T)
      → IsExpr body
      → api.get_named_function proto.name g.llvm ≡ none
      → (accepted : Bool) × (g' : Gen S T) × (accepted ≡ (
          resolves
            (body_scope proto (λ n. arity_of api g.llvm (api.get_named_function n g.llvm)))
            body
          && not (
              api.verify_fails
                (api.add_function proto.name (length proto.params) g.llvm).0
                g'.llvm)))
        × (do_codegen api table (funcdef_node proto body) g
            ≡ outcome_of laws table accepted
                (api.add_function proto.name (length proto.params) g.llvm).0
                g')
        × (accepted ≡ true
            → Defined proto body g (api.add_function proto.name (length proto.params) g.llvm).0 g')
        × (resolves
                (body_scope proto (λ n. arity_of api g.llvm (api.get_named_function n g.llvm)))
                body
              ≡ true
            → Returned laws table g'.llvm)
  codegen_funcdef-Defined proto body g w fresh =
      let (g', offers, e, returned) = codegen_funcdef-Defines laws table g proto body w fresh in
      (
        _,
        g',
        refl,
        e,
        accept _ g' (subst (Gives (Defined proto body g)) e (funcdef-Gives proto body g w fresh)),
        returned,
      )
    where
      func : V
      func = (api.add_function proto.name (length proto.params) g.llvm).0

      accept :
          (b : Bool) (g' : Gen S T)
          → Gives (Defined proto body g) (outcome_of laws table b func g')
          → b ≡ true
          → Defined proto body g func g'
      accept true g' h e = h
      accept false g' h e = cc
