-- ===== src/Codegen/Programs.antt =====
-- Code generation for a block of function definitions, from the first to the last.
use lilc.Ast.{Proto, Node, block_node, funcdef_node, Nodes, nil, cons}
use lilc.Codegen.Define.{Defines, Returned, outcome_of, codegen_funcdef-Defines}
use lilc.Codegen.Interface.{Llvm, LlvmLaws, NamedVals}
use lilc.Codegen.Scope.{body_scope, resolves, IsExpr, arity_of}
use lilc.Codegen.{Gen, Walk, or_null, do_codegen, codegen_block}
use lilc.Common.{
  ℕ, ◌∙◌, sym, subst, ◌≡◌, refl, ◌⊎◌, inl, inr, Bool, true, false, not, ◌&&◌, Option, none, some,
  List, [], ◌∷◌, length, Bytes,
}
use lilc.Double.{Double}
use lilc.Outcome.{Outcome, ok, bind}

-- The functions with the numbers of their parameters.
abbrev pub Arities : Type 0
Arities = Bytes → Option ℕ

abbrev pub declare : Proto → Arities → Arities
declare proto ar = (body_scope proto ar).arity

module _ {D : Type 0} where
  abbrev pub nodes_of : List (Proto × Node D) → Nodes D
  nodes_of [] = nil
  nodes_of ((proto, body) ∷ defs) = cons (funcdef_node proto body) (nodes_of defs)

  abbrev pub after_all : List (Proto × Node D) → Arities → Arities
  after_all [] ar = ar
  after_all ((proto, body) ∷ defs) ar = after_all defs (declare proto ar)

  -- Each body resolves with its parameters, the functions up to it, and itself.
  abbrev pub defs_resolve : List (Proto × Node D) → Arities → Bool
  defs_resolve [] ar = true
  defs_resolve ((proto, body) ∷ defs) ar =
      resolves (body_scope proto ar) body && defs_resolve defs (declare proto ar)

  -- Each name is new, and each body is an expression.
  abbrev pub AreDefs : List (Proto × Node D) → Arities → Type 0
  AreDefs [] ar = Unit
  AreDefs ((proto, body) ∷ defs) ar =
      (ar proto.name ≡ none) × IsExpr body × AreDefs defs (declare proto ar)

module _ {D S V B : Type 0} (api : Llvm D S V B) where
  -- The functions of the module are those of `ar`.
  abbrev pub Has : Arities → S → Type 0
  Has ar s = (n : Bytes) → arity_of api s (api.get_named_function n s) ≡ ar n

module _ {D S T V B : Type 0} ⦃dbl : Double D⦄ {api : Llvm D S V B} (laws : LlvmLaws api)
    (table : NamedVals T V) where
  -- The definition at `g`: its function is complete at `g1`, where LLVM verifies it or not, and the run
  -- keeps or deletes it accordingly.
  pub record Verdict (proto : Proto) (body : Node D) (accepted : Bool) (g g1 : Gen S T)
      : Type 0 where
    pub run :
        do_codegen api table (funcdef_node proto body) g
        ≡ outcome_of laws table accepted
            (api.add_function proto.name (length proto.params) g.llvm).0
            g1
    pub complete : Returned laws table g1.llvm
    pub verdict :
        api.verify_fails (api.add_function proto.name (length proto.params) g.llvm).0 g1.llvm
        ≡ not accepted

  -- From `g` to `g'` LLVM verifies each function.
  pub data Accepts : List (Proto × Node D) → Gen S T → Gen S T → Type 0 where
    all_accepted : {g : Gen S T} → Accepts [] g g
    accepts :
        {proto : Proto} {body : Node D} {defs : List (Proto × Node D)} {g g1 g' : Gen S T}
        → Verdict proto body true g g1
        → Accepts defs g1 g'
        → Accepts ((proto, body) ∷ defs) g g'

  -- From `g` on LLVM rejects a function, after it verified those before it.
  pub data Rejects : List (Proto × Node D) → Gen S T → Type 0 where
    rejects :
        {proto : Proto} {body : Node D} {defs : List (Proto × Node D)} {g g1 : Gen S T}
        → Verdict proto body false g g1
        → Rejects ((proto, body) ∷ defs) g
    rejects_later :
        {proto : Proto} {body : Node D} {defs : List (Proto × Node D)} {g g1 : Gen S T}
        → Verdict proto body true g g1
        → Rejects defs g1
        → Rejects ((proto, body) ∷ defs) g

  -- Why a program is refused: a body does not resolve, or LLVM rejects a function.
  abbrev pub Refused : Bool → List (Proto × Node D) → Gen S T → Type 0
  Refused resolved defs g = (resolved ≡ false) ⊎ Rejects defs g

  -- The run on definitions that resolve as `resolved` says and leave the functions `ar`.
  pub data Compiles (resolved : Bool) (ar : Arities) (defs : List (Proto × Node D)) (g : Gen S T)
      : Outcome (Option V × Gen S T) → Type 0 where
    compiled :
        {v : V} {g' : Gen S T}
        → resolved ≡ true
        → Has api ar g'.llvm
        → Accepts defs g g'
        → Compiles resolved ar defs g (ok (some v, g'))
    refused : {g' : Gen S T} → Refused resolved defs g → Compiles resolved ar defs g (ok (none, g'))

module _ {D S T V B : Type 0} ⦃dbl : Double D⦄ {api : Llvm D S V B} (laws : LlvmLaws api)
    (table : NamedVals T V) where
  pub arity-none : (s : S) (o : Option V) → arity_of api s o ≡ none → o ≡ none
  arity-none s none e = refl
  arity-none s (some f) e = cc

  pub funcdef-Defines :
      (g : Gen S T) (proto : Proto) (body : Node D) (ar : Arities)
      → Has api ar g.llvm
      → ar proto.name ≡ none
      → IsExpr body
      → Defines laws table
          (body_scope proto ar)
          (api.add_function proto.name (length proto.params) g.llvm).0
          (resolves (body_scope proto ar) body)
          (do_codegen api table (funcdef_node proto body) g)
  funcdef-Defines g proto body ar has new w =
      subst
        (λ ar.
          Defines laws table (body_scope proto ar)
            (api.add_function proto.name (length proto.params) g.llvm).0
            (resolves (body_scope proto ar) body)
            (do_codegen api table (funcdef_node proto body) g))
        (λ i n. has n i)
        (codegen_funcdef-Defines laws table g proto body w
          (arity-none g.llvm _ (has proto.name ∙ new)))

  -- The next definition, and then the rest.
  next-Compiles :
      (proto : Proto) (body : Node D) (defs : List (Proto × Node D)) {ar : Arities} (b c : Bool)
      (g g1 : Gen S T) (rest : V → Walk S T V)
      → do_codegen api table (funcdef_node proto body) g
        ≡ outcome_of laws table
            (b
              && not (
                  api.verify_fails
                    (api.add_function proto.name (length proto.params) g.llvm).0
                    g1.llvm))
            (api.add_function proto.name (length proto.params) g.llvm).0
            g1
      → (b ≡ true → Returned laws table g1.llvm)
      → Compiles laws table c ar defs g1
          (rest (api.add_function proto.name (length proto.params) g.llvm).0 g1)
      → Compiles laws table
          (b && c)
          ar
          ((proto, body) ∷ defs)
          g
          (bind (do_codegen api table (funcdef_node proto body) g) λ (v, g'). or_null v rest g')
  next-Compiles proto body defs {ar} b c g g1 rest e complete k =
      subst Goal (sym e) (go b (api.verify_fails func g1.llvm) refl e complete)
    where
      func : V
      func = (api.add_function proto.name (length proto.params) g.llvm).0

      Goal : Outcome (Option V × Gen S T) → Type 0
      Goal r =
          Compiles laws table (b && c) ar ((proto, body) ∷ defs) g
            (bind r λ (v, g'). or_null v rest g')

      after :
          {r : Outcome (Option V × Gen S T)}
          → Verdict laws table proto body true g g1
          → Compiles laws table c ar defs g1 r
          → Compiles laws table c ar ((proto, body) ∷ defs) g r
      after v (compiled h has a) = compiled h has (accepts v a)
      after v (refused (inl h)) = refused (inl h)
      after v (refused (inr h)) = refused (inr (rejects_later v h))

      go :
          (b bad : Bool)
          → api.verify_fails func g1.llvm ≡ bad
          → do_codegen api table (funcdef_node proto body) g
            ≡ outcome_of laws table (b && not bad) func g1
          → (b ≡ true → Returned laws table g1.llvm)
          → Compiles laws table
              (b && c)
              ar
              ((proto, body) ∷ defs)
              g
              (bind (outcome_of laws table (b && not bad) func g1) λ (v, g'). or_null v rest g')
      go false bad h run complete = refused (inl refl)
      go true true h run complete =
          refused (inr (rejects (record { run = run; complete = complete refl; verdict = h })))
      go true false h run complete =
          after (record { run = run; complete = complete refl; verdict = h }) k

  defs-Compiles :
      (defs : List (Proto × Node D)) (ar : Arities) (v : V) (g : Gen S T)
      → Has api ar g.llvm
      → AreDefs defs ar
      → Compiles laws table
          (defs_resolve defs ar)
          (after_all defs ar)
          defs
          g
          (codegen_block api table (some v) (nodes_of defs) g)
  unfolding do_codegen
  defs-Compiles [] ar v g has w = compiled refl has all_accepted
  defs-Compiles ((proto, body) ∷ defs) ar v g has w =
      let (g1, offers, e, complete) = funcdef-Defines g proto body ar has w.0 w.1 in
      next-Compiles proto body defs _ _ g g1 (λ v. codegen_block api table (some v) (nodes_of defs))
        e complete (defs-Compiles defs (declare proto ar) _ g1 offers.arity w.2)

  -- The same from the first statement on, which has no value before it.
  pub first-Compiles :
      (proto : Proto) (body : Node D) (defs : List (Proto × Node D)) (ar : Arities) (g : Gen S T)
      → Has api ar g.llvm
      → AreDefs ((proto, body) ∷ defs) ar
      → Compiles laws table
          (defs_resolve ((proto, body) ∷ defs) ar)
          (after_all ((proto, body) ∷ defs) ar)
          ((proto, body) ∷ defs)
          g
          (do_codegen api table (block_node (nodes_of ((proto, body) ∷ defs))) g)
  unfolding do_codegen
  first-Compiles proto body defs ar g has w =
      let (g1, offers, e, complete) = funcdef-Defines g proto body ar has w.0 w.1 in
      next-Compiles proto body defs _ _ g g1 (λ v. codegen_block api table (some v) (nodes_of defs))
        e complete (defs-Compiles defs (declare proto ar) _ g1 offers.arity w.2)
