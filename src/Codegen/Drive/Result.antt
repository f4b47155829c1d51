-- ===== src/Codegen/Drive/Result.antt =====
-- The number that `lilc_eval` returns, with an engine that runs the module that was generated.
use lilc.Ast.{Proto, Node, block_node}
use lilc.Codegen.Drive.Computes.{no_exit}
use lilc.Codegen.Drive.{Engine, or_exit, start, lilc_eval}
use lilc.Codegen.Execute.Functions.Programs.{
  AllDefined, first-Gives, AllDefined-Calls, AllDefined-named,
}
use lilc.Codegen.Execute.Gives.{Gives}
use lilc.Codegen.Execute.Laws.{CodeLaws}
use lilc.Codegen.Execute.Unique.{Calls-unique}
use lilc.Codegen.Execute.{View, Calls}
use lilc.Codegen.Interface.{Llvm, LlvmLaws, NamedVals}
use lilc.Codegen.Programs.{
  Arities, nodes_of, defs_resolve, AreDefs, Has, Rejects, Compiles, compiled, refused,
  first-Compiles,
}
use lilc.Codegen.Semantics.{Arith, run_program}
use lilc.Codegen.{Gen, do_codegen}
use lilc.Common.{
  ℕ, sym, subst, ap, ◌∙◌, ◌≡◌, ◌⊎◌, inl, inr, refl, Bool, true, Option, none, some, List, [], ◌∷◌,
  codes,
}
use lilc.Double.{Double}
use lilc.Outcome.{Outcome, ok, bind}

-- The engine runs `main` of the module that the generator returned as LLVM's language reference says:
-- where the call without arguments gives a number, so does the run.
abbrev pub RunsCode :
    {D S T V B : Type 0}
    → ⦃dbl : Double D⦄ → Arith D
    → View D S V B
    → Llvm D S V B
    → Engine D S V
    → Outcome (Option V × Gen S T)
    → Type 0
RunsCode {D} {S} {T} {V} ar view api engine r =
    (v : V) (g : Gen S T)
    → r ≡ ok (some v, g)
    → (f : V) (k : ℕ) (d : D) → api.get_named_function (codes "main") g.llvm ≡ some f
    → Calls ar view (view.look g.llvm) k f [] d
    → engine.run_function f g.llvm ≡ ok d

module _ {D S T V B : Type 0} ⦃dbl : Double D⦄ {ar : Arith D} {view : View D S V B}
    {api : Llvm D S V B} (laws : LlvmLaws api) (lows : CodeLaws ar view api) (table : NamedVals T V)
    (engine : Engine D S V) where
  abbrev run_main : Outcome (Option V × Gen S T) → Outcome D
  run_main r = bind r λ (val, g). or_exit val (codes "\nEval failed. Exiting.\n") λ v.
      or_exit (api.get_named_function (codes "main") g.llvm) (codes "Function 'main' not found\n")
        λ f. engine.run_function f g.llvm

  main_value :
      (defs : List (Proto × Node D)) {resolved : Bool} {arities : Arities} (g0 : Gen S T)
      {r : Outcome (Option V × Gen S T)} (k : ℕ) (d : D)
      → Compiles laws table resolved arities defs g0 r
      → Gives (λ v g'. AllDefined laws lows table defs g0 g') r
      → resolved ≡ true
      → RunsCode ar view api engine r
      → run_program ar defs k (codes "main") [] ≡ some d
      → (run_main r ≡ ok d) ⊎ Rejects laws table defs g0
  main_value defs g0 k d (compiled {v} {g' = g} h has c) a t runs w =
      let (f, e) = AllDefined-named laws lows table defs k (codes "main") [] d a w in
      inl (
        ap (λ o. or_exit o (codes "Function 'main' not found\n") λ f. engine.run_function f g.llvm)
          e
        ∙ runs v g refl f k d e
            (AllDefined-Calls laws lows table defs k (codes "main") f [] d a e w))
  main_value defs g0 k d (refused (inl h)) a t runs w = cc
  main_value defs g0 k d (refused (inr h)) a t runs w = inr h

  -- With an execution engine that runs the generated module as LLVM's language reference says, and a
  -- new module without functions: `lilc_eval` on a block of one or more definitions, each of a new name
  -- and with an expression that resolves as body, returns the number that the program's `main` gives
  -- without arguments, unless LLVM rejects one of the functions of this run once its return is built.
  pub lilc_eval_value :
      (empty : T) (proto : Proto) (body : Node D) (defs : List (Proto × Node D)) (k : ℕ) (d : D)
      → engine.create_error (engine.new_module (codes "lilc_eval")) ≡ none
      → Has api (λ n. none) (engine.new_module (codes "lilc_eval"))
      → AreDefs ((proto, body) ∷ defs) (λ n. none)
      → defs_resolve ((proto, body) ∷ defs) (λ n. none) ≡ true
      → RunsCode ar view api engine (
          do_codegen api table
            (block_node (nodes_of ((proto, body) ∷ defs)))
            (start engine (codes "lilc_eval") empty))
      → run_program ar ((proto, body) ∷ defs) k (codes "main") [] ≡ some d
      → (lilc_eval api table engine empty (block_node (nodes_of ((proto, body) ∷ defs))) ≡ ok d)
        ⊎ Rejects laws table ((proto, body) ∷ defs) (start engine (codes "lilc_eval") empty)
  unfolding lilc_eval do_codegen
  lilc_eval_value empty proto body defs k d no_error fresh w resolved runs value =
      subst
        (λ r.
          (r ≡ ok d)
          ⊎ Rejects laws table ((proto, body) ∷ defs) (start engine (codes "lilc_eval") empty))
        (sym (no_exit _ _ no_error))
        (main_value ((proto, body) ∷ defs) (start engine (codes "lilc_eval") empty) k d
          (first-Compiles laws table proto body defs (λ n. none) _ fresh w)
          (first-Gives laws lows table proto body defs (λ n. none) _ fresh w) resolved runs value)

  -- The only number that `main` gives in a generated module is that of the program.
  pub generated_main :
      (empty : T) (proto : Proto) (body : Node D) (defs : List (Proto × Node D)) (k : ℕ) (d : D)
      → Has api (λ n. none) (engine.new_module (codes "lilc_eval"))
      → AreDefs ((proto, body) ∷ defs) (λ n. none)
      → run_program ar ((proto, body) ∷ defs) k (codes "main") [] ≡ some d
      → (v : V) (g : Gen S T)
      → do_codegen api table
          (block_node (nodes_of ((proto, body) ∷ defs)))
          (start engine (codes "lilc_eval") empty)
        ≡ ok (some v, g)
      → (f : V) × (api.get_named_function (codes "main") g.llvm ≡ some f)
        × ((j : ℕ) (d' : D) → Calls ar view (view.look g.llvm) j f [] d' → d ≡ d')
  generated_main empty proto body defs k d fresh w value v g run =
      let a =
        subst
          (Gives (λ v g'.
            AllDefined laws lows table ((proto, body) ∷ defs)
              (start engine (codes "lilc_eval") empty) g'))
          run
          (first-Gives laws lows table proto body defs (λ n. none)
            (start engine (codes "lilc_eval") empty) fresh w) in
      let (f, e) =
        AllDefined-named laws lows table ((proto, body) ∷ defs) k (codes "main") [] d a value in
      (
        f,
        e,
        λ j d' c.
            Calls-unique ar view (view.look g.llvm) k j f [] d d'
              (AllDefined-Calls laws lows table ((proto, body) ∷ defs) k (codes "main") f [] d a e
                value)
              c,
      )
