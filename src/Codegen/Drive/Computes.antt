-- ===== src/Codegen/Drive/Computes.antt =====
-- `lilc_eval` on a block of function definitions: the code that it runs and the number that the
-- program stands for.
use lilc.Ast.{Proto, Node, block_node}
use lilc.Codegen.Drive.{Engine, or_exit, exit_on, start, lilc_eval}
use lilc.Codegen.Execute.Functions.Programs.{AllDefined, first-Gives, AllDefined-Calls}
use lilc.Codegen.Execute.Gives.{Gives}
use lilc.Codegen.Execute.Unique.{Calls-unique}
use lilc.Codegen.Execute.{Code, View, Calls}
use lilc.Codegen.Execute.Laws.{CodeLaws}
use lilc.Codegen.Interface.{Llvm, LlvmLaws, NamedVals}
use lilc.Codegen.Programs.{
  Arities, nodes_of, after_all, defs_resolve, AreDefs, Has, Accepts, Refused, Compiles, compiled,
  refused, first-Compiles,
}
use lilc.Codegen.Scope.{arity_of}
use lilc.Codegen.Semantics.{Arith, run_program}
use lilc.Codegen.{Gen, do_codegen}
use lilc.Common.{
  ℕ, sym, subst, ◌≡◌, refl, Bool, true, Option, none, some, List, [], ◌∷◌, Bytes, codes,
}
use lilc.Double.{Double}
use lilc.Outcome.{Outcome, exited, bind}

-- Calling `f` without arguments in the module `m` gives what `main` gives in the program, and no
-- other number.
abbrev pub IsMain :
    {D S V B : Type 0}
    → ⦃dbl : Double D⦄ → Arith D
    → View D S V B
    → List (Proto × Node D)
    → Code V B
    → V
    → Type 0
IsMain {D} ar view defs m f =
    (k : ℕ) (d : D)
    → run_program ar defs k (codes "main") [] ≡ some d
    → Calls ar view m k f [] d × ((j : ℕ) (d' : D) → Calls ar view m j f [] d' → d' ≡ d)

-- How `lilc_eval` ends on the program `defs` from `g0`, whose definitions resolve as `resolved` says,
-- and that defines `main` with the number of parameters `main_arity`, if it does.
pub data Computes {D S T V B : Type 0} ⦃dbl : Double D⦄ {ar : Arith D} {view : View D S V B}
    {api : Llvm D S V B} (laws : LlvmLaws api) (lows : CodeLaws ar view api) (table : NamedVals T V)
    (engine : Engine D S V) (defs : List (Proto × Node D)) (g0 : Gen S T) (resolved : Bool)
    (main_arity : Option ℕ) : Outcome D → Type 0 where
  runs :
      (f : V) (g : Gen S T)
      → resolved ≡ true
      → Accepts laws table defs g0 g
      → api.get_named_function (codes "main") g.llvm ≡ some f
      → main_arity ≡ some (api.count_params f g.llvm)
      → IsMain ar view defs (view.look g.llvm) f
      → Computes laws lows table engine defs g0 resolved main_arity (engine.run_function f g.llvm)
  no_main :
      (g : Gen S T)
      → resolved ≡ true
      → Accepts laws table defs g0 g
      → main_arity ≡ none
      → Computes laws lows table engine defs g0 resolved main_arity
          (exited (codes "Function 'main' not found\n"))
  fails :
      Refused laws table resolved defs g0
      → Computes laws lows table engine defs g0 resolved main_arity
          (exited (codes "\nEval failed. Exiting.\n"))

pub no_exit :
    {C : Type 0} (o : Option Bytes) (report : Bytes → Bytes) {r : Outcome C}
    → o ≡ none
    → exit_on o report r ≡ r
no_exit none report e = refl
no_exit (some msg) report e = cc

module _ {D S T V B : Type 0} ⦃dbl : Double D⦄ {ar : Arith D} {view : View D S V B}
    {api : Llvm D S V B} (laws : LlvmLaws api) (lows : CodeLaws ar view api) (table : NamedVals T V)
    (engine : Engine D S V) where
  pub AllDefined-IsMain :
      (defs : List (Proto × Node D)) {g g' : Gen S T} (f : V)
      → AllDefined laws lows table defs g g'
      → api.get_named_function (codes "main") g'.llvm ≡ some f
      → IsMain ar view defs (view.look g'.llvm) f
  AllDefined-IsMain defs {g'} f h e k d w =
      let called = AllDefined-Calls laws lows table defs k (codes "main") f [] d h e w in
      (called, λ j d' c. Calls-unique ar view (view.look g'.llvm) j k f [] d' d c called)

  find_main :
      (defs : List (Proto × Node D)) {resolved : Bool} (arities : Arities) {g g' : Gen S T}
      (o : Option V)
      → resolved ≡ true
      → Accepts laws table defs g g'
      → AllDefined laws lows table defs g g'
      → api.get_named_function (codes "main") g'.llvm ≡ o
      → arity_of api g'.llvm o ≡ arities (codes "main")
      → Computes laws lows table engine defs g resolved
          (arities (codes "main"))
          (or_exit o (codes "Function 'main' not found\n") λ f. engine.run_function f g'.llvm)
  find_main defs arities {g' = g'} none h c a e k = no_main g' h c (sym k)
  find_main defs arities {g' = g'} (some f) h c a e k =
      runs f g' h c e (sym k) (AllDefined-IsMain defs f a e)

  evaluate :
      (defs : List (Proto × Node D)) {resolved : Bool} {arities : Arities} (g0 : Gen S T)
      {r : Outcome (Option V × Gen S T)}
      → Compiles laws table resolved arities defs g0 r
      → Gives (λ v g'. AllDefined laws lows table defs g0 g') r
      → Computes laws lows table engine defs g0 resolved (arities (codes "main")) (
          bind r λ (val, g). or_exit val (codes "\nEval failed. Exiting.\n") λ v.
            or_exit
              (api.get_named_function (codes "main") g.llvm)
              (codes "Function 'main' not found\n")
              λ f. engine.run_function f g.llvm)
  evaluate defs {arities} g0 (compiled {v} {g' = g} h has c) a =
      find_main defs arities (api.get_named_function (codes "main") g.llvm) h c a refl
        (has (codes "main"))
  evaluate defs g0 (refused h) a = fails h

  -- With an execution engine and a new module without functions, `lilc_eval` on a block of one or
  -- more definitions, each of a new name and with an expression as body, ends. If each body resolves
  -- with its parameters, the functions up to it and itself, and LLVM verifies each function once its
  -- return is built, it runs the function `main` of the module that the run leaves, or exits with a
  -- message if the program defines none. By LLVM's semantics, if the program's `main` gives a number
  -- without arguments, then so does the code that it runs, with calls nested as deep, and it gives no
  -- other number. If a body does not resolve, or LLVM rejects a function of the run once its return
  -- is built, it exits with its message.
  pub lilc_eval-Computes :
      (empty : T) (proto : Proto) (body : Node D) (defs : List (Proto × Node D))
      → engine.create_error (engine.new_module (codes "lilc_eval")) ≡ none
      → Has api (λ n. none) (engine.new_module (codes "lilc_eval"))
      → AreDefs ((proto, body) ∷ defs) (λ n. none)
      → Computes laws lows table engine
          ((proto, body) ∷ defs)
          (start engine (codes "lilc_eval") empty)
          (defs_resolve ((proto, body) ∷ defs) (λ n. none))
          (after_all ((proto, body) ∷ defs) (λ n. none) (codes "main"))
          (lilc_eval api table engine empty (block_node (nodes_of ((proto, body) ∷ defs))))
  unfolding lilc_eval do_codegen
  lilc_eval-Computes empty proto body defs no_error fresh w =
      subst (Computes laws lows table engine _ _ _ _) (sym (no_exit _ _ no_error)) (
        evaluate ((proto, body) ∷ defs) _
          (first-Compiles laws table proto body defs (λ n. none) _ fresh w)
          (first-Gives laws lows table proto body defs (λ n. none) _ fresh w))
