-- ===== src/Codegen/Drive/Emit.antt =====
-- `lilc_emit` on an expression.
use lilc.Ast.{Node, funcdef_node, lilc_proto_node_new, lilc_funcdef_node_new}
use lilc.Codegen.Define.{Defines, Returned, outcome_of, codegen_funcdef-Defines}
use lilc.Codegen.Drive.{Engine, or_exit, start, main_proto, write_object, lilc_emit}
use lilc.Codegen.Interface.{Llvm, LlvmLaws, NamedVals}
use lilc.Codegen.Scope.{Scope, body_scope, resolves, IsExpr, Offers, arity_of}
use lilc.Codegen.{Gen, do_codegen}
use lilc.Common.{
  ◌∙◌, ap, subst, ◌≡◌, refl, Bool, true, false, not, ◌&&◌, Option, none, some, Bytes, codes,
  if◌then◌else◌,
}
use lilc.Double.{Double}
use lilc.Outcome.{Outcome, exited, bind}

-- The scope of the body of `main` in a new module: no variables, and `main` itself.
abbrev pub main_scope : Scope
main_scope = body_scope main_proto (λ n. none)

module _ {D S T V B : Type 0} ⦃dbl : Double D⦄ {api : Llvm D S V B} (laws : LlvmLaws api)
    (table : NamedVals T V) (engine : Engine D S V) where
  abbrev main_function : S → V
  main_function s = (api.add_function (codes "main") 0 s).0

  main-Defines :
      (g : Gen S T) (node : Node D)
      → IsExpr node
      → ((n : Bytes) → api.get_named_function n g.llvm ≡ none)
      → Defines laws table main_scope
          (main_function g.llvm)
          (resolves main_scope node)
          (do_codegen api table (funcdef_node main_proto node) g)
  unfolding lilc_proto_node_new
  main-Defines g node w fresh =
      subst
        (λ ar.
          Defines laws table (body_scope main_proto ar) (main_function g.llvm)
            (resolves (body_scope main_proto ar) node)
            (do_codegen api table (funcdef_node main_proto node) g))
        (λ i n. ap (arity_of api g.llvm) (fresh n) i)
        (codegen_funcdef-Defines laws table g main_proto node w (fresh (codes "main")))

  pub bind-outcome_of :
      {A : Type 0} (accepted : Bool) (func : V) (g : Gen S T) (msg : Bytes)
      (f : Option V → Gen S T → Outcome A) {r : Outcome (Option V × Gen S T)}
      → f none (record g { llvm = api.delete_function func g.llvm }) ≡ exited msg
      → r ≡ outcome_of laws table accepted func g
      → bind r (λ (val, g'). f val g') ≡ (if accepted then f (some func) g else exited msg)
  bind-outcome_of true func g msg f h e = ap (λ r. bind r (λ (val, g'). f val g')) e
  bind-outcome_of false func g msg f h e = ap (λ r. bind r (λ (val, g'). f val g')) e ∙ h

  -- In a new module without functions, `lilc_emit` on an expression goes on to `write_object` with the
  -- module if the expression resolves with no variable and no function but `main` in scope and LLVM
  -- verifies `main`, once its return is built; otherwise it exits with its message.
  pub lilc_emit-resolves :
      (empty : T) (node : Node D) (path : Option Bytes)
      → IsExpr node
      → ((n : Bytes) → api.get_named_function n (engine.new_module (codes "lilc")) ≡ none)
      → (g : Gen S T) × Offers api table main_scope g
        × (resolves main_scope node ≡ true → Returned laws table g.llvm)
        × (lilc_emit api table engine empty node path ≡ (
            if resolves main_scope node
              && not (api.verify_fails (main_function (engine.new_module (codes "lilc"))) g.llvm)
            then write_object engine path g.llvm
            else exited (codes "\nEmit Failed. Exiting.\n")))
  unfolding lilc_emit lilc_proto_node_new lilc_funcdef_node_new
  lilc_emit-resolves empty node path w fresh =
      let (g, offers, e, returned) =
        main-Defines (start engine (codes "lilc") empty) node w fresh in
      (
        g,
        offers,
        returned,
        bind-outcome_of _ _ g (codes "\nEmit Failed. Exiting.\n")
            (λ val g'.
              or_exit val (codes "\nEmit Failed. Exiting.\n") λ v. write_object engine path g'.llvm)
            refl e,
      )
