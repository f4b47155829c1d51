-- ===== src/Codegen/Drive/Object.antt =====
-- `lilc_emit` on an expression: what the `main` of the object file computes.
use lilc.Ast.{Node, lilc_proto_node_new, lilc_funcdef_node_new}
use lilc.Codegen.Define.{Returned}
use lilc.Codegen.Drive.Computes.{IsMain, AllDefined-IsMain}
use lilc.Codegen.Drive.Emit.{main_scope, bind-outcome_of}
use lilc.Codegen.Drive.{Engine, or_exit, exit_on, start, main_proto, write_object, lilc_emit}
use lilc.Codegen.Execute.Functions.Definition.{Defined, codegen_funcdef-Defined}
use lilc.Codegen.Execute.Functions.Programs.{Defined-AllDefined}
use lilc.Codegen.Execute.{View}
use lilc.Codegen.Execute.Laws.{CodeLaws}
use lilc.Codegen.Interface.{Llvm, LlvmLaws, NamedVals}
use lilc.Codegen.Scope.{body_scope, resolves, IsExpr, arity_of}
use lilc.Codegen.Semantics.{Arith}
use lilc.Codegen.{Gen}
use lilc.Common.{
  ◌∙◌, ap, sym, subst, ◌≡◌, refl, Bool, true, false, ◌++◌, not, ◌&&◌, Option, none, some, [], ◌∷◌,
  Bytes, codes, if◌then◌else◌,
}
use lilc.Double.{Double}
use lilc.Outcome.{Outcome, ok, exited}

-- How writing the object file of the module `s` to `path` ends: it is written unless there is no path or
-- no target machine. `emit_to_file` may have a message of its own, which is printed.
pub data Writes {D S V : Type 0} (engine : Engine D S V) (s : S)
    : Option Bytes → Outcome (Option Bytes) → Type 0 where
  written :
      {file : Bytes}
      → engine.target_error ≡ none
      → Writes engine s (some file) (ok (engine.emit_to_file s file))
  no_path : Writes engine s none (exited (codes "Path for emitted file not provided\n"))
  no_target :
      {file err : Bytes}
      → engine.target_error ≡ some err
      → Writes engine s (some file) (exited (codes "Could not get machine target: " ++ err))

write_object-Writes :
    {D S V : Type 0} (engine : Engine D S V) (path : Option Bytes) (s : S)
    → Writes engine s path (write_object engine path s)
unfolding write_object
write_object-Writes engine none s = no_path
write_object-Writes engine (some file) s = go engine.target_error refl
  where
    go :
        (o : Option Bytes)
        → engine.target_error ≡ o
        → Writes engine s (some file) (
            exit_on o
              (λ err. codes "Could not get machine target: " ++ err)
              (ok (engine.emit_to_file s file)))
    go none e = written e
    go (some err) e = no_target e

module _ {D S T V B : Type 0} ⦃dbl : Double D⦄ {ar : Arith D} {view : View D S V B}
    {api : Llvm D S V B} (laws : LlvmLaws api) (lows : CodeLaws ar view api) (table : NamedVals T V)
    (engine : Engine D S V) where
  abbrev main_of : S → V
  main_of s = (api.add_function (codes "main") 0 s).0

  Defined-IsMain :
      {g g' : Gen S T} {node : Node D} {f : V}
      → Defined laws lows table main_proto node g f g'
      → (api.get_named_function (codes "main") g'.llvm ≡ some f)
        × IsMain ar view ((main_proto, node) ∷ []) (view.look g'.llvm) f
  unfolding lilc_proto_node_new
  Defined-IsMain {node} {f} h = (
    h.found,
    AllDefined-IsMain laws lows table engine ((main_proto, node) ∷ []) f
        (Defined-AllDefined laws lows table h) h.found,
  )

  -- In a new module without functions, `lilc_emit` on an expression accepts `main` if the expression
  -- resolves with no variable and no function but `main` in scope, and LLVM verifies `main` once its
  -- return is built. If not, it exits with its message. If it accepts it, it asks LLVM to write the
  -- object file of the module at the path and returns LLVM's message if that failed; with no path, or
  -- with no target machine, it exits with a message instead. Then, if a program with the expression as
  -- its `main` gives a number without arguments, so does the function `main` of that module, by LLVM's
  -- semantics and with calls nested as deep, and it gives no other number.
  pub lilc_emit-IsMain :
      (empty : T) (node : Node D) (path : Option Bytes)
      → IsExpr node
      → ((n : Bytes) → api.get_named_function n (engine.new_module (codes "lilc")) ≡ none)
      → (accepted : Bool) × (g : Gen S T) × (accepted ≡ (
          resolves main_scope node
          && not (api.verify_fails (main_of (engine.new_module (codes "lilc"))) g.llvm)))
        × (resolves main_scope node ≡ true → Returned laws table g.llvm)
        × (accepted ≡ false
            → lilc_emit api table engine empty node path
              ≡ exited (codes "\nEmit Failed. Exiting.\n"))
        × (accepted ≡ true
            → Writes engine g.llvm path (lilc_emit api table engine empty node path)
              × (f : V) × (api.get_named_function (codes "main") g.llvm ≡ some f)
              × IsMain ar view ((main_proto, node) ∷ []) (view.look g.llvm) f)
  unfolding lilc_emit lilc_proto_node_new lilc_funcdef_node_new
  lilc_emit-IsMain empty node path w fresh =
      let (accepted, g, e, run, defined, returned) =
        codegen_funcdef-Defined laws lows table main_proto node (start engine (codes "lilc") empty)
          w (fresh (codes "main")) in
      let scoped =
        ap (λ arities. resolves (body_scope main_proto arities) node)
          (λ i n. ap (arity_of api (engine.new_module (codes "lilc"))) (fresh n) i) in
      let outcome = λ (b : Bool).
        if b then write_object engine path g.llvm else exited (codes "\nEmit Failed. Exiting.\n") in
      let ends =
        bind-outcome_of laws table engine accepted _ g (codes "\nEmit Failed. Exiting.\n")
          (λ val g'.
            or_exit val (codes "\nEmit Failed. Exiting.\n") λ v. write_object engine path g'.llvm)
          refl run in
      (
        accepted,
        g,
        e
            ∙ ap
                (λ b.
                  b && not (api.verify_fails (main_of (engine.new_module (codes "lilc"))) g.llvm))
                scoped,
        λ h. returned (scoped ∙ h),
        λ h. ends ∙ ap outcome h,
        λ h.
            let (found, is_main) = Defined-IsMain (defined h) in
            (
              subst (Writes engine g.llvm path) (sym (ends ∙ ap outcome h))
                  (write_object-Writes engine path g.llvm),
              _,
              found,
              is_main,
            ),
      )
