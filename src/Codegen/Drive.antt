-- ===== src/Codegen/Drive.antt =====
-- src/codegen.c: `lilc_eval` and `lilc_emit`, which run the code generator on a whole program.
-- The execution engine and the target machine are LLVM's, behind the interface `Engine`. The dump
-- of the module on stderr and the disposal of LLVM's objects are left out.
pub mod Emit
pub mod Computes
pub mod Object
pub mod Result
use lilc.Ast.{Proto, Node, lilc_proto_node_new, lilc_funcdef_node_new}
use lilc.Codegen.Interface.{Llvm, NamedVals}
use lilc.Codegen.{Gen, do_codegen}
use lilc.Common.{Option, none, some, List, [], ◌++◌, Bytes, codes}
use lilc.Double.{Double}
use lilc.Outcome.{Outcome, ok, exited, bind}

-- `Option Bytes` is LLVM's error message, if there is one. `emit_to_file` writes an object file.
pub record Engine (D S V : Type 0) : Type 0 where
  pub new_module : Bytes → S
  pub create_error : S → Option Bytes
  pub run_function : V → S → Outcome D
  pub target_error : Option Bytes
  pub emit_to_file : S → Bytes → Option Bytes

abbrev pub or_exit {ℓ κ} :
    {A : Type ℓ} {C : Type κ} → Option A → Bytes → (A → Outcome C) → Outcome C
or_exit none msg f = exited msg
or_exit (some a) msg f = f a

-- `exit(1)` with a report on an error message, if there is one
abbrev pub exit_on {κ} : {C : Type κ} → Option Bytes → (Bytes → Bytes) → Outcome C → Outcome C
exit_on none report r = r
exit_on (some err) report r = exited (report err)

abbrev pub main_proto : Proto
main_proto = lilc_proto_node_new (codes "main") [] 0

module _ {D S V : Type 0} (engine : Engine D S V) where
  -- The state at the start: an empty module and an empty symbol table.
  abbrev pub start : {T : Type 0} → Bytes → T → Gen S T
  start name empty = record { llvm = engine.new_module name; named_vals = empty }

  -- `lilc_emit` once the module is generated. The result is LLVM's message if the object file could
  -- not be written, which is printed; `lilc_emit` returns all the same.
  unfoldable pub write_object : Option Bytes → S → Outcome (Option Bytes)
  write_object path module_ref = or_exit path (codes "Path for emitted file not provided\n") λ file.
      exit_on engine.target_error (λ err. codes "Could not get machine target: " ++ err)
        (ok (engine.emit_to_file module_ref file))

module _ {D S T V B : Type 0} ⦃dbl : Double D⦄ (api : Llvm D S V B) (table : NamedVals T V)
    (engine : Engine D S V) where
  unfoldable pub lilc_eval : T → Node D → Outcome D
  lilc_eval empty node =
      exit_on (engine.create_error (engine.new_module (codes "lilc_eval")))
        (λ msg. codes "Could not create execution engine: " ++ msg ++ codes "\n")
        (bind (do_codegen api table node (start engine (codes "lilc_eval") empty)) λ (val, g).
          or_exit val (codes "\nEval failed. Exiting.\n") λ v.
            or_exit (api.get_named_function (codes "main") g.llvm)
              (codes "Function 'main' not found\n")
              λ main_func. engine.run_function main_func g.llvm)

  unfoldable pub lilc_emit : T → Node D → Option Bytes → Outcome (Option Bytes)
  lilc_emit empty node path =
      bind
        (do_codegen api table (lilc_funcdef_node_new main_proto node)
          (start engine (codes "lilc") empty))
        λ (val, g).
          or_exit val (codes "\nEmit Failed. Exiting.\n") λ v. write_object engine path g.llvm
