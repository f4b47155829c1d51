-- ===== src/Tests/Execute.antt =====
-- The code that a program becomes, and what it computes, over the stand-in that keeps the code.
use lilc.Ast.{
  lilc_proto_node_new, Node, Proto, dbl_node, block_node, var_node, op_bin_node, funcdef_node,
  funccall_node, if_node, nil, cons,
}
use lilc.Codegen.Define.{Returned, outcome_of}
use lilc.Codegen.Drive.Computes.{IsMain, Computes, lilc_eval-Computes}
use lilc.Codegen.Drive.Emit.{main_scope}
use lilc.Codegen.Drive.Object.{Writes, lilc_emit-IsMain}
use lilc.Codegen.Drive.Result.{RunsCode, generated_main, lilc_eval_value}
use lilc.Codegen.Execute.{Calls}
use lilc.Codegen.Drive.{Engine, start, main_proto, lilc_eval, lilc_emit}
use lilc.Codegen.Execute.Functions.Definition.{Defined, codegen_funcdef-Defined}
use lilc.Codegen.Programs.{nodes_of, defs_resolve, AreDefs, Rejects}
use lilc.Codegen.Scope.{body_scope, resolves, IsExpr}
use lilc.Codegen.Semantics.{value, run_program}
use lilc.Codegen.{Gen, do_codegen}
use lilc.Common.{
  same_some, subst, ap, ◌⊎◌, ℕ, ◌+◌, ◌-◌, ◌≡◌, refl, Bool, true, false, ◌&&◌, none, some, List, [],
  ◌∷◌, Bytes, codes, ltb,
}
use lilc.Driver.Computes.{test_codegen-Computes}
use lilc.Driver.{test_codegen}
use lilc.Lex.Text.{text-Written}
use lilc.Outcome.{Outcome, ok, exited, bind}
use lilc.Parse.Source.{emit_stmts}
use lilc.Tests.Codegen.{f_proto, main_def}
use lilc.Tests.Driver.{
  defs_text, defs-AreSource, a_disk, here, at_place, defs_files, floats, two_defs, two-AreDefs,
  two_nodes, defs_body, defs_main,
}
use lilc.Tests.Files.{disk}
use lilc.Tests.Machine.{named_values}
use lilc.Tests.Recorder.{
  Value, defined, Module, new_module, recorder, recorded, naturals, recorder-LlvmLaws,
  recorder-CodeLaws,
}
use lilc.Tests.{whole}
use lilc.Token.{tok_add, tok_sub, tok_cmplt}

-- Running a function gives 9.
abbrev pub recorder_engine : Engine ℕ Module Value
recorder_engine = record {
  new_module = new_module;
  create_error = λ s. none;
  run_function = λ f s. ok 9;
  target_error = none;
  emit_to_file = λ s path. none;
}

abbrev x_var : Node ℕ
x_var = var_node (codes "x")

-- `if x { f(x - 1) + 3; } else { 3; };`
abbrev f_body : Node ℕ
f_body =
    if_node x_var
      (block_node (
        cons
          (op_bin_node
            (funccall_node (codes "f") (cons (op_bin_node x_var (dbl_node 1) tok_sub) nil))
            (dbl_node 3) tok_add)
          nil))
      (block_node (cons (dbl_node 3) nil))

-- `f(2);`
abbrev main_body : Node ℕ
main_body = block_node (cons (funccall_node (codes "f") (cons (dbl_node 2) nil)) nil)

abbrev loop_defs : List (Proto × Node ℕ)
loop_defs = (f_proto, f_body) ∷ (main_def, main_body) ∷ []

f-IsExpr : IsExpr f_body
unfolding IsExpr
f-IsExpr = (tt, (((((tt, tt), tt), tt), tt)), (tt, tt))

loop-AreDefs : AreDefs loop_defs (λ n. none)
unfolding f-IsExpr IsExpr
loop-AreDefs = (refl, f-IsExpr, (refl, ((tt, tt), tt), tt))

-- `main` is 9, with four calls nested.
loop_value : run_program naturals loop_defs 4 (codes "main") [] ≡ some 9
unfolding run_program value
loop_value = refl

too_shallow : run_program naturals loop_defs 3 (codes "main") [] ≡ none
unfolding run_program value
too_shallow = refl

lilc_eval-Computes_example :
    Computes recorder-LlvmLaws recorder-CodeLaws
      (named_values Value)
      recorder_engine
      loop_defs
      (start recorder_engine (codes "lilc_eval") [])
      (defs_resolve loop_defs (λ n. none))
      (some 0)
      (lilc_eval recorder (named_values Value) recorder_engine [] (block_node (nodes_of loop_defs)))
lilc_eval-Computes_example =
    lilc_eval-Computes recorder-LlvmLaws recorder-CodeLaws (named_values Value) recorder_engine []
      f_proto f_body ((main_def, main_body) ∷ []) refl (λ n. refl) loop-AreDefs

-- `if 1 < 2 { 3; } else { main(); };`
abbrev chosen : Node ℕ
chosen =
    if_node (op_bin_node (dbl_node 1) (dbl_node 2) tok_cmplt) (block_node (cons (dbl_node 3) nil))
      (block_node (cons (funccall_node (codes "main") nil) nil))

chosen-IsExpr : IsExpr chosen
unfolding IsExpr
chosen-IsExpr = ((tt, tt), (tt, tt), (tt, tt))

chosen_value : run_program naturals ((main_proto, chosen) ∷ []) 1 (codes "main") [] ≡ some 3
unfolding run_program value lilc_proto_node_new
chosen_value = refl

lilc_emit-IsMain_example :
    (accepted : Bool) × (g : Gen Module (List (Bytes × Value))) × (accepted
      ≡ (resolves main_scope chosen && true))
    × (resolves main_scope chosen ≡ true → Returned recorder-LlvmLaws (named_values Value) g.llvm)
    × (accepted ≡ false
        → lilc_emit recorder (named_values Value) recorder_engine [] chosen (some (codes "out.o"))
          ≡ exited (codes "\nEmit Failed. Exiting.\n"))
    × (accepted ≡ true
        → Writes recorder_engine g.llvm (some (codes "out.o")) (
            lilc_emit recorder
              (named_values Value)
              recorder_engine
              []
              chosen
              (some (codes "out.o")))
          × (f : Value) × (recorder.get_named_function (codes "main") g.llvm ≡ some f)
          × IsMain naturals recorded ((main_proto, chosen) ∷ []) (recorded.look g.llvm) f)
lilc_emit-IsMain_example =
    lilc_emit-IsMain recorder-LlvmLaws recorder-CodeLaws (named_values Value) recorder_engine []
      chosen (some (codes "out.o")) chosen-IsExpr (λ n. refl)

abbrev empty_module : Gen Module (List (Bytes × Value))
empty_module = record { llvm = new_module (codes "m"); named_vals = [] }

codegen_funcdef-Defined_example :
    (accepted : Bool) × (g' : Gen Module (List (Bytes × Value))) × (accepted
      ≡ (resolves (body_scope f_proto (λ n. none)) f_body && true))
    × (do_codegen recorder (named_values Value) (funcdef_node f_proto f_body) empty_module
        ≡ outcome_of recorder-LlvmLaws (named_values Value) accepted (defined (codes "f") 1 0) g')
    × (accepted ≡ true
        → Defined recorder-LlvmLaws recorder-CodeLaws
            (named_values Value)
            f_proto
            f_body
            empty_module
            (defined (codes "f") 1 0)
            g')
    × (resolves (body_scope f_proto (λ n. none)) f_body ≡ true
        → Returned recorder-LlvmLaws (named_values Value) g'.llvm)
codegen_funcdef-Defined_example =
    codegen_funcdef-Defined recorder-LlvmLaws recorder-CodeLaws (named_values Value) f_proto f_body
      empty_module f-IsExpr refl

-- `def f(x) { x + 2; }; def main() { f(3); };` from its text on
test_codegen-Computes_example :
    (result : Outcome ℕ) × Computes recorder-LlvmLaws recorder-CodeLaws
      (named_values Value)
      recorder_engine
      two_defs
      (start recorder_engine (codes "lilc_eval") [])
      (defs_resolve two_defs (λ n. none))
      (some 0)
      result
    × (test_codegen disk here recorder
          (named_values Value)
          recorder_engine
          []
          floats
          (codes "defs")
          (codes "want")
          a_disk
        ≡ bind result λ got. ok (ltb ((got - 7) + (7 - got)) 1, at_place 1))
test_codegen-Computes_example =
    test_codegen-Computes ℕ defs_files recorder-LlvmLaws recorder-CodeLaws (named_values Value)
      recorder_engine [] floats defs_text f_proto defs_body ((main_def, defs_main) ∷ [])
      defs-AreSource (text-Written (emit_stmts defs_text []) [] refl) two_nodes refl (λ n. refl)
      two-AreDefs

loop_resolves : defs_resolve loop_defs (λ n. none) ≡ true
unfolding resolves
loop_resolves = refl

loop-RunsCode : RunsCode naturals recorded recorder recorder_engine (
    do_codegen recorder
      (named_values Value)
      (block_node (nodes_of loop_defs))
      (start recorder_engine (codes "lilc_eval") []))
loop-RunsCode v g run f k d e called =
    let (f', e', only) =
      generated_main recorder-LlvmLaws recorder-CodeLaws (named_values Value) recorder_engine []
        f_proto f_body ((main_def, main_body) ∷ []) 4 9 (λ n. refl) loop-AreDefs loop_value v g
        run in
    ap ok (
      only k d (
        subst (λ f. Calls naturals recorded (recorded.look g.llvm) k f [] d) (same_some e e')
          called))

lilc_eval_value_example :
    (lilc_eval recorder (named_values Value) recorder_engine [] (block_node (nodes_of loop_defs))
      ≡ ok 9)
    ⊎ Rejects recorder-LlvmLaws
        (named_values Value)
        loop_defs
        (start recorder_engine (codes "lilc_eval") [])
lilc_eval_value_example =
    lilc_eval_value recorder-LlvmLaws recorder-CodeLaws (named_values Value) recorder_engine []
      f_proto f_body ((main_def, main_body) ∷ []) 4 9 refl (λ n. refl) loop-AreDefs loop_resolves
      loop-RunsCode loop_value
