-- ===== src/Tests/Codegen.antt =====
-- The code generator on small trees, over the stand-in for LLVM.
use lilc.Ast.{
  Node, Proto, dbl_node, block_node, var_node, op_bin_node, funcdef_node, funccall_node, if_node,
  null, nil, cons, lilc_proto_node_new, lilc_funcdef_node_new,
}
use lilc.Codegen.Define.{Defines, Returned, codegen_funcdef-Defines}
use lilc.Codegen.Drive.Emit.{main_scope, lilc_emit-resolves}
use lilc.Codegen.Drive.{Engine, lilc_eval, lilc_emit, write_object}
use lilc.Codegen.Resolve.{do_codegen-resolves}
use lilc.Codegen.Scope.{Returns, is_some, body_scope, resolves, IsExpr, Offers, Ready, scope}
use lilc.Codegen.{
  Gen, call_llvm, change_llvm, insert_block, codegen_dbl, codegen_var, build_op, proto_function,
  finish_function, codegen_binop, codegen_funccall, fill_function, arm, merge_arms, open_branches,
  codegen_if, name_params, codegen_proto, clear_names, codegen_funcdef, do_codegen,
}
use lilc.Common.{
  ℕ, ◌≡◌, refl, true, not, ◌&&◌, Option, none, some, List, [], ◌∷◌, Bytes, codes, if◌then◌else◌,
}
use lilc.Outcome.{Outcome, ok, fault, exited, Fault}
use lilc.Tests.Machine.{
  Value, function, param, Module, new_module, machine, machine-LlvmLaws, names,
}
use lilc.Tests.{whole}
use lilc.Token.{tok_add}

-- Running a function gives 7.
abbrev pub engine : Engine ℕ Module Value
engine = record {
  new_module = new_module;
  create_error = λ s. none;
  run_function = λ f s. ok 7;
  target_error = none;
  emit_to_file = λ s path. none;
}

run :
    Node ℕ
    → Gen Module (List (Bytes × Value))
    → Outcome (Option Value × Gen Module (List (Bytes × Value)))
unfolding call_llvm change_llvm insert_block codegen_dbl codegen_var build_op proto_function
    finish_function codegen_binop codegen_funccall fill_function arm merge_arms open_branches
    codegen_if name_params codegen_proto clear_names codegen_funcdef do_codegen
run n g = do_codegen machine names n g

emit : Node ℕ → Outcome (Option Bytes)
unfolding run lilc_emit lilc_proto_node_new lilc_funcdef_node_new write_object
emit n = lilc_emit machine names engine [] n (some (codes "out.o"))

eval : Node ℕ → Outcome ℕ
unfolding run lilc_eval
eval n = lilc_eval machine names engine [] n

-- `3;`
emitted : emit (block_node (cons (dbl_node 3) nil)) ≡ ok none
unfolding emit
emitted = refl

-- `x;`
unbound :
    emit (block_node (cons (var_node (codes "x")) nil)) ≡ exited (codes "\nEmit Failed. Exiting.\n")
unfolding emit
unbound = refl

-- `def f() { 1; }; 2;` under `lilc_emit`: the definition leaves the builder in `f`, so that `main`
-- gets no return and is rejected.
nested_def :
    emit (
      block_node (
        cons
          (funcdef_node
            (record { name = codes "f"; params = [] })
            (block_node (cons (dbl_node 1) nil)))
          (cons (dbl_node 2) nil)))
    ≡ exited (codes "\nEmit Failed. Exiting.\n")
unfolding emit
nested_def = refl

-- An empty block under `lilc_emit`.
empty_block : emit (block_node nil) ≡ fault Fault.uninitialised
unfolding emit
empty_block = refl

-- `if (1) { 2; };`
no_else :
    emit (block_node (cons (if_node (dbl_node 1) (block_node (cons (dbl_node 2) nil)) null) nil))
    ≡ fault Fault.null_deref
unfolding emit
no_else = refl

-- `if (1) { 2; } else { 3; };` under `lilc_eval`: there is no block to branch from.
top_level_if :
    eval (
      block_node (
        cons
          (if_node
            (dbl_node 1)
            (block_node (cons (dbl_node 2) nil))
            (block_node (cons (dbl_node 3) nil)))
          nil))
    ≡ fault Fault.null_deref
unfolding eval
top_level_if = refl

no_main : eval (block_node (cons (dbl_node 3) nil)) ≡ exited (codes "Function 'main' not found\n")
unfolding eval
no_main = refl

-- `x`, or the call `f(x)`
abbrev choice : Node ℕ
choice =
    if_node (var_node (codes "x"))
      (block_node (cons (funccall_node (codes "f") (cons (var_node (codes "x")) nil)) nil))
      (block_node (cons (op_bin_node (var_node (codes "x")) (dbl_node 2) tok_add) nil))

choice-IsExpr : IsExpr choice
unfolding IsExpr
choice-IsExpr = (tt, ((tt, tt), tt), ((tt, tt), tt))

-- inside a function `g` with a parameter `x`, after the declaration of a function `f` of one
abbrev inside : Gen Module (List (Bytes × Value))
inside = record {
  llvm = record {
    functions = (codes "f", 1) ∷ [];
    place = some (record { parent = function (codes "g") 1; label = codes "entry" });
    code = [];
  };
  named_vals = (codes "x", param (codes "g") 0) ∷ [];
}

inside-Ready : Ready machine names (scope machine names inside) inside
inside-Ready = record {
  offers = record { bound = λ x. refl; arity = λ n. refl };
  here = (record { parent = function (codes "g") 1; label = codes "entry" }, refl);
}

do_codegen-resolves_example :
    Returns
      (λ v. is_some v ≡ resolves (scope machine names inside) choice)
      (Ready machine names (scope machine names inside))
      (do_codegen machine names choice inside)
do_codegen-resolves_example =
    do_codegen-resolves machine-LlvmLaws names (scope machine names inside) inside choice
      choice-IsExpr inside-Ready

abbrev pub f_proto : Proto
f_proto = record { name = codes "f"; params = codes "x" ∷ [] }

abbrev at_start : Gen Module (List (Bytes × Value))
at_start = record { llvm = new_module (codes "m"); named_vals = [] }

abbrev pub main_def : Proto
main_def = record { name = codes "main"; params = [] }

-- `def f(x)` with the call of `f` in its own body
codegen_funcdef-Defines_example :
    Defines machine-LlvmLaws names
      (body_scope f_proto (λ n. none))
      (function (codes "f") 1)
      (resolves (body_scope f_proto (λ n. none)) choice)
      (do_codegen machine names (funcdef_node f_proto choice) at_start)
codegen_funcdef-Defines_example =
    codegen_funcdef-Defines machine-LlvmLaws names at_start f_proto choice choice-IsExpr refl

abbrev three : Node ℕ
three = dbl_node 3

three-IsExpr : IsExpr three
unfolding IsExpr
three-IsExpr = tt

lilc_emit-resolves_example :
    (g : Gen Module (List (Bytes × Value))) × Offers machine names main_scope g
    × (resolves main_scope three ≡ true → Returned machine-LlvmLaws names g.llvm)
    × (lilc_emit machine names engine [] three (some (codes "out.o")) ≡ (
        if resolves main_scope three
          && not (machine.verify_fails (function (codes "main") 0) g.llvm)
        then write_object engine (some (codes "out.o")) g.llvm
        else exited (codes "\nEmit Failed. Exiting.\n")))
lilc_emit-resolves_example =
    lilc_emit-resolves machine-LlvmLaws names engine [] three (some (codes "out.o")) three-IsExpr
      (λ n. refl)
