-- ===== src/Tests/Values.antt =====
-- The value of generated code, over a stand-in for LLVM that computes each instruction at once.
use lilc.Ast.{Node, dbl_node, var_node, op_bin_node, funccall_node, nil, cons}
use lilc.Codegen.Interface.{Instr, fadd, fsub, fmul, fdiv, fcmp_ult, ui_to_fp, call, Llvm}
use lilc.Codegen.Scope.{Returns}
use lilc.Codegen.Meaning.{Meaning, MeaningLaws, Names, and_then, eval, Means}
use lilc.Codegen.Value.{do_codegen-eval}
use lilc.Codegen.{Gen, do_codegen}
use lilc.Common.{
  ℕ, ◌+◌, ◌*◌, ◌-◌, ◌≡◌, refl, none, some, List, [], ◌∷◌, map, length, Bytes, codes, ltb,
  if◌then◌else◌,
}
use lilc.Tests.Machine.{Value, Block, number, Module, machine_with, machine_with-LlvmLaws, names}
use lilc.Tests.{whole}
use lilc.Token.{tok_sub, tok_cmplt}

abbrev value_of : Value → ℕ
value_of (number n) = n
value_of _ = 0

-- Each function gives the number of its arguments.
abbrev numbers : Meaning ℕ Value
numbers = record {
  value_of = value_of;
  apply = λ f xs. length xs;
  add = λ a b. a + b;
  sub = λ a b. a - b;
  mul = λ a b. a * b;
  div = λ a b. a;
  below = λ a b. if ltb a b then 1 else 0;
}

abbrev computed : Instr Value Block → Value
computed (fadd a b name) = number (value_of a + value_of b)
computed (fsub a b name) = number (value_of a - value_of b)
computed (fmul a b name) = number (value_of a * value_of b)
computed (fdiv a b name) = number (value_of a)
computed (fcmp_ult a b name) = number (if ltb (value_of a) (value_of b) then 1 else 0)
computed (ui_to_fp a name) = a
computed (call f vs name) = number (length (map value_of vs))
computed _ = number 0

abbrev calculator : Llvm ℕ Module Value Block
calculator = machine_with (λ i s. computed i)

calculator-MeaningLaws : MeaningLaws calculator numbers
calculator-MeaningLaws = record {
  of_real = λ x. refl;
  of_add = λ a b name s. refl;
  of_sub = λ a b name s. refl;
  of_mul = λ a b name s. refl;
  of_div = λ a b name s. refl;
  of_below = λ a b name hint s t. refl;
  of_call = λ f vs name s. refl;
}

-- where a function `f` of one parameter is declared and `x` is 5
abbrev here : Gen Module (List (Bytes × Value))
here = record {
  llvm = record { functions = (codes "f", 1) ∷ []; place = none; code = [] };
  named_vals = (codes "x", number 5) ∷ [];
}

abbrev there : Names ℕ Value
there = record {
  variable = λ x. and_then (names.get here.named_vals x) (λ v. some (value_of v));
  function = λ n. calculator.get_named_function n here.llvm;
  params = λ f. calculator.count_params f here.llvm;
}

-- `x - 3 - f(2) < 2`
abbrev difference : Node ℕ
difference =
    op_bin_node
      (op_bin_node (op_bin_node (var_node (codes "x")) (dbl_node 3) tok_sub)
        (funccall_node (codes "f") (cons (dbl_node 2) nil)) tok_sub)
      (dbl_node 2) tok_cmplt

is_one : eval numbers there difference ≡ some 1
unfolding eval
is_one = refl

do_codegen-eval_example :
    Returns
      (λ o. (v : Value) × (o ≡ some v) × (value_of v ≡ 1))
      (Means calculator names numbers there)
      (do_codegen calculator names difference here)
do_codegen-eval_example =
    do_codegen-eval (machine_with-LlvmLaws (λ i s. computed i)) names calculator-MeaningLaws there
      difference here (record { variables = λ x. refl; functions = λ n. refl; counts = λ f. refl })
      is_one
