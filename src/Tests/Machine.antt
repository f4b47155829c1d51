-- ===== src/Tests/Machine.antt =====
-- A small stand-in for LLVM and for the hash table: enough of each to run the code generator.
use lilc.Codegen.Interface.{Instr, ret, Llvm, SameFunctions, LlvmLaws, NamedVals}
use lilc.Codegen.Scope.{is_name, is_name-eq, is_name_self}
use lilc.Common.{
  ℕ, ◌≡◌, ◌≢◌, refl, Bool, true, false, not, ap, Option, none, some, List, [], ◌∷◌, length, Bytes,
  Bool-cases, inl, inr, if◌then◌else◌,
}

pub data Value : Type 0 where
  number : ℕ → Value
  function : Bytes → ℕ → Value
  param : Bytes → ℕ → Value
  result : ℕ → Value

pub record Block : Type 0 where
  pub parent : Value
  pub label : Bytes

-- `code` holds the instructions with their blocks, the last one first.
pub record Module : Type 0 where
  pub functions : List (Bytes × ℕ)
  pub place : Option Block
  pub code : List (Option Block × Instr Value Block)

abbrev pub new_module : Bytes → Module
new_module name = record { functions = []; place = none; code = [] }

abbrev find : {A : Type 0} → List (Bytes × A) → Bytes → Option A
find [] n = none
find ((m, a) ∷ l) n = if is_name n m then some a else find l n

abbrev named : Bytes → Option ℕ → Option Value
named n none = none
named n (some k) = some (function n k)

abbrev params_of : Value → ℕ
params_of (function n k) = k
params_of _ = 0

abbrev param_of : Value → ℕ → Value
param_of (function n k) i = param n i
param_of _ i = number 0

abbrev same_function : Value → Value → Bool
same_function (function n k) (function m j) = is_name n m
same_function _ _ = false

abbrev is_in : Value → Option Block → Bool
is_in f none = false
is_in f (some b) = same_function f b.parent

abbrev is_ret : Instr Value Block → Bool
is_ret (ret v) = true
is_ret _ = false

-- A function is sound if its last instruction returns.
abbrev ends_badly : Value → List (Option Block × Instr Value Block) → Bool
ends_badly f [] = true
ends_badly f ((b, i) ∷ code) = if is_in f b then not (is_ret i) else ends_badly f code

-- `made` is the value of an instruction.
abbrev pub machine_with : (Instr Value Block → Module → Value) → Llvm ℕ Module Value Block
machine_with made = record {
  const_real = number;
  build = λ i s. (made i s, record s { code = (s.place, i) ∷ s.code });
  get_named_function = λ n s. named n (find s.functions n);
  count_params = λ f s. params_of f;
  count_basic_blocks = λ f s. 0;
  add_function = λ n k s. (function n k, record s { functions = (n, k) ∷ s.functions });
  set_external_linkage = λ f s. s;
  get_param = λ f i s. param_of f i;
  set_value_name = λ v n s. s;
  append_basic_block = λ f n s. (record { parent = f; label = n }, s);
  position_at_end = λ b s. record s { place = some b };
  get_insert_block = λ s. s.place;
  get_block_parent = λ b s. b.parent;
  add_incoming = λ p v b s. s;
  delete_function = λ f s. s;
  verify_fails = λ f s. ends_badly f s.code;
}

abbrev pub machine : Llvm ℕ Module Value Block
machine = machine_with (λ i s. result (length s.code))

same :
    (made : Instr Value Block → Module → Value) {s t : Module}
    → t.functions ≡ s.functions
    → SameFunctions (machine_with made) s t
same made e = record { named = λ n. ap (λ fs. named n (find fs n)) e; params = λ f. refl }

pub machine_with-LlvmLaws :
    (made : Instr Value Block → Module → Value) → LlvmLaws (machine_with made)
machine_with-LlvmLaws made = record {
  place-position = λ b s. refl;
  place-build = λ i s. refl;
  place-append = λ f n s. refl;
  place-incoming = λ p v b s. refl;
  same-position = λ b s. same made refl;
  same-build = λ i s. same made refl;
  same-append = λ f n s. same made refl;
  same-incoming = λ p v b s. same made refl;
  same-linkage = λ f s. same made refl;
  same-value_name = λ v n s. same made refl;
  named-add_self =
      λ n k s h. ap (λ b. named n (if b then some k else find s.functions n)) (is_name_self n);
  named-add_ne = λ n m k s h ne. added n m k s ne;
  params-add_self = λ n k s. refl;
  params-add_old = λ n m k f s h. refl;
}
  where
    added :
        (n m : Bytes) (k : ℕ) (s : Module)
        → m ≢ n
        → named m (find ((n, k) ∷ s.functions) m) ≡ named m (find s.functions m)
    added n m k s ne = elim (Bool-cases (is_name m n)) [
      | inl e ↦ absurd (ne (is_name-eq m n e))
      | inr e ↦ ap (λ b. named m (if b then some k else find s.functions m)) e
    ]

pub machine-LlvmLaws : LlvmLaws machine
machine-LlvmLaws = machine_with-LlvmLaws (λ i s. result (length s.code))

abbrev pub named_values : (V : Type 0) → NamedVals (List (Bytes × V)) V
named_values V = record {
  get = find;
  put = λ t k v. (k, v) ∷ t;
  clear = λ t. [];
  get-clear = λ t k. refl;
  get-put_self = λ t k v. ap (λ b. if b then some v else find t k) (is_name_self k);
  get-put_ne = λ t k j v ne. elim (Bool-cases (is_name j k)) [
    | inl e ↦ absurd (ne (is_name-eq j k e))
    | inr e ↦ ap (λ b. if b then some v else find t j) e
  ];
}

abbrev pub names : NamedVals (List (Bytes × Value)) Value
names = named_values Value
