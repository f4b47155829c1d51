-- ===== src/Tests/Recorder.antt =====
-- A stand-in for LLVM that keeps the code that is built, and executes by its laws.
use lilc.Codegen.Execute.{
  num, Kind, constant, argument, local, function, Code, append_instr, append_incoming, append_block,
  View,
}
use lilc.Codegen.Execute.Laws.{emitted, CodeLaws}
use lilc.Codegen.Interface.{Instr, Llvm, SameFunctions, LlvmLaws}
use lilc.Codegen.Scope.{is_name, is_name-eq, is_name_self}
use lilc.Codegen.Semantics.{Arith}
use lilc.Common.{
  some_inj, ℕ, suc, ◌+◌, ◌-◌, ◌*◌, ◌<◌, ◌≡◌, ◌≢◌, refl, sym, ap, Bool, true, false, not, Option,
  none, some, List, [], ◌∷◌, length, Bytes, Bool-cases, inl, inr, ltb, ◌==◌, if◌then◌else◌, arith,
}
use lilc.Double.{Double}

-- A function has its name, the number of its parameters, and its own number.
pub data Value : Type 0 where
  real : ℕ → Value
  param result : ℕ → Value
  defined : Bytes → ℕ → ℕ → Value

pub record Block : Type 0 where
  pub index : ℕ
  pub parent : Value

-- The functions, the last one first.
pub record Module : Type 0 where
  pub functions : List (Bytes × ℕ)
  pub place : Option Block
  pub code : Code Value Block

abbrev pub new_module : Bytes → Module
new_module name = record {
  functions = [];
  place = none;
  code = record {
    clock = 0;
    blocks = 0;
    functions = 0;
    code = λ j. [];
    incoming = λ j. [];
    entry = λ j. none;
  };
}

abbrev kind_of : Value → Kind ℕ
kind_of (real x) = constant (num x)
kind_of (param i) = argument i
kind_of (result n) = local n
kind_of (defined name k i) = function i

abbrev find : List (Bytes × ℕ) → Bytes → Option Value
find [] n = none
find ((m, k) ∷ fs) n = if is_name n m then some (defined n k (length fs)) else find fs n

abbrev params_of : Value → ℕ
params_of (defined name k i) = k
params_of _ = 0

abbrev append_at : Option Block → Instr Value Block → Code Value Block → Code Value Block
append_at none i c = c
append_at (some b) i c = append_instr b.index i c

abbrev incoming_at : Value → Value → Block → Code Value Block → Code Value Block
incoming_at (result n) v b c = append_incoming n v b c
incoming_at _ v b c = c

abbrev declare_at : ℕ → Code Value Block → Code Value Block
declare_at i c = record c { entry = λ j. if j == i then none else c.entry j }

abbrev pub recorder : Llvm ℕ Module Value Block
recorder = record {
  const_real = real;
  build = λ i s. (result s.code.clock, record s { code = append_at s.place i s.code });
  get_named_function = λ n s. find s.functions n;
  count_params = λ f s. params_of f;
  count_basic_blocks = λ f s. 0;
  add_function = λ n k s. (
    defined n k (length s.functions),
    record s { functions = (n, k) ∷ s.functions; code = declare_at (length s.functions) s.code },
  );
  set_external_linkage = λ f s. s;
  get_param = λ f i s. param i;
  set_value_name = λ v n s. s;
  append_basic_block = λ f n s. (
    record { index = s.code.blocks; parent = f },
    record s { code = append_block (kind_of f) s.code },
  );
  position_at_end = λ b s. record s { place = some b };
  get_insert_block = λ s. s.place;
  get_block_parent = λ b s. b.parent;
  add_incoming = λ p v b s. record s { code = incoming_at p v b s.code };
  delete_function = λ f s. s;
  verify_fails = λ f s. false;
}

abbrev pub recorded : View ℕ Module Value Block
recorded = record {
  kind = kind_of;
  number = λ b. b.index;
  look = λ s. record s.code { functions = length s.functions };
}

abbrev pub naturals : Arith ℕ
naturals = record {
  add = λ a b. a + b;
  sub = λ a b. a - b;
  mul = λ a b. a * b;
  div = λ a b. 0;
  ult = ltb;
  one = λ a b. not (a == b);
}

same : {s t : Module} → t.functions ≡ s.functions → SameFunctions recorder s t
same e = record { named = λ n. ap (λ fs. find fs n) e; params = λ f. refl }

find-cons_ne :
    (n m : Bytes) (k : ℕ) (fs : List (Bytes × ℕ)) → m ≢ n → find ((n, k) ∷ fs) m ≡ find fs m
find-cons_ne n m k fs ne = elim (Bool-cases (is_name m n)) [
  | inl e ↦ absurd (ne (is_name-eq m n e))
  | inr e ↦ ap (λ b. if b then some (defined m k (length fs)) else find fs m) e
]

pub recorder-LlvmLaws : LlvmLaws recorder
recorder-LlvmLaws = record {
  place-position = λ b s. refl;
  place-build = λ i s. refl;
  place-append = λ f n s. refl;
  place-incoming = λ p v b s. refl;
  same-position = λ b s. same refl;
  same-build = λ i s. same refl;
  same-append = λ f n s. same refl;
  same-incoming = λ p v b s. same refl;
  same-linkage = λ f s. same refl;
  same-value_name = λ v n s. same refl;
  named-add_self = λ n k s h.
      ap (λ b. if b then some (defined n k (length s.functions)) else find s.functions n)
        (is_name_self n);
  named-add_ne = λ n m k s h ne. find-cons_ne n m k s.functions ne;
  params-add_self = λ n k s. refl;
  params-add_old = λ n m k f s h. refl;
}

find-kind :
    (name : Bytes) (fs : List (Bytes × ℕ)) (f : Value)
    → find fs name ≡ some f
    → (n : ℕ) × (kind_of f ≡ function n) × (n < length fs)
find-kind name [] f e = cc
find-kind name ((m, k) ∷ fs) f e = go (is_name name m) (λ e. find-kind name fs f e) e
  where
    go :
        (b : Bool)
        → (find fs name ≡ some f → (n : ℕ) × (kind_of f ≡ function n) × (n < length fs))
        → (if b then some (defined name k (length fs)) else find fs name) ≡ some f
        → (n : ℕ) × (kind_of f ≡ function n) × (n < suc (length fs))
    go true older e = (length fs, ap kind_of (sym (some_inj e)), omega arith)
    go false older e = let (n, is_function, l) = older e in (n, is_function, omega (arith, l))

incoming-kind :
    (p v : Value) (b : Block) (c : Code Value Block) (n : ℕ)
    → kind_of p ≡ local n
    → incoming_at p v b c ≡ append_incoming n v b c
incoming-kind (real x) v b c n e = cc
incoming-kind (param i) v b c n e = cc
incoming-kind (defined name k i) v b c n e = cc
incoming-kind (result m) v b c n e = ap (λ n. append_incoming n v b c) (ap number e)
  where
    number : Kind ℕ → ℕ
    number (local n) = n
    number _ = 0

abbrev looked : Module → Code Value Block → Code Value Block
looked s c = record c { functions = length s.functions }

module _ ⦃dbl : Double ℕ⦄ where
  pub recorder-CodeLaws : CodeLaws naturals recorded recorder
  recorder-CodeLaws = record {
    kind-real = λ x. refl;
    kind-param = λ f i s. refl;
    kind-named = λ name s f e. find-kind name s.functions f e;
    kind-add = λ name k s. refl;
    look-add = λ name k s. refl;
    look-build = λ i s b h. emitted refl (ap (λ o. looked s (append_at o i s.code)) h);
    number-append = λ f name s. refl;
    look-append = λ f name s. refl;
    look-incoming = λ p v b s n e. ap (looked s) (incoming-kind p v b s.code n e);
    look-position = λ b s. refl;
    look-linkage = λ f s. refl;
    look-value_name = λ v name s. refl;
  }
