-- ===== src/Codegen/Interface.antt =====
-- What src/codegen.c uses of LLVM's C interface and of libcfu's hash table, with the documented
-- behaviour that it relies on. `S` is the state that LLVM keeps: the module and the builder's place.
use lilc.Common.{ℕ, ◌≡◌, ◌≢◌, ◌∙◌, refl, Bool, Option, none, some, List, Bytes}

-- The instructions that `LLVMBuild…` functions append at the builder's place; texts are name hints.
pub data Instr (V B : Type 0) : Type 0 where
  fadd fsub fmul fdiv : V → V → Bytes → Instr V B
  fcmp_ult fcmp_one : V → V → Bytes → Instr V B
  ui_to_fp : V → Bytes → Instr V B
  ret : V → Instr V B
  call : V → List V → Bytes → Instr V B
  cond_br : V → B → B → Instr V B
  br : B → Instr V B
  phi : Bytes → Instr V B

-- `V` holds values and functions, `B` basic blocks. All parameters and results are doubles.
pub record Llvm (D S V B : Type 0) : Type 0 where
  pub const_real : D → V
  pub build : Instr V B → S → V × S
  pub get_named_function : Bytes → S → Option V
  pub count_params : V → S → ℕ
  pub count_basic_blocks : V → S → ℕ
  pub add_function : Bytes → ℕ → S → V × S
  pub set_external_linkage : V → S → S
  pub get_param : V → ℕ → S → V
  pub set_value_name : V → Bytes → S → S
  pub append_basic_block : V → Bytes → S → B × S
  pub position_at_end : B → S → S
  pub get_insert_block : S → Option B
  pub get_block_parent : B → S → V
  pub add_incoming : V → V → B → S → S
  pub delete_function : V → S → S
  pub verify_fails : V → S → Bool

-- The same functions with the same numbers of parameters.
pub record SameFunctions {D S V B : Type 0} (api : Llvm D S V B) (s s' : S) : Type 0 where
  pub named : (n : Bytes) → api.get_named_function n s' ≡ api.get_named_function n s
  pub params : (f : V) → api.count_params f s' ≡ api.count_params f s

module _ {D S V B : Type 0} (api : Llvm D S V B) where
  pub same_refl : (s : S) → SameFunctions api s s
  same_refl s = record { named = λ n. refl; params = λ f. refl }

  pub same_trans :
      {s t u : S} → SameFunctions api s t → SameFunctions api t u → SameFunctions api s u
  same_trans a b = record {
    named = λ n. b.named n ∙ a.named n;
    params = λ f. b.params f ∙ a.params f;
  }

-- The builder stands where it was put until it is moved; instructions, blocks and names of values
-- do not change which functions there are; a function that is added is found by its name.
pub record LlvmLaws {D S V B : Type 0} (api : Llvm D S V B) : Type 0 where
  pub place-position : (b : B) (s : S) → api.get_insert_block (api.position_at_end b s) ≡ some b
  pub place-build :
      (i : Instr V B) (s : S) → api.get_insert_block (api.build i s).1 ≡ api.get_insert_block s
  pub place-append :
      (f : V) (name : Bytes) (s : S)
      → api.get_insert_block (api.append_basic_block f name s).1 ≡ api.get_insert_block s
  pub place-incoming :
      (p v : V) (b : B) (s : S)
      → api.get_insert_block (api.add_incoming p v b s) ≡ api.get_insert_block s
  pub same-position : (b : B) (s : S) → SameFunctions api s (api.position_at_end b s)
  pub same-build : (i : Instr V B) (s : S) → SameFunctions api s (api.build i s).1
  pub same-append :
      (f : V) (name : Bytes) (s : S) → SameFunctions api s (api.append_basic_block f name s).1
  pub same-incoming : (p v : V) (b : B) (s : S) → SameFunctions api s (api.add_incoming p v b s)
  pub same-linkage : (f : V) (s : S) → SameFunctions api s (api.set_external_linkage f s)
  pub same-value_name : (v : V) (n : Bytes) (s : S) → SameFunctions api s (api.set_value_name v n s)
  pub named-add_self :
      (n : Bytes) (k : ℕ) (s : S)
      → api.get_named_function n s ≡ none
      → api.get_named_function n (api.add_function n k s).1 ≡ some (api.add_function n k s).0
  pub named-add_ne :
      (n m : Bytes) (k : ℕ) (s : S)
      → api.get_named_function n s ≡ none
      → m ≢ n
      → api.get_named_function m (api.add_function n k s).1 ≡ api.get_named_function m s
  pub params-add_self :
      (n : Bytes) (k : ℕ) (s : S)
      → api.count_params (api.add_function n k s).0 (api.add_function n k s).1 ≡ k
  pub params-add_old :
      (n m : Bytes) (k : ℕ) (f : V) (s : S)
      → api.get_named_function m s ≡ some f
      → api.count_params f (api.add_function n k s).1 ≡ api.count_params f s

-- `cfuhash_get`, `cfuhash_put` and `cfuhash_clear`: a map from names to values.
pub record NamedVals (T V : Type 0) : Type 0 where
  pub get : T → Bytes → Option V
  pub put : T → Bytes → V → T
  pub clear : T → T
  pub get-clear : (t : T) (k : Bytes) → get (clear t) k ≡ none
  pub get-put_self : (t : T) (k : Bytes) (v : V) → get (put t k v) k ≡ some v
  pub get-put_ne : (t : T) (k j : Bytes) (v : V) → j ≢ k → get (put t k v) j ≡ get t j
