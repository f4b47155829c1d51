-- ===== src/Codegen/Execute/Laws.antt =====
-- What LLVM's functions do to the code that it keeps: the code generator relies on this.
use lilc.Codegen.Execute.{
  Reg, num, constant, argument, local, function, append_instr, append_incoming, append_block,
  declare_function, Env, View, compute,
}
use lilc.Codegen.Interface.{Instr, Llvm}
use lilc.Codegen.Semantics.{Arith}
use lilc.Common.{ℕ, ◌<◌, ◌≡◌, some, List, Bytes}
use lilc.Double.{Double}

module _ {D S V B : Type 0} ⦃dbl : Double D⦄ (ar : Arith D) (view : View D S V B) where
  -- What `LLVMBuild…` does in the block `b`: it appends the instruction, or it gives the constant
  -- that the instruction computes whatever the arguments and registers are.
  pub data Built (b : B) (i : Instr V B) (s : S) (v : V) (s' : S) : Type 0 where
    emitted :
        view.kind v ≡ local (view.look s).clock
        → view.look s' ≡ append_instr (view.number b) i (view.look s)
        → Built b i s v s'
    folded :
        (r : Reg D)
        → view.kind v ≡ constant r
        → view.look s' ≡ view.look s
        → ((args : List D) (env : Env D) → compute ar view args env i ≡ some r)
        → Built b i s v s'

-- LLVM's functions, seen by the code that they make.
pub record CodeLaws {D S V B : Type 0} ⦃dbl : Double D⦄ (ar : Arith D) (view : View D S V B)
    (api : Llvm D S V B) : Type 0 where
  pub kind-real : (x : D) → view.kind (api.const_real x) ≡ constant (num x)
  pub kind-param : (f : V) (i : ℕ) (s : S) → view.kind (api.get_param f i s) ≡ argument i
  pub kind-named :
      (name : Bytes) (s : S) (f : V)
      → api.get_named_function name s ≡ some f
      → (n : ℕ) × (view.kind f ≡ function n) × (n < (view.look s).functions)
  pub kind-add :
      (name : Bytes) (k : ℕ) (s : S)
      → view.kind (api.add_function name k s).0 ≡ function (view.look s).functions
  pub look-add :
      (name : Bytes) (k : ℕ) (s : S)
      → view.look (api.add_function name k s).1 ≡ declare_function (view.look s)
  pub look-build :
      (i : Instr V B) (s : S) (b : B)
      → api.get_insert_block s ≡ some b
      → Built ar view b i s (api.build i s).0 (api.build i s).1
  pub number-append :
      (f : V) (name : Bytes) (s : S)
      → view.number (api.append_basic_block f name s).0 ≡ (view.look s).blocks
  pub look-append :
      (f : V) (name : Bytes) (s : S)
      → view.look (api.append_basic_block f name s).1 ≡ append_block (view.kind f) (view.look s)
  pub look-incoming :
      (p v : V) (b : B) (s : S) (n : ℕ)
      → view.kind p ≡ local n
      → view.look (api.add_incoming p v b s) ≡ append_incoming n v b (view.look s)
  pub look-position : (b : B) (s : S) → view.look (api.position_at_end b s) ≡ view.look s
  pub look-linkage : (f : V) (s : S) → view.look (api.set_external_linkage f s) ≡ view.look s
  pub look-value_name :
      (v : V) (name : Bytes) (s : S) → view.look (api.set_value_name v name s) ≡ view.look s
