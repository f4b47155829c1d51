-- ===== src/Codegen/Execute.antt =====
-- The code that LLVM keeps, and what executing it does, by the LLVM language reference.
pub mod Grows
pub mod Laws
pub mod Gives
pub mod Steps
pub mod Build
pub mod Operations
pub mod Sequences
pub mod Opens
pub mod Arms
pub mod Phi
pub mod Parts
pub mod Branches
pub mod Expressions
pub mod Functions
pub mod Unique
use lilc.Codegen.Interface.{
  Instr, fadd, fsub, fmul, fdiv, fcmp_ult, fcmp_one, ui_to_fp, ret, call, cond_br, br, phi, Llvm,
}
use lilc.Codegen.Meaning.{and_then}
use lilc.Codegen.Semantics.{Arith, or_else, truth}
use lilc.Common.{
  ℕ, zero, suc, ◌+◌, ◌≤◌, ◌<◌, ◌≡◌, Bool, true, false, Option, none, some, List, [], ◌∷◌, ◌++◌,
  length, drop, get_elem?, Bytes, ◌==◌, if◌then◌else◌,
}
use lilc.Double.{Double}

pub data Reg (D : Type 0) : Type 0 where
  num : D → Reg D
  bit : Bool → Reg D

-- A constant, a parameter of the function that runs, the result of an instruction, or a function.
pub data Kind (D : Type 0) : Type 0 where
  constant : Reg D → Kind D
  argument local function : ℕ → Kind D
  other : Kind D

-- Instructions, blocks and functions are numbered in the order in which they are made: `clock`,
-- `blocks` and `functions` are the next numbers. `code` has the instructions of a block, `incoming`
-- the values of a phi by the blocks they come from, and `entry` the first block of a function.
pub record Code (V B : Type 0) : Type 0 where
  pub clock : ℕ
  pub blocks : ℕ
  pub functions : ℕ
  pub code : ℕ → List (ℕ × Instr V B)
  pub incoming : ℕ → List (V × B)
  pub entry : ℕ → Option ℕ

abbrev pub first_block : {D : Type 0} → ℕ → Kind D → ℕ → Option ℕ → Option ℕ
first_block k (function f) j o = if j == f then or_else o (some k) else o
first_block k _ j o = o

module _ {V B : Type 0} where
  -- an instruction at the end of block `k`
  abbrev pub append_instr : ℕ → Instr V B → Code V B → Code V B
  append_instr k i c = record c {
    clock = suc c.clock;
    code = λ j. if j == k then c.code j ++ (c.clock, i) ∷ [] else c.code j;
    incoming = λ j. if j == c.clock then [] else c.incoming j;
  }

  abbrev pub append_incoming : ℕ → V → B → Code V B → Code V B
  append_incoming n v b c = record c {
    incoming = λ j. if j == n then c.incoming j ++ (v, b) ∷ [] else c.incoming j;
  }

  -- an empty block in a function, which is the first one of a function that had none
  abbrev pub append_block : {D : Type 0} → Kind D → Code V B → Code V B
  append_block f c = record c {
    blocks = suc c.blocks;
    code = λ j. if j == c.blocks then [] else c.code j;
    entry = λ j. first_block c.blocks f j (c.entry j);
  }

  -- a function without blocks
  abbrev pub declare_function : Code V B → Code V B
  declare_function c = record c {
    functions = suc c.functions;
    entry = λ j. if j == c.functions then none else c.entry j;
  }

abbrev pub Env : Type 0 → Type 0
Env D = ℕ → Option (Reg D)

abbrev pub set_reg : {D : Type 0} → Env D → ℕ → Reg D → Env D
set_reg env n r = λ k. if k == n then some r else env k

abbrev pub argument_of : {D : Type 0} → Option D → Option (Reg D)
argument_of none = none
argument_of (some x) = some (num x)

abbrev pub operand_of : {D : Type 0} → List D → Env D → Kind D → Option (Reg D)
operand_of args env (constant r) = some r
operand_of args env (argument i) = argument_of (get_elem? args i)
operand_of args env (local n) = env n
operand_of args env _ = none

abbrev pub as_num : {D : Type 0} → Option (Reg D) → Option D
as_num (some (num x)) = some x
as_num _ = none

abbrev pub as_bit : {D : Type 0} → Option (Reg D) → Option Bool
as_bit (some (bit b)) = some b
as_bit _ = none

-- What is behind LLVM's state, seen by its numbers.
pub record View (D S V B : Type 0) : Type 0 where
  pub kind : V → Kind D
  pub number : B → ℕ
  pub look : S → Code V B

module _ {D S V B : Type 0} ⦃dbl : Double D⦄ (ar : Arith D) (view : View D S V B) where
  abbrev pub operand : List D → Env D → V → Option (Reg D)
  operand args env v = operand_of args env (view.kind v)

  abbrev pub number_of : List D → V → Env D → Option D
  number_of args v env = as_num (operand args env v)

  abbrev pub bit_of : List D → V → Env D → Option Bool
  bit_of args v env = as_bit (operand args env v)

  abbrev pub numbers_of : List D → List V → Env D → Option (List D)
  numbers_of args [] env = some []
  numbers_of args (v ∷ vs) env =
      and_then (number_of args v env) λ x. and_then (numbers_of args vs env) λ xs. some (x ∷ xs)

  abbrev pub on_numbers : List D → Env D → (D → D → Reg D) → V → V → Option (Reg D)
  on_numbers args env f a b =
      and_then (number_of args a env) λ x. and_then (number_of args b env) λ y. some (f x y)

  -- The result of an instruction that only computes.
  abbrev pub compute : List D → Env D → Instr V B → Option (Reg D)
  compute args env (fadd a b name) = on_numbers args env (λ x y. num (ar.add x y)) a b
  compute args env (fsub a b name) = on_numbers args env (λ x y. num (ar.sub x y)) a b
  compute args env (fmul a b name) = on_numbers args env (λ x y. num (ar.mul x y)) a b
  compute args env (fdiv a b name) = on_numbers args env (λ x y. num (ar.div x y)) a b
  compute args env (fcmp_ult a b name) = on_numbers args env (λ x y. bit (ar.ult x y)) a b
  compute args env (fcmp_one a b name) = on_numbers args env (λ x y. bit (ar.one x y)) a b
  compute args env (ui_to_fp a name) = and_then (bit_of args a env) λ t. some (num (truth ar t))
  compute args env _ = none

  -- The value that a phi takes behind the block `prev`.
  abbrev pub from_block : ℕ → List (V × B) → Option V
  from_block prev [] = none
  from_block prev ((v, b) ∷ more) = if view.number b == prev then some v else from_block prev more

  -- In a function of the module `m` with the arguments `args`, the instructions `rest` of the block
  -- `here`, which was entered from `prev`, return `d`. `Call` says what calls give.
  pub data Exec (m : Code V B) (Call : V → List D → D → Type 0) (args : List D)
      : ℕ → ℕ → Env D → List (ℕ × Instr V B) → D → Type 0 where
    computes :
        {prev here n : ℕ} {env : Env D} {i : Instr V B} {rest : List (ℕ × Instr V B)} {d : D}
        (r : Reg D)
        → compute args env i ≡ some r
        → Exec m Call args prev here (set_reg env n r) rest d
        → Exec m Call args prev here env ((n, i) ∷ rest) d
    calls :
        {prev here n : ℕ} {env : Env D} {f : V} {vs : List V} {name : Bytes}
        {rest : List (ℕ × Instr V B)} {d : D} (xs : List D) (y : D)
        → numbers_of args vs env ≡ some xs
        → Call f xs y
        → Exec m Call args prev here (set_reg env n (num y)) rest d
        → Exec m Call args prev here env ((n, call f vs name) ∷ rest) d
    picks :
        {prev here n : ℕ} {env : Env D} {name : Bytes} {rest : List (ℕ × Instr V B)} {d : D} (v : V)
        (x : D)
        → from_block prev (m.incoming n) ≡ some v
        → number_of args v env ≡ some x
        → Exec m Call args prev here (set_reg env n (num x)) rest d
        → Exec m Call args prev here env ((n, phi name) ∷ rest) d
    jumps :
        {prev here n : ℕ} {env : Env D} {b : B} {rest : List (ℕ × Instr V B)} {d : D}
        → Exec m Call args here (view.number b) env (m.code (view.number b)) d
        → Exec m Call args prev here env ((n, br b) ∷ rest) d
    branches :
        {prev here n : ℕ} {env : Env D} {c : V} {b1 b2 : B} {rest : List (ℕ × Instr V B)} {d : D}
        (t : Bool)
        → bit_of args c env ≡ some t
        → Exec m Call args here
            (view.number (if t then b1 else b2))
            env
            (m.code (view.number (if t then b1 else b2)))
            d
        → Exec m Call args prev here env ((n, cond_br c b1 b2) ∷ rest) d
    returns_num :
        {prev here n : ℕ} {env : Env D} {v : V} {rest : List (ℕ × Instr V B)} {d : D}
        → number_of args v env ≡ some d
        → Exec m Call args prev here env ((n, ret v) ∷ rest) d

  -- A call of a function gives `d`, with calls nested at most `k` deep.
  unfoldable pub Calls : Code V B → ℕ → V → List D → D → Type 0
  Calls m zero f xs d = ⊥
  Calls m (suc k) f xs d =
      (n : ℕ) × (e : ℕ) × (view.kind f ≡ function n)
      × (m.entry n ≡ some e)
      × Exec m (Calls m k) xs 0 e (λ j. none) (m.code e) d
