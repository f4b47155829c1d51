-- ===== src/Outcome.antt =====
-- How a run of the C code ends, and the state monad that threads the structs it mutates.
-- `died` is `die` of src/util.c: the message goes to stderr and the process exits with status 1.
-- `exited` is a message to stderr and `exit(1)` with no source position.
-- `fault` is undefined behaviour, named for what goes wrong. `out_of_fuel` has no counterpart in
-- the program.
use lilc.Common.{ℕ, ◌≡◌, refl, ◌≢◌, Bool, true, false, Bytes, subst, if◌then◌else◌}

-- `out_of_bounds`: a read past the end of the source buffer. `buffer_overflow`: a write past the end
-- of a local array. `bad_table_index`: a read past the end of `vtables`. `null_deref`: a member of a
-- NULL node. `wrong_member`: a union member other than the one written last. `wrong_node`: a node
-- read through a struct of another type.
-- `uninitialised`: a pointer that nothing has set.
pub data Fault : Type 0 where
  out_of_bounds buffer_overflow bad_table_index null_deref wrong_member wrong_node : Fault
  uninitialised : Fault

pub data Outcome {ℓ} (A : Type ℓ) : Type ℓ where
  ok : A → Outcome A
  died : Bytes → ℕ → Bytes → Outcome A
  exited : Bytes → Outcome A
  fault : Fault → Outcome A
  out_of_fuel : Outcome A

abbrev pub bind {ℓ κ} : {A : Type ℓ} {B : Type κ} → Outcome A → (A → Outcome B) → Outcome B
bind (ok a) f = f a
bind (died file line msg) f = died file line msg
bind (exited msg) f = exited msg
bind (fault e) f = fault e
bind out_of_fuel f = out_of_fuel

-- An operation on a state that the C code reaches through a pointer.
abbrev pub M {ℓ κ} : Type ℓ → Type κ → Type (ℓ ⊔ κ)
M S A = S → Outcome (A × S)

module _ {ℓ} {S : Type ℓ} where
  abbrev pub pure : {A : Type ℓ} → A → M S A
  pure a s = ok (a, s)

  infixl 1 ◌>>=◌ ◌>>◌
  abbrev pub ◌>>=◌ : {A B : Type ℓ} → M S A → (A → M S B) → M S B
  m >>= f = λ s. bind (m s) λ (a, s'). f a s'

  abbrev pub ◌>>◌ : {A B : Type ℓ} → M S A → M S B → M S B
  m >> k = m >>= λ _. k

-- The run kept within its fuel; `F` holds of its fault if there was one, `P` of its result.
pub data Ensures {ℓ κ} {A : Type ℓ} (F : Fault → Type 0) (P : A → Type κ)
    : Outcome A → Type (ℓ ⊔ κ) where
  holds : {a : A} → P a → Ensures F P (ok a)
  exits : {file : Bytes} {line : ℕ} {msg : Bytes} → Ensures F P (died file line msg)
  aborts : {msg : Bytes} → Ensures F P (exited msg)
  faults : {e : Fault} → F e → Ensures F P (fault e)

module _ {ℓ κ} {A : Type ℓ} {F : Fault → Type 0} {P : A → Type κ} where
  pub Ensures-ok : {r : Outcome A} {a : A} → Ensures F P r → r ≡ ok a → P a
  Ensures-ok (holds h) e = subst P (cc) h
  Ensures-ok exits e = cc
  Ensures-ok aborts e = cc
  Ensures-ok (faults h) e = cc

  pub Ensures-fault : {r : Outcome A} {x : Fault} → Ensures F P r → r ≡ fault x → F x
  Ensures-fault (holds h) e = cc
  Ensures-fault exits e = cc
  Ensures-fault aborts e = cc
  Ensures-fault (faults h) e = subst F (cc) h

  pub Ensures-fuel : {r : Outcome A} → Ensures F P r → r ≢ out_of_fuel
  Ensures-fuel (holds h) = cc
  Ensures-fuel exits = cc
  Ensures-fuel aborts = cc
  Ensures-fuel (faults h) = cc

  pub Ensures-if :
      (b : Bool) {x y : Outcome A}
      → (b ≡ true → Ensures F P x)
      → (b ≡ false → Ensures F P y)
      → Ensures F P (if b then x else y)
  Ensures-if true hx hy = hx refl
  Ensures-if false hx hy = hy refl

  pub Ensures-bind {ℓ' κ'} :
      {B : Type ℓ'} {G : Fault → Type 0} {Q : B → Type κ'} {r : Outcome A} {f : A → Outcome B}
      → Ensures F P r
      → ((e : Fault) → F e → G e)
      → ((a : A) → P a → Ensures G Q (f a))
      → Ensures G Q (bind r f)
  Ensures-bind (holds {a} h) w k = k a h
  Ensures-bind exits w k = exits
  Ensures-bind aborts w k = aborts
  Ensures-bind (faults {e} h) w k = faults (w e h)

  pub Ensures-map {κ'} :
      {G : Fault → Type 0} {Q : A → Type κ'} {r : Outcome A}
      → Ensures F P r
      → ((e : Fault) → F e → G e)
      → ((a : A) → P a → Q a)
      → Ensures G Q r
  Ensures-map (holds {a} h) w k = holds (k a h)
  Ensures-map exits w k = exits
  Ensures-map aborts w k = aborts
  Ensures-map (faults {e} h) w k = faults (w e h)

-- The run gave a result; `F` holds of its fault if there was one, `P` of its result. It did not stop
-- with a message.
pub data Yields {ℓ κ} {A : Type ℓ} (F : Fault → Type 0) (P : A → Type κ)
    : Outcome A → Type (ℓ ⊔ κ) where
  yields : {a : A} → P a → Yields F P (ok a)
  misses : {e : Fault} → F e → Yields F P (fault e)

module _ {ℓ κ} {A : Type ℓ} {F : Fault → Type 0} {P : A → Type κ} where
  pub Yields-if :
      (b : Bool) {x y : Outcome A}
      → (b ≡ true → Yields F P x)
      → (b ≡ false → Yields F P y)
      → Yields F P (if b then x else y)
  Yields-if true hx hy = hx refl
  Yields-if false hx hy = hy refl

  pub Yields-bind {ℓ' κ'} :
      {B : Type ℓ'} {G : Fault → Type 0} {Q : B → Type κ'} {r : Outcome A} {f : A → Outcome B}
      → Yields F P r
      → ((e : Fault) → F e → G e)
      → ((a : A) → P a → Yields G Q (f a))
      → Yields G Q (bind r f)
  Yields-bind (yields {a} h) w k = k a h
  Yields-bind (misses {e} h) w k = misses (w e h)

  pub Yields-map {κ'} :
      {G : Fault → Type 0} {Q : A → Type κ'} {r : Outcome A}
      → Yields F P r
      → ((e : Fault) → F e → G e)
      → ((a : A) → P a → Q a)
      → Yields G Q r
  Yields-map (yields {a} h) w k = yields (k a h)
  Yields-map (misses {e} h) w k = misses (w e h)
