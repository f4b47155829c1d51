-- ===== src/Codegen/Execute/Gives.antt =====
-- What holds of a run of the code generator when it returns a value.
use lilc.Common.{Option, none, some}
use lilc.Outcome.{Outcome, ok, died, exited, fault, out_of_fuel, bind}

-- `P` holds of the value and the state that a run returns, if it returns a value.
abbrev pub Gives : {A G : Type 0} → (A → G → Type 0) → Outcome (Option A × G) → Type 0
Gives P (ok (some a, g)) = P a g
Gives P _ = Unit

pub Gives-bind :
    {A C G : Type 0} (P : A → G → Type 0) (Q : C → G → Type 0) (r : Outcome (Option A × G))
    (f : Option A → G → Outcome (Option C × G))
    → Gives P r
    → ((a : A) (g : G) → P a g → Gives Q (f (some a) g))
    → ((g : G) → Gives Q (f none g))
    → Gives Q (bind r λ (o, g). f o g)
Gives-bind P Q (ok (some a, g)) f h k n = k a g h
Gives-bind P Q (ok (none, g)) f h k n = n g
Gives-bind P Q (died file line msg) f h k n = tt
Gives-bind P Q (exited msg) f h k n = tt
Gives-bind P Q (fault e) f h k n = tt
Gives-bind P Q out_of_fuel f h k n = tt

pub Gives-null :
    {A C G : Type 0} (Q : C → G → Type 0) (r : Outcome (Option A × G))
    → Gives Q (bind r λ (o, g). ok (none, g))
Gives-null Q (ok (a, g)) = tt
Gives-null Q (died file line msg) = tt
Gives-null Q (exited msg) = tt
Gives-null Q (fault e) = tt
Gives-null Q out_of_fuel = tt

-- for every `i` at once
pub Gives-all :
    {A G I : Type 0} (P : I → A → G → Type 0) (r : Outcome (Option A × G))
    → ((i : I) → Gives (P i) r)
    → Gives (λ a g. (i : I) → P i a g) r
Gives-all P (ok (some a, g)) h = h
Gives-all P (ok (none, g)) h = tt
Gives-all P (died file line msg) h = tt
Gives-all P (exited msg) h = tt
Gives-all P (fault e) h = tt
Gives-all P out_of_fuel h = tt

pub Gives-map :
    {A G : Type 0} (P Q : A → G → Type 0) (r : Outcome (Option A × G))
    → ((a : A) (g : G) → P a g → Q a g)
    → Gives P r
    → Gives Q r
Gives-map P Q (ok (some a, g)) k h = k a g h
Gives-map P Q (ok (none, g)) k h = tt
Gives-map P Q (died file line msg) k h = tt
Gives-map P Q (exited msg) k h = tt
Gives-map P Q (fault e) k h = tt
Gives-map P Q out_of_fuel k h = tt
