-- ===== src/Common/Lists.antt =====
-- Lists measured and indexed by native numbers, under the library's names, and byte strings.
use Prim.Native.Char.{code}
use Prim.Native.Nat.{ℕ, zero, suc, ◌+◌, ◌≤◌, ◌<◌}
use Prim.Native.String.{String}
use mathlib.Core.Bool.{Bool, true, false, ◌&&◌}
use mathlib.Core.List.{map, List, [], ◌∷◌, ◌++◌, append_assoc, append-nil}
use mathlib.Core.Logic.{◌≢◌}
use mathlib.Core.Option.{Option, none, some}
use mathlib.Core.Path.{◌≡◌, refl, ap}
use native.Mathlib.Nat.{add-zero}
use native.Mathlib.Omega.{arith}
use lilc.Common.Tests.{◌==◌, if◌then◌else◌}

module _ {ℓ} {A : Type ℓ} where
  abbrev pub length : List A → ℕ
  length [] = 0
  length (x ∷ xs) = suc (length xs)

  abbrev pub get_elem? : List A → ℕ → Option A
  get_elem? [] i = none
  get_elem? (x ∷ xs) zero = some x
  get_elem? (x ∷ xs) (suc i) = get_elem? xs i

  abbrev pub take : ℕ → List A → List A
  take zero xs = []
  take (suc n) [] = []
  take (suc n) (x ∷ xs) = x ∷ take n xs

  abbrev pub drop : ℕ → List A → List A
  drop zero xs = xs
  drop (suc n) [] = []
  drop (suc n) (x ∷ xs) = drop n xs

  pub length-append : (xs ys : List A) → length (xs ++ ys) ≡ length xs + length ys
  length-append [] ys = omega arith
  length-append (x ∷ xs) ys = omega (arith, length-append xs ys)

  pub take-length_append : (xs ys : List A) → take (length xs) (xs ++ ys) ≡ xs
  take-length_append [] ys = refl
  take-length_append (x ∷ xs) ys = ap (◌∷◌ x) (take-length_append xs ys)

  pub take-length : (xs : List A) → take (length xs) xs ≡ xs
  take-length [] = refl
  take-length (x ∷ xs) = ap (◌∷◌ x) (take-length xs)

  pub length-take : (n : ℕ) (xs : List A) → n ≤ length xs → length (take n xs) ≡ n
  length-take zero xs h = refl
  length-take (suc n) [] h = absurd (omega arith)
  length-take (suc n) (x ∷ xs) h = ap suc (length-take n xs (omega arith))

  pub get_elem?-lt : (xs : List A) (i : ℕ) {x : A} → get_elem? xs i ≡ some x → i < length xs
  get_elem?-lt [] i h = cc
  get_elem?-lt (x ∷ xs) zero h = omega arith
  get_elem?-lt (x ∷ xs) (suc i) h = omega (arith, get_elem?-lt xs i h)

  pub get_elem?-none : (xs : List A) (i : ℕ) → get_elem? xs i ≡ none → length xs ≤ i
  get_elem?-none [] i h = omega arith
  get_elem?-none (x ∷ xs) zero h = cc
  get_elem?-none (x ∷ xs) (suc i) h = omega (arith, get_elem?-none xs i h)

  pub take-suc :
      (xs : List A) (i : ℕ) {x : A}
      → get_elem? xs i ≡ some x
      → take (suc i) xs ≡ take i xs ++ x ∷ []
  take-suc [] i h = cc
  take-suc (x ∷ xs) zero h = ground arith
  take-suc (x ∷ xs) (suc i) h = ap (◌∷◌ x) (take-suc xs i h)

  pub get_elem?-drop :
      (xs : List A) (i : ℕ) {x : A} {r : List A} → drop i xs ≡ x ∷ r → get_elem? xs i ≡ some x
  get_elem?-drop [] zero h = cc
  get_elem?-drop [] (suc i) h = cc
  get_elem?-drop (y ∷ xs) zero h = ground arith
  get_elem?-drop (y ∷ xs) (suc i) h = get_elem?-drop xs i h

  pub length-drop : (i : ℕ) (xs : List A) → i ≤ length xs → length (drop i xs) + i ≡ length xs
  length-drop zero xs h = omega arith
  length-drop (suc i) [] h = absurd (omega arith)
  length-drop (suc i) (x ∷ xs) h = omega (arith, length-drop i xs)

  pub length-drop-le : (i : ℕ) (xs : List A) → length (drop i xs) ≤ length xs
  length-drop-le zero xs = omega arith
  length-drop-le (suc i) [] = omega arith
  length-drop-le (suc i) (x ∷ xs) = omega (arith, length-drop-le i xs)

  pub drop-nil : (xs : List A) (i : ℕ) → drop i xs ≡ [] → get_elem? xs i ≡ none
  drop-nil [] i h = refl
  drop-nil (y ∷ xs) zero h = cc
  drop-nil (y ∷ xs) (suc i) h = drop-nil xs i h

  pub drop-get_elem? :
      (xs : List A) (i : ℕ) {x : A} → get_elem? xs i ≡ some x → drop i xs ≡ x ∷ drop (suc i) xs
  drop-get_elem? [] i h = cc
  drop-get_elem? (y ∷ xs) zero h = ground arith
  drop-get_elem? (y ∷ xs) (suc i) h = drop-get_elem? xs i h

  pub drop-none : (xs : List A) (i : ℕ) → get_elem? xs i ≡ none → drop i xs ≡ []
  drop-none [] zero h = refl
  drop-none [] (suc i) h = refl
  drop-none (y ∷ xs) zero h = cc
  drop-none (y ∷ xs) (suc i) h = drop-none xs i h

  pub drop-suc :
      (xs : List A) (i : ℕ) {x : A} {r : List A} → drop i xs ≡ x ∷ r → drop (suc i) xs ≡ r
  drop-suc [] zero h = cc
  drop-suc [] (suc i) h = cc
  drop-suc (y ∷ xs) zero h = ground arith
  drop-suc (y ∷ xs) (suc i) h = drop-suc xs i h

module _ {ℓ} {A : Type ℓ} where
  pub drop-add :
      (s xs : List A) (i : ℕ) {ys : List A} → drop i s ≡ xs ++ ys → drop (i + length xs) s ≡ ys
  drop-add s [] i h = rw add-zero h
  drop-add s (x ∷ xs) i h =
      let e : i + suc (length xs) ≡ suc i + length xs = omega arith in
      rw e (drop-add s xs (suc i) (drop-suc s i h))

module _ {ℓ} {A : Type ℓ} where
  pub take-add :
      (s xs ys : List A) (i : ℕ) → drop i s ≡ xs ++ ys → take (i + length xs) s ≡ take i s ++ xs
  take-add s [] ys i h = rw (add-zero, append-nil)
  take-add s (x ∷ xs) ys i h =
      let e : i + suc (length xs) ≡ suc i + length xs = omega arith in
      rw (
        e,
        take-add s xs ys (suc i) (drop-suc s i h),
        take-suc s i (get_elem?-drop s i h),
        append_assoc,
      )

  pub lt_of_drop : (xs : List A) (i : ℕ) → drop i xs ≢ [] → i < length xs
  lt_of_drop [] zero h = absurd (h refl)
  lt_of_drop [] (suc i) h = absurd (h refl)
  lt_of_drop (x ∷ xs) zero h = omega arith
  lt_of_drop (x ∷ xs) (suc i) h = omega (arith, lt_of_drop xs i h)

pub length-map {ℓ κ} :
    {A : Type ℓ} {B : Type κ} (f : A → B) (xs : List A) → length (map f xs) ≡ length xs
length-map f [] = refl
length-map f (x ∷ xs) = ap suc (length-map f xs)

abbrev pub Bytes : Type 0
Bytes = List ℕ

-- The bytes of an ASCII text.
abbrev pub codes : String → Bytes
codes String.[] = []
codes (String.◌∷◌ c s) = code c ∷ codes s

-- `strcmp(a, b) == 0`
abbrev pub bytes_eq : Bytes → Bytes → Bool
bytes_eq [] [] = true
bytes_eq (x ∷ xs) (y ∷ ys) = x == y && bytes_eq xs ys
bytes_eq _ _ = false

pub bytes_eq_refl : (a : Bytes) → bytes_eq a a ≡ true
bytes_eq_refl [] = refl
bytes_eq_refl (x ∷ a) = ground (arith, bytes_eq_refl a)

pub bytes_eq→eq : (a b : Bytes) → bytes_eq a b ≡ true → a ≡ b
bytes_eq→eq [] [] h = refl
bytes_eq→eq [] (y ∷ b) h = cc
bytes_eq→eq (x ∷ a) [] h = cc
bytes_eq→eq (x ∷ a) (y ∷ b) h = ground (arith, bytes_eq→eq a b)

module _ {ℓ} {A : Type ℓ} where
  abbrev pub All {κ} : (A → Type κ) → List A → Type κ
  All P [] = Unit
  All P (x ∷ xs) = P x × All P xs

  pub All-append {κ} : (P : A → Type κ) (xs ys : List A) → All P xs → All P ys → All P (xs ++ ys)
  All-append P [] ys h k = k
  All-append P (x ∷ xs) ys h k = (h.0, All-append P xs ys h.1 k)

-- The number of bytes equal to `b`.
abbrev pub count : ℕ → Bytes → ℕ
count b [] = 0
count b (c ∷ cs) = (if c == b then 1 else 0) + count b cs

pub count-append : (b : ℕ) (xs ys : Bytes) → count b (xs ++ ys) ≡ count b xs + count b ys
count-append b [] ys = omega arith
count-append b (x ∷ xs) ys = omega (arith, count-append b xs ys)
