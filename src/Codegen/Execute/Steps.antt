-- ===== src/Codegen/Execute/Steps.antt =====
-- A run of the code generator seen as a piece of code: what the piece computes when it is executed.
use lilc.Codegen.Execute.{Code, Env, View, number_of, bit_of, numbers_of, Exec}
use lilc.Codegen.Execute.Grows.{
  Extends, Grows, Moved, code_after, Extends-trans, Grows-refl, Grows-trans, Moved-trans,
}
use lilc.Codegen.Interface.{Instr, Llvm, SameFunctions, NamedVals}
use lilc.Codegen.Meaning.{and_then}
use lilc.Codegen.Semantics.{Arith}
use lilc.Codegen.{Gen}
use lilc.Common.{ℕ, ◌<◌, ◌≡◌, inl, refl, ◌∙◌, Bool, Option, none, some, List, Bytes, arith}
use lilc.Double.{Double}

-- Where the function starts in the code generator's run. What is executed: the whole module, what
-- calls give in it, and the arguments of the function; and in the source, what calls give and what
-- the variables stand for.
pub record Frame (D S T V B : Type 0) : Type 1 where
  pub ar : Arith D
  pub view : View D S V B
  pub api : Llvm D S V B
  pub table : NamedVals T V
  pub origin : S
  pub module_code : Code V B
  pub Call : V → List D → D → Type 0
  pub args : List D
  pub call_value : Bytes → List D → Option D
  pub vars : Bytes → Option D

module _ {D S T V B : Type 0} ⦃dbl : Double D⦄ (fr : Frame D S T V B) where
  abbrev pub code_of : Gen S T → Code V B
  code_of g = fr.view.look g.llvm

  abbrev pub place_of : B → ℕ
  place_of b = fr.view.number b

  abbrev pub rest_of : Gen S T → B → List (ℕ × Instr V B)
  rest_of g b = code_after fr.module_code (code_of g) (place_of b)

  abbrev pub number_in : V → Env D → Option D
  number_in = number_of fr.ar fr.view fr.args

  abbrev pub bit_in : V → Env D → Option Bool
  bit_in = bit_of fr.ar fr.view fr.args

  abbrev pub numbers_in : List V → Env D → Option (List D)
  numbers_in = numbers_of fr.ar fr.view fr.args

  -- The registers of the instructions that are in `c`.
  abbrev pub Keeps : Code V B → Env D → Env D → Type 0
  Keeps c env env' = (n : ℕ) → n < c.clock → env' n ≡ env n

  -- decided by the registers of the instructions in `c`
  abbrev pub Steady : {A : Type 0} → Code V B → (Env D → A) → Type 0
  Steady c den = (env env' : Env D) → Keeps c env env' → den env' ≡ den env

  -- The builder stands at the end of `b`. The symbol table's values are those of the variables, and
  -- the functions do what their calls give.
  pub record Stands (b : B) (g : Gen S T) : Type 0 where
    pub place : fr.api.get_insert_block g.llvm ≡ some b
    pub kept : SameFunctions fr.api fr.origin g.llvm
    pub inside : place_of b < (code_of g).blocks
    pub variables :
        (x : Bytes) (v : V)
        → fr.table.get g.named_vals x ≡ some v
        → (env : Env D) → number_in v env ≡ fr.vars x
    pub functions :
        (name : Bytes) (f : V)
        → fr.api.get_named_function name g.llvm ≡ some f
        → (xs : List D) (y : D) → fr.call_value name xs ≡ some y
        → fr.Call f xs y

  abbrev pub Runs : ℕ → ℕ → Env D → List (ℕ × Instr V B) → D → Type 0
  Runs = Exec fr.ar fr.view fr.module_code fr.Call fr.args

  -- From the end of `b` in `g`, if `P`, execution comes to the end of `b'` in `g'` with `Q`.
  abbrev pub Reaches : (Env D → Type 0) → B → Gen S T → B → Gen S T → (Env D → Type 0) → Type 0
  Reaches P b g b' g' Q =
      (prev : ℕ) (env : Env D) (res : D)
      → P env
      → ((prev' : ℕ) (env' : Env D)
          → Keeps (code_of g) env env'
          → Q env'
          → Runs prev' (place_of b') env' (rest_of g' b') res)
      → Runs prev (place_of b) env (rest_of g b) res

  -- The run from `g` to `g'` made code that takes what `before` denotes by `k` to what `after` does.
  pub record Makes {A C : Type 0} (before : Env D → Option A) (k : A → Option C) (b : B)
      (g : Gen S T) (after : Env D → Option C) (g' : Gen S T) : Type 0 where
    pub last : B
    pub stands : Stands last g'
    pub grows : Grows (place_of b) (code_of g) (code_of g')
    pub moved : Moved (code_of g) (place_of b) (place_of last)
    pub steady : Steady (code_of g') after
    pub reaches :
        Extends (code_of g') fr.module_code
        → (a : A) (d : C) → k a ≡ some d
        → Reaches (λ env. before env ≡ some a) b g last g' (λ env. after env ≡ some d)

abbrev pub pair : {A C : Type 0} → A → C → A × C
pair a c = (a, c)

abbrev pub nothing : {D : Type 0} → Env D → Option (Unit {0})
nothing env = some tt

abbrev pub join : {A C E : Type 0} → (A → C → E) → Option A → Option C → Option E
join f p q = and_then p λ a. and_then q λ c. some (f a c)

pub and_then-some :
    {A C : Type 0} (o : Option A) (f : A → Option C) {c : C}
    → and_then o f ≡ some c
    → (a : A) × (o ≡ some a) × (f a ≡ some c)
and_then-some none f h = cc
and_then-some (some a) f h = (a, refl, h)

join-eq :
    {A C E : Type 0} (f : A → C → E) {p p' : Option A} {q q' : Option C}
    → p ≡ p'
    → q ≡ q'
    → join f p q ≡ join f p' q'
join-eq f e e' = λ i. join f (e i) (e' i)

module _ {D S T V B : Type 0} ⦃dbl : Double D⦄ (fr : Frame D S T V B) where
  pub Makes-then :
      {A C E : Type 0} {before : Env D → Option A} {k : A → Option C} {b : B} {g : Gen S T}
      {mid : Env D → Option C} {g1 : Gen S T} {k' : C → Option E} {after : Env D → Option E}
      {g2 : Gen S T} (h : Makes fr before k b g mid g1)
      → Makes fr mid k' h.last g1 after g2
      → Makes fr before (λ a. and_then (k a) k') b g after g2
  Makes-then {C} {E} {before} {k} {b} {g} {mid} {g1} {k'} {after} {g2} h h' = record {
    last = h'.last;
    stands = h'.stands;
    grows = Grows-trans h.grows h.moved h'.grows;
    moved = Moved-trans h.grows.extends h.moved h'.moved;
    steady = h'.steady;
    reaches = λ e a d w prev env res p next.
        let (c, w1, w2) = and_then-some (k a) k' w in
        h.reaches (Extends-trans h'.grows.extends e) a c w1 prev env res p λ prev1 env1 keep1 p1.
          h'.reaches e c d w2 prev1 env1 res p1 λ prev2 env2 keep2 p2.
            next prev2 env2 (λ n l. keep2 n (omega (arith, h.grows.extends.clock, l)) ∙ keep1 n l)
              p2;
  }

  -- What was known before is still known.
  pub Makes-keep :
      {A C E : Type 0} {b : B} {g : Gen S T} {k : Option C} {after : Env D → Option C}
      {g' : Gen S T} (f : A → C → E) (before : Env D → Option A)
      → Steady fr (code_of fr g) before
      → Makes fr nothing (λ _. k) b g after g'
      → Makes fr before (λ a. join f (some a) k) b g (λ env. join f (before env) (after env)) g'
  Makes-keep {k} f before known h = record {
    last = h.last;
    stands = h.stands;
    grows = h.grows;
    moved = h.moved;
    steady = λ env env' keep.
        join-eq f (known env env' λ n l. keep n (omega (arith, h.grows.extends.clock, l)))
          (h.steady env env' keep);
    reaches = λ e a d w prev env res p next.
        let (c, w1, w2) = and_then-some k (λ c. some (f a c)) w in
        h.reaches e tt c w1 prev env res refl
          λ prev' env' keep q. next prev' env' keep (join-eq f (known env env' keep ∙ p) q ∙ w2);
  }

  -- What went before does not matter.
  pub Makes-after :
      {A C : Type 0} {b : B} {g : Gen S T} {k : Option C} {after : Env D → Option C} {g' : Gen S T}
      (before : Env D → Option A)
      → Makes fr nothing (λ _. k) b g after g'
      → Makes fr before (λ _. k) b g after g'
  Makes-after before h = record {
    last = h.last;
    stands = h.stands;
    grows = h.grows;
    moved = h.moved;
    steady = h.steady;
    reaches = λ e a d w prev env res p. h.reaches e tt d w prev env res refl;
  }

  -- Nothing is made.
  pub Makes-refl :
      {A C : Type 0} {b : B} {g : Gen S T} (before : Env D → Option A) (k : A → Option C)
      (after : Env D → Option C)
      → Stands fr b g
      → Steady fr (code_of fr g) after
      → ((a : A) (d : C) (env : Env D) → k a ≡ some d → before env ≡ some a → after env ≡ some d)
      → Makes fr before k b g after g
  Makes-refl {b} {g} before k after h steady den = record {
    last = b;
    stands = h;
    grows = Grows-refl (place_of fr b) (code_of fr g);
    moved = inl refl;
    steady = steady;
    reaches = λ e a d w prev env res p next. next prev env (λ n l. refl) (den a d env w p);
  }

  -- The same code for less.
  pub Makes-less :
      {A C : Type 0} {before : Env D → Option A} {k k' : A → Option C} {b : B} {g : Gen S T}
      {after : Env D → Option C} {g' : Gen S T}
      → ((a : A) (d : C) → k' a ≡ some d → k a ≡ some d)
      → Makes fr before k b g after g'
      → Makes fr before k' b g after g'
  Makes-less less h = record {
    last = h.last;
    stands = h.stands;
    grows = h.grows;
    moved = h.moved;
    steady = h.steady;
    reaches = λ e a d w. h.reaches e a d (less a d w);
  }
