-- ===== src/Codegen/Execute/Unique.antt =====
-- Two executions of the same code.
use lilc.Codegen.Execute.{
  Reg, num, Kind, function, Code, Env, set_reg, View, number_of, bit_of, numbers_of, compute,
  from_block, Exec, computes, calls, picks, jumps, branches, returns_num, Calls,
}
use lilc.Codegen.Interface.{
  Instr, fadd, fsub, fmul, fdiv, fcmp_ult, fcmp_one, ui_to_fp, ret, call, cond_br, br, phi,
}
use lilc.Codegen.Semantics.{Arith}
use lilc.Common.{
  same_some, ℕ, zero, suc, ◌≡◌, sym, ap, ◌∙◌, subst, Bool, none, some, List, [], ◌∷◌, if◌then◌else◌,
}
use lilc.Double.{Double}

module _ {D S V B : Type 0} ⦃dbl : Double D⦄ (ar : Arith D) (view : View D S V B) (m : Code V B)
    (args : List D) where
  -- What is executed behind the first instruction.
  abbrev Next :
      (V → List D → D → Type 0) → ℕ → ℕ → Env D → ℕ → Instr V B → List (ℕ × Instr V B) → D → Type 0
  Next Call prev here env n (call f vs name) rest d =
      (xs : List D) × (y : D) × (numbers_of ar view args vs env ≡ some xs)
      × Call f xs y
      × Exec ar view m Call args prev here (set_reg env n (num y)) rest d
  Next Call prev here env n (phi name) rest d =
      (v : V) × (x : D) × (from_block ar view prev (m.incoming n) ≡ some v)
      × (number_of ar view args v env ≡ some x)
      × Exec ar view m Call args prev here (set_reg env n (num x)) rest d
  Next Call prev here env n (br b) rest d =
      Exec ar view m Call args here (view.number b) env (m.code (view.number b)) d
  Next Call prev here env n (cond_br c b1 b2) rest d =
      (t : Bool) × (bit_of ar view args c env ≡ some t)
      × Exec ar view m Call args here (view.number (if t then b1 else b2)) env
          (m.code (view.number (if t then b1 else b2))) d
  Next Call prev here env n (ret v) rest d = number_of ar view args v env ≡ some d
  Next Call prev here env n i rest d =
      (r : Reg D) × (compute ar view args env i ≡ some r)
      × Exec ar view m Call args prev here (set_reg env n r) rest d

  abbrev First : (V → List D → D → Type 0) → ℕ → ℕ → Env D → List (ℕ × Instr V B) → D → Type 0
  First Call prev here env [] d = ⊥
  First Call prev here env ((n, i) ∷ rest) d = Next Call prev here env n i rest d

  computed :
      {Call : V → List D → D → Type 0} {prev here : ℕ} (env : Env D) (n : ℕ) (i : Instr V B)
      {rest : List (ℕ × Instr V B)} {d : D} (r : Reg D)
      → compute ar view args env i ≡ some r
      → Exec ar view m Call args prev here (set_reg env n r) rest d
      → Next Call prev here env n i rest d
  computed env n (fadd a b name) r e h = (r, e, h)
  computed env n (fsub a b name) r e h = (r, e, h)
  computed env n (fmul a b name) r e h = (r, e, h)
  computed env n (fdiv a b name) r e h = (r, e, h)
  computed env n (fcmp_ult a b name) r e h = (r, e, h)
  computed env n (fcmp_one a b name) r e h = (r, e, h)
  computed env n (ui_to_fp a name) r e h = (r, e, h)
  computed env n (ret v) r e h = cc
  computed env n (call f vs name) r e h = cc
  computed env n (cond_br c b1 b2) r e h = cc
  computed env n (br b) r e h = cc
  computed env n (phi name) r e h = cc

  Exec-First :
      {Call : V → List D → D → Type 0} {prev here : ℕ} {env : Env D} {rest : List (ℕ × Instr V B)}
      {d : D}
      → Exec ar view m Call args prev here env rest d
      → First Call prev here env rest d
  Exec-First (computes {n} {env} {i} r e h) = computed env n i r e h
  Exec-First (calls xs y e c h) = (xs, y, e, c, h)
  Exec-First (picks v x e e' h) = (v, x, e, e', h)
  Exec-First (jumps h) = h
  Exec-First (branches t e h) = (t, e, h)
  Exec-First (returns_num e) = e

  computed_next :
      {Call : V → List D → D → Type 0} {prev here : ℕ} (env : Env D) (n : ℕ)
      {rest : List (ℕ × Instr V B)} {d : D} {r r' : Reg D}
      → Exec ar view m Call args prev here (set_reg env n r') rest d
      → r' ≡ r
      → Exec ar view m Call args prev here (set_reg env n r) rest d
  computed_next {Call} {prev} {here} env n {rest} {d} h e =
      subst (λ r. Exec ar view m Call args prev here (set_reg env n r) rest d) e h

  -- behind an instruction that computes `r`
  Next-compute :
      {Call : V → List D → D → Type 0} {prev here : ℕ} (env : Env D) (n : ℕ) (i : Instr V B)
      {rest : List (ℕ × Instr V B)} {d : D} (r : Reg D)
      → compute ar view args env i ≡ some r
      → Next Call prev here env n i rest d
      → Exec ar view m Call args prev here (set_reg env n r) rest d
  Next-compute env n (fadd a b name) r e h = computed_next env n h.2 (same_some h.1 e)
  Next-compute env n (fsub a b name) r e h = computed_next env n h.2 (same_some h.1 e)
  Next-compute env n (fmul a b name) r e h = computed_next env n h.2 (same_some h.1 e)
  Next-compute env n (fdiv a b name) r e h = computed_next env n h.2 (same_some h.1 e)
  Next-compute env n (fcmp_ult a b name) r e h = computed_next env n h.2 (same_some h.1 e)
  Next-compute env n (fcmp_one a b name) r e h = computed_next env n h.2 (same_some h.1 e)
  Next-compute env n (ui_to_fp a name) r e h = computed_next env n h.2 (same_some h.1 e)
  Next-compute env n (ret v) r e h = cc
  Next-compute env n (call f vs name) r e h = cc
  Next-compute env n (cond_br c b1 b2) r e h = cc
  Next-compute env n (br b) r e h = cc
  Next-compute env n (phi name) r e h = cc

  Exec-unique :
      {Call Call' : V → List D → D → Type 0}
      → ((f : V) (xs : List D) (y y' : D) → Call f xs y → Call' f xs y' → y ≡ y')
      → {prev here : ℕ} {env : Env D} {rest : List (ℕ × Instr V B)} {d d' : D}
      → Exec ar view m Call args prev here env rest d
      → Exec ar view m Call' args prev here env rest d'
      → d ≡ d'
  Exec-unique agree (computes {n} {env} {i} r e h) h' =
      Exec-unique agree h (Next-compute env n i r e (Exec-First h'))
  Exec-unique {Call'} agree {prev} {here} {d' = d'} (calls {n} {env} {f} {rest} xs y e c h) h' =
      let (xs', y', e', c', k) = Exec-First h' in
      Exec-unique agree h (
        subst (λ y. Exec ar view m Call' args prev here (set_reg env n (num y)) rest d')
          (sym (agree f xs y y' c (subst (λ xs. Call' f xs y') (same_some e' e) c'))) k)
  Exec-unique {Call'} agree {prev} {here} {d' = d'} (picks {n} {env} {rest} v x e p h) h' =
      let (v', x', e', p', k) = Exec-First h' in
      Exec-unique agree h (
        subst (λ x. Exec ar view m Call' args prev here (set_reg env n (num x)) rest d')
          (same_some p' (ap (λ v. number_of ar view args v env) (same_some e' e) ∙ p)) k)
  Exec-unique agree (jumps h) h' = Exec-unique agree h (Exec-First h')
  Exec-unique {Call'} agree {prev} {here} {env} {d' = d'} (branches {b1} {b2} t e h) h' =
      let (t', e', k) = Exec-First h' in
      Exec-unique agree h (
        subst
          (λ t.
            Exec ar view m Call' args here (view.number (if t then b1 else b2)) env
              (m.code (view.number (if t then b1 else b2))) d')
          (same_some e' e) k)
  Exec-unique agree (returns_num e) h' = same_some e (Exec-First h')

module _ {D S V B : Type 0} ⦃dbl : Double D⦄ (ar : Arith D) (view : View D S V B)
    (m : Code V B) where
  pub Calls-unique :
      (k j : ℕ) (f : V) (xs : List D) (y y' : D)
      → Calls ar view m k f xs y
      → Calls ar view m j f xs y'
      → y ≡ y'
  unfolding Calls
  Calls-unique zero j f xs y y' h h' = absurd h
  Calls-unique (suc k) zero f xs y y' h h' = absurd h'
  Calls-unique (suc k) (suc j) f xs y y' (n, e, is_function, at, run)
        (n', e', is_function', at', run') =
      Exec-unique ar view m xs (Calls-unique k j) run (
        subst (λ e. Exec ar view m (Calls ar view m j) xs 0 e (λ i. none) (m.code e) y')
          (same_some at' (ap m.entry (same_number (sym is_function' ∙ is_function)) ∙ at)) run')
    where
      number : Kind D → ℕ
      number (function n) = n
      number _ = 0

      same_number : {a b : ℕ} → ◌≡◌ {A = Kind D} (function a) (function b) → a ≡ b
      same_number w = ap number w
