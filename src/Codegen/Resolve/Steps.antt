-- ===== src/Codegen/Resolve/Steps.antt =====
-- The steps of code generation: what each leaves, when the builder stands in a block.
use lilc.Codegen.Interface.{Instr, ui_to_fp, call, Llvm, LlvmLaws, NamedVals}
use lilc.Codegen.Scope.{
  Returns, returns, Returns-bind, is_some, Scope, is_bin_op, takes, arity_of, Ready-same, Ready,
}
use lilc.Codegen.{
  Gen, Walk, or_null, call_llvm, change_llvm, block_or_fault, build, insert_block, build_op,
  codegen_binop, codegen_funccall, arm, merge_arms,
}
use lilc.Common.{
  ℕ, ◌∙◌, ap, subst, ◌≡◌, refl, Bool, true, false, not, ◌&&◌, Option, none, some, List, ◌==◌, Bytes,
  codes, if◌then◌else◌,
}
use lilc.Outcome.{Outcome, ok, bind, M, pure}
use lilc.Token.{TokType, tok_add, tok_sub, tok_mul, tok_div, tok_cmplt}

abbrev pub Any : {A : Type 0} → A → Type 0
Any a = Unit

-- A value if and only if `b`.
abbrev pub Says : {A : Type 0} → Bool → Option A → Type 0
Says b v = is_some v ≡ b

module _ {D S T V B : Type 0} {api : Llvm D S V B} (laws : LlvmLaws api) (table : NamedVals T V)
    (sc : Scope) where
  -- The run returns, in a state that is ready as before; `P` holds of its result.
  abbrev pub Safe : {A : Type 0} → (A → Type 0) → Outcome (A × Gen S T) → Type 0
  Safe P r = Returns P (Ready api table sc) r

  pub Safe-null :
      {A C : Type 0} (b : Bool) {c : Bool} (f : A → M (Gen S T) (Option C)) (v : Option A)
      (g : Gen S T)
      → Says b v
      → Ready api table sc g
      → ((a : A) → Safe (Says c) (f a g))
      → Safe (Says (b && c)) (or_null v f g)
  Safe-null false f none g e h k = returns refl h
  Safe-null true f none g e h k = cc
  Safe-null true f (some a) g e h k = k a
  Safe-null false f (some a) g e h k = cc

  pub build-Safe : (i : Instr V B) (g : Gen S T) → Ready api table sc g → Safe Any (build api i g)
  unfolding call_llvm
  build-Safe i g h =
      returns tt
        (Ready-same h (laws.same-build i g.llvm) (h.here.0, laws.place-build i g.llvm ∙ h.here.1))

  pub append-Safe :
      (f : V) (name : Bytes) (g : Gen S T)
      → Ready api table sc g
      → Safe Any (call_llvm (api.append_basic_block f name) g)
  unfolding call_llvm
  append-Safe f name g h = returns tt (
      Ready-same h (laws.same-append f name g.llvm)
        (h.here.0, laws.place-append f name g.llvm ∙ h.here.1))

  pub incoming-Safe :
      (p v : V) (b : B) (g : Gen S T)
      → Ready api table sc g
      → Safe Any (change_llvm (api.add_incoming p v b) g)
  unfolding change_llvm
  incoming-Safe p v b g h = returns tt (
      Ready-same h (laws.same-incoming p v b g.llvm)
        (h.here.0, laws.place-incoming p v b g.llvm ∙ h.here.1))

  pub position-Safe :
      (b : B) (g : Gen S T)
      → Ready api table sc g
      → Safe Any (change_llvm (api.position_at_end b) g)
  unfolding change_llvm
  position-Safe b g h =
      returns tt (Ready-same h (laws.same-position b g.llvm) (b, laws.place-position b g.llvm))

  pub insert_block-Safe : (g : Gen S T) → Ready api table sc g → Safe Any (insert_block api g)
  unfolding insert_block
  insert_block-Safe g h = go (api.get_insert_block g.llvm) h.here.1
    where
      go : (o : Option B) → o ≡ some h.here.0 → Safe Any (block_or_fault o g)
      go none e = cc
      go (some b) e = returns tt h

  -- One instruction, whose value is the result.
  value-Safe :
      (i : Instr V B) (g : Gen S T)
      → Ready api table sc g
      → Safe (Says true) (bind (build api i g) λ (v, g'). ok (some v, g'))
  value-Safe i g h = Returns-bind (build-Safe i g h) λ s _ h'. returns refl h'

  build_op-Safe :
      (op : TokType) (l r : V) (g : Gen S T)
      → Ready api table sc g
      → Safe (Says (is_bin_op op)) (build_op api op l r g)
  unfolding build_op
  build_op-Safe tok_add l r g h = value-Safe _ g h
  build_op-Safe tok_sub l r g h = value-Safe _ g h
  build_op-Safe tok_mul l r g h = value-Safe _ g h
  build_op-Safe tok_div l r g h = value-Safe _ g h
  build_op-Safe tok_cmplt l r g h =
      Returns-bind (build-Safe _ g h)
        λ s _ h'. value-Safe (ui_to_fp s.0 (codes "boolcasttmp")) s.1 h'
  build_op-Safe _ l r g h = returns refl h

  -- From every state that is ready, the walk gives a value if and only if `b`.
  abbrev pub Walks : {A : Type 0} → Bool → M (Gen S T) (Option A) → Type 0
  Walks b w = (g : Gen S T) → Ready api table sc g → Safe (Says b) (w g)

  pub binop-Walks :
      {b c : Bool} {l r : Walk S T V} (op : TokType)
      → Walks b l
      → Walks c r
      → Walks (b && (c && is_bin_op op)) (codegen_binop api l r op)
  unfolding codegen_binop
  binop-Walks {b} {c} op wl wr g h = Returns-bind (wl g h) λ s e k.
      Returns-bind (wr s.1 k) λ t e' k'.
        Safe-null b _ s.0 t.1 e k' λ x. Safe-null c _ t.0 t.1 e' k' λ y. build_op-Safe op x y t.1 k'

  Safe-guard :
      {A : Type 0} {b : Bool} (c : Bool) (m : M (Gen S T) (Option A)) (g : Gen S T)
      → Ready api table sc g
      → Safe (Says b) (m g)
      → Safe (Says (c && b)) ((if not c then pure none else m) g)
  Safe-guard true m g h k = k
  Safe-guard false m g h k = returns refl h

  -- a call of the function `o`, with `n` arguments
  callee-Safe :
      {b : Bool} (o : Option V) (n : ℕ) (a : Option ℕ) (m : V → Walk S T V) (g : Gen S T)
      → arity_of api g.llvm o ≡ a
      → Ready api table sc g
      → ((f : V) → Safe (Says b) (m f g))
      → Safe
          (Says (takes n a && b))
          (or_null o (λ f. if not (api.count_params f g.llvm == n) then pure none else m f) g)
  callee-Safe {b} none n a m g e h k = returns (ap (λ x. takes n x && b) e) h
  callee-Safe {b} (some f) n a m g e h k =
      subst
        (λ x.
          Safe (Says (takes n x && b))
            ((if not (api.count_params f g.llvm == n) then pure none else m f) g))
        e (Safe-guard (api.count_params f g.llvm == n) (m f) g h (k f))

  -- a walk whose value is used for a result that there always is
  pub Safe-keep :
      {A C : Type 0} {b : Bool} (f : A → M (Gen S T) (Option C)) (v : Option A) (g : Gen S T)
      → Says b v
      → Ready api table sc g
      → ((a : A) → Safe (Says true) (f a g))
      → Safe (Says b) (or_null v f g)
  Safe-keep f none g e h k = returns e h
  Safe-keep f (some a) g e h k = subst (λ b. Safe (Says b) (f a g)) e (k a)

  pub funccall-Walks :
      {b : Bool} {w : M (Gen S T) (Option (List V))} (name : Bytes) (n : ℕ)
      → Walks b w
      → Walks (takes n (sc.arity name) && b) (codegen_funccall api name n w)
  unfolding codegen_funccall
  funccall-Walks {b} {w} name n ww g h =
      callee-Safe (api.get_named_function name g.llvm) n (sc.arity name) _ g (h.offers.arity name) h
        λ f.
          Returns-bind (ww g h)
            λ s e h'. Safe-keep _ s.0 s.1 e h' λ vs. value-Safe (call f vs name) s.1 h'

  pub arm-Walks :
      {b : Bool} {w : Walk S T V} (start merge_block : B)
      → Walks b w
      → Walks b (arm api start merge_block w)
  unfolding arm
  arm-Walks start merge_block ww g h = Returns-bind (position-Safe start g h) λ s _ h'.
      Returns-bind (ww s.1 h') λ t e k. Safe-keep _ t.0 t.1 e k λ v.
        Returns-bind (build-Safe _ t.1 k)
          λ p _ k1. Returns-bind (insert_block-Safe p.1 k1) λ q _ k2. returns refl k2

  pub merge_arms-Walks :
      (merge_block : B) (t e : V × B) → Walks true (merge_arms api merge_block t e)
  unfolding merge_arms
  merge_arms-Walks merge_block (tv, tb) (ev, eb) g h =
      Returns-bind (position-Safe merge_block g h) λ s _ h1.
        Returns-bind (build-Safe _ s.1 h1) λ p _ h2.
          Returns-bind (incoming-Safe p.0 tv tb p.1 h2)
            λ q _ h3. Returns-bind (incoming-Safe p.0 ev eb q.1 h3) λ r _ h4. returns refl h4
