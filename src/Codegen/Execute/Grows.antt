-- ===== src/Codegen/Execute/Grows.antt =====
-- How the code that LLVM keeps grows: what later steps of the code generator leave as it is.
use lilc.Codegen.Execute.{
  Code, Kind, constant, argument, local, function, other, append_instr, append_block,
  declare_function, first_block,
}
use lilc.Codegen.Interface.{Instr}
use lilc.Common.{
  ◌+◌, ℕ, ◌≤◌, ◌<◌, ◌≡◌, ◌≢◌, ◌⊎◌, inl, inr, refl, sym, ap, ◌∙◌, subst, some, List, [], ◌∷◌, ◌++◌,
  length, drop, ◌==◌, if◌then◌else◌, append_assoc, append-nil, arith, Bool, true, false,
}

abbrev pub Prefix : {A : Type 0} → List A → List A → Type 0
Prefix {A} xs ys = (zs : List A) × (ys ≡ xs ++ zs)

module _ {A : Type 0} where
  pub Prefix_refl : (xs : List A) → Prefix xs xs
  Prefix_refl xs = ([], sym (append-nil xs))

  pub Prefix_trans : (xs : List A) {ys zs : List A} → Prefix xs ys → Prefix ys zs → Prefix xs zs
  Prefix_trans xs (a, e) (b, e') = (a ++ b, e' ∙ ap (λ l. l ++ b) e ∙ append_assoc xs a b)

  pub drop-append : (xs ys : List A) → drop (length xs) (xs ++ ys) ≡ ys
  drop-append [] ys = refl
  drop-append (x ∷ xs) ys = drop-append xs ys

  drop-snoc :
      (xs : List A) (x : A) {ys : List A}
      → Prefix (xs ++ x ∷ []) ys
      → drop (length xs) ys ≡ x ∷ drop (length (xs ++ x ∷ [])) ys
  drop-snoc xs x (zs, e) =
      rw (e, append_assoc, drop-append)
        (ap (◌∷◌ x) (
          sym (
            ap (λ l. drop (length (xs ++ x ∷ [])) l) (sym (append_assoc xs (x ∷ []) zs))
            ∙ drop-append (xs ++ x ∷ []) zs)))

pub eq_self : (k : ℕ) → (k == k) ≡ true
eq_self k = ground arith

-- the code of block `k` from its end in `c` on
abbrev pub code_after : {V B : Type 0} → Code V B → Code V B → ℕ → List (ℕ × Instr V B)
code_after m c k = drop (length (c.code k)) (m.code k)

-- What is in `c` is in `m` too.
pub record Extends {V B : Type 0} (c m : Code V B) : Type 0 where
  pub clock : c.clock ≤ m.clock
  pub blocks : c.blocks ≤ m.blocks
  pub functions : c.functions ≤ m.functions
  pub code : (j : ℕ) → j < c.blocks → Prefix (c.code j) (m.code j)
  pub incoming : (j : ℕ) → j < c.clock → m.incoming j ≡ c.incoming j
  pub entry : (j e : ℕ) → j < c.functions → c.entry j ≡ some e → m.entry j ≡ some e

-- Of the blocks in `c`, only `k` has more code in `m`.
pub record Grows {V B : Type 0} (k : ℕ) (c m : Code V B) : Type 0 where
  pub extends : Extends c m
  pub others : (j : ℕ) → j < c.blocks → j ≢ k → m.code j ≡ c.code j

-- `k'` is `k` or new.
abbrev pub Moved : {V B : Type 0} → Code V B → ℕ → ℕ → Type 0
Moved c k k' = (k' ≡ k) ⊎ (c.blocks ≤ k')

module _ {V B : Type 0} where
  pub Extends-refl : (c : Code V B) → Extends c c
  Extends-refl c = record {
    clock = omega arith;
    blocks = omega arith;
    functions = omega arith;
    code = λ j h. Prefix_refl (c.code j);
    incoming = λ j h. refl;
    entry = λ j e h k. k;
  }

  pub Extends-trans : {a b c : Code V B} → Extends a b → Extends b c → Extends a c
  Extends-trans {a} h k = record {
    clock = omega (arith, h.clock, k.clock);
    blocks = omega (arith, h.blocks, k.blocks);
    functions = omega (arith, h.functions, k.functions);
    code = λ j l. Prefix_trans (a.code j) (h.code j l) (k.code j (omega (arith, h.blocks)));
    incoming = λ j l. k.incoming j (omega (arith, h.clock)) ∙ h.incoming j l;
    entry = λ j e l w. k.entry j e (omega (arith, h.functions)) (h.entry j e l w);
  }

  pub Grows-refl : (k : ℕ) (c : Code V B) → Grows k c c
  Grows-refl k c = record { extends = Extends-refl c; others = λ j l ne. refl }

  pub Grows-trans :
      {k k' : ℕ} {a b c : Code V B} → Grows k a b → Moved a k k' → Grows k' b c → Grows k a c
  Grows-trans {k} {k'} {a} h move h' = record {
    extends = Extends-trans h.extends h'.extends;
    others = λ j l ne.
        h'.others j (omega (arith, h.extends.blocks)) (apart j l ne move) ∙ h.others j l ne;
  }
    where
      apart : (j : ℕ) → j < a.blocks → j ≢ k → Moved a k k' → j ≢ k'
      apart j l ne (inl e) = λ q. ne (q ∙ e)
      apart j l ne (inr h) = omega arith

  pub Moved-trans :
      {k k' k2 : ℕ} {a b : Code V B} → Extends a b → Moved a k k' → Moved b k' k2 → Moved a k k2
  Moved-trans h (inl e) (inl e') = inl (e' ∙ e)
  Moved-trans h (inr l) (inl e') = inr (omega arith)
  Moved-trans h w (inr l) = inr (omega (arith, h.blocks))

  pub append_instr-Grows : (k : ℕ) (i : Instr V B) (c : Code V B) → Grows k c (append_instr k i c)
  append_instr-Grows k i c = record {
    extends = record {
      clock = omega arith;
      blocks = omega arith;
      functions = omega arith;
      code = λ j h. longer j (j == k);
      incoming = λ j h. ground arith;
      entry = λ j e h w. w;
    };
    others = λ j l ne. ground arith;
  }
    where
      longer :
          (j : ℕ) (b : Bool)
          → Prefix (c.code j) (if b then c.code j ++ (c.clock, i) ∷ [] else c.code j)
      longer j true = ((c.clock, i) ∷ [], refl)
      longer j false = Prefix_refl (c.code j)

  pub append_block-Grows :
      {D : Type 0} (k : ℕ) (f : Kind D) (c : Code V B) → Grows k c (append_block f c)
  append_block-Grows {D} k f c = record {
    extends = record {
      clock = omega arith;
      blocks = omega arith;
      functions = omega arith;
      code = λ j h. ([], (ground arith) ∙ sym (append-nil (c.code j)));
      incoming = λ j h. refl;
      entry = λ j e h w. kept f j w;
    };
    others = λ j l ne. ground arith;
  }
    where
      kept :
          (f : Kind D) (j : ℕ) {e : ℕ}
          → c.entry j ≡ some e
          → first_block c.blocks f j (c.entry j) ≡ some e
      kept (constant r) j w = w
      kept (argument i) j w = w
      kept (local n) j w = w
      kept (function n) j w = rw w (ground arith)
      kept other j w = w

  pub declare_function-Extends : (c : Code V B) → Extends c (declare_function c)
  declare_function-Extends c = record {
    clock = omega arith;
    blocks = omega arith;
    functions = omega arith;
    code = λ j h. Prefix_refl (c.code j);
    incoming = λ j h. refl;
    entry = λ j e h w. ground arith;
  }

  -- what follows an instruction that was appended to block `k`
  pub code_after-append_instr :
      (k : ℕ) (i : Instr V B) (c m : Code V B)
      → Prefix ((append_instr k i c).code k) (m.code k)
      → code_after m c k ≡ (c.clock, i) ∷ code_after m (append_instr k i c) k
  code_after-append_instr k i c m h =
      subst
        (λ b.
          code_after m c k
          ≡ (c.clock, i)
            ∷ drop (length (if b then c.code k ++ (c.clock, i) ∷ [] else c.code k)) (m.code k))
        (sym (eq_self k))
        (drop-snoc (c.code k) (c.clock, i)
          (subst (λ b. Prefix (if b then c.code k ++ (c.clock, i) ∷ [] else c.code k) (m.code k))
            (eq_self k) h))

-- three blocks in a row
abbrev pub three_blocks : {D V B : Type 0} → Kind D → Code V B → Code V B
three_blocks k c = append_block k (append_block k (append_block k c))

module _ {D V B : Type 0} (k : Kind D) (c : Code V B) where
  pub three_blocks-Grows : (n : ℕ) → Grows n c (three_blocks k c)
  three_blocks-Grows n = Grows-trans (append_block-Grows n k c) (inl refl) (
      Grows-trans (append_block-Grows n k (append_block k c)) (inl refl)
        (append_block-Grows n k (append_block k (append_block k c))))

  pub three_blocks-old : (h : ℕ) → h < c.blocks → (three_blocks k c).code h ≡ c.code h
  three_blocks-old h l = ground arith

  pub three_blocks-nil :
      (i : Instr V B) (h j : ℕ)
      → h < c.blocks
      → c.blocks ≤ j
      → j < c.blocks + 3
      → (append_instr h i (three_blocks k c)).code j ≡ []
  three_blocks-nil i h j l w w' = ground arith
