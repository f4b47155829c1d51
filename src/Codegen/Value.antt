-- ===== src/Codegen/Value.antt =====
-- What the generated code computes, for expressions of numbers, variables, operators, calls and blocks.
use lilc.Ast.{
  Node, dbl_node, block_node, var_node, op_bin_node, funccall_node, Nodes, nil, cons, size,
}
use lilc.Codegen.Interface.{Instr, fcmp_ult, call, Llvm, LlvmLaws, NamedVals}
use lilc.Codegen.Scope.{Returns, returns, Returns-then}
use lilc.Codegen.{
  Gen, Walk, or_null, call_llvm, build, codegen_dbl, codegen_var, build_op, codegen_binop,
  codegen_funccall, do_codegen, codegen_block, codegen_args,
}
use lilc.Common.{
  ℕ, subst, ◌∙◌, sym, ◌≡◌, refl, Bool, true, false, Option, none, some, List, [], ◌∷◌, map, ◌==◌,
  Bytes, codes, not, if◌then◌else◌,
}
use lilc.Double.{Double}
use lilc.Outcome.{Outcome, ok, bind, M, pure, ◌>>=◌}
use lilc.Token.{TokType, tok_add, tok_sub, tok_mul, tok_div, tok_cmplt}
use lilc.Codegen.Meaning.{
  Meaning, MeaningLaws, and_then, Names, op_of, eval, eval_block, eval_args, Means,
}

module _ {D S T V B : Type 0} ⦃dbl : Double D⦄ {api : Llvm D S V B} (laws : LlvmLaws api)
    (table : NamedVals T V) {m : Meaning D V} (meant : MeaningLaws api m) (names : Names D V) where
  -- If there is a value, the run returns what stands for it, in a state with the same names.
  abbrev Computes : {A C : Type 0} → (C → A) → Option A → Outcome (Option C × Gen S T) → Type 0
  Computes den none r = Unit
  Computes {C = C} den (some a) r =
      Returns (λ o. (v : C) × (o ≡ some v) × (den v ≡ a)) (Means api table m names) r

  Computes-step :
      {A A' C C' : Type 0} (den : C → A) (den' : C' → A') (o : Option A) (k : A → Option A')
      (r : Outcome (Option C × Gen S T)) (f : C → M (Gen S T) (Option C'))
      → Computes den o r
      → ((v : C) (g : Gen S T) → Means api table m names g → Computes den' (k (den v)) (f v g))
      → Computes den' (and_then o k) (bind r λ (x, g). or_null x f g)
  Computes-step den den' none k r f h next = tt
  Computes-step den den' (some a) k r f h next =
      Returns-then (Computes den' (k a)) h λ (x, g) (v, e, d) n. rw (e, sym d) (next v g n)

  Means-build :
      (i : Instr V B) (g : Gen S T)
      → Means api table m names g
      → Means api table m names (record g { llvm = (api.build i g.llvm).1 })
  Means-build i g h = record {
    variables = h.variables;
    functions = λ n. (laws.same-build i g.llvm).named n ∙ h.functions n;
    counts = λ f. (laws.same-build i g.llvm).params f ∙ h.counts f;
  }

  build-Computes :
      (i : Instr V B) (g : Gen S T) {d : D}
      → Means api table m names g
      → m.value_of (api.build i g.llvm).0 ≡ d
      → Computes m.value_of (some d) (bind (build api i g) λ (v, g'). ok (some v, g'))
  unfolding call_llvm
  build-Computes i g h e = returns ((api.build i g.llvm).0, refl, e) (Means-build i g h)

  var-Computes :
      (name : Bytes) (g : Gen S T)
      → Means api table m names g
      → Computes m.value_of (names.variable name) (codegen_var api table name g)
  unfolding codegen_var
  var-Computes name g h = rw (h.variables name) (go (table.get g.named_vals name))
    where
      go : (o : Option V) → Computes m.value_of (and_then o (λ v. some (m.value_of v))) (ok (o, g))
      go none = tt
      go (some v) = returns (v, refl, refl) h

  op-Computes :
      (op : TokType) (l r : V) (g : Gen S T)
      → Means api table m names g
      → Computes m.value_of (op_of m op (m.value_of l) (m.value_of r)) (build_op api op l r g)
  unfolding build_op call_llvm
  op-Computes tok_add l r g h = build-Computes _ g h (meant.of_add l r _ g.llvm)
  op-Computes tok_sub l r g h = build-Computes _ g h (meant.of_sub l r _ g.llvm)
  op-Computes tok_mul l r g h = build-Computes _ g h (meant.of_mul l r _ g.llvm)
  op-Computes tok_div l r g h = build-Computes _ g h (meant.of_div l r _ g.llvm)
  op-Computes tok_cmplt l r g h =
      build-Computes _ _ (Means-build (fcmp_ult l r (codes "cmptmp")) g h)
        (meant.of_below l r (codes "cmptmp") _ g.llvm _)
  op-Computes _ l r g h = tt

  binop-Computes :
      (op : TokType) (x y : Option D) (wl wr : Walk S T V) (g : Gen S T)
      → Computes m.value_of x (wl g)
      → ((g' : Gen S T) → Means api table m names g' → Computes m.value_of y (wr g'))
      → Computes m.value_of
          (and_then x λ a. and_then y λ b. op_of m op a b)
          (codegen_binop api wl wr op g)
  unfolding codegen_binop
  binop-Computes op none y wl wr g hl hr = tt
  binop-Computes op (some a) none wl wr g hl hr = tt
  binop-Computes op (some a) (some b) wl wr g hl hr =
      Returns-then (Computes m.value_of (op_of m op a b)) hl λ s (v, e, d) n.
        Returns-then (Computes m.value_of (op_of m op a b)) (hr s.1 n)
          λ s2 (v2, e2, d2) n2. rw (e, e2, sym d, sym d2) (op-Computes op v v2 s2.1 n2)

  call-Computes :
      (name : Bytes) (k : ℕ) (ds : Option (List D)) (walk_args : M (Gen S T) (Option (List V)))
      (g : Gen S T)
      → Means api table m names g
      → Computes (map m.value_of) ds (walk_args g)
      → Computes m.value_of
          (and_then
            (names.function name)
            λ f. if names.params f == k then and_then ds (λ xs. some (m.apply f xs)) else none)
          (codegen_funccall api name k walk_args g)
  unfolding codegen_funccall
  call-Computes name k ds walk_args g h ha = rw (h.functions name) (go (names.function name))
    where
      called :
          (f : V) (b : Bool)
          → Computes m.value_of (if b then and_then ds (λ xs. some (m.apply f xs)) else none) (
              (if not b
                  then pure none
                  else (walk_args >>= λ args.
                      or_null args λ vs. build api (call f vs name) >>= λ v. pure (some v)))
                g)
      called f false = tt
      called f true =
          Computes-step (map m.value_of) m.value_of ds (λ xs. some (m.apply f xs)) (walk_args g) _
            ha λ vs g' n. build-Computes (call f vs name) g' n (meant.of_call f vs name g'.llvm)

      go :
          (o : Option V)
          → Computes m.value_of
              (and_then o
                λ f. if names.params f == k then and_then ds (λ xs. some (m.apply f xs)) else none)
              (or_null o
                (λ f.
                  if not (api.count_params f g.llvm == k)
                  then pure none
                  else (walk_args >>= λ args.
                      or_null args λ vs. build api (call f vs name) >>= λ v. pure (some v)))
                g)
      go none = tt
      go (some f) = rw (h.counts f) (called f (names.params f == k))

  mutual
    unfolding do_codegen eval codegen_dbl

    expr-Computes :
        (n : Node D) (g : Gen S T)
        → Means api table m names g
        → Computes m.value_of (eval m names n) (do_codegen api table n g)
    expr-Computes (dbl_node val) g h = returns (api.const_real val, refl, meant.of_real val) h
    expr-Computes (var_node name) g h = var-Computes name g h
    expr-Computes (op_bin_node left right op) g h =
        binop-Computes op (eval m names left) (eval m names right) (do_codegen api table left)
          (do_codegen api table right) g (expr-Computes left g h) (λ g' n. expr-Computes right g' n)
    expr-Computes (block_node nil) g h = tt
    expr-Computes (block_node (cons n ns)) g h =
        Computes-step m.value_of m.value_of (eval m names n) (λ d. eval_block m names d ns)
          (do_codegen api table n g) _ (expr-Computes n g h) λ v g' w. block-Computes v ns g' w
    expr-Computes (funccall_node name args) g h =
        call-Computes name (size args) (eval_args m names args) (codegen_args api table args) g h
          (args-Computes args g h)
    expr-Computes _ g h = tt

    block-Computes :
        (v : V) (ns : Nodes D) (g : Gen S T)
        → Means api table m names g
        → Computes m.value_of
            (eval_block m names (m.value_of v) ns)
            (codegen_block api table (some v) ns g)
    block-Computes v nil g h = returns (v, refl, refl) h
    block-Computes v (cons n ns) g h =
        Computes-step m.value_of m.value_of (eval m names n) (λ d. eval_block m names d ns)
          (do_codegen api table n g) _ (expr-Computes n g h) λ v' g' w. block-Computes v' ns g' w

    args-Computes :
        (ns : Nodes D) (g : Gen S T)
        → Means api table m names g
        → Computes (map m.value_of) (eval_args m names ns) (codegen_args api table ns g)
    args-Computes nil g h = returns ([], refl, refl) h
    args-Computes (cons n ns) g h =
        Computes-step m.value_of (map m.value_of) (eval m names n)
          (λ d. and_then (eval_args m names ns) λ ds. some (d ∷ ds)) (do_codegen api table n g) _
          (expr-Computes n g h)
          λ v g' w.
            Computes-step (map m.value_of) (map m.value_of) (eval_args m names ns)
              (λ ds. some (m.value_of v ∷ ds)) (codegen_args api table ns g') _
              (args-Computes ns g' w) λ vs g2 w2. returns (v ∷ vs, refl, refl) w2

  -- In a state whose symbol table and functions offer names with their values and numbers of
  -- parameters, `do_codegen` on an expression that has a value (numbers, variables, operators, calls
  -- with as many arguments as parameters, and blocks) returns what stands for this value, by LLVM's
  -- documentation of its instructions. The names stay as they are.
  pub do_codegen-eval :
      (n : Node D) (g : Gen S T) {d : D}
      → Means api table m names g
      → eval m names n ≡ some d
      → Returns
          (λ o. (v : V) × (o ≡ some v) × (m.value_of v ≡ d))
          (Means api table m names)
          (do_codegen api table n g)
  do_codegen-eval n g h e =
      subst (λ o. Computes m.value_of o (do_codegen api table n g)) e (expr-Computes n g h)
