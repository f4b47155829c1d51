-- ===== src/Codegen/Execute/Functions/Programs.antt =====
-- The code for a block of function definitions, and the calls of all of them.
use lilc.Ast.{Proto, Node, block_node}
use lilc.Codegen.Define.{outcome_of}
use lilc.Codegen.Execute.Functions.Body.{Use, use_in, value_in}
use lilc.Codegen.Execute.Functions.Definition.{Defined, funcdef-Gives}
use lilc.Codegen.Execute.Grows.{Extends, Extends-refl, Extends-trans}
use lilc.Codegen.Execute.Steps.{and_then-some}
use lilc.Codegen.Execute.Gives.{Gives, Gives-map}
use lilc.Codegen.Execute.{View, Calls}
use lilc.Codegen.Execute.Laws.{CodeLaws}
use lilc.Codegen.Interface.{Llvm, LlvmLaws, NamedVals}
use lilc.Codegen.Meaning.{and_then}
use lilc.Codegen.Programs.{Arities, declare, nodes_of, AreDefs, Has, arity-none, funcdef-Defines}
use lilc.Codegen.Scope.{is_name, is_name-eq}
use lilc.Codegen.Semantics.{Arith, bind_params, find_def, value, apply_def, run_program}
use lilc.Codegen.{Gen, Walk, or_null, do_codegen, codegen_block}
use lilc.Common.{
  some_inj, not_some, ℕ, zero, suc, ◌≡◌, refl, sym, ap, ◌∙◌, subst, Bool, true, false, Option, none,
  some, List, [], ◌∷◌, length, Bytes, ◌==◌, if◌then◌else◌, arith,
}
use lilc.Double.{Double}
use lilc.Outcome.{Outcome, bind}

module _ {D S T V B : Type 0} ⦃dbl : Double D⦄ {ar : Arith D} {view : View D S V B}
    {api : Llvm D S V B} (laws : LlvmLaws api) (lows : CodeLaws ar view api)
    (table : NamedVals T V) where
  -- From `g` to `g'` the functions of `defs` are defined: the code for each computes its body.
  pub record AllDefined (defs : List (Proto × Node D)) (g g' : Gen S T) : Type 0 where
    pub extends : Extends (view.look g.llvm) (view.look g'.llvm)
    pub kept :
        (n : Bytes) (h : V)
        → api.get_named_function n g.llvm ≡ some h
        → api.get_named_function n g'.llvm ≡ some h
    pub implements :
        (name : Bytes) (proto : Proto) (body : Node D)
        → find_def defs name ≡ some (proto, body)
        → (f : V) × (api.get_named_function name g'.llvm ≡ some f)
          × ((u : Use laws lows table proto g'.llvm)
              → Extends (view.look g'.llvm) u.module_code
              → (d : D) → value_in laws lows table u body ≡ some d
              → Calls ar view u.module_code (suc u.depth) f u.args d)

  none_defined : (g : Gen S T) → AllDefined [] g g
  none_defined g = record {
    extends = Extends-refl (view.look g.llvm);
    kept = λ n h e. e;
    implements = λ name proto body e. absurd (not_some e);
  }

  one_more :
      {proto : Proto} {body : Node D} {defs : List (Proto × Node D)} {g g1 g2 : Gen S T} {f : V}
      → Defined laws lows table proto body g f g1
      → AllDefined defs g1 g2
      → AllDefined ((proto, body) ∷ defs) g g2
  one_more {proto} {body} {defs} {g} {g1} {g2} {f} h hs = record {
    extends = Extends-trans h.extends hs.extends;
    kept = λ n k e. hs.kept n k (h.kept n k e);
    implements = λ name proto' body' e. choose name proto' body' (is_name name proto.name) refl e;
  }
    where
      Implemented : Bytes → Proto → Node D → Type 0
      Implemented name proto' body' =
          (f : V) × (api.get_named_function name g2.llvm ≡ some f)
          × ((u : Use laws lows table proto' g2.llvm)
              → Extends (view.look g2.llvm) u.module_code
              → (d : D) → value_in laws lows table u body' ≡ some d
              → Calls ar view u.module_code (suc u.depth) f u.args d)

      first : (name : Bytes) → name ≡ proto.name → Implemented name proto body
      first name e = (
        f,
        ap (λ n. api.get_named_function n g2.llvm) e ∙ hs.kept proto.name f h.found,
        λ u x d v. h.calls (use_in laws lows table hs.kept u) (Extends-trans hs.extends x) d v,
      )

      choose :
          (name : Bytes) (proto' : Proto) (body' : Node D) (b : Bool)
          → is_name name proto.name ≡ b
          → (if b then some (proto, body) else find_def defs name) ≡ some (proto', body')
          → Implemented name proto' body'
      choose name proto' body' true e w =
          subst (λ p. Implemented name p.0 p.1) (some_inj w)
            (first name (is_name-eq name proto.name e))
      choose name proto' body' false e w = hs.implements name proto' body' w

  pub Defined-AllDefined :
      {proto : Proto} {body : Node D} {g g' : Gen S T} {f : V}
      → Defined laws lows table proto body g f g'
      → AllDefined ((proto, body) ∷ []) g g'
  Defined-AllDefined {g'} h = one_more h (none_defined g')

  -- the next definition, and then the rest
  next-Gives :
      (proto : Proto) (body : Node D) (defs : List (Proto × Node D)) (g : Gen S T) (accepted : Bool)
      (func : V) (g1 : Gen S T) (rest : V → Walk S T V) {r : Outcome (Option V × Gen S T)}
      → r ≡ outcome_of laws table accepted func g1
      → Gives (Defined laws lows table proto body g) r
      → Gives (λ v g'. AllDefined defs g1 g') (rest func g1)
      → Gives (λ v g'. AllDefined ((proto, body) ∷ defs) g g') (bind r λ (v, g'). or_null v rest g')
  next-Gives proto body defs g accepted func g1 rest {r} e h k =
      subst (λ r. Gives Goal (bind r λ (v, g'). or_null v rest g')) (sym e)
        (go accepted (subst (Gives (Defined laws lows table proto body g)) e h))
    where
      Goal : V → Gen S T → Type 0
      Goal v g' = AllDefined ((proto, body) ∷ defs) g g'

      go :
          (b : Bool)
          → Gives (Defined laws lows table proto body g) (outcome_of laws table b func g1)
          → Gives Goal (bind (outcome_of laws table b func g1) λ (v, g'). or_null v rest g')
      go false h = tt
      go true h = Gives-map _ Goal (rest func g1) (λ v g' hs. one_more h hs) k

  defs-Gives :
      (defs : List (Proto × Node D)) (arities : Arities) (v : V) (g : Gen S T)
      → Has api arities g.llvm
      → AreDefs defs arities
      → Gives (λ v g'. AllDefined defs g g') (codegen_block api table (some v) (nodes_of defs) g)
  unfolding do_codegen
  defs-Gives [] arities v g has w = none_defined g
  defs-Gives ((proto, body) ∷ defs) arities v g has w =
      let (g1, offers, e, returned) = funcdef-Defines laws table g proto body arities has w.0 w.1 in
      next-Gives proto body defs g _ _ g1 (λ v. codegen_block api table (some v) (nodes_of defs)) e
        (funcdef-Gives laws lows table proto body g w.1
          (arity-none laws table g.llvm _ (has proto.name ∙ w.0)))
        (defs-Gives defs (declare proto arities) _ g1 offers.arity w.2)

  -- the same from the first statement on
  pub first-Gives :
      (proto : Proto) (body : Node D) (defs : List (Proto × Node D)) (arities : Arities)
      (g : Gen S T)
      → Has api arities g.llvm
      → AreDefs ((proto, body) ∷ defs) arities
      → Gives
          (λ v g'. AllDefined ((proto, body) ∷ defs) g g')
          (do_codegen api table (block_node (nodes_of ((proto, body) ∷ defs))) g)
  unfolding do_codegen
  first-Gives proto body defs arities g has w =
      let (g1, offers, e, returned) = funcdef-Defines laws table g proto body arities has w.0 w.1 in
      next-Gives proto body defs g _ _ g1 (λ v. codegen_block api table (some v) (nodes_of defs)) e
        (funcdef-Gives laws lows table proto body g w.1
          (arity-none laws table g.llvm _ (has proto.name ∙ w.0)))
        (defs-Gives defs (declare proto arities) _ g1 offers.arity w.2)

  -- In the finished module, calls one level deeper give what they give in the source.
  one_deeper :
      (defs : List (Proto × Node D)) {g g' : Gen S T} (k : ℕ) (name : Bytes) (f : V) (xs : List D)
      (d : D)
      → AllDefined defs g g'
      → ((n : Bytes) (h : V)
          → api.get_named_function n g'.llvm ≡ some h
          → (ys : List D) (y : D) → run_program ar defs k n ys ≡ some y
          → Calls ar view (view.look g'.llvm) k h ys y)
      → api.get_named_function name g'.llvm ≡ some f
      → and_then (find_def defs name) (apply_def ar (run_program ar defs k) xs) ≡ some d
      → Calls ar view (view.look g'.llvm) (suc k) f xs d
  one_deeper defs {g'} k name f xs d h inner e w =
      let (p, found, applied) =
        and_then-some (find_def defs name) (apply_def ar (run_program ar defs k) xs) w in
      go p.0 p.1 found (length xs == length p.0.params) refl applied
    where
      call_of :
          (proto : Proto) → length xs ≡ length proto.params → Use laws lows table proto g'.llvm
      call_of proto l = record {
        module_code = view.look g'.llvm;
        depth = k;
        call_value = run_program ar defs k;
        args = xs;
        enough = l;
        functions = inner;
      }

      go :
          (proto : Proto) (body : Node D)
          → find_def defs name ≡ some (proto, body)
          → (b : Bool) → (length xs == length proto.params) ≡ b
          → (if b
              then value ar (run_program ar defs k) (bind_params proto.params xs) body
              else none)
            ≡ some d
          → Calls ar view (view.look g'.llvm) (suc k) f xs d
      go proto body found false l v = cc
      go proto body found true l v =
          let (f', e', calls) = h.implements name proto body found in
          subst (λ f. Calls ar view (view.look g'.llvm) (suc k) f xs d) (some_inj (sym e' ∙ e))
            (calls (call_of proto (ground arith)) (Extends-refl (view.look g'.llvm)) d v)

  -- In the finished module, every call gives what it gives in the source.
  pub AllDefined-Calls :
      (defs : List (Proto × Node D)) {g g' : Gen S T} (k : ℕ) (name : Bytes) (f : V) (xs : List D)
      (d : D)
      → AllDefined defs g g'
      → api.get_named_function name g'.llvm ≡ some f
      → run_program ar defs k name xs ≡ some d
      → Calls ar view (view.look g'.llvm) k f xs d
  unfolding run_program
  AllDefined-Calls defs zero name f xs d h e w = absurd (not_some w)
  AllDefined-Calls defs (suc k) name f xs d h e w =
      one_deeper defs k name f xs d h (λ n h' e' ys y w'. AllDefined-Calls defs k n h' ys y h e' w')
        e w

  -- A function that is called is there.
  pub AllDefined-named :
      (defs : List (Proto × Node D)) {g g' : Gen S T} (k : ℕ) (name : Bytes) (xs : List D) (d : D)
      → AllDefined defs g g'
      → run_program ar defs k name xs ≡ some d
      → (f : V) × (api.get_named_function name g'.llvm ≡ some f)
  unfolding run_program
  AllDefined-named defs zero name xs d h w = absurd (not_some w)
  AllDefined-named defs (suc k) name xs d h w =
      let (p, found, applied) =
        and_then-some (find_def defs name) (apply_def ar (run_program ar defs k) xs) w in
      let (f, e, calls) = h.implements name p.0 p.1 found in (f, e)
