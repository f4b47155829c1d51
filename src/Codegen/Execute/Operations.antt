-- ===== src/Codegen/Execute/Operations.antt =====
-- The code for numbers, variables, operators and calls.
use lilc.Codegen.Execute.{Reg, num, Env, operand_of, as_num, as_bit, compute, computes}
use lilc.Codegen.Execute.Laws.{CodeLaws}
use lilc.Codegen.Execute.Build.{Acts, build-Makes}
use lilc.Codegen.Execute.Steps.{
  Frame, number_in, bit_in, Stands, Makes, nothing, pair, join, Makes-then, Makes-keep, Makes-less,
  Makes-refl,
}
use lilc.Codegen.Execute.Gives.{Gives, Gives-bind, Gives-map, Gives-null}
use lilc.Codegen.Interface.{Instr, fcmp_ult, LlvmLaws}
use lilc.Codegen.Meaning.{and_then}
use lilc.Codegen.Semantics.{truth, apply_op}
use lilc.Codegen.{Gen, Walk, call_llvm, codegen_dbl, codegen_var, build_op, codegen_binop}
use lilc.Common.{some_inj, ◌≡◌, refl, sym, ap, ◌∙◌, Option, none, some, Bytes, codes}
use lilc.Double.{Double}
use lilc.Outcome.{ok, M}
use lilc.Token.{TokType, tok_add, tok_sub, tok_mul, tok_div, tok_cmplt}

join-pair :
    {A C : Type 0} (p : Option A) (q : Option C) {a : A} {c : C}
    → join pair p q ≡ some (a, c)
    → (p ≡ some a) × (q ≡ some c)
join-pair none q e = cc
join-pair (some x) none e = cc
join-pair (some x) (some y) e = (ap (λ o. map0 o) e, ap (λ o. map1 o) e)
  where
    map0 : {A C : Type 0} → Option (A × C) → Option A
    map0 none = none
    map0 (some (a, c)) = some a

    map1 : {A C : Type 0} → Option (A × C) → Option C
    map1 none = none
    map1 (some (a, c)) = some c

module _ {D S T V B : Type 0} ⦃dbl : Double D⦄ (fr : Frame D S T V B) (laws : LlvmLaws fr.api)
    (lows : CodeLaws fr.ar fr.view fr.api) where
  -- A run that returns what denotes `x`, if it returns.
  abbrev pub WalksTo :
      {A C : Type 0} → Option C → (A → Env D → Option C) → M (Gen S T) (Option A) → Type 0
  WalksTo x den w =
      (b : B) (g : Gen S T)
      → Stands fr b g
      → Gives (λ v g'. Makes fr nothing (λ _. x) b g (den v) g') (w g)

  pub dbl-WalksTo : (x : D) → WalksTo (some x) (number_in fr) (codegen_dbl fr.api x)
  unfolding codegen_dbl
  dbl-WalksTo x b g h =
      Makes-refl fr nothing (λ _. some x) (number_in fr (fr.api.const_real x)) h
        (λ env env' keep. den env' ∙ sym (den env)) (λ a d env w p. den env ∙ w)
    where
      den : (env : Env D) → number_in fr (fr.api.const_real x) env ≡ some x
      den env = ap (λ k. as_num (operand_of fr.args env k)) (lows.kind-real x)

  pub var-WalksTo :
      (name : Bytes) → WalksTo (fr.vars name) (number_in fr) (codegen_var fr.api fr.table name)
  unfolding codegen_var
  var-WalksTo name b g h = go (fr.table.get g.named_vals name) refl
    where
      go :
          (o : Option V)
          → fr.table.get g.named_vals name ≡ o
          → Gives (λ v g'. Makes fr nothing (λ _. fr.vars name) b g (number_in fr v) g') (ok (o, g))
      go none e = tt
      go (some v) e =
          Makes-refl fr nothing (λ _. fr.vars name) (number_in fr v) h
            (λ env env' keep. h.variables name v e env' ∙ sym (h.variables name v e env))
            (λ a d env w p. h.variables name v e env ∙ w)

  -- an instruction that computes
  pub compute-Acts :
      {C : Type 0} (read : Option (Reg D) → Option C) (i : Instr V B) (env : Env D) (r : Reg D)
      {d : C}
      → compute fr.ar fr.view fr.args env i ≡ some r
      → read (some r) ≡ some d
      → Acts fr laws lows read i env d
  compute-Acts read i env r e reads = record {
    result = r;
    reads = reads;
    folds = λ r' e'. some_inj (sym e' ∙ e);
    executes = λ prev here n rest res run. computes r e run;
  }

  abbrev operands_of : V → V → Env D → Option (D × D)
  operands_of l r env = join pair (number_in fr l env) (number_in fr r env)

  on_operands :
      (l r : V) (f : D → D → Reg D) (a : D × D) (env : Env D)
      → operands_of l r env ≡ some a
      → (and_then (number_in fr l env) λ x. and_then (number_in fr r env) λ y. some (f x y))
        ≡ some (f a.0 a.1)
  on_operands l r f a env e =
      let (p, q) = join-pair (number_in fr l env) (number_in fr r env) e in
      λ i. and_then (p i) λ x. and_then (q i) λ y. some (f x y)

  abbrev Ops : TokType → V → V → B → Gen S T → V → Gen S T → Type 0
  Ops op l r b g v g' =
      Makes fr (operands_of l r) (λ (x, y). apply_op fr.ar op x y) b g (number_in fr v) g'

  op-Gives :
      (op : TokType) (l r : V) (b : B) (g : Gen S T)
      → Stands fr b g
      → Gives (Ops op l r b g) (build_op fr.api op l r g)
  unfolding build_op call_llvm
  op-Gives tok_add l r b g h =
      build-Makes fr laws lows (operands_of l r) (λ (x, y). some (fr.ar.add x y)) as_num _ b g h
        λ a d env w p. compute-Acts as_num _ env _ (on_operands l r _ a env p) w
  op-Gives tok_sub l r b g h =
      build-Makes fr laws lows (operands_of l r) (λ (x, y). some (fr.ar.sub x y)) as_num _ b g h
        λ a d env w p. compute-Acts as_num _ env _ (on_operands l r _ a env p) w
  op-Gives tok_mul l r b g h =
      build-Makes fr laws lows (operands_of l r) (λ (x, y). some (fr.ar.mul x y)) as_num _ b g h
        λ a d env w p. compute-Acts as_num _ env _ (on_operands l r _ a env p) w
  op-Gives tok_div l r b g h =
      build-Makes fr laws lows (operands_of l r) (λ (x, y). some (fr.ar.div x y)) as_num _ b g h
        λ a d env w p. compute-Acts as_num _ env _ (on_operands l r _ a env p) w
  op-Gives tok_cmplt l r b g h = Makes-then fr below (
      build-Makes fr laws lows (bit_in fr _) (λ t. some (truth fr.ar t)) as_num _ below.last _
        below.stands
        λ a d env w p.
          compute-Acts as_num _ env (num (truth fr.ar a))
            (ap (λ o. and_then o λ t. some (num (truth fr.ar t))) p) w)
    where
      below :
          Makes fr
            (operands_of l r)
            (λ (x, y). some (fr.ar.ult x y))
            b
            g
            (bit_in fr (fr.api.build (fcmp_ult l r (codes "cmptmp")) g.llvm).0)
            (record g { llvm = (fr.api.build (fcmp_ult l r (codes "cmptmp")) g.llvm).1 })
      below =
          build-Makes fr laws lows (operands_of l r) (λ (x, y). some (fr.ar.ult x y)) as_bit _ b g h
            λ a d env w p. compute-Acts as_bit _ env _ (on_operands l r _ a env p) w
  op-Gives _ l r b g h = tt

  join-then :
      {A C E : Type 0} (x : Option A) (y : Option C) (f : A → C → Option E)
      → (and_then x λ a. and_then (join pair (some a) y) λ (a, c). f a c)
        ≡ (and_then x λ a. and_then y λ c. f a c)
  join-then none y f = refl
  join-then (some a) none f = refl
  join-then (some a) (some c) f = refl

  pub binop-WalksTo :
      (x y : Option D) (wl wr : Walk S T V) (op : TokType)
      → WalksTo x (number_in fr) wl
      → WalksTo y (number_in fr) wr
      → WalksTo
          (and_then x λ a. and_then y λ c. apply_op fr.ar op a c)
          (number_in fr)
          (codegen_binop fr.api wl wr op)
  unfolding codegen_binop
  binop-WalksTo x y wl wr op hl hr b g h =
      Gives-bind _ Goal (wl g) _ (hl b g h)
        (λ l g1 left.
          Gives-bind _ Goal (wr g1) _ (hr left.last g1 left.stands)
            (λ r g2 right.
              let operands = Makes-keep fr pair (number_in fr l) left.steady right in
              Gives-map _ Goal _
                (λ v g3 made.
                  Makes-less fr (λ _ d w. join-then x y (apply_op fr.ar op) ∙ w)
                    (Makes-then fr left (Makes-then fr operands made)))
                (op-Gives op l r operands.last g2 operands.stands))
            (λ g2. tt))
        (λ g1. Gives-null Goal (wr g1))
    where
      Goal : V → Gen S T → Type 0
      Goal v g' =
          Makes fr nothing (λ _. and_then x λ a. and_then y λ c. apply_op fr.ar op a c) b g
            (number_in fr v) g'
