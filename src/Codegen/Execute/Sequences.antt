-- ===== src/Codegen/Execute/Sequences.antt =====
-- The code for calls, and for one node after another.
use lilc.Codegen.Execute.{num, Env, as_num, calls}
use lilc.Codegen.Execute.Laws.{CodeLaws}
use lilc.Codegen.Execute.Build.{Acts, build-Makes}
use lilc.Codegen.Execute.Operations.{WalksTo}
use lilc.Codegen.Execute.Steps.{
  Frame, code_of, number_in, numbers_in, Steady, Stands, Makes, nothing, join, Makes-then,
  Makes-keep, Makes-after, Makes-refl,
}
use lilc.Codegen.Execute.Gives.{Gives, Gives-bind, Gives-map}
use lilc.Codegen.Interface.{call, LlvmLaws}
use lilc.Codegen.Meaning.{and_then}
use lilc.Codegen.{Gen, Walk, or_null, call_llvm, build, codegen_funccall}
use lilc.Common.{
  ℕ, ◌≡◌, refl, ◌∙◌, Bool, true, false, not, Option, none, some, List, [], ◌∷◌, Bytes, ◌==◌,
  if◌then◌else◌,
}
use lilc.Double.{Double}
use lilc.Outcome.{M, pure, ◌>>=◌}

module _ {D S T V B : Type 0} ⦃dbl : Double D⦄ (fr : Frame D S T V B) (laws : LlvmLaws fr.api)
    (lows : CodeLaws fr.ar fr.view fr.api) where
  call-Acts :
      (func : V) (vs : List V) (name : Bytes) (xs : List D) (y : D) (env : Env D)
      → numbers_in fr vs env ≡ some xs
      → fr.Call func xs y
      → Acts fr laws lows as_num (call func vs name) env y
  call-Acts func vs name xs y env e run = record {
    result = num y;
    reads = refl;
    folds = λ r e. cc;
    executes = λ prev here n rest res next. calls xs y e run next;
  }

  pub call-WalksTo :
      (name : Bytes) (count : ℕ) (xs : Option (List D)) (walk_args : M (Gen S T) (Option (List V)))
      → WalksTo fr laws lows xs (numbers_in fr) walk_args
      → WalksTo fr laws lows
          (and_then xs (fr.call_value name))
          (number_in fr)
          (codegen_funccall fr.api name count walk_args)
  unfolding codegen_funccall call_llvm
  call-WalksTo name count xs walk_args ha b g h = go (fr.api.get_named_function name g.llvm) refl
    where
      Goal : V → Gen S T → Type 0
      Goal v g' = Makes fr nothing (λ _. and_then xs (fr.call_value name)) b g (number_in fr v) g'

      called :
          (func : V) (t : Bool)
          → fr.api.get_named_function name g.llvm ≡ some func
          → Gives Goal (
              (if not t
                  then pure none
                  else (walk_args >>= λ args.
                      or_null args λ vs. build fr.api (call func vs name) >>= λ v. pure (some v)))
                g)
      called func false e = tt
      called func true e =
          Gives-bind _ Goal (walk_args g) _ (ha b g h)
            (λ vs g1 args. Makes-then fr args (
              build-Makes fr laws lows (numbers_in fr vs) (fr.call_value name) as_num
                (call func vs name) args.last g1 args.stands
                λ zs d env w p. call-Acts func vs name zs d env p (h.functions name func e zs d w)))
            (λ g1. tt)

      go :
          (o : Option V)
          → fr.api.get_named_function name g.llvm ≡ o
          → Gives Goal (
              or_null o
                (λ func.
                  if not (fr.api.count_params func g.llvm == count)
                  then pure none
                  else (walk_args >>= λ args.
                      or_null args λ vs. build fr.api (call func vs name) >>= λ v. pure (some v)))
                g)
      go none e = tt
      go (some func) e = called func (fr.api.count_params func g.llvm == count) e

  pub nil-WalksTo : WalksTo fr laws lows (some []) (numbers_in fr) (pure (some []))
  nil-WalksTo b g h =
      Makes-refl fr nothing (λ _. some []) (numbers_in fr []) h (λ env env' keep. refl)
        (λ a d env w p. w)

  join-cons :
      {A C E : Type 0} (x : Option A) (y : Option C) (f : A → C → E)
      → (and_then x λ a. join f (some a) y) ≡ (and_then x λ a. and_then y λ c. some (f a c))
  join-cons none y f = refl
  join-cons (some a) y f = refl

  -- one argument and the rest
  pub cons-WalksTo :
      (x : Option D) (xs : Option (List D)) (w : Walk S T V) (ws : M (Gen S T) (Option (List V)))
      → WalksTo fr laws lows x (number_in fr) w
      → WalksTo fr laws lows xs (numbers_in fr) ws
      → WalksTo fr laws lows
          (and_then x λ a. and_then xs λ l. some (a ∷ l))
          (numbers_in fr)
          (w >>= λ val. or_null val λ v. ws >>= λ values. or_null values λ vs. pure (some (v ∷ vs)))
  cons-WalksTo x xs w ws h hs b g stands =
      Gives-bind _ Goal (w g) _ (h b g stands)
        (λ v g1 first.
          Gives-bind _ Goal (ws g1) _ (hs first.last g1 first.stands)
            (λ vs g2 rest.
              Makes-then fr first (Makes-keep fr (λ a l. a ∷ l) (number_in fr v) first.steady rest))
            (λ g2. tt))
        (λ g1. tt)
    where
      Goal : List V → Gen S T → Type 0
      Goal vs g' =
          Makes fr nothing (λ _. and_then x λ a. and_then xs λ l. some (a ∷ l)) b g
            (numbers_in fr vs) g'

  -- A run that goes on from a value and its number.
  abbrev pub GoesOn : (D → Option D) → (V → Walk S T V) → Type 0
  GoesOn k w =
      (v : V) (b : B) (g : Gen S T)
      → Stands fr b g
      → Steady fr (code_of fr g) (number_in fr v)
      → Gives (λ v' g'. Makes fr (number_in fr v) k b g (number_in fr v') g') (w v g)

  pub done-GoesOn : GoesOn some (λ v. pure (some v))
  done-GoesOn v b g h steady =
      Makes-refl fr (number_in fr v) some (number_in fr v) h steady (λ a d env w p. p ∙ w)

  pub first-WalksTo :
      (x : Option D) (k : D → Option D) (w : Walk S T V) (rest : V → Walk S T V)
      → WalksTo fr laws lows x (number_in fr) w
      → GoesOn k rest
      → WalksTo fr laws lows (and_then x k) (number_in fr) (w >>= λ val. or_null val rest)
  first-WalksTo x k w rest h hk b g stands =
      Gives-bind _ Goal (w g) _ (h b g stands)
        (λ v1 g1 first.
          Gives-map _ Goal _ (λ v2 g2 made. Makes-then fr first made)
            (hk v1 first.last g1 first.stands first.steady))
        (λ g1. tt)
    where
      Goal : V → Gen S T → Type 0
      Goal v' g' = Makes fr nothing (λ _. and_then x k) b g (number_in fr v') g'

  -- the next statement, and the ones behind it
  pub next-GoesOn :
      (x : Option D) (k : D → Option D) (w : Walk S T V) (rest : V → Walk S T V)
      → WalksTo fr laws lows x (number_in fr) w
      → GoesOn k rest
      → GoesOn (λ _. and_then x k) (λ _. w >>= λ val. or_null val rest)
  next-GoesOn x k w rest h hk v b g stands steady =
      Gives-map _ _ _ (λ v' g' made. Makes-after fr (number_in fr v) made)
        (first-WalksTo x k w rest h hk b g stands)
