-- ===== src/Codegen/Execute/Parts.antt =====
-- The parts of an if, put together: the branch, the two arms and the phi.
use lilc.Codegen.Execute.{Env, from_block}
use lilc.Codegen.Execute.Laws.{CodeLaws}
use lilc.Codegen.Execute.Arms.{Armed}
use lilc.Codegen.Execute.Phi.{Merged}
use lilc.Codegen.Execute.Grows.{Extends, Grows, Moved, Extends-trans, Grows-trans}
use lilc.Codegen.Execute.Opens.{Opened}
use lilc.Codegen.Execute.Steps.{Frame, code_of, place_of, rest_of, number_in, Keeps, Runs, Makes}
use lilc.Codegen.Interface.{LlvmLaws}
use lilc.Codegen.{Gen}
use lilc.Common.{
  ℕ, ◌≡◌, ◌≢◌, inl, inr, refl, sym, ap, ◌∙◌, subst, Bool, true, false, Option, some, [], ◌∷◌, drop,
  length, if◌then◌else◌, arith,
}
use lilc.Double.{Double}

module _ {D S T V B : Type 0} ⦃dbl : Double D⦄ (fr : Frame D S T V B) (laws : LlvmLaws fr.api)
    (lows : CodeLaws fr.ar fr.view fr.api) where
  from_first :
      (prev : ℕ) (t e : V × B)
      → place_of fr t.1 ≡ prev
      → from_block fr.ar fr.view prev (t ∷ e ∷ []) ≡ some t.0
  from_first prev t e h = ground arith

  from_second :
      (prev : ℕ) (t e : V × B)
      → place_of fr t.1 ≢ prev
      → place_of fr e.1 ≡ prev
      → from_block fr.ar fr.view prev (t ∷ e ∷ []) ≡ some e.0
  from_second prev t e n h = ground arith

  -- What the parts of an if make, from the branch in `g1` to the phi in `g4`.
  pub record Parts (c : V) (x y : Option D) (b : B) (g1 : Gen S T) (v : V) (g4 : Gen S T)
      : Type 0 where
    pub then_block : B
    pub else_block : B
    pub merge_block : B
    pub then_arm : V × B
    pub else_arm : V × B
    pub g2 : Gen S T
    pub g3 : Gen S T
    pub g' : Gen S T
    pub opened : Opened fr laws lows c b g1 then_block else_block merge_block g'
    pub then_armed :
        Armed fr laws lows x then_block merge_block (code_of fr g') then_arm.0 then_arm.1 g2
    pub else_armed :
        Armed fr laws lows y else_block merge_block (code_of fr g2) else_arm.0 else_arm.1 g3
    pub merged : Merged fr laws lows merge_block then_arm else_arm g3 v g4

  module _ {c : V} {x y : Option D} {b : B} {g1 : Gen S T} {v : V} {g4 : Gen S T}
      (ps : Parts c x y b g1 v g4) where
    apart : place_of fr ps.then_arm.1 ≢ place_of fr ps.else_arm.1
    apart = go ps.then_armed.moved ps.else_armed.moved
      where
        o : Opened fr laws lows c b g1 ps.then_block ps.else_block ps.merge_block ps.g'
        o = ps.opened

        go :
            Moved (code_of fr ps.g') (place_of fr ps.then_block) (place_of fr ps.then_arm.1)
            → Moved (code_of fr ps.g2) (place_of fr ps.else_block) (place_of fr ps.else_arm.1)
            → place_of fr ps.then_arm.1 ≢ place_of fr ps.else_arm.1
        go (inl h) (inl k) = omega (arith, h, k, o.second)
        go (inr h) (inl k) = omega (arith, h, k, o.third, o.blocks)
        go h (inr k) = omega (arith, k, ps.then_armed.stands.inside)

    empty_else : (code_of fr ps.g2).code (place_of fr ps.else_block) ≡ []
    empty_else =
        ps.then_armed.grows.others (place_of fr ps.else_block)
          (omega (arith, ps.opened.third, ps.opened.blocks)) (omega (arith, ps.opened.second))
        ∙ ps.opened.empty (place_of fr ps.else_block) (omega (arith, ps.opened.second))
            (omega (arith, ps.opened.third, ps.opened.blocks))

    empty_merge : (code_of fr ps.g3).code (place_of fr ps.merge_block) ≡ []
    empty_merge =
        ps.else_armed.grows.others (place_of fr ps.merge_block)
          (omega (arith, ps.then_armed.grows.extends.blocks, ps.opened.blocks))
          (omega (arith, ps.opened.third))
        ∙ ps.then_armed.grows.others (place_of fr ps.merge_block) (omega (arith, ps.opened.blocks))
            (omega (arith, ps.opened.second, ps.opened.third))
        ∙ ps.opened.empty (place_of fr ps.merge_block)
            (omega (arith, ps.opened.second, ps.opened.third)) (omega (arith, ps.opened.blocks))

    arms-Grows : Grows (place_of fr b) (code_of fr g1) (code_of fr ps.g2)
    arms-Grows = Grows-trans ps.opened.grows (inr ps.opened.first) ps.then_armed.grows

    both-Grows : Grows (place_of fr b) (code_of fr g1) (code_of fr ps.g3)
    both-Grows =
        Grows-trans arms-Grows (inr (omega (arith, ps.opened.first, ps.opened.second)))
          ps.else_armed.grows

    -- from the jump out of an arm to what follows the phi
    merges :
        {d res : D} {env env1 : Env D}
        → Extends (code_of fr g4) fr.module_code
        → Keeps fr (code_of fr g1) env env1
        → ((prev' : ℕ) (env' : Env D)
            → Keeps fr (code_of fr g1) env env'
            → number_in fr v env' ≡ some d
            → Runs fr prev' (place_of fr ps.merge_block) env' (rest_of fr g4 ps.merge_block) res)
        → (prev : ℕ) (env2 : Env D) (u : V)
        → from_block fr.ar fr.view prev (ps.then_arm ∷ ps.else_arm ∷ []) ≡ some u
        → Keeps fr (code_of fr g1) env1 env2
        → number_in fr u env2 ≡ some d
        → Runs fr prev
            (place_of fr ps.merge_block)
            env2
            (fr.module_code.code (place_of fr ps.merge_block))
            res
    merges {d} {res} e keep1 next prev env2 u pick keep2 p =
        subst (λ l. Runs fr prev (place_of fr ps.merge_block) env2 l res)
          (ap (λ l. drop (length l) (fr.module_code.code (place_of fr ps.merge_block))) empty_merge)
          (ps.merged.reaches e prev env2 res u d pick p λ env3 keep3 q.
            next prev env3
              (λ n l. keep3 n (omega (arith, l, both-Grows.extends.clock)) ∙ keep2 n l ∙ keep1 n l)
              q)

    takes_arm :
        {d res : D} {env env1 : Env D} (prev : ℕ) (to : B) (t : Bool)
        → Extends (code_of fr g4) fr.module_code
        → (if t then x else y) ≡ some d
        → to ≡ (if t then ps.then_block else ps.else_block)
        → Keeps fr (code_of fr g1) env env1
        → ((prev' : ℕ) (env' : Env D)
            → Keeps fr (code_of fr g1) env env'
            → number_in fr v env' ≡ some d
            → Runs fr prev' (place_of fr ps.merge_block) env' (rest_of fr g4 ps.merge_block) res)
        → Runs fr prev (place_of fr to) env1 (fr.module_code.code (place_of fr to)) res
    takes_arm {d} {res} {env1} prev to true e w eto keep next =
        subst (λ b. Runs fr prev (place_of fr b) env1 (fr.module_code.code (place_of fr b)) res)
          (sym eto)
          (subst (λ l. Runs fr prev (place_of fr ps.then_block) env1 l res)
            (ap (λ l. drop (length l) (fr.module_code.code (place_of fr ps.then_block)))
              (ps.opened.empty (place_of fr ps.then_block) (omega arith)
                (omega (arith, ps.opened.second, ps.opened.third, ps.opened.blocks))))
            (ps.then_armed.reaches
              (Extends-trans ps.else_armed.grows.extends (Extends-trans ps.merged.grows.extends e))
              d prev env1 res w
              λ env2 keep2 p.
                merges e keep next (place_of fr ps.then_arm.1) env2 ps.then_arm.0
                  (from_first _ ps.then_arm ps.else_arm refl)
                  (λ n l. keep2 n (omega (arith, l, ps.opened.grows.extends.clock))) p))
    takes_arm {d} {res} {env1} prev to false e w eto keep next =
        subst (λ b. Runs fr prev (place_of fr b) env1 (fr.module_code.code (place_of fr b)) res)
          (sym eto)
          (subst (λ l. Runs fr prev (place_of fr ps.else_block) env1 l res)
            (ap (λ l. drop (length l) (fr.module_code.code (place_of fr ps.else_block))) empty_else)
            (ps.else_armed.reaches (Extends-trans ps.merged.grows.extends e) d prev env1 res w
              λ env2 keep2 p.
                merges e keep next (place_of fr ps.else_arm.1) env2 ps.else_arm.0
                  (from_second _ ps.then_arm ps.else_arm apart refl)
                  (λ n l. keep2 n (omega (arith, l, arms-Grows.extends.clock))) p))

    pub Parts-Makes :
        Makes fr
          (number_in fr c)
          (λ a. if fr.ar.one a (dbl.of_int 0) then x else y)
          b
          g1
          (number_in fr v)
          g4
    Parts-Makes = record {
      last = ps.merge_block;
      stands = ps.merged.stands;
      grows =
          Grows-trans both-Grows
            (inr (omega (arith, ps.opened.first, ps.opened.second, ps.opened.third)))
            ps.merged.grows;
      moved = inr (omega (arith, ps.opened.first, ps.opened.second, ps.opened.third));
      steady = ps.merged.steady;
      reaches = λ e a d w prev env res p next.
          ps.opened.chooses
            (Extends-trans ps.then_armed.grows.extends
              (Extends-trans ps.else_armed.grows.extends (Extends-trans ps.merged.grows.extends e)))
            a prev env res p
            λ env1 to eto keep.
              takes_arm (place_of fr ps.opened.here) to (fr.ar.one a (dbl.of_int 0)) e w eto keep
                next;
    }
