-- ===== src/Codegen/Execute/Arms.antt =====
-- An arm of an if, with the jump out of it.
use lilc.Codegen.Execute.{Code, append_instr, Env, jumps}
use lilc.Codegen.Execute.Laws.{CodeLaws}
use lilc.Codegen.Execute.Build.{Stands-same, build_lem}
use lilc.Codegen.Execute.Grows.{
  Extends, Grows, Moved, code_after, Extends-trans, Grows-trans, append_instr-Grows,
  code_after-append_instr,
}
use lilc.Codegen.Execute.Operations.{WalksTo}
use lilc.Codegen.Execute.Steps.{
  Frame, code_of, place_of, number_in, Keeps, Steady, Stands, Runs, Makes, nothing,
}
use lilc.Codegen.Execute.Gives.{Gives, Gives-bind}
use lilc.Codegen.Interface.{br, LlvmLaws}
use lilc.Codegen.{Gen, Walk, call_llvm, change_llvm, block_or_fault, insert_block, arm}
use lilc.Common.{ℕ, ◌<◌, ◌≡◌, refl, sym, ◌∙◌, subst, Option, some, arith}
use lilc.Double.{Double}
use lilc.Outcome.{ok, bind}

module _ {D S T V B : Type 0} ⦃dbl : Double D⦄ (fr : Frame D S T V B) (laws : LlvmLaws fr.api)
    (lows : CodeLaws fr.ar fr.view fr.api) where
  abbrev pub moved_to : B → Gen S T → Gen S T
  moved_to b g = record g { llvm = fr.api.position_at_end b g.llvm }

  pub code_of-moved_to : (b : B) (g : Gen S T) → code_of fr (moved_to b g) ≡ code_of fr g
  code_of-moved_to b g = lows.look-position b g.llvm

  pub Stands-moved_to :
      {b : B} (b' : B) {g : Gen S T}
      → Stands fr b g
      → place_of fr b' < (code_of fr g).blocks
      → Stands fr b' (moved_to b' g)
  Stands-moved_to b' {g} h l =
      Stands-same fr laws lows _ h (laws.same-position b' g.llvm) (laws.place-position b' g.llvm)
        (subst (λ c. place_of fr b' < c.blocks) (sym (code_of-moved_to b' g)) l)

  -- From the end of `start` in the code `c` on, the arm comes to `v` and jumps from `e` to `merge`.
  pub record Armed (x : Option D) (start merge : B) (c : Code V B) (v : V) (e : B) (g' : Gen S T)
      : Type 0 where
    pub stands : Stands fr e g'
    pub grows : Grows (place_of fr start) c (code_of fr g')
    pub moved : Moved c (place_of fr start) (place_of fr e)
    pub steady : Steady fr (code_of fr g') (number_in fr v)
    pub reaches :
        Extends (code_of fr g') fr.module_code
        → (d : D) (prev : ℕ) (env : Env D) (res : D) → x ≡ some d
        → ((env' : Env D)
            → Keeps fr c env env'
            → number_in fr v env' ≡ some d
            → Runs fr
                (place_of fr e)
                (place_of fr merge)
                env'
                (fr.module_code.code (place_of fr merge))
                res)
        → Runs fr prev (place_of fr start) env (code_after fr.module_code c (place_of fr start)) res

  -- the jump to the merge block
  jump-Armed :
      {x : Option D} {start : B} {g g1 : Gen S T} {v : V} (merge : B)
      (made : Makes fr nothing (λ _. x) start g (number_in fr v) g1)
      → Armed x start merge
          (code_of fr g)
          v
          made.last
          (record g1 { llvm = (fr.api.build (br merge) g1.llvm).1 })
  jump-Armed {start} {g} {g1} {v} merge made = record {
    stands =
        Stands-same fr laws lows _ made.stands (laws.same-build (br merge) g1.llvm)
          (laws.place-build (br merge) g1.llvm ∙ made.stands.place)
          (subst (λ c. place_of fr made.last < c.blocks) (sym look) made.stands.inside);
    grows = Grows-trans made.grows made.moved jumped;
    moved = made.moved;
    steady = λ env env' keep.
        made.steady env env' λ n l. keep n (omega (arith, jumped.extends.clock, l));
    reaches = λ e d prev env res w next.
        made.reaches (Extends-trans jumped.extends e) tt d w prev env res refl
          λ prev1 env1 keep1 p1.
            subst (λ l. Runs fr prev1 (place_of fr made.last) env1 l res)
              (sym (
                code_after-append_instr (place_of fr made.last) (br merge) (code_of fr g1)
                  fr.module_code
                  ((subst (λ c. Extends c fr.module_code) look e).code _ made.stands.inside)))
              (jumps (next env1 keep1 p1));
  }
    where
      g2 : Gen S T
      g2 = record g1 { llvm = (fr.api.build (br merge) g1.llvm).1 }

      look : code_of fr g2 ≡ append_instr (place_of fr made.last) (br merge) (code_of fr g1)
      look = (build_lem fr laws lows (br merge) made.stands refl).1

      jumped : Grows (place_of fr made.last) (code_of fr g1) (code_of fr g2)
      jumped =
          subst (Grows (place_of fr made.last) (code_of fr g1)) (sym look)
            (append_instr-Grows (place_of fr made.last) (br merge) (code_of fr g1))

  pub arm-Gives :
      (x : Option D) (w : Walk S T V) (start merge : B) (g : Gen S T)
      → WalksTo fr laws lows x (number_in fr) w
      → Stands fr start (moved_to start g)
      → Gives (λ (v, e) g'. Armed x start merge (code_of fr g) v e g') (arm fr.api start merge w g)
  unfolding arm call_llvm change_llvm insert_block
  arm-Gives x w start merge g h stands =
      subst (λ c. Gives (λ (v, e) g'. Armed x start merge c v e g') (arm fr.api start merge w g))
        (code_of-moved_to start g)
        (Gives-bind _ Goal (w (moved_to start g)) _ (h start (moved_to start g) stands)
          (λ v g1 made.
            let done = jump-Armed merge made in
            subst
              (λ o. Gives Goal (bind (block_or_fault o (after g1)) λ (e, g2). ok (some (v, e), g2)))
              (sym done.stands.place) done)
          (λ g1. tt))
    where
      Goal : V × B → Gen S T → Type 0
      Goal r g' = Armed x start merge (code_of fr (moved_to start g)) r.0 r.1 g'

      after : Gen S T → Gen S T
      after g1 = record g1 { llvm = (fr.api.build (br merge) g1.llvm).1 }
