-- ===== src/Codegen/Execute/Branches.antt =====
-- The code for an if.
use lilc.Codegen.Execute.Parts.{Parts-Makes}
use lilc.Codegen.Execute.Laws.{CodeLaws}
use lilc.Codegen.Execute.Arms.{Stands-moved_to, arm-Gives}
use lilc.Codegen.Execute.Phi.{merge_arms-Gives}
use lilc.Codegen.Execute.Opens.{Opened, open_branches-Opens}
use lilc.Codegen.Execute.Operations.{WalksTo}
use lilc.Codegen.Execute.Steps.{Frame, number_in, Makes, nothing, Makes-then}
use lilc.Codegen.Execute.Gives.{Gives, Gives-bind, Gives-map}
use lilc.Codegen.Interface.{LlvmLaws}
use lilc.Codegen.Meaning.{and_then}
use lilc.Codegen.{Gen, Walk, or_null, open_branches, arm, merge_arms, codegen_if}
use lilc.Common.{◌≡◌, sym, subst, Option, if◌then◌else◌, arith}
use lilc.Double.{Double}
use lilc.Outcome.{ok, bind}

module _ {D S T V B : Type 0} ⦃dbl : Double D⦄ (fr : Frame D S T V B) (laws : LlvmLaws fr.api)
    (lows : CodeLaws fr.ar fr.view fr.api) where
  pub if-WalksTo :
      (z x y : Option D) (wc wt we : Walk S T V)
      → WalksTo fr laws lows z (number_in fr) wc
      → WalksTo fr laws lows x (number_in fr) wt
      → WalksTo fr laws lows y (number_in fr) we
      → WalksTo fr laws lows
          (and_then z λ a. if fr.ar.one a (dbl.of_int 0) then x else y)
          (number_in fr)
          (codegen_if fr.api wc wt we)
  unfolding codegen_if
  if-WalksTo z x y wc wt we hc ht he b g h =
      Gives-bind _ Goal (wc g) _ (hc b g h)
        (λ c g1 made. go c g1 made (open_branches-Opens fr laws lows c made.last g1 made.stands))
        (λ g1. tt)
    where
      Goal : V → Gen S T → Type 0
      Goal v g' =
          Makes fr nothing (λ _. and_then z λ a. if fr.ar.one a (dbl.of_int 0) then x else y) b g
            (number_in fr v) g'

      arms : (t e m : B) → V → Walk S T V
      arms t e m c g' = bind (arm fr.api t m wt g') λ (a, g2).
          or_null a
            (λ a. λ g2.
              bind (arm fr.api e m we g2)
                λ (a', g3). or_null a' (λ a'. merge_arms fr.api m a a') g3)
            g2

      go :
          (c : V) (g1 : Gen S T) (made : Makes fr nothing (λ _. z) b g (number_in fr c) g1)
          → ((t : B) × (e : B) × (m : B) × (g' : Gen S T) × (open_branches fr.api c g1
                ≡ ok ((t, e, m), g'))
              × Opened fr laws lows c made.last g1 t e m g')
          → Gives Goal (bind (open_branches fr.api c g1) λ ((t, e, m), g'). arms t e m c g')
      go c g1 made (t, e, m, g', run, o) =
          subst (λ r. Gives Goal (bind r λ ((t, e, m), g'). arms t e m c g')) (sym run)
            (Gives-bind _ Goal (arm fr.api t m wt g') _
              (arm-Gives fr laws lows x wt t m g' ht (
                Stands-moved_to fr laws lows t o.stands
                  (omega (arith, o.second, o.third, o.blocks))))
              (λ ta g2 then_armed.
                Gives-bind _ Goal (arm fr.api e m we g2) _
                  (arm-Gives fr laws lows y we e m g2 he (
                    Stands-moved_to fr laws lows e then_armed.stands
                      (omega (arith, o.third, o.blocks, then_armed.grows.extends.blocks))))
                  (λ ea g3 else_armed.
                    Gives-map _ Goal _
                      (λ v g4 merged. Makes-then fr made (
                        Parts-Makes fr laws lows (record {
                          then_block = t;
                          else_block = e;
                          merge_block = m;
                          then_arm = ta;
                          else_arm = ea;
                          g2 = g2;
                          g3 = g3;
                          g' = g';
                          opened = o;
                          then_armed = then_armed;
                          else_armed = else_armed;
                          merged = merged;
                        })))
                      (merge_arms-Gives fr laws lows m ta ea g3 else_armed.stands (
                        omega (
                          arith, o.blocks, then_armed.grows.extends.blocks,
                          else_armed.grows.extends.blocks,
                        ))))
                  (λ g3. tt))
              (λ g2. tt))
