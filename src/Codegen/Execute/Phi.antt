-- ===== src/Codegen/Execute/Phi.antt =====
-- The phi behind the arms of an if.
use lilc.Codegen.Execute.Arms.{moved_to, code_of-moved_to, Stands-moved_to}
use lilc.Codegen.Execute.{
  num, local, Code, append_instr, append_incoming, Env, set_reg, operand_of, as_num, from_block,
  picks,
}
use lilc.Codegen.Execute.Laws.{CodeLaws}
use lilc.Codegen.Execute.Build.{Stands-same, build_lem}
use lilc.Codegen.Execute.Grows.{
  Extends, Grows, code_after, append_instr-Grows, code_after-append_instr, eq_self,
}
use lilc.Codegen.Execute.Steps.{
  Frame, code_of, place_of, rest_of, number_in, Keeps, Steady, Stands, Runs,
}
use lilc.Codegen.Execute.Gives.{Gives}
use lilc.Codegen.Interface.{Instr, phi, SameFunctions, LlvmLaws}
use lilc.Codegen.{Gen, call_llvm, change_llvm, merge_arms}
use lilc.Common.{ℕ, ◌<◌, ◌≡◌, refl, sym, ap, ◌∙◌, subst, some, [], ◌∷◌, codes, if◌then◌else◌, arith}
use lilc.Double.{Double}

module _ {D S T V B : Type 0} ⦃dbl : Double D⦄ (fr : Frame D S T V B) (laws : LlvmLaws fr.api)
    (lows : CodeLaws fr.ar fr.view fr.api) where
  abbrev phi_code : B → V × B → V × B → Code V B → Code V B
  phi_code m t e c =
      append_incoming c.clock e.0 e.1
        (append_incoming c.clock t.0 t.1 (append_instr (place_of fr m) (phi (codes "ifphitmp")) c))

  phi_code-Grows : (m : B) (t e : V × B) (c : Code V B) → Grows (place_of fr m) c (phi_code m t e c)
  phi_code-Grows m t e c =
      let h = append_instr-Grows (place_of fr m) (phi (codes "ifphitmp")) c in
      record {
        extends = record {
          clock = h.extends.clock;
          blocks = h.extends.blocks;
          functions = h.extends.functions;
          code = h.extends.code;
          incoming = λ j l. ground arith;
          entry = h.extends.entry;
        };
        others = h.others;
      }

  phi_code-incoming :
      (m : B) (t e : V × B) (c : Code V B) → (phi_code m t e c).incoming c.clock ≡ t ∷ e ∷ []
  phi_code-incoming m t e c = ground arith

  -- The value `v` that comes from the block `prev` becomes the value of the phi.
  pub record Merged (m : B) (t e : V × B) (g : Gen S T) (v : V) (g' : Gen S T) : Type 0 where
    pub stands : Stands fr m g'
    pub grows : Grows (place_of fr m) (code_of fr g) (code_of fr g')
    pub steady : Steady fr (code_of fr g') (number_in fr v)
    pub reaches :
        Extends (code_of fr g') fr.module_code
        → (prev : ℕ) (env : Env D) (res : D) (u : V) (d : D)
        → from_block fr.ar fr.view prev (t ∷ e ∷ []) ≡ some u
        → number_in fr u env ≡ some d
        → ((env' : Env D)
            → Keeps fr (code_of fr g) env env'
            → number_in fr v env' ≡ some d
            → Runs fr prev (place_of fr m) env' (rest_of fr g' m) res)
        → Runs fr prev (place_of fr m) env (rest_of fr g m) res

  module _ {b : B} (m : B) (t e : V × B) (g : Gen S T) (h : Stands fr b g)
      (l : place_of fr m < (code_of fr g).blocks) where
    abbrev instr : Instr V B
    instr = phi (codes "ifphitmp")

    abbrev g1 : Gen S T
    g1 = moved_to fr laws lows m g

    at : Stands fr m g1
    at = Stands-moved_to fr laws lows m h l

    abbrev r : V
    r = (fr.api.build instr g1.llvm).0

    abbrev s2 : S
    s2 = (fr.api.build instr g1.llvm).1

    abbrev s3 : S
    s3 = fr.api.add_incoming r t.0 t.1 s2

    abbrev g4 : Gen S T
    g4 = record g { llvm = fr.api.add_incoming r e.0 e.1 s3 }

    kind : fr.view.kind r ≡ local (code_of fr g).clock
    kind =
        (build_lem fr laws lows instr at refl).0
        ∙ ap (λ c. local c.clock) (code_of-moved_to fr laws lows m g)

    look : code_of fr g4 ≡ phi_code m t e (code_of fr g)
    look =
        lows.look-incoming r e.0 e.1 s3 _ kind
        ∙ ap (append_incoming (code_of fr g).clock e.0 e.1) (
            lows.look-incoming r t.0 t.1 s2 _ kind
            ∙ ap (append_incoming (code_of fr g).clock t.0 t.1) (
                (build_lem fr laws lows instr at refl).1
                ∙ ap (append_instr (place_of fr m) instr) (code_of-moved_to fr laws lows m g)))

    grown : Grows (place_of fr m) (code_of fr g) (code_of fr g4)
    grown =
        subst (Grows (place_of fr m) (code_of fr g)) (sym look)
          (phi_code-Grows m t e (code_of fr g))

    same : SameFunctions fr.api g1.llvm g4.llvm
    same = record {
      named = λ n.
          (laws.same-incoming r e.0 e.1 s3).named n
          ∙ (laws.same-incoming r t.0 t.1 s2).named n
          ∙ (laws.same-build instr g1.llvm).named n;
      params = λ f.
          (laws.same-incoming r e.0 e.1 s3).params f
          ∙ (laws.same-incoming r t.0 t.1 s2).params f
          ∙ (laws.same-build instr g1.llvm).params f;
    }

    stands : Stands fr m g4
    stands =
        Stands-same fr laws lows _ at same
          (laws.place-incoming r e.0 e.1 s3
            ∙ laws.place-incoming r t.0 t.1 s2
            ∙ laws.place-build instr g1.llvm
            ∙ at.place)
          (subst (λ c. place_of fr m < c.blocks) (sym look) l)

    behind :
        Extends (code_of fr g4) fr.module_code
        → rest_of fr g m ≡ ((code_of fr g).clock, instr) ∷ rest_of fr g4 m
    behind x =
        code_after-append_instr (place_of fr m) instr (code_of fr g) fr.module_code
          ((subst (λ c. Extends c fr.module_code) look x).code _ l)
        ∙ ap (λ c. ((code_of fr g).clock, instr) ∷ code_after fr.module_code c (place_of fr m))
            (sym look)

    incoming :
        Extends (code_of fr g4) fr.module_code
        → fr.module_code.incoming (code_of fr g).clock ≡ t ∷ e ∷ []
    incoming x =
        (subst (λ c. Extends c fr.module_code) look x).incoming _ (omega arith)
        ∙ phi_code-incoming m t e (code_of fr g)

    pub merge_arms-Gives : Gives (Merged m t e g) (merge_arms fr.api m t e g)
    unfolding merge_arms call_llvm change_llvm
    merge_arms-Gives = record {
      stands = stands;
      grows = grown;
      steady = λ env env' keep.
          subst (λ k. as_num (operand_of fr.args env' k) ≡ as_num (operand_of fr.args env k))
            (sym kind)
            (ap as_num (
              keep (code_of fr g).clock
                (subst (λ c. (code_of fr g).clock < c.clock) (sym look) (omega arith))));
      reaches = λ x prev env res u d pick p next.
          let step = (code_of fr g).clock in
          subst (λ l. Runs fr prev (place_of fr m) env l res) (sym (behind x))
            (picks u d (ap (from_block fr.ar fr.view prev) (incoming x) ∙ pick) p (
              next (set_reg env step (num d)) (λ n l. ground arith)
                (subst (λ k. as_num (operand_of fr.args (set_reg env step (num d)) k) ≡ some d)
                  (sym kind)
                  (ap (λ b. as_num (if b then some (num d) else env step)) (eq_self step)))));
    }
