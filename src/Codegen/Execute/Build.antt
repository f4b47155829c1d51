-- ===== src/Codegen/Execute/Build.antt =====
-- One instruction that the code generator builds.
use lilc.Codegen.Execute.{
  Reg, constant, local, append_instr, Env, set_reg, operand_of, operand, compute,
}
use lilc.Codegen.Execute.Laws.{emitted, folded, CodeLaws}
use lilc.Codegen.Execute.Grows.{
  Extends, Grows, code_after, Grows-refl, append_instr-Grows, code_after-append_instr, eq_self,
}
use lilc.Codegen.Execute.Steps.{Frame, code_of, place_of, Stands, Runs, Makes}
use lilc.Codegen.Interface.{Instr, SameFunctions, same_trans, LlvmLaws}
use lilc.Codegen.{Gen}
use lilc.Common.{
  not_some, ℕ, ◌<◌, ◌≡◌, inl, refl, sym, ap, ◌∙◌, subst, Option, none, some, List, [], ◌∷◌,
  if◌then◌else◌, arith,
}
use lilc.Double.{Double}

module _ {D S T V B : Type 0} ⦃dbl : Double D⦄ (fr : Frame D S T V B) (laws : LlvmLaws fr.api)
    (lows : CodeLaws fr.ar fr.view fr.api) where
  -- The same variables and functions, in a block of the new code.
  pub Stands-same :
      {b b' : B} {g : Gen S T} (s : S)
      → Stands fr b g
      → SameFunctions fr.api g.llvm s
      → fr.api.get_insert_block s ≡ some b'
      → fr.view.number b' < (fr.view.look s).blocks
      → Stands fr b' (record g { llvm = s })
  Stands-same s h same place inside = record {
    place = place;
    kept = same_trans fr.api h.kept same;
    inside = inside;
    variables = h.variables;
    functions = λ name f e. h.functions name f (sym (same.named name) ∙ e);
  }

  -- An instruction that does not compute is always appended.
  pub build_lem :
      {b : B} {g : Gen S T} (i : Instr V B)
      → Stands fr b g
      → compute fr.ar fr.view [] (λ n. none) i ≡ none
      → (fr.view.kind (fr.api.build i g.llvm).0 ≡ local (code_of fr g).clock)
        × (fr.view.look (fr.api.build i g.llvm).1 ≡ append_instr (place_of fr b) i (code_of fr g))
  build_lem {b} {g} i h none_computed = elim (lows.look-build i g.llvm b h.place) [
    | emitted kind look ↦ (kind, look)
    | folded r kind look folds ↦ absurd (not_some (sym none_computed ∙ folds [] (λ n. none)))
  ]

  -- What an instruction does where it stands: its result is read by `read` as `d`.
  pub record Acts {C : Type 0} (read : Option (Reg D) → Option C) (i : Instr V B) (env : Env D)
      (d : C) : Type 0 where
    pub result : Reg D
    pub reads : read (some result) ≡ some d
    pub folds : (r : Reg D) → compute fr.ar fr.view fr.args env i ≡ some r → r ≡ result
    pub executes :
        (prev here n : ℕ) (rest : List (ℕ × Instr V B)) (res : D)
        → Runs fr prev here (set_reg env n result) rest res
        → Runs fr prev here env ((n, i) ∷ rest) res

  module _ {A C : Type 0} (before : Env D → Option A) (k : A → Option C)
      (read : Option (Reg D) → Option C) (i : Instr V B) (b : B) (g : Gen S T) where
    abbrev next_gen : Gen S T
    next_gen = record g { llvm = (fr.api.build i g.llvm).1 }

    abbrev result_of : Env D → Option C
    result_of env = read (operand fr.ar fr.view fr.args env (fr.api.build i g.llvm).0)

    emitted-Makes :
        Stands fr b g
        → fr.view.kind (fr.api.build i g.llvm).0 ≡ local (code_of fr g).clock
        → code_of fr next_gen ≡ append_instr (place_of fr b) i (code_of fr g)
        → ((a : A) (d : C) (env : Env D) → k a ≡ some d → before env ≡ some a → Acts read i env d)
        → Makes fr before k b g result_of next_gen
    emitted-Makes h kind look acts = record {
      last = b;
      stands =
          Stands-same _ h (laws.same-build i g.llvm) (laws.place-build i g.llvm ∙ h.place)
            (subst (λ c. place_of fr b < c.blocks) (sym look) h.inside);
      grows =
          subst (Grows (place_of fr b) (code_of fr g)) (sym look)
            (append_instr-Grows (place_of fr b) i (code_of fr g));
      moved = inl refl;
      steady = λ env env' keep.
          subst (λ kd. read (operand_of fr.args env' kd) ≡ read (operand_of fr.args env kd))
            (sym kind)
            (ap read (
              keep (code_of fr g).clock
                (subst (λ c. (code_of fr g).clock < c.clock) (sym look) (omega arith))));
      reaches = λ e a d w prev env res p next.
          let act = acts a d env w p in
          let step = (code_of fr g).clock in
          subst (λ l. Runs fr prev (place_of fr b) env l res)
            (sym (
              code_after-append_instr (place_of fr b) i (code_of fr g) fr.module_code
                ((subst (λ c. Extends c fr.module_code) look e).code _ h.inside)))
            (act.executes prev (place_of fr b) step _ res (
              subst
                (λ c.
                  Runs fr prev (place_of fr b) (set_reg env step act.result)
                    (code_after fr.module_code c (place_of fr b)) res)
                look
                (next prev (set_reg env step act.result) (λ n l. ground arith)
                  (subst (λ kd. read (operand_of fr.args (set_reg env step act.result) kd) ≡ some d)
                    (sym kind)
                    (ap (λ t. read (if t then some act.result else env step)) (eq_self step)
                      ∙ act.reads)))));
    }

    folded-Makes :
        (r : Reg D)
        → Stands fr b g
        → fr.view.kind (fr.api.build i g.llvm).0 ≡ constant r
        → code_of fr next_gen ≡ code_of fr g
        → ((env : Env D) → compute fr.ar fr.view fr.args env i ≡ some r)
        → ((a : A) (d : C) (env : Env D) → k a ≡ some d → before env ≡ some a → Acts read i env d)
        → Makes fr before k b g result_of next_gen
    folded-Makes r h kind look folds acts = record {
      last = b;
      stands =
          Stands-same _ h (laws.same-build i g.llvm) (laws.place-build i g.llvm ∙ h.place)
            (subst (λ c. place_of fr b < c.blocks) (sym look) h.inside);
      grows =
          subst (Grows (place_of fr b) (code_of fr g)) (sym look)
            (Grows-refl (place_of fr b) (code_of fr g));
      moved = inl refl;
      steady = λ env env' keep.
          subst (λ kd. read (operand_of fr.args env' kd) ≡ read (operand_of fr.args env kd))
            (sym kind) refl;
      reaches = λ e a d w prev env res p next.
          let act = acts a d env w p in
          subst
            (λ c.
              Runs fr prev (place_of fr b) env (code_after fr.module_code c (place_of fr b)) res)
            look
            (next prev env (λ n l. refl)
              (subst (λ kd. read (operand_of fr.args env kd) ≡ some d) (sym kind)
                (ap (λ r. read (some r)) (act.folds r (folds env)) ∙ act.reads)));
    }

    pub build-Makes :
        Stands fr b g
        → ((a : A) (d : C) (env : Env D) → k a ≡ some d → before env ≡ some a → Acts read i env d)
        → Makes fr before k b g result_of next_gen
    build-Makes h acts = elim (lows.look-build i g.llvm b h.place) [
      | emitted kind look ↦ emitted-Makes h kind look acts
      | folded r kind look folds ↦ folded-Makes r h kind look (λ env. folds fr.args env) acts
    ]
