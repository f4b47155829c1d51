-- ===== src/Codegen/Execute/Opens.antt =====
-- The test of an if, and the three blocks behind it.
use lilc.Codegen.Execute.{
  bit, Kind, Code, append_instr, append_block, Env, operand_of, as_num, as_bit, branches,
}
use lilc.Codegen.Execute.Laws.{CodeLaws}
use lilc.Codegen.Execute.Build.{Stands-same, build_lem, build-Makes}
use lilc.Codegen.Execute.Grows.{
  three_blocks, three_blocks-Grows, three_blocks-old, three_blocks-nil, code_after, Extends, Grows,
  Extends-trans, Grows-trans, append_instr-Grows, code_after-append_instr,
}
use lilc.Codegen.Execute.Operations.{compute-Acts}
use lilc.Codegen.Execute.Steps.{
  Frame, code_of, place_of, rest_of, number_in, bit_in, Keeps, Stands, Runs, Makes,
}
use lilc.Codegen.Interface.{Instr, fcmp_one, cond_br, LlvmLaws}
use lilc.Codegen.Meaning.{and_then}
use lilc.Codegen.{Gen, call_llvm, insert_block, open_branches}
use lilc.Common.{
  ℕ, suc, ◌≤◌, ◌<◌, ◌≡◌, inl, refl, sym, ap, ◌∙◌, subst, some, [], ◌∷◌, length, drop, codes,
  if◌then◌else◌, arith,
}
use lilc.Double.{Double}
use lilc.Outcome.{Outcome, ok}

module _ {D S T V B : Type 0} ⦃dbl : Double D⦄ (fr : Frame D S T V B) (laws : LlvmLaws fr.api)
    (lows : CodeLaws fr.ar fr.view fr.api) where
  -- After `open_branches` on `c` at the end of `b` in `g`: three empty blocks in a row, and code that
  -- goes to the first if `c` is a number other than zero, and to the second otherwise.
  pub record Opened (c : V) (b : B) (g : Gen S T) (t e m : B) (g' : Gen S T) : Type 0 where
    pub here : B
    pub stands : Stands fr here g'
    pub grows : Grows (place_of fr b) (code_of fr g) (code_of fr g')
    pub first : (code_of fr g).blocks ≤ place_of fr t
    pub second : place_of fr e ≡ suc (place_of fr t)
    pub third : place_of fr m ≡ suc (place_of fr e)
    pub blocks : (code_of fr g').blocks ≡ suc (place_of fr m)
    pub empty :
        (j : ℕ) → place_of fr t ≤ j → j < (code_of fr g').blocks → (code_of fr g').code j ≡ []
    pub chooses :
        Extends (code_of fr g') fr.module_code
        → (x : D) (prev : ℕ) (env : Env D) (res : D) → number_in fr c env ≡ some x
        → ((env' : Env D) (to : B)
            → to ≡ (if fr.ar.one x (dbl.of_int 0) then t else e)
            → Keeps fr (code_of fr g) env env'
            → Runs fr
                (place_of fr here)
                (place_of fr to)
                env'
                (fr.module_code.code (place_of fr to))
                res)
        → Runs fr prev (place_of fr b) env (rest_of fr g b) res

  abbrev Opens : V → B → Gen S T → Outcome ((B × B × B) × Gen S T) → Type 0
  Opens c b g r =
      (t : B) × (e : B) × (m : B) × (g' : Gen S T) × (r ≡ ok ((t, e, m), g'))
      × Opened c b g t e m g'

  module _ (c : V) (b : B) (g : Gen S T) (h : Stands fr b g) where
    abbrev zero_real : V
    zero_real = fr.api.const_real (dbl.of_int 0)

    abbrev test : V × S
    test = fr.api.build (fcmp_one c zero_real (codes "ifcond")) g.llvm

    abbrev g1 : Gen S T
    g1 = record g { llvm = test.1 }

    zero_number : (env : Env D) → number_in fr zero_real env ≡ some (dbl.of_int 0)
    zero_number env = ap (λ k. as_num (operand_of fr.args env k)) (lows.kind-real (dbl.of_int 0))

    compared :
        Makes fr (number_in fr c) (λ x. some (fr.ar.one x (dbl.of_int 0))) b g (bit_in fr test.0) g1
    compared =
        build-Makes fr laws lows (number_in fr c) (λ x. some (fr.ar.one x (dbl.of_int 0))) as_bit _
          b g h
          λ x d env w p.
            compute-Acts fr laws lows as_bit _ env (bit (fr.ar.one x (dbl.of_int 0)))
              (λ i.
                and_then (p i) λ x. and_then (zero_number env i) λ y. some (bit (fr.ar.one x y)))
              w

    abbrev here : B
    here = compared.last

    abbrev func : V
    func = fr.api.get_block_parent here g1.llvm

    abbrev kind : Kind D
    kind = fr.view.kind func

    abbrev c1 : Code V B
    c1 = code_of fr g1

    abbrev then_block : B × S
    then_block = fr.api.append_basic_block func (codes "then") g1.llvm

    abbrev else_block : B × S
    else_block = fr.api.append_basic_block func (codes "else") then_block.1

    abbrev merge_block : B × S
    merge_block = fr.api.append_basic_block func (codes "ifcont") else_block.1

    abbrev branch : Instr V B
    branch = cond_br test.0 then_block.0 else_block.0

    abbrev g3 : Gen S T
    g3 = record g { llvm = (fr.api.build branch merge_block.1).1 }

    run_lem : open_branches fr.api c g ≡ ok ((then_block.0, else_block.0, merge_block.0), g3)
    unfolding open_branches call_llvm insert_block
    run_lem = rw compared.stands.place refl

    look_then : fr.view.look then_block.1 ≡ append_block kind c1
    look_then = lows.look-append func (codes "then") g1.llvm

    look_else : fr.view.look else_block.1 ≡ append_block kind (append_block kind c1)
    look_else = lows.look-append func (codes "else") then_block.1 ∙ ap (append_block kind) look_then

    look_merge : fr.view.look merge_block.1 ≡ three_blocks kind c1
    look_merge =
        lows.look-append func (codes "ifcont") else_block.1 ∙ ap (append_block kind) look_else

    number_then : place_of fr then_block.0 ≡ c1.blocks
    number_then = lows.number-append func (codes "then") g1.llvm

    number_else : place_of fr else_block.0 ≡ suc c1.blocks
    number_else = lows.number-append func (codes "else") then_block.1 ∙ ap (λ c. c.blocks) look_then

    number_merge : place_of fr merge_block.0 ≡ suc (suc c1.blocks)
    number_merge =
        lows.number-append func (codes "ifcont") else_block.1 ∙ ap (λ c. c.blocks) look_else

    appended : Stands fr here (record g { llvm = merge_block.1 })
    appended =
        Stands-same fr laws lows _
          (Stands-same fr laws lows _
            (Stands-same fr laws lows _ compared.stands
              (laws.same-append func (codes "then") g1.llvm)
              (laws.place-append func (codes "then") g1.llvm ∙ compared.stands.place)
              (subst (λ c. place_of fr here < c.blocks) (sym look_then)
                (omega (arith, compared.stands.inside))))
            (laws.same-append func (codes "else") then_block.1)
            (laws.place-append func (codes "else") then_block.1
              ∙ laws.place-append func (codes "then") g1.llvm
              ∙ compared.stands.place)
            (subst (λ c. place_of fr here < c.blocks) (sym look_else)
              (omega (arith, compared.stands.inside))))
          (laws.same-append func (codes "ifcont") else_block.1)
          (laws.place-append func (codes "ifcont") else_block.1
            ∙ laws.place-append func (codes "else") then_block.1
            ∙ laws.place-append func (codes "then") g1.llvm
            ∙ compared.stands.place)
          (subst (λ c. place_of fr here < c.blocks) (sym look_merge)
            (omega (arith, compared.stands.inside)))

    look : code_of fr g3 ≡ append_instr (place_of fr here) branch (three_blocks kind c1)
    look =
        (build_lem fr laws lows branch appended refl).1
        ∙ ap (append_instr (place_of fr here) branch) look_merge

    built : Grows (place_of fr here) c1 (code_of fr g3)
    built = subst (Grows (place_of fr here) c1) (sym look) (
        Grows-trans (three_blocks-Grows kind c1 (place_of fr here)) (inl refl)
          (append_instr-Grows (place_of fr here) branch (three_blocks kind c1)))

    stands : Stands fr here g3
    stands =
        Stands-same fr laws lows _ appended (laws.same-build branch merge_block.1)
          (laws.place-build branch merge_block.1 ∙ appended.place)
          (subst (λ c. place_of fr here < c.blocks) (sym look)
            (omega (arith, compared.stands.inside)))

    behind :
        Extends (code_of fr g3) fr.module_code
        → rest_of fr g1 here ≡ ((three_blocks kind c1).clock, branch) ∷ rest_of fr g3 here
    behind e =
        ap (λ l. drop (length l) (fr.module_code.code (place_of fr here)))
          (sym (three_blocks-old kind c1 (place_of fr here) compared.stands.inside))
        ∙ code_after-append_instr (place_of fr here) branch (three_blocks kind c1) fr.module_code (
            (subst (λ c. Extends c fr.module_code) look e).code _
              (omega (arith, compared.stands.inside)))
        ∙ ap
            (λ c.
              ((three_blocks kind c1).clock, branch)
              ∷ code_after fr.module_code c (place_of fr here))
            (sym look)

    pub open_branches-Opens : Opens c b g (open_branches fr.api c g)
    open_branches-Opens = (
      then_block.0,
      else_block.0,
      merge_block.0,
      g3,
      run_lem,
      record {
        here = here;
        stands = stands;
        grows = Grows-trans compared.grows compared.moved built;
        first = omega (arith, compared.grows.extends.blocks, number_then);
        second = number_else ∙ ap suc (sym number_then);
        third = number_merge ∙ ap suc (sym number_else);
        blocks = ap (λ c. c.blocks) look ∙ ap suc (sym number_merge);
        empty = λ j l w.
            ap (λ c. c.code j) look
            ∙ three_blocks-nil kind c1 branch (place_of fr here) j compared.stands.inside
                (omega (arith, l, number_then)) (omega (arith, w, ap (λ c. c.blocks) look));
        chooses = λ e x prev env res p next.
            compared.reaches (Extends-trans built.extends e) x (fr.ar.one x (dbl.of_int 0)) refl
              prev env res p
              λ prev1 env1 keep1 p1.
                subst (λ l. Runs fr prev1 (place_of fr here) env1 l res) (sym (behind e))
                  (branches (fr.ar.one x (dbl.of_int 0)) p1 (next env1 _ refl keep1));
      },
    )
