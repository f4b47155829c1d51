-- ===== src/Codegen/Execute/Functions/Body.antt =====
-- The code for a function definition: the body between the entry block and the return.
use lilc.Ast.{Proto, Node}
use lilc.Codegen.Execute.Arms.{moved_to}
use lilc.Codegen.Execute.Build.{build_lem}
use lilc.Codegen.Execute.Expressions.{expr-WalksTo}
use lilc.Codegen.Execute.Grows.{
  Extends, Grows, Extends-trans, append_instr-Grows, append_block-Grows, code_after-append_instr,
  eq_self,
}
use lilc.Codegen.Execute.Steps.{Frame, code_of, rest_of, number_in, Stands, Makes, Runs, nothing}
use lilc.Codegen.Execute.Gives.{Gives, Gives-bind}
use lilc.Codegen.Execute.{
  function, Code, append_instr, append_block, Env, operand_of, as_num, View, returns_num, Calls,
}
use lilc.Codegen.Execute.Laws.{CodeLaws}
use lilc.Codegen.Interface.{ret, Llvm, SameFunctions, same_trans, LlvmLaws, NamedVals}
use lilc.Codegen.Scope.{IsExpr}
use lilc.Codegen.Semantics.{Arith, or_else, bind_params, value}
use lilc.Codegen.{Gen, call_llvm, change_llvm, finish_function, fill_function, do_codegen}
use lilc.Common.{
  not_some, ℕ, suc, ◌<◌, ◌≡◌, refl, sym, ap, ◌∙◌, subst, Bool, true, false, Option, none, some,
  List, [], ◌∷◌, length, length-map, map, drop, Bytes, codes, ◌==◌, if◌then◌else◌, arith,
}
use lilc.Double.{Double}
use lilc.Outcome.{pure, ◌>>◌}

module _ {D S T V B : Type 0} ⦃dbl : Double D⦄ {ar : Arith D} {view : View D S V B}
    {api : Llvm D S V B} (laws : LlvmLaws api) (lows : CodeLaws ar view api)
    (table : NamedVals T V) where
  -- A call of the function of `proto` in the module `module_code`, in which the functions of `s` do
  -- what `call_value` says, with calls nested at most `depth` deep.
  pub record Use (proto : Proto) (s : S) : Type 0 where
    pub module_code : Code V B
    pub depth : ℕ
    pub call_value : Bytes → List D → Option D
    pub args : List D
    pub enough : length args ≡ length proto.params
    pub functions :
        (n : Bytes) (h : V)
        → api.get_named_function n s ≡ some h
        → (xs : List D) (y : D) → call_value n xs ≡ some y
        → Calls ar view module_code depth h xs y

  abbrev pub value_in : {proto : Proto} {s : S} → Use proto s → Node D → Option D
  value_in {proto} u body = value ar u.call_value (bind_params proto.params u.args) body

  -- where the functions have the names that they had
  abbrev pub use_in :
      {proto : Proto} {s s' : S}
      → ((n : Bytes) (h : V)
          → api.get_named_function n s ≡ some h
          → api.get_named_function n s' ≡ some h)
      → Use proto s'
      → Use proto s
  use_in kept u = record {
    module_code = u.module_code;
    depth = u.depth;
    call_value = u.call_value;
    args = u.args;
    enough = u.enough;
    functions = λ n h e. u.functions n h (kept n h e);
  }

  pub no_call : {s : S} {proto : Proto} → Use proto s
  no_call {s} {proto} = record {
    module_code = view.look s;
    depth = 0;
    call_value = λ n xs. none;
    args = map (λ p. dbl.of_int 0) proto.params;
    enough = length-map (λ p. dbl.of_int 0) proto.params;
    functions = λ n h e xs y w. absurd (not_some w);
  }

  pub record Filled (proto : Proto) (body : Node D) (f : V) (g : Gen S T) (u : Use proto g.llvm)
      (f' : V) (g' : Gen S T) : Type 0 where
    pub same_function : f' ≡ f
    pub same : SameFunctions api g.llvm g'.llvm
    pub extends : Extends (view.look g.llvm) (view.look g'.llvm)
    pub calls :
        Extends (view.look g'.llvm) u.module_code
        → (d : D) → value_in u body ≡ some d
        → Calls ar view u.module_code (suc u.depth) f u.args d

  module _ (proto : Proto) (body : Node D) (f : V) (g : Gen S T) (u : Use proto g.llvm) (n : ℕ)
      (is_function : view.kind f ≡ function n) (declared : n < (view.look g.llvm).functions)
      (no_entry : (view.look g.llvm).entry n ≡ none)
      (binds : (x : Bytes) (v : V)
        → table.get g.named_vals x ≡ some v
        → (env : Env D)
        → as_num (operand_of u.args env (view.kind v)) ≡ bind_params proto.params u.args x) where
    abbrev pub frame : Frame D S T V B
    frame = record {
      ar = ar;
      view = view;
      api = api;
      table = table;
      origin = g.llvm;
      module_code = u.module_code;
      Call = Calls ar view u.module_code u.depth;
      args = u.args;
      call_value = u.call_value;
      vars = bind_params proto.params u.args;
    }

    abbrev entry : B × S
    entry = api.append_basic_block f (codes "entry") g.llvm

    abbrev inside : Gen S T
    inside = moved_to frame laws lows entry.0 (record g { llvm = entry.1 })

    look_inside : code_of frame inside ≡ append_block {D = D} (function n) (code_of frame g)
    look_inside =
        lows.look-position entry.0 entry.1
        ∙ lows.look-append f (codes "entry") g.llvm
        ∙ ap (λ k. append_block k (code_of frame g)) is_function

    number_entry : view.number entry.0 ≡ (code_of frame g).blocks
    number_entry = lows.number-append f (codes "entry") g.llvm

    same_inside : SameFunctions api g.llvm inside.llvm
    same_inside =
        same_trans api (laws.same-append f (codes "entry") g.llvm)
          (laws.same-position entry.0 entry.1)

    inside-Stands : Stands frame entry.0 inside
    inside-Stands = record {
      place = laws.place-position entry.0 entry.1;
      kept = same_inside;
      inside =
          subst (λ c. view.number entry.0 < c.blocks) (sym look_inside)
            (omega (arith, number_entry));
      variables = binds;
      functions = λ name h e. u.functions name h (sym (same_inside.named name) ∙ e);
    }

    inside-Extends : Extends (code_of frame g) (code_of frame inside)
    inside-Extends =
        subst (Extends (code_of frame g)) (sym look_inside)
          (append_block-Grows {D = D} 0 (function n) (code_of frame g)).extends

    first_entry :
        (append_block {D = D} (function n) (code_of frame g)).entry n
        ≡ some (code_of frame g).blocks
    first_entry =
        ap
          (λ b.
            if b
            then or_else ((code_of frame g).entry n) (some (code_of frame g).blocks)
            else (code_of frame g).entry n)
          (eq_self n)
        ∙ ap (λ o. or_else o (some (code_of frame g).blocks)) no_entry

    empty_entry : (code_of frame inside).code (view.number entry.0) ≡ []
    empty_entry =
        ap (λ c. c.code (view.number entry.0)) look_inside
        ∙ ap (λ b. if b then [] else (code_of frame g).code (view.number entry.0))
            (ap (λ j. j == (code_of frame g).blocks) number_entry
              ∙ eq_self (code_of frame g).blocks)

    -- the return behind the body
    returned :
        {v : V} {g1 : Gen S T}
        (made : Makes frame nothing (λ _. value_in u body) entry.0 inside (number_in frame v) g1)
        → Filled proto body f g u f (record g1 { llvm = (api.build (ret v) g1.llvm).1 })
    unfolding Calls
    returned {v} {g1} made = record {
      same_function = refl;
      same = same_trans api made.stands.kept (laws.same-build (ret v) g1.llvm);
      extends = Extends-trans inside-Extends (Extends-trans made.grows.extends grown.extends);
      calls = λ e d w. (
        n,
        view.number entry.0,
        is_function,
        entered (Extends-trans made.grows.extends (Extends-trans grown.extends e)),
        subst (λ l. Runs frame 0 (view.number entry.0) (λ j. none) l d)
            (ap (λ l. drop (length l) (u.module_code.code (view.number entry.0))) empty_entry)
            (made.reaches (Extends-trans grown.extends e) tt d w 0 (λ j. none) d refl
              λ prev env keep p.
                subst (λ l. Runs frame prev (view.number made.last) env l d) (sym (behind e))
                  (returns_num p)),
      );
    }
      where
        g2 : Gen S T
        g2 = record g1 { llvm = (api.build (ret v) g1.llvm).1 }

        look : code_of frame g2 ≡ append_instr (view.number made.last) (ret v) (code_of frame g1)
        look = (build_lem frame laws lows (ret v) made.stands refl).1

        grown : Grows (view.number made.last) (code_of frame g1) (code_of frame g2)
        grown =
            subst (Grows (view.number made.last) (code_of frame g1)) (sym look)
              (append_instr-Grows (view.number made.last) (ret v) (code_of frame g1))

        behind :
            Extends (code_of frame g2) u.module_code
            → rest_of frame g1 made.last
              ≡ ((code_of frame g1).clock, ret v)
                ∷ drop
                    (length (
                      (append_instr (view.number made.last) (ret v) (code_of frame g1)).code
                        (view.number made.last)))
                    (u.module_code.code (view.number made.last))
        behind e =
            code_after-append_instr (view.number made.last) (ret v) (code_of frame g1) u.module_code
              ((subst (λ c. Extends c u.module_code) look e).code _ made.stands.inside)

        entered :
            Extends (code_of frame inside) u.module_code
            → u.module_code.entry n ≡ some (view.number entry.0)
        entered e =
            e.entry n (view.number entry.0) (omega (arith, declared, inside-Extends.functions))
              (ap (λ c. c.entry n) look_inside ∙ first_entry ∙ ap some (sym number_entry))

    pub fill_function-Gives :
        IsExpr body
        → Gives (Filled proto body f g u) (fill_function api f (do_codegen api table body) g)
    unfolding fill_function finish_function call_llvm change_llvm
    fill_function-Gives w =
        Gives-bind _ Goal (do_codegen api table body inside) (finish_function api f)
          (expr-WalksTo frame laws lows body w entry.0 inside inside-Stands)
          (λ v g1 made.
            verified v g1 (api.verify_fails f (api.build (ret v) g1.llvm).1) (returned made))
          (λ g1. tt)
      where
        Goal : V → Gen S T → Type 0
        Goal = Filled proto body f g u

        verified :
            (v : V) (g1 : Gen S T) (b : Bool)
            → Goal f (record g1 { llvm = (api.build (ret v) g1.llvm).1 })
            → Gives Goal (
                (if b then (change_llvm (api.delete_function f) >> pure none) else pure (some f))
                  (record g1 { llvm = (api.build (ret v) g1.llvm).1 }))
        verified v g1 true h = tt
        verified v g1 false h = h
