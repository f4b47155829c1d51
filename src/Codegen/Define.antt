-- ===== src/Codegen/Define.antt =====
-- Code generation for a function definition.
mod Declare
pub use Declare.{Defines, Returned, outcome_of}
use lilc.Codegen.Define.Declare.{Declared-Offers, codegen_proto-Declared, finish_function-Defines}
use lilc.Ast.{Proto, Node, funcdef_node}
use lilc.Codegen.Interface.{ret, Llvm, SameFunctions, LlvmLaws, NamedVals}
use lilc.Codegen.Resolve.{do_codegen-resolves}
use lilc.Codegen.Scope.{
  Returns, returns, Returns-bind, Returns-then, is_some, is_name, is_member, body_scope, Scope,
  resolves, IsExpr, arity_of, arity-same, Offers, Ready, Offers-same, is_name-eq, is_name-ne,
}
use lilc.Codegen.{
  Gen, or_null, call_llvm, change_llvm, proto_function, finish_function, name_params, codegen_proto,
  clear_names, fill_function, codegen_funcdef, do_codegen,
}
use lilc.Common.{
  ℕ, suc, ◌∙◌, ap, subst, ◌≡◌, refl, Bool, true, false, not, ◌||◌, ◌&&◌, Option, none, some, List,
  [], ◌∷◌, length, Bytes, sym, codes, if◌then◌else◌, Bool-cases, inl, inr,
}
use lilc.Double.{Double}
use lilc.Outcome.{Outcome, ok, pure, ◌>>◌}

module _ {D S T V B : Type 0} ⦃dbl : Double D⦄ {api : Llvm D S V B} (laws : LlvmLaws api)
    (table : NamedVals T V) where
  fill_function-Defines :
      (sc : Scope) (func : V) (body : Node D) (g : Gen S T)
      → IsExpr body
      → Offers api table sc g
      → Defines laws table sc func
          (resolves sc body)
          (fill_function api func (do_codegen api table body) g)
  unfolding fill_function call_llvm change_llvm
  fill_function-Defines sc func body g w h =
      Returns-then (Defines laws table sc func (resolves sc body))
        (do_codegen-resolves laws table sc _ body w ready)
        λ s e k. finish_function-Defines laws table func (resolves sc body) s.0 s.1 e k.offers
    where
      entry : B × S
      entry = api.append_basic_block func (codes "entry") g.llvm

      ready : Ready api table sc (record g { llvm = api.position_at_end entry.0 entry.1 })
      ready = record {
        offers =
            Offers-same (Offers-same h (laws.same-append func (codes "entry") g.llvm))
              (laws.same-position entry.0 entry.1);
        here = (entry.0, laws.place-position entry.0 entry.1);
      }

  -- For a function whose name is new and whose body is an expression, code generation returns. The
  -- body sees the parameters, the functions of the module and the function itself. The function is
  -- kept, and is the result, if and only if the body resolves in that scope and LLVM verifies it, once
  -- its return is built.
  pub codegen_funcdef-Defines :
      (g : Gen S T) (proto : Proto) (body : Node D)
      → IsExpr body
      → api.get_named_function proto.name g.llvm ≡ none
      → Defines laws table
          (body_scope proto (λ n. arity_of api g.llvm (api.get_named_function n g.llvm)))
          (api.add_function proto.name (length proto.params) g.llvm).0
          (resolves
            (body_scope proto (λ n. arity_of api g.llvm (api.get_named_function n g.llvm)))
            body)
          (do_codegen api table (funcdef_node proto body) g)
  unfolding do_codegen codegen_funcdef clear_names call_llvm change_llvm
  codegen_funcdef-Defines g proto body w fresh =
      Returns-then Goal (codegen_proto-Declared laws table proto cleared fresh) λ s e h.
        go s.0 s.1 e
          (Declared-Offers laws table proto cleared fresh (table.get-clear g.named_vals) h)
    where
      cleared : Gen S T
      cleared = record g { named_vals = table.clear g.named_vals }

      sc : Scope
      sc = body_scope proto (λ n. arity_of api g.llvm (api.get_named_function n g.llvm))

      func : V
      func = (api.add_function proto.name (length proto.params) g.llvm).0

      Goal : Outcome (Option V × Gen S T) → Type 0
      Goal r = Defines laws table sc func (resolves sc body) r

      go :
          (v : Option V) (g1 : Gen S T)
          → v ≡ some func
          → Offers api table sc g1
          → Goal (or_null v (λ f. fill_function api f (do_codegen api table body)) g1)
      go none g1 e h = cc
      go (some f) g1 e h =
          subst (λ f. Goal (run f)) (cc) (fill_function-Defines sc func body g1 w h)
        where
          run : V → Outcome (Option V × Gen S T)
          run f = fill_function api f (do_codegen api table body) g1
