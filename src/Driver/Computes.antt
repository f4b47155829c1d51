-- ===== src/Driver/Computes.antt =====
-- `test_codegen`: from the text of a program to the number that it stands for.
use lilc.Ast.{Proto, Node, block_node}
use lilc.Codegen.Drive.Computes.{Computes, lilc_eval-Computes}
use lilc.Codegen.Drive.{Engine, start, lilc_eval}
use lilc.Codegen.Execute.{View}
use lilc.Codegen.Execute.Laws.{CodeLaws}
use lilc.Codegen.Interface.{Llvm, LlvmLaws, NamedVals}
use lilc.Codegen.Programs.{nodes_of as defs_nodes, after_all, defs_resolve, AreDefs, Has}
use lilc.Codegen.Semantics.{Arith}
use lilc.Common.{◌≡◌, refl, none, List, [], ◌∷◌, Bytes, codes}
use lilc.Double.{Double}
use lilc.Driver.Compares.{Files, parse_new}
use lilc.Driver.{Floats, test_codegen}
use lilc.Lex.Written.{Written}
use lilc.Outcome.{Outcome, ok, bind}
use lilc.Parse.Ahead.{Reads-ok}
use lilc.Parse.Source.{Exprs, emit_stmts, nodes_of, AreSource}
use lilc.Util.{Stdio}

module _ {W F : Type 0} (D : Type 0) ⦃dbl : Double D⦄ {io : Stdio W F}
    {here src_path want_path : Bytes} {w : W} (files : Files io here src_path want_path w) where
  -- With an execution engine and a new module without functions, `test_codegen` on a source file
  -- that holds a written program of one or more definitions, each of a new name and with an
  -- expression as body, scans, parses and compiles it and ends so: if each body resolves with its
  -- parameters, the functions up to it and itself, and LLVM verifies each function once its return is
  -- built, it runs the function `main` of the module that the run leaves, or exits with a message if
  -- the program defines none. By LLVM's semantics, if the program's `main` gives a number without
  -- arguments, then so does the code that is run, with calls nested as deep, and it gives no other
  -- number. If a body does not resolve, or LLVM rejects a function of the run once its return is
  -- built, it exits with its message. If running `main` returns a number, the test holds if this is
  -- within the tolerance of the number in the other file.
  pub test_codegen-Computes :
      {S T V B : Type 0} {ar : Arith D} {view : View D S V B} {api : Llvm D S V B}
      (laws : LlvmLaws api) (lows : CodeLaws ar view api) (table : NamedVals T V)
      (engine : Engine D S V) (empty : T) (floats : Floats D) (es : Exprs) (proto : Proto)
      (body : Node D) (defs : List (Proto × Node D))
      → AreSource es
      → Written (emit_stmts es []) files.src
      → nodes_of es ≡ defs_nodes ((proto, body) ∷ defs)
      → engine.create_error (engine.new_module (codes "lilc_eval")) ≡ none
      → Has api (λ n. none) (engine.new_module (codes "lilc_eval"))
      → AreDefs ((proto, body) ∷ defs) (λ n. none)
      → (result : Outcome D) × Computes laws lows table engine
          ((proto, body) ∷ defs)
          (start engine (codes "lilc_eval") empty)
          (defs_resolve ((proto, body) ∷ defs) (λ n. none))
          (after_all ((proto, body) ∷ defs) (λ n. none) (codes "main"))
          result
        × (test_codegen io here api table engine empty floats src_path want_path w
            ≡ bind result λ got. ok (
              floats.less
                  (floats.fabs (floats.sub got (floats.strtod files.want)))
                  floats.tolerance,
              files.after_want,
            ))
  unfolding test_codegen
  test_codegen-Computes {api = api} laws lows table engine empty floats es proto body defs n c same
        no_error fresh wf =
      let (q, parsed, h) = Reads-ok (parse_new D files es n c) in
      (
        lilc_eval api table engine empty (block_node (nodes_of es)),
        rw same (lilc_eval-Computes laws lows table engine empty proto body defs no_error fresh wf),
        rw (files.read_src, files.read_want, parsed) refl,
      )
