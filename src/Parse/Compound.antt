-- ===== src/Parse/Compound.antt =====
-- Reading back calls and definitions.
use lilc.Parse.Branches.{spend4, braces-Reads}
use lilc.Parse.Cases.{ReadsExpr, ReadsArgs, ReadsStmts, name-token}
use lilc.Ast.{
  nil, lilc_var_node_new, lilc_proto_node_new, lilc_funcdef_node_new, lilc_funccall_node_new,
}
use lilc.Common.{
  ℕ, zero, suc, ◌+◌, ◌*◌, ◌≤◌, ◌≡◌, refl, ap, ◌∙◌, subst, Bool, true, false, some, List, [], ◌∷◌,
  ◌++◌, length, take-length, append-nil, append_assoc, length-append, arith, All, Bytes, map,
  length-map, ◌==◌,
}
use lilc.Double.{Double}
use lilc.Lex.Lexeme.{Lexeme, mark, token_of}
use lilc.Lex.{punct, lex_is}
use lilc.Outcome.{ok}
use lilc.Parse.Ahead.{
  At, At-is, Reads, reads, Reads-bind, scan-Reads, consume-Reads, consume-stays, consumef-Reads,
}
use lilc.Parse.Emitted.{params-longer, args-longer, stmts-longer}
use lilc.Parse.Parts.{take_nodes-size}
use lilc.Parse.Pratt.{is-leb, is-ltb, infix_loop-goes, expression-Reads}
use lilc.Parse.Source.{
  Word, spelled, var, call, def, Exprs, word, param_comma, emit_params, emit, emit_args, emit_stmts,
  node_of, nodes_of, IsName, IsSource,
}
use lilc.Parse.{
  Parser, Prefix, Infix, Vtable, vtables, id_prefix, read_str, read_name, check_store,
  max_func_params, params_loop, expression, infix_call, consume,
}
use lilc.Token.{TokType, tok_id, tok_comma, tok_lparen, tok_rparen, tok_eq, to_int, Token, Val}

abbrev pub lparen_row : Vtable
lparen_row = record { lbp = 10; as_prefix = some Prefix.of_lparen; as_infix = some Infix.of_lparen }

module _ {D : Type 0} ⦃dbl : Double D⦄ where
  pub read_str-name :
      (w : Word) {xs : List Lexeme} {q : Parser D} (r : Parser D)
      → IsName w
      → At (word w ∷ xs) q
      → read_str q.lex.tok.val r ≡ ok (spelled w, r)
  unfolding read_str
  read_str-name w r n h = ap (λ (t : Token D). read_str t.val r) (h.tok ∙ name-token w h.old n)

  pub name-is :
      (w : Word) {xs : List Lexeme} {p : Parser D} (t : TokType)
      → IsName w
      → At (word w ∷ xs) p
      → lex_is p.lex t ≡ tok_eq tok_id t
  name-is w t n h = At-is t h ∙ ap (λ c. tok_eq c t) n.1

  -- The comma behind a parameter, if there is one.
  pub param_comma-Reads :
      (ws : List Word) (ys : List Lexeme) (p : Parser D)
      → At (param_comma ws (emit_params ws (mark b')' ∷ ys))) p
      → (b : Bool) × Reads (emit_params ws (mark b')' ∷ ys)) b (consume tok_comma p)
  unfolding punct to_int
  param_comma-Reads [] ys p h = (false, consume-stays tok_comma refl h)
  param_comma-Reads (w ∷ ws) ys p h = (true, consume-Reads tok_comma refl h)

  pub params-Reads :
      (ws : List Word) (acc : List Bytes) (f : ℕ) (ys : List Lexeme) (p : Parser D)
      → All IsName ws
      → length acc + length ws ≤ 16
      → 18 ≤ f + length acc
      → At (emit_params ws (mark b')' ∷ ys)) p
      → Reads (mark b')' ∷ ys) (some (acc ++ map spelled ws)) (params_loop f acc p)
  unfolding params_loop check_store punct to_int
  params-Reads ws acc zero ys p n room fuel h = absurd (omega arith)
  params-Reads [] acc (suc f) ys p n room fuel h = rw (At-is tok_rparen h, append-nil) (reads h)
  params-Reads (w ∷ ws) acc (suc f) ys p n room fuel h =
      let longer = length-append acc (spelled w ∷ []) in
      rw
        (
          name-is w tok_rparen n.0 h,
          is-leb (length acc) 16 (omega arith),
          name-is w tok_id n.0 h,
          read_str-name w p n.0 h,
          is-ltb (length acc) 16 (omega arith),
        )
        (Reads-bind _ (scan-Reads h) λ q h1. Reads-bind _ (param_comma-Reads ws ys q h1).1 λ q1 h2.
          subst
            (λ names.
              Reads (mark b')' ∷ ys) (some names) (params_loop f (acc ++ spelled w ∷ []) q1))
            (append_assoc acc (spelled w ∷ []) (map spelled ws))
            (params-Reads ws (acc ++ spelled w ∷ []) f ys q1 n.1 (omega (arith, longer))
              (omega (arith, longer)) h2))

  pub call-ReadsExpr :
      (w : Word) (args : Exprs)
      → IsSource (call w args)
      → ReadsArgs D args
      → ReadsExpr D (call w args)
  unfolding emit IsSource expression vtables punct node_of id_prefix read_str read_name
      lilc_var_node_new lilc_funccall_node_new
  call-ReadsExpr w args n ihs b rbp f ys zs res p lo hi s fuel k h =
      spend4 (λ f. 6 * length (emit b (call w args) ys) + 1 ≤ f → Reads zs res (expression f rbp p))
        f (omega (arith, args-longer args (mark b')' ∷ ys))) run fuel
    where
      behind : List Lexeme
      behind = emit_args args (mark b')' ∷ ys)

      called :
          (g : ℕ) (old : Val D) (q : Parser D)
          → 6 * length behind + 2 ≤ g
          → At behind q
          → Reads ys (node_of (call w args)) (
              infix_call
                (suc (suc g))
                Infix.of_lparen
                (token_of old (mark b'('))
                (node_of (var w))
                q)
      called g old q fuel h1 = Reads-bind _ (ihs nil g ys q (omega (arith, n.1)) fuel h1) λ q1 h2.
          Reads-bind _ (consumef-Reads tok_rparen refl h2)
            λ q2 h3. rw (take_nodes-size (nodes_of {D = D} args)) (reads h3)

      run :
          (f : ℕ)
          → 6 * length (emit b (call w args) ys) + 1 ≤ suc (suc (suc (suc f)))
          → Reads zs res (expression (suc (suc (suc (suc f)))) rbp p)
      run f fuel =
          expression-Reads {ys = mark b'(' ∷ behind} (suc (suc (suc f))) rbp (node_of (var w)) res
            (ap vtables n.0.1) refl (λ old q h1. rw (name-token w old n.0) (reads h1))
            (λ q h1.
              infix_loop-goes {x = mark b'('} {row = lparen_row} {k = Infix.of_lparen} (suc (suc f))
                rbp (node_of (var w)) (node_of (call w args)) res refl refl (omega arith)
                (λ old q1 h2. called f old q1 (omega arith) h2)
                (λ q1 h2. k (suc (suc f)) q1 (omega (arith, args-longer args (mark b')' ∷ ys))) h2)
                h1)
            h

  pub def-ReadsExpr :
      (w : Word) (params : List Word) (body : Exprs)
      → IsSource (def w params body)
      → ReadsStmts D body
      → ReadsExpr D (def w params body)
  unfolding emit node_of expression vtables IsSource punct lilc_funcdef_node_new lilc_proto_node_new
  def-ReadsExpr w params body n ib b rbp f ys zs res p lo hi s fuel k h =
      let last = mark b'{' ∷ emit_stmts body (mark b'}' ∷ ys) in
      let longer = params-longer params (mark b')' ∷ last) in
      let longer' = stmts-longer body (mark b'}' ∷ ys) in
      spend4
        (λ f.
          6 * length (emit b (def w params body) ys) + 1 ≤ f → Reads zs res (expression f rbp p))
        f (omega (arith, longer))
        (λ f fuel.
          expression-Reads (suc (suc (suc f))) rbp (node_of (def w params body)) res refl refl
            (λ old q h1. Reads-bind _ (consumef-Reads tok_id n.0.1 h1) λ q1 h2.
              Reads-bind _ (consumef-Reads tok_lparen refl h2) λ q2 h3.
                Reads-bind _
                  (params-Reads params [] 18 last q2 n.1 (omega (arith, n.2)) (omega arith) h3)
                  λ q3 h4. rw (few params n.2) (
                    Reads-bind _ (consumef-Reads tok_rparen refl h4) λ q4 h5.
                      braces-Reads body (suc f) ys ys (node_of (def w params body)) q4 _ ib
                        (omega (arith, longer))
                        (λ q5 h6. rw (read_str-name w q5 n.0 h1, take-length) (reads h6)) h5))
            (λ q h1. k (suc (suc (suc f))) q (omega (arith, longer, longer')) h1) h)
        fuel
    where
      few :
          (ws : List Word)
          → suc (length ws) ≤ max_func_params
          → (length (map spelled ws) == max_func_params) ≡ false
      few ws m = ground (arith, length-map spelled ws)
