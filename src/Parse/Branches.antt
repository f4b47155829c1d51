-- ===== src/Parse/Branches.antt =====
-- Reading back blocks and conditionals.
use lilc.Parse.Sequences.{none-ReadsStmts}
use lilc.Parse.Cases.{ReadsExpr, ReadsStmts, Ends, whole-Reads}
use lilc.Ast.{Node, block_node, nil, lilc_node_vec_new, lilc_if_node_new}
use lilc.Common.{ℕ, zero, suc, ◌+◌, ◌*◌, ◌≤◌, refl, List, ◌∷◌, length, arith}
use lilc.Double.{Double}
use lilc.Lex.Lexeme.{Lexeme, mark}
use lilc.Lex.{punct}
use lilc.Outcome.{M, ◌>>=◌, ◌>>◌}
use lilc.Parse.Ahead.{At, Reads, reads, Reads-bind, consume-Reads, consume-stays, consumef-Reads}
use lilc.Parse.Emitted.{emit-longer, stmts-longer, rparen-Stops, Stops-no_else}
use lilc.Parse.Pratt.{expression-Reads}
use lilc.Parse.Source.{
  Expr, if_only, if_else, Exprs, keyword_else, emit, emit_stmts, node_of, nodes_of,
}
use lilc.Parse.{Parser, vtables, expression, consumef, block}
use lilc.Token.{tok_lparen, tok_rparen, tok_lcurl, tok_rcurl, tok_else, to_int}

-- Fuel that is four units at the least.
pub spend4 : (P : ℕ → Type 0) (f : ℕ) → 4 ≤ f → ((g : ℕ) → P (suc (suc (suc (suc g))))) → P f
spend4 P zero h k = absurd (omega arith)
spend4 P (suc zero) h k = absurd (omega arith)
spend4 P (suc (suc zero)) h k = absurd (omega arith)
spend4 P (suc (suc (suc zero))) h k = absurd (omega arith)
spend4 P (suc (suc (suc (suc f)))) h k = k f

module _ {D : Type 0} ⦃dbl : Double D⦄ where
  pub block-Reads :
      (es : Exprs) (f : ℕ) (ys : List Lexeme) (p : Parser D)
      → ReadsStmts D es
      → Ends ys
      → 6 * length (emit_stmts es ys) + 4 ≤ f
      → At (emit_stmts es ys) p
      → Reads ys (block_node (nodes_of es)) (block f p)
  unfolding expression lilc_node_vec_new
  block-Reads es zero ys p ihs stop fuel h = absurd (omega arith)
  block-Reads es (suc f) ys p ihs stop fuel h = ihs nil f ys p stop (omega arith) h

  -- `{ … }`
  pub braces-Reads :
      {A : Type 0} (es : Exprs) (f : ℕ) (ys zs : List Lexeme) (r : A) (p : Parser D)
      (rest : Node D → M (Parser D) A)
      → ReadsStmts D es
      → 6 * length (mark b'{' ∷ emit_stmts es (mark b'}' ∷ ys)) ≤ f + 2
      → ((q : Parser D) → At ys q → Reads zs r (rest (block_node (nodes_of es)) q))
      → At (mark b'{' ∷ emit_stmts es (mark b'}' ∷ ys)) p
      → Reads zs r ((consumef tok_lcurl >> (block f >>= λ b. consumef tok_rcurl >> rest b)) p)
  unfolding punct to_int
  braces-Reads es f ys zs r p rest ihs fuel k h =
      Reads-bind _ (consumef-Reads tok_lcurl refl h) λ q1 h1.
        Reads-bind _ (block-Reads es f (mark b'}' ∷ ys) q1 ihs refl (omega arith) h1)
          λ q2 h2. Reads-bind _ (consumef-Reads tok_rcurl refl h2) λ q3 h3. k q3 h3

  -- An if up to the end of its first block.
  if_head-Reads :
      {A : Type 0} (c : Expr) (th : Exprs) (f : ℕ) (ys zs : List Lexeme) (r : A) (p : Parser D)
      (rest : Node D → Node D → M (Parser D) A)
      → ReadsExpr D c
      → ReadsStmts D th
      → 6 * length (emit 0 c (mark b')' ∷ mark b'{' ∷ emit_stmts th (mark b'}' ∷ ys))) + 1 ≤ f
      → ((q : Parser D) → At ys q → Reads zs r (rest (node_of c) (block_node (nodes_of th)) q))
      → At (mark b'(' ∷ emit 0 c (mark b')' ∷ mark b'{' ∷ emit_stmts th (mark b'}' ∷ ys))) p
      → Reads zs r (
          (consumef tok_lparen
              >> (expression f 0 >>= λ n.
                  consumef tok_rparen
                  >> (consumef tok_lcurl >> (block f >>= λ b. consumef tok_rcurl >> rest n b))))
            p)
  unfolding punct
  if_head-Reads c th f ys zs r p rest ic it fuel k h =
      let inner = mark b')' ∷ mark b'{' ∷ emit_stmts th (mark b'}' ∷ ys) in
      Reads-bind _ (consumef-Reads tok_lparen refl h) λ q1 h1.
        Reads-bind _
          (whole-Reads c 0 f inner q1 ic (omega arith) (rparen-Stops 0 _) (omega arith) h1)
          λ q2 h2. Reads-bind _ (consumef-Reads tok_rparen refl h2) λ q3 h3.
            braces-Reads th f ys zs r q3 (rest (node_of c)) it
              (omega (arith, emit-longer 0 c inner)) k h3

  pub if_only-ReadsExpr :
      (c : Expr) (th : Exprs) → ReadsExpr D c → ReadsStmts D th → ReadsExpr D (if_only c th)
  unfolding emit node_of expression vtables lilc_if_node_new
  if_only-ReadsExpr c th ic it b rbp f ys zs res p lo hi s fuel k h =
      let inner = mark b')' ∷ mark b'{' ∷ emit_stmts th (mark b'}' ∷ ys) in
      let longer = emit-longer 0 c inner in
      let longer' = stmts-longer th (mark b'}' ∷ ys) in
      spend4
        (λ f. 6 * length (emit b (if_only c th) ys) + 1 ≤ f → Reads zs res (expression f rbp p)) f
        (omega (arith, longer))
        (λ f fuel.
          expression-Reads (suc (suc (suc f))) rbp (node_of (if_only c th)) res refl refl
            (λ old q h1.
              if_head-Reads c th (suc f) ys ys (node_of (if_only c th)) q _ ic it (omega arith)
                (λ q1 h2.
                  Reads-bind _ (consume-stays tok_else (Stops-no_else s) h2) λ q2 h3. reads h3)
                h1)
            (λ q h1. k (suc (suc (suc f))) q (omega (arith, longer, longer')) h1) h)
        fuel

  pub if_else-ReadsExpr :
      (c : Expr) (th el : Exprs)
      → ReadsExpr D c
      → ReadsStmts D th
      → ReadsStmts D el
      → ReadsExpr D (if_else c th el)
  unfolding emit node_of expression vtables lilc_if_node_new punct to_int
  if_else-ReadsExpr c th el ic it ie b rbp f ys zs res p lo hi s fuel k h =
      let last = mark b'{' ∷ emit_stmts el (mark b'}' ∷ ys) in
      let inner = mark b')' ∷ mark b'{' ∷ emit_stmts th (mark b'}' ∷ keyword_else ∷ last) in
      let longer = emit-longer 0 c inner in
      let longer1 = stmts-longer th (mark b'}' ∷ keyword_else ∷ last) in
      let longer2 = stmts-longer el (mark b'}' ∷ ys) in
      spend4
        (λ f. 6 * length (emit b (if_else c th el) ys) + 1 ≤ f → Reads zs res (expression f rbp p))
        f (omega (arith, longer))
        (λ f fuel.
          expression-Reads (suc (suc (suc f))) rbp (node_of (if_else c th el)) res refl refl
            (λ old q h1.
              if_head-Reads c th (suc f) (keyword_else ∷ last) ys (node_of (if_else c th el)) q _ ic
                it (omega arith)
                (λ q1 h2. Reads-bind _ (consume-Reads tok_else refl h2) λ q2 h3.
                  Reads-bind _ (consumef-Reads tok_lcurl refl h3) λ q3 h4.
                    Reads-bind _
                      (block-Reads el (suc f) (mark b'}' ∷ ys) q3 ie refl
                        (omega (arith, longer, longer1)) h4)
                      λ q4 h5.
                        Reads-bind _
                          (block-Reads Exprs.none (suc f) (mark b'}' ∷ ys) q4 none-ReadsStmts refl
                            (omega (arith, longer, longer1, longer2)) h5)
                          λ q5 h6.
                            Reads-bind _ (consumef-Reads tok_rcurl refl h6) λ q6 h7. reads h7)
                h1)
            (λ q h1. k (suc (suc (suc f))) q (omega (arith, longer, longer1, longer2)) h1) h)
        fuel
