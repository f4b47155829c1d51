-- ===== src/Parse/Parameters.antt =====
-- Definitions with more parameters than the array of `funcdef_prefix` holds, or as many.
use lilc.Ast.{null}
use lilc.Common.{
  ℕ, zero, suc, ◌+◌, ◌≤◌, ◌≡◌, refl, ap, Bool-cases, inl, inr, none, some, List, [], ◌∷◌, ◌++◌,
  length, arith, ltb, Bytes, All, map, length-map, length-append, ◌==◌, true,
}
use lilc.Double.{Double}
use lilc.Lex.Lexeme.{Lexeme, mark, AreLexemes}
use lilc.Lex.Spec.{rest}
use lilc.Lex.Written.{Written}
use lilc.Lex.{punct, expected_message}
use lilc.Outcome.{Outcome, pure, ◌>>◌, fault, Fault, bind}
use lilc.Parse.Ahead.{
  At, At-cls, At-is, Reads-then, Reads-ok, scan-Reads, consumef-Reads, consumef-Dies, Dies,
}
use lilc.Parse.Branches.{spend4}
use lilc.Parse.Compound.{params-Reads, param_comma-Reads, name-is, read_str-name}
use lilc.Parse.Emitted.{params-longer}
use lilc.Parse.Errors.{parse-then, behind_block, Dies-bind}
use lilc.Parse.Overflow.{Overflows}
use lilc.Parse.Legible.{params-AreLexemes, keyword-IsLexeme, lparen-IsLexeme, rparen-IsLexeme}
use lilc.Parse.Pratt.{lookup-row, is-leb, expression-then}
use lilc.Parse.Source.{
  Word, spelled, Exprs, word, keyword_def, emit_params, emit_stmts, IsName, AreSource,
}
use lilc.Parse.{
  Parser, vtables, check_store, parse, parse_err, expr_stmt, consumef, infix_loop, expression,
  params_loop, block_loop,
}
use lilc.Token.{tok_id, tok_rparen, tok_lparen, tok_semi, tok_eos, tok_rcurl, to_int}

-- `def w(params)` in front of `xs`
abbrev pub def_head : Word → List Word → List Lexeme → List Lexeme
def_head w params xs = keyword_def ∷ word w ∷ mark b'(' ∷ emit_params params (mark b')' ∷ xs)

bind-Overflows :
    {A B : Type 0} {r : Outcome A} (f : A → Outcome B) → Overflows r → Overflows (bind r f)
bind-Overflows f e = ap (λ r. bind r f) e

head-AreLexemes :
    (w : Word) (params : List Word) (xs : List Lexeme)
    → IsName w
    → All IsName params
    → AreLexemes xs
    → AreLexemes (def_head w params xs)
head-AreLexemes w params xs n ns h = (
  keyword-IsLexeme.2,
  (n.0, (lparen-IsLexeme, params-AreLexemes params (mark b')' ∷ xs) ns (rparen-IsLexeme, h))),
)

head-longer : (w : Word) (params : List Word) (xs : List Lexeme) → 4 ≤ length (def_head w params xs)
head-longer w params xs = omega (arith, params-longer params (mark b')' ∷ xs))

-- Fuel that is five units at the least.
spend5 : (P : ℕ → Type 0) (f : ℕ) → 5 ≤ f → ((g : ℕ) → P (suc (suc (suc (suc (suc g)))))) → P f
spend5 P zero h k = absurd (omega arith)
spend5 P (suc f) h k = spend4 (λ f. P (suc f)) f (omega arith) k

module _ {D : Type 0} ⦃dbl : Double D⦄ where
  params-Overflows :
      (ws : List Word) (acc : List Bytes) (f : ℕ) (ys : List Lexeme) (p : Parser D)
      → All IsName ws
      → length acc ≤ 16
      → 17 ≤ length acc + length ws
      → 18 ≤ f + length acc
      → At (emit_params ws (mark b')' ∷ ys)) p
      → Overflows (params_loop f acc p)
  unfolding params_loop check_store punct to_int
  params-Overflows ws acc zero ys p n room many fuel h = absurd (omega arith)
  params-Overflows [] acc (suc f) ys p n room many fuel h = absurd (omega arith)
  params-Overflows (w ∷ ws) acc (suc f) ys p n room many fuel h =
      let longer = length-append acc (spelled w ∷ []) in
      rw
        (
          name-is w tok_rparen n.0 h,
          is-leb (length acc) 16 room,
          name-is w tok_id n.0 h,
          read_str-name w p n.0 h,
        )
        (elim (Bool-cases (ltb (length acc) 16)) [
          | inl fits ↦ rw fits (
              Reads-then Overflows _ (scan-Reads h) λ q h1.
                Reads-then Overflows _ (param_comma-Reads ws ys q h1).1 λ q1 h2.
                  params-Overflows ws (acc ++ spelled w ∷ []) f ys q1 n.1
                    (ground (arith, longer, fits)) (omega (arith, longer)) (omega (arith, longer))
                    h2)
          | inr full ↦ rw full refl
        ])

  def-Overflows :
      (w : Word) (params : List Word) (xs : List Lexeme) (f : ℕ) (p : Parser D)
      → IsName w
      → All IsName params
      → 17 ≤ length params
      → At (def_head w params xs) p
      → Overflows (expression (suc (suc (suc f))) 0 p)
  unfolding expression vtables punct
  def-Overflows w params xs f p n ns many h =
      expression-then Overflows (suc (suc f)) 0 refl refl
        (λ old q h1. bind-Overflows _ (
          Reads-then Overflows _ (consumef-Reads tok_id n.1 h1) λ q1 h2.
            Reads-then Overflows _ (consumef-Reads tok_lparen refl h2) λ q2 h3. bind-Overflows _ (
              params-Overflows params [] 18 xs q2 ns (omega arith) (omega (arith, many))
                (omega arith) h3)))
        h

  -- A statement that failed in front of a right parenthesis.
  failed-Dies :
      (xs : List Lexeme) (q : Parser D) (msg : Bytes) (g : ℕ)
      → At (mark b')' ∷ xs) q
      → Dies (expected_message tok_semi tok_rparen) (
          bind
            (infix_loop (suc g) 0 null (record q { err = some msg }))
            λ (m, q1). (consumef tok_semi >> pure m) q1)
  unfolding expression vtables punct to_int
  failed-Dies xs q msg g h =
      rw (lookup-row (record q { err = some msg }) (At-cls h) refl)
        (Dies-bind _ (consumef-Dies tok_semi (some msg) refl h))

  -- The message that `funcdef_prefix` records is lost: the semicolon is missed first.
  def-Dies :
      (w : Word) (params : List Word) (xs : List Lexeme) (f : ℕ) (p : Parser D)
      → IsName w
      → All IsName params
      → length params ≡ 16
      → At (def_head w params xs) p
      → Dies (expected_message tok_semi tok_rparen) (expr_stmt (suc (suc (suc (suc f)))) p)
  unfolding expression vtables punct parse_err
  def-Dies w params xs f p n ns sixteen h =
      expression-then
        (λ r.
          Dies (expected_message tok_semi tok_rparen)
            (bind r λ (m, q). (consumef tok_semi >> pure m) q))
        (suc (suc f)) 0 refl refl
        (λ old q h1.
          let (q1, e1, h2) = Reads-ok (consumef-Reads tok_id n.1 h1) in
          let (q2, e2, h3) = Reads-ok (consumef-Reads tok_lparen refl h2) in
          let (q3, e3, h4) =
            Reads-ok
              (params-Reads params [] 18 xs q2 ns (omega (arith, sixteen)) (omega arith) h3) in
          rw (e1, e2, e3, full params sixteen) (failed-Dies xs q3 _ (suc f) h4))
        h
    where
      full : (ws : List Word) → length ws ≡ 16 → (length (map spelled ws) == 16) ≡ true
      full ws e = ground (arith, length-map spelled ws)

  -- When no message was set, a source that holds whole statements and then the head of a
  -- definition with 17 parameters or more makes `parse` write behind the array of parameters.
  pub parse_param_overflow :
      (es : Exprs) (w : Word) (params : List Word) (xs : List Lexeme) (p : Parser D)
      → AreSource es
      → IsName w
      → All IsName params
      → 17 ≤ length params
      → AreLexemes xs
      → p.err ≡ none
      → Written (emit_stmts es (def_head w params xs)) (rest p.lex)
      → parse p ≡ fault Fault.buffer_overflow
  unfolding expression to_int
  parse_param_overflow es w params xs p wf n ns many lexemes clean c =
      parse-then Overflows es (def_head w params xs) p wf (head-AreLexemes w params xs n ns lexemes)
        clean c
        λ acc g q fuel h. bind-Overflows behind_block (
          spend5 (λ g. Overflows (block_loop g acc q)) g (omega (arith, head-longer w params xs))
            (λ g.
              rw (At-is tok_eos h, At-is tok_rcurl h)
                (bind-Overflows _ (bind-Overflows _ (def-Overflows w params xs g q n ns many h)))))

  -- When no message was set, a source that holds whole statements and then the head of a
  -- definition with 16 parameters makes `parse` stop with the message that a semicolon was
  -- expected and a right parenthesis seen; the message that the parameters are too many is lost.
  pub parse_too_many_params :
      (es : Exprs) (w : Word) (params : List Word) (xs : List Lexeme) (p : Parser D)
      → AreSource es
      → IsName w
      → All IsName params
      → length params ≡ 16
      → AreLexemes xs
      → p.err ≡ none
      → Written (emit_stmts es (def_head w params xs)) (rest p.lex)
      → Dies (expected_message tok_semi tok_rparen) (parse p)
  unfolding expression to_int
  parse_too_many_params es w params xs p wf n ns sixteen lexemes clean c =
      parse-then (Dies _) es (def_head w params xs) p wf (head-AreLexemes w params xs n ns lexemes)
        clean c
        λ acc g q fuel h. Dies-bind behind_block (
          spend5 (λ g. Dies (expected_message tok_semi tok_rparen) (block_loop g acc q)) g
            (omega (arith, head-longer w params xs))
            (λ g.
              rw (At-is tok_eos h, At-is tok_rcurl h)
                (Dies-bind _ (def-Dies w params xs g q n ns sixteen h))))
