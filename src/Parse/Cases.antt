-- ===== src/Parse/Cases.antt =====
-- Reading back each kind of expression, when its parts are read back.
use lilc.Ast.{
  Node, block_node, is_null, Nodes, nil, cons, size, lilc_dbl_node_new, lilc_var_node_new,
  lilc_bin_op_node_new,
}
use lilc.Common.{
  ℕ, zero, suc, ◌+◌, ◌*◌, ◌≤◌, ◌<◌, ◌≡◌, refl, ap, ◌∙◌, Bool, true, false, not, ◌&&◌, some, List,
  ◌∷◌, length, arith, leb,
}
use lilc.Double.{Double}
use lilc.Lex.Lexeme.{Lexeme, mark, token_of, word_token}
use lilc.Lex.{punct}
use lilc.Parse.Ahead.{head_class, At, Reads, reads, Reads-bind, consumef-Reads}
use lilc.Parse.Emitted.{
  emit-longer, level-small, level-below, op-row, op-class, rparen-Stops, op-Stops,
}
use lilc.Parse.Pratt.{
  Stops, Stops-weaken, lookup-row, infix_loop-Stops, infix_loop-goes, expression-Reads,
}
use lilc.Parse.Source.{
  Word, spelled, Op, less, Expr, num, var, bin, parens, Exprs, op_class, op_mark, level, below,
  word, wrap, emit, emit_args, emit_stmts, node_of, nodes_of, IsName, count,
}
use lilc.Parse.{
  Parser, of_bin_op, vtables, dbl_prefix, id_prefix, read_dbl, read_str, max_func_params,
  expression, infix_loop, infix_call, args_loop, block_loop,
}
use lilc.Token.{tok_id, tok_rparen, tok_rcurl, tok_eos, tok_eq, Val, as_str}

-- A block ends here.
abbrev pub Ends : List Lexeme → Type 0
Ends ys = (not (tok_eq (head_class ys) tok_eos) && not (tok_eq (head_class ys) tok_rcurl)) ≡ false

module _ (D : Type 0) ⦃dbl : Double D⦄ where
  -- What `infix_loop` makes of the expression `e`, whatever its fuel, is what `expression` makes of
  -- its lexemes, when the operators in front stand at `b` and the loop at `rbp`.
  abbrev pub ReadsExpr : Expr → Type 0
  ReadsExpr e =
      (b rbp f : ℕ) (ys zs : List Lexeme) (r : Node D) (p : Parser D)
      → rbp ≤ b
      → b ≤ 9
      → Stops (suc b) ys
      → 6 * length (emit b e ys) + 1 ≤ f
      → ((g : ℕ) (q : Parser D)
          → 6 * length ys + 1 ≤ g
          → At ys q
          → Reads zs r (infix_loop g rbp (node_of e) q))
      → At (emit b e ys) p
      → Reads zs r (expression f rbp p)

  abbrev pub join : Nodes D → Nodes D → Nodes D
  join nil ns = ns
  join (cons m ms) ns = cons m (join ms ns)

  abbrev pub ReadsArgs : Exprs → Type 0
  ReadsArgs es =
      (acc : Nodes D) (f : ℕ) (ys : List Lexeme) (p : Parser D)
      → size acc + count es ≤ max_func_params
      → 6 * length (emit_args es (mark b')' ∷ ys)) + 2 ≤ f
      → At (emit_args es (mark b')' ∷ ys)) p
      → Reads (mark b')' ∷ ys) (some (join acc (nodes_of es))) (args_loop f acc p)

  abbrev pub ReadsStmts : Exprs → Type 0
  ReadsStmts es =
      (acc : Nodes D) (f : ℕ) (ys : List Lexeme) (p : Parser D)
      → Ends ys
      → 6 * length (emit_stmts es ys) + 3 ≤ f
      → At (emit_stmts es ys) p
      → Reads ys (block_node (join acc (nodes_of es))) (block_loop f acc p)

  pub not_null : (e : Expr) → is_null (node_of {D = D} e) ≡ false
  unfolding node_of
  not_null (num w) = refl
  not_null (parens e) = not_null e
  not_null _ = refl

module _ {D : Type 0} ⦃dbl : Double D⦄ where
  -- An expression that is read to its end.
  pub whole-Reads :
      (e : Expr) (b f : ℕ) (ys : List Lexeme) (p : Parser D)
      → ReadsExpr D e
      → b ≤ 9
      → Stops b ys
      → 6 * length (emit b e ys) + 1 ≤ f
      → At (emit b e ys) p
      → Reads ys (node_of e) (expression f b p)
  whole-Reads e b f ys p ih small s fuel h =
      ih b b f ys ys (node_of e) p (omega arith) small (Stops-weaken (omega arith) s) fuel loop h
    where
      loop :
          (g : ℕ) (q : Parser D)
          → 6 * length ys + 1 ≤ g
          → At ys q
          → Reads ys (node_of e) (infix_loop g b (node_of e) q)
      loop zero q k at = absurd (omega arith)
      loop (suc g) q k at = infix_loop-Stops g b (node_of e) s at

  pub num-ReadsExpr : (w : Word) → ReadsExpr D (num w)
  unfolding emit node_of vtables dbl_prefix read_dbl lilc_dbl_node_new expression
  num-ReadsExpr w b rbp zero ys zs r p lo hi s fuel k h = absurd (omega arith)
  num-ReadsExpr w b rbp (suc zero) ys zs r p lo hi s fuel k h = absurd (omega arith)
  num-ReadsExpr w b rbp (suc (suc f)) ys zs r p lo hi s fuel k h =
      expression-Reads (suc f) rbp (node_of (num w)) r refl refl (λ old q h1. reads h1)
        (λ q h1. k (suc f) q (omega arith) h1) h

  pub name-token :
      (w : Word) (old : Val D)
      → IsName w
      → token_of old (word w) ≡ record { cls = tok_id; val = as_str (spelled w) }
  name-token w old h = ap (λ t. word_token t (spelled w) old) h.1

  pub var-ReadsExpr : (w : Word) → IsName w → ReadsExpr D (var w)
  unfolding emit node_of vtables id_prefix read_str lilc_var_node_new expression
  var-ReadsExpr w n b rbp zero ys zs r p lo hi s fuel k h = absurd (omega arith)
  var-ReadsExpr w n b rbp (suc zero) ys zs r p lo hi s fuel k h = absurd (omega arith)
  var-ReadsExpr w n b rbp (suc (suc f)) ys zs r p lo hi s fuel k h =
      expression-Reads (suc f) rbp (node_of (var w)) r (ap vtables n.1) refl
        (λ old q h1. rw (name-token w old n) (reads h1)) (λ q h1. k (suc f) q (omega arith) h1) h

  op-cls : (op : Op) (old : Val D) → (token_of old (mark (op_mark op))).cls ≡ op_class op
  unfolding punct
  op-cls less old = refl
  op-cls _ old = refl

  bin_op-Reads :
      (op : Op) (old : Val D) (l r : Expr) (f : ℕ) (ys : List Lexeme) (q : Parser D)
      → ReadsExpr D r
      → Stops (level op) ys
      → 6 * length (emit (level op) r ys) + 1 ≤ f
      → At (emit (level op) r ys) q
      → Reads ys
          (node_of (bin op l r))
          (infix_call (suc (suc f)) of_bin_op (token_of old (mark (op_mark op))) (node_of l) q)
  unfolding expression node_of lilc_bin_op_node_new
  bin_op-Reads op old l r f ys q ih s fuel h = rw (lookup-row q (op-cls op old) (op-row op)) (
      Reads-bind _ (whole-Reads r (level op) f ys q ih (level-small op) s fuel h)
        λ q1 h1. rw (not_null D r, op-cls op old) (reads h1))

  bare-Reads :
      (op : Op) (l r : Expr) (b rbp f : ℕ) (ys zs : List Lexeme) (res : Node D) (p : Parser D)
      → ReadsExpr D l
      → ReadsExpr D r
      → rbp ≤ b
      → b < level op
      → Stops (suc b) ys
      → 6 * length (emit (below op) l (mark (op_mark op) ∷ emit (level op) r ys)) + 1 ≤ f
      → ((g : ℕ) (q : Parser D)
          → 6 * length ys + 1 ≤ g
          → At ys q
          → Reads zs res (infix_loop g rbp (node_of (bin op l r)) q))
      → At (emit (below op) l (mark (op_mark op) ∷ emit (level op) r ys)) p
      → Reads zs res (expression f rbp p)
  bare-Reads op l r b rbp f ys zs res p il ir lo tight s fuel k h =
      il (below op) rbp f (mark (op_mark op) ∷ emit (level op) r ys) zs res p
        (omega (arith, level-below op)) (omega (arith, level-below op, level-small op))
        (op-Stops (suc (below op)) op _ (omega (arith, level-below op))) fuel loop h
    where
      loop :
          (g : ℕ) (q : Parser D)
          → 6 * length (mark (op_mark op) ∷ emit (level op) r ys) + 1 ≤ g
          → At (mark (op_mark op) ∷ emit (level op) r ys) q
          → Reads zs res (infix_loop g rbp (node_of l) q)
      loop zero q m at = absurd (omega arith)
      loop (suc zero) q m at = absurd (omega arith)
      loop (suc (suc zero)) q m at = absurd (omega arith)
      loop (suc (suc (suc g))) q m at =
          infix_loop-goes (suc (suc g)) rbp (node_of l) (node_of (bin op l r)) res
            (ap vtables (op-class op) ∙ op-row op) refl (omega arith)
            (λ old q1 h1.
              bin_op-Reads op old l r g ys q1 ir (Stops-weaken (omega arith) s) (omega arith) h1)
            (λ q1 h1. k (suc (suc g)) q1 (omega (arith, emit-longer (level op) r ys)) h1) at

  -- `infix_loop` ends in front of a token that is no operator.
  loop-ends :
      (n : Node D) (rbp : ℕ) (ys : List Lexeme)
      → Stops rbp ys
      → (g : ℕ) (q : Parser D) → 6 * length ys + 1 ≤ g
      → At ys q
      → Reads ys n (infix_loop g rbp n q)
  loop-ends n rbp ys s zero q k at = absurd (omega arith)
  loop-ends n rbp ys s (suc g) q k at = infix_loop-Stops g rbp n s at

  -- Between parentheses.
  enclosed-Reads :
      (xs ys zs : List Lexeme) (rbp f : ℕ) (n res : Node D) (p : Parser D)
      → ((g : ℕ) (q : Parser D)
          → 6 * length xs + 1 ≤ g
          → At xs q
          → Reads (mark b')' ∷ ys) n (expression g 0 q))
      → length ys ≤ length xs
      → 6 * length (mark b'(' ∷ xs) + 1 ≤ f
      → ((g : ℕ) (q : Parser D)
          → 6 * length ys + 1 ≤ g
          → At ys q
          → Reads zs res (infix_loop g rbp n q))
      → At (mark b'(' ∷ xs) p
      → Reads zs res (expression f rbp p)
  unfolding vtables expression punct
  enclosed-Reads xs ys zs rbp zero n res p inner longer fuel k h = absurd (omega arith)
  enclosed-Reads xs ys zs rbp (suc zero) n res p inner longer fuel k h = absurd (omega arith)
  enclosed-Reads xs ys zs rbp (suc (suc zero)) n res p inner longer fuel k h = absurd (omega arith)
  enclosed-Reads xs ys zs rbp (suc (suc (suc f))) n res p inner longer fuel k h =
      expression-Reads (suc (suc f)) rbp n res refl refl
        (λ old q h1.
          Reads-bind _ (inner f q (omega arith) h1)
            λ q1 h2. Reads-bind _ (consumef-Reads tok_rparen refl h2) λ q2 h3. reads h3)
        (λ q h1. k (suc (suc f)) q (omega arith) h1) h

  pub parens-ReadsExpr : (e : Expr) → ReadsExpr D e → ReadsExpr D (parens e)
  unfolding emit node_of
  parens-ReadsExpr e ih b rbp f ys zs res p lo hi s fuel k h =
      enclosed-Reads (emit 0 e (mark b')' ∷ ys)) ys zs rbp f (node_of e) res p
        (λ g q m at. whole-Reads e 0 g (mark b')' ∷ ys) q ih (omega arith) (rparen-Stops 0 ys) m at)
        (omega (arith, emit-longer 0 e (mark b')' ∷ ys))) fuel k h

  pub bin-ReadsExpr :
      (op : Op) (l r : Expr) → ReadsExpr D l → ReadsExpr D r → ReadsExpr D (bin op l r)
  unfolding emit
  bin-ReadsExpr op l r il ir b rbp f ys zs res p lo hi s fuel k h =
      go (leb (level op) b) refl fuel h
    where
      F : List Lexeme → List Lexeme
      F zs = emit (below op) l (mark (op_mark op) ∷ emit (level op) r zs)

      go :
          (c : Bool)
          → leb (level op) b ≡ c
          → 6 * length (wrap c F ys) + 1 ≤ f
          → At (wrap c F ys) p
          → Reads zs res (expression f rbp p)
      go true e fuel h =
          enclosed-Reads (F (mark b')' ∷ ys)) ys zs rbp f (node_of (bin op l r)) res p
            (λ g q m at.
              bare-Reads op l r 0 0 g (mark b')' ∷ ys) (mark b')' ∷ ys) (node_of (bin op l r)) q il
                ir (omega arith) (omega (arith, level-below op)) (rparen-Stops 1 ys) m
                (loop-ends (node_of (bin op l r)) 0 (mark b')' ∷ ys) (rparen-Stops 0 ys)) at)
            (omega (
              arith,
              emit-longer (below op) l (mark (op_mark op) ∷ emit (level op) r (mark b')' ∷ ys)),
              emit-longer (level op) r (mark b')' ∷ ys),
            ))
            fuel k h
      go false e fuel h = bare-Reads op l r b rbp f ys zs res p il ir lo (ground arith) s fuel k h
