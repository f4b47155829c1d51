-- ===== src/Parse/Emitted.antt =====
-- The lexemes of a program: how many there are, how they begin, and where an expression stops.
use lilc.Common.{
  ℕ, suc, ◌≤◌, ◌<◌, ◌≡◌, refl, Bool, true, false, none, some, List, [], ◌∷◌, length, arith, leb,
}
use lilc.Lex.Lexeme.{Lexeme, mark, word_of}
use lilc.Lex.{punct}
use lilc.Parse.Ahead.{class_of, head_class}
use lilc.Parse.Pratt.{Stops}
use lilc.Parse.Source.{
  Word, Op, less, plus, minus, times, over, Expr, num, var, bin, parens, call, if_only, if_else,
  def, Exprs, more, op_class, op_mark, level, below, wrap, comma, param_comma, emit_params, emit,
  emit_args, emit_stmts, IsSource,
}
use lilc.Parse.{vtables, of_bin_op, Vtable}
use lilc.Token.{
  TokType, tok_eos, tok_id, tok_def, tok_lparen, tok_rparen, tok_rcurl, tok_dbl, tok_if, tok_else,
  tok_eq, to_int,
}

wrap-longer :
    (c : Bool) (f : List Lexeme → List Lexeme) (ys : List Lexeme)
    → ((zs : List Lexeme) → length zs < length (f zs))
    → length ys < length (wrap c f ys)
wrap-longer true f ys h = omega (arith, h (mark b')' ∷ ys))
wrap-longer false f ys h = h ys

pub comma-longer : (es : Exprs) (ys : List Lexeme) → length ys ≤ length (comma es ys)
comma-longer Exprs.none ys = omega arith
comma-longer (more a rest) ys = omega arith

param_comma-longer : (ws : List Word) (ys : List Lexeme) → length ys ≤ length (param_comma ws ys)
param_comma-longer [] ys = omega arith
param_comma-longer (w ∷ ws) ys = omega arith

pub params-longer : (ws : List Word) (ys : List Lexeme) → length ys ≤ length (emit_params ws ys)
params-longer [] ys = omega arith
params-longer (w ∷ ws) ys =
    omega (arith, param_comma-longer ws (emit_params ws ys), params-longer ws ys)

mutual
  unfolding emit

  pub emit-longer : (b : ℕ) (e : Expr) (ys : List Lexeme) → length ys < length (emit b e ys)
  emit-longer b (num w) ys = omega arith
  emit-longer b (var w) ys = omega arith
  emit-longer b (bin op l r) ys = wrap-longer (leb (level op) b) _ ys λ zs. omega (
    arith,
    emit-longer (below op) l (mark (op_mark op) ∷ emit (level op) r zs),
    emit-longer (level op) r zs,
  )
  emit-longer b (parens e) ys = omega (arith, emit-longer 0 e (mark b')' ∷ ys))
  emit-longer b (call w args) ys = omega (arith, args-longer args (mark b')' ∷ ys))
  emit-longer b (if_only c th) ys = omega (
    arith,
    emit-longer 0 c (mark b')' ∷ mark b'{' ∷ emit_stmts th (mark b'}' ∷ ys)),
    stmts-longer th (mark b'}' ∷ ys),
  )
  emit-longer b (if_else c th el) ys =
      let mid =
        mark b'}'
        ∷ word_of b'e' (b'l' ∷ b's' ∷ b'e' ∷ [])
        ∷ mark b'{'
        ∷ emit_stmts el (mark b'}' ∷ ys) in
      omega (
        arith,
        emit-longer 0 c (mark b')' ∷ mark b'{' ∷ emit_stmts th mid),
        stmts-longer th mid,
        stmts-longer el (mark b'}' ∷ ys),
      )
  emit-longer b (def w params body) ys =
      let mid = mark b')' ∷ mark b'{' ∷ emit_stmts body (mark b'}' ∷ ys) in
      omega (arith, params-longer params mid, stmts-longer body (mark b'}' ∷ ys))

  pub args-longer : (es : Exprs) (ys : List Lexeme) → length ys ≤ length (emit_args es ys)
  args-longer Exprs.none ys = omega arith
  args-longer (more e es) ys = omega (
    arith,
    emit-longer 0 e (comma es (emit_args es ys)),
    comma-longer es (emit_args es ys),
    args-longer es ys,
  )

  pub stmts-longer : (es : Exprs) (ys : List Lexeme) → length ys ≤ length (emit_stmts es ys)
  stmts-longer Exprs.none ys = omega arith
  stmts-longer (more e es) ys =
      omega (arith, emit-longer 0 e (mark b';' ∷ emit_stmts es ys), stmts-longer es ys)

-- A token that begins an expression is none of these.
pub record Begins (t : TokType) : Type 0 where
  pub no_rparen : tok_eq t tok_rparen ≡ false
  pub no_rcurl : tok_eq t tok_rcurl ≡ false
  pub no_eos : tok_eq t tok_eos ≡ false

begins_at :
    (t : TokType) {u : TokType}
    → u ≡ t
    → tok_eq t tok_rparen ≡ false
    → tok_eq t tok_rcurl ≡ false
    → tok_eq t tok_eos ≡ false
    → Begins u
begins_at t e a b c = record { no_rparen = rw e a; no_rcurl = rw e b; no_eos = rw e c }

wrap-Begins :
    (c : Bool) (f : List Lexeme → List Lexeme) (ys : List Lexeme)
    → Begins (head_class (f ys))
    → Begins (head_class (wrap c f ys))
unfolding punct to_int
wrap-Begins true f ys h = begins_at tok_lparen refl refl refl refl
wrap-Begins false f ys h = h

pub emit-Begins :
    (b : ℕ) (e : Expr) (ys : List Lexeme) → IsSource e → Begins (head_class (emit b e ys))
unfolding emit IsSource punct to_int
emit-Begins b (num w) ys h = begins_at tok_dbl refl refl refl refl
emit-Begins b (var w) ys h = begins_at tok_id h.1 refl refl refl
emit-Begins b (bin op l r) ys h =
    wrap-Begins (leb (level op) b) _ ys
      (emit-Begins (below op) l (mark (op_mark op) ∷ emit (level op) r ys) h.0)
emit-Begins b (parens e) ys h = begins_at tok_lparen refl refl refl refl
emit-Begins b (call w args) ys h = begins_at tok_id h.0.1 refl refl refl
emit-Begins b (if_only c th) ys h = begins_at tok_if refl refl refl refl
emit-Begins b (if_else c th el) ys h = begins_at tok_if refl refl refl refl
emit-Begins b (def w params body) ys h = begins_at tok_def refl refl refl refl

-- At a token that is no operator every expression stops.
pub mark-Stops :
    (n c : ℕ) (ys : List Lexeme) {row : Vtable}
    → vtables (class_of (mark c)) ≡ some row
    → row.lbp ≡ 0
    → Stops n (mark c ∷ ys)
mark-Stops n c ys {row} e z = record { row = row; found = e; loose = omega (arith, z) }

pub rparen-Stops : (n : ℕ) (ys : List Lexeme) → Stops n (mark b')' ∷ ys)
unfolding vtables punct
rparen-Stops n ys = mark-Stops n b')' ys refl refl

pub semi-Stops : (n : ℕ) (ys : List Lexeme) → Stops n (mark b';' ∷ ys)
unfolding vtables punct
semi-Stops n ys = mark-Stops n b';' ys refl refl

pub args-Stops :
    (n : ℕ) (es : Exprs) (ys : List Lexeme) → Stops n (comma es (emit_args es (mark b')' ∷ ys)))
unfolding vtables punct emit
args-Stops n Exprs.none ys = rparen-Stops n ys
args-Stops n (more e es) ys = mark-Stops n b',' (emit_args (more e es) (mark b')' ∷ ys)) refl refl

pub op-Stops :
    (n : ℕ) (op : Op) (ys : List Lexeme) → level op ≤ n → Stops n (mark (op_mark op) ∷ ys)
unfolding vtables punct
op-Stops n less ys h = record { row = _; found = refl; loose = h }
op-Stops n plus ys h = record { row = _; found = refl; loose = h }
op-Stops n minus ys h = record { row = _; found = refl; loose = h }
op-Stops n times ys h = record { row = _; found = refl; loose = h }
op-Stops n over ys h = record { row = _; found = refl; loose = h }

-- No `else` stands where an expression stops.
pub Stops-no_else :
    {n : ℕ} {ys : List Lexeme} → Stops n ys → tok_eq (head_class ys) tok_else ≡ false
unfolding vtables to_int
Stops-no_else {ys} s = go (head_class ys) s.found
  where
    go : (t : TokType) {row : Vtable} → vtables t ≡ some row → tok_eq t tok_else ≡ false
    go tok_else e = cc
    go tok_id e = refl
    go _ e = refl

pub level-small : (op : Op) → level op ≤ 9
level-small less = omega arith
level-small _ = omega arith

pub level-below : (op : Op) → level op ≡ suc (below op)
level-below less = refl
level-below _ = refl

abbrev pub op_row : Op → Vtable
op_row op = record { lbp = level op; as_prefix = none; as_infix = some of_bin_op }

pub op-row : (op : Op) → vtables (op_class op) ≡ some (op_row op)
unfolding vtables
op-row less = refl
op-row _ = refl

pub op-class : (op : Op) → class_of (mark (op_mark op)) ≡ op_class op
unfolding punct
op-class less = refl
op-class _ = refl
