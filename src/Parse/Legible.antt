-- ===== src/Parse/Legible.antt =====
-- The lexemes of a program are spelled right.
use lilc.Common.{ℕ, refl, Bool, true, false, List, [], ◌∷◌, All, arith, leb}
use lilc.Lex.Lexeme.{Lexeme, mark, IsLexeme, AreLexemes}
use lilc.Lex.{punct, is_alpha, is_ident}
use lilc.Parse.Source.{
  Word, Op, less, Expr, num, var, bin, parens, call, if_only, if_else, def, Exprs, more, op_mark,
  level, below, keyword_if, keyword_else, keyword_def, wrap, comma, emit_params, emit, emit_args,
  emit_stmts, IsName, IsSource, AreSource,
}

op-IsLexeme : (op : Op) → IsLexeme (mark (op_mark op))
unfolding IsLexeme punct
op-IsLexeme less = (λ e. cc, λ e. cc)
op-IsLexeme _ = (λ e. cc, λ e. cc)

pub lparen-IsLexeme : IsLexeme (mark b'(')
unfolding IsLexeme punct
lparen-IsLexeme = (λ e. cc, λ e. cc)

pub rparen-IsLexeme : IsLexeme (mark b')')
unfolding IsLexeme punct
rparen-IsLexeme = (λ e. cc, λ e. cc)

lcurl-IsLexeme : IsLexeme (mark b'{')
unfolding IsLexeme punct
lcurl-IsLexeme = (λ e. cc, λ e. cc)

rcurl-IsLexeme : IsLexeme (mark b'}')
unfolding IsLexeme punct
rcurl-IsLexeme = (λ e. cc, λ e. cc)

comma-IsLexeme : IsLexeme (mark b',')
unfolding IsLexeme punct
comma-IsLexeme = (λ e. cc, λ e. cc)

pub semi-IsLexeme : IsLexeme (mark b';')
unfolding IsLexeme punct
semi-IsLexeme = (λ e. cc, λ e. cc)

pub keyword-IsLexeme : IsLexeme keyword_if × IsLexeme keyword_else × IsLexeme keyword_def
unfolding IsLexeme is_ident is_alpha
keyword-IsLexeme = (
  (refl, (refl, tt), omega arith),
  (refl, (refl, (refl, (refl, tt))), omega arith),
  (refl, (refl, (refl, tt)), omega arith),
)

wrap-AreLexemes :
    (c : Bool) (f : List Lexeme → List Lexeme) (ys : List Lexeme)
    → ((zs : List Lexeme) → AreLexemes zs → AreLexemes (f zs))
    → AreLexemes ys
    → AreLexemes (wrap c f ys)
wrap-AreLexemes true f ys k h = (lparen-IsLexeme, k (mark b')' ∷ ys) (rparen-IsLexeme, h))
wrap-AreLexemes false f ys k h = k ys h

comma-AreLexemes : (es : Exprs) (ys : List Lexeme) → AreLexemes ys → AreLexemes (comma es ys)
comma-AreLexemes Exprs.none ys h = h
comma-AreLexemes (more e es) ys h = (comma-IsLexeme, h)

pub params-AreLexemes :
    (ws : List Word) (ys : List Lexeme)
    → All IsName ws
    → AreLexemes ys
    → AreLexemes (emit_params ws ys)
params-AreLexemes [] ys n h = h
params-AreLexemes (w ∷ []) ys n h = (n.0.0, h)
params-AreLexemes (w ∷ v ∷ ws) ys n h =
    (n.0.0, (comma-IsLexeme, params-AreLexemes (v ∷ ws) ys n.1 h))

braces-AreLexemes : (ys : List Lexeme) → AreLexemes ys → AreLexemes (mark b')' ∷ mark b'{' ∷ ys)
braces-AreLexemes ys h = (rparen-IsLexeme, (lcurl-IsLexeme, h))

mutual
  unfolding emit IsSource

  pub emit-AreLexemes :
      (b : ℕ) (e : Expr) (ys : List Lexeme) → IsSource e → AreLexemes ys → AreLexemes (emit b e ys)
  emit-AreLexemes b (num w) ys n h = (n, h)
  emit-AreLexemes b (var w) ys n h = (n.0, h)
  emit-AreLexemes b (bin op l r) ys n h =
      wrap-AreLexemes (leb (level op) b) _ ys
        (λ zs h1.
          emit-AreLexemes (below op) l (mark (op_mark op) ∷ emit (level op) r zs) n.0
            (op-IsLexeme op, emit-AreLexemes (level op) r zs n.1 h1))
        h
  emit-AreLexemes b (parens e) ys n h =
      (lparen-IsLexeme, emit-AreLexemes 0 e (mark b')' ∷ ys) n (rparen-IsLexeme, h))
  emit-AreLexemes b (call w args) ys n h =
      (n.0.0, (lparen-IsLexeme, args-AreLexemes args (mark b')' ∷ ys) n.2 (rparen-IsLexeme, h)))
  emit-AreLexemes b (if_only c th) ys n h = (
    keyword-IsLexeme.0,
    (
      lparen-IsLexeme,
      emit-AreLexemes 0 c (mark b')' ∷ mark b'{' ∷ emit_stmts th (mark b'}' ∷ ys)) n.0
          (braces-AreLexemes _ (stmts-AreLexemes th (mark b'}' ∷ ys) n.1 (rcurl-IsLexeme, h))),
    ),
  )
  emit-AreLexemes b (if_else c th el) ys n h =
      let other = emit_stmts el (mark b'}' ∷ ys) in
      let behind = mark b'}' ∷ keyword_else ∷ mark b'{' ∷ other in
      (
        keyword-IsLexeme.0,
        (
          lparen-IsLexeme,
          emit-AreLexemes 0 c (mark b')' ∷ mark b'{' ∷ emit_stmts th behind) n.0 (
              braces-AreLexemes _ (
                stmts-AreLexemes th behind n.1 (
                  rcurl-IsLexeme,
                  (
                    keyword-IsLexeme.1,
                    (lcurl-IsLexeme, stmts-AreLexemes el (mark b'}' ∷ ys) n.2 (rcurl-IsLexeme, h)),
                  ),
                ))),
        ),
      )
  emit-AreLexemes b (def w params body) ys n h = (
    keyword-IsLexeme.2,
    (
      n.0.0,
      (
        lparen-IsLexeme,
        params-AreLexemes params (mark b')' ∷ mark b'{' ∷ emit_stmts body (mark b'}' ∷ ys)) n.1
            (braces-AreLexemes _ (stmts-AreLexemes body (mark b'}' ∷ ys) n.3 (rcurl-IsLexeme, h))),
      ),
    ),
  )

  pub args-AreLexemes :
      (es : Exprs) (ys : List Lexeme) → AreSource es → AreLexemes ys → AreLexemes (emit_args es ys)
  args-AreLexemes Exprs.none ys n h = h
  args-AreLexemes (more e es) ys n h =
      emit-AreLexemes 0 e (comma es (emit_args es ys)) n.0
        (comma-AreLexemes es (emit_args es ys) (args-AreLexemes es ys n.1 h))

  pub stmts-AreLexemes :
      (es : Exprs) (ys : List Lexeme) → AreSource es → AreLexemes ys → AreLexemes (emit_stmts es ys)
  stmts-AreLexemes Exprs.none ys n h = h
  stmts-AreLexemes (more e es) ys n h =
      emit-AreLexemes 0 e (mark b';' ∷ emit_stmts es ys) n.0
        (semi-IsLexeme, stmts-AreLexemes es ys n.1 h)
