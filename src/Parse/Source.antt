-- ===== src/Parse/Source.antt =====
-- Programs as they are written: the language of README.md, the lexemes of a program with the
-- parentheses that the binding powers demand and those that it has of its own, and the tree that it
-- stands for.
use lilc.Ast.{
  Node, dbl_node, block_node, var_node, op_bin_node, funcdef_node, funccall_node, if_node, null,
  Nodes, nil, cons,
}
use lilc.Common.{
  ℕ, suc, ◌≤◌, ◌≡◌, Bool, true, false, List, [], ◌∷◌, map, length, Bytes, codes, leb, All,
}
use lilc.Double.{Double}
use lilc.Lex.Lexeme.{Lexeme, word_of, number_of, mark, IsLexeme}
use lilc.Lex.Spec.{numeral, word_class}
use lilc.Parse.{max_func_params}
use lilc.Token.{TokType, tok_id, tok_add, tok_sub, tok_mul, tok_div, tok_cmplt}

-- A name or a number by its first character and the others.
pub record Word : Type 0 where
  pub first : ℕ
  pub others : Bytes

abbrev pub spelled : Word → Bytes
spelled w = w.first ∷ w.others

pub data Op : Type 0 where
  less plus minus times over : Op

-- `Exprs` is a list of arguments, or the statements of a block.
mutual
  pub data Expr : Type 0 where
    num : Word → Expr
    var : Word → Expr
    bin : Op → Expr → Expr → Expr
    parens : Expr → Expr
    call : Word → Exprs → Expr
    if_only : Expr → Exprs → Expr
    if_else : Expr → Exprs → Exprs → Expr
    def : Word → List Word → Exprs → Expr

  pub data Exprs : Type 0 where
    none : Exprs
    more : Expr → Exprs → Exprs

abbrev pub op_class : Op → TokType
op_class less = tok_cmplt
op_class plus = tok_add
op_class minus = tok_sub
op_class times = tok_mul
op_class over = tok_div

abbrev pub op_mark : Op → ℕ
op_mark less = b'<'
op_mark plus = b'+'
op_mark minus = b'-'
op_mark times = b'*'
op_mark over = b'/'

-- A greater level binds tighter; `below` is the level before an operator's own.
abbrev pub level : Op → ℕ
level less = 1
level plus = 2
level minus = 2
level times = 3
level over = 3

abbrev pub below : Op → ℕ
below less = 0
below plus = 1
below minus = 1
below times = 2
below over = 2

abbrev pub word : Word → Lexeme
word w = word_of w.first w.others

abbrev pub keyword_if : Lexeme
keyword_if = word_of b'i' (codes "f")

abbrev pub keyword_else : Lexeme
keyword_else = word_of b'e' (codes "lse")

abbrev pub keyword_def : Lexeme
keyword_def = word_of b'd' (codes "ef")

-- What comes before `ys`, in parentheses if the operator does not bind tighter than `b`.
abbrev pub wrap : Bool → (List Lexeme → List Lexeme) → List Lexeme → List Lexeme
wrap true f ys = mark b'(' ∷ f (mark b')' ∷ ys)
wrap false f ys = f ys

-- the comma before the next one
abbrev pub comma : Exprs → List Lexeme → List Lexeme
comma none ys = ys
comma (more a rest) ys = mark b',' ∷ ys

abbrev pub param_comma : List Word → List Lexeme → List Lexeme
param_comma [] ys = ys
param_comma (w ∷ ws) ys = mark b',' ∷ ys

abbrev pub emit_params : List Word → List Lexeme → List Lexeme
emit_params [] ys = ys
emit_params (w ∷ ws) ys = word w ∷ param_comma ws (emit_params ws ys)

-- The lexemes in front of `ys`. The operators of an expression at `b` that stand outside
-- parentheses bind tighter than `b`.
unfoldable mutual
  pub emit : ℕ → Expr → List Lexeme → List Lexeme
  emit b (num w) ys = number_of w.first w.others ∷ ys
  emit b (var w) ys = word w ∷ ys
  emit b (bin op l r) ys =
      wrap (leb (level op) b) (λ zs. emit (below op) l (mark (op_mark op) ∷ emit (level op) r zs))
        ys
  emit b (parens e) ys = mark b'(' ∷ emit 0 e (mark b')' ∷ ys)
  emit b (call w args) ys = word w ∷ mark b'(' ∷ emit_args args (mark b')' ∷ ys)
  emit b (if_only c th) ys =
      keyword_if ∷ mark b'(' ∷ emit 0 c (mark b')' ∷ mark b'{' ∷ emit_stmts th (mark b'}' ∷ ys))
  emit b (if_else c th el) ys =
      keyword_if
      ∷ mark b'('
      ∷ emit 0 c (
          mark b')'
          ∷ mark b'{'
          ∷ emit_stmts th (mark b'}' ∷ keyword_else ∷ mark b'{' ∷ emit_stmts el (mark b'}' ∷ ys)))
  emit b (def w params body) ys =
      keyword_def
      ∷ word w
      ∷ mark b'('
      ∷ emit_params params (mark b')' ∷ mark b'{' ∷ emit_stmts body (mark b'}' ∷ ys))

  pub emit_args : Exprs → List Lexeme → List Lexeme
  emit_args none ys = ys
  emit_args (more a rest) ys = emit 0 a (comma rest (emit_args rest ys))

  pub emit_stmts : Exprs → List Lexeme → List Lexeme
  emit_stmts none ys = ys
  emit_stmts (more e es) ys = emit 0 e (mark b';' ∷ emit_stmts es ys)

module _ {D : Type 0} ⦃dbl : Double D⦄ where
  unfoldable mutual
    pub node_of : Expr → Node D
    node_of (num w) = dbl_node (numeral (dbl.of_int 0) (spelled w))
    node_of (var w) = var_node (spelled w)
    node_of (bin op l r) = op_bin_node (node_of l) (node_of r) (op_class op)
    node_of (parens e) = node_of e
    node_of (call w args) = funccall_node (spelled w) (nodes_of args)
    node_of (if_only c th) = if_node (node_of c) (block_node (nodes_of th)) null
    node_of (if_else c th el) =
        if_node (node_of c) (block_node (nodes_of th)) (block_node (nodes_of el))
    node_of (def w params body) =
        funcdef_node (record { name = spelled w; params = map spelled params })
          (block_node (nodes_of body))

    pub nodes_of : Exprs → Nodes D
    nodes_of none = nil
    nodes_of (more e es) = cons (node_of e) (nodes_of es)

-- At most 63 characters, and no keyword.
abbrev pub IsName : Word → Type 0
IsName w = IsLexeme (word w) × (word_class (spelled w) ≡ tok_id)

abbrev pub count : Exprs → ℕ
count none = 0
count (more e es) = suc (count es)

-- Names and numbers are spelled right, and calls and definitions are within the parser's bounds.
unfoldable mutual
  pub IsSource : Expr → Type 0
  IsSource (num w) = IsLexeme (number_of w.first w.others)
  IsSource (var w) = IsName w
  IsSource (bin op l r) = IsSource l × IsSource r
  IsSource (parens e) = IsSource e
  IsSource (call w args) = IsName w × (count args ≤ max_func_params) × AreSource args
  IsSource (if_only c th) = IsSource c × AreSource th
  IsSource (if_else c th el) = IsSource c × AreSource th × AreSource el
  IsSource (def w params body) =
      IsName w × All IsName params × (suc (length params) ≤ max_func_params) × AreSource body

  pub AreSource : Exprs → Type 0
  AreSource none = Unit
  AreSource (more e es) = IsSource e × AreSource es
