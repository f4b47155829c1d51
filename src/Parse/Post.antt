-- ===== src/Parse/Post.antt =====
-- Postconditions of the parser's functions, and those of its calls of the lexer.
use lilc.Ast.{
  Node, null, dbl_node, block_node, var_node, op_bin_node, funcdef_node, funccall_node, if_node,
  Nodes, nil, cons, size,
}
use lilc.Common.{
  ℕ, ◌+◌, ◌≤◌, ◌<◌, ◌≡◌, refl, ◌≢◌, ◌⊎◌, Bool, true, false, Option, none, some, length, arith,
  Bytes, if◌then◌else◌, ltb,
}
use lilc.Lex.Spec.{rest}
use lilc.Lex.Typed.{HasStr, HasDbl, Typed}
use lilc.Outcome.{
  Outcome, ok, Fault, bind, M, Ensures, holds, faults, Ensures-bind, Ensures-map, Ensures-if,
}
use lilc.Parse.{
  Parser, Prefix, of_dbl, of_id, of_bin_op, Vtable, vtables, lookup, row_of, read_str, read_dbl,
  read_name, check_store, cases, parse_err, max_func_params,
}
use lilc.Token.{
  TokType, tok_err, tok_add, tok_sub, tok_mul, tok_div, tok_cmplt, Token, Val, as_dbl, as_str,
  unset,
}

-- The parser never reads a union member that was not written, nor an error message that was not set.
abbrev pub Allowed : Fault → Type 0
Allowed Fault.wrong_member = ⊥
Allowed Fault.uninitialised = ⊥
Allowed _ = Unit

abbrev pub IsBinOp : TokType → Type 0
IsBinOp tok_add = Unit
IsBinOp tok_sub = Unit
IsBinOp tok_mul = Unit
IsBinOp tok_div = Unit
IsBinOp tok_cmplt = Unit
IsBinOp _ = ⊥

module _ {D : Type 0} where
  -- A complete tree: no NULL but for an absent `else` block, operators at binary nodes, blocks as
  -- bodies, at most 16 arguments and fewer than 16 parameters.
  unfoldable mutual
    pub IsTree : Node D → Type 0
    IsTree (dbl_node val) = Unit
    IsTree (block_node stmts) = AreTrees stmts
    IsTree (var_node name) = Unit
    IsTree (op_bin_node left right op) = IsTree left × IsTree right × IsBinOp op
    IsTree (funcdef_node proto body) = (length proto.params < max_func_params) × IsBlock body
    IsTree (funccall_node name args) = (size args ≤ max_func_params) × AreTrees args
    IsTree (if_node cond then_block else_block) =
        IsTree cond × IsBlock then_block × ((else_block ≡ null) ⊎ IsBlock else_block)
    IsTree _ = ⊥

    pub IsBlock : Node D → Type 0
    IsBlock (block_node stmts) = AreTrees stmts
    IsBlock _ = ⊥

    pub AreTrees : Nodes D → Type 0
    AreTrees nil = Unit
    AreTrees (cons n ns) = IsTree n × AreTrees ns

  -- The number of bytes that are not read yet.
  abbrev pub left : Parser D → ℕ
  left p = length (rest p.lex)

  abbrev pub HasErr : Parser D → Type 0
  HasErr p = p.err ≢ none

  abbrev pub Done : {A : Type 0} → A → Parser D → Type 0
  Done a p = Unit

  -- A tree without a hole, or a message that says why there is one.
  abbrev pub TreeOrErr : Node D → Parser D → Type 0
  TreeOrErr n p = HasErr p ⊎ IsTree n

  abbrev pub BlockOrErr : Node D → Parser D → Type 0
  BlockOrErr n p = HasErr p ⊎ IsBlock n

  -- After a call made at `p` that consumed at least `k` bytes.
  pub record After {A : Type 0} (Q : A → Parser D → Type 0) (k : ℕ) (p : Parser D)
      (r : A × Parser D) : Type 0 where
    pub shrinks : left r.1 + k ≤ left p
    pub typed : Typed r.1.lex.tok
    pub err_kept : HasErr p → HasErr r.1
    pub result : Q r.0 r.1

  abbrev pub Runs :
      {A : Type 0} → (A → Parser D → Type 0) → ℕ → Parser D → Outcome (A × Parser D) → Type 0
  Runs Q k p r = Ensures Allowed (After Q k p) r

  pub After-trans :
      {A B : Type 0} {Q : A → Parser D → Type 0} {R : B → Parser D → Type 0} (i j k : ℕ)
      {p : Parser D} {r : A × Parser D} {s : B × Parser D}
      → i ≤ j + k
      → After Q j p r
      → After R k r.1 s
      → After R i p s
  After-trans i j k h x y = record {
    shrinks = omega (arith, x.shrinks, y.shrinks);
    typed = y.typed;
    err_kept = λ e. y.err_kept (x.err_kept e);
    result = y.result;
  }

  pub Runs-bind :
      {A B : Type 0} {Q : A → Parser D → Type 0} {R : B → Parser D → Type 0} (i j k : ℕ)
      {p : Parser D} {r : Outcome (A × Parser D)} {f : A × Parser D → Outcome (B × Parser D)}
      → i ≤ j + k
      → Runs Q j p r
      → ((s : A × Parser D) → After Q j p s → Runs R k s.1 (f s))
      → Runs R i p (bind r f)
  Runs-bind i j k h m g =
      Ensures-bind m (λ e x. x) λ s x. Ensures-map (g s x) (λ e y. y) λ t y. After-trans i j k h x y

  -- A result that leaves the parser as it is.
  pub Runs-pure :
      {A : Type 0} {Q : A → Parser D → Type 0} (a : A) (p : Parser D)
      → Typed p.lex.tok
      → Q a p
      → Runs Q 0 p (ok (a, p))
  Runs-pure a p t q =
      holds (record { shrinks = omega arith; typed = t; err_kept = λ e. e; result = q })

  pub Runs-if :
      {A : Type 0} {Q : A → Parser D → Type 0} {k : ℕ} {q : Parser D} (b : Bool)
      (m n : M (Parser D) A) (p : Parser D)
      → (b ≡ true → Runs Q k q (m p))
      → (b ≡ false → Runs Q k q (n p))
      → Runs Q k q ((if b then m else n) p)
  Runs-if true m n p hm hn = hm refl
  Runs-if false m n p hm hn = hn refl

  pub Runs-cases :
      {A B : Type 0} {Q : A → Parser D → Type 0} {k : ℕ} {q : Parser D} (o : Option B)
      (m : M (Parser D) A) (f : B → M (Parser D) A) (p : Parser D)
      → (o ≡ none → Runs Q k q (m p))
      → ((b : B) → o ≡ some b → Runs Q k q (f b p))
      → Runs Q k q (cases o m f p)
  Runs-cases none m f p hm hf = hm refl
  Runs-cases (some b) m f p hm hf = hf b refl

  pub Runs-either :
      {A B : Type 0} {Q : A → Parser D → Type 0} {k : ℕ} {q : Parser D} (P : Option B → Type 0)
      (o : Option B) (m : M (Parser D) A) (f : B → M (Parser D) A) (p : Parser D)
      → P o
      → (P none → Runs Q k q (m p))
      → ((b : B) → P (some b) → Runs Q k q (f b p))
      → Runs Q k q (cases o m f p)
  Runs-either P none m f p h hm hf = hm h
  Runs-either P (some b) m f p h hm hf = hf b h

  pub parse_err-Runs :
      {Q : Node D → Parser D → Type 0} (msg : Bytes) (p : Parser D)
      → Typed p.lex.tok
      → ((q : Parser D) → HasErr q → Q null q)
      → Runs Q 0 p (parse_err msg p)
  unfolding parse_err
  parse_err-Runs msg p t q =
      holds
        (record { shrinks = omega arith; typed = t; err_kept = λ _ e. cc; result = q _ (λ e. cc) })

  pub lookup-Runs :
      (t : TokType) (p : Parser D)
      → Typed p.lex.tok
      → Runs (λ v _. vtables t ≡ some v) 0 p (lookup t p)
  unfolding lookup
  lookup-Runs t p h = go (vtables t) refl
    where
      go : (o : Option Vtable) → vtables t ≡ o → Runs (λ v _. vtables t ≡ some v) 0 p (row_of o p)
      go none e = faults tt
      go (some v) e = Runs-pure v p h e

  pub read_str-Runs :
      (v : Val D) (p : Parser D) → Typed p.lex.tok → HasStr v → Runs Done 0 p (read_str v p)
  unfolding read_str
  read_str-Runs (as_str s) p t h = Runs-pure s p t tt
  read_str-Runs (as_dbl x) p t h = absurd h
  read_str-Runs unset p t h = absurd h

  pub read_dbl-Runs :
      (v : Val D) (p : Parser D) → Typed p.lex.tok → HasDbl v → Runs Done 0 p (read_dbl v p)
  unfolding read_dbl
  read_dbl-Runs (as_dbl s) p t h = Runs-pure s p t tt
  read_dbl-Runs (as_str x) p t h = absurd h
  read_dbl-Runs unset p t h = absurd h

  pub read_name-Runs : (n : Node D) (p : Parser D) → Typed p.lex.tok → Runs Done 0 p (read_name n p)
  unfolding read_name
  read_name-Runs (var_node name) p t = Runs-pure name p t tt
  read_name-Runs (funccall_node name args) p t = Runs-pure name p t tt
  read_name-Runs _ p t = faults tt

  pub check_store-Runs :
      (n : ℕ) (p : Parser D)
      → Typed p.lex.tok
      → Runs (λ _ _. n < max_func_params) 0 p (check_store n p)
  unfolding check_store
  check_store-Runs n p t =
      Ensures-if (ltb n max_func_params) (λ h. Runs-pure tt p t (ground arith)) (λ h. faults tt)

-- The token that a row's prefix function gets has the union member that the function reads.
abbrev pub PrefixTok : {D : Type 0} → Prefix → Token D → Type 0
PrefixTok of_dbl tok = HasDbl tok.val
PrefixTok of_id tok = HasStr tok.val
PrefixTok _ tok = Unit

pub PrefixTok-row :
    {D : Type 0} (c : TokType) (v : Val D) (k : Prefix) {row : Vtable}
    → Typed (record { cls = c; val = v })
    → vtables c ≡ some row
    → row.as_prefix ≡ some k
    → PrefixTok k (record { cls = c; val = v })
unfolding vtables
PrefixTok-row tok_err v k t e h = ground arith
PrefixTok-row _ v k t e h = ground arith

pub IsBinOp-row :
    (c : TokType) {row : Vtable} → vtables c ≡ some row → row.as_infix ≡ some of_bin_op → IsBinOp c
unfolding vtables
IsBinOp-row tok_err e h = ground arith
IsBinOp-row _ e h = ground arith
