-- ===== src/Ast/Layout.antt =====
-- The layout that `ast_readf` writes, as a function of the tree alone.
use lilc.Ast.{
  Proto, Node, null, dbl_node, block_node, var_node, op_bin_node, proto_node, funcdef_node,
  funccall_node, if_node, Nodes, nil, cons, is_null, spaces, put_params, put_param_list, put_proto,
  ast_readf, readf_children,
}
use lilc.Buffer.{Out, emit, full, emit-full, emit-take}
use lilc.Common.{
  ℕ, suc, ◌+◌, ◌-◌, ◌≤◌, ◌≡◌, refl, ap, ◌∙◌, ◌⊎◌, inl, inr, true, false, Bytes, List, [], ◌∷◌, ◌++◌,
  take, length, codes, arith, append_assoc, append-nil, length-append, take-length_append,
  length-take, if◌then◌else◌, ltb,
}
use lilc.Double.{Double}
use lilc.Outcome.{ok}
use lilc.Token.{lilc_token_str}

-- Parameters with commas between them.
unfoldable pub commas : List Bytes → Bytes
commas [] = []
commas (x ∷ []) = x
commas (x ∷ (y ∷ ys)) = x ++ b',' ∷ commas (y ∷ ys)

unfoldable pub layout_proto : Proto → Bytes
unfolding commas
layout_proto proto = proto.name ++ (b'[' ∷ (commas proto.params ++ b']' ∷ []))

module _ {D : Type 0} where
  -- No NULL child but an absent `else` block.
  unfoldable mutual
    pub IsPrintable : Node D → Type 0
    IsPrintable null = ⊥
    IsPrintable (dbl_node val) = Unit
    IsPrintable (block_node stmts) = ArePrintable stmts
    IsPrintable (var_node name) = Unit
    IsPrintable (op_bin_node left right op) = IsPrintable left × IsPrintable right
    IsPrintable (proto_node proto) = Unit
    IsPrintable (funcdef_node proto body) = IsPrintable body
    IsPrintable (funccall_node name args) = ArePrintable args
    IsPrintable (if_node cond then_block else_block) =
        IsPrintable cond
        × IsPrintable then_block
        × ((else_block ≡ null) ⊎ ((is_null else_block ≡ false) × IsPrintable else_block))

    pub ArePrintable : Nodes D → Type 0
    ArePrintable nil = Unit
    ArePrintable (cons n ns) = IsPrintable n × ArePrintable ns

  abbrev layout_else : Node D → Bytes → Bytes
  layout_else n text = if is_null n then [] else codes " else\n" ++ text

module _ {D : Type 0} ⦃dbl : Double D⦄ where
  -- Each node in parentheses, its children on lines of their own and two columns further in.
  unfoldable mutual
    unfolding layout_proto spaces

    pub layout : ℕ → Node D → Bytes
    layout indent null = []
    layout indent (dbl_node val) = spaces indent ++ (codes "(dbl " ++ (dbl.show val ++ codes ")"))
    layout indent (block_node stmts) =
        spaces indent ++ (codes "(block" ++ (layout_children (indent + 2) stmts ++ codes ")"))
    layout indent (var_node name) = spaces indent ++ (codes "(var " ++ (name ++ codes ")"))
    layout indent (op_bin_node left right op) =
        spaces indent
        ++ (b'('
            ∷ (lilc_token_str op
                ++ (b'\n'
                    ∷ (layout (indent + 2) left
                        ++ (b'\n' ∷ (layout (indent + 2) right ++ codes ")"))))))
    layout indent (proto_node proto) = spaces indent ++ (b'(' ∷ (layout_proto proto ++ codes ")"))
    layout indent (funcdef_node proto body) =
        spaces indent
        ++ (codes "(funcdef\n"
            ++ (spaces (indent + 2)
                ++ (b'('
                    ∷ (layout_proto proto
                        ++ (codes ")\n" ++ (layout (indent + 2) body ++ codes ")"))))))
    layout indent (funccall_node name args) =
        spaces indent
        ++ (codes "(call " ++ (name ++ (layout_children (indent + 2) args ++ codes ")")))
    layout indent (if_node cond then_block else_block) =
        spaces indent
        ++ (codes "(if\n"
            ++ (layout (indent + 2) cond
                ++ (b'\n'
                    ∷ (layout (indent + 2) then_block
                        ++ (layout_else else_block (layout (indent + 2) else_block)
                            ++ codes ")")))))

    pub layout_children : ℕ → Nodes D → Bytes
    layout_children indent nil = []
    layout_children indent (cons n ns) = b'\n' ∷ (layout indent n ++ layout_children indent ns)

put_params-full :
    (x : Bytes) (xs : List Bytes) (b : Bytes)
    → put_params (x ∷ xs) (full b) ≡ full (b ++ (commas (x ∷ xs) ++ b',' ∷ []))
unfolding put_params commas
put_params-full x [] b = emit-full _ b
put_params-full x (y ∷ ys) b =
    ap (put_params (y ∷ ys)) (emit-full _ b) ∙ put_params-full y ys _ ∙ ap full (simp append_assoc)

-- A write behind the deleted comma covers it.
emit-covers :
    (text s b : Bytes) (c : ℕ)
    → emit text (record { buf = b ++ (s ++ c ∷ []); i = length (b ++ (s ++ c ∷ [])) - 1 })
      ≡ full (b ++ (s ++ text))
unfolding emit
emit-covers text s b c =
    let n : length (b ++ (s ++ c ∷ [])) - 1 ≡ length (b ++ s) =
      rw (length-append, length-append, length-append) (omega arith) in
    rw n (
      rw (← append_assoc b s (c ∷ []))
        (rw take-length_append (rw (← length-append) (rw append_assoc))))

positive : (n : ℕ) → ltb 0 (suc n) ≡ true
positive n = ground arith

param_list-full :
    (ps : List Bytes) (b : Bytes)
    → emit (codes "]") (put_param_list ps (full b)) ≡ full (b ++ (commas ps ++ codes "]"))
unfolding put_param_list commas
param_list-full [] b = emit-full _ b
param_list-full (x ∷ xs) b =
    rw (positive (length xs), put_params-full x xs b)
      (emit-covers (codes "]") (commas (x ∷ xs)) b b',')

put_proto-full :
    (proto : Proto) (b : Bytes) → put_proto proto (full b) ≡ ok (tt, full (b ++ layout_proto proto))
unfolding put_proto layout_proto
put_proto-full proto b =
    rw (emit-full proto.name b, emit-full (codes "[") (b ++ proto.name), param_list-full)
      (ap (λ x. ok (tt, full x)) (simp append_assoc))

ruleset layouts = (emit-full, put_proto-full, append_assoc)

module _ {D : Type 0} ⦃dbl : Double D⦄ where
  mutual
    unfolding ast_readf layout IsPrintable

    readf-full :
        (n : Node D) (indent : ℕ) (b : Bytes)
        → IsPrintable n
        → ast_readf indent n (full b) ≡ ok (tt, full (b ++ layout indent n))
    readf-full null indent b h = absurd h
    readf-full (dbl_node val) indent b h = simp layouts
    readf-full (block_node stmts) indent b h = simp (layouts, children-full stmts (indent + 2) _ h)
    readf-full (var_node name) indent b h = simp layouts
    readf-full (op_bin_node left right op) indent b h =
        simp (layouts, readf-full left (indent + 2) _ h.0, readf-full right (indent + 2) _ h.1)
    readf-full (proto_node proto) indent b h = simp layouts
    readf-full (funcdef_node proto body) indent b h =
        simp (layouts, readf-full body (indent + 2) _ h)
    readf-full (funccall_node name args) indent b h =
        simp (layouts, children-full args (indent + 2) _ h)
    readf-full (if_node cond then_block else_block) indent b h =
        let c = λ (b' : Bytes). readf-full cond (indent + 2) b' h.0 in
        let t = λ (b' : Bytes). readf-full then_block (indent + 2) b' h.1 in
        elim h.2 [
          | inl absent ↦ simp (layouts, c, t, absent)
          | inr (present, p) ↦ simp (layouts, c, t, present, readf-full else_block (indent + 2) _ p)
        ]

    children-full :
        (ns : Nodes D) (indent : ℕ) (b : Bytes)
        → ArePrintable ns
        → readf_children indent ns (full b) ≡ ok (tt, full (b ++ layout_children indent ns))
    children-full nil indent b h = rw append-nil
    children-full (cons n ns) indent b h =
        simp (layouts, readf-full n indent _ h.0, children-full ns indent _ h.1)

  ast_readf-take :
      (n : Node D) (indent : ℕ) (o : Out)
      → o.i ≤ length o.buf
      → ast_readf indent n o ≡ ast_readf indent n (full (take o.i o.buf))
  unfolding ast_readf
  ast_readf-take null indent o h = refl
  ast_readf-take _ indent o h = rw (emit-take (spaces indent ++ codes "(") o h)

  -- `ast_readf` writes the layout of a tree without NULL children at index `i` of the buffer, over
  -- whatever stood there, and returns the index behind it.
  pub ast_readf-layout :
      (n : Node D) (indent : ℕ) (o : Out)
      → o.i ≤ length o.buf
      → IsPrintable n
      → ast_readf indent n o
        ≡ ok (
          tt,
          record { buf = take o.i o.buf ++ layout indent n; i = o.i + length (layout indent n) },
        )
  ast_readf-layout n indent o h p =
      ast_readf-take n indent o h
      ∙ readf-full n indent (take o.i o.buf) p
      ∙ ap (λ (k : ℕ). ok (tt, record { buf = take o.i o.buf ++ layout indent n; i = k }))
          (omega (arith, length-append (take o.i o.buf) (layout indent n), length-take o.i o.buf h))
