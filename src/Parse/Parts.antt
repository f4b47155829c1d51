-- ===== src/Parse/Parts.antt =====
-- Lemmas for the parser's postconditions: trees that are put together, and the loop over parameters.
use lilc.Ast.{
  Node, null, block_node, Nodes, nil, cons, size, is_null, lilc_node_vec_push, take_nodes,
}
use lilc.Common.{
  ℕ, zero, suc, ◌+◌, ◌≤◌, ◌≡◌, refl, ap, ◌⊎◌, inl, inr, Bool, true, false, not, ◌&&◌, Option, none,
  some, List, [], ◌∷◌, ◌++◌, length, length-append, arith, Bytes, leb,
}
use lilc.Double.{Double}
use lilc.Lex.Typed.{Typed}
use lilc.Lex.{lex_is}
use lilc.Parse.Calls.{scan-Runs, consume-Runs}
use lilc.Parse.Post.{
  IsTree, IsBlock, AreTrees, HasErr, Runs, Runs-bind, Runs-pure, Runs-if, parse_err-Runs,
  read_str-Runs, check_store-Runs,
}
use lilc.Parse.{Parser, max_func_params, params_loop}
use lilc.Token.{tok_id, tok_rparen, tok_eq→eq}

-- Both parts are complete, or an error `F` was recorded by the later of them.
pub both : {E F A B : Type 0} → E ⊎ A → (E → F) → F ⊎ B → F ⊎ (A × B)
both (inl e) k y = inl (k e)
both (inr a) k (inl e) = inl e
both (inr a) k (inr b) = inr (a, b)

pub later : {E F A B : Type 0} → E ⊎ A → (E → F) → (A → B) → F ⊎ B
later (inl e) k f = inl (k e)
later (inr a) k f = inr (f a)

pub not-false : (b : Bool) → not b ≡ false → b ≡ true
not-false b h = ground arith

module _ {D : Type 0} where
  pub take_nodes-size : (xs : Nodes D) → take_nodes (size xs) xs ≡ xs
  unfolding take_nodes
  take_nodes-size nil = refl
  take_nodes-size (cons n ns) = ap (cons n) (take_nodes-size ns)

  pub size-push : (xs : Nodes D) (n : Node D) → size (lilc_node_vec_push xs n) ≡ suc (size xs)
  unfolding lilc_node_vec_push
  size-push nil n = refl
  size-push (cons x xs) n = ap suc (size-push xs n)

  pub AreTrees-push :
      (xs : Nodes D) (n : Node D) → AreTrees xs → IsTree n → AreTrees (lilc_node_vec_push xs n)
  unfolding lilc_node_vec_push IsTree
  AreTrees-push nil n h k = (k, tt)
  AreTrees-push (cons x xs) n h k = (h.0, AreTrees-push xs n h.1 k)

  Block-Tree : (n : Node D) → IsBlock n → IsTree n
  unfolding IsTree
  Block-Tree (block_node stmts) h = h
  Block-Tree null h = absurd h
  Block-Tree _ h = absurd h

  pub not-null : (n : Node D) {E : Type 0} → is_null n ≡ true → E ⊎ IsTree n → E
  unfolding IsTree
  not-null null e (inl h) = h
  not-null null e (inr h) = absurd h
  not-null _ e h = cc

  abbrev pub ParamsOrErr : Option (List Bytes) → Parser D → Type 0
  ParamsOrErr none p = HasErr p
  ParamsOrErr (some ps) p = length ps ≤ max_func_params

  abbrev pub ArgsOrErr : Option (Nodes D) → Parser D → Type 0
  ArgsOrErr none p = HasErr p
  ArgsOrErr (some xs) p = (size xs ≤ max_func_params) × (HasErr p ⊎ AreTrees xs)

module _ {D : Type 0} ⦃dbl : Double D⦄ where
  pub params_loop-Runs :
      (f : ℕ) (ps : List Bytes) (p : Parser D)
      → Typed p.lex.tok
      → length ps ≤ max_func_params
      → 18 ≤ length ps + f
      → Runs ParamsOrErr 0 p (params_loop f ps p)
  unfolding params_loop lex_is
  params_loop-Runs zero ps p t n fuel = absurd (omega arith)
  params_loop-Runs (suc f) ps p t n fuel =
      Runs-if (not (lex_is p.lex tok_rparen) && leb (length ps) max_func_params) _ _ p
        (λ more.
          Runs-if (not (lex_is p.lex tok_id)) _ _ p
            (λ no_id.
              Runs-bind 0 0 0 (omega arith) (parse_err-Runs {Q = λ _ q. HasErr q} _ p t (λ q e. e))
                λ (_, q) a. Runs-pure none q a.typed a.result)
            (λ is_id.
              Runs-bind 0 0 0 (omega arith)
                (read_str-Runs p.lex.tok.val p t
                  (t.0 (tok_eq→eq _ _ (not-false (lex_is p.lex tok_id) is_id))))
                λ (name, q1) a1.
                  Runs-bind 0 0 0 (omega arith) (check_store-Runs (length ps) q1 a1.typed)
                    λ (_, q2) a2. Runs-bind 0 1 0 (omega arith) (scan-Runs q2) λ (_, q3) a3.
                      Runs-bind 0 0 0 (omega arith) (consume-Runs _ q3 a3.typed) λ (_, q4) a4.
                        let longer = length-append ps (name ∷ []) in
                        params_loop-Runs f (ps ++ name ∷ []) q4 a4.typed
                          (omega (arith, longer, a2.result)) (omega (arith, longer))))
        (λ stop. Runs-pure (some ps) p t n)
