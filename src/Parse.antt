-- ===== src/Parse.antt =====
-- src/parse.c and src/parse.h: the Pratt parser, over the lexer that it reads through `p->lex`.
-- A call that does not return a structural part of its input costs a unit of fuel.
mod Table
pub use Table.{Prefix, of_dbl, of_id, of_if, of_funcdef, Infix, of_bin_op, Vtable}
unfoldable pub use Table.{vtables}
pub mod Source
pub mod Ahead
pub mod Pratt
mod Emitted
pub mod Legible
mod Cases
mod Sequences
mod Branches
mod Compound
pub mod RoundTrip
pub mod Errors
pub mod Operands
pub mod Overflow
pub mod Parameters
pub mod Post
mod Calls
mod Parts
pub mod Total
pub mod Printing
use lilc.Ast.{
  Node, null, dbl_node, block_node, var_node, op_bin_node, proto_node, funcdef_node, funccall_node,
  if_node, Nodes, nil, is_null, size, lilc_node_vec_new, lilc_node_vec_push, lilc_dbl_node_new,
  lilc_block_node_new, lilc_var_node_new, lilc_bin_op_node_new, lilc_proto_node_new,
  lilc_funcdef_node_new, lilc_funccall_node_new, lilc_if_node_new,
}
use lilc.Common.{
  ℕ, zero, suc, ◌+◌, ◌*◌, Bool, true, false, not, ◌&&◌, Option, none, some, List, [], ◌∷◌, ◌++◌,
  ltb, leb, ◌==◌, if◌then◌else◌, length, Bytes, codes,
}
use lilc.Double.{Double}
use lilc.Lex.{Lexer, lex_scan, lex_is, lex_consume, lex_consumef}
use lilc.Outcome.{Outcome, ok, died, fault, out_of_fuel, Fault, bind, M, pure, ◌>>=◌, ◌>>◌}
use lilc.Token.{
  TokType, tok_err, tok_eos, tok_id, tok_def, tok_semi, tok_comma, tok_lparen, tok_rparen,
  tok_lcurl, tok_rcurl, tok_dbl, tok_add, tok_sub, tok_mul, tok_div, tok_cmplt, tok_if, tok_else,
  Token, Val, as_dbl, as_str, unset,
}

-- `err` is `none` until something has set it: `parser_init` does not.
pub record Parser (D : Type 0) : Type 0 where
  pub lex : Lexer D
  pub err : Option Bytes

-- the two cases of a pointer, NULL or not
abbrev pub cases {ℓ κ} : {A : Type ℓ} {B : Type κ} → Option A → B → (A → B) → B
cases none x f = x
cases (some a) x f = f a

abbrev pub max_func_params : ℕ
max_func_params = 16

module _ {D : Type 0} where
  -- The struct is the caller's, and its `err` is left as it was.
  unfoldable pub parser_init : Parser D → Lexer D → Parser D
  parser_init p l = record p { lex = l }

  -- `err` returns NULL
  unfoldable pub parse_err : Bytes → M (Parser D) (Node D)
  parse_err msg p = ok (null, record p { err = some msg })

  -- A call on `p->lex`.
  unfoldable pub on_lex : {A : Type 0} → M (Lexer D) A → M (Parser D) A
  on_lex m p = bind (m p.lex) λ (a, l). ok (a, record p { lex = l })

  abbrev pub cur_tok : M (Parser D) (Token D)
  cur_tok p = ok (p.lex.tok, p)

  abbrev pub cur_is : TokType → M (Parser D) Bool
  cur_is t p = ok (lex_is p.lex t, p)

  abbrev row_of : Option Vtable → M (Parser D) Vtable
  row_of none p = fault Fault.bad_table_index
  row_of (some v) p = ok (v, p)

  -- `vtables[t]`
  unfoldable pub lookup : TokType → M (Parser D) Vtable
  lookup t = row_of (vtables t)

  -- `val.as_str` and `val.as_dbl`
  unfoldable pub read_str : Val D → M (Parser D) Bytes
  read_str (as_str s) p = ok (s, p)
  read_str _ p = fault Fault.wrong_member

  unfoldable pub read_dbl : Val D → M (Parser D) D
  read_dbl (as_dbl x) p = ok (x, p)
  read_dbl _ p = fault Fault.wrong_member

  -- `((struct lilc_var_node_t *)left)->name`. A call node holds its name at the same place.
  unfoldable pub read_name : Node D → M (Parser D) Bytes
  read_name (var_node name) p = ok (name, p)
  read_name (funccall_node name _) p = ok (name, p)
  read_name null p = fault Fault.null_deref
  read_name _ p = fault Fault.wrong_node

  -- a store behind the last element of an array of `max_func_params`, of which `n` are used
  unfoldable pub check_store : ℕ → M (Parser D) (Unit {0})
  check_store n p = if ltb n max_func_params then ok (tt, p) else fault Fault.buffer_overflow

module _ {D : Type 0} ⦃dbl : Double D⦄ where
  abbrev pub scan : M (Parser D) TokType
  scan = on_lex lex_scan

  abbrev pub consume : TokType → M (Parser D) Bool
  consume t = on_lex (lex_consume t)

  abbrev pub consumef : TokType → M (Parser D) Bool
  consumef t = on_lex (lex_consumef t)

  -- The loop of `funcdef_prefix` over the parameter list; `none` is its early return of NULL.
  -- The array overflows at the 17th parameter, so 18 rounds are enough.
  unfoldable pub params_loop : ℕ → List Bytes → M (Parser D) (Option (List Bytes))
  params_loop zero params = λ p. out_of_fuel
  params_loop (suc f) params = do
    at_end ← cur_is tok_rparen
    let another = do
      is_id ← cur_is tok_id
      if not is_id
          then (parse_err (codes "funcdef params: Expected identifier\n") >> pure none)
          else do
            t ← cur_tok
            name ← read_str t.val
            check_store (length params)
            scan
            consume tok_comma
            params_loop f (params ++ name ∷ [])
    if not at_end && leb (length params) max_func_params then another else pure (some params)

  abbrev vec : Nodes D → Node D → Nodes D
  vec ns n = lilc_node_vec_push ns n

  unfoldable pub dbl_prefix : Token D → M (Parser D) (Node D)
  dbl_prefix t = do val ← read_dbl t.val; pure (lilc_dbl_node_new val)

  unfoldable pub id_prefix : Token D → M (Parser D) (Node D)
  id_prefix t = do name ← read_str t.val; pure (lilc_var_node_new name)

  -- The calls of the `as_prefix` and `as_infix` functions of a row are `prefix` and `infix_call`.
  unfoldable mutual
    pub expression : ℕ → ℕ → M (Parser D) (Node D)
    expression zero rbp = λ p. out_of_fuel
    expression (suc f) rbp = do
      t ← cur_tok
      scan
      row ← lookup t.cls
      cases row.as_prefix (parse_err (codes "expression: No prefix function found\n"))
          λ k. do left ← prefix f k t; infix_loop f rbp left

    -- the `while` loop of `expression`
    pub infix_loop : ℕ → ℕ → Node D → M (Parser D) (Node D)
    infix_loop zero rbp left = λ p. out_of_fuel
    infix_loop (suc f) rbp left = do
      t ← cur_tok
      row ← lookup t.cls
      let continue = do
        scan
        cases row.as_infix (parse_err (codes "expression: No infix function found\n"))
            λ k. do next ← infix_call f k t left; infix_loop f rbp next
      if ltb rbp row.lbp then continue else pure left

    pub prefix : ℕ → Prefix → Token D → M (Parser D) (Node D)
    prefix zero k t = λ p. out_of_fuel
    prefix (suc f) of_dbl t = dbl_prefix t
    prefix (suc f) of_id t = id_prefix t
    prefix (suc f) of_if t = if_prefix f
    prefix (suc f) Prefix.of_lparen t = lparen_prefix f
    prefix (suc f) of_funcdef t = funcdef_prefix f

    pub if_prefix : ℕ → M (Parser D) (Node D)
    if_prefix zero = λ p. out_of_fuel
    if_prefix (suc f) = do
      consumef tok_lparen
      cond ← expression f 0
      consumef tok_rparen
      consumef tok_lcurl
      then_block ← block f
      consumef tok_rcurl
      has_else ← consume tok_else
      let node = lilc_if_node_new cond then_block
      let with_else = do
        consumef tok_lcurl
        else_block ← block f
        second ← block f
        if is_null second
            then parse_err (codes "if: Could not parse 'else' block\n")
            else do consumef tok_rcurl; pure (if_node cond then_block else_block)
      if has_else then with_else else pure node

    pub lparen_prefix : ℕ → M (Parser D) (Node D)
    lparen_prefix zero = λ p. out_of_fuel
    lparen_prefix (suc f) = do node ← expression f 0; consumef tok_rparen; pure node

    pub funcdef_prefix : ℕ → M (Parser D) (Node D)
    funcdef_prefix zero = λ p. out_of_fuel
    funcdef_prefix (suc f) = do
      funcname ← cur_tok
      consumef tok_id
      consumef tok_lparen
      params ← params_loop 18 []
      cases params (pure null) λ ps.
          let with_body = (do
            consumef tok_rparen
            consumef tok_lcurl
            body ← block f
            consumef tok_rcurl
            name ← read_str funcname.val
            pure (lilc_funcdef_node_new (lilc_proto_node_new name ps (length ps)) body)) in
          if length ps == max_func_params
          then parse_err (codes "funcdef: Too many parameters\n")
          else with_body

    pub infix_call : ℕ → Infix → Token D → Node D → M (Parser D) (Node D)
    infix_call zero k t left = λ p. out_of_fuel
    infix_call (suc f) of_bin_op t left = bin_op_infix f t left
    infix_call (suc f) Infix.of_lparen t left = lparen_infix f left

    pub bin_op_infix : ℕ → Token D → Node D → M (Parser D) (Node D)
    bin_op_infix zero t left = λ p. out_of_fuel
    bin_op_infix (suc f) t left = do
      row ← lookup t.cls
      right ← expression f row.lbp
      if is_null right
          then parse_err (codes "Could not parse right operand of binary expr\n")
          else pure (lilc_bin_op_node_new left right t.cls)

    pub lparen_infix : ℕ → Node D → M (Parser D) (Node D)
    lparen_infix zero left = λ p. out_of_fuel
    lparen_infix (suc f) left = do
      args ← args_loop f nil
      cases args (pure null) λ xs. do
        consumef tok_rparen
        name ← read_name left
        pure (lilc_funccall_node_new name xs (size xs))

    -- The loop of `lparen_infix` over the arguments; `none` is its early return of NULL.
    pub args_loop : ℕ → Nodes D → M (Parser D) (Option (Nodes D))
    args_loop zero args = λ p. out_of_fuel
    args_loop (suc f) args = do
      at_end ← cur_is tok_rparen
      let another = do
        arg ← expression f 0
        let keep = do check_store (size args); consume tok_comma; args_loop f (vec args arg)
        if is_null arg
            then (parse_err (codes "Could not parse call argument\n") >> pure none)
            else keep
      if not at_end && leb (size args) max_func_params then another else pure (some args)

    pub expr_stmt : ℕ → M (Parser D) (Node D)
    expr_stmt zero = λ p. out_of_fuel
    expr_stmt (suc f) = do node ← expression f 0; consumef tok_semi; pure node

    pub block : ℕ → M (Parser D) (Node D)
    block zero = λ p. out_of_fuel
    block (suc f) = block_loop f lilc_node_vec_new

    -- the `while` loop of `block`, and the node made behind it
    pub block_loop : ℕ → Nodes D → M (Parser D) (Node D)
    block_loop zero stmts = λ p. out_of_fuel
    block_loop (suc f) stmts = do
      at_eos ← cur_is tok_eos
      at_rcurl ← cur_is tok_rcurl
      let another = do
        node ← expr_stmt f
        let more = block_loop f (vec stmts node)
        if is_null node then pure null else more
      if not at_eos && not at_rcurl then another else pure (lilc_block_node_new stmts)

  unfoldable pub program : ℕ → M (Parser D) (Node D)
  program fuel = do scan; block fuel

  -- The message is `p->err`, which must have been set.
  abbrev pub stop : Option Bytes → Parser D → Outcome (Node D × Parser D)
  stop none p = fault Fault.uninitialised
  stop (some msg) p = died p.lex.filename p.lex.lineno msg

  -- Six units for each byte of the source are more than the calls use.
  unfoldable pub parse : M (Parser D) (Node D)
  parse p =
      bind (program (6 * length p.lex.source + 6) p)
        λ (root, p'). if is_null root then stop p'.err p' else ok (root, p')
