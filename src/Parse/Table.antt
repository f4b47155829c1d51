-- ===== src/Parse/Table.antt =====
-- The table of binding powers and of the functions for each token class, of src/parse.c.
use lilc.Common.{ℕ, Option, none, some}
use lilc.Token.{
  TokType, tok_id, tok_def, tok_lparen, tok_dbl, tok_add, tok_sub, tok_mul, tok_div, tok_cmplt,
  tok_if, tok_else,
}

pub data Prefix : Type 0 where
  of_dbl of_id of_if of_lparen of_funcdef : Prefix

pub data Infix : Type 0 where
  of_bin_op of_lparen : Infix

-- The function pointers of a table row, and `none` for NULL.
pub record Vtable : Type 0 where
  pub lbp : ℕ
  pub as_prefix : Option Prefix
  pub as_infix : Option Infix

-- An entry that an array initialiser leaves out.
abbrev empty_row : Vtable
empty_row = record { lbp = 0; as_prefix = none; as_infix = none }

abbrev prefix_row : Prefix → Vtable
prefix_row k = record { lbp = 0; as_prefix = some k; as_infix = none }

abbrev bin_op_row : ℕ → Vtable
bin_op_row n = record { lbp = n; as_prefix = none; as_infix = some of_bin_op }

-- The array ends with the row of its largest designator, `LILC_TOK_IF`, so it has no row for
-- `LILC_TOK_ELSE`; the classes not named have a row of zeros.
unfoldable pub vtables : TokType → Option Vtable
vtables tok_dbl = some (prefix_row of_dbl)
vtables tok_def = some (prefix_row of_funcdef)
vtables tok_id = some (prefix_row of_id)
vtables tok_if = some (prefix_row of_if)
vtables tok_cmplt = some (bin_op_row 1)
vtables tok_add = some (bin_op_row 2)
vtables tok_sub = some (bin_op_row 2)
vtables tok_mul = some (bin_op_row 3)
vtables tok_div = some (bin_op_row 3)
vtables tok_lparen =
    some (record { lbp = 10; as_prefix = some Prefix.of_lparen; as_infix = some Infix.of_lparen })
vtables tok_else = none
vtables _ = some empty_row
