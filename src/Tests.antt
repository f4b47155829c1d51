-- ===== src/Tests.antt =====
-- Runs of the model on the programs of test/src_examples, against the files of test/parser and
-- test/lexer. A double is a whole number here, printed with one digit.
mod Machine
mod Recorder
mod Execute
mod Driver
mod Faults
mod Files
mod Sources
mod Values
mod Witnesses
mod Codegen
use lilc.Ast.{
  Node, lilc_bin_op_node_new, lilc_block_node_new, lilc_dbl_node_new, lilc_funccall_node_new,
  lilc_funcdef_node_new, lilc_if_node_new, lilc_node_vec_new, lilc_node_vec_push,
  lilc_proto_node_new, lilc_var_node_new, take_nodes, ast_readf, put_proto, put_param_list,
  put_params, spaces,
}
use lilc.Buffer.{emit, full}
use lilc.Common.{ℕ, ◌+◌, ◌*◌, ◌≡◌, refl, none, [], ◌∷◌, ◌++◌, Bytes, codes}
use lilc.Double.{Double}
use lilc.Lex.{
  Lexer, is_alpha, is_digit, is_ident, is_blank, punct, store, lex_err, set_tok_type, putback,
  next_char, id_loop, id_token, consume_id, digit_step, number_loop, consume_number, scan_default,
  scan_loop, lex_scan_raw, lex_scan, lex_is, lex_consume, expected_message, lex_consumef,
}
use lilc.Outcome.{Outcome, ok, died, fault, Fault, bind}
use lilc.Parse.{
  Parser, on_lex, lookup, vtables, read_str, read_dbl, read_name, check_store, parse_err,
  params_loop, dbl_prefix, id_prefix, expression, program, parse,
}
use lilc.Token.{tok_err, unset, to_int, lilc_token_str}

instance abbrev pub whole : Double ℕ
whole = record {
  of_int = λ n. n;
  add = λ a b. a + b;
  mul = λ a b. a * b;
  show = λ n. (b'0' + n) ∷ codes ".0";
  horner_exact = λ a b h. refl;
}

-- What stands in the structs before `lex_init` and `parser_init`.
abbrev pub raw_lexer : Lexer ℕ
raw_lexer = record {
  source = [];
  offset = 0;
  tok = record { cls = tok_err; val = unset };
  filename = [];
  lineno = 0;
  err = none;
}

abbrev pub parser_on : Bytes → Parser ℕ
parser_on text = record {
  lex = record raw_lexer { source = text ++ 0 ∷ []; lineno = 1; filename = codes "t" };
  err = none;
}

-- Everything that a run of the parser calls.
pub parse_text : Bytes → Outcome (Node ℕ × Parser ℕ)
unfolding lilc_bin_op_node_new lilc_block_node_new lilc_dbl_node_new lilc_funccall_node_new
    lilc_funcdef_node_new lilc_if_node_new lilc_node_vec_new lilc_node_vec_push lilc_proto_node_new
    lilc_var_node_new take_nodes is_alpha is_digit is_ident is_blank punct store lex_err
    set_tok_type putback next_char id_loop id_token consume_id digit_step number_loop consume_number
    scan_default scan_loop lex_scan_raw lex_scan lex_is lex_consume expected_message lex_consumef
    on_lex lookup vtables read_str read_dbl read_name check_store parse_err params_loop dbl_prefix
    id_prefix expression program parse to_int lilc_token_str
parse_text text = parse (parser_on text)

-- `test_parser`: parse, and print the tree.
printed : Bytes → Outcome Bytes
unfolding parse_text ast_readf put_proto put_param_list put_params spaces emit
printed text =
    bind (parse_text text) λ (root, _). bind (ast_readf 0 root (full [])) λ (_, o). ok o.buf

arith_basic :
    printed (codes "\n\n\n      def main() {\n\n           1 + 2 - 3 * 4 + 5 * 6 / 7;\n  };")
    ≡ ok (
        codes
          "(block\n  (funcdef\n    (main[])\n    (block\n      (+\n        (-\n          (+\n            (dbl 1.0)\n            (dbl 2.0))\n          (*\n            (dbl 3.0)\n            (dbl 4.0)))\n        (/\n          (*\n            (dbl 5.0)\n            (dbl 6.0))\n          (dbl 7.0))))))")
unfolding printed
arith_basic = refl

arith_parens :
    printed (codes "def main () {\n    (1 + 2) * 3;\n};")
    ≡ ok (
        codes
          "(block\n  (funcdef\n    (main[])\n    (block\n      (*\n        (+\n          (dbl 1.0)\n          (dbl 2.0))\n        (dbl 3.0)))))")
unfolding printed
arith_parens = refl

func_basic :
    printed
      (codes "def foo (arg1, arg2) {\n    arg1 + arg2;\n};\ndef main () {\n    foo(1, 2);\n};")
    ≡ ok (
        codes
          "(block\n  (funcdef\n    (foo[arg1,arg2])\n    (block\n      (+\n        (var arg1)\n        (var arg2))))\n  (funcdef\n    (main[])\n    (block\n      (call foo\n        (dbl 1.0)\n        (dbl 2.0)))))")
unfolding printed
func_basic = refl

if_else :
    printed
      (codes "def main() {\n    if (2 < 1) {\n        0;\n    } else {\n        1;\n    };\n};")
    ≡ ok (
        codes
          "(block\n  (funcdef\n    (main[])\n    (block\n      (if\n        (<\n          (dbl 2.0)\n          (dbl 1.0))\n        (block\n          (dbl 0.0)) else\n        (block\n          (dbl 1.0))))))")
unfolding printed
if_else = refl

-- Source that ends in an operator makes the scanner read behind the NUL byte.
reads_past : printed (codes "1 +") ≡ fault Fault.out_of_bounds
unfolding printed
reads_past = refl

-- An error in an `else` block is lost: the block vanishes from the tree.
lost_else :
    printed (codes "if (1) { 2; } else { ;; 3; };")
    ≡ ok (codes "(block\n  (if\n    (dbl 1.0)\n    (block\n      (dbl 2.0))))")
unfolding printed
lost_else = refl

-- A call of a call is a call of the first name.
call_of_call : printed (codes "f(1)(2);") ≡ ok (codes "(block\n  (call f\n    (dbl 2.0)))")
unfolding printed
call_of_call = refl

-- `else` has no row in the table.
else_row : printed (codes "1 else") ≡ fault Fault.bad_table_index
unfolding printed
else_row = refl

missing_semi :
    printed (codes "1")
    ≡ died (codes "t") 1 (codes "consumef: Expected ';' but saw 'end-of-source'\n")
unfolding printed
missing_semi = refl

overflow_args :
    printed (codes "f(1,1,1,1,1,1,1,1,1,1,1,1,1,1,1,1,1);") ≡ fault Fault.buffer_overflow
unfolding printed
overflow_args = refl
