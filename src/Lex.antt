-- ===== src/Lex.antt =====
-- src/lex.c and src/lex.h: the lexer, over a source buffer that is read by offset.
-- `char` is read as an unsigned byte; a byte from 128 on is in no class of the C locale.
pub mod Spec
mod Loops
pub mod Scan
pub mod Complete
pub mod Safety
pub mod Ends
pub mod Stream
pub mod Lexeme
pub mod Written
pub mod Text
pub mod Typed
pub mod Number
use lilc.Common.{
  ℕ, zero, suc, ◌+◌, ◌-◌, Bool, true, false, ◌&&◌, ◌||◌, Option, none, some, [], ◌∷◌, ◌++◌, ltb,
  leb, ◌==◌, if◌then◌else◌, length, get_elem?, take, Bytes, codes, bytes_eq,
}
use lilc.Double.{Double}
use lilc.Outcome.{Outcome, ok, died, fault, out_of_fuel, Fault, bind, M}
use lilc.Token.{
  TokType, tok_err, tok_eos, tok_id, tok_def, tok_semi, tok_comma, tok_lparen, tok_rparen,
  tok_lcurl, tok_rcurl, tok_dbl, tok_add, tok_sub, tok_mul, tok_div, tok_cmplt, tok_if, tok_else,
  Token, as_dbl, as_str, tok_eq, lilc_token_str,
}

-- `source` is the buffer with the terminating NUL byte that the caller puts at its end.
pub record Lexer (D : Type 0) : Type 0 where
  pub source : Bytes
  pub offset : ℕ
  pub tok : Token D
  pub filename : Bytes
  pub lineno : ℕ
  pub err : Option Bytes

-- <ctype.h>, in the C locale
unfoldable pub is_alpha : ℕ → Bool
is_alpha c = (leb b'a' c && leb c b'z') || (leb b'A' c && leb c b'Z')

unfoldable pub is_digit : ℕ → Bool
is_digit c = leb b'0' c && leb c b'9'

-- the test of `consume_id`'s loop on the character read
unfoldable pub is_ident : ℕ → Bool
unfolding is_alpha is_digit
is_ident c = is_alpha c || is_digit c || c == b'_'

-- the cases of `_lex_scan`'s switch that read on
unfoldable pub is_blank : ℕ → Bool
is_blank c = c == b'\n' || c == b' ' || c == b'\t'

abbrev pub max_ident : ℕ
max_ident = 64

-- `buf[i++] = c`, where `i` is the number of characters in `buf` and `size` the array's size
unfoldable pub store : ℕ → Bytes → ℕ → Outcome Bytes
store size buf c = if ltb (length buf) size then ok (buf ++ c ∷ []) else fault Fault.buffer_overflow

-- the token class of a character that is a token by itself
unfoldable pub punct : ℕ → Option TokType
punct c =
    if c == b','
    then some tok_comma
    else if c == b';'
    then some tok_semi
    else if c == b'('
    then some tok_lparen
    else if c == b')'
    then some tok_rparen
    else if c == b'{'
    then some tok_lcurl
    else if c == b'}'
    then some tok_rcurl
    else if c == b'+'
    then some tok_add
    else if c == b'-'
    then some tok_sub
    else if c == b'*'
    then some tok_mul
    else if c == b'/'
    then some tok_div
    else if c == b'<'
    then some tok_cmplt
    else if c == 0
    then some tok_eos
    else none

-- the message argument of `die`; a NULL one is printed as "(null)"
abbrev pub message : Option Bytes → Bytes
message none = codes "(null)"
message (some msg) = msg

-- The message of `snprintf(buf, 128, …)`, without its NUL byte.
unfoldable pub expected_message : TokType → TokType → Bytes
expected_message t cls = take 127 (
    codes "consumef: Expected '"
    ++ (lilc_token_str t ++ (codes "' but saw '" ++ (lilc_token_str cls ++ codes "'\n"))))

module _ {D : Type 0} where
  -- The struct is the caller's, and its token is left as it was.
  unfoldable pub lex_init : Lexer D → Bytes → Bytes → Lexer D
  lex_init l source path = record l {
    filename = path;
    source = source;
    offset = 0;
    lineno = 1;
    err = none;
  }

  unfoldable pub lex_err : Bytes → Lexer D → Lexer D
  lex_err msg l = record l { err = some msg }

  unfoldable pub set_tok_type : TokType → M (Lexer D) TokType
  set_tok_type t l = ok (t, record l { tok = record { cls = t; val = l.tok.val } })

  -- Called only after a character was read, so the offset is not 0.
  unfoldable pub putback : Lexer D → Lexer D
  putback l = record l { offset = l.offset - 1 }

  abbrev pub bump : Lexer D → Lexer D
  bump l = record l { offset = l.offset + 1 }

  abbrev pub read_char : Option ℕ → M (Lexer D) ℕ
  read_char none l = fault Fault.out_of_bounds
  read_char (some c) l = ok (c, bump l)

  -- `c = l->source[l->offset++]`
  unfoldable pub next_char : M (Lexer D) ℕ
  next_char l = read_char (get_elem? l.source l.offset) l

  -- The `do` loop of `consume_id`. It stores at most 63 characters, so `max_ident` rounds suffice.
  unfoldable pub id_loop : ℕ → ℕ → Bytes → M (Lexer D) Bytes
  id_loop zero c buf l = out_of_fuel
  id_loop (suc f) c buf l = bind (store max_ident buf c) λ buf'. bind (next_char l) λ (c', l').
      let again = id_loop f c' buf' l' in
      if is_ident c' && ltb (length buf') (max_ident - 1) then again else ok (buf', l')

  -- `strdup` is taken to succeed.
  unfoldable pub id_token : Bytes → M (Lexer D) TokType
  unfolding set_tok_type
  id_token buf l =
      if bytes_eq buf (codes "def")
      then set_tok_type tok_def l
      else if bytes_eq buf (codes "if")
      then set_tok_type tok_if l
      else if bytes_eq buf (codes "else")
      then set_tok_type tok_else l
      else ok (tok_id, record l { tok = record { cls = tok_id; val = as_str buf } })

  unfoldable pub consume_id : ℕ → M (Lexer D) TokType
  consume_id c l =
      bind (id_loop max_ident c [] l)
        λ (buf, l'). bind (store max_ident buf 0) λ _. id_token buf (putback l')

  unfoldable pub lex_is : Lexer D → TokType → Bool
  lex_is l t = tok_eq l.tok.cls t

module _ {D : Type 0} ⦃dbl : Double D⦄ where
  -- `n * 10 + (c - '0')`
  unfoldable pub digit_step : D → ℕ → D
  digit_step n c = dbl.add (dbl.mul n (dbl.of_int 10)) (dbl.of_int (c - b'0'))

  -- The `do` loop of `consume_number`. Each round reads a character of the source.
  unfoldable pub number_loop : ℕ → ℕ → D → M (Lexer D) D
  number_loop zero c n l = out_of_fuel
  number_loop (suc f) c n l =
      let n' = digit_step n c in
      bind (next_char l)
        λ (c', l'). let again = number_loop f c' n' l' in if is_digit c' then again else ok (n', l')

  unfoldable pub consume_number : ℕ → M (Lexer D) TokType
  consume_number c l = bind (number_loop (length l.source + 1) c (dbl.of_int 0) l) λ (n, l').
      ok (tok_dbl, record (putback l') { tok = record { cls = tok_dbl; val = as_dbl n } })

  unfoldable pub scan_default : Option TokType → ℕ → M (Lexer D) TokType
  scan_default (some t) c l = set_tok_type t l
  scan_default none c l =
      if is_alpha c
      then consume_id c l
      else if is_digit c
      then consume_number c l
      else set_tok_type tok_err (lex_err (codes "LEX - Unrecognized input character\n") l)

  -- The `while (1)` of `_lex_scan`. Each round reads a character of the source.
  unfoldable pub scan_loop : ℕ → M (Lexer D) TokType
  scan_loop zero l = out_of_fuel
  scan_loop (suc f) l = bind (next_char l) λ (c, l').
      let line = if c == b'\n' then l'.lineno + 1 else l'.lineno in
      let again = scan_loop f (record l' { lineno = line }) in
      if is_blank c then again else scan_default (punct c) c l'

  -- `_lex_scan`
  unfoldable pub lex_scan_raw : M (Lexer D) TokType
  lex_scan_raw l = scan_loop (length l.source + 1) l

  unfoldable pub lex_scan : M (Lexer D) TokType
  lex_scan l = bind (lex_scan_raw l) λ (t, l').
      if tok_eq t tok_err then died l'.filename l'.lineno (message l'.err) else ok (t, l')

  unfoldable pub lex_consume : TokType → M (Lexer D) Bool
  unfolding lex_is
  lex_consume t l =
      if lex_is l t then bind (lex_scan l) (λ (_, l'). ok (true, l')) else ok (false, l)

  unfoldable pub lex_consumef : TokType → M (Lexer D) Bool
  lex_consumef t l = bind (lex_consume t l) λ (done, l').
      if done then ok (true, l') else died l'.filename l'.lineno (expected_message t l'.tok.cls)
