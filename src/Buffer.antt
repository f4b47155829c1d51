-- ===== src/Buffer.antt =====
-- The output buffer of the printers `tok_strm_readf` (src/lex.c) and `ast_readf` (src/ast.c).
use lilc.Common.{
  ℕ, ◌+◌, ◌≤◌, ◌≡◌, sym, Bytes, ◌++◌, take, length, length-append, take-length, length-take,
}
use lilc.Outcome.{ok, M}

-- The output of the printers: the C string in `buf`, and the index `i` at which they write next.
pub record Out : Type 0 where
  pub buf : Bytes
  pub i : ℕ

-- `i += sprintf(buf + i, …)`, where the formatted text is `text`
unfoldable pub emit : Bytes → Out → Out
emit text o = record { buf = take o.i o.buf ++ text; i = o.i + length text }

abbrev pub put : Bytes → M Out (Unit {0})
put text o = ok (tt, emit text o)

-- A state whose index is at the end of the string.
abbrev pub full : Bytes → Out
full b = record { buf = b; i = length b }

pub emit-full : (text b : Bytes) → emit text (full b) ≡ full (b ++ text)
unfolding emit
emit-full text b = λ j. record { buf = take-length b j ++ text; i = sym (length-append b text) j }

-- What stands behind the index is overwritten.
pub emit-take :
    (text : Bytes) (o : Out) → o.i ≤ length o.buf → emit text o ≡ emit text (full (take o.i o.buf))
unfolding emit
emit-take text o h = λ j. record {
  buf = sym (take-length (take o.i o.buf)) j ++ text;
  i = sym (length-take o.i o.buf h) j + length text;
}
