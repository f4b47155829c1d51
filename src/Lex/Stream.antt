-- ===== src/Lex/Stream.antt =====
-- `tok_strm_readf` of src/lex.c: the formatted stream of the tokens that are left.
use lilc.Buffer.{Out, emit, full, emit-full}
use lilc.Common.{
  ℕ, zero, suc, ◌+◌, ◌<◌, ◌≡◌, refl, ap, ◌≢◌, List, [], ◌∷◌, ◌++◌, length, length-append, Bytes,
  codes, arith, append_assoc, append-nil, length-drop-le, sym, if◌then◌else◌,
}
use lilc.Double.{Double}
use lilc.Lex.Scan.{lex_scan-Ensures}
use lilc.Lex.Spec.{rest}
use lilc.Lex.Typed.{Typed, Spells-Typed}
use lilc.Lex.{Lexer, lex_scan}
use lilc.Outcome.{Outcome, ok, fault, out_of_fuel, Fault, bind, Ensures-ok}
use lilc.Token.{
  TokType, tok_eos, tok_id, tok_dbl, tok_eq, to_int, ne-tok_eq, Token, Val, as_dbl, as_str, unset,
  lilc_token_str,
}

module _ {D : Type 0} ⦃dbl : Double D⦄ where
  -- the text of the union member that the class selects
  pub emit_val : TokType → Val D → Out → Outcome Out
  emit_val tok_dbl (as_dbl x) o =
      ok (emit (dbl.show x) (emit (lilc_token_str tok_dbl ++ codes ",") o))
  emit_val tok_dbl _ o = fault Fault.wrong_member
  emit_val tok_id (as_str s) o = ok (emit s (emit (lilc_token_str tok_id ++ codes ",") o))
  emit_val tok_id _ o = fault Fault.wrong_member
  emit_val t v o = ok (emit (lilc_token_str t) o)

  -- Each round scans a token, so a round for each byte and one more are enough.
  unfoldable pub strm_loop : ℕ → Lexer D → Out → Outcome (Lexer D × Out)
  unfolding emit_val
  strm_loop zero l o = out_of_fuel
  strm_loop (suc f) l o = bind (lex_scan l) λ (t, l').
      let again =
        bind (emit_val l'.tok.cls l'.tok.val (emit (codes "<") o))
          (λ o'. strm_loop f l' (emit (codes ">") o')) in
      if tok_eq t tok_eos then ok (l', o) else again

  -- The result is `i`, the number of bytes written.
  unfoldable pub tok_strm_readf : Lexer D → Outcome (Lexer D × Out)
  unfolding strm_loop
  tok_strm_readf l = strm_loop (length l.source + 1) l (full [])

  -- A token as the stream shows it.
  abbrev pub show_val : TokType → Val D → Bytes
  show_val tok_dbl (as_dbl x) = codes "dbl," ++ dbl.show x
  show_val tok_id (as_str s) = codes "id," ++ s
  show_val t v = lilc_token_str t

  unfoldable pub show_tokens : List (Token D) → Bytes
  show_tokens [] = []
  show_tokens (t ∷ ts) = codes "<" ++ (show_val t.cls t.val ++ (codes ">" ++ show_tokens ts))

  -- Scanning from `l` gives these tokens and then the end of the source, at `last`.
  pub data Tokens (last : Lexer D) : Lexer D → List (Token D) → Type 0 where
    end : {l : Lexer D} → lex_scan l ≡ ok (tok_eos, last) → Tokens last l []
    token :
        {l l' : Lexer D} {ts : List (Token D)} (t : TokType)
        → lex_scan l ≡ ok (t, l')
        → t ≢ tok_eos
        → Tokens last l' ts
        → Tokens last l (l'.tok ∷ ts)

  pub emit_val-full :
      (t : TokType) (v : Val D) (b : Bytes)
      → Typed (record { cls = t; val = v })
      → emit_val t v (full b) ≡ ok (full (b ++ show_val t v))
  unfolding emit_val lilc_token_str
  emit_val-full tok_dbl (as_dbl x) b h = simp (emit-full, append_assoc)
  emit_val-full tok_dbl (as_str x) b h = absurd (h.1 refl)
  emit_val-full tok_dbl unset b h = absurd (h.1 refl)
  emit_val-full tok_id (as_str s) b h = simp (emit-full, append_assoc)
  emit_val-full tok_id (as_dbl s) b h = absurd (h.0 refl)
  emit_val-full tok_id unset b h = absurd (h.0 refl)
  emit_val-full _ v b h = rw emit-full

  scan-shrinks :
      (l l' : Lexer D) (t : TokType)
      → lex_scan l ≡ ok (t, l')
      → (length (rest l') < length (rest l)) × Typed l'.tok
  scan-shrinks l l' t e =
      let (x, _) = Ensures-ok (lex_scan-Ensures l) e in
      let (typed, pos) = Spells-Typed x.spelled in
      (
        omega (
          arith,
          ap length x.splits,
          length-append x.blanks (x.lexeme ++ rest l'),
          length-append x.lexeme (rest l'),
        ),
        rw (sym x.cls) at typed,
      )

  strm_loop-Tokens :
      (f : ℕ) (b : Bytes) {last l : Lexer D} {ts : List (Token D)}
      → length (rest l) < f
      → Tokens last l ts
      → strm_loop f l (full b) ≡ ok (last, full (b ++ show_tokens ts))
  unfolding strm_loop show_tokens to_int
  strm_loop-Tokens zero b fuel ts = absurd (omega arith)
  strm_loop-Tokens (suc f) b fuel (end e) = rw (e, append-nil)
  strm_loop-Tokens (suc f) b {l = l} fuel (token {l' = l'} {ts = ts} t e n more) =
      let (less, typed) = scan-shrinks l l' t e in
      let ih = λ (b' : Bytes). strm_loop-Tokens f b' (omega (arith, less)) more in
      rw (e, ne-tok_eq t tok_eos n, emit-full)
        (rw (emit_val-full l'.tok.cls l'.tok.val (b ++ codes "<") typed)
          (simp (emit-full, ih, append_assoc)))

  -- The stream of a source that scans to `ts` is the concatenation of its tokens, and the result
  -- is its length.
  pub tok_strm_readf-Tokens :
      {last l : Lexer D} {ts : List (Token D)}
      → Tokens last l ts
      → tok_strm_readf l ≡ ok (last, record { buf = show_tokens ts; i = length (show_tokens ts) })
  unfolding tok_strm_readf
  tok_strm_readf-Tokens {l = l} ts =
      strm_loop-Tokens (length l.source + 1) [] (omega (arith, length-drop-le l.offset l.source)) ts
