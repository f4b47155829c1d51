-- ===== src/Driver/Compares.antt =====
-- The tests of a written program: what they compare.
use lilc.Ast.Layout.{layout}
use lilc.Ast.{block_node}
use lilc.Buffer.{full}
use lilc.Common.{
  ◌≡◌, refl, ap, Bool, true, false, ◌&&◌, List, [], Bytes, ltb, leb, if◌then◌else◌, length, arith,
}
use lilc.Double.{Double}
use lilc.Driver.{str_same, max_text, in_array, new_lexer, new_parser, test_lexer, test_parser}
use lilc.Lex.Lexeme.{Lexeme, AreLexemes}
use lilc.Lex.Stream.{show_tokens, tok_strm_readf-Tokens}
use lilc.Lex.Written.{Written, Written-Tokens, tokens_of}
use lilc.Lex.{lex_init}
use lilc.Outcome.{Outcome, ok, fault, Fault}
use lilc.Parse.Ahead.{Reads, Reads-ok}
use lilc.Parse.Printing.{ast_readf-parse}
use lilc.Parse.RoundTrip.{parse-emit_stmts}
use lilc.Parse.Source.{Exprs, emit_stmts, nodes_of, AreSource}
use lilc.Parse.{parser_init, parse}
use lilc.Token.{unset}
use lilc.Util.{Stdio, read_file}

-- Whether the text is the expected one, if there is room for it.
abbrev pub compare_text : {W : Type 0} → Bytes → Bytes → W → Outcome (Bool × W)
compare_text want text w = in_array (full text) (ok (str_same want text, w))

within :
    {W : Type 0} (want text : Bytes) (w : W)
    → in_array (full text) (ok (ltb (length text) max_text && str_same want text, w))
      ≡ compare_text want text w
within {W = W} want text w = go (ltb (length text) max_text) (str_same want text)
  where
    go :
        (c b : Bool)
        → if◌then◌else◌ {A = Outcome (Bool × W)} c (ok (c && b, w)) (fault Fault.buffer_overflow)
          ≡ if◌then◌else◌ c (ok (b, w)) (fault Fault.buffer_overflow)
    go true b = refl
    go false b = refl

within_bound :
    {W : Type 0} (want text : Bytes) (w : W)
    → in_array (full text) (ok (leb (length text) max_text && str_same want text, w))
      ≡ compare_text want text w
within_bound {W = W} want text w =
    go (ltb (length text) max_text) (leb (length text) max_text) (str_same want text) (ground arith)
  where
    go :
        (c d b : Bool)
        → (c ≡ true → d ≡ true)
        → if◌then◌else◌ {A = Outcome (Bool × W)} c (ok (d && b, w)) (fault Fault.buffer_overflow)
          ≡ if◌then◌else◌ c (ok (b, w)) (fault Fault.buffer_overflow)
    go true d b h = ap (λ d. ok (d && b, w)) (h refl)
    go false d b h = refl

-- The two files of a test are there.
pub record Files {W F : Type 0} (io : Stdio W F) (here src_path want_path : Bytes) (w : W)
    : Type 0 where
  pub src : Bytes
  pub want : Bytes
  pub after_src : W
  pub after_want : W
  pub read_src : read_file io here src_path w ≡ ok (src, after_src)
  pub read_want : read_file io here want_path after_src ≡ ok (want, after_want)

module _ {W F : Type 0} (D : Type 0) ⦃dbl : Double D⦄ {io : Stdio W F}
    {here src_path want_path : Bytes} {w : W} (files : Files io here src_path want_path w) where
  -- `parse` from the structs of a test.
  pub parse_new :
      (es : Exprs)
      → AreSource es
      → Written (emit_stmts es []) files.src
      → Reads {D = D} []
          (block_node (nodes_of es))
          (parse (new_parser (lex_init new_lexer files.src src_path)))
  unfolding parser_init lex_init
  parse_new es n c =
      parse-emit_stmts es (new_parser (lex_init new_lexer files.src src_path)) n refl c

  -- `test_lexer` on written lexemes compares the stream of their tokens with the other file, or
  -- overflows its array with a stream of 512 bytes or more.
  pub test_lexer-show_tokens :
      (xs : List Lexeme)
      → AreLexemes xs
      → Written xs files.src
      → test_lexer D io here src_path want_path w
        ≡ compare_text files.want (show_tokens (tokens_of {D = D} unset xs)) files.after_want
  unfolding test_lexer lex_init
  test_lexer-show_tokens xs n c =
      let (last, tokens) = Written-Tokens xs (lex_init {D = D} new_lexer files.src src_path) n c in
      rw (files.read_src, files.read_want, tok_strm_readf-Tokens tokens)
        (within_bound files.want (show_tokens (tokens_of {D = D} unset xs)) files.after_want)

  -- `test_parser` on a written program compares the layout of its tree with the other file, or
  -- overflows its array with a layout of 512 bytes or more.
  pub test_parser-layout :
      (es : Exprs)
      → AreSource es
      → Written (emit_stmts es []) files.src
      → test_parser D io here src_path want_path w
        ≡ compare_text files.want (layout {D = D} 0 (block_node (nodes_of es))) files.after_want
  unfolding test_parser
  test_parser-layout es n c =
      let (q, parsed, h) = Reads-ok (parse_new es n c) in
      rw
        (
          files.read_src,
          files.read_want,
          parsed,
          ast_readf-parse (new_parser (lex_init new_lexer files.src src_path)) parsed h.no_err,
        )
        (within files.want (layout {D = D} 0 (block_node (nodes_of es))) files.after_want)
