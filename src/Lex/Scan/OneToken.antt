-- ===== src/Lex/Scan/OneToken.antt =====
-- The scanner on a character that begins a token.
use lilc.Common.{
  sym, ◌∙◌, ℕ, suc, ◌+◌, ◌≡◌, refl, ap, ◌≢◌, true, Option, none, some, [], ◌∷◌, ◌++◌, arith, length,
  Bytes, codes, drop-add, length-drop-le, bytes_eq,
}
use lilc.Double.{Double}
use lilc.Lex.Loops.{IdRun, id_loop-Yields, number_loop-Yields, store-room}
use lilc.Lex.Spec.{rest, ReadsPast, unknown_input, word_class, Spells, one, word, number, unknown}
use lilc.Lex.{
  Lexer, is_alpha, is_digit, punct, max_ident, putback, id_token, consume_id, consume_number,
  scan_default, set_tok_type, lex_err,
}
use lilc.Outcome.{Yields, yields, Yields-bind, Yields-map, Yields-if}
use lilc.Token.{TokType, tok_id, tok_err, as_dbl, as_str}

pub none-ne-zero : (c : ℕ) → punct c ≡ none → c ≢ 0
unfolding punct
none-ne-zero c h e = cc (rw e at h)

pub punct-ne_err : (c : ℕ) (t : TokType) → punct c ≡ some t → t ≢ tok_err
unfolding punct
punct-ne_err c t h = ground arith

pub word_class-ne_err : (w : Bytes) → word_class w ≢ tok_err
word_class-ne_err w = ground arith

module _ {D : Type 0} where
  -- A token made at `l` that only sets the token.
  record Made (w : Bytes) (l : Lexer D) (t : TokType) (l' : Lexer D) : Type 0 where
    same : l' ≡ record l { tok = l'.tok }
    class_is : t ≡ word_class w
    cls : l'.tok.cls ≡ t
    name : t ≡ tok_id → l'.tok.val ≡ as_str w
    kept : t ≢ tok_id → l'.tok.val ≡ l.tok.val

  id_token-Made :
      (w : Bytes) (l : Lexer D) → Yields (λ _. ⊥) (λ (t, l'). Made w l t l') (id_token w l)
  unfolding id_token
  id_token-Made w l =
      Yields-if (bytes_eq w (codes "def"))
        (λ a. yields (record {
          same = refl;
          class_is = rw (word_class, a);
          cls = refl;
          name = λ e. cc;
          kept = λ _. refl;
        }))
        λ a.
          Yields-if (bytes_eq w (codes "if"))
            (λ b. yields (record {
              same = refl;
              class_is = rw (word_class, a, b);
              cls = refl;
              name = λ e. cc;
              kept = λ _. refl;
            }))
            λ b.
              Yields-if (bytes_eq w (codes "else"))
                (λ c. yields (record {
                  same = refl;
                  class_is = rw (word_class, a, b, c);
                  cls = refl;
                  name = λ e. cc;
                  kept = λ _. refl;
                }))
                λ c. yields (record {
                  same = refl;
                  class_is = rw (word_class, a, b, c);
                  cls = refl;
                  name = λ e. refl;
                  kept = λ n. absurd (n refl);
                })

module _ {D : Type 0} ⦃dbl : Double D⦄ where
  -- The token that begins with `c`, read just before `l`.
  pub record Lexed (c : ℕ) (l : Lexer D) (t : TokType) (l' : Lexer D) : Type 0 where
    pub others : Bytes
    pub splits : rest l ≡ others ++ rest l'
    pub spelled : Spells l.tok.val (rest l') t l'.tok.val (c ∷ others)
    pub cls : l'.tok.cls ≡ t
    pub err : t ≡ tok_err → l'.err ≡ some unknown_input
    pub source : l'.source ≡ l.source
    pub filename : l'.filename ≡ l.filename
    pub lineno : l'.lineno ≡ l.lineno
    pub moved : l'.offset ≡ l.offset + length others

  putback-suc :
      (l : Lexer D) (n : ℕ)
      → putback (record l { offset = l.offset + suc n }) ≡ record l { offset = l.offset + n }
  unfolding putback
  putback-suc l n = ap (λ o. record l { offset = o }) (omega arith)

  Lexed-word :
      (c : ℕ) (l : Lexer D) (r : Bytes × Lexer D)
      → is_alpha c ≡ true
      → (run : IdRun c [] l r) → (t : TokType) (l' : Lexer D)
      → Made r.0 (record l { offset = l.offset + length run.chars }) t l'
      → Lexed c l t l'
  Lexed-word c l r a run t l' m =
      let after : rest l' ≡ run.next ∷ run.after =
        rw m.same (drop-add l.source run.chars l.offset run.suffix) in
      record {
        others = run.chars;
        splits = rw after run.suffix;
        spelled =
            word
              (record {
                first = c;
                others = run.chars;
                next = run.next;
                after_next = run.after;
                splits = refl;
                follows = after;
                letter = a;
                idents = run.idents;
                short = rw run.kept at run.short;
                maximal = rw run.kept at run.maximal;
              })
              (rw run.kept at m.class_is) (rw run.kept at m.name) m.kept;
        cls = m.cls;
        err = λ e. absurd (word_class-ne_err r.0 (sym m.class_is ∙ e));
        source = ap (λ (x : Lexer D). x.source) m.same;
        filename = ap (λ (x : Lexer D). x.filename) m.same;
        lineno = ap (λ (x : Lexer D). x.lineno) m.same;
        moved = ap (λ (x : Lexer D). x.offset) m.same;
      }

  consume_id-Lexed :
      (c : ℕ) (l : Lexer D)
      → is_alpha c ≡ true
      → Yields (ReadsPast l) (λ (t, l'). Lexed c l t l') (consume_id c l)
  unfolding consume_id
  consume_id-Lexed c l a =
      Yields-bind (id_loop-Yields max_ident c [] l (omega arith) (omega arith)) (λ e h. h)
        λ (buf, l1) run.
          rw (store-room max_ident buf 0 (omega (arith, run.short)), run.ends, putback-suc)
            (Yields-map (id_token-Made buf _) (λ e h. absurd h)
              (λ (t, l') m. Lexed-word c l (buf, l1) a run t l' m))

  consume_number-Lexed :
      (c : ℕ) (l : Lexer D)
      → is_digit c ≡ true
      → Yields (ReadsPast l) (λ (t, l'). Lexed c l t l') (consume_number c l)
  unfolding consume_number
  consume_number-Lexed c l d =
      Yields-bind
        (number_loop-Yields (length l.source + 1) c (dbl.of_int 0) l
          (omega (arith, length-drop-le l.offset l.source)))
        (λ e h. h)
        λ (n, l1) run.
          rw (run.ends, putback-suc)
            (let after = drop-add l.source run.digits l.offset run.suffix in
              yields (record {
                others = run.digits;
                splits = rw after run.suffix;
                spelled =
                    number
                      (record {
                        first = c;
                        others = run.digits;
                        next = run.next;
                        after_next = run.after;
                        splits = refl;
                        follows = after;
                        digit = d;
                        digits = run.all_digits;
                        maximal = run.maximal;
                      })
                      refl (ap as_dbl run.value);
                cls = refl;
                err = λ e. cc;
                source = refl;
                filename = refl;
                lineno = refl;
                moved = refl;
              }))

  pub scan_default-Lexed :
      (o : Option TokType) (c : ℕ) (l : Lexer D)
      → punct c ≡ o
      → Yields (λ e. ReadsPast l e × (c ≢ 0)) (λ (t, l'). Lexed c l t l') (scan_default o c l)
  unfolding scan_default set_tok_type lex_err
  scan_default-Lexed (some t) c l p = yields (record {
    others = [];
    splits = refl;
    spelled = one c refl p refl;
    cls = refl;
    err = λ e. absurd (punct-ne_err c t p e);
    source = refl;
    filename = refl;
    lineno = refl;
    moved = omega arith;
  })
  scan_default-Lexed none c l p =
      let nonzero = none-ne-zero c p in
      Yields-if (is_alpha c)
        (λ a. Yields-map (consume_id-Lexed c l a) (λ e h. (h, nonzero)) (λ r x. x))
        λ a.
          Yields-if (is_digit c)
            (λ d. Yields-map (consume_number-Lexed c l d) (λ e h. (h, nonzero)) (λ r x. x))
            λ d. yields (record {
              others = [];
              splits = refl;
              spelled = unknown c refl refl p a d refl;
              cls = refl;
              err = λ _. refl;
              source = refl;
              filename = refl;
              lineno = refl;
              moved = omega arith;
            })
