-- ===== src/Util/Reads.antt =====
-- What `read_file` returns, and when it stops.
use lilc.Common.{
  ℕ, suc, ◌+◌, ◌^◌, ◌≡◌, refl, ap, ◌∙◌, ◌<◌, true, false, Option, none, some, List, [], ◌∷◌, ◌++◌,
  take, drop, length, take-length, Bytes, ◌==◌, arith, ◌≤◌, zero, ◌⊎◌, inl, inr, Bool-cases,
}
use lilc.Outcome.{Outcome, died, ok}
use lilc.Util.{Stdio, StdioLaws, minus_one, die_at, file_size, read_file}

drop-all : {A : Type 0} (xs : List A) (n : ℕ) → length xs ≤ n → drop n xs ≡ []
drop-all {A} [] n h = go n
  where
    go : (n : ℕ) → drop {A = A} n [] ≡ []
    go zero = refl
    go (suc n) = refl
drop-all (x ∷ xs) zero h = absurd (omega arith)
drop-all (x ∷ xs) (suc n) h = drop-all xs n (omega arith)

Option-cases : {A : Type 0} (o : Option A) → (o ≡ none) ⊎ ((a : A) × (o ≡ some a))
Option-cases none = inl refl
Option-cases (some a) = inr (a, refl)

no_minus_one : (n : ℕ) → n < 2 ^ 63 → (n == minus_one) ≡ false
no_minus_one n h = ground arith

module _ {W F : Type 0} {io : Stdio W F} (laws : StdioLaws io) (here : Bytes) (filename : Bytes)
    (w : W) where
  -- The state behind `fopen`, and behind `fseek`.
  abbrev after_open : W
  after_open = (io.fopen filename w).1

  abbrev after_seek : F → W
  after_seek f = (io.fseek_end f after_open).1

  abbrev after_tell : F → W
  after_tell f = io.rewind f (io.ftell f (after_seek f)).1

  abbrev whole_file : F → Bytes
  whole_file f = laws.content f after_open

  abbrev room_for : F → Option Bytes × W
  room_for f = io.malloc (length (whole_file f) + 1) (after_tell f)

  abbrev after_read : F → W
  after_read f = (io.fread f (length (whole_file f)) (room_for f).1).1

  -- The run returns the content of the file and a NUL byte, or stops at the line of the call that
  -- failed, with its message.
  pub data ReadsFile : Outcome (Bytes × W) → Type 0 where
    whole :
        {f : F} {w' : W}
        → (io.fopen filename w).0 ≡ some f
        → ReadsFile (ok (whole_file f ++ 0 ∷ [], w'))
    cannot_open : (io.fopen filename w).0 ≡ none → ReadsFile (died here 32 (io.strerror after_open))
    cannot_seek :
        {f : F}
        → (io.fopen filename w).0 ≡ some f
        → (io.fseek_end f after_open).0 ≡ true
        → ReadsFile (died here 19 (io.strerror (after_seek f)))
    cannot_tell :
        {f : F}
        → (io.fopen filename w).0 ≡ some f
        → (io.ftell f (after_seek f)).0 ≡ none
        → ReadsFile (died here 36 (io.strerror (after_tell f)))
    no_room :
        {f : F}
        → (io.fopen filename w).0 ≡ some f
        → (room_for f).0 ≡ none
        → ReadsFile (died here 39 (io.strerror (room_for f).1))
    cannot_read :
        {f : F}
        → (io.fopen filename w).0 ≡ some f
        → io.ferror f (after_read f) ≡ true
        → ReadsFile (died here 44 (io.strerror (after_read f)))

  -- The file's size and, behind the allocation, its place and content.
  tell-length :
      (f : F) {n : ℕ}
      → (io.fseek_end f after_open).0 ≡ false
      → (io.ftell f (after_seek f)).0 ≡ some n
      → n ≡ length (whole_file f)
  tell-length f s t = laws.tell-place f (after_seek f) t ∙ laws.seek-place f after_open s

  room-place : (f : F) → laws.place f (room_for f).1 ≡ 0
  room-place f =
      laws.malloc-place f _ (after_tell f) ∙ laws.rewind-place f (io.ftell f (after_seek f)).1

  room-content : (f : F) → laws.content f (room_for f).1 ≡ whole_file f
  room-content f =
      laws.malloc-content f _ (after_tell f)
      ∙ laws.rewind-content f (io.ftell f (after_seek f)).1
      ∙ laws.tell-content f (after_seek f)
      ∙ laws.seek-content f after_open

  -- Without an error the whole file is read.
  read-whole :
      (f : F)
      → io.ferror f (after_read f) ≡ false
      → (io.fread f (length (whole_file f)) (room_for f).1).0 ≡ whole_file f
  read-whole f e =
      laws.read-content f _ _ e
      ∙ ap (λ i. take (length (whole_file f)) (drop i (laws.content f (room_for f).1)))
          (room-place f)
      ∙ ap (take (length (whole_file f))) (room-content f)
      ∙ take-length (whole_file f)

  no_more_room :
      (f : F) {room : Bytes}
      → (room_for f).0 ≡ some room
      → drop (length (whole_file f) + 1) room ≡ []
  no_more_room f m =
      drop-all _ (length (whole_file f) + 1) (omega (arith, laws.malloc-length _ (after_tell f) m))

  -- With streams and an allocator that behave as documented, `read_file` returns the content of
  -- the file that it opened with a NUL byte behind it, or stops with the message and the line of
  -- a call that failed: the file cannot be opened, its end cannot be sought, its size cannot be
  -- told, there is no room, or it cannot be read.
  pub read_file-ReadsFile : ReadsFile (read_file io here filename w)
  unfolding read_file file_size die_at
  read_file-ReadsFile = elim (Option-cases (io.fopen filename w).0) [
    | inl e ↦ rw e (cannot_open e)
    | inr (f, e) ↦ rw e (elim (Bool-cases (io.fseek_end f after_open).0) [
      | inl s ↦ rw s (cannot_seek e s)
      | inr s ↦ rw s (elim (Option-cases (io.ftell f (after_seek f)).0) [
        | inl t ↦ rw t (cannot_tell e t)
        | inr (n, t) ↦
            rw (t, no_minus_one n (laws.tell-long f (after_seek f) t), tell-length f s t)
              (elim (Option-cases (room_for f).0) [
                | inl m ↦ rw m (no_room e m)
                | inr (room, m) ↦ rw m (elim (Bool-cases (io.ferror f (after_read f))) [
                  | inl r ↦ rw r (cannot_read e r)
                  | inr r ↦ rw (r, read-whole f r, no_more_room f m) (whole e)
                ])
              ])
      ])
    ])
  ]
