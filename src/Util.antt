-- ===== src/Util.antt =====
-- src/util.c: reading a file into a buffer that ends in a NUL byte. `die` of that file is the
-- outcome `died`.
pub mod Reads
use lilc.Common.{
  ℕ, suc, ◌+◌, ◌^◌, ◌≡◌, ◌<◌, Bool, true, false, Option, none, some, List, [], ◌∷◌, ◌++◌, take,
  drop, length, Bytes, codes, ◌==◌, ◌-◌, if◌then◌else◌,
}
use lilc.Outcome.{died, ok, M, ◌>>=◌, ◌>>◌, pure}

-- What util.c uses of C's input and allocation, on a state `W`; `F` holds streams. A call that
-- fails sets `errno`, and `strerror` is the text for it.
pub record Stdio (W F : Type 0) : Type 0 where
  -- in mode "r"; `none` is NULL
  pub fopen : Bytes → W → Option F × W
  -- to the end of the file; `true` is a failure
  pub fseek_end : F → W → Bool × W
  -- `none` is -1
  pub ftell : F → W → Option ℕ × W
  pub rewind : F → W → W
  -- the room as it is found; `none` is NULL
  pub malloc : ℕ → W → Option Bytes × W
  -- the bytes read, whose number is the result
  pub fread : F → ℕ → W → Bytes × W
  pub ferror : F → W → Bool
  pub fclose : F → W → W
  pub strerror : W → Bytes

-- The streams and the allocator as they are documented: a stream has a content and a place in it,
-- which only the calls on it that move it change; room has the size asked for.
pub record StdioLaws {W F : Type 0} (io : Stdio W F) : Type 0 where
  pub content : F → W → Bytes
  pub place : F → W → ℕ
  pub seek-content : (f : F) (w : W) → content f (io.fseek_end f w).1 ≡ content f w
  pub seek-place :
      (f : F) (w : W)
      → (io.fseek_end f w).0 ≡ false
      → place f (io.fseek_end f w).1 ≡ length (content f w)
  pub tell-content : (f : F) (w : W) → content f (io.ftell f w).1 ≡ content f w
  pub tell-place : (f : F) (w : W) {n : ℕ} → (io.ftell f w).0 ≡ some n → n ≡ place f w
  pub tell-long : (f : F) (w : W) {n : ℕ} → (io.ftell f w).0 ≡ some n → n < 2 ^ 63
  pub rewind-content : (f : F) (w : W) → content f (io.rewind f w) ≡ content f w
  pub rewind-place : (f : F) (w : W) → place f (io.rewind f w) ≡ 0
  pub malloc-content : (f : F) (n : ℕ) (w : W) → content f (io.malloc n w).1 ≡ content f w
  pub malloc-place : (f : F) (n : ℕ) (w : W) → place f (io.malloc n w).1 ≡ place f w
  pub malloc-length :
      (n : ℕ) (w : W) {room : Bytes} → (io.malloc n w).0 ≡ some room → length room ≡ n
  pub read-content :
      (f : F) (n : ℕ) (w : W)
      → io.ferror f (io.fread f n w).1 ≡ false
      → (io.fread f n w).0 ≡ take n (drop (place f w) (content f w))

-- `(size_t)-1`
abbrev pub minus_one : ℕ
minus_one = 2 ^ 64 - 1

abbrev to_size_t : Option ℕ → ℕ
to_size_t none = minus_one
to_size_t (some n) = n

module _ {W F : Type 0} (io : Stdio W F) (here : Bytes) where
  -- A call of the library, which returns.
  abbrev call : {A : Type 0} → (W → A × W) → M W A
  call op w = ok (op w)

  -- `DIE()` at a line; `here` is what `__FILE__` stands for.
  unfoldable pub die_at : {A : Type 0} → ℕ → M W A
  die_at line w = died here line (io.strerror w)

  -- the test of a pointer for NULL
  abbrev or_die : {A B : Type 0} → ℕ → Option A → (A → M W B) → M W B
  or_die line none k = die_at line
  or_die line (some a) k = k a

  unfoldable pub file_size : F → M W ℕ
  file_size f = do
    failed ← call (io.fseek_end f)
    if failed
        then die_at 19
        else do s ← call (io.ftell f); call (λ w. (tt, io.rewind f w)); pure (to_size_t s)

  -- The length is compared with -1 as a `long`, which `minus_one` becomes.
  unfoldable pub read_file : Bytes → M W Bytes
  read_file filename = do
    opened ← call (io.fopen filename)
    or_die 32 opened λ f. do
      len ← file_size f
      if len == minus_one then die_at 36 else do
        room ← call (io.malloc (len + 1))
        or_die 39 room λ buf. do
          read ← call (io.fread f len)
          failed ← call (λ w. (io.ferror f w, w))
          if failed
              then die_at 44
              else do call (λ w. (tt, io.fclose f w)); pure (read ++ 0 ∷ drop (length read + 1) buf)
