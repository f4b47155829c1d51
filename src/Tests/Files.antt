-- ===== src/Tests/Files.antt =====
-- A small stand-in for C's streams, with files by their names, and the theorems on files at concrete
-- ones.
use lilc.Common.{
  ℕ, zero, suc, ◌+◌, subst, ◌^◌, ◌<◌, ◌≡◌, refl, false, Option, none, some, List, [], ◌∷◌, take,
  drop, length, Bytes, codes, bytes_eq, ltb, if◌then◌else◌, arith,
}
use lilc.Util.{Stdio, StdioLaws, read_file}
use lilc.Util.Reads.{ReadsFile, read_file-ReadsFile}

pub record Disk : Type 0 where
  pub files : List (Bytes × Bytes)
  pub place : ℕ

abbrev file : List (Bytes × Bytes) → Bytes → Option Bytes
file [] name = none
file ((n, b) ∷ fs) name = if bytes_eq n name then some b else file fs name

abbrev zeros : ℕ → Bytes
zeros zero = []
zeros (suc n) = 0 ∷ zeros n

-- A stream is the content of its file.
abbrev pub disk : Stdio Disk Bytes
disk = record {
  fopen = λ name w. (file w.files name, record w { place = 0 });
  fseek_end = λ f w. (false, record w { place = length f });
  ftell = λ f w. (if ltb w.place (2 ^ 63) then some w.place else none, w);
  rewind = λ f w. record w { place = 0 };
  malloc = λ n w. (some (zeros n), w);
  fread = λ f n w. (take n (drop w.place f), record w { place = w.place + n });
  ferror = λ f w. false;
  fclose = λ f w. w;
  strerror = λ w. codes "No such file or directory";
}

length-zeros : (n : ℕ) → length (zeros n) ≡ n
length-zeros zero = refl
length-zeros (suc n) = omega (arith, length-zeros n)

told : (k : ℕ) {n : ℕ} → (if ltb k (2 ^ 63) then some k else none) ≡ some n → (n ≡ k) × (n < 2 ^ 63)
told k h = ground arith

pub disk-StdioLaws : StdioLaws disk
disk-StdioLaws = record {
  content = λ f w. f;
  place = λ f w. w.place;
  seek-content = λ f w. refl;
  seek-place = λ f w e. refl;
  tell-content = λ f w. refl;
  tell-place = λ f w e. (told w.place e).0;
  tell-long = λ f w e. (told w.place e).1;
  rewind-content = λ f w. refl;
  rewind-place = λ f w. refl;
  malloc-content = λ f n w. refl;
  malloc-place = λ f n w. refl;
  malloc-length = λ n w e. subst (λ room. length room ≡ n) (cc) (length-zeros n);
  read-content = λ f n w e. refl;
}

abbrev pub start : Disk
start = record { files = (codes "a.lilc", codes "1;") ∷ []; place = 3 }

read_file-ReadsFile_example :
    ReadsFile disk-StdioLaws
      (codes "util.c")
      (codes "a.lilc")
      start
      (read_file disk (codes "util.c") (codes "a.lilc") start)
read_file-ReadsFile_example =
    read_file-ReadsFile disk-StdioLaws (codes "util.c") (codes "a.lilc") start
