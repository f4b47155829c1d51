-- ===== src/Double.antt =====
-- C's `double`, as far as the lexer and the printers use it. The representation is a parameter.
use lilc.Common.{ℕ, ◌+◌, ◌*◌, ◌^◌, ◌≤◌, ◌≡◌, Bytes}

-- `of_int` converts a number that fits an `int`; `show` is `printf`'s "%.1f".
-- Whole numbers up to 2 ^ 53 are represented exactly, so one step of Horner's rule below that
-- bound is not rounded.
pub record Double (D : Type 0) : Type 0 where
  pub of_int : ℕ → D
  pub add : D → D → D
  pub mul : D → D → D
  pub show : D → Bytes
  pub horner_exact :
      (a b : ℕ)
      → a * 10 + b ≤ 2 ^ 53
      → add (mul (of_int a) (of_int 10)) (of_int b) ≡ of_int (a * 10 + b)
