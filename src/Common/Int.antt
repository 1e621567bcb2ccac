-- ===== src/Common/Int.antt =====
-- `i64` values that may be negative: what a client sends, and what wraps round.
use threadmark.Common.{
  ℕ, ◌-◌, ◌%◌, ◌^◌, ◌<◌, ◌≡◌, arith, Bool, true, false, not, leb, ltb, if◌then◌else◌,
}

-- `negsuc n` is -(n + 1).
pub data ℤ : Type 0 where
  pos : ℕ → ℤ
  negsuc : ℕ → ℤ

-- `x.max(0)`
unfoldable pub max_zero : ℤ → ℕ
max_zero (pos n) = n
max_zero (negsuc n) = 0

-- `x.clamp(1, 1000)`
unfoldable pub clamp_limit : ℤ → ℕ
clamp_limit (pos n) = if ltb n 1 then 1 else if ltb 1000 n then 1000 else n
clamp_limit (negsuc n) = 1

unfoldable pub leb_int : ℤ → ℤ → Bool
leb_int (pos m) (pos n) = leb m n
leb_int (pos m) (negsuc n) = false
leb_int (negsuc m) (pos n) = true
leb_int (negsuc m) (negsuc n) = leb n m

abbrev pub ltb_int : ℤ → ℤ → Bool
ltb_int a b = not (leb_int b a)

-- `a.min(b)`
abbrev pub min_int : ℤ → ℤ → ℤ
min_int a b = if leb_int a b then a else b

-- A result of 64-bit arithmetic, wrapped round as an `i64`.
unfoldable pub wrap_i64 : ℕ → ℤ
wrap_i64 n = let m = n % 2 ^ 64 in if ltb m (2 ^ 63) then pos m else negsuc (2 ^ 64 - 1 - m)

pub wrap_i64_small : (n : ℕ) → n < 2 ^ 63 → wrap_i64 n ≡ pos n
unfolding wrap_i64
wrap_i64_small n h = ground arith
