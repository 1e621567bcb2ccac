-- ===== src/Capability/Decimal.antt =====
-- How a `u64` is written: 20 digits are enough for every number below 2 ^ 64.
use text.Mathlib.TextLemmas.{nil-append, cons-append}
use Prim.Native.String
use Prim.Native.String.{char_at}
use Prim.Native.Char.{Char, code}
use threadmark.Common.{
  ℕ, zero, suc, ◌+◌, ◌-◌, ◌*◌, ◌/◌, ◌%◌, ◌^◌, ◌<◌, String, ◌≡◌, refl, sym, ap, ◌∙◌, inl, inr, arith,
  ltb, if◌then◌else◌, Bool-cases,
}

abbrev pub digit : ℕ → Char
digit d = char_at "0123456789" d

unfoldable pub one_char : Char → String
one_char c = String.◌∷◌ c String.[]

unfoldable pub decimal_from : (fuel n : ℕ) → String
unfolding one_char
decimal_from zero n = String.[]
decimal_from (suc fuel) n =
    let rest = decimal_from fuel (n / 10) in
    if ltb n 10 then one_char (digit n) else String.◌++◌ rest (one_char (digit (n % 10)))

unfoldable pub decimal : ℕ → String
unfolding decimal_from
decimal n = decimal_from 20 n

-- The number that digits stand for, after those that stand for `n`.
unfoldable pub read_from : ℕ → String → ℕ
read_from n String.[] = n
read_from n (String.◌∷◌ c s) = read_from (10 * n + (code c - 48)) s

read_from-append :
    (n : ℕ) (s t : String) → read_from n (String.◌++◌ s t) ≡ read_from (read_from n s) t
unfolding read_from
read_from-append n String.[] t = ap (read_from n) (nil-append t)
read_from-append n (String.◌∷◌ c s) t =
    ap (read_from n) (cons-append c s t) ∙ read_from-append (10 * n + (code c - 48)) s t

pub code-digit : (d : ℕ) → d < 10 → code (digit d) ≡ 48 + d
code-digit zero h = refl
code-digit (suc zero) h = refl
code-digit (suc (suc zero)) h = refl
code-digit (suc (suc (suc zero))) h = refl
code-digit (suc (suc (suc (suc zero)))) h = refl
code-digit (suc (suc (suc (suc (suc zero))))) h = refl
code-digit (suc (suc (suc (suc (suc (suc zero)))))) h = refl
code-digit (suc (suc (suc (suc (suc (suc (suc zero))))))) h = refl
code-digit (suc (suc (suc (suc (suc (suc (suc (suc zero)))))))) h = refl
code-digit (suc (suc (suc (suc (suc (suc (suc (suc (suc zero))))))))) h = refl
code-digit (suc (suc (suc (suc (suc (suc (suc (suc (suc (suc d)))))))))) h = absurd (omega arith)

read_digit : (m d : ℕ) → d < 10 → read_from m (one_char (digit d)) ≡ 10 * m + d
unfolding read_from one_char
read_digit m d h = let c = code-digit d h in omega arith

read-decimal_from : (fuel n : ℕ) → n < 10 ^ fuel → read_from 0 (decimal_from fuel n) ≡ n
unfolding decimal_from read_from
read-decimal_from zero n h = omega arith
read-decimal_from (suc fuel) n h = elim (Bool-cases (ltb n 10)) [
  | inl small ↦ rw small (let e = read_digit 0 n (ground arith) in omega arith)
  | inr large ↦ rw large (
      let ih = read-decimal_from fuel (n / 10) (below fuel n h) in
      let e = read_digit (n / 10) (n % 10) (omega arith) in
      read_from-append 0 (decimal_from fuel (n / 10)) (one_char (digit (n % 10)))
      ∙ ap (λ m. read_from m (one_char (digit (n % 10)))) ih
      ∙ e
      ∙ omega arith)
]
  where
    below : (fuel n : ℕ) → n < 10 ^ suc fuel → n / 10 < 10 ^ fuel
    below fuel n h = grind arith

-- Two numbers below 2 ^ 64 that are written alike are equal.
pub decimal-injective : (m n : ℕ) → m < 2 ^ 64 → n < 2 ^ 64 → decimal m ≡ decimal n → m ≡ n
unfolding decimal
decimal-injective m n hm hn e =
    sym (read-decimal_from 20 m (omega arith))
    ∙ ap (read_from 0) e
    ∙ read-decimal_from 20 n (omega arith)
