-- ===== src/Common/Order.antt =====
-- ORDER BY, and the slices of `Vec`: sorting by a key.
use threadmark.Common.{
  ℕ, suc, ◌+◌, ◌≤◌, ◌<◌, ◌≡◌, refl, ap, ◌∙◌, inl, inr, Bool, ◌||◌, List, [], ◌∷◌, ◌++◌, arith, leb,
  if◌then◌else◌, leb→le, leb-false, Bool-cases, length, All, All-map, any, remove,
}
use Prim.Native.Nat.{ℕ, suc, ◌+◌, ◌≤◌, ◌<◌}
use mathlib.Core.Path.{◌≡◌, refl, ap, ◌∙◌}
use mathlib.Core.Bool.{Bool, ◌||◌}
use mathlib.Core.List.{List, [], ◌∷◌, ◌++◌}
use native.Mathlib.Omega.{arith}
use mathlib.Core.Logic.{inl, inr}
use threadmark.Common.Lists.{All, All-map, length}
use threadmark.Common.Rows.{remove, any}
use threadmark.Common.Tests.{leb, if◌then◌else◌, Bool-cases, leb→le, leb-false}

module _ {ℓ} {A : Type ℓ} (le : A → A → Bool) where
  insert_sorted : A → List A → List A
  insert_sorted x [] = x ∷ []
  insert_sorted x (y ∷ ys) =
      let rest = insert_sorted x ys in if le x y then x ∷ y ∷ ys else y ∷ rest

  -- A stable sort: `ORDER BY`, and `Vec::sort`.
  unfoldable pub sort_by : List A → List A
  unfolding insert_sorted
  sort_by [] = []
  sort_by (x ∷ xs) = insert_sorted x (sort_by xs)

  any-insert_sorted :
      (p : A → Bool) (x : A) (xs : List A) → any p (insert_sorted x xs) ≡ (p x || any p xs)
  unfolding insert_sorted any
  any-insert_sorted p x [] = refl
  any-insert_sorted p x (y ∷ ys) = ground (arith, any-insert_sorted p x ys)

  -- Sorting leaves the rows.
  pub any-sort_by : (p : A → Bool) (xs : List A) → any p (sort_by xs) ≡ any p xs
  unfolding sort_by any
  any-sort_by p [] = refl
  any-sort_by p (x ∷ xs) =
      any-insert_sorted p x (sort_by xs) ∙ ap (λ b. p x || b) (any-sort_by p xs)

module _ {ℓ} {A : Type ℓ} (key : A → ℕ) where
  -- ORDER BY key ASC
  unfoldable pub order_by : List A → List A
  unfolding sort_by
  order_by xs = sort_by (λ x y. leb (key x) (key y)) xs

  -- The keys rise strictly, from `lo` on and below `hi`.
  abbrev pub Ascending : ℕ → ℕ → List A → Type 0
  Ascending lo hi [] = lo ≤ hi
  Ascending lo hi (x ∷ xs) = (lo ≤ key x) × Ascending (suc (key x)) hi xs

  -- The keys are `lo`, `lo + 1`, … up to `hi - 1`, in this order: no gap and no repetition.
  abbrev pub GapFree : ℕ → ℕ → List A → Type 0
  GapFree lo hi [] = lo ≡ hi
  GapFree lo hi (x ∷ xs) = (key x ≡ lo) × GapFree (suc lo) hi xs

  order_by-cons :
      (x : A) (lo hi : ℕ) (xs : List A)
      → key x < lo
      → Ascending lo hi xs
      → insert_sorted (λ x y. leb (key x) (key y)) x xs ≡ x ∷ xs
  unfolding insert_sorted
  order_by-cons x lo hi [] h k = refl
  order_by-cons x lo hi (y ∷ ys) h k = ground arith

  -- Rows in rising order stay as they are.
  pub order_by_of_Ascending : (lo hi : ℕ) (xs : List A) → Ascending lo hi xs → order_by xs ≡ xs
  unfolding order_by
  order_by_of_Ascending lo hi [] h = refl
  order_by_of_Ascending lo hi (x ∷ xs) (h, k) =
      rw (order_by_of_Ascending (suc (key x)) hi xs k)
        (order_by-cons x (suc (key x)) hi xs (omega arith) k)

  Ascending-le : (lo hi : ℕ) (xs : List A) → Ascending lo hi xs → lo ≤ hi
  Ascending-le lo hi [] h = h
  Ascending-le lo hi (x ∷ xs) (h, k) = omega (arith, Ascending-le (suc (key x)) hi xs k)

  pub Ascending-weaken :
      (lo lo' hi : ℕ) (xs : List A) → lo' ≤ lo → Ascending lo hi xs → Ascending lo' hi xs
  Ascending-weaken lo lo' hi [] l h = omega arith
  Ascending-weaken lo lo' hi (x ∷ xs) l (h, k) = (omega arith, k)

  cut_all :
      (cut lo hi : ℕ) (xs : List A)
      → cut ≤ lo
      → Ascending lo hi xs
      → remove (λ x. leb cut (key x)) xs ≡ []
  unfolding remove
  cut_all cut lo hi [] m h = refl
  cut_all cut lo hi (x ∷ xs) m (h, k) = ground (arith, cut_all cut (suc (key x)) hi xs)

  -- A run without gaps behind rising rows.
  pub Ascending-append_GapFree :
      (lo mid hi : ℕ) (xs ys : List A)
      → Ascending lo mid xs
      → GapFree mid hi ys
      → Ascending lo hi (xs ++ ys)
  Ascending-append_GapFree lo mid hi (x ∷ xs) ys (h, k) g =
      (h, Ascending-append_GapFree (suc (key x)) mid hi xs ys k g)
  Ascending-append_GapFree lo mid hi [] [] h g = omega arith
  Ascending-append_GapFree lo mid hi [] (y ∷ ys) h (e, g) =
      (omega arith, Ascending-append_GapFree (suc (key y)) (suc mid) hi [] ys (omega arith) g)

  pub GapFree-append :
      (lo mid hi : ℕ) (xs ys : List A)
      → GapFree lo mid xs
      → GapFree mid hi ys
      → GapFree lo hi (xs ++ ys)
  GapFree-append lo mid hi [] ys e g = rw e g
  GapFree-append lo mid hi (x ∷ xs) ys (h, k) g = (h, GapFree-append (suc lo) mid hi xs ys k g)

  pub Ascending-of_GapFree : (lo hi : ℕ) (xs : List A) → GapFree lo hi xs → Ascending lo hi xs
  Ascending-of_GapFree lo hi xs g = Ascending-append_GapFree lo lo hi [] xs (omega arith) g

  -- Rising rows lie in their range.
  pub Ascending-below : (lo hi : ℕ) (xs : List A) → Ascending lo hi xs → All (λ x. key x < hi) xs
  Ascending-below lo hi [] h = tt
  Ascending-below lo hi (x ∷ xs) (h, k) =
      (Ascending-le (suc (key x)) hi xs k, Ascending-below (suc (key x)) hi xs k)

  pub Ascending-from : (lo hi : ℕ) (xs : List A) → Ascending lo hi xs → All (λ x. lo ≤ key x) xs
  Ascending-from lo hi [] h = tt
  Ascending-from lo hi (x ∷ xs) (h, k) = (
    h,
    All-map (λ y. suc (key x) ≤ key y) (λ y. lo ≤ key y) (λ y l. omega arith) xs
        (Ascending-from (suc (key x)) hi xs k),
  )

  -- Deleting rows keeps the rest rising.
  pub Ascending-remove :
      (p : A → Bool) (lo hi : ℕ) (xs : List A) → Ascending lo hi xs → Ascending lo hi (remove p xs)
  unfolding remove
  Ascending-remove p lo hi [] h = h
  Ascending-remove p lo hi (x ∷ xs) (h, k) = elim (Bool-cases (p x)) [
    | inl gone ↦ rw gone (
        Ascending-weaken (suc (key x)) lo hi (remove p xs) (omega arith)
          (Ascending-remove p (suc (key x)) hi xs k))
    | inr kept ↦ rw kept (h, Ascending-remove p (suc (key x)) hi xs k)
  ]

  -- Cutting rising rows off at a key.
  pub Ascending-cut :
      (cut lo hi : ℕ) (xs : List A)
      → lo ≤ cut
      → Ascending lo hi xs
      → Ascending lo cut (remove (λ x. leb cut (key x)) xs)
  unfolding remove
  Ascending-cut cut lo hi [] l h = l
  Ascending-cut cut lo hi (x ∷ xs) l (h, k) = elim (Bool-cases (leb cut (key x))) [
    | inl gone ↦
        rw (gone, cut_all cut (suc (key x)) hi xs (omega (arith, leb→le cut (key x) gone)) k) l
    | inr kept ↦
        rw kept
          (h, Ascending-cut cut (suc (key x)) hi xs (omega (arith, leb-false cut (key x) kept)) k)
  ]

  -- Cutting a run without gaps off at one of its keys leaves a run up to that key.
  pub GapFree-cut :
      (cut lo hi : ℕ) (xs : List A)
      → lo ≤ cut
      → cut ≤ hi
      → GapFree lo hi xs
      → GapFree lo cut (remove (λ x. leb cut (key x)) xs)
  unfolding remove
  GapFree-cut cut lo hi [] l m h = omega arith
  GapFree-cut cut lo hi (x ∷ xs) l m (h, k) = elim (Bool-cases (leb cut (key x))) [
    | inl gone ↦
        rw
          (
            gone,
            cut_all cut (suc lo) hi xs (omega (arith, leb→le cut (key x) gone))
                (Ascending-of_GapFree (suc lo) hi xs k),
          )
          (omega (arith, leb→le cut (key x) gone))
    | inr kept ↦
        rw kept (h, GapFree-cut cut (suc lo) hi xs (omega (arith, leb-false cut (key x) kept)) m k)
  ]

  -- A run without gaps has as many rows as its range has numbers.
  pub length-GapFree : (lo hi : ℕ) (xs : List A) → GapFree lo hi xs → lo + length xs ≡ hi
  length-GapFree lo hi [] h = omega arith
  length-GapFree lo hi (x ∷ xs) (h, k) = omega (arith, length-GapFree (suc lo) hi xs k)

-- A sort by a falling key.
module _ {A : Type 0} (key : A → ℕ) where
  abbrev pub later : A → A → Bool
  later x y = leb (key y) (key x)

  -- The first row has the greatest key.
  abbrev pub LedByTop : List A → Type 0
  LedByTop [] = Unit
  LedByTop (x ∷ xs) = All (λ y. key y ≤ key x) (x ∷ xs)

  All-insert_sorted :
      (P : A → Type 0) (x : A) (ys : List A) → P x → All P ys → All P (insert_sorted later x ys)
  unfolding insert_sorted
  All-insert_sorted P x [] p h = (p, tt)
  All-insert_sorted P x (y ∷ ys) p (q, h) = elim (Bool-cases (later x y)) [
    | inl first ↦ rw first (p, (q, h))
    | inr after ↦ rw after (q, All-insert_sorted P x ys p h)
  ]

  All-of_inserted :
      (P : A → Type 0) (x : A) (ys : List A) → All P (insert_sorted later x ys) → P x × All P ys
  unfolding insert_sorted
  All-of_inserted P x [] h = h
  All-of_inserted P x (y ∷ ys) h = elim (Bool-cases (later x y)) [
    | inl first ↦ rw first at h
    | inr after ↦
        let (q, rest) = rw after at h in let (p, k) = All-of_inserted P x ys rest in (p, (q, k))
  ]

  insert_sorted-LedByTop : (x : A) (ys : List A) → LedByTop ys → LedByTop (insert_sorted later x ys)
  unfolding insert_sorted
  insert_sorted-LedByTop x [] h = (omega arith, tt)
  insert_sorted-LedByTop x (y ∷ ys) (here, rest) = elim (Bool-cases (later x y)) [
    | inl first ↦
        let below = leb→le (key y) (key x) first in
        rw first (
          omega arith,
          (below, All-map (λ u. key u ≤ key y) (λ u. key u ≤ key x) (λ u h. omega arith) ys rest),
        )
    | inr after ↦ rw after (here, All-insert_sorted (λ u. key u ≤ key y) x ys (ground arith) rest)
  ]

  pub sort_by-LedByTop : (xs : List A) → LedByTop (sort_by later xs)
  unfolding sort_by
  sort_by-LedByTop [] = tt
  sort_by-LedByTop (x ∷ xs) = insert_sorted-LedByTop x (sort_by later xs) (sort_by-LedByTop xs)

  pub All-of_sorted : (P : A → Type 0) (xs : List A) → All P (sort_by later xs) → All P xs
  unfolding sort_by
  All-of_sorted P [] h = tt
  All-of_sorted P (x ∷ xs) h =
      let (p, rest) = All-of_inserted P x (sort_by later xs) h in (p, All-of_sorted P xs rest)
