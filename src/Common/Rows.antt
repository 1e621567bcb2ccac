-- ===== src/Common/Rows.antt =====
-- A table is a list of rows in the order of their insertion. What the SQL statements of the program
-- do with one: SELECT (`filter`, `find`), EXISTS (`any`), UPDATE (`update`), DELETE (`remove`).
use mathlib.Core.Path.{◌≡◌, refl}
use mathlib.Core.Bool.{Bool, true, false, ◌&&◌, ◌||◌}
use mathlib.Core.Logic.{inl, inr}
use mathlib.Core.Option.{Option, none, some}
use mathlib.Core.List.{List, [], ◌∷◌, ◌++◌}
use native.Mathlib.Omega.{arith}
use threadmark.Common.Tests.{if◌then◌else◌, Bool-cases}
use threadmark.Common.Lists.{All}

module _ {ℓ} {A : Type ℓ} (p : A → Bool) where
  unfoldable pub filter : List A → List A
  filter [] = []
  filter (x ∷ xs) = let rest = filter xs in if p x then x ∷ rest else rest

  unfoldable pub find : List A → Option A
  find [] = none
  find (x ∷ xs) = let rest = find xs in if p x then some x else rest

  unfoldable pub any : List A → Bool
  any [] = false
  any (x ∷ xs) = p x || any xs

  unfoldable pub all : List A → Bool
  all [] = true
  all (x ∷ xs) = p x && all xs

-- DELETE FROM … WHERE p
unfoldable pub remove {ℓ} : {A : Type ℓ} → (A → Bool) → List A → List A
remove p [] = []
remove p (x ∷ xs) = let rest = remove p xs in if p x then rest else x ∷ rest

-- UPDATE … SET f WHERE p
unfoldable pub update {ℓ} : {A : Type ℓ} → (A → Bool) → (A → A) → List A → List A
update p f [] = []
update p f (x ∷ xs) = (if p x then f x else x) ∷ update p f xs

abbrev pub or_else {ℓ} : {A : Type ℓ} → Option A → Option A → Option A
or_else none o = o
or_else (some a) o = some a

module _ {ℓ} {A : Type ℓ} (p : A → Bool) where
  pub filter-append : (xs ys : List A) → filter p (xs ++ ys) ≡ filter p xs ++ filter p ys
  unfolding filter
  filter-append [] ys = refl
  filter-append (x ∷ xs) ys = ground (arith, filter-append xs ys)

  pub find-append : (xs ys : List A) → find p (xs ++ ys) ≡ or_else (find p xs) (find p ys)
  unfolding find
  find-append [] ys = refl
  find-append (x ∷ xs) ys = ground (arith, find-append xs ys)

  pub any-append : (xs ys : List A) → any p (xs ++ ys) ≡ (any p xs || any p ys)
  unfolding any
  any-append [] ys = refl
  any-append (x ∷ xs) ys = ground (arith, any-append xs ys)

  pub filter_none : (xs : List A) → All (λ x. p x ≡ false) xs → filter p xs ≡ []
  unfolding filter
  filter_none [] h = refl
  filter_none (x ∷ xs) (e, h) = ground (arith, filter_none xs h)

  pub filter-All : (xs : List A) → All (λ x. p x ≡ true) xs → filter p xs ≡ xs
  unfolding filter
  filter-All [] h = refl
  filter-All (x ∷ xs) (e, h) = ground (arith, filter-All xs h)

  pub All-not_of_any : (xs : List A) → any p xs ≡ false → All (λ x. p x ≡ false) xs
  unfolding any
  All-not_of_any [] h = tt
  All-not_of_any (x ∷ xs) h = (ground arith, All-not_of_any xs (ground arith))

  pub any-of_All : (xs : List A) → All (λ x. p x ≡ false) xs → any p xs ≡ false
  unfolding any
  any-of_All [] h = refl
  any-of_All (x ∷ xs) (e, h) = ground (arith, any-of_All xs h)

  -- A row that is found passes the test.
  pub find_sound : (xs : List A) {x : A} → find p xs ≡ some x → p x ≡ true
  unfolding find
  find_sound [] h = ground arith
  find_sound (y ∷ xs) {x} h = ground (arith, find_sound xs {x = x})

  pub any-of_find : (xs : List A) {x : A} → find p xs ≡ some x → any p xs ≡ true
  unfolding find any
  any-of_find [] h = ground arith
  any-of_find (y ∷ xs) {x} h = ground (arith, any-of_find xs {x = x})

  pub find-none : (xs : List A) → find p xs ≡ none → any p xs ≡ false
  unfolding find any
  find-none [] h = refl
  find-none (x ∷ xs) h = ground (arith, find-none xs)

  -- A fact about every row holds of the row that is found.
  pub All-find {κ} : (P : A → Type κ) (xs : List A) {x : A} → All P xs → find p xs ≡ some x → P x
  unfolding find
  All-find P [] h e = absurd (ground arith)
  All-find P (y ∷ xs) {x} (q, h) e = elim (Bool-cases (p y)) [
    | inl hit ↦ let same : y ≡ x = ground arith in rw same at q
    | inr miss ↦ All-find P xs h (ground arith)
  ]

  pub All-filter {κ} : (P : A → Type κ) (xs : List A) → All P xs → All P (filter p xs)
  unfolding filter
  All-filter P [] h = tt
  All-filter P (x ∷ xs) (q, h) = elim (Bool-cases (p x)) [
    | inl hit ↦ rw hit (q, All-filter P xs h)
    | inr miss ↦ rw miss (All-filter P xs h)
  ]

  pub All-remove {κ} : (P : A → Type κ) (xs : List A) → All P xs → All P (remove p xs)
  unfolding remove
  All-remove P [] h = tt
  All-remove P (x ∷ xs) (q, h) = elim (Bool-cases (p x)) [
    | inl hit ↦ rw hit (All-remove P xs h)
    | inr miss ↦ rw miss (q, All-remove P xs h)
  ]

  pub All-passed : (xs : List A) → All (λ x. p x ≡ true) (filter p xs)
  unfolding filter
  All-passed [] = tt
  All-passed (x ∷ xs) = elim (Bool-cases (p x)) [
    | inl hit ↦ rw hit (hit, All-passed xs)
    | inr miss ↦ rw miss (All-passed xs)
  ]
