-- ===== src/Common/Updates.antt =====
-- UPDATE and DELETE against the other row operations.
use Prim.Native.Nat.{◌≤◌, ◌<◌}
use mathlib.Core.Path.{◌≡◌, refl}
use mathlib.Core.Bool.{Bool, true, false}
use mathlib.Core.Logic.{inl, inr}
use mathlib.Core.Option.{some}
use mathlib.Core.List.{List, [], ◌∷◌}
use native.Mathlib.Omega.{arith}
use threadmark.Common.Tests.{Bool-cases, is_some}
use threadmark.Common.Lists.{All, length}
use threadmark.Common.Rows.{filter, find, any, remove, update}

module _ {ℓ} {A : Type ℓ} (p : A → Bool) (f : A → A) where
  -- A test that the change leaves alone sees the same rows.
  pub any-update :
      (q : A → Bool) → ((x : A) → q (f x) ≡ q x) → (xs : List A) → any q (update p f xs) ≡ any q xs
  unfolding any update
  any-update q same [] = refl
  any-update q same (x ∷ xs) = ground (arith, same x, any-update q same xs)

  pub find-update_ne :
      (q : A → Bool)
      → ((x : A) → q (f x) ≡ q x)
      → (xs : List A) → is_some (find q (update p f xs)) ≡ is_some (find q xs)
  unfolding find update
  find-update_ne q same [] = refl
  find-update_ne q same (x ∷ xs) = ground (arith, same x, find-update_ne q same xs)

  -- The row that a test of the changed rows finds.
  pub find-update :
      (q : A → Bool)
      → ((x : A) → q (f x) ≡ q x)
      → ((x : A) → q x ≡ true → p x ≡ true)
      → (xs : List A) {x : A} → find q xs ≡ some x
      → find q (update p f xs) ≡ some (f x)
  unfolding find update
  find-update q same hit [] {x} e = absurd (ground arith)
  find-update q same hit (y ∷ ys) {x} e =
      ground (arith, same y, hit y, find-update q same hit ys {x = x})

  pub All-update {κ μ} :
      (P : A → Type κ) (Q : A → Type μ)
      → ((x : A) → p x ≡ true → P x → Q (f x))
      → ((x : A) → p x ≡ false → P x → Q x)
      → (xs : List A) → All P xs
      → All Q (update p f xs)
  unfolding update
  All-update P Q here there [] h = tt
  All-update P Q here there (x ∷ xs) (q, h) = elim (Bool-cases (p x)) [
    | inl hit ↦ rw hit (here x hit q, All-update P Q here there xs h)
    | inr miss ↦ rw miss (there x miss q, All-update P Q here there xs h)
  ]

module _ {ℓ} {A : Type ℓ} where
  pub any_mono :
      (p q : A → Bool)
      → ((x : A) → p x ≡ true → q x ≡ true)
      → (xs : List A) → any p xs ≡ true
      → any q xs ≡ true
  unfolding any
  any_mono p q h [] e = e
  any_mono p q h (x ∷ xs) e = ground (arith, h x, any_mono p q h xs)

  -- A filter that wants what a deletion spares sees the same rows.
  pub filter-remove_spared :
      (p q : A → Bool)
      → ((x : A) → q x ≡ true → p x ≡ false)
      → (xs : List A) → filter q (remove p xs) ≡ filter q xs
  unfolding filter remove
  filter-remove_spared p q h [] = refl
  filter-remove_spared p q h (x ∷ xs) = ground (arith, h x, filter-remove_spared p q h xs)

  pub filter-remove :
      (p q : A → Bool) (xs : List A) → filter q (remove p xs) ≡ remove p (filter q xs)
  unfolding filter remove
  filter-remove p q [] = refl
  filter-remove p q (x ∷ xs) = ground (arith, filter-remove p q xs)

  -- A deletion that agrees with another on the rows at hand is that deletion.
  pub remove_congr :
      (p q : A → Bool) (xs : List A) → All (λ x. p x ≡ q x) xs → remove p xs ≡ remove q xs
  unfolding remove
  remove_congr p q [] h = refl
  remove_congr p q (x ∷ xs) (e, h) = ground (arith, remove_congr p q xs h)

  pub remove_none : (p : A → Bool) (xs : List A) → All (λ x. p x ≡ false) xs → remove p xs ≡ xs
  unfolding remove
  remove_none p [] h = refl
  remove_none p (x ∷ xs) (e, h) = ground (arith, remove_none p xs h)

  pub All-removed : (p : A → Bool) (xs : List A) → All (λ x. p x ≡ false) (remove p xs)
  unfolding remove
  All-removed p [] = tt
  All-removed p (x ∷ xs) = elim (Bool-cases (p x)) [
    | inl gone ↦ rw gone (All-removed p xs)
    | inr kept ↦ rw kept (kept, All-removed p xs)
  ]

  pub All-both {κ μ} :
      (P : A → Type κ) (Q : A → Type μ) (xs : List A)
      → All P xs
      → All Q xs
      → All (λ x. P x × Q x) xs
  All-both P Q [] h k = tt
  All-both P Q (x ∷ xs) (p, h) (q, k) = ((p, q), All-both P Q xs h k)

  -- Where the rows that pass `p` fail the narrower test `q`, none passes `q`.
  pub filter_none_under :
      (p q : A → Bool)
      → ((x : A) → q x ≡ true → p x ≡ true)
      → (xs : List A) → All (λ x. q x ≡ false) (filter p xs)
      → filter q xs ≡ []
  unfolding filter
  filter_none_under p q wider [] h = refl
  filter_none_under p q wider (x ∷ xs) h = elim (Bool-cases (p x)) [
    | inl hit ↦
        let both : All (λ x. q x ≡ false) (x ∷ filter p xs) = rw hit at h in
        rw both.0 (filter_none_under p q wider xs both.1)
    | inr miss ↦
        let rest : All (λ x. q x ≡ false) (filter p xs) = rw miss at h in
        let no_hit : q x ≡ false = ground (arith, wider x) in
        rw no_hit (filter_none_under p q wider xs rest)
  ]

  -- A row that is found among all rows is found among those that pass a wider test.
  pub find-filter :
      (p q : A → Bool)
      → ((x : A) → q x ≡ true → p x ≡ true)
      → (xs : List A) → find q (filter p xs) ≡ find q xs
  unfolding find filter
  find-filter p q wider [] = refl
  find-filter p q wider (x ∷ xs) = ground (arith, wider x, find-filter p q wider xs)

  pub length-remove_le : (p : A → Bool) (xs : List A) → length (remove p xs) ≤ length xs
  unfolding remove
  length-remove_le p [] = omega arith
  length-remove_le p (x ∷ xs) = ground (arith, length-remove_le p xs)

  -- A deletion that hits a row makes the list shorter.
  pub length-remove_lt :
      (p : A → Bool) (xs : List A) → any p xs ≡ true → length (remove p xs) < length xs
  unfolding remove any
  length-remove_lt p [] h = absurd (ground arith)
  length-remove_lt p (x ∷ xs) h = ground (arith, length-remove_lt p xs, length-remove_le p xs)
