-- ===== src/Uploads/Progress/Rows.antt =====
-- A row of src/uploads.rs among others, before and after a transaction.
use mathlib.Core.Path.{subst}
use threadmark.Uploads.Protocol.Traces.{Respects, Leased}
use threadmark.Uploads.Protocol.{Pairwise}
use threadmark.Db.{Upload}
use threadmark.Common.{
  ℕ, String, ◌≡◌, refl, sym, ◌∙◌, ◌⊎◌, inl, inr, Bool, true, some, List, [], ◌∷◌, arith, Bool-cases,
  find, any, update,
}

-- One of the rows.
unfoldable pub Has : (Upload → Type 0) → List Upload → Type 0
Has P [] = ⊥
Has P (x ∷ xs) = P x ⊎ Has P xs

pub Has-of_find :
    (q : Upload → Bool) (us : List Upload) {u : Upload} → find q us ≡ some u → Has (λ v. v ≡ u) us
unfolding Has find
Has-of_find q [] e = absurd (ground arith)
Has-of_find q (v ∷ us) e = elim (Bool-cases (q v)) [
  | inl hit ↦ inl (ground arith)
  | inr miss ↦ inr (Has-of_find q us (ground arith))
]

pub any-of_Has : (q : Upload → Bool) (us : List Upload) → Has (λ v. q v ≡ true) us → any q us ≡ true
unfolding Has any
any-of_Has q [] h = absurd h
any-of_Has q (v ∷ us) (inl hit) = ground arith
any-of_Has q (v ∷ us) (inr rest) = ground (arith, any-of_Has q us rest)

pub Has-map :
    (P Q : Upload → Type 0) → ((v : Upload) → P v → Q v) → (us : List Upload) → Has P us → Has Q us
unfolding Has
Has-map P Q f [] h = h
Has-map P Q f (v ∷ us) (inl here) = inl (f v here)
Has-map P Q f (v ∷ us) (inr rest) = inr (Has-map P Q f us rest)

pub Has-update :
    (p : Upload → Bool) (f : Upload → Upload) (u : Upload)
    → p u ≡ true
    → (us : List Upload) → Has (λ v. v ≡ u) us
    → Has (λ v. v ≡ f u) (update p f us)
unfolding Has update
Has-update p f u hit [] h = h
Has-update p f u hit (v ∷ us) (inl e) = inl (rw (e, hit) refl)
Has-update p f u hit (v ∷ us) (inr rest) = inr (Has-update p f u hit us rest)

-- A leased row is still there after transactions that respect the lease.
pub Has-Respects :
    (token : String) (until : ℕ) (w : Upload)
    → Leased token until w
    → (us vs : List Upload) → Pairwise (Respects token until) us vs
    → Has (λ v. v ≡ w) us
    → Has (λ v. v ≡ w) vs
unfolding Has Pairwise
Has-Respects token until w l [] [] h k = k
Has-Respects token until w l [] (v ∷ vs) h k = absurd h
Has-Respects token until w l (u ∷ us) [] h k = absurd h
Has-Respects token until w l (u ∷ us) (v ∷ vs) (r, h) (inl e) =
    inl (r (subst (Leased token until) (sym e) l) ∙ e)
Has-Respects token until w l (u ∷ us) (v ∷ vs) (r, h) (inr rest) =
    inr (Has-Respects token until w l us vs h rest)
