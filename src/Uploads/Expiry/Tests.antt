-- ===== src/Uploads/Expiry/Tests.antt =====
-- A cleanup that is decided.
use threadmark.Capability.Laws.{nuls-append, nuls}
use threadmark.Uploads.Expiry.{
  expire_sessions-queued, is_queued, expire_sessions, AreDistinct, is_used,
}
use threadmark.Uploads.Samples.{upload, one_upload}
use threadmark.Uploads.Session.{expire_sessions, is_expired}
use threadmark.Ids.{new_id}
use Prim.Native.String
use Prim.Native.Char.{nul}
use threadmark.Common.{
  ℕ, zero, suc, String, ◌≡◌, refl, sym, ap, ◌∙◌, inl, inr, true, false, some, [], ◌∷◌, arith, ◌==◌,
  eq_iff, Bool-cases, All, filter, any,
}

-- Identifiers that are different.
unfoldable ulid : ℕ → String
ulid zero = String.[]
ulid (suc n) = String.◌∷◌ nul (ulid n)

nuls-ulid : (n : ℕ) → nuls (ulid n) ≡ n
unfolding nuls ulid
nuls-ulid zero = refl
nuls-ulid (suc n) = let e = nuls-ulid n in ground arith

nuls-new_id : (n : ℕ) → nuls (new_id "object_delete" (ulid n)) ≡ n
unfolding new_id nuls
nuls-new_id n =
    let e = nuls-append "object_delete" (String.◌++◌ "_" (ulid n)) in
    let e' = nuls-append "_" (ulid n) in let k = nuls-ulid n in ground arith

distinct : AreDistinct ulid
distinct i j below =
    elim (Bool-cases (new_id "object_delete" (ulid i) == new_id "object_delete" (ulid j))) [
      | inr other ↦ other
      | inl same ↦ absurd (
          let e = sym (nuls-new_id i) ∙ ap nuls ((eq_iff _ _).0 same) ∙ nuls-new_id j in
          omega arith)
    ]

new_ids : (j : ℕ) → is_used (ulid j) one_upload ≡ false
unfolding any
new_ids j = refl

expire_sessions-queued_example :
    (any (is_expired 1000) (expire_sessions ulid 1000 one_upload).file_uploads ≡ false)
    × All
        (λ u.
          (is_queued u.staging_key (expire_sessions ulid 1000 one_upload) ≡ true)
          × ((key : String)
              → u.candidate_key ≡ some key
              → is_queued key (expire_sessions ulid 1000 one_upload) ≡ true))
        (filter (is_expired 1000) one_upload.file_uploads)
expire_sessions-queued_example = expire_sessions-queued ulid 1000 one_upload distinct new_ids

-- There is one to expire.
one_expires : filter (is_expired 1000) one_upload.file_uploads ≡ upload ∷ []
unfolding filter
one_expires = refl
