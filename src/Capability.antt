-- ===== src/Capability.antt =====
-- src/capability.rs: signed addresses of files.
use threadmark.Model.{Actor}
use threadmark.Capability.Decimal.{decimal}
use threadmark.Config.{Config}
use Prim.Native.String
use Prim.Native.String.{char_at}
use Prim.Native.Char.{nul}
pub mod Decimal
pub mod Laws
mod Tests
use threadmark.Common.{
  ℕ, zero, suc, ◌+◌, ◌-◌, ◌*◌, ◌/◌, ◌%◌, ◌^◌, ◌≤◌, ◌<◌, min, String, ◌≡◌, refl, sym, ap, ◌∙◌, ◌≢◌,
  ◌↔◌, ◌⊎◌, inl, inr, Bool, true, false, ◌&&◌, ◌||◌, not, Option, none, some, List, [], ◌∷◌, ◌++◌,
  map, append-nil, append_assoc, arith, ◌==◌, eq_iff, eq_refl, ltb, leb, eqb, if◌then◌else◌,
  some_eq, is_some, unwrap_or, ltb→lt, leb→le, leb-false, Bool-cases, Option-cases, eq-of-some_eq,
  length, length-append, take, length-take_le, All, All-append, All-append_left, All-of_forall,
  All-map, filter, find, any, all, remove, update, or_else, filter-append, find-append, any-append,
  filter_none, filter-All, All-not_of_any, any-of_All, find_sound, any-of_find, find-none, All-find,
  All-filter, All-remove, All-passed, any-update, find-update_ne, find-update, All-update, any_mono,
  filter-remove_spared, filter-remove, remove_congr, remove_none, All-removed, All-both,
  some-eq-some, filter_none_under, find-filter, length-remove_le, length-remove_lt,
}

pub data DownloadDelivery : Type 0 where
  redirect proxy : DownloadDelivery

-- `DownloadDelivery::as_str`
unfoldable pub delivery_str : DownloadDelivery → String
delivery_str redirect = "redirect"
delivery_str proxy = "proxy"

-- HMAC-SHA256 with a key, URL-safe Base64, and the URL library.
pub record Signing : Type 0 where
  pub mac : (key message : String) → String
  pub encode : String → String
  pub decode : String → Option String
  -- the seconds that `DateTime::from_timestamp` takes
  pub is_representable : ℕ → Bool
  pub url_of : (base path : String) → (query : List (String × String)) → String

-- `{}\0{}`
abbrev pub with_nul : String → String → String
with_nul s t = String.◌++◌ s (String.◌∷◌ nul t)

unfoldable pub message : Actor → (file_id : String) → DownloadDelivery → (expires : ℕ) → String
unfolding decimal delivery_str
message actor file_id delivery expires = with_nul "threadmark.file.v2" (
    with_nul actor.tenant_id (
      with_nul actor.principal_id
        (with_nul file_id (with_nul (delivery_str delivery) (decimal expires)))))

pub record DownloadGrant : Type 0 where
  pub url : String
  pub delivery : String
  pub expires_at : ℕ

module _ (signing : Signing) (config : Config) where
  unfoldable pub signature : Actor → (file_id : String) → DownloadDelivery → (expires : ℕ) → String
  signature actor file_id delivery expires =
      signing.encode (signing.mac config.secret (message actor file_id delivery expires))

  -- The sum of two `u64` wraps round.
  abbrev pub expiry : (now : ℕ) → ℕ
  expiry now = (now + config.capability_ttl_seconds) % 2 ^ 64

  abbrev pub grant : Actor → (file_id : String) → DownloadDelivery → (now : ℕ) → DownloadGrant
  grant actor file_id delivery now = record {
    url = signing.url_of config.public_url (String.◌++◌ "/v1/downloads/files/" file_id) (
        ("tenant", actor.tenant_id)
        ∷ ("owner", actor.principal_id)
        ∷ ("delivery", delivery_str delivery)
        ∷ ("expires", decimal (expiry now))
        ∷ ("signature", signature actor file_id delivery (expiry now))
        ∷ []);
    delivery = delivery_str delivery;
    expires_at = expiry now;
  }

  -- `none` is the panic of `expect`.
  unfoldable pub file_url :
      Actor → (file_id : String) → DownloadDelivery → (now : ℕ) → Option DownloadGrant
  unfolding signature delivery_str decimal
  file_url actor file_id delivery now =
      if signing.is_representable (expiry now)
      then some (grant actor file_id delivery now)
      else none

  abbrev pub matches : Option String → String → Bool
  matches none expected = false
  matches (some candidate) expected = candidate == expected

  unfoldable pub verify_file :
      Actor
      → (file_id : String) → DownloadDelivery
      → (expires : ℕ) (candidate : String) (now : ℕ) → Bool
  verify_file actor file_id delivery expires candidate now =
      if ltb expires now
      then false
      else matches (signing.decode candidate)
          (signing.mac config.secret (message actor file_id delivery expires))
