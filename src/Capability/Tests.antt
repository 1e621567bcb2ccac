-- ===== src/Capability/Tests.antt =====
-- Signed addresses that are decided.
use threadmark.Capability.{
  DownloadGrant, grant, file_url, delivery_str, redirect, proxy, Signing, message, verify_file,
  signature,
}
use threadmark.Capability.Laws.{message-injective, verify_file-file_url, nuls}
use threadmark.Capability.Decimal.{decimal}
use Prim.Native.String
use threadmark.Config.{Config}
use threadmark.Model.{Actor}
use threadmark.Common.{
  ℕ, ◌+◌, ◌^◌, String, ◌≡◌, refl, true, false, none, some, [], ◌∷◌, arith, ltb, leb,
}

-- A code that only repeats, and Base64 as the identity.
abbrev plain : Signing
plain = record {
  mac = λ key text. text;
  encode = λ s. s;
  decode = λ s. some s;
  is_representable = λ seconds. ltb seconds (2 ^ 43);
  url_of = λ base path query. path;
}

abbrev config : Config
config = record {
  public_url = "https://t";
  secret = "k";
  capability_ttl_seconds = 60;
  file_max_bytes = 10;
  s3_public_url = none;
  direct_upload_enabled = true;
  file_upload_url_ttl_seconds = 60;
  file_upload_session_ttl_seconds = 600;
}

abbrev alice : Actor
alice = record { tenant_id = "t"; principal_id = "alice" }

abbrev text_file : String
text_file = "f1"

clean : nuls alice.tenant_id + nuls alice.principal_id + nuls "f1" ≡ 0
unfolding nuls
clean = refl

message-injective_example :
    (alice ≡ alice) × (text_file ≡ text_file) × (redirect ≡ redirect) × (◌≡◌ {A = ℕ} 160 160)
message-injective_example =
    message-injective alice alice text_file text_file redirect redirect 160 160 clean (omega arith)
      (omega arith) refl

abbrev signed : DownloadGrant
signed = grant plain config alice "f1" proxy 100

was_granted : file_url plain config alice "f1" proxy 100 ≡ some signed
unfolding file_url
was_granted = refl

verify_file-file_url_example :
    (signed.expires_at ≡ 160)
    × ((sig : String) × (signed.url
          ≡ plain.url_of "https://t" (String.◌++◌ "/v1/downloads/files/" "f1") (
              ("tenant", "t")
              ∷ ("owner", "alice")
              ∷ ("delivery", delivery_str proxy)
              ∷ ("expires", decimal 160)
              ∷ ("signature", sig)
              ∷ []))
        × (verify_file plain config alice "f1" proxy 160 sig 150 ≡ leb 150 160))
verify_file-file_url_example =
    verify_file-file_url plain config alice "f1" proxy 100 (λ s. refl) 150 (omega arith) was_granted

accepts :
    verify_file plain config alice "f1" proxy 160 (signature plain config alice "f1" proxy 160) 160
    ≡ true
unfolding verify_file signature message
accepts = refl

rejects_late :
    verify_file plain config alice "f1" proxy 160 (signature plain config alice "f1" proxy 160) 161
    ≡ false
unfolding verify_file signature message
rejects_late = refl

-- The other delivery, and another owner, need another signature.
rejects_other :
    verify_file plain config alice "f1" redirect 160
      (signature plain config alice "f1" proxy 160)
      100
    ≡ false
unfolding verify_file signature message
rejects_other = refl
