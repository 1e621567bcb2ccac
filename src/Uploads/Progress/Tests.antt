-- ===== src/Uploads/Progress/Tests.antt =====
-- An attempt that is decided.
use threadmark.Uploads.Progress.{
  complete-progress, perform_all-Spares, Spares, shows, leased, completed, Has, before, file_of, ok,
  claim_completion, Arrived,
}
use threadmark.Uploads.Protocol.Traces.{shows}
use threadmark.Uploads.Complete.{lease_token, candidate_key, complete, Attempt}
use threadmark.Uploads.Session.{leased, completed, file_of, claim_completion}
use threadmark.Uploads.Samples.{staged_head, config, one_upload, upload, ann, objects}
use threadmark.Error.{ok}
use threadmark.Ids.{new_id}
use threadmark.Uploads.Protocol.{claims, perform, Action, perform_all}
use threadmark.Db.{Db}
use threadmark.Model.{FileRecord}
use threadmark.Uploads.Outbox.{owned_upload}
use threadmark.Common.{
  ℕ, zero, suc, String, ◌≡◌, refl, true, false, List, [], ◌∷◌, ◌++◌, arith, ◌==◌, find, any, update,
}

abbrev try_once : Attempt
try_once = record {
  lease_ulid = "1";
  attempt_ulid = "a";
  object_ulid = "o";
  outbox_ulid = λ n. "d";
  seen = 100;
  claimed = 100;
  inspected = 105;
  published = 110;
}

abbrev other_file : FileRecord
other_file = record {
  id = "file_9";
  tenant_id = "acme";
  owner_ref = "bob";
  filename = "b";
  mime_type = "text/plain";
  size = 1;
  storage_key = "k9";
  created_at = 104;
}

abbrev plain : String → String
plain s = s

-- Another client tries to claim the session in the meantime.
abbrev others : List (Action × ℕ)
others = (claims "upload_1" "lease_2" "copy_2" "d2", 105) ∷ []

-- Others leave the session alone until it is claimed; then that client tries, and adds a file of its own.
abbrev interference : ℕ → Db → Db
interference zero db = db
interference (suc n) db = perform_all others (record db { files = db.files ++ other_file ∷ [] })

arrived : Arrived objects 10 upload (candidate_key plain upload try_once) false true
unfolding new_id
arrived = record {
  head = staged_head;
  version = "v1";
  copy = staged_head;
  staged = refl;
  versioned = refl;
  real = (refl, refl);
  sound = refl;
  copied = refl;
  stored = refl;
  intact = refl;
}

no_file :
    any
      (λ f. f.id == "file_1")
      (before objects plain config ann "upload_1" try_once one_upload false true upload
        interference).files
    ≡ false
unfolding perform_all perform claim_completion find any update new_id
no_file = refl

no_key :
    any
      (λ f. f.storage_key == candidate_key plain upload try_once)
      (before objects plain config ann "upload_1" try_once one_upload false true upload
        interference).files
    ≡ false
unfolding perform_all perform claim_completion find any update new_id
no_key = refl

owned : owned_upload ann "upload_1" one_upload ≡ ok upload
unfolding owned_upload find
owned = refl

complete-progress_example :
    (db' : Db) × (complete objects plain config interference ann "upload_1" try_once one_upload
        false
      ≡ ((ok (true, file_of upload (candidate_key plain upload try_once) 110), db'), true))
    × Has
        (λ v.
          v
          ≡ completed 110
              (leased (lease_token try_once) (candidate_key plain upload try_once) 100 upload))
        db'.file_uploads
complete-progress_example =
    complete-progress objects plain config ann "upload_1" try_once one_upload false true upload
      interference owned refl (omega arith, omega arith, omega arith) (omega arith) arrived
      (λ d h. h) kept no_file no_key
  where
    other_token : shows (claims "upload_1" "lease_2" "copy_2" "d2") (lease_token try_once) ≡ false
    other_token = refl

    kept :
        Spares
          (leased (lease_token try_once) (candidate_key plain upload try_once) 100 upload)
          (interference 1)
    kept d h =
        perform_all-Spares others (lease_token try_once) 220
          (leased (lease_token try_once) (candidate_key plain upload try_once) 100 upload)
          (record { finalizing = refl; holder = refl; end = refl }) ((omega arith, other_token), tt)
          (record d { files = d.files ++ other_file ∷ [] }) h
