-- ===== src/Uploads/Initiate/Tests.antt =====
-- Requests for a session that are decided.
use threadmark.Common.Text.{all_chars, is_control, take_chars, filter_chars, any_chars, trim}
use threadmark.Ids.{new_id}
use threadmark.Uploads.Initiate.{
  new_id, normalized_mime_type, normalized_filename, bounded_trimmed, response_for_upload,
  find_upload, ok, rounds, new_upload, normalize, pos, InitiateRequest, InitiateResponse, NewUpload,
  Outside, check_available, initiate,
}
use threadmark.Uploads.Names.{normalized_mime_type, normalized_filename, bounded_trimmed}
use threadmark.Uploads.Initiate.Retry.{initiate-initiate}
use threadmark.Db.{insert_upload, empty_db, Db, Upload}
use threadmark.Uploads.Initiate.Laws.{initiate-ends, Keeps}
use threadmark.Error.{ok}
use threadmark.Uploads.Samples.{ann, objects, config}
use threadmark.Common.Int.{pos}
use threadmark.Objects.{answer}
use threadmark.Common.{ℕ, String, ◌≡◌, refl, true, false, none, some, [], ◌∷◌, is_some, find, any}

abbrev out : Outside String
out = record {
  hash_request = λ filename mime_type size. "h";
  component = λ s. s;
  presigned_post = λ u expires_at. answer "form";
  max_time = 100000;
}

abbrev request : InitiateRequest
request = record {
  idempotency_key = "k";
  filename = "a.txt";
  mime_type = "text/plain";
  size = pos 3;
}

abbrev fresh : NewUpload
fresh = record { upload_ulid = "1"; object_ulid = "2"; file_ulid = "3" }

abbrev alone : ℕ → Db → Db
alone k db = db

abbrev opened : Upload
opened =
    new_upload out config ann "cli"
      (record { key = "k"; filename = "a.txt"; mime_type = "text/plain"; size = pos 3 }) fresh 700

abbrev answered : InitiateResponse String
answered = record {
  id = "upload_1";
  status = "pending";
  expires_at = 700;
  upload = some "form";
  file = none;
  retry_after_seconds = none;
}

first :
    initiate out config objects (λ k. false) 2 alone ann "cli" request fresh 100 empty_db
    ≡ some (ok (true, answered), record empty_db { file_uploads = opened ∷ [] })
unfolding initiate check_available normalize rounds find_upload insert_upload response_for_upload
    bounded_trimmed normalized_filename normalized_mime_type trim any_chars filter_chars take_chars
    is_control find any new_id all_chars
first = refl

keeps : Keeps alone
keeps k actor client_id key db h = h

initiate-ends_example :
    is_some (initiate out config objects (λ k. false) 2 alone ann "cli" request fresh 100 empty_db)
    ≡ true
initiate-ends_example =
    initiate-ends out config objects (λ k. false) alone ann "cli" request fresh 100 empty_db keeps

available : check_available out config objects true ≡ ok tt
unfolding check_available
available = refl

initiate-initiate_example :
    (u : Upload) × (u.id ≡ "upload_1")
    × (initiate out config objects
          (λ k. true)
          1
          alone
          ann
          "cli"
          request
          fresh
          200
          (record empty_db { file_uploads = opened ∷ [] })
        ≡ some (
          response_for_upload out config u false 200
              (record empty_db { file_uploads = opened ∷ [] }),
          record empty_db { file_uploads = opened ∷ [] },
        ))
initiate-initiate_example =
    initiate-initiate out config objects (λ k. false) (λ k. true) 2 0 alone alone ann "cli" request
      fresh fresh 100 200 empty_db first available
