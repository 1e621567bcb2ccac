-- ===== src/Uploads/Protocol/Tests.antt =====
-- Transactions on a session, in an order that is decided.
use threadmark.Ids.{new_id}
use threadmark.Uploads.Session.{
  enqueue_keys, expire_sessions, restore_pending, claim_completion, leased,
}
use threadmark.Uploads.Outbox.{enqueue_at, enqueue_all_versions}
use threadmark.Uploads.Protocol.Laws.{perform-Move}
use threadmark.Uploads.Protocol.Traces.{perform_all-Frozen, perform_all-Leased, Frozen, Respects}
use threadmark.Uploads.Protocol.{
  expire_sessions, gives_back, abandons, restore_pending, Move, claim_completion, claims, leased,
  Action, Pairwise, perform_all, perform,
}
use threadmark.Uploads.Samples.{one_upload, upload}
use threadmark.Db.{Upload}
use threadmark.Common.{ℕ, ◌≡◌, refl, List, [], ◌∷◌, arith, filter, find, any, update}

abbrev claim : Action
claim = claims "upload_1" "lease_1" "copy_1" "d1"

-- The first is claimed; another client claims, a cleanup runs, and a wrong token is shown.
abbrev others : List (Action × ℕ)
others =
    (claims "upload_1" "lease_2" "copy_2" "d2", 110)
    ∷ (abandons (λ n. "d3"), 120)
    ∷ (gives_back "upload_1" "lease_2", 130)
    ∷ []

abbrev leased_row : Upload
leased_row = leased "lease_1" "copy_1" 100 upload

claimed_rows : (perform claim 100 one_upload).file_uploads ≡ leased_row ∷ []
unfolding perform claim_completion find any update
claimed_rows = refl

kept_rows : (perform_all others (perform claim 100 one_upload)).file_uploads ≡ leased_row ∷ []
unfolding perform_all perform claim_completion restore_pending expire_sessions find any update
    filter enqueue_keys
kept_rows = refl

-- When the lease has ended, the session is claimed anew.
claimed_anew :
    (perform_all
      ((claims "upload_1" "lease_2" "copy_2" "d2", 220) ∷ [])
      (perform claim 100 one_upload)).file_uploads
    ≡ leased "lease_2" "copy_2" 220 upload ∷ []
unfolding perform_all perform claim_completion find any update enqueue_all_versions enqueue_at
    new_id
claimed_anew = refl

perform-Move_example :
    Pairwise (Move 100) one_upload.file_uploads (perform claim 100 one_upload).file_uploads
perform-Move_example = perform-Move claim 100 one_upload

perform_all-Frozen_example :
    Pairwise Frozen one_upload.file_uploads
      (perform_all ((claim, 100) ∷ others) one_upload).file_uploads
perform_all-Frozen_example = perform_all-Frozen ((claim, 100) ∷ others) one_upload

perform_all-Leased_example :
    Pairwise
      (Respects "lease_1" 220)
      (perform claim 100 one_upload).file_uploads
      (perform_all others (perform claim 100 one_upload)).file_uploads
perform_all-Leased_example =
    perform_all-Leased "lease_1" 220 others (perform claim 100 one_upload)
      ((omega arith, refl), ((omega arith, refl), ((omega arith, refl), tt)))
