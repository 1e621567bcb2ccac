-- ===== src/Error/Tests.antt =====
-- The responses at two errors.
use threadmark.Error.Laws.{into_response-challenge}
use threadmark.Error.{unauthorized, not_found, into_response}
use threadmark.Common.{◌≤◌, ◌<◌, ◌≡◌, ◌↔◌, some}

into_response-challenge_example :
    (((into_response (not_found "gone")).www_authenticate ≡ some "Bearer")
      ↔ (not_found "gone" ≡ unauthorized))
    × (400 ≤ (into_response (not_found "gone")).status)
    × ((into_response (not_found "gone")).status < 600)
into_response-challenge_example = into_response-challenge (not_found "gone")
