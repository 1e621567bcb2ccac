-- ===== src/Error/Laws.antt =====
-- src/error.rs: what a response tells its client.
use threadmark.Error.{
  ApiError, into_response, unauthorized, forbidden, bad_request, not_found, conflict,
  payload_too_large, coded_bad_request, coded_conflict, coded_gone, coded_unavailable,
  coded_payload_too_large, object_store, database,
}
use threadmark.Common.{◌≤◌, ◌<◌, ◌≡◌, refl, ◌↔◌, some, arith}

-- A response challenges its client to authenticate exactly where the error is that of a request without
-- valid authentication; its status is always one of an error.
pub into_response-challenge :
    (e : ApiError)
    → (((into_response e).www_authenticate ≡ some "Bearer") ↔ (e ≡ unauthorized))
      × (400 ≤ (into_response e).status)
      × ((into_response e).status < 600)
unfolding into_response
into_response-challenge unauthorized = ((λ h. refl, λ h. refl), omega arith, omega arith)
into_response-challenge forbidden =
    ((λ h. absurd (ground arith), λ h. absurd (ground arith)), omega arith, omega arith)
into_response-challenge (bad_request m) =
    ((λ h. absurd (ground arith), λ h. absurd (ground arith)), omega arith, omega arith)
into_response-challenge (not_found m) =
    ((λ h. absurd (ground arith), λ h. absurd (ground arith)), omega arith, omega arith)
into_response-challenge (conflict m) =
    ((λ h. absurd (ground arith), λ h. absurd (ground arith)), omega arith, omega arith)
into_response-challenge (payload_too_large m) =
    ((λ h. absurd (ground arith), λ h. absurd (ground arith)), omega arith, omega arith)
into_response-challenge (coded_bad_request c m) =
    ((λ h. absurd (ground arith), λ h. absurd (ground arith)), omega arith, omega arith)
into_response-challenge (coded_conflict c m) =
    ((λ h. absurd (ground arith), λ h. absurd (ground arith)), omega arith, omega arith)
into_response-challenge (coded_gone c m) =
    ((λ h. absurd (ground arith), λ h. absurd (ground arith)), omega arith, omega arith)
into_response-challenge (coded_unavailable c m) =
    ((λ h. absurd (ground arith), λ h. absurd (ground arith)), omega arith, omega arith)
into_response-challenge (coded_payload_too_large c m) =
    ((λ h. absurd (ground arith), λ h. absurd (ground arith)), omega arith, omega arith)
into_response-challenge (object_store m) =
    ((λ h. absurd (ground arith), λ h. absurd (ground arith)), omega arith, omega arith)
into_response-challenge (database m) =
    ((λ h. absurd (ground arith), λ h. absurd (ground arith)), omega arith, omega arith)
