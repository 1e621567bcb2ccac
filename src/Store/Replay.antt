-- ===== src/Store/Replay.antt =====
-- src/store.rs: the transcript as an owner or an agent reads it back.
pub mod Agent
pub mod Laws
mod Tests
use threadmark.Error.{bad_request, reject_if, ◌>>◌, ◌>>=◌, ok, ApiResult}
use threadmark.Common.Int.{ltb_int, min_int, leb_int, pos, max_zero, ℤ}
use threadmark.Model.{Item, Actor}
use threadmark.Db.{Db}
use threadmark.Model.Json.{is_object, object, Value, remove_key}
use threadmark.Common.Order.{order_by}
use threadmark.Store.Conversations.{get_conversation}
use threadmark.Common.{
  ℕ, zero, suc, ◌+◌, ◌-◌, ◌*◌, ◌/◌, ◌%◌, ◌^◌, ◌≤◌, ◌<◌, min, String, ◌≡◌, refl, sym, ap, ◌∙◌, ◌≢◌,
  ◌↔◌, ◌⊎◌, inl, inr, Bool, true, false, ◌&&◌, ◌||◌, not, Option, none, some, List, [], ◌∷◌, ◌++◌,
  map, append-nil, append_assoc, arith, ◌==◌, eq_iff, eq_refl, ltb, leb, eqb, if◌then◌else◌,
  some_eq, is_some, unwrap_or, ltb→lt, leb→le, leb-false, Bool-cases, Option-cases, eq-of-some_eq,
  length, length-append, take, length-take_le, All, All-append, All-append_left, All-of_forall,
  All-map, filter, find, any, all, remove, update, or_else, filter-append, find-append, any-append,
  filter_none, filter-All, All-not_of_any, any-of_All, find_sound, any-of_find, find-none, All-find,
  All-filter, All-remove, All-passed, any-update, find-update_ne, find-update, All-update, any_mono,
  filter-remove_spared, filter-remove, remove_congr, remove_none, All-removed, All-both,
  some-eq-some, filter_none_under, find-filter, length-remove_le, length-remove_lt,
}

pub data FileDelivery : Type 0 where
  preserve capability_url presigned_url inline : FileDelivery

pub record ReplayResult : Type 0 where
  pub conversation_id : String
  pub through_seq : ℤ
  pub input : List Value

pub record ReplayRequest : Type 0 where
  pub after_seq : ℤ
  pub through_seq : Option ℤ
  pub strip_top_level_ids : Bool
  pub file_delivery : FileDelivery

abbrev strip_id : Bool → Value → Value
strip_id true (object fs) = object (remove_key "id" fs)
strip_id _ v = v

-- A payload that is no object is left out.
unfoldable pub project_replay_items : List Value → Bool → List Value
unfolding remove_key
project_replay_items [] strip = []
project_replay_items (v ∷ vs) strip =
    let rest = project_replay_items vs strip in
    if is_object v then strip_id strip v ∷ rest else rest

-- The payloads at the positions after `after_seq` up to `through_seq`, in their order.
unfoldable pub payloads_between : String → (after_seq through_seq : ℤ) → Db → List Value
unfolding order_by max_zero
payloads_between id after_seq through_seq db =
    map (λ (i : Item). i.payload)
      (order_by (λ i. i.seq)
        (filter
          (λ i.
            i.conversation_id == id
            && ltb (max_zero after_seq) i.seq
            && leb_int (pos i.seq) through_seq)
          db.conversation_items))

abbrev hydrate_each : (Value → ApiResult Value) → List Value → ApiResult (List Value)
hydrate_each hydrate [] = ok []
hydrate_each hydrate (v ∷ vs) = do w ← hydrate v; ws ← hydrate_each hydrate vs; ok (w ∷ ws)

-- `hydrate_file_references`, which reads objects and signs addresses, is the argument `hydrate`.
abbrev pub deliver :
    (hydrate : FileDelivery → Value → ApiResult Value)
    → FileDelivery
    → List Value
    → ApiResult (List Value)
deliver hydrate preserve input = ok input
deliver hydrate capability_url input = hydrate_each (hydrate capability_url) input
deliver hydrate presigned_url input = hydrate_each (hydrate presigned_url) input
deliver hydrate inline input = hydrate_each (hydrate inline) input

unfoldable pub replay :
    (hydrate : FileDelivery → Value → ApiResult Value)
    → Actor
    → String
    → ReplayRequest
    → Db
    → ApiResult ReplayResult
unfolding project_replay_items payloads_between get_conversation max_zero
replay hydrate actor id request db = do
  conversation ← get_conversation actor id db
  let maximum = pos (conversation.next_seq - 1)
  let through_seq = min_int (unwrap_or request.through_seq maximum) maximum
  reject_if (ltb_int through_seq (pos (max_zero request.after_seq)))
      (bad_request "through_seq must not be less than after_seq")
  let input =
      project_replay_items (payloads_between id request.after_seq through_seq db)
        request.strip_top_level_ids
  delivered ← deliver hydrate request.file_delivery input
  ok (record { conversation_id = id; through_seq = through_seq; input = delivered })
