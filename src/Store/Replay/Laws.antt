-- ===== src/Store/Replay/Laws.antt =====
-- What `agent_replay` of src/store.rs shows an agent.
use threadmark.Error.{
  bad_request, reject_if-ok, ok_or-eq-ok, not_found, ok_or, >>=-eq-ok, err, ok-injective, ok,
}
use threadmark.Store.Replay.Agent.{
  is_up_to, is_start_of, unsupported, is_text_message, AgentReplayResult, build_agent_projection,
  is_snapshot_complete, strip_item, agent_replay, Limits, validate_agent_text_item, payloads_up_to,
  project_rows,
}
use threadmark.Db.{TurnStart, TurnStartItem, Db}
use threadmark.Store.References.{contains_threadmark_uri}
use mathlib.Core.Path.{subst}
use threadmark.Store.Conversations.{transcript, owned_as}
use threadmark.Model.{Conversation, Actor, Item}
use threadmark.Model.Json.{Value}
use threadmark.Common.{
  ℕ, ◌+◌, String, ◌≡◌, refl, sym, ap, ◌∙◌, inl, inr, Bool, true, false, ◌&&◌, ◌||◌, not, Option,
  List, [], ◌∷◌, map, arith, ◌==◌, ltb, leb, eqb, if◌then◌else◌, some_eq, Bool-cases, length, All,
  filter, find, any, all, remove, find_sound,
}
use threadmark.Ledger.{IsLedger, FitsIn}
use threadmark.Ledger.Frame.{eq_of_owned}
use threadmark.Common.Order.{Ascending, Ascending-remove, order_by, order_by_of_Ascending}

-- The rows of a conversation up to a position.
transcript_up_to :
    (id : String) (n : ℕ) (rows : List Item)
    → filter (λ i. i.conversation_id == id && leb i.seq n) rows
      ≡ remove (λ i. ltb n i.seq) (filter (λ i. i.conversation_id == id) rows)
unfolding filter remove
transcript_up_to id n [] = refl
transcript_up_to id n (i ∷ rows) =
    let e = transcript_up_to id n rows in
    elim (Bool-cases (i.conversation_id == id)) [
      | inr other ↦ rw other e
      | inl own ↦ elim (Bool-cases (leb i.seq n)) [
        | inl here ↦
            let kept : ltb n i.seq ≡ false = ground arith in
            rw (own, here, kept) (ap (λ r. i ∷ r) e)
        | inr past ↦ let gone : ltb n i.seq ≡ true = ground arith in rw (own, past, gone) e
      ]
    ]

-- The transcript of a conversation that is there rises.
transcript_rises :
    (actor : Actor) (id : String) (db : Db) (cs : List Conversation)
    → any (owned_as actor id) cs ≡ true
    → All (FitsIn db) cs
    → (n : ℕ) × Ascending (λ (i : Item). i.seq) 1 n (transcript db id)
unfolding any
transcript_rises actor id db [] h fits = absurd (ground arith)
transcript_rises actor id db (c ∷ cs) h (f, fits) = elim (Bool-cases (owned_as actor id c)) [
  | inl own ↦
      let same : c.id ≡ id = eq_of_owned actor id c own in
      (
        c.next_seq,
        subst (λ x. Ascending (λ (i : Item). i.seq) 1 c.next_seq (transcript db x)) same f.rising,
      )
  | inr other ↦ transcript_rises actor id db cs (rw other at h) fits
]

payloads_in_order :
    (actor : Actor) (id : String) (n : ℕ) (db : Db)
    → any (owned_as actor id) db.conversations ≡ true
    → IsLedger db
    → payloads_up_to id n db
      ≡ map (λ (i : Item). i.payload) (remove (λ i. ltb n i.seq) (transcript db id))
unfolding payloads_up_to
payloads_in_order actor id n db owned l =
    let key = λ (i : Item). i.seq in
    let (next, rises) = transcript_rises actor id db db.conversations owned l.fits in
    let kept = remove (λ (i : Item). ltb n i.seq) (transcript db id) in
    ap (λ rows. map (λ (i : Item). i.payload) (order_by key rows))
      (transcript_up_to id n db.conversation_items)
    ∙ ap (map (λ (i : Item). i.payload)) (
        order_by_of_Ascending key 1 next kept
          (Ascending-remove key (λ i. ltb n i.seq) 1 next (transcript db id) rises))

project_rows-ok :
    (strip : List String) (rows : List Value) {input : List Value}
    → project_rows strip rows ≡ ok input
    → (input ≡ map (strip_item strip) rows) × All (λ v. contains_threadmark_uri v ≡ false) rows
unfolding project_rows validate_agent_text_item
project_rows-ok strip [] h = (sym (ok-injective h), tt)
project_rows-ok strip (v ∷ vs) h =
    let (u, e₁, k₁) = >>=-eq-ok (validate_agent_text_item v) _ h in
    let (rest, e₂, k₂) = >>=-eq-ok (project_rows strip vs) _ k₁ in
    let (same, hidden) = project_rows-ok strip vs e₂ in
    (sym (ok-injective k₂) ∙ ap (λ t. strip_item strip v ∷ t) same, (names_no_file v e₁, hidden))
  where
    names_no_file :
        (v : Value) {u : Unit {0}}
        → (if contains_threadmark_uri v || not (is_text_message v) then err unsupported else ok tt)
          ≡ ok u
        → contains_threadmark_uri v ≡ false
    names_no_file v h = elim (Bool-cases (contains_threadmark_uri v)) [
      | inl named ↦ absurd (let k = rw named at h in ground arith)
      | inr plain ↦ plain
    ]

All-of_all : {A : Type 0} (p : A → Bool) (xs : List A) → all p xs ≡ true → All (λ x. p x ≡ true) xs
unfolding all
All-of_all p [] h = tt
All-of_all p (x ∷ xs) h = (ground arith, All-of_all p xs (ground arith))

-- The record of a turn's start, and the record's items that an agent's turn was started with.
abbrev pub recorded : String → Db → List TurnStartItem
recorded turn_id db =
    filter (λ k. any (λ s. s.id == k.turn_start_id && s.turn_id == turn_id) db.turn_starts)
      db.turn_start_items

module _ (to_vec_len : List Value → Option ℕ) (limits : Limits) (actor : Actor)
    (id turn_id agent_ref : String) (db : Db) where
  pub agent_replay-ok :
      {r : AgentReplayResult}
      → IsLedger db
      → agent_replay to_vec_len limits actor id turn_id agent_ref db ≡ ok r
      → (start : TurnStart) × ((start.turn_id == turn_id) ≡ true)
        × ((start.conversation_id == id) ≡ true)
        × (any
              (λ t. t.id == turn_id && t.conversation_id == id && t.agent_ref == agent_ref)
              db.turns
            ≡ true)
        × (any (owned_as actor id) db.conversations ≡ true)
        × (any (λ i. i.conversation_id == id && eqb i.seq start.last_seq) db.conversation_items
            ≡ true)
        × (length (recorded turn_id db) + start.first_seq ≡ start.last_seq + 1)
        × All
            (λ k.
              any
                (λ i.
                  i.id == k.item_id
                  && i.conversation_id == id
                  && eqb i.seq k.seq
                  && some_eq i.turn_id turn_id)
                db.conversation_items
              ≡ true)
            (recorded turn_id db)
        × (r.input
            ≡ map (strip_item limits.strip_top_level_fields) (
                map
                  (λ (i : Item). i.payload)
                  (remove (λ i. ltb start.last_seq i.seq) (transcript db id))))
        × All
            (λ v. contains_threadmark_uri v ≡ false)
            (map
              (λ (i : Item). i.payload)
              (remove (λ i. ltb start.last_seq i.seq) (transcript db id)))
  unfolding agent_replay is_snapshot_complete build_agent_projection
  agent_replay-ok {r} l h =
      let (start, e₁, k₁) =
        >>=-eq-ok
          (ok_or (find (is_start_of actor id turn_id agent_ref db) db.turn_starts)
            (not_found "Agent replay not found."))
          _ h in
      let found =
        ok_or-eq-ok (find (is_start_of actor id turn_id agent_ref db) db.turn_starts) _ e₁ in
      let hit = find_sound (is_start_of actor id turn_id agent_ref db) db.turn_starts found in
      let (complete, k₂) =
        reject_if-ok (not (is_snapshot_complete id turn_id start.first_seq start.last_seq db)) _ _
          k₁ in
      let (few, k₃) =
        reject_if-ok
          (ltb limits.max_items
            (length (filter (is_up_to id start.last_seq) db.conversation_items)))
          _ _ k₂ in
      let (input, e₄, k₄) =
        >>=-eq-ok
          (build_agent_projection to_vec_len (payloads_up_to id start.last_seq db)
            limits.strip_top_level_fields limits.max_items limits.max_bytes)
          _ k₃ in
      let (_, p₁) =
        reject_if-ok (ltb limits.max_items (length (payloads_up_to id start.last_seq db))) _ _ e₄ in
      let (input', p₂, p₃) =
        >>=-eq-ok (project_rows limits.strip_top_level_fields (payloads_up_to id start.last_seq db))
          _ p₁ in
      let (bytes, p₄, p₅) =
        >>=-eq-ok (ok_or (to_vec_len input') (bad_request "could not serialize replay")) _ p₃ in
      let (_, p₆) = reject_if-ok (ltb limits.max_bytes bytes) _ _ p₅ in
      let owned : any (owned_as actor id) db.conversations ≡ true = ground arith in
      let shown = payloads_in_order actor id start.last_seq db owned l in
      let (same, hidden) = project_rows-ok limits.strip_top_level_fields _ p₂ in
      (
        start,
        ground arith,
        ground arith,
        ground arith,
        owned,
        ground arith,
        ground arith,
        All-of_all _ (recorded turn_id db) (ground arith),
        sym (ap (λ q. q.input) (ok-injective k₄))
            ∙ sym (ok-injective p₆)
            ∙ same
            ∙ ap (map (strip_item limits.strip_top_level_fields)) shown,
        subst (All (λ v. contains_threadmark_uri v ≡ false)) shown hidden,
      )
