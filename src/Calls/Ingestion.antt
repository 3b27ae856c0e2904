-- ===== src/Calls/Ingestion.antt =====
-- What `ingest` does with a delivery: it makes at most one call, and a second delivery of an event
-- finds the call of the first.
use mathlib.Core.Bool.{false≢true}
use phone_law.Prelude.{
  ◌∙◌, String, ◌≡◌, refl, sym, subst, inl, inr, true, false, ◌||◌, Option, none, some, List, [],
  ◌∷◌, ◌==◌, eq_iff, eq_refl, arith, any, find, update_where, length, length-update_where,
  find-update_where, All, All-map, Bool-cases, if◌then◌else◌,
}
use phone_law.Prelude.Outcome.{ok, >>=-ok}
use phone_law.Contracts.Events.{
  CallSource, same_source, IngestionEvent, IngestionResult, IngestionDisposition, accepted,
  duplicate_event, duplicate_call,
}
use phone_law.Calls.Tables.{Tables, CallRow, AttemptRow, EventRow}
use phone_law.Calls.Repository.{
  attempts_of, has_call, insert_call, insert_event, event_row, call_row, ingest, ingest_call,
  ingest_known, ingest_duplicate, ingest_event, text_or, is_call_key, is_event_key, count_duplicate,
}
use phone_law.Calls.Timeline.{IsConsistent}

insert_call-ok :
    (row : CallRow) (t t' : Tables)
    → insert_call row t ≡ ok t'
    → (has_call row.id t ≡ false)
      × (any (is_call_key row.source row.source_call_id) t.calls ≡ false)
      × (t' ≡ record t { calls = row ∷ t.calls })
unfolding insert_call
insert_call-ok row t t' h = ground arith

insert_event-ok :
    (row : EventRow) (t t' : Tables)
    → insert_event row t ≡ ok t'
    → t' ≡ record t { events = row ∷ t.events }
unfolding insert_event
insert_event-ok row t t' h = ground arith

-- What a successful delivery changes.
pub data Delivered (event : IngestionEvent) (t : Tables) (r : IngestionResult) (t' : Tables)
    : Type 0 where
  again :
      (e : EventRow)
      → find (is_event_key event.call.source event.call.source_event_id) t.events ≡ some e
      → r ≡ record { call_id = e.call_id; event_id = e.id; disposition = duplicate_event }
      → t' ≡ record t { events = update_where (λ x. x.id == e.id) count_duplicate t.events }
      → Delivered event t r t'
  known :
      (c : CallRow) (event_id : String)
      → find (is_call_key event.call.source event.call.source_call_id) t.calls ≡ some c
      → r ≡ record { call_id = c.id; event_id = event_id; disposition = duplicate_call }
      → t' ≡ record t { events = event_row event_id c.id duplicate_call event ∷ t.events }
      → Delivered event t r t'
  new :
      (call_id event_id : String)
      → has_call call_id t ≡ false
      → any (is_call_key event.call.source event.call.source_call_id) t.calls ≡ false
      → r ≡ record { call_id = call_id; event_id = event_id; disposition = accepted }
      → t' ≡ record t {
        calls = call_row call_id event ∷ t.calls;
        events = event_row event_id call_id accepted event ∷ t.events;
      }
      → Delivered event t r t'

module _ (event : IngestionEvent) (event_id call_id : String) (t : Tables) (r : IngestionResult)
    (t' : Tables) where
  ingest_call-Delivered : ingest_call event event_id call_id t ≡ ok (r, t') → Delivered event t r t'
  unfolding ingest_call call_row
  ingest_call-Delivered h =
      let (t₁, first, rest) = >>=-ok (insert_call (call_row call_id event) t) _ h in
      let (t₂, second, last) =
        >>=-ok (insert_event (event_row event_id call_id accepted event) t₁) _ rest in
      let (fresh, unknown, e₁) = insert_call-ok (call_row call_id event) t t₁ first in
      let e₂ = insert_event-ok (event_row event_id call_id accepted event) t₁ t₂ second in
      new call_id event_id fresh unknown (cc) (cc (e₁, e₂))

  ingest_known-Delivered :
      (found : Option CallRow)
      → find (is_call_key event.call.source event.call.source_call_id) t.calls ≡ found
      → ingest_known event event_id call_id found t ≡ ok (r, t')
      → Delivered event t r t'
  unfolding ingest_known
  ingest_known-Delivered none e h = ingest_call-Delivered h
  ingest_known-Delivered (some c) e h = elim (Bool-cases (c.id == "")) [
    | inl empty ↦ ingest_call-Delivered (rw empty at h)
    | inr named ↦
        let h' : ingest_duplicate event event_id call_id c t ≡ ok (r, t') = rw named at h in
        let (t₁, first, last) =
          >>=-ok (insert_event (event_row event_id c.id duplicate_call event) t) _ h' in
        let e₁ = insert_event-ok (event_row event_id c.id duplicate_call event) t t₁ first in
        known c event_id e (cc) (cc e₁)
  ]

  ingest_event-Delivered :
      (found : Option EventRow)
      → find (is_event_key event.call.source event.call.source_event_id) t.events ≡ found
      → ingest_event event event_id call_id found t ≡ ok (r, t')
      → Delivered event t r t'
  unfolding ingest_event
  ingest_event-Delivered (some x) e h = again x e (cc) (cc)
  ingest_event-Delivered none e h = ingest_known-Delivered _ refl h

pub ingest-Delivered :
    (event : IngestionEvent) (preferred : Option String) (event_id new_call_id : String)
    (t : Tables) (r : IngestionResult) (t' : Tables)
    → ingest event preferred event_id new_call_id t ≡ ok (r, t')
    → Delivered event t r t'
unfolding ingest
ingest-Delivered event preferred event_id new_call_id t r t' h =
    ingest_event-Delivered event event_id (text_or preferred new_call_id) t r t' _ refl h

-- The attempts of a call that is not there.
attempts_of-absent :
    (k : String) (t : Tables) (attempts : List AttemptRow)
    → has_call k t ≡ false
    → All (λ a. has_call a.call_id t ≡ true) attempts
    → attempts_of k attempts ≡ []
attempts_of-absent k t [] absent h = refl
attempts_of-absent k t (a ∷ rest) absent h = elim (Bool-cases (a.call_id == k)) [
  | inl e ↦
      absurd
        (false≢true (sym absent ∙ subst (λ j. has_call j t ≡ true) ((eq_iff a.call_id k).0 e) h.0))
  | inr e ↦ rw e (attempts_of-absent k t rest absent h.1)
]

-- `ingest` keeps consistent tables consistent.
pub ingest-IsConsistent :
    (event : IngestionEvent) (preferred : Option String) (event_id new_call_id : String)
    (t : Tables) (r : IngestionResult) (t' : Tables)
    → IsConsistent t
    → ingest event preferred event_id new_call_id t ≡ ok (r, t')
    → IsConsistent t'
unfolding call_row
ingest-IsConsistent event preferred event_id new_call_id t r t' h e =
    kept (ingest-Delivered event preferred event_id new_call_id t r t' e)
  where
    kept : Delivered event t r t' → IsConsistent t'
    kept (again x _ _ same) =
        rw same (record {
          unique = h.unique;
          timeline = h.timeline;
          current = h.current;
          owned = h.owned;
        })
    kept (known c _ _ _ same) =
        rw same (record {
          unique = h.unique;
          timeline = h.timeline;
          current = h.current;
          owned = h.owned;
        })
    kept (new call_id _ fresh _ _ same) = rw same (record {
      unique = h.unique;
      timeline = h.timeline;
      current = (rw (attempts_of-absent call_id t t.attempts fresh h.owned), h.current);
      owned =
          All-map (λ a. has_call a.call_id t ≡ true)
            (λ a. (call_id == a.call_id || has_call a.call_id t) ≡ true) (λ a there. ground arith)
            t.attempts h.owned;
    })

same_source_self : (s : CallSource) → same_source s s ≡ true
same_source_self s = ground arith

event_row-key :
    (event_id call_id : String) (d : IngestionDisposition) (event : IngestionEvent)
    → is_event_key event.call.source event.call.source_event_id (event_row event_id call_id d event)
      ≡ true
unfolding event_row
event_row-key event_id call_id d event =
    rw (same_source_self event.call.source) (eq_refl event.call.source_event_id)

-- After a delivery, the event is on record for the call that the delivery reported.
module _ (event : IngestionEvent) (t : Tables) (r : IngestionResult) (t' : Tables) where
  Delivered-recorded :
      Delivered event t r t'
      → (e : EventRow) × (find (is_event_key event.call.source event.call.source_event_id) t'.events
          ≡ some e)
        × (e.id ≡ r.event_id)
        × (e.call_id ≡ r.call_id)
  unfolding event_row
  Delivered-recorded (again e found reported same) = (
    (if e.id == e.id then count_duplicate e else e),
    rw same (find-update_where _ _ count_duplicate (λ x. refl) t.events found),
    rw (reported, eq_refl e.id),
    rw (reported, eq_refl e.id),
  )
  Delivered-recorded (known c event_id _ reported same) = (
    event_row event_id c.id duplicate_call event,
    rw (same, same_source_self event.call.source, eq_refl event.call.source_event_id),
    rw reported,
    rw reported,
  )
  Delivered-recorded (new call_id event_id _ _ reported same) = (
    event_row event_id call_id accepted event,
    rw (same, same_source_self event.call.source, eq_refl event.call.source_event_id),
    rw reported,
    rw reported,
  )

-- Once an event has been delivered, delivering it again succeeds, whatever identifiers are proposed:
-- it reports the same call and the same event as a duplicate, and the calls, the attempts and the
-- number of events stay as they are.
pub ingest-again :
    (event : IngestionEvent) (preferred : Option String) (event_id new_call_id : String)
    (t : Tables) (r : IngestionResult) (t' : Tables) (preferred' : Option String)
    (event_id' new_call_id' : String)
    → ingest event preferred event_id new_call_id t ≡ ok (r, t')
    → (t'' : Tables) × (ingest event preferred' event_id' new_call_id' t'
        ≡ ok (record r { disposition = duplicate_event }, t''))
      × (t''.calls ≡ t'.calls)
      × (t''.attempts ≡ t'.attempts)
      × (length t''.events ≡ length t'.events)
unfolding ingest ingest_event
ingest-again event preferred event_id new_call_id t r t' preferred' event_id' new_call_id' h =
    let (e, found, same_event, same_call) =
      Delivered-recorded event t r t'
        (ingest-Delivered event preferred event_id new_call_id t r t' h) in
    (
      record t' { events = update_where (λ x. x.id == e.id) count_duplicate t'.events },
      rw found (cc (same_event, same_call)),
      refl,
      refl,
      length-update_where (λ x. x.id == e.id) count_duplicate t'.events,
    )
