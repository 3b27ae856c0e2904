-- ===== src/Calls/Repository.antt =====
-- `ReviewRepository` of packages/database/repository.py. Each method is one transaction: it returns
-- the new tables, or raises and leaves them as they were. The time and the identifiers that
-- `datetime.now` and `uuid4` supply are arguments.
use phone_law.Prelude.{
  ℕ, ◌+◌, max, String, Bool, ◌&&◌, ◌||◌, Option, none, some, List, [], ◌∷◌, ◌==◌, ltb, eqb, any,
  find, select, update_where, if◌then◌else◌,
}
use phone_law.Prelude.Outcome.{
  Result, ok, err, ◌>>=◌, or_raise, no_result, integrity_error, value_error,
}
use phone_law.Calls.State.{ProcessingState, received, analyzed, transition, start_explicit_retry}
use phone_law.Contracts.Events.{
  CallSource, same_source, IngestionEvent, IngestionResult, IngestionDisposition, Provenance,
  ProcessingFailure, accepted, duplicate_event, duplicate_call,
}
use phone_law.Calls.Tables.{Tables, CallRow, EventRow, AttemptRow}

abbrev pub has_call : String → Tables → Bool
has_call call_id t = any (λ c. c.id == call_id) t.calls

abbrev pub is_call_key : CallSource → String → CallRow → Bool
is_call_key source source_call_id c =
    same_source c.source source && c.source_call_id == source_call_id

abbrev pub is_event_key : CallSource → String → EventRow → Bool
is_event_key source source_event_id e =
    same_source e.source source && e.source_event_id == source_event_id

-- Primary key, and `uq_calls_source_call`.
unfoldable pub insert_call : CallRow → Tables → Result Tables
insert_call row t =
    if has_call row.id t || any (is_call_key row.source row.source_call_id) t.calls
    then err (integrity_error "calls")
    else ok (record t { calls = row ∷ t.calls })

-- Primary key, foreign key, and `uq_ingestion_events_source_event`.
unfoldable pub insert_event : EventRow → Tables → Result Tables
insert_event row t =
    if any (λ e. e.id == row.id || is_event_key row.source row.source_event_id e) t.events
    then err (integrity_error "ingestion_events")
    else if has_call row.call_id t
    then ok (record t { events = row ∷ t.events })
    else err (integrity_error "ingestion_events")

-- Primary key, foreign key, and `uq_attempts_call_number`.
unfoldable pub insert_attempt : AttemptRow → Tables → Result Tables
insert_attempt row t =
    if any
      (λ a. a.id == row.id || (a.call_id == row.call_id && eqb a.attempt_number row.attempt_number))
      t.attempts
    then err (integrity_error "processing_attempts")
    else if has_call row.call_id t
    then ok (record t { attempts = row ∷ t.attempts })
    else err (integrity_error "processing_attempts")

unfoldable pub event_row : String → String → IngestionDisposition → IngestionEvent → EventRow
event_row event_id call_id disposition event = record {
  id = event_id;
  call_id = call_id;
  source = event.call.source;
  source_event_id = event.call.source_event_id;
  fixture_id = event.fixture_id;
  disposition = disposition;
  duplicate_delivery_count = 0;
  event_payload = event;
  received_at = event.received_at;
}

unfoldable pub call_row : String → IngestionEvent → CallRow
call_row call_id event = record {
  id = call_id;
  fixture_id = event.fixture_id;
  source = event.call.source;
  source_call_id = event.call.source_call_id;
  state = received;
  is_synthetic = event.call.synthetic;
  occurred_at = event.call.occurred_at;
  normalized_payload = event.call;
  created_at = event.received_at;
}

abbrev pub count_duplicate : EventRow → EventRow
count_duplicate e = record e {
  duplicate_delivery_count = e.duplicate_delivery_count + 1;
  disposition = duplicate_event;
}

-- `preferred_call_id or opaque_id()`, and the truth of `existing_call_id`: an empty text is false.
abbrev pub text_or : Option String → String → String
text_or none other = other
text_or (some s) other = if s == "" then other else s

module _ (event : IngestionEvent) (event_id : String) (call_id : String) where
  unfoldable pub ingest_call : Tables → Result (IngestionResult × Tables)
  unfolding event_row call_row
  ingest_call t = do
    with_call ← insert_call (call_row call_id event) t
    with_event ← insert_event (event_row event_id call_id accepted event) with_call
    ok (record { call_id = call_id; event_id = event_id; disposition = accepted }, with_event)

  -- A known call gets one more event.
  unfoldable pub ingest_duplicate : CallRow → Tables → Result (IngestionResult × Tables)
  unfolding event_row
  ingest_duplicate c t = do
    with_event ← insert_event (event_row event_id c.id duplicate_call event) t
    ok (record { call_id = c.id; event_id = event_id; disposition = duplicate_call }, with_event)

  unfoldable pub ingest_known : Option CallRow → Tables → Result (IngestionResult × Tables)
  unfolding ingest_call ingest_duplicate
  ingest_known none t = ingest_call t
  ingest_known (some c) t = if c.id == "" then ingest_call t else ingest_duplicate c t

  -- A delivered event is only counted once more.
  unfoldable pub ingest_event : Option EventRow → Tables → Result (IngestionResult × Tables)
  unfolding ingest_known
  ingest_event (some e) t = ok (
    record { call_id = e.call_id; event_id = e.id; disposition = duplicate_event },
    record t { events = update_where (λ r. r.id == e.id) count_duplicate t.events },
  )
  ingest_event none t =
      ingest_known (find (is_call_key event.call.source event.call.source_call_id) t.calls) t

-- `opaque_id()` is called for the event first and then, with no preferred identifier, for the call.
unfoldable pub ingest :
    IngestionEvent
    → (preferred_call_id : Option String) → (event_id new_call_id : String) → Tables
    → Result (IngestionResult × Tables)
unfolding ingest_event
ingest event preferred_call_id event_id new_call_id t =
    ingest_event event event_id (text_or preferred_call_id new_call_id)
      (find (is_event_key event.call.source event.call.source_event_id) t.events) t

abbrev pub attempts_of : String → List AttemptRow → List AttemptRow
attempts_of call_id attempts = select (λ a. a.call_id == call_id) attempts

-- `int(highest or 0)` for the `max` of the selected rows.
abbrev pub highest_number : List AttemptRow → ℕ
highest_number [] = 0
highest_number (a ∷ rest) = max a.attempt_number (highest_number rest)

abbrev pub set_call_state : String → ProcessingState → List CallRow → List CallRow
set_call_state call_id state calls =
    update_where (λ c. c.id == call_id) (λ c. record c { state = state }) calls

-- The guard on the state of the call, and the calls after it.
abbrev pub open_call : ℕ → String → ProcessingState → Tables → Result Tables
open_call attempt_number call_id current t =
    if ltb 1 attempt_number
    then (do
      _ ← start_explicit_retry current
      ok (record t { calls = set_call_state call_id received t.calls }))
    else elim current [
      | received ↦ ok t
      | _ ↦ err (value_error "initial attempt requires RECEIVED state")
    ]

pub record AttemptRecord : Type 0 where
  pub attempt_id : String
  pub attempt_number : ℕ

unfoldable pub attempt_row : String → ℕ → Provenance → ℕ → AttemptRow
attempt_row call_id attempt_number provenance now = record {
  id = provenance.processing_attempt_id;
  call_id = call_id;
  attempt_number = attempt_number;
  state = received;
  failure_class = none;
  diagnostic_code = none;
  retryable = none;
  provenance_payload = provenance;
  started_at = now;
  completed_at = none;
}

unfoldable pub start_attempt :
    String → Provenance → (now : ℕ) → Tables → Result (AttemptRecord × Tables)
unfolding attempt_row
start_attempt call_id provenance now t = do
  call ← or_raise (find (λ c. c.id == call_id) t.calls) no_result
  let attempt_number = highest_number (attempts_of call_id t.attempts) + 1
  opened ← open_call attempt_number call_id call.state t
  inserted ← insert_attempt (attempt_row call_id attempt_number provenance now) opened
  ok (
    record { attempt_id = provenance.processing_attempt_id; attempt_number = attempt_number },
    inserted,
  )

-- What `advance` and `fail` write: the attempt, rewritten by `f`, and the state of the call.
abbrev pub write_state :
    String → String → ProcessingState → (AttemptRow → AttemptRow) → Tables → Tables
write_state call_id attempt_id state f t = record t {
  attempts = update_where (λ a. a.id == attempt_id) f t.attempts;
  calls = set_call_state call_id state t.calls;
}

abbrev pub complete_if_analyzed : ProcessingState → ℕ → Option ℕ → Option ℕ
complete_if_analyzed analyzed now before = some now
complete_if_analyzed _ now before = before

abbrev pub advanced : ProcessingState → ℕ → AttemptRow → AttemptRow
advanced target now a = record a {
  state = target;
  completed_at = complete_if_analyzed target now a.completed_at;
}

unfoldable pub advance : String → String → ProcessingState → (now : ℕ) → Tables → Result Tables
advance call_id attempt_id target now t = do
  attempt ← or_raise (find (λ a. a.id == attempt_id) t.attempts) no_result
  _ ← transition attempt.state target
  ok (write_state call_id attempt_id target (advanced target now) t)

abbrev pub failed : ProcessingFailure → ℕ → AttemptRow → AttemptRow
failed failure now a = record a {
  state = failure.terminal_state;
  failure_class = some failure.failure_class;
  diagnostic_code = some failure.diagnostic_code;
  retryable = some failure.retryable;
  completed_at = some now;
}

unfoldable pub fail : String → String → ProcessingFailure → (now : ℕ) → Tables → Result Tables
fail call_id attempt_id failure now t = do
  attempt ← or_raise (find (λ a. a.id == attempt_id) t.attempts) no_result
  _ ← transition attempt.state failure.terminal_state
  ok (write_state call_id attempt_id failure.terminal_state (failed failure now) t)
