-- ===== src/Reporting/Inputs.antt =====
-- What `generate_report` of packages/database/review_experience.py reads of the calls of a day.
use phone_law.Prelude.{
  ℕ, ◌+◌, String, Bool, true, false, ◌&&◌, Option, none, some, List, [], ◌∷◌, ◌==◌, any, select,
  map, ltb, if◌then◌else◌, order_by, text_lt,
}
use phone_law.Prelude.Outcome.{Result, ok, ◌>>=◌, or_raise, no_result}
use phone_law.Calls.State.{
  ProcessingState, audio_invalid, transcription_failed, output_validation_failed, analysis_failed,
}
use phone_law.Contracts.Events.{IngestionDisposition, duplicate_call}
use phone_law.Contracts.Analysis.{StructuredAnalysis}
use phone_law.Calls.Tables.{Tables, CallRow, EventRow, AttemptRow}
use phone_law.Calls.Repository.{attempts_of}
use phone_law.Calls.Outputs.{accepted_analysis_payload}
use phone_law.Reporting.Contracts.{FailedCallSummary}
use phone_law.Reporting.Sections.{ReportCallInput}

abbrev pub failed_stage : ProcessingState → String
failed_stage audio_invalid = "media validation"
failed_stage transcription_failed = "transcription"
failed_stage output_validation_failed = "structured output validation"
failed_stage analysis_failed = "analysis"
failed_stage _ = "processing"

abbrev pub is_failure_state : ProcessingState → Bool
is_failure_state audio_invalid = true
is_failure_state transcription_failed = true
is_failure_state output_validation_failed = true
is_failure_state analysis_failed = true
is_failure_state _ = false

-- `min(received_at)` of the events of a call, if it has any.
abbrev pub first_received : String → List EventRow → Option ℕ
first_received call_id [] = none
first_received call_id (e ∷ rest) =
    let later = first_received call_id rest in
    if e.call_id == call_id
    then elim later [
      | none ↦ some e.received_at
      | some m ↦ if ltb e.received_at m then some e.received_at else some m
    ]
    else later

-- ORDER BY attempt_number DESC LIMIT 1
abbrev pub last_attempt : List AttemptRow → Option AttemptRow
last_attempt attempts = elim (order_by (λ a b. ltb b.attempt_number a.attempt_number) attempts) [
  | [] ↦ none
  | a ∷ _ ↦ some a
]

-- `str(…)` of a code that may be missing, `bool(…)` of a flag that may be.
abbrev code_text : Option String → String
code_text none = "None"
code_text (some code) = code

abbrev flag : Option Bool → Bool
flag none = false
flag (some b) = b

abbrev failure_of : CallRow → AttemptRow → FailedCallSummary
failure_of c a = record {
  call_id = c.id;
  synthetic_reference = c.fixture_id;
  failed_stage = failed_stage c.state;
  diagnostic_code = code_text a.diagnostic_code;
  retryable = flag a.retryable;
  terminal_state = c.state;
}

abbrev failure_without :
    CallRow → List AttemptRow → Option StructuredAnalysis → Result (Option FailedCallSummary)
failure_without c attempts (some analysis) = ok none
failure_without c attempts none =
    if is_failure_state c.state
    then (or_raise (last_attempt attempts) no_result >>= (λ a. ok (some (failure_of c a))))
    else ok none

abbrev input_of :
    CallRow → ℕ → Option StructuredAnalysis → Option FailedCallSummary → ReportCallInput
input_of c received_at analysis failure = record {
  call_id = c.id;
  synthetic_reference = c.fixture_id;
  source_call_id = c.source_call_id;
  occurred_at = c.occurred_at;
  received_at = received_at;
  state = c.state;
  analysis = analysis;
  failure = failure;
}

abbrev duplicates_of : EventRow → IngestionDisposition → ℕ
duplicates_of e duplicate_call = e.duplicate_delivery_count + 1
duplicates_of e _ = e.duplicate_delivery_count

abbrev pub duplicate_deliveries : (call_ids : List String) → List EventRow → ℕ
duplicate_deliveries call_ids [] = 0
duplicate_deliveries call_ids (e ∷ rest) =
    let others = duplicate_deliveries call_ids rest in
    if any (λ id. id == e.call_id) call_ids then duplicates_of e e.disposition + others else others

module _ (firm_date : ℕ → String) (business_date : String) (t : Tables) where
  abbrev is_of_day : CallRow → Bool
  is_of_day c = c.is_synthetic && firm_date c.occurred_at == business_date

  -- The rows of the join: a call without an event has none.
  abbrev with_received :
      CallRow → Option ℕ → Result (List ReportCallInput) → Result (List ReportCallInput)
  with_received c none rest = rest
  with_received c (some received_at) rest =
      if is_of_day c
      then (failure_without c (attempts_of c.id t.attempts) (accepted_analysis_payload c.id t)
          >>= (λ failure. rest >>= (λ inputs.
              ok (input_of c received_at (accepted_analysis_payload c.id t) failure ∷ inputs))))
      else rest

  unfoldable pub report_calls : List CallRow → Result (List ReportCallInput)
  unfolding accepted_analysis_payload
  report_calls [] = ok []
  report_calls (c ∷ calls) = with_received c (first_received c.id t.events) (report_calls calls)

  -- `expected_source_call_ids`
  unfoldable pub expected_source_call_ids : List String
  expected_source_call_ids =
      order_by text_lt (map (λ c. c.source_call_id) (select is_of_day t.calls))
