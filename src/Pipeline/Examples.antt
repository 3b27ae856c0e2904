-- ===== src/Pipeline/Examples.antt =====
-- A fixture whose first transcription fails, run through the pipeline by evaluation.
use phone_law.Prelude.{
  zero, suc, ◌≡◌, refl, true, false, Option, none, some, is_some, [], ◌∷◌, arith,
}
use phone_law.Prelude.Outcome.{Result, ok}
use phone_law.Calls.State.{
  analyzed, transcription_failed, transition, start_explicit_retry, is_terminal,
}
use phone_law.Contracts.Events.{
  NormalizedCall, IngestionEvent, ProcessingFailure, fixture, inbound, accepted,
  transcriber_unavailable,
}
use phone_law.Contracts.Analysis.{
  Speaker, ValueState, AnalysisCategory, Priority, Confidence, ResponsibleRole,
}
use phone_law.Contracts.Validators.{
  start_precedes_end, segment_is_ordered, require_unique_segments, timestamps_match_availability,
  state_matches_value, verified_identity_requires_metadata,
}
use phone_law.Calls.Tables.{Tables}
use phone_law.Calls.Repository.{
  ingest, insert_call, insert_event, insert_attempt, start_attempt, advance, fail,
}
use phone_law.Calls.Outputs.{store_transcript, store_analysis, call_summary}
use phone_law.Calls.Sequences.{Reachable, no_tables}
use phone_law.Evidence.{
  validate_analysis, validate_evidence, validate_finding, evidence_from_facts, findings_of,
  segment_of, contains,
}
use phone_law.Pipeline.Fixtures.{evidence, transcribe, extract_facts, apply_playbook}
use phone_law.Pipeline.Scripts.{Fixture, ScriptedText, entry}
use phone_law.Pipeline.Attempts.{
  RunSources, FixtureOutcome, analyze, after_transcription, attempt_once, run_attempts, outcome_of,
  is_accepted_event, process, retry,
}
use phone_law.Pipeline.Runs.{process-is_terminal}
use phone_law.Pipeline.Backing.{process-Adds}
use phone_law.Pipeline.Outputs.{Adds}
use phone_law.Pipeline.Termination.{process-ends}

abbrev sample_call : NormalizedCall
sample_call = record {
  source = fixture;
  source_event_id = "event-1";
  source_call_id = "source-1";
  recording_id = none;
  occurred_at = 1000;
  direction = inbound;
  duration_seconds = 90;
  staff_extension = none;
  language_hint = none;
  media_reference = none;
  transcript_fixture_reference = some "CL-FX-002";
  caller_identity_verified = false;
  synthetic = true;
}

abbrev sample_event : IngestionEvent
sample_event = record { fixture_id = "CL-FX-002"; received_at = 2000; call = sample_call }

abbrev outage : ProcessingFailure
outage = record {
  failure_class = transcriber_unavailable;
  terminal_state = transcription_failed;
  diagnostic_code = "transcriber_unavailable";
  retryable = true;
}

abbrev no_text : ScriptedText
no_text = record { state = ValueState.not_mentioned; value = none; evidence = [] }

abbrev sample_fixture : Fixture
sample_fixture = record {
  fixture_id = "CL-FX-002";
  transcriber_failures = record { attempt_number = 1; failure = outage } ∷ [];
  language = "en";
  segments =
      record {
        segment_id = "s1";
        speaker = Speaker.outside_caller;
        start_seconds = some 5;
        end_seconds = some 20;
        text = "my hearing is on monday";
      }
      ∷ [];
  analysis_failure = false;
  expected_facts = record {
    caller_request = record {
      state = ValueState.present;
      value = some "a date";
      evidence = "s1" ∷ [];
    };
    reported_facts = [];
    people_or_organizations = [];
    dates = [];
    staff_commitments = [];
    requested_follow_up = no_text;
    unresolved_questions = [];
    caller_identity_state = ValueState.unknown;
    caller_identity_label = none;
  };
  expected_analysis = record {
    category = AnalysisCategory.routine_no_action;
    priority = Priority.low;
    summary = "The caller has a hearing.";
    proposed_next_steps = [];
    responsible_role = ResponsibleRole.case_team;
    suggested_response_timing = none;
    attorney_attention_issues = [];
    dissatisfaction_indicators = [];
    omitted_information_findings = [];
    confidence = Confidence.high;
    findings = [];
  };
}

abbrev sample_sources : RunSources
sample_sources = record {
  fixtures = record { digest = λ s. s; is_iso_date = λ s. true; manifest = sample_fixture ∷ [] };
  attempt_id = λ n. elim n [ zero ↦ "attempt-1" | suc m ↦ "attempt-2" ];
  started_at = λ n. 3000;
  ended_at = λ n. 4000;
}

-- The second attempt succeeds.
process_sample :
    (process sample_sources sample_event 2 "row-1" "call-1" no_tables).0
    ≡ some (
        ok (record {
          fixture_id = "CL-FX-002";
          call_id = "call-1";
          disposition = accepted;
          terminal_state = analyzed;
          attempt_count = 2;
          transcript_count = 1;
          analysis_count = 1;
        }))
unfolding process run_attempts outcome_of call_summary ingest insert_call insert_event
    insert_attempt start_attempt advance fail transition start_explicit_retry attempt_once
    after_transcription analyze transcribe entry segment_is_ordered require_unique_segments
    timestamps_match_availability extract_facts apply_playbook evidence start_precedes_end
    state_matches_value verified_identity_requires_metadata validate_analysis validate_evidence
    validate_finding evidence_from_facts findings_of segment_of contains store_transcript
    store_analysis
process_sample = refl

abbrev outcome_or : Option (Result FixtureOutcome) × Tables → FixtureOutcome
outcome_or (some (ok o), t) = o
outcome_or (_, t) = record {
  fixture_id = "";
  call_id = "";
  disposition = accepted;
  terminal_state = transcription_failed;
  attempt_count = 0;
  transcript_count = 0;
  analysis_count = 0;
}

process-is_terminal_example :
    Reachable (process sample_sources sample_event 2 "row-1" "call-1" no_tables).1
    × ((outcome : FixtureOutcome)
        → (process sample_sources sample_event 2 "row-1" "call-1" no_tables).0 ≡ some (ok outcome)
        → is_accepted_event outcome.disposition ≡ true
        → is_terminal outcome.terminal_state ≡ true)
process-is_terminal_example =
    process-is_terminal sample_sources sample_event 2 "row-1" "call-1" no_tables Reachable.empty

process-ends_example :
    (is_some (process sample_sources sample_event 2 "row-1" "call-1" no_tables).0 ≡ true)
    × (is_some (retry sample_sources sample_event "call-1" 2 no_tables).0 ≡ true)
process-ends_example =
    process-ends sample_sources sample_event 2 "row-1" "call-1" "call-1" no_tables (omega arith)

process-Adds_example :
    Adds sample_event no_tables (process sample_sources sample_event 2 "row-1" "call-1" no_tables).1
process-Adds_example = process-Adds sample_sources sample_event 2 "row-1" "call-1" no_tables
