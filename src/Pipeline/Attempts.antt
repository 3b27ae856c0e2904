-- ===== src/Pipeline/Attempts.antt =====
-- `FixturePipeline` of packages/review/pipeline.py. Each method of the repository is a transaction of
-- its own, so what was written stays when a later one raises. The identifier and the times of the
-- n-th attempt of a run are given. A run has fuel for its attempts and ends with `none` without it.
use phone_law.Prelude.{
  ℕ, zero, suc, ◌+◌, String, Bool, true, false, Option, none, some, ◌==◌, if◌then◌else◌,
}
use phone_law.Prelude.Outcome.{
  Result, Exception, Checked, ok, err, ◌>>=◌, ◌andthen◌, value_error, review_validation,
  invalid_transition,
}
use phone_law.Calls.State.{
  ProcessingState, validated, queued, media_ready, transcribing, transcribed, extracting_facts,
  applying_playbook, analyzed, audio_invalid, transcription_failed, output_validation_failed,
  analysis_failed,
}
use phone_law.Contracts.Events.{
  IngestionEvent, IngestionResult, IngestionDisposition, Provenance, ProcessingFailure, accepted,
  invalid_structured_output,
}
use phone_law.Contracts.Analysis.{Transcript, StructuredAnalysis, ExtractedFacts}
use phone_law.Calls.Tables.{Tables}
use phone_law.Calls.Repository.{ingest, start_attempt, advance, fail}
use phone_law.Calls.Outputs.{store_transcript, store_analysis, call_summary, CallSummary}
use phone_law.Evidence.{validate_analysis}
use phone_law.Pipeline.Fixtures.{
  Transcription, transcribe, extract_facts, apply_playbook, returned, adapter_error, raised,
}
use phone_law.Pipeline.Scripts.{FixtureSources}

pub record FixtureOutcome : Type 0 where
  pub fixture_id : String
  pub call_id : String
  pub disposition : IngestionDisposition
  pub terminal_state : ProcessingState
  pub attempt_count : ℕ
  pub transcript_count : ℕ
  pub analysis_count : ℕ

-- The adapters, and the identifiers and times that the attempts of a run get, by their number in it.
pub record RunSources : Type 0 where
  pub fixtures : FixtureSources
  pub attempt_id : ℕ → String
  pub started_at : ℕ → ℕ
  pub ended_at : ℕ → ℕ

-- A method of the repository, as a step of the run.
abbrev pub committed : Result Tables → Tables → Checked × Tables
committed (ok t') t = (ok tt, t')
committed (err e) t = (err e, t)

abbrev pub committed_with {ℓ} : {A : Type ℓ} → Result (A × Tables) → Tables → Result A × Tables
committed_with (ok (a, t')) t = (ok a, t')
committed_with (err e) t = (err e, t)

-- Whether a run goes on with another attempt.
pub data Ended : Type 0 where
  again finished : Ended

abbrev pub ended_by : ProcessingFailure → Ended
ended_by failure = if failure.retryable then again else finished

-- The classes below `ValueError`.
abbrev pub is_value_error : Exception → Bool
is_value_error (value_error _) = true
is_value_error (invalid_transition _) = true
is_value_error (review_validation _) = true
is_value_error _ = false

-- `SanitizedProcessingFailure` has one of four states.
abbrev pub is_failure_state : ProcessingState → Bool
is_failure_state audio_invalid = true
is_failure_state transcription_failed = true
is_failure_state output_validation_failed = true
is_failure_state analysis_failed = true
is_failure_state _ = false

abbrev pub rejected_output : ProcessingFailure
rejected_output = record {
  failure_class = invalid_structured_output;
  terminal_state = output_validation_failed;
  diagnostic_code = "structured_output_rejected";
  retryable = false;
}

abbrev pub provenance_of : IngestionEvent → (attempt_id : String) → Provenance
provenance_of event attempt_id = record {
  schema_version = "review-contracts-v1";
  call_source = event.call.source;
  source_event_id = event.call.source_event_id;
  source_call_id = event.call.source_call_id;
  transcript_adapter = "fixture-transcriber";
  transcript_model_version = "deterministic-transcript-v1";
  analysis_adapter = "fixture-analyzer";
  analysis_model_version = "deterministic-analysis-v1";
  prompt_version = "facts-first-prompt-v1";
  playbook_version = "synthetic-draft-v1";
  adapter_version = "fixture-analyzer-v1";
  generated_at = event.received_at;
  processing_attempt_id = attempt_id;
  environment = "fixture";
}

module _ (sources : RunSources) (event : IngestionEvent) (call_id : String) where
  -- The n-th attempt of the run.
  module _ (n : ℕ) where
    abbrev attempt : String
    attempt = sources.attempt_id n

    abbrev pub moved_to : ProcessingState → Tables → Checked × Tables
    moved_to target t = committed (advance call_id attempt target (sources.ended_at n) t) t

    abbrev pub failed_with : ProcessingFailure → Ended → Tables → Result Ended × Tables
    failed_with failure ended t =
        committed (fail call_id attempt failure (sources.ended_at n) t) t
        andthen (λ _ t. (ok ended, t))

    abbrev pub validated_analysis : Transcript → ExtractedFacts → Result StructuredAnalysis
    validated_analysis transcript facts = do
      analysis ←
          apply_playbook sources.fixtures event.fixture_id call_id facts transcript
            (provenance_of event attempt)
      _ ←
          validate_analysis analysis transcript event.call.duration_seconds
            event.call.caller_identity_verified
      ok analysis

    -- The body of the second `try`.
    unfoldable pub analyze : Transcript → Tables → Checked × Tables
    unfolding extract_facts apply_playbook validate_analysis store_analysis advance
    analyze transcript t =
        (extract_facts sources.fixtures event.fixture_id transcript, t) andthen (λ facts t.
          moved_to applying_playbook t andthen (λ _ t.
            (validated_analysis transcript facts, t)
            andthen (λ analysis t. committed (store_analysis analysis attempt t) t)))

    -- Its handler, and what follows it.
    abbrev pub after_analysis : Checked × Tables → Result Ended × Tables
    after_analysis (ok _, t) = moved_to analyzed t andthen (λ _ t. (ok finished, t))
    after_analysis (err e, t) =
        if is_value_error e then failed_with rejected_output finished t else (err e, t)

    unfoldable pub after_transcription : Transcription → Tables → Result Ended × Tables
    unfolding analyze store_transcript advance fail
    after_transcription (raised e) t = (err e, t)
    after_transcription (adapter_error failure) t =
        if is_failure_state failure.terminal_state
        then failed_with failure (ended_by failure) t
        else (err (value_error "terminal_state"), t)
    after_transcription (returned transcript) t =
        committed (store_transcript transcript attempt t) t andthen (λ _ t.
          moved_to transcribed t andthen (λ _ t.
            moved_to extracting_facts t andthen (λ _ t. after_analysis (analyze transcript t))))

    -- One round of the loop.
    unfoldable pub attempt_once : Tables → Result Ended × Tables
    unfolding start_attempt advance transcribe after_transcription
    attempt_once t =
        committed_with
          (start_attempt call_id (provenance_of event attempt) (sources.started_at n) t) t
        andthen (λ started t. moved_to validated t andthen (λ _ t. moved_to queued t andthen (λ _ t.
            moved_to media_ready t andthen (λ _ t. moved_to transcribing t andthen (λ _ t.
              after_transcription
                (transcribe sources.fixtures event.fixture_id call_id started.attempt_number
                  (provenance_of event attempt))
                t)))))

  abbrev pub continued :
      Result Ended × Tables → (Tables → Option Checked × Tables) → Option Checked × Tables
  continued (ok again, t) next = next t
  continued (ok finished, t) next = (some (ok tt), t)
  continued (err e, t) next = (some (err e), t)

  unfoldable pub run_attempts : (fuel n : ℕ) → Tables → Option Checked × Tables
  unfolding attempt_once
  run_attempts zero n t = (none, t)
  run_attempts (suc fuel) n t = continued (attempt_once n t) (run_attempts fuel (n + 1))

  abbrev pub outcome_from : IngestionDisposition → CallSummary → FixtureOutcome
  outcome_from disposition summary = record {
    fixture_id = event.fixture_id;
    call_id = call_id;
    disposition = disposition;
    terminal_state = summary.state;
    attempt_count = summary.attempt_count;
    transcript_count = summary.transcript_count;
    analysis_count = summary.analysis_count;
  }

  unfoldable pub outcome_of : IngestionDisposition → Tables → Result FixtureOutcome
  unfolding call_summary
  outcome_of disposition t =
      call_summary call_id t >>= (λ summary. ok (outcome_from disposition summary))

  abbrev pub summarized :
      IngestionDisposition → Option Checked × Tables → Option (Result FixtureOutcome) × Tables
  summarized disposition (none, t) = (none, t)
  summarized disposition (some (err e), t) = (some (err e), t)
  summarized disposition (some (ok _), t) = (some (outcome_of disposition t), t)

  -- `_run_attempts`
  abbrev pub run_and_summarize :
      (fuel : ℕ) → IngestionDisposition → Tables → Option (Result FixtureOutcome) × Tables
  run_and_summarize fuel disposition t = summarized disposition (run_attempts fuel 0 t)

  -- An explicit new attempt for a call of the same fixture.
  abbrev pub retry_if :
      (fuel : ℕ) → Tables → Result CallSummary → Option (Result FixtureOutcome) × Tables
  retry_if fuel t (err e) = (some (err e), t)
  retry_if fuel t (ok summary) =
      if summary.fixture_id == event.fixture_id
      then run_and_summarize fuel accepted t
      else (some (err (value_error "fixture retry target does not match the existing call")), t)

  unfoldable pub retry : (fuel : ℕ) → Tables → Option (Result FixtureOutcome) × Tables
  unfolding run_attempts outcome_of call_summary
  retry fuel t = retry_if fuel t (call_summary call_id t)

abbrev pub is_accepted_event : IngestionDisposition → Bool
is_accepted_event accepted = true
is_accepted_event _ = false

module _ (sources : RunSources) (event : IngestionEvent) where
  abbrev pub ingested :
      (fuel : ℕ)
      → Tables
      → Result (IngestionResult × Tables)
      → Option (Result FixtureOutcome) × Tables
  ingested fuel t (err e) = (some (err e), t)
  ingested fuel t (ok (r, t')) =
      if is_accepted_event r.disposition
      then run_and_summarize sources event r.call_id fuel r.disposition t'
      else (some (outcome_of sources event r.call_id r.disposition t'), t')

  unfoldable pub process :
      (fuel : ℕ)
      → (event_id new_call_id : String) → Tables
      → Option (Result FixtureOutcome) × Tables
  unfolding run_attempts outcome_of ingest
  process fuel event_id new_call_id t = ingested fuel t (ingest event none event_id new_call_id t)
