-- ===== src/Calls/Examples.antt =====
-- One invented call, followed through the repository by evaluation.
use phone_law.Prelude.{◌≤◌, ◌≡◌, refl, true, false, none, some, [], ◌∷◌, length}
use phone_law.Prelude.Outcome.{Result, ok, err, is_ok}
use phone_law.Calls.State.{
  ProcessingState, received, validated, queued, media_ready, transcribing, audio_invalid,
  transcription_failed, transition,
}
use phone_law.Contracts.Events.{
  NormalizedCall, IngestionEvent, IngestionResult, ProcessingFailure, fixture, inbound, accepted,
  duplicate_event, transcriber_unavailable, invalid_media,
}
use phone_law.Contracts.Samples.{sample_provenance, sample_analysis}
use phone_law.Calls.Tables.{Tables}
use phone_law.Calls.Repository.{
  ingest, insert_call, insert_event, insert_attempt, start_attempt, advance, fail, AttemptRecord,
}
use phone_law.Calls.Outputs.{store_analysis, accepted_analysis_payload}
use phone_law.Calls.Paths.{full_path, length-follow, follow-analyzed}
use phone_law.Calls.Timeline.{IsConsistent}
use phone_law.Calls.Consistency.{BelongsTo, advance-IsConsistent, fail-IsConsistent}
use phone_law.Calls.Restart.{start_attempt-IsConsistent}
use phone_law.Calls.Ingestion.{ingest-IsConsistent, ingest-again}
use phone_law.Calls.Final.{HasEnded, ended_for_good}
use phone_law.Calls.Steps.{Step, started}
use phone_law.Calls.Sequences.{Reachable, after, no_tables, Reachable-IsConsistent}
use phone_law.Calls.Refinement.{Step-Moves}
use phone_law.Calls.Machine.{Moves, state_of}
use phone_law.Calls.Stored.{HasSoundOutputs, payload-store_analysis}

abbrev empty : Tables
empty = record {
  calls = [];
  events = [];
  attempts = [];
  transcripts = [];
  analyses = [];
  playbooks = [];
}

abbrev sample_call : NormalizedCall
sample_call = record {
  source = fixture;
  source_event_id = "event-1";
  source_call_id = "source-1";
  recording_id = none;
  occurred_at = 1000;
  direction = inbound;
  duration_seconds = 90;
  staff_extension = none;
  language_hint = some "en";
  media_reference = none;
  transcript_fixture_reference = some "CL-FX-002";
  caller_identity_verified = false;
  synthetic = true;
}

abbrev sample_event : IngestionEvent
sample_event = record { fixture_id = "CL-FX-002"; received_at = 2000; call = sample_call }

abbrev outage : ProcessingFailure
outage = record {
  failure_class = transcriber_unavailable;
  terminal_state = transcription_failed;
  diagnostic_code = "transcriber_unavailable";
  retryable = true;
}

abbrev bad_audio : ProcessingFailure
bad_audio = record {
  failure_class = invalid_media;
  terminal_state = audio_invalid;
  diagnostic_code = "invalid_media";
  retryable = false;
}

abbrev tables_of : Result (IngestionResult × Tables) → Tables
tables_of (ok (r, t)) = t
tables_of (err e) = empty

abbrev result_of : Result (IngestionResult × Tables) → IngestionResult
result_of (ok (r, t)) = r
result_of (err e) = record { call_id = ""; event_id = ""; disposition = accepted }

abbrev started_tables : Result (AttemptRecord × Tables) → Tables
started_tables (ok (r, t)) = t
started_tables (err e) = empty

abbrev started_record : Result (AttemptRecord × Tables) → AttemptRecord
started_record (ok (r, t)) = r
started_record (err e) = record { attempt_id = ""; attempt_number = 0 }

abbrev or_empty : Result Tables → Tables
or_empty (ok t) = t
or_empty (err e) = empty

abbrev delivered : Result (IngestionResult × Tables)
delivered = ingest sample_event none "row-1" "call-1" empty

abbrev one_call : Tables
one_call = tables_of delivered

abbrev attempted : Tables
attempted = started_tables (start_attempt "call-1" (sample_provenance "attempt-1") 3000 one_call)

abbrev moved : ProcessingState → Tables → Tables
moved target t = or_empty (advance "call-1" "attempt-1" target 4000 t)

abbrev transcribing_tables : Tables
transcribing_tables =
    moved transcribing (moved media_ready (moved queued (moved validated attempted)))

empty-IsConsistent : IsConsistent empty
empty-IsConsistent = record { unique = tt; timeline = λ k. tt; current = tt; owned = tt }

one_call-IsConsistent : IsConsistent one_call
unfolding ingest insert_call insert_event
one_call-IsConsistent =
    ingest-IsConsistent sample_event none "row-1" "call-1" empty (result_of delivered) one_call
      empty-IsConsistent refl

attempted-IsConsistent : IsConsistent attempted
unfolding ingest insert_call insert_event start_attempt insert_attempt
attempted-IsConsistent =
    start_attempt-IsConsistent "call-1" (sample_provenance "attempt-1") 3000 one_call attempted
      (started_record (start_attempt "call-1" (sample_provenance "attempt-1") 3000 one_call))
      one_call-IsConsistent refl

-- The attempt of these tables, read off by evaluation.
only_attempt : BelongsTo "attempt-1" "call-1" attempted
unfolding ingest insert_call insert_event start_attempt insert_attempt
only_attempt a e = cc

validated-IsConsistent : IsConsistent (moved validated attempted)
unfolding ingest insert_call insert_event start_attempt insert_attempt advance transition
validated-IsConsistent =
    advance-IsConsistent "call-1" "attempt-1" validated 4000 attempted (moved validated attempted)
      attempted-IsConsistent only_attempt refl

validated_attempt : BelongsTo "attempt-1" "call-1" (moved validated attempted)
unfolding ingest insert_call insert_event start_attempt insert_attempt advance transition
validated_attempt a e = cc

queued-IsConsistent : IsConsistent (moved queued (moved validated attempted))
unfolding ingest insert_call insert_event start_attempt insert_attempt advance transition
queued-IsConsistent =
    advance-IsConsistent "call-1" "attempt-1" queued 4000 (moved validated attempted)
      (moved queued (moved validated attempted)) validated-IsConsistent validated_attempt refl

queued_attempt : BelongsTo "attempt-1" "call-1" (moved queued (moved validated attempted))
unfolding ingest insert_call insert_event start_attempt insert_attempt advance transition
queued_attempt a e = cc

abbrev rejected_audio : Tables
rejected_audio =
    or_empty (fail "call-1" "attempt-1" bad_audio 5000 (moved queued (moved validated attempted)))

rejected_audio-IsConsistent : IsConsistent rejected_audio
unfolding ingest insert_call insert_event start_attempt insert_attempt advance transition fail
rejected_audio-IsConsistent =
    fail-IsConsistent "call-1" "attempt-1" bad_audio 5000 (moved queued (moved validated attempted))
      rejected_audio queued-IsConsistent queued_attempt refl

audio-HasEnded : HasEnded "call-1" rejected_audio
unfolding ingest insert_call insert_event start_attempt insert_attempt advance transition fail
audio-HasEnded = (_, refl, refl, refl)

rejected_attempt : BelongsTo "attempt-1" "call-1" rejected_audio
unfolding ingest insert_call insert_event start_attempt insert_attempt advance transition fail
rejected_attempt a e = cc

ended_for_good_example :
    (is_ok (start_attempt "call-1" (sample_provenance "attempt-2") 6000 rejected_audio) ≡ false)
    × (is_ok (advance "call-1" "attempt-1" media_ready 6000 rejected_audio) ≡ false)
    × (is_ok (fail "call-1" "attempt-1" outage 6000 rejected_audio) ≡ false)
ended_for_good_example =
    ended_for_good "call-1" "attempt-1" rejected_audio rejected_audio-IsConsistent audio-HasEnded
      rejected_attempt (sample_provenance "attempt-2") media_ready outage 6000

ingest-again_example :
    (t'' : Tables) × (ingest sample_event (some "call-2") "row-2" "call-3" one_call
      ≡ ok (record (result_of delivered) { disposition = duplicate_event }, t''))
    × (t''.calls ≡ one_call.calls)
    × (t''.attempts ≡ one_call.attempts)
    × (length t''.events ≡ length one_call.events)
unfolding ingest insert_call insert_event
ingest-again_example =
    ingest-again sample_event none "row-1" "call-1" empty (result_of delivered) one_call
      (some "call-2") "row-2" "call-3" refl

length-follow_example : length (validated ∷ queued ∷ []) ≤ 8
unfolding transition
length-follow_example = length-follow received queued (validated ∷ queued ∷ []) refl

follow-analyzed_example : full_path ≡ full_path
unfolding transition
follow-analyzed_example = follow-analyzed full_path refl

abbrev filed : Tables
filed = or_empty (store_analysis sample_analysis "attempt-1" attempted)

payload-store_analysis_example :
    (accepted_analysis_payload "call-1" filed ≡ some sample_analysis)
    × (is_ok (store_analysis sample_analysis "attempt-2" filed) ≡ false)
unfolding ingest insert_call insert_event start_attempt insert_attempt store_analysis
payload-store_analysis_example =
    payload-store_analysis sample_analysis sample_analysis "attempt-1" "attempt-2" attempted filed
      refl refl

Reachable-IsConsistent_example :
    IsConsistent (moved validated attempted) × HasSoundOutputs (moved validated attempted)
unfolding ingest insert_call insert_event start_attempt insert_attempt advance transition
Reachable-IsConsistent_example = Reachable-IsConsistent (moved validated attempted) (
    after attempted (moved validated attempted)
      (after one_call attempted
        (after no_tables one_call Reachable.empty
          (Step.delivered sample_event none "row-1" "call-1" (result_of delivered) refl))
        (started "call-1" (sample_provenance "attempt-1") 3000
          (started_record (start_attempt "call-1" (sample_provenance "attempt-1") 3000 one_call))
          refl))
      (Step.moved "call-1" "attempt-1" validated 4000 only_attempt refl))

Step-Moves_example :
    Moves (state_of "call-1" attempted.calls) (state_of "call-1" (moved validated attempted).calls)
unfolding ingest insert_call insert_event start_attempt insert_attempt advance transition
Step-Moves_example =
    Step-Moves attempted (moved validated attempted) "call-1"
      (after one_call attempted
        (after no_tables one_call Reachable.empty
          (Step.delivered sample_event none "row-1" "call-1" (result_of delivered) refl))
        (started "call-1" (sample_provenance "attempt-1") 3000
          (started_record (start_attempt "call-1" (sample_provenance "attempt-1") 3000 one_call))
          refl))
      (Step.moved "call-1" "attempt-1" validated 4000 only_attempt refl)
