-- ===== src/Calls/Outputs.antt =====
-- The methods of `ReviewRepository` (packages/database/repository.py) that store and read
-- transcripts, analyses and playbooks, and the summary of a call.
use phone_law.Prelude.{
  ℕ, String, Bool, true, false, ◌&&◌, ◌||◌, Option, none, some, ◌∷◌, ◌==◌, any, find, select,
  length, if◌then◌else◌,
}
use phone_law.Prelude.Outcome.{
  Result, ok, err, ◌>>=◌, or_raise, no_result, integrity_error, value_error,
}
use phone_law.Calls.State.{ProcessingState}
use phone_law.Contracts.Analysis.{Transcript, StructuredAnalysis, AnalysisAcceptanceState}
use phone_law.Calls.Tables.{Tables, TranscriptRow, AnalysisRow, PlaybookPayload}
use phone_law.Calls.Repository.{has_call}

has_attempt : String → Tables → Bool
has_attempt attempt_id t = any (λ a. a.id == attempt_id) t.attempts

-- Primary key, foreign keys, `uq_transcripts_call` and `uq_transcripts_attempt`.
unfoldable pub store_transcript : Transcript → String → Tables → Result Tables
unfolding has_attempt
store_transcript transcript attempt_id t =
    if any
      (λ r.
        r.id == transcript.transcript_id
        || r.call_id == transcript.call_id
        || r.attempt_id == attempt_id)
      t.transcripts
    then err (integrity_error "transcripts")
    else if has_call transcript.call_id t && has_attempt attempt_id t
    then ok (record t {
      transcripts =
          record {
            id = transcript.transcript_id;
            call_id = transcript.call_id;
            attempt_id = attempt_id;
            original_payload = transcript;
            created_at = transcript.provenance.generated_at;
          }
          ∷ t.transcripts;
    })
    else err (integrity_error "transcripts")

abbrev pub is_accepted : AnalysisAcceptanceState → Bool
is_accepted AnalysisAcceptanceState.accepted = true
is_accepted _ = false

-- Primary key, foreign keys, `uq_analyses_call` and `uq_analyses_attempt`.
insert_analysis : StructuredAnalysis → String → Tables → Result Tables
unfolding has_attempt
insert_analysis analysis attempt_id t =
    if any
      (λ r.
        r.id == analysis.analysis_id || r.call_id == analysis.call_id || r.attempt_id == attempt_id)
      t.analyses
    then err (integrity_error "analyses")
    else if has_call analysis.call_id t && has_attempt attempt_id t
    then ok (record t {
      analyses =
          record {
            id = analysis.analysis_id;
            call_id = analysis.call_id;
            attempt_id = attempt_id;
            original_payload = analysis;
            created_at = analysis.provenance.generated_at;
          }
          ∷ t.analyses;
    })
    else err (integrity_error "analyses")

unfoldable pub store_analysis : StructuredAnalysis → String → Tables → Result Tables
unfolding insert_analysis
store_analysis analysis attempt_id t =
    if is_accepted analysis.acceptance_state
    then insert_analysis analysis attempt_id t
    else err (value_error "only strictly accepted analyses may be persisted")

-- `on_conflict_do_nothing` on the version; the primary key still has to be new.
unfoldable pub install_playbook : PlaybookPayload → (now : ℕ) → Tables → Result Tables
install_playbook payload now t =
    if any (λ r. r.version == payload.version) t.playbooks
    then ok t
    else if any (λ r. r.id == payload.playbook_id) t.playbooks
    then err (integrity_error "playbook_versions")
    else ok (record t {
      playbooks =
          record {
            id = payload.playbook_id;
            version = payload.version;
            status = payload.status;
            is_synthetic = payload.synthetic;
            structured_payload = payload;
            created_at = now;
          }
          ∷ t.playbooks;
    })

pub record CallSummary : Type 0 where
  pub call_id : String
  pub fixture_id : String
  pub state : ProcessingState
  pub attempt_count : ℕ
  pub transcript_count : ℕ
  pub analysis_count : ℕ

unfoldable pub call_summary : String → Tables → Result CallSummary
call_summary call_id t = do
  row ← or_raise (find (λ c. c.id == call_id) t.calls) no_result
  ok (record {
    call_id = call_id;
    fixture_id = row.fixture_id;
    state = row.state;
    attempt_count = length (select (λ a. a.call_id == call_id) t.attempts);
    transcript_count = length (select (λ r. r.call_id == call_id) t.transcripts);
    analysis_count = length (select (λ r. r.call_id == call_id) t.analyses);
  })

abbrev payload_of : Option AnalysisRow → Option StructuredAnalysis
payload_of none = none
payload_of (some r) = some r.original_payload

abbrev transcript_of : Option TranscriptRow → Option Transcript
transcript_of none = none
transcript_of (some r) = some r.original_payload

unfoldable pub accepted_analysis_payload : String → Tables → Option StructuredAnalysis
accepted_analysis_payload call_id t = payload_of (find (λ r. r.call_id == call_id) t.analyses)

unfoldable pub transcript_payload : String → Tables → Option Transcript
transcript_payload call_id t = transcript_of (find (λ r. r.call_id == call_id) t.transcripts)
