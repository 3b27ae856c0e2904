-- ===== src/Pipeline/Fixtures.antt =====
-- The adapters of packages/review/fixtures.py. An entry of the manifest is the record of its fields;
-- what a pydantic model checks as it is built are the validators of Contracts/Validators.
use Prim.Native.String.{◌++◌}
use phone_law.Prelude.{
  ℕ, String, Bool, false, Option, none, some, List, [], ◌∷◌, eqb, map, find, if◌then◌else◌,
}
use phone_law.Prelude.Outcome.{
  Result, Exception, Checked, ok, err, ◌>>=◌, or_raise, lookup_error, value_error,
}
use phone_law.Contracts.Events.{ProcessingFailure, Provenance}
use phone_law.Contracts.Analysis.{
  AnalysisAcceptanceState, TimestampAvailability, TranscriptValidationState, EvidenceReference,
  TranscriptSegment, Transcript, TextFact, DateFact, StaffCommitment, UnresolvedQuestion,
  IdentityClaim, ExtractedFacts, Finding, StructuredAnalysis,
}
use phone_law.Contracts.Validators.{
  start_precedes_end, segment_is_ordered, require_unique_segments, timestamps_match_availability,
  state_matches_value, validate_date_state, commitment_requires_evidence,
  verified_identity_requires_metadata,
}
use phone_law.Evidence.{segment_of}
use phone_law.Pipeline.Scripts.{
  ScriptedFailure, ScriptedSegment, ScriptedText, ScriptedDate, ScriptedCommitment,
  ScriptedQuestion, ScriptedFacts, ScriptedFinding, Fixture, FixtureSources, entry,
}

-- What `transcribe` returns or raises: of the exceptions, `FixtureAdapterError` has its own.
pub data Transcription : Type 0 where
  returned : Transcript → Transcription
  adapter_error : ProcessingFailure → Transcription
  raised : Exception → Transcription

abbrev pub scripted_failure : ℕ → List ScriptedFailure → Option ScriptedFailure
scripted_failure attempt_number failures = find (λ f. eqb f.attempt_number attempt_number) failures

abbrev segment_from : ScriptedSegment → TranscriptSegment
segment_from raw = record {
  segment_id = raw.segment_id;
  speaker = raw.speaker;
  identity = record {
    speaker = raw.speaker;
    asserted_label = none;
    raw_provider_speaker_label = none;
  };
  start_seconds = raw.start_seconds;
  end_seconds = raw.end_seconds;
  text = raw.text;
}

-- `" ".join(…)`
abbrev spaced : List String → String
spaced [] = ""
spaced (s ∷ []) = s
spaced (s ∷ rest) = s ++ (" " ++ spaced rest)

abbrev deterministic_id : FixtureSources → String → String → String
deterministic_id sources kind fixture_id = sources.digest (kind ++ (":" ++ fixture_id))

abbrev all_ordered : List TranscriptSegment → Checked
all_ordered [] = ok tt
all_ordered (s ∷ rest) = segment_is_ordered s >>= (λ _. all_ordered rest)

-- `Transcript.model_validate_json`
abbrev pub checked_transcript : Transcript → Checked → Transcription
checked_transcript t (ok _) = returned t
checked_transcript t (err e) = raised e

abbrev validated_transcript : Transcript → Transcription
validated_transcript t = checked_transcript t (
    all_ordered t.segments
    >>= (λ _. require_unique_segments t >>= (λ _. timestamps_match_availability t)))

module _ (sources : FixtureSources) (fixture_id call_id : String) (attempt_number : ℕ)
    (provenance : Provenance) where
  abbrev transcript_from : Fixture → Transcript
  transcript_from f = record {
    transcript_id = deterministic_id sources "transcript" fixture_id;
    call_id = call_id;
    language = f.language;
    original_language_text = some (spaced (map (λ s. s.text) f.segments));
    timestamp_availability = TimestampAvailability.available;
    provider_response_version = "fixture-response-v1";
    media_hash_reference = none;
    validation_state = TranscriptValidationState.accepted;
    segments = map segment_from f.segments;
    provenance = provenance;
  }

  abbrev pub transcribe_entry : Result Fixture → Transcription
  transcribe_entry (err e) = raised e
  transcribe_entry (ok f) = elim (scripted_failure attempt_number f.transcriber_failures) [
    | some s ↦ adapter_error s.failure
    | none ↦ validated_transcript (transcript_from f)
  ]

  unfoldable pub transcribe : Transcription
  unfolding entry segment_is_ordered require_unique_segments timestamps_match_availability
  transcribe = transcribe_entry (entry sources fixture_id)

abbrev pub each {ℓ κ} : {A : Type ℓ} {B : Type κ} → (A → Result B) → List A → Result (List B)
each f [] = ok []
each f (x ∷ xs) = f x >>= (λ y. each f xs >>= (λ ys. ok (y ∷ ys)))

abbrev reference_with : TranscriptSegment → ℕ → ℕ → EvidenceReference
reference_with s start end = record {
  segment_id = s.segment_id;
  start_seconds = start;
  end_seconds = end;
  speaker = s.speaker;
  excerpt = s.text;
}

abbrev no_timestamps : Exception
no_timestamps = value_error "fixture evidence requires timestamps"

abbrev pub reference_to : TranscriptSegment → Result EvidenceReference
reference_to s = or_raise s.start_seconds no_timestamps >>= (λ start.
    or_raise s.end_seconds no_timestamps >>= (λ end.
      start_precedes_end (reference_with s start end) >>= (λ _. ok (reference_with s start end))))

-- `_evidence`
unfoldable pub evidence : Transcript → List String → Result (List EvidenceReference)
unfolding start_precedes_end
evidence t segment_ids =
    each (λ id. or_raise (segment_of id t.segments) (lookup_error id) >>= reference_to) segment_ids

abbrev text_fact : Transcript → ScriptedText → Result TextFact
text_fact t raw = do
  references ← evidence t raw.evidence
  let fact : TextFact = record { state = raw.state; value = raw.value; evidence = references }
  _ ← state_matches_value fact
  ok fact

abbrev date_fact : (String → Bool) → Transcript → ScriptedDate → Result DateFact
date_fact is_iso_date t raw = do
  references ← evidence t raw.evidence
  let fact : DateFact = record {
    state = raw.state;
    expression = raw.expression;
    iso_date = raw.iso_date;
    is_deadline = raw.is_deadline;
    evidence = references;
  }
  _ ← validate_date_state is_iso_date fact
  ok fact

abbrev timing_fact : (String → Bool) → Transcript → Option ScriptedDate → Result (Option DateFact)
timing_fact is_iso_date t none = ok none
timing_fact is_iso_date t (some raw) = date_fact is_iso_date t raw >>= (λ d. ok (some d))

abbrev commitment_fact : (String → Bool) → Transcript → ScriptedCommitment → Result StaffCommitment
commitment_fact is_iso_date t raw = do
  timing ← timing_fact is_iso_date t raw.timing
  references ← evidence t raw.evidence
  let fact : StaffCommitment = record {
    state = raw.state;
    commitment = raw.commitment;
    timing = timing;
    evidence = references;
  }
  _ ← commitment_requires_evidence fact
  ok fact

abbrev question_fact : Transcript → ScriptedQuestion → Result UnresolvedQuestion
question_fact t raw = do
  references ← evidence t raw.evidence
  ok (record { question = raw.question; state = raw.state; evidence = references })

abbrev facts_of : (String → Bool) → Transcript → ScriptedFacts → Result ExtractedFacts
facts_of is_iso_date t raw = do
  staff_commitments ← each (commitment_fact is_iso_date t) raw.staff_commitments
  caller_request ← text_fact t raw.caller_request
  reported_facts ← each (text_fact t) raw.reported_facts
  people_or_organizations ← each (text_fact t) raw.people_or_organizations
  dates ← each (date_fact is_iso_date t) raw.dates
  requested_follow_up ← text_fact t raw.requested_follow_up
  unresolved_questions ← each (question_fact t) raw.unresolved_questions
  let identity : IdentityClaim = record {
    state = raw.caller_identity_state;
    label = raw.caller_identity_label;
    metadata_verified = false;
  }
  _ ← verified_identity_requires_metadata identity
  ok (record {
    caller_request = caller_request;
    reported_facts = reported_facts;
    people_or_organizations = people_or_organizations;
    dates = dates;
    appointments = [];
    monetary_figures = [];
    staff_commitments = staff_commitments;
    requested_follow_up = requested_follow_up;
    unresolved_questions = unresolved_questions;
    caller_identity = identity;
  })

unfoldable pub extract_facts : FixtureSources → String → Transcript → Result ExtractedFacts
unfolding entry evidence state_matches_value validate_date_state commitment_requires_evidence
    verified_identity_requires_metadata
extract_facts sources fixture_id t = do
  f ← entry sources fixture_id
  (if f.analysis_failure
      then err (value_error "deterministic fixture analysis unavailable")
      else facts_of sources.is_iso_date t f.expected_facts)

abbrev pub finding_from : Transcript → ScriptedFinding → Result Finding
finding_from t raw = do
  references ← evidence t raw.evidence
  ok (record {
    finding_id = raw.finding_id;
    kind = raw.kind;
    statement = raw.statement;
    material = raw.material;
    evidence = references;
  })

unfoldable pub apply_playbook :
    FixtureSources
    → (fixture_id call_id : String) → ExtractedFacts
    → Transcript
    → Provenance
    → Result StructuredAnalysis
unfolding entry evidence
apply_playbook sources fixture_id call_id facts t provenance = do
  f ← entry sources fixture_id
  let raw = f.expected_analysis
  attorney_attention_issues ← each (finding_from t) raw.attorney_attention_issues
  dissatisfaction_indicators ← each (finding_from t) raw.dissatisfaction_indicators
  omitted_information_findings ← each (finding_from t) raw.omitted_information_findings
  findings ← each (finding_from t) raw.findings
  ok (record {
    analysis_id = deterministic_id sources "analysis" fixture_id;
    call_id = call_id;
    category = raw.category;
    priority = raw.priority;
    summary = raw.summary;
    proposed_next_steps = raw.proposed_next_steps;
    responsible_role = raw.responsible_role;
    suggested_response_timing = raw.suggested_response_timing;
    attorney_attention_issues = attorney_attention_issues;
    dissatisfaction_indicators = dissatisfaction_indicators;
    omitted_information_findings = omitted_information_findings;
    confidence = raw.confidence;
    findings = findings;
    acceptance_state = AnalysisAcceptanceState.accepted;
    facts = facts;
    provenance = provenance;
  })
