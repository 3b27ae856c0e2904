-- ===== src/Contracts/Samples.antt =====
-- Invented values of the contracts, for the examples of the other modules.
use phone_law.Prelude.{String, true, false, none, some, [], ◌∷◌}
use phone_law.Contracts.Events.{CallSource, Provenance}
use phone_law.Contracts.Analysis.{
  Speaker, EvidenceReference, TranscriptSegment, Transcript, TextFact, ExtractedFacts, Finding,
  StructuredAnalysis, AnalysisCategory, AnalysisAcceptanceState, TimestampAvailability,
  TranscriptValidationState, ValueState, Priority, ResponsibleRole, Confidence,
}

abbrev pub sample_provenance : String → Provenance
sample_provenance attempt_id = record {
  schema_version = "review-contracts-v1";
  call_source = CallSource.fixture;
  source_event_id = "event-1";
  source_call_id = "source-1";
  transcript_adapter = "fixture-transcriber";
  transcript_model_version = "deterministic";
  analysis_adapter = "fixture-analyzer";
  analysis_model_version = "deterministic-analysis-v1";
  prompt_version = "facts-first-prompt-v1";
  playbook_version = "synthetic-draft-v1";
  adapter_version = "fixture-v1";
  generated_at = 2000;
  processing_attempt_id = attempt_id;
  environment = "fixture";
}

abbrev pub sample_segment : TranscriptSegment
sample_segment = record {
  segment_id = "s1";
  speaker = Speaker.outside_caller;
  identity = record {
    speaker = Speaker.outside_caller;
    asserted_label = none;
    raw_provider_speaker_label = none;
  };
  start_seconds = some 5;
  end_seconds = some 20;
  text = "my hearing is on monday";
}

abbrev pub sample_transcript : Transcript
sample_transcript = record {
  transcript_id = "transcript-1";
  call_id = "call-1";
  language = "en";
  original_language_text = none;
  timestamp_availability = TimestampAvailability.available;
  provider_response_version = "fixture";
  media_hash_reference = none;
  validation_state = TranscriptValidationState.accepted;
  segments = sample_segment ∷ [];
  provenance = sample_provenance "attempt-1";
}

abbrev pub sample_reference : EvidenceReference
sample_reference = record {
  segment_id = "s1";
  start_seconds = 6;
  end_seconds = 12;
  speaker = Speaker.outside_caller;
  excerpt = "hearing";
}

abbrev no_text : TextFact
no_text = record { state = ValueState.not_mentioned; value = none; evidence = [] }

abbrev sample_facts : ExtractedFacts
sample_facts = record {
  caller_request = record {
    state = ValueState.present;
    value = some "a hearing date";
    evidence = sample_reference ∷ [];
  };
  reported_facts = [];
  people_or_organizations = [];
  dates = [];
  appointments = [];
  monetary_figures = [];
  staff_commitments = [];
  requested_follow_up = no_text;
  unresolved_questions = [];
  caller_identity = record {
    state = ValueState.not_mentioned;
    label = none;
    metadata_verified = false;
  };
}

abbrev pub sample_finding : Finding
sample_finding = record {
  finding_id = "f1";
  kind = "deadline";
  statement = "a hearing is near";
  material = true;
  evidence = sample_reference ∷ [];
}

abbrev pub sample_analysis : StructuredAnalysis
sample_analysis = record {
  analysis_id = "analysis-1";
  call_id = "call-1";
  category = AnalysisCategory.existing_client_follow_up;
  priority = Priority.high;
  summary = "The caller has a hearing.";
  proposed_next_steps = "call back" ∷ [];
  responsible_role = ResponsibleRole.case_team;
  suggested_response_timing = none;
  attorney_attention_issues = [];
  dissatisfaction_indicators = [];
  omitted_information_findings = [];
  confidence = Confidence.high;
  findings = sample_finding ∷ [];
  acceptance_state = AnalysisAcceptanceState.accepted;
  facts = sample_facts;
  provenance = sample_provenance "attempt-1";
}
