-- ===== src/Contracts/Analysis.antt =====
-- Transcripts, extracted facts and structured analyses of packages/contracts/review.py. The fields
-- of fixed or free text that no code of the modelled parts reads are left out.
use phone_law.Prelude.{ℕ, String, Bool, true, false, Option, List}
use phone_law.Contracts.Events.{Provenance}

pub data Speaker : Type 0 where
  staff outside_caller unknown_participant : Speaker

abbrev pub same_speaker : Speaker → Speaker → Bool
same_speaker staff staff = true
same_speaker outside_caller outside_caller = true
same_speaker unknown_participant unknown_participant = true
same_speaker _ _ = false

pub data AnalysisCategory : Type 0 where
  new_intake existing_client_follow_up administrative : AnalysisCategory
  dissatisfaction_escalation routine_no_action unknown : AnalysisCategory

pub data Priority : Type 0 where
  immediate high normal low : Priority

pub data Confidence : Type 0 where
  high medium low : Confidence

pub data ResponsibleRole : Type 0 where
  intake_team case_team records_coordinator supervising_attorney : ResponsibleRole
  spanish_speaking_intake unassigned : ResponsibleRole

pub data ValueState : Type 0 where
  present missing unknown unverified not_mentioned : ValueState

abbrev pub is_present : ValueState → Bool
is_present present = true
is_present _ = false

pub data AnalysisAcceptanceState : Type 0 where
  accepted needs_review rejected : AnalysisAcceptanceState

pub data TimestampAvailability : Type 0 where
  available unavailable : TimestampAvailability

pub data TranscriptValidationState : Type 0 where
  accepted requires_human_review rejected : TranscriptValidationState

pub record EvidenceReference : Type 0 where
  pub segment_id : String
  pub start_seconds : ℕ
  pub end_seconds : ℕ
  pub speaker : Speaker
  pub excerpt : String

pub record SpeakerIdentity : Type 0 where
  pub speaker : Speaker
  pub asserted_label : Option String
  pub raw_provider_speaker_label : Option String

pub record TranscriptSegment : Type 0 where
  pub segment_id : String
  pub speaker : Speaker
  pub identity : SpeakerIdentity
  pub start_seconds : Option ℕ
  pub end_seconds : Option ℕ
  pub text : String

pub record Transcript : Type 0 where
  pub transcript_id : String
  pub call_id : String
  pub language : String
  pub original_language_text : Option String
  pub timestamp_availability : TimestampAvailability
  pub provider_response_version : String
  pub media_hash_reference : Option String
  pub validation_state : TranscriptValidationState
  pub segments : List TranscriptSegment
  pub provenance : Provenance

pub record TextFact : Type 0 where
  pub state : ValueState
  pub value : Option String
  pub evidence : List EvidenceReference

pub record DateFact : Type 0 where
  pub state : ValueState
  pub expression : Option String
  pub iso_date : Option String
  pub is_deadline : Bool
  pub evidence : List EvidenceReference

pub record AppointmentFact : Type 0 where
  pub state : ValueState
  pub date : Option DateFact
  pub purpose : Option String
  pub evidence : List EvidenceReference

pub record MonetaryFigure : Type 0 where
  pub state : ValueState
  pub amount : Option String
  pub currency : Option String
  pub evidence : List EvidenceReference

pub record StaffCommitment : Type 0 where
  pub state : ValueState
  pub commitment : Option String
  pub timing : Option DateFact
  pub evidence : List EvidenceReference

pub record UnresolvedQuestion : Type 0 where
  pub question : String
  pub state : ValueState
  pub evidence : List EvidenceReference

pub record IdentityClaim : Type 0 where
  pub state : ValueState
  pub label : Option String
  pub metadata_verified : Bool

pub record ExtractedFacts : Type 0 where
  pub caller_request : TextFact
  pub reported_facts : List TextFact
  pub people_or_organizations : List TextFact
  pub dates : List DateFact
  pub appointments : List AppointmentFact
  pub monetary_figures : List MonetaryFigure
  pub staff_commitments : List StaffCommitment
  pub requested_follow_up : TextFact
  pub unresolved_questions : List UnresolvedQuestion
  pub caller_identity : IdentityClaim

pub record Finding : Type 0 where
  pub finding_id : String
  pub kind : String
  pub statement : String
  pub material : Bool
  pub evidence : List EvidenceReference

pub record StructuredAnalysis : Type 0 where
  pub analysis_id : String
  pub call_id : String
  pub category : AnalysisCategory
  pub priority : Priority
  pub summary : String
  pub proposed_next_steps : List String
  pub responsible_role : ResponsibleRole
  pub suggested_response_timing : Option String
  pub attorney_attention_issues : List Finding
  pub dissatisfaction_indicators : List Finding
  pub omitted_information_findings : List Finding
  pub confidence : Confidence
  pub findings : List Finding
  pub acceptance_state : AnalysisAcceptanceState
  pub facts : ExtractedFacts
  pub provenance : Provenance
