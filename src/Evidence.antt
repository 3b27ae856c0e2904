-- ===== src/Evidence.antt =====
-- packages/review/validation.py: which analyses may be accepted on the evidence of a transcript.
pub mod Support
pub mod Analyses
pub mod Citations
pub mod Review
mod Examples
use text.Mathlib.Text
use phone_law.Prelude.{
  ℕ, String, Bool, true, false, ◌&&◌, ◌||◌, not, Option, none, some, List, [], ◌∷◌, ◌++◌, ◌==◌, ltb,
  leb, is_some, any, find, if◌then◌else◌,
}
use phone_law.Prelude.Outcome.{Checked, Result, Exception, ok, err, review_validation}
use phone_law.Contracts.Analysis.{
  EvidenceReference, TranscriptSegment, Transcript, ExtractedFacts, Finding, StructuredAnalysis,
  AppointmentFact, StaffCommitment, DateFact, AnalysisAcceptanceState, TranscriptValidationState,
  Priority, same_speaker, is_present,
}
use phone_law.Contracts.Validators.{is_unavailable, is_accepted_transcript, is_empty}

-- `raise ReviewValidationError` when the test holds, and else what follows.
abbrev pub reject_if : Bool → String → Checked → Checked
reject_if true code rest = err (review_validation code)
reject_if false code rest = rest

infixr 4 ◌then◌
abbrev pub ◌then◌ : Checked → Checked → Checked
ok _ then rest = rest
err e then rest = err e

-- A `for` loop over checks: the first failure ends it.
abbrev pub check_all {ℓ} : {A : Type ℓ} → (A → Checked) → List A → Checked
check_all f [] = ok tt
check_all f (x ∷ xs) = f x then check_all f xs

abbrev pub concat_map {ℓ κ} : {A : Type ℓ} {B : Type κ} → (A → List B) → List A → List B
concat_map f [] = []
concat_map f (x ∷ xs) = f x ++ concat_map f xs

abbrev date_evidence : Option DateFact → List EvidenceReference
date_evidence none = []
date_evidence (some d) = d.evidence

unfoldable pub evidence_from_facts : ExtractedFacts → List EvidenceReference
evidence_from_facts facts =
    facts.caller_request.evidence
    ++ (facts.requested_follow_up.evidence
        ++ (concat_map (λ f. f.evidence) facts.reported_facts
            ++ (concat_map (λ f. f.evidence) facts.people_or_organizations
                ++ (concat_map (λ d. d.evidence) facts.dates
                    ++ (concat_map (λ a. a.evidence ++ date_evidence a.date) facts.appointments
                        ++ (concat_map (λ m. m.evidence) facts.monetary_figures
                            ++ (concat_map (λ c. c.evidence ++ date_evidence c.timing)
                                  facts.staff_commitments
                                ++ concat_map (λ q. q.evidence) facts.unresolved_questions)))))))

unfoldable pub findings_of : StructuredAnalysis → List Finding
findings_of analysis =
    analysis.findings
    ++ (analysis.attorney_attention_issues
        ++ (analysis.dissatisfaction_indicators ++ analysis.omitted_information_findings))

-- `{segment.segment_id: segment …}.get(…)`: of segments with one identifier the last is kept.
unfoldable pub segment_of : String → List TranscriptSegment → Option TranscriptSegment
segment_of id [] = none
segment_of id (s ∷ rest) = elim (segment_of id rest) [
  | some x ↦ some x
  | none ↦ if s.segment_id == id then some s else none
]

-- `excerpt in text`
unfoldable pub contains : String → String → Bool
contains text excerpt = is_some (Text.find? text excerpt)

abbrev pub check_bounds : EvidenceReference → TranscriptSegment → ℕ → ℕ → Checked
check_bounds reference segment start end =
    reject_if (ltb reference.start_seconds start || ltb end reference.end_seconds)
      "evidence_outside_segment"
      (reject_if (not (same_speaker reference.speaker segment.speaker)) "evidence_speaker_mismatch"
        (reject_if (not (contains segment.text reference.excerpt)) "evidence_excerpt_unsupported"
          (ok tt)))

abbrev pub check_segment : EvidenceReference → ℕ → TranscriptSegment → Checked
check_segment reference duration segment =
    reject_if (ltb reference.start_seconds 0 || ltb duration reference.end_seconds)
      "evidence_outside_call_duration"
      (reject_if (leb reference.end_seconds reference.start_seconds)
        "evidence_timestamp_order_invalid"
        (elim segment.start_seconds [
          | none ↦ err (review_validation "evidence_timestamps_unavailable")
          | some start ↦ elim segment.end_seconds [
            | none ↦ err (review_validation "evidence_timestamps_unavailable")
            | some end ↦ check_bounds reference segment start end
          ]
        ]))

abbrev pub check_found : EvidenceReference → ℕ → Option TranscriptSegment → Checked
check_found reference duration none = err (review_validation "evidence_segment_not_found")
check_found reference duration (some segment) = check_segment reference duration segment

unfoldable pub validate_evidence : EvidenceReference → Transcript → (duration : ℕ) → Checked
validate_evidence reference transcript duration =
    check_found reference duration (segment_of reference.segment_id transcript.segments)

abbrev pub is_high_priority : Priority → Bool
is_high_priority Priority.immediate = true
is_high_priority Priority.high = true
is_high_priority _ = false

abbrev pub is_accepted_analysis : AnalysisAcceptanceState → Bool
is_accepted_analysis AnalysisAcceptanceState.accepted = true
is_accepted_analysis _ = false

unfoldable pub validate_finding : Transcript → ℕ → Finding → Checked
validate_finding transcript duration finding =
    reject_if (finding.material && is_empty finding.evidence) "material_finding_missing_evidence"
      (check_all (λ r. validate_evidence r transcript duration) finding.evidence)

unfoldable pub validate_analysis :
    StructuredAnalysis
    → Transcript
    → (duration : ℕ) → (caller_identity_metadata_verified : Bool) → Checked
validate_analysis analysis transcript duration verified =
    reject_if (is_unavailable transcript.timestamp_availability) "transcript_timestamps_unavailable"
      (reject_if (not (is_accepted_transcript transcript.validation_state))
        "transcript_requires_human_review"
        (check_all (λ r. validate_evidence r transcript duration)
            (evidence_from_facts analysis.facts)
          then check_all (validate_finding transcript duration) (findings_of analysis)
          then reject_if
              (is_high_priority analysis.priority
                && not (any (λ f. f.material && not (is_empty f.evidence)) (findings_of analysis)))
              "high_priority_output_missing_evidence"
              (reject_if (is_present analysis.facts.caller_identity.state && not verified)
                "verified_caller_identity_missing_metadata"
                (reject_if (not (is_accepted_analysis analysis.acceptance_state))
                  "analysis_not_accepted" (ok tt)))))

-- The codes at which a candidate of high priority is kept for review.
abbrev pub is_missing_evidence : Exception → Bool
is_missing_evidence (review_validation code) =
    code == "material_finding_missing_evidence" || code == "high_priority_output_missing_evidence"
is_missing_evidence _ = false

abbrev pub classify : Priority → Checked → AnalysisAcceptanceState
classify priority (ok _) = AnalysisAcceptanceState.accepted
classify priority (err e) =
    if is_high_priority priority && is_missing_evidence e
    then AnalysisAcceptanceState.needs_review
    else AnalysisAcceptanceState.rejected

unfoldable pub acceptance_state_for :
    StructuredAnalysis → Transcript → ℕ → Bool → AnalysisAcceptanceState
acceptance_state_for analysis transcript duration verified =
    classify analysis.priority (validate_analysis analysis transcript duration verified)

unfoldable pub transcript_validation_state : Transcript → TranscriptValidationState
transcript_validation_state transcript =
    if not (is_accepted_transcript transcript.validation_state)
    then transcript.validation_state
    else if is_unavailable transcript.timestamp_availability
    then TranscriptValidationState.requires_human_review
    else if is_empty transcript.segments
    then TranscriptValidationState.rejected
    else TranscriptValidationState.accepted
