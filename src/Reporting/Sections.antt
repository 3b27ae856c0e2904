-- ===== src/Reporting/Sections.antt =====
-- What one call contributes to a daily report: `_evidence`, `_sections_for` and `_report_item` of
-- packages/review/reporting.py.
use phone_law.Prelude.{
  ℕ, String, Bool, true, false, ◌||◌, Option, none, some, List, [], ◌∷◌, ◌++◌, ◌==◌, any,
  if◌then◌else◌,
}
use phone_law.Prelude.Outcome.{Result, ok, err, value_error}
use phone_law.Calls.State.{ProcessingState}
use phone_law.Contracts.Analysis.{
  AnalysisCategory, Priority, EvidenceReference, Finding, StructuredAnalysis, StaffCommitment,
  DateFact, is_present,
}
use phone_law.Reporting.Contracts.{
  ReportSectionKind, FailedCallSummary, ReportItem, immediate_attention, potential_new_matters,
  time_sensitive_dates, dissatisfaction_escalation, staff_commitments, administrative_tasks,
  routine_no_action, processing_failures, kind_value,
}
use phone_law.Reporting.Texts.{joined}

pub record ReportCallInput : Type 0 where
  pub call_id : String
  pub synthetic_reference : String
  pub source_call_id : String
  pub occurred_at : ℕ
  pub received_at : ℕ
  pub state : ProcessingState
  pub analysis : Option StructuredAnalysis
  pub failure : Option FailedCallSummary

-- `SECTION_COPY`
abbrev pub title_of : ReportSectionKind → String
title_of immediate_attention = "Immediate attention"
title_of potential_new_matters = "Potential new matters"
title_of time_sensitive_dates = "Time-sensitive dates"
title_of dissatisfaction_escalation = "Dissatisfaction and escalation"
title_of staff_commitments = "Staff commitments"
title_of administrative_tasks = "Administrative tasks"
title_of routine_no_action = "Routine / no action"
title_of processing_failures = "Processing failures"

abbrev pub description_of : ReportSectionKind → String
description_of immediate_attention =
    "High-priority synthetic findings that should be reviewed first."
description_of potential_new_matters =
    "Calls containing a supported request for a new consultation."
description_of time_sensitive_dates =
    "Confirmed and explicitly unverified date references for human review."
description_of dissatisfaction_escalation =
    "Supported dissatisfaction indicators that may need supervisory review."
description_of staff_commitments = "Commitments stated by staff, with exact transcript evidence."
description_of administrative_tasks =
    "Supported follow-up and administrative requests for human handling."
description_of routine_no_action = "Routine informational calls that do not suggest further action."
description_of processing_failures =
    "Calls without a reviewable result, shown without call content."

abbrev pub priority_value : Priority → String
priority_value Priority.immediate = "immediate"
priority_value Priority.high = "high"
priority_value Priority.normal = "normal"
priority_value Priority.low = "low"

abbrev date_evidence : List DateFact → List EvidenceReference
date_evidence [] = []
date_evidence (d ∷ rest) = d.evidence ++ date_evidence rest

abbrev commitment_evidence : List StaffCommitment → List EvidenceReference
commitment_evidence [] = []
commitment_evidence (c ∷ rest) = c.evidence ++ commitment_evidence rest

abbrev finding_evidence : List Finding → List EvidenceReference
finding_evidence [] = []
finding_evidence (f ∷ rest) = f.evidence ++ finding_evidence rest

abbrev request_evidence : StructuredAnalysis → List EvidenceReference
request_evidence a = a.facts.caller_request.evidence ++ a.facts.requested_follow_up.evidence

abbrev all_finding_evidence : StructuredAnalysis → List EvidenceReference
all_finding_evidence a = finding_evidence (
    a.attorney_attention_issues
    ++ (a.dissatisfaction_indicators ++ (a.omitted_information_findings ++ a.findings)))

unfoldable pub candidates : StructuredAnalysis → ReportSectionKind → List EvidenceReference
candidates a staff_commitments = commitment_evidence a.facts.staff_commitments
candidates a time_sensitive_dates = date_evidence a.facts.dates
candidates a dissatisfaction_escalation = finding_evidence a.dissatisfaction_indicators
candidates a potential_new_matters = request_evidence a
candidates a administrative_tasks = request_evidence a
candidates a routine_no_action = request_evidence a
candidates a immediate_attention = all_finding_evidence a
candidates a processing_failures = all_finding_evidence a

-- `setdefault` by the segment: the first reference to each.
abbrev pub first_of_each : (seen : List String) → List EvidenceReference → List EvidenceReference
first_of_each seen [] = []
first_of_each seen (r ∷ rest) =
    let known = first_of_each seen rest in
    let new = r ∷ first_of_each (r.segment_id ∷ seen) rest in
    if any (λ s. s == r.segment_id) seen then known else new

unfoldable pub evidence_for : StructuredAnalysis → ReportSectionKind → List EvidenceReference
unfolding candidates
evidence_for a section = first_of_each [] (candidates a section)

abbrev is_urgent : Priority → Bool
is_urgent Priority.immediate = true
is_urgent Priority.high = true
is_urgent Priority.normal = false
is_urgent Priority.low = false

abbrev is_new_intake : AnalysisCategory → Bool
is_new_intake AnalysisCategory.new_intake = true
is_new_intake _ = false

abbrev is_dissatisfaction : AnalysisCategory → Bool
is_dissatisfaction AnalysisCategory.dissatisfaction_escalation = true
is_dissatisfaction _ = false

abbrev is_administrative : AnalysisCategory → Bool
is_administrative AnalysisCategory.administrative = true
is_administrative AnalysisCategory.existing_client_follow_up = true
is_administrative AnalysisCategory.unknown = true
is_administrative _ = false

abbrev is_routine : AnalysisCategory → Bool
is_routine AnalysisCategory.routine_no_action = true
is_routine _ = false

abbrev is_nonempty {ℓ} : {A : Type ℓ} → List A → Bool
is_nonempty [] = false
is_nonempty (x ∷ xs) = true

abbrev pub when : Bool → ReportSectionKind → List ReportSectionKind
when true kind = kind ∷ []
when false kind = []

unfoldable pub sections_for : StructuredAnalysis → List ReportSectionKind
sections_for a =
    when (is_urgent a.priority) immediate_attention
    ++ (when (is_new_intake a.category) potential_new_matters
        ++ (when (is_nonempty a.facts.dates) time_sensitive_dates
            ++ (when (is_dissatisfaction a.category || is_nonempty a.dissatisfaction_indicators)
                  dissatisfaction_escalation
                ++ (when (any (λ c. is_present c.state) a.facts.staff_commitments) staff_commitments
                    ++ (when (is_administrative a.category) administrative_tasks
                        ++ when (is_routine a.category) routine_no_action)))))

-- SHA-256 of a text, its first 32 digits.
module _ (digest : String → String) where
  abbrev pub identifier : String → String → String
  identifier a b = digest (joined a b)

  abbrev pub analysis_item : ReportCallInput → ReportSectionKind → StructuredAnalysis → ReportItem
  analysis_item call section a = record {
    item_id = identifier call.source_call_id (kind_value section);
    call_id = call.call_id;
    synthetic_reference = call.synthetic_reference;
    analysis_id = some a.analysis_id;
    kind = section;
    summary = a.summary;
    category = some a.category;
    priority = priority_value a.priority;
    confidence = some a.confidence;
    responsible_role = some a.responsible_role;
    suggested_timing = a.suggested_response_timing;
    evidence = evidence_for a section;
    provenance = some a.provenance;
    failure = none;
  }

  abbrev pub failure_item : ReportCallInput → ReportSectionKind → FailedCallSummary → ReportItem
  failure_item call section failure = record {
    item_id = identifier call.source_call_id (kind_value section);
    call_id = call.call_id;
    synthetic_reference = call.synthetic_reference;
    analysis_id = none;
    kind = section;
    summary = "This synthetic call did not produce a reviewable result.";
    category = none;
    priority = "failure";
    confidence = none;
    responsible_role = none;
    suggested_timing = none;
    evidence = [];
    provenance = none;
    failure = some failure;
  }

  abbrev pub item_of :
      ReportCallInput
      → ReportSectionKind
      → Option StructuredAnalysis
      → Option FailedCallSummary
      → Result ReportItem
  item_of call section (some a) failure = ok (analysis_item call section a)
  item_of call section none (some f) = ok (failure_item call section f)
  item_of call section none none =
      err (value_error "failure report items require a sanitized failure")

  unfoldable pub report_item : ReportCallInput → ReportSectionKind → Result ReportItem
  unfolding evidence_for
  report_item call section = item_of call section call.analysis call.failure
