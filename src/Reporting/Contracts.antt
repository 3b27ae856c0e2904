-- ===== src/Reporting/Contracts.antt =====
-- The reports of packages/contracts/report.py. A date is its text; the fields that are one constant
-- (schema, time zone, notice, `synthetic`) are left out.
use phone_law.Prelude.{
  ℕ, ◌+◌, ◌-◌, String, Bool, true, false, ◌&&◌, not, Option, List, [], ◌∷◌, map, leb, eqb,
  if◌then◌else◌,
}
use phone_law.Prelude.Outcome.{Checked, ok, err, require, value_error}
use phone_law.Calls.State.{ProcessingState}
use phone_law.Contracts.Events.{Provenance}
use phone_law.Contracts.Analysis.{AnalysisCategory, Confidence, ResponsibleRole, EvidenceReference}

pub data ReportStatus : Type 0 where
  complete partial failed zero_activity : ReportStatus

pub data ReportSectionKind : Type 0 where
  immediate_attention potential_new_matters time_sensitive_dates : ReportSectionKind
  dissatisfaction_escalation staff_commitments administrative_tasks : ReportSectionKind
  routine_no_action processing_failures : ReportSectionKind

-- `tuple(ReportSectionKind)`
abbrev pub every_kind : List ReportSectionKind
every_kind =
    immediate_attention ∷ potential_new_matters ∷ time_sensitive_dates ∷ dissatisfaction_escalation
    ∷ staff_commitments ∷ administrative_tasks ∷ routine_no_action ∷ processing_failures ∷ []

abbrev pub same_kind : ReportSectionKind → ReportSectionKind → Bool
same_kind immediate_attention immediate_attention = true
same_kind potential_new_matters potential_new_matters = true
same_kind time_sensitive_dates time_sensitive_dates = true
same_kind dissatisfaction_escalation dissatisfaction_escalation = true
same_kind staff_commitments staff_commitments = true
same_kind administrative_tasks administrative_tasks = true
same_kind routine_no_action routine_no_action = true
same_kind processing_failures processing_failures = true
same_kind _ _ = false

abbrev pub kind_value : ReportSectionKind → String
kind_value immediate_attention = "immediate_attention"
kind_value potential_new_matters = "potential_new_matters"
kind_value time_sensitive_dates = "time_sensitive_dates"
kind_value dissatisfaction_escalation = "dissatisfaction_escalation"
kind_value staff_commitments = "staff_commitments"
kind_value administrative_tasks = "administrative_tasks"
kind_value routine_no_action = "routine_no_action"
kind_value processing_failures = "processing_failures"

pub record ReportReconciliation : Type 0 where
  pub expected : ℕ
  pub received : ℕ
  pub duplicate_deliveries : ℕ
  pub analyzed : ℕ
  pub failed : ℕ
  pub missing : ℕ
  pub late : ℕ

unfoldable pub counts_reconcile : ReportReconciliation → Checked
counts_reconcile r =
    if not (leb r.received r.expected)
    then err (value_error "received unique calls cannot exceed expected eligible calls")
    else if not (eqb (r.analyzed + r.failed) r.received)
    then err (value_error "received calls must reconcile to analyzed and failed calls")
    else if not (eqb r.missing (r.expected - r.received))
    then err (value_error "missing count must reconcile expected and received calls")
    else ok tt

pub record ReportCompleteness : Type 0 where
  pub status : ReportStatus
  pub explanation : String
  pub reconciliation : ReportReconciliation

pub record FailedCallSummary : Type 0 where
  pub call_id : String
  pub synthetic_reference : String
  pub failed_stage : String
  pub diagnostic_code : String
  pub retryable : Bool
  pub terminal_state : ProcessingState

pub record LateCallMarker : Type 0 where
  pub call_id : String
  pub synthetic_reference : String
  pub received_at : ℕ
  pub cutoff_at : ℕ

pub record ReportItem : Type 0 where
  pub item_id : String
  pub call_id : String
  pub synthetic_reference : String
  pub analysis_id : Option String
  pub kind : ReportSectionKind
  pub summary : String
  pub category : Option AnalysisCategory
  pub priority : String
  pub confidence : Option Confidence
  pub responsible_role : Option ResponsibleRole
  pub suggested_timing : Option String
  pub evidence : List EvidenceReference
  pub provenance : Option Provenance
  pub failure : Option FailedCallSummary

pub record ReportSection : Type 0 where
  pub kind : ReportSectionKind
  pub title : String
  pub description : String
  pub items : List ReportItem

pub record DailyReport : Type 0 where
  pub expected_source_call_ids : List String
  pub report_id : String
  pub business_date : String
  pub cutoff_at : ℕ
  pub version : ℕ
  pub generated_at : ℕ
  pub completeness : ReportCompleteness
  pub sections : List ReportSection
  pub late_calls : List LateCallMarker

abbrev pub same_kinds : List ReportSectionKind → List ReportSectionKind → Bool
same_kinds [] [] = true
same_kinds (a ∷ as_) (b ∷ bs) = same_kind a b && same_kinds as_ bs
same_kinds _ _ = false

unfoldable pub required_section_order : DailyReport → Checked
required_section_order report =
    require (same_kinds (map (λ s. s.kind) report.sections) every_kind)
      (value_error "daily report sections must use the required deterministic order") (ok tt)
