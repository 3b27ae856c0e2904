-- ===== src/Reporting/Aggregate.antt =====
-- `aggregate_daily_report` of packages/review/reporting.py. A set of texts is the list of its members
-- without repetition. The sections are grouped one after the other, since no step of the grouping
-- depends on another.
use phone_law.Prelude.{
  ℕ, String, Bool, false, ◌&&◌, ◌||◌, not, Option, none, some, List, [], ◌∷◌, ◌==◌, any, is_some,
  if◌then◌else◌, length, select, map, order_by, ltb, eqb, text_lt,
}
use phone_law.Prelude.Outcome.{Result, ok, ◌>>=◌}
use phone_law.Contracts.Analysis.{StructuredAnalysis}
use phone_law.Reporting.Contracts.{
  ReportStatus, ReportSectionKind, ReportReconciliation, LateCallMarker, ReportItem, ReportSection,
  DailyReport, complete, partial, failed, zero_activity, processing_failures, every_kind, same_kind,
  counts_reconcile, required_section_order,
}
use phone_law.Reporting.Sections.{
  ReportCallInput, title_of, description_of, sections_for, report_item,
}
use phone_law.Reporting.Texts.{joined}

-- `set(…)`
abbrev pub distinct : List String → List String
distinct [] = []
distinct (s ∷ rest) =
    let known = distinct rest in if any (λ t. t == s) rest then known else s ∷ known

abbrev pub is_member : String → List String → Bool
is_member s texts = any (λ t. t == s) texts

abbrev pub difference : List String → List String → List String
difference a b = select (λ s. not (is_member s b)) a

abbrev pub source_ids : List ReportCallInput → List String
source_ids calls = map (λ c. c.source_call_id) calls

abbrev pub is_eligible : List String → ReportCallInput → Bool
is_eligible expected c = is_member c.source_call_id expected

abbrev pub is_late : ℕ → ReportCallInput → Bool
is_late cutoff_at c = ltb cutoff_at c.received_at

abbrev pub is_analyzed : ReportCallInput → Bool
is_analyzed c = is_some c.analysis

abbrev pub is_failed : ReportCallInput → Bool
is_failed c = is_some c.failure && not (is_some c.analysis)

abbrev pub reconciliation_of :
    (expected : List String)
    → (cutoff_at duplicate_deliveries : ℕ) → (eligible : List ReportCallInput)
    → ReportReconciliation
reconciliation_of expected cutoff_at duplicate_deliveries eligible = record {
  expected = length (distinct expected);
  received = length (distinct (source_ids eligible));
  duplicate_deliveries = duplicate_deliveries;
  analyzed = length (select is_analyzed eligible);
  failed = length (select is_failed eligible);
  missing = length (difference (distinct expected) (source_ids eligible));
  late = length (select (is_late cutoff_at) eligible);
}

unfoldable pub status_of : ReportReconciliation → ReportStatus
status_of r =
    if eqb r.expected 0
    then zero_activity
    else if eqb r.analyzed r.expected && (eqb r.failed 0 && (eqb r.late 0 && eqb r.missing 0))
    then complete
    else if ltb 0 r.analyzed
    then partial
    else failed

abbrev pub explanation_of : ReportStatus → String
explanation_of zero_activity = "No eligible synthetic calls were expected or received on this date."
explanation_of complete =
    "Every expected eligible synthetic call was received and analyzed by cutoff."
explanation_of partial =
    "At least one call is reviewable, but coverage is incomplete because a call is missing, late, or failed."
explanation_of failed = "No reviewable synthetic call result could be produced."

-- A pair of a group.
pub record Entry : Type 0 where
  pub call : ReportCallInput
  pub item : ReportItem

abbrev pub has_section : ReportSectionKind → Option StructuredAnalysis → Bool
has_section section none = false
has_section section (some a) = any (λ k. same_kind k section) (sections_for a)

-- Whether a call has an item in a section.
abbrev pub belongs : ReportSectionKind → ReportCallInput → Bool
belongs section c =
    has_section section c.analysis || (same_kind section processing_failures && is_failed c)

-- `PRIORITY_ORDER`
abbrev pub priority_order : String → ℕ
priority_order p =
    if p == "immediate"
    then 0
    else if p == "high"
    then 1
    else if p == "normal"
    then 2
    else if p == "low"
    then 3
    else 4

-- The keys of the sections and of the late calls, compared as tuples.
abbrev pub entry_before : Entry → Entry → Bool
entry_before x y =
    let p = priority_order x.item.priority in
    let q = priority_order y.item.priority in
    ltb p q
    || (eqb p q
        && (ltb x.call.occurred_at y.call.occurred_at
            || (eqb x.call.occurred_at y.call.occurred_at
                && (text_lt x.call.synthetic_reference y.call.synthetic_reference
                    || (x.call.synthetic_reference == y.call.synthetic_reference
                        && text_lt x.item.item_id y.item.item_id)))))

abbrev pub later_before : ReportCallInput → ReportCallInput → Bool
later_before x y =
    ltb x.received_at y.received_at
    || (eqb x.received_at y.received_at && text_lt x.synthetic_reference y.synthetic_reference)

abbrev pub late_marker : ℕ → ReportCallInput → LateCallMarker
late_marker cutoff_at c = record {
  call_id = c.call_id;
  synthetic_reference = c.synthetic_reference;
  received_at = c.received_at;
  cutoff_at = cutoff_at;
}

-- What `aggregate_daily_report` is called with, but for the calls.
pub record ReportRequest : Type 0 where
  pub business_date : String
  pub cutoff_at : ℕ
  pub expected_source_call_ids : List String
  pub duplicate_deliveries : ℕ
  pub version : ℕ
  pub fingerprint : String

module _ (digest : String → String) where
  unfoldable pub grouped : ReportSectionKind → List ReportCallInput → Result (List Entry)
  unfolding report_item sections_for
  grouped section [] = ok []
  grouped section (c ∷ rest) =
      let others = grouped section rest in
      if belongs section c
      then (report_item digest c section
          >>= (λ item. others >>= (λ entries. ok (record { call = c; item = item } ∷ entries))))
      else others

  abbrev pub section_of : ReportSectionKind → List Entry → ReportSection
  section_of section entries = record {
    kind = section;
    title = title_of section;
    description = description_of section;
    items = map (λ e. e.item) (order_by entry_before entries);
  }

  unfoldable pub sections_of :
      List ReportSectionKind → List ReportCallInput → Result (List ReportSection)
  unfolding grouped
  sections_of [] calls = ok []
  sections_of (section ∷ rest) calls =
      let others = sections_of rest calls in
      grouped section calls
      >>= (λ entries. others >>= (λ sections. ok (section_of section entries ∷ sections)))

  abbrev pub report_of :
      ReportRequest → List ReportCallInput → ReportReconciliation → List ReportSection → DailyReport
  report_of q eligible reconciliation sections = record {
    expected_source_call_ids = q.expected_source_call_ids;
    report_id = digest (joined q.business_date q.fingerprint);
    business_date = q.business_date;
    cutoff_at = q.cutoff_at;
    version = q.version;
    generated_at = q.cutoff_at;
    completeness = record {
      status = status_of reconciliation;
      explanation = explanation_of (status_of reconciliation);
      reconciliation = reconciliation;
    };
    sections = sections;
    late_calls =
        map (late_marker q.cutoff_at)
          (order_by later_before (select (is_late q.cutoff_at) eligible));
  }

  -- The contracts are checked as they are built: the reconciliation first, the report last.
  unfoldable pub aggregate_eligible : ReportRequest → List ReportCallInput → Result DailyReport
  unfolding sections_of counts_reconcile required_section_order status_of
  aggregate_eligible q eligible =
      let r =
        reconciliation_of q.expected_source_call_ids q.cutoff_at q.duplicate_deliveries eligible in
      counts_reconcile r >>= (λ _. sections_of every_kind eligible >>= (λ sections.
        let report = report_of q eligible r sections in
        required_section_order report >>= (λ _. ok report)))

  unfoldable pub aggregate_daily_report : ReportRequest → List ReportCallInput → Result DailyReport
  unfolding aggregate_eligible
  aggregate_daily_report q calls =
      aggregate_eligible q (select (is_eligible q.expected_source_call_ids) calls)
