-- ===== src/Reporting/Snapshots.antt =====
-- `generate_report` and `report` of packages/database/review_experience.py: the reports that are
-- stored, with the constraints of their tables. The newest row of a table comes first.
use phone_law.Prelude.{
  ℕ, ◌+◌, max, String, Bool, ◌&&◌, ◌||◌, not, Option, none, some, List, [], ◌∷◌, ◌==◌, any, find,
  select, map, ltb, eqb, if◌then◌else◌, order_by, text_lt,
}
use phone_law.Prelude.Outcome.{Result, ok, err, ◌>>=◌, integrity_error}
use phone_law.Calls.State.{ProcessingState}
use phone_law.Contracts.Analysis.{StructuredAnalysis}
use phone_law.Calls.Tables.{Tables}
use phone_law.Reporting.Contracts.{
  ReportStatus, ReportSectionKind, FailedCallSummary, ReportItem, ReportSection, DailyReport,
}
use phone_law.Reporting.Texts.{joined}
use phone_law.Reporting.Sections.{ReportCallInput}
use phone_law.Reporting.Aggregate.{ReportRequest, aggregate_daily_report}
use phone_law.Reporting.Inputs.{report_calls, duplicate_deliveries}

pub record ReportRow : Type 0 where
  pub id : String
  pub business_date : String
  pub version : ℕ
  pub status : ReportStatus
  pub input_fingerprint : String
  pub cutoff_at : ℕ
  pub snapshot_payload : DailyReport
  pub generated_at : ℕ

pub record ReportItemRow : Type 0 where
  pub id : String
  pub report_id : String
  pub call_id : String
  pub analysis_id : Option String
  pub kind : ReportSectionKind
  pub position : ℕ
  pub item_payload : ReportItem

-- The tables of calls and of reports, and the identifiers of the reports with a tombstone.
pub record Reports : Type 0 where
  pub reviews : Tables
  pub daily_reports : List ReportRow
  pub daily_report_items : List ReportItemRow
  pub tombstones : List String

-- A row of the fingerprint, and the whole of it.
pub record FingerprintRow : Type 0 where
  pub source_call_id : String
  pub state : ProcessingState
  pub analysis : Option StructuredAnalysis
  pub failure : Option FailedCallSummary

pub record FingerprintPayload : Type 0 where
  pub business_date : String
  pub cutoff_at : ℕ
  pub expected : List String
  pub duplicates : ℕ
  pub calls : List FingerprintRow

-- What comes from outside: SHA-256 of a text (its first 32 digits) and of the JSON of a payload, and
-- the date of a time in the firm's time zone.
pub record ReportSources : Type 0 where
  pub digest : String → String
  pub fingerprint : FingerprintPayload → String
  pub firm_date : ℕ → String

abbrev pub is_buried_report : Reports → String → Bool
is_buried_report t id = any (λ x. x == id) t.tombstones

abbrev pub is_snapshot_of : Reports → String → String → ReportRow → Bool
is_snapshot_of t business_date fingerprint r =
    r.business_date == business_date
    && (r.input_fingerprint == fingerprint && not (is_buried_report t r.id))

abbrev pub highest_version : String → List ReportRow → ℕ
highest_version business_date [] = 0
highest_version business_date (r ∷ rest) =
    let others = highest_version business_date rest in
    if r.business_date == business_date then max r.version others else others

-- The primary key, `uq_daily_reports_date_version` and `uq_daily_reports_inputs`.
abbrev pub is_taken_report : ReportRow → List ReportRow → Bool
is_taken_report row rows =
    any
      (λ r.
        r.id == row.id
        || (r.business_date == row.business_date
            && (eqb r.version row.version || r.input_fingerprint == row.input_fingerprint)))
      rows

module _ (sources : ReportSources) where
  abbrev persisted_id : String → String → String
  persisted_id report_id item_id = sources.digest (joined report_id item_id)

  abbrev item_row : DailyReport → ReportSectionKind → (position : ℕ) → ReportItem → ReportItemRow
  item_row report section position item = record {
    id = persisted_id report.report_id item.item_id;
    report_id = report.report_id;
    call_id = item.call_id;
    analysis_id = item.analysis_id;
    kind = section;
    position = position;
    item_payload = item;
  }

  -- The primary key of the items; the position within a report and section is new by its
  -- numbering, and the calls and analyses that the items refer to were just read.
  unfoldable pub insert_items :
      DailyReport
      → ReportSectionKind
      → (position : ℕ) → List ReportItem
      → List ReportItemRow
      → Result (List ReportItemRow)
  insert_items report section position [] rows = ok rows
  insert_items report section position (item ∷ items) rows =
      let more =
        insert_items report section (position + 1) items
          (item_row report section position item ∷ rows) in
      if any (λ r. r.id == persisted_id report.report_id item.item_id) rows
      then err (integrity_error "daily_report_items")
      else more

  unfoldable pub insert_sections :
      DailyReport → List ReportSection → List ReportItemRow → Result (List ReportItemRow)
  unfolding insert_items
  insert_sections report [] rows = ok rows
  insert_sections report (section ∷ rest) rows =
      insert_items report section.kind 0 section.items rows >>= insert_sections report rest

  abbrev pub report_row : ReportRequest → DailyReport → ReportRow
  report_row q report = record {
    id = report.report_id;
    business_date = q.business_date;
    version = q.version;
    status = report.completeness.status;
    input_fingerprint = q.fingerprint;
    cutoff_at = q.cutoff_at;
    snapshot_payload = report;
    generated_at = report.generated_at;
  }

  unfoldable pub insert_report :
      ReportRequest → DailyReport → Reports → Result (DailyReport × Reports)
  unfolding insert_sections
  insert_report q report t =
      if is_taken_report (report_row q report) t.daily_reports
      then err (integrity_error "daily_reports")
      else (insert_sections report report.sections t.daily_report_items >>= (λ items. ok (
        report,
        record t {
          daily_reports = report_row q report ∷ t.daily_reports;
          daily_report_items = items;
        },
      )))

  abbrev fingerprint_row : ReportCallInput → FingerprintRow
  fingerprint_row c = record {
    source_call_id = c.source_call_id;
    state = c.state;
    analysis = c.analysis;
    failure = c.failure;
  }

  module _ (business_date : String) (cutoff_at : ℕ) (expected : List String) where
    abbrev payload_of : (duplicates : ℕ) → List ReportCallInput → FingerprintPayload
    payload_of duplicates calls = record {
      business_date = business_date;
      cutoff_at = cutoff_at;
      expected = order_by text_lt expected;
      duplicates = duplicates;
      calls =
          order_by (λ a b. text_lt a.source_call_id b.source_call_id) (map fingerprint_row calls);
    }

    abbrev request_of : (duplicates version : ℕ) → (fingerprint : String) → ReportRequest
    request_of duplicates version fingerprint = record {
      business_date = business_date;
      cutoff_at = cutoff_at;
      expected_source_call_ids = expected;
      duplicate_deliveries = duplicates;
      version = version;
      fingerprint = fingerprint;
    }

    -- A stored report of the same inputs is returned; otherwise the next version is stored, in a
    -- second transaction, before which nothing else is taken to be written.
    abbrev pub generate_from :
        List ReportCallInput
        → ReportRequest
        → Reports
        → Option ReportRow
        → Result (DailyReport × Reports)
    generate_from calls q t (some r) = ok (r.snapshot_payload, t)
    generate_from calls q t none =
        aggregate_daily_report sources.digest q calls >>= (λ report. insert_report q report t)

    abbrev pub request_for : Reports → List ReportCallInput → ReportRequest
    request_for t calls =
        let duplicates = duplicate_deliveries (map (λ c. c.call_id) calls) t.reviews.events in
        request_of duplicates (highest_version business_date t.daily_reports + 1)
          (sources.fingerprint (payload_of duplicates calls))

    abbrev pub generate_with : Reports → List ReportCallInput → Result (DailyReport × Reports)
    generate_with t calls =
        generate_from calls (request_for t calls) t
          (find (is_snapshot_of t business_date (request_for t calls).fingerprint) t.daily_reports)

    unfoldable pub generate_report : Reports → Result (DailyReport × Reports)
    unfolding report_calls aggregate_daily_report insert_report
    generate_report t =
        report_calls sources.firm_date business_date t.reviews t.reviews.calls >>= generate_with t

-- `report`: the highest version that has no tombstone.
abbrev pub payload_of_first : List ReportRow → Option DailyReport
payload_of_first [] = none
payload_of_first (r ∷ _) = some r.snapshot_payload

unfoldable pub report : String → Reports → Option DailyReport
report business_date t = payload_of_first (
    order_by (λ a b. ltb b.version a.version)
      (select (λ r. r.business_date == business_date && not (is_buried_report t r.id))
        t.daily_reports))
