-- ===== src/Reporting/Examples.antt =====
-- Invented reports: the aggregate of two calls, and the snapshots of a day with one failed call.
use phone_law.Prelude.{String, ◌≡◌, ◌↔◌, refl, true, false, none, some, List, [], ◌∷◌, swap}
use phone_law.Prelude.Outcome.{Result, ok, err, is_ok, integrity_error}
use phone_law.Calls.State.{analyzed, transcription_failed}
use phone_law.Contracts.Events.{
  IngestionDisposition, NormalizedCall, fixture, inbound, transcriber_unavailable,
}
use phone_law.Contracts.Samples.{sample_analysis, sample_provenance}
use phone_law.Calls.Tables.{Tables}
use phone_law.Calls.Outputs.{accepted_analysis_payload}
use phone_law.Reporting.Contracts.{
  DailyReport, FailedCallSummary, complete, counts_reconcile, required_section_order,
}
use phone_law.Reporting.Sections.{
  ReportCallInput, candidates, evidence_for, sections_for, report_item,
}
use phone_law.Reporting.Aggregate.{
  ReportRequest, status_of, grouped, sections_of, report_of, reconciliation_of, aggregate_eligible,
  aggregate_daily_report,
}
use phone_law.Reporting.Inputs.{report_calls}
use phone_law.Reporting.Snapshots.{
  Reports, ReportSources, insert_sections, insert_items, insert_report, generate_report, report,
}
use phone_law.Reporting.Reconciliation.{
  aggregate_daily_report-all_settled, aggregate_daily_report-complete,
}
use phone_law.Reporting.Order.{aggregate_daily_report-Reordered}
use phone_law.Reporting.Regeneration.{
  generate_report-again, generate_report-buried, report-generate_report,
}

abbrev analyzed_call : ReportCallInput
analyzed_call = record {
  call_id = "call-1";
  synthetic_reference = "CL-FX-001";
  source_call_id = "source-1";
  occurred_at = 1000;
  received_at = 2000;
  state = analyzed;
  analysis = some sample_analysis;
  failure = none;
}

abbrev outage : FailedCallSummary
outage = record {
  call_id = "call-2";
  synthetic_reference = "CL-FX-002";
  failed_stage = "transcription";
  diagnostic_code = "transcriber_unavailable";
  retryable = true;
  terminal_state = transcription_failed;
}

abbrev failed_call : ReportCallInput
failed_call = record {
  call_id = "call-2";
  synthetic_reference = "CL-FX-002";
  source_call_id = "source-2";
  occurred_at = 1500;
  received_at = 2500;
  state = transcription_failed;
  analysis = none;
  failure = some outage;
}

abbrev asked : List String → ReportRequest
asked expected = record {
  business_date = "2026-01-05";
  cutoff_at = 3000;
  expected_source_call_ids = expected;
  duplicate_deliveries = 0;
  version = 1;
  fingerprint = "inputs-1";
}

abbrev text_of : String → String
text_of s = s

aggregate_daily_report-Reordered_example :
    aggregate_daily_report text_of
      (asked ("source-1" ∷ "source-2" ∷ []))
      (analyzed_call ∷ failed_call ∷ [])
    ≡ aggregate_daily_report text_of
        (asked ("source-1" ∷ "source-2" ∷ []))
        (failed_call ∷ analyzed_call ∷ [])
aggregate_daily_report-Reordered_example =
    aggregate_daily_report-Reordered text_of (asked ("source-1" ∷ "source-2" ∷ []))
      (analyzed_call ∷ failed_call ∷ []) (failed_call ∷ analyzed_call ∷ [])
      (swap analyzed_call failed_call []) (refl, (refl, tt))

-- The second call is still being processed.
abbrev unsettled_call : ReportCallInput
unsettled_call = record failed_call { failure = none }

aggregate_daily_report-all_settled_example :
    (is_ok (
        aggregate_daily_report text_of
          (asked ("source-1" ∷ "source-2" ∷ []))
          (analyzed_call ∷ unsettled_call ∷ []))
      ≡ true)
    ↔ (false ≡ true)
aggregate_daily_report-all_settled_example =
    aggregate_daily_report-all_settled text_of (asked ("source-1" ∷ "source-2" ∷ []))
      (analyzed_call ∷ unsettled_call ∷ []) (refl, (refl, tt))

abbrev complete_report : Result DailyReport → DailyReport
complete_report (ok r) = r
complete_report (err e) = report_of text_of (asked []) [] (reconciliation_of [] 0 0 []) []

aggregate_daily_report-complete_example :
    (complete_report (
        aggregate_daily_report text_of
          (asked ("source-1" ∷ []))
          (analyzed_call ∷ []))).completeness.status
      ≡ complete
    ↔ ((true ≡ true) × (true ≡ true) × (true ≡ true))
unfolding aggregate_daily_report aggregate_eligible counts_reconcile required_section_order
    status_of sections_of grouped report_item evidence_for candidates sections_for
aggregate_daily_report-complete_example =
    aggregate_daily_report-complete text_of (asked ("source-1" ∷ [])) (analyzed_call ∷ [])
      (complete_report
        (aggregate_daily_report text_of (asked ("source-1" ∷ [])) (analyzed_call ∷ [])))
      (refl, tt) refl

-- A day with one call, whose transcription failed.
abbrev sample_call : NormalizedCall
sample_call = record {
  source = fixture;
  source_event_id = "event-2";
  source_call_id = "source-2";
  recording_id = none;
  occurred_at = 1500;
  direction = inbound;
  duration_seconds = 90;
  staff_extension = none;
  language_hint = none;
  media_reference = none;
  transcript_fixture_reference = some "CL-FX-002";
  caller_identity_verified = false;
  synthetic = true;
}

abbrev one_failure : Tables
one_failure = record {
  calls =
      record {
        id = "call-2";
        fixture_id = "CL-FX-002";
        source = fixture;
        source_call_id = "source-2";
        state = transcription_failed;
        is_synthetic = true;
        occurred_at = 1500;
        normalized_payload = sample_call;
        created_at = 2500;
      }
      ∷ [];
  events =
      record {
        id = "row-2";
        call_id = "call-2";
        source = fixture;
        source_event_id = "event-2";
        fixture_id = "CL-FX-002";
        disposition = IngestionDisposition.accepted;
        duplicate_delivery_count = 0;
        event_payload = record { fixture_id = "CL-FX-002"; received_at = 2500; call = sample_call };
        received_at = 2500;
      }
      ∷ [];
  attempts =
      record {
        id = "attempt-2";
        call_id = "call-2";
        attempt_number = 1;
        state = transcription_failed;
        failure_class = some transcriber_unavailable;
        diagnostic_code = some "transcriber_unavailable";
        retryable = some true;
        provenance_payload = sample_provenance "attempt-2";
        started_at = 2600;
        completed_at = some 2700;
      }
      ∷ [];
  transcripts = [];
  analyses = [];
  playbooks = [];
}

abbrev no_reports : Reports
no_reports = record {
  reviews = one_failure;
  daily_reports = [];
  daily_report_items = [];
  tombstones = [];
}

abbrev sample_sources : ReportSources
sample_sources = record {
  digest = text_of;
  fingerprint = λ p. "inputs-1";
  firm_date = λ t. "2026-01-05";
}

abbrev day_report : DailyReport
day_report =
    complete_report (aggregate_daily_report text_of (asked ("source-2" ∷ [])) (failed_call ∷ []))

abbrev reports_of : Result (DailyReport × Reports) → Reports
reports_of (ok (r, t)) = t
reports_of (err e) = no_reports

abbrev stored : Reports
stored = reports_of (generate_report sample_sources "2026-01-05" 3000 ("source-2" ∷ []) no_reports)

generate_report-again_example :
    generate_report sample_sources "2026-01-05" 3000 ("source-2" ∷ []) stored
    ≡ ok (day_report, stored)
unfolding generate_report report_calls accepted_analysis_payload insert_report insert_sections
    insert_items aggregate_daily_report aggregate_eligible counts_reconcile required_section_order
    status_of sections_of grouped report_item
generate_report-again_example =
    generate_report-again sample_sources "2026-01-05" 3000 ("source-2" ∷ []) no_reports stored
      day_report refl refl

report-generate_report_example :
    (report "2026-01-05" stored ≡ some day_report) × (day_report.version ≡ 1)
unfolding generate_report report_calls accepted_analysis_payload insert_report insert_sections
    insert_items aggregate_daily_report aggregate_eligible counts_reconcile required_section_order
    status_of sections_of grouped report_item
report-generate_report_example =
    report-generate_report sample_sources "2026-01-05" 3000 ("source-2" ∷ []) no_reports stored
      (failed_call ∷ []) day_report refl refl refl refl

-- Retention has put a tombstone on the report.
abbrev buried : Reports
buried = record stored { tombstones = day_report.report_id ∷ [] }

generate_report-buried_example :
    generate_report sample_sources "2026-01-05" 3000 ("source-2" ∷ []) buried
    ≡ err (integrity_error "daily_reports")
unfolding generate_report report_calls accepted_analysis_payload insert_report insert_sections
    insert_items aggregate_daily_report aggregate_eligible counts_reconcile required_section_order
    status_of sections_of grouped report_item
generate_report-buried_example =
    generate_report-buried sample_sources "2026-01-05" 3000 ("source-2" ∷ []) buried
      (failed_call ∷ []) (record day_report { version = 2 }) refl refl refl refl
