-- ===== src/Reporting/Reconciliation.antt =====
-- When a daily report can be aggregated, and when it is complete.
use phone_law.Prelude.{
  ◌+◌, ◌<◌, String, ◌≡◌, ◌↔◌, refl, sym, ap, ◌∙◌, true, ◌&&◌, not, List, arith, any, all, select,
  length, IsUnique, IsUnique-select,
}
use phone_law.Prelude.Outcome.{ok, err, ok_inj, is_ok, ◌>>=◌, >>=-ok, Checked}
use phone_law.Reporting.Contracts.{
  ReportReconciliation, DailyReport, every_kind, counts_reconcile, required_section_order, complete,
}
use phone_law.Reporting.Sections.{ReportCallInput}
use phone_law.Reporting.Aggregate.{
  ReportRequest, is_analyzed, is_late, is_eligible, is_member, distinct, source_ids,
  reconciliation_of, status_of, report_of, aggregate_eligible, aggregate_daily_report,
}
use phone_law.Reporting.Counting.{
  distinct-IsUnique, distinct_of-IsUnique, length-difference, length-select-not,
}
use phone_law.Reporting.Arrangement.{arranged, sections_of-arranged}
use phone_law.Reporting.Totals.{
  is_settled, source_ids-IsUnique, length-source_ids, source_ids-All_expected, results-count,
  open-count, none-count, none_not-count, all-and, all-distinct, distinct-pos,
}

is_ok-checked {ℓ} :
    {A : Type ℓ} (x : Checked) (r : A) → (is_ok (x >>= (λ _. ok r)) ≡ true) ↔ (x ≡ ok tt)
is_ok-checked (ok u) r = (λ h. refl, λ h. refl)
is_ok-checked (err e) r = (λ h. absurd (ground arith), λ h. absurd (ground arith))

module _ (digest : String → String) (q : ReportRequest) where
  -- The counts of the calls that are expected.
  abbrev eligible_of : List ReportCallInput → List ReportCallInput
  eligible_of calls = select (is_eligible q.expected_source_call_ids) calls

  abbrev counts_of : List ReportCallInput → ReportReconciliation
  counts_of calls =
      reconciliation_of q.expected_source_call_ids q.cutoff_at q.duplicate_deliveries
        (eligible_of calls)

  counts_of-received :
      (calls : List ReportCallInput)
      → IsUnique (λ c. c.source_call_id) calls
      → ((counts_of calls).received ≡ length (eligible_of calls))
        × ((counts_of calls).received + (counts_of calls).missing ≡ (counts_of calls).expected)
  counts_of-received calls u =
      let eligible = eligible_of calls in
      let ids_unique = source_ids-IsUnique eligible (
        IsUnique-select (λ c. c.source_call_id) (is_eligible q.expected_source_call_ids) calls u) in
      let same = distinct_of-IsUnique (source_ids eligible) ids_unique in
      let received = ap (λ xs. length xs) same ∙ length-source_ids eligible in
      let left =
        length-difference (source_ids eligible) (distinct q.expected_source_call_ids) ids_unique
          (distinct-IsUnique q.expected_source_call_ids)
          (source_ids-All_expected q.expected_source_call_ids calls) in
      (received, omega (arith, received, left, length-source_ids eligible))

  counts_reconcile_iff :
      (r : ReportReconciliation)
      → r.received + r.missing ≡ r.expected
      → (counts_reconcile r ≡ ok tt) ↔ (r.analyzed + r.failed ≡ r.received)
  unfolding counts_reconcile
  counts_reconcile_iff r h = (λ e. ground arith, λ e. ground arith)

  section_order :
      (r : ReportReconciliation) (calls : List ReportCallInput)
      → required_section_order (report_of digest q calls r (arranged digest every_kind calls))
        ≡ ok tt
  unfolding required_section_order
  section_order r calls = refl

  -- Past the reconciliation nothing raises.
  aggregate_eligible-counts :
      (calls : List ReportCallInput)
      → (aggregate_eligible digest q (eligible_of calls)) ≡ (
          counts_reconcile (counts_of calls) >>= (λ _. ok (
            report_of digest q
              (eligible_of calls)
              (counts_of calls)
              (arranged digest every_kind (eligible_of calls)))))
  unfolding aggregate_eligible
  aggregate_eligible-counts calls =
      rw
        (
          sections_of-arranged digest every_kind (eligible_of calls),
          section_order (counts_of calls) (eligible_of calls),
        )
        refl

  pub aggregate_daily_report-version :
      (calls : List ReportCallInput) (report : DailyReport)
      → aggregate_daily_report digest q calls ≡ ok report
      → q.version ≡ report.version
  unfolding aggregate_daily_report
  aggregate_daily_report-version calls report h =
      let (_, checked, built) =
        >>=-ok (counts_reconcile (counts_of calls))
          (λ _. ok (
            report_of digest q (eligible_of calls) (counts_of calls)
              (arranged digest every_kind (eligible_of calls))))
          (sym (aggregate_eligible-counts calls) ∙ h) in
      ap (λ r. r.version) (ok_inj built)

  -- If no two calls have one source identifier, the report is aggregated exactly when every expected
  -- call that was received has an analysis or a failure.
  pub aggregate_daily_report-all_settled :
      (calls : List ReportCallInput)
      → IsUnique (λ c. c.source_call_id) calls
      → (is_ok (aggregate_daily_report digest q calls) ≡ true)
        ↔ (all is_settled (eligible_of calls) ≡ true)
  unfolding aggregate_daily_report
  aggregate_daily_report-all_settled calls u =
      let (received, left) = counts_of-received calls u in
      let sum = results-count (eligible_of calls) in
      let reconciled = counts_reconcile_iff (counts_of calls) left in
      let none_open = open-count (eligible_of calls) in
      let returned = is_ok-checked (counts_reconcile (counts_of calls)) (
        report_of digest q (eligible_of calls) (counts_of calls)
          (arranged digest every_kind (eligible_of calls))) in
      rw (aggregate_eligible-counts calls) (
        λ h. none_open.0 (omega (arith, received, sum, reconciled.0 (returned.0 h))),
        λ h. returned.1 (reconciled.1 (omega (arith, received, sum, none_open.1 h))),
      )

  complete-counts :
      (r : ReportReconciliation)
      → r.analyzed + r.failed ≡ r.received
      → r.received + r.missing ≡ r.expected
      → (status_of r ≡ complete)
        ↔ ((0 < r.expected) × (r.failed ≡ 0) × (r.late ≡ 0) × (r.missing ≡ 0))
  unfolding status_of
  complete-counts r h k = (λ e. ground arith, λ e. ground arith)

  -- If no two calls have one source identifier, the status of an aggregated report is `complete`
  -- exactly when some call is expected, every expected call was received, and every one of them was
  -- received by the cutoff and has an analysis.
  pub aggregate_daily_report-complete :
      (calls : List ReportCallInput) (report : DailyReport)
      → IsUnique (λ c. c.source_call_id) calls
      → aggregate_daily_report digest q calls ≡ ok report
      → (report.completeness.status ≡ complete) ↔ (
          (any (λ s. true) q.expected_source_call_ids ≡ true)
          × (all (λ s. is_member s (source_ids (eligible_of calls))) q.expected_source_call_ids
              ≡ true)
          × (all (λ c. is_analyzed c && not (is_late q.cutoff_at c)) (eligible_of calls) ≡ true))
  unfolding aggregate_daily_report
  aggregate_daily_report-complete calls report u h =
      let eligible = eligible_of calls in
      let (received, left) = counts_of-received calls u in
      let (_, checked, built) =
        >>=-ok (counts_reconcile (counts_of calls))
          (λ _.
            ok
              (report_of digest q eligible (counts_of calls) (arranged digest every_kind eligible)))
          (sym (aggregate_eligible-counts calls) ∙ h) in
      let reconciled = (counts_reconcile_iff (counts_of calls) left).0 checked in
      let status : status_of (counts_of calls) ≡ report.completeness.status =
        ap (λ r. r.completeness.status) (ok_inj built) in
      let counted = complete-counts (counts_of calls) reconciled left in
      let missing =
        none_not-count (λ s. is_member s (source_ids eligible))
          (distinct q.expected_source_call_ids) in
      let every =
        all-distinct (λ s. is_member s (source_ids eligible)) q.expected_source_call_ids in
      let late = none-count (is_late q.cutoff_at) eligible in
      let analyzed = none_not-count is_analyzed eligible in
      let both = all-and is_analyzed (λ c. not (is_late q.cutoff_at c)) eligible in
      let some_call = distinct-pos q.expected_source_call_ids in
      let rest = length-select-not is_analyzed eligible in
      (
        (λ e.
            let (pos, no_failed, no_late, no_missing) = counted.0 (status ∙ e) in
            (
              some_call.0 pos,
              sym every ∙ missing.0 no_missing,
              both.1 (
                analyzed.0 (omega (arith, received, reconciled, rest, no_failed)),
                late.0 no_late,
              ),
            )),
        (λ e.
            let (some_, members, good) = e in
            let (results, on_time) = both.0 good in
            sym status
            ∙ counted.1 (
              some_call.1 some_,
              omega (arith, received, reconciled, rest, analyzed.1 results),
              late.1 on_time,
              missing.1 (every ∙ members),
            )),
      )
