-- ===== src/Reporting/Regeneration.antt =====
-- What `generate_report` stores, and what it does when it is called again.
use phone_law.Prelude.{
  ℕ, ◌+◌, String, ◌≡◌, refl, sym, ap, ◌∙◌, subst, inl, inr, Bool, true, false, ◌&&◌, ◌||◌, not,
  Option, none, some, List, ◌∷◌, ◌==◌, eq_refl, eq_iff, arith, any, all, find, find-none_hidden,
  select, ltb, eqb, order_by, Bool-cases,
}
use phone_law.Prelude.Outcome.{Result, ok, err, ok_inj, ◌>>=◌, >>=-ok, integrity_error}
use phone_law.Reporting.Contracts.{DailyReport}
use phone_law.Reporting.Sections.{ReportCallInput}
use phone_law.Reporting.Aggregate.{ReportRequest, aggregate_daily_report}
use phone_law.Reporting.Reconciliation.{aggregate_daily_report-version}
use phone_law.Reporting.Inputs.{report_calls}
use phone_law.Reporting.Snapshots.{
  ReportRow, ReportItemRow, Reports, ReportSources, is_buried_report, is_snapshot_of,
  highest_version, is_taken_report, report_row, insert_sections, insert_report, generate_from,
  request_for, generate_with, generate_report, payload_of_first, report,
}
use phone_law.Reporting.Newest.{
  highest_version-bounds, all-order_by, insert_by_first, all-weaker, all-select, any-weaker,
}

module _ (sources : ReportSources) (business_date : String) (cutoff_at : ℕ)
    (expected : List String) where
  -- What is stored for a report that is not stored yet.
  insert_report-ok :
      (q : ReportRequest) (r : DailyReport) (t t' : Reports) (r' : DailyReport)
      → insert_report sources q r t ≡ ok (r', t')
      → (items : List ReportItemRow) × (r ≡ r')
        × (record t {
          daily_reports = report_row sources q r ∷ t.daily_reports;
          daily_report_items = items;
        }
            ≡ t')
  unfolding insert_report
  insert_report-ok q r t t' r' h =
      elim (Bool-cases (is_taken_report (report_row sources q r) t.daily_reports)) [
        | inl taken ↦ absurd (ground arith)
        | inr free ↦
            let (items, inserted, e) =
              >>=-ok (insert_sections sources r r.sections t.daily_report_items) _ (rw free at h) in
            (items, ap (λ p. p.0) (ok_inj e), ap (λ p. p.1) (ok_inj e))
      ]

  stored_again :
      (calls : List ReportCallInput) (t : Reports) (q : ReportRequest) (r : DailyReport)
      (items : List ReportItemRow)
      → q ≡ request_for sources business_date cutoff_at expected t calls
      → is_buried_report t r.report_id ≡ false
      → generate_with sources business_date cutoff_at expected
          (record t {
            daily_reports = report_row sources q r ∷ t.daily_reports;
            daily_report_items = items;
          })
          calls
        ≡ ok (
          r,
          record t {
            daily_reports = report_row sources q r ∷ t.daily_reports;
            daily_report_items = items;
          },
        )
  stored_again calls t q r items same kept =
      let asked = request_for sources business_date cutoff_at expected t calls in
      subst
        (λ x.
          generate_with sources business_date cutoff_at expected
            (record t {
              daily_reports = report_row sources x r ∷ t.daily_reports;
              daily_report_items = items;
            })
            calls
          ≡ ok (
            r,
            record t {
              daily_reports = report_row sources x r ∷ t.daily_reports;
              daily_report_items = items;
            },
          ))
        (sym same) (rw (eq_refl business_date, eq_refl asked.fingerprint, kept) refl)

  generate_from-again :
      (calls : List ReportCallInput) (t t' : Reports) (found : Option ReportRow) (r : DailyReport)
      → find
          (is_snapshot_of t business_date
            (request_for sources business_date cutoff_at expected t calls).fingerprint)
          t.daily_reports
        ≡ found
      → is_buried_report t r.report_id ≡ false
      → generate_from sources business_date cutoff_at expected calls
          (request_for sources business_date cutoff_at expected t calls)
          t
          found
        ≡ ok (r, t')
      → generate_with sources business_date cutoff_at expected t' calls ≡ ok (r, t')
  generate_from-again calls t t' (some row) r at kept h =
      let same : t ≡ t' = ap (λ p. p.1) (ok_inj h) in
      let payload : row.snapshot_payload ≡ r = ap (λ p. p.0) (ok_inj h) in
      subst (λ x. generate_with sources business_date cutoff_at expected x calls ≡ ok (r, x)) same
        (rw at (ap (λ x. Result.ok (x, t)) payload))
  generate_from-again calls t t' none r at kept h =
      let q = request_for sources business_date cutoff_at expected t calls in
      let (r₀, built, inserted) =
        >>=-ok (aggregate_daily_report sources.digest q calls) (λ x. insert_report sources q x t)
          h in
      let (items, same, there) = insert_report-ok q r₀ t t' r inserted in
      subst (λ x. generate_with sources business_date cutoff_at expected x calls ≡ ok (r, x)) there
        (subst
          (λ x.
            generate_with sources business_date cutoff_at expected
              (record t {
                daily_reports = report_row sources q x ∷ t.daily_reports;
                daily_report_items = items;
              })
              calls
            ≡ ok (
              r,
              record t {
                daily_reports = report_row sources q x ∷ t.daily_reports;
                daily_report_items = items;
              },
            ))
          (sym same) (stored_again calls t q r items refl kept))

  reviews_kept :
      (calls : List ReportCallInput) (t t' : Reports) (q : ReportRequest) (found : Option ReportRow)
      (r : DailyReport)
      → generate_from sources business_date cutoff_at expected calls q t found ≡ ok (r, t')
      → t.reviews ≡ t'.reviews
  reviews_kept calls t t' q (some row) r h = ap (λ p. p.1.reviews) (ok_inj h)
  reviews_kept calls t t' q none r h =
      let (r₀, built, inserted) =
        >>=-ok (aggregate_daily_report sources.digest q calls) (λ x. insert_report sources q x t)
          h in
      let (items, same, there) = insert_report-ok q r₀ t t' r inserted in ap (λ x. x.reviews) there

  newest_first :
      (t : Reports) (q : ReportRequest) (r : DailyReport) (items : List ReportItemRow)
      → is_buried_report t r.report_id ≡ false
      → q.business_date ≡ business_date
      → q.version ≡ highest_version business_date t.daily_reports + 1
      → report business_date (record t {
        daily_reports = report_row sources q r ∷ t.daily_reports;
        daily_report_items = items;
      })
        ≡ some r
  unfolding report
  newest_first t q r items kept day next =
      let bound =
        highest_version-bounds business_date q.version t.daily_reports (omega (arith, next)) in
      let selected =
        all-select (λ x. x.business_date == business_date && not (is_buried_report t x.id))
          (λ x. not (ltb q.version x.version)) t.daily_reports
          (all-weaker (λ x. not (x.business_date == business_date) || ltb x.version q.version)
            (λ x.
              not (x.business_date == business_date && not (is_buried_report t x.id))
              || not (ltb q.version x.version))
            (λ x m. ground arith) t.daily_reports bound) in
      let ordered =
        all-order_by (λ a b. ltb b.version a.version) (λ x. not (ltb q.version x.version)) _
          selected in
      let first =
        insert_by_first (λ a b. ltb b.version a.version) (report_row sources q r) _ ordered in
      let fresh = report_row sources q r in
      let shown : ReportRow → Bool =
        λ x. x.business_date == business_date && not (is_buried_report t x.id) in
      let own : shown fresh ≡ true = ground (arith, (eq_iff q.business_date business_date).1 day) in
      let listed : select shown (fresh ∷ t.daily_reports) ≡ fresh ∷ select shown t.daily_reports =
        rw own refl in
      ap (λ xs. payload_of_first (order_by (λ a b. ltb b.version a.version) xs)) listed
      ∙ ap payload_of_first first

  -- Once a report is generated, generating it again from unchanged calls returns the same report and
  -- stores nothing, unless retention has put a tombstone on it.
  pub generate_report-again :
      (t t' : Reports) (r : DailyReport)
      → generate_report sources business_date cutoff_at expected t ≡ ok (r, t')
      → is_buried_report t r.report_id ≡ false
      → generate_report sources business_date cutoff_at expected t' ≡ ok (r, t')
  unfolding generate_report
  generate_report-again t t' r h kept =
      let (calls, read, generated) =
        >>=-ok (report_calls sources.firm_date business_date t.reviews t.reviews.calls)
          (generate_with sources business_date cutoff_at expected t) h in
      let found =
        find
          (is_snapshot_of t business_date
            (request_for sources business_date cutoff_at expected t calls).fingerprint)
          t.daily_reports in
      let same =
        reviews_kept calls t t' (request_for sources business_date cutoff_at expected t calls) found
          r generated in
      let read' : report_calls sources.firm_date business_date t'.reviews t'.reviews.calls
          ≡ ok calls =
        subst (λ x. report_calls sources.firm_date business_date x x.calls ≡ ok calls) same read in
      ap (λ x. x >>= generate_with sources business_date cutoff_at expected t') read'
      ∙ generate_from-again calls t t' found r refl kept generated

  -- Where a report of the same business date and inputs is stored, and retention has put a tombstone
  -- on each report of that date and those inputs, it is not found and the new one cannot be stored
  -- beside it: if the calls are read and the report is built, `generate_report` raises an integrity
  -- error.
  pub generate_report-buried :
      (t : Reports) (calls : List ReportCallInput) (r : DailyReport)
      → report_calls sources.firm_date business_date t.reviews t.reviews.calls ≡ ok calls
      → aggregate_daily_report sources.digest
          (request_for sources business_date cutoff_at expected t calls)
          calls
        ≡ ok r
      → any
          (λ x.
            x.business_date == business_date
            && x.input_fingerprint
              == (request_for sources business_date cutoff_at expected t calls).fingerprint)
          t.daily_reports
        ≡ true
      → all
          (λ x.
            not (
              x.business_date == business_date
              && x.input_fingerprint
                == (request_for sources business_date cutoff_at expected t calls).fingerprint)
            || is_buried_report t x.id)
          t.daily_reports
        ≡ true
      → generate_report sources business_date cutoff_at expected t
        ≡ err (integrity_error "daily_reports")
  unfolding generate_report insert_report
  generate_report-buried t calls r read built there buried =
      let q = request_for sources business_date cutoff_at expected t calls in
      let same : ReportRow → Bool =
        λ x. x.business_date == business_date && x.input_fingerprint == q.fingerprint in
      let hidden =
        find-none_hidden (is_snapshot_of t business_date q.fingerprint) same
          (λ x. is_buried_report t x.id) t.daily_reports (λ x m. (ground arith, ground arith))
          buried in
      let taken : is_taken_report (report_row sources q r) t.daily_reports ≡ true =
        any-weaker same
          (λ x.
            x.id == r.report_id
            || (x.business_date == business_date
                && (eqb x.version q.version || x.input_fingerprint == q.fingerprint)))
          (λ x m. ground arith) t.daily_reports there in
      rw (read, hidden, built, taken) refl

  -- A report that was not stored before is the one that `report` returns for its date, under the next
  -- version, unless there is a tombstone on it.
  pub report-generate_report :
      (t t' : Reports) (calls : List ReportCallInput) (r : DailyReport)
      → report_calls sources.firm_date business_date t.reviews t.reviews.calls ≡ ok calls
      → find
          (is_snapshot_of t business_date
            (request_for sources business_date cutoff_at expected t calls).fingerprint)
          t.daily_reports
        ≡ none
      → is_buried_report t r.report_id ≡ false
      → generate_report sources business_date cutoff_at expected t ≡ ok (r, t')
      → (report business_date t' ≡ some r)
        × (r.version ≡ highest_version business_date t.daily_reports + 1)
  unfolding generate_report report
  report-generate_report t t' calls r read hidden kept h =
      let q = request_for sources business_date cutoff_at expected t calls in
      let h₁ : generate_with sources business_date cutoff_at expected t calls ≡ ok (r, t') =
        rw read at h in
      let h₂ : generate_from sources business_date cutoff_at expected calls q t none ≡ ok (r, t') =
        rw hidden at h₁ in
      let (r₀, built, inserted) =
        >>=-ok (aggregate_daily_report sources.digest q calls) (λ x. insert_report sources q x t)
          h₂ in
      let (items, same, there) = insert_report-ok q r₀ t t' r inserted in
      let version = aggregate_daily_report-version sources.digest q calls r₀ built in
      (
        subst (λ x. report business_date x ≡ some r) there
            (subst
              (λ x.
                report business_date (record t {
                  daily_reports = report_row sources q x ∷ t.daily_reports;
                  daily_report_items = items;
                })
                ≡ some r)
              (sym same) (newest_first t q r items kept refl refl)),
        sym (version ∙ ap (λ x. x.version) same),
      )
