-- ===== src/Reporting/Order.antt =====
-- A daily report does not depend on the order in which the database returns the calls.
use phone_law.Prelude.{
  ℕ, String, ◌≡◌, ◌⊎◌, refl, sym, ap, ◌∙◌, subst, inl, inr, Bool, false, not, Option, none, some,
  List, [], ◌∷◌, ◌++◌, ◌==◌, eq_iff, arith, any, select, length, map, Bool-cases, IsUnique,
  Reordered, Reordered-refl, nil, cons, swap, trans, order_by, order_by-Reordered, any-Reordered,
  select-Reordered, length-Reordered, map-Reordered, IsUnique-select,
}
use mathlib.Core.Path.{fun_ext}
use phone_law.Prelude.Outcome.{Result, ok, ◌>>=◌}
use phone_law.Contracts.Analysis.{StructuredAnalysis}
use phone_law.Reporting.Contracts.{
  ReportSectionKind, ReportSection, DailyReport, ReportReconciliation, FailedCallSummary,
  processing_failures, same_kind, every_kind, counts_reconcile, required_section_order,
}
use phone_law.Reporting.Sections.{ReportCallInput, analysis_item, failure_item}
use phone_law.Reporting.Aggregate.{
  Entry, ReportRequest, has_section, is_failed, is_analyzed, is_late, is_eligible, distinct,
  difference, reconciliation_of, sections_of, entry_before, later_before, late_marker, report_of,
  aggregate_eligible, aggregate_daily_report,
}
use phone_law.Reporting.Arrangement.{contribution, entries, arranged, sections_of-arranged}
use phone_law.Reporting.Ranking.{entry_reference, entry_before-IsRanking, later_before-IsRanking}

module _ (digest : String → String) where
  -- A call contributes one entry, of its own, or none.
  contribution_cases :
      (section : ReportSectionKind) (c : ReportCallInput) (a : Option StructuredAnalysis)
      (f : Option FailedCallSummary)
      → (contribution digest section c a f ≡ [])
        ⊎ ((e : Entry) × (contribution digest section c a f ≡ e ∷ []) × (e.call ≡ c))
  contribution_cases section c (some a) f = elim (Bool-cases (has_section section (some a))) [
    | inl h ↦ inr (record { call = c; item = analysis_item digest c section a }, rw h refl, refl)
    | inr h ↦ inl (rw h refl)
  ]
  contribution_cases section c none (some f) =
      elim (Bool-cases (same_kind section processing_failures)) [
        | inl h ↦ inr (record { call = c; item = failure_item digest c section f }, rw h refl, refl)
        | inr h ↦ inl (rw h refl)
      ]
  contribution_cases section c none none = inl refl

  prepend :
      (es : List Entry) {xs ys : List Entry} → Reordered xs ys → Reordered (es ++ xs) (es ++ ys)
  prepend [] r = r
  prepend (e ∷ es) r = cons e (prepend es r)

  entries-Reordered :
      (section : ReportSectionKind) {xs ys : List ReportCallInput}
      → Reordered xs ys
      → Reordered (entries digest section xs) (entries digest section ys)
  entries-Reordered section nil = nil
  entries-Reordered section (cons c r) =
      prepend (contribution digest section c c.analysis c.failure) (entries-Reordered section r)
  entries-Reordered section (trans r s) =
      trans (entries-Reordered section r) (entries-Reordered section s)
  entries-Reordered section (swap c d rest) =
      elim (contribution_cases section c c.analysis c.failure) [
        | inl e ↦ rw e (Reordered-refl _)
        | inr (x, e, _) ↦ elim (contribution_cases section d d.analysis d.failure) [
          | inl f ↦ rw (e, f) (Reordered-refl _)
          | inr (y, f, _) ↦ rw (e, f) (swap x y (entries digest section rest))
        ]
      ]

  any-entries :
      (section : ReportSectionKind) (k : String) (calls : List ReportCallInput)
      → any (λ c. c.synthetic_reference == k) calls ≡ false
      → any (λ e. entry_reference e == k) (entries digest section calls) ≡ false
  any-entries section k [] h = refl
  any-entries section k (c ∷ rest) h = elim (contribution_cases section c c.analysis c.failure) [
    | inl e ↦ rw e (any-entries section k rest (ground arith))
    | inr (x, e, own) ↦
        let apart : (x.call.synthetic_reference == k) ≡ false =
          subst (λ d. (d.synthetic_reference == k) ≡ false) (sym own) (ground arith) in
        rw (e, apart) (any-entries section k rest (ground arith))
  ]

  entries-IsUnique :
      (section : ReportSectionKind) (calls : List ReportCallInput)
      → IsUnique (λ c. c.synthetic_reference) calls
      → IsUnique entry_reference (entries digest section calls)
  entries-IsUnique section [] u = tt
  entries-IsUnique section (c ∷ rest) u = elim (contribution_cases section c c.analysis c.failure) [
    | inl e ↦ rw e (entries-IsUnique section rest u.1)
    | inr (x, e, own) ↦ rw e (
      subst
          (λ d.
            any (λ y. entry_reference y == d.synthetic_reference) (entries digest section rest)
            ≡ false)
          (sym own) (any-entries section c.synthetic_reference rest u.0),
      entries-IsUnique section rest u.1,
    )
  ]

  arranged-Reordered :
      (kinds : List ReportSectionKind) {xs ys : List ReportCallInput}
      → Reordered xs ys
      → IsUnique (λ c. c.synthetic_reference) xs
      → arranged digest kinds xs ≡ arranged digest kinds ys
  arranged-Reordered [] r u = refl
  arranged-Reordered (section ∷ rest) {xs} {ys} r u =
      rw
        (
          order_by-Reordered entry_before entry_reference entry_before-IsRanking
              (entries-Reordered section r) (entries-IsUnique section xs u),
          arranged-Reordered rest r u,
        )
        refl

distinct-Reordered :
    {xs ys : List String} → Reordered xs ys → length (distinct xs) ≡ length (distinct ys)
distinct-Reordered nil = refl
distinct-Reordered (cons s {xs} {ys} r) =
    ground (arith, any-Reordered (λ t. t == s) r, distinct-Reordered r)
distinct-Reordered (swap s t xs) = elim (Bool-cases (s == t)) [
  | inl same ↦
      subst (λ x. length (distinct (s ∷ x ∷ xs)) ≡ length (distinct (x ∷ s ∷ xs)))
        ((eq_iff s t).0 same) refl
  | inr apart ↦ ground (arith, eq_iff s t, eq_iff t s)
]
distinct-Reordered (trans r s) = distinct-Reordered r ∙ distinct-Reordered s

difference-Reordered :
    (a : List String) {xs ys : List String} → Reordered xs ys → difference a xs ≡ difference a ys
difference-Reordered a r =
    ap (λ (p : String → Bool). select p a) (fun_ext (λ s. ap not (any-Reordered (λ t. t == s) r)))

reconciliation_of-Reordered :
    (expected : List String) (cutoff_at duplicates : ℕ) {xs ys : List ReportCallInput}
    → Reordered xs ys
    → reconciliation_of expected cutoff_at duplicates xs
      ≡ reconciliation_of expected cutoff_at duplicates ys
reconciliation_of-Reordered expected cutoff_at duplicates r =
    let ids = map-Reordered (λ (c : ReportCallInput). c.source_call_id) r in
    rw
      (
        distinct-Reordered ids,
        difference-Reordered (distinct expected) ids,
        length-Reordered (select-Reordered is_analyzed r),
        length-Reordered (select-Reordered is_failed r),
        length-Reordered (select-Reordered (is_late cutoff_at) r),
      )
      refl

module _ (digest : String → String) where
  -- The aggregation, of what it computes from the calls.
  abbrev finish :
      ReportRequest
      → ReportReconciliation
      → Result (List ReportSection)
      → List ReportCallInput
      → Result DailyReport
  finish q r sections late = counts_reconcile r >>= (λ _. sections >>= (λ done.
      let report = record (report_of digest q [] r done) {
        late_calls = map (late_marker q.cutoff_at) late;
      } in
      required_section_order report >>= (λ _. ok report)))

  aggregate_eligible-Reordered :
      (q : ReportRequest) {xs ys : List ReportCallInput}
      → Reordered xs ys
      → IsUnique (λ c. c.synthetic_reference) xs
      → aggregate_eligible digest q xs ≡ aggregate_eligible digest q ys
  unfolding aggregate_eligible
  aggregate_eligible-Reordered q {xs} {ys} r u =
      let late =
        order_by-Reordered later_before (λ c. c.synthetic_reference) later_before-IsRanking
          (select-Reordered (is_late q.cutoff_at) r)
          (IsUnique-select (λ c. c.synthetic_reference) (is_late q.cutoff_at) xs u) in
      let counts =
        reconciliation_of-Reordered q.expected_source_call_ids q.cutoff_at q.duplicate_deliveries
          r in
      let sections =
        sections_of-arranged digest every_kind xs
        ∙ (ap (λ s. ok s) (arranged-Reordered digest every_kind r u)
            ∙ sym (sections_of-arranged digest every_kind ys)) in
      ap
        (λ x.
          finish q x (sections_of digest every_kind xs)
            (order_by later_before (select (is_late q.cutoff_at) xs)))
        counts
      ∙ (ap
            (λ x.
              finish q
                (reconciliation_of q.expected_source_call_ids q.cutoff_at q.duplicate_deliveries ys)
                x (order_by later_before (select (is_late q.cutoff_at) xs)))
            sections
          ∙ ap
              (λ x.
                finish q
                  (reconciliation_of q.expected_source_call_ids q.cutoff_at q.duplicate_deliveries
                    ys)
                  (sections_of digest every_kind ys) x)
              late)

  -- Whatever order the calls come in, the report is the same, or the same error is raised, if no two
  -- of the calls have one reference.
  pub aggregate_daily_report-Reordered :
      (q : ReportRequest) (calls calls' : List ReportCallInput)
      → Reordered calls calls'
      → IsUnique (λ c. c.synthetic_reference) calls
      → aggregate_daily_report digest q calls ≡ aggregate_daily_report digest q calls'
  unfolding aggregate_daily_report
  aggregate_daily_report-Reordered q calls calls' r u =
      aggregate_eligible-Reordered q (select-Reordered (is_eligible q.expected_source_call_ids) r) (
        IsUnique-select (λ c. c.synthetic_reference) (is_eligible q.expected_source_call_ids) calls
          u)
