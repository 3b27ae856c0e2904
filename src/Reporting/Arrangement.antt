-- ===== src/Reporting/Arrangement.antt =====
-- The sections of a report, as a list of what each call contributes.
use phone_law.Prelude.{
  String, ◌≡◌, refl, ◌&&◌, ◌||◌, not, Option, none, some, List, [], ◌∷◌, ◌++◌, arith, if◌then◌else◌,
  is_some,
}
use phone_law.Prelude.Outcome.{ok, ◌>>=◌}
use phone_law.Contracts.Analysis.{StructuredAnalysis}
use phone_law.Reporting.Contracts.{
  ReportSectionKind, ReportSection, FailedCallSummary, processing_failures, same_kind,
}
use phone_law.Reporting.Sections.{ReportCallInput, report_item, analysis_item, failure_item}
use phone_law.Reporting.Aggregate.{Entry, has_section, grouped, sections_of, section_of}

module _ (digest : String → String) where
  -- The entries of a call in a section: one, or none.
  abbrev pub contribution :
      ReportSectionKind
      → ReportCallInput
      → Option StructuredAnalysis
      → Option FailedCallSummary
      → List Entry
  contribution section c (some a) f =
      if has_section section (some a)
      then record { call = c; item = analysis_item digest c section a } ∷ []
      else []
  contribution section c none (some f) =
      if same_kind section processing_failures
      then record { call = c; item = failure_item digest c section f } ∷ []
      else []
  contribution section c none none = []

  abbrev pub entries : ReportSectionKind → List ReportCallInput → List Entry
  entries section [] = []
  entries section (c ∷ rest) = contribution section c c.analysis c.failure ++ entries section rest

  grouped_one :
      (section : ReportSectionKind) (c : ReportCallInput) (a : Option StructuredAnalysis)
      (f : Option FailedCallSummary) (others : List Entry)
      → (if has_section section a
            || (same_kind section processing_failures && (is_some f && not (is_some a)))
          then (report_item digest (record c { analysis = a; failure = f }) section >>= (λ item.
              ok (record { call = record c { analysis = a; failure = f }; item = item } ∷ others)))
          else ok others)
        ≡ ok (contribution section (record c { analysis = a; failure = f }) a f ++ others)
  unfolding report_item
  grouped_one section c (some a) (some f) others = ground arith
  grouped_one section c (some a) none others = ground arith
  grouped_one section c none (some f) others = ground arith
  grouped_one section c none none others = ground arith

  -- The grouping never raises.
  pub grouped-entries :
      (section : ReportSectionKind) (calls : List ReportCallInput)
      → grouped digest section calls ≡ ok (entries section calls)
  unfolding grouped
  grouped-entries section [] = refl
  grouped-entries section (c ∷ rest) =
      rw (grouped-entries section rest)
        (grouped_one section c c.analysis c.failure (entries section rest))

  abbrev pub arranged : List ReportSectionKind → List ReportCallInput → List ReportSection
  arranged [] calls = []
  arranged (section ∷ rest) calls =
      section_of digest section (entries section calls) ∷ arranged rest calls

  pub sections_of-arranged :
      (kinds : List ReportSectionKind) (calls : List ReportCallInput)
      → sections_of digest kinds calls ≡ ok (arranged kinds calls)
  unfolding sections_of
  sections_of-arranged [] calls = refl
  sections_of-arranged (section ∷ rest) calls =
      rw (grouped-entries section calls, sections_of-arranged rest calls) refl
