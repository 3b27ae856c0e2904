-- ===== src/Evidence/Examples.antt =====
-- One invented analysis, checked against its transcript by evaluation.
use phone_law.Prelude.{◌≡◌, ◌↔◌, refl, false, [], ◌∷◌}
use phone_law.Contracts.Analysis.{StructuredAnalysis, AnalysisAcceptanceState}
use phone_law.Contracts.Validators.{require_unique_segments}
use phone_law.Contracts.Samples.{
  sample_transcript, sample_reference, sample_analysis, sample_finding,
}
use phone_law.Evidence.{
  validate_evidence, validate_finding, validate_analysis, acceptance_state_for, evidence_from_facts,
  findings_of, segment_of, contains,
}
use phone_law.Evidence.Support.{IsSupported, validate_evidence-IsSupported}
use phone_law.Evidence.Analyses.{IsSound, acceptance_state_for-IsSound}
use phone_law.Evidence.Review.{IsUncited, acceptance_state_for-IsUncited}

validate_evidence-IsSupported_example : IsSupported sample_reference sample_transcript 90
unfolding validate_evidence segment_of contains
validate_evidence-IsSupported_example =
    validate_evidence-IsSupported sample_reference sample_transcript 90 refl

sample-accepted :
    acceptance_state_for sample_analysis sample_transcript 90 false
    ≡ AnalysisAcceptanceState.accepted
unfolding acceptance_state_for validate_analysis validate_finding validate_evidence segment_of
    contains evidence_from_facts findings_of
sample-accepted = refl

acceptance_state_for-IsSound_example :
    (acceptance_state_for sample_analysis sample_transcript 90 false
      ≡ AnalysisAcceptanceState.accepted)
    ↔ IsSound sample_analysis sample_transcript 90 false
unfolding require_unique_segments
acceptance_state_for-IsSound_example =
    acceptance_state_for-IsSound sample_transcript 90 refl sample_analysis false

abbrev uncited : StructuredAnalysis
uncited = record sample_analysis { findings = record sample_finding { evidence = [] } ∷ [] }

acceptance_state_for-IsUncited_example :
    (acceptance_state_for uncited sample_transcript 90 false ≡ AnalysisAcceptanceState.needs_review)
    ↔ IsUncited uncited sample_transcript 90
unfolding require_unique_segments
acceptance_state_for-IsUncited_example =
    acceptance_state_for-IsUncited sample_transcript 90 refl uncited false

uncited_needs_review :
    acceptance_state_for uncited sample_transcript 90 false ≡ AnalysisAcceptanceState.needs_review
unfolding acceptance_state_for validate_analysis validate_finding validate_evidence segment_of
    contains evidence_from_facts findings_of
uncited_needs_review = refl
