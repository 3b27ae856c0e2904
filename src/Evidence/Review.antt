-- ===== src/Evidence/Review.antt =====
-- Which candidates `acceptance_state_for` keeps for review: those of high priority that fail first
-- because a finding cites nothing.
use phone_law.Prelude.{
  ℕ, ◌≡◌, refl, ◌∙◌, ◌↔◌, ◌⊎◌, inl, inr, Bool, true, false, ◌&&◌, not, arith, any, All, Bool-cases,
}
use phone_law.Prelude.Outcome.{Exception, ok, err, Result-cases}
use phone_law.Contracts.Analysis.{Transcript, StructuredAnalysis, AnalysisAcceptanceState}
use phone_law.Contracts.Validators.{
  is_unavailable, is_accepted_transcript, is_empty, require_unique_segments,
}
use phone_law.Evidence.{
  validate_evidence, validate_finding, validate_analysis, acceptance_state_for, check_all,
  evidence_from_facts, findings_of, is_high_priority, is_missing_evidence,
}
use phone_law.Evidence.Support.{IsSupported}
use phone_law.Evidence.Citations.{
  HasUncited, is_missing, validate_evidence-is_missing, check_all-is_missing,
  check_findings-HasUncited,
}
use phone_law.Evidence.Analyses.{IsBacked, check_evidence-ok, check_findings-ok}

-- A candidate of high priority that is only short of citations: what comes before is in order, and a
-- finding that matters cites nothing, or the findings are in order but none that matters cites.
pub record IsUncited (a : StructuredAnalysis) (t : Transcript) (duration : ℕ) : Type 0 where
  pub high : is_high_priority a.priority ≡ true
  pub timed : is_unavailable t.timestamp_availability ≡ false
  pub trusted : is_accepted_transcript t.validation_state ≡ true
  pub facts : All (λ r. IsSupported r t duration) (evidence_from_facts a.facts)
  pub lacking :
      HasUncited t duration (findings_of a)
      ⊎ (All (IsBacked t duration) (findings_of a)
          × (any (λ f. f.material && not (is_empty f.evidence)) (findings_of a) ≡ false))

module _ (t : Transcript) (duration : ℕ) (unique : require_unique_segments t ≡ ok tt) where
  -- Where the loops over the facts and the findings pass, what is missing is a material citation.
  validate_analysis-is_missing :
      (a : StructuredAnalysis) (verified : Bool)
      → is_unavailable t.timestamp_availability ≡ false
      → is_accepted_transcript t.validation_state ≡ true
      → check_all (λ r. validate_evidence r t duration) (evidence_from_facts a.facts) ≡ ok tt
      → check_all (validate_finding t duration) (findings_of a) ≡ ok tt
      → is_missing (validate_analysis a t duration verified) ≡ (
          is_high_priority a.priority
          && not (any (λ f. f.material && not (is_empty f.evidence)) (findings_of a)))
  unfolding validate_analysis
  validate_analysis-is_missing a verified timed trusted facts findings =
      rw (timed, trusted, facts, findings) (ground arith)

  -- A candidate that is only short of citations has come past the checks before the findings.
  validate_analysis_past :
      (a : StructuredAnalysis) (verified : Bool)
      → is_missing (validate_analysis a t duration verified) ≡ true
      → (is_unavailable t.timestamp_availability ≡ false)
        × (is_accepted_transcript t.validation_state ≡ true)
        × (check_all (λ r. validate_evidence r t duration) (evidence_from_facts a.facts) ≡ ok tt)
  unfolding validate_analysis
  validate_analysis_past a verified h =
      elim (Bool-cases (is_unavailable t.timestamp_availability)) [
        | inl e ↦ absurd (let h' = rw e at h in ground arith)
        | inr timed ↦ elim (Bool-cases (is_accepted_transcript t.validation_state)) [
          | inr e ↦ absurd (let h' = rw (timed, e) at h in ground arith)
          | inl trusted ↦
              let other =
                check_all-is_missing (λ r. validate_evidence r t duration)
                  (evidence_from_facts a.facts) (λ r. validate_evidence-is_missing r t duration) in
              elim (Result-cases
                (check_all (λ r. validate_evidence r t duration) (evidence_from_facts a.facts))) [
                  | inl (_, e) ↦ (timed, trusted, e)
                  | inr (x, e) ↦ absurd (
                      let h' = rw (timed, trusted, e) at h in let o = rw e at other in ground arith)
                ]
        ]
      ]

  -- What `validate_analysis` says after the facts, by how the loop over the findings ends.
  validate_analysis-err :
      (a : StructuredAnalysis) (verified : Bool) {x : Exception}
      → is_unavailable t.timestamp_availability ≡ false
      → is_accepted_transcript t.validation_state ≡ true
      → check_all (λ r. validate_evidence r t duration) (evidence_from_facts a.facts) ≡ ok tt
      → check_all (validate_finding t duration) (findings_of a) ≡ err x
      → validate_analysis a t duration verified ≡ err x
  unfolding validate_analysis
  validate_analysis-err a verified timed trusted facts e = rw (timed, trusted, facts, e) refl

  missing-IsUncited :
      (a : StructuredAnalysis) (verified : Bool)
      → is_high_priority a.priority ≡ true
      → is_missing (validate_analysis a t duration verified) ≡ true
      → IsUncited a t duration
  missing-IsUncited a verified high h =
      let (timed, trusted, facts) = validate_analysis_past a verified h in
      let lacking : HasUncited t duration (findings_of a)
          ⊎ (All (IsBacked t duration) (findings_of a)
              × (any (λ f. f.material && not (is_empty f.evidence)) (findings_of a) ≡ false)) =
        elim (Result-cases (check_all (validate_finding t duration) (findings_of a))) [
          | inl (_, e) ↦
              let end = validate_analysis-is_missing a verified timed trusted facts e in
              inr ((check_findings-ok t duration unique (findings_of a)).0 e, ground arith)
          | inr (x, e) ↦
              let ends = validate_analysis-err a verified timed trusted facts e in
              let lost : is_missing_evidence x ≡ true = rw ends at h in
              inl ((check_findings-HasUncited t duration unique (findings_of a)).0 (rw e lost))
        ] in
      record {
        high = high;
        timed = timed;
        trusted = trusted;
        facts = (check_evidence-ok t duration unique (evidence_from_facts a.facts)).0 facts;
        lacking = lacking;
      }

  IsUncited-missing :
      (a : StructuredAnalysis) (verified : Bool)
      → IsUncited a t duration
      → is_missing (validate_analysis a t duration verified) ≡ true
  IsUncited-missing a verified u =
      let facts = (check_evidence-ok t duration unique (evidence_from_facts a.facts)).1 u.facts in
      elim u.lacking [
        | inl uncited ↦
            let lost = (check_findings-HasUncited t duration unique (findings_of a)).1 uncited in
            elim (Result-cases (check_all (validate_finding t duration) (findings_of a))) [
              | inl (_, e) ↦ absurd (let l = rw e at lost in ground arith)
              | inr (x, e) ↦
                  rw (validate_analysis-err a verified u.timed u.trusted facts e) (rw e at lost)
            ]
        | inr (backed, none_cites) ↦
            let passed = (check_findings-ok t duration unique (findings_of a)).1 backed in
            validate_analysis-is_missing a verified u.timed u.trusted facts passed
            ∙ rw (u.high, none_cites) refl
      ]

  -- In a transcript whose segment identifiers do not repeat, a candidate is kept for review exactly
  -- when it is of high priority, timestamps are there and the transcript is accepted, the evidence of
  -- the facts is supported, and citations are what is missing first: either a material finding cites
  -- nothing while every finding before it is backed, or all findings are backed but none that is
  -- material cites anything.
  pub acceptance_state_for-IsUncited :
      (a : StructuredAnalysis) (verified : Bool)
      → (acceptance_state_for a t duration verified ≡ AnalysisAcceptanceState.needs_review)
        ↔ IsUncited a t duration
  unfolding acceptance_state_for
  acceptance_state_for-IsUncited a verified = (
    λ h. elim (Result-cases (validate_analysis a t duration verified)) [
      | inl (_, e) ↦ absurd (let h' = rw e at h in ground arith)
      | inr (x, e) ↦
          let h' = rw e at h in
          let missing : is_missing (validate_analysis a t duration verified) ≡ true =
            rw e (ground arith) in
          missing-IsUncited a verified (ground arith) missing
    ],
    λ u.
        let missing = IsUncited-missing a verified u in
        elim (Result-cases (validate_analysis a t duration verified)) [
          | inl (_, e) ↦ absurd (let m = rw e at missing in ground arith)
          | inr (x, e) ↦
              let m : is_missing_evidence x ≡ true = rw e at missing in rw (e, u.high, m) refl
        ],
  )
