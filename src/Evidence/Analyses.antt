-- ===== src/Evidence/Analyses.antt =====
-- What an analysis that `validate_analysis` passes rests on, and that nothing else is refused.
use phone_law.Prelude.{
  ℕ, String, ◌≡◌, refl, ◌↔◌, inl, inr, Bool, true, false, ◌&&◌, not, List, [], ◌∷◌, arith, any, All,
  All-map, if◌then◌else◌,
}
use phone_law.Prelude.Outcome.{Checked, ok, err, Result-cases}
use phone_law.Contracts.Analysis.{
  EvidenceReference, Transcript, Finding, StructuredAnalysis, AnalysisAcceptanceState, is_present,
}
use phone_law.Contracts.Validators.{
  is_unavailable, is_accepted_transcript, is_empty, require_unique_segments,
}
use phone_law.Evidence.{
  validate_evidence, validate_finding, validate_analysis, acceptance_state_for, check_all, ◌then◌,
  evidence_from_facts, findings_of, is_high_priority, is_accepted_analysis, reject_if,
}
use phone_law.Evidence.Support.{
  IsSupported, validate_evidence-IsSupported, IsSupported-validate_evidence,
}

-- A finding that matters cites something, and all that a finding cites is supported.
pub record IsBacked (t : Transcript) (duration : ℕ) (f : Finding) : Type 0 where
  pub cites : (f.material && is_empty f.evidence) ≡ false
  pub supported : All (λ r. IsSupported r t duration) f.evidence

-- What makes an analysis fit to be accepted.
pub record IsSound (a : StructuredAnalysis) (t : Transcript) (duration : ℕ) (verified : Bool)
    : Type 0 where
  pub timed : is_unavailable t.timestamp_availability ≡ false
  pub trusted : is_accepted_transcript t.validation_state ≡ true
  pub facts : All (λ r. IsSupported r t duration) (evidence_from_facts a.facts)
  pub findings : All (IsBacked t duration) (findings_of a)
  pub urgent :
      is_high_priority a.priority ≡ true
      → any (λ f. f.material && not (is_empty f.evidence)) (findings_of a) ≡ true
  pub identity : is_present a.facts.caller_identity.state ≡ true → verified ≡ true
  pub accepted : is_accepted_analysis a.acceptance_state ≡ true

then-ok : (c d : Checked) → (c then d) ≡ ok tt → (c ≡ ok tt) × (d ≡ ok tt)
then-ok (ok tt) d h = (refl, h)
then-ok (err e) d h = absurd (ground arith)

reject_if-ok :
    (b : Bool) (code : String) (rest : Checked)
    → reject_if b code rest ≡ ok tt
    → (b ≡ false) × (rest ≡ ok tt)
reject_if-ok true code rest h = absurd (ground arith)
reject_if-ok false code rest h = (refl, h)

not-false : (b : Bool) → not b ≡ false → b ≡ true
not-false b h = ground arith

implied : (a b : Bool) → (a && not b) ≡ false → a ≡ true → b ≡ true
implied a b h e = ground arith

not_implied : (a b : Bool) → (a ≡ true → b ≡ true) → (a && not b) ≡ false
not_implied true b h = rw (h refl)
not_implied false b h = refl

check_all-ok {ℓ} :
    {A : Type ℓ} (f : A → Checked) (xs : List A)
    → (check_all f xs ≡ ok tt) ↔ All (λ x. f x ≡ ok tt) xs
check_all-ok f [] = (λ h. tt, λ h. refl)
check_all-ok f (x ∷ xs) = (
  λ h. let (first, rest) = then-ok (f x) (check_all f xs) h in (first, (check_all-ok f xs).0 rest),
  λ h. rw (h.0, (check_all-ok f xs).1 h.1),
)

module _ (t : Transcript) (duration : ℕ) (unique : require_unique_segments t ≡ ok tt) where
  pub check_evidence-ok :
      (rs : List EvidenceReference)
      → (check_all (λ r. validate_evidence r t duration) rs ≡ ok tt)
        ↔ All (λ r. IsSupported r t duration) rs
  check_evidence-ok rs = (
    λ h.
        All-map (λ r. validate_evidence r t duration ≡ ok tt) (λ r. IsSupported r t duration)
          (λ r. validate_evidence-IsSupported r t duration) rs
          ((check_all-ok (λ r. validate_evidence r t duration) rs).0 h),
    λ h. (check_all-ok (λ r. validate_evidence r t duration) rs).1 (
        All-map (λ r. IsSupported r t duration) (λ r. validate_evidence r t duration ≡ ok tt)
          (λ r. IsSupported-validate_evidence r t duration unique) rs h),
  )

  pub validate_finding-ok :
      (f : Finding) → (validate_finding t duration f ≡ ok tt) ↔ IsBacked t duration f
  unfolding validate_finding
  validate_finding-ok f = (
    λ h. record {
      cites = ground arith;
      supported = (check_evidence-ok f.evidence).0 (ground arith);
    },
    λ h. rw (h.cites, (check_evidence-ok f.evidence).1 h.supported),
  )

  pub check_findings-ok :
      (fs : List Finding)
      → (check_all (validate_finding t duration) fs ≡ ok tt) ↔ All (IsBacked t duration) fs
  check_findings-ok fs = (
    λ h.
        All-map (λ f. validate_finding t duration f ≡ ok tt) (IsBacked t duration)
          (λ f. (validate_finding-ok f).0) fs ((check_all-ok (validate_finding t duration) fs).0 h),
    λ h. (check_all-ok (validate_finding t duration) fs).1 (
        All-map (IsBacked t duration) (λ f. validate_finding t duration f ≡ ok tt)
          (λ f. (validate_finding-ok f).1) fs h),
  )

  validate_analysis-ok :
      (a : StructuredAnalysis) (verified : Bool)
      → (validate_analysis a t duration verified ≡ ok tt) ↔ IsSound a t duration verified
  unfolding validate_analysis
  validate_analysis-ok a verified = (
    λ h.
        let (timed, h₁) = reject_if-ok _ _ _ h in
        let (trusted, h₂) = reject_if-ok _ _ _ h₁ in
        let (facts, h₃) = then-ok _ _ h₂ in
        let (findings, h₄) = then-ok _ _ h₃ in
        let (urgent, h₅) = reject_if-ok _ _ _ h₄ in
        let (identity, h₆) = reject_if-ok _ _ _ h₅ in
        let (accepted, _) = reject_if-ok _ _ _ h₆ in
        record {
          timed = timed;
          trusted = not-false _ trusted;
          facts = (check_evidence-ok (evidence_from_facts a.facts)).0 facts;
          findings = (check_findings-ok (findings_of a)).0 findings;
          urgent = implied _ _ urgent;
          identity = implied _ _ identity;
          accepted = not-false _ accepted;
        },
    λ h. rw (
      h.timed,
      h.trusted,
      (check_evidence-ok (evidence_from_facts a.facts)).1 h.facts,
      (check_findings-ok (findings_of a)).1 h.findings,
      not_implied _ _ h.urgent,
      not_implied _ _ h.identity,
      h.accepted,
    ),
  )

  -- In a transcript whose segment identifiers do not repeat, a candidate is classified as accepted
  -- exactly when it is sound: timestamps are there and the transcript is accepted; every cited
  -- reference of the facts and the findings is supported by a segment with its words, its speaker and
  -- bounds that enclose it; a material finding cites something; an output of high priority has a
  -- material finding that does; a verified identity has its metadata; the candidate says it is accepted.
  pub acceptance_state_for-IsSound :
      (a : StructuredAnalysis) (verified : Bool)
      → (acceptance_state_for a t duration verified ≡ AnalysisAcceptanceState.accepted)
        ↔ IsSound a t duration verified
  unfolding acceptance_state_for
  acceptance_state_for-IsSound a verified = (
    λ h. elim (Result-cases (validate_analysis a t duration verified)) [
      | inl (_, e) ↦ (validate_analysis-ok a verified).0 (cc)
      | inr (x, e) ↦ absurd (ground arith)
    ],
    λ h. rw ((validate_analysis-ok a verified).1 h),
  )
