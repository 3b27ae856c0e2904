-- ===== src/Evidence/Citations.antt =====
-- Which check of `validate_analysis` fails because a finding lacks its citation.
use phone_law.Prelude.{
  ℕ, ◌≡◌, refl, sym, ◌∙◌, ◌↔◌, ◌⊎◌, inl, inr, Bool, true, false, ◌&&◌, List, [], ◌∷◌, arith,
  Bool-cases, Option-cases,
}
use phone_law.Prelude.Outcome.{Checked, ok, err, Result-cases}
use phone_law.Contracts.Analysis.{EvidenceReference, TranscriptSegment, Transcript, Finding}
use phone_law.Contracts.Validators.{is_empty, require_unique_segments}
use phone_law.Evidence.{
  validate_evidence, validate_finding, check_all, is_missing_evidence, segment_of, check_bounds,
  check_segment,
}
use phone_law.Evidence.Analyses.{IsBacked, validate_finding-ok}

-- A finding that matters cites nothing, and all that a finding before it cites is supported.
abbrev pub HasUncited : Transcript → ℕ → List Finding → Type 0
HasUncited t duration [] = true ≡ false
HasUncited t duration (f ∷ fs) =
    ((f.material && is_empty f.evidence) ≡ true)
    ⊎ (IsBacked t duration f × HasUncited t duration fs)

-- Whether a check fails because a citation is missing.
abbrev pub is_missing : Checked → Bool
is_missing (ok _) = false
is_missing (err e) = is_missing_evidence e

check_bounds-is_missing :
    (r : EvidenceReference) (s : TranscriptSegment) (start end : ℕ)
    → is_missing (check_bounds r s start end) ≡ false
check_bounds-is_missing r s start end = ground arith

check_segment-is_missing :
    (r : EvidenceReference) (duration : ℕ) (s : TranscriptSegment)
    → is_missing (check_segment r duration s) ≡ false
check_segment-is_missing r duration s = elim (Option-cases s.start_seconds) [
  | inl e ↦ rw e (ground arith)
  | inr (start, e) ↦ elim (Option-cases s.end_seconds) [
    | inl e' ↦ rw (e, e') (ground arith)
    | inr (end, e') ↦ rw (e, e') (let inner = check_bounds-is_missing r s start end in ground arith)
  ]
]

-- Evidence that is refused is refused for another reason.
pub validate_evidence-is_missing :
    (r : EvidenceReference) (t : Transcript) (duration : ℕ)
    → is_missing (validate_evidence r t duration) ≡ false
unfolding validate_evidence
validate_evidence-is_missing r t duration =
    elim (Option-cases (segment_of r.segment_id t.segments)) [
      | inl e ↦ rw e refl
      | inr (s, e) ↦ rw e (check_segment-is_missing r duration s)
    ]

pub check_all-is_missing {ℓ} :
    {A : Type ℓ} (f : A → Checked) (xs : List A)
    → ((x : A) → is_missing (f x) ≡ false)
    → is_missing (check_all f xs) ≡ false
check_all-is_missing f [] h = refl
check_all-is_missing f (x ∷ xs) h = elim (Result-cases (f x)) [
  | inl (_, e) ↦ rw e (check_all-is_missing f xs h)
  | inr (x', e) ↦ let first = h x in ground arith
]

module _ (t : Transcript) (duration : ℕ) (unique : require_unique_segments t ≡ ok tt) where
  validate_finding-is_missing :
      (f : Finding)
      → is_missing (validate_finding t duration f) ≡ (f.material && is_empty f.evidence)
  unfolding validate_finding
  validate_finding-is_missing f = elim (Bool-cases (f.material && is_empty f.evidence)) [
    | inl e ↦ rw e refl
    | inr e ↦ rw e (
        check_all-is_missing (λ r. validate_evidence r t duration) f.evidence
          (λ r. validate_evidence-is_missing r t duration))
  ]

  -- The loop over the findings ends at one that lacks its citation exactly when the findings before it
  -- are backed.
  pub check_findings-HasUncited :
      (fs : List Finding)
      → (is_missing (check_all (validate_finding t duration) fs) ≡ true) ↔ HasUncited t duration fs
  check_findings-HasUncited [] = (λ h. sym h, λ h. sym h)
  check_findings-HasUncited (f ∷ fs) = elim (Result-cases (validate_finding t duration f)) [
    | inl (_, e) ↦
        let backed = (validate_finding-ok t duration unique f).0 e in
        (
          λ h. inr (backed, (check_findings-HasUncited fs).0 (rw e at h)),
          λ u. elim u [
            | inl lacks ↦ absurd (let c = backed.cites in ground arith)
            | inr (_, later) ↦ rw e ((check_findings-HasUncited fs).1 later)
          ],
        )
    | inr (x, e) ↦ (
      λ h. inl (sym (validate_finding-is_missing f) ∙ (rw e (rw e at h))),
      λ u. elim u [
        | inl lacks ↦ let missing = validate_finding-is_missing f ∙ lacks in rw e (rw e at missing)
        | inr (backed, _) ↦
            let passed = (validate_finding-ok t duration unique f).1 backed in absurd (ground arith)
      ],
    )
  ]
