-- ===== src/Contracts/Validators.antt =====
-- The model validators of packages/contracts/review.py: what each refuses, in the order of its tests.
use phone_law.Prelude.{
  String, Bool, true, false, ◌&&◌, ◌||◌, not, none, some, List, [], ◌∷◌, ◌==◌, leb, is_some, any,
  all,
}
use phone_law.Prelude.Outcome.{Checked, ok, err, value_error}
use phone_law.Contracts.Analysis.{
  EvidenceReference, TranscriptSegment, Transcript, TextFact, DateFact, MonetaryFigure,
  StaffCommitment, IdentityClaim, ValueState, TimestampAvailability, TranscriptValidationState,
  unverified, same_speaker, is_present, available, unavailable,
}

-- `raise ValueError` when the test holds, and else what follows.
abbrev pub refuse_if : Bool → String → Checked → Checked
refuse_if true code rest = err (value_error code)
refuse_if false code rest = rest

unfoldable pub start_precedes_end : EvidenceReference → Checked
start_precedes_end r =
    refuse_if (leb r.end_seconds r.start_seconds) "evidence start must precede end" (ok tt)

-- Both bounds are there and the first does not precede the second.
abbrev pub bounds_reversed : TranscriptSegment → Bool
bounds_reversed s = elim s.start_seconds [
  | none ↦ false
  | some start ↦ elim s.end_seconds [ none ↦ false | some end ↦ leb end start ]
]

abbrev bool_differs : Bool → Bool → Bool
bool_differs true b = not b
bool_differs false b = b

unfoldable pub segment_is_ordered : TranscriptSegment → Checked
segment_is_ordered s =
    refuse_if (bool_differs (is_some s.start_seconds) (is_some s.end_seconds))
      "segment timestamps must be both present or both unavailable"
      (refuse_if (bounds_reversed s) "segment start must precede end" (
        refuse_if (not (same_speaker s.identity.speaker s.speaker))
          "speaker identity must match segment speaker" (ok tt)))

-- `len(identifiers) != len(set(identifiers))`, as the repetition that it looks for.
abbrev pub has_repeated_segment : List TranscriptSegment → Bool
has_repeated_segment [] = false
has_repeated_segment (s ∷ rest) =
    any (λ r. r.segment_id == s.segment_id) rest || has_repeated_segment rest

unfoldable pub require_unique_segments : Transcript → Checked
require_unique_segments t =
    refuse_if (has_repeated_segment t.segments) "transcript segment identifiers must be unique"
      (ok tt)

abbrev pub is_unavailable : TimestampAvailability → Bool
is_unavailable unavailable = true
is_unavailable available = false

abbrev pub is_accepted_transcript : TranscriptValidationState → Bool
is_accepted_transcript TranscriptValidationState.accepted = true
is_accepted_transcript _ = false

abbrev pub has_timestamps : TranscriptSegment → Bool
has_timestamps s = is_some s.start_seconds && is_some s.end_seconds

abbrev pub is_empty {ℓ} : {A : Type ℓ} → List A → Bool
is_empty [] = true
is_empty (x ∷ xs) = false

unfoldable pub timestamps_match_availability : Transcript → Checked
timestamps_match_availability t =
    refuse_if
      (not (is_unavailable t.timestamp_availability)
        && (is_empty t.segments || not (all has_timestamps t.segments)))
      "available timestamps require complete segment timestamps"
      (refuse_if
        (is_unavailable t.timestamp_availability
          && any (λ s. is_some s.start_seconds || is_some s.end_seconds) t.segments)
        "unavailable timestamps cannot carry segment timestamps"
        (refuse_if
          (is_unavailable t.timestamp_availability && is_accepted_transcript t.validation_state)
          "timestamp-free transcripts require visible human review" (ok tt)))

unfoldable pub state_matches_value : TextFact → Checked
state_matches_value f =
    refuse_if (is_present f.state && not (is_some f.value)) "present facts require a value" (
      refuse_if (not (is_present f.state) && is_some f.value)
        "non-present facts cannot carry a value" (ok tt))

abbrev pub is_unverified : ValueState → Bool
is_unverified unverified = true
is_unverified _ = false

abbrev pub is_mentioned : ValueState → Bool
is_mentioned state = is_present state || is_unverified state

-- `is_iso_date` is `datetime.strptime(…, "%Y-%m-%d")`, which raises on any other text.
unfoldable pub validate_date_state : (String → Bool) → DateFact → Checked
validate_date_state is_iso_date f =
    refuse_if (is_mentioned f.state && not (is_some f.expression))
      "mentioned dates require their original expression"
      (refuse_if (not (is_mentioned f.state) && (is_some f.expression || is_some f.iso_date))
        "unmentioned dates cannot carry a date"
        (refuse_if (is_unverified f.state && is_some f.iso_date)
          "unverified dates cannot be normalized as confirmed dates"
          (refuse_if (elim f.iso_date [ none ↦ false | some d ↦ not (is_iso_date d) ])
            "time data does not match format"
            (refuse_if (f.is_deadline && not (is_present f.state))
              "a deadline must be confirmed before it is represented as such" (ok tt)))))

unfoldable pub amount_has_currency : MonetaryFigure → Checked
amount_has_currency m =
    refuse_if (is_present m.state && (not (is_some m.amount) || not (is_some m.currency)))
      "present monetary figures require amount and currency"
      (refuse_if (not (is_present m.state) && (is_some m.amount || is_some m.currency))
        "non-present monetary figures cannot carry an amount" (ok tt))

unfoldable pub commitment_requires_evidence : StaffCommitment → Checked
commitment_requires_evidence c =
    refuse_if (is_present c.state && (not (is_some c.commitment) || is_empty c.evidence))
      "present staff commitments require text and evidence" (ok tt)

unfoldable pub verified_identity_requires_metadata : IdentityClaim → Checked
verified_identity_requires_metadata c =
    refuse_if (is_present c.state && (not (is_some c.label) || not c.metadata_verified))
      "verified caller identity requires supporting metadata"
      (refuse_if (not (is_present c.state) && c.metadata_verified)
        "unverified identities cannot claim metadata verification" (ok tt))
