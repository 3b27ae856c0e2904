-- ===== src/Evidence/Support.antt =====
-- What a piece of evidence that passes `validate_evidence` rests on.
use mathlib.Core.List.{Memᴰ}
use phone_law.Prelude.{
  ℕ, ◌≤◌, ◌<◌, String, ◌≡◌, refl, sym, subst, inl, inr, true, false, none, some, List, [], ◌∷◌,
  ◌==◌, eq_iff, arith, any, Bool-cases, Option-cases,
}
use phone_law.Prelude.Outcome.{ok}
use phone_law.Contracts.Analysis.{
  EvidenceReference, Speaker, TranscriptSegment, Transcript, same_speaker,
}
use phone_law.Contracts.Validators.{require_unique_segments, has_repeated_segment}
use phone_law.Evidence.{validate_evidence, segment_of, contains}

-- Some segment of the transcript has the cited identifier, speaker and words, and its bounds and
-- those of the call enclose the cited times.
pub record IsSupported (r : EvidenceReference) (t : Transcript) (duration : ℕ) : Type 0 where
  pub segment : TranscriptSegment
  pub start : ℕ
  pub end : ℕ
  pub member : Memᴰ segment t.segments
  pub same_id : segment.segment_id ≡ r.segment_id
  pub started : segment.start_seconds ≡ some start
  pub ended : segment.end_seconds ≡ some end
  pub from : start ≤ r.start_seconds
  pub ordered : r.start_seconds < r.end_seconds
  pub upto : r.end_seconds ≤ end
  pub in_call : r.end_seconds ≤ duration
  pub speaker : r.speaker ≡ segment.speaker
  pub words : contains segment.text r.excerpt ≡ true

segment_of-mem :
    (id : String) (segments : List TranscriptSegment) {s : TranscriptSegment}
    → segment_of id segments ≡ some s
    → Memᴰ s segments × (s.segment_id ≡ id)
unfolding segment_of
segment_of-mem id [] h = absurd (ground arith)
segment_of-mem id (x ∷ rest) {s} h = elim (Option-cases (segment_of id rest)) [
  | inl e ↦ elim (Bool-cases (x.segment_id == id)) [
    | inl here ↦
        let same : x ≡ s = ground arith in
        (Memᴰ.head (sym same), ground (arith, eq_iff x.segment_id id))
    | inr there ↦ absurd (ground arith)
  ]
  | inr (y, e) ↦
      let same : y ≡ s = ground arith in
      let (member, named) = segment_of-mem id rest {s = y} e in
      (
        Memᴰ.tail (subst (λ z. Memᴰ z rest) same member),
        subst (λ (z : TranscriptSegment). z.segment_id ≡ id) same named,
      )
]

segment_of-none :
    (id : String) (segments : List TranscriptSegment)
    → any (λ r. r.segment_id == id) segments ≡ false
    → segment_of id segments ≡ none
unfolding segment_of
segment_of-none id [] h = refl
segment_of-none id (x ∷ rest) h = ground (arith, segment_of-none id rest)

-- With identifiers that do not repeat, the segment with an identifier is the one that is found.
segment_of_unique :
    (id : String) (segments : List TranscriptSegment) {s : TranscriptSegment}
    → has_repeated_segment segments ≡ false
    → Memᴰ s segments
    → s.segment_id ≡ id
    → segment_of id segments ≡ some s
unfolding segment_of
segment_of_unique id [] u m named = elim m [ ]
segment_of_unique id (x ∷ rest) {s} u (Memᴰ.head e) named =
    let here : x.segment_id ≡ id = subst (λ (z : TranscriptSegment). z.segment_id ≡ id) e named in
    let fresh : any (λ r. r.segment_id == x.segment_id) rest ≡ false = ground arith in
    rw (
      segment_of-none id rest (subst (λ k. any (λ r. r.segment_id == k) rest ≡ false) here fresh),
      (eq_iff x.segment_id id).1 here,
      e,
    )
segment_of_unique id (x ∷ rest) {s} u (Memᴰ.tail m) named =
    let later : has_repeated_segment rest ≡ false = ground arith in
    rw (segment_of_unique id rest {s = s} later m named)

same_speaker-eq : (a b : Speaker) → same_speaker a b ≡ true → a ≡ b
same_speaker-eq a b h = ground arith

-- A reference that `validate_evidence` passes cites a segment of the transcript that has its
-- identifier, its speaker and its words, and whose bounds, like those of the call, enclose the cited
-- times.
pub validate_evidence-IsSupported :
    (r : EvidenceReference) (t : Transcript) (duration : ℕ)
    → validate_evidence r t duration ≡ ok tt
    → IsSupported r t duration
unfolding validate_evidence
validate_evidence-IsSupported r t duration h =
    elim (Option-cases (segment_of r.segment_id t.segments)) [
      | inl e ↦ absurd (ground arith)
      | inr (s, e) ↦ elim (Option-cases s.start_seconds) [
        | inl no_start ↦ absurd (ground arith)
        | inr (a, start) ↦ elim (Option-cases s.end_seconds) [
          | inl no_end ↦ absurd (ground arith)
          | inr (b, end) ↦
              let (member, named) = segment_of-mem r.segment_id t.segments {s = s} e in
              record {
                segment = s;
                start = a;
                end = b;
                member = member;
                same_id = named;
                started = start;
                ended = end;
                from = ground arith;
                ordered = ground arith;
                upto = ground arith;
                in_call = ground arith;
                speaker = same_speaker-eq r.speaker s.speaker (ground arith);
                words = ground arith;
              }
        ]
      ]
    ]

same_speaker_self : (a : Speaker) → same_speaker a a ≡ true
same_speaker_self a = ground arith

-- Supported evidence passes, in a transcript with identifiers that do not repeat.
pub IsSupported-validate_evidence :
    (r : EvidenceReference) (t : Transcript) (duration : ℕ)
    → require_unique_segments t ≡ ok tt
    → IsSupported r t duration
    → validate_evidence r t duration ≡ ok tt
unfolding validate_evidence require_unique_segments
IsSupported-validate_evidence r t duration u h =
    let unique : has_repeated_segment t.segments ≡ false = ground arith in
    rw (segment_of_unique r.segment_id t.segments unique h.member h.same_id, h.started, h.ended)
      (ground (
        arith,
        h.from,
        h.ordered,
        h.upto,
        h.in_call,
        h.words,
        h.speaker,
        same_speaker_self r.speaker,
      ))
