-- ===== src/Calls/Stored.antt =====
-- What the tables hold of the outputs of a call after they have been stored.
use mathlib.Core.Bool.{false≢true}
use phone_law.Prelude.{
  sym, ◌∙◌, ◌⊎◌, ◌≤◌, String, ◌≡◌, refl, inl, inr, true, false, ◌||◌, some, List, ◌∷◌, ◌==◌, eq_iff,
  eq_refl, arith, any, any-or-left, any-or-right, select, select-none, length, All, Bool-cases,
}
use phone_law.Prelude.Outcome.{ok, is_ok, Result-cases}
use phone_law.Contracts.Analysis.{Transcript, StructuredAnalysis}
use phone_law.Calls.Tables.{Tables, TranscriptRow, AnalysisRow}
use phone_law.Calls.Outputs.{
  store_transcript, store_analysis, is_accepted, accepted_analysis_payload,
}

-- What a call has of each output: at most one, and only accepted analyses.
pub record HasSoundOutputs (t : Tables) : Type 0 where
  pub one_transcript :
      (call_id : String) → length (select (λ r. r.call_id == call_id) t.transcripts) ≤ 1
  pub one_analysis : (call_id : String) → length (select (λ r. r.call_id == call_id) t.analyses) ≤ 1
  pub only_accepted : All (λ r. is_accepted r.original_payload.acceptance_state ≡ true) t.analyses

-- The row that a successful insertion adds, and that its call had none before.
pub store_transcript-ok :
    (transcript : Transcript) (attempt_id : String) (t t' : Tables)
    → store_transcript transcript attempt_id t ≡ ok t'
    → (any (λ r. r.call_id == transcript.call_id) t.transcripts ≡ false)
      × (row : TranscriptRow) × (row.call_id ≡ transcript.call_id)
      × (row.original_payload ≡ transcript)
      × (t' ≡ record t { transcripts = row ∷ t.transcripts })
unfolding store_transcript
store_transcript-ok transcript attempt_id t t' h =
    let clash =
      any
        (λ r.
          r.id == transcript.transcript_id
          || r.call_id == transcript.call_id
          || r.attempt_id == attempt_id)
        t.transcripts in
    elim (Bool-cases clash) [
      | inl e ↦ absurd (ground arith)
      | inr e ↦ (
        any-or-right (λ r. r.id == transcript.transcript_id) (λ r. r.call_id == transcript.call_id)
            t.transcripts
            (any-or-left (λ r. r.id == transcript.transcript_id || r.call_id == transcript.call_id)
              (λ r. r.attempt_id == attempt_id) t.transcripts e),
        record {
          id = transcript.transcript_id;
          call_id = transcript.call_id;
          attempt_id = attempt_id;
          original_payload = transcript;
          created_at = transcript.provenance.generated_at;
        },
        refl,
        refl,
        ground arith,
      )
    ]

pub store_analysis-ok :
    (analysis : StructuredAnalysis) (attempt_id : String) (t t' : Tables)
    → store_analysis analysis attempt_id t ≡ ok t'
    → (is_accepted analysis.acceptance_state ≡ true)
      × (any (λ r. r.call_id == analysis.call_id) t.analyses ≡ false)
      × (row : AnalysisRow) × (row.call_id ≡ analysis.call_id)
      × (row.original_payload ≡ analysis)
      × (t' ≡ record t { analyses = row ∷ t.analyses })
unfolding store_analysis
store_analysis-ok analysis attempt_id t t' h =
    let clash =
      any
        (λ r.
          r.id == analysis.analysis_id
          || r.call_id == analysis.call_id
          || r.attempt_id == attempt_id)
        t.analyses in
    elim (Bool-cases clash) [
      | inl e ↦ absurd (ground arith)
      | inr e ↦ (
        ground arith,
        any-or-right (λ r. r.id == analysis.analysis_id) (λ r. r.call_id == analysis.call_id)
            t.analyses
            (any-or-left (λ r. r.id == analysis.analysis_id || r.call_id == analysis.call_id)
              (λ r. r.attempt_id == attempt_id) t.analyses e),
        record {
          id = analysis.analysis_id;
          call_id = analysis.call_id;
          attempt_id = attempt_id;
          original_payload = analysis;
          created_at = analysis.provenance.generated_at;
        },
        refl,
        refl,
        ground arith,
      )
    ]

-- A new row of a call that had none leaves every call with at most one.
one_more {ℓ} :
    {R : Type ℓ} (key : R → String) (k : String) (row : R) (rows : List R)
    → any (λ r. key r == key row) rows ≡ false
    → length (select (λ r. key r == k) rows) ≤ 1
    → length (select (λ r. key r == k) (row ∷ rows)) ≤ 1
one_more key k row rows fresh h = elim (Bool-cases (key row == k)) [
  | inl e ↦
      rw (e, select-none (λ r. key r == k) rows (rw ((eq_iff (key row) k).0 e) at fresh))
        (omega arith)
  | inr e ↦ rw e h
]

pub store_transcript-HasSoundOutputs :
    (transcript : Transcript) (attempt_id : String) (t t' : Tables)
    → HasSoundOutputs t
    → store_transcript transcript attempt_id t ≡ ok t'
    → HasSoundOutputs t'
store_transcript-HasSoundOutputs transcript attempt_id t t' h e =
    let (fresh, row, same, _, after) = store_transcript-ok transcript attempt_id t t' e in
    rw after (record {
      one_transcript = λ k.
          one_more (λ (r : TranscriptRow). r.call_id) k row t.transcripts (rw same fresh)
            (h.one_transcript k);
      one_analysis = h.one_analysis;
      only_accepted = h.only_accepted;
    })

pub store_analysis-HasSoundOutputs :
    (analysis : StructuredAnalysis) (attempt_id : String) (t t' : Tables)
    → HasSoundOutputs t
    → store_analysis analysis attempt_id t ≡ ok t'
    → HasSoundOutputs t'
store_analysis-HasSoundOutputs analysis attempt_id t t' h e =
    let (good, fresh, row, same, payload, after) = store_analysis-ok analysis attempt_id t t' e in
    rw after (record {
      one_transcript = h.one_transcript;
      one_analysis = λ k.
          one_more (λ (r : AnalysisRow). r.call_id) k row t.analyses (rw same fresh)
            (h.one_analysis k);
      only_accepted = (rw payload good, h.only_accepted);
    })

-- Storing a transcript or an analysis keeps at most one of each for every call, and only analyses
-- that were strictly accepted.
pub store-HasSoundOutputs :
    (transcript : Transcript) (analysis : StructuredAnalysis) (attempt_id : String) (t t' : Tables)
    → HasSoundOutputs t
    → (store_transcript transcript attempt_id t ≡ ok t')
      ⊎ (store_analysis analysis attempt_id t ≡ ok t')
    → HasSoundOutputs t'
store-HasSoundOutputs transcript analysis attempt_id t t' h (inl e) =
    store_transcript-HasSoundOutputs transcript attempt_id t t' h e
store-HasSoundOutputs transcript analysis attempt_id t t' h (inr e) =
    store_analysis-HasSoundOutputs analysis attempt_id t t' h e

-- A stored analysis is what is read back for the call that it names, and no other analysis of that
-- call can be stored over it.
pub payload-store_analysis :
    (analysis other : StructuredAnalysis) (attempt_id attempt_id' : String) (t t' : Tables)
    → store_analysis analysis attempt_id t ≡ ok t'
    → other.call_id ≡ analysis.call_id
    → (accepted_analysis_payload analysis.call_id t' ≡ some analysis)
      × (is_ok (store_analysis other attempt_id' t') ≡ false)
unfolding accepted_analysis_payload
payload-store_analysis analysis other attempt_id attempt_id' t t' h again =
    let (_, _, row, same, payload, after) = store_analysis-ok analysis attempt_id t t' h in
    let taken : any (λ r. r.call_id == other.call_id) t'.analyses ≡ true =
      rw (after, same, again, eq_refl analysis.call_id) in
    (
      rw (after, same, eq_refl analysis.call_id, payload),
      elim (Result-cases (store_analysis other attempt_id' t')) [
        | inl (t'', e) ↦
            absurd (false≢true (sym (store_analysis-ok other attempt_id' t' t'' e).1 ∙ taken))
        | inr (x, e) ↦ rw e
      ],
    )
