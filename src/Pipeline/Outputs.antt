-- ===== src/Pipeline/Outputs.antt =====
-- What the stored analyses of a run rest on, as the tables change.
use phone_law.Prelude.{
  String, ◌≡◌, refl, sym, subst, ◌∙◌, ap, inl, inr, false, none, some, List, ◌∷◌, ◌++◌, ◌==◌,
  eq_iff, eq_refl, arith, any, find-none, All, All-map, Bool-cases,
}
use phone_law.Prelude.Outcome.{Checked, ok, err, ok_inj, >>=-ok}
use phone_law.Contracts.Events.{IngestionEvent, Provenance}
use phone_law.Contracts.Analysis.{Transcript, ExtractedFacts, StructuredAnalysis}
use phone_law.Calls.Tables.{Tables, AnalysisRow}
use phone_law.Calls.Outputs.{store_transcript, store_analysis, transcript_payload}
use phone_law.Calls.Stored.{store_transcript-ok, store_analysis-ok}
use phone_law.Calls.Steps.{HaveSameOutputs}
use phone_law.Evidence.{validate_analysis}
use phone_law.Pipeline.Fixtures.{checked_transcript, each, finding_from, apply_playbook, returned}
use phone_law.Pipeline.Scripts.{FixtureSources, entry}

-- The analysis passed `validate_analysis` for the event, against the transcript that is stored for its
-- call.
abbrev pub IsBacked : IngestionEvent → Tables → AnalysisRow → Type 0
IsBacked event t r =
    (transcript : Transcript) × (transcript_payload r.call_id t ≡ some transcript)
    × (validate_analysis r.original_payload transcript event.call.duration_seconds
          event.call.caller_identity_verified
        ≡ ok tt)

-- The analyses of some tables, and above them others that are all backed.
abbrev pub Adds : IngestionEvent → Tables → Tables → Type 0
Adds event before t =
    (added : List AnalysisRow) × (t.analyses ≡ added ++ before.analyses)
    × All (IsBacked event t) added

pub returned-call_id :
    (call_id : String) (t transcript : Transcript) (r : Checked)
    → t.call_id ≡ call_id
    → checked_transcript t r ≡ returned transcript
    → transcript.call_id ≡ call_id
returned-call_id call_id t transcript (ok u) own h = cc
returned-call_id call_id t transcript (err e) own h = absurd (ground arith)

pub apply_playbook-call_id :
    (sources : FixtureSources) (fixture_id call_id : String) (facts : ExtractedFacts)
    (t : Transcript) (provenance : Provenance) (a : StructuredAnalysis)
    → apply_playbook sources fixture_id call_id facts t provenance ≡ ok a
    → call_id ≡ a.call_id
unfolding apply_playbook
apply_playbook-call_id sources fixture_id call_id facts t provenance a h =
    let (f, _, h₁) = >>=-ok (entry sources fixture_id) _ h in
    let (_, _, h₂) =
      >>=-ok (each (finding_from t) f.expected_analysis.attorney_attention_issues) _ h₁ in
    let (_, _, h₃) =
      >>=-ok (each (finding_from t) f.expected_analysis.dissatisfaction_indicators) _ h₂ in
    let (_, _, h₄) =
      >>=-ok (each (finding_from t) f.expected_analysis.omitted_information_findings) _ h₃ in
    let (_, _, h₅) = >>=-ok (each (finding_from t) f.expected_analysis.findings) _ h₄ in
    ap (λ x. x.call_id) (ok_inj h₅)

-- Outputs that stay carry what rests on them.
kept-IsBacked :
    (event : IngestionEvent) (t t' : Tables) (r : AnalysisRow)
    → t.transcripts ≡ t'.transcripts
    → IsBacked event t r
    → IsBacked event t' r
unfolding transcript_payload
kept-IsBacked event t t' r same (transcript, stored, valid) = (
  transcript,
  subst (λ xs. transcript_payload r.call_id (record t' { transcripts = xs }) ≡ some transcript) same
      stored,
  valid,
)

pub kept-Adds :
    (event : IngestionEvent) (before t t' : Tables)
    → HaveSameOutputs t t'
    → Adds event before t
    → Adds event before t'
kept-Adds event before t t' same (added, e, backed) = (
  added,
  sym same.analyses ∙ e,
  All-map (IsBacked event t) (IsBacked event t')
      (λ r h. kept-IsBacked event t t' r same.transcripts h) added backed,
)

pub kept-payload :
    (k : String) (t t' : Tables) (x : Transcript)
    → HaveSameOutputs t t'
    → transcript_payload k t ≡ some x
    → transcript_payload k t' ≡ some x
unfolding transcript_payload
kept-payload k t t' x same h =
    subst (λ xs. transcript_payload k (record t' { transcripts = xs }) ≡ some x) same.transcripts h

payload-absent :
    (k : String) (t : Tables)
    → any (λ r. r.call_id == k) t.transcripts ≡ false
    → transcript_payload k t ≡ none
unfolding transcript_payload
payload-absent k t h = rw (find-none (λ r. r.call_id == k) t.transcripts h) refl

module _ (event : IngestionEvent) (before : Tables) where
  pub stored_transcript-Adds :
      (transcript : Transcript) (attempt_id : String) (t t' : Tables)
      → store_transcript transcript attempt_id t ≡ ok t'
      → Adds event before t
      → Adds event before t' × (transcript_payload transcript.call_id t' ≡ some transcript)
  unfolding transcript_payload
  stored_transcript-Adds transcript attempt_id t t' h (added, e, backed) =
      let (fresh, row, same, payload, there) = store_transcript-ok transcript attempt_id t t' h in
      rw there (
        (
          added,
          e,
          All-map (IsBacked event t)
              (IsBacked event (record t { transcripts = row ∷ t.transcripts }))
              (λ r (x, stored, valid). (
                x,
                (elim (Bool-cases (row.call_id == r.call_id)) [
                  | inl own ↦ absurd (
                      let known : r.call_id ≡ transcript.call_id =
                        sym ((eq_iff row.call_id r.call_id).0 own) ∙ same in
                      let gone = payload-absent r.call_id t (
                        subst (λ k. any (λ y. y.call_id == k) t.transcripts ≡ false) (sym known)
                          fresh) in
                      ground (arith, gone, stored))
                  | inr other ↦ rw other stored
                ]),
                valid,
              ))
              added backed,
        ),
        rw (same, eq_refl transcript.call_id, payload) refl,
      )

  pub stored_analysis-Adds :
      (analysis : StructuredAnalysis) (transcript : Transcript) (attempt_id : String)
      (t t' : Tables)
      → store_analysis analysis attempt_id t ≡ ok t'
      → transcript_payload analysis.call_id t ≡ some transcript
      → validate_analysis analysis transcript event.call.duration_seconds
          event.call.caller_identity_verified
        ≡ ok tt
      → Adds event before t
      → Adds event before t'
  unfolding transcript_payload
  stored_analysis-Adds analysis transcript attempt_id t t' h stored valid (added, e, backed) =
      let (_, _, row, same, payload, there) = store_analysis-ok analysis attempt_id t t' h in
      rw there (
        row ∷ added,
        ap (λ xs. row ∷ xs) e,
        ((transcript, rw same stored, rw payload valid), backed),
      )
