-- ===== src/Calls/Steps.antt =====
-- One method of `ReviewRepository` as a step between tables, and what it leaves as it was.
use phone_law.Prelude.{
  ℕ, String, ◌≡◌, refl, ap, subst, inl, inr, Option, ◌==◌, arith, any, find, Bool-cases,
}
use phone_law.Prelude.Outcome.{ok, ok_inj, >>=-ok, or_raise, no_result}
use phone_law.Calls.State.{ProcessingState, transition}
use phone_law.Contracts.Events.{IngestionEvent, IngestionResult, Provenance, ProcessingFailure}
use phone_law.Contracts.Analysis.{Transcript, StructuredAnalysis}
use phone_law.Calls.Tables.{Tables, PlaybookPayload}
use phone_law.Calls.Repository.{
  ingest, start_attempt, advance, fail, open_call, insert_attempt, AttemptRecord,
}
use phone_law.Calls.Outputs.{store_transcript, store_analysis, install_playbook}
use phone_law.Calls.Timeline.{IsConsistent}
use phone_law.Calls.Consistency.{BelongsTo}
use phone_law.Calls.Restart.{open_call-ok, insert_attempt-ok}
use phone_law.Calls.Ingestion.{Delivered, again, known, new}
use phone_law.Calls.Stored.{HasSoundOutputs, store_transcript-ok, store_analysis-ok}

-- One method that returned. A method that raises changes nothing. `advance` and `fail` are called
-- with an attempt of the call.
pub data Step (t t' : Tables) : Type 0 where
  delivered :
      (event : IngestionEvent) (preferred : Option String) (event_id new_call_id : String)
      (r : IngestionResult)
      → ingest event preferred event_id new_call_id t ≡ ok (r, t')
      → Step t t'
  started :
      (call_id : String) (provenance : Provenance) (now : ℕ) (a : AttemptRecord)
      → start_attempt call_id provenance now t ≡ ok (a, t')
      → Step t t'
  moved :
      (call_id attempt_id : String) (target : ProcessingState) (now : ℕ)
      → BelongsTo attempt_id call_id t
      → advance call_id attempt_id target now t ≡ ok t'
      → Step t t'
  stopped :
      (call_id attempt_id : String) (failure : ProcessingFailure) (now : ℕ)
      → BelongsTo attempt_id call_id t
      → fail call_id attempt_id failure now t ≡ ok t'
      → Step t t'
  transcript_stored :
      (transcript : Transcript) (attempt_id : String)
      → store_transcript transcript attempt_id t ≡ ok t'
      → Step t t'
  analysis_stored :
      (analysis : StructuredAnalysis) (attempt_id : String)
      → store_analysis analysis attempt_id t ≡ ok t'
      → Step t t'
  installed :
      (payload : PlaybookPayload) (now : ℕ) → install_playbook payload now t ≡ ok t' → Step t t'

-- Tables with the same outputs, and with the same calls and attempts.
pub record HaveSameOutputs (t t' : Tables) : Type 0 where
  pub transcripts : t.transcripts ≡ t'.transcripts
  pub analyses : t.analyses ≡ t'.analyses

pub record HaveSameCalls (t t' : Tables) : Type 0 where
  pub calls : t.calls ≡ t'.calls
  pub attempts : t.attempts ≡ t'.attempts

pub carried-HasSoundOutputs :
    (t t' : Tables) → HaveSameOutputs t t' → HasSoundOutputs t → HasSoundOutputs t'
carried-HasSoundOutputs t t' same h =
    subst (λ xs. HasSoundOutputs (record t' { transcripts = t'.transcripts; analyses = xs }))
      same.analyses
      (subst (λ xs. HasSoundOutputs (record t' { transcripts = xs; analyses = t.analyses }))
        same.transcripts
        (record {
          one_transcript = h.one_transcript;
          one_analysis = h.one_analysis;
          only_accepted = h.only_accepted;
        }))

pub carried-IsConsistent : (t t' : Tables) → HaveSameCalls t t' → IsConsistent t → IsConsistent t'
carried-IsConsistent t t' same h =
    subst (λ xs. IsConsistent (record t' { calls = t'.calls; attempts = xs })) same.attempts
      (subst (λ cs. IsConsistent (record t' { calls = cs; attempts = t.attempts })) same.calls
        (record { unique = h.unique; timeline = h.timeline; current = h.current; owned = h.owned }))

pub Delivered-HaveSameOutputs :
    (event : IngestionEvent) (t : Tables) (r : IngestionResult) (t' : Tables)
    → Delivered event t r t'
    → HaveSameOutputs t t'
Delivered-HaveSameOutputs event t r t' (again e _ _ same) =
    rw same (record { transcripts = refl; analyses = refl })
Delivered-HaveSameOutputs event t r t' (known c i _ _ same) =
    rw same (record { transcripts = refl; analyses = refl })
Delivered-HaveSameOutputs event t r t' (new c i _ _ _ same) =
    rw same (record { transcripts = refl; analyses = refl })

pub started-HaveSameOutputs :
    (call_id : String) (provenance : Provenance) (now : ℕ) (t t' : Tables) (a : AttemptRecord)
    → start_attempt call_id provenance now t ≡ ok (a, t')
    → HaveSameOutputs t t'
unfolding start_attempt
started-HaveSameOutputs call_id provenance now t t' a h =
    let (c, found, rest) = >>=-ok (or_raise (find (λ d. d.id == call_id) t.calls) no_result) _ h in
    let (o, opened, rest') = >>=-ok (open_call _ call_id c.state t) _ rest in
    let (r, inserted, last) = >>=-ok (insert_attempt _ o) _ rest' in
    let (_, _, e) = insert_attempt-ok _ o r inserted in
    let same : r ≡ t' = ap (λ p. p.1) (ok_inj last) in
    subst (λ x. HaveSameOutputs t x) same
      (rw e (elim (open_call-ok _ call_id c.state t o opened) [
        | inl (_, _, k) ↦ rw k (record { transcripts = refl; analyses = refl })
        | inr (_, _, k) ↦ rw k (record { transcripts = refl; analyses = refl })
      ]))

pub moved-HaveSameOutputs :
    (call_id attempt_id : String) (target : ProcessingState) (now : ℕ) (t t' : Tables)
    → advance call_id attempt_id target now t ≡ ok t'
    → HaveSameOutputs t t'
unfolding advance
moved-HaveSameOutputs call_id attempt_id target now t t' h =
    let (a, _, rest) =
      >>=-ok (or_raise (find (λ b. b.id == attempt_id) t.attempts) no_result) _ h in
    let (_, _, last) = >>=-ok (transition a.state target) _ rest in
    subst (λ x. HaveSameOutputs t x) (ok_inj last) (record { transcripts = refl; analyses = refl })

pub stopped-HaveSameOutputs :
    (call_id attempt_id : String) (failure : ProcessingFailure) (now : ℕ) (t t' : Tables)
    → fail call_id attempt_id failure now t ≡ ok t'
    → HaveSameOutputs t t'
unfolding fail
stopped-HaveSameOutputs call_id attempt_id failure now t t' h =
    let (a, _, rest) =
      >>=-ok (or_raise (find (λ b. b.id == attempt_id) t.attempts) no_result) _ h in
    let (_, _, last) = >>=-ok (transition a.state failure.terminal_state) _ rest in
    subst (λ x. HaveSameOutputs t x) (ok_inj last) (record { transcripts = refl; analyses = refl })

pub transcript-HaveSameCalls :
    (transcript : Transcript) (attempt_id : String) (t t' : Tables)
    → store_transcript transcript attempt_id t ≡ ok t'
    → HaveSameCalls t t'
transcript-HaveSameCalls transcript attempt_id t t' h =
    let (_, row, _, _, after) = store_transcript-ok transcript attempt_id t t' h in
    rw after (record { calls = refl; attempts = refl })

pub analysis-HaveSameCalls :
    (analysis : StructuredAnalysis) (attempt_id : String) (t t' : Tables)
    → store_analysis analysis attempt_id t ≡ ok t'
    → HaveSameCalls t t'
analysis-HaveSameCalls analysis attempt_id t t' h =
    let (_, _, row, _, _, after) = store_analysis-ok analysis attempt_id t t' h in
    rw after (record { calls = refl; attempts = refl })

-- `install_playbook` touches neither.
pub installed-HaveSame :
    (payload : PlaybookPayload) (now : ℕ) (t t' : Tables)
    → install_playbook payload now t ≡ ok t'
    → HaveSameCalls t t' × HaveSameOutputs t t'
unfolding install_playbook
installed-HaveSame payload now t t' h =
    elim (Bool-cases (any (λ r. r.version == payload.version) t.playbooks)) [
      | inl there ↦
          subst (λ x. HaveSameCalls t x × HaveSameOutputs t x) (ok_inj (rw there at h))
            (
              record { calls = refl; attempts = refl },
              record { transcripts = refl; analyses = refl },
            )
      | inr new_version ↦ elim (Bool-cases (any (λ r. r.id == payload.playbook_id) t.playbooks)) [
        | inl taken ↦ absurd (ground arith)
        | inr free ↦
            subst (λ x. HaveSameCalls t x × HaveSameOutputs t x)
              (ok_inj (rw (new_version, free) at h))
              (
                record { calls = refl; attempts = refl },
                record { transcripts = refl; analyses = refl },
              )
      ]
    ]
