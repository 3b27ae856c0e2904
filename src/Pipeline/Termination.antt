-- ===== src/Pipeline/Termination.antt =====
-- How many attempts a run of the pipeline needs.
use phone_law.Prelude.{
  ℕ, zero, suc, ◌+◌, ◌≤◌, ◌<◌, String, ◌≡◌, refl, subst, ◌∙◌, inl, inr, true, Option, none, some,
  is_some, ◌==◌, arith, Bool-cases, Option-cases,
}
use phone_law.Prelude.Outcome.{Result, Checked, ok, err, ◌andthen◌, lookup_error, Result-cases}
use phone_law.Calls.State.{
  ProcessingState, validated, queued, media_ready, transcribing, transcribed, extracting_facts,
}
use phone_law.Contracts.Events.{
  IngestionEvent, IngestionDisposition, IngestionResult, Provenance, ProcessingFailure, accepted,
}
use phone_law.Calls.Tables.{Tables}
use phone_law.Calls.Repository.{start_attempt, advance, fail, ingest, AttemptRecord}
use phone_law.Calls.Outputs.{store_transcript, call_summary}
use phone_law.Pipeline.Fixtures.{
  Transcription, scripted_failure, transcribe, transcribe_entry, returned, adapter_error, raised,
}
use phone_law.Pipeline.Scripts.{entry, last_entry}
use phone_law.Pipeline.Attempts.{
  RunSources, Ended, again, finished, committed, committed_with, moved_to, is_failure_state,
  is_value_error, provenance_of, analyze, after_analysis, after_transcription, attempt_once,
  continued, run_attempts, process, retry, run_and_summarize, summarized, ingested, rejected_output,
  is_accepted_event,
}
use phone_law.Pipeline.Progress.{Post, andthen-Post, committed-Post, committed_with-Post}
use phone_law.Pipeline.Numbers.{
  last_failure, scripted_failure-last, checked_transcript-returned, last_failure_of, number_of,
  number_of-advance, number_of-fail, number_of-start_attempt,
}

anything-Post {ℓ} : {A : Type ℓ} (r : Result A × Tables) → Post (λ _ _. Unit) (λ _. Unit) r
anything-Post (ok a, t) = tt
anything-Post (err e, t) = tt

module _ (sources : RunSources) (event : IngestionEvent) (call_id : String) where
  abbrev bound : ℕ
  bound = last_failure_of (last_entry event.fixture_id sources.fixtures.manifest)

  transcribe-bound :
      (k : ℕ) (provenance : Provenance) (failure : ProcessingFailure)
      → transcribe sources.fixtures event.fixture_id call_id k provenance ≡ adapter_error failure
      → k ≤ bound
  unfolding transcribe entry
  transcribe-bound k provenance failure h =
      elim (Option-cases (last_entry event.fixture_id sources.fixtures.manifest)) [
        | inl e ↦ absurd (
            let never : raised (lookup_error event.fixture_id) ≡ adapter_error failure =
              rw e at h in
            ground arith)
        | inr (f, e) ↦
            let h₁ : transcribe_entry sources.fixtures event.fixture_id call_id k provenance (ok f)
                ≡ adapter_error failure =
              rw e at h in
            rw e (elim (Option-cases (scripted_failure k f.transcriber_failures)) [
              | inl none_left ↦
                  checked_transcript-returned (k ≤ last_failure f.transcriber_failures) _ _ failure
                    (rw (transcribe_entry, none_left) at h₁)
              | inr (s, found) ↦ scripted_failure-last k f.transcriber_failures {f = s} found
            ])
      ]

  -- A round that asks for another one: the call has one attempt more, and its number is at most that
  -- of the last scripted failure.
  abbrev Goes : (k : ℕ) → Ended → Tables → Type 0
  Goes k ended t = ended ≡ again → (number_of call_id t ≡ k) × (k ≤ bound)

  module _ (n k : ℕ) where
    moved_to-number :
        (target : ProcessingState) (f : Unit {0} → Tables → Result Ended × Tables) (t : Tables)
        → number_of call_id t ≡ k
        → ((u : Unit {0}) (t' : Tables)
            → number_of call_id t' ≡ k
            → Post (Goes k) (λ _. Unit) (f u t'))
        → Post (Goes k) (λ _. Unit) (moved_to sources event call_id n target t andthen f)
    moved_to-number target f t at next =
        andthen-Post (λ _ t'. number_of call_id t' ≡ k) (Goes k) (λ _. Unit)
          (moved_to sources event call_id n target t) f
          (committed-Post (λ t'. number_of call_id t' ≡ k) (λ _. Unit)
            (advance call_id (sources.attempt_id n) target (sources.ended_at n) t) t
            (λ t' e.
              number_of-advance call_id (sources.attempt_id n) target (sources.ended_at n) t t' e
              ∙ at)
            tt)
          next

    finished-Post :
        {A : Type 0} (r : Result A × Tables) (f : A → Tables → Result Ended × Tables)
        → ((a : A) (t' : Tables) → Post (Goes k) (λ _. Unit) (f a t'))
        → Post (Goes k) (λ _. Unit) (r andthen f)
    finished-Post r f next =
        andthen-Post (λ _ _. Unit) (Goes k) (λ _. Unit) r f (anything-Post r) (λ a t' _. next a t')

    after_analysis-finished :
        (r : Checked × Tables)
        → Post (Goes k) (λ _. Unit) (after_analysis sources event call_id n r)
    after_analysis-finished (ok u, t) =
        finished-Post (moved_to sources event call_id n _ t) _ (λ _ t' e. absurd (ground arith))
    after_analysis-finished (err x, t) = elim (Bool-cases (is_value_error x)) [
      | inl caught ↦ rw caught (
          finished-Post
            (committed (fail call_id (sources.attempt_id n) rejected_output (sources.ended_at n) t)
              t)
            _ (λ _ t' e. absurd (ground arith)))
      | inr other ↦ rw other tt
    ]

    after_transcription-number :
        (r : Transcription) (t : Tables)
        → number_of call_id t ≡ k
        → ((failure : ProcessingFailure) → r ≡ adapter_error failure → k ≤ bound)
        → Post (Goes k) (λ _. Unit) (after_transcription sources event call_id n r t)
    unfolding after_transcription
    after_transcription-number (raised e) t at within = tt
    after_transcription-number (adapter_error failure) t at within =
        elim (Bool-cases (is_failure_state failure.terminal_state)) [
          | inr bad ↦ rw bad tt
          | inl good ↦ rw good (
              andthen-Post (λ _ t'. number_of call_id t' ≡ k) (Goes k) (λ _. Unit)
                (committed (fail call_id (sources.attempt_id n) failure (sources.ended_at n) t) t) _
                (committed-Post (λ t'. number_of call_id t' ≡ k) (λ _. Unit)
                  (fail call_id (sources.attempt_id n) failure (sources.ended_at n) t) t
                  (λ t' e.
                    number_of-fail call_id (sources.attempt_id n) failure (sources.ended_at n) t t'
                      e
                    ∙ at)
                  tt)
                (λ _ t' at' _. (at', within failure refl)))
        ]
    after_transcription-number (returned transcript) t at within =
        finished-Post (committed (store_transcript transcript (sources.attempt_id n) t) t) _
          (λ _ t₁. finished-Post (moved_to sources event call_id n transcribed t₁) _ (λ _ t₂.
            finished-Post (moved_to sources event call_id n extracting_facts t₂) _
              (λ _ t₃. after_analysis-finished (analyze sources event call_id n transcript t₃))))

  attempt_once-number :
      (n : ℕ) (t : Tables)
      → Post (Goes (number_of call_id t + 1)) (λ _. Unit) (attempt_once sources event call_id n t)
  unfolding attempt_once
  attempt_once-number n t =
      let k = number_of call_id t + 1 in
      andthen-Post (λ (a : AttemptRecord) t'. (a.attempt_number ≡ k) × (number_of call_id t' ≡ k))
        (Goes k) (λ _. Unit)
        (committed_with
          (start_attempt call_id (provenance_of event (sources.attempt_id n)) (sources.started_at n)
            t)
          t)
        _
        (committed_with-Post
          (λ (a : AttemptRecord) t'. (a.attempt_number ≡ k) × (number_of call_id t' ≡ k))
          (λ _. Unit)
          (start_attempt call_id (provenance_of event (sources.attempt_id n)) (sources.started_at n)
            t)
          t
          (λ a t' e.
            number_of-start_attempt call_id (provenance_of event (sources.attempt_id n))
              (sources.started_at n) t t' a e)
          tt)
        (λ a t₁ (number, at₁). moved_to-number n k validated _ t₁ at₁ (λ _ t₂ at₂.
          moved_to-number n k queued _ t₂ at₂ (λ _ t₃ at₃.
            moved_to-number n k media_ready _ t₃ at₃ (λ _ t₄ at₄.
              moved_to-number n k transcribing _ t₄ at₄ (λ _ t₅ at₅.
                after_transcription-number n k _ t₅ at₅ (λ failure h.
                  subst (λ m. m ≤ bound) number
                    (transcribe-bound a.attempt_number (provenance_of event (sources.attempt_id n))
                      failure h)))))))

  continued-is_some :
      (r : Result Ended × Tables) (k : ℕ) (next : Tables → Option Checked × Tables)
      → Post (Goes k) (λ _. Unit) r
      → ((t : Tables) → number_of call_id t ≡ k → k ≤ bound → is_some (next t).0 ≡ true)
      → is_some (continued sources event call_id r next).0 ≡ true
  continued-is_some (ok again, t) k next h more = let (at, within) = h refl in more t at within
  continued-is_some (ok finished, t) k next h more = refl
  continued-is_some (err e, t) k next h more = refl

  -- A run ends, returning or raising, if it has fuel for one attempt more than the attempts that are
  -- left up to the last one for which a failure is scripted.
  pub run_attempts-is_some :
      (fuel n : ℕ) (t : Tables)
      → bound < fuel + number_of call_id t
      → 0 < fuel
      → is_some (run_attempts sources event call_id fuel n t).0 ≡ true
  unfolding run_attempts
  run_attempts-is_some zero n t enough some_fuel = absurd (omega arith)
  run_attempts-is_some (suc fuel) n t enough some_fuel =
      continued-is_some (attempt_once sources event call_id n t) (number_of call_id t + 1)
        (run_attempts sources event call_id fuel (n + 1)) (attempt_once-number n t)
        (λ t' at within.
          run_attempts-is_some fuel (n + 1) t' (omega (arith, at, within, enough))
            (omega (arith, at, within, enough)))

  summarized-is_some :
      (d : IngestionDisposition) (r : Option Checked × Tables)
      → is_some r.0 ≡ true
      → is_some (summarized sources event call_id d r).0 ≡ true
  summarized-is_some d (none, t) h = absurd (ground arith)
  summarized-is_some d (some (ok u), t) h = refl
  summarized-is_some d (some (err x), t) h = refl

  run_and_summarize-is_some :
      (fuel : ℕ) (d : IngestionDisposition) (t : Tables)
      → bound < fuel
      → is_some (run_and_summarize sources event call_id fuel d t).0 ≡ true
  run_and_summarize-is_some fuel d t enough =
      summarized-is_some d (run_attempts sources event call_id fuel 0 t)
        (run_attempts-is_some fuel 0 t (omega (arith, enough)) (omega (arith, enough)))

  -- `retry` too.
  pub retry-is_some :
      (fuel : ℕ) (t : Tables) → bound < fuel → is_some (retry sources event call_id fuel t).0 ≡ true
  unfolding retry
  retry-is_some fuel t enough = elim (Result-cases (call_summary call_id t)) [
    | inr (x, e) ↦ rw e refl
    | inl (summary, e) ↦ rw e (elim (Bool-cases (summary.fixture_id == event.fixture_id)) [
      | inl same ↦ rw same (run_and_summarize-is_some fuel accepted t enough)
      | inr other ↦ rw other refl
    ])
  ]

module _ (sources : RunSources) (event : IngestionEvent) where
  ingested-is_some :
      (fuel : ℕ) (t : Tables) (r : Result (IngestionResult × Tables))
      → last_failure_of (last_entry event.fixture_id sources.fixtures.manifest) < fuel
      → is_some (ingested sources event fuel t r).0 ≡ true
  ingested-is_some fuel t (err x) enough = refl
  ingested-is_some fuel t (ok (r, t')) enough =
      elim (Bool-cases (is_accepted_event r.disposition)) [
        | inl new ↦
            rw new (run_and_summarize-is_some sources event r.call_id fuel r.disposition t' enough)
        | inr old ↦ rw old refl
      ]

  -- `process` and `retry` end, returning or raising, whatever the tables are, if they have fuel for one
  -- attempt more than the number of the last attempt for which the fixture scripts a failure.
  pub process-ends :
      (fuel : ℕ) (event_id new_call_id call_id : String) (t : Tables)
      → last_failure_of (last_entry event.fixture_id sources.fixtures.manifest) < fuel
      → (is_some (process sources event fuel event_id new_call_id t).0 ≡ true)
        × (is_some (retry sources event call_id fuel t).0 ≡ true)
  unfolding process
  process-ends fuel event_id new_call_id call_id t enough = (
    ingested-is_some fuel t (ingest event none event_id new_call_id t) enough,
    retry-is_some sources event call_id fuel t enough,
  )
