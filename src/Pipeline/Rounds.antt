-- ===== src/Pipeline/Rounds.antt =====
-- Where a round of the pipeline's loop leaves the call.
use phone_law.Prelude.{
  ℕ, String, ◌≡◌, refl, subst, ◌∙◌, ap, inl, inr, true, some, ◌==◌, arith, find, All, All-map,
  Bool-cases,
}
use phone_law.Prelude.Outcome.{Result, Checked, ok, err, ◌andthen◌}
use phone_law.Calls.State.{
  ProcessingState, received, validated, queued, media_ready, transcribing, transcribed,
  extracting_facts, applying_playbook, analyzed, is_terminal,
}
use phone_law.Contracts.Events.{IngestionEvent, ProcessingFailure}
use phone_law.Contracts.Analysis.{Transcript, StructuredAnalysis}
use phone_law.Calls.Tables.{Tables}
use phone_law.Calls.Repository.{start_attempt, advance, fail}
use phone_law.Calls.Outputs.{store_transcript, store_analysis}
use phone_law.Calls.Steps.{
  transcript_stored, analysis_stored, transcript-HaveSameCalls, analysis-HaveSameCalls,
  HaveSameCalls,
}
use phone_law.Calls.Sequences.{Reachable, after}
use phone_law.Pipeline.Fixtures.{Transcription, extract_facts, returned, adapter_error, raised}
use phone_law.Pipeline.Attempts.{
  RunSources, Ended, finished, committed, committed_with, moved_to, failed_with, ended_by,
  is_failure_state, is_value_error, rejected_output, provenance_of, validated_analysis, analyze,
  after_analysis, after_transcription, attempt_once,
}
use phone_law.Pipeline.Progress.{
  Post, Post-map, andthen-Post, unwritten-Post, committed-Post, committed_with-Post, IsAt,
  advance-IsAt, fail-IsAt, start_attempt-IsAt,
}

-- Every row of the call is in a terminal state.
pub record IsSettledCall (call_id : String) (t : Tables) : Type 0 where
  pub reachable : Reachable t
  pub settled : All (λ c. (c.id == call_id) ≡ true → is_terminal c.state ≡ true) t.calls

IsAt-IsSettledCall :
    (call_id attempt_id : String) (state : ProcessingState) (t : Tables)
    → IsAt call_id attempt_id state t
    → is_terminal state ≡ true
    → IsSettledCall call_id t
IsAt-IsSettledCall call_id attempt_id state t h e = record {
  reachable = h.reachable;
  settled =
      All-map (λ c. (c.id == call_id) ≡ true → c.state ≡ state)
        (λ c. (c.id == call_id) ≡ true → is_terminal c.state ≡ true)
        (λ c at own. ap is_terminal (at own) ∙ e) t.calls h.current;
}

carried-IsAt :
    (call_id attempt_id : String) (state : ProcessingState) (t t' : Tables)
    → HaveSameCalls t t'
    → Reachable t'
    → IsAt call_id attempt_id state t
    → IsAt call_id attempt_id state t'
carried-IsAt call_id attempt_id state t t' same r h =
    let (a, found, own, at) = h.found in
    record {
      reachable = r;
      found = (
        a,
        subst (λ xs. find (λ b. b.id == attempt_id) xs ≡ some a) same.attempts found,
        own,
        at,
      );
      current =
          subst (λ cs. All (λ c. (c.id == call_id) ≡ true → c.state ≡ state) cs) same.calls
            h.current;
    }

module _ (sources : RunSources) (event : IngestionEvent) (call_id : String) (n : ℕ) where
  -- The attempt of this round stands in the state.
  abbrev Stands : ProcessingState → Tables → Type 0
  Stands state t = IsAt call_id (sources.attempt_id n) state t

  -- In some state of the second `try`.
  abbrev IsStanding : Tables → Type 0
  IsStanding t = (state : ProcessingState) × Stands state t

  moved_to-Post :
      (state target : ProcessingState) (t : Tables)
      → Stands state t
      → Post (λ _ t. Stands target t) (Stands state) (moved_to sources event call_id n target t)
  moved_to-Post state target t h =
      committed-Post (Stands target) (Stands state)
        (advance call_id (sources.attempt_id n) target (sources.ended_at n) t) t
        (λ t' e.
          advance-IsAt call_id (sources.attempt_id n) state target (sources.ended_at n) t t' h e)
        h

  moved_on-Post :
      {A : Type 0} (R : A → Tables → Type 0) (E : Tables → Type 0) (state target : ProcessingState)
      (f : Unit {0} → Tables → Result A × Tables) (t : Tables)
      → Stands state t
      → ((t' : Tables) → Stands state t' → E t')
      → ((u : Unit {0}) (t' : Tables) → Stands target t' → Post R E (f u t'))
      → Post R E (moved_to sources event call_id n target t andthen f)
  moved_on-Post R E state target f t h weaken next =
      andthen-Post (λ _ t. Stands target t) R E (moved_to sources event call_id n target t) f
        (Post-map (λ _ t. Stands target t) (λ _ t. Stands target t) (Stands state) E
          (moved_to sources event call_id n target t) (λ _ t' k. k) weaken
          (moved_to-Post state target t h))
        next

  failed_with-Post :
      (state : ProcessingState) (failure : ProcessingFailure) (ended : Ended) (t : Tables)
      → is_terminal failure.terminal_state ≡ true
      → Stands state t
      → Post
          (λ _ t. IsSettledCall call_id t)
          Reachable
          (failed_with sources event call_id n failure ended t)
  failed_with-Post state failure ended t terminal h =
      andthen-Post (λ _ t. IsSettledCall call_id t) (λ _ t. IsSettledCall call_id t) Reachable
        (committed (fail call_id (sources.attempt_id n) failure (sources.ended_at n) t) t)
        (λ _ t'. (ok ended, t'))
        (committed-Post (IsSettledCall call_id) Reachable
          (fail call_id (sources.attempt_id n) failure (sources.ended_at n) t) t
          (λ t' e.
            IsAt-IsSettledCall call_id (sources.attempt_id n) failure.terminal_state t'
              (fail-IsAt call_id (sources.attempt_id n) state failure (sources.ended_at n) t t' h e)
              terminal)
          h.reachable)
        (λ u t' k. k)

  stored_analysis-Post :
      (analysis : StructuredAnalysis) (t : Tables)
      → Stands applying_playbook t
      → Post
          (λ _ t. Stands applying_playbook t)
          IsStanding
          (committed (store_analysis analysis (sources.attempt_id n) t) t)
  stored_analysis-Post analysis t h =
      committed-Post (Stands applying_playbook) IsStanding
        (store_analysis analysis (sources.attempt_id n) t) t
        (λ t' e.
          carried-IsAt call_id (sources.attempt_id n) applying_playbook t t'
            (analysis-HaveSameCalls analysis (sources.attempt_id n) t t' e)
            (after t t' h.reachable (analysis_stored analysis (sources.attempt_id n) e)) h)
        (applying_playbook, h)

  analyze-Post :
      (transcript : Transcript) (t : Tables)
      → Stands extracting_facts t
      → Post
          (λ _ t. Stands applying_playbook t)
          IsStanding
          (analyze sources event call_id n transcript t)
  unfolding analyze
  analyze-Post transcript t h =
      andthen-Post (λ _ t. Stands extracting_facts t) (λ _ t. Stands applying_playbook t) IsStanding
        (extract_facts sources.fixtures event.fixture_id transcript, t) _
        (unwritten-Post (λ _ t. Stands extracting_facts t) IsStanding
          (extract_facts sources.fixtures event.fixture_id transcript) t (λ facts _. h)
          (extracting_facts, h))
        (λ facts t₁ h₁.
          moved_on-Post (λ _ t. Stands applying_playbook t) IsStanding extracting_facts
            applying_playbook _ t₁ h₁ (λ t' k. (extracting_facts, k))
            (λ _ t₂ h₂.
              andthen-Post (λ _ t. Stands applying_playbook t) (λ _ t. Stands applying_playbook t)
                IsStanding (validated_analysis sources event call_id n transcript facts, t₂) _
                (unwritten-Post (λ _ t. Stands applying_playbook t) IsStanding
                  (validated_analysis sources event call_id n transcript facts) t₂
                  (λ analysis _. h₂) (applying_playbook, h₂))
                (λ analysis t₃ h₃. stored_analysis-Post analysis t₃ h₃)))

  on_the_way :
      (state target : ProcessingState) (f : Unit {0} → Tables → Result Ended × Tables) (t : Tables)
      → Stands state t
      → ((u : Unit {0}) (t' : Tables)
          → Stands target t'
          → Post (λ _ t. IsSettledCall call_id t) Reachable (f u t'))
      → Post
          (λ _ t. IsSettledCall call_id t)
          Reachable
          (moved_to sources event call_id n target t andthen f)
  on_the_way state target f t h next =
      moved_on-Post (λ _ t. IsSettledCall call_id t) Reachable state target f t h
        (λ t' k. k.reachable) next

  after_analysis-Post :
      (r : Checked × Tables)
      → Post (λ _ t. Stands applying_playbook t) IsStanding r
      → Post (λ _ t. IsSettledCall call_id t) Reachable (after_analysis sources event call_id n r)
  after_analysis-Post (ok u, t) h =
      on_the_way applying_playbook analyzed _ t h
        (λ _ t at. IsAt-IsSettledCall call_id (sources.attempt_id n) analyzed t at refl)
  after_analysis-Post (err e, t) (state, h) = elim (Bool-cases (is_value_error e)) [
    | inl caught ↦ rw caught (failed_with-Post state rejected_output finished t refl h)
    | inr other ↦ rw other h.reachable
  ]

  after_transcription-Post :
      (r : Transcription) (t : Tables)
      → Stands transcribing t
      → Post
          (λ _ t. IsSettledCall call_id t)
          Reachable
          (after_transcription sources event call_id n r t)
  unfolding after_transcription
  after_transcription-Post (raised e) t h = h.reachable
  after_transcription-Post (adapter_error failure) t h =
      elim (Bool-cases (is_failure_state failure.terminal_state)) [
        | inl good ↦
            rw good (failed_with-Post transcribing failure (ended_by failure) t (ground arith) h)
        | inr bad ↦ rw bad h.reachable
      ]
  after_transcription-Post (returned transcript) t h =
      andthen-Post (λ _ t. Stands transcribing t) (λ _ t. IsSettledCall call_id t) Reachable
        (committed (store_transcript transcript (sources.attempt_id n) t) t) _
        (committed-Post (Stands transcribing) Reachable
          (store_transcript transcript (sources.attempt_id n) t) t
          (λ t' e.
            carried-IsAt call_id (sources.attempt_id n) transcribing t t'
              (transcript-HaveSameCalls transcript (sources.attempt_id n) t t' e)
              (after t t' h.reachable (transcript_stored transcript (sources.attempt_id n) e)) h)
          h.reachable)
        (λ _ t₁ h₁. on_the_way transcribing transcribed _ t₁ h₁ (λ _ t₂ h₂.
          on_the_way transcribed extracting_facts _ t₂ h₂ (λ _ t₃ h₃.
            after_analysis-Post (analyze sources event call_id n transcript t₃)
              (analyze-Post transcript t₃ h₃))))

  -- One round leaves reachable tables, and the call in a terminal state if it returns.
  pub attempt_once-Post :
      (t : Tables)
      → Reachable t
      → Post (λ _ t. IsSettledCall call_id t) Reachable (attempt_once sources event call_id n t)
  unfolding attempt_once
  attempt_once-Post t r =
      andthen-Post (λ _ t. Stands received t) (λ _ t. IsSettledCall call_id t) Reachable
        (committed_with
          (start_attempt call_id (provenance_of event (sources.attempt_id n)) (sources.started_at n)
            t)
          t)
        _
        (committed_with-Post (λ _ t. Stands received t) Reachable
          (start_attempt call_id (provenance_of event (sources.attempt_id n)) (sources.started_at n)
            t)
          t
          (λ a t' e.
            start_attempt-IsAt call_id (provenance_of event (sources.attempt_id n))
              (sources.started_at n) t t' a r e)
          r)
        (λ started t₁ h₁. on_the_way received validated _ t₁ h₁ (λ _ t₂ h₂.
          on_the_way validated queued _ t₂ h₂ (λ _ t₃ h₃.
            on_the_way queued media_ready _ t₃ h₃ (λ _ t₄ h₄.
              on_the_way media_ready transcribing _ t₄ h₄
                (λ _ t₅ h₅. after_transcription-Post _ t₅ h₅)))))
