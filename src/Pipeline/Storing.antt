-- ===== src/Pipeline/Storing.antt =====
-- That one round of the pipeline's loop stores only what was validated.
use phone_law.Prelude.{
  ℕ, String, ◌≡◌, refl, subst, ◌∙◌, ap, inl, inr, some, arith, Bool-cases, Option-cases,
}
use phone_law.Prelude.Outcome.{Result, Checked, ok, err, ok_inj, >>=-ok, ◌andthen◌, lookup_error}
use phone_law.Calls.State.{
  ProcessingState, validated, queued, media_ready, transcribing, transcribed, extracting_facts,
  applying_playbook, analyzed,
}
use phone_law.Contracts.Events.{IngestionEvent, Provenance, ProcessingFailure}
use phone_law.Contracts.Analysis.{Transcript, ExtractedFacts, StructuredAnalysis}
use phone_law.Calls.Tables.{Tables}
use phone_law.Calls.Repository.{start_attempt, advance, fail}
use phone_law.Calls.Outputs.{store_transcript, store_analysis, transcript_payload}
use phone_law.Calls.Steps.{
  HaveSameOutputs, started-HaveSameOutputs, moved-HaveSameOutputs, stopped-HaveSameOutputs,
}
use phone_law.Evidence.{validate_analysis}
use phone_law.Pipeline.Fixtures.{
  Transcription, transcribe, transcribe_entry, scripted_failure, extract_facts, apply_playbook,
  returned, adapter_error, raised,
}
use phone_law.Pipeline.Scripts.{last_entry, entry}
use phone_law.Pipeline.Attempts.{
  RunSources, Ended, finished, committed, committed_with, moved_to, failed_with, ended_by,
  is_failure_state, is_value_error, rejected_output, provenance_of, validated_analysis, analyze,
  after_analysis, after_transcription, attempt_once,
}
use phone_law.Pipeline.Progress.{
  Post, andthen-Post, unwritten-Post, committed-Post, committed_with-Post,
}
use phone_law.Pipeline.Outputs.{
  Adds, returned-call_id, apply_playbook-call_id, kept-Adds, kept-payload, stored_transcript-Adds,
  stored_analysis-Adds,
}

-- What holds of tables with the same outputs as well.
abbrev IsFramed : (Tables → Type 0) → Type 0
IsFramed P = (t t' : Tables) → HaveSameOutputs t t' → P t → P t'

module _ (sources : RunSources) (event : IngestionEvent) (call_id : String) (n : ℕ) where
  moved_on :
      {A : Type 0} (P E : Tables → Type 0) (R : A → Tables → Type 0) (target : ProcessingState)
      (f : Unit {0} → Tables → Result A × Tables) (t : Tables)
      → IsFramed P
      → ((t' : Tables) → P t' → E t')
      → P t
      → ((u : Unit {0}) (t' : Tables) → P t' → Post R E (f u t'))
      → Post R E (moved_to sources event call_id n target t andthen f)
  moved_on P E R target f t framed weaken h next =
      andthen-Post (λ _ t. P t) R E (moved_to sources event call_id n target t) f
        (committed-Post P E (advance call_id (sources.attempt_id n) target (sources.ended_at n) t) t
          (λ t' e.
            framed t t'
              (moved-HaveSameOutputs call_id (sources.attempt_id n) target (sources.ended_at n) t t'
                e)
              h)
          (weaken t h))
        next

  failed_on :
      (P : Tables → Type 0) (failure : ProcessingFailure) (ended : Ended) (t : Tables)
      → IsFramed P
      → P t
      → Post (λ _ t. P t) P (failed_with sources event call_id n failure ended t)
  failed_on P failure ended t framed h =
      andthen-Post (λ _ t. P t) (λ _ t. P t) P
        (committed (fail call_id (sources.attempt_id n) failure (sources.ended_at n) t) t)
        (λ _ t'. (ok ended, t'))
        (committed-Post P P (fail call_id (sources.attempt_id n) failure (sources.ended_at n) t) t
          (λ t' e.
            framed t t'
              (stopped-HaveSameOutputs call_id (sources.attempt_id n) failure (sources.ended_at n) t
                t' e)
              h)
          h)
        (λ u t' k. k)

module _ (sources : RunSources) (event : IngestionEvent) (call_id : String) (before : Tables)
    (n : ℕ) where
  abbrev IsGrown : Tables → Type 0
  IsGrown = Adds event before

  -- The transcript is stored for the call as well.
  abbrev HoldsTranscript : Transcript → Tables → Type 0
  HoldsTranscript transcript t = IsGrown t × (transcript_payload call_id t ≡ some transcript)

  IsGrown-IsFramed : IsFramed IsGrown
  IsGrown-IsFramed t t' same h = kept-Adds event before t t' same h

  HoldsTranscript-IsFramed : (transcript : Transcript) → IsFramed (HoldsTranscript transcript)
  HoldsTranscript-IsFramed transcript t t' same (j, stored) =
      (IsGrown-IsFramed t t' same j, kept-payload call_id t t' transcript same stored)

  validated_analysis-ok :
      (transcript : Transcript) (facts : ExtractedFacts) (a : StructuredAnalysis)
      → validated_analysis sources event call_id n transcript facts ≡ ok a
      → (call_id ≡ a.call_id)
        × (validate_analysis a transcript event.call.duration_seconds
              event.call.caller_identity_verified
            ≡ ok tt)
  validated_analysis-ok transcript facts a h =
      let (b, applied, rest) =
        >>=-ok
          (apply_playbook sources.fixtures event.fixture_id call_id facts transcript
            (provenance_of event (sources.attempt_id n)))
          _ h in
      let (u, valid, same) =
        >>=-ok
          (validate_analysis b transcript event.call.duration_seconds
            event.call.caller_identity_verified)
          _ rest in
      let b_a : b ≡ a = ok_inj same in
      (
        apply_playbook-call_id sources.fixtures event.fixture_id call_id facts transcript
              (provenance_of event (sources.attempt_id n)) b applied
            ∙ ap (λ x. x.call_id) b_a,
        subst
            (λ x.
              validate_analysis x transcript event.call.duration_seconds
                event.call.caller_identity_verified
              ≡ ok tt)
            b_a valid,
      )

  analyze-HoldsTranscript :
      (transcript : Transcript) (t : Tables)
      → HoldsTranscript transcript t
      → Post (λ _ t. IsGrown t) IsGrown (analyze sources event call_id n transcript t)
  unfolding analyze
  analyze-HoldsTranscript transcript t h =
      andthen-Post (λ _ t. HoldsTranscript transcript t) (λ _ t. IsGrown t) IsGrown
        (extract_facts sources.fixtures event.fixture_id transcript, t) _
        (unwritten-Post (λ _ t. HoldsTranscript transcript t) IsGrown
          (extract_facts sources.fixtures event.fixture_id transcript) t (λ facts _. h) h.0)
        (λ facts t₁ h₁.
          moved_on sources event call_id n (HoldsTranscript transcript) IsGrown (λ _ t. IsGrown t)
            applying_playbook _ t₁ (HoldsTranscript-IsFramed transcript) (λ t' k. k.0) h₁
            (λ _ t₂ h₂.
              andthen-Post
                (λ (a : StructuredAnalysis) t.
                  HoldsTranscript transcript t
                  × (call_id ≡ a.call_id)
                  × (validate_analysis a transcript event.call.duration_seconds
                        event.call.caller_identity_verified
                      ≡ ok tt))
                (λ _ t. IsGrown t) IsGrown
                (validated_analysis sources event call_id n transcript facts, t₂) _
                (unwritten-Post _ IsGrown
                  (validated_analysis sources event call_id n transcript facts) t₂
                  (λ a e.
                    let (own, valid) = validated_analysis-ok transcript facts a e in
                    (h₂, own, valid))
                  h₂.0)
                (λ a t₃ (h₃, own, valid).
                  committed-Post IsGrown IsGrown (store_analysis a (sources.attempt_id n) t₃) t₃
                    (λ t' e.
                      stored_analysis-Adds event before a transcript (sources.attempt_id n) t₃ t' e
                        (subst (λ k. transcript_payload k t₃ ≡ some transcript) own h₃.1) valid
                        h₃.0)
                    h₃.0)))

  after_analysis-Adds :
      (r : Checked × Tables)
      → Post (λ _ t. IsGrown t) IsGrown r
      → Post (λ _ t. IsGrown t) IsGrown (after_analysis sources event call_id n r)
  after_analysis-Adds (ok u, t) h =
      moved_on sources event call_id n IsGrown IsGrown (λ _ t. IsGrown t) analyzed _ t
        IsGrown-IsFramed (λ t' k. k) h (λ _ t' k. k)
  after_analysis-Adds (err e, t) h = elim (Bool-cases (is_value_error e)) [
    | inl caught ↦
        rw caught
          (failed_on sources event call_id n IsGrown rejected_output finished t IsGrown-IsFramed h)
    | inr other ↦ rw other h
  ]

  after_transcription-Adds :
      (r : Transcription) (t : Tables)
      → ((transcript : Transcript) → r ≡ returned transcript → transcript.call_id ≡ call_id)
      → IsGrown t
      → Post (λ _ t. IsGrown t) IsGrown (after_transcription sources event call_id n r t)
  unfolding after_transcription
  after_transcription-Adds (raised e) t own h = h
  after_transcription-Adds (adapter_error failure) t own h =
      elim (Bool-cases (is_failure_state failure.terminal_state)) [
        | inl good ↦ rw good (
            failed_on sources event call_id n IsGrown failure (ended_by failure) t IsGrown-IsFramed
              h)
        | inr bad ↦ rw bad h
      ]
  after_transcription-Adds (returned transcript) t own h =
      andthen-Post (λ _ t. HoldsTranscript transcript t) (λ _ t. IsGrown t) IsGrown
        (committed (store_transcript transcript (sources.attempt_id n) t) t) _
        (committed-Post (HoldsTranscript transcript) IsGrown
          (store_transcript transcript (sources.attempt_id n) t) t
          (λ t' e.
            let (j, stored) =
              stored_transcript-Adds event before transcript (sources.attempt_id n) t t' e h in
            (
              j,
              subst (λ k. transcript_payload k t' ≡ some transcript) (own transcript refl) stored,
            ))
          h)
        (λ _ t₁ h₁.
          moved_on sources event call_id n (HoldsTranscript transcript) IsGrown (λ _ t. IsGrown t)
            transcribed _ t₁ (HoldsTranscript-IsFramed transcript) (λ t' k. k.0) h₁
            (λ _ t₂ h₂.
              moved_on sources event call_id n (HoldsTranscript transcript) IsGrown
                (λ _ t. IsGrown t) extracting_facts _ t₂ (HoldsTranscript-IsFramed transcript)
                (λ t' k. k.0) h₂
                (λ _ t₃ h₃.
                  after_analysis-Adds (analyze sources event call_id n transcript t₃)
                    (analyze-HoldsTranscript transcript t₃ h₃))))

  transcribe-call_id :
      (k : ℕ) (provenance : Provenance) (transcript : Transcript)
      → transcribe sources.fixtures event.fixture_id call_id k provenance ≡ returned transcript
      → transcript.call_id ≡ call_id
  unfolding transcribe entry
  transcribe-call_id k provenance transcript h =
      elim (Option-cases (last_entry event.fixture_id sources.fixtures.manifest)) [
        | inl e ↦ absurd (
            let never : raised (lookup_error event.fixture_id) ≡ returned transcript = rw e at h in
            ground arith)
        | inr (f, e) ↦
            let h₁ : transcribe_entry sources.fixtures event.fixture_id call_id k provenance (ok f)
                ≡ returned transcript =
              rw e at h in
            elim (Option-cases (scripted_failure k f.transcriber_failures)) [
              | inl none_left ↦
                  returned-call_id call_id _ transcript _ refl
                    (rw (transcribe_entry, none_left) at h₁)
              | inr (s, found) ↦ absurd (
                  let never : adapter_error s.failure ≡ returned transcript =
                    rw (transcribe_entry, found) at h₁ in
                  ground arith)
            ]
      ]

  on :
      (target : ProcessingState) (f : Unit {0} → Tables → Result Ended × Tables) (t : Tables)
      → IsGrown t
      → ((u : Unit {0}) (t' : Tables) → IsGrown t' → Post (λ _ t. IsGrown t) IsGrown (f u t'))
      → Post (λ _ t. IsGrown t) IsGrown (moved_to sources event call_id n target t andthen f)
  on target f t h next =
      moved_on sources event call_id n IsGrown IsGrown (λ _ t. IsGrown t) target f t
        IsGrown-IsFramed (λ t' k. k) h next

  pub attempt_once-Adds :
      (t : Tables)
      → IsGrown t
      → Post (λ _ t. IsGrown t) IsGrown (attempt_once sources event call_id n t)
  unfolding attempt_once
  attempt_once-Adds t h =
      andthen-Post (λ _ t. IsGrown t) (λ _ t. IsGrown t) IsGrown
        (committed_with
          (start_attempt call_id (provenance_of event (sources.attempt_id n)) (sources.started_at n)
            t)
          t)
        _
        (committed_with-Post (λ _ t. IsGrown t) IsGrown
          (start_attempt call_id (provenance_of event (sources.attempt_id n)) (sources.started_at n)
            t)
          t
          (λ a t' e.
            IsGrown-IsFramed t t'
              (started-HaveSameOutputs call_id (provenance_of event (sources.attempt_id n))
                (sources.started_at n) t t' a e)
              h)
          h)
        (λ a t₁ h₁. on validated _ t₁ h₁ (λ _ t₂ h₂. on queued _ t₂ h₂ (λ _ t₃ h₃.
          on media_ready _ t₃ h₃ (λ _ t₄ h₄. on transcribing _ t₄ h₄ (λ _ t₅ h₅.
            after_transcription-Adds _ t₅ (λ x e. transcribe-call_id a.attempt_number _ x e) h₅)))))
