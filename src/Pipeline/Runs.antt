-- ===== src/Pipeline/Runs.antt =====
-- What a run of the pipeline leaves behind.
use phone_law.Prelude.{
  ℕ, zero, suc, ◌+◌, String, ◌≡◌, refl, subst, ◌∙◌, ap, inl, inr, true, false, Option, none, some,
  ◌==◌, arith, find, find-All, find-passes, Bool-cases,
}
use phone_law.Prelude.Outcome.{
  Result, Checked, ok, err, ok_inj, >>=-ok, or_raise, no_result, Result-cases,
}
use phone_law.Calls.State.{is_terminal}
use phone_law.Contracts.Events.{IngestionEvent, IngestionResult, IngestionDisposition, accepted}
use phone_law.Calls.Tables.{Tables}
use phone_law.Calls.Repository.{ingest}
use phone_law.Calls.Outputs.{call_summary}
use phone_law.Calls.Consistency.{or_raise-ok}
use phone_law.Calls.Steps.{delivered}
use phone_law.Calls.Sequences.{Reachable, after}
use phone_law.Pipeline.Attempts.{
  RunSources, FixtureOutcome, Ended, again, finished, attempt_once, continued, run_attempts,
  outcome_of, process, is_accepted_event, run_and_summarize, summarized, ingested, retry,
}
use phone_law.Pipeline.Progress.{Post}
use phone_law.Pipeline.Rounds.{IsSettledCall, attempt_once-Post}

-- What holds after a run: without fuel, returned, raised.
abbrev RunPost : (call_id : String) → Option Checked × Tables → Type 0
RunPost call_id (none, t) = Reachable t
RunPost call_id (some (ok _), t) = IsSettledCall call_id t
RunPost call_id (some (err _), t) = Reachable t

module _ (sources : RunSources) (event : IngestionEvent) where
  continued-RunPost :
      (call_id : String) (r : Result Ended × Tables) (next : Tables → Option Checked × Tables)
      → Post (λ _ t. IsSettledCall call_id t) Reachable r
      → ((t : Tables) → Reachable t → RunPost call_id (next t))
      → RunPost call_id (continued sources event call_id r next)
  continued-RunPost call_id (ok again, t) next h more = more t h.reachable
  continued-RunPost call_id (ok finished, t) next h more = h
  continued-RunPost call_id (err e, t) next h more = h

  run_attempts-RunPost :
      (call_id : String) (fuel n : ℕ) (t : Tables)
      → Reachable t
      → RunPost call_id (run_attempts sources event call_id fuel n t)
  unfolding run_attempts
  run_attempts-RunPost call_id zero n t r = r
  run_attempts-RunPost call_id (suc fuel) n t r =
      continued-RunPost call_id (attempt_once sources event call_id n t)
        (run_attempts sources event call_id fuel (n + 1))
        (attempt_once-Post sources event call_id n t r)
        (λ t' k. run_attempts-RunPost call_id fuel (n + 1) t' k)

  -- What an outcome says of the call is what the tables hold.
  summary_settled :
      (call_id : String) (d : IngestionDisposition) (t : Tables) (outcome : FixtureOutcome)
      → IsSettledCall call_id t
      → outcome_of sources event call_id d t ≡ ok outcome
      → is_terminal outcome.terminal_state ≡ true
  unfolding outcome_of call_summary
  summary_settled call_id d t outcome h e =
      let (summary, read, made) = >>=-ok (call_summary call_id t) _ e in
      let (row, found, filled) =
        >>=-ok (or_raise (find (λ c. c.id == call_id) t.calls) no_result) _ read in
      let there = or_raise-ok _ found in
      let state : row.state ≡ outcome.terminal_state =
        ap (λ s. s.state) (ok_inj filled) ∙ ap (λ o. o.terminal_state) (ok_inj made) in
      subst (λ s. is_terminal s ≡ true) state
        (find-All (λ c. (c.id == call_id) ≡ true → is_terminal c.state ≡ true)
          (λ c. c.id == call_id) t.calls h.settled there
          (find-passes (λ c. c.id == call_id) t.calls there))

  -- What holds of the result of a run with its summary.
  abbrev IsSummed : Option (Result FixtureOutcome) × Tables → Type 0
  IsSummed r =
      Reachable r.1
      × ((outcome : FixtureOutcome)
          → r.0 ≡ some (ok outcome)
          → is_terminal outcome.terminal_state ≡ true)

  summarized-IsSummed :
      (call_id : String) (d : IngestionDisposition) (r : Option Checked × Tables)
      → RunPost call_id r
      → IsSummed (summarized sources event call_id d r)
  summarized-IsSummed call_id d (none, t) h = (h, λ o e. absurd (ground arith))
  summarized-IsSummed call_id d (some (err x), t) h = (h, λ o e. absurd (ground arith))
  summarized-IsSummed call_id d (some (ok u), t) h =
      (h.reachable, λ o e. summary_settled call_id d t o h (cc e))

  run_and_summarize-IsSummed :
      (call_id : String) (fuel : ℕ) (d : IngestionDisposition) (t : Tables)
      → Reachable t
      → IsSummed (run_and_summarize sources event call_id fuel d t)
  run_and_summarize-IsSummed call_id fuel d t r =
      summarized-IsSummed call_id d (run_attempts sources event call_id fuel 0 t)
        (run_attempts-RunPost call_id fuel 0 t r)

  -- From tables that the methods of the repository can reach, `retry` leaves such tables, whether it
  -- returns or raises and whatever fuel it has; if it returns, its outcome is a terminal state.
  pub retry-is_terminal :
      (call_id : String) (fuel : ℕ) (t : Tables)
      → Reachable t
      → Reachable (retry sources event call_id fuel t).1
        × ((outcome : FixtureOutcome)
            → (retry sources event call_id fuel t).0 ≡ some (ok outcome)
            → is_terminal outcome.terminal_state ≡ true)
  unfolding retry
  retry-is_terminal call_id fuel t r = elim (Result-cases (call_summary call_id t)) [
    | inr (x, e) ↦ rw e (r, λ o h. absurd (ground arith))
    | inl (summary, e) ↦ rw e (elim (Bool-cases (summary.fixture_id == event.fixture_id)) [
      | inl same ↦ rw same (run_and_summarize-IsSummed call_id fuel accepted t r)
      | inr other ↦ rw other (r, λ o h. absurd (ground arith))
    ])
  ]

  outcome_of-disposition :
      (call_id : String) (d : IngestionDisposition) (t : Tables) (outcome : FixtureOutcome)
      → outcome_of sources event call_id d t ≡ ok outcome
      → d ≡ outcome.disposition
  unfolding outcome_of
  outcome_of-disposition call_id d t outcome e =
      let (summary, read, made) = >>=-ok (call_summary call_id t) _ e in
      ap (λ o. o.disposition) (ok_inj made)

  ingested-IsSummed :
      (fuel : ℕ) (t : Tables) (r : Result (IngestionResult × Tables))
      → Reachable t
      → ((result : IngestionResult) (t' : Tables) → r ≡ ok (result, t') → Reachable t')
      → Reachable (ingested sources event fuel t r).1
        × ((outcome : FixtureOutcome)
            → (ingested sources event fuel t r).0 ≡ some (ok outcome)
            → is_accepted_event outcome.disposition ≡ true
            → is_terminal outcome.terminal_state ≡ true)
  ingested-IsSummed fuel t (err x) before reached = (before, λ o h. absurd (ground arith))
  ingested-IsSummed fuel t (ok (result, t')) before reached =
      elim (Bool-cases (is_accepted_event result.disposition)) [
        | inl new ↦ rw new (
            let (there, ended) =
              run_and_summarize-IsSummed result.call_id fuel result.disposition t'
                (reached result t' refl) in
            (there, λ o h _. ended o h))
        | inr old ↦ rw old (
          reached result t' refl,
          λ o h new. absurd (
              let same = outcome_of-disposition result.call_id result.disposition t' o (cc h) in
              let twice : is_accepted_event o.disposition ≡ false =
                subst (λ d. is_accepted_event d ≡ false) same old in
              ground arith),
        )
      ]

  -- From tables that the methods of the repository can reach, `process` leaves such tables, whether it
  -- returns or raises and whatever fuel it has; if it returns for an event that was accepted, its outcome is a terminal
  -- state.
  pub process-is_terminal :
      (fuel : ℕ) (event_id new_call_id : String) (t : Tables)
      → Reachable t
      → Reachable (process sources event fuel event_id new_call_id t).1
        × ((outcome : FixtureOutcome)
            → (process sources event fuel event_id new_call_id t).0 ≡ some (ok outcome)
            → is_accepted_event outcome.disposition ≡ true
            → is_terminal outcome.terminal_state ≡ true)
  unfolding process
  process-is_terminal fuel event_id new_call_id t r =
      ingested-IsSummed fuel t (ingest event none event_id new_call_id t) r
        (λ result t' e. after t t' r (delivered event none event_id new_call_id result e))
