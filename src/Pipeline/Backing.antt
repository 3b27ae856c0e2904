-- ===== src/Pipeline/Backing.antt =====
-- What the analyses that a run of the pipeline stores rest on.
use phone_law.Prelude.{
  ℕ, zero, suc, ◌+◌, String, ◌≡◌, refl, inl, inr, Option, none, some, [], Bool-cases,
}
use phone_law.Prelude.Outcome.{Result, Checked, ok, err}
use phone_law.Contracts.Events.{IngestionEvent, IngestionResult, IngestionDisposition}
use phone_law.Calls.Tables.{Tables}
use phone_law.Calls.Repository.{ingest}
use phone_law.Calls.Ingestion.{ingest-Delivered}
use phone_law.Calls.Steps.{Delivered-HaveSameOutputs}
use phone_law.Pipeline.Attempts.{
  RunSources, Ended, again, finished, attempt_once, continued, run_attempts, process,
  is_accepted_event, summarized, ingested,
}
use phone_law.Pipeline.Progress.{Post}
use phone_law.Pipeline.Outputs.{Adds, kept-Adds}
use phone_law.Pipeline.Storing.{attempt_once-Adds}

module _ (sources : RunSources) (event : IngestionEvent) (before : Tables) where
  continued-Adds :
      (call_id : String) (r : Result Ended × Tables) (next : Tables → Option Checked × Tables)
      → Post (λ _ t. Adds event before t) (Adds event before) r
      → ((t : Tables) → Adds event before t → Adds event before (next t).1)
      → Adds event before (continued sources event call_id r next).1
  continued-Adds call_id (ok again, t) next h more = more t h
  continued-Adds call_id (ok finished, t) next h more = h
  continued-Adds call_id (err e, t) next h more = h

  run_attempts-Adds :
      (call_id : String) (fuel n : ℕ) (t : Tables)
      → Adds event before t
      → Adds event before (run_attempts sources event call_id fuel n t).1
  unfolding run_attempts
  run_attempts-Adds call_id zero n t h = h
  run_attempts-Adds call_id (suc fuel) n t h =
      continued-Adds call_id (attempt_once sources event call_id n t)
        (run_attempts sources event call_id fuel (n + 1))
        (attempt_once-Adds sources event call_id before n t h)
        (λ t' k. run_attempts-Adds call_id fuel (n + 1) t' k)

  summarized-Adds :
      (call_id : String) (d : IngestionDisposition) (r : Option Checked × Tables)
      → Adds event before r.1
      → Adds event before (summarized sources event call_id d r).1
  summarized-Adds call_id d (none, t) h = h
  summarized-Adds call_id d (some (err x), t) h = h
  summarized-Adds call_id d (some (ok u), t) h = h

  ingested-Adds :
      (fuel : ℕ) (t : Tables) (r : Result (IngestionResult × Tables))
      → Adds event before t
      → ((result : IngestionResult) (t' : Tables) → r ≡ ok (result, t') → Adds event before t')
      → Adds event before (ingested sources event fuel t r).1
  ingested-Adds fuel t (err x) h reached = h
  ingested-Adds fuel t (ok (result, t')) h reached =
      elim (Bool-cases (is_accepted_event result.disposition)) [
        | inl new ↦ rw new (
            summarized-Adds result.call_id result.disposition
              (run_attempts sources event result.call_id fuel 0 t')
              (run_attempts-Adds result.call_id fuel 0 t' (reached result t' refl)))
        | inr old ↦ rw old (reached result t' refl)
      ]

-- Whatever `process` meets, whether it returns or raises and whatever the tables are: it removes no
-- analysis, and every analysis that it stores passed `validate_analysis` for the event against the
-- transcript that is stored for the same call.
pub process-Adds :
    (sources : RunSources) (event : IngestionEvent) (fuel : ℕ) (event_id new_call_id : String)
    (t : Tables)
    → Adds event t (process sources event fuel event_id new_call_id t).1
unfolding process
process-Adds sources event fuel event_id new_call_id t =
    ingested-Adds sources event t fuel t (ingest event none event_id new_call_id t) ([], refl, tt)
      (λ result t' e.
        kept-Adds event t t t'
          (Delivered-HaveSameOutputs event t result t'
            (ingest-Delivered event none event_id new_call_id t result t' e))
          ([], refl, tt))
