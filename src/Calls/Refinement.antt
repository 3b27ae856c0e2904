-- ===== src/Calls/Refinement.antt =====
-- What the review repository shows of a call, nothing yet or its state, and how that changes.
use phone_law.Prelude.{
  ℕ, String, ◌≡◌, refl, sym, subst, ap, ◌∙◌, inl, inr, false, Option, none, some, List, ◌==◌,
  eq_iff, any, find, Bool-cases,
}
use phone_law.Prelude.Outcome.{ok, ok_inj, >>=-ok, or_raise, no_result}
use phone_law.Calls.State.{ProcessingState, received, transition}
use phone_law.Contracts.Events.{IngestionEvent, IngestionResult, Provenance, ProcessingFailure}
use phone_law.Calls.Tables.{Tables, CallRow, AttemptRow}
use phone_law.Calls.Repository.{
  attempts_of, set_call_state, write_state, call_row, start_attempt, advance, fail, advanced,
  failed, open_call, insert_attempt, AttemptRecord,
}
use phone_law.Calls.Timeline.{IsConsistent, KeepsKey, latest_state, attempts_of-rewritten}
use phone_law.Calls.Consistency.{
  BelongsTo, or_raise-ok, advanced-KeepsKey, failed-KeepsKey, transition-open,
}
use phone_law.Calls.Restart.{open_call-ok, insert_attempt-ok}
use phone_law.Calls.Ingestion.{Delivered, ingest-Delivered, again, known, new}
use phone_law.Calls.Steps.{
  Step, delivered, started, moved, stopped, transcript_stored, analysis_stored, installed,
  transcript-HaveSameCalls, analysis-HaveSameCalls, installed-HaveSame,
}
use phone_law.Calls.Sequences.{Reachable, Reachable-IsConsistent}
use phone_law.Calls.Machine.{
  Moves, stays, appears, proceeds, restarts, state_of, state_of-fresh, state_of-find,
  state_of-current, state_of-set_other, replaced, state_of-set, transition-target, retry-received,
}

kept-Moves :
    (k : String) (t t' : Tables)
    → t.calls ≡ t'.calls
    → Moves (state_of k t.calls) (state_of k t'.calls)
kept-Moves k t t' same =
    subst (λ cs. Moves (state_of k t.calls) (state_of k cs)) same (stays (state_of k t.calls))

replaced-Moves :
    (s s' : ProcessingState) (before : Option ProcessingState)
    → ((x : ProcessingState) → before ≡ some x → x ≡ s)
    → Moves (some s) (some s')
    → Moves before (replaced s' before)
replaced-Moves s s' none h m = stays none
replaced-Moves s s' (some x) h m = subst (λ y. Moves (some y) (some s')) (sym (h x refl)) m

-- A call is set from the state that it is in.
set-Moves :
    (k call_id : String) (s s' : ProcessingState) (calls : List CallRow)
    → ((x : ProcessingState) → state_of call_id calls ≡ some x → x ≡ s)
    → Moves (some s) (some s')
    → Moves (state_of k calls) (state_of k (set_call_state call_id s' calls))
set-Moves k call_id s s' calls from m = elim (Bool-cases (k == call_id)) [
  | inl e ↦
      rw ((eq_iff k call_id).0 e, state_of-set call_id s' calls)
        (replaced-Moves s s' (state_of call_id calls) from m)
  | inr e ↦ rw (state_of-set_other k call_id s' calls e) (stays (state_of k calls))
]

-- The attempt that a state is written to is the last of its call.
written-Moves :
    (k call_id attempt_id : String) (target : ProcessingState) (f : AttemptRow → AttemptRow)
    (t : Tables) (u : ProcessingState) {a : AttemptRow}
    → KeepsKey f
    → IsConsistent t
    → find (λ b. b.id == attempt_id) t.attempts ≡ some a
    → a.call_id ≡ call_id
    → transition a.state target ≡ ok u
    → Moves (state_of k t.calls) (state_of k (write_state call_id attempt_id target f t).calls)
written-Moves k call_id attempt_id target f t u {a} keeps consistent found own passes =
    let (earlier, before, _) =
      attempts_of-rewritten attempt_id f keeps call_id t.attempts consistent.unique
        (consistent.timeline call_id) found own (transition-open a.state target u passes) in
    set-Moves k call_id a.state target t.calls
      (λ x e.
        state_of-current call_id (λ id. latest_state (attempts_of id t.attempts)) t.calls {s = x}
          consistent.current e
        ∙ ap latest_state before)
      (proceeds a.state target (transition-target a.state target u passes))

opened-Moves :
    (k call_id : String) (n : ℕ) (c : CallRow) (t o : Tables)
    → find (λ d. d.id == call_id) t.calls ≡ some c
    → open_call n call_id c.state t ≡ ok o
    → Moves (state_of k t.calls) (state_of k o.calls)
opened-Moves k call_id n c t o found opened = elim (open_call-ok n call_id c.state t o opened) [
  | inr (_, _, e) ↦ kept-Moves k t o (ap (λ x. x.calls) (sym e))
  | inl (_, retryable, e) ↦ rw e (
      set-Moves k call_id c.state received t.calls
        (λ x h.
          let same : some x ≡ some c.state = sym h ∙ state_of-find call_id t.calls {c = c} found in
          cc)
        (restarts c.state (retry-received c.state retryable)))
]

Delivered-Moves :
    (k : String) (event : IngestionEvent) (t : Tables) (r : IngestionResult) (t' : Tables)
    → Delivered event t r t'
    → Moves (state_of k t.calls) (state_of k t'.calls)
unfolding call_row
Delivered-Moves k event t r t' (again e _ _ same) = kept-Moves k t t' (ap (λ x. x.calls) (sym same))
Delivered-Moves k event t r t' (known c i _ _ same) =
    kept-Moves k t t' (ap (λ x. x.calls) (sym same))
Delivered-Moves k event t r t' (new call_id i fresh _ _ same) = elim (Bool-cases (call_id == k)) [
  | inl e ↦
      let absent : state_of k t.calls ≡ none =
        state_of-fresh k t.calls
          (subst (λ id. any (λ c. c.id == id) t.calls ≡ false) ((eq_iff call_id k).0 e) fresh) in
      rw (same, e, absent) appears
  | inr e ↦ rw (same, e) (stays (state_of k t.calls))
]

started-Moves :
    (k call_id : String) (provenance : Provenance) (now : ℕ) (t t' : Tables) (a : AttemptRecord)
    → start_attempt call_id provenance now t ≡ ok (a, t')
    → Moves (state_of k t.calls) (state_of k t'.calls)
unfolding start_attempt
started-Moves k call_id provenance now t t' a h =
    let (c, found, rest) = >>=-ok (or_raise (find (λ d. d.id == call_id) t.calls) no_result) _ h in
    let (o, opened, rest') = >>=-ok (open_call _ call_id c.state t) _ rest in
    let (r, inserted, last) = >>=-ok (insert_attempt _ o) _ rest' in
    let (_, _, e) = insert_attempt-ok _ o r inserted in
    let calls : o.calls ≡ t'.calls =
      sym (ap (λ x. x.calls) e) ∙ ap (λ p. p.1.calls) (ok_inj last) in
    subst (λ cs. Moves (state_of k t.calls) (state_of k cs)) calls
      (opened-Moves k call_id _ c t o (or_raise-ok _ found) opened)

advanced-Moves :
    (k call_id attempt_id : String) (target : ProcessingState) (now : ℕ) (t t' : Tables)
    → IsConsistent t
    → BelongsTo attempt_id call_id t
    → advance call_id attempt_id target now t ≡ ok t'
    → Moves (state_of k t.calls) (state_of k t'.calls)
unfolding advance
advanced-Moves k call_id attempt_id target now t t' consistent own h =
    let (a, found, rest) =
      >>=-ok (or_raise (find (λ b. b.id == attempt_id) t.attempts) no_result) _ h in
    let (u, passes, last) = >>=-ok (transition a.state target) _ rest in
    let found' = or_raise-ok _ found in
    subst (λ x. Moves (state_of k t.calls) (state_of k x.calls)) (ok_inj last)
      (written-Moves k call_id attempt_id target (advanced target now) t u
        (advanced-KeepsKey target now) consistent found' (own a found') passes)

failed-Moves :
    (k call_id attempt_id : String) (failure : ProcessingFailure) (now : ℕ) (t t' : Tables)
    → IsConsistent t
    → BelongsTo attempt_id call_id t
    → fail call_id attempt_id failure now t ≡ ok t'
    → Moves (state_of k t.calls) (state_of k t'.calls)
unfolding fail
failed-Moves k call_id attempt_id failure now t t' consistent own h =
    let (a, found, rest) =
      >>=-ok (or_raise (find (λ b. b.id == attempt_id) t.attempts) no_result) _ h in
    let (u, passes, last) = >>=-ok (transition a.state failure.terminal_state) _ rest in
    let found' = or_raise-ok _ found in
    subst (λ x. Moves (state_of k t.calls) (state_of k x.calls)) (ok_inj last)
      (written-Moves k call_id attempt_id failure.terminal_state (failed failure now) t u
        (failed-KeepsKey failure now) consistent found' (own a found') passes)

-- The repository implements the state machine for every call: whatever method returns, from tables
-- that its methods can reach and with an attempt of the call where it takes one, each call stays as it is, appears as received, passes from its state to
-- another by `transition`, or is received again by `start_explicit_retry` — although the methods test
-- the state of the attempt that they are given, not that of the call.
pub Step-Moves :
    (t t' : Tables) (call_id : String)
    → Reachable t
    → Step t t'
    → Moves (state_of call_id t.calls) (state_of call_id t'.calls)
Step-Moves t t' k r (delivered event preferred event_id new_call_id result h) =
    Delivered-Moves k event t result t'
      (ingest-Delivered event preferred event_id new_call_id t result t' h)
Step-Moves t t' k r (started call_id provenance now a h) =
    started-Moves k call_id provenance now t t' a h
Step-Moves t t' k r (moved call_id attempt_id target now own h) =
    advanced-Moves k call_id attempt_id target now t t' (Reachable-IsConsistent t r).0 own h
Step-Moves t t' k r (stopped call_id attempt_id failure now own h) =
    failed-Moves k call_id attempt_id failure now t t' (Reachable-IsConsistent t r).0 own h
Step-Moves t t' k r (transcript_stored transcript attempt_id h) =
    kept-Moves k t t' (transcript-HaveSameCalls transcript attempt_id t t' h).calls
Step-Moves t t' k r (analysis_stored analysis attempt_id h) =
    kept-Moves k t t' (analysis-HaveSameCalls analysis attempt_id t t' h).calls
Step-Moves t t' k r (installed payload now h) =
    kept-Moves k t t' (installed-HaveSame payload now t t' h).0.calls
