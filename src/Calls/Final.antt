-- ===== src/Calls/Final.antt =====
-- A call that ended in a state that no retry may follow is never worked on again.
use phone_law.Prelude.{
  ℕ, String, ◌≡◌, refl, subst, inl, inr, true, false, some, ◌==◌, eq_iff, arith, find, find-All,
  find-passes, Bool-cases, Option-cases,
}
use phone_law.Prelude.Outcome.{Result, ok, err, ◌>>=◌, or_raise, no_result, is_ok}
use phone_law.Calls.State.{
  ProcessingState, received, transition, is_retryable, is_terminal, start_explicit_retry,
}
use phone_law.Contracts.Events.{Provenance, ProcessingFailure}
use phone_law.Calls.Tables.{Tables, CallRow, AttemptRow}
use phone_law.Calls.Repository.{attempts_of, open_call, start_attempt, advance, fail, advanced}
use phone_law.Calls.Timeline.{latest_state, IsConsistent, attempts_of-rewritten}
use phone_law.Calls.Consistency.{BelongsTo, advanced-KeepsKey}

-- The calls with this identifier that the tables hold have ended for good.
abbrev pub HasEnded : String → Tables → Type 0
HasEnded call_id t =
    (c : CallRow) × (find (λ d. d.id == call_id) t.calls ≡ some c)
    × (is_terminal c.state ≡ true)
    × (is_retryable c.state ≡ false)

open_call-ended :
    (n : ℕ) (call_id : String) (current : ProcessingState) (t : Tables)
    → is_terminal current ≡ true
    → is_retryable current ≡ false
    → is_ok (open_call n call_id current t) ≡ false
unfolding start_explicit_retry
open_call-ended n call_id current t e r = ground arith

transition-ended : (s t : ProcessingState) → is_terminal s ≡ true → is_ok (transition s t) ≡ false
unfolding transition
transition-ended s t h = ground arith

retryable-is_terminal : (s : ProcessingState) → is_retryable s ≡ true → is_terminal s ≡ true
retryable-is_terminal s h = ground arith

bind-refused {ℓ κ} :
    {A : Type ℓ} {B : Type κ} (r : Result A) (f : A → Result B)
    → is_ok r ≡ false
    → is_ok (r >>= f) ≡ false
bind-refused (ok a) f h = cc
bind-refused (err e) f h = refl

module _ (call_id attempt_id : String) (t : Tables) (consistent : IsConsistent t)
    (ended : HasEnded call_id t) (own : BelongsTo attempt_id call_id t) where
  attempt-is_terminal :
      (a : AttemptRow)
      → find (λ b. b.id == attempt_id) t.attempts ≡ some a
      → is_terminal a.state ≡ true
  attempt-is_terminal a found = elim (Bool-cases (is_retryable a.state)) [
    | inl e ↦ retryable-is_terminal a.state e
    | inr e ↦
        let (c, call_found, done, _) = ended in
        let (earlier, before, _) =
          attempts_of-rewritten attempt_id (advanced received 0) (advanced-KeepsKey received 0)
            call_id t.attempts consistent.unique (consistent.timeline call_id) found (own a found)
            e in
        let same : c.id ≡ call_id =
          (eq_iff c.id call_id).0 (find-passes (λ d. d.id == call_id) t.calls call_found) in
        let state : c.state ≡ latest_state (attempts_of c.id t.attempts) =
          find-All (λ d. d.state ≡ latest_state (attempts_of d.id t.attempts))
            (λ d. d.id == call_id) t.calls consistent.current call_found in
        let state' : c.state ≡ latest_state (attempts_of call_id t.attempts) =
          subst (λ id. c.state ≡ latest_state (attempts_of id t.attempts)) same state in
        let state'' : c.state ≡ a.state = subst (λ l. c.state ≡ latest_state l) before state' in
        subst (λ s. is_terminal s ≡ true) state'' done
  ]

  write_refused :
      (target : ProcessingState) (f : AttemptRow → Result Tables)
      → is_ok (do
        a ← or_raise (find (λ b. b.id == attempt_id) t.attempts) no_result
        _ ← transition a.state target
        f a)
        ≡ false
  write_refused target f = elim (Option-cases (find (λ b. b.id == attempt_id) t.attempts)) [
    | inl e ↦ rw e
    | inr (a, e) ↦ rw e (
        bind-refused (transition a.state target) (λ _. f a)
          (transition-ended a.state target (attempt-is_terminal a e)))
  ]

  -- In consistent tables, a call that has ended in a state that is not retryable takes no further
  -- attempt, and none of its attempts is advanced or failed any more.
  pub ended_for_good :
      (provenance : Provenance) (target : ProcessingState) (failure : ProcessingFailure) (now : ℕ)
      → (is_ok (start_attempt call_id provenance now t) ≡ false)
        × (is_ok (advance call_id attempt_id target now t) ≡ false)
        × (is_ok (fail call_id attempt_id failure now t) ≡ false)
  unfolding start_attempt advance fail
  ended_for_good provenance target failure now = (
    (let (c, found, done, fixed) = ended in
        rw found (
          bind-refused (open_call _ call_id c.state t) _
            (open_call-ended _ call_id c.state t done fixed))),
    write_refused target _,
    write_refused failure.terminal_state _,
  )
