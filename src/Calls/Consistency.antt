-- ===== src/Calls/Consistency.antt =====
-- Every method of the review repository keeps the call tables consistent, and what that says of a
-- call that has ended.
use phone_law.Prelude.{
  ℕ, String, ◌≡◌, refl, sym, subst, inl, inr, true, false, Option, none, some, List, [], ◌∷◌, ◌==◌,
  eq_iff, arith, find, All, All-map, ◌∙◌, Bool-cases,
}
use phone_law.Prelude.Outcome.{ok, >>=-ok, or_raise, no_result}
use phone_law.Calls.State.{ProcessingState, transition, is_retryable}
use phone_law.Contracts.Events.{ProcessingFailure}
use phone_law.Calls.Tables.{Tables, CallRow, AttemptRow}
use phone_law.Calls.Repository.{
  attempts_of, set_call_state, write_state, advance, fail, advanced, failed, has_call,
}
use phone_law.Calls.Timeline.{
  IsTimeline, latest_state, IsConsistent, KeepsKey, rewritten-HasUniqueIds, attempts_of-rewritten,
  attempts_of-rewritten_ne, any-set_call_state, All-call_id-rewritten,
}

-- Calls follow a change of the states that their attempts give.
pub All-set_call_state :
    (call_id : String) (state : ProcessingState) (before after : String → ProcessingState)
    → after call_id ≡ state
    → ((id : String) → (id == call_id) ≡ false → after id ≡ before id)
    → (calls : List CallRow) → All (λ c. c.state ≡ before c.id) calls
    → All (λ c. c.state ≡ after c.id) (set_call_state call_id state calls)
All-set_call_state call_id state before after new same [] h = tt
All-set_call_state call_id state before after new same (c ∷ calls) h = (
  elim (Bool-cases (c.id == call_id)) [
    | inl e ↦ rw (e, (eq_iff c.id call_id).0 e) (sym new)
    | inr e ↦ rw e (cc (same c.id e))
  ],
  All-set_call_state call_id state before after new same calls h.1,
)

pub transition-open : (s t u : ProcessingState) → transition s t ≡ ok u → is_retryable s ≡ false
unfolding transition
transition-open s t u h = ground arith

module _ (call_id attempt_id : String) (target : ProcessingState) (f : AttemptRow → AttemptRow)
    (keeps : KeepsKey f) (t : Tables) {a : AttemptRow} (consistent : IsConsistent t)
    (found : find (λ b. b.id == attempt_id) t.attempts ≡ some a) (own : a.call_id ≡ call_id)
    (writes : (f a).state ≡ target) (u : ProcessingState)
    (passes : transition a.state target ≡ ok u) where
  own_attempts :
      (earlier : List AttemptRow) × (attempts_of call_id t.attempts ≡ a ∷ earlier)
      × (attempts_of call_id (write_state call_id attempt_id target f t).attempts ≡ f a ∷ earlier)
  own_attempts =
      attempts_of-rewritten attempt_id f keeps call_id t.attempts consistent.unique
        (consistent.timeline call_id) found own (transition-open a.state target u passes)

  other_attempts :
      (other : String)
      → (other == call_id) ≡ false
      → attempts_of other (write_state call_id attempt_id target f t).attempts
        ≡ attempts_of other t.attempts
  other_attempts other ne =
      attempts_of-rewritten_ne attempt_id f keeps call_id other t.attempts consistent.unique found
        own ne

  own-IsTimeline :
      IsTimeline (attempts_of call_id (write_state call_id attempt_id target f t).attempts)
  own-IsTimeline =
      let (earlier, before, after) = own_attempts in
      let line : IsTimeline (a ∷ earlier) = subst IsTimeline before (consistent.timeline call_id) in
      rw after (cc (keeps.attempt_number a, line.0), line.1, line.2)

  pub write_state-IsConsistent : IsConsistent (write_state call_id attempt_id target f t)
  write_state-IsConsistent = record {
    unique = rewritten-HasUniqueIds attempt_id f keeps t.attempts consistent.unique;
    timeline = λ other. elim (Bool-cases (other == call_id)) [
      | inl e ↦ rw ((eq_iff other call_id).0 e) own-IsTimeline
      | inr e ↦ rw (other_attempts other e) (consistent.timeline other)
    ];
    current =
        All-set_call_state call_id target (λ id. latest_state (attempts_of id t.attempts))
          (λ id. latest_state (attempts_of id (write_state call_id attempt_id target f t).attempts))
          (rw (own_attempts.2) writes) (λ id ne. rw (other_attempts id ne)) t.calls
          consistent.current;
    owned =
        All-call_id-rewritten attempt_id f keeps
          (λ k. has_call k (write_state call_id attempt_id target f t)) t.attempts
          (All-map (λ b. has_call b.call_id t ≡ true)
            (λ b. has_call b.call_id (write_state call_id attempt_id target f t) ≡ true)
            (λ b h. any-set_call_state b.call_id call_id target t.calls ∙ h) t.attempts
            consistent.owned);
  }

pub or_raise-ok {ℓ} : {A : Type ℓ} (o : Option A) {a : A} → or_raise o no_result ≡ ok a → o ≡ some a
or_raise-ok none h = cc
or_raise-ok (some b) h = cc

pub advanced-KeepsKey : (target : ProcessingState) (now : ℕ) → KeepsKey (advanced target now)
advanced-KeepsKey target now = record {
  id = λ a. refl;
  call_id = λ a. refl;
  attempt_number = λ a. refl;
}

pub failed-KeepsKey : (failure : ProcessingFailure) (now : ℕ) → KeepsKey (failed failure now)
failed-KeepsKey failure now = record {
  id = λ a. refl;
  call_id = λ a. refl;
  attempt_number = λ a. refl;
}

-- The attempt that a caller names belongs to the call that it names.
abbrev pub BelongsTo : String → String → Tables → Type 0
BelongsTo attempt_id call_id t =
    (a : AttemptRow) → find (λ b. b.id == attempt_id) t.attempts ≡ some a → a.call_id ≡ call_id

-- `advance` keeps consistent tables consistent, when the attempt is one of the call.
pub advance-IsConsistent :
    (call_id attempt_id : String) (target : ProcessingState) (now : ℕ) (t t' : Tables)
    → IsConsistent t
    → BelongsTo attempt_id call_id t
    → advance call_id attempt_id target now t ≡ ok t'
    → IsConsistent t'
unfolding advance
advance-IsConsistent call_id attempt_id target now t t' consistent own h =
    let (a, found, rest) =
      >>=-ok (or_raise (find (λ b. b.id == attempt_id) t.attempts) no_result) _ h in
    let (u, passes, last) = >>=-ok (transition a.state target) _ rest in
    let found' : find (λ b. b.id == attempt_id) t.attempts ≡ some a = or_raise-ok _ found in
    let result : write_state call_id attempt_id target (advanced target now) t ≡ t' = cc in
    subst IsConsistent result (
      write_state-IsConsistent call_id attempt_id target (advanced target now)
        (advanced-KeepsKey target now) t consistent found' (own a found') refl u passes)

-- So does `fail`, which the code calls with the state of the failure.
pub fail-IsConsistent :
    (call_id attempt_id : String) (failure : ProcessingFailure) (now : ℕ) (t t' : Tables)
    → IsConsistent t
    → BelongsTo attempt_id call_id t
    → fail call_id attempt_id failure now t ≡ ok t'
    → IsConsistent t'
unfolding fail
fail-IsConsistent call_id attempt_id failure now t t' consistent own h =
    let (a, found, rest) =
      >>=-ok (or_raise (find (λ b. b.id == attempt_id) t.attempts) no_result) _ h in
    let (u, passes, last) = >>=-ok (transition a.state failure.terminal_state) _ rest in
    let found' : find (λ b. b.id == attempt_id) t.attempts ≡ some a = or_raise-ok _ found in
    let result : write_state call_id attempt_id failure.terminal_state (failed failure now) t ≡ t' =
      cc in
    subst IsConsistent result (
      write_state-IsConsistent call_id attempt_id failure.terminal_state (failed failure now)
        (failed-KeepsKey failure now) t consistent found' (own a found') refl u passes)
