-- ===== src/Calls/Restart.antt =====
-- `start_attempt` keeps the call tables consistent; it is refused for a call that has ended well.
use phone_law.Prelude.{
  ℕ, ◌+◌, ◌<◌, String, ◌≡◌, refl, sym, subst, ap, inl, inr, ◌⊎◌, true, false, ◌||◌, ◌&&◌, some,
  List, [], ◌∷◌, ◌==◌, eq_iff, eq_refl, eqb, arith, any, find, find-All, find-passes, any-or-left,
  All, All-map, ◌∙◌, length, Bool-cases,
}
use phone_law.Prelude.Outcome.{ok, >>=-ok, or_raise, no_result}
use phone_law.Calls.State.{ProcessingState, received, is_retryable, start_explicit_retry}
use phone_law.Contracts.Events.{Provenance}
use phone_law.Calls.Tables.{Tables, CallRow, AttemptRow}
use phone_law.Calls.Repository.{
  attempts_of, highest_number, set_call_state, open_call, insert_attempt, attempt_row,
  start_attempt, AttemptRecord, has_call,
}
use phone_law.Calls.Timeline.{
  IsTimeline, latest_state, IsConsistent, highest_number-IsTimeline, any-set_call_state,
}
use phone_law.Calls.Consistency.{All-set_call_state, or_raise-ok}

pub insert_attempt-ok :
    (row : AttemptRow) (o r : Tables)
    → insert_attempt row o ≡ ok r
    → (any (λ b. b.id == row.id) o.attempts ≡ false)
      × (has_call row.call_id o ≡ true)
      × (r ≡ record o { attempts = row ∷ o.attempts })
unfolding insert_attempt
insert_attempt-ok row o r h =
    let clash =
      any
        (λ a.
          a.id == row.id || (a.call_id == row.call_id && eqb a.attempt_number row.attempt_number))
        o.attempts in
    elim (Bool-cases clash) [
      | inl e ↦ absurd (ground arith)
      | inr e ↦ (
        any-or-left (λ a. a.id == row.id)
            (λ a. a.call_id == row.call_id && eqb a.attempt_number row.attempt_number) o.attempts e,
        ground arith,
        ground arith,
      )
    ]

-- What the guard of `start_attempt` lets through.
pub open_call-ok :
    (n : ℕ) (call_id : String) (current : ProcessingState) (t o : Tables)
    → open_call n call_id current t ≡ ok o
    → ((1 < n)
        × (is_retryable current ≡ true)
        × (o ≡ record t { calls = set_call_state call_id received t.calls }))
      ⊎ ((n < 2) × (current ≡ received) × (o ≡ t))
unfolding start_explicit_retry
open_call-ok n call_id current t o h = ground arith

All-retryable :
    (attempts : List AttemptRow)
    → IsTimeline attempts
    → (1 < length attempts + 1 → is_retryable (latest_state attempts) ≡ true)
    → All (λ e. is_retryable e.state ≡ true) attempts
All-retryable [] line h = tt
All-retryable (a ∷ rest) line h = (h (omega arith), line.1)

-- Calls keep their state where their attempts give the same one.
All-same_state :
    (before after : String → ProcessingState)
    → ((id : String) → after id ≡ before id)
    → (calls : List CallRow) → All (λ c. c.state ≡ before c.id) calls
    → All (λ c. c.state ≡ after c.id) calls
All-same_state before after same [] h = tt
All-same_state before after same (c ∷ calls) h =
    (cc (same c.id), All-same_state before after same calls h.1)

latest_state-short :
    (attempts : List AttemptRow) → length attempts < 1 → latest_state attempts ≡ received
latest_state-short [] h = refl
latest_state-short (a ∷ rest) h = absurd (omega arith)

module _ (call_id : String) (provenance : Provenance) (now : ℕ) (t : Tables)
    (consistent : IsConsistent t) where
  abbrev attempts : List AttemptRow
  attempts = attempts_of call_id t.attempts

  abbrev next_number : ℕ
  next_number = highest_number attempts + 1

  abbrev started : AttemptRow
  started = attempt_row call_id next_number provenance now

  next_number-eq : next_number ≡ length attempts + 1
  next_number-eq = omega (arith, highest_number-IsTimeline attempts (consistent.timeline call_id))

  started_own : attempts_of call_id (started ∷ t.attempts) ≡ started ∷ attempts
  unfolding attempt_row
  started_own = rw (eq_refl call_id)

  started_other :
      (other : String)
      → (other == call_id) ≡ false
      → attempts_of other (started ∷ t.attempts) ≡ attempts_of other t.attempts
  unfolding attempt_row
  started_other other ne = ground (arith, eq_iff call_id other, eq_iff other call_id)

  module _ {c : CallRow} (o r : Tables) (found : find (λ d. d.id == call_id) t.calls ≡ some c)
      (opened : open_call next_number call_id c.state t ≡ ok o)
      (inserted : insert_attempt started o ≡ ok r) where
    current_state : c.state ≡ latest_state attempts
    current_state =
        let same : c.id ≡ call_id =
          (eq_iff c.id call_id).0 (find-passes (λ d. d.id == call_id) t.calls found) in
        subst (λ id. c.state ≡ latest_state (attempts_of id t.attempts)) same
          (find-All (λ d. d.state ≡ latest_state (attempts_of d.id t.attempts))
            (λ d. d.id == call_id) t.calls consistent.current found)

    retried : 1 < length attempts + 1 → is_retryable (latest_state attempts) ≡ true
    retried more = elim (open_call-ok next_number call_id c.state t o opened) [
      | inl (_, again, _) ↦ subst (λ s. is_retryable s ≡ true) current_state again
      | inr (first, _, _) ↦ absurd (omega (arith, next_number-eq))
    ]

    own-IsTimeline : IsTimeline (attempts_of call_id (started ∷ t.attempts))
    unfolding attempt_row
    own-IsTimeline = rw started_own (
      omega (arith, next_number-eq),
      All-retryable attempts (consistent.timeline call_id) retried,
      consistent.timeline call_id,
    )

    IsTimeline-of : (other : String) → IsTimeline (attempts_of other (started ∷ t.attempts))
    IsTimeline-of other = elim (Bool-cases (other == call_id)) [
      | inl e ↦
          subst (λ id. IsTimeline (attempts_of id (started ∷ t.attempts)))
            (sym ((eq_iff other call_id).0 e)) own-IsTimeline
      | inr e ↦ rw (started_other other e) (consistent.timeline other)
    ]

    set_current :
        All
          (λ d. d.state ≡ latest_state (attempts_of d.id (started ∷ t.attempts)))
          (set_call_state call_id received t.calls)
    unfolding attempt_row
    set_current =
        All-set_call_state call_id received (λ id. latest_state (attempts_of id t.attempts))
          (λ id. latest_state (attempts_of id (started ∷ t.attempts))) (rw started_own)
          (λ id ne. rw (started_other id ne)) t.calls consistent.current

    kept_current :
        next_number < 2
        → All (λ d. d.state ≡ latest_state (attempts_of d.id (started ∷ t.attempts))) t.calls
    unfolding attempt_row
    kept_current first =
        All-same_state (λ id. latest_state (attempts_of id t.attempts))
          (λ id. latest_state (attempts_of id (started ∷ t.attempts)))
          (λ id. elim (Bool-cases (id == call_id)) [
            | inl e ↦
                subst
                  (λ k.
                    latest_state (attempts_of k (started ∷ t.attempts))
                    ≡ latest_state (attempts_of k t.attempts))
                  (sym ((eq_iff id call_id).0 e))
                  (rw started_own
                    (sym (latest_state-short attempts (omega (arith, next_number-eq)))))
            | inr e ↦ ap latest_state (started_other id e)
          ])
          t.calls consistent.current

    current_of : All (λ d. d.state ≡ latest_state (attempts_of d.id (started ∷ t.attempts))) o.calls
    current_of = elim (open_call-ok next_number call_id c.state t o opened) [
      | inl (_, _, e) ↦ rw e set_current
      | inr (first, _, e) ↦ rw e (kept_current first)
    ]

    same_attempts : o.attempts ≡ t.attempts
    same_attempts = elim (open_call-ok next_number call_id c.state t o opened) [
      | inl (_, _, e) ↦ rw e
      | inr (_, _, e) ↦ rw e
    ]

    calls_kept : (k : String) → has_call k o ≡ has_call k t
    calls_kept k = elim (open_call-ok next_number call_id c.state t o opened) [
      | inl (_, _, e) ↦ rw e (any-set_call_state k call_id received t.calls)
      | inr (_, _, e) ↦ rw e
    ]

    started-IsConsistent : IsConsistent r
    unfolding attempt_row
    started-IsConsistent =
        let (fresh, there, e) = insert_attempt-ok started o r inserted in
        rw (e, same_attempts)
          (record {
            unique = (
              subst (λ xs. any (λ b. b.id == started.id) xs ≡ false) same_attempts fresh,
              consistent.unique,
            );
            timeline = IsTimeline-of;
            current = current_of;
            owned = (
              there,
              All-map (λ b. has_call b.call_id t ≡ true) (λ b. has_call b.call_id o ≡ true)
                  (λ b h. calls_kept b.call_id ∙ h) t.attempts consistent.owned,
            );
          })

-- `start_attempt` keeps consistent tables consistent.
pub start_attempt-IsConsistent :
    (call_id : String) (provenance : Provenance) (now : ℕ) (t t' : Tables) (started : AttemptRecord)
    → IsConsistent t
    → start_attempt call_id provenance now t ≡ ok (started, t')
    → IsConsistent t'
unfolding start_attempt
start_attempt-IsConsistent call_id provenance now t t' started consistent h =
    let (c, found, rest) = >>=-ok (or_raise (find (λ d. d.id == call_id) t.calls) no_result) _ h in
    let (o, opened, rest') = >>=-ok (open_call _ call_id c.state t) _ rest in
    let (r, inserted, last) = >>=-ok (insert_attempt _ o) _ rest' in
    let same : r ≡ t' = cc in
    subst IsConsistent same (
      started-IsConsistent call_id provenance now t consistent o r (or_raise-ok _ found) opened
        inserted)
