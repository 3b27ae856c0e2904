-- ===== src/Calls/Timeline.antt =====
-- The invariant of the call tables: the attempts of each call are numbered from 1 without a gap,
-- every attempt but the last ended in a failure that an explicit retry may follow, the call is in
-- the state of its last attempt, and every attempt has its call.
use phone_law.Prelude.{
  suc, String, ◌≡◌, refl, subst, inl, inr, Bool, true, false, some, List, [], ◌∷◌, ◌==◌, eq_iff,
  arith, any, find, update_where, update_where-none, All, find-All-select, length, Bool-cases,
}
use phone_law.Calls.State.{ProcessingState, received, is_retryable}
use phone_law.Calls.Tables.{Tables, CallRow, AttemptRow}
use phone_law.Calls.Repository.{attempts_of, highest_number, set_call_state, has_call}

-- Newest first.
abbrev pub IsTimeline : List AttemptRow → Type 0
IsTimeline [] = Unit
IsTimeline (a ∷ earlier) =
    (a.attempt_number ≡ suc (length earlier))
    × All (λ e. is_retryable e.state ≡ true) earlier
    × IsTimeline earlier

-- The state of the last attempt.
abbrev pub latest_state : List AttemptRow → ProcessingState
latest_state [] = received
latest_state (a ∷ earlier) = a.state

-- No two attempts have one identifier.
abbrev pub HasUniqueIds : List AttemptRow → Type 0
HasUniqueIds [] = Unit
HasUniqueIds (a ∷ rest) = (any (λ b. b.id == a.id) rest ≡ false) × HasUniqueIds rest

pub record IsConsistent (t : Tables) : Type 0 where
  pub unique : HasUniqueIds t.attempts
  pub timeline : (call_id : String) → IsTimeline (attempts_of call_id t.attempts)
  pub current : All (λ c. c.state ≡ latest_state (attempts_of c.id t.attempts)) t.calls
  pub owned : All (λ a. has_call a.call_id t ≡ true) t.attempts

pub highest_number-IsTimeline :
    (attempts : List AttemptRow) → IsTimeline attempts → highest_number attempts ≡ length attempts
highest_number-IsTimeline [] h = refl
highest_number-IsTimeline (a ∷ rest) h = omega (arith, highest_number-IsTimeline rest h.2)

pub any-set_call_state :
    (k call_id : String) (state : ProcessingState) (calls : List CallRow)
    → any (λ c. c.id == k) (set_call_state call_id state calls) ≡ any (λ c. c.id == k) calls
any-set_call_state k call_id state [] = refl
any-set_call_state k call_id state (c ∷ calls) =
    ground (arith, any-set_call_state k call_id state calls)

-- An update of one attempt that keeps what identifies it.
pub record KeepsKey (f : AttemptRow → AttemptRow) : Type 0 where
  pub id : (a : AttemptRow) → (f a).id ≡ a.id
  pub call_id : (a : AttemptRow) → (f a).call_id ≡ a.call_id
  pub attempt_number : (a : AttemptRow) → (f a).attempt_number ≡ a.attempt_number

module _ (attempt_id : String) (f : AttemptRow → AttemptRow) (keeps : KeepsKey f) where
  abbrev rewritten : List AttemptRow → List AttemptRow
  rewritten attempts = update_where (λ a. a.id == attempt_id) f attempts

  any-rewritten :
      (k : String) (attempts : List AttemptRow)
      → any (λ b. b.id == k) (rewritten attempts) ≡ any (λ b. b.id == k) attempts
  any-rewritten k [] = refl
  any-rewritten k (a ∷ rest) = ground (arith, any-rewritten k rest, keeps.id a)

  pub rewritten-HasUniqueIds :
      (attempts : List AttemptRow) → HasUniqueIds attempts → HasUniqueIds (rewritten attempts)
  rewritten-HasUniqueIds [] h = tt
  rewritten-HasUniqueIds (a ∷ rest) h =
      (ground (arith, any-rewritten a.id rest, keeps.id a), rewritten-HasUniqueIds rest h.1)

  -- The first row with the identifier is the only one.
  alone :
      (x : AttemptRow) (rest : List AttemptRow)
      → HasUniqueIds (x ∷ rest)
      → (x.id == attempt_id) ≡ true
      → any (λ b. b.id == attempt_id) rest ≡ false
  alone x rest h e =
      subst (λ k. any (λ b. b.id == k) rest ≡ false) ((eq_iff x.id attempt_id).0 e) h.0

  -- The attempts of another call are as they were.
  pub attempts_of-rewritten_ne :
      (call_id other : String) (attempts : List AttemptRow) {a : AttemptRow}
      → HasUniqueIds attempts
      → find (λ b. b.id == attempt_id) attempts ≡ some a
      → a.call_id ≡ call_id
      → (other == call_id) ≡ false
      → attempts_of other (rewritten attempts) ≡ attempts_of other attempts
  attempts_of-rewritten_ne call_id other [] u e own ne = refl
  attempts_of-rewritten_ne call_id other (x ∷ rest) {a} u e own ne =
      elim (Bool-cases (x.id == attempt_id)) [
        | inl here ↦
            rw (here, update_where-none (λ b. b.id == attempt_id) f rest (alone x rest u here))
              (ground (arith, keeps.call_id x, eq_iff x.call_id other, eq_iff other call_id))
        | inr later ↦
            ground (
              arith,
              attempts_of-rewritten_ne call_id other rest {a = a} u.1 (rw later at e) own ne,
            )
      ]

  -- Of its own call the attempt is the last one, and it alone is rewritten.
  pub attempts_of-rewritten :
      (call_id : String) (attempts : List AttemptRow) {a : AttemptRow}
      → HasUniqueIds attempts
      → IsTimeline (attempts_of call_id attempts)
      → find (λ b. b.id == attempt_id) attempts ≡ some a
      → a.call_id ≡ call_id
      → is_retryable a.state ≡ false
      → (earlier : List AttemptRow) × (attempts_of call_id attempts ≡ a ∷ earlier)
        × (attempts_of call_id (rewritten attempts) ≡ f a ∷ earlier)
  attempts_of-rewritten call_id [] u line e own open_ = absurd (ground arith)
  attempts_of-rewritten call_id (x ∷ rest) {a} u line e own open_ =
      elim (Bool-cases (x.id == attempt_id)) [
        | inl here ↦
            rw (here, update_where-none (λ b. b.id == attempt_id) f rest (alone x rest u here))
              (
                attempts_of call_id rest,
                ground (arith, eq_iff x.call_id call_id),
                ground (arith, eq_iff x.call_id call_id, keeps.call_id x),
              )
        | inr later ↦ elim (Bool-cases (x.call_id == call_id)) [
          | inl mine ↦ absurd (
              cc (
                find-All-select (λ r. is_retryable r.state ≡ true) (λ b. b.id == attempt_id)
                  (λ b. b.call_id == call_id) rest {x = a} (rw later at e)
                  ((eq_iff a.call_id call_id).1 own) (rw mine at line).1))
          | inr theirs ↦
              let e' : find (λ b. b.id == attempt_id) rest ≡ some a = rw later at e in
              let line' : IsTimeline (attempts_of call_id rest) = rw theirs at line in
              rw (later, theirs) (attempts_of-rewritten call_id rest {a = a} u.1 line' e' own open_)
        ]
      ]

  -- What is said of the calls that attempts belong to stays true of the rewritten attempts.
  pub All-call_id-rewritten :
      (p : String → Bool) (attempts : List AttemptRow)
      → All (λ b. p b.call_id ≡ true) attempts
      → All (λ b. p b.call_id ≡ true) (rewritten attempts)
  All-call_id-rewritten p [] h = tt
  All-call_id-rewritten p (x ∷ rest) h =
      (ground (arith, h.0, keeps.call_id x), All-call_id-rewritten p rest h.1)
