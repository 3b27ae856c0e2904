-- ===== src/Pipeline/Progress.antt =====
-- Where an attempt stands while a run of the pipeline moves it.
use phone_law.Prelude.{
  ℕ, ◌+◌, String, ◌≡◌, refl, sym, subst, ◌∙◌, ap, inl, inr, true, none, some, List, [], ◌∷◌, ◌==◌,
  eq_iff, eq_refl, arith, find, All, All-map, Bool-cases, update_where,
}
use phone_law.Prelude.Outcome.{Result, ok, err, ok_inj, >>=-ok, ◌andthen◌, or_raise, no_result}
use phone_law.Calls.State.{ProcessingState, received, transition}
use phone_law.Contracts.Events.{Provenance, ProcessingFailure}
use phone_law.Calls.Tables.{Tables, CallRow, AttemptRow}
use phone_law.Calls.Repository.{
  start_attempt, advance, fail, attempts_of, highest_number, attempt_row, insert_attempt, open_call,
  AttemptRecord, set_call_state, advanced, failed, write_state,
}
use phone_law.Calls.Timeline.{latest_state, KeepsKey}
use phone_law.Calls.Consistency.{BelongsTo, advanced-KeepsKey, failed-KeepsKey}
use phone_law.Calls.Restart.{open_call-ok, insert_attempt-ok}
use phone_law.Calls.Steps.{moved, stopped, started}
use phone_law.Calls.Sequences.{Reachable, Reachable-IsConsistent, after}
use phone_law.Pipeline.Attempts.{committed, committed_with}

-- What holds after a step, when it returned and when it raised.
abbrev pub Post {ℓ} :
    {A : Type ℓ} → (A → Tables → Type 0) → (Tables → Type 0) → Result A × Tables → Type 0
Post Returned Raised (ok a, t) = Returned a t
Post Returned Raised (err e, t) = Raised t

pub andthen-Post {ℓ κ} :
    {A : Type ℓ} {B : Type κ} (Between : A → Tables → Type 0) (Returned : B → Tables → Type 0)
    (Raised : Tables → Type 0) (r : Result A × Tables) (f : A → Tables → Result B × Tables)
    → Post Between Raised r
    → ((a : A) (t : Tables) → Between a t → Post Returned Raised (f a t))
    → Post Returned Raised (r andthen f)
andthen-Post Between Returned Raised (ok a, t) f h next = next a t h
andthen-Post Between Returned Raised (err e, t) f h next = h

pub Post-map {ℓ} :
    {A : Type ℓ} (R R' : A → Tables → Type 0) (E E' : Tables → Type 0) (r : Result A × Tables)
    → ((a : A) (t : Tables) → R a t → R' a t)
    → ((t : Tables) → E t → E' t)
    → Post R E r
    → Post R' E' r
Post-map R R' E E' (ok a, t) f g h = f a t h
Post-map R R' E E' (err e, t) f g h = g t h

-- A computation that does not write.
pub unwritten-Post {ℓ} :
    {A : Type ℓ} (R : A → Tables → Type 0) (E : Tables → Type 0) (r : Result A) (t : Tables)
    → ((a : A) → r ≡ ok a → R a t)
    → E t
    → Post R E (r, t)
unwritten-Post R E (ok a) t f g = f a refl
unwritten-Post R E (err e) t f g = g

-- A method of the repository: an exception leaves the tables as they were.
pub committed-Post :
    (R : Tables → Type 0) (E : Tables → Type 0) (r : Result Tables) (t : Tables)
    → ((t' : Tables) → r ≡ ok t' → R t')
    → E t
    → Post (λ _ t. R t) E (committed r t)
committed-Post R E (ok t') t f g = f t' refl
committed-Post R E (err e) t f g = g

pub committed_with-Post {ℓ} :
    {A : Type ℓ} (R : A → Tables → Type 0) (E : Tables → Type 0) (r : Result (A × Tables))
    (t : Tables)
    → ((a : A) (t' : Tables) → r ≡ ok (a, t') → R a t')
    → E t
    → Post R E (committed_with r t)
committed_with-Post R E (ok (a, t')) t f g = f a t' refl
committed_with-Post R E (err e) t f g = g

-- The attempt is the named one of the call, and it and the call are in the state.
pub record IsAt (call_id attempt_id : String) (state : ProcessingState) (t : Tables) : Type 0 where
  pub reachable : Reachable t
  pub found :
      (a : AttemptRow) × (find (λ b. b.id == attempt_id) t.attempts ≡ some a)
      × (a.call_id ≡ call_id)
      × (a.state ≡ state)
  pub current : All (λ c. (c.id == call_id) ≡ true → c.state ≡ state) t.calls

pub IsAt-BelongsTo :
    (call_id attempt_id : String) (state : ProcessingState) (t : Tables)
    → IsAt call_id attempt_id state t
    → BelongsTo attempt_id call_id t
IsAt-BelongsTo call_id attempt_id state t h a e = let (b, found, own, _) = h.found in cc

set_call_state-current :
    (call_id : String) (state : ProcessingState) (calls : List CallRow)
    → All (λ c. (c.id == call_id) ≡ true → c.state ≡ state) (set_call_state call_id state calls)
set_call_state-current call_id state [] = tt
set_call_state-current call_id state (c ∷ calls) = (
  (elim (Bool-cases (c.id == call_id)) [
    | inl e ↦ rw e (λ h. refl)
    | inr e ↦ rw e (λ h. absurd (ground arith))
  ]),
  set_call_state-current call_id state calls,
)

-- The first row with the identifier is rewritten where it stands.
find-rewritten :
    (attempt_id : String) (f : AttemptRow → AttemptRow) (attempts : List AttemptRow)
    {a : AttemptRow}
    → KeepsKey f
    → find (λ b. b.id == attempt_id) attempts ≡ some a
    → find (λ b. b.id == attempt_id) (update_where (λ b. b.id == attempt_id) f attempts)
      ≡ some (f a)
find-rewritten attempt_id f [] keeps h = absurd (ground arith)
find-rewritten attempt_id f (b ∷ rest) {a} keeps h = elim (Bool-cases (b.id == attempt_id)) [
  | inl e ↦
      let same : some b ≡ some a = rw e at h in
      let still : ((f b).id == attempt_id) ≡ true = ap (λ k. k == attempt_id) (keeps.id b) ∙ e in
      rw (e, still) (ap (λ o. elim o [ none ↦ none | some x ↦ some (f x) ]) same)
  | inr e ↦ rw (e, e) (find-rewritten attempt_id f rest keeps (rw e at h))
]

written-IsAt :
    (call_id attempt_id : String) (state state' : ProcessingState) (f : AttemptRow → AttemptRow)
    (t : Tables)
    → KeepsKey f
    → ((a : AttemptRow) → (f a).state ≡ state')
    → IsAt call_id attempt_id state t
    → Reachable (write_state call_id attempt_id state' f t)
    → IsAt call_id attempt_id state' (write_state call_id attempt_id state' f t)
written-IsAt call_id attempt_id state state' f t keeps sets h r =
    let (a, found, own, _) = h.found in
    record {
      reachable = r;
      found =
          (f a, find-rewritten attempt_id f t.attempts keeps found, keeps.call_id a ∙ own, sets a);
      current = set_call_state-current call_id state' t.calls;
    }

pub advance-IsAt :
    (call_id attempt_id : String) (state target : ProcessingState) (now : ℕ) (t t' : Tables)
    → IsAt call_id attempt_id state t
    → advance call_id attempt_id target now t ≡ ok t'
    → IsAt call_id attempt_id target t'
unfolding advance
advance-IsAt call_id attempt_id state target now t t' h e =
    let (a, _, rest) =
      >>=-ok (or_raise (find (λ b. b.id == attempt_id) t.attempts) no_result) _ e in
    let (_, _, last) = >>=-ok (transition a.state target) _ rest in
    let there =
      after t t' h.reachable
        (moved call_id attempt_id target now (IsAt-BelongsTo call_id attempt_id state t h) e) in
    subst (λ x. Reachable x → IsAt call_id attempt_id target x) (ok_inj last)
      (written-IsAt call_id attempt_id state target (advanced target now) t
        (advanced-KeepsKey target now) (λ b. refl) h)
      there

pub fail-IsAt :
    (call_id attempt_id : String) (state : ProcessingState) (failure : ProcessingFailure) (now : ℕ)
    (t t' : Tables)
    → IsAt call_id attempt_id state t
    → fail call_id attempt_id failure now t ≡ ok t'
    → IsAt call_id attempt_id failure.terminal_state t'
unfolding fail
fail-IsAt call_id attempt_id state failure now t t' h e =
    let (a, _, rest) =
      >>=-ok (or_raise (find (λ b. b.id == attempt_id) t.attempts) no_result) _ e in
    let (_, _, last) = >>=-ok (transition a.state failure.terminal_state) _ rest in
    let there =
      after t t' h.reachable
        (stopped call_id attempt_id failure now (IsAt-BelongsTo call_id attempt_id state t h) e) in
    subst (λ x. Reachable x → IsAt call_id attempt_id failure.terminal_state x) (ok_inj last)
      (written-IsAt call_id attempt_id state failure.terminal_state (failed failure now) t
        (failed-KeepsKey failure now) (λ b. refl) h)
      there

-- The row that starts an attempt, above the attempts that there were, and its number.
pub start_attempt-ok :
    (call_id : String) (provenance : Provenance) (now : ℕ) (t t' : Tables) (a : AttemptRecord)
    → start_attempt call_id provenance now t ≡ ok (a, t')
    → (t'.attempts ≡ attempt_row call_id a.attempt_number provenance now ∷ t.attempts)
      × (a.attempt_number ≡ highest_number (attempts_of call_id t.attempts) + 1)
unfolding start_attempt
start_attempt-ok call_id provenance now t t' a h =
    let (c, _, rest) = >>=-ok (or_raise (find (λ d. d.id == call_id) t.calls) no_result) _ h in
    let (o, opened, rest') = >>=-ok (open_call _ call_id c.state t) _ rest in
    let (r, inserted, last) = >>=-ok (insert_attempt _ o) _ rest' in
    let (_, _, e) = insert_attempt-ok _ o r inserted in
    let same : r ≡ t' = ap (λ p. p.1) (ok_inj last) in
    let kept : o.attempts ≡ t.attempts = elim (open_call-ok _ call_id c.state t o opened) [
      | inl (_, _, k) ↦ ap (λ x. x.attempts) k
      | inr (_, _, k) ↦ ap (λ x. x.attempts) k
    ] in
    let number = ap (λ p. p.0.attempt_number) (ok_inj last) in
    (
      (subst (λ x. x.attempts ≡ attempt_row call_id a.attempt_number provenance now ∷ t.attempts)
          same
          (ap (λ x. x.attempts) e
            ∙ ap
                (λ xs.
                  attempt_row call_id (highest_number (attempts_of call_id t.attempts) + 1)
                    provenance now
                  ∷ xs)
                kept
            ∙ ap (λ n. attempt_row call_id n provenance now ∷ t.attempts) number)),
      sym number,
    )

started_current :
    (call_id : String) (row : AttemptRow) (rest : List AttemptRow) (calls : List CallRow)
    → row.call_id ≡ call_id
    → All (λ c. c.state ≡ latest_state (attempts_of c.id (row ∷ rest))) calls
    → All (λ c. (c.id == call_id) ≡ true → c.state ≡ row.state) calls
started_current call_id row rest calls own h =
    All-map (λ c. c.state ≡ latest_state (attempts_of c.id (row ∷ rest)))
      (λ c. (c.id == call_id) ≡ true → c.state ≡ row.state)
      (λ c state e. state ∙ rw (own, (eq_iff c.id call_id).0 e, eq_refl call_id) refl) calls h

pub start_attempt-IsAt :
    (call_id : String) (provenance : Provenance) (now : ℕ) (t t' : Tables) (a : AttemptRecord)
    → Reachable t
    → start_attempt call_id provenance now t ≡ ok (a, t')
    → IsAt call_id provenance.processing_attempt_id received t'
unfolding attempt_row
start_attempt-IsAt call_id provenance now t t' a r h =
    let there = after t t' r (started call_id provenance now a h) in
    let (top, _) = start_attempt-ok call_id provenance now t t' a h in
    let row = attempt_row call_id a.attempt_number provenance now in
    record {
      reachable = there;
      found = (
        row,
        ap (λ xs. find (λ b. b.id == provenance.processing_attempt_id) xs) top
            ∙ rw (eq_refl provenance.processing_attempt_id) refl,
        refl,
        refl,
      );
      current = started_current call_id row t.attempts t'.calls refl (
          subst (λ xs. All (λ c. c.state ≡ latest_state (attempts_of c.id xs)) t'.calls) top
            (Reachable-IsConsistent t' there).0.current);
    }
