-- ===== src/Pipeline/Numbers.antt =====
-- The numbers of attempts, and of the failures that a fixture scripts.
use phone_law.Prelude.{
  ℕ, ◌+◌, ◌≤◌, max, String, ◌≡◌, refl, subst, ◌∙◌, ap, inl, inr, Option, none, some, List, [], ◌∷◌,
  ◌==◌, eq_refl, eqb, arith, find, update_where, Bool-cases,
}
use phone_law.Prelude.Outcome.{Checked, ok, err, ok_inj, >>=-ok, or_raise, no_result}
use phone_law.Calls.State.{ProcessingState, transition}
use phone_law.Contracts.Events.{Provenance, ProcessingFailure}
use phone_law.Contracts.Analysis.{Transcript}
use phone_law.Calls.Tables.{Tables, AttemptRow}
use phone_law.Calls.Repository.{
  start_attempt, advance, fail, attempts_of, highest_number, attempt_row, AttemptRecord, advanced,
  failed,
}
use phone_law.Calls.Timeline.{KeepsKey}
use phone_law.Calls.Consistency.{advanced-KeepsKey, failed-KeepsKey}
use phone_law.Pipeline.Fixtures.{scripted_failure, checked_transcript, adapter_error}
use phone_law.Pipeline.Scripts.{Fixture, ScriptedFailure}
use phone_law.Pipeline.Progress.{start_attempt-ok}

-- The last attempt for which a failure is scripted.
abbrev pub last_failure : List ScriptedFailure → ℕ
last_failure [] = 0
last_failure (f ∷ rest) = max f.attempt_number (last_failure rest)

pub scripted_failure-last :
    (k : ℕ) (failures : List ScriptedFailure) {f : ScriptedFailure}
    → scripted_failure k failures ≡ some f
    → k ≤ last_failure failures
scripted_failure-last k [] h = absurd (ground arith)
scripted_failure-last k (g ∷ rest) {f} h = elim (Bool-cases (eqb g.attempt_number k)) [
  | inl e ↦ ground arith
  | inr e ↦ let later = scripted_failure-last k rest {f = f} (rw e at h) in omega (arith, later)
]

-- A transcript that is built is returned or refused.
pub checked_transcript-returned :
    (P : Type 0) (t : Transcript) (r : Checked) (failure : ProcessingFailure)
    → checked_transcript t r ≡ adapter_error failure
    → P
checked_transcript-returned P t (ok u) failure h = absurd (ground arith)
checked_transcript-returned P t (err e) failure h = absurd (ground arith)

-- Of a fixture that the manifest lacks none is.
abbrev pub last_failure_of : Option Fixture → ℕ
last_failure_of none = 0
last_failure_of (some f) = last_failure f.transcriber_failures

-- The attempts that a call has had.
abbrev pub number_of : String → Tables → ℕ
number_of call_id t = highest_number (attempts_of call_id t.attempts)

highest_number-rewritten :
    (call_id attempt_id : String) (f : AttemptRow → AttemptRow) (attempts : List AttemptRow)
    → KeepsKey f
    → highest_number (attempts_of call_id (update_where (λ b. b.id == attempt_id) f attempts))
      ≡ highest_number (attempts_of call_id attempts)
highest_number-rewritten call_id attempt_id f [] keeps = refl
highest_number-rewritten call_id attempt_id f (b ∷ rest) keeps = ground (
  arith,
  highest_number-rewritten call_id attempt_id f rest keeps,
  keeps.call_id b,
  keeps.attempt_number b,
)

pub number_of-advance :
    (call_id attempt_id : String) (target : ProcessingState) (now : ℕ) (t t' : Tables)
    → advance call_id attempt_id target now t ≡ ok t'
    → number_of call_id t' ≡ number_of call_id t
unfolding advance
number_of-advance call_id attempt_id target now t t' e =
    let (a, _, rest) =
      >>=-ok (or_raise (find (λ b. b.id == attempt_id) t.attempts) no_result) _ e in
    let (_, _, last) = >>=-ok (transition a.state target) _ rest in
    subst (λ x. number_of call_id x ≡ number_of call_id t) (ok_inj last)
      (highest_number-rewritten call_id attempt_id (advanced target now) t.attempts
        (advanced-KeepsKey target now))

pub number_of-fail :
    (call_id attempt_id : String) (failure : ProcessingFailure) (now : ℕ) (t t' : Tables)
    → fail call_id attempt_id failure now t ≡ ok t'
    → number_of call_id t' ≡ number_of call_id t
unfolding fail
number_of-fail call_id attempt_id failure now t t' e =
    let (a, _, rest) =
      >>=-ok (or_raise (find (λ b. b.id == attempt_id) t.attempts) no_result) _ e in
    let (_, _, last) = >>=-ok (transition a.state failure.terminal_state) _ rest in
    subst (λ x. number_of call_id x ≡ number_of call_id t) (ok_inj last)
      (highest_number-rewritten call_id attempt_id (failed failure now) t.attempts
        (failed-KeepsKey failure now))

pub number_of-start_attempt :
    (call_id : String) (provenance : Provenance) (now : ℕ) (t t' : Tables) (a : AttemptRecord)
    → start_attempt call_id provenance now t ≡ ok (a, t')
    → (a.attempt_number ≡ number_of call_id t + 1)
      × (number_of call_id t' ≡ number_of call_id t + 1)
unfolding attempt_row
number_of-start_attempt call_id provenance now t t' a h =
    let (top, number) = start_attempt-ok call_id provenance now t t' a h in
    let own : attempts_of call_id t'.attempts
        ≡ attempt_row call_id a.attempt_number provenance now ∷ attempts_of call_id t.attempts =
      ap (λ xs. attempts_of call_id xs) top ∙ rw (eq_refl call_id) refl in
    (number, ap highest_number own ∙ omega (arith, number))
