-- ===== src/Campaign/Admission.antt =====
-- Which events `reserve` and `transition` let into the ledger, and that a replay takes them.
use phone_law.Prelude.{String, ◌≡◌, refl, sym, subst, true, arith}
use phone_law.Prelude.Outcome.{ok, ◌>>=◌, >>=-ok, require, require-ok, admission_error}
use phone_law.Campaign.Debit.{Debit, checked, plus, total, caps, is_within, validate_input_debit}
use phone_law.Campaign.Length.{digest_length}
use phone_law.Campaign.Ledger.{
  LedgerEvent, Pending, initialized, reserved, dispatched, completed, settled, is_reserved,
  is_dispatched, is_settled, replay_event,
}
use phone_law.Campaign.Journal.{State, admitted, follows}
use phone_law.Campaign.Replay.{checked-ok}

-- The transition that is open after an event.
abbrev pub opened : LedgerEvent → Pending
opened dispatched = is_dispatched
opened (reserved debit identity) = is_reserved
opened _ = settled

-- What a reservation that is admitted satisfies.
pub admitted-ok :
    (s : State) (debit : Debit) (identity : String)
    → admitted s debit identity ≡ ok tt
    → (is_settled s.pending ≡ true)
      × (validate_input_debit debit ≡ ok tt)
      × (is_within (total s.sum debit) caps ≡ true)
      × (digest_length identity ≡ true)
unfolding admitted plus
admitted-ok s debit identity h =
    let (open_, h₁) =
      require-ok (is_settled s.pending) (admission_error "unresolved_debit")
        (validate_input_debit debit >>= (λ _.
          checked (total s.sum debit)
          >>= (λ _. require (digest_length identity) (admission_error "identity_invalid") (ok tt))))
        h in
    let (u, valid, h₂) =
      >>=-ok (validate_input_debit debit)
        (λ _.
          checked (total s.sum debit)
          >>= (λ _. require (digest_length identity) (admission_error "identity_invalid") (ok tt)))
        h₁ in
    let (after, added, h₃) =
      >>=-ok (checked (total s.sum debit))
        (λ _. require (digest_length identity) (admission_error "identity_invalid") (ok tt)) h₂ in
    let (sum_is, within) = checked-ok (total s.sum debit) {d' = after} added in
    let (long, h₄) =
      require-ok (digest_length identity) (admission_error "identity_invalid") (ok tt) h₃ in
    (open_, valid, subst (λ x. is_within x caps ≡ true) (sym sum_is) within, long)

checked_of-is_within : (d : Debit) → is_within d caps ≡ true → checked d ≡ ok d
unfolding checked
checked_of-is_within d h = rw h refl

part-is_within :
    (sum debit : Debit) → is_within (total sum debit) caps ≡ true → is_within debit caps ≡ true
part-is_within sum debit h = ground arith

pub replay_reserved :
    (sum : Debit) (pending : Pending) (debit : Debit) (identity : String)
    → is_settled pending ≡ true
    → validate_input_debit debit ≡ ok tt
    → is_within (total sum debit) caps ≡ true
    → digest_length identity ≡ true
    → replay_event (reserved debit identity) sum pending ≡ ok (total sum debit, is_reserved)
unfolding replay_event plus
replay_reserved sum settled debit identity open_ valid within long =
    rw
      (
        long,
        checked_of-is_within debit (part-is_within sum debit within),
        valid,
        checked_of-is_within (total sum debit) within,
      )
      refl
replay_reserved sum is_reserved debit identity open_ valid within long = absurd (ground arith)
replay_reserved sum is_dispatched debit identity open_ valid within long = absurd (ground arith)

pub replay_followed :
    (event : LedgerEvent) (sum : Debit) (pending : Pending)
    → follows event pending ≡ true
    → replay_event event sum pending ≡ ok (sum, opened event)
unfolding replay_event
replay_followed dispatched sum is_reserved h = refl
replay_followed completed sum is_dispatched h = refl
replay_followed (reserved d i) sum pending h = absurd (ground arith)
replay_followed (initialized r d) sum pending h = absurd (ground arith)
replay_followed dispatched sum settled h = absurd (ground arith)
replay_followed dispatched sum is_dispatched h = absurd (ground arith)
replay_followed completed sum settled h = absurd (ground arith)
replay_followed completed sum is_reserved h = absurd (ground arith)
