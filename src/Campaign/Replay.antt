-- ===== src/Campaign/Replay.antt =====
-- What the replay of a ledger returns: the debits of its lines, within the caps.
use phone_law.Prelude.{
  ℕ, ◌+◌, ◌≤◌, String, ◌≡◌, refl, sym, ap, ◌∙◌, subst, inl, inr, Bool, true, not, List, [], ◌∷◌,
  ◌++◌, arith, append_assoc, append-nil, Bool-cases,
}
use phone_law.Prelude.Outcome.{
  ok, ok_inj, ◌>>=◌, require-ok, >>=-pure, >>=-ok, require, Result-cases, admission_error,
}
use phone_law.Campaign.Debit.{
  Debit, checked, plus, total, caps, is_within, no_debit, validate_input_debit,
}
use phone_law.Campaign.Length.{digest_length}
use phone_law.Campaign.Ledger.{
  Reconciliation, LedgerEvent, Line, Marker, Digests, Pending, initialized, reserved, dispatched,
  completed, settled, is_reserved, is_dispatched, reconcile, is_reconciled, no_evidence,
  stated_debit, check_evidence, replay_genesis, replay_event, replay_line, replay,
}

abbrev pub reserves : LedgerEvent → ℕ
reserves (reserved debit identity) = 1
reserves _ = 0

-- The reservations of a ledger.
abbrev pub reservations : List Line → ℕ
reservations [] = 0
reservations (line ∷ rest) = reserves line.event + reservations rest

pub checked-ok :
    (d : Debit) {d' : Debit} → checked d ≡ ok d' → (d ≡ d') × (is_within d' caps ≡ true)
unfolding checked
checked-ok d {d'} h = elim (Bool-cases (is_within d caps)) [
  | inl e ↦
      let same : d ≡ d' = ok_inj (rw e at h) in (same, subst (λ x. is_within x caps ≡ true) same e)
  | inr e ↦ absurd (ground arith)
]

pub validate-ok : (d : Debit) → validate_input_debit d ≡ ok tt → d.requests ≡ 1
unfolding validate_input_debit
validate-ok d h = ground arith

-- A reservation that is replayed adds its debit of one request.
pub replay_reserved-ok :
    (debit : Debit) (identity : String) (sum : Debit) {sum' : Debit} {pending' : Pending}
    → replay_event (reserved debit identity) sum settled ≡ ok (sum', pending')
    → (total sum debit ≡ sum') × (is_within sum' caps ≡ true) × (debit.requests ≡ 1)
unfolding replay_event plus
replay_reserved-ok debit identity sum {sum'} {pending'} h =
    let (long, h₁) = require-ok (digest_length identity) _ _ h in
    let (d, good, h₂) = >>=-ok (checked debit) _ h₁ in
    let (u, valid, h₃) = >>=-ok (validate_input_debit d) _ h₂ in
    let (after, added, h₄) = >>=-ok (plus sum d) _ h₃ in
    let same : debit ≡ d = (checked-ok debit {d' = d} good).0 in
    let (sum_is, within) = checked-ok (total sum d) {d' = after} added in
    let end : after ≡ sum' = ap (λ p. p.0) (ok_inj h₄) in
    (
      ap (λ x. total sum x) same ∙ (sum_is ∙ end),
      subst (λ x. is_within x caps ≡ true) end within,
      ap (λ x. x.requests) same ∙ validate-ok d valid,
    )

replay_event-caps :
    (event : LedgerEvent) (sum : Debit) (pending : Pending) {sum' : Debit} {pending' : Pending}
    → replay_event event sum pending ≡ ok (sum', pending')
    → is_within sum caps ≡ true
    → (is_within sum' caps ≡ true) × (sum'.requests ≡ sum.requests + reserves event)
unfolding replay_event
replay_event-caps (reserved debit identity) sum settled {sum'} {pending'} h within =
    let (sum_is, good, one) =
      replay_reserved-ok debit identity sum {sum' = sum'} {pending' = pending'} h in
    (good, sym (ap (λ x. x.requests) sum_is) ∙ ap (λ n. sum.requests + n) one)
replay_event-caps dispatched sum is_reserved {sum'} {pending'} h within =
    let same : sum ≡ sum' = ap (λ p. p.0) (ok_inj h) in
    (subst (λ x. is_within x caps ≡ true) same within, omega (arith, ap (λ x. x.requests) same))
replay_event-caps completed sum is_dispatched {sum'} {pending'} h within =
    let same : sum ≡ sum' = ap (λ p. p.0) (ok_inj h) in
    (subst (λ x. is_within x caps ≡ true) same within, omega (arith, ap (λ x. x.requests) same))
replay_event-caps (reserved debit identity) sum is_reserved h within = absurd (ground arith)
replay_event-caps (reserved debit identity) sum is_dispatched h within = absurd (ground arith)
replay_event-caps (initialized r d) sum pending h within = absurd (ground arith)
replay_event-caps dispatched sum settled h within = absurd (ground arith)
replay_event-caps dispatched sum is_dispatched h within = absurd (ground arith)
replay_event-caps completed sum settled h within = absurd (ground arith)
replay_event-caps completed sum is_reserved h within = absurd (ground arith)

module _ (digests : Digests) (marker : Marker) where
  pub replay-append :
      (earlier xs : List Line) (line : Line) (sum : Debit) (pending : Pending)
      → replay digests marker earlier (xs ++ (line ∷ [])) sum pending ≡ (
          replay digests marker earlier xs sum pending
          >>= (λ r. replay_line digests marker (earlier ++ xs) line r.0 r.1))
  unfolding replay
  replay-append earlier [] line sum pending =
      >>=-pure (replay_line digests marker earlier line sum pending)
      ∙ ap (λ xs. replay_line digests marker xs line sum pending) (sym (append-nil earlier))
  replay-append earlier (x ∷ xs) line sum pending =
      elim (Result-cases (replay_line digests marker earlier x sum pending)) [
        | inr (e, raised) ↦ rw raised refl
        | inl (next, e) ↦ rw e (
            subst
              (λ ys.
                replay digests marker (earlier ++ (x ∷ [])) (xs ++ (line ∷ [])) next.0 next.1 ≡ (
                  replay digests marker (earlier ++ (x ∷ [])) xs next.0 next.1
                  >>= (λ r. replay_line digests marker ys line r.0 r.1)))
              (append_assoc earlier (x ∷ []) xs)
              (replay-append (earlier ++ (x ∷ [])) xs line next.0 next.1))
      ]

  replay-caps :
      (first : Line) (earlier lines : List Line) (sum : Debit) (pending : Pending) {sum' : Debit}
      {pending' : Pending}
      → replay digests marker (first ∷ earlier) lines sum pending ≡ ok (sum', pending')
      → is_within sum caps ≡ true
      → (is_within sum' caps ≡ true) × (sum'.requests ≡ sum.requests + reservations lines)
  unfolding replay replay_line
  replay-caps first earlier [] sum pending {sum'} {pending'} h within =
      let same : sum ≡ sum' = ap (λ p. p.0) (ok_inj h) in
      (subst (λ x. is_within x caps ≡ true) same within, omega (arith, ap (λ x. x.requests) same))
  replay-caps first earlier (line ∷ lines) sum pending {sum'} {pending'} h within =
      let ((sum₁, pending₁), one, rest) =
        >>=-ok (replay_line digests marker (first ∷ earlier) line sum pending) _ h in
      let (chained, event) = require-ok _ _ (replay_event line.event sum pending) one in
      let (within₁, counted) =
        replay_event-caps line.event sum pending {sum' = sum₁} {pending' = pending₁} event within in
      let (within', counted') =
        replay-caps first (earlier ++ (line ∷ [])) lines sum₁ pending₁ {sum' = sum'}
          {pending' = pending'} rest within₁ in
      (within', omega (arith, counted, counted'))

  reconcile-caps :
      (r : Reconciliation) {d : Debit} {unknown : Bool}
      → reconcile digests r ≡ ok (d, unknown)
      → is_within d caps ≡ true
  unfolding reconcile stated_debit
  reconcile-caps r {d} {unknown} h =
      let (a, h₁) =
        require-ok (is_reconciled digests r) (admission_error "reconciliation_required")
          (require (not (no_evidence digests r.evidence)) (admission_error "reconciliation_invalid")
            (stated_debit digests r))
          h in
      let (b, h₂) =
        require-ok (not (no_evidence digests r.evidence)) (admission_error "reconciliation_invalid")
          (stated_debit digests r) h₁ in
      let (u, checks, h₃) =
        >>=-ok (check_evidence digests r.evidence)
          (λ _. checked r.debit >>= (λ debit. ok (debit, r.unknown))) h₂ in
      let (debit, good, h₄) = >>=-ok (checked r.debit) (λ debit. ok (debit, r.unknown)) h₃ in
      subst (λ x. is_within x caps ≡ true) (ap (λ p. p.0) (ok_inj h₄))
        (checked-ok r.debit {d' = debit} good).1

  genesis-caps :
      (event : LedgerEvent) {sum : Debit} {pending : Pending}
      → replay_genesis digests marker event ≡ ok (sum, pending)
      → (is_within sum caps ≡ true) × (reserves event ≡ 0)
  unfolding replay_genesis
  genesis-caps (initialized record_ debit) {sum} {pending} h =
      let (known, h₁) = require-ok _ _ _ h in
      let (r, reconciled, h₂) = >>=-ok (reconcile digests record_) _ h₁ in
      let (resolved, h₃) = require-ok _ _ _ h₂ in
      (
        subst (λ x. is_within x caps ≡ true) (ap (λ p. p.0) (ok_inj h₃))
            (reconcile-caps record_ {d = r.0} {unknown = r.1} reconciled),
        refl,
      )
  genesis-caps (reserved debit identity) h = absurd (ground arith)
  genesis-caps dispatched h = absurd (ground arith)
  genesis-caps completed h = absurd (ground arith)

  -- The replay of a whole ledger.
  pub replay_all-caps :
      (line : Line) (lines : List Line) {sum : Debit} {pending : Pending}
      → replay digests marker [] (line ∷ lines) no_debit settled ≡ ok (sum, pending)
      → (is_within sum caps ≡ true) × (reservations (line ∷ lines) ≤ sum.requests)
  unfolding replay replay_line
  replay_all-caps line lines {sum} {pending} h =
      let ((sum₀, pending₀), one, rest) =
        >>=-ok (replay_line digests marker [] line no_debit settled) _ h in
      let (chained, event) = require-ok _ _ (replay_genesis digests marker line.event) one in
      let (within, none_) = genesis-caps line.event {sum = sum₀} {pending = pending₀} event in
      let (within', counted) =
        replay-caps line [] lines sum₀ pending₀ {sum' = sum} {pending' = pending} rest within in
      (within', omega (arith, none_, counted))
