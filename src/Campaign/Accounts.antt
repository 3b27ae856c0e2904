-- ===== src/Campaign/Accounts.antt =====
-- How the state of a campaign is read off its files, and what is read after a line is appended.
use phone_law.Prelude.{
  ◌≤◌, String, ◌≡◌, refl, ap, ◌∙◌, subst, inl, inr, true, ◌&&◌, some, List, [], ◌∷◌, ◌++◌, ◌==◌,
  eqb, eq_iff, eq_refl, arith, is_some, Bool-cases, Option-cases,
}
use phone_law.Prelude.Outcome.{
  Result, ok, ok_inj, is_ok, ◌>>=◌, >>=-ok, require, require-ok, admission_error,
}
use phone_law.Campaign.Debit.{Debit, caps, is_within, no_debit}
use phone_law.Campaign.Ledger.{
  LedgerEvent, Line, Raw, Marker, Files, Digests, Pending, campaign_name, within_limit, settled,
  replay, replay_line, replay_event,
}
use phone_law.Campaign.Journal.{
  State, ends_line, state_of, state_of_head, state_of_files, state_of_marker, state, line_of,
  extended, head_replaced, append,
}
use phone_law.Campaign.Replay.{reservations, replay-append, replay_all-caps}

-- The parts that a state is read off.
pub record IsRead (digests : Digests) (files : Files) (s : State) : Type 0 where
  pub marker : Marker
  pub marked : files.marker ≡ some marker
  pub current : (eqb marker.schema 1 && marker.campaign == campaign_name) ≡ true
  pub ledger : files.ledger ≡ some s.raw
  pub marker_fits : within_limit (digests.marker_size marker) ≡ true
  pub ledger_fits : within_limit (digests.raw_size s.raw) ≡ true
  pub head_fits : within_limit (digests.head_size (digests.of_raw s.raw)) ≡ true
  pub head : files.head ≡ some (digests.of_raw s.raw)
  pub whole : ends_line s.raw ≡ true
  pub replayed : replay digests marker [] s.raw.lines no_debit settled ≡ ok (s.sum, s.pending)

module _ (digests : Digests) where
  state_of-IsRead :
      (files : Files) (marker : Marker) (raw : Raw) (head : String) (s : State)
      → files.marker ≡ some marker
      → (eqb marker.schema 1 && marker.campaign == campaign_name) ≡ true
      → files.ledger ≡ some raw
      → files.head ≡ some head
      → within_limit (digests.marker_size marker) ≡ true
      → within_limit (digests.raw_size raw) ≡ true
      → within_limit (digests.head_size head) ≡ true
      → state_of digests marker raw head ≡ ok s
      → IsRead digests files s
  unfolding state_of
  state_of-IsRead files marker raw head s marked current ledger headed marker_fits ledger_fits
        head_fits h =
      let (good, h₁) =
        require-ok (head == digests.of_raw raw && ends_line raw)
          (admission_error "interrupted_or_corrupt_state")
          (replay digests marker [] raw.lines no_debit settled
            >>= (λ r. ok (record { sum = r.0; pending = r.1; raw = raw })))
          h in
      let (r, replayed, h₂) =
        >>=-ok (replay digests marker [] raw.lines no_debit settled)
          (λ r. ok (record { sum = r.0; pending = r.1; raw = raw })) h₁ in
      let same_head : (head == digests.of_raw raw) ≡ true = ground arith in
      let whole : ends_line raw ≡ true = ground arith in
      let same = (eq_iff head (digests.of_raw raw)).0 same_head in
      subst (IsRead digests files) (ok_inj h₂) (record {
        marker = marker;
        marked = marked;
        current = current;
        ledger = ledger;
        head = headed ∙ ap (λ x. some x) same;
        marker_fits = marker_fits;
        ledger_fits = ledger_fits;
        head_fits = subst (λ x. within_limit (digests.head_size x) ≡ true) same head_fits;
        whole = whole;
        replayed = replayed;
      })

  pub state-IsRead :
      (files : Files) (s : State) → state digests files ≡ ok s → IsRead digests files s
  unfolding state
  state-IsRead files s h = elim (Option-cases files.marker) [
    | inl e ↦ absurd (ground arith)
    | inr (marker, marked) ↦
        let h₀ : state_of_marker digests (some marker) files ≡ ok s = rw marked at h in
        let (marker_fits, h₁) =
          require-ok (within_limit (digests.marker_size marker)) (admission_error "file_limit")
            (require (eqb marker.schema 1 && marker.campaign == campaign_name)
              (admission_error "incompatible_state")
              (state_of_files digests marker files.ledger files.head))
            h₀ in
        let (current, h₂) =
          require-ok (eqb marker.schema 1 && marker.campaign == campaign_name)
            (admission_error "incompatible_state")
            (state_of_files digests marker files.ledger files.head) h₁ in
        elim (Option-cases files.ledger) [
          | inl e ↦ absurd (ground arith)
          | inr (raw, ledger) ↦
              let (ledger_fits, h₃) =
                require-ok (within_limit (digests.raw_size raw)) (admission_error "file_limit")
                  (state_of_head digests marker raw files.head) (rw ledger at h₂) in
              elim (Option-cases files.head) [
                | inl e ↦ absurd (ground arith)
                | inr (head, headed) ↦
                    let (head_fits, h₄) =
                      require-ok (within_limit (digests.head_size head))
                        (admission_error "file_limit") (state_of digests marker raw head)
                        (rw headed at h₃) in
                    state_of-IsRead files marker raw head s marked current ledger headed marker_fits
                      ledger_fits head_fits h₄
              ]
        ]
  ]

  pub IsRead-state :
      (files : Files) (s : State) → IsRead digests files s → state digests files ≡ ok s
  unfolding state state_of
  IsRead-state files s r =
      rw
        (
          r.marked,
          r.marker_fits,
          r.current,
          r.ledger,
          r.ledger_fits,
          r.head,
          r.head_fits,
          eq_refl (digests.of_raw s.raw),
          r.whole,
          r.replayed,
        )
        refl

  lines-caps :
      (marker : Marker) (lines : List Line) (tail : String) {sum : Debit} {pending : Pending}
      → ends_line (record { lines = lines; tail = tail }) ≡ true
      → replay digests marker [] lines no_debit settled ≡ ok (sum, pending)
      → (is_within sum caps ≡ true) × (reservations lines ≤ 6)
  lines-caps marker [] tail whole h = absurd (ground arith)
  lines-caps marker (line ∷ lines) tail {sum} {pending} whole h =
      let (within, counted) =
        replay_all-caps digests marker line lines {sum = sum} {pending = pending} h in
      let bounded : sum.requests ≤ 6 = ground arith in (within, omega (arith, counted, bounded))

  -- A state that can be read has debits within the caps, and the ledger that it was read off holds at
  -- most six reservations.
  pub state-caps :
      (files : Files) (s : State)
      → state digests files ≡ ok s
      → (is_within s.sum caps ≡ true) × (reservations s.raw.lines ≤ 6)
  state-caps files s h =
      let r = state-IsRead files s h in
      lines-caps r.marker s.raw.lines s.raw.tail {sum = s.sum} {pending = s.pending} r.whole
        r.replayed

  replay_line-later :
      (marker : Marker) (event : LedgerEvent) (lines : List Line) (tail : String) (sum : Debit)
      (pending : Pending)
      → ends_line (record { lines = lines; tail = tail }) ≡ true
      → replay_line digests marker lines
          (line_of digests event (record { lines = lines; tail = tail }))
          sum
          pending
        ≡ replay_event event sum pending
  unfolding replay_line
  replay_line-later marker event [] tail sum pending whole = absurd (ground arith)
  replay_line-later marker event (x ∷ xs) tail sum pending whole =
      rw ((eq_iff tail "").0 whole, eq_refl (digests.of_raw (record { lines = x ∷ xs; tail = "" })))
        refl

  extended-ends_line :
      (line : Line) (lines : List Line) (tail : String)
      → ends_line (record { lines = lines; tail = tail }) ≡ true
      → ends_line (record { lines = lines ++ (line ∷ []); tail = tail }) ≡ true
  extended-ends_line line [] tail whole = absurd (ground arith)
  extended-ends_line line (x ∷ xs) tail whole = whole

  -- The state after a line that follows the ledger is appended whole.
  pub appended-IsRead :
      (files : Files) (s : State) (event : LedgerEvent) {sum : Debit} {pending : Pending}
      → IsRead digests files s
      → replay_event event s.sum s.pending ≡ ok (sum, pending)
      → (within_limit (digests.raw_size (extended digests event s.raw)) ≡ true)
        × (within_limit (digests.head_size (digests.of_raw (extended digests event s.raw))) ≡ true)
      → IsRead digests
          (head_replaced digests event s.raw files)
          (record { sum = sum; pending = pending; raw = extended digests event s.raw })
  appended-IsRead files s event {sum} {pending} r e fits =
      let line = line_of digests event s.raw in
      record {
        marker = r.marker;
        marked = r.marked;
        current = r.current;
        ledger = refl;
        marker_fits = r.marker_fits;
        ledger_fits = fits.0;
        head_fits = fits.1;
        head = refl;
        whole = extended-ends_line line s.raw.lines s.raw.tail r.whole;
        replayed =
            replay-append digests r.marker [] s.raw.lines line no_debit settled
            ∙ (ap (λ x. x >>= (λ q. replay_line digests r.marker s.raw.lines line q.0 q.1))
                  r.replayed
                ∙ (replay_line-later r.marker event s.raw.lines s.raw.tail s.sum s.pending r.whole
                    ∙ e));
      }

  -- An append onto the ledger that was read ends with the head replaced.
  pub append-ok :
      (files files' : Files) (s : State) (event : LedgerEvent)
      → IsRead digests files s
      → append digests event s.raw files ≡ (ok tt, files')
      → head_replaced digests event s.raw files ≡ files'
  unfolding append
  append-ok files files' s event r h = elim (Bool-cases (is_some files.pending_head)) [
    | inl e ↦ let h' = ap (λ p. is_ok p.0) h in let there = r.ledger in absurd (ground arith)
    | inr e ↦
        let done : Result (Unit {0}) × Files = (ok tt, head_replaced digests event s.raw files) in
        let h' : done ≡ (ok tt, files') = rw (r.ledger, e) at h in ap (λ p. p.1) h'
  ]
