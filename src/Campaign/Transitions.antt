-- ===== src/Campaign/Transitions.antt =====
-- What the operations of a campaign promise: reservations and transitions are read back, and an
-- interrupted one is not read at all.
use phone_law.Prelude.{
  String, ◌≡◌, ◌≢◌, refl, sym, subst, inl, inr, Bool, true, false, ◌&&◌, some, List, [], ◌∷◌, ◌==◌,
  eqb, eq_iff, arith, Bool-cases, none, if◌then◌else◌,
}
use phone_law.Prelude.Outcome.{ok, err, require-ok, Result-cases, admission_error}
use phone_law.Campaign.Debit.{Debit, total, caps, is_within}
use phone_law.Campaign.Ledger.{
  LedgerEvent, Line, Raw, Marker, Files, Digests, Pending, campaign_name, within_limit, reserved,
  is_reserved, is_settled, replay_event,
}
use phone_law.Campaign.Journal.{
  State, ends_line, state_of, state, extended, line_written, head_pending, head_replaced, append,
  Interrupted, torn, unheaded, unreplaced, held_state, admitted, follows, reserve_in, reserve,
  transition_in, transition,
}
use phone_law.Campaign.Admission.{opened, admitted-ok, replay_reserved, replay_followed}
use phone_law.Campaign.Accounts.{IsRead, state-IsRead, IsRead-state, appended-IsRead, append-ok}

-- Whether the ledger of the files is within the limit of what is read.
abbrev pub is_short : Digests → Files → Bool
is_short digests files = elim files.ledger [
  | none ↦ true
  | some raw ↦ within_limit (digests.raw_size raw)
]

-- Whether the ledger with the event, and its head, are.
abbrev pub is_readable : Digests → LedgerEvent → Raw → Bool
is_readable digests event raw =
    within_limit (digests.raw_size (extended digests event raw))
    && within_limit (digests.head_size (digests.of_raw (extended digests event raw)))

module _ (digests : Digests) where
  -- An event that follows the state is read back once it is appended, unless the files are now longer
  -- than what is read.
  append-state :
      (event : LedgerEvent) (files files' : Files) (s : State) {sum : Debit} {pending : Pending}
      → IsRead digests files s
      → replay_event event s.sum s.pending ≡ ok (sum, pending)
      → append digests event s.raw files ≡ (ok tt, files')
      → state digests files' ≡ (
          if is_readable digests event s.raw
          then ok (record { sum = sum; pending = pending; raw = extended digests event s.raw })
          else err (admission_error "file_limit"))
  unfolding state
  append-state event files files' s {sum} {pending} r e h =
      let raw = extended digests event s.raw in
      let read_after : State = record { sum = sum; pending = pending; raw = raw } in
      subst
        (λ x. state digests x ≡ (
          if is_readable digests event s.raw
          then ok read_after
          else err (admission_error "file_limit")))
        (append-ok digests files files' s event r h)
        (elim (Bool-cases (within_limit (digests.raw_size raw))) [
          | inr long ↦ rw (r.marked, r.marker_fits, r.current, long) refl
          | inl short ↦ elim (Bool-cases (within_limit (digests.head_size (digests.of_raw raw)))) [
            | inr long ↦ rw (r.marked, r.marker_fits, r.current, short, long) refl
            | inl fits ↦
                let end =
                  IsRead-state digests (head_replaced digests event s.raw files) read_after
                    (appended-IsRead digests files s event r e (short, fits)) in
                rw (short, fits) end
          ]
        ])

  -- A reservation that returns found no transition open, and the debits with the new one added
  -- are within the caps. Read back, the files give these debits and the reservation as the open
  -- transition, if the ledger and its head are still within the limit of what is read; if not, the
  -- state cannot be read any more: `state` raises `file_limit`.
  pub reserve-state :
      (debit : Debit) (identity : String) (files files' : Files)
      → reserve digests debit identity files ≡ (ok tt, files')
      → (s : State) × (state digests files ≡ ok s)
        × (is_settled s.pending ≡ true)
        × (state digests files' ≡ (
            if is_readable digests (reserved debit identity) s.raw
            then ok (record {
              sum = total s.sum debit;
              pending = is_reserved;
              raw = extended digests (reserved debit identity) s.raw;
            })
            else err (admission_error "file_limit")))
        × (is_within (total s.sum debit) caps ≡ true)
  unfolding reserve
  reserve-state debit identity files files' h = elim (Result-cases (held_state digests files)) [
    | inr (e, raised) ↦ absurd (ground arith)
    | inl (s, held) ↦
        let h₁ : reserve_in digests debit identity files (ok s) ≡ (ok tt, files') = rw held at h in
        elim (Result-cases (admitted s debit identity)) [
          | inr (e, raised) ↦ absurd (ground arith)
          | inl (u, good) ↦
              let (locked, before) =
                require-ok files.held (admission_error "lock_required") (state digests files)
                  held in
              let read = state-IsRead digests files s before in
              let (open_, valid, within, long) = admitted-ok s debit identity good in
              let event = reserved debit identity in
              let appended : append digests event s.raw files ≡ (ok tt, files') =
                rw (good, reserve_in) at h₁ in
              let next = replay_reserved s.sum s.pending debit identity open_ valid within long in
              let end =
                append-state event files files' s {sum = total s.sum debit} {pending = is_reserved}
                  read next appended in
              (s, before, open_, end, within)
        ]
  ]

  -- A transition that returns follows the one that is open. Read back, the files give the same debits
  -- and the new transition (a dispatch after a reservation, and nothing open after a completion), if
  -- the ledger and its head are still within the limit of what is read; if not, the state cannot be
  -- read any more: `state` raises `file_limit`.
  pub transition-state :
      (event : LedgerEvent) (files files' : Files)
      → transition digests event files ≡ (ok tt, files')
      → (s : State) × (state digests files ≡ ok s)
        × (follows event s.pending ≡ true)
        × (state digests files' ≡ (
            if is_readable digests event s.raw
            then ok
                (record { sum = s.sum; pending = opened event; raw = extended digests event s.raw })
            else err (admission_error "file_limit")))
  unfolding transition
  transition-state event files files' h = elim (Result-cases (held_state digests files)) [
    | inr (e, raised) ↦ absurd (ground arith)
    | inl (s, held) ↦
        let h₁ : transition_in digests event files (ok s) ≡ (ok tt, files') = rw held at h in
        elim (Bool-cases (follows event s.pending)) [
          | inr e ↦ absurd (ground arith)
          | inl good ↦
              let (locked, before) =
                require-ok files.held (admission_error "lock_required") (state digests files)
                  held in
              let read = state-IsRead digests files s before in
              let appended : append digests event s.raw files ≡ (ok tt, files') = rw good at h₁ in
              let next = replay_followed event s.sum s.pending good in
              let end =
                append-state event files files' s {sum = s.sum} {pending = opened event} read next
                  appended in
              (s, before, good, end)
        ]
  ]

  state-unwhole :
      (files : Files) (marker : Marker) (raw : Raw) (head : String)
      → files.marker ≡ some marker
      → (eqb marker.schema 1 && marker.campaign == campaign_name) ≡ true
      → files.ledger ≡ some raw
      → files.head ≡ some head
      → within_limit (digests.marker_size marker) ≡ true
      → within_limit (digests.head_size head) ≡ true
      → (head == digests.of_raw raw && ends_line raw) ≡ false
      → state digests files
        ≡ err (
            admission_error (
              if within_limit (digests.raw_size raw)
              then "interrupted_or_corrupt_state"
              else "file_limit"))
  unfolding state state_of
  state-unwhole files marker raw head marked current ledger headed marker_fits head_fits broken =
      elim (Bool-cases (within_limit (digests.raw_size raw))) [
        | inl short ↦
            rw (marked, marker_fits, current, ledger, short, headed, head_fits, broken) refl
        | inr long ↦ rw (marked, marker_fits, current, ledger, long) refl
      ]

  torn-ends_line :
      (lines : List Line) (part : String) (b : Bool)
      → (part == "") ≡ false
      → (b && ends_line (record { lines = lines; tail = part })) ≡ false
  torn-ends_line [] part b h = ground arith
  torn-ends_line (x ∷ xs) part b h = ground arith

  changed-head : (a b : String) (w : Bool) → b ≢ a → (a == b && w) ≡ false
  changed-head a b w apart = elim (Bool-cases (a == b)) [
    | inl e ↦ absurd (apart (sym ((eq_iff a b).0 e)))
    | inr e ↦ rw e refl
  ]

  moved_head :
      (event : LedgerEvent) (raw : Raw)
      → digests.of_raw (extended digests event raw) ≢ digests.of_raw raw
      → (digests.of_raw raw == digests.of_raw (extended digests event raw)
          && ends_line (extended digests event raw))
        ≡ false
  moved_head event raw apart =
      changed-head (digests.of_raw raw) (digests.of_raw (extended digests event raw))
        (ends_line (extended digests event raw)) apart

  -- A transition that was interrupted before the head was replaced leaves files that are not read,
  -- unless the digest of the ledger with the line is that of the ledger without it: a part of a line
  -- is found by its missing line feed, and a whole line by the head, and `state` says that it is
  -- interrupted; a ledger that is now longer than what is read is refused for that instead.
  pub state-Interrupted :
      (event : LedgerEvent) (files files' : Files) (s : State)
      → state digests files ≡ ok s
      → Interrupted digests event s.raw files files'
      → digests.of_raw (extended digests event s.raw) ≢ digests.of_raw s.raw
      → state digests files'
        ≡ err (
            admission_error
              (if is_short digests files' then "interrupted_or_corrupt_state" else "file_limit"))
  state-Interrupted event files _ s h (torn part something) apart =
      let r = state-IsRead digests files s h in
      state-unwhole (record files { ledger = some (record s.raw { tail = part }) }) r.marker
        (record s.raw { tail = part }) (digests.of_raw s.raw) r.marked r.current refl r.head
        r.marker_fits r.head_fits
        (torn-ends_line s.raw.lines part
          (digests.of_raw s.raw == digests.of_raw (record s.raw { tail = part })) something)
  state-Interrupted event files _ s h unheaded apart =
      let r = state-IsRead digests files s h in
      state-unwhole (line_written digests event s.raw files) r.marker (extended digests event s.raw)
        (digests.of_raw s.raw) r.marked r.current refl r.head r.marker_fits r.head_fits
        (moved_head event s.raw apart)
  state-Interrupted event files _ s h unreplaced apart =
      let r = state-IsRead digests files s h in
      state-unwhole (head_pending digests event s.raw files) r.marker (extended digests event s.raw)
        (digests.of_raw s.raw) r.marked r.current refl r.head r.marker_fits r.head_fits
        (moved_head event s.raw apart)
