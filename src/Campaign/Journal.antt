-- ===== src/Campaign/Journal.antt =====
-- `Campaign` itself: `state`, `_append` with the files that it leaves at each point, `initialize`,
-- `reserve` and `transition`.
use phone_law.Prelude.{
  String, ◌≡◌, Bool, true, false, ◌&&◌, ◌||◌, not, Option, none, some, [], ◌∷◌, ◌++◌, ◌==◌, eqb,
  is_some, if◌then◌else◌,
}
use phone_law.Prelude.Outcome.{Result, Checked, ok, err, ◌>>=◌, require, admission_error, os_error}
use phone_law.Campaign.Debit.{Debit, plus, no_debit, validate_input_debit}
use phone_law.Campaign.Length.{digest_length}
use phone_law.Campaign.Ledger.{
  Reconciliation, LedgerEvent, Line, Raw, Marker, Files, Digests, Pending, campaign_name,
  within_limit, initialized, reserved, dispatched, completed, settled, is_reserved, is_dispatched,
  is_settled, reconcile, replay,
}

-- `raw.endswith(b"\n")`
abbrev pub ends_line : Raw → Bool
ends_line raw = elim raw.lines [ [] ↦ false | _ ∷ _ ↦ raw.tail == "" ]

-- What `state` returns: the debits so far, the transition that is open, and the ledger.
pub record State : Type 0 where
  pub sum : Debit
  pub pending : Pending
  pub raw : Raw

-- What `reserve` asks of the state.
unfoldable pub admitted : State → Debit → String → Checked
admitted s debit identity = require (is_settled s.pending) (admission_error "unresolved_debit") (
    validate_input_debit debit >>= (λ _.
      plus s.sum debit
      >>= (λ _. require (digest_length identity) (admission_error "identity_invalid") (ok tt))))

-- The transitions that `transition` lets follow.
abbrev pub follows : LedgerEvent → Pending → Bool
follows dispatched is_reserved = true
follows completed is_dispatched = true
follows _ _ = false

module _ (digests : Digests) where
  unfoldable pub state_of : Marker → Raw → (head : String) → Result State
  state_of marker raw head =
      require (head == digests.of_raw raw && ends_line raw)
        (admission_error "interrupted_or_corrupt_state")
        (replay digests marker [] raw.lines no_debit settled
          >>= (λ r. ok (record { sum = r.0; pending = r.1; raw = raw })))

  abbrev pub state_of_head : Marker → Raw → Option String → Result State
  state_of_head marker raw none = err (admission_error "initialized_state_missing")
  state_of_head marker raw (some head) =
      require (within_limit (digests.head_size head)) (admission_error "file_limit")
        (state_of marker raw head)

  -- The ledger is read before the head.
  abbrev pub state_of_files : Marker → Option Raw → Option String → Result State
  state_of_files marker none head = err (admission_error "initialized_state_missing")
  state_of_files marker (some raw) head =
      require (within_limit (digests.raw_size raw)) (admission_error "file_limit")
        (state_of_head marker raw head)

  abbrev pub state_of_marker : Option Marker → Files → Result State
  state_of_marker none files =
      if is_some files.ledger || is_some files.head
      then err (admission_error "missing_initialized_marker")
      else err (admission_error "first_initialization_required")
  state_of_marker (some marker) files =
      require (within_limit (digests.marker_size marker)) (admission_error "file_limit") (
        require (eqb marker.schema 1 && marker.campaign == campaign_name)
          (admission_error "incompatible_state") (state_of_files marker files.ledger files.head))

  unfoldable pub state : Files → Result State
  state files = state_of_marker files.marker files

  abbrev pub line_of : LedgerEvent → Raw → Line
  line_of event raw = record { event = event; previous = digests.of_raw raw }

  -- The ledger with the whole line, which stands after a tail, if there is one.
  abbrev pub extended : LedgerEvent → Raw → Raw
  extended event raw = record raw { lines = raw.lines ++ (line_of event raw ∷ []) }

  -- The points of `_append`: the line is written; the new head is in the temporary file; it has
  -- replaced the head.
  abbrev pub line_written : LedgerEvent → Raw → Files → Files
  line_written event raw files = record files { ledger = some (extended event raw) }

  abbrev pub head_pending : LedgerEvent → Raw → Files → Files
  head_pending event raw files = record (line_written event raw files) {
    pending_head = some (digests.of_raw (extended event raw));
  }

  abbrev pub head_replaced : LedgerEvent → Raw → Files → Files
  head_replaced event raw files = record (line_written event raw files) {
    head = some (digests.of_raw (extended event raw));
    pending_head = none;
  }

  -- `_append`: the ledger is opened without creating it, and the temporary file must be new.
  unfoldable pub append : LedgerEvent → Raw → Files → Result (Unit {0}) × Files
  append event raw files =
      if not (is_some files.ledger)
      then (err (os_error "ledger"), files)
      else if is_some files.pending_head
      then (err (os_error "pending"), line_written event raw files)
      else (ok tt, head_replaced event raw files)

  -- A transition that is interrupted: part of the line is written, or the line without the head, or
  -- the head is still in the temporary file.
  pub data Interrupted (event : LedgerEvent) (raw : Raw) (files : Files) : Files → Type 0 where
    torn :
        (part : String)
        → (part == "") ≡ false
        → Interrupted event raw files (record files { ledger = some (record raw { tail = part }) })
    unheaded : Interrupted event raw files (line_written event raw files)
    unreplaced : Interrupted event raw files (head_pending event raw files)

  abbrev pub held_state : Files → Result State
  held_state files = require files.held (admission_error "lock_required") (state files)

  -- `reserve`, on the state that was read.
  abbrev pub reserve_in : Debit → String → Files → Result State → Result (Unit {0}) × Files
  reserve_in debit identity files (err e) = (err e, files)
  reserve_in debit identity files (ok s) = elim (admitted s debit identity) [
    | ok _ ↦ append (reserved debit identity) s.raw files
    | err e ↦ (err e, files)
  ]

  unfoldable pub reserve : Debit → String → Files → Result (Unit {0}) × Files
  reserve debit identity files = reserve_in debit identity files (held_state files)

  abbrev pub transition_in : LedgerEvent → Files → Result State → Result (Unit {0}) × Files
  transition_in event files (err e) = (err e, files)
  transition_in event files (ok s) =
      if follows event s.pending
      then append event s.raw files
      else (err (admission_error "transition_invalid"), files)

  -- `transition`, of an event that is its own kind.
  unfoldable pub transition : LedgerEvent → Files → Result (Unit {0}) × Files
  transition event files = transition_in event files (held_state files)

  abbrev nothing_there : Files → Bool
  nothing_there files =
      not (is_some files.marker) && (not (is_some files.ledger) && not (is_some files.head))

  abbrev pub created : Reconciliation → Files → Files
  created record_ files = record files {
    marker = some (record {
      schema = 1;
      campaign = campaign_name;
      reconciliation = digests.of_record record_;
    });
    ledger = some (record { lines = []; tail = "" });
  }

  abbrev initialize_with :
      Reconciliation → Files → Result (Debit × Bool) → Result (Unit {0}) × Files
  initialize_with record_ files (err e) = (err e, files)
  initialize_with record_ files (ok (debit, unknown)) =
      if unknown
      then (err (admission_error "history_unresolved"), files)
      else if nothing_there files
      then append (initialized record_ debit) (record { lines = []; tail = "" })
          (created record_ files)
      else (err (admission_error "already_initialized_or_legacy_state"), files)

  -- `initialize`, with the lock that it takes.
  unfoldable pub initialize : Reconciliation → Files → Result (Unit {0}) × Files
  initialize record_ files = initialize_with record_ files (reconcile digests record_)
