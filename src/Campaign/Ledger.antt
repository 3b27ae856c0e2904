-- ===== src/Campaign/Ledger.antt =====
-- The ledger of `Campaign` (scripts/p1/campaign.py): its files, how its state is read off them, and
-- the operations that append to it. A JSON object is the record of its fields, so that a file that
-- is no such object is not in the model.
use phone_law.Prelude.{
  ℕ, String, Bool, true, false, ◌&&◌, not, Option, none, some, List, [], ◌∷◌, ◌++◌, ◌==◌, eqb, leb,
  if◌then◌else◌,
}
use phone_law.Prelude.Outcome.{Result, Checked, ok, err, ◌>>=◌, require, admission_error, os_error}
use phone_law.Campaign.Debit.{Debit, checked, plus, validate_input_debit}
use phone_law.Campaign.Length.{digest_length}

abbrev pub campaign_name : String
campaign_name = "colacci-law-p1-20260913"

pub record Evidence : Type 0 where
  pub path : String
  pub sha256 : String

-- A reconciliation record; `unknown` is whether anything is.
pub record Reconciliation : Type 0 where
  pub schema : ℕ
  pub campaign : String
  pub status : String
  pub evidence : List Evidence
  pub debit : Debit
  pub unknown : Bool
  pub reviewer : String

pub data LedgerEvent : Type 0 where
  initialized : Reconciliation → Debit → LedgerEvent
  reserved : Debit → String → LedgerEvent
  dispatched completed : LedgerEvent

-- A line of the ledger: the event, and the digest of all lines before it.
pub record Line : Type 0 where
  pub event : LedgerEvent
  pub previous : String

-- The bytes of the ledger: whole lines, and what follows the last line feed.
pub record Raw : Type 0 where
  pub lines : List Line
  pub tail : String

pub record Marker : Type 0 where
  pub schema : ℕ
  pub campaign : String
  pub reconciliation : String

-- The marker, the ledger, the head (the digest that it holds), the temporary head of an append, and
-- whether the lock is held.
pub record Files : Type 0 where
  pub marker : Option Marker
  pub ledger : Option Raw
  pub head : Option String
  pub pending_head : Option String
  pub held : Bool

-- The limit of `read_private`, one MiB, and its test of a file of so many bytes.
abbrev pub read_limit : ℕ
read_limit = 1048576

abbrev pub within_limit : ℕ → Bool
within_limit size = leb size read_limit

-- SHA-256 of the ledger and of a record, and of the file of a piece of evidence, if it can be read;
-- how many bytes the marker, the ledger and a head take as files.
pub record Digests : Type 0 where
  pub marker_size : Marker → ℕ
  pub raw_size : Raw → ℕ
  pub head_size : String → ℕ
  pub of_raw : Raw → String
  pub of_record : Reconciliation → String
  pub of_file : String → Option String

pub data Pending : Type 0 where
  settled is_reserved is_dispatched : Pending

abbrev pub is_settled : Pending → Bool
is_settled settled = true
is_settled _ = false

abbrev same_digest : Option String → String → Bool
same_digest none digest = false
same_digest (some d) digest = d == digest

abbrev is_file : Option String → Bool
is_file none = false
is_file (some d) = true

-- A later line.
unfoldable pub replay_event : LedgerEvent → Debit → Pending → Result (Debit × Pending)
unfolding checked plus validate_input_debit
replay_event (reserved debit identity) sum settled =
    require (digest_length identity) (admission_error "reservation_invalid") (
      checked debit >>= (λ d.
        validate_input_debit d >>= (λ _. plus sum d >>= (λ after. ok (after, is_reserved)))))
replay_event dispatched sum is_reserved = ok (sum, is_dispatched)
replay_event completed sum is_dispatched = ok (sum, settled)
replay_event _ sum pending = err (admission_error "transition_invalid")

module _ (digests : Digests) where
  unfoldable pub check_evidence : List Evidence → Checked
  check_evidence [] = ok tt
  check_evidence (e ∷ rest) =
      let later = check_evidence rest in
      if is_file (digests.of_file e.path)
      then (if same_digest (digests.of_file e.path) e.sha256
          then later
          else err (admission_error "reconciliation_evidence_changed"))
      else err (os_error e.path)

  abbrev pub no_evidence : List Evidence → Bool
  no_evidence [] = true
  no_evidence (e ∷ rest) = false

  abbrev pub is_reconciled : Reconciliation → Bool
  is_reconciled r =
      eqb r.schema 1
      && (r.campaign == campaign_name && (r.status == "reconciled" && not (r.reviewer == "")))

  -- With the evidence checked, the debit that the record states.
  unfoldable pub stated_debit : Reconciliation → Result (Debit × Bool)
  stated_debit r =
      check_evidence r.evidence >>= (λ _. checked r.debit >>= (λ debit. ok (debit, r.unknown)))

  unfoldable pub reconcile : Reconciliation → Result (Debit × Bool)
  reconcile r = require (is_reconciled r) (admission_error "reconciliation_required") (
      require (not (no_evidence r.evidence)) (admission_error "reconciliation_invalid")
        (stated_debit r))

  abbrev same_debit : Debit → Debit → Bool
  same_debit a b =
      eqb a.requests b.requests
      && (eqb a.microseconds b.microseconds && (eqb a.bytes b.bytes && eqb a.micro_usd b.micro_usd))

  -- The first line.
  unfoldable pub replay_genesis : Marker → LedgerEvent → Result (Debit × Pending)
  replay_genesis marker (initialized record_ debit) =
      require (digests.of_record record_ == marker.reconciliation)
        (admission_error "genesis_invalid")
        (reconcile record_ >>= (λ r.
          require (not r.1 && same_debit r.0 debit) (admission_error "history_unresolved")
            (ok (r.0, settled))))
  replay_genesis marker _ = err (admission_error "genesis_invalid")

  unfoldable pub replay_line :
      Marker → (earlier : List Line) → Line → Debit → Pending → Result (Debit × Pending)
  unfolding replay_genesis replay_event
  replay_line marker earlier line sum pending =
      require (line.previous == digests.of_raw (record { lines = earlier; tail = "" }))
        (admission_error "chain_invalid")
        (elim earlier [
          | [] ↦ replay_genesis marker line.event
          | _ ∷ _ ↦ replay_event line.event sum pending
        ])

  unfoldable pub replay :
      Marker → (earlier : List Line) → List Line → Debit → Pending → Result (Debit × Pending)
  unfolding replay_line
  replay marker earlier [] sum pending = ok (sum, pending)
  replay marker earlier (line ∷ rest) sum pending =
      replay_line marker earlier line sum pending
      >>= (λ next. replay marker (earlier ++ (line ∷ [])) rest next.0 next.1)
