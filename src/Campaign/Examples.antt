-- ===== src/Campaign/Examples.antt =====
-- Runs of a campaign on concrete files.
use phone_law.Prelude.{
  String, ◌≡◌, refl, ap, ◌==◌, true, false, none, some, List, [], ◌∷◌, ◌≤◌, arith, ◌+◌, ◌*◌, length,
  if◌then◌else◌,
}
use phone_law.Prelude.Outcome.{ok, err, admission_error}
use phone_law.Campaign.Debit.{
  Debit, no_debit, is_within, caps, total, checked, plus, validate_input_debit,
}
use phone_law.Campaign.Ledger.{
  Reconciliation, LedgerEvent, Line, Raw, Files, Digests, campaign_name, reserved, dispatched,
  is_settled, is_reserved, is_dispatched, settled, check_evidence, stated_debit, reconcile,
  replay_genesis, replay_event, replay_line, replay,
}
use phone_law.Campaign.Journal.{
  State, state_of, state, append, admitted, reserve, transition, initialize, extended, line_written,
  unheaded, follows,
}
use phone_law.Campaign.Replay.{reservations}
use phone_law.Campaign.Accounts.{state-caps}
use phone_law.Campaign.Transitions.{is_readable, reserve-state, transition-state, state-Interrupted}

abbrev digest_of_lines : List Line → String
digest_of_lines [] = "none"
digest_of_lines (_ ∷ []) = "one"
digest_of_lines (_ ∷ _ ∷ []) = "two"
digest_of_lines (_ ∷ _ ∷ _ ∷ _) = "more"

abbrev sample_digests : Digests
sample_digests = record {
  marker_size = λ m. 200;
  raw_size = λ raw. 300 * length raw.lines;
  head_size = λ head. 80;
  of_raw = λ raw. digest_of_lines raw.lines;
  of_record = λ r. "record";
  of_file = λ path. some "evidence";
}

abbrev sample_reconciliation : Reconciliation
sample_reconciliation = record {
  schema = 1;
  campaign = campaign_name;
  status = "reconciled";
  evidence = record { path = "usage.json"; sha256 = "evidence" } ∷ [];
  debit = no_debit;
  unknown = false;
  reviewer = "operator";
}

abbrev no_files : Files
no_files = record { marker = none; ledger = none; head = none; pending_head = none; held = true }

abbrev sample_debit : Debit
sample_debit = record { requests = 1; microseconds = 1000000; bytes = 1024; micro_usd = 5000 }

abbrev sample_identity : String
sample_identity = "0123456789abcdef0123456789abcdef0123456789abcdef0123456789abcdef"

abbrev sample_raw : Raw
sample_raw =
    extended sample_digests (LedgerEvent.initialized sample_reconciliation no_debit)
      (record { lines = []; tail = "" })

abbrev sample_files : Files
sample_files = record {
  marker = some (record { schema = 1; campaign = campaign_name; reconciliation = "record" });
  ledger = some sample_raw;
  head = some "one";
  pending_head = none;
  held = true;
}

abbrev sample_state : State
sample_state = record { sum = no_debit; pending = settled; raw = sample_raw }

abbrev reserved_raw : Raw
reserved_raw = extended sample_digests (reserved sample_debit sample_identity) sample_raw

abbrev reserved_files : Files
reserved_files = record sample_files { ledger = some reserved_raw; head = some "two" }

abbrev dispatched_files : Files
dispatched_files = record reserved_files {
  ledger = some (extended sample_digests dispatched reserved_raw);
  head = some "more";
}

initialize_sample : initialize sample_digests sample_reconciliation no_files ≡ (ok tt, sample_files)
unfolding initialize append reconcile stated_debit check_evidence checked
initialize_sample = refl

state_sample : state sample_digests sample_files ≡ ok sample_state
unfolding state state_of replay replay_line replay_genesis reconcile stated_debit check_evidence
    checked
state_sample = refl

reserve_sample :
    reserve sample_digests sample_debit sample_identity sample_files ≡ (ok tt, reserved_files)
unfolding reserve admitted append state state_of replay replay_line replay_genesis reconcile
    stated_debit check_evidence checked plus validate_input_debit
reserve_sample = refl

transition_sample : transition sample_digests dispatched reserved_files ≡ (ok tt, dispatched_files)
unfolding transition append state state_of replay replay_line replay_event replay_genesis reconcile
    stated_debit check_evidence checked plus validate_input_debit
transition_sample = refl

-- Files so long that one more line is beyond what is read.
abbrev long_digests : Digests
long_digests = record sample_digests { raw_size = λ raw. 1048000 + 300 * length raw.lines }

reserve_long :
    reserve long_digests sample_debit sample_identity sample_files ≡ (ok tt, reserved_files)
unfolding reserve admitted append state state_of replay replay_line replay_genesis reconcile
    stated_debit check_evidence checked plus validate_input_debit
reserve_long = refl

state_long : state long_digests reserved_files ≡ err (admission_error "file_limit")
unfolding state
state_long = refl

state-caps_example :
    (is_within sample_state.sum caps ≡ true) × (reservations sample_state.raw.lines ≤ 6)
state-caps_example = state-caps sample_digests sample_files sample_state state_sample

reserve-state_example :
    (s : State) × (state sample_digests sample_files ≡ ok s)
    × (is_settled s.pending ≡ true)
    × (state sample_digests reserved_files ≡ (
        if is_readable sample_digests (reserved sample_debit sample_identity) s.raw
        then ok (record {
          sum = total s.sum sample_debit;
          pending = is_reserved;
          raw = extended sample_digests (reserved sample_debit sample_identity) s.raw;
        })
        else err (admission_error "file_limit")))
    × (is_within (total s.sum sample_debit) caps ≡ true)
reserve-state_example =
    reserve-state sample_digests sample_debit sample_identity sample_files reserved_files
      reserve_sample

transition-state_example :
    (s : State) × (state sample_digests reserved_files ≡ ok s)
    × (follows dispatched s.pending ≡ true)
    × (state sample_digests dispatched_files ≡ (
        if is_readable sample_digests dispatched s.raw
        then ok (record {
          sum = s.sum;
          pending = is_dispatched;
          raw = extended sample_digests dispatched s.raw;
        })
        else err (admission_error "file_limit")))
transition-state_example =
    transition-state sample_digests dispatched reserved_files dispatched_files transition_sample

state-Interrupted_example :
    state sample_digests
      (line_written sample_digests (reserved sample_debit sample_identity) sample_raw sample_files)
    ≡ err (admission_error "interrupted_or_corrupt_state")
state-Interrupted_example =
    state-Interrupted sample_digests (reserved sample_debit sample_identity) sample_files
      (line_written sample_digests (reserved sample_debit sample_identity) sample_raw sample_files)
      sample_state state_sample unheaded (λ h. absurd (ground (arith, ap (λ x. x == "one") h)))
