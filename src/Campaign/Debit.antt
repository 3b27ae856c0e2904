-- ===== src/Campaign/Debit.antt =====
-- `Debit` of scripts/p1/campaign.py: what a campaign has used of its caps.
use phone_law.Prelude.{ℕ, ◌+◌, ◌-◌, Bool, ◌&&◌, leb, ltb, eqb, if◌then◌else◌}
use phone_law.Prelude.Outcome.{Result, Checked, ok, err, admission_error}

pub record Debit : Type 0 where
  pub requests : ℕ
  pub microseconds : ℕ
  pub bytes : ℕ
  pub micro_usd : ℕ

abbrev pub caps : Debit
caps = record { requests = 6; microseconds = 540000000; bytes = 25165824; micro_usd = 2000000 }

abbrev pub is_within : Debit → Debit → Bool
is_within d limit =
    leb d.requests limit.requests
    && (leb d.microseconds limit.microseconds
        && (leb d.bytes limit.bytes && leb d.micro_usd limit.micro_usd))

-- `Debit(…)`: `__post_init__` raises above a cap.
unfoldable pub checked : Debit → Result Debit
checked d = if is_within d caps then ok d else err (admission_error "capacity_exceeded")

abbrev pub total : Debit → Debit → Debit
total a b = record {
  requests = a.requests + b.requests;
  microseconds = a.microseconds + b.microseconds;
  bytes = a.bytes + b.bytes;
  micro_usd = a.micro_usd + b.micro_usd;
}

unfoldable pub plus : Debit → Debit → Result Debit
plus a b = checked (total a b)

abbrev pub no_debit : Debit
no_debit = record { requests = 0; microseconds = 0; bytes = 0; micro_usd = 0 }

-- The differences are those of whole numbers, since a debit does not exceed the caps.
unfoldable pub remaining : Debit → Debit
remaining d = record {
  requests = caps.requests - d.requests;
  microseconds = caps.microseconds - d.microseconds;
  bytes = caps.bytes - d.bytes;
  micro_usd = caps.micro_usd - d.micro_usd;
}

unfoldable pub validate_input_debit : Debit → Checked
validate_input_debit d =
    if eqb d.requests 1
      && ((ltb 0 d.microseconds && leb d.microseconds 90000000)
          && ((ltb 0 d.bytes && leb d.bytes 4194304) && ltb 0 d.micro_usd))
    then ok tt
    else err (admission_error "input_cap_exceeded")
