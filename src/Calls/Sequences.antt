-- ===== src/Calls/Sequences.antt =====
-- Sequences of the methods of `ReviewRepository`, in any order and with any arguments.
use phone_law.Prelude.{[], arith}
use phone_law.Calls.Tables.{Tables}
use phone_law.Calls.Timeline.{IsConsistent}
use phone_law.Calls.Consistency.{advance-IsConsistent, fail-IsConsistent}
use phone_law.Calls.Restart.{start_attempt-IsConsistent}
use phone_law.Calls.Ingestion.{ingest-Delivered, ingest-IsConsistent}
use phone_law.Calls.Stored.{
  HasSoundOutputs, store_transcript-HasSoundOutputs, store_analysis-HasSoundOutputs,
}
use phone_law.Calls.Steps.{
  Step, delivered, started, moved, stopped, transcript_stored, analysis_stored, installed,
  carried-HasSoundOutputs, carried-IsConsistent, Delivered-HaveSameOutputs, started-HaveSameOutputs,
  moved-HaveSameOutputs, stopped-HaveSameOutputs, transcript-HaveSameCalls, analysis-HaveSameCalls,
  installed-HaveSame,
}

abbrev pub no_tables : Tables
no_tables = record {
  calls = [];
  events = [];
  attempts = [];
  transcripts = [];
  analyses = [];
  playbooks = [];
}

-- The tables after methods that returned, from empty ones.
pub data Reachable : Tables → Type 0 where
  empty : Reachable no_tables
  after : (t t' : Tables) → Reachable t → Step t t' → Reachable t'

Step-IsConsistent :
    (t t' : Tables)
    → Step t t'
    → IsConsistent t × HasSoundOutputs t
    → IsConsistent t' × HasSoundOutputs t'
Step-IsConsistent t t' (delivered event preferred event_id new_call_id r h) (consistent, sound) = (
  ingest-IsConsistent event preferred event_id new_call_id t r t' consistent h,
  carried-HasSoundOutputs t t'
      (Delivered-HaveSameOutputs event t r t'
        (ingest-Delivered event preferred event_id new_call_id t r t' h))
      sound,
)
Step-IsConsistent t t' (started call_id provenance now a h) (consistent, sound) = (
  start_attempt-IsConsistent call_id provenance now t t' a consistent h,
  carried-HasSoundOutputs t t' (started-HaveSameOutputs call_id provenance now t t' a h) sound,
)
Step-IsConsistent t t' (moved call_id attempt_id target now own h) (consistent, sound) = (
  advance-IsConsistent call_id attempt_id target now t t' consistent own h,
  carried-HasSoundOutputs t t' (moved-HaveSameOutputs call_id attempt_id target now t t' h) sound,
)
Step-IsConsistent t t' (stopped call_id attempt_id failure now own h) (consistent, sound) = (
  fail-IsConsistent call_id attempt_id failure now t t' consistent own h,
  carried-HasSoundOutputs t t' (stopped-HaveSameOutputs call_id attempt_id failure now t t' h)
      sound,
)
Step-IsConsistent t t' (transcript_stored transcript attempt_id h) (consistent, sound) = (
  carried-IsConsistent t t' (transcript-HaveSameCalls transcript attempt_id t t' h) consistent,
  store_transcript-HasSoundOutputs transcript attempt_id t t' sound h,
)
Step-IsConsistent t t' (analysis_stored analysis attempt_id h) (consistent, sound) = (
  carried-IsConsistent t t' (analysis-HaveSameCalls analysis attempt_id t t' h) consistent,
  store_analysis-HasSoundOutputs analysis attempt_id t t' sound h,
)
Step-IsConsistent t t' (installed payload now h) (consistent, sound) =
    let (calls, outputs) = installed-HaveSame payload now t t' h in
    (carried-IsConsistent t t' calls consistent, carried-HasSoundOutputs t t' outputs sound)

-- After any sequence of the methods, in which `advance` and `fail` are given an attempt of the call:
-- the attempts of each call are numbered from 1 without a gap,
-- each but the last ended in a failure that may be retried, and the call is in the state of the last;
-- every attempt has its call; each call has at most one transcript and one analysis, and every stored
-- analysis is an accepted one.
pub Reachable-IsConsistent : (t : Tables) → Reachable t → IsConsistent t × HasSoundOutputs t
Reachable-IsConsistent _ empty = (
  record { unique = tt; timeline = λ k. tt; current = tt; owned = tt },
  record { one_transcript = λ k. omega arith; one_analysis = λ k. omega arith; only_accepted = tt },
)
Reachable-IsConsistent t' (after t _ before step) =
    Step-IsConsistent t t' step (Reachable-IsConsistent t before)
