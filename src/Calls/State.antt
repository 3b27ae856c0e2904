-- ===== src/Calls/State.antt =====
-- packages/review/state_machine.py, with `ProcessingState` of packages/contracts/review.py.
-- A frozen set of states is its membership test.
use phone_law.Prelude.{Bool, true, false, if◌then◌else◌}
use phone_law.Prelude.Outcome.{Result, ok, err, invalid_transition}

pub data ProcessingState : Type 0 where
  received validated queued media_ready transcribing transcribed : ProcessingState
  extracting_facts applying_playbook analyzed audio_invalid : ProcessingState
  transcription_failed output_validation_failed analysis_failed : ProcessingState

-- `TERMINAL_STATES`
abbrev pub is_terminal : ProcessingState → Bool
is_terminal analyzed = true
is_terminal audio_invalid = true
is_terminal transcription_failed = true
is_terminal output_validation_failed = true
is_terminal analysis_failed = true
is_terminal _ = false

-- `target in ALLOWED_TRANSITIONS.get(current, frozenset())`
abbrev pub allowed_transition : ProcessingState → ProcessingState → Bool
allowed_transition received validated = true
allowed_transition validated queued = true
allowed_transition queued media_ready = true
allowed_transition queued audio_invalid = true
allowed_transition media_ready transcribing = true
allowed_transition media_ready audio_invalid = true
allowed_transition transcribing transcribed = true
allowed_transition transcribing transcription_failed = true
allowed_transition transcribing audio_invalid = true
allowed_transition transcribed extracting_facts = true
allowed_transition extracting_facts applying_playbook = true
allowed_transition extracting_facts output_validation_failed = true
allowed_transition applying_playbook analyzed = true
allowed_transition applying_playbook output_validation_failed = true
allowed_transition applying_playbook analysis_failed = true
allowed_transition _ _ = false

unfoldable pub transition : ProcessingState → ProcessingState → Result ProcessingState
transition current target =
    if allowed_transition current target
    then ok target
    else err (invalid_transition "transition not allowed")

abbrev pub is_retryable : ProcessingState → Bool
is_retryable transcription_failed = true
is_retryable analysis_failed = true
is_retryable _ = false

unfoldable pub start_explicit_retry : ProcessingState → Result ProcessingState
start_explicit_retry current =
    if is_retryable current then ok received else err (invalid_transition "state is not retryable")
