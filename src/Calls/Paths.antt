-- ===== src/Calls/Paths.antt =====
-- What sequences of transitions the contract of state_machine.py admits.
use phone_law.Prelude.{
  ℕ, ◌+◌, ◌≤◌, ◌<◌, ◌≡◌, refl, ◌⊎◌, inl, inr, Bool, true, false, List, [], ◌∷◌, arith, length,
}
use phone_law.Prelude.Outcome.{Result, ok, is_ok, ◌>>=◌, >>=-ok}
use phone_law.Calls.State.{
  ProcessingState, received, validated, queued, media_ready, transcribing, transcribed,
  extracting_facts, applying_playbook, analyzed, audio_invalid, transcription_failed,
  output_validation_failed, analysis_failed, is_terminal, transition, start_explicit_retry,
}

-- One transition after another, as the callers of `advance` and `fail` make them in one attempt.
abbrev pub follow : ProcessingState → List ProcessingState → Result ProcessingState
follow s [] = ok s
follow s (t ∷ path) = transition s t >>= λ u. follow u path

abbrev rank : ProcessingState → ℕ
rank received = 0
rank validated = 1
rank queued = 2
rank media_ready = 3
rank transcribing = 4
rank transcribed = 5
rank extracting_facts = 6
rank applying_playbook = 7
rank _ = 8

-- The eight transitions of an attempt that succeeds.
abbrev pub full_path : List ProcessingState
full_path =
    validated ∷ queued ∷ media_ready ∷ transcribing ∷ transcribed ∷ extracting_facts
    ∷ applying_playbook ∷ analyzed ∷ []

rank-transition : (s t u : ProcessingState) → transition s t ≡ ok u → rank s < rank u
unfolding transition
rank-transition s t u h = ground arith

-- `transition` refuses exactly the states of `TERMINAL_STATES`: one of them has no successor, and
-- every other state has one.
pub transition-is_terminal :
    (s : ProcessingState)
    → ((is_terminal s ≡ true) × ((t : ProcessingState) → is_ok (transition s t) ≡ false))
      ⊎ ((is_terminal s ≡ false) × ((t : ProcessingState) × (transition s t ≡ ok t)))
unfolding transition
transition-is_terminal received = inr (refl, (validated, refl))
transition-is_terminal validated = inr (refl, (queued, refl))
transition-is_terminal queued = inr (refl, (media_ready, refl))
transition-is_terminal media_ready = inr (refl, (transcribing, refl))
transition-is_terminal transcribing = inr (refl, (transcribed, refl))
transition-is_terminal transcribed = inr (refl, (extracting_facts, refl))
transition-is_terminal extracting_facts = inr (refl, (applying_playbook, refl))
transition-is_terminal applying_playbook = inr (refl, (analyzed, refl))
transition-is_terminal _ = inl (refl, λ t. refl)

follow-rank :
    (s u : ProcessingState) (path : List ProcessingState)
    → follow s path ≡ ok u
    → rank s + length path ≤ rank u
follow-rank s u [] h = ground arith
follow-rank s u (t ∷ path) h =
    let (v, first, rest) = >>=-ok (transition s t) (λ w. follow w path) h in
    omega (arith, rank-transition s t v first, follow-rank v u path rest)

rank-le : (s : ProcessingState) → rank s ≤ 8
rank-le s = ground arith

-- From any state, at most eight transitions are accepted before a new attempt is needed.
pub length-follow :
    (s u : ProcessingState) (path : List ProcessingState) → follow s path ≡ ok u → length path ≤ 8
length-follow s u path h = omega (arith, follow-rank s u path h, rank-le u)

abbrev is_failure : ProcessingState → Bool
is_failure audio_invalid = true
is_failure transcription_failed = true
is_failure output_validation_failed = true
is_failure analysis_failed = true
is_failure _ = false

-- The states that are left to pass on the way to `analyzed`.
abbrev remaining_path : ProcessingState → List ProcessingState
remaining_path received = full_path
remaining_path validated =
    queued ∷ media_ready ∷ transcribing ∷ transcribed ∷ extracting_facts ∷ applying_playbook
    ∷ analyzed ∷ []
remaining_path queued =
    media_ready ∷ transcribing ∷ transcribed ∷ extracting_facts ∷ applying_playbook ∷ analyzed ∷ []
remaining_path media_ready =
    transcribing ∷ transcribed ∷ extracting_facts ∷ applying_playbook ∷ analyzed ∷ []
remaining_path transcribing = transcribed ∷ extracting_facts ∷ applying_playbook ∷ analyzed ∷ []
remaining_path transcribed = extracting_facts ∷ applying_playbook ∷ analyzed ∷ []
remaining_path extracting_facts = applying_playbook ∷ analyzed ∷ []
remaining_path applying_playbook = analyzed ∷ []
remaining_path _ = []

remaining_path-transition :
    (s t u : ProcessingState)
    → transition s t ≡ ok u
    → is_failure u ≡ false
    → (t ∷ remaining_path u ≡ remaining_path s) × (is_failure s ≡ false)
unfolding transition
remaining_path-transition s t u h f = ground arith

follow-remaining_path :
    (s : ProcessingState) (path : List ProcessingState)
    → follow s path ≡ ok analyzed
    → (path ≡ remaining_path s) × (is_failure s ≡ false)
follow-remaining_path s [] h = ground arith
follow-remaining_path s (t ∷ path) h =
    let (v, first, rest) = >>=-ok (transition s t) (λ w. follow w path) h in
    let (p, f) = follow-remaining_path v path rest in
    let (q, g) = remaining_path-transition s t v first f in (cc, g)

-- The transitions that take an attempt from its start to `analyzed` are the eight of the full path
-- and no others: no step, and so no validation, is left out.
pub follow-analyzed :
    (path : List ProcessingState) → follow received path ≡ ok analyzed → path ≡ full_path
follow-analyzed path h = (follow-remaining_path received path h).0

-- An explicit retry starts again from `received`; it is accepted from the two retryable failures
-- only, and each of them is terminal for ordinary transitions.
pub start_explicit_retry-cases :
    (s u : ProcessingState)
    → start_explicit_retry s ≡ ok u
    → (u ≡ received)
      × ((s ≡ transcription_failed) ⊎ (s ≡ analysis_failed))
      × ((t : ProcessingState) → is_ok (transition s t) ≡ false)
unfolding start_explicit_retry transition
start_explicit_retry-cases s u h = grind arith
