-- ===== src/Calls/Machine.antt =====
-- The machine of one call, and what the tables show of it.
use phone_law.Prelude.{
  String, ◌≡◌, refl, sym, ap, ◌∙◌, inl, inr, true, false, Option, none, some, List, [], ◌∷◌, ◌==◌,
  eq_iff, arith, any, find, All, Bool-cases, if◌then◌else◌,
}
use phone_law.Prelude.Outcome.{ok}
use phone_law.Calls.State.{
  ProcessingState, received, transition, start_explicit_retry, is_retryable,
}
use phone_law.Calls.Tables.{CallRow}
use phone_law.Calls.Repository.{set_call_state}

-- The specification: a call appears as received, is moved by the state machine, and may be retried.
pub data Moves : Option ProcessingState → Option ProcessingState → Type 0 where
  stays : (s : Option ProcessingState) → Moves s s
  appears : Moves none (some received)
  proceeds : (s s' : ProcessingState) → transition s s' ≡ ok s' → Moves (some s) (some s')
  restarts :
      (s : ProcessingState) → start_explicit_retry s ≡ ok received → Moves (some s) (some received)

-- The state of the call with an identifier.
abbrev pub state_of : String → List CallRow → Option ProcessingState
state_of call_id [] = none
state_of call_id (c ∷ rest) =
    let later = state_of call_id rest in if c.id == call_id then some c.state else later

pub state_of-fresh :
    (k : String) (calls : List CallRow)
    → any (λ c. c.id == k) calls ≡ false
    → state_of k calls ≡ none
state_of-fresh k [] h = refl
state_of-fresh k (c ∷ rest) h = ground (arith, state_of-fresh k rest)

pub state_of-find :
    (k : String) (calls : List CallRow) {c : CallRow}
    → find (λ d. d.id == k) calls ≡ some c
    → state_of k calls ≡ some c.state
state_of-find k [] h = absurd (ground arith)
state_of-find k (d ∷ rest) {c} h = elim (Bool-cases (d.id == k)) [
  | inl e ↦
      let same : some d ≡ some c = rw e at h in
      rw e (ap (λ o. elim o [ none ↦ none | some x ↦ some x.state ]) same)
  | inr e ↦ rw e (state_of-find k rest {c = c} (rw e at h))
]

pub state_of-current :
    (k : String) (f : String → ProcessingState) (calls : List CallRow) {s : ProcessingState}
    → All (λ c. c.state ≡ f c.id) calls
    → state_of k calls ≡ some s
    → s ≡ f k
state_of-current k f [] h e = absurd (ground arith)
state_of-current k f (c ∷ rest) {s} h e = elim (Bool-cases (c.id == k)) [
  | inl own ↦
      let same : some c.state ≡ some s = rw own at e in
      let state : c.state ≡ s = cc in sym state ∙ h.0 ∙ ap f ((eq_iff c.id k).0 own)
  | inr other ↦ state_of-current k f rest {s = s} h.1 (rw other at e)
]

pub state_of-set_other :
    (k call_id : String) (s : ProcessingState) (calls : List CallRow)
    → (k == call_id) ≡ false
    → state_of k (set_call_state call_id s calls) ≡ state_of k calls
state_of-set_other k call_id s [] ne = refl
state_of-set_other k call_id s (c ∷ rest) ne = ground (
  arith,
  state_of-set_other k call_id s rest ne,
  eq_iff c.id k,
  eq_iff c.id call_id,
  eq_iff k call_id,
)

-- The state that is set, where there is a call.
abbrev pub replaced : ProcessingState → Option ProcessingState → Option ProcessingState
replaced s none = none
replaced s (some _) = some s

pub state_of-set :
    (k : String) (s : ProcessingState) (calls : List CallRow)
    → state_of k (set_call_state k s calls) ≡ replaced s (state_of k calls)
state_of-set k s [] = refl
state_of-set k s (c ∷ rest) = elim (Bool-cases (c.id == k)) [
  | inl e ↦ rw (e, e) refl
  | inr e ↦ rw (e, e) (state_of-set k s rest)
]

pub transition-target : (s t u : ProcessingState) → transition s t ≡ ok u → transition s t ≡ ok t
unfolding transition
transition-target s t u h = ground arith

pub retry-received :
    (s : ProcessingState) → is_retryable s ≡ true → start_explicit_retry s ≡ ok received
unfolding start_explicit_retry
retry-received s h = ground arith
