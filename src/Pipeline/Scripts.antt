-- ===== src/Pipeline/Scripts.antt =====
-- The entries of the manifest of packages/review/fixtures.py, as records of their fields.
use phone_law.Prelude.{ℕ, String, Bool, Option, none, some, List, [], ◌∷◌, ◌==◌, if◌then◌else◌}
use phone_law.Prelude.Outcome.{Result, or_raise, lookup_error}
use phone_law.Contracts.Events.{ProcessingFailure}
use phone_law.Contracts.Analysis.{
  Speaker, ValueState, AnalysisCategory, Priority, Confidence, ResponsibleRole,
}

-- The entry of a fixture.
pub record ScriptedFailure : Type 0 where
  pub attempt_number : ℕ
  pub failure : ProcessingFailure

pub record ScriptedSegment : Type 0 where
  pub segment_id : String
  pub speaker : Speaker
  pub start_seconds : Option ℕ
  pub end_seconds : Option ℕ
  pub text : String

pub record ScriptedText : Type 0 where
  pub state : ValueState
  pub value : Option String
  pub evidence : List String

pub record ScriptedDate : Type 0 where
  pub state : ValueState
  pub expression : Option String
  pub iso_date : Option String
  pub is_deadline : Bool
  pub evidence : List String

pub record ScriptedCommitment : Type 0 where
  pub state : ValueState
  pub commitment : Option String
  pub timing : Option ScriptedDate
  pub evidence : List String

pub record ScriptedQuestion : Type 0 where
  pub question : String
  pub state : ValueState
  pub evidence : List String

pub record ScriptedFacts : Type 0 where
  pub caller_request : ScriptedText
  pub reported_facts : List ScriptedText
  pub people_or_organizations : List ScriptedText
  pub dates : List ScriptedDate
  pub staff_commitments : List ScriptedCommitment
  pub requested_follow_up : ScriptedText
  pub unresolved_questions : List ScriptedQuestion
  pub caller_identity_state : ValueState
  pub caller_identity_label : Option String

pub record ScriptedFinding : Type 0 where
  pub finding_id : String
  pub kind : String
  pub statement : String
  pub material : Bool
  pub evidence : List String

pub record ScriptedAnalysis : Type 0 where
  pub category : AnalysisCategory
  pub priority : Priority
  pub summary : String
  pub proposed_next_steps : List String
  pub responsible_role : ResponsibleRole
  pub suggested_response_timing : Option String
  pub attorney_attention_issues : List ScriptedFinding
  pub dissatisfaction_indicators : List ScriptedFinding
  pub omitted_information_findings : List ScriptedFinding
  pub confidence : Confidence
  pub findings : List ScriptedFinding

pub record Fixture : Type 0 where
  pub fixture_id : String
  pub transcriber_failures : List ScriptedFailure
  pub language : String
  pub segments : List ScriptedSegment
  pub analysis_failure : Bool
  pub expected_facts : ScriptedFacts
  pub expected_analysis : ScriptedAnalysis

-- SHA-256 of a text, its first 32 digits; whether a text is a date in ISO form; the manifest.
pub record FixtureSources : Type 0 where
  pub digest : String → String
  pub is_iso_date : String → Bool
  pub manifest : List Fixture

-- The dictionary of the entries: of entries with one identifier the last is kept.
abbrev pub last_entry : String → List Fixture → Option Fixture
last_entry fixture_id [] = none
last_entry fixture_id (f ∷ rest) = elim (last_entry fixture_id rest) [
  | some x ↦ some x
  | none ↦ if f.fixture_id == fixture_id then some f else none
]

unfoldable pub entry : FixtureSources → String → Result Fixture
entry sources fixture_id =
    or_raise (last_entry fixture_id sources.manifest) (lookup_error fixture_id)
