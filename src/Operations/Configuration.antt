-- ===== src/Operations/Configuration.antt =====
-- `LocalFirmConfiguration` of packages/contracts/operations.py and its validator. The fields with one
-- literal value are left out.
use phone_law.Prelude.{String, Bool, true, false, ◌||◌, not, List, [], ◌∷◌, ◌==◌, any, all}
use phone_law.Prelude.Outcome.{Checked, ok}
use phone_law.Policy.{DemoRole, reviewer, administrator, operations}
use phone_law.Contracts.Events.{Direction}
use phone_law.Contracts.Analysis.{AnalysisCategory}
use phone_law.Contracts.Validators.{refuse_if, is_empty}
use phone_law.Operations.Contracts.{LocalRetentionSchedule}

pub record StaffExtensionMapping : Type 0 where
  pub extension : String
  pub synthetic_label : String

pub record LocalFirmConfiguration : Type 0 where
  pub schema_version : String
  pub daily_report_cutoff : String
  pub eligible_call_directions : List Direction
  pub eligible_call_categories : List AnalysisCategory
  pub staff_extension_mappings : List StaffExtensionMapping
  pub report_roles : List DemoRole
  pub synthetic_playbook_version : String
  pub retention : LocalRetentionSchedule

abbrev pub same_direction : Direction → Direction → Bool
same_direction Direction.inbound Direction.inbound = true
same_direction Direction.outbound Direction.outbound = true
same_direction Direction.unknown Direction.unknown = true
same_direction _ _ = false

abbrev pub same_category : AnalysisCategory → AnalysisCategory → Bool
same_category AnalysisCategory.new_intake AnalysisCategory.new_intake = true
same_category AnalysisCategory.existing_client_follow_up
      AnalysisCategory.existing_client_follow_up =
    true
same_category AnalysisCategory.administrative AnalysisCategory.administrative = true
same_category AnalysisCategory.dissatisfaction_escalation
      AnalysisCategory.dissatisfaction_escalation =
    true
same_category AnalysisCategory.routine_no_action AnalysisCategory.routine_no_action = true
same_category AnalysisCategory.unknown AnalysisCategory.unknown = true
same_category _ _ = false

abbrev pub same_role : DemoRole → DemoRole → Bool
same_role reviewer reviewer = true
same_role administrator administrator = true
same_role operations operations = true
same_role _ _ = false

-- `len(set(xs)) != len(xs)`, as the repetition that it looks for.
abbrev pub repeats {ℓ} : {A : Type ℓ} → (A → A → Bool) → List A → Bool
repeats same [] = false
repeats same (x ∷ xs) = any (same x) xs || repeats same xs

-- `set(roles) == set(DemoRole)`: whatever is a role is in the set, so only the other half is tested.
abbrev pub all_roles : List DemoRole → Bool
all_roles roles =
    all (λ role. any (same_role role) roles) (reviewer ∷ administrator ∷ operations ∷ [])

unfoldable pub local_values_are_complete_and_unique : LocalFirmConfiguration → Checked
local_values_are_complete_and_unique c =
    refuse_if
      (is_empty c.eligible_call_directions || repeats same_direction c.eligible_call_directions)
      "eligible call directions must be nonempty and unique"
      (refuse_if
        (is_empty c.eligible_call_categories || repeats same_category c.eligible_call_categories)
        "eligible call categories must be nonempty and unique"
        (refuse_if
          (is_empty c.staff_extension_mappings
            || repeats (λ a b. a.extension == b.extension) c.staff_extension_mappings)
          "synthetic staff extension mappings must be nonempty and unique"
          (refuse_if (not (all_roles c.report_roles))
            "local report roles must contain all demo roles exactly once" (ok tt))))
