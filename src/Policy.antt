-- ===== src/Policy.antt =====
-- packages/authorization/demo_policy.py: the roles of packages/contracts/report.py and what each
-- of them may do. A frozen set of permissions is a list.
pub mod Duties
mod Examples
use phone_law.Prelude.{String, Bool, true, false, List, [], ◌∷◌, any, if◌then◌else◌}

pub data DemoRole : Type 0 where
  reviewer administrator operations : DemoRole

pub record DemoPrincipal : Type 0 where
  pub principal_id : String
  pub role : DemoRole

pub data DemoPermission : Type 0 where
  view_reports append_feedback manage_failures manage_playbooks : DemoPermission
  manage_uploads view_audit use_operations publish_configuration : DemoPermission

-- Membership in a frozen set compares members of the enumeration.
abbrev pub same_permission : DemoPermission → DemoPermission → Bool
same_permission view_reports view_reports = true
same_permission append_feedback append_feedback = true
same_permission manage_failures manage_failures = true
same_permission manage_playbooks manage_playbooks = true
same_permission manage_uploads manage_uploads = true
same_permission view_audit view_audit = true
same_permission use_operations use_operations = true
same_permission publish_configuration publish_configuration = true
same_permission _ _ = false

-- `frozenset(DemoPermission)`
abbrev pub every_permission : List DemoPermission
every_permission =
    view_reports ∷ append_feedback ∷ manage_failures ∷ manage_playbooks ∷ manage_uploads
    ∷ view_audit ∷ use_operations ∷ publish_configuration ∷ []

unfoldable pub permissions_for : DemoRole → List DemoPermission
permissions_for reviewer = view_reports ∷ append_feedback ∷ []
permissions_for administrator = every_permission
permissions_for operations =
    view_reports ∷ manage_failures ∷ manage_uploads ∷ view_audit ∷ use_operations ∷ []

unfoldable pub has_permission : DemoRole → DemoPermission → Bool
unfolding permissions_for
has_permission role permission = any (same_permission permission) (permissions_for role)

abbrev publish_action : String
publish_action = "publish_configuration"

-- `_OPERATIONS_ACTIONS[1:]`
abbrev later_actions : List String
later_actions =
    "run_retention" ∷ "retry_deletion" ∷ "run_backup_restore" ∷ "view_audit"
    ∷ "preview_notification" ∷ []

unfoldable pub operations_actions : DemoRole → List String
unfolding has_permission
operations_actions role =
    if has_permission role use_operations
    then (if has_permission role publish_configuration
        then "view_configuration" ∷ publish_action ∷ later_actions
        else "view_configuration" ∷ later_actions)
    else []
