-- ===== src/Policy/Duties.antt =====
-- Which duties the demo roles have, and that the actions offered follow the permissions held.
use phone_law.Prelude.{Bool, ◌≡◌, true, any, ◌==◌, arith, List, [], ◌∷◌, String, ◌&&◌, ◌||◌}
use phone_law.Policy.{
  DemoRole, DemoPermission, reviewer, administrator, operations, publish_configuration,
  use_operations, has_permission, operations_actions,
}

-- The actions of the operations centre that need no more than the centre itself.
abbrev pub always_offered : List String
always_offered =
    "view_configuration" ∷ "run_retention" ∷ "retry_deletion" ∷ "run_backup_restore" ∷ "view_audit"
    ∷ "preview_notification" ∷ []

-- Whatever any role may do, the administrator may do.
pub administrator-has_permission :
    (role : DemoRole) (p : DemoPermission)
    → has_permission role p ≡ true
    → has_permission administrator p ≡ true
unfolding has_permission
administrator-has_permission role p h = ground arith

or-moved : (v p rest : Bool) → (v || (p || rest)) ≡ ((v || rest) || (p && true))
or-moved v p rest = ground arith

-- What a role is offered is decided by the permissions that it has, action by action: publishing a
-- configuration exactly when it may use the operations centre and may publish, each of the other six
-- actions exactly when it may use the operations centre, and nothing else.
pub operations_actions-has_permission :
    (role : DemoRole) (action : String)
    → any (λ a. a == action) (operations_actions role) ≡ (
        has_permission role use_operations
        && (any (λ a. a == action) always_offered
            || ("publish_configuration" == action && has_permission role publish_configuration)))
unfolding operations_actions
operations_actions-has_permission reviewer action = ground arith
operations_actions-has_permission administrator action =
    or-moved ("view_configuration" == action) ("publish_configuration" == action) (
      any (λ a. a == action)
        ("run_retention" ∷ "retry_deletion" ∷ "run_backup_restore" ∷ "view_audit"
          ∷ "preview_notification" ∷ []))
operations_actions-has_permission operations action = ground arith
