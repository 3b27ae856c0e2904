-- ===== src/Policy/Examples.antt =====
-- The policy at one role.
use phone_law.Prelude.{◌≡◌, true, any, ◌==◌, refl, ◌&&◌, ◌||◌}
use phone_law.Policy.{
  operations, administrator, manage_uploads, publish_configuration, use_operations, has_permission,
  permissions_for, operations_actions,
}
use phone_law.Policy.Duties.{
  always_offered, administrator-has_permission, operations_actions-has_permission,
}

administrator-has_permission_example : has_permission administrator manage_uploads ≡ true
unfolding has_permission permissions_for
administrator-has_permission_example = administrator-has_permission operations manage_uploads refl

operations_actions-has_permission_example :
    any (λ a. a == "publish_configuration") (operations_actions operations) ≡ (
      has_permission operations use_operations
      && (any (λ a. a == "publish_configuration") always_offered
          || ("publish_configuration" == "publish_configuration"
              && has_permission operations publish_configuration)))
operations_actions-has_permission_example =
    operations_actions-has_permission operations "publish_configuration"
