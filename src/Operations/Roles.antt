-- ===== src/Operations/Roles.antt =====
-- What the validator of a configuration accepts.
use phone_law.Prelude.{◌≡◌, refl, ◌↔◌, true, false, ◌∷◌, ◌==◌, arith, any}
use phone_law.Prelude.Outcome.{ok}
use phone_law.Policy.{DemoRole, reviewer, administrator, operations}
use phone_law.Contracts.Validators.{is_empty}
use phone_law.Operations.Configuration.{
  LocalFirmConfiguration, local_values_are_complete_and_unique, same_role, repeats, same_direction,
  same_category,
}

-- What a valid configuration has.
pub record IsComplete (c : LocalFirmConfiguration) : Type 0 where
  pub some_direction : is_empty c.eligible_call_directions ≡ false
  pub directions : repeats same_direction c.eligible_call_directions ≡ false
  pub some_category : is_empty c.eligible_call_categories ≡ false
  pub categories : repeats same_category c.eligible_call_categories ≡ false
  pub some_extension : is_empty c.staff_extension_mappings ≡ false
  pub extensions : repeats (λ a b. a.extension == b.extension) c.staff_extension_mappings ≡ false
  pub every_role : (role : DemoRole) → any (same_role role) c.report_roles ≡ true

-- A configuration passes exactly when its directions, categories and staff extensions are there and
-- do not repeat, and every role is among the report roles.
pub local_values-IsComplete :
    (c : LocalFirmConfiguration) → (local_values_are_complete_and_unique c ≡ ok tt) ↔ IsComplete c
unfolding local_values_are_complete_and_unique
local_values-IsComplete c = (
  λ h. record {
    some_direction = ground arith;
    directions = ground arith;
    some_category = ground arith;
    categories = ground arith;
    some_extension = ground arith;
    extensions = ground arith;
    every_role = λ role. ground arith;
  },
  λ h.
      rw
        (
          h.some_direction,
          h.directions,
          h.some_category,
          h.categories,
          h.some_extension,
          h.extensions,
          h.every_role reviewer,
          h.every_role administrator,
          h.every_role operations,
        )
        refl,
)

-- Report roles that name a role twice pass whenever the roles without the repetition do: the
-- validator does not ask that each role is there exactly once.
pub local_values-repeated_role :
    (c : LocalFirmConfiguration) (role : DemoRole)
    → local_values_are_complete_and_unique c ≡ ok tt
    → local_values_are_complete_and_unique
        (record c { report_roles = role ∷ role ∷ c.report_roles })
      ≡ ok tt
local_values-repeated_role c role h =
    let good = (local_values-IsComplete c).0 h in
    (local_values-IsComplete (record c { report_roles = role ∷ role ∷ c.report_roles })).1 (record {
      some_direction = good.some_direction;
      directions = good.directions;
      some_category = good.some_category;
      categories = good.categories;
      some_extension = good.some_extension;
      extensions = good.extensions;
      every_role = λ r. ground (arith, good.every_role r);
    })
