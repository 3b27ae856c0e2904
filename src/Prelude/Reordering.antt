-- ===== src/Prelude/Reordering.antt =====
-- Lists up to order, and sorts that forget it.
use phone_law.Prelude.Tests.{Bool-cases, ◌==◌}
use phone_law.Prelude.Lists.{length, select, any, insert_by, order_by}
use phone_law.Prelude.Keys.{IsUnique}
use Prim.Native.Nat.{suc}
use Prim.Native.String.{String}
use mathlib.Core.Path.{◌≡◌, refl, ap, sym, ◌∙◌}
use mathlib.Core.Logic.{inl, inr}
use mathlib.Core.Bool.{Bool, true, false, not, ◌||◌}
use mathlib.Core.List.{List, [], ◌∷◌, map}
use native.Mathlib.Omega.{arith}
use text.Mathlib.TextEquality.{eq_iff}

-- The same elements, as often.
pub data Reordered {ℓ} {A : Type ℓ} : List A → List A → Type ℓ where
  nil : Reordered [] []
  cons : (x : A) {xs ys : List A} → Reordered xs ys → Reordered (x ∷ xs) (x ∷ ys)
  swap : (x y : A) (xs : List A) → Reordered (x ∷ y ∷ xs) (y ∷ x ∷ xs)
  trans : {xs ys zs : List A} → Reordered xs ys → Reordered ys zs → Reordered xs zs

module _ {ℓ} {A : Type ℓ} where
  pub Reordered-refl : (xs : List A) → Reordered xs xs
  Reordered-refl [] = nil
  Reordered-refl (x ∷ xs) = cons x (Reordered-refl xs)

  pub length-Reordered : {xs ys : List A} → Reordered xs ys → length xs ≡ length ys
  length-Reordered nil = refl
  length-Reordered (cons x r) = ap suc (length-Reordered r)
  length-Reordered (swap x y xs) = refl
  length-Reordered (trans r s) = length-Reordered r ∙ length-Reordered s

  pub any-Reordered : (p : A → Bool) {xs ys : List A} → Reordered xs ys → any p xs ≡ any p ys
  any-Reordered p nil = refl
  any-Reordered p (cons x r) = ap (λ b. p x || b) (any-Reordered p r)
  any-Reordered p (swap x y xs) = ground arith
  any-Reordered p (trans r s) = any-Reordered p r ∙ any-Reordered p s

  pub select-Reordered :
      (p : A → Bool) {xs ys : List A} → Reordered xs ys → Reordered (select p xs) (select p ys)
  select-Reordered p nil = nil
  select-Reordered p (cons x r) = elim (Bool-cases (p x)) [
    | inl e ↦ rw e (cons x (select-Reordered p r))
    | inr e ↦ rw e (select-Reordered p r)
  ]
  select-Reordered p (swap x y xs) = elim (Bool-cases (p x)) [
    | inl e ↦ elim (Bool-cases (p y)) [
      | inl f ↦ rw (e, f) (swap x y (select p xs))
      | inr f ↦ rw (e, f) (Reordered-refl (x ∷ select p xs))
    ]
    | inr e ↦ elim (Bool-cases (p y)) [
      | inl f ↦ rw (e, f) (Reordered-refl (y ∷ select p xs))
      | inr f ↦ rw (e, f) (Reordered-refl (select p xs))
    ]
  ]
  select-Reordered p (trans r s) = trans (select-Reordered p r) (select-Reordered p s)

  pub IsUnique-Reordered :
      (key : A → String) {xs ys : List A} → Reordered xs ys → IsUnique key xs → IsUnique key ys
  IsUnique-Reordered key nil u = u
  IsUnique-Reordered key (cons x r) u =
      (sym (any-Reordered (λ y. key y == key x) r) ∙ u.0, IsUnique-Reordered key r u.1)
  IsUnique-Reordered key (swap x y xs) (fresh, (fresh', u)) =
      (ground (arith, eq_iff (key x) (key y), eq_iff (key y) (key x)), (ground arith, u))
  IsUnique-Reordered key (trans r s) u = IsUnique-Reordered key s (IsUnique-Reordered key r u)

  pub any-select : (p q : A → Bool) (xs : List A) → any p xs ≡ false → any p (select q xs) ≡ false
  any-select p q [] h = refl
  any-select p q (x ∷ xs) h = ground (arith, any-select p q xs)

  pub IsUnique-select :
      (key : A → String) (p : A → Bool) (xs : List A) → IsUnique key xs → IsUnique key (select p xs)
  IsUnique-select key p [] u = tt
  IsUnique-select key p (x ∷ xs) u = elim (Bool-cases (p x)) [
    | inl e ↦ rw e (any-select (λ y. key y == key x) p xs u.0, IsUnique-select key p xs u.1)
    | inr e ↦ rw e (IsUnique-select key p xs u.1)
  ]

pub map-Reordered {ℓ κ} :
    {A : Type ℓ} {B : Type κ} (f : A → B) {xs ys : List A}
    → Reordered xs ys
    → Reordered (map f xs) (map f ys)
map-Reordered f nil = nil
map-Reordered f (cons x r) = cons (f x) (map-Reordered f r)
map-Reordered f (swap x y xs) = swap (f x) (f y) (map f xs)
map-Reordered f (trans r s) = trans (map-Reordered f r) (map-Reordered f s)

-- A test for "comes before" that ranks what it compares, by a key that tells the elements apart.
pub record IsRanking {ℓ} {A : Type ℓ} (before : A → A → Bool) (key : A → String) : Type ℓ where
  pub behind : (x y z : A) → before z x ≡ false → before z y ≡ true → before x y ≡ true
  pub decided : (x y : A) → (key x == key y) ≡ false → before y x ≡ not (before x y)

module _ {ℓ} {A : Type ℓ} (before : A → A → Bool) (key : A → String)
    (ranks : IsRanking before key) where
  insert_by_comm :
      (x y : A) (zs : List A)
      → (key x == key y) ≡ false
      → insert_by before x (insert_by before y zs) ≡ insert_by before y (insert_by before x zs)
  insert_by_comm x y [] apart = ground (arith, ranks.decided x y)
  insert_by_comm x y (z ∷ zs) apart =
      ground
        (arith, ranks.decided x y, ranks.behind x y z, ranks.behind y x z, insert_by_comm x y zs)

  -- The sort of elements with different keys does not depend on their order.
  pub order_by-Reordered :
      {xs ys : List A} → Reordered xs ys → IsUnique key xs → order_by before xs ≡ order_by before ys
  order_by-Reordered nil u = refl
  order_by-Reordered (cons x r) u = ap (insert_by before x) (order_by-Reordered r u.1)
  order_by-Reordered (swap x y xs) u =
      insert_by_comm x y (order_by before xs)
        (ground (arith, eq_iff (key x) (key y), eq_iff (key y) (key x)))
  order_by-Reordered (trans r s) u =
      order_by-Reordered r u ∙ order_by-Reordered s (IsUnique-Reordered key r u)
