-- ===== src/Prelude/Keys.antt =====
-- Rows with a key that no two of them share: what an update of one row does to the others.
use phone_law.Prelude.Tests.{◌==◌, Bool-cases}
use phone_law.Prelude.Lists.{
  any, find, update_where, update_where-none, All, find-passes, find-update_where,
}
use Prim.Native.String.{String}
use mathlib.Core.Path.{◌≡◌, refl, ap, subst, sym}
use mathlib.Core.Logic.{inl, inr}
use mathlib.Core.Bool.{Bool, false}
use mathlib.Core.Option.{some}
use mathlib.Core.List.{List, [], ◌∷◌}
use native.Mathlib.Omega.{arith}
use text.Mathlib.TextEquality.{eq_iff}
use text.Mathlib.TextPositions.{eq_refl}

module _ {ℓ} {A : Type ℓ} (key : A → String) where
  abbrev pub IsUnique : List A → Type 0
  IsUnique [] = Unit
  IsUnique (x ∷ xs) = (any (λ y. key y == key x) xs ≡ false) × IsUnique xs

  -- A row that its key finds.
  pub find_own :
      (k : String) (xs : List A) {x : A}
      → find (λ y. key y == k) xs ≡ some x
      → find (λ y. key y == key x) xs ≡ some x
  find_own k xs {x} h =
      subst (λ l. find (λ y. key y == l) xs ≡ some x)
        (sym ((eq_iff (key x) k).0 (find-passes (λ y. key y == k) xs {x = x} h))) h

  pub find-update_own :
      (f : A → A) (xs : List A) {x : A}
      → ((y : A) → key (f y) ≡ key y)
      → find (λ y. key y == key x) xs ≡ some x
      → find (λ y. key y == key x) (update_where (λ y. key y == key x) f xs) ≡ some (f x)
  find-update_own f xs {x} keeps h =
      rw
        (
          find-update_where (λ y. key y == key x) (λ y. key y == key x) f
              (λ y. ap (λ k. k == key x) (keeps y)) xs {x = x} h,
          eq_refl (key x),
        )
        refl

  others :
      (x : A) (xs : List A)
      → any (λ y. key y == key x) xs ≡ false
      → All (λ r. find (λ y. key y == key r) xs ≡ some r) xs
      → (rs : List A) → any (λ y. key y == key x) rs ≡ false
      → All (λ r. find (λ y. key y == key r) xs ≡ some r) rs
      → All (λ r. find (λ y. key y == key r) (x ∷ xs) ≡ some r) rs
  others x xs fresh h [] e a = tt
  others x xs fresh h (r ∷ rs) e a = (
    ground (arith, eq_iff (key x) (key r), eq_refl (key r), a.0),
    others x xs fresh h rs (ground arith) a.1,
  )

  -- Every row is the one that its key finds.
  pub find-All_unique :
      (xs : List A) → IsUnique xs → All (λ r. find (λ y. key y == key r) xs ≡ some r) xs
  find-All_unique [] u = tt
  find-All_unique (x ∷ xs) u =
      let tail = find-All_unique xs u.1 in
      (rw (eq_refl (key x)) refl, others x xs u.0 tail xs u.0 tail)

  module _ (f : A → A) (keeps : (x : A) → key (f x) ≡ key x) where
    pub any-update_where :
        (k : String) (p : A → Bool) (xs : List A)
        → any (λ y. key y == k) (update_where p f xs) ≡ any (λ y. key y == k) xs
    any-update_where k p [] = refl
    any-update_where k p (x ∷ xs) = ground (arith, any-update_where k p xs, keeps x)

    pub update_where-IsUnique :
        (p : A → Bool) (xs : List A) → IsUnique xs → IsUnique (update_where p f xs)
    update_where-IsUnique p [] u = tt
    update_where-IsUnique p (x ∷ xs) u =
        (ground (arith, any-update_where (key x) p xs, keeps x), update_where-IsUnique p xs u.1)

  -- Of all rows the one that is found is rewritten.
  pub All-update_found {κ} :
      (P : A → Type κ) (f : A → A) (k : String) (xs : List A) {x : A}
      → IsUnique xs
      → find (λ y. key y == k) xs ≡ some x
      → P (f x)
      → All P xs
      → All P (update_where (λ y. key y == k) f xs)
  All-update_found P f k [] u found new h = tt
  All-update_found P f k (y ∷ ys) {x} u found new h = elim (Bool-cases (key y == k)) [
    | inl here ↦
        let first : some y ≡ some x = rw here at found in
        let same : y ≡ x = cc in
        let alone : any (λ z. key z == k) ys ≡ false =
          subst (λ l. any (λ z. key z == l) ys ≡ false) ((eq_iff (key y) k).0 here) u.0 in
        rw (here, update_where-none (λ z. key z == k) f ys alone)
          (subst (λ z. P (f z)) (sym same) new, h.1)
    | inr later ↦ rw later (h.0, All-update_found P f k ys {x = x} u.1 (rw later at found) new h.1)
  ]
