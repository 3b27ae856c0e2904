-- ===== src/Reporting/Counting.antt =====
-- The sets of texts that the reconciliation counts.
use phone_law.Prelude.{
  ℕ, ◌+◌, String, ◌≡◌, refl, ap, ◌∙◌, inl, inr, Bool, true, false, not, List, [], ◌∷◌, ◌==◌, eq_iff,
  arith, All, select, length, Bool-cases, if◌then◌else◌, IsUnique,
}
use phone_law.Reporting.Aggregate.{distinct, is_member, difference}

pub is_member-distinct :
    (s : String) (xs : List String) → is_member s (distinct xs) ≡ is_member s xs
is_member-distinct s [] = refl
is_member-distinct s (x ∷ xs) =
    ground (arith, is_member-distinct s xs, is_member-distinct x xs, eq_iff x s)

pub distinct-IsUnique : (xs : List String) → IsUnique (λ s. s) (distinct xs)
distinct-IsUnique [] = tt
distinct-IsUnique (x ∷ xs) = elim (Bool-cases (is_member x xs)) [
  | inl e ↦ rw e (distinct-IsUnique xs)
  | inr e ↦ rw e (is_member-distinct x xs ∙ e, distinct-IsUnique xs)
]

-- Texts that differ are all distinct.
pub distinct_of-IsUnique : (xs : List String) → IsUnique (λ s. s) xs → distinct xs ≡ xs
distinct_of-IsUnique [] u = refl
distinct_of-IsUnique (x ∷ xs) u = rw (u.0, distinct_of-IsUnique xs u.1) refl

-- A member of a set is counted once.
length-select_member :
    (s : String) (set : List String)
    → IsUnique (λ x. x) set
    → length (select (λ x. x == s) set) ≡ (if is_member s set then 1 else 0)
length-select_member s [] u = refl
length-select_member s (x ∷ set) u = ground (arith, length-select_member s set u.1, eq_iff x s)

length-select_or :
    (s : String) (others set : List String)
    → is_member s others ≡ false
    → length (select (λ x. is_member x (s ∷ others)) set)
      ≡ length (select (λ x. x == s) set) + length (select (λ x. is_member x others) set)
length-select_or s others [] fresh = omega arith
length-select_or s others (x ∷ set) fresh =
    ground (arith, length-select_or s others set fresh, eq_iff x s, eq_iff s x)

-- The part of a set that lies in another one is as large as that one, if it contains it.
pub length-subset :
    (part set : List String)
    → IsUnique (λ x. x) part
    → IsUnique (λ x. x) set
    → All (λ s. is_member s set ≡ true) part
    → length (select (λ x. is_member x part) set) ≡ length part
length-subset [] set u v h = length_none set
  where
    length_none : (xs : List String) → length (select (λ x. is_member x []) xs) ≡ 0
    length_none [] = refl
    length_none (x ∷ xs) = length_none xs
length-subset (s ∷ part) set u v h =
    length-select_or s part set u.0
    ∙ omega (
      arith,
      length-select_member s set v,
      length-subset part set u.1 v h.1,
      ap {B = ℕ} (λ b. if b then 1 else 0) h.0,
    )

pub length-select-not {ℓ} :
    {A : Type ℓ} (p : A → Bool) (xs : List A)
    → length (select p xs) + length (select (λ x. not (p x)) xs) ≡ length xs
length-select-not p [] = omega arith
length-select-not p (x ∷ xs) = ground (arith, length-select-not p xs)

-- Of a set that contains another one, the difference is what is left.
pub length-difference :
    (part set : List String)
    → IsUnique (λ x. x) part
    → IsUnique (λ x. x) set
    → All (λ s. is_member s set ≡ true) part
    → length part + length (difference set part) ≡ length set
length-difference part set u v h =
    omega (arith, length-subset part set u v h, length-select-not (λ x. is_member x part) set)
