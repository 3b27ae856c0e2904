-- ===== src/Reporting/Totals.antt =====
-- How many of the calls of a report are analyzed, failed or open.
use phone_law.Prelude.{
  suc, ◌+◌, ◌<◌, String, ◌≡◌, ◌↔◌, refl, ap, ◌∙◌, subst, inl, inr, Bool, true, ◌&&◌, ◌||◌, not,
  List, [], ◌∷◌, ◌==◌, eq_iff, arith, any, all, All, select, length, Bool-cases, IsUnique, is_some,
}
use phone_law.Reporting.Sections.{ReportCallInput}
use phone_law.Reporting.Aggregate.{
  is_failed, is_analyzed, is_eligible, is_member, distinct, source_ids,
}
use phone_law.Reporting.Counting.{is_member-distinct}

-- A call that has a result: an analysis or a failure.
abbrev pub is_settled : ReportCallInput → Bool
is_settled c = is_some c.analysis || is_some c.failure

any-source_ids :
    (k : String) (calls : List ReportCallInput)
    → is_member k (source_ids calls) ≡ any (λ c. c.source_call_id == k) calls
any-source_ids k [] = refl
any-source_ids k (c ∷ rest) = ground (arith, any-source_ids k rest)

pub source_ids-IsUnique :
    (calls : List ReportCallInput)
    → IsUnique (λ c. c.source_call_id) calls
    → IsUnique (λ s. s) (source_ids calls)
source_ids-IsUnique [] u = tt
source_ids-IsUnique (c ∷ rest) u =
    (any-source_ids c.source_call_id rest ∙ u.0, source_ids-IsUnique rest u.1)

pub length-source_ids : (calls : List ReportCallInput) → length (source_ids calls) ≡ length calls
length-source_ids [] = refl
length-source_ids (c ∷ rest) = ap suc (length-source_ids rest)

pub source_ids-All_expected :
    (expected : List String) (calls : List ReportCallInput)
    → All
        (λ s. is_member s (distinct expected) ≡ true)
        (source_ids (select (is_eligible expected) calls))
source_ids-All_expected expected [] = tt
source_ids-All_expected expected (c ∷ rest) = elim (Bool-cases (is_eligible expected c)) [
  | inl e ↦
      rw e (is_member-distinct c.source_call_id expected ∙ e, source_ids-All_expected expected rest)
  | inr e ↦ rw e (source_ids-All_expected expected rest)
]

pub results-count :
    (calls : List ReportCallInput)
    → length (select is_analyzed calls)
        + length (select is_failed calls)
        + length (select (λ c. not (is_settled c)) calls)
      ≡ length calls
results-count [] = omega arith
results-count (c ∷ rest) = ground (arith, results-count rest)

pub open-count :
    (calls : List ReportCallInput)
    → (length (select (λ c. not (is_settled c)) calls) ≡ 0) ↔ (all is_settled calls ≡ true)
open-count [] = (λ h. refl, λ h. refl)
open-count (c ∷ rest) =
    (λ h. ground (arith, (open-count rest).0), λ h. ground (arith, (open-count rest).1))

any-true {ℓ} :
    {A : Type ℓ} (p : A → Bool) (xs : List A) → any p xs ≡ true → any (λ x. true) xs ≡ true
any-true p [] h = h
any-true p (x ∷ xs) h = refl

pub none-count {ℓ} :
    {A : Type ℓ} (p : A → Bool) (xs : List A)
    → (length (select p xs) ≡ 0) ↔ (all (λ x. not (p x)) xs ≡ true)
none-count p [] = (λ h. refl, λ h. refl)
none-count p (x ∷ xs) =
    (λ h. ground (arith, (none-count p xs).0), λ h. ground (arith, (none-count p xs).1))

pub none_not-count {ℓ} :
    {A : Type ℓ} (p : A → Bool) (xs : List A)
    → (length (select (λ x. not (p x)) xs) ≡ 0) ↔ (all p xs ≡ true)
none_not-count p [] = (λ h. refl, λ h. refl)
none_not-count p (x ∷ xs) =
    (λ h. ground (arith, (none_not-count p xs).0), λ h. ground (arith, (none_not-count p xs).1))

pub all-and {ℓ} :
    {A : Type ℓ} (p q : A → Bool) (xs : List A)
    → (all (λ x. p x && q x) xs ≡ true) ↔ ((all p xs ≡ true) × (all q xs ≡ true))
all-and p q [] = (λ h. (refl, refl), λ h. refl)
all-and p q (x ∷ xs) =
    (λ h. ground (arith, (all-and p q xs).0), λ h. ground (arith, (all-and p q xs).1))

all-member :
    (p : String → Bool) (s : String) (xs : List String)
    → is_member s xs ≡ true
    → all p xs ≡ true
    → p s ≡ true
all-member p s [] m h = absurd (ground arith)
all-member p s (x ∷ xs) m h = elim (Bool-cases (x == s)) [
  | inl same ↦ subst (λ y. p y ≡ true) ((eq_iff x s).0 same) (ground arith)
  | inr other ↦ all-member p s xs (ground arith) (ground arith)
]

pub all-distinct : (p : String → Bool) (xs : List String) → all p (distinct xs) ≡ all p xs
all-distinct p [] = refl
all-distinct p (x ∷ xs) = elim (Bool-cases (is_member x xs)) [
  | inr e ↦ rw e (ap (λ b. p x && b) (all-distinct p xs))
  | inl e ↦ rw e (ground (arith, all-distinct p xs, all-member p x xs))
]

pub distinct-pos : (xs : List String) → (0 < length (distinct xs)) ↔ (any (λ s. true) xs ≡ true)
distinct-pos [] = (λ h. absurd (omega arith), λ h. absurd (ground arith))
distinct-pos (x ∷ xs) = (
  λ h. refl,
  λ h. elim (Bool-cases (is_member x xs)) [
    | inr e ↦ rw e (omega arith)
    | inl e ↦ rw e ((distinct-pos xs).1 (any-true (λ t. t == x) xs e))
  ],
)
