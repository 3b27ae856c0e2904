-- ===== src/Reporting/Newest.antt =====
-- The newest of a list of reports.
use phone_law.Prelude.{
  ℕ, ◌<◌, String, ◌≡◌, refl, Bool, true, ◌||◌, not, List, [], ◌∷◌, ◌==◌, arith, any, all, select,
  ltb, order_by, insert_by,
}
use phone_law.Reporting.Snapshots.{ReportRow, highest_version}

pub highest_version-bounds :
    (business_date : String) (bound : ℕ) (rows : List ReportRow)
    → highest_version business_date rows < bound
    → all (λ r. not (r.business_date == business_date) || ltb r.version bound) rows ≡ true
highest_version-bounds business_date bound [] h = refl
highest_version-bounds business_date bound (r ∷ rest) h =
    ground (arith, highest_version-bounds business_date bound rest)

module _ {ℓ} {A : Type ℓ} (before : A → A → Bool) (p : A → Bool) where
  all-insert_by :
      (x : A) (xs : List A) → p x ≡ true → all p xs ≡ true → all p (insert_by before x xs) ≡ true
  all-insert_by x [] h k = ground arith
  all-insert_by x (y ∷ ys) h k = ground (arith, all-insert_by x ys)

  pub all-order_by : (xs : List A) → all p xs ≡ true → all p (order_by before xs) ≡ true
  all-order_by [] h = refl
  all-order_by (x ∷ xs) h =
      all-insert_by x (order_by before xs) (ground arith) (all-order_by xs (ground arith))

module _ {ℓ} {A : Type ℓ} (before : A → A → Bool) where
  pub insert_by_first :
      (x : A) (xs : List A) → all (λ y. not (before y x)) xs ≡ true → insert_by before x xs ≡ x ∷ xs
  insert_by_first x [] h = refl
  insert_by_first x (y ∷ ys) h = ground arith

pub all-weaker {ℓ} :
    {A : Type ℓ} (p q : A → Bool)
    → ((x : A) → p x ≡ true → q x ≡ true)
    → (xs : List A) → all p xs ≡ true
    → all q xs ≡ true
all-weaker p q f [] h = h
all-weaker p q f (x ∷ xs) h = ground (arith, f x, all-weaker p q f xs)

pub all-select {ℓ} :
    {A : Type ℓ} (p q : A → Bool) (xs : List A)
    → all (λ x. not (p x) || q x) xs ≡ true
    → all q (select p xs) ≡ true
all-select p q [] h = refl
all-select p q (x ∷ xs) h = ground (arith, all-select p q xs)

pub any-weaker {ℓ} :
    {A : Type ℓ} (p q : A → Bool)
    → ((x : A) → p x ≡ true → q x ≡ true)
    → (xs : List A) → any p xs ≡ true
    → any q xs ≡ true
any-weaker p q f [] h = h
any-weaker p q f (x ∷ xs) h = ground (arith, f x, any-weaker p q f xs)
