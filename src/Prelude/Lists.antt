-- ===== src/Prelude/Lists.antt =====
-- Lists as the tables and sequences of the program: selection by a Boolean test, the rows that an
-- update rewrites, and predicates of every element.
use Prim.Native.Nat.{ℕ, suc, ◌+◌, ◌≤◌}
use mathlib.Core.Path.{◌≡◌, refl, ap, subst}
use mathlib.Core.Logic.{inl, inr}
use mathlib.Core.Bool.{Bool, true, false, ◌&&◌, ◌||◌, not}
use mathlib.Core.Option.{Option, none, some}
use mathlib.Core.List.{List, [], ◌∷◌, ◌++◌}
use native.Mathlib.Omega.{arith}
use phone_law.Prelude.Tests.{if◌then◌else◌, Bool-cases}

module _ {ℓ} {A : Type ℓ} where
  abbrev pub length : List A → ℕ
  length [] = 0
  length (x ∷ xs) = suc (length xs)

  -- The rows that pass the test, in order.
  abbrev pub select : (A → Bool) → List A → List A
  select p [] = []
  select p (x ∷ xs) = let rest = select p xs in if p x then x ∷ rest else rest

  -- The first row that passes the test.
  abbrev pub find : (A → Bool) → List A → Option A
  find p [] = none
  find p (x ∷ xs) = let rest = find p xs in if p x then some x else rest

  abbrev pub any : (A → Bool) → List A → Bool
  any p [] = false
  any p (x ∷ xs) = p x || any p xs

  abbrev pub all : (A → Bool) → List A → Bool
  all p [] = true
  all p (x ∷ xs) = p x && all p xs

  -- UPDATE … WHERE: every row that passes the test is rewritten.
  abbrev pub update_where : (A → Bool) → (A → A) → List A → List A
  update_where p f [] = []
  update_where p f (x ∷ xs) = (if p x then f x else x) ∷ update_where p f xs

  abbrev pub All {κ} : (A → Type κ) → List A → Type κ
  All P [] = Unit
  All P (x ∷ xs) = P x × All P xs

  -- Insertion sort, stable: ORDER BY with a test for "comes before".
  abbrev pub insert_by : (A → A → Bool) → A → List A → List A
  insert_by before x [] = x ∷ []
  insert_by before x (y ∷ ys) =
      let rest = insert_by before x ys in if before y x then y ∷ rest else x ∷ y ∷ ys

  abbrev pub order_by : (A → A → Bool) → List A → List A
  order_by before [] = []
  order_by before (x ∷ xs) = insert_by before x (order_by before xs)

module _ {ℓ} {A : Type ℓ} where
  pub length-append : (xs ys : List A) → length (xs ++ ys) ≡ length xs + length ys
  length-append [] ys = omega arith
  length-append (x ∷ xs) ys = omega (arith, length-append xs ys)

  pub length-select-le : (p : A → Bool) (xs : List A) → length (select p xs) ≤ length xs
  length-select-le p [] = omega arith
  length-select-le p (x ∷ xs) = ground (arith, length-select-le p xs)

  pub select-append :
      (p : A → Bool) (xs ys : List A) → select p (xs ++ ys) ≡ select p xs ++ select p ys
  select-append p [] ys = refl
  select-append p (x ∷ xs) ys = ground (arith, select-append p xs ys)

  -- No row passes the test when `any` says so.
  pub find-none : (p : A → Bool) (xs : List A) → any p xs ≡ false → find p xs ≡ none
  find-none p [] h = refl
  find-none p (x ∷ xs) h = ground (arith, find-none p xs)

  -- A search that leaves out the hidden elements finds none where all that could be found are hidden.
  pub find-none_hidden :
      (p q hidden : A → Bool) (xs : List A)
      → ((x : A) → p x ≡ true → (q x ≡ true) × (hidden x ≡ false))
      → all (λ x. not (q x) || hidden x) xs ≡ true
      → find p xs ≡ none
  find-none_hidden p q hidden [] seen h = refl
  find-none_hidden p q hidden (x ∷ xs) seen h =
      ground (arith, seen x, find-none_hidden p q hidden xs seen)

  pub any-find : (p : A → Bool) (xs : List A) {x : A} → find p xs ≡ some x → any p xs ≡ true
  any-find p [] h = ground arith
  any-find p (y ∷ ys) {x} h = ground (arith, any-find p ys {x = x})

  -- What `find` returns passes the test.
  pub find-passes : (p : A → Bool) (xs : List A) {x : A} → find p xs ≡ some x → p x ≡ true
  find-passes p [] h = ground arith
  find-passes p (y ∷ ys) {x} h = ground (arith, find-passes p ys {x = x})

  pub update_where-none :
      (p : A → Bool) (f : A → A) (xs : List A) → any p xs ≡ false → update_where p f xs ≡ xs
  update_where-none p f [] h = refl
  update_where-none p f (x ∷ xs) h = ground (arith, update_where-none p f xs)

  pub length-update_where :
      (p : A → Bool) (f : A → A) (xs : List A) → length (update_where p f xs) ≡ length xs
  length-update_where p f [] = refl
  length-update_where p f (x ∷ xs) = ap suc (length-update_where p f xs)

  pub select-update_where :
      (p q : A → Bool) (f : A → A)
      → ((x : A) → p (f x) ≡ p x)
      → (xs : List A) → select p (update_where q f xs) ≡ update_where q f (select p xs)
  select-update_where p q f same [] = refl
  select-update_where p q f same (x ∷ xs) =
      ground (arith, same x, select-update_where p q f same xs)

  -- An update that does not touch the key of a search changes what the search finds, if at all.
  pub find-update_where :
      (p q : A → Bool) (f : A → A)
      → ((x : A) → p (f x) ≡ p x)
      → (xs : List A) {x : A} → find p xs ≡ some x
      → find p (update_where q f xs) ≡ some (if q x then f x else x)
  find-update_where p q f same [] e = absurd (ground arith)
  find-update_where p q f same (y ∷ ys) {x} e =
      ground (arith, same y, find-update_where p q f same ys {x = x})

module _ {ℓ κ} {A : Type ℓ} (P : A → Type κ) where
  pub All-append : (xs ys : List A) → All P xs → All P ys → All P (xs ++ ys)
  All-append [] ys hx hy = hy
  All-append (x ∷ xs) ys hx hy = (hx.0, All-append xs ys hx.1 hy)

  pub All-select : (p : A → Bool) (xs : List A) → All P xs → All P (select p xs)
  All-select p [] h = tt
  All-select p (x ∷ xs) h = elim (Bool-cases (p x)) [
    | inl e ↦ rw e (h.0, All-select p xs h.1)
    | inr e ↦ rw e (All-select p xs h.1)
  ]

  -- A row that `find` returns has what every row has.
  pub find-All : (p : A → Bool) (xs : List A) {x : A} → All P xs → find p xs ≡ some x → P x
  find-All p [] h e = absurd (ground arith)
  find-All p (y ∷ ys) {x} h e = elim (Bool-cases (p y)) [
    | inl t ↦ let found : some y ≡ some x = rw t at e in let same : y ≡ x = cc in subst P same h.0
    | inr f ↦ find-All p ys {x = x} h.1 (rw f at e)
  ]

  -- So has a row that `find` returns among those that another test selects.
  pub find-All-select :
      (p q : A → Bool) (xs : List A) {x : A}
      → find p xs ≡ some x
      → q x ≡ true
      → All P (select q xs)
      → P x
  find-All-select p q [] e t h = absurd (ground arith)
  find-All-select p q (y ∷ ys) {x} e t h = elim (Bool-cases (p y)) [
    | inl here ↦
        let found : some y ≡ some x = rw here at e in
        let same : y ≡ x = cc in
        let passes : q y ≡ true = rw same t in subst P same (rw passes at h).0
    | inr later ↦ elim (Bool-cases (q y)) [
      | inl e' ↦ find-All-select p q ys {x = x} (rw later at e) t (rw e' at h).1
      | inr e' ↦ find-All-select p q ys {x = x} (rw later at e) t (rw e' at h)
    ]
  ]

module _ {ℓ κ μ} {A : Type ℓ} (P : A → Type κ) (Q : A → Type μ) where
  pub All-map : ((x : A) → P x → Q x) → (xs : List A) → All P xs → All Q xs
  All-map f [] h = tt
  All-map f (x ∷ xs) h = (f x h.0, All-map f xs h.1)

module _ {ℓ} {A : Type ℓ} where
  pub any-or-left :
      (p q : A → Bool) (xs : List A) → any (λ x. p x || q x) xs ≡ false → any p xs ≡ false
  any-or-left p q [] h = refl
  any-or-left p q (x ∷ xs) h = ground (arith, any-or-left p q xs)

  pub any-or-right :
      (p q : A → Bool) (xs : List A) → any (λ x. p x || q x) xs ≡ false → any q xs ≡ false
  any-or-right p q [] h = refl
  any-or-right p q (x ∷ xs) h = ground (arith, any-or-right p q xs)

  pub any-append_right : (p : A → Bool) (xs ys : List A) → any p ys ≡ true → any p (xs ++ ys) ≡ true
  any-append_right p [] ys h = h
  any-append_right p (x ∷ xs) ys h = rw (any-append_right p xs ys h) (ground arith)

  pub All-append_right {κ} : (P : A → Type κ) (xs ys : List A) → All P (xs ++ ys) → All P ys
  All-append_right P [] ys h = h
  All-append_right P (x ∷ xs) ys h = All-append_right P xs ys h.1

  pub select-none : (p : A → Bool) (xs : List A) → any p xs ≡ false → select p xs ≡ []
  select-none p [] h = refl
  select-none p (x ∷ xs) h = ground (arith, select-none p xs)
