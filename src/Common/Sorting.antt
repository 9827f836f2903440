-- ===== src/Common/Sorting.antt =====
-- `ORDER BY`: a list sorted by a test, and when two sorted lists of numbers are the same.
use Prim.Native.Nat.{ℕ, ◌≤◌}
use mathlib.Core.Path.{◌≡◌, refl, ap, ap₂, sym, ◌∙◌}
use mathlib.Core.Logic.{◌⊎◌, inl, inr}
use mathlib.Core.Bool.{Bool, true, false}
use mathlib.Core.List.{List, [], ◌∷◌, ◌++◌}
use native.Mathlib.Omega.{arith}
use marzban.Common.Tests.{◌==◌, if◌then◌else◌, Bool-cases}
use marzban.Common.Lists.{All, All-map, count, keep}

module _ {A : Type 0} (leq : A → A → Bool) where
  abbrev pub insert_by : A → List A → List A
  insert_by x [] = x ∷ []
  insert_by x (y ∷ l) = let rest = insert_by x l in if leq x y then x ∷ y ∷ l else y ∷ rest

  unfoldable pub sort_by : List A → List A
  sort_by [] = []
  sort_by (x ∷ l) = insert_by x (sort_by l)

  abbrev pub Ascending : List A → Type 0
  Ascending [] = Unit
  Ascending (x ∷ l) = All (λ y. leq x y ≡ true) l × Ascending l

  pub All-insert_by : (P : A → Type 0) (x : A) (l : List A) → P x → All P l → All P (insert_by x l)
  All-insert_by P x [] p h = (p, tt)
  All-insert_by P x (y ∷ l) p h = elim (Bool-cases (leq x y)) [
    | inl e ↦ rw e (p, h)
    | inr e ↦ rw e (h.0, All-insert_by P x l p h.1)
  ]

  pub All-sort_by : (P : A → Type 0) (l : List A) → All P l → All P (sort_by l)
  unfolding sort_by
  All-sort_by P [] h = tt
  All-sort_by P (x ∷ l) h = All-insert_by P x (sort_by l) h.0 (All-sort_by P l h.1)

  pub count-insert_by :
      (p : A → Bool) (x : A) (l : List A) → count p (insert_by x l) ≡ count p (x ∷ l)
  count-insert_by p x [] = refl
  count-insert_by p x (y ∷ l) = ground (arith, count-insert_by p x l)

  pub count-sort_by : (p : A → Bool) (l : List A) → count p (sort_by l) ≡ count p l
  unfolding sort_by
  count-sort_by p [] = refl
  count-sort_by p (x ∷ l) = ground (arith, count-insert_by p x (sort_by l), count-sort_by p l)

  module _ (total : (x y : A) → leq x y ≡ false → leq y x ≡ true)
      (trans : (x y z : A) → leq x y ≡ true → leq y z ≡ true → leq x z ≡ true) where
    insert_by-Ascending : (x : A) (l : List A) → Ascending l → Ascending (insert_by x l)
    insert_by-Ascending x [] h = (tt, tt)
    insert_by-Ascending x (y ∷ l) h = elim (Bool-cases (leq x y)) [
      | inl e ↦ rw e ((e, All-map (λ z q. trans x y z e q) l h.0), h)
      | inr e ↦
          rw e
            (All-insert_by (λ z. leq y z ≡ true) x l (total x y e) h.0, insert_by-Ascending x l h.1)
    ]

    keep-insert_by-head :
        (p : A → Bool) (x : A) (l : List A)
        → All (λ y. leq x y ≡ true) l
        → insert_by x (keep p l) ≡ x ∷ keep p l
    keep-insert_by-head p x [] h = refl
    keep-insert_by-head p x (y ∷ l) h = elim (Bool-cases (p y)) [
      | inl e ↦ rw e (rw h.0 refl)
      | inr e ↦ rw e (keep-insert_by-head p x l h.1)
    ]

    keep-insert_by :
        (p : A → Bool) (x : A) (l : List A)
        → p x ≡ true
        → Ascending l
        → keep p (insert_by x l) ≡ insert_by x (keep p l)
    keep-insert_by p x [] e h = rw e refl
    keep-insert_by p x (y ∷ l) e h = elim (Bool-cases (leq x y)) [
      | inl d ↦
          rw (d, e)
            (sym (keep-insert_by-head p x (y ∷ l) (d, All-map (λ z q. trans x y z d q) l h.0)))
      | inr d ↦ elim (Bool-cases (p y)) [
        | inl k ↦ rw (d, k, keep-insert_by p x l e h.1) (rw d refl)
        | inr k ↦ rw (d, k) (keep-insert_by p x l e h.1)
      ]
    ]

    keep-insert_by-out :
        (p : A → Bool) (x : A) (l : List A) → p x ≡ false → keep p (insert_by x l) ≡ keep p l
    keep-insert_by-out p x [] e = rw e refl
    keep-insert_by-out p x (y ∷ l) e = elim (Bool-cases (leq x y)) [
      | inl d ↦ rw (d, e) refl
      | inr d ↦ rw d (rw (keep-insert_by-out p x l e) refl)
    ]

    pub sort_by-Ascending : (l : List A) → Ascending (sort_by l)
    unfolding sort_by
    sort_by-Ascending [] = tt
    sort_by-Ascending (x ∷ l) = insert_by-Ascending x (sort_by l) (sort_by-Ascending l)

    -- A `WHERE` before the `ORDER BY` or after it.
    pub keep-sort_by : (p : A → Bool) (l : List A) → sort_by (keep p l) ≡ keep p (sort_by l)
    unfolding sort_by
    keep-sort_by p [] = refl
    keep-sort_by p (x ∷ l) = elim (Bool-cases (p x)) [
      | inl e ↦ rw e (
          ap (insert_by x) (keep-sort_by p l)
          ∙ sym (keep-insert_by p x (sort_by l) e (sort_by-Ascending l)))
      | inr e ↦ rw e (keep-sort_by p l ∙ sym (keep-insert_by-out p x (sort_by l) e))
    ]

  insert_by-least : (x : A) (l : List A) → All (λ y. leq x y ≡ true) l → insert_by x l ≡ x ∷ l
  insert_by-least x [] h = refl
  insert_by-least x (y ∷ l) h = rw (h.0) refl

  pub sort_by-sorted : (l : List A) → Ascending l → sort_by l ≡ l
  unfolding sort_by
  sort_by-sorted [] h = refl
  sort_by-sorted (x ∷ l) h = ap (insert_by x) (sort_by-sorted l h.1) ∙ insert_by-least x l h.0

  -- A new last element.
  pub insert_by-append :
      (x n : A) (l : List A) → leq x n ≡ true → insert_by x (l ++ n ∷ []) ≡ insert_by x l ++ n ∷ []
  insert_by-append x n [] h = rw h refl
  insert_by-append x n (y ∷ l) h = elim (Bool-cases (leq x y)) [
    | inl e ↦ rw e refl
    | inr e ↦ rw e (ap (λ t. y ∷ t) (insert_by-append x n l h))
  ]

  pub sort_by-append :
      (n : A) (l : List A)
      → All (λ x. leq x n ≡ true) l
      → sort_by (l ++ n ∷ []) ≡ sort_by l ++ n ∷ []
  unfolding sort_by
  sort_by-append n [] h = refl
  sort_by-append n (x ∷ l) h =
      ap (insert_by x) (sort_by-append n l h.1) ∙ insert_by-append x n (sort_by l) h.0

-- How often a number stands in a list.
abbrev pub times : ℕ → List ℕ → ℕ
times a l = count (λ x. x == a) l

All-times : (P : ℕ → Type 0) (a : ℕ) (l : List ℕ) → All P l → 1 ≤ times a l → P a
All-times P a [] h q = absurd (omega arith)
All-times P a (x ∷ l) h q = elim (Bool-cases (x == a)) [
  | inl e ↦ let same : x ≡ a = ground arith in rw (sym same) h.0
  | inr e ↦ All-times P a l h.1 (ground arith)
]

times_tail :
    (x y a : ℕ) (xs ys : List ℕ)
    → x ≡ y
    → times a (x ∷ xs) ≡ times a (y ∷ ys)
    → times a xs ≡ times a ys
times_tail x y a xs ys e h = ground arith

module _ (leq : ℕ → ℕ → Bool) (antisym : (x y : ℕ) → leq x y ≡ true → leq y x ≡ true → x ≡ y) where
  head_le :
      (x y : ℕ) (ys : List ℕ)
      → Ascending leq (y ∷ ys)
      → 1 ≤ times x (y ∷ ys)
      → (leq y x ≡ true) ⊎ (y ≡ x)
  head_le x y ys h q = elim (Bool-cases (y == x)) [
    | inl e ↦ inr (ground arith)
    | inr e ↦ inl (All-times (λ z. leq y z ≡ true) x ys h.0 (ground arith))
  ]

  same_heads :
      (x y : ℕ) (xs ys : List ℕ)
      → Ascending leq (x ∷ xs)
      → Ascending leq (y ∷ ys)
      → ((a : ℕ) → times a (x ∷ xs) ≡ times a (y ∷ ys))
      → x ≡ y
  same_heads x y xs ys h k same = elim (head_le x y ys k (let s = same x in ground arith)) [
    | inr e ↦ sym e
    | inl e ↦ elim (head_le y x xs h (let s = same y in ground arith)) [
      | inr d ↦ d
      | inl d ↦ antisym x y d e
    ]
  ]

  pub Ascending-unique :
      (xs ys : List ℕ)
      → Ascending leq xs
      → Ascending leq ys
      → ((a : ℕ) → times a xs ≡ times a ys)
      → xs ≡ ys
  Ascending-unique [] [] h k same = refl
  Ascending-unique [] (y ∷ ys) h k same = absurd (let s = same y in ground arith)
  Ascending-unique (x ∷ xs) [] h k same = absurd (let s = same x in ground arith)
  Ascending-unique (x ∷ xs) (y ∷ ys) h k same =
      let heads : x ≡ y = same_heads x y xs ys h k same in
      ap₂ (λ a l. a ∷ l) heads
        (Ascending-unique xs ys h.1 k.1 (λ a. times_tail x y a xs ys heads (same a)))
