-- ===== src/Common/Lists.antt =====
-- Lists over native numbers, and the loops over a list that the program writes.
use Prim.Native.Nat.{ℕ, suc, ◌+◌, ◌-◌, ◌≤◌}
use mathlib.Core.Path.{◌≡◌, refl, ap}
use mathlib.Core.Logic.{inl, inr}
use mathlib.Core.Bool.{Bool, true, false, ◌||◌}
use mathlib.Core.List.{List, [], ◌∷◌, ◌++◌}
use mathlib.Core.Option.{Option, none, some}
use native.Mathlib.Omega.{arith}
use marzban.Common.Tests.{leb, if◌then◌else◌, Bool-cases}

module _ {ℓ} {A : Type ℓ} where
  abbrev pub length : List A → ℕ
  length [] = 0
  length (x ∷ xs) = suc (length xs)

  pub length-append : (xs ys : List A) → length (xs ++ ys) ≡ length xs + length ys
  length-append [] ys = omega arith
  length-append (x ∷ xs) ys = omega (arith, length-append xs ys)

  -- The rows that pass a test.
  abbrev pub keep : (A → Bool) → List A → List A
  keep p [] = []
  keep p (x ∷ xs) = let rest = keep p xs in if p x then x ∷ rest else rest

  -- `query.first()`
  abbrev pub first : (A → Bool) → List A → Option A
  first p [] = none
  first p (x ∷ xs) = let rest = first p xs in if p x then some x else rest

  -- The rows without the first that passes a test.
  abbrev pub drop_first : (A → Bool) → List A → List A
  drop_first p [] = []
  drop_first p (x ∷ xs) = let rest = drop_first p xs in if p x then xs else x ∷ rest

  abbrev pub count : (A → Bool) → List A → ℕ
  count p [] = 0
  count p (x ∷ xs) = if p x then suc (count p xs) else count p xs

  abbrev pub All {κ} : (A → Type κ) → List A → Type κ
  All P [] = Unit
  All P (x ∷ xs) = P x × All P xs

  abbrev pub any_of : (A → Bool) → List A → Bool
  any_of p [] = false
  any_of p (x ∷ xs) = p x || any_of p xs

  pub count-append : (p : A → Bool) (xs ys : List A) → count p (xs ++ ys) ≡ count p xs + count p ys
  count-append p [] ys = omega arith
  count-append p (x ∷ xs) ys = ground (arith, count-append p xs ys)

  pub count-keep-le : (p q : A → Bool) (xs : List A) → count p (keep q xs) ≤ count p xs
  count-keep-le p q [] = omega arith
  count-keep-le p q (x ∷ xs) = ground (arith, count-keep-le p q xs)

abbrev pub sum : List ℕ → ℕ
sum [] = 0
sum (x ∷ xs) = x + sum xs

pub sum-append : (xs ys : List ℕ) → sum (xs ++ ys) ≡ sum xs + sum ys
sum-append [] ys = omega arith
sum-append (x ∷ xs) ys = omega (arith, sum-append xs ys)

-- `sorted`, of numbers.
abbrev pub insert_sorted : ℕ → List ℕ → List ℕ
insert_sorted n [] = n ∷ []
insert_sorted n (m ∷ ms) = let rest = insert_sorted n ms in if leb n m then n ∷ m ∷ ms else m ∷ rest

unfoldable pub sorted : List ℕ → List ℕ
sorted [] = []
sorted (n ∷ ns) = insert_sorted n (sorted ns)

module _ {ℓ κ μ} {A : Type ℓ} {P : A → Type κ} {Q : A → Type μ} (f : (x : A) → P x → Q x) where
  pub All-map : (xs : List A) → All P xs → All Q xs
  All-map [] h = tt
  All-map (x ∷ xs) h = (f x h.0, All-map xs h.1)

module _ {ℓ} {A : Type ℓ} where
  pub count-drop_first-le : (p q : A → Bool) (xs : List A) → count p (drop_first q xs) ≤ count p xs
  count-drop_first-le p q [] = omega arith
  count-drop_first-le p q (x ∷ xs) = ground (arith, count-drop_first-le p q xs)

  pub count-drop_first_self :
      (p : A → Bool) (xs : List A) → count p (drop_first p xs) ≡ count p xs - 1
  count-drop_first_self p [] = omega arith
  count-drop_first_self p (x ∷ xs) = ground (arith, count-drop_first_self p xs)

  pub count_of_absent : (p : A → Bool) (xs : List A) → first p xs ≡ none → count p xs ≡ 0
  count_of_absent p [] h = refl
  count_of_absent p (x ∷ xs) h = ground (arith, count_of_absent p xs)

  pub first_holds : (p : A → Bool) (xs : List A) (x : A) → first p xs ≡ some x → p x ≡ true
  first_holds p [] x h = cc
  first_holds p (y ∷ xs) x h = ground (arith, first_holds p xs x)

  pub count_congr :
      (p q : A → Bool) → ((x : A) → p x ≡ q x) → (xs : List A) → count p xs ≡ count q xs
  count_congr p q e [] = refl
  count_congr p q e (x ∷ xs) = ground (arith, e x, count_congr p q e xs)

pub everywhere {ℓ κ} : {A : Type ℓ} (P : A → Type κ) → ((x : A) → P x) → (xs : List A) → All P xs
everywhere P f [] = tt
everywhere P f (x ∷ xs) = (f x, everywhere P f xs)

module _ {ℓ} {A : Type ℓ} where
  pub keep-append : (p : A → Bool) (xs ys : List A) → keep p (xs ++ ys) ≡ keep p xs ++ keep p ys
  keep-append p [] ys = refl
  keep-append p (x ∷ xs) ys = elim (Bool-cases (p x)) [
    | inl e ↦ rw e (ap (λ t. x ∷ t) (keep-append p xs ys))
    | inr e ↦ rw e (keep-append p xs ys)
  ]

  pub append_empty : (xs : List A) → xs ++ [] ≡ xs
  append_empty [] = refl
  append_empty (x ∷ xs) = ap (λ t. x ∷ t) (append_empty xs)
