-- ===== src/Positions/Named.antt =====
-- The check on a list of ids: it passes exactly the lists that name each row once.
use marzban.Common.{
  ℕ, ◌≤◌, true, false, List, [], ◌∷◌, ◌==◌, length, ◌≡◌, refl, sym, Bool-cases, arith, inl, inr,
}
use marzban.Common.Sorting.{times}
use marzban.Positions.{has, set_of, all_in, names_each_once}

abbrev pub Distinct : List ℕ → Type 0
Distinct l = (a : ℕ) → times a l ≤ 1

pub times_of_present : (a : ℕ) (l : List ℕ) → has a l ≡ true → 1 ≤ times a l
times_of_present a [] h = cc
times_of_present a (x ∷ l) h = ground (arith, times_of_present a l)

pub times_of_missing : (a : ℕ) (l : List ℕ) → has a l ≡ false → times a l ≡ 0
times_of_missing a [] h = refl
times_of_missing a (x ∷ l) h = ground (arith, times_of_missing a l)

pub present_of_times : (a : ℕ) (l : List ℕ) → 1 ≤ times a l → has a l ≡ true
present_of_times a l h = elim (Bool-cases (has a l)) [
  | inl e ↦ e
  | inr e ↦ let none_there = times_of_missing a l e in absurd (omega arith)
]

length-set_of-le : (l : List ℕ) → length (set_of l) ≤ length l
length-set_of-le [] = omega arith
length-set_of-le (x ∷ l) = ground (arith, length-set_of-le l)

pub lengths-Distinct : (l : List ℕ) → (length l == length (set_of l)) ≡ true → Distinct l
lengths-Distinct [] h a = omega arith
lengths-Distinct (x ∷ l) h a = elim (Bool-cases (has x l)) [
  | inl e ↦ let short = length-set_of-le l in absurd (ground arith)
  | inr e ↦
      let missing = times_of_missing x l e in
      let others = lengths-Distinct l (ground arith) a in
      elim (Bool-cases (x == a)) [ inl d ↦ ground arith | inr d ↦ ground arith ]
]

pub Distinct-tail : (x : ℕ) (l : List ℕ) → Distinct (x ∷ l) → Distinct l
Distinct-tail x l h a = let t = h a in ground arith

pub Distinct-head : (x : ℕ) (l : List ℕ) → Distinct (x ∷ l) → has x l ≡ false
Distinct-head x l h = elim (Bool-cases (has x l)) [
  | inr e ↦ e
  | inl e ↦ let t = h x in let p = times_of_present x l e in absurd (ground arith)
]

Distinct-lengths : (l : List ℕ) → Distinct l → (length l == length (set_of l)) ≡ true
Distinct-lengths [] h = refl
Distinct-lengths (x ∷ l) h =
    let fresh = Distinct-head x l h in
    let rest = Distinct-lengths l (Distinct-tail x l h) in ground arith

times-all_in : (a b : List ℕ) → all_in a b ≡ true → (x : ℕ) → 1 ≤ times x a → 1 ≤ times x b
times-all_in [] b h x p = absurd (omega arith)
times-all_in (y ∷ a) b h x p = elim (Bool-cases (y == x)) [
  | inl e ↦ let same : y ≡ x = ground arith in times_of_present x b (rw (sym same) (ground arith))
  | inr e ↦ times-all_in a b (ground arith) x (ground arith)
]

all_in-times : (a b : List ℕ) → ((x : ℕ) → 1 ≤ times x a → 1 ≤ times x b) → all_in a b ≡ true
all_in-times [] b h = refl
all_in-times (y ∷ a) b h =
    let here = present_of_times y b (h y (ground arith)) in
    let rest = all_in-times a b (λ x p. h x (ground arith)) in ground arith

pub names_each_once-Distinct :
    (ids existing : List ℕ) → names_each_once ids existing ≡ true → Distinct ids
unfolding names_each_once
names_each_once-Distinct ids existing h = lengths-Distinct ids (ground arith)

pub names_each_once-times :
    (ids existing : List ℕ)
    → Distinct existing
    → names_each_once ids existing ≡ true
    → (a : ℕ) → times a ids ≡ times a existing
unfolding names_each_once
names_each_once-times ids existing d h a =
    let few = lengths-Distinct ids (ground arith) a in
    let few_existing = d a in
    let there = times-all_in ids existing (ground arith) a in
    let back = times-all_in existing ids (ground arith) a in ground arith

pub times-names_each_once :
    (ids existing : List ℕ)
    → Distinct existing
    → ((a : ℕ) → times a ids ≡ times a existing)
    → names_each_once ids existing ≡ true
unfolding names_each_once
times-names_each_once ids existing d same =
    let few = Distinct-lengths ids (λ a. let s = same a in let e = d a in omega arith) in
    let there = all_in-times ids existing (λ x p. let s = same x in omega arith) in
    let back = all_in-times existing ids (λ x p. let s = same x in omega arith) in ground arith
