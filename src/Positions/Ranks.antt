-- ===== src/Positions/Ranks.antt =====
-- The rank of an id in a list of ids, as an order, and maps over rows.
use marzban.Common.{
  ℕ, suc, ◌≤◌, Bool, true, false, ◌&&◌, ◌||◌, List, [], ◌∷◌, ◌==◌, ltb, leb, if◌then◌else◌, map,
  ◌≡◌, refl, ap, arith, All, count,
}
use marzban.Common.Sorting.{times, Ascending}
use marzban.Positions.{has}
use marzban.Positions.Named.{Distinct, Distinct-head, Distinct-tail}

-- Where a list holds an id, counted from a number on.
abbrev pub place_in : ℕ → List ℕ → ℕ → ℕ
place_in n [] a = n
place_in n (i ∷ ids) a = let rest = place_in (suc n) ids a in if i == a then n else rest

-- `n`, `n + 1`, ... are the ranks of a list's elements.
abbrev pub Ranked : (ℕ → ℕ) → ℕ → List ℕ → Type 0
Ranked rank n [] = Unit
Ranked rank n (x ∷ l) = (rank x ≡ n) × Ranked rank (suc n) l

abbrev pub by_rank : (ℕ → ℕ) → ℕ → ℕ → Bool
by_rank rank a b = ltb (rank a) (rank b) || ((rank a == rank b) && leb a b)

pub by_rank-antisym :
    (rank : ℕ → ℕ) (x y : ℕ) → by_rank rank x y ≡ true → by_rank rank y x ≡ true → x ≡ y
by_rank-antisym rank x y h k = ground arith

Ranked-All :
    (rank : ℕ → ℕ) (x n m : ℕ) (l : List ℕ)
    → rank x ≡ n
    → suc n ≤ m
    → Ranked rank m l
    → All (λ y. by_rank rank x y ≡ true) l
Ranked-All rank x n m [] e le h = tt
Ranked-All rank x n m (y ∷ l) e le h =
    let first = h.0 in (ground arith, Ranked-All rank x n (suc m) l e (omega arith) h.1)

pub Ranked-Ascending :
    (rank : ℕ → ℕ) (n : ℕ) (l : List ℕ) → Ranked rank n l → Ascending (by_rank rank) l
Ranked-Ascending rank n [] h = tt
Ranked-Ascending rank n (x ∷ l) h =
    (Ranked-All rank x n (suc n) l h.0 (omega arith) h.1, Ranked-Ascending rank (suc n) l h.1)

-- Ranks after a first id that does not come again.
Ranked-later :
    (n m i : ℕ) (ids l : List ℕ)
    → has i l ≡ false
    → Ranked (place_in (suc n) ids) m l
    → Ranked (place_in n (i ∷ ids)) m l
Ranked-later n m i ids [] h r = tt
Ranked-later n m i ids (x ∷ l) h r =
    let first = r.0 in
    let other : (i == x) ≡ false = ground arith in
    (rw other first, Ranked-later n (suc m) i ids l (ground arith) r.1)

pub Distinct-Ranked : (n : ℕ) (ids : List ℕ) → Distinct ids → Ranked (place_in n ids) n ids
Distinct-Ranked n [] h = tt
Distinct-Ranked n (i ∷ ids) h = (
  ground arith,
  Ranked-later n (suc n) i ids ids (Distinct-head i ids h)
      (Distinct-Ranked (suc n) ids (Distinct-tail i ids h)),
)

pub times-map :
    {A : Type 0} (f : A → ℕ) (a : ℕ) (l : List A) → times a (map f l) ≡ count (λ r. f r == a) l
times-map f a [] = refl
times-map f a (x ∷ l) = ground (arith, times-map f a l)

pub map-map :
    {A B C : Type 0} (f : A → B) (g : B → C) (l : List A) → map g (map f l) ≡ map (λ x. g (f x)) l
map-map f g [] = refl
map-map f g (x ∷ l) = ap (λ t. g (f x) ∷ t) (map-map f g l)

pub map-id : {A : Type 0} (l : List A) → map (λ x. x) l ≡ l
map-id [] = refl
map-id (x ∷ l) = ap (λ t. x ∷ t) (map-id l)

pub map_congr :
    {A B : Type 0} (f g : A → B) (l : List A) → ((x : A) → f x ≡ g x) → map f l ≡ map g l
map_congr f g [] e = refl
map_congr f g (x ∷ l) e = rw (e x, map_congr f g l e) refl
