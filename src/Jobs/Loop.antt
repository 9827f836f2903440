-- ===== src/Jobs/Loop.antt =====
-- The loop of a job over the users that a query returns. A round may raise, which ends the loop:
-- what was committed before stays, and the users behind are not visited.
use marzban.Common.{
  ◌≡◌, refl, ap, Bool, true, false, Bool-cases, inl, inr, Option, none, some, List, [], ◌∷◌, ◌++◌,
  All, if◌then◌else◌,
}
use marzban.User.{User}
use marzban.World.{World, Fault}
use marzban.Table.{Rows}

abbrev pub Round : Type 0
Round = User × World × Option Fault

abbrev pub Run : Type 0
Run = List User × World × Option Fault

abbrev pub stop_or : Round → List User → (World → Run) → Run
stop_or (u, w, some e) us next = (u ∷ us, w, some e)
stop_or (u, w, none) us next = let (us', w', e) = next w in (u ∷ us', w', e)

unfoldable pub for_users : (User → Bool) → (User → World → Round) → List User → World → Run
for_users p body [] w = ([], w, none)
for_users p body (u ∷ us) w =
    stop_or (if p u then body u w else (u, w, none)) us (for_users p body us)

-- The second of two loops runs where the first has ended normally.
abbrev pub and_then : Run → (List User → World → Run) → Run
and_then (us, w, some e) next = (us, w, some e)
and_then (us, w, none) next = next us w

-- A round that was passed: it ended normally, and so does what follows it.
pub stop_or-eq :
    (r : Round) (us : List User) (next : World → Run)
    → (stop_or r us next).2 ≡ none
    → (r.2 ≡ none) × ((next r.1).2 ≡ none) × ((stop_or r us next).0 ≡ r.0 ∷ (next r.1).0)
stop_or-eq (u, w, some e) us next h = cc
stop_or-eq (u, w, none) us next h = (refl, h, refl)

-- What holds of each round that ends normally holds of each row, if the loop ends normally.
module _ (R : User → User → Type 0) (p : User → Bool) (body : User → World → Round)
    (step : (u : User) (w : World) → p u ≡ true → (body u w).2 ≡ none → R u (body u w).0)
    (skip : (u : User) → p u ≡ false → R u u) where
  pub for_users-Rows :
      (us : List User) (w : World)
      → (for_users p body us w).2 ≡ none
      → Rows R us (for_users p body us w).0
  unfolding for_users
  for_users-Rows [] w h = tt
  for_users-Rows (u ∷ us) w h =
      let round : Round = if p u then body u w else (u, w, none) in
      let (quiet, rest, e) = stop_or-eq round us (for_users p body us) h in
      rw e (first_row quiet, for_users-Rows us round.1 rest)
    where
      first_row :
          (if p u then body u w else (u, w, none)).2 ≡ none
          → R u (if p u then body u w else (u, w, none)).0
      first_row q = elim (Bool-cases (p u)) [
        | inl e ↦ rw e (step u w e (rw e at q))
        | inr e ↦ rw e (skip u e)
      ]

-- A table on which no round raises, whatever the rest of the state.
pub for_users-quiet :
    (p : User → Bool) (body : User → World → Round) (us : List User) (w : World)
    → All (λ u. p u ≡ true → (w' : World) → (body u w').2 ≡ none) us
    → (for_users p body us w).2 ≡ none
unfolding for_users
for_users-quiet p body [] w h = refl
for_users-quiet p body (u ∷ us) w h = elim (Bool-cases (p u)) [
  | inl e ↦ rw e (quiet_stop (body u w) us (h.0 e w) (for_users-quiet p body us (body u w).1 h.1))
  | inr e ↦ rw e (for_users-quiet p body us w h.1)
]
  where
    quiet_stop :
        (r : Round) (vs : List User)
        → r.2 ≡ none
        → (for_users p body us r.1).2 ≡ none
        → (stop_or r vs (for_users p body us)).2 ≡ none
    quiet_stop (v, w', some e) vs a b = cc
    quiet_stop (v, w', none) vs a b = b

-- A round that raises ends the loop: the users before it are done, it is as its round left it, and
-- the users behind it are as they were.
module _ (p : User → Bool) (body : User → World → Round) (bad : User) (rest : List User)
    (e : Fault) where
  pub for_users-stop :
      (pre : List User) (w : World)
      → (for_users p body pre w).2 ≡ none
      → p bad ≡ true
      → ((w' : World) → (body bad w').2 ≡ some e)
      → let (done, w', _) = for_users p body pre w in
        ((for_users p body (pre ++ bad ∷ rest) w).2 ≡ some e)
        × ((for_users p body (pre ++ bad ∷ rest) w).0 ≡ done ++ (body bad w').0 ∷ rest)
  unfolding for_users
  for_users-stop [] w q b f = rw b (stopped (body bad w) (f w))
    where
      stopped :
          (r : Round)
          → r.2 ≡ some e
          → ((stop_or r rest (for_users p body rest)).2 ≡ some e)
            × ((stop_or r rest (for_users p body rest)).0 ≡ r.0 ∷ rest)
      stopped (v, w', none) h = cc
      stopped (v, w', some e') h = (h, refl)
  for_users-stop (u ∷ pre) w q b f =
      let round : Round = if p u then body u w else (u, w, none) in
      passed round q (λ q'. for_users-stop pre round.1 q' b f)
    where
      loop : World → Run
      loop = for_users p body pre

      longer : World → Run
      longer = for_users p body (pre ++ bad ∷ rest)

      passed :
          (r : Round)
          → (stop_or r pre loop).2 ≡ none
          → ((loop r.1).2 ≡ none
              → ((longer r.1).2 ≡ some e)
                × ((longer r.1).0 ≡ (loop r.1).0 ++ (body bad (loop r.1).1).0 ∷ rest))
          → ((stop_or r (pre ++ bad ∷ rest) longer).2 ≡ some e)
            × ((stop_or r (pre ++ bad ∷ rest) longer).0
                ≡ (stop_or r pre loop).0 ++ (body bad (stop_or r pre loop).1).0 ∷ rest)
      passed (v, w', some e') h ih = cc
      passed (v, w', none) h ih = let (a, t) = ih h in (a, ap (λ l. v ∷ l) t)

-- What every round keeps of the rest of the state, the loop keeps.
pub for_users-inv :
    (P : World → Type 0) (p : User → Bool) (body : User → World → Round)
    → ((u : User) (w : World) → P w → P (body u w).1)
    → (us : List User) (w : World) → P w
    → P (for_users p body us w).1
unfolding for_users
for_users-inv P p body keeps [] w h = h
for_users-inv P p body keeps (u ∷ us) w h = elim (Bool-cases (p u)) [
  | inl e ↦ rw e (ended (body u w) (keeps u w h) (for_users-inv P p body keeps us (body u w).1))
  | inr e ↦ rw e (for_users-inv P p body keeps us w h)
]
  where
    ended :
        (r : Round)
        → P r.1
        → (P r.1 → P (for_users p body us r.1).1)
        → P (stop_or r us (for_users p body us)).1
    ended (v, w', some e) a b = a
    ended (v, w', none) a b = b a
