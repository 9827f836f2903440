-- ===== src/Jobs/Usages/Recorded.antt =====
-- The hourly rows of a node after its traffic was recorded.
use marzban.Common.{
  ℕ, ◌+◌, ◌*◌, ◌≤◌, ◌≡◌, ◌⊎◌, inl, inr, refl, true, false, List, [], ◌∷◌, ◌==◌, arith, Bool-cases,
  ◌∙◌,
}
use marzban.World.{NodeUserUsage}
use marzban.Jobs.Usages.{Stat, hour_of, is_row, ensure_rows, add_row, add_rows, record_user_stats}
use marzban.Jobs.Usages.Totals.{each}
use marzban.Jobs.Usages.Hours.{rows_of, held, held-ensure_rows, Absent, ensure_rows-found}

module _ (hour node k factor : ℕ) where
  rows_of-add_row :
      (p : Stat) (rows : List NodeUserUsage)
      → rows_of hour node k (add_row factor hour node p rows) ≡ rows_of hour node k rows
  unfolding add_row
  rows_of-add_row p [] = refl
  rows_of-add_row p (r ∷ rows) = ground (arith, rows_of-add_row p rows)

  held-add_row_other :
      (p : Stat) (rows : List NodeUserUsage)
      → (p.uid == k) ≡ false
      → held hour node k (add_row factor hour node p rows) ≡ held hour node k rows
  unfolding add_row
  held-add_row_other p [] h = refl
  held-add_row_other p (r ∷ rows) h = ground (arith, held-add_row_other p rows h)

  held-add_row_none :
      (p : Stat) (rows : List NodeUserUsage)
      → rows_of hour node k rows ≡ 0
      → held hour node k (add_row factor hour node p rows) ≡ held hour node k rows
  unfolding add_row
  held-add_row_none p [] h = refl
  held-add_row_none p (r ∷ rows) h = ground (arith, held-add_row_none p rows)

  held-add_row_one :
      (p : Stat) (rows : List NodeUserUsage)
      → rows_of hour node k rows ≡ 1
      → (p.uid == k) ≡ true
      → held hour node k (add_row factor hour node p rows)
        ≡ held hour node k rows + p.value * factor
  unfolding add_row
  held-add_row_one p [] h e = cc
  held-add_row_one p (r ∷ rows) h e = elim (Bool-cases (is_row hour node k r)) [
    | inl f ↦ ground (arith, held-add_row_none p rows)
    | inr f ↦ ground (arith, held-add_row_one p rows)
  ]

  held-add_rows :
      (l : List Stat) (rows : List NodeUserUsage)
      → (rows_of hour node k rows ≡ 1) ⊎ Absent hour node k l
      → held hour node k (add_rows factor hour node l rows)
        ≡ held hour node k rows + each (λ v. v * factor) k l
  unfolding add_rows
  held-add_rows [] rows h = omega arith
  held-add_rows (p ∷ l) rows (inl o) = elim (Bool-cases (p.uid == k)) [
    | inl e ↦
        let now = held-add_row_one p rows o e in
        let later =
          held-add_rows l (add_row factor hour node p rows) (inl (rows_of-add_row p rows ∙ o)) in
        rw e (omega (arith, now, later))
    | inr e ↦
        let now = held-add_row_other p rows e in
        let later =
          held-add_rows l (add_row factor hour node p rows) (inl (rows_of-add_row p rows ∙ o)) in
        rw e (omega (arith, now, later))
  ]
  held-add_rows (p ∷ l) rows (inr (a, b)) =
      let now = held-add_row_other p rows a in
      let later = held-add_rows l (add_row factor hour node p rows) (inr b) in
      rw a (omega (arith, now, later))

  rows_of-add_rows :
      (l : List Stat) (rows : List NodeUserUsage)
      → rows_of hour node k (add_rows factor hour node l rows) ≡ rows_of hour node k rows
  unfolding add_rows
  rows_of-add_rows [] rows = refl
  rows_of-add_rows (p ∷ l) rows =
      rows_of-add_rows l (add_row factor hour node p rows) ∙ rows_of-add_row p rows

record_user_stats-eq :
    (now : ℕ) (params : List Stat) (node factor : ℕ) (rows : List NodeUserUsage)
    → record_user_stats now params node factor rows
      ≡ add_rows factor (hour_of now) node params (ensure_rows (hour_of now) node params rows)
unfolding record_user_stats
record_user_stats-eq now params node factor rows = refl

-- A table with at most one row for an hour, a node and a user still has at most one after the
-- traffic of the node was recorded, and for the hour of the clock what it holds for the user has
-- grown by the sum of the user's counters, each times the factor of the node.
pub record_user_stats-held :
    (now : ℕ) (params : List Stat) (node factor uid : ℕ) (rows : List NodeUserUsage)
    → rows_of (hour_of now) node uid rows ≤ 1
    → let after = record_user_stats now params node factor rows in
      (rows_of (hour_of now) node uid after ≤ 1)
      × (held (hour_of now) node uid after
          ≡ held (hour_of now) node uid rows + each (λ v. v * factor) uid params)
record_user_stats-held now params node factor uid rows h =
    let hour = hour_of now in
    let ensured_rows = ensure_rows hour node params rows in
    let before = held-ensure_rows hour node uid params rows in
    let same_count = rows_of-add_rows hour node uid factor params ensured_rows in
    rw (record_user_stats-eq now params node factor rows)
      (elim (ensure_rows-found hour node uid params rows h) [
        | inl o ↦ (
          omega (arith, same_count, o),
          omega (arith, before, held-add_rows hour node uid factor params ensured_rows (inl o)),
        )
        | inr (a, o) ↦ (
          omega (arith, same_count, o),
          omega (arith, before, held-add_rows hour node uid factor params ensured_rows (inr a)),
        )
      ])
