-- ===== src/Jobs/Usages/Hours.antt =====
-- The hourly rows of a node after the missing ones were made.
use marzban.Common.{
  ℕ, ◌+◌, ◌≤◌, ◌≡◌, ◌⊎◌, inl, inr, refl, true, false, List, [], ◌∷◌, ◌++◌, ◌==◌, count, All, arith,
  Bool-cases, if◌then◌else◌, ◌∙◌,
}
use marzban.World.{NodeUserUsage}
use marzban.Jobs.Usages.{Stat, is_row, has_row, ensure_rows}

module _ (hour node k : ℕ) where
  abbrev pub rows_of : List NodeUserUsage → ℕ
  rows_of rows = count (is_row hour node k) rows

  -- What the rows of a user hold together.
  abbrev pub held : List NodeUserUsage → ℕ
  held [] = 0
  held (r ∷ rows) = (if is_row hour node k r then r.used_traffic else 0) + held rows

  abbrev new_row : ℕ → NodeUserUsage
  new_row uid = record { created_at = hour; user_id = uid; node_id = node; used_traffic = 0 }

  held-append : (rows : List NodeUserUsage) (uid : ℕ) → held (rows ++ new_row uid ∷ []) ≡ held rows
  held-append [] uid = ground arith
  held-append (r ∷ rows) uid = ground (arith, held-append rows uid)

  rows_of-append_same :
      (rows : List NodeUserUsage) → rows_of (rows ++ new_row k ∷ []) ≡ rows_of rows + 1
  rows_of-append_same [] = ground arith
  rows_of-append_same (r ∷ rows) = ground (arith, rows_of-append_same rows)

  rows_of-append_other :
      (rows : List NodeUserUsage) (uid : ℕ)
      → (uid == k) ≡ false
      → rows_of (rows ++ new_row uid ∷ []) ≡ rows_of rows
  rows_of-append_other [] uid h = ground arith
  rows_of-append_other (r ∷ rows) uid h = ground (arith, rows_of-append_other rows uid h)

  has_row-rows_of :
      (rows : List NodeUserUsage) → has_row hour node k rows ≡ false → rows_of rows ≡ 0
  unfolding has_row
  has_row-rows_of [] h = refl
  has_row-rows_of (r ∷ rows) h = ground (arith, has_row-rows_of rows)

  rows_of-has_row : (rows : List NodeUserUsage) → has_row hour node k rows ≡ true → 1 ≤ rows_of rows
  unfolding has_row
  rows_of-has_row [] h = cc
  rows_of-has_row (r ∷ rows) h = ground (arith, rows_of-has_row rows)

  ensured : Stat → List NodeUserUsage → List NodeUserUsage
  ensured p rows = if has_row hour node p.uid rows then rows else rows ++ new_row p.uid ∷ []

  held-ensured : (p : Stat) (rows : List NodeUserUsage) → held (ensured p rows) ≡ held rows
  unfolding ensured
  held-ensured p rows = elim (Bool-cases (has_row hour node p.uid rows)) [
    | inl e ↦ rw e refl
    | inr e ↦ rw e (held-append rows p.uid)
  ]

  rows_of-ensured_other :
      (p : Stat) (rows : List NodeUserUsage)
      → (p.uid == k) ≡ false
      → rows_of (ensured p rows) ≡ rows_of rows
  unfolding ensured
  rows_of-ensured_other p rows h = elim (Bool-cases (has_row hour node p.uid rows)) [
    | inl e ↦ rw e refl
    | inr e ↦ rw e (rows_of-append_other rows p.uid h)
  ]

  rows_of-ensured_same :
      (p : Stat) (rows : List NodeUserUsage)
      → (p.uid == k) ≡ true
      → rows_of rows ≤ 1
      → rows_of (ensured p rows) ≡ 1
  unfolding ensured
  rows_of-ensured_same p rows h l =
      let e : p.uid ≡ k = ground arith in
      rw e (elim (Bool-cases (has_row hour node k rows)) [
        | inl f ↦ let least = rows_of-has_row rows f in rw f (omega arith)
        | inr f ↦
            let empty = has_row-rows_of rows f in
            let more = rows_of-append_same rows in rw f (omega arith)
      ])

  ensure_rows-cons :
      (p : Stat) (l : List Stat) (rows : List NodeUserUsage)
      → ensure_rows hour node (p ∷ l) rows ≡ ensure_rows hour node l (ensured p rows)
  unfolding ensure_rows ensured
  ensure_rows-cons p l rows = refl

  nothing : (rows : List NodeUserUsage) → held (ensure_rows hour node [] rows) ≡ held rows
  unfolding ensure_rows
  nothing rows = refl

  same : (rows : List NodeUserUsage) → rows_of (ensure_rows hour node [] rows) ≡ rows_of rows
  unfolding ensure_rows
  same rows = refl

  one : (rows : List NodeUserUsage) → rows_of rows ≡ 1 → rows_of (ensure_rows hour node [] rows) ≡ 1
  one rows h = same rows ∙ h

  kept : (p : Stat) (rows : List NodeUserUsage) → rows_of rows ≡ 1 → rows_of (ensured p rows) ≡ 1
  kept p rows h = elim (Bool-cases (p.uid == k)) [
    | inl e ↦ rows_of-ensured_same p rows e (omega arith)
    | inr e ↦ rows_of-ensured_other p rows e ∙ h
  ]

  pub held-ensure_rows :
      (l : List Stat) (rows : List NodeUserUsage) → held (ensure_rows hour node l rows) ≡ held rows
  held-ensure_rows [] rows = nothing rows
  held-ensure_rows (p ∷ l) rows =
      rw (ensure_rows-cons p l rows) (held-ensure_rows l (ensured p rows) ∙ held-ensured p rows)

  abbrev pub Absent : List Stat → Type 0
  Absent l = All (λ p. (p.uid == k) ≡ false) l

  ensure_rows-one :
      (l : List Stat) (rows : List NodeUserUsage)
      → rows_of rows ≡ 1
      → rows_of (ensure_rows hour node l rows) ≡ 1
  ensure_rows-one [] rows h = one rows h
  ensure_rows-one (p ∷ l) rows h =
      rw (ensure_rows-cons p l rows) (ensure_rows-one l (ensured p rows) (kept p rows h))

  pub ensure_rows-found :
      (l : List Stat) (rows : List NodeUserUsage)
      → rows_of rows ≤ 1
      → (rows_of (ensure_rows hour node l rows) ≡ 1)
        ⊎ (Absent l × (rows_of (ensure_rows hour node l rows) ≡ rows_of rows))
  ensure_rows-found [] rows h = inr (tt, same rows)
  ensure_rows-found (p ∷ l) rows h =
      rw (ensure_rows-cons p l rows) (elim (Bool-cases (p.uid == k)) [
        | inl e ↦ inl (ensure_rows-one l (ensured p rows) (rows_of-ensured_same p rows e h))
        | inr e ↦
            let other = rows_of-ensured_other p rows e in
            elim (ensure_rows-found l (ensured p rows) (omega arith)) [
              | inl f ↦ inl f
              | inr (a, f) ↦ inr ((e, a), f ∙ other)
            ]
      ])
