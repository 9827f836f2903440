-- ===== src/Positions/Reordered.antt =====
-- `reorder_hosts_v2`, `reorder_routing_rules`: the rows come back in the order of the ids given.
use marzban.Common.{
  ℕ, suc, ◌≤◌, true, false, List, [], ◌∷◌, ◌==◌, map, ◌≡◌, ◌⊎◌, refl, sym, ap, ◌∙◌, Bool-cases,
  arith, inl, inr, All,
}
use marzban.Common.Sorting.{
  times, sort_by, Ascending, sort_by-Ascending, All-sort_by, count-sort_by, Ascending-unique,
}
use marzban.World.{Result, ok, err, value_error}
use marzban.Positions.{
  Positioned, has, names_each_once, comes_before, in_order, place_at, place_all, reorder,
}
use marzban.Positions.Named.{
  Distinct, Distinct-head, Distinct-tail, names_each_once-Distinct, names_each_once-times,
  times-names_each_once, present_of_times,
}
use marzban.Positions.Ranks.{
  place_in, by_rank, by_rank-antisym, Ranked-Ascending, Distinct-Ranked, times-map, map-map, map-id,
  map_congr,
}
use marzban.Positions.Order.{comes_before_total, comes_before_trans}

module _ {A : Type 0} (P : Positioned A) where
  -- What the list of ids does to one row.
  abbrev place_row : ℕ → List ℕ → A → A
  place_row n [] a = a
  place_row n (i ∷ ids) a = place_row (suc n) ids (place_at P i n a)

  place_all-map :
      (n : ℕ) (ids : List ℕ) (rows : List A) → place_all P n ids rows ≡ map (place_row n ids) rows
  unfolding place_all
  place_all-map n [] rows = sym (map-id rows)
  place_all-map n (i ∷ ids) rows =
      place_all-map (suc n) ids (map (place_at P i n) rows)
      ∙ map-map (place_at P i n) (place_row (suc n) ids) rows

  id_of-place_at : (i n : ℕ) (a : A) → P.id_of (place_at P i n a) ≡ P.id_of a
  id_of-place_at i n a = elim (Bool-cases (P.id_of a == i)) [
    | inl e ↦ rw e (P.id_of-place a n)
    | inr e ↦ rw e refl
  ]

  id_of-place_row : (n : ℕ) (ids : List ℕ) (a : A) → P.id_of (place_row n ids a) ≡ P.id_of a
  id_of-place_row n [] a = refl
  id_of-place_row n (i ∷ ids) a =
      id_of-place_row (suc n) ids (place_at P i n a) ∙ id_of-place_at i n a

  place_row_unlisted :
      (n : ℕ) (ids : List ℕ) (a : A) → has (P.id_of a) ids ≡ false → place_row n ids a ≡ a
  place_row_unlisted n [] a h = refl
  place_row_unlisted n (i ∷ ids) a h =
      let other : (P.id_of a == i) ≡ false = ground arith in
      rw other (place_row_unlisted (suc n) ids a (ground arith))

  position_of-place_row :
      (n : ℕ) (ids : List ℕ) (a : A)
      → Distinct ids
      → has (P.id_of a) ids ≡ true
      → P.position_of (place_row n ids a) ≡ place_in n ids (P.id_of a)
  position_of-place_row n [] a d h = cc
  position_of-place_row n (i ∷ ids) a d h = elim (Bool-cases (P.id_of a == i)) [
    | inl e ↦
        let same : P.id_of a ≡ i = ground arith in
        let here : (i == P.id_of a) ≡ true = ground arith in
        let fresh : has (P.id_of (P.place a n)) ids ≡ false =
          rw (P.id_of-place a n, same) (Distinct-head i ids d) in
        rw (e, here)
          (rw (place_row_unlisted (suc n) ids (P.place a n) fresh) (P.position_of-place a n))
    | inr e ↦
        let other : (i == P.id_of a) ≡ false = ground arith in
        rw (e, other) (position_of-place_row (suc n) ids a (Distinct-tail i ids d) (ground arith))
  ]

  -- Each row stands at the rank of its id.
  abbrev At : (ℕ → ℕ) → A → Type 0
  At rank a = P.position_of a ≡ rank (P.id_of a)

  before-rank :
      (rank : ℕ → ℕ) (a b : A)
      → At rank a
      → At rank b
      → comes_before P a b ≡ true
      → by_rank rank (P.id_of a) (P.id_of b) ≡ true
  unfolding comes_before
  before-rank rank a b h k c = rw (sym h, sym k) c

  All-before :
      (rank : ℕ → ℕ) (a : A) (l : List A)
      → At rank a
      → All (At rank) l
      → All (λ b. comes_before P a b ≡ true) l
      → All (λ y. by_rank rank (P.id_of a) y ≡ true) (map P.id_of l)
  All-before rank a [] h k b = tt
  All-before rank a (x ∷ l) h k b = (before-rank rank a x h k.0 b.0, All-before rank a l h k.1 b.1)

  ids-Ascending :
      (rank : ℕ → ℕ) (l : List A)
      → All (At rank) l
      → Ascending (comes_before P) l
      → Ascending (by_rank rank) (map P.id_of l)
  ids-Ascending rank [] h s = tt
  ids-Ascending rank (x ∷ l) h s = (All-before rank x l h.0 h.1 s.0, ids-Ascending rank l h.1 s.1)

  -- The ids of a table are read in the order that the rows' ranks give.
  in_order-ranked :
      (ids : List ℕ) (rows : List A)
      → Distinct ids
      → All (At (place_in 0 ids)) rows
      → ((a : ℕ) → times a ids ≡ times a (map P.id_of rows))
      → map P.id_of (in_order P rows) ≡ ids
  unfolding in_order
  in_order-ranked ids rows d at same =
      let leq = comes_before P in
      let rank = place_in 0 ids in
      Ascending-unique (by_rank rank) (by_rank-antisym rank) (map P.id_of (sort_by leq rows)) ids
        (ids-Ascending rank (sort_by leq rows) (All-sort_by leq (At rank) rows at)
          (sort_by-Ascending leq (comes_before_total P) (comes_before_trans P) rows))
        (Ranked-Ascending rank 0 ids (Distinct-Ranked 0 ids d))
        (λ a.
          times-map P.id_of a (sort_by leq rows)
          ∙ count-sort_by leq (λ r. P.id_of r == a) rows
          ∙ sym (times-map P.id_of a rows)
          ∙ sym (same a))

  All-placed :
      (ids : List ℕ) (rows : List A)
      → Distinct ids
      → ((a : A) → has (P.id_of a) ids ≡ true → At (place_in 0 ids) (place_row 0 ids a))
      → All (λ a. has (P.id_of a) ids ≡ true) rows
      → All (At (place_in 0 ids)) (map (place_row 0 ids) rows)
  All-placed ids [] d f h = tt
  All-placed ids (a ∷ rows) d f h = (f a h.0, All-placed ids rows d f h.1)

  ids_of_placed :
      (ids : List ℕ) (rows : List A) → map P.id_of (place_all P 0 ids rows) ≡ map P.id_of rows
  ids_of_placed ids rows =
      ap (map P.id_of) (place_all-map 0 ids rows)
      ∙ map-map (place_row 0 ids) P.id_of rows
      ∙ map_congr (λ a. P.id_of (place_row 0 ids a)) P.id_of rows (id_of-place_row 0 ids)

  All-present :
      (ids : List ℕ) (rows : List A)
      → ((a : ℕ) → 1 ≤ times a (map P.id_of rows) → 1 ≤ times a ids)
      → All (λ a. has (P.id_of a) ids ≡ true) rows
  All-present ids [] h = tt
  All-present ids (a ∷ rows) h = (
    present_of_times (P.id_of a) ids (h (P.id_of a) (ground arith)),
    All-present ids rows (λ b p. h b (ground arith)),
  )

  placed_in_order :
      (ids : List ℕ) (rows : List A)
      → Distinct ids
      → ((a : ℕ) → times a ids ≡ times a (map P.id_of rows))
      → map P.id_of (in_order P (place_all P 0 ids rows)) ≡ ids
  placed_in_order ids rows d same =
      let there = All-present ids rows (λ a p. let s = same a in omega arith) in
      let placed : All (At (place_in 0 ids)) (place_all P 0 ids rows) =
        rw (place_all-map 0 ids rows) (
          All-placed ids rows d
            (λ a h.
              position_of-place_row 0 ids a d h
              ∙ ap (place_in 0 ids) (sym (id_of-place_row 0 ids a)))
            there) in
      in_order-ranked ids (place_all P 0 ids rows) d placed
        (λ a. same a ∙ ap (times a) (sym (ids_of_placed ids rows)))

  -- Where the ids of the rows differ, a list of ids that is accepted moves the rows into its order:
  -- read by position, the rows' ids are the list, and no row is lost or added.
  pub reorder-in_order :
      (ids : List ℕ) (rows after : List A)
      → Distinct (map P.id_of rows)
      → reorder P ids rows ≡ ok after
      → (map P.id_of (in_order P after) ≡ ids) × (map P.id_of after ≡ map P.id_of rows)
  unfolding reorder
  reorder-in_order ids rows after d h = elim (Bool-cases (names_each_once ids (map P.id_of rows))) [
    | inr e ↦ absurd (let g = h in ground arith)
    | inl e ↦
        let same : place_all P 0 ids rows ≡ after = ground arith in
        rw (sym same) (
          placed_in_order ids rows (names_each_once-Distinct ids (map P.id_of rows) e)
              (names_each_once-times ids (map P.id_of rows) d e),
          ids_of_placed ids rows,
        )
  ]

  -- A list of ids is accepted if it holds the id of each row once, and refused otherwise.
  abbrev Answers : List ℕ → List A → Result (List A) → Type 0
  Answers ids rows answer =
      (((a : ℕ) → times a ids ≡ times a (map P.id_of rows))
        × ((after : List A) × (answer ≡ ok after)))
      ⊎ (¬ ((a : ℕ) → times a ids ≡ times a (map P.id_of rows)) × (answer ≡ err value_error))

  -- Where the ids of the rows differ, a list that holds each of them once, in any order, is
  -- accepted, and any other list of ids is refused with a `ValueError`.
  reorder-Answers :
      (ids : List ℕ) (rows : List A)
      → Distinct (map P.id_of rows)
      → Answers ids rows (reorder P ids rows)
  unfolding reorder
  reorder-Answers ids rows d = elim (Bool-cases (names_each_once ids (map P.id_of rows))) [
    | inl e ↦
        inl (names_each_once-times ids (map P.id_of rows) d e, (place_all P 0 ids rows, rw e refl))
    | inr e ↦ inr (
      (λ same.
          let t = times-names_each_once ids (map P.id_of rows) d same in absurd (ground arith)),
      rw e refl,
    )
  ]
