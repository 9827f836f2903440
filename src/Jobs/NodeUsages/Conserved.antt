-- ===== src/Jobs/NodeUsages/Conserved.antt =====
-- What the rows of the nodes hold together, beside what the row of the system holds.
use marzban.Common.{
  ℕ, ◌+◌, ◌≤◌, ◌≡◌, ◌∙◌, refl, true, false, List, [], ◌∷◌, ◌++◌, ◌==◌, any_of, count, arith,
  Bool-cases, inl, inr, if◌then◌else◌,
}
use marzban.Jobs.Usages.{hour_of}
use marzban.Jobs.NodeUsages.{
  Traffic, NodeUsage, System, NodeTraffic, is_hour, ensure_row, add_traffic, add_all,
  record_node_stats, record_all, ups, downs, total_up, total_down, record_node_usages,
}

abbrev pub uplinks : List NodeUsage → ℕ
uplinks [] = 0
uplinks (r ∷ rows) = r.uplink + uplinks rows

abbrev pub downlinks : List NodeUsage → ℕ
downlinks [] = 0
downlinks (r ∷ rows) = r.downlink + downlinks rows

module _ (hour : ℕ) where
  abbrev pub hours_of : ℕ → List NodeUsage → ℕ
  hours_of k rows = count (is_hour hour k) rows

  hours_of-add_traffic :
      (k node : ℕ) (p : Traffic) (rows : List NodeUsage)
      → hours_of k (add_traffic hour node p rows) ≡ hours_of k rows
  unfolding add_traffic
  hours_of-add_traffic k node p [] = refl
  hours_of-add_traffic k node p (r ∷ rows) = ground (arith, hours_of-add_traffic k node p rows)

  absent :
      (node : ℕ) (rows : List NodeUsage)
      → any_of (is_hour hour node) rows ≡ false
      → hours_of node rows ≡ 0
  absent node [] h = refl
  absent node (r ∷ rows) h = ground (arith, absent node rows)

  present :
      (node : ℕ) (rows : List NodeUsage)
      → any_of (is_hour hour node) rows ≡ true
      → 1 ≤ hours_of node rows
  present node [] h = cc
  present node (r ∷ rows) h = ground (arith, present node rows)

  none_added :
      (node : ℕ) (p : Traffic) (rows : List NodeUsage)
      → hours_of node rows ≡ 0
      → add_traffic hour node p rows ≡ rows
  unfolding add_traffic
  none_added node p [] h = refl
  none_added node p (r ∷ rows) h = ground (arith, none_added node p rows)

  one_added :
      (node : ℕ) (p : Traffic) (rows : List NodeUsage)
      → hours_of node rows ≡ 1
      → (uplinks (add_traffic hour node p rows) ≡ uplinks rows + p.up)
        × (downlinks (add_traffic hour node p rows) ≡ downlinks rows + p.down)
  unfolding add_traffic
  one_added node p [] h = absurd (ground arith)
  one_added node p (r ∷ rows) h = elim (Bool-cases (is_hour hour node r)) [
    | inl e ↦ let rest = none_added node p rows (ground arith) in ground arith
    | inr e ↦ let (a, b) = one_added node p rows (ground arith) in ground arith
  ]

  abbrev pub IsHourly : List NodeUsage → Type 0
  IsHourly rows = (k : ℕ) → hours_of k rows ≤ 1

  abbrev empty_row : ℕ → NodeUsage
  empty_row node = record { created_at = hour; node_id = node; uplink = 0; downlink = 0 }

  hours_of-append :
      (k node : ℕ) (rows : List NodeUsage)
      → hours_of k (rows ++ empty_row node ∷ []) ≡ hours_of k rows + (if node == k then 1 else 0)
  hours_of-append k node [] = ground arith
  hours_of-append k node (r ∷ rows) = ground (arith, hours_of-append k node rows)

  uplinks-append :
      (node : ℕ) (rows : List NodeUsage) → uplinks (rows ++ empty_row node ∷ []) ≡ uplinks rows
  uplinks-append node [] = omega arith
  uplinks-append node (r ∷ rows) = omega (arith, uplinks-append node rows)

  downlinks-append :
      (node : ℕ) (rows : List NodeUsage) → downlinks (rows ++ empty_row node ∷ []) ≡ downlinks rows
  downlinks-append node [] = omega arith
  downlinks-append node (r ∷ rows) = omega (arith, downlinks-append node rows)

  -- The row of the node is there, and holds what the table held.
  record Ensured (node : ℕ) (rows after : List NodeUsage) : Type 0 where
    one_row : hours_of node after ≡ 1
    hourly : IsHourly after
    same_up : uplinks after ≡ uplinks rows
    same_down : downlinks after ≡ downlinks rows

  ensure_row-Ensured :
      (node : ℕ) (rows : List NodeUsage)
      → IsHourly rows
      → Ensured node rows (ensure_row hour node rows)
  unfolding ensure_row
  ensure_row-Ensured node rows h = elim (Bool-cases (any_of (is_hour hour node) rows)) [
    | inl e ↦
        let least = present node rows e in
        let most = h node in
        rw e (record { one_row = omega arith; hourly = h; same_up = refl; same_down = refl })
    | inr e ↦ rw e (record {
      one_row = ground (arith, hours_of-append node node rows, absent node rows e);
      hourly = λ k. added k e;
      same_up = uplinks-append node rows;
      same_down = downlinks-append node rows;
    })
  ]
    where
      added :
          (k : ℕ)
          → any_of (is_hour hour node) rows ≡ false
          → hours_of k (rows ++ empty_row node ∷ []) ≤ 1
      added k e = elim (Bool-cases (node == k)) [
        | inl f ↦
            let same : node ≡ k = ground arith in
            let zero_there = absent node rows e in
            let more = hours_of-append k node rows in ground (arith, same, zero_there, more)
        | inr f ↦
            let more = hours_of-append k node rows in let most = h k in ground (arith, more, most)
      ]

  -- All the traffic of a node is added to its row.
  record Added (node : ℕ) (l : List Traffic) (rows after : List NodeUsage) : Type 0 where
    counts : (k : ℕ) → hours_of k after ≡ hours_of k rows
    up : uplinks after ≡ uplinks rows + ups l
    down : downlinks after ≡ downlinks rows + downs l

  add_all-Added :
      (node : ℕ) (l : List Traffic) (rows : List NodeUsage)
      → hours_of node rows ≡ 1
      → Added node l rows (add_all hour node l rows)
  unfolding add_all
  add_all-Added node [] rows h = record { counts = λ k. refl; up = omega arith; down = omega arith }
  add_all-Added node (p ∷ l) rows h =
      let (a, b) = one_added node p rows h in
      let rest =
        add_all-Added node l (add_traffic hour node p rows)
          (hours_of-add_traffic node node p rows ∙ h) in
      record {
        counts = λ k. rest.counts k ∙ hours_of-add_traffic k node p rows;
        up = omega (arith, a, rest.up);
        down = omega (arith, b, rest.down);
      }

-- What recording some traffic keeps and adds.
record Recorded (hour up down : ℕ) (rows after : List NodeUsage) : Type 0 where
  hourly : IsHourly hour after
  more_up : uplinks after ≡ uplinks rows + up
  more_down : downlinks after ≡ downlinks rows + down

record_node_stats-Recorded :
    (now node : ℕ) (l : List Traffic) (rows : List NodeUsage)
    → IsHourly (hour_of now) rows
    → Recorded (hour_of now) (ups l) (downs l) rows (record_node_stats now l node rows)
unfolding record_node_stats
record_node_stats-Recorded now node [] rows h = record {
  hourly = h;
  more_up = omega arith;
  more_down = omega arith;
}
record_node_stats-Recorded now node (p ∷ l) rows h =
    let there = ensure_row-Ensured (hour_of now) node rows h in
    let all =
      add_all-Added (hour_of now) node (p ∷ l) (ensure_row (hour_of now) node rows) there.one_row in
    record {
      hourly =
          λ k. let same = all.counts k in let most = there.hourly k in omega (arith, same, most);
      more_up = omega (arith, all.up, there.same_up);
      more_down = omega (arith, all.down, there.same_down);
    }

record_all-Recorded :
    (now : ℕ) (nodes : List NodeTraffic) (rows : List NodeUsage)
    → IsHourly (hour_of now) rows
    → Recorded (hour_of now) (total_up nodes) (total_down nodes) rows (record_all now nodes rows)
unfolding record_all
record_all-Recorded now [] rows h = record {
  hourly = h;
  more_up = omega arith;
  more_down = omega arith;
}
record_all-Recorded now (n ∷ nodes) rows h =
    let here = record_node_stats-Recorded now n.node_id n.params rows h in
    let rest =
      record_all-Recorded now nodes (record_node_stats now n.params n.node_id rows) here.hourly in
    record {
      hourly = rest.hourly;
      more_up = omega (arith, here.more_up, rest.more_up);
      more_down = omega (arith, here.more_down, rest.more_down);
    }

abbrev charged : List NodeTraffic → System → System
charged nodes system = record {
  uplink = system.uplink + total_up nodes;
  downlink = system.downlink + total_down nodes;
}

record_node_usages-eq :
    (now : ℕ) (nodes : List NodeTraffic) (system : System) (rows : List NodeUsage)
    → record_node_usages false now nodes (system, rows) ≡ (
        if total_up nodes + total_down nodes == 0
        then (system, rows)
        else (charged nodes system, record_all now nodes rows))
unfolding record_node_usages
record_node_usages-eq now nodes system rows = refl

-- Where a table has at most one row for each node and the hour of the clock, it still has after a
-- run that records by the hour, and the uplinks, and the downlinks, of all its rows together have
-- grown by as much as those of the row of the system.
pub record_node_usages-conserved :
    (now : ℕ) (nodes : List NodeTraffic) (system : System) (rows : List NodeUsage)
    → IsHourly (hour_of now) rows
    → let (system', rows') = record_node_usages false now nodes (system, rows) in
      (uplinks rows' + system.uplink ≡ uplinks rows + system'.uplink)
      × (downlinks rows' + system.downlink ≡ downlinks rows + system'.downlink)
      × IsHourly (hour_of now) rows'
record_node_usages-conserved now nodes system rows h =
    let step = record_node_usages-eq now nodes system rows in
    let all = record_all-Recorded now nodes rows h in
    elim (Bool-cases (total_up nodes + total_down nodes == 0)) [
      | inl e ↦ rw (step, e) (refl, refl, h)
      | inr e ↦ rw (step, e) (omega (arith, all.more_up), omega (arith, all.more_down), all.hourly)
    ]
