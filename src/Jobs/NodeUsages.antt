-- ===== src/Jobs/NodeUsages.antt =====
-- app/jobs/record_usages.py: the traffic of the outbounds of the nodes, in all and by the hour.
pub mod Conserved
use marzban.Common.{
  ℕ, ◌+◌, String, Bool, true, false, ◌&&◌, List, [], ◌∷◌, ◌++◌, ◌==◌, any_of, ltb, str_eq, sum,
  if◌then◌else◌,
}
use marzban.Jobs.Usages.{hour_of}

-- A counter of an outbound, as the API gives it.
pub record OutboundStat : Type 0 where
  pub link : String
  pub value : ℕ

pub record Traffic : Type 0 where
  pub up : ℕ
  pub down : ℕ

-- A row of `NodeUsage`.
pub record NodeUsage : Type 0 where
  pub created_at : ℕ
  pub node_id : ℕ
  pub uplink : ℕ
  pub downlink : ℕ

-- The row of `System`.
pub record System : Type 0 where
  pub uplink : ℕ
  pub downlink : ℕ

-- The counters that are not 0.
unfoldable pub get_outbounds_stats : List OutboundStat → List Traffic
get_outbounds_stats [] = []
get_outbounds_stats (s ∷ l) =
    let rest = get_outbounds_stats l in
    let one : Traffic =
      if str_eq s.link "uplink"
      then record { up = s.value; down = 0 }
      else record { up = 0; down = s.value } in
    if ltb 0 s.value then one ∷ rest else rest

abbrev pub is_hour : ℕ → ℕ → NodeUsage → Bool
is_hour created_at node_id r = r.node_id == node_id && r.created_at == created_at

unfoldable pub ensure_row : ℕ → ℕ → List NodeUsage → List NodeUsage
ensure_row created_at node_id rows =
    if any_of (is_hour created_at node_id) rows
    then rows
    else rows
      ++ record { created_at = created_at; node_id = node_id; uplink = 0; downlink = 0 } ∷ []

-- `update(NodeUsage)`, for one of the parameters.
unfoldable pub add_traffic : ℕ → ℕ → Traffic → List NodeUsage → List NodeUsage
add_traffic created_at node_id p [] = []
add_traffic created_at node_id p (r ∷ rows) =
    (if is_hour created_at node_id r
      then record r { uplink = r.uplink + p.up; downlink = r.downlink + p.down }
      else r)
    ∷ add_traffic created_at node_id p rows

unfoldable pub add_all : ℕ → ℕ → List Traffic → List NodeUsage → List NodeUsage
unfolding add_traffic
add_all created_at node_id [] rows = rows
add_all created_at node_id (p ∷ l) rows =
    add_all created_at node_id l (add_traffic created_at node_id p rows)

unfoldable pub record_node_stats : ℕ → List Traffic → ℕ → List NodeUsage → List NodeUsage
unfolding hour_of ensure_row add_all
record_node_stats now [] node_id rows = rows
record_node_stats now (p ∷ l) node_id rows =
    add_all (hour_of now) node_id (p ∷ l) (ensure_row (hour_of now) node_id rows)

-- A connected and started node, with its parameters.
pub record NodeTraffic : Type 0 where
  pub node_id : ℕ
  pub params : List Traffic

abbrev pub ups : List Traffic → ℕ
ups [] = 0
ups (p ∷ l) = p.up + ups l

abbrev pub downs : List Traffic → ℕ
downs [] = 0
downs (p ∷ l) = p.down + downs l

abbrev pub total_up : List NodeTraffic → ℕ
total_up [] = 0
total_up (n ∷ l) = ups n.params + total_up l

abbrev pub total_down : List NodeTraffic → ℕ
total_down [] = 0
total_down (n ∷ l) = downs n.params + total_down l

unfoldable pub record_all : ℕ → List NodeTraffic → List NodeUsage → List NodeUsage
unfolding record_node_stats
record_all now [] rows = rows
record_all now (n ∷ l) rows = record_all now l (record_node_stats now n.params n.node_id rows)

-- `disabled` is `DISABLE_RECORDING_NODE_USAGE`.
unfoldable pub record_node_usages :
    Bool → ℕ → List NodeTraffic → System × List NodeUsage → System × List NodeUsage
unfolding record_all
record_node_usages disabled now nodes (system, rows) =
    let charged : System = record {
      uplink = system.uplink + total_up nodes;
      downlink = system.downlink + total_down nodes;
    } in
    if total_up nodes + total_down nodes == 0
    then (system, rows)
    else if disabled
    then (charged, rows)
    else (charged, record_all now nodes rows)
