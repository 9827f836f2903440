-- ===== src/Jobs/Usages.antt =====
-- app/jobs/record_usages.py: the traffic that the cores report, charged to users, admins and hours.
-- `int(value * coefficient)` of a node is a function on numbers: the coefficient is a float.
pub mod Totals
pub mod Hours
pub mod Recorded
pub mod Owners
use marzban.Common.{
  ℕ, ◌+◌, ◌*◌, ◌/◌, Bool, true, false, not, ◌&&◌, Option, none, some, List, [], ◌∷◌, ◌++◌, ◌==◌,
  ltb, if◌then◌else◌,
}
use marzban.User.{User, second}
use marzban.World.{NodeUserUsage}
use marzban.Admins.{Admin}

-- One counter of the core, after `stat.name.split('.', 1)[0]` has given the user's id.
pub record Stat : Type 0 where
  pub uid : ℕ
  pub value : ℕ

-- A node that is connected and started: its counters, and what it charges for a value.
pub record NodeStats : Type 0 where
  pub node_id : ℕ
  pub stats : List Stat
  pub charge : ℕ → ℕ

-- `defaultdict(int)`, with `d[uid] += value`. The order is that of the first insertions.
unfoldable pub add_to : ℕ → ℕ → List Stat → List Stat
add_to uid value [] = record { uid = uid; value = value } ∷ []
add_to uid value (s ∷ l) =
    let rest = add_to uid value l in
    if s.uid == uid then record s { value = s.value + value } ∷ l else s ∷ rest

-- `get_users_stats`: the counters that are not 0, summed up by user.
unfoldable pub get_users_stats : List Stat → List Stat → List Stat
unfolding add_to
get_users_stats params [] = params
get_users_stats params (s ∷ l) =
    get_users_stats (if ltb 0 s.value then add_to s.uid s.value params else params) l

-- The inner loop over one node's parameters.
unfoldable pub charge_all : (ℕ → ℕ) → List Stat → List Stat → List Stat
unfolding add_to
charge_all charge [] usage = usage
charge_all charge (p ∷ l) usage = charge_all charge l (add_to p.uid (charge p.value) usage)

-- `users_usage`, over the nodes.
unfoldable pub users_usage : List NodeStats → List Stat → List Stat
unfolding get_users_stats charge_all
users_usage [] usage = usage
users_usage (n ∷ nodes) usage =
    users_usage nodes (charge_all n.charge (get_users_stats [] n.stats) usage)

-- `update(User).where(User.id == uid).values(…)`, executed for each entry.
unfoldable pub charge_user : ℕ → Stat → List User → List User
charge_user now s [] = []
charge_user now s (u ∷ us) =
    (if u.id == s.uid
      then record u { used_traffic = u.used_traffic + s.value; online_at = some now }
      else u)
    ∷ charge_user now s us

unfoldable pub charge_users : ℕ → List Stat → List User → List User
unfolding charge_user
charge_users now [] us = us
charge_users now (s ∷ l) us = charge_users now l (charge_user now s us)

-- `user_admin_map.get(uid)`, where an unknown user and one without an admin both give `None`.
unfoldable pub admin_of : ℕ → List User → Option ℕ
admin_of uid [] = none
admin_of uid (u ∷ us) = let rest = admin_of uid us in if u.id == uid then u.admin_id else rest

unfoldable pub admin_usage : List User → List Stat → List Stat → List Stat
unfolding admin_of add_to
admin_usage us [] usage = usage
admin_usage us (s ∷ l) usage = admin_usage us l (elim (admin_of s.uid us) [
  | none ↦ usage
  | some a ↦ if ltb 0 a then add_to a s.value usage else usage
])

unfoldable pub charge_admin : Stat → List Admin → List Admin
charge_admin s [] = []
charge_admin s (a ∷ l) =
    (if a.id == s.uid then record a { users_usage = a.users_usage + s.value } else a)
    ∷ charge_admin s l

unfoldable pub charge_admins : List Stat → List Admin → List Admin
unfolding charge_admin
charge_admins [] l = l
charge_admins (s ∷ r) l = charge_admins r (charge_admin s l)

-- The first part of `record_user_usages`, up to the per-node rows.
unfoldable pub record_user_usages :
    ℕ → List NodeStats → List User → List Admin → List User × List Admin
unfolding users_usage charge_users admin_usage charge_admins
record_user_usages now nodes us admins = elim (users_usage nodes []) [
  | [] ↦ (us, admins)
  | s ∷ l ↦ (charge_users now (s ∷ l) us, charge_admins (admin_usage us (s ∷ l) []) admins)
]

-- `datetime.fromisoformat(now.strftime('%Y-%m-%dT%H:00:00'))`
unfoldable pub hour_of : ℕ → ℕ
hour_of now = now / (3600 * second) * (3600 * second)

abbrev pub is_row : ℕ → ℕ → ℕ → NodeUserUsage → Bool
is_row created_at node_id uid r =
    r.created_at == created_at && r.node_id == node_id && r.user_id == uid

unfoldable pub has_row : ℕ → ℕ → ℕ → List NodeUserUsage → Bool
has_row created_at node_id uid [] = false
has_row created_at node_id uid (r ∷ rows) =
    let rest = has_row created_at node_id uid rows in
    if is_row created_at node_id uid r then true else rest

-- The row of the hour is made if it is not there.
unfoldable pub ensure_rows : ℕ → ℕ → List Stat → List NodeUserUsage → List NodeUserUsage
unfolding has_row
ensure_rows created_at node_id [] rows = rows
ensure_rows created_at node_id (p ∷ l) rows = ensure_rows created_at node_id l (
    if has_row created_at node_id p.uid rows
    then rows
    else rows
      ++ record { created_at = created_at; user_id = p.uid; node_id = node_id; used_traffic = 0 }
        ∷ [])

unfoldable pub add_row : ℕ → ℕ → ℕ → Stat → List NodeUserUsage → List NodeUserUsage
add_row consumption_factor created_at node_id p [] = []
add_row consumption_factor created_at node_id p (r ∷ rows) =
    (if is_row created_at node_id p.uid r
      then record r { used_traffic = r.used_traffic + p.value * consumption_factor }
      else r)
    ∷ add_row consumption_factor created_at node_id p rows

unfoldable pub add_rows : ℕ → ℕ → ℕ → List Stat → List NodeUserUsage → List NodeUserUsage
unfolding add_row
add_rows consumption_factor created_at node_id [] rows = rows
add_rows consumption_factor created_at node_id (p ∷ l) rows =
    add_rows consumption_factor created_at node_id l
      (add_row consumption_factor created_at node_id p rows)

-- The factor is a whole number, as the signature declares it.
unfoldable pub record_user_stats : ℕ → List Stat → ℕ → ℕ → List NodeUserUsage → List NodeUserUsage
unfolding hour_of ensure_rows add_rows
record_user_stats now params node_id consumption_factor rows =
    add_rows consumption_factor (hour_of now) node_id params
      (ensure_rows (hour_of now) node_id params rows)
