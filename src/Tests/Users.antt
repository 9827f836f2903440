-- ===== src/Tests/Users.antt =====
-- Updates, resets, creations and deletions of concrete users.
use marzban.Common.{◌+◌, All, ◌≡◌, ◌↔◌, refl, none, some, List, [], ◌∷◌, true, false, length, keep}
use marzban.Common.Int.{pos, ◌+ℤ◌, ◌-ℤ◌}
use marzban.User.{User, active, disabled, expired, Proxy, vless}
use marzban.User.Usage.{lifetime_used_traffic}
use marzban.World.{ok}
use marzban.Table.{Rows}
use marzban.Registry.{Selected, normalize_user_inbounds, user_inbounds}
use marzban.Registry.Selection.{IsNormal, normalize_user_inbounds-IsNormal}
use marzban.Users.Proxies.{UserModify}
use marzban.Users.Update.{update_user}
use marzban.Users.Reset.{reset_user_by_next}
use marzban.Users.Reset.Totals.{lifetime-reset_user_by_next}
use marzban.Users.Bulk.{
  create_proxies, disable_all_active_users, activate_all_disabled_users, autodelete_expired_users,
}
use marzban.Users.Bulk.Selection.{enabled_selection, user_inbounds-create_proxies}
use marzban.Users.Bulk.Restore.{IsRestorable, activate-disable}
use marzban.Users.Bulk.Autodelete.{
  is_gone, IsDue, without, forgotten, autodelete_expired_users-deletes,
}
use marzban.Tests.Samples.{context, world, alice, bob, carol, dave, registry, known}

-- A new limit above what is used, and an expiry in the future.
abbrev pub raise : UserModify
raise = record {
  proxies = [];
  inbounds = none;
  status = none;
  data_limit = some 500;
  expire = some 100000000;
  note = none;
  data_limit_reset_strategy = none;
  on_hold_timeout = none;
  on_hold_expire_duration = none;
  next_plan = none;
}

abbrev pub raised : User
raised = record bob {
  data_limit = some (pos 500);
  expire = some 100000000;
  edit_at = some context.now;
}

abbrev switch_off : UserModify
switch_off = record raise { status = some disabled }

abbrev switched_off : User
switched_off = record raised { status = disabled }

switches_off : update_user context registry known switch_off bob world ≡ ok (switched_off, world)
unfolding update_user
switches_off = refl

abbrev renewed : User
renewed = record dave {
  status = active;
  used_traffic = 0;
  data_limit = some (pos 180);
  usage_logs = record { used_traffic_at_reset = 120; reset_at = context.now } ∷ [];
  next_plan = none;
}

renews : reset_user_by_next context.now dave world ≡ ok (some (renewed, world))
unfolding reset_user_by_next ◌+ℤ◌ ◌-ℤ◌
renews = refl

lifetime-reset_user_by_next_example :
    (lifetime_used_traffic renewed ≡ lifetime_used_traffic dave)
    × (renewed.next_plan ≡ none)
    × (renewed.used_traffic ≡ 0)
    × (renewed.status ≡ active)
    × (length renewed.usage_logs ≡ length dave.usage_logs + 1)
lifetime-reset_user_by_next_example =
    lifetime-reset_user_by_next context.now dave renewed world world renews

abbrev picked : Selected
picked = (vless, "vless-2" ∷ "vless-1" ∷ "vless-2" ∷ []) ∷ []

abbrev normal : Selected
normal = (vless, "vless-2" ∷ "vless-1" ∷ []) ∷ []

normalizes : normalize_user_inbounds registry (vless ∷ []) picked true ≡ ok normal
unfolding normalize_user_inbounds
normalizes = refl

normalize_user_inbounds-IsNormal_example : IsNormal registry normal
normalize_user_inbounds-IsNormal_example =
    normalize_user_inbounds-IsNormal registry picked true (vless ∷ []) normal normalizes

abbrev made : List Proxy
made = record { type = vless; settings = "{}"; excluded_inbounds = "vless-1" ∷ [] } ∷ []

abbrev only_second : Selected
only_second = (vless, "vless-2" ∷ []) ∷ []

makes : create_proxies registry known only_second ((vless, "{}") ∷ []) ≡ ok made
unfolding create_proxies
makes = refl

user_inbounds-create_proxies_example :
    user_inbounds registry made ≡ enabled_selection registry only_second ((vless, "{}") ∷ [])
user_inbounds-create_proxies_example =
    user_inbounds-create_proxies registry known only_second ((vless, "{}") ∷ []) made makes

-- Carol before she was seen.
abbrev waiting : User
waiting = record carol { online_at = none }

abbrev all_three : List User
all_three = alice ∷ bob ∷ waiting ∷ []

alice-IsRestorable : IsRestorable alice
alice-IsRestorable = (λ e. cc, λ e. cc, λ e. refl)

bob-IsRestorable : IsRestorable bob
bob-IsRestorable = (λ e. cc, λ e. cc, λ e. refl)

waiting-IsRestorable : IsRestorable waiting
waiting-IsRestorable = (λ e. cc, λ e. refl, λ e. cc)

activate-disable_example :
    Rows
      (λ u v. v ≡ record u { last_status_change = v.last_status_change })
      all_three
      (activate_all_disabled_users 30 (some 1) (disable_all_active_users 20 (some 1) all_three))
activate-disable_example =
    activate-disable 20 30 (some 1) all_three
      (alice-IsRestorable, (bob-IsRestorable, (waiting-IsRestorable, tt)))

abbrev over : User
over = record bob { status = expired; last_status_change = some 0 }

deletes :
    autodelete_expired_users context.now (pos 1) false (alice ∷ over ∷ [], world)
    ≡ ok (over ∷ [], (alice ∷ [], world))
unfolding autodelete_expired_users
deletes = refl

autodelete_expired_users-deletes_example :
    (over ∷ [] ≡ keep (is_gone context.now (pos 1) false) (alice ∷ over ∷ []))
    × All
        (λ u. (is_gone context.now (pos 1) false u ≡ true) ↔ IsDue context.now (pos 1) false u)
        (alice ∷ over ∷ [])
    × (alice ∷ [] ≡ without (over ∷ []) (alice ∷ over ∷ []))
    × (world.reminders ≡ forgotten (over ∷ []) world.reminders)
    × (world.core ≡ world.core)
autodelete_expired_users-deletes_example =
    autodelete_expired_users-deletes context.now (pos 1) false (alice ∷ over ∷ []) (over ∷ [])
      (alice ∷ []) world world deletes
