-- ===== src/Users/Reset.antt =====
-- `reset_user_data_usage`, `reset_user_by_next`, `reset_all_users_data_usage`,
-- `update_user_status`, `start_user_expire`, `update_user_sub` and `set_owner` of
-- app/db/crud/users.py. Each takes the row and returns it as the commit leaves it.
pub mod Totals
use marzban.Common.{
  ℕ, ◌+◌, ◌/◌, String, not, Option, none, some, List, [], ◌∷◌, ◌++◌, ◌==◌, keep, if◌then◌else◌,
}
use marzban.Common.Int.{ℤ, pos, ◌+ℤ◌, ◌-ℤ◌}
use marzban.User.{User, NextPlan, UserStatus, active, disabled, limited, expired, on_hold, second}
use marzban.World.{World, NodeUserUsage, type_error, Result, ok, err}

-- `dbuser.node_usages.clear()`: the rows go, by the cascade on orphans.
unfoldable pub clear_node_usages : ℕ → List NodeUserUsage → List NodeUserUsage
clear_node_usages user_id = keep (λ r. not (r.user_id == user_id))

-- `UserUsageResetLogs(user=dbuser, used_traffic_at_reset=dbuser.used_traffic)`
unfoldable pub log_reset : ℕ → User → User
log_reset now u = record u {
  usage_logs =
      u.usage_logs ++ record { used_traffic_at_reset = u.used_traffic; reset_at = now } ∷ [];
}

-- `not in (UserStatus.expired or UserStatus.disabled)`: the value of the `or` is `expired`.
unfoldable pub status_after_reset : UserStatus → UserStatus
status_after_reset expired = expired
status_after_reset _ = active

unfoldable pub reset_user_data_usage : ℕ → User → World → User × World
unfolding clear_node_usages log_reset status_after_reset
reset_user_data_usage now u w = (
  record (log_reset now u) {
    used_traffic = 0;
    status = status_after_reset u.status;
    next_plan = none;
  },
  record w { node_usages = clear_node_usages u.id w.node_usages },
)

-- `plan.data_limit + (0 if plan.add_remaining_traffic else dbuser.data_limit - dbuser.used_traffic)`
-- where `None - n` is a `TypeError`.
unfoldable pub next_data_limit : User → NextPlan → Result ℤ
next_data_limit u plan =
    if plan.add_remaining_traffic then ok (pos plan.data_limit) else elim u.data_limit [
      | none ↦ err type_error
      | some l ↦ ok (pos plan.data_limit +ℤ (l -ℤ pos u.used_traffic))
    ]

-- `none` where the code returns `None`. An exception leaves the row as it was committed before.
unfoldable pub reset_user_by_next : ℕ → User → World → Result (Option (User × World))
unfolding clear_node_usages log_reset next_data_limit
reset_user_by_next now u w = elim u.next_plan [
  | none ↦ ok none
  | some plan ↦ elim (next_data_limit u plan) [
    | err e ↦ err e
    | ok l ↦ ok (
        some (
          record (log_reset now u) {
            status = active;
            data_limit = some l;
            expire = plan.expire;
            used_traffic = 0;
            next_plan = none;
          },
          record w { node_usages = clear_node_usages u.id w.node_usages },
        ))
  ]
]

-- One round of the loop of `reset_all_users_data_usage`. The cleared logs lose their user.
unfoldable pub reset_one_of_all : User → User
reset_one_of_all u = record u {
  used_traffic = 0;
  status = elim u.status [
    | on_hold ↦ on_hold
    | expired ↦ expired
    | disabled ↦ disabled
    | active ↦ active
    | limited ↦ active
  ];
  usage_logs = [];
  next_plan = none;
}

unfoldable pub update_user_status : ℕ → UserStatus → User → User
update_user_status now status u = record u { status = status; last_status_change = some now }

-- `int(now) + dbuser.on_hold_expire_duration`, where `n + None` is a `TypeError`.
unfoldable pub start_user_expire : ℕ → User → Result User
start_user_expire now u = elim u.on_hold_expire_duration [
  | none ↦ err type_error
  | some d ↦ ok (record u {
    expire = some (now / second + d);
    on_hold_expire_duration = none;
    on_hold_timeout = none;
  })
]

unfoldable pub update_user_sub : ℕ → String → User → User
update_user_sub now user_agent u = record u {
  sub_updated_at = some now;
  sub_last_user_agent = some user_agent;
}

unfoldable pub set_owner : ℕ → User → User
set_owner admin_id u = record u { admin_id = some admin_id }
