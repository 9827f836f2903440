-- ===== src/Jobs/ResetUsage.antt =====
-- app/jobs/reset_user_data_usage.py
pub mod Renewal
use marzban.Common.{ℕ, Bool, true, false, ◌&&◌, none, List, if◌then◌else◌}
use marzban.Common.Int.{pos, leb_ℤ}
use marzban.User.{
  User, active, limited, UserDataLimitResetStrategy, no_reset, day, week, month, year,
}
use marzban.User.Usage.{last_traffic_reset_time, days_between}
use marzban.World.{World, CoreCall, call}
use marzban.Users.Reset.{reset_user_data_usage}
use marzban.Jobs.Loop.{Round, Run, for_users}

-- `reset_strategy_to_days`. The query never returns a user of `no_reset`.
unfoldable pub reset_strategy_to_days : UserDataLimitResetStrategy → ℕ
reset_strategy_to_days no_reset = 0
reset_strategy_to_days day = 1
reset_strategy_to_days week = 7
reset_strategy_to_days month = 30
reset_strategy_to_days year = 365

abbrev pub is_scheduled : User → Bool
is_scheduled u =
    (elim u.status [ active ↦ true | limited ↦ true | _ ↦ false ])
    && elim u.data_limit_reset_strategy [ no_reset ↦ false | _ ↦ true ]

unfoldable pub is_due : ℕ → User → Bool
unfolding reset_strategy_to_days last_traffic_reset_time days_between
is_due now u =
    leb_ℤ (pos (reset_strategy_to_days u.data_limit_reset_strategy))
      (days_between now (last_traffic_reset_time u))

-- `dbuser` and `user` are one object, so the test after the reset reads the new status.
unfoldable pub reset_round : ℕ → User → World → Round
unfolding is_due reset_user_data_usage
reset_round now u w =
    let (u', w') = reset_user_data_usage now u w in
    let readded : World = elim u'.status [ limited ↦ call (CoreCall.add_user u.id) w' | _ ↦ w' ] in
    if is_due now u then (u', readded, none) else (u, w, none)

unfoldable pub run_resets : ℕ → List User → World → Run
unfolding for_users reset_round
run_resets now us w = for_users is_scheduled (reset_round now) us w
