-- ===== src/Jobs/Review.antt =====
-- app/jobs/review_users.py
pub mod Rounds
pub mod Table
pub mod Total
pub mod Reminders
use mathlib.Core.List.{reverse}
use marzban.Common.{
  ℕ, Bool, true, false, ◌&&◌, ◌||◌, Option, none, some, List, [], ◌∷◌, ltb, leb, first, sorted,
  if◌then◌else◌,
}
use marzban.Common.Int.{ℤ, pos, nonzero, leb_ℤ}
use marzban.User.{User, UserStatus, active, limited, expired, on_hold, data_usage, expiration_date}
use marzban.User.Usage.{is_limited, is_expired, usage_percent_reaches, calculate_expiration_days}
use marzban.World.{World, Context, CoreCall, call, Fault, value_error, ok, err}
use marzban.Reminder.{get_notification_reminder}
use marzban.Report.{
  status_change, user_data_reset_by_next, data_usage_percent_reached, expire_days_reached,
}
use marzban.Users.Reset.{reset_user_by_next, update_user_status, start_user_expire}
use marzban.Users.Update.{is_response}
use marzban.Jobs.Loop.{Round, Run, for_users, and_then}

-- `for percent in sorted(…, reverse=True): if usage_percent >= percent: …; break`
unfoldable pub reached_percent : Context → ℕ → ℤ → Option ℕ
unfolding usage_percent_reaches sorted
reached_percent c used l =
    first (usage_percent_reaches used l) (reverse (sorted c.settings.notify_reached_usage_percent))

-- `for days_left in sorted(…): if expire_days <= days_left: …; break`
unfoldable pub reached_days : Context → ℤ → Option ℕ
unfolding sorted
reached_days c expire_days =
    first (λ days. leb_ℤ expire_days (pos days)) (sorted c.settings.notify_days_left)

-- The report of a threshold, if its reminder was not sent yet.
unfoldable pub remind_percent : Context → User → ℕ → World → World × Option Fault
unfolding get_notification_reminder data_usage_percent_reached is_response
remind_percent c u percent w =
    let (found, table) =
      get_notification_reminder c.now u.id data_usage (some percent) w.reminders in
    let w' = record w { reminders = table } in
    elim found [
      | some r ↦ (w', none)
      | none ↦
          if is_response c u
          then (data_usage_percent_reached c u percent w', none)
          else (w', some value_error)
    ]

unfoldable pub remind_day : Context → User → ℕ → ℕ → World → World × Option Fault
unfolding get_notification_reminder expire_days_reached is_response
remind_day c u expire days w =
    let (found, table) =
      get_notification_reminder c.now u.id expiration_date (some days) w.reminders in
    let w' = record w { reminders = table } in
    elim found [
      | some r ↦ (w', none)
      | none ↦
          if is_response c u
          then (expire_days_reached c u expire days w', none)
          else (w', some value_error)
    ]

unfoldable pub remind_usage : Context → User → ℤ → World → World × Option Fault
unfolding reached_percent remind_percent
remind_usage c u l w = elim (reached_percent c u.used_traffic l) [
  | none ↦ (w, none)
  | some percent ↦ remind_percent c u percent w
]

unfoldable pub remind_within : Context → User → ℕ → ℤ → World → World × Option Fault
unfolding reached_days remind_day
remind_within c u expire expire_days w = elim (reached_days c expire_days) [
  | none ↦ (w, none)
  | some days ↦ remind_day c u expire days w
]

unfoldable pub remind_days : Context → User → ℕ → World → World × Option Fault
unfolding calculate_expiration_days remind_within
remind_days c u expire w = elim (calculate_expiration_days c.now expire) [
  | none ↦ (w, some value_error)
  | some expire_days ↦ remind_within c u expire expire_days w
]

-- `if user.data_limit:`
unfoldable pub remind_limit : Context → User → Option ℤ → World → World × Option Fault
unfolding remind_usage
remind_limit c u none w = (w, none)
remind_limit c u (some l) w = if nonzero l then remind_usage c u l w else (w, none)

-- `if user.expire:`, where nothing was raised above it.
unfoldable pub remind_expire :
    Context → User → Option ℕ → World × Option Fault → World × Option Fault
unfolding remind_days
remind_expire c u expire (w, some e) = (w, some e)
remind_expire c u none (w, none) = (w, none)
remind_expire c u (some e) (w, none) = if ltb 0 e then remind_days c u e w else (w, none)

unfoldable pub add_notification_reminders : Context → User → World → World × Option Fault
unfolding remind_limit remind_expire
add_notification_reminders c u w = remind_expire c u u.expire (remind_limit c u u.data_limit w)

-- `reset_user_by_next_report`: the core and the report take a `UserResponse` of the row as it was
-- committed. Without a plan `None` is passed on, of which the core does nothing and no response is
-- made.
unfoldable pub reset_user_by_next_report : Context → User → World → Round
unfolding reset_user_by_next is_response user_data_reset_by_next
reset_user_by_next_report c u w = elim (reset_user_by_next c.now u w) [
  | err e ↦ (u, w, some e)
  | ok none ↦ (u, w, some value_error)
  | ok (some (u', w')) ↦
      if is_response c u'
      then (u', user_data_reset_by_next c u'.username (call (CoreCall.update_user u'.id) w'), none)
      else (u', w', some value_error)
]

-- The removal from the core, the commit of the new status, and the report.
unfoldable pub end_user : Context → UserStatus → User → World → Round
unfolding update_user_status is_response status_change
end_user c status u w =
    let u' = update_user_status c.now status u in
    let w' = call (CoreCall.remove_user u.id) w in
    if is_response c u'
    then (u', status_change c u.username status w', none)
    else (u', w', some value_error)

-- Whether the next plan of a user takes effect.
unfoldable pub plan_fires : ℕ → User → Bool
unfolding is_limited is_expired
plan_fires now u = elim u.next_plan [
  | none ↦ false
  | some plan ↦
      (is_limited u || is_expired now u)
      && (plan.fire_on_either || (is_limited u && is_expired now u))
]

-- The round of the first loop.
unfoldable pub review_active : Context → User → World → Round
unfolding reset_user_by_next_report end_user add_notification_reminders plan_fires is_limited
    is_expired
review_active c u w =
    let reminded : Round = elim c.settings.webhook_addresses [
      | [] ↦ (u, w, none)
      | a ∷ l ↦ let (w', e) = add_notification_reminders c u w in (u, w', e)
    ] in
    if plan_fires c.now u
    then reset_user_by_next_report c u w
    else if is_limited u
    then end_user c limited u w
    else if is_expired c.now u
    then end_user c expired u w
    else reminded

abbrev pub base_time : User → ℕ
base_time u = elim u.edit_at [ none ↦ u.created_at | some t ↦ t ]

abbrev at_or_after : ℕ → Option ℕ → Bool
at_or_after t none = false
at_or_after t (some s) = leb t s

abbrev at_or_before : ℕ → Option ℕ → Bool
at_or_before t none = false
at_or_before t (some s) = leb s t

-- The user was seen since the last edit, or the time to wait is over.
unfoldable pub hold_ends : ℕ → User → Bool
hold_ends now u = at_or_after (base_time u) u.online_at || at_or_before now u.on_hold_timeout

-- The round of the second loop. The new status is committed before the expiry is computed.
unfoldable pub review_on_hold : Context → User → World → Round
unfolding hold_ends update_user_status start_user_expire is_response status_change
review_on_hold c u w =
    let u' = update_user_status c.now active u in
    let started : Round = elim (start_user_expire c.now u') [
      | err e ↦ (u', w, some e)
      | ok u'' ↦
          if is_response c u''
          then (u'', status_change c u.username active w, none)
          else (u'', w, some value_error)
    ] in
    if hold_ends c.now u then started else (u, w, none)

abbrev pub is_active : User → Bool
is_active u = elim u.status [ active ↦ true | _ ↦ false ]

abbrev pub is_on_hold : User → Bool
is_on_hold u = elim u.status [ on_hold ↦ true | _ ↦ false ]

unfoldable pub review : Context → List User → World → Run
unfolding for_users review_active review_on_hold
review c us w =
    and_then (for_users is_active (review_active c) us w) (for_users is_on_hold (review_on_hold c))
