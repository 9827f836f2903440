-- ===== src/Users/Limits.antt =====
-- What `update_user` of app/db/crud/users.py does where the details have a data limit or an expiry:
-- the column, the status, and the reminders that are deleted.
use mathlib.Core.List.{reverse}
use marzban.Common.{
  ℕ, ◌*◌, Bool, true, false, not, ◌&&◌, ◌||◌, Option, none, some, List, [], ◌∷◌, ◌==◌, ltb, or_none,
  sorted, if◌then◌else◌,
}
use marzban.Common.Int.{ℤ, pos, ltb_ℤ, nonzero}
use marzban.User.{
  User, UserStatus, active, disabled, limited, expired, on_hold, data_usage, expiration_date,
  second,
}
use marzban.User.Usage.{usage_percent_reaches, calculate_expiration_days}
use marzban.World.{World, Context, NotificationReminder}
use marzban.Reminder.{get_notification_reminder, delete_notification_reminder}

-- The reminders of a user at the thresholds that pass a test are looked up, and deleted if found.
unfoldable pub forget_reminder : ℕ → ℕ → ℕ → List NotificationReminder → List NotificationReminder
unfolding get_notification_reminder delete_notification_reminder
forget_reminder now user_id percent table =
    let (found, table') = get_notification_reminder now user_id data_usage (some percent) table in
    elim found [
      | none ↦ table'
      | some r ↦ delete_notification_reminder user_id data_usage (some percent) table'
    ]

unfoldable pub forget_days : ℕ → ℕ → ℕ → List NotificationReminder → List NotificationReminder
unfolding get_notification_reminder delete_notification_reminder
forget_days now user_id days table =
    let (found, table') = get_notification_reminder now user_id expiration_date (some days) table in
    elim found [
      | none ↦ table'
      | some r ↦ delete_notification_reminder user_id expiration_date (some days) table'
    ]

-- The loop over a list of thresholds.
unfoldable pub forget_where :
    (ℕ → Bool)
    → (ℕ → List NotificationReminder → List NotificationReminder)
    → List ℕ
    → List NotificationReminder
    → List NotificationReminder
forget_where p forget [] table = table
forget_where p forget (n ∷ ns) table =
    forget_where p forget ns (if p n then forget n table else table)

-- `not dbuser.data_limit`
abbrev pub no_limit : Option ℤ → Bool
no_limit none = true
no_limit (some l) = not (nonzero l)

-- `dbuser.used_traffic < dbuser.data_limit`, read only where there is a limit.
abbrev pub below_limit : ℕ → Option ℤ → Bool
below_limit used none = false
below_limit used (some l) = ltb_ℤ (pos used) l

unfoldable pub percent_below : ℕ → Option ℤ → ℕ → Bool
unfolding usage_percent_reaches
percent_below used none percent = true
percent_below used (some l) percent =
    if nonzero l then not (usage_percent_reaches used l percent) else true

abbrev pub limit_column : ℕ → Option ℤ
limit_column n = if n == 0 then none else some (pos n)

abbrev pub has_room : User → Bool
has_room u = no_limit u.data_limit || below_limit u.used_traffic u.data_limit

-- The status under `if modify.data_limit is not None`, for the row with its new limit.
unfoldable pub status_by_limit : User → UserStatus
status_by_limit u = elim u.status [
  | expired ↦ expired
  | disabled ↦ disabled
  | on_hold ↦ if has_room u then on_hold else limited
  | active ↦ if has_room u then active else limited
  | limited ↦ if has_room u then active else limited
]

abbrev pub reviewed_for_limit : UserStatus → Bool
reviewed_for_limit expired = false
reviewed_for_limit disabled = false
reviewed_for_limit _ = true

unfoldable pub set_data_limit : Context → Option ℕ → User × World → User × World
unfolding status_by_limit forget_where forget_reminder sorted percent_below
set_data_limit c none (u, w) = (u, w)
set_data_limit c (some n) (u, w) =
    let u' = record u { data_limit = limit_column n } in
    let forgotten = record w {
      reminders =
          forget_where (percent_below u'.used_traffic u'.data_limit) (forget_reminder c.now u.id)
            (reverse (sorted c.settings.notify_reached_usage_percent)) w.reminders;
    } in
    (
      record u' { status = status_by_limit u' },
      if reviewed_for_limit u.status then (if has_room u' then forgotten else w) else w,
    )

-- `not dbuser.expire or dbuser.expire > datetime.utcnow().timestamp()`
abbrev pub has_time : ℕ → Option ℕ → Bool
has_time now none = true
has_time now (some e) = if e == 0 then true else ltb now (e * second)

abbrev pub more_days : ℕ → Option ℤ → Bool
more_days days none = false
more_days days (some d) = ltb_ℤ (pos days) d

unfoldable pub days_above : ℕ → Option ℕ → ℕ → Bool
unfolding calculate_expiration_days
days_above now none days = true
days_above now (some e) days =
    if e == 0 then true else more_days days (calculate_expiration_days now e)

unfoldable pub status_by_expire : ℕ → User → UserStatus
status_by_expire now u = elim u.status [
  | active ↦ if has_time now u.expire then active else expired
  | expired ↦ if has_time now u.expire then active else expired
  | disabled ↦ disabled
  | limited ↦ limited
  | on_hold ↦ on_hold
]

abbrev pub reviewed_for_expire : UserStatus → Bool
reviewed_for_expire active = true
reviewed_for_expire expired = true
reviewed_for_expire _ = false

abbrev pub any_days : List ℕ → Bool
any_days [] = false
any_days (n ∷ ns) = true

-- Whether the loop over the days of the settings computes the days left of an expiry that is none.
unfoldable pub days_unknown : Context → Option ℕ → UserStatus → Bool
unfolding calculate_expiration_days
days_unknown c none status = false
days_unknown c (some e) status = elim (calculate_expiration_days c.now e) [
  | some d ↦ false
  | none ↦
      reviewed_for_expire status
      && has_time c.now (some e)
      && not (e == 0)
      && any_days c.settings.notify_days_left
]

unfoldable pub set_expire : Context → Option ℕ → User × World → User × World
unfolding status_by_expire forget_where forget_days sorted days_above
set_expire c none (u, w) = (u, w)
set_expire c (some e) (u, w) =
    let u' = record u { expire = or_none (some e) } in
    let forgotten = record w {
      reminders =
          forget_where (days_above c.now u'.expire) (forget_days c.now u.id)
            (sorted c.settings.notify_days_left) w.reminders;
    } in
    (
      record u' { status = status_by_expire c.now u' },
      if reviewed_for_expire u.status
          then (if has_time c.now u'.expire then forgotten else w)
          else w,
    )
