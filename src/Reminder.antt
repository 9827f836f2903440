-- ===== src/Reminder.antt =====
-- app/db/crud/notifications.py: the table of reminders that were sent.
pub mod Unique
use marzban.Common.{
  ℕ, Bool, true, false, ◌&&◌, not, Option, none, some, List, [], ◌∷◌, ◌++◌, ltb, ◌==◌,
  if◌then◌else◌, keep, first, drop_first,
}
use marzban.User.{ReminderType}
use marzban.World.{NotificationReminder, reminder_type_eq}

-- `threshold == value`, where a NULL is equal to nothing.
abbrev pub threshold_eq : Option ℕ → ℕ → Bool
threshold_eq none t = false
threshold_eq (some s) t = s == t

unfoldable pub is_reminder : ℕ → ReminderType → Option ℕ → NotificationReminder → Bool
unfolding reminder_type_eq
is_reminder user_id type threshold r =
    r.user_id == user_id
    && reminder_type_eq r.type type
    && elim threshold [ none ↦ true | some t ↦ threshold_eq r.threshold t ]

-- `if threshold is not None` only chooses whether to set a column that is NULL otherwise.
unfoldable pub create_notification_reminder :
    ReminderType → Option ℕ → ℕ → Option ℕ → List NotificationReminder → List NotificationReminder
create_notification_reminder type expires_at user_id threshold table =
    table
    ++ record { user_id = user_id; type = type; threshold = threshold; expires_at = expires_at }
      ∷ []

-- `reminder.expires_at and reminder.expires_at < now`
unfoldable pub reminder_expired : ℕ → NotificationReminder → Bool
reminder_expired now r = elim r.expires_at [ none ↦ false | some t ↦ ltb t now ]

-- An expired reminder is deleted on the way, and counts as none.
unfoldable pub get_notification_reminder :
    ℕ
    → ℕ
    → ReminderType
    → Option ℕ
    → List NotificationReminder
    → Option NotificationReminder × List NotificationReminder
unfolding is_reminder reminder_expired
get_notification_reminder now user_id type threshold table =
    elim (first (is_reminder user_id type threshold) table) [
      | none ↦ (none, table)
      | some r ↦
          if reminder_expired now r
          then (none, drop_first (is_reminder user_id type threshold) table)
          else (some r, table)
    ]

unfoldable pub delete_notification_reminder_by_type :
    ℕ → ReminderType → Option ℕ → List NotificationReminder → List NotificationReminder
unfolding is_reminder
delete_notification_reminder_by_type user_id type threshold =
    keep (λ r. not (is_reminder user_id type threshold r))

-- The object to delete is the one that `get_notification_reminder` found: the first that matches.
unfoldable pub delete_notification_reminder :
    ℕ → ReminderType → Option ℕ → List NotificationReminder → List NotificationReminder
unfolding is_reminder
delete_notification_reminder user_id type threshold =
    drop_first (is_reminder user_id type threshold)

-- `delete_expired_reminders` of app/jobs/send_notifications.py
unfoldable pub delete_expired_reminders : ℕ → List NotificationReminder → List NotificationReminder
unfolding reminder_expired
delete_expired_reminders now = keep (λ r. not (reminder_expired now r))
