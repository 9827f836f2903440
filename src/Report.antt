-- ===== src/Report.antt =====
-- app/utils/report.py, and `notify` of app/utils/notification.py. The calls to Telegram and Discord
-- stand in `try` blocks that drop every exception and return nothing, and are not modelled.
pub mod Reached
use marzban.Common.{ℕ, ◌*◌, String, Option, none, some, [], ◌∷◌, ◌++◌, ltb, if◌then◌else◌}
use marzban.User.{User, UserStatus, active, disabled, limited, expired, on_hold, second}
use marzban.User.{expiration_date, data_usage}
use marzban.World.{World, Context, NotificationType}
use marzban.Reminder.{create_notification_reminder}

-- `if get_runtime_settings().webhook_addresses: queue.append(message)`
unfoldable pub notify : Context → NotificationType → String → World → World
notify c action username w = elim c.settings.webhook_addresses [
  | [] ↦ w
  | a ∷ l ↦ record w {
    queue =
        w.queue
        ++ record { action = action; username = username; send_at = c.started; tries = 0 } ∷ [];
  }
]

unfoldable pub status_change : Context → String → UserStatus → World → World
unfolding notify
status_change c username status w =
    let told : World = elim status [
      | limited ↦ notify c NotificationType.user_limited username w
      | expired ↦ notify c NotificationType.user_expired username w
      | disabled ↦ notify c NotificationType.user_disabled username w
      | active ↦ notify c NotificationType.user_enabled username w
      | on_hold ↦ w
    ] in
    if c.settings.notify_status_change then told else w

unfoldable pub user_created : Context → String → World → World
unfolding notify
user_created c username w =
    if c.settings.notify_user_created then notify c NotificationType.user_created username w else w

unfoldable pub user_updated : Context → String → World → World
unfolding notify
user_updated c username w =
    if c.settings.notify_user_updated then notify c NotificationType.user_updated username w else w

unfoldable pub user_deleted : Context → String → World → World
unfolding notify
user_deleted c username w =
    if c.settings.notify_user_deleted then notify c NotificationType.user_deleted username w else w

unfoldable pub user_data_usage_reset : Context → String → World → World
unfolding notify
user_data_usage_reset c username w =
    if c.settings.notify_user_data_used_reset
    then notify c NotificationType.data_usage_reset username w
    else w

unfoldable pub user_data_reset_by_next : Context → String → World → World
unfolding notify
user_data_reset_by_next c username w =
    if c.settings.notify_user_data_used_reset
    then notify c NotificationType.data_reset_by_next username w
    else w

unfoldable pub user_subscription_revoked : Context → String → World → World
unfolding notify
user_subscription_revoked c username w =
    if c.settings.notify_user_sub_revoked
    then notify c NotificationType.subscription_revoked username w
    else w

-- `dt.utcfromtimestamp(expire) if expire else None`
abbrev pub reminder_expiry : Option ℕ → Option ℕ
reminder_expiry none = none
reminder_expiry (some e) = if ltb 0 e then some (e * second) else none

-- The reminder is written only where the setting also lets the message be sent.
unfoldable pub data_usage_percent_reached : Context → User → ℕ → World → World
unfolding notify create_notification_reminder
data_usage_percent_reached c u threshold w =
    if c.settings.notify_if_data_usage_percent_reached
    then (let w' = notify c NotificationType.reached_usage_percent u.username w in
        record w' {
          reminders =
              create_notification_reminder data_usage (reminder_expiry u.expire) u.id
                (some threshold) w'.reminders;
        })
    else w

-- The message is sent whatever the setting, which only decides on the reminder.
unfoldable pub expire_days_reached : Context → User → ℕ → ℕ → World → World
unfolding notify create_notification_reminder
expire_days_reached c u expire threshold w =
    let w' = notify c NotificationType.reached_days_left u.username w in
    if c.settings.notify_if_days_left_reached
    then record w' {
      reminders =
          create_notification_reminder expiration_date (some (expire * second)) u.id
            (some threshold) w'.reminders;
    }
    else w'
