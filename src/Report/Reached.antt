-- ===== src/Report/Reached.antt =====
-- The two reports of a threshold, beside the settings that switch them off.
use marzban.Common.{ℕ, ◌+◌, ◌≡◌, ◌≢◌, String, false, refl, [], ◌∷◌, length, length-append, arith}
use marzban.User.{User}
use marzban.World.{World, Context, NotificationType}
use marzban.Report.{notify, data_usage_percent_reached, expire_days_reached}

queue-notify :
    (c : Context) (a : NotificationType) (name : String) (w : World)
    → c.settings.webhook_addresses ≢ []
    → length (notify c a name w).queue ≡ length w.queue + 1
unfolding notify
queue-notify c a name w h = ground (
  arith,
  length-append w.queue
      (record { action = a; username = name; send_at = c.started; tries = 0 } ∷ []),
)

reminders-notify :
    (c : Context) (a : NotificationType) (name : String) (w : World)
    → (notify c a name w).reminders ≡ w.reminders
unfolding notify
reminders-notify c a name w = ground arith

-- With a webhook and both settings off, the report of a percentage changes nothing, and the report
-- of the days left still queues a notification and writes no reminder of it.
pub reached-switched_off :
    (c : Context) (u : User) (percent expire days : ℕ) (w : World)
    → c.settings.webhook_addresses ≢ []
    → c.settings.notify_if_data_usage_percent_reached ≡ false
    → c.settings.notify_if_days_left_reached ≡ false
    → (data_usage_percent_reached c u percent w ≡ w)
      × (length (expire_days_reached c u expire days w).queue ≡ length w.queue + 1)
      × ((expire_days_reached c u expire days w).reminders ≡ w.reminders)
unfolding data_usage_percent_reached expire_days_reached
reached-switched_off c u percent expire days w a p d =
    rw (p, d) (refl, queue-notify c _ u.username w a, reminders-notify c _ u.username w)
