-- ===== src/World.antt =====
-- What the handlers and jobs change beside the rows of users: the table of reminders, the table of
-- per-node usages, the deque of app/utils/notification.py, and the calls made to
-- app/xray/operations.py, in their order.
use marzban.Common.{
  ℕ, String, ◌≡◌, refl, ◌⊎◌, inl, inr, Bool, true, false, Option, List, ◌∷◌, [], ◌++◌,
}
use marzban.User.{Proxy, ReminderType, expiration_date, data_usage}
use marzban.Settings.{RuntimeSettings}

pub record NotificationReminder : Type 0 where
  pub user_id : ℕ
  pub type : ReminderType
  pub threshold : Option ℕ
  pub expires_at : Option ℕ

pub record NodeUserUsage : Type 0 where
  pub created_at : ℕ
  pub user_id : ℕ
  pub node_id : ℕ
  pub used_traffic : ℕ

-- `Notification.Type`
pub data NotificationType : Type 0 where
  user_created user_updated user_deleted user_limited user_expired : NotificationType
  user_enabled user_disabled data_usage_reset data_reset_by_next : NotificationType
  subscription_revoked reached_usage_percent reached_days_left : NotificationType

-- `UserNotification` and its subclasses, without the copy of the user that they carry.
pub record Notification : Type 0 where
  pub action : NotificationType
  pub username : String
  pub send_at : ℕ
  pub tries : ℕ

-- A call of a function of app/xray/operations.py, for the user of an id.
pub data CoreCall : Type 0 where
  add_user update_user remove_user : ℕ → CoreCall

pub record World : Type 0 where
  pub reminders : List NotificationReminder
  pub node_usages : List NodeUserUsage
  pub queue : List Notification
  pub core : List CoreCall

-- What a run reads: the clock, the time at which the process started, and the settings.
-- The clock, the settings, whether jdatetime has the date of a time in seconds, and whether the texts of
-- the hosts make the links of some proxies without an error.
pub record Context : Type 0 where
  pub now : ℕ
  pub started : ℕ
  pub settings : RuntimeSettings
  pub jalali : ℕ → Bool
  pub links : List Proxy → Bool

pub data Fault : Type 0 where
  type_error integrity_error value_error : Fault
  http : ℕ → String → Fault

pub data Result {ℓ} (A : Type ℓ) : Type ℓ where
  ok : A → Result A
  err : Fault → Result A

infixl 5 ◌>>=◌
abbrev pub ◌>>=◌ {ℓ κ} : {A : Type ℓ} {B : Type κ} → Result A → (A → Result B) → Result B
ok a >>= f = f a
err e >>= f = err e

abbrev pub call : CoreCall → World → World
call c w = record w { core = w.core ++ c ∷ [] }

unfoldable pub reminder_type_eq : ReminderType → ReminderType → Bool
reminder_type_eq expiration_date expiration_date = true
reminder_type_eq data_usage data_usage = true
reminder_type_eq _ _ = false

pub Result-cases {ℓ} :
    {A : Type ℓ} (r : Result A) → ((a : A) × (r ≡ ok a)) ⊎ ((e : Fault) × (r ≡ err e))
Result-cases (ok a) = inl (a, refl)
Result-cases (err e) = inr (e, refl)

-- What a chain that answers has passed through.
pub bind-ok {ℓ κ} :
    {A : Type ℓ} {B : Type κ} (r : Result A) (f : A → Result B) (b : B)
    → (r >>= f) ≡ ok b
    → (a : A) × (r ≡ ok a) × (f a ≡ ok b)
bind-ok (ok a) f b h = (a, refl, h)
bind-ok (err e) f b h = cc

pub ok-injective {ℓ} : {A : Type ℓ} {a b : A} → ok a ≡ ok b → a ≡ b
ok-injective h = cc
