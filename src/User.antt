-- ===== src/User.antt =====
-- app/db/models/users.py and the enumerations of app/models/user.py: a user's row with the rows
-- that its relationships hold. A datetime is a number of microseconds since the epoch, `expire`
-- and the durations are seconds, as in the columns.
pub mod Usage
use marzban.Common.{ℕ, ◌*◌, String, Bool, true, false, Option, List, []}
use marzban.Common.Int.{ℤ}

pub data UserStatus : Type 0 where
  active disabled limited expired on_hold : UserStatus

pub data UserDataLimitResetStrategy : Type 0 where
  no_reset day week month year : UserDataLimitResetStrategy

pub data ReminderType : Type 0 where
  expiration_date data_usage : ReminderType

pub data ProxyTypes : Type 0 where
  vmess vless trojan shadowsocks hysteria : ProxyTypes

unfoldable pub status_eq : UserStatus → UserStatus → Bool
status_eq active active = true
status_eq disabled disabled = true
status_eq limited limited = true
status_eq expired expired = true
status_eq on_hold on_hold = true
status_eq _ _ = false

unfoldable pub type_eq : ProxyTypes → ProxyTypes → Bool
type_eq vmess vmess = true
type_eq vless vless = true
type_eq trojan trojan = true
type_eq shadowsocks shadowsocks = true
type_eq hysteria hysteria = true
type_eq _ _ = false

-- The settings are a JSON value that the modelled code stores and never looks into.
pub record Proxy : Type 0 where
  pub type : ProxyTypes
  pub settings : String
  pub excluded_inbounds : List String

pub record NextPlan : Type 0 where
  pub data_limit : ℕ
  pub expire : Option ℕ
  pub add_remaining_traffic : Bool
  pub fire_on_either : Bool

pub record UserUsageResetLogs : Type 0 where
  pub used_traffic_at_reset : ℕ
  pub reset_at : ℕ

pub record User : Type 0 where
  pub id : ℕ
  pub username : String
  pub proxies : List Proxy
  pub status : UserStatus
  pub used_traffic : ℕ
  pub data_limit : Option ℤ
  pub data_limit_reset_strategy : UserDataLimitResetStrategy
  pub usage_logs : List UserUsageResetLogs
  pub expire : Option ℕ
  pub admin_id : Option ℕ
  pub sub_revoked_at : Option ℕ
  pub sub_updated_at : Option ℕ
  pub sub_last_user_agent : Option String
  pub created_at : ℕ
  pub note : Option String
  pub online_at : Option ℕ
  pub on_hold_expire_duration : Option ℕ
  pub on_hold_timeout : Option ℕ
  pub auto_delete_in_days : Option ℤ
  pub edit_at : Option ℕ
  pub last_status_change : Option ℕ
  pub next_plan : Option NextPlan

-- One second and one day, in the unit of a datetime.
abbrev pub second : ℕ
second = 1000000

abbrev pub a_day : ℕ
a_day = 86400 * 1000000
