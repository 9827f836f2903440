-- ===== src/Settings.antt =====
-- app/models/settings.py and app/utils/runtime_settings.py: the runtime settings that the
-- modelled code reads. They are cached, so one run of a job reads one value of them.
use marzban.Common.{ℕ, String, Bool, List}

pub record RuntimeSettings : Type 0 where
  pub webhook_addresses : List String
  pub number_of_recurrent_notifications : ℕ
  pub recurrent_notifications_timeout : ℕ
  pub notify_days_left : List ℕ
  pub notify_reached_usage_percent : List ℕ
  pub notify_status_change : Bool
  pub notify_user_created : Bool
  pub notify_user_updated : Bool
  pub notify_user_deleted : Bool
  pub notify_user_data_used_reset : Bool
  pub notify_user_sub_revoked : Bool
  pub notify_if_data_usage_percent_reached : Bool
  pub notify_if_days_left_reached : Bool
