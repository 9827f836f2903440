-- ===== src/Tests/Samples.antt =====
-- The rows, settings and clocks that the tests share.
use marzban.Common.{◌*◌, String, true, false, none, some, List, [], ◌∷◌}
use marzban.Common.Int.{pos}
use marzban.Settings.{RuntimeSettings}
use marzban.User.{User, active, on_hold, Proxy, vless, vmess, NextPlan, day, a_day}
use marzban.World.{World, Context}
use marzban.Registry.{Inbound}
use marzban.Admins.{Admin}

abbrev pub settings : RuntimeSettings
settings = record {
  webhook_addresses = "https://hook.example" ∷ [];
  number_of_recurrent_notifications = 3;
  recurrent_notifications_timeout = 180;
  notify_days_left = 3 ∷ 7 ∷ [];
  notify_reached_usage_percent = 80 ∷ 90 ∷ [];
  notify_status_change = true;
  notify_user_created = true;
  notify_user_updated = true;
  notify_user_deleted = true;
  notify_user_data_used_reset = true;
  notify_user_sub_revoked = true;
  notify_if_data_usage_percent_reached = true;
  notify_if_days_left_reached = true;
}

abbrev pub context : Context
context = record {
  now = 100 * a_day;
  started = 0;
  settings = settings;
  jalali = λ e. true;
  links = λ ps. true;
}

abbrev pub quiet : Context
quiet = record context { settings = record settings { webhook_addresses = [] } }

abbrev pub world : World
world = record { reminders = []; node_usages = []; queue = []; core = [] }

abbrev pub a_proxy : Proxy
a_proxy = record { type = vless; settings = "{}"; excluded_inbounds = [] }

abbrev pub alice : User
alice = record {
  id = 1;
  username = "alice";
  proxies = a_proxy ∷ [];
  status = active;
  used_traffic = 50;
  data_limit = some (pos 100);
  data_limit_reset_strategy = day;
  usage_logs = [];
  expire = none;
  admin_id = some 1;
  sub_revoked_at = none;
  sub_updated_at = none;
  sub_last_user_agent = none;
  created_at = 10;
  note = none;
  online_at = none;
  on_hold_expire_duration = none;
  on_hold_timeout = none;
  auto_delete_in_days = none;
  edit_at = none;
  last_status_change = none;
  next_plan = none;
}

-- Over the limit.
abbrev pub bob : User
bob = record alice { id = 2; username = "bob"; used_traffic = 120 }

-- On hold, and seen since the account was made.
abbrev pub carol : User
carol = record alice {
  id = 3;
  username = "carol";
  status = on_hold;
  online_at = some 20;
  on_hold_expire_duration = some 86400;
}

abbrev pub a_plan : NextPlan
a_plan = record {
  data_limit = 200;
  expire = none;
  add_remaining_traffic = false;
  fire_on_either = true;
}

-- Over the limit, with a plan for the time after it.
abbrev pub dave : User
dave = record bob { id = 4; username = "dave"; next_plan = some a_plan }

-- Expired and without a limit, with the same plan.
abbrev pub erin : User
erin = record alice {
  id = 5;
  username = "erin";
  data_limit = none;
  expire = some 86400;
  next_plan = some a_plan;
}

abbrev pub registry : List Inbound
registry =
    record { tag = "vless-1"; protocol = vless }
    ∷ record { tag = "vless-2"; protocol = vless }
    ∷ record { tag = "vmess-1"; protocol = vmess }
    ∷ []

abbrev pub known : List String
known = "vless-1" ∷ "vless-2" ∷ "vmess-1" ∷ []

abbrev pub root : Admin
root = record {
  id = 1;
  username = "root";
  hashed_password = some "old";
  is_sudo = true;
  password_reset_at = none;
  telegram_id = none;
  discord_webhook = none;
  users_usage = 0;
  usage_logs = [];
}
