-- ===== src/Nodes.antt =====
-- app/db/models/nodes.py, app/models/node.py and app/db/crud/nodes.py: the rows of the nodes.
pub mod Connections
pub mod System
pub mod Disabled
pub mod Alone
use marzban.Common.{ℕ, String, Bool, true, false, Option, none, some, if◌then◌else◌}
use marzban.Json.{Fields, size}

pub data NodeStatus : Type 0 where
  connected connecting error disabled : NodeStatus

unfoldable pub switched_off : NodeStatus → Bool
switched_off disabled = true
switched_off _ = false

-- A row, without its relationships. The coefficient is a number of hundredths.
pub record NodeRow : Type 0 where
  pub id : ℕ
  pub name : String
  pub address : String
  pub port : ℕ
  pub api_port : ℕ
  pub xray_version : Option String
  pub status : NodeStatus
  pub last_status_change : Option ℕ
  pub message : Option String
  pub usage_coefficient : ℕ
  pub access_log_enabled : Bool
  pub error_log_enabled : Bool
  pub log_retention_days : ℕ
  pub log_storage_limit_bytes : Option ℕ
  pub config_template : Fields

pub record NodeCreate : Type 0 where
  pub name : String
  pub address : String
  pub port : ℕ
  pub api_port : ℕ
  pub usage_coefficient : ℕ
  pub access_log_enabled : Bool
  pub error_log_enabled : Bool
  pub log_retention_days : ℕ
  pub log_storage_limit_bytes : Option ℕ

-- A request, where `none` in the last four fields is a field that is not set.
pub record NodeModify : Type 0 where
  pub name : Option String
  pub address : Option String
  pub port : Option ℕ
  pub api_port : Option ℕ
  pub status : Option NodeStatus
  pub usage_coefficient : Option ℕ
  pub access_log_enabled : Option Bool
  pub error_log_enabled : Option Bool
  pub log_retention_days : Option ℕ
  pub log_storage_limit_bytes : Option (Option ℕ)

-- `if value is not None: row.field = value`
abbrev pub or_kept {ℓ} : {A : Type ℓ} → Option A → A → A
or_kept none a = a
or_kept (some b) a = b

-- `config_template or default_node_config()`: an empty dict counts as none.
abbrev pub template_or : Option Fields → Fields → Fields
template_or none default = default
template_or (some Fields.no_fields) default = default
template_or (some t) default = t

-- `create_node`, with the primary key that the database gives, and the defaults of the columns for
-- what the function does not pass: the status, and the coefficient.
unfoldable pub create_node : ℕ → Fields → Option Fields → NodeCreate → NodeRow
create_node id default template n = record {
  id = id;
  name = n.name;
  address = n.address;
  port = n.port;
  api_port = n.api_port;
  xray_version = none;
  status = connecting;
  last_status_change = none;
  message = none;
  usage_coefficient = 100;
  access_log_enabled = n.access_log_enabled;
  error_log_enabled = n.error_log_enabled;
  log_retention_days = n.log_retention_days;
  log_storage_limit_bytes = n.log_storage_limit_bytes;
  config_template = template_or template default;
}

abbrev pub modify_status : Option NodeStatus → NodeRow → NodeRow
modify_status (some disabled) r = record r {
  status = disabled;
  xray_version = none;
  message = none;
}
modify_status _ r = record r { status = connecting }

unfoldable pub update_node : NodeModify → NodeRow → NodeRow
update_node m r =
    let s = modify_status m.status r in
    record s {
      name = or_kept m.name r.name;
      address = or_kept m.address r.address;
      port = or_kept m.port r.port;
      api_port = or_kept m.api_port r.api_port;
      usage_coefficient = or_kept m.usage_coefficient r.usage_coefficient;
      access_log_enabled = or_kept m.access_log_enabled r.access_log_enabled;
      error_log_enabled = or_kept m.error_log_enabled r.error_log_enabled;
      log_retention_days = or_kept m.log_retention_days r.log_retention_days;
      log_storage_limit_bytes = or_kept m.log_storage_limit_bytes r.log_storage_limit_bytes;
    }

unfoldable pub update_node_status :
    NodeStatus → Option String → Option String → ℕ → NodeRow → NodeRow
update_node_status status message version now r = record r {
  status = status;
  message = message;
  xray_version = version;
  last_status_change = some now;
}
