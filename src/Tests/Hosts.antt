-- ===== src/Tests/Hosts.antt =====
-- Concrete hosts.
use marzban.Common.{ℕ, String, true, false, none, some, List, [], ◌∷◌, map, ◌≡◌, refl}
use marzban.World.{ok, err, integrity_error}
use marzban.Json.{no_fields}
use marzban.Configs.{ConfigRow}
use marzban.Hosts.{
  HostFields, ProxyHost, ProxyHostModify, update_host_v2, get_hosts, update_hosts,
  get_next_host_position,
}
use marzban.Hosts.Listed.{update_hosts-get_hosts}
use marzban.Hosts.Groups.{GroupAnswers, set_host_groups-attach_host_groups}

abbrev fields : String → HostFields
fields remark = record {
  remark = remark;
  address = "{SERVER_IP}";
  port = none;
  path = none;
  sni = none;
  host = none;
  security = "inbound_default";
  alpn = "";
  fingerprint = "";
  allowinsecure = none;
  is_disabled = some false;
  mux_enable = some false;
  fragment_setting = none;
  noise_setting = none;
  random_user_agent = some false;
  use_sni_as_host = some false;
  sc_max_buffered_posts = none;
  x_padding_obfs_mode = none;
  uplink_http_method = none;
}

-- A request in which the flags are not set.
abbrev unset : String → HostFields
unset remark = record (fields remark) {
  is_disabled = none;
  mux_enable = none;
  random_user_agent = none;
  use_sni_as_host = none;
}

abbrev host : ℕ → String → ℕ → String → ProxyHost
host id tag position remark = record {
  id = id;
  inbound = tag;
  position = position;
  fields = fields remark;
  groups = "eu" ∷ [];
}

abbrev inbounds : List ConfigRow
inbounds =
    record { tag = "a"; content = no_fields; enabled = true; readonly = false; nodes = [] }
    ∷ record { tag = "b"; content = no_fields; enabled = true; readonly = false; nodes = [] }
    ∷ []

abbrev hosts : List ProxyHost
hosts = host 1 "a" 3 "old" ∷ host 2 "b" 1 "kept" ∷ []

abbrev after : List ProxyHost
after =
    host 2 "b" 1 "kept"
    ∷ record (host 5 "a" 4 "one") { groups = [] }
    ∷ record (host 6 "a" 5 "two") { groups = [] }
    ∷ []

updated_hosts : update_hosts inbounds 5 "a" (fields "one" ∷ unset "two" ∷ []) hosts ≡ ok after
unfolding update_hosts get_next_host_position
updated_hosts = refl

update_hosts-get_hosts_example :
    (map (λ h. h.fields) (get_hosts inbounds "a" [] after) ≡ fields "one" ∷ fields "two" ∷ [])
    × (get_hosts inbounds "b" [] after ≡ get_hosts inbounds "b" [] hosts)
update_hosts-get_hosts_example =
    update_hosts-get_hosts inbounds 5 "a" "b" (fields "one" ∷ unset "two" ∷ []) hosts after
      updated_hosts refl

abbrev change : ProxyHostModify
change = record { inbound_tag = "a"; position = none; group_ids = []; fields = unset "two" }

-- The same request as a change of a row fails.
not_null : update_host_v2 inbounds [] change (host 1 "a" 3 "old") ≡ err integrity_error
unfolding update_host_v2
not_null = refl

set_host_groups-attach_host_groups_example :
    GroupAnswers ("eu" ∷ "us" ∷ []) ("us" ∷ "us" ∷ []) (host 1 "a" 3 "old")
set_host_groups-attach_host_groups_example =
    set_host_groups-attach_host_groups ("eu" ∷ "us" ∷ []) ("us" ∷ "us" ∷ []) (host 1 "a" 3 "old")
