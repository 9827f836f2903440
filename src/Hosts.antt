-- ===== src/Hosts.antt =====
-- app/db/crud/proxy_hosts.py: the hosts that the subscriptions show, their order and their groups.
pub mod Listed
pub mod Groups
use marzban.Common.{
  ℕ, suc, ◌+◌, String, Bool, true, false, not, ◌&&◌, ◌||◌, Option, none, some, List, [], ◌∷◌, ◌++◌,
  map, str_eq, ◌==◌, if◌then◌else◌, keep, first, drop_first, is_some, any_of, ◌≡◌, refl,
}
use marzban.World.{Result, ok, err, value_error, integrity_error, ◌>>=◌}
use marzban.Positions.{Positioned, in_order, next_position, reorder}
use marzban.Registry.{has_tag, from_keys}
use marzban.Configs.{ConfigRow, get_row}

-- The columns that `_apply_host_fields` copies; the enumerations as their values.
pub record HostFields : Type 0 where
  pub remark : String
  pub address : String
  pub port : Option ℕ
  pub path : Option String
  pub sni : Option String
  pub host : Option String
  pub security : String
  pub alpn : String
  pub fingerprint : String
  pub allowinsecure : Option Bool
  pub is_disabled : Option Bool
  pub mux_enable : Option Bool
  pub fragment_setting : Option String
  pub noise_setting : Option String
  pub random_user_agent : Option Bool
  pub use_sni_as_host : Option Bool
  pub sc_max_buffered_posts : Option ℕ
  pub x_padding_obfs_mode : Option Bool
  pub uplink_http_method : Option String

-- `default=False` of a column, for an INSERT in which it is None.
abbrev pub or_false : Option Bool → Option Bool
or_false none = some false
or_false (some b) = some b

-- The columns of a new row, with the defaults of app/db/models/proxies.py.
abbrev pub with_defaults : HostFields → HostFields
with_defaults f = record f {
  is_disabled = or_false f.is_disabled;
  mux_enable = or_false f.mux_enable;
  random_user_agent = or_false f.random_user_agent;
  use_sni_as_host = or_false f.use_sni_as_host;
}

-- Whether an UPDATE keeps the columns that are NOT NULL.
abbrev pub keeps_not_null : HostFields → Bool
keeps_not_null f = is_some f.mux_enable && is_some f.random_user_agent && is_some f.use_sni_as_host

-- A row, with the tag of its inbound and the ids of its groups.
pub record ProxyHost : Type 0 where
  pub id : ℕ
  pub inbound : String
  pub position : ℕ
  pub fields : HostFields
  pub groups : List String

pub record ProxyHostModify : Type 0 where
  pub inbound_tag : String
  pub position : Option ℕ
  pub group_ids : List String
  pub fields : HostFields

abbrev pub positioned : Positioned ProxyHost
positioned = record {
  id_of = λ h. h.id;
  position_of = λ h. h.position;
  place = λ h n. record h { position = n };
  id_of-place = λ h n. refl;
  position_of-place = λ h n. refl;
}

abbrev pub or_raise : Option ConfigRow → Result ConfigRow
or_raise none = err value_error
or_raise (some r) = ok r

-- `get_inbound_or_raise`
unfoldable pub get_inbound_or_raise : String → List ConfigRow → Result ConfigRow
unfolding get_row
get_inbound_or_raise tag inbounds = or_raise (get_row tag inbounds)

-- `_filter_hosts_by_groups`, of the groups that `_normalize_host_group_filter` keeps.
unfoldable pub in_groups : List String → ProxyHost → Bool
unfolding has_tag
in_groups [] h = true
in_groups (g ∷ l) h = any_of (λ i. has_tag i h.groups) (g ∷ l)

-- `get_hosts` and `get_hosts_v2`, without a search.
unfoldable pub get_hosts : List ConfigRow → String → List String → List ProxyHost → List ProxyHost
unfolding get_row in_order in_groups
get_hosts inbounds tag groups hosts = elim (get_row tag inbounds) [
  | none ↦ []
  | some r ↦ in_order positioned (keep (λ h. str_eq h.inbound tag && in_groups groups h) hosts)
]

unfoldable pub get_hosts_v2 : List String → List ProxyHost → List ProxyHost
unfolding in_order in_groups
get_hosts_v2 groups hosts = in_order positioned (keep (in_groups groups) hosts)

-- `get_next_host_position`
unfoldable pub get_next_host_position : List ProxyHost → ℕ
unfolding next_position
get_next_host_position hosts = next_position positioned hosts

-- Whether each id has a row.
unfoldable pub all_exist : List String → List String → Bool
unfolding has_tag
all_exist groups [] = true
all_exist groups (g ∷ l) = has_tag g groups && all_exist groups l

-- `_get_existing_host_groups`, by the ids of the table of groups
unfoldable pub get_existing_host_groups : List String → List String → Result (List String)
unfolding from_keys all_exist
get_existing_host_groups groups group_ids =
    let unique_ids = from_keys [] group_ids in
    if all_exist groups unique_ids then ok unique_ids else err value_error

unfoldable pub set_host_groups : List String → List String → ProxyHost → Result ProxyHost
unfolding get_existing_host_groups
set_host_groups groups group_ids h =
    get_existing_host_groups groups group_ids >>= λ found. ok (record h { groups = found })

-- The groups that are not there yet, appended.
unfoldable pub attach_groups : List String → List String → List String
unfolding has_tag
attach_groups found existing = existing ++ keep (λ g. not (has_tag g existing)) found

unfoldable pub attach_host_groups : List String → List String → ProxyHost → Result ProxyHost
unfolding get_existing_host_groups attach_groups
attach_host_groups groups group_ids h = get_existing_host_groups groups group_ids >>= λ found.
    ok (record h { groups = attach_groups found h.groups })

unfoldable pub detach_host_groups : List String → List String → ProxyHost → Result ProxyHost
unfolding get_existing_host_groups has_tag
detach_host_groups groups group_ids h = get_existing_host_groups groups group_ids >>= λ found.
    ok (record h { groups = keep (λ g. not (has_tag g group_ids)) h.groups })

abbrev pub position_or_next : List ProxyHost → Option ℕ → ℕ
position_or_next hosts none = get_next_host_position hosts
position_or_next hosts (some n) = n

-- `create_host_v2`, where the database gives the row its primary key `id`.
unfoldable pub create_host_v2 :
    List ConfigRow → List String → ℕ → ProxyHostModify → List ProxyHost → Result (List ProxyHost)
unfolding get_inbound_or_raise get_existing_host_groups get_next_host_position
create_host_v2 inbounds groups id host hosts =
    get_inbound_or_raise host.inbound_tag inbounds >>= λ inbound.
    get_existing_host_groups groups host.group_ids >>= λ found. ok (
      hosts
      ++ record {
        id = id;
        inbound = inbound.tag;
        position = position_or_next hosts host.position;
        fields = with_defaults host.fields;
        groups = found;
      }
        ∷ [])

abbrev pub or_position : Option ℕ → ℕ → ℕ
or_position none n = n
or_position (some m) n = m

-- `update_host_v2`, of the row. A None in a column that is NOT NULL is an IntegrityError.
unfoldable pub update_host_v2 :
    List ConfigRow → List String → ProxyHostModify → ProxyHost → Result ProxyHost
unfolding get_inbound_or_raise get_existing_host_groups
update_host_v2 inbounds groups host h =
    get_inbound_or_raise host.inbound_tag inbounds >>= λ inbound.
    get_existing_host_groups groups host.group_ids >>= λ found.
    if keeps_not_null host.fields
    then ok (record {
      id = h.id;
      inbound = inbound.tag;
      position = or_position host.position h.position;
      fields = host.fields;
      groups = found;
    })
    else err integrity_error

-- `remove_host_v2`
unfoldable pub remove_host_v2 : ProxyHost → List ProxyHost → List ProxyHost
remove_host_v2 h hosts = drop_first (λ g. g.id == h.id) hosts

-- `reorder_hosts_v2`: the table after it, which `get_hosts_v2` reads.
unfoldable pub reorder_hosts_v2 : List ℕ → List ProxyHost → Result (List ProxyHost)
unfolding reorder
reorder_hosts_v2 host_ids hosts = reorder positioned host_ids hosts

-- The rows of a list of fields, from a primary key and a position on.
unfoldable pub new_hosts : String → ℕ → ℕ → List HostFields → List ProxyHost
new_hosts tag id position [] = []
new_hosts tag id position (f ∷ fields) =
    record { id = id; inbound = tag; position = position; fields = with_defaults f; groups = [] }
    ∷ new_hosts tag (suc id) (suc position) fields

-- `add_host`, of the table
unfoldable pub add_host :
    List ConfigRow → ℕ → String → HostFields → List ProxyHost → Result (List ProxyHost)
unfolding get_inbound_or_raise new_hosts get_next_host_position
add_host inbounds id tag host hosts = get_inbound_or_raise tag inbounds >>= λ inbound.
    ok (hosts ++ new_hosts inbound.tag id (get_next_host_position hosts) (host ∷ []))

-- `update_hosts`, of the table: the rows of the inbound are deleted, and the new ones take the
-- positions after all that were there.
unfoldable pub update_hosts :
    List ConfigRow → ℕ → String → List HostFields → List ProxyHost → Result (List ProxyHost)
unfolding get_inbound_or_raise new_hosts get_next_host_position
update_hosts inbounds id tag modified hosts = get_inbound_or_raise tag inbounds >>= λ inbound. ok (
    keep (λ h. not (str_eq h.inbound inbound.tag)) hosts
    ++ new_hosts inbound.tag id (get_next_host_position hosts) modified)
