-- ===== src/XrayConfig.antt =====
-- app/xray/config.py: the clients that `XRayConfig.include_db_users` writes into the configuration that
-- a core is started with. The rows of the query are taken user by user; their order, and so the order
-- of the clients of an inbound, is the database's choice.
pub mod Added
use marzban.Common.{
  ℕ, String, Bool, true, false, not, ◌&&◌, ◌||◌, Option, none, some, List, [], ◌∷◌, ◌++◌, str_eq,
  if◌then◌else◌, keep,
}
use marzban.User.{User, Proxy, UserStatus, ProxyTypes, active, on_hold, type_eq, status_eq}
use marzban.Registry.{has_tag}
use marzban.Operations.{Reads, Email, Account, NodeInbound, forbids_flow, email_of}

-- `User.status.in_([UserStatus.active, UserStatus.on_hold])`
unfoldable pub has_access : User → Bool
unfolding status_eq
has_access u = status_eq u.status active || status_eq u.status on_hold

-- `inbounds_by_protocol.get(proxy_type)` has the inbound.
unfoldable pub speaks : NodeInbound → ProxyTypes → Bool
unfolding type_eq
speaks i t = elim (i.protocol) [ none ↦ false | some p ↦ type_eq t p ]

-- `client`, without the flow if XTLS cannot use it on the inbound.
unfoldable pub client : Reads → NodeInbound → Email → Proxy → Account
unfolding forbids_flow
client r i email p = record {
  email = email;
  type = p.type;
  settings = p.settings;
  flow_cleared = r.flow p.type p.settings && forbids_flow (some i);
}

-- The rows of a user for an inbound.
unfoldable pub clients_of : Reads → NodeInbound → Email → List Proxy → List Account
unfolding speaks client has_tag
clients_of r i email [] = []
clients_of r i email (p ∷ ps) =
    let rest = clients_of r i email ps in
    if speaks i p.type && not (has_tag i.tag p.excluded_inbounds)
    then client r i email p ∷ rest
    else rest

-- The clients that are appended to the inbound.
unfoldable pub inbound_clients : Reads → NodeInbound → List User → List Account
unfolding clients_of has_access
inbound_clients r i [] = []
inbound_clients r i (u ∷ users) =
    let rest = inbound_clients r i users in
    if has_access u then clients_of r i (email_of u) u.proxies ++ rest else rest

-- `include_db_users`: the clients of each inbound of the configuration.
unfoldable pub include_db_users :
    Reads → List User → List NodeInbound → List (String × List Account)
unfolding inbound_clients
include_db_users r users [] = []
include_db_users r users (i ∷ l) = (i.tag, inbound_clients r i users) ∷ include_db_users r users l
