-- ===== src/Operations.antt =====
-- app/xray/operations.py: the calls that `add_user`, `update_user` and `remove_user` make to the
-- cores of the nodes, and what the calls do to the accounts of a core. The threads of the calls
-- are taken in the order in which they are started; calls that do not reach a node are not made.
pub mod Calls
pub mod Loops
pub mod Accounts
pub mod Listed
use marzban.Common.{
  ℕ, String, Bool, true, false, not, ◌&&◌, ◌||◌, Option, none, some, List, [], ◌∷◌, ◌++◌, ◌==◌,
  keep, any_of, is_some, str_eq, first, if◌then◌else◌,
}
use marzban.User.{User, Proxy, ProxyTypes, vless, vmess, trojan, shadowsocks, hysteria, type_eq}
use marzban.Registry.{Inbound, Selected, has_tag, user_inbounds}

-- `f"{dbuser.id}.{dbuser.username}"`
pub record Email : Type 0 where
  pub id : ℕ
  pub username : String

-- An inbound of a node's registry, as far as it is read. The protocol is `none` where it is not a
-- value of `ProxyTypes`.
pub record NodeInbound : Type 0 where
  pub tag : String
  pub protocol : Option ProxyTypes
  pub network : String
  pub tls : String
  pub header_type : String

-- An entry of `xray.nodes`, with the registry of the node.
pub record Node : Type 0 where
  pub id : ℕ
  pub connected : Bool
  pub started : Bool
  pub inbounds : List NodeInbound

-- The account of a proxy; `flow_cleared` where `flow` was replaced by `XTLSFlows.NONE`.
pub record Account : Type 0 where
  pub email : Email
  pub type : ProxyTypes
  pub settings : String
  pub flow_cleared : Bool

-- A call of `_add_user_to_inbound`, `_alter_inbound_user` or `_remove_user_from_inbound`.
pub data ApiCall : Type 0 where
  add alter : ℕ → String → Account → ApiCall
  remove : ℕ → String → Email → ApiCall

-- What is read of the settings of a proxy: the method of shadowsocks, and whether the account of a type has a flow.
pub record Reads : Type 0 where
  pub method : String → String
  pub flow : ProxyTypes → String → Bool

-- The calls, and the inbounds for which the nodes are restarted instead.
pub record Work : Type 0 where
  pub calls : List ApiCall
  pub restart_only_inbounds : List String

abbrev pub both : Work → Work → Work
both a b = record {
  calls = a.calls ++ b.calls;
  restart_only_inbounds = a.restart_only_inbounds ++ b.restart_only_inbounds;
}

abbrev pub no_work : Work
no_work = record { calls = []; restart_only_inbounds = [] }

unfoldable pub supports_runtime_api : ProxyTypes → Bool
supports_runtime_api vmess = true
supports_runtime_api vless = true
supports_runtime_api trojan = true
supports_runtime_api shadowsocks = true
supports_runtime_api hysteria = true

abbrev runtime_methods : List String
runtime_methods =
    "aes-128-gcm" ∷ "aes-256-gcm" ∷ "chacha20-ietf-poly1305" ∷ "xchacha20-poly1305" ∷ []

unfoldable pub supports_runtime_account : Reads → ProxyTypes → String → Bool
unfolding supports_runtime_api has_tag
supports_runtime_account r shadowsocks settings = has_tag (r.method settings) runtime_methods
supports_runtime_account r t settings = supports_runtime_api t

-- `inbound_node_ids.get(tag, set())`
unfoldable pub ids_of : List (String × List ℕ) → String → List ℕ
ids_of [] t = []
ids_of ((s, ids) ∷ l) t = if str_eq s t then ids else ids_of l t

abbrev pub has_id : ℕ → List ℕ → Bool
has_id id ids = any_of (λ i. i == id) ids

unfoldable pub serves : List (String × List ℕ) → String → Node → Bool
unfolding ids_of
serves map tag n = has_id n.id (ids_of map tag) && n.connected && n.started

-- `user.proxies[proxy_type]`
unfoldable pub settings_of : ProxyTypes → List Proxy → Option String
unfolding type_eq
settings_of t [] = none
settings_of t (p ∷ ps) = if type_eq p.type t then some p.settings else settings_of t ps

abbrev pub one_of : String → List String → Bool
one_of s l = has_tag s l

-- An inbound that XTLS flows cannot be used on, by its defaults where the node does not have it.
unfoldable pub forbids_flow : Option NodeInbound → Bool
unfolding has_tag
forbids_flow none = true
forbids_flow (some i) =
    not (one_of i.network ("tcp" ∷ "raw" ∷ "kcp" ∷ []))
    || not (one_of i.tls ("tls" ∷ "reality" ∷ []))
    || str_eq i.header_type "http"

unfoldable pub account_on : Reads → Email → ProxyTypes → String → String → Node → Account
unfolding forbids_flow
account_on r email t settings tag n = record {
  email = email;
  type = t;
  settings = settings;
  flow_cleared = r.flow t settings && forbids_flow (first (λ i. str_eq i.tag tag) n.inbounds);
}

-- The loop over `xray.nodes`.
unfoldable pub on_nodes : (Node → ApiCall) → (Node → Bool) → List Node → List ApiCall
on_nodes make p [] = []
on_nodes make p (n ∷ l) = if p n then make n ∷ on_nodes make p l else on_nodes make p l

module _ (r : Reads) (map : List (String × List ℕ)) (nodes : List Node) (email : Email)
    (ps : List Proxy) where
  -- The body of the loop over a user's tags; `make` is `add` or `alter`.
  unfoldable pub tag_work : (ℕ → String → Account → ApiCall) → ProxyTypes → String → Work
  unfolding settings_of supports_runtime_account on_nodes serves account_on
  tag_work make t tag = elim (settings_of t ps) [
    | none ↦ no_work
    | some s ↦
        if supports_runtime_account r t s
        then record {
          calls =
              on_nodes (λ n. make n.id tag (account_on r email t s tag n)) (serves map tag) nodes;
          restart_only_inbounds = [];
        }
        else record { calls = []; restart_only_inbounds = tag ∷ [] }
  ]

  unfoldable pub tags_work : (ℕ → String → Account → ApiCall) → ProxyTypes → List String → Work
  unfolding tag_work
  tags_work make t [] = no_work
  tags_work make t (tag ∷ l) = both (tag_work make t tag) (tags_work make t l)

  unfoldable pub inbounds_work : (ℕ → String → Account → ApiCall) → Selected → Work
  unfolding tags_work
  inbounds_work make [] = no_work
  inbounds_work make ((t, tags) ∷ l) = both (tags_work make t tags) (inbounds_work make l)

abbrev pub all_tags : Selected → List String
all_tags [] = []
all_tags ((t, tags) ∷ l) = tags ++ all_tags l

abbrev lacks_api : Option ProxyTypes → Bool
lacks_api none = false
lacks_api (some t) = not (supports_runtime_api t)

-- Whether a node has an inbound of the tag of which the protocol has no runtime API.
unfoldable pub needs_restart : List Node → String → Bool
unfolding supports_runtime_api
needs_restart nodes tag =
    any_of (λ n. any_of (λ i. str_eq i.tag tag && lacks_api i.protocol) n.inbounds) nodes

-- The loop over `inbound_node_ids` that removes a user from the inbounds that are not active.
unfoldable pub removals :
    List (String × List ℕ) → List Node → Email → List String → List (String × List ℕ) → Work
unfolding needs_restart on_nodes serves has_tag
removals map nodes email active [] = no_work
removals map nodes email active ((tag, ids) ∷ l) =
    let rest = removals map nodes email active l in
    if has_tag tag active
    then rest
    else if needs_restart nodes tag
    then both (record { calls = []; restart_only_inbounds = tag ∷ [] }) rest
    else both
        (record {
          calls = on_nodes (λ n. remove n.id tag email) (serves map tag) nodes;
          restart_only_inbounds = [];
        })
        rest

abbrev pub email_of : User → Email
email_of u = record { id = u.id; username = u.username }

-- `user` is the response of the stored row, with the inbounds that the registry gives it.
unfoldable pub add_user : Reads → List Inbound → List (String × List ℕ) → List Node → User → Work
unfolding inbounds_work user_inbounds
add_user r reg map nodes u =
    inbounds_work r map nodes (email_of u) u.proxies add (user_inbounds reg u.proxies)

unfoldable pub update_user : Reads → List Inbound → List (String × List ℕ) → List Node → User → Work
unfolding inbounds_work removals user_inbounds
update_user r reg map nodes u =
    let inbounds = user_inbounds reg u.proxies in
    both (inbounds_work r map nodes (email_of u) u.proxies alter inbounds)
      (removals map nodes (email_of u) (all_tags inbounds) map)

-- A tag to restart for that the map does not have restarts no node, and is not listed.
unfoldable pub remove_user : List (String × List ℕ) → List Node → User → Work
unfolding removals
remove_user map nodes u = removals map nodes (email_of u) [] map

-- `_restart_inbound_nodes`: the ids of the nodes that are restarted.
unfoldable pub restart_inbound_nodes : List String → List (String × List ℕ) → List Node → List ℕ
unfolding ids_of
restart_inbound_nodes tags map [] = []
restart_inbound_nodes tags map (n ∷ l) =
    let rest = restart_inbound_nodes tags map l in
    if any_of (λ t. has_id n.id (ids_of map t)) tags && n.connected then n.id ∷ rest else rest
