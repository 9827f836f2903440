-- ===== src/Configs/Users.antt =====
-- app/db/crud/proxy_inbounds.py: the proxies of the users when inbounds come and go.
use marzban.Common.{
  String, Bool, true, false, not, ◌&&◌, Option, none, some, List, [], ◌∷◌, ◌++◌, str_eq,
  if◌then◌else◌, keep, map, is_some,
}
use marzban.Common.Text.{is_empty}
use marzban.User.{User, Proxy, ProxyTypes, vmess, vless, trojan, shadowsocks, hysteria, type_eq}
use marzban.Registry.{has_tag, from_keys}
use marzban.Configs.{ConfigRow}

-- `ProxyTypes(protocol)`, where `none` is its `ValueError`
unfoldable pub proxy_type_of : String → Option ProxyTypes
proxy_type_of s =
    if str_eq s "vmess"
    then some vmess
    else if str_eq s "vless"
    then some vless
    else if str_eq s "trojan"
    then some trojan
    else if str_eq s "shadowsocks"
    then some shadowsocks
    else if str_eq s "hysteria"
    then some hysteria
    else none

-- `inbound.tag in tags`, over the rows of the inbounds
unfoldable pub tags_in : List String → List ConfigRow → List String
unfolding has_tag
tags_in tags [] = []
tags_in tags (r ∷ rows) =
    let rest = tags_in tags rows in if has_tag r.tag tags then r.tag ∷ rest else rest

-- The proxy of a type: `none` if the user has none.
unfoldable pub proxy_of : ProxyTypes → List Proxy → Option Proxy
unfolding type_eq
proxy_of p [] = none
proxy_of p (x ∷ l) = let rest = proxy_of p l in if type_eq x.type p then some x else rest

abbrev pub no_tags : List String → Bool
no_tags [] = true
no_tags (t ∷ l) = false

-- The tags that the inbounds' settings do not exclude, each once, and no empty one.
unfoldable pub usable : (String → Bool) → List String → List String
unfolding from_keys
usable excluded tags = keep (λ t. not (is_empty t) && not (excluded t)) (from_keys [] tags)

-- The tags of the protocol that a new proxy leaves out.
unfoldable pub left_out : (String → Bool) → List String → List String → List String
unfolding from_keys has_tag
left_out excluded included tags =
    keep (λ t. not (has_tag t included) && not (excluded t)) (from_keys [] tags)

-- The user with a proxy of a type, made with the settings given if it has none.
unfoldable pub ensure_proxy : ProxyTypes → String → List String → User → User
unfolding proxy_of
ensure_proxy p settings tags u = if is_some (proxy_of p u.proxies) then u else record u {
  proxies = u.proxies ++ record { type = p; settings = settings; excluded_inbounds = tags } ∷ [];
}

-- `ensure_protocol_inbounds_for_users`, where `settings` are those that `settings_model` makes for a
-- user, and `excluded` is the membership in `XRAY_EXCLUDE_INBOUND_TAGS`.
unfoldable pub ensure_protocol_inbounds_for_users :
    (String → Bool)
    → (User → String)
    → List ConfigRow
    → String
    → List String
    → List String
    → List User
    → List User
unfolding proxy_type_of usable left_out tags_in ensure_proxy
ensure_protocol_inbounds_for_users excluded settings rows protocol included_tags protocol_tags
      users =
    elim (proxy_type_of protocol) [
      | none ↦ users
      | some p ↦
          let included = usable excluded included_tags in
          if no_tags included
          then users
          else map
              (λ u.
                ensure_proxy p (settings u)
                  (tags_in (left_out excluded included protocol_tags) rows) u)
              users
    ]

-- `proxy.excluded_inbounds.extend(...)`
unfoldable pub exclude_tags : List String → List String → List String
unfolding has_tag
exclude_tags tags current = current ++ keep (λ t. not (has_tag t current)) tags

-- The proxies of a type, with tags excluded.
unfoldable pub exclude_of : ProxyTypes → List String → List Proxy → List Proxy
unfolding exclude_tags type_eq
exclude_of p tags [] = []
exclude_of p tags (x ∷ l) =
    let changed = record x { excluded_inbounds = exclude_tags tags x.excluded_inbounds } in
    (if type_eq x.type p then changed else x) ∷ exclude_of p tags l

unfoldable pub exclude_from : ProxyTypes → List String → User → User
unfolding exclude_of
exclude_from p tags u = record u { proxies = exclude_of p tags u.proxies }

-- `exclude_protocol_inbounds_for_users`. A table without the tags changes nothing.
unfoldable pub exclude_protocol_inbounds_for_users :
    (String → Bool) → List ConfigRow → String → List String → List User → List User
unfolding proxy_type_of usable tags_in exclude_from
exclude_protocol_inbounds_for_users excluded rows protocol excluded_tags users =
    elim (proxy_type_of protocol) [
      | none ↦ users
      | some p ↦ map (exclude_from p (tags_in (usable excluded excluded_tags) rows)) users
    ]
