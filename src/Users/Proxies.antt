-- ===== src/Users/Proxies.antt =====
-- The details of an update of app/models/user.py, and what `update_user` of app/db/crud/users.py
-- does with the proxies and their excluded inbounds.
use marzban.Common.{
  ℕ, String, Bool, false, ◌||◌, Option, none, some, List, [], ◌∷◌, keep, if◌then◌else◌,
}
use marzban.User.{UserStatus, Proxy, ProxyTypes, type_eq, UserDataLimitResetStrategy}
use marzban.World.{Result, ok, err, value_error, ◌>>=◌}
use marzban.Registry.{Inbound, Selected, has_tag, protocols, get_excluded_inbound_tags}

pub record NextPlanModel : Type 0 where
  pub data_limit : Option ℕ
  pub expire : Option ℕ
  pub add_remaining_traffic : Bool
  pub fire_on_either : Bool

-- `inbounds` is `none` where the field was not set in the request.
pub record UserModify : Type 0 where
  pub proxies : List (ProxyTypes × String)
  pub inbounds : Option Selected
  pub status : Option UserStatus
  pub data_limit : Option ℕ
  pub expire : Option ℕ
  pub note : Option String
  pub data_limit_reset_strategy : Option UserDataLimitResetStrategy
  pub on_hold_timeout : Option ℕ
  pub on_hold_expire_duration : Option ℕ
  pub next_plan : Option NextPlanModel

-- The settings of the proxy of a type, or a new proxy of that type.
unfoldable pub upsert_proxy : ProxyTypes → String → List Proxy → List Proxy
unfolding type_eq
upsert_proxy t s [] = record { type = t; settings = s; excluded_inbounds = [] } ∷ []
upsert_proxy t s (p ∷ ps) =
    let rest = upsert_proxy t s ps in
    if type_eq p.type t then record p { settings = s } ∷ ps else p ∷ rest

unfoldable pub upsert_proxies : List (ProxyTypes × String) → List Proxy → List Proxy
unfolding upsert_proxy
upsert_proxies [] ps = ps
upsert_proxies ((t, s) ∷ l) ps = upsert_proxies l (upsert_proxy t s ps)

unfoldable pub has_type : ProxyTypes → List (ProxyTypes × String) → Bool
unfolding type_eq
has_type t [] = false
has_type t ((u, s) ∷ l) = type_eq u t || has_type t l

-- `if modify.proxies:` the loop that deletes the proxies whose type is not given.
unfoldable pub drop_other_proxies : List (ProxyTypes × String) → List Proxy → List Proxy
unfolding has_type
drop_other_proxies [] ps = ps
drop_other_proxies (a ∷ l) ps = keep (λ p. has_type p.type (a ∷ l)) ps

-- `[get_inbound_or_raise(db, tag) for tag in tags]`, over the tags of the inbounds' table.
unfoldable pub get_inbounds_or_raise : List String → List String → Result (List String)
unfolding has_tag
get_inbounds_or_raise known [] = ok []
get_inbounds_or_raise known (t ∷ l) =
    let rest = get_inbounds_or_raise known l >>= λ tags. ok (t ∷ tags) in
    if has_tag t known then rest else err value_error

-- `dbproxy.excluded_inbounds = …` for the proxy of a type, if there is one.
unfoldable pub exclude_for :
    List String → ProxyTypes → List String → List Proxy → Result (List Proxy)
unfolding get_inbounds_or_raise type_eq
exclude_for known t tags [] = ok []
exclude_for known t tags (p ∷ ps) =
    let here = get_inbounds_or_raise known tags >>= λ found.
    ok (record p { excluded_inbounds = found } ∷ ps) in
    let later = exclude_for known t tags ps >>= λ rest. ok (p ∷ rest) in
    if type_eq p.type t then here else later

unfoldable pub exclude_all : List String → Selected → List Proxy → Result (List Proxy)
unfolding exclude_for
exclude_all known [] ps = ok ps
exclude_all known ((t, tags) ∷ l) ps = exclude_for known t tags ps >>= exclude_all known l

unfoldable pub update_proxies :
    List Inbound → List String → UserModify → List Proxy → Result (List Proxy)
unfolding upsert_proxies drop_other_proxies exclude_all get_excluded_inbound_tags
update_proxies reg known m ps =
    let upserted = upsert_proxies m.proxies ps in
    let excluded : Result (List Proxy) = elim m.inbounds [
      | none ↦ ok upserted
      | some sel ↦ exclude_all known (get_excluded_inbound_tags reg (protocols sel) sel) upserted
    ] in
    excluded >>= λ l. ok (drop_other_proxies m.proxies l)
