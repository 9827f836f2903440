-- ===== src/Registry.antt =====
-- app/utils/xray_config_registry.py: the enabled inbounds, and the checks and complements of the
-- tags that a user selects.
pub mod Selection
use marzban.Common.{
  ℕ, String, Bool, true, false, not, ◌||◌, Option, none, some, List, [], ◌∷◌, str_eq, if◌then◌else◌,
}
use marzban.User.{Proxy, ProxyTypes, type_eq}
use marzban.World.{Result, ok, err, value_error, ◌>>=◌}

-- An inbound as XRayConfig resolved it. The two dicts of `InboundRegistry` are views of the list.
pub record Inbound : Type 0 where
  pub tag : String
  pub protocol : ProxyTypes

-- `inbounds_by_protocol.get(protocol, [])`, as tags
unfoldable pub by_protocol : List Inbound → ProxyTypes → List String
unfolding type_eq
by_protocol [] p = []
by_protocol (i ∷ l) p =
    let rest = by_protocol l p in if type_eq i.protocol p then i.tag ∷ rest else rest

-- `inbounds_by_tag.get(tag)`: the last inbound of a tag is the one that the dict holds.
unfoldable pub by_tag : List Inbound → String → Option Inbound
by_tag [] t = none
by_tag (i ∷ l) t = elim (by_tag l t) [
  | some j ↦ some j
  | none ↦ if str_eq i.tag t then some i else none
]

unfoldable pub has_tag : String → List String → Bool
has_tag t [] = false
has_tag t (s ∷ l) = str_eq s t || has_tag t l

-- `list(dict.fromkeys(tags))`: each tag once, where it stands first.
unfoldable pub from_keys : List String → List String → List String
unfolding has_tag
from_keys seen [] = []
from_keys seen (t ∷ l) =
    let again = from_keys seen l in
    let fresh = t ∷ from_keys (t ∷ seen) l in if has_tag t seen then again else fresh

-- The checks on one tag of one protocol.
unfoldable pub check_tags : List Inbound → ProxyTypes → List String → Result (List String)
unfolding by_tag type_eq
check_tags reg p [] = ok []
check_tags reg p (t ∷ l) =
    let rest = check_tags reg p l in
    elim (by_tag reg t) [
      | none ↦ err value_error
      | some i ↦
          if type_eq i.protocol p then (rest >>= λ checked. ok (t ∷ checked)) else err value_error
    ]

abbrev pub Selected : Type 0
Selected = List (ProxyTypes × List String)

-- `selected.get(proxy_type)`
unfoldable pub selected_of : Selected → ProxyTypes → Option (List String)
unfolding type_eq
selected_of [] p = none
selected_of ((q, tags) ∷ l) p =
    let rest = selected_of l p in if type_eq q p then some tags else rest

-- The tags given for a protocol, or all of it with `fill_missing`, or none.
unfoldable pub chosen_tags : List Inbound → Selected → Bool → ProxyTypes → Option (List String)
unfolding by_protocol selected_of
chosen_tags reg selected fill_missing p = elim (selected_of selected p) [
  | some tags ↦ some tags
  | none ↦ if fill_missing then some (by_protocol reg p) else none
]

-- `none`: the `continue` of a protocol that nothing is given for.
unfoldable pub check_chosen :
    List Inbound → ProxyTypes → Option (List String) → Result (Option (List String))
unfolding by_protocol from_keys check_tags
check_chosen reg p none = ok none
check_chosen reg p (some tags) = elim (by_protocol reg p) [
  | [] ↦ err value_error
  | a ∷ l ↦ check_tags reg p (from_keys [] tags) >>= λ checked. ok (some checked)
]

-- The round of `normalize_user_inbounds` for one protocol.
unfoldable pub normalize_one :
    List Inbound → Selected → Bool → ProxyTypes → Result (Option (List String))
unfolding chosen_tags check_chosen
normalize_one reg selected fill_missing p =
    check_chosen reg p (chosen_tags reg selected fill_missing p)

unfoldable pub normalize_user_inbounds :
    List Inbound → List ProxyTypes → Selected → Bool → Result Selected
unfolding normalize_one
normalize_user_inbounds reg [] selected fill_missing = ok []
normalize_user_inbounds reg (p ∷ ps) selected fill_missing =
    let rest = normalize_user_inbounds reg ps selected fill_missing in
    normalize_one reg selected fill_missing p >>= λ one.
    rest >>= λ others. ok (elim one [ none ↦ others | some tags ↦ (p, tags) ∷ others ])

abbrev pub protocols : Selected → List ProxyTypes
protocols [] = []
protocols ((p, tags) ∷ l) = p ∷ protocols l

unfoldable pub validate_selected_inbounds : List Inbound → Selected → Result Selected
unfolding normalize_user_inbounds
validate_selected_inbounds reg inbounds =
    normalize_user_inbounds reg (protocols inbounds) inbounds false

-- The tags of a protocol that are not selected.
unfoldable pub without_tags : List String → List String → List String
unfolding has_tag
without_tags tags [] = []
without_tags tags (t ∷ l) =
    let rest = without_tags tags l in if has_tag t tags then rest else t ∷ rest

abbrev pub tags_or_none : Option (List String) → List String
tags_or_none none = []
tags_or_none (some tags) = tags

unfoldable pub excluded_of : List Inbound → Selected → ProxyTypes → List String
unfolding by_protocol without_tags selected_of
excluded_of reg selected p =
    without_tags (tags_or_none (selected_of selected p)) (by_protocol reg p)

unfoldable pub get_excluded_inbound_tags : List Inbound → List ProxyTypes → Selected → Selected
unfolding excluded_of
get_excluded_inbound_tags reg [] selected = []
get_excluded_inbound_tags reg (p ∷ ps) selected =
    (p, excluded_of reg selected p) ∷ get_excluded_inbound_tags reg ps selected

-- `User.inbounds` of app/db/models/users.py: the enabled tags that a proxy does not exclude.
unfoldable pub user_inbounds : List Inbound → List Proxy → Selected
unfolding by_protocol without_tags
user_inbounds reg [] = []
user_inbounds reg (p ∷ ps) =
    (p.type, without_tags p.excluded_inbounds (by_protocol reg p.type)) ∷ user_inbounds reg ps
