-- ===== src/Configs/Assigned.antt =====
-- `ensure_protocol_inbounds_for_users` of app/db/crud/proxy_inbounds.py: an inbound that is for all
-- users of its protocol.
use marzban.Common.{
  String, Bool, true, false, not, ◌&&◌, ◌||◌, none, some, List, [], ◌∷◌, ◌++◌, map, ◌≡◌, ◌⊎◌, refl,
  ◌∙◌, inl, inr, Bool-cases, Option-cases, arith, is_some,
}
use marzban.Table.{Rows}
use marzban.User.{User, Proxy, ProxyTypes, type_eq}
use marzban.Registry.{has_tag, without_tags}
use marzban.Registry.Selection.{has_tag-without}
use marzban.Configs.{ConfigRow, get_row}
use marzban.Configs.Users.{
  proxy_type_of, tags_in, proxy_of, no_tags, usable, left_out, ensure_proxy,
  ensure_protocol_inbounds_for_users,
}
use marzban.Configs.Excluded.{has_tag-tags_in, has_tag-left_out}

proxy_of-append :
    (p : ProxyTypes) (l : List Proxy) (x : Proxy)
    → proxy_of p l ≡ none
    → type_eq x.type p ≡ true
    → proxy_of p (l ++ x ∷ []) ≡ some x
unfolding proxy_of
proxy_of-append p [] x h e = rw e refl
proxy_of-append p (y ∷ l) x h e = elim (Bool-cases (type_eq y.type p)) [
  | inl d ↦ absurd (ground arith)
  | inr d ↦ rw d (proxy_of-append p l x (ground arith) e)
]

-- A user before and after it is given a proxy of a type that leaves out some tags: the tags of `all`
-- that the new proxy reaches are those that the test lets through.
abbrev pub Ensured : ProxyTypes → List String → (String → Bool) → User → User → Type 0
Ensured p all through u v =
    ((v ≡ u) × (is_some (proxy_of p u.proxies) ≡ true))
    ⊎ ((proxy_of p u.proxies ≡ none)
        × ((x : Proxy) × (v.proxies ≡ u.proxies ++ x ∷ [])
            × (proxy_of p v.proxies ≡ some x)
            × ((t : String)
                → has_tag t (without_tags x.excluded_inbounds all) ≡ (has_tag t all && through t))))

type_eq_self : (p : ProxyTypes) → type_eq p p ≡ true
unfolding type_eq
type_eq_self p = ground arith

-- The tags of the protocol that a new proxy reaches.
abbrev pub reaches : (String → Bool) → List String → List ConfigRow → String → Bool
reaches excluded included rows t =
    has_tag t included || excluded t || not (is_some (get_row t rows))

without-left_out :
    (excluded : String → Bool) (included all : List String) (rows : List ConfigRow) (t : String)
    → has_tag t (without_tags (tags_in (left_out excluded included all) rows) all)
      ≡ (has_tag t all && reaches excluded included rows t)
without-left_out excluded included all rows t =
    let out = has_tag-tags_in t (left_out excluded included all) rows in
    let left = has_tag-left_out excluded t included all in
    has_tag-without t (tags_in (left_out excluded included all) rows) all ∙ ground arith

ensure_proxy-Ensured :
    (excluded : String → Bool) (included all : List String) (rows : List ConfigRow) (p : ProxyTypes)
    (settings : String) (u : User)
    → Ensured p all
        (reaches excluded included rows)
        u
        (ensure_proxy p settings (tags_in (left_out excluded included all) rows) u)
unfolding ensure_proxy
ensure_proxy-Ensured excluded included all rows p settings u =
    elim (Option-cases (proxy_of p u.proxies)) [
      | inr (x, e) ↦ inl (rw (ensure_proxy, e) (refl, refl))
      | inl e ↦
          let new : Proxy = record {
            type = p;
            settings = settings;
            excluded_inbounds = tags_in (left_out excluded included all) rows;
          } in
          inr (
            e,
            (
              new,
              rw (ensure_proxy, e) refl,
              rw (ensure_proxy, e) (proxy_of-append p u.proxies new e (type_eq_self p)),
              without-left_out excluded included all rows,
            ),
          )
    ]

some_tags : (k : String) (l : List String) → has_tag k l ≡ true → no_tags l ≡ false
unfolding has_tag
some_tags k [] h = cc
some_tags k (t ∷ l) h = refl

map-Ensured :
    (excluded : String → Bool) (included all : List String) (rows : List ConfigRow) (p : ProxyTypes)
    (settings : User → String) (users : List User)
    → Rows (Ensured p all (reaches excluded included rows)) users (
        map
          (λ u. ensure_proxy p (settings u) (tags_in (left_out excluded included all) rows) u)
          users)
map-Ensured excluded included all rows p settings [] = tt
map-Ensured excluded included all rows p settings (u ∷ users) = (
  ensure_proxy-Ensured excluded included all rows p (settings u) u,
  map-Ensured excluded included all rows p settings users,
)

-- When an inbound is given to its protocol's users, and one of the tags given is usable: a user with
-- a proxy of the protocol is unchanged; every other user gets one, which reaches, of the protocol's
-- tags, those given, those that the settings exclude, and those that are not in the table.
pub ensure_protocol_inbounds_for_users-Ensured :
    (excluded : String → Bool) (settings : User → String) (rows : List ConfigRow)
    (protocol k : String) (tags all : List String) (p : ProxyTypes) (users : List User)
    → proxy_type_of protocol ≡ some p
    → has_tag k (usable excluded tags) ≡ true
    → Rows
        (Ensured p all (reaches excluded (usable excluded tags) rows))
        users
        (ensure_protocol_inbounds_for_users excluded settings rows protocol tags all users)
unfolding ensure_protocol_inbounds_for_users
ensure_protocol_inbounds_for_users-Ensured excluded settings rows protocol k tags all p users e h =
    rw (ensure_protocol_inbounds_for_users, e, some_tags k (usable excluded tags) h)
      (map-Ensured excluded (usable excluded tags) all rows p settings users)
