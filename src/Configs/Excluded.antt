-- ===== src/Configs/Excluded.antt =====
-- `exclude_protocol_inbounds_for_users` of app/db/crud/proxy_inbounds.py: an inbound that no user gets.
use marzban.Common.{
  String, Bool, true, false, not, ◌&&◌, ◌||◌, some, List, [], ◌∷◌, str_eq, eq_iff, keep, map, All,
  ◌≡◌, refl, ap, ◌∙◌, inl, inr, Bool-cases, arith, is_some,
}
use marzban.Common.Text.{is_empty}
use marzban.Table.{Rows}
use marzban.User.{User, Proxy, ProxyTypes, type_eq}
use marzban.Registry.{Inbound, has_tag, from_keys, by_protocol, user_inbounds, Selected}
use marzban.Registry.Selection.{has_tag-from_keys, has_tag-without, has_tag-keep, has_tag-append}
use marzban.Configs.{ConfigRow, get_row}
use marzban.Configs.Users.{
  proxy_type_of, tags_in, usable, left_out, exclude_tags, exclude_of, exclude_from,
  exclude_protocol_inbounds_for_users,
}

pub has_tag-tags_in :
    (t : String) (tags : List String) (rows : List ConfigRow)
    → has_tag t (tags_in tags rows) ≡ (has_tag t tags && is_some (get_row t rows))
unfolding tags_in has_tag get_row
has_tag-tags_in t tags [] = ground arith
has_tag-tags_in t tags (r ∷ rows) = elim (Bool-cases (str_eq r.tag t)) [
  | inl e ↦
      let same : has_tag r.tag tags ≡ has_tag t tags =
        ap (λ x. has_tag x tags) ((eq_iff r.tag t).0 e) in
      let rest = has_tag-tags_in t tags rows in ground arith
  | inr e ↦ let rest = has_tag-tags_in t tags rows in ground arith
]

-- The tags that a list of tags becomes: each that is not empty and not excluded by the settings.
has_tag-usable :
    (excluded : String → Bool) (t : String) (tags : List String)
    → has_tag t (usable excluded tags) ≡ (has_tag t tags && (not (is_empty t) && not (excluded t)))
unfolding usable has_tag
has_tag-usable excluded t tags =
    has_tag-keep (λ x. not (is_empty x) && not (excluded x)) t (from_keys [] tags)
    ∙ ap (λ b. b && (not (is_empty t) && not (excluded t))) (has_tag-from_keys t [] tags)

pub has_tag-left_out :
    (excluded : String → Bool) (t : String) (included tags : List String)
    → has_tag t (left_out excluded included tags)
      ≡ (has_tag t tags && (not (has_tag t included) && not (excluded t)))
unfolding left_out has_tag
has_tag-left_out excluded t included tags =
    has_tag-keep (λ x. not (has_tag x included) && not (excluded x)) t (from_keys [] tags)
    ∙ ap (λ b. b && (not (has_tag t included) && not (excluded t))) (has_tag-from_keys t [] tags)

has_tag-exclude_tags :
    (t : String) (tags current : List String)
    → has_tag t (exclude_tags tags current) ≡ (has_tag t current || has_tag t tags)
unfolding exclude_tags
has_tag-exclude_tags t tags current =
    let added = has_tag-keep (λ x. not (has_tag x current)) t tags in
    has_tag-append t current (keep (λ x. not (has_tag x current)) tags) ∙ ground arith

-- A proxy before and after: the tags of a list are left out of those of one type.
abbrev pub LeftOut : ProxyTypes → List String → Proxy → Proxy → Type 0
LeftOut p tags x y =
    (y.type ≡ x.type)
    × (y.settings ≡ x.settings)
    × ((t : String)
        → has_tag t y.excluded_inbounds
          ≡ (has_tag t x.excluded_inbounds || (type_eq x.type p && has_tag t tags)))

exclude_of-LeftOut :
    (p : ProxyTypes) (tags : List String) (l : List Proxy)
    → Rows (LeftOut p tags) l (exclude_of p tags l)
unfolding exclude_of
exclude_of-LeftOut p tags [] = tt
exclude_of-LeftOut p tags (x ∷ l) = elim (Bool-cases (type_eq x.type p)) [
  | inl e ↦ rw e (
    (refl, refl, λ t. has_tag-exclude_tags t tags x.excluded_inbounds),
    exclude_of-LeftOut p tags l,
  )
  | inr e ↦ rw e ((refl, refl, λ t. ground arith), exclude_of-LeftOut p tags l)
]

-- The tags of a user's inbounds of one protocol do not have a tag.
abbrev pub Lacks : ProxyTypes → String → Selected → Type 0
Lacks p k l = All (λ e. (type_eq e.0 p && has_tag k e.1) ≡ false) l

exclude_of-Lacks :
    (reg : List Inbound) (p : ProxyTypes) (k : String) (tags : List String) (l : List Proxy)
    → has_tag k tags ≡ true
    → Lacks p k (user_inbounds reg (exclude_of p tags l))
unfolding exclude_of user_inbounds
exclude_of-Lacks reg p k tags [] h = tt
exclude_of-Lacks reg p k tags (x ∷ l) h = elim (Bool-cases (type_eq x.type p)) [
  | inl e ↦
      let left =
        has_tag-without k (exclude_tags tags x.excluded_inbounds) (by_protocol reg x.type) in
      let out = has_tag-exclude_tags k tags x.excluded_inbounds in
      rw (exclude_of, e) (rw e (left ∙ ground arith), exclude_of-Lacks reg p k tags l h)
  | inr e ↦ rw (exclude_of, e) (rw e refl, exclude_of-Lacks reg p k tags l h)
]

All-exclude_from :
    (reg : List Inbound) (p : ProxyTypes) (k : String) (tags : List String) (users : List User)
    → has_tag k tags ≡ true
    → All (λ v. Lacks p k (user_inbounds reg v.proxies)) (map (exclude_from p tags) users)
unfolding exclude_from
All-exclude_from reg p k tags [] h = tt
All-exclude_from reg p k tags (u ∷ users) h =
    (exclude_of-Lacks reg p k tags u.proxies h, All-exclude_from reg p k tags users h)

exclude_from-Rows :
    (p : ProxyTypes) (tags : List String) (users : List User)
    → Rows
        (λ u v. (v.id ≡ u.id) × Rows (LeftOut p tags) u.proxies v.proxies)
        users
        (map (exclude_from p tags) users)
unfolding exclude_from
exclude_from-Rows p tags [] = tt
exclude_from-Rows p tags (u ∷ users) =
    ((refl, exclude_of-LeftOut p tags u.proxies), exclude_from-Rows p tags users)

-- A tag of a protocol that is excluded, where it is a usable tag of an inbound in the table, is
-- afterwards in no user's inbounds of that protocol, whatever inbounds are enabled; each proxy keeps
-- what it excluded, and leaves out nothing else than the tags that were given for its protocol.
pub exclude_protocol_inbounds_for_users-Lacks :
    (excluded : String → Bool) (rows : List ConfigRow) (protocol k : String) (tags : List String)
    (p : ProxyTypes) (users : List User) (reg : List Inbound)
    → proxy_type_of protocol ≡ some p
    → has_tag k (usable excluded tags) ≡ true
    → is_some (get_row k rows) ≡ true
    → All
        (λ v. Lacks p k (user_inbounds reg v.proxies))
        (exclude_protocol_inbounds_for_users excluded rows protocol tags users)
      × Rows
          (λ u v.
            (v.id ≡ u.id)
            × Rows (LeftOut p (tags_in (usable excluded tags) rows)) u.proxies v.proxies)
          users
          (exclude_protocol_inbounds_for_users excluded rows protocol tags users)
unfolding exclude_protocol_inbounds_for_users
exclude_protocol_inbounds_for_users-Lacks excluded rows protocol k tags p users reg e h there =
    let found : has_tag k (tags_in (usable excluded tags) rows) ≡ true =
      has_tag-tags_in k (usable excluded tags) rows ∙ ground arith in
    rw (exclude_protocol_inbounds_for_users, e)
      (
        All-exclude_from reg p k (tags_in (usable excluded tags) rows) users found,
        exclude_from-Rows p (tags_in (usable excluded tags) rows) users,
      )
