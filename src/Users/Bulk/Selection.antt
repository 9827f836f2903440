-- ===== src/Users/Bulk/Selection.antt =====
-- The inbounds of a user that was created with a selection.
use marzban.Common.{◌≡◌, ap₂, String, List, [], ◌∷◌, keep, arith, inl, inr}
use marzban.User.{ProxyTypes, Proxy}
use marzban.World.{ok, Result-cases}
use marzban.Registry.{
  Inbound, Selected, by_protocol, has_tag, selected_of, tags_or_none, excluded_of, user_inbounds,
}
use marzban.Registry.Selection.{without_twice}
use marzban.Users.Proxies.{get_inbounds_or_raise}
use marzban.Users.Bulk.{create_proxies}

-- The enabled tags of each protocol that are selected, in the order of the registry.
abbrev pub enabled_selection : List Inbound → Selected → List (ProxyTypes × String) → Selected
enabled_selection reg sel [] = []
enabled_selection reg sel ((t, s) ∷ l) =
    (t, keep (λ tag. has_tag tag (tags_or_none (selected_of sel t))) (by_protocol reg t))
    ∷ enabled_selection reg sel l

get_inbounds_or_raise-eq :
    (known tags found : List String) → get_inbounds_or_raise known tags ≡ ok found → found ≡ tags
unfolding get_inbounds_or_raise
get_inbounds_or_raise-eq known [] found h = cc
get_inbounds_or_raise-eq known (t ∷ l) found h =
    elim (Result-cases (get_inbounds_or_raise known l)) [
      | inr (e, x) ↦ absurd (ground arith)
      | inl (rest, x) ↦ ground (arith, get_inbounds_or_raise-eq known l rest x)
    ]

-- The proxies that `create_user` makes of a selection, of which the excluded tags alone are stored,
-- give the selection back as the user's inbounds: of each protocol the enabled tags that were
-- selected, in the order of the registry.
pub user_inbounds-create_proxies :
    (reg : List Inbound) (known : List String) (sel : Selected) (new : List (ProxyTypes × String))
    (ps : List Proxy)
    → create_proxies reg known sel new ≡ ok ps
    → user_inbounds reg ps ≡ enabled_selection reg sel new
unfolding create_proxies user_inbounds
user_inbounds-create_proxies reg known sel [] ps h = let e : ps ≡ [] = cc in rw e
user_inbounds-create_proxies reg known sel ((t, s) ∷ l) ps h =
    elim (Result-cases (get_inbounds_or_raise known (excluded_of reg sel t))) [
      | inr (e, x) ↦ absurd (ground arith)
      | inl (tags, x) ↦ elim (Result-cases (create_proxies reg known sel l)) [
        | inr (e, y) ↦ absurd (ground arith)
        | inl (others, y) ↦
            let e : ps ≡ record { type = t; settings = s; excluded_inbounds = tags } ∷ others =
              ground arith in
            let given = get_inbounds_or_raise-eq known (excluded_of reg sel t) tags x in
            rw (e, given)
              (ap₂ (λ a b. (t, a) ∷ b)
                (without_twice (tags_or_none (selected_of sel t)) (by_protocol reg t))
                (user_inbounds-create_proxies reg known sel l others y))
      ]
    ]
