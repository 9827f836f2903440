-- ===== src/Hosts/Groups.antt =====
-- app/db/crud/proxy_hosts.py: the groups of a host.
use marzban.Common.{
  String, true, false, not, ◌&&◌, ◌||◌, List, [], ◌∷◌, eq_iff, keep, ◌≡◌, ◌⊎◌, refl, sym, ◌∙◌, inl,
  inr, Bool-cases, arith,
}
use marzban.World.{ok, err, value_error}
use marzban.Registry.{has_tag, from_keys}
use marzban.Registry.Selection.{has_tag-from_keys, has_tag-keep, has_tag-append}
use marzban.Hosts.{
  ProxyHost, all_exist, get_existing_host_groups, set_host_groups, attach_groups,
  attach_host_groups, detach_host_groups,
}

-- The groups of a host after each of the three changes by a list of ids.
abbrev pub Changed : List String → ProxyHost → ProxyHost → ProxyHost → ProxyHost → Type 0
Changed group_ids h a b c =
    (g : String)
    → (has_tag g a.groups ≡ has_tag g group_ids)
      × (has_tag g b.groups ≡ (has_tag g h.groups || has_tag g group_ids))
      × (has_tag g c.groups ≡ (has_tag g h.groups && not (has_tag g group_ids)))

missing_group :
    (groups l : List String)
    → all_exist groups l ≡ false
    → (g : String) × (has_tag g l ≡ true) × (has_tag g groups ≡ false)
unfolding all_exist has_tag
missing_group groups [] h = cc
missing_group groups (g ∷ l) h = elim (Bool-cases (has_tag g groups)) [
  | inr e ↦ (g, rw ((eq_iff g g).1 refl) refl, e)
  | inl e ↦
      let rest = missing_group groups l (ground arith) in
      let there = rest.1 in (rest.0, ground arith, rest.2)
]

-- The answers of the three changes by the same ids.
abbrev pub GroupAnswers : List String → List String → ProxyHost → Type 0
GroupAnswers groups group_ids h =
    ((a : ProxyHost) × (b : ProxyHost) × (c : ProxyHost) × (set_host_groups groups group_ids h
        ≡ ok a)
      × (attach_host_groups groups group_ids h ≡ ok b)
      × (detach_host_groups groups group_ids h ≡ ok c)
      × Changed group_ids h a b c)
    ⊎ ((g : String) × (has_tag g group_ids ≡ true)
        × (has_tag g groups ≡ false)
        × (set_host_groups groups group_ids h ≡ err value_error)
        × (attach_host_groups groups group_ids h ≡ err value_error)
        × (detach_host_groups groups group_ids h ≡ err value_error))

-- `set_host_groups`, `attach_host_groups` and `detach_host_groups` with the same ids either all
-- answer, and the host is then in the groups given, in those and the ones it was in, and in those it
-- was in but the ones given; or all raise a `ValueError`, and a group given is not in the table.
pub set_host_groups-attach_host_groups :
    (groups group_ids : List String) (h : ProxyHost) → GroupAnswers groups group_ids h
unfolding set_host_groups attach_host_groups detach_host_groups get_existing_host_groups
    attach_groups has_tag
set_host_groups-attach_host_groups groups group_ids h =
    let unique_ids = from_keys [] group_ids in
    elim (Bool-cases (all_exist groups unique_ids)) [
      | inl e ↦ inl (
        record h { groups = unique_ids },
        record h { groups = attach_groups unique_ids h.groups },
        record h { groups = keep (λ g. not (has_tag g group_ids)) h.groups },
        rw e refl,
        rw e refl,
        rw e refl,
        λ g. (
          has_tag-from_keys g [] group_ids,
          has_tag-append g h.groups (keep (λ x. not (has_tag x h.groups)) unique_ids)
              ∙ added g unique_ids,
          has_tag-keep (λ x. not (has_tag x group_ids)) g h.groups,
        ),
      )
      | inr e ↦
          let out = missing_group groups unique_ids e in
          inr (
            out.0,
            sym (has_tag-from_keys out.0 [] group_ids) ∙ out.1,
            out.2,
            rw e refl,
            rw e refl,
            rw e refl,
          )
    ]
  where
    added :
        (g : String) (l : List String)
        → (has_tag g h.groups
            || has_tag g (keep (λ x. not (has_tag x h.groups)) (from_keys [] group_ids)))
          ≡ (has_tag g h.groups || has_tag g group_ids)
    added g l =
        let kept = has_tag-keep (λ x. not (has_tag x h.groups)) g (from_keys [] group_ids) in
        let keys = has_tag-from_keys g [] group_ids in ground arith
