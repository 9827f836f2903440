-- ===== src/Hosts/Listed.antt =====
-- app/db/crud/proxy_hosts.py: the lists that the changes of the hosts leave.
use marzban.Common.{
  keep-append, append_empty, ℕ, suc, ◌<◌, String, Bool, true, false, not, ◌&&◌, Option, none, some,
  List, [], ◌∷◌, ◌++◌, map, str_eq, eq_iff, keep, All, ◌≡◌, refl, sym, ap, ap₂, ◌∙◌, inl, inr,
  Bool-cases, Option-cases, arith,
}
use marzban.Common.Sorting.{Ascending, sort_by-sorted}
use marzban.World.{ok, bind-ok, ok-injective}
use marzban.Positions.{comes_before, in_order}
use marzban.Configs.{ConfigRow, get_row}
use marzban.Configs.Rows.{get_row_tag}
use marzban.Hosts.{
  HostFields, or_false, with_defaults, ProxyHost, positioned, get_inbound_or_raise, or_raise,
  in_groups, get_hosts, new_hosts, update_hosts, get_next_host_position,
}

-- The hosts of one inbound.
abbrev of_inbound : String → ProxyHost → Bool
of_inbound tag h = str_eq h.inbound tag && in_groups [] h

in_groups_any : (h : ProxyHost) → in_groups [] h ≡ true
unfolding in_groups
in_groups_any h = refl

keep-of_inbound : (tag : String) (h : ProxyHost) → of_inbound tag h ≡ str_eq h.inbound tag
keep-of_inbound tag h = let any = in_groups_any h in ground arith

replaced-keep :
    (tag : String) (hosts : List ProxyHost)
    → keep (of_inbound tag) (keep (λ h. not (str_eq h.inbound tag)) hosts) ≡ []
replaced-keep tag [] = refl
replaced-keep tag (h ∷ hosts) = elim (Bool-cases (str_eq h.inbound tag)) [
  | inl e ↦ rw e (replaced-keep tag hosts)
  | inr e ↦ rw e (rw (keep-of_inbound tag h, e) (replaced-keep tag hosts))
]

others-keep :
    (tag other : String) (hosts : List ProxyHost)
    → str_eq tag other ≡ false
    → keep (of_inbound other) (keep (λ h. not (str_eq h.inbound tag)) hosts)
      ≡ keep (of_inbound other) hosts
others-keep tag other [] d = refl
others-keep tag other (h ∷ hosts) d = elim (Bool-cases (str_eq h.inbound tag)) [
  | inl e ↦
      let elsewhere : of_inbound other h ≡ false =
        keep-of_inbound other h ∙ ap (λ x. str_eq x other) ((eq_iff h.inbound tag).0 e) ∙ d in
      rw (e, elsewhere) (others-keep tag other hosts d)
  | inr e ↦ rw e (rw (others-keep tag other hosts d) refl)
]

new_hosts-keep :
    (tag : String) (id n : ℕ) (fields : List HostFields)
    → keep (of_inbound tag) (new_hosts tag id n fields) ≡ new_hosts tag id n fields
unfolding new_hosts
new_hosts-keep tag id n [] = refl
new_hosts-keep tag id n (f ∷ fields) =
    let first : ProxyHost = record {
      id = id;
      inbound = tag;
      position = n;
      fields = with_defaults f;
      groups = [];
    } in
    let kept : of_inbound tag first ≡ true = keep-of_inbound tag first ∙ (eq_iff tag tag).1 refl in
    rw kept (ap (λ t. first ∷ t) (new_hosts-keep tag (suc id) (suc n) fields))

new_hosts-keep_other :
    (tag other : String) (id n : ℕ) (fields : List HostFields)
    → str_eq tag other ≡ false
    → keep (of_inbound other) (new_hosts tag id n fields) ≡ []
unfolding new_hosts
new_hosts-keep_other tag other id n [] d = refl
new_hosts-keep_other tag other id n (f ∷ fields) d =
    rw d (new_hosts-keep_other tag other (suc id) (suc n) fields d)

new_hosts-fields :
    (tag : String) (id n : ℕ) (fields : List HostFields)
    → map (λ h. h.fields) (new_hosts tag id n fields) ≡ map with_defaults fields
unfolding new_hosts
new_hosts-fields tag id n [] = refl
new_hosts-fields tag id n (f ∷ fields) =
    ap (λ t. with_defaults f ∷ t) (new_hosts-fields tag (suc id) (suc n) fields)

new_hosts-later :
    (tag : String) (h : ProxyHost) (id n : ℕ) (fields : List HostFields)
    → h.position < n
    → All (λ g. comes_before positioned h g ≡ true) (new_hosts tag id n fields)
unfolding new_hosts comes_before
new_hosts-later tag h id n [] d = tt
new_hosts-later tag h id n (f ∷ fields) d =
    (ground arith, new_hosts-later tag h (suc id) (suc n) fields (omega arith))

new_hosts-Ascending :
    (tag : String) (id n : ℕ) (fields : List HostFields)
    → Ascending (comes_before positioned) (new_hosts tag id n fields)
unfolding new_hosts
new_hosts-Ascending tag id n [] = tt
new_hosts-Ascending tag id n (f ∷ fields) = (
  new_hosts-later tag
      (record { id = id; inbound = tag; position = n; fields = with_defaults f; groups = [] })
      (suc id) (suc n) fields (omega arith),
  new_hosts-Ascending tag (suc id) (suc n) fields,
)

-- The rows of `get_hosts`, of an inbound that there is.
get_hosts-eq :
    (inbounds : List ConfigRow) (tag : String) (hosts : List ProxyHost) (r : ConfigRow)
    → get_row tag inbounds ≡ some r
    → get_hosts inbounds tag [] hosts ≡ in_order positioned (keep (of_inbound tag) hosts)
unfolding get_hosts
get_hosts-eq inbounds tag hosts r e = rw (get_hosts, e) refl

or_raise-ok : (o : Option ConfigRow) (r : ConfigRow) → or_raise o ≡ ok r → o ≡ some r
or_raise-ok none r h = cc
or_raise-ok (some s) r h = ap some (ok-injective h)

found_inbound :
    (tag : String) (inbounds : List ConfigRow) (r : ConfigRow)
    → get_inbound_or_raise tag inbounds ≡ ok r
    → get_row tag inbounds ≡ some r
unfolding get_inbound_or_raise
found_inbound tag inbounds r h = or_raise-ok (get_row tag inbounds) r h

get_hosts_same :
    (inbounds : List ConfigRow) (other : String) (xs ys : List ProxyHost)
    → keep (of_inbound other) xs ≡ keep (of_inbound other) ys
    → get_hosts inbounds other [] xs ≡ get_hosts inbounds other [] ys
unfolding get_hosts
get_hosts_same inbounds other xs ys e = elim (Option-cases (get_row other inbounds)) [
  | inl d ↦ rw (get_hosts, d) refl
  | inr (r, d) ↦
      get_hosts-eq inbounds other xs r d
      ∙ ap (in_order positioned) e
      ∙ sym (get_hosts-eq inbounds other ys r d)
]

-- What the lists of the hosts are after those of an inbound are replaced.
replaced-in_order :
    (tag : String) (id n : ℕ) (modified : List HostFields) (hosts : List ProxyHost)
    → in_order positioned (
        keep
          (of_inbound tag)
          (keep (λ h. not (str_eq h.inbound tag)) hosts ++ new_hosts tag id n modified))
      ≡ new_hosts tag id n modified
unfolding in_order
replaced-in_order tag id n modified hosts =
    ap (in_order positioned) (
      keep-append (of_inbound tag) (keep (λ h. not (str_eq h.inbound tag)) hosts)
        (new_hosts tag id n modified)
      ∙ ap (λ t. t ++ keep (of_inbound tag) (new_hosts tag id n modified)) (replaced-keep tag hosts)
      ∙ new_hosts-keep tag id n modified)
    ∙ sort_by-sorted (comes_before positioned) (new_hosts tag id n modified)
        (new_hosts-Ascending tag id n modified)

others-in_order :
    (tag other : String) (id n : ℕ) (modified : List HostFields) (hosts : List ProxyHost)
    → str_eq tag other ≡ false
    → keep
        (of_inbound other)
        (keep (λ h. not (str_eq h.inbound tag)) hosts ++ new_hosts tag id n modified)
      ≡ keep (of_inbound other) hosts
others-in_order tag other id n modified hosts d =
    keep-append (of_inbound other) (keep (λ h. not (str_eq h.inbound tag)) hosts)
      (new_hosts tag id n modified)
    ∙ ap (λ t. keep (of_inbound other) (keep (λ h. not (str_eq h.inbound tag)) hosts) ++ t)
        (new_hosts-keep_other tag other id n modified d)
    ∙ append_empty (keep (of_inbound other) (keep (λ h. not (str_eq h.inbound tag)) hosts))
    ∙ others-keep tag other hosts d

-- A flag that is set.
abbrev pub is_set : Option Bool → Bool
is_set none = false
is_set (some b) = b

-- The host that a list shows for the one given.
abbrev pub shown : HostFields → HostFields
shown f = record f {
  is_disabled = some (is_set f.is_disabled);
  mux_enable = some (is_set f.mux_enable);
  random_user_agent = some (is_set f.random_user_agent);
  use_sni_as_host = some (is_set f.use_sni_as_host);
}

or_false-is_set : (o : Option Bool) → or_false o ≡ some (is_set o)
or_false-is_set none = refl
or_false-is_set (some b) = refl

with_defaults-shown : (f : HostFields) → with_defaults f ≡ shown f
with_defaults-shown f = λ i. record f {
  is_disabled = or_false-is_set f.is_disabled i;
  mux_enable = or_false-is_set f.mux_enable i;
  random_user_agent = or_false-is_set f.random_user_agent i;
  use_sni_as_host = or_false-is_set f.use_sni_as_host i;
}

map-shown : (fields : List HostFields) → map with_defaults fields ≡ map shown fields
map-shown [] = refl
map-shown (f ∷ fields) = ap₂ (λ g gs. g ∷ gs) (with_defaults-shown f) (map-shown fields)

-- When the hosts of an inbound are replaced, its list of hosts shows exactly the hosts given, in the
-- order given, with false for each of `is_disabled`, `mux_enable`, `random_user_agent` and
-- `use_sni_as_host` that is None, whatever ids the rows get; the list of every other inbound is as it was.
pub update_hosts-get_hosts :
    (inbounds : List ConfigRow) (id : ℕ) (tag other : String) (modified : List HostFields)
    (hosts after : List ProxyHost)
    → update_hosts inbounds id tag modified hosts ≡ ok after
    → str_eq tag other ≡ false
    → (map (λ h. h.fields) (get_hosts inbounds tag [] after) ≡ map shown modified)
      × (get_hosts inbounds other [] after ≡ get_hosts inbounds other [] hosts)
unfolding update_hosts
update_hosts-get_hosts inbounds id tag other modified hosts after h d =
    let found = bind-ok (get_inbound_or_raise tag inbounds) _ after h in
    let there = found_inbound tag inbounds found.0 found.1 in
    let tags : found.0.tag ≡ tag = get_row_tag tag inbounds found.0 there in
    let n = get_next_host_position hosts in
    let made : keep (λ h. not (str_eq h.inbound tag)) hosts ++ new_hosts tag id n modified ≡ after =
      ap (λ t. keep (λ h. not (str_eq h.inbound t)) hosts ++ new_hosts t id n modified) (sym tags)
      ∙ ok-injective found.2 in
    rw (sym made) (
      ap (map (λ h. h.fields)) (
            get_hosts-eq inbounds tag
              (keep (λ h. not (str_eq h.inbound tag)) hosts ++ new_hosts tag id n modified) found.0
              there
            ∙ replaced-in_order tag id n modified hosts)
          ∙ new_hosts-fields tag id n modified
          ∙ map-shown modified,
      get_hosts_same inbounds other
          (keep (λ h. not (str_eq h.inbound tag)) hosts ++ new_hosts tag id n modified) hosts
          (others-in_order tag other id n modified hosts d),
    )
