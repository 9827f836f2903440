-- ===== src/Registry/Selection.antt =====
-- The selection of inbounds: what a normal form guarantees, and that the tags excluded for a
-- selection give the selection back.
use marzban.Common.{
  String, str_eq, ap, ◌++◌, ◌≡◌, refl, Bool, true, false, not, ◌&&◌, ◌||◌, Option, none, some, List,
  [], ◌∷◌, arith, eq_iff, All, All-map, Option-cases, Bool-cases, inl, inr, keep,
}
use marzban.User.{ProxyTypes, type_eq}
use marzban.World.{ok, Result-cases}
use marzban.Registry.{
  Inbound, by_tag, has_tag, from_keys, check_tags, Selected, chosen_tags, check_chosen,
  normalize_one, normalize_user_inbounds, without_tags,
}

-- The tag is that of an enabled inbound of the protocol.
abbrev pub Belongs : List Inbound → ProxyTypes → String → Type 0
Belongs reg p t = (i : Inbound) × (by_tag reg t ≡ some i) × (type_eq i.protocol p ≡ true)

-- No tag stands twice, and none is among those seen before.
abbrev pub FreshTags : List String → List String → Type 0
FreshTags seen [] = Unit
FreshTags seen (t ∷ l) = (has_tag t seen ≡ false) × FreshTags (t ∷ seen) l

check_tags-Belongs :
    (reg : List Inbound) (p : ProxyTypes) (tags checked : List String)
    → check_tags reg p tags ≡ ok checked
    → (checked ≡ tags) × All (Belongs reg p) tags
unfolding check_tags
check_tags-Belongs reg p [] checked h = (cc, tt)
check_tags-Belongs reg p (t ∷ l) checked h = elim (Option-cases (by_tag reg t)) [
  | inl e ↦ absurd (ground arith)
  | inr (i, e) ↦ elim (Bool-cases (type_eq i.protocol p)) [
    | inr f ↦ absurd (ground arith)
    | inl f ↦ elim (Result-cases (check_tags reg p l)) [
      | inr (x, g) ↦ absurd (ground arith)
      | inl (rest, g) ↦
          let (same, all) = check_tags-Belongs reg p l rest g in (ground arith, ((i, e, f), all))
    ]
  ]
]

from_keys-FreshTags : (seen tags : List String) → FreshTags seen (from_keys seen tags)
unfolding from_keys
from_keys-FreshTags seen [] = tt
from_keys-FreshTags seen (t ∷ l) = elim (Bool-cases (has_tag t seen)) [
  | inl e ↦ rw e (from_keys-FreshTags seen l)
  | inr e ↦ rw e (e, from_keys-FreshTags (t ∷ seen) l)
]

pub has_tag-from_keys :
    (t : String) (seen tags : List String)
    → (has_tag t seen || has_tag t (from_keys seen tags)) ≡ (has_tag t seen || has_tag t tags)
unfolding from_keys has_tag
has_tag-from_keys t seen [] = refl
has_tag-from_keys t seen (s ∷ l) =
    ground (arith, has_tag-from_keys t seen l, has_tag-from_keys t (s ∷ seen) l, eq_iff s t)

pub has_tag-without :
    (t : String) (tags l : List String)
    → has_tag t (without_tags tags l) ≡ (has_tag t l && not (has_tag t tags))
unfolding without_tags has_tag
has_tag-without t tags [] = refl
has_tag-without t tags (s ∷ l) = ground (arith, has_tag-without t tags l, eq_iff s t)

pub has_tag-keep :
    (p : String → Bool) (t : String) (l : List String) → has_tag t (keep p l) ≡ (has_tag t l && p t)
unfolding has_tag
has_tag-keep p t [] = refl
has_tag-keep p t (s ∷ l) = elim (Bool-cases (str_eq s t)) [
  | inl e ↦
      let same : p s ≡ p t = ap p ((eq_iff s t).0 e) in
      let rest = has_tag-keep p t l in ground arith
  | inr e ↦ let rest = has_tag-keep p t l in ground arith
]

pub has_tag-append :
    (t : String) (a b : List String) → has_tag t (a ++ b) ≡ (has_tag t a || has_tag t b)
unfolding has_tag
has_tag-append t [] b = refl
has_tag-append t (s ∷ a) b = let rest = has_tag-append t a b in ground arith

-- Every tag of a list is found in it.
tags_found : (l : List String) → All (λ t. has_tag t l ≡ true) l
unfolding has_tag
tags_found [] = tt
tags_found (s ∷ l) = (ground (arith, eq_iff s s), All-map (λ t h. ground arith) l (tags_found l))

without_within :
    (tags all l : List String)
    → All (λ t. has_tag t all ≡ true) l
    → without_tags (without_tags tags all) l ≡ keep (λ t. has_tag t tags) l
unfolding without_tags
without_within tags all [] h = refl
without_within tags all (t ∷ l) h =
    ground (arith, without_within tags all l h.1, has_tag-without t tags all)

pub without_twice :
    (tags l : List String) → without_tags (without_tags tags l) l ≡ keep (λ t. has_tag t tags) l
without_twice tags l = without_within tags l l (tags_found l)

-- What is known of each protocol of a normal form.
abbrev pub IsNormal : List Inbound → Selected → Type 0
IsNormal reg [] = Unit
IsNormal reg ((p, tags) ∷ l) = All (Belongs reg p) tags × FreshTags [] tags × IsNormal reg l

check_chosen-Belongs :
    (reg : List Inbound) (p : ProxyTypes) (o : Option (List String)) (tags : List String)
    → check_chosen reg p o ≡ ok (some tags)
    → All (Belongs reg p) tags × FreshTags [] tags
unfolding check_chosen
check_chosen-Belongs reg p none tags h = absurd (ground arith)
check_chosen-Belongs reg p (some given) tags h =
    elim (Result-cases (check_tags reg p (from_keys [] given))) [
      | inr (e, x) ↦ absurd (ground arith)
      | inl (checked, x) ↦
          let (same, all) = check_tags-Belongs reg p (from_keys [] given) checked x in
          let e : tags ≡ from_keys [] given = ground arith in
          rw e (all, from_keys-FreshTags [] given)
    ]

module _ (reg : List Inbound) (sel : Selected) (fill : Bool) where
  -- What `normalize_user_inbounds` returns is normal: each tag of a protocol is the tag of an
  -- enabled inbound of that protocol, and no protocol has a tag twice.
  pub normalize_user_inbounds-IsNormal :
      (ps : List ProxyTypes) (out : Selected)
      → normalize_user_inbounds reg ps sel fill ≡ ok out
      → IsNormal reg out
  unfolding normalize_user_inbounds
  normalize_user_inbounds-IsNormal [] out h = let e : out ≡ [] = cc in rw e tt
  normalize_user_inbounds-IsNormal (p ∷ ps) out h =
      elim (Result-cases (normalize_one reg sel fill p)) [
        | inr (e, x) ↦ absurd (ground arith)
        | inl (one, x) ↦ elim (Result-cases (normalize_user_inbounds reg ps sel fill)) [
          | inr (e, y) ↦ absurd (ground arith)
          | inl (others, y) ↦
              added one x others (normalize_user_inbounds-IsNormal ps others y) (ground arith)
        ]
      ]
    where
      added :
          (one : Option (List String))
          → normalize_one reg sel fill p ≡ ok one
          → (others : Selected) → IsNormal reg others
          → out ≡ (elim one as (λ _. Selected) [ none ↦ others | some tags ↦ (p, tags) ∷ others ])
          → IsNormal reg out
      added none x others rest e = rw e rest
      added (some tags) x others rest e =
          let (all, fresh) = check_chosen-Belongs reg p (chosen_tags reg sel fill p) tags x in
          rw e (all, fresh, rest)
