-- ===== src/Templates/Enabled.antt =====
-- app/db/crud/templates.py: where the tags of a new template come from.
use marzban.Common.{
  String, true, false, some, List, [], ◌∷◌, str_eq, eq_iff, All, map, ◌≡◌, refl, sym, ap, ◌∙◌,
  arith, inl, inr, Bool-cases, Option-cases, ◌⊎◌,
}
use mathlib.Core.Path.{subst}
use marzban.Common.Text.{str_eq_self}
use marzban.User.{ProxyTypes, type_eq}
use marzban.World.{ok, bind-ok, ok-injective}
use marzban.Registry.{
  Inbound, by_protocol, by_tag, has_tag, Selected, validate_selected_inbounds, protocols,
}
use marzban.Registry.Selection.{
  IsNormal, Belongs, normalize_user_inbounds-IsNormal, has_tag-from_keys, has_tag-append,
}
use marzban.Templates.{Inbounds, all_values, flatten_inbound_tags, selected_tags}

all_members {ℓ} :
    (P : String → Type ℓ) (xs : List String) → ((t : String) → has_tag t xs ≡ true → P t) → All P xs
unfolding has_tag
all_members P [] f = tt
all_members P (x ∷ xs) f =
    (f x (rw (str_eq_self x) refl), all_members P xs λ t h. f t (ground (arith, h)))

member_holds {ℓ} :
    (P : String → Type ℓ) (xs : List String) (t : String) → All P xs → has_tag t xs ≡ true → P t
unfolding has_tag
member_holds P [] t all h = absurd cc
member_holds P (x ∷ xs) t (p, all) h = elim (Bool-cases (str_eq x t)) [
  | inl e ↦ subst P ((eq_iff x t).0 e) p
  | inr e ↦ member_holds P xs t all (ground arith)
]

-- The tag is that of an enabled inbound.
abbrev pub Enabled : List Inbound → String → Type 0
Enabled reg t = (j : Inbound) × (by_tag reg t ≡ some j)

map-Enabled :
    (reg : List Inbound) (t : String) → has_tag t (map (λ e. e.tag) reg) ≡ true → Enabled reg t
unfolding has_tag by_tag
map-Enabled [] t h = absurd cc
map-Enabled (i ∷ reg) t h = elim (Option-cases (by_tag reg t)) [
  | inr (j, e) ↦ (j, ground arith)
  | inl e ↦ elim (Bool-cases (str_eq i.tag t)) [
    | inl f ↦ (i, ground arith)
    | inr f ↦ let (j, g) = map-Enabled reg t (ground arith) in absurd (ground arith)
  ]
]

normal-Enabled :
    (reg : List Inbound) (sel : Selected) (t : String)
    → IsNormal reg sel
    → has_tag t (all_values sel) ≡ true
    → Enabled reg t
unfolding has_tag
normal-Enabled reg [] t n h = absurd cc
normal-Enabled reg ((p, tags) ∷ sel) t n h = elim (Bool-cases (has_tag t tags)) [
  | inl e ↦ let (j, f, g) = member_holds (Belongs reg p) tags t n.0 e in (j, f)
  | inr e ↦ normal-Enabled reg sel t n.2 (ground (arith, has_tag-append t tags (all_values sel)))
]

validated-IsNormal :
    (i : Inbounds) (sel checked : Selected)
    → validate_selected_inbounds i.enabled sel ≡ ok checked
    → IsNormal i.enabled checked
unfolding validate_selected_inbounds
validated-IsNormal i sel checked h =
    normalize_user_inbounds-IsNormal i.enabled sel false (protocols sel) checked h

pub selected_tags-Enabled :
    (i : Inbounds) (sel : Selected) (tags : List String) (t : String)
    → selected_tags i sel ≡ ok tags
    → has_tag t tags ≡ true
    → Enabled i.enabled t
unfolding selected_tags flatten_inbound_tags has_tag
selected_tags-Enabled i [] tags t e h = map-Enabled i.enabled t (
    sym (has_tag-from_keys t [] (map (λ j. j.tag) i.enabled)) ∙ ap (has_tag t) (ok-injective e) ∙ h)
selected_tags-Enabled i (s ∷ l) tags t e h =
    let (checked, f, g) = bind-ok (validate_selected_inbounds i.enabled (s ∷ l)) _ tags e in
    normal-Enabled i.enabled checked t (validated-IsNormal i (s ∷ l) checked f)
      (sym (has_tag-from_keys t [] (all_values checked)) ∙ ap (has_tag t) (ok-injective g) ∙ h)

some-injective {ℓ} : {A : Type ℓ} {a b : A} → some a ≡ some b → a ≡ b
some-injective h = cc

by_tag-none : (t : String) (j : Inbound) → ¬ (by_tag [] t ≡ some j)
unfolding by_tag
by_tag-none t j h = cc

type_eq_self : (p : ProxyTypes) → type_eq p p ≡ true
unfolding type_eq
type_eq_self p = ground arith

pub type_eq→eq : (p q : ProxyTypes) → type_eq p q ≡ true → p ≡ q
unfolding type_eq
type_eq→eq p q h = ground arith

by_tag-cases :
    (i j : Inbound) (reg : List Inbound) (t : String)
    → by_tag (i ∷ reg) t ≡ some j
    → (by_tag reg t ≡ some j) ⊎ ((i ≡ j) × (str_eq i.tag t ≡ true))
unfolding by_tag
by_tag-cases i j reg t h = elim (Option-cases (by_tag reg t)) [
  | inr (k, e) ↦ inl (ground arith)
  | inl e ↦ elim (Bool-cases (str_eq i.tag t)) [
    | inl f ↦ inr (some-injective (ground arith), f)
    | inr f ↦ absurd (ground arith)
  ]
]

-- The protocol of an enabled inbound has its tag.
pub by_tag-by_protocol :
    (reg : List Inbound) (t : String) (j : Inbound)
    → by_tag reg t ≡ some j
    → has_tag t (by_protocol reg j.protocol) ≡ true
unfolding by_protocol has_tag
by_tag-by_protocol [] t j h = absurd (by_tag-none t j h)
by_tag-by_protocol (i ∷ reg) t j h = elim (by_tag-cases i j reg t h) [
  | inl e ↦ ground (arith, by_tag-by_protocol reg t j e)
  | inr (e, f) ↦
      subst (λ k. has_tag t (by_protocol (i ∷ reg) k.protocol) ≡ true) e
        (rw (type_eq_self i.protocol) (rw f refl))
]

pub by_tag-All {ℓ} :
    (P : Inbound → Type ℓ) (reg : List Inbound) (t : String) (j : Inbound)
    → All P reg
    → by_tag reg t ≡ some j
    → P j
by_tag-All P [] t j all h = absurd (by_tag-none t j h)
by_tag-All P (i ∷ reg) t j (p, all) h = elim (by_tag-cases i j reg t h) [
  | inl e ↦ by_tag-All P reg t j all e
  | inr (e, f) ↦ subst P e p
]
