-- ===== src/Templates/Listed.antt =====
-- app/db/crud/templates.py and app/models/user_template.py: the inbounds of a new template, and
-- those it is listed with.
use marzban.Common.{
  ℕ, String, true, ◌&&◌, ◌||◌, none, some, List, [], ◌∷◌, ◌++◌, keep, All, ◌≡◌, refl, sym, ap, ◌∙◌,
  arith, inl, inr, Bool-cases, Option-cases, any_of,
}
use mathlib.Core.Path.{subst}
use mathlib.Core.Bool.{false≢true}
use marzban.User.{ProxyTypes, type_eq}
use marzban.World.{ok, bind-ok}
use marzban.Registry.{Inbound, by_protocol, has_tag, Selected}
use marzban.Registry.Selection.{has_tag-append, has_tag-keep}
use marzban.Templates.{
  UserTemplate, TemplateRequest, Inbounds, all_values, selected_tags, inbounds_in, named,
  new_template, insert_template, create_user_template, listed_inbounds,
}
use marzban.Templates.Enabled.{
  Enabled, by_tag-by_protocol, by_tag-All, selected_tags-Enabled, type_eq→eq,
}

listed_one :
    (p : ProxyTypes) (l : List String) (rest : Selected)
    → all_values (elim l as (λ _. Selected) [ [] ↦ rest | t ∷ k ↦ (p, t ∷ k) ∷ rest ])
      ≡ l ++ all_values rest
listed_one p [] rest = refl
listed_one p (t ∷ l) rest = refl

module _ (reg : List Inbound) (tags : List String) (t : String) where
  has_tag-listed_inbounds :
      (p : ProxyTypes) (ps : List ProxyTypes)
      → has_tag t (all_values (listed_inbounds reg (p ∷ ps) tags)) ≡ (
          (has_tag t (by_protocol reg p) && has_tag t tags)
          || has_tag t (all_values (listed_inbounds reg ps tags)))
  unfolding listed_inbounds
  has_tag-listed_inbounds p ps =
      let here = keep (λ s. has_tag s tags) (by_protocol reg p) in
      let rest = listed_inbounds reg ps tags in
      ap (has_tag t) (listed_one p here rest)
      ∙ has_tag-append t here (all_values rest)
      ∙ ap (λ b. b || has_tag t (all_values rest))
          (has_tag-keep (λ s. has_tag s tags) t (by_protocol reg p))

  listed_in_template :
      (ps : List ProxyTypes)
      → has_tag t (all_values (listed_inbounds reg ps tags)) ≡ true
      → has_tag t tags ≡ true
  unfolding listed_inbounds has_tag
  listed_in_template [] h = absurd cc
  listed_in_template (p ∷ ps) h =
      let rest = listed_in_template ps in ground (arith, has_tag-listed_inbounds p ps)

  template_in_listed :
      (q : ProxyTypes) (ps : List ProxyTypes)
      → any_of (λ p. type_eq p q) ps ≡ true
      → has_tag t (by_protocol reg q) ≡ true
      → has_tag t tags ≡ true
      → has_tag t (all_values (listed_inbounds reg ps tags)) ≡ true
  template_in_listed q [] c h k = absurd cc
  template_in_listed q (p ∷ ps) c h k = elim (Bool-cases (type_eq p q)) [
    | inl e ↦
        let same : has_tag t (by_protocol reg p) ≡ true =
          subst (λ r. has_tag t (by_protocol reg r) ≡ true) (sym (type_eq→eq p q e)) h in
        has_tag-listed_inbounds p ps ∙ rw (same, k) refl
    | inr e ↦
        ground (arith, has_tag-listed_inbounds p ps, template_in_listed q ps (ground arith) h k)
  ]

-- The protocol is among those that are listed.
abbrev pub Covers : List ProxyTypes → Inbound → Type 0
Covers ps j = any_of (λ p. type_eq p j.protocol) ps ≡ true

-- A template whose inbounds are listed, all and no others.
abbrev pub Listed : List Inbound → List ProxyTypes → UserTemplate → Type 0
Listed reg ps t =
    (tag : String)
    → has_tag tag (all_values (listed_inbounds reg ps t.inbounds)) ≡ has_tag tag t.inbounds

Enabled-Listed :
    (reg : List Inbound) (ps : List ProxyTypes) (t : UserTemplate)
    → All (Covers ps) reg
    → ((tag : String) → has_tag tag t.inbounds ≡ true → Enabled reg tag)
    → Listed reg ps t
Enabled-Listed reg ps t covers f tag = elim (Bool-cases (has_tag tag t.inbounds)) [
  | inl e ↦
      let (j, g) = f tag e in
      template_in_listed reg t.inbounds tag j.protocol ps
        (by_tag-All (Covers ps) reg tag j covers g) (by_tag-by_protocol reg tag j g) e
      ∙ sym e
  | inr e ↦ elim (Bool-cases (has_tag tag (all_values (listed_inbounds reg ps t.inbounds)))) [
    | inl g ↦ absurd (false≢true (sym e ∙ listed_in_template reg t.inbounds tag ps g))
    | inr g ↦ g ∙ sym e
  ]
]

inbounds_in-Enabled :
    (i : Inbounds) (sel : Selected) (tags : List String) (tag : String)
    → selected_tags i sel ≡ ok tags
    → has_tag tag (inbounds_in i tags) ≡ true
    → Enabled i.enabled tag
unfolding inbounds_in
inbounds_in-Enabled i sel tags tag e h =
    selected_tags-Enabled i sel tags tag e
      (ground (arith, has_tag-keep (λ t. has_tag t tags) tag i.tags))

insert_template-append :
    (id : ℕ) (r : TemplateRequest) (tags : List String) (rows rows' : List UserTemplate)
    → insert_template id r tags rows ≡ ok rows'
    → (name : String) × (rows' ≡ rows ++ new_template id name r tags ∷ [])
      × (r.name ≡ some name)
      × (named name rows ≡ none)
unfolding insert_template
insert_template-append id r tags rows rows' h = elim (Option-cases r.name) [
  | inl e ↦ absurd (ground arith)
  | inr (name, e) ↦ elim (Option-cases (named name rows)) [
    | inr (t, f) ↦ absurd (ground arith)
    | inl f ↦ (name, ground arith, e, f)
  ]
]

-- A template that is created stands behind the others, with a name that no other has, and, as long as the
-- protocols that are listed cover the enabled inbounds, it is listed with all of its inbounds and no
-- others.
pub create_user_template-Listed :
    (i : Inbounds) (id : ℕ) (r : TemplateRequest) (ps : List ProxyTypes)
    (rows rows' : List UserTemplate)
    → All (Covers ps) i.enabled
    → create_user_template i id r rows ≡ ok rows'
    → (t : UserTemplate) × (rows' ≡ rows ++ t ∷ [])
      × (r.name ≡ some t.name)
      × (named t.name rows ≡ none)
      × Listed i.enabled ps t
unfolding create_user_template
create_user_template-Listed i id r ps rows rows' covers h =
    let (tags, e, f) = bind-ok (selected_tags i r.inbounds) _ rows' h in
    let (name, g, k, u) = insert_template-append id r (inbounds_in i tags) rows rows' f in
    let t = new_template id name r (inbounds_in i tags) in
    (
      t,
      g,
      k,
      u,
      Enabled-Listed i.enabled ps t covers λ tag. inbounds_in-Enabled i r.inbounds tags tag e,
    )
