-- ===== src/Operations/Loops.antt =====
-- Which calls are among those that app/xray/operations.py makes for a user, and which are not.
use marzban.Common.{
  ℕ, ◌∙◌, ◌≡◌, ◌⊎◌, inl, inr, refl, sym, ap, String, Bool, true, false, some, List, [], ◌∷◌, str_eq,
  All, Bool-cases, Option-cases, eq_iff,
}
use mathlib.Core.Path.{subst}
use mathlib.Core.Bool.{false≢true}
use marzban.User.{Proxy, ProxyTypes}
use marzban.Registry.{Selected, has_tag}
use marzban.Operations.{
  Email, Node, ApiCall, add, alter, remove, Reads, serves, settings_of, supports_runtime_account,
  account_on, on_nodes, tag_work, tags_work, inbounds_work, needs_restart, removals,
}
use marzban.Operations.Calls.{Among, Among-left, Among-right, All-append}

-- A call that leaves the account of an email in place for a tag.
abbrev pub Spares : String → Email → ApiCall → Type 0
Spares u e (add n t a) = Unit
Spares u e (alter n t a) = a.email ≡ e
Spares u e (remove n t f) = str_eq t u ≡ false

abbrev pub IsRemove : ApiCall → Type 0
IsRemove (add n t a) = ⊥
IsRemove (alter n t a) = ⊥
IsRemove (remove n t e) = Unit

-- A tag that is chosen for a protocol, and a tag that the map of inbounds has.
abbrev pub Chosen : ProxyTypes → String → Selected → Type 0
Chosen t tag [] = ⊥
Chosen t tag ((s, tags) ∷ l) = ((t ≡ s) × Among tag tags) ⊎ Chosen t tag l

abbrev pub AmongKeys : String → List (String × List ℕ) → Type 0
AmongKeys tag [] = ⊥
AmongKeys tag ((k, ids) ∷ l) = (tag ≡ k) ⊎ AmongKeys tag l

module _ (make : Node → ApiCall) (p : Node → Bool) where
  pub on_nodes-All :
      (Q : ApiCall → Type 0)
      → ((n : Node) → Q (make n))
      → (nodes : List Node) → All Q (on_nodes make p nodes)
  unfolding on_nodes
  on_nodes-All Q f [] = tt
  on_nodes-All Q f (n ∷ l) = elim (Bool-cases (p n)) [
    | inl e ↦ rw e (f n, on_nodes-All Q f l)
    | inr e ↦ rw e (on_nodes-All Q f l)
  ]

  pub on_nodes-Among :
      (m : Node)
      → p m ≡ true
      → (nodes : List Node) → Among m nodes
      → Among (make m) (on_nodes make p nodes)
  unfolding on_nodes
  on_nodes-Among m h [] k = absurd k
  on_nodes-Among m h (n ∷ l) (inl e) = rw (sym (ap p e) ∙ h) (inl (ap make e))
  on_nodes-Among m h (n ∷ l) (inr k) = elim (Bool-cases (p n)) [
    | inl e ↦ rw e (inr (on_nodes-Among m h l k))
    | inr e ↦ rw e (on_nodes-Among m h l k)
  ]

module _ (r : Reads) (map : List (String × List ℕ)) (nodes : List Node) (email : Email)
    (ps : List Proxy) where
  pub tag_work-Spares :
      (u : String) (t : ProxyTypes) (tag : String)
      → All (Spares u email) (tag_work r map nodes email ps alter t tag).calls
  unfolding tag_work
  tag_work-Spares u t tag = elim (Option-cases (settings_of t ps)) [
    | inl e ↦ rw (tag_work, e) tt
    | inr (s, e) ↦ elim (Bool-cases (supports_runtime_account r t s)) [
      | inl f ↦
          rw (tag_work, e, f) (on_nodes-All _ (serves map tag) (Spares u email) (λ n. refl) nodes)
      | inr f ↦ rw (tag_work, e, f) tt
    ]
  ]

  pub tags_work-Spares :
      (u : String) (t : ProxyTypes) (tags : List String)
      → All (Spares u email) (tags_work r map nodes email ps alter t tags).calls
  unfolding tags_work
  tags_work-Spares u t [] = tt
  tags_work-Spares u t (tag ∷ l) =
      All-append (Spares u email) _ _ (tag_work-Spares u t tag) (tags_work-Spares u t l)

  pub inbounds_work-Spares :
      (u : String) (sel : Selected)
      → All (Spares u email) (inbounds_work r map nodes email ps alter sel).calls
  unfolding inbounds_work
  inbounds_work-Spares u [] = tt
  inbounds_work-Spares u ((t, tags) ∷ l) =
      All-append (Spares u email) _ _ (tags_work-Spares u t tags) (inbounds_work-Spares u l)

  unfoldable pub alter_on : ProxyTypes → String → String → Node → ApiCall
  alter_on t s tag n = alter n.id tag (account_on r email t s tag n)

  module _ (m : Node) (tag : String) (t : ProxyTypes) (s : String) (there : Among m nodes)
      (given : settings_of t ps ≡ some s) (supported : supports_runtime_account r t s ≡ true)
      (served : serves map tag m ≡ true) where
    pub tag_work-Among :
        Among (alter_on t s tag m) (tag_work r map nodes email ps alter t tag).calls
    unfolding tag_work alter_on
    tag_work-Among =
        rw (tag_work, given, supported) (on_nodes-Among _ (serves map tag) m served nodes there)

    pub tags_work-Among :
        (tags : List String)
        → Among tag tags
        → Among (alter_on t s tag m) (tags_work r map nodes email ps alter t tags).calls
    unfolding tags_work
    tags_work-Among [] h = absurd h
    tags_work-Among (u ∷ l) (inl e) = Among-left _ _ _ (
        subst (λ x. Among (alter_on t s tag m) (tag_work r map nodes email ps alter t x).calls) e
          tag_work-Among)
    tags_work-Among (u ∷ l) (inr h) = Among-right _ _ _ (tags_work-Among l h)

    pub inbounds_work-Among :
        (sel : Selected)
        → Chosen t tag sel
        → Among (alter_on t s tag m) (inbounds_work r map nodes email ps alter sel).calls
    unfolding inbounds_work
    inbounds_work-Among [] h = absurd h
    inbounds_work-Among ((v, tags) ∷ l) (inl (e, h)) = Among-left _ _ _ (
        subst (λ x. Among (alter_on t s tag m) (tags_work r map nodes email ps alter x tags).calls)
          e (tags_work-Among tags h))
    inbounds_work-Among ((v, tags) ∷ l) (inr h) = Among-right _ _ _ (inbounds_work-Among l h)

module _ (map : List (String × List ℕ)) (nodes : List Node) (email : Email)
    (active : List String) where
  pub removals-IsRemove :
      (l : List (String × List ℕ)) → All IsRemove (removals map nodes email active l).calls
  unfolding removals
  removals-IsRemove [] = tt
  removals-IsRemove ((tag, ids) ∷ l) = elim (Bool-cases (has_tag tag active)) [
    | inl e ↦ rw e (removals-IsRemove l)
    | inr e ↦ elim (Bool-cases (needs_restart nodes tag)) [
      | inl f ↦ rw (e, f) (removals-IsRemove l)
      | inr f ↦
          rw (e, f)
            (All-append IsRemove _ _ (on_nodes-All _ (serves map tag) IsRemove (λ n. tt) nodes)
              (removals-IsRemove l))
    ]
  ]

  pub removals-Spares :
      (u : String)
      → has_tag u active ≡ true
      → (l : List (String × List ℕ))
      → All (Spares u email) (removals map nodes email active l).calls
  unfolding removals
  removals-Spares u a [] = tt
  removals-Spares u a ((tag, ids) ∷ l) = elim (Bool-cases (has_tag tag active)) [
    | inl e ↦ rw e (removals-Spares u a l)
    | inr e ↦ elim (Bool-cases (needs_restart nodes tag)) [
      | inl f ↦ rw (e, f) (removals-Spares u a l)
      | inr f ↦
          rw (e, f)
            (All-append (Spares u email) _ _
              (on_nodes-All _ (serves map tag) (Spares u email) (λ n. other u tag e a) nodes)
              (removals-Spares u a l))
    ]
  ]
    where
      other :
          (v t : String) → has_tag t active ≡ false → has_tag v active ≡ true → str_eq t v ≡ false
      other v t e f = elim (Bool-cases (str_eq t v)) [
        | inr g ↦ g
        | inl g ↦ absurd (false≢true (sym e ∙ ap (λ x. has_tag x active) ((eq_iff t v).0 g) ∙ f))
      ]

  module _ (m : Node) (tag : String) (there : Among m nodes) (inactive : has_tag tag active ≡ false)
      (runtime : needs_restart nodes tag ≡ false) (served : serves map tag m ≡ true) where
    pub removals-Among :
        (l : List (String × List ℕ))
        → AmongKeys tag l
        → Among (remove m.id tag email) (removals map nodes email active l).calls
    unfolding removals
    removals-Among [] h = absurd h
    removals-Among ((k, ids) ∷ l) (inl e) =
        rw (sym e, inactive, runtime)
          (Among-left _ _ _ (on_nodes-Among _ (serves map tag) m served nodes there))
    removals-Among ((k, ids) ∷ l) (inr h) = elim (Bool-cases (has_tag k active)) [
      | inl e ↦ rw e (removals-Among l h)
      | inr e ↦ elim (Bool-cases (needs_restart nodes k)) [
        | inl f ↦ rw (e, f) (removals-Among l h)
        | inr f ↦ rw (e, f) (Among-right _ _ _ (removals-Among l h))
      ]
    ]
