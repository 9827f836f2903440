-- ===== src/Routing/Covered.antt =====
-- app/db/crud/routing.py: the loops over a node's template and over its read-only rules, by the names they leave.
use marzban.Common.{
  ℕ, ◌+◌, String, Bool, true, false, not, ◌&&◌, ◌||◌, Option, none, some, List, [], ◌∷◌, ◌++◌, ◌==◌,
  str_eq, eq_iff, All, All-map, ◌≡◌, refl, sym, ap, arith, Bool-cases, inl, inr, ◌⊎◌, ◌∙◌,
}
use mathlib.Core.Path.{subst}
use marzban.World.{ok, bind-ok, ok-injective}
use marzban.Json.{Fields, object, json_eq}
use marzban.Attached.{detach_node, detach_node-has, node_has_relation, other_relation_ids}
use marzban.Positions.{has}
use marzban.Registry.{has_tag}
use marzban.Routing.{RoutingRule, get_routing_rule_name}
use marzban.Configs.Sync.{no_nodes}
use marzban.Routing.Template.{
  Synced, row_of, put_rule, readonly_rule, written_rule, without_node, write_rule, write_rules,
  drop_unnamed, drop_unnamed_rules, rule_stays,
}

-- The name of one of the rules of a template, from a position on.
abbrev pub InTemplate : (ℕ → String) → ℕ → List Fields → String → Type 0
InTemplate fallback position [] name = ⊥
InTemplate fallback position (c ∷ contents) name =
    (get_routing_rule_name c (some (fallback (position + 1))) ≡ ok name)
    ⊎ InTemplate fallback (position + 1) contents name

-- A read-only rule of the node.
abbrev pub owned : ℕ → RoutingRule → Bool
owned n r = r.readonly && node_has_relation r.nodes n

owned-without_node : (n : ℕ) (r : RoutingRule) → owned n (without_node n r) ≡ false
owned-without_node n r = ground (arith, detach_node-has r.nodes n n)

some-injective {ℓ} : {A : Type ℓ} {a b : A} → some a ≡ some b → a ≡ b
some-injective h = cc

module _ {ℓ} (P : RoutingRule → Type ℓ) where
  rule_stays-All :
      (o : Option RoutingRule) (rules : List RoutingRule)
      → ((s : RoutingRule) → o ≡ some s → P s)
      → All P rules
      → All P (rule_stays o rules)
  rule_stays-All none rules f all = all
  rule_stays-All (some s) rules f all = (f s refl, all)

  put_rule-All :
      (s : RoutingRule) (rules : List RoutingRule) → P s → All P rules → All P (put_rule s rules)
  put_rule-All s [] p all = tt
  put_rule-All s (r ∷ rules) p (q, all) = elim (Bool-cases (r.id == s.id)) [
    | inl e ↦ rw e (p, all)
    | inr e ↦ rw e (q, put_rule-All s rules p all)
  ]

  append-All :
      (s : RoutingRule) (rules : List RoutingRule) → P s → All P rules → All P (rules ++ s ∷ [])
  append-All s [] p all = (p, tt)
  append-All s (r ∷ rules) p (q, all) = (q, append-All s rules p all)

module _ (n : ℕ) (ids : List ℕ) where
  -- A rule that the last loop looks at, or whose name stays, or that is none of the node's.
  abbrev pub Covered : List String → RoutingRule → Type 0
  Covered names r = (not (owned n r) || (has r.id ids || has_tag r.name names)) ≡ true

  Covered-longer :
      (name : String) (names : List String) (r : RoutingRule)
      → Covered names r
      → Covered (name ∷ names) r
  unfolding has_tag
  Covered-longer name names r h = ground arith

  Covered-without_node : (names : List String) (r : RoutingRule) → Covered names (without_node n r)
  Covered-without_node names r = ground (arith, detach_node-has r.nodes n n)

  Covered-named : (names : List String) (r : RoutingRule) → Covered (r.name ∷ names) r
  unfolding has_tag
  Covered-named names r = ground (arith, eq_iff r.name r.name)

  Covered-write_rule :
      (id position : ℕ) (name : String) (content : Fields) (o : Option RoutingRule)
      (rules : List RoutingRule) (names : List String)
      → All (Covered (name ∷ names)) rules
      → All (Covered (name ∷ names)) (write_rule n id position name content o rules)
  unfolding write_rule
  Covered-write_rule id position name content none rules names all =
      append-All (Covered (name ∷ names)) (readonly_rule n id position name content) rules
        (Covered-named names (readonly_rule n id position name content)) all
  Covered-write_rule id position name content (some r) rules names all =
      elim (Bool-cases (
        not (no_nodes (other_relation_ids r.nodes n))
        && not (json_eq (object r.content) (object content)))) [
          | inl e ↦ rw e (
              append-All (Covered (name ∷ names)) (readonly_rule n id position name content) _
                (Covered-named names (readonly_rule n id position name content))
                (put_rule-All (Covered (name ∷ names)) (without_node n r) rules
                  (Covered-without_node (name ∷ names) r) all))
          | inr e ↦ rw e (
              put_rule-All (Covered (name ∷ names)) (written_rule position name content r) rules
                (Covered-named names (written_rule position name content r)) all)
        ]

  module _ (fallback : ℕ → String) (new_id : ℕ → ℕ) (by_name : String → Option ℕ) where
    pub Covered-write_rules :
        (position : ℕ) (contents : List Fields) (rules : List RoutingRule) (names : List String)
        (out : Synced)
        → write_rules n fallback new_id by_name position contents (rules, names) ≡ ok out
        → All (Covered names) rules
        → All (Covered out.1) out.0
          × ((t : String)
              → has_tag t out.1 ≡ true
              → (has_tag t names ≡ true) ⊎ InTemplate fallback position contents t)
    unfolding write_rules has_tag
    Covered-write_rules position [] rules names out h all =
        let same : (rules, names) ≡ out = ok-injective h in
        (
          subst (λ o. All (Covered o.1) o.0) same all,
          λ t e. inl (subst (λ o. has_tag t o.1 ≡ true) (sym same) e),
        )
    Covered-write_rules position (c ∷ contents) rules names out h all =
        let (name, e, f) =
          bind-ok (get_routing_rule_name c (some (fallback (position + 1)))) _ out h in
        let (covered, named) = Covered-write_rules (position + 1) contents _ (name ∷ names) out f (
          Covered-write_rule (new_id position) position name c (row_of (by_name name) rules) rules
            names (All-map (Covered-longer name names) rules all)) in
        (
          covered,
          λ t g. elim (named t g) [
            | inr later ↦ inr (inr later)
            | inl now ↦ elim (Bool-cases (str_eq name t)) [
              | inl same ↦ inr (inl (e ∙ ap ok ((eq_iff name t).0 same)))
              | inr other ↦ inl (ground arith)
            ]
          ],
        )

  -- What the last loop leaves of a covered row.
  abbrev pub Named : List String → RoutingRule → Type 0
  Named names r = (not (owned n r) || has_tag r.name names) ≡ true

  Named-drop_unnamed :
      (names : List String) (r : RoutingRule)
      → Covered names r
      → (s : RoutingRule) → drop_unnamed n ids names r ≡ some s
      → Named names s
  unfolding drop_unnamed
  Named-drop_unnamed names r c s h =
      elim (Bool-cases (has r.id ids && not (has_tag r.name names))) [
        | inr e ↦
            let same : r ≡ s = some-injective (ground arith) in
            subst (Named names) same (ground arith)
        | inl e ↦ elim (Bool-cases (no_nodes (detach_node r.nodes n))) [
          | inl f ↦ absurd (ground arith)
          | inr f ↦
              let same : without_node n r ≡ s = some-injective (ground arith) in
              subst (Named names) same (rw (owned-without_node n r) refl)
        ]
      ]

  pub Named-drop_unnamed_rules :
      (names : List String) (rules : List RoutingRule)
      → All (Covered names) rules
      → All (Named names) (drop_unnamed_rules n ids names rules)
  unfolding drop_unnamed_rules
  Named-drop_unnamed_rules names [] all = tt
  Named-drop_unnamed_rules names (r ∷ rules) (c, all) =
      rule_stays-All (Named names) (drop_unnamed n ids names r) _ (Named-drop_unnamed names r c)
        (Named-drop_unnamed_rules names rules all)
