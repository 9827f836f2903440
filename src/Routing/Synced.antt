-- ===== src/Routing/Synced.antt =====
-- app/db/crud/routing.py: the read-only rules of a node after its template is read.
use marzban.Common.{
  ℕ, String, Bool, true, false, not, ◌||◌, List, [], ◌∷◌, keep, All, All-map, ◌≡◌, refl, sym, ap,
  arith, Bool-cases, inl, inr, ◌⊎◌, ◌∙◌,
}
use mathlib.Core.Path.{subst}
use marzban.Common.Sorting.{sort_by, insert_by}
use marzban.Positions.Order.{in_order-keep}
use marzban.World.{ok, bind-ok, ok-injective}
use marzban.Json.{Fields}
use marzban.Attached.{node_has_relation}
use marzban.Positions.{has, in_order, comes_before}
use marzban.Registry.{has_tag}
use marzban.Routing.{RoutingRule, positioned}
use marzban.Routing.Template.{
  template_routing_rules, node_readonly_rules, write_rules, ids_of, sync_rules,
}
use marzban.Routing.Covered.{
  InTemplate, owned, Covered, Covered-write_rules, Named, Named-drop_unnamed_rules,
}

-- The ids of sorted rows are those of the rows.
has-insert_by :
    (leq : RoutingRule → RoutingRule → Bool) (i : ℕ) (r : RoutingRule) (rules : List RoutingRule)
    → has i (ids_of (insert_by leq r rules)) ≡ has i (r.id ∷ ids_of rules)
has-insert_by leq i r [] = refl
has-insert_by leq i r (s ∷ rules) = ground (arith, has-insert_by leq i r rules)

has-in_order :
    (i : ℕ) (rules : List RoutingRule)
    → has i (ids_of (in_order positioned rules)) ≡ has i (ids_of rules)
unfolding in_order sort_by
has-in_order i [] = refl
has-in_order i (r ∷ rules) = ground (
  arith,
  has-insert_by (comes_before positioned) i r (in_order positioned rules),
  has-in_order i rules,
)

module _ (n : ℕ) where
  own : List RoutingRule → List RoutingRule
  own rules = keep (λ r. node_has_relation r.nodes n) (keep (λ r. r.readonly) rules)

  node_readonly_rules-own :
      (rules : List RoutingRule) → node_readonly_rules n rules ≡ in_order positioned (own rules)
  unfolding node_readonly_rules own
  node_readonly_rules-own rules =
      sym
        (in_order-keep positioned (λ r. node_has_relation r.nodes n) (keep (λ r. r.readonly) rules))

  own_found :
      (i : ℕ) (rules : List RoutingRule)
      → has i (ids_of (node_readonly_rules n rules)) ≡ has i (ids_of (own rules))
  own_found i rules =
      ap (λ l. has i (ids_of l)) (node_readonly_rules-own rules) ∙ has-in_order i (own rules)

  own_within :
      (all rules : List RoutingRule)
      → ((i : ℕ) → has i (ids_of (own rules)) ≡ true → has i (ids_of (own all)) ≡ true)
      → All (λ r. (not (owned n r) || has r.id (ids_of (own all))) ≡ true) rules
  unfolding own
  own_within all [] f = tt
  own_within all (r ∷ rules) f = elim (Bool-cases r.readonly) [
    | inr e ↦ (rw e refl, own_within all rules λ i h. f i (rw e h))
    | inl e ↦ elim (Bool-cases (node_has_relation r.nodes n)) [
      | inr g ↦ (rw g (ground arith), own_within all rules λ i h. f i (rw e (rw g h)))
      | inl g ↦ (
        rw (f r.id (rw e (rw g (ground arith)))) (ground arith),
        own_within all rules λ i h. f i (rw e (rw g (ground (arith, h)))),
      )
    ]
  ]

  own_Covered :
      (rules : List RoutingRule) → All (Covered n (ids_of (node_readonly_rules n rules)) []) rules
  unfolding has_tag
  own_Covered rules =
      All-map (λ r h. ground (arith, own_found r.id rules, h)) rules
        (own_within rules rules λ i h. h)

-- A row that the template defines, or that is no read-only rule of the node.
abbrev pub Defined : ℕ → (ℕ → String) → List Fields → RoutingRule → Type 0
Defined n fallback contents r = (owned n r ≡ false) ⊎ InTemplate fallback 0 contents r.name

Named-Defined :
    (n : ℕ) (ids : List ℕ) (fallback : ℕ → String) (contents : List Fields) (names : List String)
    → ((t : String)
        → has_tag t names ≡ true
        → (has_tag t [] ≡ true) ⊎ InTemplate fallback 0 contents t)
    → (r : RoutingRule) → Named n ids names r
    → Defined n fallback contents r
unfolding has_tag
Named-Defined n ids fallback contents names named r h = elim (Bool-cases (owned n r)) [
  | inr e ↦ inl e
  | inl e ↦ elim (named r.name (ground arith)) [
    | inl none_yet ↦ absurd cc
    | inr defined ↦ inr defined
  ]
]

-- After the template of a node is read, each read-only rule that is for the node has the name of a rule of
-- the template.
pub sync_rules-Defined :
    (n : ℕ) (fallback : ℕ → String) (new_id : ℕ → ℕ) (payload : Fields)
    (rules rules' : List RoutingRule)
    → sync_rules n fallback new_id payload rules ≡ ok rules'
    → (contents : List Fields) × (template_routing_rules payload ≡ ok contents)
      × All (Defined n fallback contents) rules'
unfolding sync_rules
sync_rules-Defined n fallback new_id payload rules rules' h =
    let (contents, e, f) = bind-ok (template_routing_rules payload) _ rules' h in
    let (written, g, k) =
      bind-ok (write_rules n fallback new_id _ 0 contents (rules, [])) _ rules' f in
    let (covered, named) =
      Covered-write_rules n _ fallback new_id _ 0 contents rules [] written g
        (own_Covered n rules) in
    (
      contents,
      e,
      subst (All (Defined n fallback contents)) (ok-injective k) (
          All-map
            (Named-Defined n (ids_of (node_readonly_rules n rules)) fallback contents written.1
              named)
            _ (Named-drop_unnamed_rules n _ written.1 written.0 covered)),
    )
