-- ===== src/Routing/Nodes.antt =====
-- `get_routing_rules_for_node` of app/db/crud/routing.py: the rules that a node runs, and their order.
use marzban.Common.{
  keep-append, ℕ, Bool, false, ◌&&◌, none, some, List, [], ◌∷◌, ◌++◌, map, if◌then◌else◌, keep, ◌≡◌,
  refl, sym, ap, ◌∙◌, inl, inr, Bool-cases,
}
use marzban.World.{ok, bind-ok, ok-injective}
use marzban.Json.{Fields}
use marzban.Attached.{existing_nodes, existing_nodes-has}
use marzban.Positions.{has, in_order, next_position}
use marzban.Positions.Order.{in_order-keep}
use marzban.Positions.Appended.{next_position-in_order}
use marzban.Routing.{
  RoutingRule, RoutingRuleCreate, positioned, get_routing_rules, get_routing_rules_for_node,
  create_routing_rule, get_routing_rule_name, position_or_next,
}

-- The rules that a node runs.
abbrev pub runs : ℕ → RoutingRule → Bool
runs n r = has n r.nodes && r.enabled

keep-keep :
    (p q : RoutingRule → Bool) (l : List RoutingRule) → keep q (keep p l) ≡ keep (λ r. p r && q r) l
keep-keep p q [] = refl
keep-keep p q (r ∷ l) = elim (Bool-cases (p r)) [
  | inr e ↦ rw e (keep-keep p q l)
  | inl e ↦ elim (Bool-cases (q r)) [
    | inl d ↦ rw (e, d) (ap (λ t. r ∷ t) (keep-keep p q l))
    | inr d ↦ rw (e, d) (keep-keep p q l)
  ]
]

-- The contents that a node gets are those of the enabled rules among the rules listed for it, and
-- those of the enabled rules for it among all the rules listed, in that order.
get_routing_rules_for_node-listed :
    (rules : List RoutingRule) (n : ℕ)
    → (get_routing_rules_for_node rules n
        ≡ map (λ r. r.content) (keep (λ r. r.enabled) (get_routing_rules rules (some n))))
      × (get_routing_rules_for_node rules n
          ≡ map (λ r. r.content) (keep (runs n) (get_routing_rules rules none)))
unfolding get_routing_rules_for_node get_routing_rules
get_routing_rules_for_node-listed rules n =
    let all = in_order-keep positioned (runs n) rules in
    (
      ap (map (λ r. r.content)) (
          all
          ∙ sym (keep-keep (λ r. has n r.nodes) (λ r. r.enabled) (in_order positioned rules))
          ∙ ap (keep (λ r. r.enabled)) (sym (in_order-keep positioned (λ r. has n r.nodes) rules))),
      ap (map (λ r. r.content)) all,
    )

map-append : {A B : Type 0} (f : A → B) (xs ys : List A) → map f (xs ++ ys) ≡ map f xs ++ map f ys
map-append f [] ys = refl
map-append f (x ∷ xs) ys = ap (λ t. f x ∷ t) (map-append f xs ys)

run_alone :
    (n : ℕ) (r : RoutingRule)
    → map (λ s. s.content) (keep (runs n) (r ∷ [])) ≡ (if runs n r then r.content ∷ [] else [])
run_alone n r = elim (Bool-cases (runs n r)) [ inl e ↦ rw e refl | inr e ↦ rw e refl ]

appended-for_node :
    (rules : List RoutingRule) (r : RoutingRule) (n : ℕ)
    → r.position ≡ next_position positioned rules
    → get_routing_rules_for_node (rules ++ r ∷ []) n
      ≡ get_routing_rules_for_node rules n ++ (if runs n r then r.content ∷ [] else [])
unfolding get_routing_rules
appended-for_node rules r n e =
    let contents : List RoutingRule → List Fields = map (λ s. s.content) in
    let sorted_rules = in_order positioned rules in
    (get_routing_rules_for_node-listed (rules ++ r ∷ []) n).1
    ∙ ap (λ t. contents (keep (runs n) t)) (next_position-in_order positioned rules r e)
    ∙ ap contents (keep-append (runs n) sorted_rules (r ∷ []))
    ∙ map-append (λ s. s.content) (keep (runs n) sorted_rules) (keep (runs n) (r ∷ []))
    ∙ ap (λ t. contents (keep (runs n) sorted_rules) ++ t) (run_alone n r)
    ∙ ap (λ t. t ++ (if runs n r then r.content ∷ [] else []))
        (sym (get_routing_rules_for_node-listed rules n).1)

-- A rule that is created without a position runs last: if it is enabled, each node that it is asked
-- for gets its content after those that the node had, and what every other node gets is unchanged.
pub create_routing_rule-for_node :
    (nodes : List ℕ) (id : ℕ) (rule : RoutingRuleCreate) (rules after : List RoutingRule) (n : ℕ)
    → rule.position ≡ none
    → create_routing_rule nodes id rule rules ≡ ok after
    → get_routing_rules_for_node after n
      ≡ get_routing_rules_for_node rules n
        ++ (if has n rule.node_ids && rule.enabled then rule.content ∷ [] else [])
unfolding create_routing_rule
create_routing_rule-for_node nodes id rule rules after n e h =
    let related = bind-ok (existing_nodes nodes rule.node_ids) _ after h in
    let name = bind-ok (get_routing_rule_name rule.content none) _ after related.2 in
    let row : RoutingRule = record {
      id = id;
      name = name.0;
      content = rule.content;
      enabled = rule.enabled;
      readonly = false;
      position = position_or_next rules rule.position;
      nodes = related.0;
    } in
    let asked = (existing_nodes-has nodes rule.node_ids related.0 related.1 n).0 in
    rw (sym (ok-injective name.2), sym asked)
      (appended-for_node rules row n (ap (position_or_next rules) e))
