-- ===== src/Tests/Rules.antt =====
-- Concrete routing rules.
use marzban.Common.{ℕ, String, true, false, none, some, List, [], ◌∷◌, ◌++◌, map, ◌≡◌, refl, arith}
use marzban.Common.Text.{is_space}
use marzban.World.{ok, err, value_error}
use marzban.Json.{Fields, no_fields, field, text, object, set}
use marzban.Positions.{reorder, in_order, next_position}
use marzban.Positions.Named.{Distinct}
use marzban.Positions.Reordered.{reorder-in_order}
use marzban.Routing.{
  RoutingRule, RoutingRuleCreate, RoutingRuleModify, positioned, create_routing_rule,
  update_routing_rule, get_routing_rules_for_node, normalize_routing_rule_content,
}
use marzban.Routing.Nodes.{create_routing_rule-for_node}
use marzban.Routing.Content.{Named, normalize_routing_rule_content-Named}

abbrev content : String → Fields
content tag =
    field "type" (text "field")
      (field "ruleTag" (text tag) (field "outboundTag" (text "direct") no_fields))

abbrev rule : ℕ → String → ℕ → RoutingRule
rule id tag position = record {
  id = id;
  name = tag;
  content = content tag;
  enabled = true;
  readonly = false;
  position = position;
  nodes = 1 ∷ [];
}

abbrev blocked : RoutingRule
blocked = record (rule 3 "blocked" 1) { readonly = true; nodes = 1 ∷ 2 ∷ [] }

-- Two rules share a position.
abbrev rules : List RoutingRule
rules = rule 7 "late" 5 ∷ blocked ∷ rule 2 "early" 1 ∷ []

Distinct-rules : Distinct (map (λ r. r.id) rules)
Distinct-rules a = ground arith

abbrev reordered : List RoutingRule
reordered = rule 7 "late" 1 ∷ record blocked { position = 0 } ∷ rule 2 "early" 2 ∷ []

reordered-rules : reorder positioned (3 ∷ 7 ∷ 2 ∷ []) rules ≡ ok reordered
unfolding reorder
reordered-rules = refl

reorder-in_order_example :
    (map (λ r. r.id) (in_order positioned reordered) ≡ 3 ∷ 7 ∷ 2 ∷ [])
    × (map (λ r. r.id) reordered ≡ map (λ r. r.id) rules)
reorder-in_order_example =
    reorder-in_order positioned (3 ∷ 7 ∷ 2 ∷ []) rules reordered Distinct-rules reordered-rules

refused_rules : reorder positioned (3 ∷ 7 ∷ []) rules ≡ err value_error
unfolding reorder
refused_rules = refl

abbrev request : RoutingRuleCreate
request = record { content = content "new"; enabled = true; node_ids = 1 ∷ []; position = none }

abbrev created : List RoutingRule
created = rules ++ rule 9 "new" 6 ∷ []

created-rules : create_routing_rule (1 ∷ 2 ∷ []) 9 request rules ≡ ok created
unfolding create_routing_rule is_space next_position
created-rules = refl

create_routing_rule-for_node_example :
    get_routing_rules_for_node created 1 ≡ get_routing_rules_for_node rules 1 ++ content "new" ∷ []
create_routing_rule-for_node_example =
    create_routing_rule-for_node (1 ∷ 2 ∷ []) 9 request rules created 1 refl created-rules

abbrev spaced : Fields
spaced =
    field "type" (text "balancer")
      (field "ruleTag" (text "  ads ") (field "balancerTag" (text "b") no_fields))

abbrev normal : Fields
normal =
    field "type" (text "balancer")
      (field "ruleTag" (text "ads") (field "balancerTag" (text "b") no_fields))

normal_content : normalize_routing_rule_content (object spaced) ≡ ok normal
unfolding normalize_routing_rule_content is_space set
normal_content = refl

normalize_routing_rule_content-Named_example :
    Named normal × (normalize_routing_rule_content (object normal) ≡ ok normal)
normalize_routing_rule_content-Named_example =
    normalize_routing_rule_content-Named spaced normal normal_content

abbrev change : RoutingRuleModify
change = record {
  content = none;
  enabled = some false;
  node_ids = some (2 ∷ []);
  position = some 4;
}

abbrev changed : RoutingRule
changed = record blocked { position = 4; nodes = 2 ∷ [] }

changed_rule : update_routing_rule (1 ∷ 2 ∷ []) change blocked ≡ ok changed
unfolding update_routing_rule
changed_rule = refl
