-- ===== src/Routing/Template.antt =====
-- app/db/crud/routing.py: the read-only rules that the Xray template of a node defines, the last part of
-- `sync_readonly_node_config`.
use marzban.Common.{
  ℕ, ◌+◌, String, true, not, ◌&&◌, Option, none, some, List, [], ◌∷◌, ◌++◌, ◌==◌, str_eq,
  if◌then◌else◌, keep, map,
}
use marzban.World.{Result, ok, err, type_error, ◌>>=◌}
use marzban.Json.{Json, Fields, Values, no_values, value, object, array, text, get, json_eq}
use marzban.Attached.{detach_node, node_has_relation, other_relation_ids}
use marzban.Positions.{has, in_order}
use marzban.Registry.{has_tag}
use marzban.Routing.{
  RoutingRule, positioned, get_routing_rule, normalize_routing_rule_content, get_routing_rule_name,
}
use marzban.Configs.Sync.{no_nodes}

-- The list comprehension over the rules; an entry that is no object is left out.
unfoldable pub rule_contents : Values → Result (List Fields)
unfolding normalize_routing_rule_content
rule_contents no_values = ok []
rule_contents (value (object c) l) =
    let rest = rule_contents l in
    normalize_routing_rule_content (object c) >>= λ content.
    rest >>= λ contents. ok (content ∷ contents)
rule_contents (value _ l) = rule_contents l

-- What the comprehension runs over: a text or a dict gives it only texts.
abbrev pub rules_of : Option Json → Result Values
rules_of none = ok no_values
rules_of (some (array l)) = ok l
rules_of (some (text t)) = ok no_values
rules_of (some (object f)) = ok no_values
rules_of (some _) = err type_error

abbrev pub template_rules : Option Json → Result Values
unfolding get
template_rules (some (object routing)) = rules_of (get "rules" routing)
template_rules _ = ok no_values

-- `_template_routing_rules`
unfoldable pub template_routing_rules : Fields → Result (List Fields)
unfolding rule_contents get template_rules
template_routing_rules payload = template_rules (get "routing" payload) >>= λ l. rule_contents l

-- `node_readonly_rules`
unfoldable pub node_readonly_rules : ℕ → List RoutingRule → List RoutingRule
unfolding in_order
node_readonly_rules n rules =
    keep (λ r. node_has_relation r.nodes n) (in_order positioned (keep (λ r. r.readonly) rules))

-- `node_rules_by_name.get(name)`: the id of the last rule of the name.
unfoldable pub rule_by_name : String → List RoutingRule → Option ℕ
rule_by_name name [] = none
rule_by_name name (r ∷ rules) = elim (rule_by_name name rules) [
  | some id ↦ some id
  | none ↦ if str_eq r.name name then some r.id else none
]

abbrev pub row_of : Option ℕ → List RoutingRule → Option RoutingRule
row_of none rules = none
row_of (some id) rules = get_routing_rule rules id

abbrev pub put_rule : RoutingRule → List RoutingRule → List RoutingRule
put_rule s [] = []
put_rule s (r ∷ rules) = let rest = r ∷ put_rule s rules in if r.id == s.id then s ∷ rules else rest

abbrev pub readonly_rule : ℕ → ℕ → ℕ → String → Fields → RoutingRule
readonly_rule n id position name content = record {
  id = id;
  name = name;
  content = content;
  enabled = true;
  readonly = true;
  position = position;
  nodes = n ∷ [];
}

abbrev pub written_rule : ℕ → String → Fields → RoutingRule → RoutingRule
written_rule position name content r = record r {
  name = name;
  content = content;
  enabled = true;
  position = position;
}

abbrev pub without_node : ℕ → RoutingRule → RoutingRule
without_node n r = record r { nodes = detach_node r.nodes n }

-- One rule of the template, with the rule of its name; `id` is the primary key of a new row.
unfoldable pub write_rule :
    ℕ → ℕ → ℕ → String → Fields → Option RoutingRule → List RoutingRule → List RoutingRule
unfolding other_relation_ids json_eq
write_rule n id position name content none rules =
    rules ++ readonly_rule n id position name content ∷ []
write_rule n id position name content (some r) rules =
    if not (no_nodes (other_relation_ids r.nodes n))
      && not (json_eq (object r.content) (object content))
    then put_rule (without_node n r) rules ++ readonly_rule n id position name content ∷ []
    else put_rule (written_rule position name content r) rules

-- The rows, and `next_names`.
abbrev pub Synced : Type 0
Synced = List RoutingRule × List String

-- The loop over the rules of the template. `fallback` writes "Xray rule" and a number, and `new_id` is
-- the primary key of a row that is made for a position.
module _ (n : ℕ) (fallback : ℕ → String) (new_id : ℕ → ℕ) (by_name : String → Option ℕ) where
  unfoldable pub write_rules : ℕ → List Fields → Synced → Result Synced
  unfolding get_routing_rule_name write_rule
  write_rules position [] s = ok s
  write_rules position (content ∷ contents) (rules, names) =
      get_routing_rule_name content (some (fallback (position + 1))) >>= λ name.
      write_rules (position + 1) contents (
        write_rule n (new_id position) position name content (row_of (by_name name) rules) rules,
        name ∷ names,
      )

-- The last loop, of one row: `none` if the row is deleted.
unfoldable pub drop_unnamed : ℕ → List ℕ → List String → RoutingRule → Option RoutingRule
unfolding has_tag detach_node
drop_unnamed n ids names r =
    if has r.id ids && not (has_tag r.name names)
    then (if no_nodes (detach_node r.nodes n) then none else some (without_node n r))
    else some r

abbrev pub rule_stays : Option RoutingRule → List RoutingRule → List RoutingRule
rule_stays none rules = rules
rule_stays (some r) rules = r ∷ rules

unfoldable pub drop_unnamed_rules : ℕ → List ℕ → List String → List RoutingRule → List RoutingRule
unfolding drop_unnamed
drop_unnamed_rules n ids names [] = []
drop_unnamed_rules n ids names (r ∷ rules) =
    rule_stays (drop_unnamed n ids names r) (drop_unnamed_rules n ids names rules)

abbrev pub ids_of : List RoutingRule → List ℕ
ids_of rules = map (λ r. r.id) rules

-- The rules of a node after its template is read.
unfoldable pub sync_rules :
    ℕ → (ℕ → String) → (ℕ → ℕ) → Fields → List RoutingRule → Result (List RoutingRule)
unfolding template_routing_rules node_readonly_rules rule_by_name write_rules drop_unnamed_rules
sync_rules n fallback new_id payload rules =
    let own = node_readonly_rules n rules in
    template_routing_rules payload >>= λ contents.
    write_rules n fallback new_id (λ name. rule_by_name name own) 0 contents (rules, [])
    >>= λ written. ok (drop_unnamed_rules n (ids_of own) written.1 written.0)
