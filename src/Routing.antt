-- ===== src/Routing.antt =====
-- app/models/routing.py and the routing rules of app/db/crud/routing.py.
pub mod Content
pub mod Nodes
pub mod Readonly
pub mod Template
pub mod Covered
pub mod Synced
use marzban.Common.{
  ℕ, String, Bool, true, false, not, ◌&&◌, ◌||◌, Option, none, some, List, [], ◌∷◌, ◌++◌, map,
  str_eq, ◌==◌, leb, if◌then◌else◌, keep, first, drop_first, length, ◌≡◌, refl,
}
use marzban.Common.Text.{strip, is_empty, take_text, characters}
use marzban.World.{Result, ok, err, value_error, type_error, ◌>>=◌}
use marzban.Json.{Json, Fields, text, object, array, get, set, truthy_at}
use marzban.Attached.{existing_nodes}
use marzban.Positions.{Positioned, in_order, next_position, reorder, has}

-- `normalized.get("type") not in {"field", "balancer"}`, which hashes what it looks up.
unfoldable pub check_type : Fields → Result Bool
unfolding get
check_type content = elim (get "type" content) [
  | some (text t) ↦ ok (str_eq t "field" || str_eq t "balancer")
  | some (array l) ↦ err type_error
  | some (object l) ↦ err type_error
  | _ ↦ ok false
]

unfoldable pub check_targets : Fields → Result Fields
unfolding truthy_at
check_targets content =
    if truthy_at "outboundTag" content || truthy_at "balancerTag" content
    then ok content
    else err value_error

unfoldable pub check_tagged : Fields → Result Fields
unfolding check_type check_targets
check_tagged content =
    check_type content >>= λ known. if known then check_targets content else err value_error

unfoldable pub check_rule_tag : String → Fields → Result Fields
unfolding check_tagged
check_rule_tag tag content =
    if is_empty tag
    then err value_error
    else if leb (characters tag) 128
    then check_tagged (set "ruleTag" (text tag) content)
    else err value_error

-- The `ruleTag` that was found must be a text.
unfoldable pub normalize_tag : Option Json → Fields → Result Fields
unfolding check_rule_tag strip
normalize_tag (some (text tag)) content = check_rule_tag (strip tag) content
normalize_tag _ content = err value_error

unfoldable pub normalize_routing_rule_content : Json → Result Fields
unfolding normalize_tag get
normalize_routing_rule_content (object content) = normalize_tag (get "ruleTag" content) content
normalize_routing_rule_content _ = err value_error

-- `fallback`, or a `ValueError`
abbrev pub name_or : Option String → Result String
name_or none = err value_error
name_or (some name) = ok name

unfoldable pub name_of_tag : Option Json → Option String → Result String
unfolding strip
name_of_tag (some (text tag)) fallback =
    if is_empty (strip tag) then name_or fallback else ok (take_text 128 (strip tag))
name_of_tag _ fallback = name_or fallback

unfoldable pub get_routing_rule_name : Fields → Option String → Result String
unfolding get name_of_tag
get_routing_rule_name content fallback = name_of_tag (get "ruleTag" content) fallback

-- A row of the table, with the ids of the nodes it is for.
pub record RoutingRule : Type 0 where
  pub id : ℕ
  pub name : String
  pub content : Fields
  pub enabled : Bool
  pub readonly : Bool
  pub position : ℕ
  pub nodes : List ℕ

pub record RoutingRuleCreate : Type 0 where
  pub content : Fields
  pub enabled : Bool
  pub node_ids : List ℕ
  pub position : Option ℕ

pub record RoutingRuleModify : Type 0 where
  pub content : Option Fields
  pub enabled : Option Bool
  pub node_ids : Option (List ℕ)
  pub position : Option ℕ

abbrev pub positioned : Positioned RoutingRule
positioned = record {
  id_of = λ r. r.id;
  position_of = λ r. r.position;
  place = λ r n. record r { position = n };
  id_of-place = λ r n. refl;
  position_of-place = λ r n. refl;
}

-- `get_routing_rules`: of a node, or all.
unfoldable pub get_routing_rules : List RoutingRule → Option ℕ → List RoutingRule
get_routing_rules rules none = in_order positioned rules
get_routing_rules rules (some node_id) = in_order positioned (keep (λ r. has node_id r.nodes) rules)

-- `get_routing_rule`
abbrev pub get_routing_rule : List RoutingRule → ℕ → Option RoutingRule
get_routing_rule rules rule_id = first (λ r. r.id == rule_id) rules

-- `rule.position`, or the next position
abbrev pub position_or_next : List RoutingRule → Option ℕ → ℕ
position_or_next rules none = next_position positioned rules
position_or_next rules (some n) = n

-- `create_routing_rule`, where the database gives the row its primary key `id`.
unfoldable pub create_routing_rule :
    List ℕ → ℕ → RoutingRuleCreate → List RoutingRule → Result (List RoutingRule)
unfolding existing_nodes get_routing_rule_name
create_routing_rule nodes id rule rules = existing_nodes nodes rule.node_ids >>= λ related.
    get_routing_rule_name rule.content none >>= λ name. ok (
      rules
      ++ record {
        id = id;
        name = name;
        content = rule.content;
        enabled = rule.enabled;
        readonly = false;
        position = position_or_next rules rule.position;
        nodes = related;
      }
        ∷ [])

abbrev pub modify_content : Option Fields → RoutingRule → Result RoutingRule
modify_content none r = ok r
modify_content (some content) r =
    if r.readonly
    then err value_error
    else (get_routing_rule_name content none >>= λ name.
        ok (record r { content = content; name = name }))

abbrev pub modify_enabled : Option Bool → RoutingRule → RoutingRule
modify_enabled none r = r
modify_enabled (some b) r = record r { enabled = if r.readonly then true else b }

abbrev pub modify_position : Option ℕ → RoutingRule → RoutingRule
modify_position none r = r
modify_position (some n) r = record r { position = n }

abbrev pub modify_nodes : List ℕ → Option (List ℕ) → RoutingRule → Result RoutingRule
modify_nodes nodes none r = ok r
modify_nodes nodes (some node_ids) r =
    existing_nodes nodes node_ids >>= λ related. ok (record r { nodes = related })

-- `update_routing_rule`, of the row. An error leaves the table as it was: nothing is committed.
unfoldable pub update_routing_rule : List ℕ → RoutingRuleModify → RoutingRule → Result RoutingRule
unfolding existing_nodes get_routing_rule_name
update_routing_rule nodes m r = modify_content m.content r >>= λ s.
    modify_nodes nodes m.node_ids (modify_position m.position (modify_enabled m.enabled s))

-- `reorder_routing_rules`: the table after it, which `get_routing_rules` reads.
unfoldable pub reorder_routing_rules : List ℕ → List RoutingRule → Result (List RoutingRule)
unfolding reorder
reorder_routing_rules rule_ids rules = reorder positioned rule_ids rules

-- `remove_routing_rule`
unfoldable pub remove_routing_rule : RoutingRule → List RoutingRule → Result (List RoutingRule)
remove_routing_rule r rules =
    if r.readonly then err value_error else ok (drop_first (λ s. s.id == r.id) rules)

-- `get_routing_rules_for_node`
unfoldable pub get_routing_rules_for_node : List RoutingRule → ℕ → List Fields
unfolding in_order
get_routing_rules_for_node rules node_id =
    map (λ r. r.content) (in_order positioned (keep (λ r. has node_id r.nodes && r.enabled) rules))
