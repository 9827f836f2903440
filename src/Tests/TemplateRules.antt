-- ===== src/Tests/TemplateRules.antt =====
-- app/db/crud/routing.py: the rules of concrete templates.
use marzban.Common.{ℕ, ◌+◌, String, List, [], ◌∷◌, All, ◌≡◌, refl}
use marzban.Common.Text.{is_space}
use marzban.Common.Sorting.{sort_by}
use marzban.World.{ok}
use marzban.Json.{Fields, Values, no_fields, field, no_values, value, object, array, text, set}
use marzban.Routing.{RoutingRule}
use marzban.Routing.Template.{template_routing_rules, readonly_rule, sync_rules}
use marzban.Routing.Synced.{Defined, sync_rules-Defined}

abbrev rule_to : String → String → Fields
rule_to target tag =
    field "type" (text "field")
      (field "ruleTag" (text tag) (field "outboundTag" (text target) no_fields))

abbrev payload : Values → Fields
payload rules = field "routing" (object (field "rules" (array rules) no_fields)) no_fields

abbrev xray_rule : ℕ → String
xray_rule n = "Xray rule"

-- A rule of two nodes, and one of the first.
abbrev rows : List RoutingRule
rows =
    record (readonly_rule 1 5 0 "shared" (rule_to "direct" "shared")) { nodes = 1 ∷ 2 ∷ [] }
    ∷ readonly_rule 1 6 1 "old" (rule_to "direct" "old")
    ∷ []

-- The other node keeps its content of the shared rule, and the old rule goes.
abbrev synced : List RoutingRule
synced =
    record (readonly_rule 2 5 0 "shared" (rule_to "direct" "shared")) { nodes = 2 ∷ [] }
    ∷ readonly_rule 1 10 0 "shared" (rule_to "block" "shared")
    ∷ []

abbrev changed : Fields
changed = payload (value (object (rule_to "block" "shared")) no_values)

syncs : sync_rules 1 xray_rule (λ n. n + 10) changed rows ≡ ok synced
unfolding sync_rules is_space set sort_by
syncs = refl

-- Two rules of a template may have the same tag. Each is stored then, but the next template with the tag
-- changes only one of them, and leaves the other as it was.
abbrev twice : List RoutingRule
twice =
    readonly_rule 1 10 0 "a" (rule_to "direct" "a")
    ∷ readonly_rule 1 11 1 "a" (rule_to "block" "a")
    ∷ []

same_tags :
    sync_rules 1 xray_rule
      (λ n. n + 10)
      (payload
        (value (object (rule_to "direct" "a")) (value (object (rule_to "block" "a")) no_values)))
      []
    ≡ ok twice
unfolding sync_rules is_space set sort_by
same_tags = refl

stale :
    sync_rules 1 xray_rule
      (λ n. n + 20)
      (payload (value (object (rule_to "warp" "a")) no_values))
      twice
    ≡ ok (
        readonly_rule 1 10 0 "a" (rule_to "direct" "a")
        ∷ readonly_rule 1 11 0 "a" (rule_to "warp" "a")
        ∷ [])
unfolding sync_rules is_space set sort_by
stale = refl

sync_rules-Defined_example :
    (contents : List Fields) × (template_routing_rules changed ≡ ok contents)
    × All (Defined 1 xray_rule contents) synced
sync_rules-Defined_example = sync_rules-Defined 1 xray_rule (λ n. n + 10) changed rows synced syncs
