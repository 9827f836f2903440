-- ===== src/Routing/Readonly.antt =====
-- app/db/crud/routing.py: what the admins cannot change of a rule that a template of a node wrote.
use marzban.Common.{ℕ, Bool, true, Option, none, some, List, ◌≡◌, refl, sym, arith}
use marzban.World.{ok, err, value_error, bind-ok, ok-injective}
use marzban.Json.{Fields}
use marzban.Attached.{existing_nodes}
use marzban.Routing.{
  RoutingRule, RoutingRuleModify, modify_content, modify_enabled, modify_position, modify_nodes,
  update_routing_rule, remove_routing_rule,
}

-- The parts of a rule that a template wrote.
abbrev Kept : RoutingRule → RoutingRule → Type 0
Kept r s =
    (s.id ≡ r.id)
    × (s.content ≡ r.content)
    × (s.name ≡ r.name)
    × (s.readonly ≡ true)
    × (s.enabled ≡ true)

modify_content-readonly :
    (o : Option Fields) (r s : RoutingRule) → r.readonly ≡ true → modify_content o r ≡ ok s → r ≡ s
modify_content-readonly none r s e h = ok-injective h
modify_content-readonly (some c) r s e h = absurd (let g = h in ground arith)

modify_enabled-Kept :
    (o : Option Bool) (r : RoutingRule)
    → r.readonly ≡ true
    → r.enabled ≡ true
    → Kept r (modify_enabled o r)
modify_enabled-Kept none r e b = (refl, refl, refl, e, b)
modify_enabled-Kept (some on) r e b = (refl, refl, refl, e, rw e refl)

modify_position-Kept : (o : Option ℕ) (r s : RoutingRule) → Kept r s → Kept r (modify_position o s)
modify_position-Kept none r s k = k
modify_position-Kept (some n) r s k = k

modify_nodes-Kept :
    (nodes : List ℕ) (o : Option (List ℕ)) (r s t : RoutingRule)
    → Kept r s
    → modify_nodes nodes o s ≡ ok t
    → Kept r t
modify_nodes-Kept nodes none r s t k h = rw (sym (ok-injective h)) k
modify_nodes-Kept nodes (some l) r s t k h =
    rw (sym (ok-injective (bind-ok (existing_nodes nodes l) _ t h).2)) k

-- A read-only rule that is enabled keeps its id, name and content, and stays read-only and enabled,
-- through every update that is accepted; and it cannot be removed.
update_routing_rule-readonly :
    (nodes : List ℕ) (m : RoutingRuleModify) (r s : RoutingRule) (rules : List RoutingRule)
    → r.readonly ≡ true
    → r.enabled ≡ true
    → update_routing_rule nodes m r ≡ ok s
    → Kept r s × (remove_routing_rule s rules ≡ err value_error)
unfolding update_routing_rule remove_routing_rule
update_routing_rule-readonly nodes m r s rules e b h =
    let content = bind-ok (modify_content m.content r) _ s h in
    let same = modify_content-readonly m.content r content.0 e content.1 in
    let kept =
      modify_nodes-Kept nodes m.node_ids r
        (modify_position m.position (modify_enabled m.enabled content.0)) s
        (modify_position-Kept m.position r (modify_enabled m.enabled content.0)
          (rw (sym same) (modify_enabled-Kept m.enabled r e b)))
        content.2 in
    (kept, rw (kept.3) refl)
