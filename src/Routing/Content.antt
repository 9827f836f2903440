-- ===== src/Routing/Content.antt =====
-- app/models/routing.py: the contents that `normalize_routing_rule_content` lets through.
use marzban.Common.{
  ◌≤◌, String, true, false, ◌||◌, Option, none, some, leb, str_eq, ◌≡◌, refl, sym, ap, ◌∙◌, inl,
  inr, Bool-cases, arith,
}
use marzban.Common.Text.{str_eq_self, strip, strip-strip, is_empty, take_text_short, characters}
use marzban.World.{ok, bind-ok}
use marzban.Json.{Json, Fields, no_fields, field, text, object, get, set, truthy_at}
use marzban.Routing.{
  check_type, check_targets, check_tagged, check_rule_tag, normalize_routing_rule_content,
  get_routing_rule_name, normalize_tag, name_of_tag,
}

get-set : (k : String) (v : Json) (c : Fields) → get k (set k v c) ≡ some v
unfolding get set
get-set k v no_fields = rw (str_eq_self k) refl
get-set k v (field l w c) = elim (Bool-cases (str_eq l k)) [
  | inl e ↦ rw e (rw e refl)
  | inr e ↦ rw e (rw e (get-set k v c))
]

set-set : (k : String) (v : Json) (c : Fields) → set k v (set k v c) ≡ set k v c
unfolding set
set-set k v no_fields = rw (str_eq_self k) refl
set-set k v (field l w c) = elim (Bool-cases (str_eq l k)) [
  | inl e ↦ rw e (rw e refl)
  | inr e ↦ rw e (rw e (ap (λ t. field l w t) (set-set k v c)))
]

check_targets-ok : (c d : Fields) → check_targets c ≡ ok d → c ≡ d
unfolding check_targets
check_targets-ok c d h =
    elim (Bool-cases (truthy_at "outboundTag" c || truthy_at "balancerTag" c)) [
      | inl e ↦ ground arith
      | inr e ↦ absurd (ground arith)
    ]

check_tagged-ok : (c d : Fields) → check_tagged c ≡ ok d → c ≡ d
unfolding check_tagged
check_tagged-ok c d h =
    let known = bind-ok (check_type c) _ d h in
    elim (Bool-cases known.0) [
      | inl e ↦ check_targets-ok c d (let g = known.2 in ground arith)
      | inr e ↦ absurd (let g = known.2 in ground arith)
    ]

-- What a tag and a content must be like for the content to pass.
abbrev Passed : String → Fields → Fields → Type 0
Passed tag c d =
    (is_empty tag ≡ false)
    × (characters tag ≤ 128)
    × (set "ruleTag" (text tag) c ≡ d)
    × (check_tagged d ≡ ok d)

check_rule_tag-Passed : (tag : String) (c d : Fields) → check_rule_tag tag c ≡ ok d → Passed tag c d
unfolding check_rule_tag
check_rule_tag-Passed tag c d h = elim (Bool-cases (is_empty tag)) [
  | inl e ↦ absurd (ground arith)
  | inr e ↦ elim (Bool-cases (leb (characters tag) 128)) [
    | inr l ↦ absurd (ground arith)
    | inl l ↦
        let done : check_tagged (set "ruleTag" (text tag) c) ≡ ok d = ground arith in
        let same = check_tagged-ok (set "ruleTag" (text tag) c) d done in
        (e, ground arith, same, sym (ap check_tagged same) ∙ done)
  ]
]

Passed-check_rule_tag : (tag : String) (d : Fields) → Passed tag d d → check_rule_tag tag d ≡ ok d
unfolding check_rule_tag
Passed-check_rule_tag tag d h =
    let short : leb (characters tag) 128 ≡ true = let l = h.1 in ground arith in
    rw (h.0, short, h.2) (h.3)

-- A tag that passes is a text, and the content is what `set` makes of the one given.
normalize_tag-text :
    (o : Option Json) (c d : Fields)
    → normalize_tag o c ≡ ok d
    → (tag : String) × (o ≡ some (text tag)) × Passed (strip tag) c d
unfolding normalize_tag
normalize_tag-text (some (text tag)) c d h = (tag, refl, check_rule_tag-Passed (strip tag) c d h)
normalize_tag-text none c d h = cc
normalize_tag-text (some Json.null) c d h = cc
normalize_tag-text (some (Json.boolean b)) c d h = cc
normalize_tag-text (some (Json.number n)) c d h = cc
normalize_tag-text (some (Json.array l)) c d h = cc
normalize_tag-text (some (object l)) c d h = cc

-- The tag that the normalised content holds.
abbrev pub Named : Fields → Type 0
Named d =
    (tag : String) × (get "ruleTag" d ≡ some (text tag))
    × (is_empty tag ≡ false)
    × (characters tag ≤ 128)
    × (strip tag ≡ tag)
    × (get_routing_rule_name d none ≡ ok tag)

Passed-Named : (tag : String) (c d : Fields) → Passed (strip tag) c d → Named d
unfolding get_routing_rule_name name_of_tag
Passed-Named tag c d h =
    let found = ap (get "ruleTag") (sym h.2) ∙ get-set "ruleTag" (text (strip tag)) c in
    (
      strip tag,
      found,
      h.0,
      h.1,
      strip-strip tag,
      rw (found, strip-strip tag) (rw h.0 (ap ok (take_text_short 128 (strip tag) h.1))),
    )

Named-again :
    (tag : String) (c d : Fields)
    → Passed (strip tag) c d
    → normalize_routing_rule_content (object d) ≡ ok d
unfolding normalize_routing_rule_content normalize_tag
Named-again tag c d h =
    let found = ap (get "ruleTag") (sym h.2) ∙ get-set "ruleTag" (text (strip tag)) c in
    let again =
      ap (set "ruleTag" (text (strip tag))) (sym h.2)
      ∙ set-set "ruleTag" (text (strip tag)) c
      ∙ h.2 in
    rw (found, strip-strip tag) (Passed-check_rule_tag (strip tag) d (h.0, h.1, again, h.3))

-- A content that `normalize_routing_rule_content` lets through names its rule: its `ruleTag` is a
-- stripped text of 1 to 128 characters, and `get_routing_rule_name` answers it whole. Normalising the
-- result again changes nothing.
pub normalize_routing_rule_content-Named :
    (c d : Fields)
    → normalize_routing_rule_content (object c) ≡ ok d
    → Named d × (normalize_routing_rule_content (object d) ≡ ok d)
unfolding normalize_routing_rule_content
normalize_routing_rule_content-Named c d h =
    let tagged = normalize_tag-text (get "ruleTag" c) c d h in
    (Passed-Named tagged.0 c d tagged.2, Named-again tagged.0 c d tagged.2)
