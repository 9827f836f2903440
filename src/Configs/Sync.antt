-- ===== src/Configs/Sync.antt =====
-- `sync_readonly_node_config` of app/db/crud/routing.py: the read-only inbounds and outbounds that the
-- Xray template of a node defines. The function treats the two tables by the same steps.
use marzban.Common.{
  ℕ, String, Bool, true, false, not, ◌&&◌, Option, none, some, List, [], ◌∷◌, ◌++◌, str_eq,
  if◌then◌else◌, is_some,
}
use marzban.World.{Result, ok, err, value_error, ◌>>=◌}
use marzban.Json.{Json, Fields, Values, no_values, value, object, text, get, json_eq, array}
use marzban.Attached.{detach_node, node_has_relation, other_relation_ids}
use marzban.Configs.{ConfigRow, get_row, put_row}

-- A dict from tags to contents.
abbrev pub Contents : Type 0
Contents = List (String × Fields)

-- `contents.get(tag)`
unfoldable pub content_of : String → Contents → Option Fields
content_of tag [] = none
content_of tag ((t, c) ∷ l) = let rest = content_of tag l in if str_eq t tag then some c else rest

-- `contents[tag] = c`
unfoldable pub put_content : String → Fields → Contents → Contents
put_content tag c [] = (tag, c) ∷ []
put_content tag c ((t, d) ∷ l) =
    let rest = (t, d) ∷ put_content tag c l in if str_eq t tag then (tag, c) ∷ l else rest

abbrev pub no_nodes : List ℕ → Bool
no_nodes [] = true
no_nodes (n ∷ l) = false

-- The first loop, of one row: `none` if the row is deleted.
unfoldable pub detach_row : ℕ → Contents → ConfigRow → Option ConfigRow
unfolding content_of detach_node
detach_row n contents r =
    if r.readonly && node_has_relation r.nodes n && not (is_some (content_of r.tag contents))
    then (if no_nodes (detach_node r.nodes n)
        then none
        else some (record r { nodes = detach_node r.nodes n }))
    else some r

-- A row that is not deleted stays in the table.
abbrev pub stay : Option ConfigRow → List ConfigRow → List ConfigRow
stay none rows = rows
stay (some s) rows = s ∷ rows

unfoldable pub detach_rows : ℕ → Contents → List ConfigRow → List ConfigRow
unfolding detach_row
detach_rows n contents [] = []
detach_rows n contents (r ∷ rows) = stay (detach_row n contents r) (detach_rows n contents rows)

-- `inbound.nodes.append(node)`, unless it is there.
abbrev pub attach : ℕ → List ℕ → List ℕ
attach n nodes = if node_has_relation nodes n then nodes else nodes ++ n ∷ []

-- The second loop, of a row that is there.
unfoldable pub write_row : ℕ → Fields → ConfigRow → Result ConfigRow
unfolding other_relation_ids json_eq
write_row n content r =
    if not r.readonly
    then err value_error
    else if not (no_nodes (other_relation_ids r.nodes n))
        && not (json_eq (object r.content) (object content))
    then err value_error
    else ok (record r { content = content; enabled = true; nodes = attach n r.nodes })

abbrev pub readonly_row : ℕ → String → Fields → ConfigRow
readonly_row n tag content = record {
  tag = tag;
  content = content;
  enabled = true;
  readonly = true;
  nodes = n ∷ [];
}

abbrev pub write_found :
    ℕ → String → Fields → List ConfigRow → Option ConfigRow → Result (List ConfigRow)
write_found n tag content rows none = ok (rows ++ readonly_row n tag content ∷ [])
write_found n tag content rows (some r) = write_row n content r >>= λ s. ok (put_row s rows)

unfoldable pub write_content : ℕ → String → Fields → List ConfigRow → Result (List ConfigRow)
unfolding get_row put_row write_row
write_content n tag content rows = write_found n tag content rows (get_row tag rows)

unfoldable pub write_contents : ℕ → Contents → List ConfigRow → Result (List ConfigRow)
unfolding write_content
write_contents n [] rows = ok rows
write_contents n ((tag, c) ∷ contents) rows =
    write_content n tag c rows >>= λ next. write_contents n contents next

-- Both loops, over one of the two tables.
unfoldable pub sync_rows : ℕ → Contents → List ConfigRow → Result (List ConfigRow)
unfolding detach_rows write_contents
sync_rows n contents rows = write_contents n contents (detach_rows n contents rows)

-- The texts that a value is truthy as a tag for.
abbrev pub tag_of : Fields → Option String
tag_of c = elim (get "tag" c) [ some (text t) ↦ (if str_eq t "" then none else some t) | _ ↦ none ]

module _ (wanted : String → Fields → Bool) where
  abbrev pub put_tagged : Option String → Fields → Contents → Contents
  put_tagged none c contents = contents
  put_tagged (some t) c contents = if wanted t c then put_content t c contents else contents

  -- One entry of the comprehension, where `wanted` is the rest of its condition.
  abbrev pub put_entry : Json → Contents → Contents
  put_entry (object c) contents = put_tagged (tag_of c) c contents
  put_entry _ contents = contents

  -- The dict comprehension over a list of the payload, from a dict on.
  unfoldable pub put_entries : Values → Contents → Contents
  unfolding put_content get
  put_entries no_values contents = contents
  put_entries (value v l) contents = put_entries l (put_entry v contents)

-- `payload.get(key, [])`
abbrev pub entries : String → Fields → Values
entries key payload = elim (get key payload) [ some (array l) ↦ l | _ ↦ no_values ]

-- `inbound.get("protocol") in XRAY_INBOUND_PROTOCOLS`
abbrev pub protocol_known : (String → Bool) → Fields → Bool
protocol_known known c = elim (get "protocol" c) [ some (text p) ↦ known p | _ ↦ false ]

-- `_template_inbound_contents`, where the protocols that the panel knows and the tags that its
-- settings exclude are given.
unfoldable pub template_inbound_contents : (String → Bool) → (String → Bool) → Fields → Contents
unfolding put_entries get
template_inbound_contents known excluded payload =
    put_entries (λ t c. protocol_known known c && not (excluded t)) (entries "inbounds" payload) []

-- `_template_outbound_contents`
unfoldable pub template_outbound_contents : Fields → Contents
unfolding put_entries get
template_outbound_contents payload = put_entries (λ t c. true) (entries "outbounds" payload) []
