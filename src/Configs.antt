-- ===== src/Configs.antt =====
-- app/db/crud/proxy_inbounds.py and proxy_outbounds.py: the rows of the inbounds and of the outbounds
-- that the panel keeps, which both have a unique tag, a content, and the nodes they are for. The two
-- files write the same functions twice; here they are written once.
pub mod Sync
pub mod Rows
pub mod Written
pub mod Refined
pub mod Nodes
pub mod Unique
pub mod Templates
pub mod Users
pub mod Excluded
pub mod Assigned
use marzban.Common.{
  ℕ, String, Bool, true, false, not, ◌&&◌, ◌||◌, Option, none, some, List, [], ◌∷◌, ◌++◌, str_eq,
  if◌then◌else◌, first, drop_first, is_some,
}
use marzban.World.{Result, ok, err, value_error, integrity_error, ◌>>=◌}
use marzban.Json.{Fields, text, set}
use marzban.Attached.{existing_nodes}

pub record ConfigRow : Type 0 where
  pub tag : String
  pub content : Fields
  pub enabled : Bool
  pub readonly : Bool
  pub nodes : List ℕ

-- `get_inbound`, `get_outbound`
unfoldable pub get_row : String → List ConfigRow → Option ConfigRow
get_row tag [] = none
get_row tag (r ∷ rows) = let rest = get_row tag rows in if str_eq r.tag tag then some r else rest

-- The row of a tag, overwritten.
unfoldable pub put_row : ConfigRow → List ConfigRow → List ConfigRow
put_row s [] = []
put_row s (r ∷ rows) =
    let rest = put_row s rows in if str_eq r.tag s.tag then s ∷ rows else r ∷ rest

pub record ConfigCreate : Type 0 where
  pub tag : String
  pub content : Fields
  pub enabled : Bool
  pub node_ids : List ℕ

pub record ConfigModify : Type 0 where
  pub content : Option Fields
  pub enabled : Option Bool
  pub node_ids : Option (List ℕ)

-- `create_inbound`, `create_outbound`: the commit refuses a tag that the table has.
unfoldable pub create_row : List ℕ → ConfigCreate → List ConfigRow → Result (List ConfigRow)
unfolding existing_nodes get_row
create_row nodes c rows = existing_nodes nodes c.node_ids >>= λ related.
    if is_some (get_row c.tag rows)
    then err integrity_error
    else ok (
        rows
        ++ record {
          tag = c.tag;
          content = set "tag" (text c.tag) c.content;
          enabled = c.enabled;
          readonly = false;
          nodes = related;
        }
          ∷ [])

abbrev pub modify_content : Option Fields → ConfigRow → Result ConfigRow
modify_content none r = ok r
modify_content (some content) r =
    if r.readonly
    then err value_error
    else ok (record r { content = set "tag" (text r.tag) content })

abbrev pub modify_enabled : Option Bool → ConfigRow → ConfigRow
modify_enabled none r = r
modify_enabled (some b) r = record r { enabled = if r.readonly then true else b }

abbrev pub modify_nodes : List ℕ → Option (List ℕ) → ConfigRow → Result ConfigRow
modify_nodes nodes none r = ok r
modify_nodes nodes (some node_ids) r =
    existing_nodes nodes node_ids >>= λ related. ok (record r { nodes = related })

-- `update_inbound`, `update_outbound`, of the row.
unfoldable pub update_row : List ℕ → ConfigModify → ConfigRow → Result ConfigRow
unfolding existing_nodes
update_row nodes m r =
    modify_content m.content r >>= λ s. modify_nodes nodes m.node_ids (modify_enabled m.enabled s)

-- `remove_inbound`, `remove_outbound`, of the table of rows.
unfoldable pub remove_row : ConfigRow → List ConfigRow → Result (List ConfigRow)
remove_row r rows =
    if r.readonly then err value_error else ok (drop_first (λ s. str_eq s.tag r.tag) rows)
