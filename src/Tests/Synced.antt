-- ===== src/Tests/Synced.antt =====
-- The synchronisation of a table with the template of a node, and the users of inbounds, on concrete rows.
use marzban.Common.{
  ℕ, String, str_eq, is_some, Bool, true, false, some, List, [], ◌∷◌, ◌≡◌, refl, All,
}
use marzban.Table.{Rows}
use marzban.World.{ok, err, value_error}
use marzban.Json.{Fields, no_fields, field, text, set}
use marzban.User.{vless, vmess}
use marzban.Registry.{user_inbounds, has_tag}
use marzban.Configs.{ConfigRow, ConfigCreate, create_row, get_row}
use marzban.Configs.Rows.{UniqueTags}
use marzban.Configs.Sync.{Contents, content_of, sync_rows}
use marzban.Configs.Written.{UniqueKeys}
use marzban.Configs.Refined.{Refines, sync_rows-Refines}
use marzban.Configs.Nodes.{OfNode, related, AdminsOwn, sync_rows-OfNode}
use marzban.Configs.Unique.{Change, Reached, Reached-UniqueTags}
use marzban.Configs.Users.{
  usable, tags_in, ensure_protocol_inbounds_for_users, exclude_protocol_inbounds_for_users,
  proxy_type_of,
}
use marzban.Configs.Excluded.{Lacks, LeftOut, exclude_protocol_inbounds_for_users-Lacks}
use marzban.Configs.Assigned.{Ensured, reaches, ensure_protocol_inbounds_for_users-Ensured}
use marzban.Tests.Samples.{alice, carol, registry}

abbrev content : String → Fields
content p = field "protocol" (text p) no_fields

abbrev row : String → Bool → List ℕ → ConfigRow
row tag readonly nodes = record {
  tag = tag;
  content = content "vless";
  enabled = true;
  readonly = readonly;
  nodes = nodes;
}

-- One that the node leaves, one that it shares, one that only it has, and one of the admins.
abbrev rows : List ConfigRow
rows =
    row "shared" true (1 ∷ 2 ∷ [])
    ∷ row "left" true (1 ∷ 2 ∷ [])
    ∷ row "gone" true (1 ∷ [])
    ∷ row "own" false (1 ∷ [])
    ∷ []

abbrev contents : Contents
contents = ("shared", content "vless") ∷ ("fresh", content "vmess") ∷ []

abbrev after : List ConfigRow
after =
    row "shared" true (1 ∷ 2 ∷ [])
    ∷ row "left" true (2 ∷ [])
    ∷ row "own" false (1 ∷ [])
    ∷ record (row "fresh" true (1 ∷ [])) { content = content "vmess" }
    ∷ []

UniqueTags-rows : UniqueTags rows
unfolding get_row
UniqueTags-rows = (refl, (refl, (refl, (refl, tt))))

UniqueKeys-contents : UniqueKeys contents
unfolding content_of
UniqueKeys-contents = (refl, (refl, tt))

synced_rows : sync_rows 1 contents rows ≡ ok after
unfolding sync_rows
synced_rows = refl

-- The admins' row is not overwritten.
refused_rows : sync_rows 1 (("own", content "vless") ∷ []) rows ≡ err value_error
unfolding sync_rows
refused_rows = refl

sync_rows-OfNode_example :
    OfNode 1 (content_of "left" contents) (get_row "left" after)
    × (related 2 (get_row "left" after) ≡ related 2 (get_row "left" rows))
    × AdminsOwn (get_row "left" rows) (get_row "left" after)
sync_rows-OfNode_example =
    sync_rows-OfNode 1 contents rows after UniqueTags-rows UniqueKeys-contents synced_rows "left" 2
      refl

sync_rows-Refines_example : Refines 1 contents rows (sync_rows 1 contents rows)
sync_rows-Refines_example = sync_rows-Refines 1 contents rows UniqueTags-rows UniqueKeys-contents

abbrev request : ConfigCreate
request = record { tag = "new"; content = content "vless"; enabled = true; node_ids = 2 ∷ [] }

abbrev made : ConfigRow
made = record {
  tag = "new";
  content = field "protocol" (text "vless") (field "tag" (text "new") no_fields);
  enabled = true;
  readonly = false;
  nodes = 2 ∷ [];
}

created_row : create_row (1 ∷ 2 ∷ []) request [] ≡ ok (made ∷ [])
unfolding create_row set
created_row = refl

synced_twice :
    sync_rows 1 contents (made ∷ [])
    ≡ ok (
        made
        ∷ row "shared" true (1 ∷ [])
        ∷ record (row "fresh" true (1 ∷ [])) { content = content "vmess" }
        ∷ [])
unfolding sync_rows
synced_twice = refl

Reached-UniqueTags_example : UniqueTags (
    made
    ∷ row "shared" true (1 ∷ [])
    ∷ record (row "fresh" true (1 ∷ [])) { content = content "vmess" }
    ∷ [])
Reached-UniqueTags_example =
    Reached-UniqueTags
      (made
        ∷ row "shared" true (1 ∷ [])
        ∷ record (row "fresh" true (1 ∷ [])) { content = content "vmess" }
        ∷ [])
      (Reached.by_change (1 ∷ 2 ∷ [])
        (Reached.by_change (1 ∷ 2 ∷ []) Reached.at_first (Change.created request created_row))
        (Change.synced 1 contents synced_twice))

abbrev excluded : String → Bool
excluded t = str_eq t "API_INBOUND"

abbrev inbounds : List ConfigRow
inbounds =
    row "vless-1" false (1 ∷ []) ∷ row "vless-2" false (2 ∷ []) ∷ row "vmess-1" false (2 ∷ []) ∷ []

vless_type : proxy_type_of "vless" ≡ some vless
unfolding proxy_type_of
vless_type = refl

vmess_type : proxy_type_of "vmess" ≡ some vmess
unfolding proxy_type_of
vmess_type = refl

usable_vless : has_tag "vless-2" (usable excluded ("vless-2" ∷ [])) ≡ true
unfolding has_tag usable
usable_vless = refl

usable_vmess : has_tag "vmess-1" (usable excluded ("vmess-1" ∷ [])) ≡ true
unfolding has_tag usable
usable_vmess = refl

there_vless : is_some (get_row "vless-2" inbounds) ≡ true
unfolding get_row
there_vless = refl

exclude_protocol_inbounds_for_users-Lacks_example :
    All
      (λ v. Lacks vless "vless-2" (user_inbounds registry v.proxies))
      (exclude_protocol_inbounds_for_users excluded inbounds "vless"
        ("vless-2" ∷ [])
        (alice ∷ carol ∷ []))
    × Rows
        (λ u v.
          (v.id ≡ u.id)
          × Rows
              (LeftOut vless (tags_in (usable excluded ("vless-2" ∷ [])) inbounds))
              u.proxies
              v.proxies)
        (alice ∷ carol ∷ [])
        (exclude_protocol_inbounds_for_users excluded inbounds "vless"
          ("vless-2" ∷ [])
          (alice ∷ carol ∷ []))
exclude_protocol_inbounds_for_users-Lacks_example =
    exclude_protocol_inbounds_for_users-Lacks excluded inbounds "vless" "vless-2" ("vless-2" ∷ [])
      vless (alice ∷ carol ∷ []) registry vless_type usable_vless there_vless

ensure_protocol_inbounds_for_users-Ensured_example :
    Rows
      (Ensured vmess
        ("vmess-1" ∷ [])
        (reaches excluded (usable excluded ("vmess-1" ∷ [])) inbounds))
      (alice ∷ [])
      (ensure_protocol_inbounds_for_users excluded
        (λ u. "{}")
        inbounds
        "vmess"
        ("vmess-1" ∷ [])
        ("vmess-1" ∷ [])
        (alice ∷ []))
ensure_protocol_inbounds_for_users-Ensured_example =
    ensure_protocol_inbounds_for_users-Ensured excluded (λ u. "{}") inbounds "vmess" "vmess-1"
      ("vmess-1" ∷ []) ("vmess-1" ∷ []) vmess (alice ∷ []) vmess_type usable_vmess
