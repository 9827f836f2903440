-- ===== src/Configs/Nodes.antt =====
-- `sync_readonly_node_config`, of one table: what the node of the template, the other nodes, and the
-- rows that the admins write are left with.
use marzban.Common.{
  ℕ, String, Bool, true, false, not, ◌&&◌, ◌||◌, Option, none, some, List, [], ◌∷◌, ◌++◌, ◌==◌,
  is_some, ◌≡◌, ◌⊎◌, refl, sym, ap, ◌∙◌, inl, inr, Bool-cases, arith,
}
use mathlib.Core.Bool.{false≢true}
use marzban.World.{ok, bind-ok, ok-injective}
use marzban.Json.{Fields, object, json_eq}
use marzban.Attached.{detach_node, detach_node-has, node_has_relation, other_relation_ids}
use marzban.Positions.{has}
use marzban.Configs.{ConfigRow, get_row}
use marzban.Configs.Rows.{UniqueTags, get_row_tag}
use marzban.Configs.Sync.{Contents, content_of, no_nodes, attach, detach_row, write_row, sync_rows}
use marzban.Configs.Written.{UniqueKeys, written}
use marzban.Configs.Refined.{detached, synced, sync_rows-Refines}

-- The row of a tag fits what the template of a node has for the tag.
abbrev pub OfNode : ℕ → Option Fields → Option ConfigRow → Type 0
OfNode n none none = Unit
OfNode n none (some r) = (r.readonly && has n r.nodes) ≡ false
OfNode n (some c) none = ⊥
OfNode n (some c) (some r) =
    (r.content ≡ c) × (r.enabled ≡ true) × (r.readonly ≡ true) × (has n r.nodes ≡ true)

-- The row of a tag is for a node.
abbrev pub related : ℕ → Option ConfigRow → Bool
related m none = false
related m (some r) = has m r.nodes

has-attach : (n m : ℕ) (l : List ℕ) → has m (l ++ n ∷ []) ≡ (has m l || (n == m))
has-attach n m [] = ground arith
has-attach n m (i ∷ l) = ground (arith, has-attach n m l)

attach-has : (n : ℕ) (l : List ℕ) → has n (attach n l) ≡ true
attach-has n l = elim (Bool-cases (has n l)) [
  | inl e ↦ rw e e
  | inr e ↦ let at = has-attach n n l in rw e (ground arith)
]

attach-has_other : (n m : ℕ) (l : List ℕ) → (n == m) ≡ false → has m (attach n l) ≡ has m l
attach-has_other n m l d = elim (Bool-cases (has n l)) [
  | inl e ↦ rw e refl
  | inr e ↦ let at = has-attach n m l in rw e (ground arith)
]

empty-has : (l : List ℕ) (m : ℕ) → no_nodes l ≡ true → has m l ≡ false
empty-has [] m h = refl
empty-has (i ∷ l) m h = cc

-- What `write_row` accepts and makes.
abbrev Rewritten : ℕ → Fields → ConfigRow → ConfigRow → Type 0
Rewritten n c r s =
    (r.readonly ≡ true) × (s ≡ record r { content = c; enabled = true; nodes = attach n r.nodes })

write_row-ok : (n : ℕ) (c : Fields) (r s : ConfigRow) → write_row n c r ≡ ok s → Rewritten n c r s
unfolding write_row
write_row-ok n c r s h = elim (Bool-cases (not r.readonly)) [
  | inl e ↦ absurd (let g = h in ground arith)
  | inr e ↦
      elim (Bool-cases (
        not (no_nodes (other_relation_ids r.nodes n))
        && not (json_eq (object r.content) (object c)))) [
          | inl d ↦ absurd (let g = h in ground arith)
          | inr d ↦ (ground arith, let g = h in ground arith)
        ]
]

-- The condition under which the first loop takes the node off a row.
abbrev leaves : ℕ → Contents → ConfigRow → Bool
leaves n contents r =
    r.readonly && node_has_relation r.nodes n && not (is_some (content_of r.tag contents))

detached-has : (n : ℕ) (l : List ℕ) → has n (detach_node l n) ≡ false
detached-has n l = let d = detach_node-has l n n in ground arith

detached-has_other : (n m : ℕ) (l : List ℕ) → (n == m) ≡ false → has m (detach_node l n) ≡ has m l
detached-has_other n m l e = let d = detach_node-has l n m in ground arith

unleft :
    (a b : Bool) (o : Option Fields)
    → (a && b && not (is_some o)) ≡ false
    → o ≡ none
    → (a && b) ≡ false
unleft a b o h e = ground arith

detach_row-OfNode :
    (n : ℕ) (contents : Contents) (r : ConfigRow)
    → content_of r.tag contents ≡ none
    → OfNode n none (detach_row n contents r)
unfolding detach_row
detach_row-OfNode n contents r e = elim (Bool-cases (leaves n contents r)) [
  | inr d ↦ rw d (unleft r.readonly (has n r.nodes) (content_of r.tag contents) d e)
  | inl d ↦ elim (Bool-cases (no_nodes (detach_node r.nodes n))) [
    | inl f ↦ rw (d, f) tt
    | inr f ↦ rw (d, f) (let off = detached-has n r.nodes in ground arith)
  ]
]

detach_row-related :
    (n m : ℕ) (contents : Contents) (r : ConfigRow)
    → (n == m) ≡ false
    → related m (detach_row n contents r) ≡ has m r.nodes
unfolding detach_row
detach_row-related n m contents r e =
    let others = detached-has_other n m r.nodes e in
    elim (Bool-cases (leaves n contents r)) [
      | inr d ↦ rw d refl
      | inl d ↦ elim (Bool-cases (no_nodes (detach_node r.nodes n))) [
        | inl f ↦ rw (d, f) (sym (empty-has (detach_node r.nodes n) m f) ∙ others)
        | inr f ↦ rw (d, f) others
      ]
    ]

detach_row-editable :
    (n : ℕ) (contents : Contents) (r : ConfigRow)
    → r.readonly ≡ false
    → detach_row n contents r ≡ some r
unfolding detach_row
detach_row-editable n contents r e = rw e refl

detached-OfNode :
    (n : ℕ) (contents : Contents) (t : String) (row : Option ConfigRow)
    → content_of t contents ≡ none
    → ((r : ConfigRow) → row ≡ some r → r.tag ≡ t)
    → OfNode n none (detached n contents row)
detached-OfNode n contents t none e tags = tt
detached-OfNode n contents t (some r) e tags =
    detach_row-OfNode n contents r (ap (λ x. content_of x contents) (tags r refl) ∙ e)

written-OfNode :
    (n : ℕ) (t : String) (o : Option Fields) (row made : Option ConfigRow)
    → (o ≡ none → OfNode n none row)
    → written n t o row ≡ ok made
    → OfNode n o made
written-OfNode n t none row made f h = rw (sym (ok-injective h)) (f refl)
written-OfNode n t (some c) none made f h =
    rw (sym (ok-injective h)) (refl, refl, refl, ground arith)
written-OfNode n t (some c) (some r) made f h =
    let wrote = bind-ok (write_row n c r) _ made h in
    let is = write_row-ok n c r wrote.0 wrote.1 in
    rw (sym (ok-injective wrote.2), is.1) (refl, refl, is.0, attach-has n r.nodes)

written-related :
    (n m : ℕ) (t : String) (o : Option Fields) (row made : Option ConfigRow)
    → (n == m) ≡ false
    → written n t o row ≡ ok made
    → related m made ≡ related m row
written-related n m t none row made e h = ap (related m) (sym (ok-injective h))
written-related n m t (some c) none made e h = rw (sym (ok-injective h)) (ground arith)
written-related n m t (some c) (some r) made e h =
    let wrote = bind-ok (write_row n c r) _ made h in
    let is = write_row-ok n c r wrote.0 wrote.1 in
    rw (sym (ok-injective wrote.2), is.1) (attach-has_other n m r.nodes e)

detached-related :
    (n m : ℕ) (contents : Contents) (row : Option ConfigRow)
    → (n == m) ≡ false
    → related m (detached n contents row) ≡ related m row
detached-related n m contents none e = refl
detached-related n m contents (some r) e = detach_row-related n m contents r e

-- A row that the admins write is not touched.
written-editable :
    (n : ℕ) (t : String) (o : Option Fields) (r : ConfigRow) (made : Option ConfigRow)
    → r.readonly ≡ false
    → written n t o (some r) ≡ ok made
    → (o ≡ none) × (made ≡ some r)
written-editable n t none r made e h = (refl, sym (ok-injective h))
written-editable n t (some c) r made e h =
    let wrote = bind-ok (write_row n c r) _ made h in
    let is = write_row-ok n c r wrote.0 wrote.1 in absurd (false≢true (sym e ∙ is.0))

-- A row that is not read-only is as it was.
abbrev pub AdminsOwn : Option ConfigRow → Option ConfigRow → Type 0
AdminsOwn none made = Unit
AdminsOwn (some r) made = (r.readonly ≡ true) ⊎ (made ≡ some r)

synced-AdminsOwn :
    (n : ℕ) (contents : Contents) (t : String) (row made : Option ConfigRow)
    → synced n contents t row ≡ ok made
    → AdminsOwn row made
synced-AdminsOwn n contents t none made h = tt
synced-AdminsOwn n contents t (some r) made h = elim (Bool-cases r.readonly) [
  | inl e ↦ inl e
  | inr e ↦
      inr
        (written-editable n t (content_of t contents) r made e (
          ap (written n t (content_of t contents)) (sym (detach_row-editable n contents r e))
          ∙ h)).1
]

-- After a synchronisation that goes through, on a table where no two rows have one tag, the node has
-- exactly the read-only rows of the template's dict: for each of its tags a row with that content,
-- enabled, read-only and for the node, and no other read-only row for the node. Every other node has
-- the rows that it had, and the rows that are not read-only are as they were.
pub sync_rows-OfNode :
    (n : ℕ) (contents : Contents) (rows after : List ConfigRow)
    → UniqueTags rows
    → UniqueKeys contents
    → sync_rows n contents rows ≡ ok after
    → (t : String) (m : ℕ) → (n == m) ≡ false
    → OfNode n (content_of t contents) (get_row t after)
      × (related m (get_row t after) ≡ related m (get_row t rows))
      × AdminsOwn (get_row t rows) (get_row t after)
sync_rows-OfNode n contents rows after u k h t m d = elim (sync_rows-Refines n contents rows u k) [
  | inr (s, e, a, f) ↦ absurd (let g = h in ground arith)
  | inl (made, a, f) ↦
      let same : made ≡ after = ok-injective (sym a ∙ h) in
      let step : synced n contents t (get_row t rows) ≡ ok (get_row t after) =
        f t ∙ ap (λ x. ok (get_row t x)) same in
      (
        written-OfNode n t (content_of t contents) (detached n contents (get_row t rows))
            (get_row t after)
            (λ e. detached-OfNode n contents t (get_row t rows) e (get_row_tag t rows)) step,
        written-related n m t (content_of t contents) (detached n contents (get_row t rows))
              (get_row t after) d step
            ∙ detached-related n m contents (get_row t rows) d,
        synced-AdminsOwn n contents t (get_row t rows) (get_row t after) step,
      )
]
