-- ===== src/Configs/Unique.antt =====
-- The unique tags of the inbounds and of the outbounds, through every change of the table.
use marzban.Common.{
  ℕ, String, Bool, false, none, some, List, [], ◌∷◌, ◌++◌, str_eq, eq_iff, if◌then◌else◌, is_some,
  ◌≡◌, refl, sym, ap, ◌∙◌, inl, inr, Bool-cases, Option-cases, arith, drop_first,
}
use marzban.Common.Text.{str_eq_sym}
use marzban.World.{ok, err, integrity_error, bind-ok, ok-injective}
use marzban.Json.{Fields, text, set}
use marzban.Attached.{existing_nodes}
use marzban.Configs.{
  ConfigRow, ConfigCreate, ConfigModify, get_row, put_row, create_row, update_row, remove_row,
}
use marzban.Configs.Rows.{UniqueTags, get_row-append_other, get_row-put_row_other}
use marzban.Configs.Sync.{
  Contents, detach_row, detach_rows, write_row, write_found, write_content, write_contents,
  readonly_row, sync_rows,
}
use marzban.Configs.Refined.{
  detached, detach_row_tag, detach_rows-eq, detach_rows_empty, get_row-detach_rows,
}

append-UniqueTags :
    (r : ConfigRow) (rows : List ConfigRow)
    → get_row r.tag rows ≡ none
    → UniqueTags rows
    → UniqueTags (rows ++ r ∷ [])
unfolding get_row
append-UniqueTags r [] e u = (refl, tt)
append-UniqueTags r (q ∷ rows) e u = elim (Bool-cases (str_eq q.tag r.tag)) [
  | inl d ↦ absurd (ground arith)
  | inr d ↦ (
    get_row-append_other q.tag r rows (str_eq_sym q.tag r.tag d) ∙ u.0,
    append-UniqueTags r rows (ground arith) u.1,
  )
]

put_row-UniqueTags :
    (s : ConfigRow) (rows : List ConfigRow) → UniqueTags rows → UniqueTags (put_row s rows)
unfolding put_row
put_row-UniqueTags s [] u = tt
put_row-UniqueTags s (q ∷ rows) u = elim (Bool-cases (str_eq q.tag s.tag)) [
  | inl d ↦ rw d (ap (λ x. get_row x rows) (sym ((eq_iff q.tag s.tag).0 d)) ∙ u.0, u.1)
  | inr d ↦ rw d (
    get_row-put_row_other q.tag s rows (str_eq_sym q.tag s.tag d) ∙ u.0,
    put_row-UniqueTags s rows u.1,
  )
]

-- Rows that are taken out of a table.
drop_first-missing :
    (p : ConfigRow → Bool) (t : String) (rows : List ConfigRow)
    → get_row t rows ≡ none
    → get_row t (drop_first p rows) ≡ none
unfolding get_row
drop_first-missing p t [] h = refl
drop_first-missing p t (q ∷ rows) h = elim (Bool-cases (str_eq q.tag t)) [
  | inl d ↦ absurd (ground arith)
  | inr d ↦ elim (Bool-cases (p q)) [
    | inl e ↦ rw e (ground arith)
    | inr e ↦ rw e (rw d (drop_first-missing p t rows (ground arith)))
  ]
]

drop_first-UniqueTags :
    (p : ConfigRow → Bool) (rows : List ConfigRow)
    → UniqueTags rows
    → UniqueTags (drop_first p rows)
drop_first-UniqueTags p [] u = tt
drop_first-UniqueTags p (q ∷ rows) u = elim (Bool-cases (p q)) [
  | inl e ↦ rw e u.1
  | inr e ↦ rw e (drop_first-missing p q.tag rows u.0, drop_first-UniqueTags p rows u.1)
]

detach_rows-UniqueTags :
    (n : ℕ) (contents : Contents) (rows : List ConfigRow)
    → UniqueTags rows
    → UniqueTags (detach_rows n contents rows)
detach_rows-UniqueTags n contents [] u = rw (detach_rows_empty n contents) tt
detach_rows-UniqueTags n contents (r ∷ rows) u =
    let rest = detach_rows-UniqueTags n contents rows u.1 in
    elim (Option-cases (detach_row n contents r)) [
      | inl d ↦ rw (detach_rows-eq n contents r rows, d) rest
      | inr (s, d) ↦
          let same = detach_row_tag n contents r s d in
          rw (detach_rows-eq n contents r rows, d)
            (
              get_row-detach_rows n contents s.tag rows u.1
                  ∙ ap (detached n contents) (ap (λ x. get_row x rows) same ∙ u.0),
              rest,
            )
    ]

write_content-UniqueTags :
    (n : ℕ) (t : String) (c : Fields) (rows next : List ConfigRow)
    → UniqueTags rows
    → write_content n t c rows ≡ ok next
    → UniqueTags next
unfolding write_content
write_content-UniqueTags n t c rows next u h = elim (Option-cases (get_row t rows)) [
  | inl e ↦
      let made : rows ++ readonly_row n t c ∷ [] ≡ next =
        ok-injective (sym (ap (write_found n t c rows) e) ∙ h) in
      rw (sym made) (append-UniqueTags (readonly_row n t c) rows e u)
  | inr (r, e) ↦
      let made = bind-ok (write_row n c r) _ next (sym (ap (write_found n t c rows) e) ∙ h) in
      rw (sym (ok-injective made.2)) (put_row-UniqueTags made.0 rows u)
]

write_contents-UniqueTags :
    (n : ℕ) (contents : Contents) (rows after : List ConfigRow)
    → UniqueTags rows
    → write_contents n contents rows ≡ ok after
    → UniqueTags after
unfolding write_contents
write_contents-UniqueTags n [] rows after u h = rw (sym (ok-injective h)) u
write_contents-UniqueTags n ((t, c) ∷ l) rows after u h =
    let step = bind-ok (write_content n t c rows) _ after h in
    write_contents-UniqueTags n l step.0 after (write_content-UniqueTags n t c rows step.0 u step.1)
      step.2

create_row-UniqueTags :
    (nodes : List ℕ) (c : ConfigCreate) (rows after : List ConfigRow)
    → UniqueTags rows
    → create_row nodes c rows ≡ ok after
    → UniqueTags after
unfolding create_row
create_row-UniqueTags nodes c rows after u h =
    let related = bind-ok (existing_nodes nodes c.node_ids) _ after h in
    elim (Option-cases (get_row c.tag rows)) [
      | inr (r, e) ↦ absurd (let g = related.2 in ground arith)
      | inl e ↦
          let row : ConfigRow = record {
            tag = c.tag;
            content = set "tag" (text c.tag) c.content;
            enabled = c.enabled;
            readonly = false;
            nodes = related.0;
          } in
          let made : rows ++ row ∷ [] ≡ after = ok-injective (
            sym (ap (λ o. if is_some o then err integrity_error else ok (rows ++ row ∷ [])) e)
            ∙ related.2) in
          rw (sym made) (append-UniqueTags row rows e u)
    ]

-- A change of the table that is committed.
pub data Change (nodes : List ℕ) : List ConfigRow → List ConfigRow → Type 0 where
  created :
      (c : ConfigCreate) {rows after : List ConfigRow}
      → create_row nodes c rows ≡ ok after
      → Change nodes rows after
  updated :
      (m : ConfigModify) (r s : ConfigRow) {rows : List ConfigRow}
      → get_row r.tag rows ≡ some r
      → update_row nodes m r ≡ ok s
      → Change nodes rows (put_row s rows)
  removed :
      (r : ConfigRow) {rows after : List ConfigRow}
      → remove_row r rows ≡ ok after
      → Change nodes rows after
  synced :
      (n : ℕ) (contents : Contents) {rows after : List ConfigRow}
      → sync_rows n contents rows ≡ ok after
      → Change nodes rows after

-- The tables that committed changes reach from the empty one, whatever nodes there are at each.
pub data Reached : List ConfigRow → Type 0 where
  at_first : Reached []
  by_change :
      (nodes : List ℕ) {rows after : List ConfigRow}
      → Reached rows
      → Change nodes rows after
      → Reached after

Change-UniqueTags :
    (nodes : List ℕ) (rows after : List ConfigRow)
    → UniqueTags rows
    → Change nodes rows after
    → UniqueTags after
unfolding remove_row sync_rows
Change-UniqueTags nodes rows after u (Change.created c h) =
    create_row-UniqueTags nodes c rows after u h
Change-UniqueTags nodes rows _ u (Change.updated m r s e h) = put_row-UniqueTags s rows u
Change-UniqueTags nodes rows after u (Change.removed r h) = elim (Bool-cases r.readonly) [
  | inl e ↦ absurd (let g = h in ground arith)
  | inr e ↦
      let made : drop_first (λ s. str_eq s.tag r.tag) rows ≡ after = ground arith in
      rw (sym made) (drop_first-UniqueTags (λ s. str_eq s.tag r.tag) rows u)
]
Change-UniqueTags nodes rows after u (Change.synced n contents h) =
    write_contents-UniqueTags n contents (detach_rows n contents rows) after
      (detach_rows-UniqueTags n contents rows u) h

-- In every table that the operations reach, no two inbounds, or outbounds, have one tag.
pub Reached-UniqueTags : (rows : List ConfigRow) → Reached rows → UniqueTags rows
Reached-UniqueTags _ Reached.at_first = tt
Reached-UniqueTags after (Reached.by_change nodes {rows} h step) =
    Change-UniqueTags nodes rows after (Reached-UniqueTags rows h) step
