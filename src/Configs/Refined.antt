-- ===== src/Configs/Refined.antt =====
-- `sync_readonly_node_config`, of one table: its loops refine a specification of the row of each tag.
use marzban.Common.{
  ℕ, String, true, false, not, ◌&&◌, Option, none, some, List, [], ◌∷◌, str_eq, eq_iff, is_some,
  ◌≡◌, ◌⊎◌, refl, sym, ap, ◌∙◌, inl, inr, Bool-cases, Option-cases,
}
use marzban.World.{Result, Fault, ok, err}
use marzban.Attached.{detach_node, node_has_relation}
use marzban.Configs.{ConfigRow, get_row}
use marzban.Configs.Rows.{UniqueTags}
use marzban.Configs.Written.{UniqueKeys, written, write_contents-Looped}
use marzban.Configs.Sync.{Contents, content_of, no_nodes, stay, detach_row, detach_rows, sync_rows}

-- What the first loop leaves of the row of a tag.
abbrev pub detached : ℕ → Contents → Option ConfigRow → Option ConfigRow
detached n contents none = none
detached n contents (some r) = detach_row n contents r

abbrev tag_or : String → Option ConfigRow → String
tag_or t none = t
tag_or t (some r) = r.tag

tag_or-detach_row :
    (n : ℕ) (contents : Contents) (r : ConfigRow) → tag_or r.tag (detach_row n contents r) ≡ r.tag
unfolding detach_row
tag_or-detach_row n contents r =
    elim (Bool-cases
      (r.readonly && node_has_relation r.nodes n && not (is_some (content_of r.tag contents)))) [
        | inr e ↦ rw e refl
        | inl e ↦ elim (Bool-cases (no_nodes (detach_node r.nodes n))) [
          | inl d ↦ rw (e, d) refl
          | inr d ↦ rw (e, d) refl
        ]
      ]

pub detach_row_tag :
    (n : ℕ) (contents : Contents) (r s : ConfigRow)
    → detach_row n contents r ≡ some s
    → s.tag ≡ r.tag
detach_row_tag n contents r s h = ap (tag_or r.tag) (sym h) ∙ tag_or-detach_row n contents r

pub detach_rows-eq :
    (n : ℕ) (contents : Contents) (r : ConfigRow) (rows : List ConfigRow)
    → detach_rows n contents (r ∷ rows)
      ≡ stay (detach_row n contents r) (detach_rows n contents rows)
unfolding detach_rows
detach_rows-eq n contents r rows = refl

pub detach_rows_empty : (n : ℕ) (contents : Contents) → detach_rows n contents [] ≡ []
unfolding detach_rows
detach_rows_empty n contents = refl

pub get_row-detach_rows :
    (n : ℕ) (contents : Contents) (t : String) (rows : List ConfigRow)
    → UniqueTags rows
    → get_row t (detach_rows n contents rows) ≡ detached n contents (get_row t rows)
unfolding get_row
get_row-detach_rows n contents t [] u = rw (detach_rows_empty n contents) refl
get_row-detach_rows n contents t (r ∷ rows) u =
    let rest = get_row-detach_rows n contents t rows u.1 in
    elim (Bool-cases (str_eq r.tag t)) [
      | inl e ↦
          let alone : get_row t rows ≡ none =
            ap (λ x. get_row x rows) (sym ((eq_iff r.tag t).0 e)) ∙ u.0 in
          elim (Option-cases (detach_row n contents r)) [
            | inl d ↦
                rw (detach_rows-eq n contents r rows, d)
                  (rw e (rest ∙ ap (detached n contents) alone ∙ sym d))
            | inr (s, d) ↦
                let kept : str_eq s.tag t ≡ true =
                  ap (λ x. str_eq x t) (detach_row_tag n contents r s d) ∙ e in
                rw (detach_rows-eq n contents r rows, d) (rw (kept, e) (sym d))
          ]
      | inr e ↦ elim (Option-cases (detach_row n contents r)) [
        | inl d ↦ rw (detach_rows-eq n contents r rows, d) (rw e rest)
        | inr (s, d) ↦
            let kept : str_eq s.tag t ≡ false =
              ap (λ x. str_eq x t) (detach_row_tag n contents r s d) ∙ e in
            rw (detach_rows-eq n contents r rows, d) (rw (kept, e) rest)
      ]
    ]

-- The specification, of the row of one tag: what the template's dict has for the tag is written over
-- the row, or a new row is made; without it, the node is taken off a read-only row, and a row that
-- no node is left for is deleted.
abbrev pub synced : ℕ → Contents → String → Option ConfigRow → Result (Option ConfigRow)
synced n contents t row = written n t (content_of t contents) (detached n contents row)

-- An answer for the table is what the specification says of the rows of its tags.
abbrev pub Refines : ℕ → Contents → List ConfigRow → Result (List ConfigRow) → Type 0
Refines n contents rows answer =
    ((after : List ConfigRow) × (answer ≡ ok after)
      × ((t : String) → synced n contents t (get_row t rows) ≡ ok (get_row t after)))
    ⊎ ((t : String) × (e : Fault) × (answer ≡ err e)
        × (synced n contents t (get_row t rows) ≡ err e))

-- The two loops refine the specification: on a table where no two rows have one tag, and a dict,
-- either they go through, and the row of each tag is as specified, or the specification of some tag
-- is an error, and that is the answer.
pub sync_rows-Refines :
    (n : ℕ) (contents : Contents) (rows : List ConfigRow)
    → UniqueTags rows
    → UniqueKeys contents
    → Refines n contents rows (sync_rows n contents rows)
unfolding sync_rows
sync_rows-Refines n contents rows u k =
    elim (write_contents-Looped n contents (detach_rows n contents rows) k) [
      | inl (after, a, f) ↦ inl (after, a, λ t. by_row t ∙ f t)
      | inr (t, e, a, f) ↦ inr (t, e, a, by_row t ∙ f)
    ]
  where
    by_row :
        (t : String)
        → synced n contents t (get_row t rows)
          ≡ written n t (content_of t contents) (get_row t (detach_rows n contents rows))
    by_row t =
        ap (written n t (content_of t contents)) (sym (get_row-detach_rows n contents t rows u))
