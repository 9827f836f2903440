-- ===== src/Configs/Written.antt =====
-- The second loop of `sync_readonly_node_config`, by the row of each tag.
use marzban.Common.{
  ℕ, String, false, not, ◌&&◌, Option, none, some, List, [], ◌∷◌, str_eq, eq_iff, ◌≡◌, ◌⊎◌, refl,
  sym, ap, ◌∙◌, inl, inr, Bool-cases, arith,
}
use marzban.World.{Result, Fault, ok, err, ◌>>=◌, Result-cases, bind-ok, ok-injective}
use marzban.Json.{Fields, object, json_eq}
use marzban.Attached.{other_relation_ids}
use marzban.Configs.{ConfigRow, get_row, put_row}
use marzban.Configs.Rows.{
  get_row_tag, get_row-put_row, get_row-put_row_other, get_row-append, get_row-append_other,
}
use marzban.Configs.Sync.{
  Contents, content_of, no_nodes, write_row, write_found, write_content, write_contents,
  readonly_row,
}

-- No two contents of one tag, as in a dict.
abbrev pub UniqueKeys : Contents → Type 0
UniqueKeys [] = Unit
UniqueKeys ((t, c) ∷ l) = (content_of t l ≡ none) × UniqueKeys l

-- What a content, or none, makes of the row of its tag.
abbrev pub written : ℕ → String → Option Fields → Option ConfigRow → Result (Option ConfigRow)
written n t none row = ok row
written n t (some c) none = ok (some (readonly_row n t c))
written n t (some c) (some r) = write_row n c r >>= λ s. ok (some s)

abbrev tag_or_err : String → Result ConfigRow → String
tag_or_err t (err e) = t
tag_or_err t (ok r) = r.tag

tag_or_err-write_row :
    (n : ℕ) (c : Fields) (r : ConfigRow) → tag_or_err r.tag (write_row n c r) ≡ r.tag
unfolding write_row
tag_or_err-write_row n c r = elim (Bool-cases (not r.readonly)) [
  | inl e ↦ rw e refl
  | inr e ↦
      elim (Bool-cases (
        not (no_nodes (other_relation_ids r.nodes n))
        && not (json_eq (object r.content) (object c)))) [
          | inl d ↦ rw (e, d) refl
          | inr d ↦ rw (e, d) refl
        ]
]

write_row_tag : (n : ℕ) (c : Fields) (r s : ConfigRow) → write_row n c r ≡ ok s → s.tag ≡ r.tag
write_row_tag n c r s h = ap (tag_or_err r.tag) (sym h) ∙ tag_or_err-write_row n c r

-- The row of a tag after a content is written, and those of the other tags.
abbrev Wrote : ℕ → String → Fields → List ConfigRow → List ConfigRow → Type 0
Wrote n k c rows next =
    (written n k (some c) (get_row k rows) ≡ ok (get_row k next))
    × ((t : String) → str_eq k t ≡ false → get_row t next ≡ get_row t rows)

write_found-Wrote :
    (n : ℕ) (k : String) (c : Fields) (rows next : List ConfigRow) (o : Option ConfigRow)
    → get_row k rows ≡ o
    → write_found n k c rows o ≡ ok next
    → Wrote n k c rows next
write_found-Wrote n k c rows next none e h =
    let there = get_row-append (readonly_row n k c) rows e in
    rw (sym (ok-injective h), e)
      (ap ok (sym there), λ t other. get_row-append_other t (readonly_row n k c) rows other)
write_found-Wrote n k c rows next (some r) e h =
    let wrote = bind-ok (write_row n c r) _ next h in
    let tags : wrote.0.tag ≡ k = write_row_tag n c r wrote.0 wrote.1 ∙ get_row_tag k rows r e in
    let same = ok-injective wrote.2 in
    let there : get_row k (put_row wrote.0 rows) ≡ some wrote.0 =
      ap (λ x. get_row x (put_row wrote.0 rows)) (sym tags)
      ∙ get_row-put_row wrote.0 rows r (ap (λ x. get_row x rows) tags ∙ e) in
    rw (sym same, e, wrote.1)
      (
        ap ok (sym there),
        λ t other. get_row-put_row_other t wrote.0 rows (ap (λ x. str_eq x t) tags ∙ other),
      )

write_found-err :
    (n : ℕ) (k : String) (c : Fields) (rows : List ConfigRow) (o : Option ConfigRow) (e : Fault)
    → write_found n k c rows o ≡ err e
    → written n k (some c) o ≡ err e
write_found-err n k c rows none e h = cc
write_found-err n k c rows (some r) e h = elim (Result-cases (write_row n c r)) [
  | inl (s, d) ↦ absurd (let g = h in ground arith)
  | inr (f, d) ↦ let g = h in rw d (ground arith)
]

-- The answer of the whole loop, read by tag: it goes through, and makes of the row of each tag what
-- the content of the tag makes of it, or one tag has an error, which is the answer.
abbrev pub Looped : ℕ → Contents → List ConfigRow → Result (List ConfigRow) → Type 0
Looped n contents rows answer =
    ((after : List ConfigRow) × (answer ≡ ok after)
      × ((t : String)
          → written n t (content_of t contents) (get_row t rows) ≡ ok (get_row t after)))
    ⊎ ((t : String) × (e : Fault) × (answer ≡ err e)
        × (written n t (content_of t contents) (get_row t rows) ≡ err e))

content_of-here : (k : String) (c : Fields) (l : Contents) → content_of k ((k, c) ∷ l) ≡ some c
unfolding content_of
content_of-here k c l = rw ((eq_iff k k).1 refl) refl

content_of_empty : (t : String) → content_of t [] ≡ none
unfolding content_of
content_of_empty t = refl

write_content-eq :
    (n : ℕ) (k : String) (c : Fields) (rows : List ConfigRow)
    → write_content n k c rows ≡ write_found n k c rows (get_row k rows)
unfolding write_content
write_content-eq n k c rows = refl

written_step :
    (n : ℕ) (k : String) (c : Fields) (l : Contents) (rows next : List ConfigRow) (t : String)
    → content_of k l ≡ none
    → Wrote n k c rows next
    → written n t (content_of t ((k, c) ∷ l)) (get_row t rows)
      ≡ written n t (content_of t l) (get_row t next)
unfolding content_of
written_step n k c l rows next t u w = elim (Bool-cases (str_eq k t)) [
  | inl e ↦
      let same = (eq_iff k t).0 e in
      let gone : content_of t l ≡ none = ap (λ x. content_of x l) (sym same) ∙ u in
      rw e (
        rw gone (
          ap (λ x. written n x (some c) (get_row x rows)) (sym same)
          ∙ w.0
          ∙ ap (λ x. ok (get_row x next)) same))
  | inr e ↦ rw e (rw (w.1 t e) refl)
]

pub write_contents-Looped :
    (n : ℕ) (contents : Contents) (rows : List ConfigRow)
    → UniqueKeys contents
    → Looped n contents rows (write_contents n contents rows)
unfolding write_contents
write_contents-Looped n [] rows u = inl (rows, refl, λ t. rw (content_of_empty t) refl)
write_contents-Looped n ((k, c) ∷ l) rows u = elim (Result-cases (write_content n k c rows)) [
  | inr (e, d) ↦ inr (
    k,
    e,
    rw d refl,
    rw (content_of-here k c l)
        (write_found-err n k c rows (get_row k rows) e (sym (write_content-eq n k c rows) ∙ d)),
  )
  | inl (next, d) ↦
      let w =
        write_found-Wrote n k c rows next (get_row k rows) refl
          (sym (write_content-eq n k c rows) ∙ d) in
      elim (write_contents-Looped n l next u.1) [
        | inl (after, a, f) ↦ inl (after, rw d a, λ t. written_step n k c l rows next t u.0 w ∙ f t)
        | inr (t, e, a, f) ↦ inr (t, e, rw d a, written_step n k c l rows next t u.0 w ∙ f)
      ]
]
