-- ===== src/Configs/Rows.antt =====
-- The table of inbounds or outbounds as a map from tags: what its loops do to the row of one tag.
use marzban.Common.{
  String, true, false, none, some, List, [], ◌∷◌, ◌++◌, str_eq, eq_iff, ◌≡◌, refl, sym, ap, ◌∙◌,
  inl, inr, Bool-cases, arith,
}
use marzban.Configs.{ConfigRow, get_row, put_row}

-- No two rows of one tag.
abbrev pub UniqueTags : List ConfigRow → Type 0
UniqueTags [] = Unit
UniqueTags (r ∷ rows) = (get_row r.tag rows ≡ none) × UniqueTags rows

pub str_eq_same : (a b t : String) → str_eq a t ≡ true → str_eq a b ≡ str_eq t b
str_eq_same a b t h = ap (λ x. str_eq x b) ((eq_iff a t).0 h)

pub get_row_tag :
    (t : String) (rows : List ConfigRow) (r : ConfigRow) → get_row t rows ≡ some r → r.tag ≡ t
unfolding get_row
get_row_tag t [] r h = cc
get_row_tag t (s ∷ rows) r h = elim (Bool-cases (str_eq s.tag t)) [
  | inl e ↦ let same : s ≡ r = ground arith in ap (λ x. x.tag) (sym same) ∙ (eq_iff s.tag t).0 e
  | inr e ↦ get_row_tag t rows r (ground arith)
]

pub get_row-put_row :
    (s : ConfigRow) (rows : List ConfigRow) (r : ConfigRow)
    → get_row s.tag rows ≡ some r
    → get_row s.tag (put_row s rows) ≡ some s
unfolding get_row put_row
get_row-put_row s [] r h = cc
get_row-put_row s (q ∷ rows) r h = elim (Bool-cases (str_eq q.tag s.tag)) [
  | inl e ↦ rw e (rw ((eq_iff s.tag s.tag).1 refl) refl)
  | inr e ↦ rw e (rw e (get_row-put_row s rows r (ground arith)))
]

pub get_row-put_row_other :
    (t : String) (s : ConfigRow) (rows : List ConfigRow)
    → str_eq s.tag t ≡ false
    → get_row t (put_row s rows) ≡ get_row t rows
unfolding get_row put_row
get_row-put_row_other t s [] h = refl
get_row-put_row_other t s (q ∷ rows) h = elim (Bool-cases (str_eq q.tag s.tag)) [
  | inl e ↦ rw e (rw (str_eq_same q.tag t s.tag e, h) refl)
  | inr e ↦ rw e (rw (get_row-put_row_other t s rows h) refl)
]

pub get_row-append :
    (r : ConfigRow) (rows : List ConfigRow)
    → get_row r.tag rows ≡ none
    → get_row r.tag (rows ++ r ∷ []) ≡ some r
unfolding get_row
get_row-append r [] h = rw ((eq_iff r.tag r.tag).1 refl) refl
get_row-append r (q ∷ rows) h = elim (Bool-cases (str_eq q.tag r.tag)) [
  | inl e ↦ absurd (ground arith)
  | inr e ↦ rw e (get_row-append r rows (ground arith))
]

pub get_row-append_other :
    (t : String) (r : ConfigRow) (rows : List ConfigRow)
    → str_eq r.tag t ≡ false
    → get_row t (rows ++ r ∷ []) ≡ get_row t rows
unfolding get_row
get_row-append_other t r [] h = rw h refl
get_row-append_other t r (q ∷ rows) h = rw (get_row-append_other t r rows h) refl
