-- ===== src/Positions.antt =====
-- app/db/crud/routing.py and proxy_hosts.py: the rows that stand in an order which the admins choose.
-- Routing rules and hosts both keep a position, are read by position, and are moved by the list of
-- their ids; the code writes it twice, and here it is written once, over an interface.
pub mod Order
pub mod Named
pub mod Ranks
pub mod Reordered
pub mod Appended
use marzban.Common.{
  ℕ, suc, ◌+◌, Bool, true, false, not, ◌&&◌, ◌||◌, List, [], ◌∷◌, Option, none, some, map, ltb, leb,
  ◌==◌, if◌then◌else◌, length, first, ◌≡◌,
}
use marzban.Common.Sorting.{sort_by}
use marzban.World.{Result, ok, err, value_error}

-- A row with a primary key and a position.
pub record Positioned (A : Type 0) : Type 0 where
  pub id_of : A → ℕ
  pub position_of : A → ℕ
  pub place : A → ℕ → A
  pub id_of-place : (a : A) (n : ℕ) → id_of (place a n) ≡ id_of a
  pub position_of-place : (a : A) (n : ℕ) → position_of (place a n) ≡ n

abbrev pub has : ℕ → List ℕ → Bool
has a [] = false
has a (b ∷ l) = (b == a) || has a l

-- `set(ids)`, as the list of its members
abbrev pub set_of : List ℕ → List ℕ
set_of [] = []
set_of (a ∷ l) = let rest = set_of l in if has a l then rest else a ∷ rest

-- `set(a) <= set(b)`
abbrev pub all_in : List ℕ → List ℕ → Bool
all_in [] b = true
all_in (x ∷ a) b = has x b && all_in a b

-- The condition that a list of ids passes: none twice, and exactly those of the rows.
unfoldable pub names_each_once : List ℕ → List ℕ → Bool
names_each_once ids existing =
    (length ids == length (set_of ids)) && (all_in ids existing && all_in existing ids)

module _ {A : Type 0} (P : Positioned A) where
  -- `ORDER BY position, id`
  unfoldable pub comes_before : A → A → Bool
  comes_before a b =
      ltb (P.position_of a) (P.position_of b)
      || ((P.position_of a == P.position_of b) && leb (P.id_of a) (P.id_of b))

  unfoldable pub in_order : List A → List A
  unfolding comes_before
  in_order rows = sort_by comes_before rows

  -- `func.max(position)`
  unfoldable pub max_position : List A → Option ℕ
  max_position [] = none
  max_position (a ∷ l) = elim (max_position l) [
    | none ↦ some (P.position_of a)
    | some m ↦ some (if ltb m (P.position_of a) then P.position_of a else m)
  ]

  -- `(max_position if max_position is not None else -1) + 1`
  unfoldable pub next_position : List A → ℕ
  unfolding max_position
  next_position rows = elim (max_position rows) [ none ↦ 0 | some m ↦ suc m ]

  -- `by_id[id].position = n`
  abbrev pub place_at : ℕ → ℕ → A → A
  place_at i n a = if P.id_of a == i then P.place a n else a

  -- `for position, id in enumerate(ids)`, from a position on
  unfoldable pub place_all : ℕ → List ℕ → List A → List A
  place_all n [] rows = rows
  place_all n (i ∷ ids) rows = place_all (suc n) ids (map (place_at i n) rows)

  -- The rows after the list of ids has moved them, in the table's own order.
  unfoldable pub reorder : List ℕ → List A → Result (List A)
  unfolding names_each_once place_all
  reorder ids rows =
      if names_each_once ids (map P.id_of rows) then ok (place_all 0 ids rows) else err value_error
