-- ===== src/Positions/Appended.antt =====
-- `get_next_host_position`, and the default position of `create_routing_rule`: a row that takes it
-- comes after all the others.
use marzban.Common.{ℕ, ◌≤◌, ◌<◌, true, List, [], ◌∷◌, ◌++◌, ◌≡◌, arith, All, All-map}
use marzban.Common.Sorting.{sort_by-append}
use marzban.Positions.{Positioned, comes_before, in_order, max_position, next_position}

below_le : {a b c : ℕ} → a < b → b ≤ c → a < c
below_le h k = omega arith

module _ {A : Type 0} (P : Positioned A) where
  next_position-grows :
      (a : A) (l : List A)
      → (P.position_of a < next_position P (a ∷ l)) × (next_position P l ≤ next_position P (a ∷ l))
  unfolding next_position max_position
  next_position-grows a l = ground arith

  next_position-beyond : (rows : List A) → All (λ a. P.position_of a < next_position P rows) rows
  next_position-beyond [] = tt
  next_position-beyond (a ∷ l) =
      let grows = next_position-grows a l in
      (grows.0, All-map (λ b h. below_le h grows.1) l (next_position-beyond l))

  later-comes_before : (a n : A) → P.position_of a < P.position_of n → comes_before P a n ≡ true
  unfolding comes_before
  later-comes_before a n h = ground arith

  -- A row that is added at the next position is read after all the rows before it, which keep their
  -- order.
  pub next_position-in_order :
      (rows : List A) (n : A)
      → P.position_of n ≡ next_position P rows
      → in_order P (rows ++ n ∷ []) ≡ in_order P rows ++ n ∷ []
  unfolding in_order
  next_position-in_order rows n e =
      sort_by-append (comes_before P) n rows
        (All-map (λ a h. later-comes_before a n (rw e h)) rows (next_position-beyond rows))
