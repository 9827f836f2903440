-- ===== src/Positions/Order.antt =====
-- `ORDER BY position, id` is an order, and selects as well before a filter as after it.
use marzban.Common.{Bool, true, false, List, keep, ◌≡◌, arith}
use marzban.Common.Sorting.{keep-sort_by}
use marzban.Positions.{Positioned, comes_before, in_order}

module _ {A : Type 0} (P : Positioned A) where
  pub comes_before_total : (a b : A) → comes_before P a b ≡ false → comes_before P b a ≡ true
  unfolding comes_before
  comes_before_total a b h = ground arith

  pub comes_before_trans :
      (a b c : A)
      → comes_before P a b ≡ true
      → comes_before P b c ≡ true
      → comes_before P a c ≡ true
  unfolding comes_before
  comes_before_trans a b c h k = ground arith

  pub in_order-keep :
      (p : A → Bool) (rows : List A) → in_order P (keep p rows) ≡ keep p (in_order P rows)
  unfolding in_order
  in_order-keep p rows = keep-sort_by (comes_before P) comes_before_total comes_before_trans p rows
