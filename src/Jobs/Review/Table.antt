-- ===== src/Jobs/Review/Table.antt =====
-- A whole run of `review`: its effect on each row, when it ends normally, and what stops it.
use marzban.Common.{ℕ, ◌∙◌, sym, ◌≡◌, refl, true, false, none, some, List}
use marzban.User.{User}
use marzban.World.{World, Context}
use marzban.Table.{Rows, Rows-trans}
use marzban.Jobs.Loop.{Run, for_users, for_users-Rows, and_then}
use marzban.Jobs.Review.{review, review_active, review_on_hold, is_active, is_on_hold}
use marzban.Jobs.Review.Rounds.{
  Enforced, Held, review_active-Enforced, review_on_hold-Held, lifetime-review_active,
  not_held-review_active, lifetime-review_on_hold,
}
use marzban.User.Usage.{lifetime_used_traffic}
use mathlib.Core.Bool.{false≢true}

pub data First (now : ℕ) (u v : User) : Type 0 where
  others : is_active u ≡ false → v ≡ u → First now u v
  actives :
      is_active u ≡ true
      → Enforced now u v
      → lifetime_used_traffic v ≡ lifetime_used_traffic u
      → is_on_hold v ≡ false
      → First now u v

data Second (now : ℕ) (u v : User) : Type 0 where
  others : is_on_hold u ≡ false → v ≡ u → Second now u v
  held :
      is_on_hold u ≡ true
      → Held now u v
      → lifetime_used_traffic v ≡ lifetime_used_traffic u
      → Second now u v

-- The row of a user before and after a run.
pub data Reviewed (now : ℕ) (u v : User) : Type 0 where
  untouched : is_active u ≡ false → is_on_hold u ≡ false → v ≡ u → Reviewed now u v
  enforced :
      is_active u ≡ true
      → Enforced now u v
      → lifetime_used_traffic v ≡ lifetime_used_traffic u
      → Reviewed now u v
  held :
      is_on_hold u ≡ true
      → Held now u v
      → lifetime_used_traffic v ≡ lifetime_used_traffic u
      → Reviewed now u v

both_loops : (now : ℕ) (a b c : User) → First now a b → Second now b c → Reviewed now a c
both_loops now a b c (First.others x e) (Second.others y f) =
    Reviewed.untouched x (rw e at y) (f ∙ e)
both_loops now a b c (First.others x e) (Second.held y h l) =
    Reviewed.held (rw e at y) (rw e at h) (rw e at l)
both_loops now a b c (First.actives x r l n) (Second.others y f) =
    Reviewed.enforced x (rw f r) (rw f l)
both_loops now a b c (First.actives x r l n) (Second.held y h m) = absurd (false≢true (sym n ∙ y))

pub active_loop :
    (c : Context) (us : List User) (w : World)
    → (for_users is_active (review_active c) us w).2 ≡ none
    → Rows (First c.now) us (for_users is_active (review_active c) us w).0
active_loop c us w =
    for_users-Rows (First c.now) is_active (review_active c)
      (λ u w' a q.
        First.actives a (review_active-Enforced c u w' a q) (lifetime-review_active c u w' a q)
          (not_held-review_active c u w' a q))
      (λ u n. First.others n refl) us w

-- A run that ends normally leaves the users that were neither active nor on hold as they were,
-- and gives each other row what its loop owes it: an active user within the limit and the expiry
-- stays as it was; one that is limited or expired gets that status, the limit first; where the
-- next plan fires, the user is active again with nothing used, no plan left and below the limit;
-- a user on hold waits or is started with the expiry counted from now. No lifetime total changes.
pub review-Reviewed :
    (c : Context) (us : List User) (w : World)
    → (review c us w).2 ≡ none
    → Rows (Reviewed c.now) us (review c us w).0
unfolding review
review-Reviewed c us w h = both (for_users is_active (review_active c) us w) (active_loop c us w) h
  where
    second_rows :
        (vs : List User) (w' : World)
        → (for_users is_on_hold (review_on_hold c) vs w').2 ≡ none
        → Rows (Second c.now) vs (for_users is_on_hold (review_on_hold c) vs w').0
    second_rows =
        for_users-Rows (Second c.now) is_on_hold (review_on_hold c)
          (λ u w' a q.
            Second.held a (review_on_hold-Held c u w' q) (lifetime-review_on_hold c u w' q))
          (λ u n. Second.others n refl)

    both :
        (r : Run)
        → (r.2 ≡ none → Rows (First c.now) us r.0)
        → (and_then r (for_users is_on_hold (review_on_hold c))).2 ≡ none
        → Rows (Reviewed c.now) us (and_then r (for_users is_on_hold (review_on_hold c))).0
    both (vs, w', some e) first q = cc
    both (vs, w', none) first q =
        Rows-trans (both_loops c.now) us vs _ (first refl) (second_rows vs w' q)
