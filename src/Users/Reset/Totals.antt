-- ===== src/Users/Reset/Totals.antt =====
-- The resets of a user's usage: what they carry over, and where the two kinds differ.
use marzban.Common.{ℕ, ◌+◌, ◌≡◌, ◌↔◌, ◌≢◌, false, none, some, length, length-append, [], ◌∷◌, arith}
use marzban.Common.Int.{ℤ, pos, ◌+ℤ◌, ◌-ℤ◌, int_laws}
use marzban.User.{User, NextPlan, active, disabled, on_hold}
use marzban.User.Usage.{lifetime_used_traffic, at_resets-append}
use marzban.World.{World, ok}
use marzban.Users.Reset.{reset_user_data_usage, reset_user_by_next, reset_one_of_all}

-- A plan that is not to add the remaining traffic is the one that adds it: the new limit and the
-- used traffic together are the plan's limit and the old limit together.
pub reset_user_by_next-adds :
    (now : ℕ) (u v : User) (w w' : World) (plan : NextPlan) (l : ℤ)
    → u.next_plan ≡ some plan
    → u.data_limit ≡ some l
    → plan.add_remaining_traffic ≡ false
    → reset_user_by_next now u w ≡ ok (some (v, w'))
    → (k : ℤ) × (v.data_limit ≡ some k) × (k +ℤ pos u.used_traffic ≡ pos plan.data_limit +ℤ l)
unfolding reset_user_by_next
reset_user_by_next-adds now u v w w' plan l p q e r =
    (pos plan.data_limit +ℤ (l -ℤ pos u.used_traffic), ground arith, omega int_laws)

-- A reset by the next plan ends the plan, clears the used traffic and adds one entry to the
-- history, so that the lifetime total is the one before.
pub lifetime-reset_user_by_next :
    (now : ℕ) (u v : User) (w w' : World)
    → reset_user_by_next now u w ≡ ok (some (v, w'))
    → (lifetime_used_traffic v ≡ lifetime_used_traffic u)
      × (v.next_plan ≡ none)
      × (v.used_traffic ≡ 0)
      × (v.status ≡ active)
      × (length v.usage_logs ≡ length u.usage_logs + 1)
unfolding reset_user_by_next lifetime_used_traffic
lifetime-reset_user_by_next now u v w w' h = ground (
  arith,
  length-append u.usage_logs
      (record { used_traffic_at_reset = u.used_traffic; reset_at = now } ∷ []),
  at_resets-append u.usage_logs
      (record { used_traffic_at_reset = u.used_traffic; reset_at = now } ∷ []),
)

-- The reset of one user and the reset of all users leave a user in the same status if and only if
-- the user was neither disabled nor on hold.
pub resets_agree :
    (now : ℕ) (u : User) (w : World)
    → ((reset_user_data_usage now u w).0.status ≡ (reset_one_of_all u).status)
      ↔ ((u.status ≢ disabled) × (u.status ≢ on_hold))
unfolding reset_user_data_usage reset_one_of_all
resets_agree now u w = (λ h. (λ d. ground arith, λ d. ground arith), λ h. ground arith)
