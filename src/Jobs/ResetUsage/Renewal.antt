-- ===== src/Jobs/ResetUsage/Renewal.antt =====
-- What a run of the job does to each row, and to the core.
use marzban.Common.{
  ℕ, ◌∙◌, ◌<◌, everywhere, ◌≡◌, refl, true, false, none, List, [], ◌∷◌, arith, Bool-cases, inl, inr,
}
use marzban.Common.Int.{pos}
use marzban.User.{User, active}
use marzban.User.Usage.{
  last_traffic_reset_time, last_reset_or-append, lifetime_used_traffic, at_resets-append,
  days_between,
}
use marzban.World.{World}
use marzban.Users.Reset.{reset_user_data_usage}
use marzban.Table.{Rows}
use marzban.Jobs.Loop.{for_users, for_users-Rows, for_users-quiet, for_users-inv}
use marzban.Jobs.ResetUsage.{is_scheduled, is_due, reset_round, run_resets, reset_strategy_to_days}

pub last_reset-reset :
    (now : ℕ) (u : User) (w : World)
    → last_traffic_reset_time (reset_user_data_usage now u w).0 ≡ now
unfolding reset_user_data_usage last_traffic_reset_time
last_reset-reset now u w = last_reset_or-append u.created_at u.usage_logs _

pub lifetime-reset :
    (now : ℕ) (u : User) (w : World)
    → lifetime_used_traffic (reset_user_data_usage now u w).0 ≡ lifetime_used_traffic u
unfolding reset_user_data_usage lifetime_used_traffic
lifetime-reset now u w = omega (
  arith,
  at_resets-append u.usage_logs
      (record { used_traffic_at_reset = u.used_traffic; reset_at = now } ∷ []),
)

-- The row of a user before and after a run.
pub data Renewed (now : ℕ) (u v : User) : Type 0 where
  others : is_scheduled u ≡ false → v ≡ u → Renewed now u v
  not_due : is_due now u ≡ false → v ≡ u → Renewed now u v
  due :
      is_scheduled u ≡ true
      → is_due now u ≡ true
      → is_due now v ≡ false
      → (v.status ≡ active) × (v.used_traffic ≡ 0)
      → lifetime_used_traffic v ≡ lifetime_used_traffic u
      → Renewed now u v

days_between_self : (t : ℕ) → days_between t t ≡ pos 0
unfolding days_between
days_between_self t = ground arith

strategy-reset :
    (now : ℕ) (u : User) (w : World)
    → (reset_user_data_usage now u w).0.data_limit_reset_strategy ≡ u.data_limit_reset_strategy
unfolding reset_user_data_usage
strategy-reset now u w = refl

period-pos :
    (u : User) → is_scheduled u ≡ true → 0 < reset_strategy_to_days u.data_limit_reset_strategy
unfolding reset_strategy_to_days
period-pos u s = ground arith

fresh :
    (now : ℕ) (u : User) (w : World)
    → is_scheduled u ≡ true
    → is_due now (reset_user_data_usage now u w).0 ≡ false
unfolding is_due
fresh now u w s =
    rw (last_reset-reset, days_between_self, strategy-reset) (ground (arith, period-pos u s))

status-reset :
    (now : ℕ) (u : User) (w : World)
    → is_scheduled u ≡ true
    → (reset_user_data_usage now u w).0.status ≡ active
unfolding reset_user_data_usage
status-reset now u w s = ground arith

used-reset : (now : ℕ) (u : User) (w : World) → (reset_user_data_usage now u w).0.used_traffic ≡ 0
unfolding reset_user_data_usage
used-reset now u w = refl

reset_round-due :
    (now : ℕ) (u : User) (w : World)
    → is_due now u ≡ true
    → (reset_round now u w).0 ≡ (reset_user_data_usage now u w).0
unfolding reset_round
reset_round-due now u w d = rw d

reset_round-not_due :
    (now : ℕ) (u : User) (w : World) → is_due now u ≡ false → (reset_round now u w).0 ≡ u
unfolding reset_round
reset_round-not_due now u w d = rw d

row :
    (now : ℕ) (u : User) (w : World) → is_scheduled u ≡ true → Renewed now u (reset_round now u w).0
row now u w s = elim (Bool-cases (is_due now u)) [
  | inl d ↦ rw (reset_round-due now u w d) (
      due s d (fresh now u w s) (status-reset now u w s, used-reset now u w)
        (lifetime-reset now u w))
  | inr d ↦ not_due d (reset_round-not_due now u w d)
]

reset_round-quiet : (now : ℕ) (u : User) (w : World) → (reset_round now u w).2 ≡ none
unfolding reset_round
reset_round-quiet now u w = ground arith

-- A run never raises. A user without a schedule, or whose period is not over, stays as it was;
-- each other user is active with nothing used, is no longer due, and has the lifetime total that
-- it had.
pub run_resets-Renewed :
    (now : ℕ) (us : List User) (w : World)
    → ((run_resets now us w).2 ≡ none) × Rows (Renewed now) us (run_resets now us w).0
unfolding run_resets
run_resets-Renewed now us w = (
  quiet,
  for_users-Rows (Renewed now) is_scheduled (reset_round now) (λ u v s _. row now u v s)
      (λ u n. others n refl) us w quiet,
)
  where
    quiet : (for_users is_scheduled (reset_round now) us w).2 ≡ none
    quiet = for_users-quiet is_scheduled (reset_round now) us w (
        everywhere (λ u. is_scheduled u ≡ true → (v : World) → (reset_round now u v).2 ≡ none)
          (λ u _ v. reset_round-quiet now u v) us)

core-reset_round : (now : ℕ) (u : User) (w : World) → (reset_round now u w).1.core ≡ w.core
unfolding reset_round
core-reset_round now u w = ground arith

-- A run makes no call to the core, whomever it made active.
pub core-run_resets : (now : ℕ) (us : List User) (w : World) → (run_resets now us w).1.core ≡ w.core
unfolding run_resets
core-run_resets now us w =
    for_users-inv (λ v. v.core ≡ w.core) is_scheduled (reset_round now)
      (λ u v h. core-reset_round now u v ∙ h) us w refl
