-- ===== src/Jobs/Review/Total.antt =====
-- When a run of `review` ends normally, and what a user does to it whose next plan cannot be
-- computed.
use marzban.Common.{
  ℕ, ◌+◌, ◌/◌, ◌≡◌, refl, true, false, none, some, List, arith, All, All-map, sym, ◌∙◌, Bool-cases,
  Option-cases, inl, inr,
}
use mathlib.Core.Bool.{false≢true}
use marzban.Common.Int.{ℤ, pos, ◌≤ℤ◌}
use marzban.User.{User, NextPlan, second}
use marzban.World.{World, Context, ok}
use marzban.Users.Reset.{next_data_limit}
use marzban.Table.{Rows, Rows-All}
use marzban.Jobs.Loop.{Run, for_users, for_users-quiet, and_then}
use marzban.Jobs.Review.{
  plan_fires, add_notification_reminders, hold_ends, review, review_active, review_on_hold,
  is_active, is_on_hold, reset_user_by_next_report,
}
use marzban.Users.Update.{is_response, expire_fits}
use marzban.Jobs.Review.Table.{First, active_loop}

-- The limit that the next plan gives is a number, and not below zero, and its expiry is a date.
abbrev pub PlanWorks : Context → User → Type 0
PlanWorks c u =
    (plan : NextPlan)
    → u.next_plan ≡ some plan
    → (l : ℤ) × (next_data_limit u plan ≡ ok l) × (pos 0 ≤ℤ l) × (expire_fits c plan.expire ≡ true)

-- There is a duration, and the expiry that it gives is a date.
abbrev pub HoldWorks : Context → User → Type 0
HoldWorks c u =
    (d : ℕ) × (u.on_hold_expire_duration ≡ some d)
    × (expire_fits c (some (c.now / second + d)) ≡ true)

pub record IsReviewable (c : Context) (u : User) : Type 0 where
  pub responds : is_response c u ≡ true
  pub plan_works : is_active u ≡ true → plan_fires c.now u ≡ true → PlanWorks c u
  pub hold_works : is_on_hold u ≡ true → hold_ends c.now u ≡ true → HoldWorks c u

remind-quiet :
    (c : Context) (u : User) (w : World)
    → is_active u ≡ true
    → is_response c u ≡ true
    → (add_notification_reminders c u w).1 ≡ none
unfolding add_notification_reminders
remind-quiet c u w a r = ground arith

no_plan : (now : ℕ) (u : User) → u.next_plan ≡ none → ¬ (plan_fires now u ≡ true)
unfolding plan_fires
no_plan now u e f = ground arith

renew-quiet :
    (c : Context) (u : User) (w : World)
    → is_response c u ≡ true
    → plan_fires c.now u ≡ true
    → PlanWorks c u
    → (reset_user_by_next_report c u w).2 ≡ none
unfolding reset_user_by_next_report
renew-quiet c u w r f p = elim (Option-cases u.next_plan) [
  | inl e ↦ absurd (no_plan c.now u e f)
  | inr (plan, e) ↦ let (l, works, fits, dates) = p plan e in ground arith
]

active-quiet :
    (c : Context) (u : User) (w : World)
    → is_active u ≡ true
    → IsReviewable c u
    → (review_active c u w).2 ≡ none
unfolding review_active
active-quiet c u w a r = elim (Bool-cases (plan_fires c.now u)) [
  | inl f ↦ rw f (renew-quiet c u w r.responds f (r.plan_works a f))
  | inr f ↦ ground (arith, remind-quiet c u w)
]

on_hold-quiet :
    (c : Context) (u : User) (w : World)
    → is_on_hold u ≡ true
    → IsReviewable c u
    → (review_on_hold c u w).2 ≡ none
unfolding review_on_hold
on_hold-quiet c u w a r = elim (Bool-cases (hold_ends c.now u)) [
  | inl e ↦ let (d, f, g) = r.hold_works a e in let s = r.responds in ground arith
  | inr e ↦ ground arith
]

held_quiet :
    (c : Context) (u v : User)
    → First c.now u v
    → IsReviewable c u
    → is_on_hold v ≡ true
    → (w : World) → (review_on_hold c v w).2 ≡ none
held_quiet c u v (First.others n e) r held w = rw e (on_hold-quiet c u w (rw e at held) r)
held_quiet c u v (First.actives a x l n) r held w = absurd (false≢true (sym n ∙ held))

-- If every row is reviewable, a run ends normally. A row is reviewable if it has a proxy, no limit below
-- zero, proxies of which the hosts make links, and an expiry (a duration, on hold) that dates can be made of; if its plan, in case it fires,
-- gives a limit that is a number not below zero and such an expiry; and if its hold, in case it ends,
-- has a duration that gives such an expiry.
pub review-quiet :
    (c : Context) (us : List User) (w : World) → All (IsReviewable c) us → (review c us w).2 ≡ none
unfolding review
review-quiet c us w h =
    both (for_users is_active (review_active c) us w)
      (for_users-quiet is_active (review_active c) us w
        (All-map (λ u r a w'. active-quiet c u w' a r) us h))
      (active_loop c us w)
  where
    both :
        (r : Run)
        → r.2 ≡ none
        → (r.2 ≡ none → Rows (First c.now) us r.0)
        → (and_then r (for_users is_on_hold (review_on_hold c))).2 ≡ none
    both (vs, w', some e) q first = cc
    both (vs, w', none) q first =
        for_users-quiet is_on_hold (review_on_hold c) vs w'
          (Rows-All (held_quiet c) us vs (first refl) h)

-- A plan that adds to a limit that the user does not have.
abbrev pub IsUncomputable : ℕ → User → NextPlan → Type 0
IsUncomputable now u plan =
    (is_active u ≡ true)
    × (plan_fires now u ≡ true)
    × (u.next_plan ≡ some plan)
    × (plan.add_remaining_traffic ≡ false)
    × (u.data_limit ≡ none)
