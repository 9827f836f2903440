-- ===== src/Jobs/Review/Reminders.antt =====
-- The table of reminders over a run of `review`.
use marzban.Common.{
  ℕ, String, ◌≡◌, Option, none, some, List, [], ◌∷◌, arith, Bool-cases, Option-cases, inl, inr,
  count, ltb,
}
use marzban.Common.Int.{ℤ, nonzero}
use marzban.User.{User, data_usage, expiration_date, UserStatus}
use marzban.User.Usage.{is_limited, is_expired}
use marzban.World.{World, Context, Fault, NotificationType}
use marzban.Report.{notify, status_change, data_usage_percent_reached, expire_days_reached}
use marzban.Reminder.{is_reminder, get_notification_reminder}
use marzban.Reminder.Unique.{IsUnique, IsUnique-get, IsUnique-create, count-get}
use marzban.Jobs.Loop.{Round, Run, for_users, for_users-inv, and_then}
use marzban.Jobs.Review.{
  remind_limit, reached_percent, reached_days, plan_fires, remind_percent, remind_day, remind_usage,
  remind_within, remind_days, remind_expire, add_notification_reminders, reset_user_by_next_report,
  end_user, review_active, review_on_hold, review, is_active, is_on_hold,
}
use marzban.Users.Update.{is_response}
use marzban.User.Usage.{calculate_expiration_days}

reminders-notify :
    (c : Context) (a : NotificationType) (username : String) (w : World)
    → (notify c a username w).reminders ≡ w.reminders
unfolding notify
reminders-notify c a username w = ground arith

reminders-status_change :
    (c : Context) (username : String) (status : UserStatus) (w : World)
    → (status_change c username status w).reminders ≡ w.reminders
unfolding status_change
reminders-status_change c username status w = ground arith

usage_reached-IsUnique :
    (c : Context) (u : User) (n : ℕ) (w : World)
    → IsUnique w.reminders
    → count (is_reminder u.id data_usage (some n)) w.reminders ≡ 0
    → IsUnique (data_usage_percent_reached c u n w).reminders
unfolding data_usage_percent_reached
usage_reached-IsUnique c u n w h z =
    elim (Bool-cases c.settings.notify_if_data_usage_percent_reached) [
      | inl e ↦
          rw e
            (IsUnique-create data_usage _ u.id n _ (rw reminders-notify h) (rw reminders-notify z))
      | inr e ↦ rw e h
    ]

days_reached-IsUnique :
    (c : Context) (u : User) (expire n : ℕ) (w : World)
    → IsUnique w.reminders
    → count (is_reminder u.id expiration_date (some n)) w.reminders ≡ 0
    → IsUnique (expire_days_reached c u expire n w).reminders
unfolding expire_days_reached
days_reached-IsUnique c u expire n w h z =
    elim (Bool-cases c.settings.notify_if_days_left_reached) [
      | inl e ↦ rw e (
          IsUnique-create expiration_date _ u.id n _ (rw reminders-notify h)
            (rw reminders-notify z))
      | inr e ↦ rw (e, reminders-notify) h
    ]

remind_percent-IsUnique :
    (c : Context) (u : User) (n : ℕ) (w : World)
    → IsUnique w.reminders
    → IsUnique (remind_percent c u n w).0.reminders
unfolding remind_percent
remind_percent-IsUnique c u n w h =
    let got = get_notification_reminder c.now u.id data_usage (some n) w.reminders in
    let kept = IsUnique-get c.now u.id data_usage n w.reminders h in
    elim (Option-cases got.0) [
      | inr (r, e) ↦ rw (e, remind_percent) kept
      | inl e ↦ elim (Bool-cases (is_response c u)) [
        | inl x ↦
            rw (e, x, remind_percent)
              (usage_reached-IsUnique c u n (record w { reminders = got.1 }) kept
                (count-get c.now u.id data_usage n w.reminders h e))
        | inr x ↦ rw (e, x, remind_percent) kept
      ]
    ]

remind_day-IsUnique :
    (c : Context) (u : User) (expire n : ℕ) (w : World)
    → IsUnique w.reminders
    → IsUnique (remind_day c u expire n w).0.reminders
unfolding remind_day
remind_day-IsUnique c u expire n w h =
    let got = get_notification_reminder c.now u.id expiration_date (some n) w.reminders in
    let kept = IsUnique-get c.now u.id expiration_date n w.reminders h in
    elim (Option-cases got.0) [
      | inr (r, e) ↦ rw (e, remind_day) kept
      | inl e ↦ elim (Bool-cases (is_response c u)) [
        | inl x ↦
            rw (e, x, remind_day)
              (days_reached-IsUnique c u expire n (record w { reminders = got.1 }) kept
                (count-get c.now u.id expiration_date n w.reminders h e))
        | inr x ↦ rw (e, x, remind_day) kept
      ]
    ]

module _ (c : Context) (u : User) where
  remind_usage-IsUnique :
      (l : ℤ) (w : World) → IsUnique w.reminders → IsUnique (remind_usage c u l w).0.reminders
  unfolding remind_usage
  remind_usage-IsUnique l w h = elim (Option-cases (reached_percent c u.used_traffic l)) [
    | inl e ↦ rw (e, remind_usage) h
    | inr (n, e) ↦ rw (e, remind_usage) (remind_percent-IsUnique c u n w h)
  ]

  remind_within-IsUnique :
      (expire : ℕ) (d : ℤ) (w : World)
      → IsUnique w.reminders
      → IsUnique (remind_within c u expire d w).0.reminders
  unfolding remind_within
  remind_within-IsUnique expire d w h = elim (Option-cases (reached_days c d)) [
    | inl e ↦ rw (e, remind_within) h
    | inr (n, e) ↦ rw (e, remind_within) (remind_day-IsUnique c u expire n w h)
  ]

  remind_days-IsUnique :
      (expire : ℕ) (w : World)
      → IsUnique w.reminders
      → IsUnique (remind_days c u expire w).0.reminders
  unfolding remind_days
  remind_days-IsUnique expire w h = elim (Option-cases (calculate_expiration_days c.now expire)) [
    | inl e ↦ rw (e, remind_days) h
    | inr (d, e) ↦ rw (e, remind_days) (remind_within-IsUnique expire d w h)
  ]

  remind_limit-IsUnique :
      (o : Option ℤ) (w : World)
      → IsUnique w.reminders
      → IsUnique (remind_limit c u o w).0.reminders
  unfolding remind_limit
  remind_limit-IsUnique none w h = h
  remind_limit-IsUnique (some l) w h = elim (Bool-cases (nonzero l)) [
    | inl y ↦ rw y (remind_usage-IsUnique l w h)
    | inr y ↦ rw y h
  ]

  remind_expire-IsUnique :
      (o : Option ℕ) (r : World × Option Fault)
      → IsUnique r.0.reminders
      → IsUnique (remind_expire c u o r).0.reminders
  unfolding remind_expire
  remind_expire-IsUnique o (w, some e) h = h
  remind_expire-IsUnique none (w, none) h = h
  remind_expire-IsUnique (some x) (w, none) h = elim (Bool-cases (ltb 0 x)) [
    | inl y ↦ rw y (remind_days-IsUnique x w h)
    | inr y ↦ rw y h
  ]

  add_notification_reminders-IsUnique :
      (w : World) → IsUnique w.reminders → IsUnique (add_notification_reminders c u w).0.reminders
  unfolding add_notification_reminders
  add_notification_reminders-IsUnique w h =
      remind_expire-IsUnique u.expire (remind_limit c u u.data_limit w)
        (remind_limit-IsUnique u.data_limit w h)

  -- Every other branch of the rounds leaves the table as it is.
  reminders-renew : (w : World) → (reset_user_by_next_report c u w).1.reminders ≡ w.reminders
  unfolding reset_user_by_next_report
  reminders-renew w = ground arith

  reminders-end_user :
      (status : UserStatus) (w : World) → (end_user c status u w).1.reminders ≡ w.reminders
  unfolding end_user
  reminders-end_user status w = ground arith

  reminders-on_hold : (w : World) → (review_on_hold c u w).1.reminders ≡ w.reminders
  unfolding review_on_hold
  reminders-on_hold w = ground arith

  review_active-IsUnique :
      (w : World) → IsUnique w.reminders → IsUnique (review_active c u w).1.reminders
  unfolding review_active
  review_active-IsUnique w h = elim (Bool-cases (plan_fires c.now u)) [
    | inl f ↦ rw (f, reminders-renew) h
    | inr f ↦ elim (Bool-cases (is_limited u)) [
      | inl l ↦ rw (f, l, reminders-end_user) h
      | inr l ↦ elim (Bool-cases (is_expired c.now u)) [
        | inl x ↦ rw (f, l, x, reminders-end_user) h
        | inr x ↦ rw (f, l, x) (told c.settings.webhook_addresses)
      ]
    ]
  ]
    where
      told :
          (l : List String)
          → IsUnique (
              (elim l as (λ _. Round) [
                | [] ↦ (u, w, none)
                | a ∷ k ↦ let (w', e) = add_notification_reminders c u w in (u, w', e)
              ]).1.reminders)
      told [] = h
      told (a ∷ k) = add_notification_reminders-IsUnique w h

-- A run, whether or not it raises, leaves at most one reminder for each user, type and threshold,
-- where there was at most one before.
pub review-IsUnique :
    (c : Context) (us : List User) (w : World)
    → IsUnique w.reminders
    → IsUnique (review c us w).1.reminders
unfolding review
review-IsUnique c us w h = both (for_users is_active (review_active c) us w) (
    for_users-inv (λ v. IsUnique v.reminders) is_active (review_active c)
      (λ u v k. review_active-IsUnique c u v k) us w h)
  where
    both :
        (r : Run)
        → IsUnique r.1.reminders
        → IsUnique (and_then r (for_users is_on_hold (review_on_hold c))).1.reminders
    both (vs, w', some e) k = k
    both (vs, w', none) k =
        for_users-inv (λ v. IsUnique v.reminders) is_on_hold (review_on_hold c)
          (λ u v k'. rw reminders-on_hold k') vs w' k
