-- ===== src/Jobs/Review/Rounds.antt =====
-- What one round of each loop of app/jobs/review_users.py does to the row of its user.
use marzban.Common.{
  ℕ, ◌+◌, ◌/◌, ◌≡◌, [], ◌∷◌, true, false, none, some, arith, Option-cases, Bool-cases, inl, inr,
}
use marzban.User.{User, active, limited, expired, second}
use marzban.User.Usage.{is_limited, is_expired, lifetime_used_traffic, at_resets-append}
use marzban.World.{World, Context}
use marzban.Jobs.Review.{
  reset_user_by_next_report, plan_fires, review_active, hold_ends, review_on_hold, is_active,
  is_on_hold,
}

-- The row of a user who was active, before and after.
pub data Enforced (now : ℕ) (u v : User) : Type 0 where
  within : is_limited u ≡ false → is_expired now u ≡ false → v ≡ u → Enforced now u v
  stopped :
      plan_fires now u ≡ false
      → is_limited u ≡ true
      → v ≡ record u { status = limited; last_status_change = some now }
      → Enforced now u v
  ended :
      plan_fires now u ≡ false
      → is_limited u ≡ false
      → is_expired now u ≡ true
      → v ≡ record u { status = expired; last_status_change = some now }
      → Enforced now u v
  renewed :
      plan_fires now u ≡ true
      → (v.status ≡ active) × (v.used_traffic ≡ 0) × (v.next_plan ≡ none) × (is_limited v ≡ false)
      → Enforced now u v

module _ (c : Context) (u : User) (w : World) where
  lifetime-renewed :
      (reset_user_by_next_report c u w).2 ≡ none
      → lifetime_used_traffic (reset_user_by_next_report c u w).0 ≡ lifetime_used_traffic u
  unfolding reset_user_by_next_report lifetime_used_traffic
  lifetime-renewed q = ground (
    arith,
    at_resets-append u.usage_logs
        (record { used_traffic_at_reset = u.used_traffic; reset_at = c.now } ∷ []),
  )

  -- A plan that is there and takes effect leaves an active row with nothing used.
  renewed_row :
      plan_fires c.now u ≡ true
      → (reset_user_by_next_report c u w).2 ≡ none
      → let v = (reset_user_by_next_report c u w).0 in
        (v.status ≡ active) × (v.used_traffic ≡ 0) × (v.next_plan ≡ none) × (is_limited v ≡ false)
  unfolding plan_fires reset_user_by_next_report is_limited
  renewed_row f q = ground arith

module _ (c : Context) (u : User) (w : World) (act : is_active u ≡ true)
    (quiet : (review_active c u w).2 ≡ none) where
  pub lifetime-review_active :
      lifetime_used_traffic (review_active c u w).0 ≡ lifetime_used_traffic u
  unfolding review_active lifetime_used_traffic
  lifetime-review_active = ground (arith, lifetime-renewed c u w)

  pub not_held-review_active : is_on_hold (review_active c u w).0 ≡ false
  unfolding review_active
  not_held-review_active = ground arith

  within_row : is_limited u ≡ false → is_expired c.now u ≡ false → (review_active c u w).0 ≡ u
  unfolding review_active plan_fires
  within_row l e = ground arith

  stopped_row :
      plan_fires c.now u ≡ false
      → is_limited u ≡ true
      → (review_active c u w).0 ≡ record u { status = limited; last_status_change = some c.now }
  unfolding review_active
  stopped_row f l = ground arith

  ended_row :
      plan_fires c.now u ≡ false
      → is_limited u ≡ false
      → is_expired c.now u ≡ true
      → (review_active c u w).0 ≡ record u { status = expired; last_status_change = some c.now }
  unfolding review_active
  ended_row f l e = ground arith

  renewed_active :
      plan_fires c.now u ≡ true
      → let v = (review_active c u w).0 in
        (v.status ≡ active) × (v.used_traffic ≡ 0) × (v.next_plan ≡ none) × (is_limited v ≡ false)
  unfolding review_active
  renewed_active f = ground (arith, renewed_row c u w f)

  pub review_active-Enforced : Enforced c.now u (review_active c u w).0
  review_active-Enforced = elim (Bool-cases (plan_fires c.now u)) [
    | inl f ↦ renewed f (renewed_active f)
    | inr f ↦ elim (Bool-cases (is_limited u)) [
      | inl l ↦ stopped f l (stopped_row f l)
      | inr l ↦ elim (Bool-cases (is_expired c.now u)) [
        | inl e ↦ ended f l e (ended_row f l e)
        | inr e ↦ within l e (within_row l e)
      ]
    ]
  ]

-- The row of a user who was on hold, before and after.
pub data Held (now : ℕ) (u v : User) : Type 0 where
  waits : hold_ends now u ≡ false → v ≡ u → Held now u v
  starts :
      hold_ends now u ≡ true
      → (d : ℕ) → u.on_hold_expire_duration ≡ some d
      → v ≡ record u {
        status = active;
        last_status_change = some now;
        on_hold_timeout = none;
        on_hold_expire_duration = none;
        expire = some (now / second + d);
      }
      → Held now u v

module _ (c : Context) (u : User) (w : World) (quiet : (review_on_hold c u w).2 ≡ none) where
  pub lifetime-review_on_hold :
      lifetime_used_traffic (review_on_hold c u w).0 ≡ lifetime_used_traffic u
  unfolding review_on_hold lifetime_used_traffic
  lifetime-review_on_hold = ground arith

  started_row :
      (d : ℕ)
      → hold_ends c.now u ≡ true
      → u.on_hold_expire_duration ≡ some d
      → (review_on_hold c u w).0 ≡ record u {
        status = active;
        last_status_change = some c.now;
        on_hold_timeout = none;
        on_hold_expire_duration = none;
        expire = some (c.now / second + d);
      }
  unfolding review_on_hold
  started_row d h e = ground arith

  waiting_row : hold_ends c.now u ≡ false → (review_on_hold c u w).0 ≡ u
  unfolding review_on_hold
  waiting_row h = ground arith

  has_duration : hold_ends c.now u ≡ true → ¬ (u.on_hold_expire_duration ≡ none)
  unfolding review_on_hold
  has_duration h e = ground arith

  pub review_on_hold-Held : Held c.now u (review_on_hold c u w).0
  review_on_hold-Held = elim (Bool-cases (hold_ends c.now u)) [
    | inr h ↦ waits h (waiting_row h)
    | inl h ↦ elim (Option-cases u.on_hold_expire_duration) [
      | inl e ↦ absurd (has_duration h e)
      | inr (d, e) ↦ starts h d e (started_row d h e)
    ]
  ]
