-- ===== src/Users/Bulk/Restore.antt =====
-- Disabling all users of an admin, and activating them again.
use marzban.Common.{
  ℕ, ◌≡◌, ◌≢◌, refl, sym, ap, Bool, true, false, ◌&&◌, Option, some, List, [], ◌∷◌, arith, All,
  Bool-cases, inl, inr, if◌then◌else◌,
}
use marzban.User.{User, UserStatus, active, disabled, on_hold}
use marzban.Table.{Rows}
use marzban.Users.Bulk.{
  owned_by, update_where, is_enabled, is_disabled, never_started, disable_all_active_users,
  activate_all_disabled_users,
}

-- The row of a user of which the status can be told from the other columns when it is disabled.
abbrev pub IsRestorable : User → Type 0
IsRestorable u =
    (u.status ≢ disabled)
    × ((u.status ≡ on_hold) → (never_started u ≡ true))
    × ((u.status ≡ active) → (never_started u ≡ false))

-- `update_where` on one row, and the row that it leaves.
abbrev updated : ℕ → UserStatus → User → User
updated now status u = record u { status = status; last_status_change = some now }

unfoldable one_row : ℕ → (User → Bool) → UserStatus → User → User
one_row now p status u = if p u then updated now status u else u

module _ (now : ℕ) (p : User → Bool) (status : UserStatus) (u : User) where
  row_passes : p u ≡ true → one_row now p status u ≡ updated now status u
  unfolding one_row
  row_passes h = rw h

  row_fails : p u ≡ false → one_row now p status u ≡ u
  unfolding one_row
  row_fails h = rw h

abbrev to_disable : Option ℕ → User → Bool
to_disable admin u = is_enabled u && owned_by admin u

abbrev to_hold : Option ℕ → User → Bool
to_hold admin u = is_disabled u && never_started u && owned_by admin u

abbrev to_activate : Option ℕ → User → Bool
to_activate admin u = is_disabled u && owned_by admin u

module _ (now later : ℕ) (admin : Option ℕ) where
  activated : User → User
  activated u = one_row later (to_activate admin) active (one_row later (to_hold admin) on_hold u)

  passed_over : (u : User) → to_activate admin u ≡ false → activated u ≡ u
  unfolding activated
  passed_over u h = rw (
    row_fails later (to_hold admin) on_hold u (ground arith),
    row_fails later (to_activate admin) active u h,
  )

  started_again :
      (u : User)
      → to_activate admin u ≡ true
      → never_started u ≡ false
      → activated u ≡ updated later active u
  unfolding activated
  started_again u h n = rw (
    row_fails later (to_hold admin) on_hold u (ground arith),
    row_passes later (to_activate admin) active u h,
  )

  held_again :
      (u : User)
      → to_activate admin u ≡ true
      → never_started u ≡ true
      → activated u ≡ updated later on_hold u
  unfolding activated
  held_again u h n = rw (
    row_passes later (to_hold admin) on_hold u (ground arith),
    row_fails later (to_activate admin) active (updated later on_hold u) refl,
  )

  -- The row that both statements leave.
  both : User → User
  both u = activated (one_row now (to_disable admin) disabled u)

  SameRow : User → Type 0
  SameRow u = both u ≡ record u { last_status_change = (both u).last_status_change }

  kept : (u : User) → IsRestorable u → to_disable admin u ≡ false → SameRow u
  unfolding SameRow both
  kept u r h =
      rw (row_fails now (to_disable admin) disabled u h, passed_over u (not_active u r.0)) refl
    where
      not_active : (v : User) → v.status ≢ disabled → to_activate admin v ≡ false
      not_active v n = ground arith

  owned_again :
      (u : User) → to_disable admin u ≡ true → to_activate admin (updated now disabled u) ≡ true
  unfolding owned_by
  owned_again u h = ground arith

  was_on_hold :
      (u : User)
      → IsRestorable u
      → to_disable admin u ≡ true
      → never_started u ≡ true
      → u.status ≡ on_hold
  was_on_hold u r h n = ground arith

  was_active :
      (u : User)
      → IsRestorable u
      → to_disable admin u ≡ true
      → never_started u ≡ false
      → u.status ≡ active
  was_active u r h n = ground arith

  disabled_again : (u : User) → IsRestorable u → to_disable admin u ≡ true → SameRow u
  unfolding SameRow both
  disabled_again u r h =
      rw (row_passes now (to_disable admin) disabled u h) (elim (Bool-cases (never_started u)) [
        | inl n ↦ rw (held_again (updated now disabled u) (owned_again u h) n) (
            ap (λ s. record u { status = s; last_status_change = some later })
              (sym (was_on_hold u r h n)))
        | inr n ↦ rw (started_again (updated now disabled u) (owned_again u h) n) (
            ap (λ s. record u { status = s; last_status_change = some later })
              (sym (was_active u r h n)))
      ])

  same_row : (u : User) → IsRestorable u → SameRow u
  same_row u r = elim (Bool-cases (to_disable admin u)) [
    | inl h ↦ disabled_again u r h
    | inr h ↦ kept u r h
  ]

  unfoldable three_updates : List User → List User
  three_updates us =
      update_where later (to_activate admin) active (
        update_where later (to_hold admin) on_hold
          (update_where now (to_disable admin) disabled us))

  three_updates-cons :
      (u : User) (us : List User) → three_updates (u ∷ us) ≡ both u ∷ three_updates us
  unfolding three_updates both one_row update_where activated
  three_updates-cons u us = refl

  three_updates-nil : three_updates [] ≡ []
  unfolding three_updates update_where
  three_updates-nil = refl

  same_but_time :
      (u : User)
      → SameRow u
      → both u ≡ record u { last_status_change = (both u).last_status_change }
  unfolding SameRow
  same_but_time u e = e

  three_updates-Rows :
      (us : List User)
      → All IsRestorable us
      → Rows
          (λ u v. v ≡ record u { last_status_change = v.last_status_change })
          us
          (three_updates us)
  three_updates-Rows [] h = rw three_updates-nil tt
  three_updates-Rows (u ∷ us) h =
      rw (three_updates-cons u us) (same_but_time u (same_row u h.0), three_updates-Rows us h.1)

activate-disable-eq :
    (now later : ℕ) (admin : Option ℕ) (us : List User)
    → activate_all_disabled_users later admin (disable_all_active_users now admin us)
      ≡ three_updates now later admin us
unfolding activate_all_disabled_users disable_all_active_users three_updates
activate-disable-eq now later admin us = refl

-- Where no user is disabled, the users on hold have never started and the active ones have,
-- disabling all users of an admin and activating them again changes no column of any row but the
-- time of the last change of the status.
pub activate-disable :
    (now later : ℕ) (admin : Option ℕ) (us : List User)
    → All IsRestorable us
    → Rows
        (λ u v. v ≡ record u { last_status_change = v.last_status_change })
        us
        (activate_all_disabled_users later admin (disable_all_active_users now admin us))
activate-disable now later admin us h =
    rw (activate-disable-eq now later admin us) (three_updates-Rows now later admin us h)
