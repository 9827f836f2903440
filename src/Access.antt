-- ===== src/Access.antt =====
-- app/dependencies.py: who may see which user, which subscription tokens hold, and date ranges.
pub mod Tokens
use marzban.Common.{
  ℕ, ◌+◌, ◌-◌, ◌*◌, ◌/◌, String, Bool, true, false, not, ◌&&◌, ◌||◌, Option, none, some, List, ltb,
  leb, ◌==◌, first, keep, str_eq, if◌then◌else◌,
}
use marzban.User.{User, limited, expired, second, a_day}
use marzban.World.{Result, ok, err, http}
use marzban.Admins.{Admin, Current, get_admin}
use marzban.Users.Bulk.{get_user, owned_by}

-- What `get_subscription_payload` of app/utils/jwt.py reads from a token that it accepts. The time is
-- the one that the token says, of a whole second.
pub record SubPayload : Type 0 where
  pub username : String
  pub created_at : ℕ

-- `ceil(time.time())` at a time, as a time
unfoldable pub time_of : ℕ → ℕ
time_of made = (made + (second - 1)) / second * second

-- What a token says that `create_subscription_token` makes.
unfoldable pub made_payload : String → ℕ → SubPayload
unfolding time_of
made_payload username made = record { username = username; created_at = time_of made }

-- A token whose time is before the user's, or before the last revocation, is refused.
unfoldable pub sub_holds : ℕ → User → Bool
sub_holds created u =
    not (ltb created u.created_at)
    && elim u.sub_revoked_at [ none ↦ true | some t ↦ not (ltb created t) ]

unfoldable pub get_validated_sub : Option SubPayload → List User → Result User
unfolding get_user sub_holds
get_validated_sub none us = err (http 404 "Not Found")
get_validated_sub (some p) us = elim (get_user p.username us) [
  | none ↦ err (http 404 "Not Found")
  | some u ↦ if sub_holds p.created_at u then ok u else err (http 404 "Not Found")
]

-- `dbuser.admin and dbuser.admin.username == admin.username`
unfoldable pub is_owner : List Admin → Current → User → Bool
is_owner admins c u = elim u.admin_id [
  | none ↦ false
  | some i ↦ elim (first (λ a. a.id == i) admins) [
    | none ↦ false
    | some a ↦ str_eq a.username c.username
  ]
]

unfoldable pub get_validated_user : List Admin → Current → String → List User → Result User
unfolding get_user is_owner
get_validated_user admins c username us = elim (get_user username us) [
  | none ↦ err (http 404 "User not found")
  | some u ↦ if c.is_sudo || is_owner admins c u then ok u else err (http 403 "You're not allowed")
]

abbrev start_or : ℕ → Option ℕ → ℕ
start_or now none = now - 30 * a_day
start_or now (some t) = t

-- The dates are already read: a text that is no date is a 400, before any of this.
unfoldable pub validate_dates : ℕ → Option ℕ → Option ℕ → Result (ℕ × ℕ)
validate_dates now start none = ok (start_or now start, now)
validate_dates now start (some end) =
    if ltb end (start_or now start)
    then err (http 400 "Start date must be before end date")
    else ok (start_or now start, end)

abbrev pub is_over : User → Bool
is_over u = elim u.status [ expired ↦ true | limited ↦ true | _ ↦ false ]

abbrev pub in_range : ℕ → ℕ → Option ℕ → Bool
in_range after before none = false
in_range after before (some e) = ltb 0 e && leb after (e * second) && leb (e * second) before

-- Without an account of the database (`dbadmin` is `None`) the users of all admins are listed.
unfoldable pub get_expired_users_list :
    ℕ → List Admin → Current → Option ℕ → Option ℕ → List User → List User
unfolding owned_by get_admin
get_expired_users_list now admins c expired_after expired_before us =
    let before = elim expired_before as (λ _. ℕ) [ none ↦ now | some t ↦ t ] in
    let after = elim expired_after as (λ _. ℕ) [ none ↦ 0 | some t ↦ t ] in
    let admin : Option ℕ =
      if c.is_sudo
      then none
      else elim (get_admin c.username admins) [ none ↦ none | some a ↦ some a.id ] in
    keep (λ u. is_over u && owned_by admin u && in_range after before u.expire) us
