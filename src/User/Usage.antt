-- ===== src/User/Usage.antt =====
-- The derived values of a user: the properties of app/db/models/users.py, and
-- app/utils/helpers.py.
use marzban.Common.{
  ℕ, suc, ◌+◌, ◌-◌, ◌*◌, ◌/◌, ◌≡◌, refl, Bool, false, Option, none, some, List, [], ◌∷◌, ◌++◌,
  arith, ltb, leb, if◌then◌else◌, sum,
}
use marzban.Common.Int.{ℤ, pos, negsuc, nonzero, leb_ℤ}
use marzban.User.{User, UserUsageResetLogs, second, a_day}

abbrev pub at_resets : List UserUsageResetLogs → List ℕ
at_resets [] = []
at_resets (log ∷ logs) = log.used_traffic_at_reset ∷ at_resets logs

unfoldable pub lifetime_used_traffic : User → ℕ
lifetime_used_traffic u = sum (at_resets u.usage_logs) + u.used_traffic

abbrev pub last_reset_or : ℕ → List UserUsageResetLogs → ℕ
last_reset_or t [] = t
last_reset_or t (log ∷ logs) = last_reset_or log.reset_at logs

-- The last log's time, or the creation time if there is none.
unfoldable pub last_traffic_reset_time : User → ℕ
last_traffic_reset_time u = last_reset_or u.created_at u.usage_logs

-- `user.data_limit and user.used_traffic >= user.data_limit`
unfoldable pub is_limited : User → Bool
is_limited u = elim u.data_limit [
  | none ↦ false
  | some l ↦ if nonzero l then leb_ℤ l (pos u.used_traffic) else false
]

-- `user.expire and user.expire <= now.timestamp()`
unfoldable pub is_expired : ℕ → User → Bool
is_expired now u = elim u.expire [
  | none ↦ false
  | some e ↦ if ltb 0 e then leb (e * second) now else false
]

-- `calculate_usage_percent(used, limit) >= percent`, with the division multiplied out.
unfoldable pub usage_percent_reaches : ℕ → ℤ → ℕ → Bool
usage_percent_reaches used (pos l) percent = leb (percent * l) (used * 100)
usage_percent_reaches used (negsuc l) percent = leb (used * 100 + percent * suc l) 0

-- `(a - b).days`, which rounds towards minus infinity.
unfoldable pub days_between : ℕ → ℕ → ℤ
days_between a b = if leb b a then pos ((a - b) / a_day) else negsuc ((b - a - 1) / a_day)

-- `datetime.fromtimestamp`, up to the end of the year 9999.
abbrev pub in_calendar : ℕ → Bool
in_calendar e = leb e 253402300799

-- `none` is what `fromtimestamp` raises: a ValueError, or an OverflowError far outside.
unfoldable pub calculate_expiration_days : ℕ → ℕ → Option ℤ
unfolding days_between
calculate_expiration_days now expire =
    if in_calendar expire then some (days_between (expire * second) now) else none

pub at_resets-append :
    (xs ys : List UserUsageResetLogs)
    → sum (at_resets (xs ++ ys)) ≡ sum (at_resets xs) + sum (at_resets ys)
at_resets-append [] ys = omega arith
at_resets-append (x ∷ xs) ys = omega (arith, at_resets-append xs ys)

pub last_reset_or-append :
    (t : ℕ) (xs : List UserUsageResetLogs) (log : UserUsageResetLogs)
    → last_reset_or t (xs ++ log ∷ []) ≡ log.reset_at
last_reset_or-append t [] log = refl
last_reset_or-append t (x ∷ xs) log = last_reset_or-append x.reset_at xs log
