-- ===== src/Users/Update.antt =====
-- `update_user` and `revoke_user_sub` of app/db/crud/users.py, with `UserModify` of
-- app/models/user.py.
pub mod Status
use mathlib.Core.List.{reverse}
use marzban.Common.{
  ℕ, ◌*◌, String, Bool, true, false, not, ◌&&◌, ◌||◌, Option, none, some, List, [], ◌∷◌, ◌==◌, ltb,
  leb, keep, or_none, sorted, str_eq, if◌then◌else◌,
}
use marzban.Common.Int.{ℤ, pos, negsuc, ltb_ℤ, leb_ℤ, nonzero}
use marzban.Settings.{RuntimeSettings}
use marzban.User.{
  User, UserStatus, active, disabled, limited, expired, on_hold, Proxy, ProxyTypes, type_eq,
  NextPlan, UserDataLimitResetStrategy, data_usage, expiration_date, second,
}
use marzban.User.Usage.{usage_percent_reaches, calculate_expiration_days, in_calendar}
use marzban.World.{
  World, Context, NotificationReminder, Result, ok, err, value_error, integrity_error, ◌>>=◌,
}
use marzban.Reminder.{get_notification_reminder, delete_notification_reminder}
use marzban.Registry.{
  Inbound, Selected, has_tag, protocols, get_excluded_inbound_tags, user_inbounds,
}
use marzban.Users.Proxies.{
  NextPlanModel, UserModify, drop_other_proxies, exclude_all, exclude_for, get_inbounds_or_raise,
  has_type, update_proxies, upsert_proxies, upsert_proxy,
}
use marzban.Users.Limits.{
  below_limit, days_above, days_unknown, forget_days, forget_reminder, forget_where, has_room,
  has_time, limit_column, no_limit, percent_below, reviewed_for_expire, reviewed_for_limit,
  set_data_limit, set_expire, status_by_expire, status_by_limit,
}

abbrev pub given {ℓ} : {A : Type ℓ} → Option A → A → A
given none old = old
given (some a) old = a

abbrev pub given_some {ℓ} : {A : Type ℓ} → Option A → Option A → Option A
given_some none old = old
given_some (some a) old = some a

-- `modify.note or None`
abbrev note_column : Option String → Option String → Option String
note_column none old = old
note_column (some s) old = if str_eq s "" then none else some s

-- A plan with no `data_limit` breaks the NOT NULL of the column when it is committed.
unfoldable pub plan_column : Option NextPlanModel → Result (Option NextPlan)
plan_column none = ok none
plan_column (some p) = elim p.data_limit [
  | none ↦ err integrity_error
  | some l ↦ ok (
      some (record {
        data_limit = l;
        expire = p.expire;
        add_remaining_traffic = p.add_remaining_traffic;
        fire_on_either = p.fire_on_either;
      }))
]

abbrev pub set_status : Option UserStatus → User → User
set_status none u = u
set_status (some s) u = record u { status = s }

-- The row with its proxies, the status given, and the limit given.
unfoldable pub with_limit : Context → UserModify → List Proxy → User → World → User × World
unfolding set_data_limit
with_limit c m proxies u w =
    set_data_limit c m.data_limit (set_status m.status (record u { proxies = proxies }), w)

-- Without a plan in the request the plan of the row is deleted.
unfoldable pub update_user :
    Context → List Inbound → List String → UserModify → User → World → Result (User × World)
unfolding update_proxies with_limit set_expire days_unknown plan_column
update_user c reg known m u w = update_proxies reg known m u.proxies >>= λ proxies.
    if days_unknown c m.expire (with_limit c m proxies u w).0.status
    then err value_error
    else (plan_column m.next_plan >>= λ plan.
        let (u', w') = set_expire c m.expire (with_limit c m proxies u w) in
        ok (
          record u' {
            note = note_column m.note u.note;
            data_limit_reset_strategy =
                given m.data_limit_reset_strategy u.data_limit_reset_strategy;
            on_hold_timeout = given_some m.on_hold_timeout u.on_hold_timeout;
            on_hold_expire_duration =
                given_some m.on_hold_expire_duration u.on_hold_expire_duration;
            next_plan = plan;
            edit_at = some c.now;
          },
          w',
        ))

-- `UserResponse.model_validate(dbuser)` read as the details of an update, which is how
-- `revoke_user_sub` uses it. Every field of a response counts as set.
abbrev limit_field : Option ℤ → Option ℕ
limit_field none = none
limit_field (some (pos n)) = some n
limit_field (some (negsuc n)) = none

abbrev plan_field : Option NextPlan → Option NextPlanModel
plan_field none = none
plan_field (some p) = some (record {
  data_limit = some p.data_limit;
  expire = p.expire;
  add_remaining_traffic = p.add_remaining_traffic;
  fire_on_either = p.fire_on_either;
})

-- `settings.revoke()` draws new credentials; what it draws is a parameter.
abbrev revoked_settings : (String → String) → List Proxy → List (ProxyTypes × String)
revoked_settings revoke [] = []
revoked_settings revoke (p ∷ ps) = (p.type, revoke p.settings) ∷ revoked_settings revoke ps

unfoldable pub response_details : (String → String) → List Inbound → User → UserModify
unfolding user_inbounds
response_details revoke reg u = record {
  proxies = revoked_settings revoke u.proxies;
  inbounds = some (user_inbounds reg u.proxies);
  status = some u.status;
  data_limit = limit_field u.data_limit;
  expire = u.expire;
  note = u.note;
  data_limit_reset_strategy = some u.data_limit_reset_strategy;
  on_hold_timeout = u.on_hold_timeout;
  on_hold_expire_duration = or_none u.on_hold_expire_duration;
  next_plan = plan_field u.next_plan;
}

-- Whether `setup_format_variables` of app/subscription/share.py has the dates of an expiry.
abbrev pub expire_fits : Context → Option ℕ → Bool
expire_fits c none = true
expire_fits c (some e) = in_calendar e && c.jalali e

-- `timedelta(seconds=duration)` holds less than 10^9 days.
abbrev pub duration_fits : Option ℕ → Bool
duration_fits none = true
duration_fits (some d) = ltb d 86400000000000

-- The dates that the links of a user are made with.
abbrev pub dates_fit : Context → User → Bool
dates_fit c u = elim u.status [
  | on_hold ↦ duration_fits u.on_hold_expire_duration
  | active ↦ expire_fits c u.expire
  | disabled ↦ expire_fits c u.expire
  | limited ↦ expire_fits c u.expire
  | expired ↦ expire_fits c u.expire
]

-- What `UserResponse.model_validate` checks of a row: there is a proxy, `data_limit` has `ge=0`, and
-- the links can be made. The texts were checked by the same validators when they were stored.
unfoldable pub is_response : Context → User → Bool
is_response c u =
    (elim u.proxies [ [] ↦ false | p ∷ ps ↦ true ])
    && (elim u.data_limit [ none ↦ true | some l ↦ leb_ℤ (pos 0) l ])
    && dates_fit c u
    && c.links u.proxies

unfoldable pub revoke_user_sub :
    Context → (String → String) → List Inbound → List String → User → World → Result (User × World)
unfolding response_details update_user is_response
revoke_user_sub c revoke reg known u w =
    let marked = record u { sub_revoked_at = some c.now } in
    if is_response c marked
    then update_user c reg known (response_details revoke reg marked) marked w
    else err value_error
