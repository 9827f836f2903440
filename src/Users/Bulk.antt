-- ===== src/Users/Bulk.antt =====
-- The operations of app/db/crud/users.py on the table of users: creation, removal, and the
-- statements over all users of an admin.
pub mod Restore
pub mod Autodelete
pub mod Selection
use marzban.Common.{
  ℕ, ◌+◌, ◌*◌, String, Bool, true, false, not, ◌&&◌, ◌||◌, Option, none, some, List, [], ◌∷◌, ◌++◌,
  ◌==◌, keep, first, any_of, is_some, str_eq, or_none, leb, if◌then◌else◌, map,
}
use marzban.Common.Int.{ℤ, pos, negsuc}
use marzban.User.{
  User, UserStatus, active, disabled, limited, expired, on_hold, Proxy, ProxyTypes, status_eq,
  a_day, UserDataLimitResetStrategy,
}
use marzban.World.{
  World, NotificationReminder, NodeUserUsage, Result, ok, err, type_error, integrity_error, ◌>>=◌,
}
use marzban.Registry.{Inbound, Selected, get_excluded_inbound_tags, excluded_of}
use marzban.Users.Reset.{clear_node_usages, reset_one_of_all}
use marzban.Users.Update.{plan_column, given}
use marzban.Users.Proxies.{NextPlanModel, get_inbounds_or_raise}
use marzban.Users.Limits.{limit_column}

-- `User.admin == admin`, under `if admin`.
unfoldable pub owned_by : Option ℕ → User → Bool
owned_by none u = true
owned_by (some a) u = elim u.admin_id [ none ↦ false | some b ↦ b == a ]

unfoldable pub get_user : String → List User → Option User
get_user username = first (λ u. str_eq u.username username)

unfoldable pub get_user_by_id : ℕ → List User → Option User
get_user_by_id id = first (λ u. u.id == id)

-- `query.update({User.status: status, User.last_status_change: now})` over the rows that pass.
unfoldable pub update_where : ℕ → (User → Bool) → UserStatus → List User → List User
update_where now p status [] = []
update_where now p status (u ∷ us) =
    (if p u then record u { status = status; last_status_change = some now } else u)
    ∷ update_where now p status us

abbrev pub is_enabled : User → Bool
is_enabled u = elim u.status [ active ↦ true | on_hold ↦ true | _ ↦ false ]

abbrev pub is_disabled : User → Bool
is_disabled u = elim u.status [ disabled ↦ true | _ ↦ false ]

-- `User.expire IS NULL AND User.on_hold_expire_duration IS NOT NULL AND User.online_at IS NULL`
abbrev pub never_started : User → Bool
never_started u =
    not (is_some u.expire) && is_some u.on_hold_expire_duration && not (is_some u.online_at)

unfoldable pub disable_all_active_users : ℕ → Option ℕ → List User → List User
unfolding update_where owned_by
disable_all_active_users now admin =
    update_where now (λ u. is_enabled u && owned_by admin u) disabled

-- The statement for the users on hold runs first, and takes its rows from the second.
unfoldable pub activate_all_disabled_users : ℕ → Option ℕ → List User → List User
unfolding update_where owned_by
activate_all_disabled_users now admin us =
    update_where now (λ u. is_disabled u && owned_by admin u) active
      (update_where now (λ u. is_disabled u && never_started u && owned_by admin u) on_hold us)

unfoldable pub reset_all_users_data_usage : Option ℕ → List User → World → List User × World
unfolding owned_by reset_one_of_all clear_node_usages
reset_all_users_data_usage admin [] w = ([], w)
reset_all_users_data_usage admin (u ∷ us) w =
    let mine = owned_by admin u in
    let w' = if mine then record w { node_usages = clear_node_usages u.id w.node_usages } else w in
    let (us', w'') = reset_all_users_data_usage admin us w' in
    ((if mine then reset_one_of_all u else u) ∷ us', w'')

-- `db.delete(dbuser)`, with the cascades over the user's reminders and usages.
unfoldable pub remove_user : User → List User × World → List User × World
unfolding clear_node_usages
remove_user u (us, w) = (
  keep (λ v. not (v.id == u.id)) us,
  record w {
    node_usages = clear_node_usages u.id w.node_usages;
    reminders = keep (λ r. not (r.user_id == u.id)) w.reminders;
  },
)

unfoldable pub remove_users : List User → List User × World → List User × World
unfolding remove_user
remove_users [] s = s
remove_users (u ∷ us) s = remove_users us (remove_user u s)

-- `coalesce(User.auto_delete_in_days, USERS_AUTODELETE_DAYS)`
abbrev pub auto_delete : ℤ → User → ℤ
auto_delete default_days u = elim u.auto_delete_in_days [ none ↦ default_days | some d ↦ d ]

abbrev pub is_target : Bool → User → Bool
is_target include_limited_users u = elim u.status [
  | expired ↦ true
  | limited ↦ include_limited_users
  | _ ↦ false
]

-- One user of the query. `None + timedelta` is a `TypeError`.
unfoldable pub autodelete_due : ℕ → ℤ → Bool → User → Result Bool
autodelete_due now default_days include_limited_users u =
    if is_target include_limited_users u
    then elim (auto_delete default_days u) [
      | negsuc n ↦ ok false
      | pos d ↦ elim u.last_status_change [
        | none ↦ err type_error
        | some t ↦ ok (leb (t + d * a_day) now)
      ]
    ]
    else ok false

unfoldable pub autodelete_list : ℕ → ℤ → Bool → List User → Result (List User)
unfolding autodelete_due
autodelete_list now default_days include_limited_users [] = ok []
autodelete_list now default_days include_limited_users (u ∷ us) =
    let rest = autodelete_list now default_days include_limited_users us in
    autodelete_due now default_days include_limited_users u >>= λ due.
    rest >>= λ others. ok (if due then u ∷ others else others)

unfoldable pub autodelete_expired_users :
    ℕ → ℤ → Bool → List User × World → Result (List User × (List User × World))
unfolding autodelete_list remove_users
autodelete_expired_users now default_days include_limited_users s =
    autodelete_list now default_days include_limited_users s.0 >>= λ gone.
    ok (gone, remove_users gone s)

-- `UserCreate` of app/models/user.py, after its validators.
pub record UserCreate : Type 0 where
  pub username : String
  pub proxies : List (ProxyTypes × String)
  pub inbounds : Selected
  pub status : Option UserStatus
  pub data_limit : Option ℕ
  pub expire : Option ℕ
  pub data_limit_reset_strategy : UserDataLimitResetStrategy
  pub note : Option String
  pub on_hold_expire_duration : Option ℕ
  pub on_hold_timeout : Option ℕ
  pub auto_delete_in_days : Option ℤ
  pub next_plan : Option NextPlanModel

unfoldable pub create_proxies :
    List Inbound → List String → Selected → List (ProxyTypes × String) → Result (List Proxy)
unfolding excluded_of get_inbounds_or_raise
create_proxies reg known selected [] = ok []
create_proxies reg known selected ((t, s) ∷ l) =
    let rest = create_proxies reg known selected l in
    get_inbounds_or_raise known (excluded_of reg selected t) >>= λ tags.
    rest >>= λ others. ok (record { type = t; settings = s; excluded_inbounds = tags } ∷ others)

abbrev limit_or_none : Option ℕ → Option ℤ
limit_or_none none = none
limit_or_none (some n) = limit_column n

-- The id is the one that the database assigns, and a status of `None` becomes the column's
-- default. The unique index on the name and the NOT NULL of
-- the plan's limit are what the commit can break.
unfoldable pub create_user :
    ℕ
    → ℕ
    → List Inbound
    → List String
    → UserCreate
    → Option ℕ
    → List User
    → Result (User × List User)
unfolding get_user create_proxies plan_column
create_user now id reg known new admin_id us =
    create_proxies reg known new.inbounds new.proxies >>= λ proxies.
    plan_column new.next_plan >>= λ plan.
    let u : User = record {
      id = id;
      username = new.username;
      proxies = proxies;
      status = given new.status active;
      used_traffic = 0;
      data_limit = limit_or_none new.data_limit;
      data_limit_reset_strategy = new.data_limit_reset_strategy;
      usage_logs = [];
      expire = or_none new.expire;
      admin_id = admin_id;
      sub_revoked_at = none;
      sub_updated_at = none;
      sub_last_user_agent = none;
      created_at = now;
      note = new.note;
      online_at = none;
      on_hold_expire_duration = or_none new.on_hold_expire_duration;
      on_hold_timeout = or_none new.on_hold_timeout;
      auto_delete_in_days = new.auto_delete_in_days;
      edit_at = none;
      last_status_change = some now;
      next_plan = plan;
    } in
    elim (get_user new.username us) [
      | none ↦ ok (u, us ++ u ∷ [])
      | some other ↦ err integrity_error
    ]
