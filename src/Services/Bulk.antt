-- ===== src/Services/Bulk.antt =====
-- app/services/user_service.py: the removal of a user and the handlers for many users, and the job
-- of app/jobs/remove_expired_users.py.
pub mod Deleted
use marzban.Common.{ℕ, String, Bool, true, false, Option, none, some, List, [], ◌∷◌, map}
use marzban.Common.Int.{ℤ}
use marzban.User.{User}
use marzban.World.{World, Context, CoreCall, call, Fault, value_error, http, Result, ok, err, ◌>>=◌}
use marzban.Report.{user_deleted}
use marzban.Admins.{Admin, Current, get_admin}
use marzban.Access.{validate_dates, get_expired_users_list}
use marzban.Operations.{Node}
use marzban.Users.Bulk.{
  remove_user, remove_users, reset_all_users_data_usage, autodelete_expired_users,
}

-- The row is deleted and committed, then `Admin.model_validate(dbuser.admin)` is computed for the
-- second background task; without an admin it raises, and no background task runs.
unfoldable pub delete_user : Context → User → List User × World → (List User × World) × Option Fault
unfolding remove_user user_deleted
delete_user c u s =
    let (us, w) = remove_user u s in
    elim u.admin_id [
      | none ↦ ((us, w), some value_error)
      | some a ↦ ((us, user_deleted c u.username (call (CoreCall.remove_user u.id) w)), none)
    ]

-- One report for each name, in their order.
unfoldable pub report_deleted : Context → List String → World → World
unfolding user_deleted
report_deleted c [] w = w
report_deleted c (name ∷ l) w = report_deleted c l (user_deleted c name w)

abbrev pub names_of : List User → List String
names_of [] = []
names_of (u ∷ us) = u.username ∷ names_of us

unfoldable pub delete_expired_users :
    Context
    → List Admin
    → Current
    → Option ℕ
    → Option ℕ
    → List User × World
    → Result (List String × (List User × World))
unfolding validate_dates get_expired_users_list remove_users report_deleted
delete_expired_users c admins current after before (us, w) =
    validate_dates c.now after before >>= λ range.
    let gone = get_expired_users_list c.now admins current (some range.0) (some range.1) us in
    elim gone [
      | [] ↦ err (http 404 "No expired users found in the specified date range")
      | g ∷ gs ↦
          let (us', w') = remove_users (g ∷ gs) (us, w) in
          ok (names_of (g ∷ gs), (us', report_deleted c (names_of (g ∷ gs)) w'))
    ]

abbrev connected_ids : List Node → List ℕ
connected_ids [] = []
connected_ids (n ∷ l) =
    let rest = connected_ids l in elim n.connected [ true ↦ n.id ∷ rest | false ↦ rest ]

-- With the ids of the nodes that are restarted. `dbadmin` is `None` for a sudoer of the
-- environment, which resets the users of all admins.
unfoldable pub reset_users_data_usage :
    List Admin → Current → List Node → List User × World → (List User × World) × List ℕ
unfolding get_admin reset_all_users_data_usage
reset_users_data_usage admins current nodes (us, w) =
    let owner : Option ℕ = elim (get_admin current.username admins) [
      | none ↦ none
      | some a ↦ some a.id
    ] in
    (reset_all_users_data_usage owner us w, connected_ids nodes)

-- The job: the days and the flag are those of the environment.
unfoldable pub remove_expired_users :
    Context → ℤ → Bool → List User × World → (List User × World) × Option Fault
unfolding autodelete_expired_users report_deleted
remove_expired_users c default_days include_limited_users s =
    elim (autodelete_expired_users c.now default_days include_limited_users s) [
      | err e ↦ (s, some e)
      | ok (gone, (us, w)) ↦ ((us, report_deleted c (names_of gone) w), none)
    ]
