-- ===== src/Services/Users.antt =====
-- app/services/user_service.py: the handlers for one user, whom `get_validated_user` has found.
-- Background tasks run after the reply, in the order in which they were queued.
pub mod NextPlan
pub mod Modify
use marzban.Common.{
  ℕ, String, Bool, true, false, not, Option, none, some, List, [], ◌∷◌, if◌then◌else◌,
}
use marzban.User.{User, UserStatus, active, on_hold, status_eq, ProxyTypes}
use marzban.World.{
  World, Context, CoreCall, call, Fault, value_error, integrity_error, http, Result, ok, err, ◌>>=◌,
}
use marzban.Registry.{Inbound, Selected, normalize_user_inbounds, validate_selected_inbounds}
use marzban.Report.{
  status_change, user_created, user_updated, user_deleted, user_data_usage_reset,
  user_data_reset_by_next, user_subscription_revoked,
}
use marzban.Users.Reset.{reset_user_data_usage, reset_user_by_next, set_owner}
use marzban.Users.Update.{update_user, revoke_user_sub, is_response}
use marzban.Users.Proxies.{UserModify}
use marzban.Users.Bulk.{UserCreate, create_user}

-- The row of the user and the rest of the state, with the reply or what was raised.
abbrev pub Reply : Type 0
Reply = User × World × Option Fault

abbrev pub is_enabled_status : UserStatus → Bool
is_enabled_status active = true
is_enabled_status on_hold = true
is_enabled_status _ = false

-- The row is committed; a response is made of it, and the background tasks follow.
abbrev respond : Context → User → World → World → Reply
respond c u w done = if is_response c u then (u, done, none) else (u, w, some value_error)

abbrev types_of : List (ProxyTypes × String) → List ProxyTypes
types_of [] = []
types_of ((t, s) ∷ l) = t ∷ types_of l

-- `if modified_user.proxies:` the check of its protocols; the normal form is dropped.
unfoldable pub check_modify_proxies : List Inbound → UserModify → Result (Unit {0})
unfolding normalize_user_inbounds
check_modify_proxies reg m = elim m.proxies [
  | [] ↦ ok tt
  | a ∷ l ↦ normalize_user_inbounds reg (types_of (a ∷ l)) [] true >>= λ _. ok tt
]

unfoldable pub validate_user_modify_inbounds : List Inbound → UserModify → Result UserModify
unfolding validate_selected_inbounds
validate_user_modify_inbounds reg m = elim m.inbounds [
  | none ↦ ok m
  | some sel ↦ validate_selected_inbounds reg sel >>= λ s. ok (record m { inbounds = some s })
]

-- A `ValueError` of the two checks becomes a 400.
abbrev pub bad_request {ℓ} : {A : Type ℓ} → Result A → Result A
bad_request (ok a) = ok a
bad_request (err e) = err (http 400 "bad request")

unfoldable pub modify_user :
    Context → List Inbound → List String → UserModify → User → World → Reply
unfolding check_modify_proxies validate_user_modify_inbounds update_user
modify_user c reg known m u w =
    let checked =
      bad_request (check_modify_proxies reg m >>= λ _. validate_user_modify_inbounds reg m) in
    elim (checked >>= λ m'. update_user c reg known m' u w) [
      | err e ↦ (u, w, some e)
      | ok (u', w') ↦
          let task =
            if is_enabled_status u'.status
            then CoreCall.update_user u'.id
            else CoreCall.remove_user u'.id in
          let told = user_updated c u'.username (call task w') in
          respond c u' w' (
            if status_eq u'.status u.status
            then told
            else status_change c u'.username u'.status told)
    ]

unfoldable pub reset_usage : Context → User → World → Reply
unfolding reset_user_data_usage
reset_usage c u w =
    let (u', w') = reset_user_data_usage c.now u w in
    let added = if is_enabled_status u'.status then call (CoreCall.add_user u'.id) w' else w' in
    respond c u' w' (user_data_usage_reset c u'.username added)

unfoldable pub revoke_user_subscription :
    Context → (String → String) → List Inbound → List String → User → World → Reply
unfolding revoke_user_sub
revoke_user_subscription c revoke reg known u w = elim (revoke_user_sub c revoke reg known u w) [
  | err e ↦ (u, w, some e)
  | ok (u', w') ↦
      let updated =
        if is_enabled_status u'.status then call (CoreCall.update_user u'.id) w' else w' in
      respond c u' w' (user_subscription_revoked c u'.username updated)
]

-- `if (dbuser is None or dbuser.next_plan is None): raise HTTPException(404)`, read after the reset.
unfoldable pub active_next_plan : Context → User → World → Reply
unfolding reset_user_by_next
active_next_plan c u w =
    let not_found = http 404 "User doesn't have next plan" in
    elim (reset_user_by_next c.now u w) [
      | err e ↦ (u, w, some e)
      | ok none ↦ (u, w, some not_found)
      | ok (some (u', w')) ↦ elim u'.next_plan [
        | none ↦ (u', w', some not_found)
        | some plan ↦
            let added =
              if is_enabled_status u'.status then call (CoreCall.add_user u'.id) w' else w' in
            respond c u' w' (user_data_reset_by_next c u'.username added)
      ]
    ]

unfoldable pub change_owner : Context → Option ℕ → User → World → Reply
unfolding set_owner
change_owner c none u w = (u, w, some (http 404 "Admin not found"))
change_owner c (some admin_id) u w = respond c (set_owner admin_id u) w w

-- `add_user`: a `ValueError` of the inbounds is a 400, an `IntegrityError` of the row a 409.
unfoldable pub add_user :
    Context
    → ℕ
    → List Inbound
    → List String
    → UserCreate
    → Option ℕ
    → List User × World
    → Result (User × (List User × World))
unfolding normalize_user_inbounds create_user
add_user c id reg known new admin_id (us, w) =
    let normal =
      bad_request (normalize_user_inbounds reg (types_of new.proxies) new.inbounds true) in
    normal >>= λ sel.
    elim (create_user c.now id reg known (record new { inbounds = sel }) admin_id us) [
      | err integrity_error ↦ err (http 409 "User already exists")
      | err e ↦ err e
      | ok (u, us') ↦
          if is_response c u
          then ok (u, (us', user_created c u.username (call (CoreCall.add_user u.id) w)))
          else err value_error
    ]
