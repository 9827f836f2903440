-- ===== src/Tests/Accounts.antt =====
-- Requests for concrete accounts: next plans, tokens and admins.
use marzban.Common.{
  ℕ, ◌-◌, ◌+◌, ◌<◌, ◌≤◌, ◌≡◌, ◌≢◌, ◌↔◌, refl, sym, ap, str_eq, String, Bool, Option, none, some, [],
  ◌∷◌, true, false, arith,
}
use mathlib.Core.Bool.{false≢true}
use marzban.Common.Int.{pos, ◌+ℤ◌, ◌-ℤ◌}
use marzban.User.{User, second, limited, vless}
use marzban.World.{ok}
use marzban.Users.Update.{revoke_user_sub}
use marzban.Users.Bulk.{get_user}
use marzban.Users.Reset.{next_data_limit}
use marzban.Admins.{
  Admin, AdminModify, Payload, Current, Draw, hashed_password, get_admin, update_admin,
  current_admin, modify_admin, delete_admin,
}
use marzban.Admins.Tokens.{current_admin-new_password}
use marzban.Access.{made_payload, time_of, get_validated_sub, validate_dates}
use marzban.Access.Tokens.{get_validated_sub-revoked}
use marzban.Tests.Samples.{context, world, alice, bob, dave, a_plan, registry, known, root}

limit_of_plan : next_data_limit dave a_plan ≡ ok (pos 180)
unfolding next_data_limit ◌+ℤ◌ ◌-ℤ◌
limit_of_plan = refl

abbrev draws : Draw
draws i password = password

abbrev new_password : AdminModify
new_password = record {
  password = some "new";
  is_sudo = false;
  telegram_id = none;
  discord_webhook = none;
}

abbrev token : Payload
token = record { username = "root"; is_sudo = true; created_at = some 5 }

other_hash : root.hashed_password ≢ hashed_password draws 0 "new"
unfolding hashed_password
other_hash e = false≢true (sym (ap is_old e))
  where
    is_old : Option String → Bool
    is_old none = false
    is_old (some s) = str_eq s "old"

found :
    get_admin "root" (update_admin draws 9 new_password root ∷ [])
    ≡ some (update_admin draws 9 new_password root)
unfolding get_admin update_admin
found = refl

current_admin-new_password_example :
    current_admin [] token (update_admin draws 9 new_password root ∷ []) ≡ none
current_admin-new_password_example =
    current_admin-new_password draws 9 5 new_password root "new" [] token
      (update_admin draws 9 new_password root ∷ []) refl other_hash found refl refl (omega arith)

abbrev as_root : Current
as_root = record { username = "root"; is_sudo = true }

edits : modify_admin draws 9 as_root new_password root ≡ ok (update_admin draws 9 new_password root)
unfolding modify_admin
edits = refl

abbrev helper : Admin
helper = record root { id = 2; username = "helper"; is_sudo = false }

dismisses : delete_admin helper (root ∷ helper ∷ []) ≡ ok (root ∷ [])
unfolding delete_admin
dismisses = refl

bob_there : get_user "bob" (alice ∷ bob ∷ []) ≡ some bob
unfolding get_user
bob_there = refl

validates : validate_dates 100 (some 20) (some 30) ≡ ok (20, 30)
unfolding validate_dates
validates = refl

abbrev redraw : String → String
redraw settings = "{new}"

-- Bob after a revocation: the credentials are new, and the reminders were looked at.
abbrev revoked : User
revoked = record bob {
  proxies = record { type = vless; settings = "{new}"; excluded_inbounds = [] } ∷ [];
  status = limited;
  sub_revoked_at = some context.now;
  edit_at = some context.now;
}

revokes : revoke_user_sub context redraw registry known bob world ≡ ok (revoked, world)
unfolding revoke_user_sub
revokes = refl

revoked_there : get_user "bob" (alice ∷ revoked ∷ []) ≡ some revoked
unfolding get_user
revoked_there = refl

-- A link made a tenth of a second before the revocation is accepted.
abbrev just_before : ℕ
just_before = context.now - 100000

late_link :
    get_validated_sub (some (made_payload "bob" just_before)) (alice ∷ revoked ∷ []) ≡ ok revoked
unfolding get_validated_sub made_payload
late_link = refl

get_validated_sub-revoked_example :
    ((get_validated_sub (some (made_payload "bob" 20)) (alice ∷ revoked ∷ []) ≡ ok revoked)
      ↔ (context.now ≤ time_of 20))
    × (20 ≤ time_of 20)
    × (time_of 20 < 20 + second)
get_validated_sub-revoked_example =
    get_validated_sub-revoked context redraw registry known bob revoked world world
      (alice ∷ revoked ∷ []) "bob" 20 revokes (omega arith) revoked_there
