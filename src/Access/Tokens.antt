-- ===== src/Access/Tokens.antt =====
-- Who gets a user, and which subscription tokens a revocation ends.
use marzban.Common.{
  ℕ, refl, if◌then◌else◌, ◌||◌, ◌≤◌, ◌<◌, ◌+◌, ◌≡◌, ◌⊎◌, ◌↔◌, String, true, Option, none, some,
  List, arith,
}
use marzban.User.{User, second}
use marzban.World.{World, Context, ok, err, http, value_error}
use marzban.Registry.{Inbound}
use marzban.Users.Update.{revoke_user_sub, update_user, response_details, is_response}
use marzban.Users.Proxies.{UserModify}
use marzban.Users.Bulk.{get_user}
use marzban.Admins.{Admin, Current}
use marzban.Access.{
  SubPayload, time_of, made_payload, sub_holds, get_validated_sub, is_owner, get_validated_user,
  validate_dates,
}

revoked_at-update :
    (c : Context) (reg : List Inbound) (known : List String) (m : UserModify) (u v : User)
    (w w' : World)
    → update_user c reg known m u w ≡ ok (v, w')
    → (v.sub_revoked_at ≡ u.sub_revoked_at) × (v.created_at ≡ u.created_at)
unfolding update_user
revoked_at-update c reg known m u v w w' h = ground arith

abbrev mark : Context → User → User
mark c u = record u { sub_revoked_at = some c.now }

revoke_user_sub-eq :
    (c : Context) (revoke : String → String) (reg : List Inbound) (known : List String) (u : User)
    (w : World)
    → revoke_user_sub c revoke reg known u w ≡ (
        if is_response c (mark c u)
        then update_user c reg known (response_details revoke reg (mark c u)) (mark c u) w
        else err value_error)
unfolding revoke_user_sub
revoke_user_sub-eq c revoke reg known u w = refl

revoked_at-revoke :
    (c : Context) (revoke : String → String) (reg : List Inbound) (known : List String) (u v : User)
    (w w' : World)
    → revoke_user_sub c revoke reg known u w ≡ ok (v, w')
    → (v.sub_revoked_at ≡ some c.now) × (v.created_at ≡ u.created_at)
revoked_at-revoke c revoke reg known u v w w' h =
    let step = revoke_user_sub-eq c revoke reg known u w in
    let done : update_user c reg known (response_details revoke reg (mark c u)) (mark c u) w
        ≡ ok (v, w') =
      ground arith in
    revoked_at-update c reg known (response_details revoke reg (mark c u)) (mark c u) v w w' done

get_validated_sub-eq :
    (p : SubPayload) (us : List User) (v : User)
    → get_user p.username us ≡ some v
    → get_validated_sub (some p) us
      ≡ (if sub_holds p.created_at v then ok v else err (http 404 "Not Found"))
unfolding get_validated_sub
get_validated_sub-eq p us v f = rw (get_validated_sub, f)

sub_holds-revoked :
    (created now : ℕ) (v : User)
    → v.sub_revoked_at ≡ some now
    → v.created_at ≤ now
    → (sub_holds created v ≡ true) ↔ (now ≤ created)
unfolding sub_holds
sub_holds-revoked created now v r b = (λ h. ground arith, λ h. ground arith)

time_of-rounds : (t : ℕ) → (t ≤ time_of t) × (time_of t < t + second)
unfolding time_of
time_of-rounds t = (omega arith, omega arith)

-- After a revocation a token is accepted by the time that it says, which is the time at which it was
-- made, rounded up to a second. Where the row of the user is the one that `revoke_user_sub` left and the
-- user was created before, `get_validated_sub` gives the user for a token of that name if and only if
-- its rounded time is not before the revocation. The rounded time is not before the time at which the
-- token was made, and less than a second after it: a token made since the revocation is accepted, one
-- made a second or more before it is refused.
pub get_validated_sub-revoked :
    (c : Context) (revoke : String → String) (reg : List Inbound) (known : List String) (u v : User)
    (w w' : World) (us : List User) (username : String) (made : ℕ)
    → revoke_user_sub c revoke reg known u w ≡ ok (v, w')
    → u.created_at ≤ c.now
    → get_user username us ≡ some v
    → ((get_validated_sub (some (made_payload username made)) us ≡ ok v) ↔ (c.now ≤ time_of made))
      × (made ≤ time_of made)
      × (time_of made < made + second)
unfolding made_payload
get_validated_sub-revoked c revoke reg known u v w w' us username made r b f =
    let p = made_payload username made in
    let rounds = time_of-rounds made in
    let at = revoked_at-revoke c revoke reg known u v w w' r in
    let same = get_validated_sub-eq p us v f in
    let holds = sub_holds-revoked p.created_at c.now v at.0 (ground arith) in
    (((λ h. holds.0 (ground arith)), (λ h. let t = holds.1 h in ground arith)), rounds.0, rounds.1)

get_validated_user-eq :
    (admins : List Admin) (c : Current) (username : String) (us : List User) (u : User)
    → get_user username us ≡ some u
    → get_validated_user admins c username us
      ≡ (if c.is_sudo || is_owner admins c u then ok u else err (http 403 "You're not allowed"))
unfolding get_validated_user
get_validated_user-eq admins c username us u f = rw (get_validated_user, f)

-- A user that is found is given to a sudoer and to the admin that owns it, and to nobody else.
pub get_validated_user_iff :
    (admins : List Admin) (c : Current) (username : String) (us : List User) (u : User)
    → get_user username us ≡ some u
    → (get_validated_user admins c username us ≡ ok u)
      ↔ ((c.is_sudo ≡ true) ⊎ (is_owner admins c u ≡ true))
get_validated_user_iff admins c username us u f =
    let same = get_validated_user-eq admins c username us u f in
    (λ h. ground arith, λ h. ground arith)

-- A range that `validate_dates` accepts does not end before it starts, where the start of a
-- range without an end is not in the future.
pub validate_dates-le :
    (now : ℕ) (start end : Option ℕ) (a b : ℕ)
    → (end ≡ none → (s : ℕ) → start ≡ some s → s ≤ now)
    → validate_dates now start end ≡ ok (a, b)
    → a ≤ b
unfolding validate_dates
validate_dates-le now none none a b s h = ground arith
validate_dates-le now (some t) none a b s h = let l = s refl t refl in ground arith
validate_dates-le now start (some e) a b s h = ground arith
