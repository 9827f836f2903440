-- ===== src/Services/Bulk/Deleted.antt =====
-- What the handlers that delete users leave.
use marzban.Common.{
  ℕ, ◌∙◌, ◌≡◌, ◌⊎◌, inl, inr, refl, sym, ap, String, Bool, true, not, ◌&&◌, Option, none, some,
  List, [], ◌∷◌, ◌++◌, ◌==◌, arith, keep, any_of, count, All, All-map, Option-cases, if◌then◌else◌,
}
use marzban.User.{User}
use marzban.World.{World, Context, CoreCall, value_error, http, Result, ok, err, ◌>>=◌}
use marzban.Report.{user_deleted}
use marzban.Admins.{Admin, Current, get_admin}
use marzban.Access.{validate_dates, get_expired_users_list, is_over, in_range}
use marzban.Users.Bulk.{owned_by}
use marzban.Users.Bulk.{remove_users}
use marzban.Users.Bulk.Autodelete.{same_id, without, remove_users-users}
use marzban.Services.Bulk.{delete_user, delete_expired_users, report_deleted, names_of}

count_after :
    (id : ℕ) (us : List User) → count (λ v. v.id == id) (keep (λ v. not (v.id == id)) us) ≡ 0
count_after id [] = refl
count_after id (u ∷ us) = ground (arith, count_after id us)

core-user_deleted :
    (c : Context) (name : String) (w : World) → (user_deleted c name w).core ≡ w.core
unfolding user_deleted
core-user_deleted c name w = ground arith

-- The row of the user is gone in any case. With an admin the core is told and the reply is normal;
-- without one the handler raises and the core is not told.
pub delete_user-gone :
    (c : Context) (u : User) (us : List User) (w : World)
    → let ((left, w'), fault) = delete_user c u (us, w) in
      (count (λ v. v.id == u.id) left ≡ 0)
      × (((u.admin_id ≡ none) × (fault ≡ some value_error) × (w'.core ≡ w.core))
          ⊎ ((a : ℕ) × (u.admin_id ≡ some a)
              × (fault ≡ none)
              × (w'.core ≡ w.core ++ CoreCall.remove_user u.id ∷ [])))
unfolding delete_user
delete_user-gone c u us w = elim (Option-cases u.admin_id) [
  | inl e ↦ rw e (count_after u.id us, inl (refl, refl, refl))
  | inr (a, e) ↦ rw e (count_after u.id us, inr (a, refl, refl, core-user_deleted c u.username _))
]

-- The test that `get_expired_users_list` makes of each user.
is_listed : List Admin → Current → ℕ → ℕ → User → Bool
is_listed admins current after before u =
    is_over u
    && owned_by
        (if current.is_sudo
          then none
          else elim (get_admin current.username admins) [ none ↦ none | some a ↦ some a.id ])
        u
    && in_range after before u.expire

get_expired_users_list-keep :
    (now : ℕ) (admins : List Admin) (current : Current) (after before : ℕ) (us : List User)
    → get_expired_users_list now admins current (some after) (some before) us
      ≡ keep (is_listed admins current after before) us
unfolding get_expired_users_list is_listed
get_expired_users_list-keep now admins current after before us = refl

module _ (p : User → Bool) where
  any_of-keep_more :
      (q : User → Bool) (y : User) (us : List User)
      → any_of q (keep p us) ≡ true
      → any_of q (keep p (y ∷ us)) ≡ true
  any_of-keep_more q y us h = ground arith

  found_among :
      (us : List User) → All (λ x. p x ≡ true → any_of (same_id x.id) (keep p us) ≡ true) us
  found_among [] = tt
  found_among (y ∷ us) = (
    (λ h. ground arith),
    All-map (λ x f h. any_of-keep_more (same_id x.id) y us (f h)) us (found_among us),
  )

  keep-without :
      (gs us : List User)
      → All (λ x. p x ≡ true → any_of (same_id x.id) gs ≡ true) us
      → keep p (without gs us) ≡ []
  keep-without gs [] h = refl
  keep-without gs (x ∷ us) h = ground (arith, h.0, keep-without gs us h.1)

abbrev answer : Context → List User → World → List User → Result (List String × (List User × World))
answer c us w [] = err (http 404 "No expired users found in the specified date range")
answer c us w (g ∷ gs) =
    let (us', w') = remove_users (g ∷ gs) (us, w) in
    ok (names_of (g ∷ gs), (us', report_deleted c (names_of (g ∷ gs)) w'))

answered :
    (c : Context) (us gs left : List User) (w w' : World) (names : List String)
    → answer c us w gs ≡ ok (names, (left, w'))
    → (names ≡ names_of gs) × (left ≡ (remove_users gs (us, w)).0)
answered c us [] left w w' names h = cc
answered c us (g ∷ gs) left w w' names h = (cc, cc)

delete_expired_users-eq :
    (c : Context) (admins : List Admin) (current : Current) (after before : Option ℕ)
    (us : List User) (w : World)
    → delete_expired_users c admins current after before (us, w) ≡ (
        validate_dates c.now after before >>= λ range.
        answer c us w
          (get_expired_users_list c.now admins current (some range.0) (some range.1) us))
unfolding delete_expired_users
delete_expired_users-eq c admins current after before us w = refl

-- A deletion of expired users that is answered normally, for a range that `validate_dates`
-- accepts, returns the names of the users that the range lists, in their order, and leaves a table
-- in which the range lists nobody.
pub delete_expired_users-deletes :
    (c : Context) (admins : List Admin) (current : Current) (after before : Option ℕ) (a b : ℕ)
    (us left : List User) (w w' : World) (names : List String)
    → validate_dates c.now after before ≡ ok (a, b)
    → delete_expired_users c admins current after before (us, w) ≡ ok (names, (left, w'))
    → (names ≡ names_of (get_expired_users_list c.now admins current (some a) (some b) us))
      × (get_expired_users_list c.now admins current (some a) (some b) left ≡ [])
delete_expired_users-deletes c admins current after before a b us left w w' names v h =
    let gone = get_expired_users_list c.now admins current (some a) (some b) us in
    let step = delete_expired_users-eq c admins current after before us w in
    let done : answer c us w gone ≡ ok (names, (left, w')) =
      sym (
        step
        ∙ ap
            (λ r. r >>= λ range.
              answer c us w
                (get_expired_users_list c.now admins current (some range.0) (some range.1) us))
            v)
      ∙ h in
    let (named, after_removal) = answered c us gone left w w' names done in
    let same = get_expired_users_list-keep c.now admins current a b us in
    (
      named,
      get_expired_users_list-keep c.now admins current a b left
          ∙ ap (keep (is_listed admins current a b)) (after_removal ∙ remove_users-users gone us w)
          ∙ ap (λ gs. keep (is_listed admins current a b) (without gs us)) same
          ∙ keep-without (is_listed admins current a b) (keep (is_listed admins current a b) us) us
              (found_among (is_listed admins current a b) us),
    )
