-- ===== src/Services/Users/Modify.antt =====
-- What `modify_user` of app/services/user_service.py tells the core.
use marzban.Common.{
  ℕ, ◌≡◌, ◌⊎◌, inl, inr, refl, sym, ap, ◌∙◌, String, true, false, Option, none, some, List, [], ◌∷◌,
  ◌++◌, arith, Bool-cases, if◌then◌else◌,
}
use marzban.User.{User, UserStatus, status_eq}
use marzban.World.{World, Context, CoreCall, call, Fault, value_error, Result, ok, err, ◌>>=◌}
use marzban.Registry.{Inbound}
use marzban.Report.{user_updated, status_change}
use marzban.Users.Proxies.{UserModify}
use marzban.Users.Limits.{set_data_limit, set_expire}
use marzban.Users.Update.{update_user, is_response}
use marzban.Services.Users.{
  check_modify_proxies, validate_user_modify_inbounds, bad_request, modify_user, is_enabled_status,
}

core-set_data_limit :
    (c : Context) (o : Option ℕ) (s : User × World) → (set_data_limit c o s).1.core ≡ s.1.core
unfolding set_data_limit
core-set_data_limit c none s = refl
core-set_data_limit c (some n) s = ground arith

core-set_expire :
    (c : Context) (o : Option ℕ) (s : User × World) → (set_expire c o s).1.core ≡ s.1.core
unfolding set_expire
core-set_expire c none s = refl
core-set_expire c (some n) s = ground arith

core-update_user :
    (c : Context) (reg : List Inbound) (known : List String) (m : UserModify) (u v : User)
    (w w' : World)
    → update_user c reg known m u w ≡ ok (v, w')
    → w'.core ≡ w.core
unfolding update_user
core-update_user c reg known m u v w w' h = ground arith

core-user_updated :
    (c : Context) (name : String) (w : World) → (user_updated c name w).core ≡ w.core
unfolding user_updated
core-user_updated c name w = ground arith

core-status_change :
    (c : Context) (name : String) (s : UserStatus) (w : World)
    → (status_change c name s w).core ≡ w.core
unfolding status_change
core-status_change c name s w = ground arith

abbrev task : User → CoreCall
task v = if is_enabled_status v.status then CoreCall.update_user v.id else CoreCall.remove_user v.id

abbrev told : Context → User → User → World → World
told c u v w =
    let updated = user_updated c v.username (call (task v) w) in
    if status_eq v.status u.status then updated else status_change c v.username v.status updated

abbrev reply : Context → User → World → Result (User × World) → User × World × Option Fault
reply c u w (err e) = (u, w, some e)
reply c u w (ok (v, w')) =
    if is_response c v then (v, told c u v w', none) else (v, w', some value_error)

core-told : (c : Context) (u v : User) (w : World) → (told c u v w).core ≡ w.core ++ task v ∷ []
core-told c u v w =
    let updated = core-user_updated c v.username (call (task v) w) in
    elim (Bool-cases (status_eq v.status u.status)) [
      | inl e ↦ rw e updated
      | inr e ↦ rw e (core-status_change c v.username v.status _ ∙ updated)
    ]

bind-ok :
    {A B : Type 0} (r : Result A) (f : A → Result B) (b : B)
    → (r >>= f) ≡ ok b
    → (a : A) × (f a ≡ ok b)
bind-ok (ok a) f b h = (a, h)
bind-ok (err e) f b h = absurd (ground arith)

impossible_fault : {f : Fault} → ¬ (some f ≡ none)
impossible_fault e = cc

answered :
    (c : Context) (u v : User) (w w' : World) (r : Result (User × World))
    → ((x : User) (y : World) → r ≡ ok (x, y) → y.core ≡ w.core)
    → reply c u w r ≡ (v, w', none)
    → w'.core ≡ w.core ++ task v ∷ []
answered c u v w w' (err e) k h = absurd (ground arith)
answered c u v w w' (ok (x, y)) k h = elim (Bool-cases (is_response c x)) [
  | inl e ↦
      let ran = rw e at h in
      let same : (v ≡ x) × (w' ≡ told c u x y) =
        (sym (ap (λ t. t.0) ran), sym (ap (λ t. t.1) ran)) in
      let kept = k x y refl in
      let done = core-told c u x y in rw (same.1, same.0) (done ∙ ap (λ l. l ++ task x ∷ []) kept)
  | inr e ↦ absurd (impossible_fault (ap (λ t. t.2) (rw e at h)))
]

modify_user-eq :
    (c : Context) (reg : List Inbound) (known : List String) (m : UserModify) (u : User) (w : World)
    → modify_user c reg known m u w
      ≡ reply c u w (
          bad_request (check_modify_proxies reg m >>= λ _. validate_user_modify_inbounds reg m)
          >>= λ m'. update_user c reg known m' u w)
unfolding modify_user
modify_user-eq c reg known m u w = refl

-- A request to modify a user that is answered normally makes one call to the core: an update if
-- the user is active or on hold afterwards, and a removal if not.
pub modify_user-core :
    (c : Context) (reg : List Inbound) (known : List String) (m : UserModify) (u v : User)
    (w w' : World)
    → modify_user c reg known m u w ≡ (v, w', none)
    → ((is_enabled_status v.status ≡ true) × (w'.core ≡ w.core ++ CoreCall.update_user v.id ∷ []))
      ⊎ ((is_enabled_status v.status ≡ false)
          × (w'.core ≡ w.core ++ CoreCall.remove_user v.id ∷ []))
modify_user-core c reg known m u v w w' h =
    let checked =
      bad_request (check_modify_proxies reg m >>= λ _. validate_user_modify_inbounds reg m) in
    let asked = checked >>= λ m'. update_user c reg known m' u w in
    let one_call =
      answered c u v w w' asked
        (λ x y e.
          let (m', f) = bind-ok checked (λ k. update_user c reg known k u w) (x, y) e in
          core-update_user c reg known m' u x w y f)
        (sym (modify_user-eq c reg known m u w) ∙ h) in
    elim (Bool-cases (is_enabled_status v.status)) [
      | inl e ↦ inl (e, one_call ∙ rw e refl)
      | inr e ↦ inr (e, one_call ∙ rw e refl)
    ]
