-- ===== src/Users/Bulk/Autodelete.antt =====
-- What `autodelete_expired_users` deletes, and what it leaves.
use marzban.Common.{
  ℕ, ◌≡◌, refl, ap, ◌∙◌, sym, Bool, true, false, not, List, [], ◌∷◌, arith, keep, any_of, All,
  everywhere, ◌==◌, ◌↔◌, ◌⊎◌, ◌+◌, ◌*◌, ◌≤◌, leb, leb→le, le→leb, none, some, Bool-cases,
  Option-cases, inl, inr,
}
use marzban.Common.Int.{ℤ, pos, negsuc}
use marzban.User.{User, expired, limited, a_day}
use marzban.World.{World, NotificationReminder, ok, err, Result-cases, ◌>>=◌}
use marzban.Users.Bulk.{
  remove_users, is_target, auto_delete, autodelete_due, autodelete_list, autodelete_expired_users,
}

-- The users that a run finds due.
abbrev pub is_gone : ℕ → ℤ → Bool → User → Bool
is_gone now default_days limited_too u = elim (autodelete_due now default_days limited_too u) [
  | ok due ↦ due
  | err e ↦ false
]

autodelete_list-keep :
    (now : ℕ) (default_days : ℤ) (limited_too : Bool) (us gone : List User)
    → autodelete_list now default_days limited_too us ≡ ok gone
    → gone ≡ keep (is_gone now default_days limited_too) us
unfolding autodelete_list
autodelete_list-keep now default_days limited_too [] gone h = cc
autodelete_list-keep now default_days limited_too (u ∷ us) gone h =
    elim (Result-cases (autodelete_due now default_days limited_too u)) [
      | inr (e, x) ↦ absurd (ground arith)
      | inl (due, x) ↦ elim (Result-cases (autodelete_list now default_days limited_too us)) [
        | inr (e, y) ↦ absurd (ground arith)
        | inl (others, y) ↦
            let ih = autodelete_list-keep now default_days limited_too us others y in ground arith
      ]
    ]

-- The statuses that a run deletes: expired, and limited where that is asked for.
abbrev pub Ended : Bool → User → Type 0
Ended limited_too u = (u.status ≡ expired) ⊎ ((limited_too ≡ true) × (u.status ≡ limited))

-- A user whose days, its own or else those of the settings, are not negative and have passed since its
-- status changed.
abbrev pub IsDue : ℕ → ℤ → Bool → User → Type 0
IsDue now default_days limited_too u =
    Ended limited_too u
    × ((d : ℕ) × (t : ℕ) × ((u.auto_delete_in_days ≡ some (pos d))
          ⊎ ((u.auto_delete_in_days ≡ none) × (default_days ≡ pos d)))
        × (u.last_status_change ≡ some t)
        × (t + d * a_day ≤ now))

is_target-Ended :
    (limited_too : Bool) (u : User) → (is_target limited_too u ≡ true) ↔ Ended limited_too u
is_target-Ended limited_too u = (λ h. ground arith, λ h. ground arith)

ℤ-cases : (z : ℤ) → ((d : ℕ) × (z ≡ pos d)) ⊎ ((n : ℕ) × (z ≡ negsuc n))
ℤ-cases (pos d) = inl (d, refl)
ℤ-cases (negsuc n) = inr (n, refl)

auto_delete-given :
    (default_days : ℤ) (u : User) (d : ℕ)
    → (auto_delete default_days u ≡ pos d) ↔ (
        (u.auto_delete_in_days ≡ some (pos d))
        ⊎ ((u.auto_delete_in_days ≡ none) × (default_days ≡ pos d)))
auto_delete-given default_days u d = (λ h. ground arith, λ h. ground arith)

due_when :
    (now : ℕ) (default_days : ℤ) (limited_too : Bool) (u : User) (d t : ℕ)
    → is_target limited_too u ≡ true
    → auto_delete default_days u ≡ pos d
    → u.last_status_change ≡ some t
    → is_gone now default_days limited_too u ≡ leb (t + d * a_day) now
unfolding autodelete_due
due_when now default_days limited_too u d t a b e = ground arith

is_gone-IsDue :
    (now : ℕ) (default_days : ℤ) (limited_too : Bool) (u : User)
    → (is_gone now default_days limited_too u ≡ true) ↔ IsDue now default_days limited_too u
unfolding autodelete_due
is_gone-IsDue now default_days limited_too u = (
  (λ h. elim (Bool-cases (is_target limited_too u)) [
    | inr a ↦ absurd (ground arith)
    | inl a ↦ elim (ℤ-cases (auto_delete default_days u)) [
      | inr (n, b) ↦ absurd (ground arith)
      | inl (d, b) ↦ elim (Option-cases u.last_status_change) [
        | inl e ↦ absurd (ground arith)
        | inr (t, e) ↦ (
          (is_target-Ended limited_too u).0 a,
          (
            d,
            t,
            (auto_delete-given default_days u d).0 b,
            e,
            leb→le _ _ (sym (due_when now default_days limited_too u d t a b e) ∙ h),
          ),
        )
      ]
    ]
  ]),
  (λ (x, (d, t, b, e, le)).
      due_when now default_days limited_too u d t ((is_target-Ended limited_too u).1 x)
        ((auto_delete-given default_days u d).1 b) e
      ∙ le→leb _ _ le),
)

abbrev pub same_id : ℕ → User → Bool
same_id id g = g.id == id

module _ {ℓ} {A : Type ℓ} (id_of : A → ℕ) where
  keep-keep :
      (g : User) (gs : List User) (xs : List A)
      → keep (λ x. not (any_of (same_id (id_of x)) gs)) (keep (λ x. not (id_of x == g.id)) xs)
        ≡ keep (λ x. not (any_of (same_id (id_of x)) (g ∷ gs))) xs
  keep-keep g gs [] = refl
  keep-keep g gs (x ∷ xs) = ground (arith, keep-keep g gs xs)

abbrev pub without : List User → List User → List User
without gs us = keep (λ v. not (any_of (same_id v.id) gs)) us

abbrev pub forgotten : List User → List NotificationReminder → List NotificationReminder
forgotten gs table = keep (λ r. not (any_of (same_id r.user_id) gs)) table

keep_all : {A : Type 0} (xs : List A) → keep (λ x. true) xs ≡ xs
keep_all [] = refl
keep_all (x ∷ xs) = ap (λ l. x ∷ l) (keep_all xs)

pub remove_users-users :
    (gs us : List User) (w : World) → (remove_users gs (us, w)).0 ≡ without gs us
unfolding remove_users
remove_users-users [] us w = sym (keep_all us)
remove_users-users (g ∷ gs) us w = remove_users-users gs _ _ ∙ keep-keep (λ v. v.id) g gs us

remove_users-reminders :
    (gs us : List User) (w : World)
    → (remove_users gs (us, w)).1.reminders ≡ forgotten gs w.reminders
unfolding remove_users
remove_users-reminders [] us w = sym (keep_all w.reminders)
remove_users-reminders (g ∷ gs) us w =
    remove_users-reminders gs _ _ ∙ keep-keep (λ r. r.user_id) g gs w.reminders

pub remove_users-core : (gs us : List User) (w : World) → (remove_users gs (us, w)).1.core ≡ w.core
unfolding remove_users
remove_users-core [] us w = refl
remove_users-core (g ∷ gs) us w = remove_users-core gs _ _

autodelete-eq :
    (now : ℕ) (default_days : ℤ) (limited_too : Bool) (us : List User) (w : World)
    → autodelete_expired_users now default_days limited_too (us, w) ≡ (
        autodelete_list now default_days limited_too us >>= λ gone.
        ok (gone, remove_users gone (us, w)))
unfolding autodelete_expired_users
autodelete-eq now default_days limited_too us w = refl

autodelete-ran :
    (now : ℕ) (default_days : ℤ) (limited_too : Bool) (us gone : List User) (w : World)
    (s : List User × World)
    → autodelete_expired_users now default_days limited_too (us, w) ≡ ok (gone, s)
    → (autodelete_list now default_days limited_too us ≡ ok gone) × (s ≡ remove_users gone (us, w))
autodelete-ran now default_days limited_too us gone w s h =
    let step = autodelete-eq now default_days limited_too us w in
    elim (Result-cases (autodelete_list now default_days limited_too us)) [
      | inr (e, x) ↦ absurd (ground arith)
      | inl (l, x) ↦ (ground arith, ground arith)
    ]

-- A run that ends normally deletes the users that are due and no others, in the order of the
-- table, and with them their reminders; it makes no call to the core. A user is due if it is expired,
-- or limited where that is asked for, and its own days, or else those of the settings, are not negative
-- and have passed since its status changed.
pub autodelete_expired_users-deletes :
    (now : ℕ) (default_days : ℤ) (limited_too : Bool) (us gone left : List User) (w w' : World)
    → autodelete_expired_users now default_days limited_too (us, w) ≡ ok (gone, (left, w'))
    → (gone ≡ keep (is_gone now default_days limited_too) us)
      × All
          (λ u.
            (is_gone now default_days limited_too u ≡ true) ↔ IsDue now default_days limited_too u)
          us
      × (left ≡ without gone us)
      × (w'.reminders ≡ forgotten gone w.reminders)
      × (w'.core ≡ w.core)
autodelete_expired_users-deletes now default_days limited_too us gone left w w' h =
    let (found, after) = autodelete-ran now default_days limited_too us gone w (left, w') h in
    (
      autodelete_list-keep now default_days limited_too us gone found,
      everywhere _ (is_gone-IsDue now default_days limited_too) us,
      ap (λ s. s.0) after ∙ remove_users-users gone us w,
      ap (λ s. s.1.reminders) after ∙ remove_users-reminders gone us w,
      ap (λ s. s.1.core) after ∙ remove_users-core gone us w,
    )
