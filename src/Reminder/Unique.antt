-- ===== src/Reminder/Unique.antt =====
-- How many reminders there are for a user, a type and a threshold.
use marzban.Common.{
  ℕ, ◌≤◌, ◌≡◌, Bool, true, Option, none, some, List, [], ◌∷◌, arith, Bool-cases, Option-cases, inl,
  inr, keep, first, drop_first, count, count-append, count-keep-le, count-drop_first-le,
  count-drop_first_self, count_of_absent,
}
use marzban.User.{ReminderType}
use marzban.World.{NotificationReminder}
use marzban.Reminder.{
  is_reminder, create_notification_reminder, reminder_expired, get_notification_reminder,
  delete_notification_reminder,
}

pub record IsUnique (table : List NotificationReminder) : Type 0 where
  pub at_most_one :
      (user_id : ℕ) (type : ReminderType) (threshold : ℕ)
      → count (is_reminder user_id type (some threshold)) table ≤ 1

IsUnique-keep :
    (p : NotificationReminder → Bool) (table : List NotificationReminder)
    → IsUnique table
    → IsUnique (keep p table)
IsUnique-keep p table h = record {
  at_most_one =
      λ u t n. omega (arith, h.at_most_one u t n, count-keep-le (is_reminder u t (some n)) p table);
}

IsUnique-drop_first :
    (p : NotificationReminder → Bool) (table : List NotificationReminder)
    → IsUnique table
    → IsUnique (drop_first p table)
IsUnique-drop_first p table h = record {
  at_most_one = λ u t n.
      omega (arith, h.at_most_one u t n, count-drop_first-le (is_reminder u t (some n)) p table);
}

module _ (now user_id : ℕ) (type : ReminderType) (n : ℕ) (table : List NotificationReminder)
    (h : IsUnique table) where
  pub IsUnique-get : IsUnique (get_notification_reminder now user_id type (some n) table).1
  unfolding get_notification_reminder
  IsUnique-get = elim (Option-cases (first (is_reminder user_id type (some n)) table)) [
    | inl e ↦ rw (e, get_notification_reminder) h
    | inr (r, e) ↦ elim (Bool-cases (reminder_expired now r)) [
      | inl x ↦ rw (e, x, get_notification_reminder) (IsUnique-drop_first _ table h)
      | inr x ↦ rw (e, x, get_notification_reminder) h
    ]
  ]

  -- Where no reminder is found, none is left in the table.
  pub count-get :
      (get_notification_reminder now user_id type (some n) table).0 ≡ none
      → count
          (is_reminder user_id type (some n))
          (get_notification_reminder now user_id type (some n) table).1
        ≡ 0
  unfolding get_notification_reminder
  count-get q = elim (Option-cases (first (is_reminder user_id type (some n)) table)) [
    | inl e ↦ rw (e, get_notification_reminder) (count_of_absent _ table e)
    | inr (r, e) ↦ elim (Bool-cases (reminder_expired now r)) [
      | inl x ↦
          rw (e, x, get_notification_reminder)
            (omega (
              arith,
              h.at_most_one user_id type n,
              count-drop_first_self (is_reminder user_id type (some n)) table,
            ))
      | inr x ↦ cc
    ]
  ]

  pub IsUnique-delete :
      (m : ℕ) → IsUnique (delete_notification_reminder user_id type (some m) table)
  unfolding delete_notification_reminder
  IsUnique-delete m = IsUnique-drop_first _ table h

-- What a new reminder adds to a count.
is_reminder_new :
    (user_id user_id' : ℕ) (type type' : ReminderType) (n n' : ℕ) (at : Option ℕ)
    → is_reminder user_id' type'
        (some n')
        (record { user_id = user_id; type = type; threshold = some n; expires_at = at })
      ≡ true
    → (user_id ≡ user_id') × (type ≡ type') × (n ≡ n')
unfolding is_reminder
is_reminder_new user_id user_id' type type' n n' at h = ground arith

pub IsUnique-create :
    (type : ReminderType) (at : Option ℕ) (user_id n : ℕ) (table : List NotificationReminder)
    → IsUnique table
    → count (is_reminder user_id type (some n)) table ≡ 0
    → IsUnique (create_notification_reminder type at user_id (some n) table)
unfolding create_notification_reminder
IsUnique-create type at user_id n table h z = record {
  at_most_one = λ u t m.
      let r : NotificationReminder = record {
        user_id = user_id;
        type = type;
        threshold = some n;
        expires_at = at;
      } in
      let p = is_reminder u t (some m) in
      rw (count-append p table (r ∷ [])) (elim (Bool-cases (p r)) [
        | inl e ↦
            let (a, b, d) = is_reminder_new user_id u type t n m at e in
            rw (e, ← a, ← b, ← d) (rw z (omega arith))
        | inr e ↦ rw e (omega (arith, h.at_most_one u t m))
      ]);
}
