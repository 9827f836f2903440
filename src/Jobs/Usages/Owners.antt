-- ===== src/Jobs/Usages/Owners.antt =====
-- What a run charges the admins for the traffic of their users.
use marzban.Common.{
  ℕ, ◌+◌, ◌≡◌, ◌∙◌, refl, ap, none, some, List, [], ◌∷◌, ◌==◌, ltb, arith, Option-cases, Bool-cases,
  inl, inr, if◌then◌else◌,
}
use marzban.User.{User}
use marzban.Admins.{Admin}
use marzban.Table.{Rows, Rows-trans, Rows-map}
use marzban.Jobs.Usages.{
  Stat, NodeStats, users_usage, admin_of, add_to, admin_usage, charge_admin, charge_admins,
  record_user_usages, charge_users,
}
use marzban.Jobs.Usages.Totals.{total, total-add_to}

-- What one entry of the users' usage is for an admin, and what a list of them is.
abbrev pub share : List User → ℕ → Stat → ℕ
share us k s = elim (admin_of s.uid us) [
  | none ↦ 0
  | some a ↦ if ltb 0 a then (if a == k then s.value else 0) else 0
]

abbrev pub shares : List User → ℕ → List Stat → ℕ
shares us k [] = 0
shares us k (s ∷ l) = share us k s + shares us k l

total-admin_usage :
    (us : List User) (k : ℕ) (l usage : List Stat)
    → total k (admin_usage us l usage) ≡ total k usage + shares us k l
unfolding admin_usage
total-admin_usage us k [] usage = omega arith
total-admin_usage us k (s ∷ l) usage = elim (Option-cases (admin_of s.uid us)) [
  | inl e ↦ ground (arith, total-admin_usage us k l usage)
  | inr (a, e) ↦ elim (Bool-cases (ltb 0 a)) [
    | inl f ↦
        let ih = total-admin_usage us k l (add_to a s.value usage) in
        let more = total-add_to k a s.value usage in ground (arith, ih, more)
    | inr f ↦ ground (arith, total-admin_usage us k l usage)
  ]
]

abbrev pub Owes : (ℕ → ℕ) → Admin → Admin → Type 0
Owes f a b = (b.id ≡ a.id) × (b.is_sudo ≡ a.is_sudo) × (b.users_usage ≡ a.users_usage + f a.id)

charge_admin-Owes :
    (s : Stat) (l : List Admin)
    → Rows (Owes (λ k. if s.uid == k then s.value else 0)) l (charge_admin s l)
unfolding charge_admin
charge_admin-Owes s [] = tt
charge_admin-Owes s (a ∷ l) = (ground arith, charge_admin-Owes s l)

untouched : (l : List Admin) → Rows (Owes (λ k. 0)) l l
untouched [] = tt
untouched (a ∷ l) = ((refl, refl, omega arith), untouched l)

charge_admins-Owes :
    (r : List Stat) (l : List Admin) → Rows (Owes (λ k. total k r)) l (charge_admins r l)
unfolding charge_admins
charge_admins-Owes [] l = untouched l
charge_admins-Owes (s ∷ r) l =
    Rows-trans (λ a b c p q. (q.0 ∙ p.0, q.1 ∙ p.1, both a b c p q)) l (charge_admin s l) _
      (charge_admin-Owes s l) (charge_admins-Owes r (charge_admin s l))
  where
    both :
        (a b c : Admin)
        → Owes (λ k. if s.uid == k then s.value else 0) a b
        → Owes (λ k. total k r) b c
        → c.users_usage ≡ a.users_usage + total a.id (s ∷ r)
    both a b c p q = let e = ap (λ k. total k r) p.0 in omega (arith, p.2, q.2, e)

-- Each admin's usage grows by the charges of the users that have it as their admin, one entry of
-- the users' usage after the other, and nothing else of the rights and ids of admins changes.
pub record_user_usages-Owes :
    (now : ℕ) (nodes : List NodeStats) (us : List User) (admins : List Admin)
    → Rows
        (Owes (λ k. shares us k (users_usage nodes [])))
        admins
        (record_user_usages now nodes us admins).1
unfolding record_user_usages
record_user_usages-Owes now nodes us admins = go (users_usage nodes [])
  where
    go :
        (l : List Stat)
        → Rows
            (Owes (λ k. shares us k l))
            admins
            (elim l as (λ _. List User × List Admin) [
              | [] ↦ (us, admins)
              | s ∷ r ↦
                  (charge_users now (s ∷ r) us, charge_admins (admin_usage us (s ∷ r) []) admins)
            ]).1
    go [] = untouched admins
    go (s ∷ r) =
        Rows-map (λ a b q. (q.0, q.1, omega (arith, q.2, total-admin_usage us a.id (s ∷ r) [])))
          admins _ (charge_admins-Owes (admin_usage us (s ∷ r) []) admins)
