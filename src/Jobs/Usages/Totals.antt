-- ===== src/Jobs/Usages/Totals.antt =====
-- What a run charges, user by user.
use marzban.Common.{
  ℕ, ◌+◌, ◌≡◌, refl, ap, ◌∙◌, List, [], ◌∷◌, arith, ◌==◌, ltb, if◌then◌else◌, Bool-cases, inl, inr,
  count, All, ◌≤◌, ◌<◌,
}
use native.Mathlib.Nat.{add-zero, zero-add}
use marzban.User.{User}
use marzban.Table.{Rows, Rows-trans, Rows-map}
use marzban.Admins.{Admin}
use marzban.Jobs.Usages.{
  Stat, NodeStats, add_to, get_users_stats, charge_all, users_usage, charge_user, charge_users,
  record_user_usages, charge_admins, admin_usage,
}

-- What a list of entries holds for one id, all entries of the id together.
abbrev pub total : ℕ → List Stat → ℕ
total uid [] = 0
total uid (s ∷ l) = (if s.uid == uid then s.value else 0) + total uid l

pub total-add_to :
    (k uid v : ℕ) (l : List Stat)
    → total k (add_to uid v l) ≡ total k l + (if uid == k then v else 0)
unfolding add_to
total-add_to k uid v [] = ground arith
total-add_to k uid v (s ∷ l) = ground (arith, total-add_to k uid v l)

total-get_users_stats :
    (k : ℕ) (params stats : List Stat)
    → total k (get_users_stats params stats) ≡ total k params + total k stats
unfolding get_users_stats
total-get_users_stats k params [] = omega arith
total-get_users_stats k params (s ∷ l) = ground (
  arith,
  total-get_users_stats k (add_to s.uid s.value params) l,
  total-get_users_stats k params l,
  total-add_to k s.uid s.value params,
)

-- One entry for an id, and none that is 0.
abbrev IsSummed : List Stat → Type 0
IsSummed l = ((k : ℕ) → count (λ s. s.uid == k) l ≤ 1) × All (λ s. 0 < s.value) l

count-add_to :
    (k uid v : ℕ) (l : List Stat)
    → count (λ s. s.uid == k) l ≤ 1
    → count (λ s. s.uid == k) (add_to uid v l) ≡ (if uid == k then 1 else count (λ s. s.uid == k) l)
unfolding add_to
count-add_to k uid v [] h = ground arith
count-add_to k uid v (s ∷ l) h = ground (arith, count-add_to k uid v l)

positive-add_to :
    (uid v : ℕ) (l : List Stat)
    → 0 < v
    → All (λ s. 0 < s.value) l
    → All (λ s. 0 < s.value) (add_to uid v l)
unfolding add_to
positive-add_to uid v [] p h = (p, tt)
positive-add_to uid v (s ∷ l) p h = elim (Bool-cases (s.uid == uid)) [
  | inl e ↦ rw e (omega arith, h.1)
  | inr e ↦ rw e (h.0, positive-add_to uid v l p h.1)
]

get_users_stats-IsSummed :
    (params stats : List Stat) → IsSummed params → IsSummed (get_users_stats params stats)
unfolding get_users_stats
get_users_stats-IsSummed params [] h = h
get_users_stats-IsSummed params (s ∷ l) h = elim (Bool-cases (ltb 0 s.value)) [
  | inl e ↦ rw e (
      get_users_stats-IsSummed (add_to s.uid s.value params) l (
        λ k. ground (arith, count-add_to k s.uid s.value params, h.0 k),
        positive-add_to s.uid s.value params (ground arith) h.1,
      ))
  | inr e ↦ rw e (get_users_stats-IsSummed params l h)
]

-- What a node charges a user for the sum of the user's counters on it.
abbrev pub charged_by : ℕ → NodeStats → ℕ
charged_by uid n = if total uid n.stats == 0 then 0 else n.charge (total uid n.stats)

abbrev pub charged : ℕ → List NodeStats → ℕ
charged uid [] = 0
charged uid (n ∷ nodes) = charged_by uid n + charged uid nodes

-- The same for a list of entries, one by one.
abbrev pub each : (ℕ → ℕ) → ℕ → List Stat → ℕ
each f k [] = 0
each f k (s ∷ l) = (if s.uid == k then f s.value else 0) + each f k l

none_of :
    (f : ℕ → ℕ) (k : ℕ) (l : List Stat)
    → count (λ s. s.uid == k) l ≡ 0
    → (each f k l ≡ 0) × (total k l ≡ 0)
none_of f k [] h = (refl, refl)
none_of f k (s ∷ l) h = ground (arith, none_of f k l)

each_summed :
    (f : ℕ → ℕ) (k : ℕ) (l : List Stat)
    → IsSummed l
    → each f k l ≡ (if total k l == 0 then 0 else f (total k l))
each_summed f k [] h = refl
each_summed f k (s ∷ l) h = elim (Bool-cases (s.uid == k)) [
  | inl e ↦
      let (a, b) = none_of f k l (ground (arith, h.0 k)) in
      rw (e, a, b, add-zero, add-zero) (ground (arith, h.1.0))
  | inr e ↦ rw (e, zero-add, zero-add) (each_summed f k l (λ j. ground (arith, h.0 j), h.1.1))
]

total-charge_all :
    (f : ℕ → ℕ) (k : ℕ) (l usage : List Stat)
    → total k (charge_all f l usage) ≡ total k usage + each f k l
unfolding charge_all
total-charge_all f k [] usage = omega arith
total-charge_all f k (s ∷ l) usage = ground (
  arith,
  total-charge_all f k l (add_to s.uid (f s.value) usage),
  total-add_to k s.uid (f s.value) usage,
)

each_of_node :
    (k : ℕ) (n : NodeStats) → each n.charge k (get_users_stats [] n.stats) ≡ charged_by k n
each_of_node k n =
    let same : total k (get_users_stats [] n.stats) ≡ total k n.stats =
      omega (arith, total-get_users_stats k [] n.stats) in
    rw same at (
      each_summed n.charge k (get_users_stats [] n.stats)
        (get_users_stats-IsSummed [] n.stats (λ j. omega arith, tt)))

total-users_usage :
    (k : ℕ) (nodes : List NodeStats) (usage : List Stat)
    → total k (users_usage nodes usage) ≡ total k usage + charged k nodes
unfolding users_usage
total-users_usage k [] usage = omega arith
total-users_usage k (n ∷ nodes) usage =
    let params = get_users_stats [] n.stats in
    omega (
      arith,
      total-users_usage k nodes (charge_all n.charge params usage),
      total-charge_all n.charge k params usage,
      each_of_node k n,
    )

abbrev pub Charged : (ℕ → ℕ) → User → User → Type 0
Charged f u v = (v.id ≡ u.id) × (v.status ≡ u.status) × (v.used_traffic ≡ u.used_traffic + f u.id)

charge_user-Charged :
    (now : ℕ) (s : Stat) (us : List User)
    → Rows (Charged (λ k. if s.uid == k then s.value else 0)) us (charge_user now s us)
unfolding charge_user
charge_user-Charged now s [] = tt
charge_user-Charged now s (u ∷ us) = (ground arith, charge_user-Charged now s us)

unchanged : (us : List User) → Rows (Charged (λ k. 0)) us us
unchanged [] = tt
unchanged (u ∷ us) = ((refl, refl, omega arith), unchanged us)

charge_users-Charged :
    (now : ℕ) (l : List Stat) (us : List User)
    → Rows (Charged (λ k. total k l)) us (charge_users now l us)
unfolding charge_users
charge_users-Charged now [] us = unchanged us
charge_users-Charged now (s ∷ l) us =
    Rows-trans (λ a b c p q. (q.0 ∙ p.0, q.1 ∙ p.1, both a b c p q)) us (charge_user now s us) _
      (charge_user-Charged now s us) (charge_users-Charged now l (charge_user now s us))
  where
    both :
        (a b c : User)
        → Charged (λ k. if s.uid == k then s.value else 0) a b
        → Charged (λ k. total k l) b c
        → c.used_traffic ≡ a.used_traffic + total a.id (s ∷ l)
    both a b c p q = let e = ap (λ k. total k l) p.0 in omega (arith, p.2, q.2, e)

-- Each user's used traffic grows by what the nodes together charge for the user, where a node
-- charges for the sum of its counters of the user's id, and the id and the status stay.
pub record_user_usages-Charged :
    (now : ℕ) (nodes : List NodeStats) (us : List User) (admins : List Admin)
    → Rows (Charged (λ k. charged k nodes)) us (record_user_usages now nodes us admins).0
unfolding record_user_usages
record_user_usages-Charged now nodes us admins =
    go (users_usage nodes []) (λ k. total-users_usage k nodes [])
  where
    go :
        (l : List Stat)
        → ((k : ℕ) → total k l ≡ 0 + charged k nodes)
        → Rows
            (Charged (λ k. charged k nodes))
            us
            (elim l as (λ _. List User × List Admin) [
              | [] ↦ (us, admins)
              | s ∷ r ↦
                  (charge_users now (s ∷ r) us, charge_admins (admin_usage us (s ∷ r) []) admins)
            ]).0
    go [] e = Rows-map (λ a b q. (q.0, q.1, omega (arith, q.2, e a.id))) us us (unchanged us)
    go (s ∷ r) e =
        Rows-map (λ a b q. (q.0, q.1, omega (arith, q.2, e a.id))) us _
          (charge_users-Charged now (s ∷ r) us)
