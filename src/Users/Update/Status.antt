-- ===== src/Users/Update/Status.antt =====
-- The status that `update_user` leaves.
use marzban.Common.{◌⊎◌, Option-cases, inl, inr, ℕ, ◌≡◌, none, some, List, arith, String}
use marzban.User.{User, disabled}
use marzban.World.{World, Context, ok}
use marzban.Registry.{Inbound}
use marzban.Users.Update.{update_user, given}
use marzban.Users.Proxies.{NextPlanModel, UserModify}

-- The row after the changes of the limit and the expiry, of which the update keeps the columns named.
abbrev Same : User → User → Type 0
Same v x =
    (v.status ≡ x.status)
    × (v.data_limit ≡ x.data_limit)
    × (v.expire ≡ x.expire)
    × (v.used_traffic ≡ x.used_traffic)

module _ (c : Context) (reg : List Inbound) (known : List String) (m : UserModify) (u v : User)
    (w w' : World) (updated : update_user c reg known m u w ≡ ok (v, w')) where
  -- An update keeps the id, the name, the used traffic and the history of a user, and a user that
  -- it finds or makes disabled is disabled.
  pub update_user-disabled :
      given m.status u.status ≡ disabled
      → (v.id ≡ u.id)
        × (v.username ≡ u.username)
        × (v.used_traffic ≡ u.used_traffic)
        × (v.usage_logs ≡ u.usage_logs)
        × (v.status ≡ disabled)
  unfolding update_user
  update_user-disabled d = ground arith

  -- An update without a next plan deletes the plan of the user. One with a plan stores the plan,
  -- which has a data limit then.
  pub update_user-next_plan :
      ((m.next_plan ≡ none) × (v.next_plan ≡ none))
      ⊎ ((p : NextPlanModel) × (l : ℕ) × (m.next_plan ≡ some p)
          × (p.data_limit ≡ some l)
          × (v.next_plan
              ≡ some (record {
                data_limit = l;
                expire = p.expire;
                add_remaining_traffic = p.add_remaining_traffic;
                fire_on_either = p.fire_on_either;
              })))
  unfolding update_user
  update_user-next_plan = elim (Option-cases m.next_plan) [
    | inl e ↦ inl (e, ground arith)
    | inr (p, e) ↦ elim (Option-cases p.data_limit) [
      | inl f ↦ absurd (ground arith)
      | inr (l, f) ↦ inr (p, l, e, f, ground arith)
    ]
  ]
