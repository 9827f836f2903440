-- ===== src/Tests/Removal.antt =====
-- Deletions of concrete users by the handlers.
use marzban.Common.{◌*◌, ◌≡◌, refl, none, some, [], ◌∷◌, true}
use marzban.User.{User, expired, a_day}
use marzban.World.{ok}
use marzban.Admins.{Current}
use marzban.Access.{validate_dates, get_expired_users_list}
use marzban.Services.Bulk.{delete_expired_users, names_of}
use marzban.Services.Bulk.Deleted.{delete_expired_users-deletes}
use marzban.Tests.Samples.{quiet, world, alice, bob, root}

abbrev as_root : Current
as_root = record { username = "root"; is_sudo = true }

abbrev over : User
over = record bob { status = expired; expire = some 86400 }

in_range : validate_dates quiet.now (some 0) none ≡ ok (0, 100 * a_day)
unfolding validate_dates
in_range = refl

deletes :
    delete_expired_users quiet (root ∷ []) as_root (some 0) none (alice ∷ over ∷ [], world)
    ≡ ok ("bob" ∷ [], (alice ∷ [], world))
unfolding delete_expired_users
deletes = refl

delete_expired_users-deletes_example :
    ("bob" ∷ []
      ≡ names_of (
          get_expired_users_list quiet.now
            (root ∷ [])
            as_root
            (some 0)
            (some (100 * a_day))
            (alice ∷ over ∷ [])))
    × (get_expired_users_list quiet.now
          (root ∷ [])
          as_root
          (some 0)
          (some (100 * a_day))
          (alice ∷ [])
        ≡ [])
delete_expired_users-deletes_example =
    delete_expired_users-deletes quiet (root ∷ []) as_root (some 0) none 0 (100 * a_day)
      (alice ∷ over ∷ []) (alice ∷ []) world world ("bob" ∷ []) in_range deletes
