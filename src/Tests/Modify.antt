-- ===== src/Tests/Modify.antt =====
-- A request to modify a concrete user.
use marzban.Common.{◌≡◌, ◌⊎◌, refl, true, false, none, [], ◌∷◌, ◌++◌}
use marzban.World.{World, CoreCall}
use marzban.User.{status_eq}
use marzban.Users.Update.{is_response}
use marzban.Report.{user_updated}
use marzban.Services.Users.{modify_user, is_enabled_status}
use marzban.Services.Users.Modify.{modify_user-core}
use marzban.Tests.Samples.{quiet, world, bob, registry, known}
use marzban.Tests.Users.{raise, raised}

abbrev after : World
after = record world { core = CoreCall.update_user 2 ∷ [] }

modifies : modify_user quiet registry known raise bob world ≡ (raised, after, none)
unfolding modify_user is_response status_eq user_updated
modifies = refl

modify_user-core_example :
    ((is_enabled_status raised.status ≡ true)
      × (after.core ≡ world.core ++ CoreCall.update_user raised.id ∷ []))
    ⊎ ((is_enabled_status raised.status ≡ false)
        × (after.core ≡ world.core ++ CoreCall.remove_user raised.id ∷ []))
modify_user-core_example =
    modify_user-core quiet registry known raise bob raised world after modifies
