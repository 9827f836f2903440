-- ===== src/Services/Users/NextPlan.antt =====
-- `active_next_plan` of app/services/user_service.py.
use marzban.Common.{◌≡◌, ◌≢◌, none, some, arith}
use marzban.Common.Int.{ℤ}
use marzban.User.{User, NextPlan, active}
use marzban.World.{World, Context, http, ok}
use marzban.Users.Reset.{next_data_limit}
use marzban.Services.Users.{active_next_plan}

-- No request for the next plan is answered normally, whatever the user.
pub active_next_plan-fails :
    (c : Context) (u : User) (w : World) → (active_next_plan c u w).2 ≢ none
unfolding active_next_plan
active_next_plan-fails c u w h = ground arith

-- Where the user has a plan of which the limit can be computed, the plan takes effect and is gone,
-- the reply is a 404 that says that the user has no plan, and the core is not told.
pub active_next_plan-not_found :
    (c : Context) (u : User) (w : World) (plan : NextPlan) (l : ℤ)
    → u.next_plan ≡ some plan
    → next_data_limit u plan ≡ ok l
    → let r = active_next_plan c u w in
      (r.2 ≡ some (http 404 "User doesn't have next plan"))
      × (r.0.used_traffic ≡ 0)
      × (r.0.status ≡ active)
      × (r.0.data_limit ≡ some l)
      × (r.0.expire ≡ plan.expire)
      × (r.0.next_plan ≡ none)
      × (r.1.core ≡ w.core)
unfolding active_next_plan
active_next_plan-not_found c u w plan l p q = ground arith
