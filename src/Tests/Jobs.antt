-- ===== src/Tests/Jobs.antt =====
-- The jobs that reset usage, record usage and send notifications, on concrete tables.
use marzban.Common.{ℕ, ◌*◌, ◌+◌, ◌*◌, ◌≡◌, String, Bool, none, List, [], ◌∷◌, false, All, arith}
use marzban.User.{User}
use marzban.World.{Notification, NotificationType}
use marzban.Table.{Rows}
use marzban.Jobs.ResetUsage.{run_resets}
use marzban.Jobs.ResetUsage.Renewal.{Renewed, run_resets-Renewed}
use marzban.Jobs.Usages.{NodeStats, record_user_usages}
use marzban.Jobs.Usages.Totals.{Charged, charged, record_user_usages-Charged}
use marzban.World.{NodeUserUsage}
use marzban.Jobs.Usages.{users_usage}
use marzban.Jobs.Usages.Owners.{Owes, shares, record_user_usages-Owes}
use marzban.Jobs.Webhooks.{send_notifications}
use marzban.Jobs.Webhooks.Drain.{IsWaiting, Leaves, send_notifications_due}
use marzban.Tests.Samples.{context, settings, world, alice, bob, carol, root}

abbrev table : List User
table = alice ∷ bob ∷ carol ∷ []

run_resets-Renewed_example :
    ((run_resets context.now table world).2 ≡ none)
    × Rows (Renewed context.now) table (run_resets context.now table world).0
run_resets-Renewed_example = run_resets-Renewed context.now table world

abbrev nodes : List NodeStats
nodes =
    record {
      node_id = 1;
      stats = record { uid = 1; value = 5 } ∷ record { uid = 1; value = 7 } ∷ [];
      charge = λ n. 2 * n;
    }
    ∷ record { node_id = 2; stats = record { uid = 2; value = 9 } ∷ []; charge = λ n. n }
    ∷ []

record_user_usages-Charged_example :
    Rows
      (Charged (λ k. charged k nodes))
      table
      (record_user_usages context.now nodes table (root ∷ [])).0
record_user_usages-Charged_example = record_user_usages-Charged context.now nodes table (root ∷ [])

abbrev message : Notification
message = record {
  action = NotificationType.user_created;
  username = "alice";
  send_at = 5;
  tries = 0;
}

-- A clock that has passed the time of the message, and a webhook that refuses it.
abbrev clock : ℕ → ℕ
clock i = 10 + i

abbrev refuses : String → List Notification → Bool
refuses url l = false

send_notifications_due_example :
    Leaves (All (IsWaiting settings)) (send_notifications clock refuses settings 2 (message ∷ []))
send_notifications_due_example =
    send_notifications_due clock refuses settings 2 (message ∷ []) (omega arith) (λ e. cc)
      (λ j. omega arith, tt)

abbrev later : Notification
later = record message { send_at = 1000; tries = 1 }

abbrev no_rows : List NodeUserUsage
no_rows = []

record_user_usages-Owes_example :
    Rows
      (Owes (λ k. shares table k (users_usage nodes [])))
      (root ∷ [])
      (record_user_usages context.now nodes table (root ∷ [])).1
record_user_usages-Owes_example = record_user_usages-Owes context.now nodes table (root ∷ [])
