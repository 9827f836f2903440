-- ===== src/Jobs/Webhooks.antt =====
-- app/jobs/send_notifications.py: the queue of notifications and their delivery to the webhooks.
-- The clock is read anew for each notification, so it is a function of the number of the reading.
-- What a webhook answers is a parameter: `send_req` turns every exception into `False`.
pub mod Drain
use marzban.Common.{
  ℕ, zero, suc, ◌+◌, ◌*◌, String, Bool, true, false, List, [], ◌∷◌, ◌++◌, ltb, any_of,
  if◌then◌else◌,
}
use marzban.Settings.{RuntimeSettings}
use marzban.User.{second}
use marzban.World.{Notification}

-- The state of the `while` loop: it ends when the deque is empty, with what it collected.
pub data Drained : Type 0 where
  finished : ℕ → List Notification → Drained
  running : Drained

-- The loop, for a number of rounds. The branches are bound, so that only one is computed.
unfoldable pub drain : (ℕ → ℕ) → ℕ → ℕ → ℕ → List Notification → List Notification → Drained
drain clock max_tries zero i queue sending = running
drain clock max_tries (suc rounds) i [] sending = finished i sending
drain clock max_tries (suc rounds) i (n ∷ queue) sending =
    let given_up = drain clock max_tries rounds i queue sending in
    let not_due = drain clock max_tries rounds (i + 1) (queue ++ n ∷ []) sending in
    let due = drain clock max_tries rounds (i + 1) queue (sending ++ n ∷ []) in
    if ltb max_tries n.tries then given_up else if ltb (clock i) n.send_at then not_due else due

-- `True in result_list`: every webhook is tried, and one answer is enough.
unfoldable pub send : (String → List Notification → Bool) → List String → List Notification → Bool
send send_req [] notifications = false
send send_req (a ∷ l) notifications = any_of (λ w. send_req w notifications) (a ∷ l)

-- The notifications that get another try, each a number of seconds after its reading of the clock.
unfoldable pub retry : (ℕ → ℕ) → RuntimeSettings → ℕ → List Notification → List Notification
retry clock settings i [] = []
retry clock settings i (n ∷ l) =
    let dropped = retry clock settings i l in
    let again =
      record n {
        tries = n.tries + 1;
        send_at = clock i + settings.recurrent_notifications_timeout * second;
      }
      ∷ retry clock settings (i + 1) l in
    if ltb settings.number_of_recurrent_notifications (n.tries + 1) then dropped else again

-- The queue after a run whose loop takes at most so many rounds. `running`: it has not ended.
unfoldable pub deliver :
    (ℕ → ℕ) → (String → List Notification → Bool) → RuntimeSettings → Drained → Drained
unfolding send retry
deliver clock send_req settings running = running
deliver clock send_req settings (finished i []) = finished i []
deliver clock send_req settings (finished i (n ∷ l)) =
    if send send_req settings.webhook_addresses (n ∷ l)
    then finished i []
    else finished i (retry clock settings i (n ∷ l))

unfoldable pub send_notifications :
    (ℕ → ℕ)
    → (String → List Notification → Bool)
    → RuntimeSettings
    → ℕ
    → List Notification
    → Drained
unfolding drain deliver
send_notifications clock send_req settings rounds [] = finished 0 []
send_notifications clock send_req settings rounds (n ∷ queue) = elim settings.webhook_addresses [
  | [] ↦ finished 0 (n ∷ queue)
  | a ∷ l ↦
      deliver clock send_req settings
        (drain clock settings.number_of_recurrent_notifications rounds 0 (n ∷ queue) [])
]
