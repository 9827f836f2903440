-- ===== src/Jobs/Webhooks/Drain.antt =====
-- When the loop over the queue ends, what it collects, and what keeps it running.
use mathlib.Core.List.{append-nil, append_assoc}
use marzban.Common.{
  ℕ, zero, suc, ◌+◌, ◌≤◌, ◌<◌, ◌≡◌, ◌≢◌, refl, Bool, String, List, [], ◌∷◌, ◌++◌, arith, ltb, leb,
  Bool-cases, inl, inr, length, keep, All,
}
use marzban.Settings.{RuntimeSettings}
use marzban.World.{Notification}
use marzban.Jobs.Webhooks.{
  Drained, finished, running, drain, deliver, retry, send, send_notifications,
}

abbrev pub tries_left : ℕ → Notification → Bool
tries_left max_tries n = leb n.tries max_tries

module _ (clock : ℕ → ℕ) (max_tries : ℕ) where
  -- A queue in which everything is due is emptied in as many rounds as it has notifications.
  pub drain_due :
      (rounds i : ℕ) (queue sending : List Notification)
      → length queue < rounds
      → All (λ n. (j : ℕ) → n.send_at ≤ clock j) queue
      → (k : ℕ) × (drain clock max_tries rounds i queue sending
          ≡ finished k (sending ++ keep (tries_left max_tries) queue))
  unfolding drain
  drain_due zero i queue sending h d = absurd (omega arith)
  drain_due (suc rounds) i [] sending h d = (i, rw append-nil)
  drain_due (suc rounds) i (n ∷ queue) sending h d = elim (Bool-cases (ltb max_tries n.tries)) [
    | inl e ↦
        let (k, r) = drain_due rounds i queue sending (omega arith) d.1 in (k, ground (arith, r))
    | inr e ↦
        let (k, r) = drain_due rounds (i + 1) queue (sending ++ n ∷ []) (omega arith) d.1 in
        (
          k,
          ground
              (arith, d.0 i, r, append_assoc sending (n ∷ []) (keep (tries_left max_tries) queue)),
        )
  ]

  -- A notification that is not due at the readings of the clock keeps the loop running.
  pub drain_not_due :
      (rounds i : ℕ) (pre : List Notification) (n : Notification) (post sending : List Notification)
      → n.tries ≤ max_tries
      → ((j : ℕ) → j < i + rounds → clock j < n.send_at)
      → drain clock max_tries rounds i (pre ++ n ∷ post) sending ≡ running
  unfolding drain
  drain_not_due zero i pre n post sending t d = refl
  drain_not_due (suc rounds) i [] n post sending t d = ground (
    arith,
    d i (omega arith),
    drain_not_due rounds (i + 1) post n [] sending t (λ j h. d j (omega arith)),
  )
  drain_not_due (suc rounds) i (m ∷ pre) n post sending t d = ground (
    arith,
    drain_not_due rounds i pre n post sending t (λ j h. d j (omega arith)),
    drain_not_due rounds (i + 1) pre n (post ++ m ∷ []) sending t (λ j h. d j (omega arith)),
    drain_not_due rounds (i + 1) pre n post (sending ++ m ∷ []) t (λ j h. d j (omega arith)),
    append_assoc pre (n ∷ post) (m ∷ []),
  )

-- The notifications that wait for another try.
abbrev pub IsWaiting : RuntimeSettings → Notification → Type 0
IsWaiting settings n = (1 ≤ n.tries) × (n.tries ≤ settings.number_of_recurrent_notifications)

retry-IsWaiting :
    (clock : ℕ → ℕ) (settings : RuntimeSettings) (i : ℕ) (l : List Notification)
    → All (IsWaiting settings) (retry clock settings i l)
unfolding retry
retry-IsWaiting clock settings i [] = tt
retry-IsWaiting clock settings i (n ∷ l) =
    elim (Bool-cases (ltb settings.number_of_recurrent_notifications (n.tries + 1))) [
      | inl e ↦ rw e (retry-IsWaiting clock settings i l)
      | inr e ↦ rw e ((omega arith, ground arith), retry-IsWaiting clock settings (i + 1) l)
    ]

-- The queue that a run leaves.
abbrev pub Leaves : (List Notification → Type 0) → Drained → Type 0
Leaves P running = ⊥
Leaves P (finished i queue) = P queue

module _ (clock : ℕ → ℕ) (send_req : String → List Notification → Bool)
    (settings : RuntimeSettings) where
  deliver-IsWaiting :
      (i : ℕ) (l : List Notification)
      → Leaves (All (IsWaiting settings)) (deliver clock send_req settings (finished i l))
  unfolding deliver
  deliver-IsWaiting i [] = tt
  deliver-IsWaiting i (n ∷ l) =
      elim (Bool-cases (send send_req settings.webhook_addresses (n ∷ l))) [
        | inl e ↦ rw e tt
        | inr e ↦ rw e (retry-IsWaiting clock settings i (n ∷ l))
      ]

  started :
      (rounds : ℕ) (n : Notification) (queue : List Notification)
      → settings.webhook_addresses ≢ []
      → send_notifications clock send_req settings rounds (n ∷ queue)
        ≡ deliver clock send_req settings
            (drain clock settings.number_of_recurrent_notifications rounds 0 (n ∷ queue) [])
  unfolding send_notifications
  started rounds n queue a = ground arith

  -- With a webhook, and where every notification of the queue is due at each reading of the clock,
  -- the loop of a run ends within one round more than the queue is long, and each notification
  -- that is left in the queue was tried at least once and at most as often as the settings allow.
  pub send_notifications_due :
      (rounds : ℕ) (queue : List Notification)
      → length queue < rounds
      → settings.webhook_addresses ≢ []
      → All (λ n. (j : ℕ) → n.send_at ≤ clock j) queue
      → Leaves (All (IsWaiting settings)) (send_notifications clock send_req settings rounds queue)
  unfolding send_notifications
  send_notifications_due rounds [] h a d = tt
  send_notifications_due rounds (n ∷ queue) h a d =
      let max_tries = settings.number_of_recurrent_notifications in
      let (k, e) = drain_due clock max_tries rounds 0 (n ∷ queue) [] h d in
      rw (started rounds n queue a)
        (rw e (deliver-IsWaiting k (keep (tries_left max_tries) (n ∷ queue))))

  -- With a webhook, the loop of a run does not end in any number of rounds during which the clock
  -- stays before the time of one notification of the queue that still has tries left.
  pub send_notifications-running :
      (rounds : ℕ) (pre : List Notification) (n : Notification) (post : List Notification)
      → settings.webhook_addresses ≢ []
      → n.tries ≤ settings.number_of_recurrent_notifications
      → ((j : ℕ) → j < rounds → clock j < n.send_at)
      → send_notifications clock send_req settings rounds (pre ++ n ∷ post) ≡ running
  unfolding deliver
  send_notifications-running rounds [] n post a t d =
      rw (started rounds n post a)
        (rw (drain_not_due clock _ rounds 0 [] n post [] t (λ j h. d j (omega arith))))
  send_notifications-running rounds (m ∷ pre) n post a t d =
      rw (started rounds m (pre ++ n ∷ post) a)
        (rw (drain_not_due clock _ rounds 0 (m ∷ pre) n post [] t (λ j h. d j (omega arith))))
