-- ===== src/Nodes/Alone.antt =====
-- app/xray/operations.py: `connect_node` from its start to its end, and what no thread does.
use marzban.Common.{
  ℕ, zero, suc, String, Bool, true, false, not, ◌&&◌, ◌==◌, Option, none, some, List, [], ◌∷◌,
  if◌then◌else◌, keep, any_of, is_some, ◌≡◌, refl, ap, ◌∙◌, inl, inr, Bool-cases, Option-cases,
  arith,
}
use marzban.Nodes.{NodeStatus, NodeRow, switched_off, update_node_status}
use marzban.Nodes.Connections.{
  Connections, disconnect, remove_node, add_node, change_row, change_node_status, Answer, runs,
  fails, Task, Heard, is_connected, reusable, report, start, next_task, run_task,
}

-- A thread that runs alone, for a number of steps.
abbrev pub alone : ℕ → Heard → Task → Connections → Task × Connections
alone zero h t c = (t, c)
alone (suc k) h t c = alone k h (next_task h t c) (run_task h t c)

-- Any sequence of steps of threads, of any tasks.
abbrev pub steps : List (Heard × Task) → Connections → Connections
steps [] c = c
steps ((h, t) ∷ l) c = steps l (run_task h t c)

row-remove_node : (c : Connections) → (remove_node c).row ≡ c.row
unfolding remove_node disconnect
row-remove_node c = elim (Option-cases c.entry) [
  | inl e ↦ rw (remove_node, e) refl
  | inr (n, e) ↦ rw (remove_node, e) refl
]

row-add_node : (c : Connections) → (add_node c).row ≡ c.row
unfolding add_node
row-add_node c = row-remove_node c

change_node_status-disabled :
    (status : NodeStatus) (message version : Option String) (now : ℕ) (c : Connections)
    (r : NodeRow)
    → c.row ≡ some r
    → switched_off r.status ≡ true
    → change_node_status status message version now c ≡ remove_node c
unfolding change_node_status change_row
change_node_status-disabled status message version now c r e d =
    ap (change_row status message version now c) e ∙ rw d refl

change_node_status-enabled :
    (status : NodeStatus) (message version : Option String) (now : ℕ) (c : Connections)
    (r : NodeRow)
    → c.row ≡ some r
    → switched_off r.status ≡ false
    → change_node_status status message version now c
      ≡ record c { row = some (update_node_status status message version now r) }
unfolding change_node_status change_row
change_node_status-enabled status message version now c r e d =
    ap (change_row status message version now c) e ∙ rw d refl

row-change_node_status :
    (status : NodeStatus) (message version : Option String) (now : ℕ) (c : Connections)
    (r : NodeRow)
    → c.row ≡ some r
    → switched_off r.status ≡ true
    → (change_node_status status message version now c).row ≡ some r
row-change_node_status status message version now c r e d =
    ap (λ x. x.row) (change_node_status-disabled status message version now c r e d)
    ∙ row-remove_node c
    ∙ e

row-start : (n : ℕ) (a : Answer) (c : Connections) → (start n a c).row ≡ c.row
row-start n (runs version) c = refl
row-start n (fails true message) c = refl
row-start n (fails false message) c = refl

row-report :
    (a : Answer) (now : ℕ) (c : Connections) (r : NodeRow)
    → c.row ≡ some r
    → switched_off r.status ≡ true
    → (report a now c).row ≡ some r
row-report (runs version) now c r e d =
    row-change_node_status NodeStatus.connected none (some version) now c r e d
row-report (fails session message) now c r e d =
    row-change_node_status NodeStatus.error (some message) none now c r e d

row-run_task :
    (h : Heard) (t : Task) (c : Connections) (r : NodeRow)
    → c.row ≡ some r
    → switched_off r.status ≡ true
    → (run_task h t c).row ≡ some r
unfolding run_task disconnect
row-run_task h Task.connect_begin c r e d = e
row-run_task h Task.connect_lookup c r e d = elim (Bool-cases (reusable h c c.entry)) [
  | inl u ↦ rw u e
  | inr u ↦ rw u (row-add_node c ∙ e)
]
row-run_task h (Task.connect_flag n) c r e d = e
row-run_task h (Task.connect_mark n) c r e d =
    row-change_node_status NodeStatus.connecting none none h.now c r e d
row-run_task h (Task.connect_start n) c r e d = row-start n h.answer c ∙ e
row-run_task h (Task.connect_end a) c r e d = row-report a h.now c r e d
row-run_task h Task.connect_clear c r e d = e
row-run_task h Task.connect_finally c r e d = e
row-run_task h Task.restart_begin c r e d = e
row-run_task h Task.restart_lookup c r e d = elim (Bool-cases (is_some c.entry)) [
  | inl u ↦ rw u e
  | inr u ↦ rw u (row-add_node c ∙ e)
]
row-run_task h (Task.restart_check n) c r e d = e
row-run_task h (Task.restart_run n) c r e d = row-start n h.answer c ∙ e
row-run_task h (Task.restart_end n a) c r e d = row-report a h.now c r e d
row-run_task h Task.restart_clear c r e d = e
row-run_task h (Task.restart_disconnect n) c r e d = e
row-run_task h (Task.modify_remove b) c r e d = row-remove_node c ∙ e
row-run_task h Task.delete_remove c r e d = row-remove_node c ∙ e
row-run_task h Task.finished c r e d = e

-- No thread changes the row of a disabled node: whatever steps of whatever tasks run, in any order,
-- and whatever the node answers, the row stays as the admin left it.
steps-disabled :
    (l : List (Heard × Task)) (c : Connections) (r : NodeRow)
    → c.row ≡ some r
    → switched_off r.status ≡ true
    → (steps l c).row ≡ some r
steps-disabled [] c r e d = e
steps-disabled ((h, t) ∷ l) c r e d =
    steps-disabled l (run_task h t c) r (row-run_task h t c r e d) d

-- The pending restart is cleared by a core that runs.
abbrev pub not_runs : Answer → Bool → Bool
not_runs (runs version) pending = false
not_runs (fails session message) pending = pending

-- How a connection ends, for a node that is not disabled, and for one that is.
abbrev pub Outcome : Bool → Answer → ℕ → NodeRow → Bool → Connections → Type 0
Outcome true a now r pending d =
    (d.row ≡ some r) × (d.entry ≡ none) × (d.pending_restart ≡ not_runs a pending)
Outcome false (runs version) now r pending d =
    (d.row ≡ some (update_node_status NodeStatus.connected none (some version) now r))
    × (d.pending_restart ≡ false)
    × ((n : ℕ) × (d.entry ≡ some n) × (any_of (λ m. m == n) d.sessions ≡ true))
Outcome false (fails session message) now r pending d =
    (d.row ≡ some (update_node_status NodeStatus.error (some message) none now r))
    × (d.pending_restart ≡ pending)

abbrev pub Ended : Bool → Answer → ℕ → NodeRow → Bool → Task × Connections → Type 0
Ended b a now r pending (t, d) =
    (t ≡ Task.finished) × (d.in_progress ≡ false) × Outcome b a now r pending d

same_object : (n : ℕ) (l : List ℕ) → any_of (λ m. m == n) (n ∷ l) ≡ true
same_object n l = ground arith

from_flag :
    (pings : Bool) (a : Answer) (now : ℕ) (r : NodeRow) (n k : ℕ) (sessions : List ℕ)
    (pending : Bool)
    → Ended (switched_off r.status) a now r pending (
        alone 7
          (record { pings = pings; answer = a; now = now })
          (Task.connect_flag n)
          (record {
            row = some r;
            entry = some n;
            sessions = sessions;
            next_object = k;
            in_progress = false;
            pending_restart = pending;
          }))
unfolding next_task run_task change_node_status change_row update_node_status switched_off
from_flag pings (runs version) now r n k sessions pending =
    elim (Bool-cases (switched_off r.status)) [
      | inl e ↦ rw (change_node_status, e) (refl, refl, rw e (refl, refl, refl))
      | inr e ↦
          rw (change_node_status, e) (refl, refl, (refl, refl, (n, refl, same_object n sessions)))
    ]
from_flag pings (fails true message) now r n k sessions pending =
    elim (Bool-cases (switched_off r.status)) [
      | inl e ↦ rw (change_node_status, e) (refl, refl, rw e (refl, refl, refl))
      | inr e ↦ rw (change_node_status, e) (refl, refl, (refl, refl))
    ]
from_flag pings (fails false message) now r n k sessions pending =
    elim (Bool-cases (switched_off r.status)) [
      | inl e ↦ rw (change_node_status, e) (refl, refl, rw e (refl, refl, refl))
      | inr e ↦ rw (change_node_status, e) (refl, refl, (refl, refl))
    ]

-- The object that a connection goes on with: the entry's, or a new one.
from_lookup :
    (reused pings : Bool) (a : Answer) (now : ℕ) (r : NodeRow) (n k : ℕ) (sessions : List ℕ)
    (pending : Bool)
    → let c : Connections = record {
      row = some r;
      entry = some n;
      sessions = sessions;
      next_object = k;
      in_progress = false;
      pending_restart = pending;
    } in
      Ended (switched_off r.status) a now r pending (
        alone 7
          (record { pings = pings; answer = a; now = now })
          (Task.connect_flag (if reused then n else k))
          (if reused then c else add_node c))
unfolding add_node remove_node disconnect
from_lookup true pings a now r n k sessions pending = from_flag pings a now r n k sessions pending
from_lookup false pings a now r n k sessions pending =
    from_flag pings a now r k (suc k) (keep (λ m. not (m == n)) sessions) pending

-- `connect_node` ends: where no other connection of the node is in progress and nothing comes between,
-- nine steps end it, whatever entry and sessions there were. It leaves a disabled node's row as it was,
-- without an entry. Of any other node, a core that runs makes the row connected, with its version, the
-- entry's object has a session, and no restart is pending; a failure makes the row an error with the
-- message, and a pending restart stays pending.
pub connect_node-Ended :
    (pings : Bool) (a : Answer) (now : ℕ) (r : NodeRow) (entry : Option ℕ) (sessions : List ℕ)
    (k : ℕ) (pending : Bool)
    → Ended (switched_off r.status) a now r pending (
        alone 9
          (record { pings = pings; answer = a; now = now })
          Task.connect_begin
          (record {
            row = some r;
            entry = entry;
            sessions = sessions;
            next_object = k;
            in_progress = false;
            pending_restart = pending;
          }))
unfolding next_task run_task is_connected add_node remove_node disconnect
connect_node-Ended pings a now r none sessions k pending =
    from_flag pings a now r k (suc k) sessions pending
connect_node-Ended pings a now r (some n) sessions k pending =
    from_lookup (any_of (λ m. m == n) sessions && pings) pings a now r n k sessions pending
