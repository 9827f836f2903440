-- ===== src/Nodes/Connections.antt =====
-- app/xray/operations.py, `connect_node`, `restart_node` and what they call, with
-- app/utils/node_restart_state.py and the handlers of app/services/node_service.py that change a node.
-- The state is that of one node: no step of a task for a node touches another. The tasks are threads;
-- each step is the code between two points at which another thread may change what it reads.
use marzban.Common.{
  ℕ, suc, String, Bool, true, false, not, ◌&&◌, ◌==◌, Option, none, some, List, ◌∷◌, if◌then◌else◌,
  keep, any_of, is_some,
}
use marzban.Nodes.{
  NodeStatus, NodeRow, connected, connecting, error, switched_off, update_node_status,
}

-- The row, the entry of `xray.nodes`, which refers to an `XRayNode`, and the objects that have a
-- session with the node; `_connecting_nodes.get(node_id)`, and the pending restart.
pub record Connections : Type 0 where
  pub row : Option NodeRow
  pub entry : Option ℕ
  pub sessions : List ℕ
  pub next_object : ℕ
  pub in_progress : Bool
  pub pending_restart : Bool

-- `node.disconnect()`
unfoldable pub disconnect : ℕ → Connections → Connections
disconnect n c = record c { sessions = keep (λ m. not (m == n)) c.sessions }

-- `operations.remove_node`
unfoldable pub remove_node : Connections → Connections
unfolding disconnect
remove_node c = elim (c.entry) [ none ↦ c | some n ↦ record (disconnect n c) { entry = none } ]

-- `operations.add_node`: a new object, which has no session yet.
unfoldable pub add_node : Connections → Connections
unfolding remove_node
add_node c =
    let d = remove_node c in
    record d { entry = some d.next_object; next_object = suc d.next_object }

-- `_change_node_status`, of the row that it finds.
unfoldable pub change_row :
    NodeStatus → Option String → Option String → ℕ → Connections → Option NodeRow → Connections
unfolding remove_node switched_off update_node_status
change_row status message version now c none = c
change_row status message version now c (some r) =
    if switched_off r.status
    then remove_node c
    else record c { row = some (update_node_status status message version now r) }

-- `_change_node_status`
unfoldable pub change_node_status :
    NodeStatus → Option String → Option String → ℕ → Connections → Connections
unfolding change_row
change_node_status status message version now c = change_row status message version now c c.row

-- What the node answers: the version of a core that started, or an error's message, with or without
-- a session that was made before it.
pub data Answer : Type 0 where
  runs : String → Answer
  fails : Bool → String → Answer

-- A thread, by what it does next; `n` is the object it works with.
pub data Task : Type 0 where
  connect_begin connect_lookup : Task
  connect_flag connect_mark connect_start : ℕ → Task
  connect_end : Answer → Task
  connect_clear connect_finally : Task
  restart_begin restart_lookup : Task
  restart_check restart_run : ℕ → Task
  restart_end : ℕ → Answer → Task
  restart_clear : Task
  restart_disconnect : ℕ → Task
  modify_remove : Bool → Task
  delete_remove : Task
  finished : Task

-- What a step hears from the node, and the clock.
pub record Heard : Type 0 where
  pub pings : Bool
  pub answer : Answer
  pub now : ℕ

-- `node.connected`
unfoldable pub is_connected : Heard → ℕ → Connections → Bool
is_connected h n c = any_of (λ m. m == n) c.sessions && h.pings

-- The object of the entry if it is connected.
abbrev pub reusable : Heard → Connections → Option ℕ → Bool
reusable h c none = false
reusable h c (some n) = is_connected h n c

abbrev pub object_of : Connections → ℕ
object_of c = elim (c.entry) [ none ↦ c.next_object | some n ↦ n ]

-- `_change_node_status` after a start or a restart
abbrev pub report : Answer → ℕ → Connections → Connections
report (runs version) now c = change_node_status connected none (some version) now c
report (fails session message) now c = change_node_status error (some message) none now c

-- The object that has started, or not.
abbrev pub start : ℕ → Answer → Connections → Connections
start n (runs version) c = record c { sessions = n ∷ c.sessions }
start n (fails session message) c = if session then record c { sessions = n ∷ c.sessions } else c

-- The task after the report of a connection, and of a restart.
abbrev pub after_connect : Answer → Task
after_connect (runs version) = connect_clear
after_connect (fails session message) = connect_finally

abbrev pub after_restart : ℕ → Answer → Task
after_restart n (runs version) = restart_clear
after_restart n (fails session message) = restart_disconnect n

-- The next task, after a step.
unfoldable pub next_task : Heard → Task → Connections → Task
unfolding is_connected
next_task h connect_begin c =
    if c.in_progress then finished else if is_some c.row then connect_lookup else finished
next_task h connect_lookup c =
    connect_flag (if reusable h c c.entry then object_of c else c.next_object)
next_task h (connect_flag n) c = connect_mark n
next_task h (connect_mark n) c = connect_start n
next_task h (connect_start n) c = connect_end h.answer
next_task h (connect_end a) c = after_connect a
next_task h connect_clear c = connect_finally
next_task h connect_finally c = finished
next_task h restart_begin c = if is_some c.row then restart_lookup else finished
next_task h restart_lookup c = restart_check (object_of c)
next_task h (restart_check n) c = if is_connected h n c then restart_run n else connect_begin
next_task h (restart_run n) c = restart_end n h.answer
next_task h (restart_end n a) c = after_restart n a
next_task h restart_clear c = finished
next_task h (restart_disconnect n) c = finished
next_task h (modify_remove connects) c = if connects then connect_begin else finished
next_task h delete_remove c = finished
next_task h finished c = finished

-- What a step does to the state.
unfoldable pub run_task : Heard → Task → Connections → Connections
unfolding is_connected add_node remove_node change_node_status disconnect
run_task h connect_begin c = c
run_task h connect_lookup c = if reusable h c c.entry then c else add_node c
run_task h (connect_flag n) c = record c { in_progress = true }
run_task h (connect_mark n) c = change_node_status connecting none none h.now c
run_task h (connect_start n) c = start n h.answer c
run_task h (connect_end a) c = report a h.now c
run_task h connect_clear c = record c { pending_restart = false }
run_task h connect_finally c = record c { in_progress = false }
run_task h restart_begin c = c
run_task h restart_lookup c = if is_some c.entry then c else add_node c
run_task h (restart_check n) c = c
run_task h (restart_run n) c = start n h.answer c
run_task h (restart_end n a) c = report a h.now c
run_task h restart_clear c = record c { pending_restart = false }
run_task h (restart_disconnect n) c = disconnect n c
run_task h (modify_remove connects) c = remove_node c
run_task h delete_remove c = record (remove_node c) { pending_restart = false }
run_task h finished c = c
