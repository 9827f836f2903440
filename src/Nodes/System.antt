-- ===== src/Nodes/System.antt =====
-- The system that the threads and the handlers of one node make: app/xray/operations.py with the handlers
-- of app/services/node_service.py, and `get_remote_node` of app/utils/node_geo_resources.py.
use marzban.Common.{
  ℕ, Bool, true, false, not, ◌==◌, none, some, List, [], ◌∷◌, ◌++◌, keep, is_some, if◌then◌else◌,
  ◌≡◌,
}
use marzban.Nodes.{NodeRow, NodeModify, switched_off, update_node}
use marzban.Nodes.Connections.{
  Connections, add_node, Task, Heard, connect_begin, restart_begin, restart_lookup, restart_check,
  restart_run, restart_end, restart_clear, restart_disconnect, modify_remove, delete_remove,
  run_task, next_task,
}

-- A task that is to restart the core, up to the connection that it may leave it to.
unfoldable pub is_restart : Task → Bool
is_restart restart_begin = true
is_restart restart_lookup = true
is_restart (restart_check n) = true
is_restart (restart_run n) = true
is_restart (restart_end n a) = true
is_restart restart_clear = true
is_restart (restart_disconnect n) = true
is_restart t = false

pub record NodeSystem : Type 0 where
  pub state : Connections
  pub tasks : List Task

-- `modify_node` of the service up to its commit; the rest of it is a task.
unfoldable pub modify_node : NodeModify → NodeRow → NodeSystem → NodeSystem
unfolding update_node switched_off
modify_node m r s = record {
  state = record (s.state) { row = some (update_node m r) };
  tasks = modify_remove (not (switched_off (update_node m r).status)) ∷ s.tasks;
}

-- `remove_node` of the service up to its commit
unfoldable pub delete_node : NodeSystem → NodeSystem
delete_node s = record { state = record (s.state) { row = none }; tasks = delete_remove ∷ s.tasks }

-- `xray.nodes.get(dbnode.id) or xray.operations.add_node(dbnode)`, by which the handlers of certificates,
-- logs and geo resources, and the update of geo resources, get the node, whatever its status.
unfoldable pub reach_node : Connections → Connections
unfolding add_node
reach_node c = if is_some c.entry then c else add_node c

-- The steps of the system. Where the parameter is false, no restart is asked for, and no handler
-- reaches for the node. `connects` is the `node.connect()` of such a handler, and a session may be lost
-- at any time.
pub data Step (reaching : Bool) : NodeSystem → NodeSystem → Type 0 where
  runs_task :
      (h : Heard) (before after : List Task) (t : Task) (c : Connections)
      → Step reaching
          (record { state = c; tasks = before ++ t ∷ after })
          (record { state = run_task h t c; tasks = before ++ next_task h t c ∷ after })
  modifies :
      (m : NodeModify) (r : NodeRow) {s : NodeSystem}
      → s.state.row ≡ some r
      → Step reaching s (modify_node m r s)
  deletes : {s : NodeSystem} → Step reaching s (delete_node s)
  asks_connect : {s : NodeSystem} → Step reaching s (record s { tasks = connect_begin ∷ s.tasks })
  asks_restart :
      {s : NodeSystem}
      → reaching ≡ true
      → Step reaching s (record s { tasks = restart_begin ∷ s.tasks })
  reaches :
      {s : NodeSystem} → reaching ≡ true → Step reaching s (record s { state = reach_node s.state })
  connects :
      (n : ℕ) {s : NodeSystem}
      → reaching ≡ true
      → Step reaching s (record s { state = record (s.state) { sessions = n ∷ s.state.sessions } })
  marks :
      {s : NodeSystem}
      → Step reaching s (record s { state = record (s.state) { pending_restart = true } })
  loses :
      (n : ℕ) {s : NodeSystem}
      → Step reaching s (record s {
        state = record (s.state) { sessions = keep (λ m. not (m == n)) s.state.sessions };
      })

-- What a node that was just created is reached from.
abbrev pub created : NodeRow → NodeSystem
created r = record {
  state = record {
    row = some r;
    entry = none;
    sessions = [];
    next_object = 0;
    in_progress = false;
    pending_restart = false;
  };
  tasks = [];
}

pub data Reached (reaching : Bool) (r : NodeRow) : NodeSystem → Type 0 where
  at_first : Reached reaching r (created r)
  by_step : {s t : NodeSystem} → Reached reaching r s → Step reaching s t → Reached reaching r t
