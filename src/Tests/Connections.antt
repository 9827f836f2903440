-- ===== src/Tests/Connections.antt =====
-- Connections of a concrete node, and runs in which a disabled node keeps a session or an entry.
use marzban.Common.{Bool, true, false, none, some, List, [], ◌∷◌, ◌≡◌, refl}
use marzban.Json.{no_fields}
use marzban.Nodes.{NodeRow, NodeModify, NodeStatus, connecting, disabled, switched_off}
use marzban.Nodes.Connections.{
  Connections, runs, fails, Task, Heard, connect_begin, connect_lookup, connect_flag, connect_mark,
  connect_start, connect_end, connect_clear, connect_finally, restart_begin, restart_lookup,
  restart_check, modify_remove, finished, run_task, next_task,
}
use marzban.Nodes.System.{NodeSystem, Step, Reached, modify_node, reach_node}
use marzban.Nodes.Disabled.{lingers, Reached-disabled}
use marzban.Nodes.Alone.{alone, Ended, connect_node-Ended}

abbrev row : NodeRow
row = record {
  id = 1;
  name = "de";
  address = "192.0.2.1";
  port = 62050;
  api_port = 62051;
  xray_version = none;
  status = connecting;
  last_status_change = none;
  message = none;
  usage_coefficient = 100;
  access_log_enabled = false;
  error_log_enabled = false;
  log_retention_days = 14;
  log_storage_limit_bytes = none;
  config_template = no_fields;
}

abbrev heard : Heard
heard = record { pings = true; answer = runs "1.8.4"; now = 5 }

connect_node-Ended_example :
    Ended (switched_off NodeStatus.connecting) (fails true "refused") 5 row true (
      alone 9
        (record { pings = true; answer = fails true "refused"; now = 5 })
        connect_begin
        (record {
          row = some row;
          entry = some 0;
          sessions = 0 ∷ [];
          next_object = 1;
          in_progress = false;
          pending_restart = true;
        }))
connect_node-Ended_example =
    connect_node-Ended true (fails true "refused") 5 row (some 0) (0 ∷ []) 1 true

abbrev off : NodeRow
off = record row { status = disabled }

abbrev state : Connections
state = record {
  row = some off;
  entry = none;
  sessions = [];
  next_object = 0;
  in_progress = false;
  pending_restart = false;
}

is_off : switched_off off.status ≡ true
unfolding switched_off
is_off = refl

abbrev disabling : NodeModify
disabling = record {
  name = none;
  address = none;
  port = none;
  api_port = none;
  status = some disabled;
  usage_coefficient = none;
  access_log_enabled = none;
  error_log_enabled = none;
  log_retention_days = none;
  log_storage_limit_bytes = none;
}

abbrev only : Connections → Task → NodeSystem
only c t = record { state = c; tasks = t ∷ [] }

abbrev tasks_after : Task → List Task → Connections → NodeSystem
tasks_after t l c = record { state = c; tasks = t ∷ l }

run_head :
    {b : Bool} {c : Connections} (t : Task) (l : List Task)
    → Reached b row (record { state = c; tasks = t ∷ l })
    → Reached b row (record { state = run_task heard t c; tasks = next_task heard t c ∷ l })
run_head {b} {c} t l h = Reached.by_step h (Step.runs_task heard [] l t c)

run_second :
    {b : Bool} {c : Connections} (s t : Task)
    → Reached b row (record { state = c; tasks = s ∷ t ∷ [] })
    → Reached b row (record { state = run_task heard t c; tasks = s ∷ next_task heard t c ∷ [] })
run_second {b} {c} s t h = Reached.by_step h (Step.runs_task heard (s ∷ []) [] t c)

-- The admin disables the node while a thread connects it. The thread starts the core all the same: at
-- the end the node is disabled and has no entry, and its object has a session.
abbrev left_running : NodeSystem
left_running = record {
  state = record {
    row = some off;
    entry = none;
    sessions = 0 ∷ [];
    next_object = 1;
    in_progress = false;
    pending_restart = false;
  };
  tasks = finished ∷ finished ∷ [];
}

Reached-left_running : (b : Bool) → Reached b row left_running
unfolding run_task next_task modify_node
Reached-left_running b = run_second finished connect_finally (
    run_second finished connect_clear (
      run_second finished (connect_end (runs "1.8.4")) (
        run_second finished (connect_start 0) (
          run_second finished (connect_mark 0) (
            run_second finished (connect_flag 0) (
              run_head (modify_remove false) (connect_flag 0 ∷ []) (
                Reached.by_step
                  (run_head connect_lookup [] (
                    run_head connect_begin [] (Reached.by_step Reached.at_first Step.asks_connect)))
                  (Step.modifies disabling row refl))))))))

Reached-disabled_example : lingers left_running.state ≡ false
Reached-disabled_example = Reached-disabled row left_running (Reached-left_running false) refl

-- A restart that is asked for while a connection is about to end leaves its new entry behind, though
-- the admin has disabled the node.
abbrev left_entry : NodeSystem
left_entry = record {
  state = record {
    row = some (record off { last_status_change = some 5 });
    entry = some 1;
    sessions = [];
    next_object = 2;
    in_progress = false;
    pending_restart = false;
  };
  tasks = finished ∷ finished ∷ finished ∷ [];
}

run_third :
    {c : Connections} (s t u : Task)
    → Reached true row (record { state = c; tasks = s ∷ t ∷ u ∷ [] })
    → Reached true row
        (record { state = run_task heard u c; tasks = s ∷ t ∷ next_task heard u c ∷ [] })
run_third {c} s t u h = Reached.by_step h (Step.runs_task heard (s ∷ t ∷ []) [] u c)

abbrev rest : List Task
rest = finished ∷ connect_finally ∷ []

Reached-left_entry : Reached true row left_entry
unfolding run_task next_task modify_node
Reached-left_entry = run_third finished finished connect_finally (
    run_head connect_begin rest (
      run_head (restart_check 1) rest (
        run_head restart_lookup rest (
          run_head restart_begin rest (
            Reached.by_step
              (run_head (modify_remove false) (connect_finally ∷ []) (
                Reached.by_step
                  (run_head connect_clear [] (
                    run_head (connect_end (runs "1.8.4")) [] (
                      run_head (connect_start 0) [] (
                        run_head (connect_mark 0) [] (
                          run_head (connect_flag 0) [] (
                            run_head connect_lookup [] (
                              run_head connect_begin []
                                (Reached.by_step Reached.at_first Step.asks_connect))))))))
                  (Step.modifies disabling
                    (record row {
                      status = NodeStatus.connected;
                      xray_version = some "1.8.4";
                      last_status_change = some 5;
                    })
                    refl)))
              (Step.asks_restart refl))))))

-- A handler that reaches for a node that is disabled makes an entry for it, which stays.
abbrev reached_off : NodeSystem
reached_off = record {
  state = record (left_running.state) { entry = some 1; next_object = 2 };
  tasks = finished ∷ finished ∷ [];
}

Reached-reached_off : Reached true row reached_off
unfolding reach_node
Reached-reached_off = Reached.by_step (Reached-left_running true) (Step.reaches refl)

lingering : lingers left_entry.state ≡ true
unfolding switched_off
lingering = refl
