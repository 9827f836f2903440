-- ===== src/Nodes/Disabled.antt =====
-- app/xray/operations.py and app/services/node_service.py: a node that an admin disables, while threads
-- connect it.
use marzban.Common.{
  ℕ, String, Bool, true, false, not, ◌&&◌, ◌||◌, Option, none, some, List, [], ◌∷◌, ◌++◌, any_of,
  is_some, ◌≡◌, refl, sym, ◌∙◌, inl, inr, Bool-cases, Option-cases, arith,
}
use mathlib.Core.Bool.{false≢true}
use marzban.Nodes.{NodeStatus, NodeRow, switched_off, update_node_status}
use marzban.Nodes.Connections.{
  Connections, remove_node, change_row, change_node_status, Answer, runs, fails, Task, Heard,
  report, start, after_connect, next_task, run_task,
}
use marzban.Nodes.System.{is_restart, NodeSystem, modify_node, delete_node, Step, Reached}

abbrev pub is_off : Option NodeRow → Bool
is_off none = false
is_off (some r) = switched_off r.status

-- A disabled node that has an entry in `xray.nodes`.
abbrev pub lingers : Connections → Bool
lingers c = is_off c.row && is_some c.entry

-- A task that has yet to look at the status of the node, having made an entry.
abbrev pub works : Task → Bool
works (Task.connect_flag n) = true
works (Task.connect_mark n) = true
works (Task.connect_start n) = true
works (Task.connect_end a) = true
works (Task.modify_remove b) = true
works t = false

off_only : (b : Bool) → (b && false) ≡ false
off_only b = ground arith

lingers-remove_node : (c : Connections) → lingers (remove_node c) ≡ false
unfolding remove_node
lingers-remove_node c = elim (Option-cases c.entry) [
  | inl e ↦ rw (remove_node, e) (rw e (off_only (is_off c.row)))
  | inr (n, e) ↦ rw (remove_node, e) (off_only (is_off c.row))
]

lingers-change_row :
    (status : NodeStatus) (message version : Option String) (now : ℕ) (c : Connections)
    (o : Option NodeRow)
    → c.row ≡ o
    → switched_off status ≡ false
    → lingers (change_row status message version now c o) ≡ false
unfolding change_row update_node_status
lingers-change_row status message version now c none e h = rw e refl
lingers-change_row status message version now c (some r) e h =
    elim (Bool-cases (switched_off r.status)) [
      | inl d ↦ rw d (lingers-remove_node c)
      | inr d ↦ rw d (rw h refl)
    ]

lingers-change_node_status :
    (status : NodeStatus) (message version : Option String) (now : ℕ) (c : Connections)
    → switched_off status ≡ false
    → lingers (change_node_status status message version now c) ≡ false
unfolding change_node_status
lingers-change_node_status status message version now c h =
    lingers-change_row status message version now c c.row refl h

-- After a step of a task, the node does not linger, or the task has yet to look, or the node lingered
-- before and the task had nothing to do with it.
abbrev covered : Connections → Task → Connections → Task → Bool
covered c t d u = (not (lingers d) || works u) || (lingers c && not (works t))

same_covered : (l b : Bool) → ((not l || b) || (l && true)) ≡ true
same_covered l b = ground arith

gone_covered : (l b : Bool) (k : Bool) → l ≡ false → ((not l || b) || k) ≡ true
gone_covered l b k h = ground arith

working_covered : (l k : Bool) → ((l || true) || k) ≡ true
working_covered l k = ground arith

report-gone : (a : Answer) (now : ℕ) (c : Connections) → lingers (report a now c) ≡ false
unfolding switched_off
report-gone (runs version) now c =
    lingers-change_node_status NodeStatus.connected none (some version) now c refl
report-gone (fails session message) now c =
    lingers-change_node_status NodeStatus.error (some message) none now c refl

lingers-start : (n : ℕ) (a : Answer) (c : Connections) → lingers (start n a c) ≡ lingers c
lingers-start n (runs version) c = refl
lingers-start n (fails true message) c = refl
lingers-start n (fails false message) c = refl

run_task-covered :
    (h : Heard) (t : Task) (c : Connections)
    → is_restart t ≡ false
    → covered c t (run_task h t c) (next_task h t c) ≡ true
unfolding run_task next_task is_restart
run_task-covered h Task.connect_begin c e =
    same_covered (lingers c) (works (next_task h Task.connect_begin c))
run_task-covered h Task.connect_lookup c e =
    working_covered (not (lingers (run_task h Task.connect_lookup c))) (lingers c && true)
run_task-covered h (Task.connect_flag n) c e =
    working_covered (not (lingers c)) (lingers c && false)
run_task-covered h (Task.connect_mark n) c e =
    working_covered (not (lingers (run_task h (Task.connect_mark n) c))) (lingers c && false)
run_task-covered h (Task.connect_start n) c e =
    working_covered (not (lingers (start n h.answer c))) (lingers c && false)
run_task-covered h (Task.connect_end a) c e =
    gone_covered (lingers (report a h.now c)) (works (after_connect a)) (lingers c && false)
      (report-gone a h.now c)
run_task-covered h Task.connect_clear c e = same_covered (lingers c) false
run_task-covered h Task.connect_finally c e = same_covered (lingers c) false
run_task-covered h (Task.modify_remove b) c e =
    gone_covered (lingers (remove_node c)) (works (next_task h (Task.modify_remove b) c))
      (lingers c && false) (lingers-remove_node c)
run_task-covered h Task.delete_remove c e =
    gone_covered (lingers (remove_node c)) false (lingers c && true) (lingers-remove_node c)
run_task-covered h Task.finished c e = same_covered (lingers c) false
run_task-covered h Task.restart_begin c e = cc
run_task-covered h Task.restart_lookup c e = cc
run_task-covered h (Task.restart_check n) c e = cc
run_task-covered h (Task.restart_run n) c e = cc
run_task-covered h (Task.restart_end n a) c e = cc
run_task-covered h Task.restart_clear c e = cc
run_task-covered h (Task.restart_disconnect n) c e = cc

-- No task of a restart follows on another.
next_task-restart :
    (h : Heard) (t : Task) (c : Connections)
    → is_restart t ≡ false
    → is_restart (next_task h t c) ≡ false
unfolding next_task is_restart
next_task-restart h Task.connect_begin c e = ground arith
next_task-restart h Task.connect_lookup c e = refl
next_task-restart h (Task.connect_flag n) c e = refl
next_task-restart h (Task.connect_mark n) c e = refl
next_task-restart h (Task.connect_start n) c e = refl
next_task-restart h (Task.connect_end (runs version)) c e = refl
next_task-restart h (Task.connect_end (fails session message)) c e = refl
next_task-restart h Task.connect_clear c e = refl
next_task-restart h Task.connect_finally c e = refl
next_task-restart h (Task.modify_remove b) c e = ground arith
next_task-restart h Task.delete_remove c e = refl
next_task-restart h Task.finished c e = refl
next_task-restart h Task.restart_begin c e = cc
next_task-restart h Task.restart_lookup c e = cc
next_task-restart h (Task.restart_check n) c e = cc
next_task-restart h (Task.restart_run n) c e = cc
next_task-restart h (Task.restart_end n a) c e = cc
next_task-restart h Task.restart_clear c e = cc
next_task-restart h (Task.restart_disconnect n) c e = cc

any_of-middle :
    (p : Task → Bool) (before after : List Task) (t : Task)
    → any_of p (before ++ t ∷ after) ≡ (any_of p before || (p t || any_of p after))
any_of-middle p [] after t = refl
any_of-middle p (s ∷ before) after t = let rest = any_of-middle p before after t in ground arith

-- The node lingers only while some task has yet to look; and there is no restart.
abbrev Covered : NodeSystem → Type 0
Covered s =
    ((not (lingers s.state) || any_of works s.tasks) ≡ true) × (any_of is_restart s.tasks ≡ false)

middle_covered :
    (l d u w a b : Bool)
    → ((not d || u) || (l && not w)) ≡ true
    → (not l || (a || (w || b))) ≡ true
    → (not d || (a || (u || b))) ≡ true
middle_covered l d u w a b h k = ground arith

middle_quiet :
    (a t b u : Bool)
    → (a || (t || b)) ≡ false
    → (t ≡ false) × ((u ≡ false) → (a || (u || b)) ≡ false)
middle_quiet a t b u h = (ground arith, λ k. ground arith)

runs_task-Covered :
    (h : Heard) (before after : List Task) (t : Task) (c : Connections)
    → Covered (record { state = c; tasks = before ++ t ∷ after })
    → Covered (record { state = run_task h t c; tasks = before ++ next_task h t c ∷ after })
runs_task-Covered h before after t c k =
    let u = next_task h t c in
    let quiet =
      middle_quiet (any_of is_restart before) (is_restart t) (any_of is_restart after)
        (is_restart u) (sym (any_of-middle is_restart before after t) ∙ k.1) in
    let local = run_task-covered h t c quiet.0 in
    (
      rw (any_of-middle works before after u) (
          middle_covered (lingers c) (lingers (run_task h t c)) (works u) (works t)
            (any_of works before) (any_of works after) local
            (rw (sym (any_of-middle works before after t)) k.0)),
      any_of-middle is_restart before after u ∙ quiet.1 (next_task-restart h t c quiet.0),
    )

add_covered : (l w b : Bool) → (not l || w) ≡ true → (not l || (b || w)) ≡ true
add_covered l w b h = ground arith

or_true : (b : Bool) → (b || true) ≡ true
or_true b = ground arith

Step-Covered : (s t : NodeSystem) → Covered s → Step false s t → Covered t
unfolding is_restart modify_node delete_node
Step-Covered _ _ k (Step.runs_task h before after t c) = runs_task-Covered h before after t c k
Step-Covered s _ k (Step.modifies m r e) = (or_true (not (lingers (modify_node m r s).state)), k.1)
Step-Covered s _ k Step.deletes = (refl, k.1)
Step-Covered s _ k Step.asks_connect = (k.0, k.1)
Step-Covered s _ k (Step.asks_restart e) = absurd (false≢true e)
Step-Covered s _ k (Step.reaches e) = absurd (false≢true e)
Step-Covered s _ k (Step.connects n e) = absurd (false≢true e)
Step-Covered s _ k Step.marks = k
Step-Covered s _ k (Step.loses n) = k

Reached-Covered : (r : NodeRow) (s : NodeSystem) → Reached false r s → Covered s
Reached-Covered r _ Reached.at_first = (rw (off_only (switched_off r.status)) refl, refl)
Reached-Covered r t (Reached.by_step {s} reached step) =
    Step-Covered s t (Reached-Covered r s reached) step

-- Where no restart is asked for and no handler of certificates, logs or geo resources reaches for the
-- node: once no task is at work, a node that is disabled has no entry in `xray.nodes`, in whatever order
-- the steps of the connecting threads and of the handlers that modify and delete the node came.
pub Reached-disabled :
    (r : NodeRow) (s : NodeSystem)
    → Reached false r s
    → any_of works s.tasks ≡ false
    → lingers s.state ≡ false
Reached-disabled r s reached idle = let k = (Reached-Covered r s reached).0 in ground arith
