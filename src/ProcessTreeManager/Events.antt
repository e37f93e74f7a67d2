-- ===== src/ProcessTreeManager/Events.antt =====
-- src/domain/process_tree_manager.cpp: the events of the process tracing, the orphan buffer and the
-- timers. `orphans_by_parent_psn_` is a hash map; its loops run in the order of the list here.
use clew_proxy.Prelude.{
  ℕ, ◌+◌, Bool, true, false, not, ◌||◌, ◌==◌, if◌then◌else◌, leb, ltb, Option, none, some, List, [],
  ◌∷◌, ◌++◌, length,
}
use clew_proxy.FlatTree.Entry.{
  entry_at, find_by_pid, find_by_pid_psn, invalid_idx, invalid_psn, root_psn_sentinel,
}
use clew_proxy.FlatTree.Links.{Entries, attach_child, mark_root}
use clew_proxy.FlatTree.SideMap.{add_entry, tombstone}
use clew_proxy.Rules.Engine.{on_process_exit}
use clew_proxy.Rules.Engine.Hijack.{on_process_start}
use clew_proxy.ProcessTreeManager.{ProcessTreeManager, batched, is_known, notify_tree_changed}

pub record ProcessEvent : Type 0 where
  pub pid : ℕ
  pub psn : ℕ
  pub parent_pid : ℕ
  pub parent_psn : ℕ
  pub create_time : ℕ
  pub image_name : List ℕ

pub data EtwEvent : Type 0 where
  started rundown stopped : ProcessEvent → EtwEvent
  events_lost : EtwEvent

unfoldable pub orphans_of : ℕ → List (ℕ × List ℕ) → Option (List ℕ)
orphans_of psn [] = none
orphans_of psn ((k, is) ∷ o) = let rest = orphans_of psn o in if k == psn then some is else rest

-- `orphans[psn].push_back(idx)`.
unfoldable pub push_orphan : ℕ → ℕ → List (ℕ × List ℕ) → List (ℕ × List ℕ)
push_orphan psn idx [] = (psn, idx ∷ []) ∷ []
push_orphan psn idx ((k, is) ∷ o) =
    let rest = push_orphan psn idx o in if k == psn then (k, is ++ idx ∷ []) ∷ o else (k, is) ∷ rest

unfoldable pub erase_orphans : ℕ → List (ℕ × List ℕ) → List (ℕ × List ℕ)
erase_orphans psn [] = []
erase_orphans psn ((k, is) ∷ o) =
    let rest = erase_orphans psn o in if k == psn then rest else (k, is) ∷ rest

unfoldable pub link_or_orphan : ℕ → ProcessEvent → ProcessTreeManager → ProcessTreeManager
unfolding find_by_pid_psn mark_root attach_child push_orphan
link_or_orphan new_idx evt m =
    let t = m.tree in
    let parent_idx = find_by_pid_psn evt.parent_pid evt.parent_psn t in
    if evt.parent_psn == root_psn_sentinel || evt.parent_psn == invalid_psn
    then record m { tree = record t { entries = mark_root new_idx t.entries } }
    else if not (parent_idx == invalid_idx)
    then record m { tree = record t { entries = attach_child parent_idx new_idx t.entries } }
    else record m { orphans = push_orphan evt.parent_psn new_idx m.orphans }

-- An index that is out of range or leads to a dead entry is skipped.
abbrev pub is_waiting : ℕ → Entries → Bool
is_waiting i es = if leb (length es) i then false else (entry_at i es).alive

-- The loop of `drain_orphans_for`.
unfoldable pub attach_each : ℕ → List ℕ → Entries → Entries
unfolding attach_child
attach_each parent_idx [] es = es
attach_each parent_idx (i ∷ is) es =
    attach_each parent_idx is (if is_waiting i es then attach_child parent_idx i es else es)

unfoldable pub drain_orphans_for : ℕ → ℕ → ProcessTreeManager → ProcessTreeManager
unfolding orphans_of attach_each erase_orphans
drain_orphans_for psn parent_idx m =
    let t = m.tree in
    elim (orphans_of psn m.orphans) [
      | none ↦ m
      | some is ↦ record m {
        tree = record t { entries = attach_each parent_idx is t.entries };
        orphans = erase_orphans psn m.orphans;
      }
    ]

-- The rule engine forgets the old owner of a PID that is in use.
abbrev pub forget_owner : ℕ → ProcessTreeManager → ProcessTreeManager
forget_owner pid m =
    if is_known pid m.tree then record m { rules = on_process_exit pid m.rules } else m

abbrev pub with_entry : ProcessEvent → ProcessTreeManager → ProcessTreeManager × ℕ
with_entry evt m =
    let (t, idx) =
      add_entry evt.pid evt.parent_pid evt.psn evt.parent_psn evt.create_time evt.image_name
        m.tree in
    (record m { tree = t }, idx)

unfoldable pub handle_stop : ProcessEvent → ProcessTreeManager → ProcessTreeManager
unfolding find_by_pid_psn tombstone on_process_exit notify_tree_changed
handle_stop evt m =
    let (t, ok) = tombstone evt.pid evt.psn m.tree in
    let buried = record m { tree = t } in
    if find_by_pid_psn evt.pid evt.psn m.tree == invalid_idx
    then m
    else if ok
    then notify_tree_changed batched (record buried { rules = on_process_exit evt.pid m.rules })
    else buried

-- The timer is armed with the flag.
unfoldable pub handle_lost : ProcessTreeManager → ProcessTreeManager
handle_lost m = if m.lost_pending then m else record m { lost_pending = true }

module _ (query_cmdline query_image_path : ℕ → List ℕ) where
  abbrev pub classify : ℕ → ProcessTreeManager → ProcessTreeManager
  classify idx m =
      let (hit, (t, e)) = on_process_start query_cmdline query_image_path idx (m.tree, m.rules) in
      record m { tree = t; rules = e }

  unfoldable pub handle_start_or_rundown :
      ProcessEvent → Bool → ProcessTreeManager → ProcessTreeManager
  unfolding find_by_pid_psn add_entry link_or_orphan drain_orphans_for on_process_start
      notify_tree_changed find_by_pid on_process_exit
  handle_start_or_rundown evt notify m =
      let (added, idx) = with_entry evt (forget_owner evt.pid m) in
      let linked = drain_orphans_for evt.psn idx (link_or_orphan idx evt added) in
      let classified = classify idx linked in
      if not (find_by_pid_psn evt.pid evt.psn m.tree == invalid_idx)
      then m
      else if notify
      then notify_tree_changed batched classified
      else classified

  unfoldable pub apply_etw_event_on_strand : EtwEvent → ProcessTreeManager → ProcessTreeManager
  unfolding handle_start_or_rundown handle_stop handle_lost
  apply_etw_event_on_strand (started evt) m = handle_start_or_rundown evt true m
  apply_etw_event_on_strand (rundown evt) m = handle_start_or_rundown evt true m
  apply_etw_event_on_strand (stopped evt) m = handle_stop evt m
  apply_etw_event_on_strand events_lost m = handle_lost m

-- The handlers of the timers, with whether the timer was cancelled.
unfoldable pub on_lost_timer : Bool → ProcessTreeManager → ProcessTreeManager
on_lost_timer cancelled m =
    let idle = record m { lost_pending = false } in
    if cancelled
    then idle
    else if not m.started
    then idle
    else record idle { rundown_requests = m.rundown_requests + 1 }

-- The loops over the orphans that are left: each becomes a root; the number of these.
unfoldable pub flush_each : List ℕ → Entries × ℕ → Entries × ℕ
unfolding mark_root
flush_each [] (es, n) = (es, n)
flush_each (i ∷ is) (es, n) =
    flush_each is (if is_waiting i es then (mark_root i es, n + 1) else (es, n))

unfoldable pub flush_all : List (ℕ × List ℕ) → Entries × ℕ → Entries × ℕ
unfolding flush_each
flush_all [] acc = acc
flush_all ((psn, is) ∷ o) acc = flush_all o (flush_each is acc)

unfoldable pub on_grace_timer : Bool → ProcessTreeManager → ProcessTreeManager
unfolding flush_all notify_tree_changed
on_grace_timer cancelled m =
    let t = m.tree in
    let (es, flushed) = flush_all m.orphans (t.entries, 0) in
    let flat = record m { tree = record t { entries = es }; orphans = []; grace_armed = false } in
    if cancelled
    then record m { grace_armed = false }
    else if not m.started
    then record m { grace_armed = false }
    else if ltb 0 flushed
    then notify_tree_changed batched flat
    else flat
