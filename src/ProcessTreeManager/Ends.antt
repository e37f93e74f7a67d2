-- ===== src/ProcessTreeManager/Ends.antt =====
-- src/domain/process_tree_manager.cpp: the traced events and the resolver as partial operations. A
-- stale index of an orphan or a recycled PID of a parent can close a cycle in the links, on which the
-- loops of the tree do not return, and an entry may not become its own parent, which `attach_child`
-- asserts. The strand handles no event after such a one.
use clew_proxy.Prelude.{
  ℕ, Bool, true, not, ◌&&◌, ◌||◌, ◌==◌, if◌then◌else◌, Option, none, some, List, [], ◌∷◌,
}
use clew_proxy.FlatTree.Entry.{find_by_pid_psn, invalid_idx, invalid_psn, root_psn_sentinel}
use clew_proxy.FlatTree.Links.{Entries, attach_child}
use clew_proxy.FlatTree.Links.Ends.{detach_ends, visit_descendants_ends}
use clew_proxy.FlatTree.SideMap.Ends.{tombstone_ends, add_entry_ends}
use clew_proxy.ProcessTreeManager.{ProcessTreeManager}
use clew_proxy.ProcessTreeManager.Events.{
  ProcessEvent, EtwEvent, started, rundown, stopped, events_lost, orphans_of, is_waiting,
  with_entry, forget_owner, link_or_orphan, drain_orphans_for, apply_etw_event_on_strand,
}
use clew_proxy.ProcessTreeManager.Resolve.{
  LiveProcess, event_of, parent_psn_in, climb, insert_chain, is_current, max_chain_depth,
  resolve_pid_now,
}

-- `attach_child` with its assertion.
abbrev pub attach_ends : ℕ → ℕ → Entries → Bool
attach_ends parent_idx child_idx es = not (parent_idx == child_idx) && detach_ends child_idx es

unfoldable pub link_ends : ℕ → ProcessEvent → ProcessTreeManager → Bool
unfolding find_by_pid_psn detach_ends
link_ends new_idx evt m =
    let parent_idx = find_by_pid_psn evt.parent_pid evt.parent_psn m.tree in
    if evt.parent_psn == root_psn_sentinel || evt.parent_psn == invalid_psn
    then detach_ends new_idx m.tree.entries
    else if not (parent_idx == invalid_idx)
    then attach_ends parent_idx new_idx m.tree.entries
    else true

unfoldable pub attach_each_ends : ℕ → List ℕ → Entries → Bool
unfolding attach_child detach_ends
attach_each_ends parent_idx [] es = true
attach_each_ends parent_idx (i ∷ is) es =
    (not (is_waiting i es) || attach_ends parent_idx i es)
    && attach_each_ends parent_idx is (if is_waiting i es then attach_child parent_idx i es else es)

unfoldable pub drain_ends : ℕ → ℕ → ProcessTreeManager → Bool
unfolding orphans_of attach_each_ends
drain_ends psn parent_idx m = elim (orphans_of psn m.orphans) [
  | none ↦ true
  | some is ↦ attach_each_ends parent_idx is m.tree.entries
]

-- A rule that matches a new process visits its descendants.
unfoldable pub start_ends : ProcessEvent → ProcessTreeManager → Bool
unfolding add_entry_ends link_ends drain_ends visit_descendants_ends link_or_orphan
    drain_orphans_for find_by_pid_psn
start_ends evt m =
    let (added, idx) = with_entry evt (forget_owner evt.pid m) in
    let linked = link_or_orphan idx evt added in
    let drained = drain_orphans_for evt.psn idx linked in
    not (find_by_pid_psn evt.pid evt.psn m.tree == invalid_idx)
    || (add_entry_ends evt.pid evt.psn m.tree
        && link_ends idx evt added
        && drain_ends evt.psn idx linked
        && visit_descendants_ends idx drained.tree.entries)

unfoldable pub event_ends : EtwEvent → ProcessTreeManager → Bool
unfolding start_ends tombstone_ends
event_ends (started evt) m = start_ends evt m
event_ends (rundown evt) m = start_ends evt m
event_ends (stopped evt) m = tombstone_ends evt.pid evt.psn m.tree
event_ends events_lost m = true

module _ (cmdline image_path : ℕ → List ℕ) where
  -- Whether each of the events is handled to its end.
  unfoldable pub events_end : List EtwEvent → ProcessTreeManager → Bool
  unfolding event_ends
  events_end [] m = true
  events_end (e ∷ es) m =
      event_ends e m && events_end es (apply_etw_event_on_strand cmdline image_path e m)

  -- What the strand makes of the events; `none` where it does not come back.
  unfoldable pub run_events : List EtwEvent → ProcessTreeManager → Option ProcessTreeManager
  unfolding event_ends
  run_events [] m = some m
  run_events (e ∷ es) m =
      let rest = run_events es (apply_etw_event_on_strand cmdline image_path e m) in
      if event_ends e m then rest else none

  module _ (live_psn : ℕ → ℕ) (live_process : ℕ → Option LiveProcess) where
    unfoldable pub insert_chain_ends : List LiveProcess → ProcessTreeManager → Bool
    unfolding insert_chain parent_psn_in start_ends
    insert_chain_ends [] m = true
    insert_chain_ends (info ∷ chain) m =
        let above = insert_chain live_psn live_process cmdline image_path m.tree chain m in
        insert_chain_ends chain m
        && start_ends (event_of info (parent_psn_in live_psn live_process info chain m.tree)) above

    unfoldable pub resolve_ends : ℕ → ProcessTreeManager → Bool
    unfolding is_current climb insert_chain_ends
    resolve_ends pid m =
        pid == 0
        || is_current live_psn live_process pid m.tree
        || insert_chain_ends (climb live_psn live_process max_chain_depth pid m.tree) m

    -- `none` where `resolve_pid_now` does not return.
    unfoldable pub run_resolve : ℕ → ProcessTreeManager → Option (ProcessTreeManager × Bool)
    unfolding resolve_pid_now resolve_ends
    run_resolve pid m =
        let r = resolve_pid_now live_psn live_process cmdline image_path pid m in
        if resolve_ends pid m then some r else none
