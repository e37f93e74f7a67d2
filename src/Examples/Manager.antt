-- ===== src/Examples/Manager.antt =====
-- The process tree manager and the SOCKET worker on concrete events.
use clew_proxy.Prelude.{
  ℕ, ◌==◌, if◌then◌else◌, ◌+◌, ◌%◌, ◌^◌, ◌≤◌, ◌≡◌, ◌↔◌, refl, Bool, true, false, Option, none, some,
  List, [], ◌∷◌, pos, arith,
}
use clew_proxy.PortTracker.Word.{word_state, empty_word}
use clew_proxy.PortTracker.Slot.{is_echo}
use clew_proxy.PortTracker.Race.{fresh, no_race, notes}
use clew_proxy.FlatTree.Entry.{
  empty_tree, entry_at, find_by_pid, find_by_pid_psn, lookup, insert, erase,
}
use clew_proxy.FlatTree.SideMap.{
  add_entry, install, tombstone, tombstone_entry, forget, check_compact, compact, keep_alive,
  index_entries,
}
use clew_proxy.FlatTree.Links.{
  rebuild_lc_rs_links, clear_links, relink_loop, relink_one, relink_to, reparent_children,
  detach_from_parent, attach_child, mark_root, unlink_sibling, alive_ancestor, reparent_loop,
}
use clew_proxy.Rules.Engine.{on_process_exit, exit_rules}
use clew_proxy.Rules.Engine.Hijack.{on_process_start, start_rules, try_inherit_manual}
use clew_proxy.FlatTree.SideMap.Invariant.{IsValid}
use clew_proxy.FlatTree.SideMap.Owners.{owner}
use clew_proxy.FlatTree.SideMap.Size.{size}
use clew_proxy.ProcessTreeManager.{
  ProcessTreeManager, fresh_manager, notify_tree_changed, call_listeners,
}
use clew_proxy.ProcessTreeManager.Events.{
  ProcessEvent, EtwEvent, started, stopped, events_lost, apply_etw_event_on_strand,
  handle_start_or_rundown, handle_stop, link_or_orphan, drain_orphans_for, orphans_of, push_orphan,
  erase_orphans, attach_each,
}
use clew_proxy.ProcessTreeManager.Resolve.{LiveProcess, resolve_pid_now}
use clew_proxy.ProcessTreeManager.Resolve.Freshness.{run_resolve_lem, size-resolve_pid_now}
use clew_proxy.ProcessTreeManager.Validity.{
  Operation, starts, hijacks, traces, grace_timer, resolves, operate_all, operate_all-IsValid,
}
use clew_proxy.ProcessTreeManager.Owners.{apply_events, owners, trace_all, run_events-owners}
use clew_proxy.ProcessTreeManager.Ends.{
  run_events, run_resolve, events_end, event_ends, start_ends, resolve_ends,
}
use clew_proxy.WindivertSocket.{
  SocketAddress, connect, close, WindivertSocket, zero_counters, decide, goes_proxied, resolved,
  on_connect,
}
use clew_proxy.WindivertSocket.Judgement.{IsProxiedBy, decide_iff}
use clew_proxy.WindivertSocket.Accounting.{
  Happening, IsAccounted, handle_all, handle_all-IsAccounted,
}
use clew_proxy.WindivertSocket.Publishing.{IsAnswered, on_connect-IsAnswered}
use clew_proxy.Examples.Data.{idle_parker, small_tree, engine, empty_tree-IsValid}

abbrev nothing_known : ℕ → List ℕ
nothing_known pid = []

abbrev process : ℕ → ℕ → ℕ → ℕ → ProcessEvent
process pid psn parent_pid parent_psn = record {
  pid = pid;
  psn = psn;
  parent_pid = parent_pid;
  parent_psn = parent_psn;
  create_time = psn;
  image_name = 97 ∷ [];
}

-- A child before its parent, the parent, a loss, a stale STOP, and the PID of the parent again.
abbrev trace_events : List EtwEvent
trace_events =
    started (process 11 6 10 5)
    ∷ started (process 10 5 0 0)
    ∷ events_lost
    ∷ stopped (process 11 4 10 5)
    ∷ started (process 10 8 0 0)
    ∷ []

run_events-owners_example :
    (m : ProcessTreeManager) × (run_events nothing_known nothing_known trace_events fresh_manager
      ≡ some m)
    × ((p : ℕ) → owner p m.tree ≡ trace_all trace_events (owners empty_tree) p)
unfolding apply_events apply_etw_event_on_strand handle_start_or_rundown handle_stop find_by_pid
    find_by_pid_psn lookup insert erase add_entry install tombstone tombstone_entry forget
    check_compact compact keep_alive index_entries rebuild_lc_rs_links clear_links relink_loop
    relink_one relink_to reparent_children detach_from_parent attach_child mark_root unlink_sibling
    alive_ancestor reparent_loop link_or_orphan drain_orphans_for orphans_of push_orphan
    erase_orphans attach_each on_process_start start_rules try_inherit_manual on_process_exit
    exit_rules notify_tree_changed call_listeners events_end event_ends start_ends
run_events-owners_example =
    run_events-owners nothing_known nothing_known trace_events fresh_manager empty_tree-IsValid
      (omega arith) refl

abbrev live : ℕ → Option LiveProcess
live pid = some (record { pid = pid; parent_pid = 10; psn = 9; create_time = 9; name = 97 ∷ [] })

abbrev live_psn : ℕ → ℕ
live_psn pid = 9

abbrev operations : List Operation
operations =
    starts true
    ∷ traces (started (process 10 5 0 0))
    ∷ hijacks 10 true 3
    ∷ resolves 11
    ∷ grace_timer false
    ∷ []

operate_all-IsValid_example :
    IsValid (operate_all nothing_known nothing_known live_psn live operations fresh_manager).tree
operate_all-IsValid_example =
    operate_all-IsValid nothing_known nothing_known live_psn live operations fresh_manager
      empty_tree-IsValid

abbrev curl : LiveProcess
curl = record { pid = 11; parent_pid = 10; psn = 9; create_time = 9; name = 97 ∷ [] }

-- 11 is a child of 10, which has no parent.
abbrev family : ℕ → Option LiveProcess
family pid = some (record {
  pid = pid;
  parent_pid = if pid == 11 then 10 else 0;
  psn = if pid == 11 then 9 else 8;
  create_time = 9;
  name = 97 ∷ [];
})

run_resolve_lem_example :
    (m : ProcessTreeManager) × (run_resolve nothing_known nothing_known live_psn family 11
        fresh_manager
      ≡ some (m, true))
    × (owner 11 m.tree ≡ some 9)
unfolding apply_events apply_etw_event_on_strand handle_start_or_rundown handle_stop find_by_pid
    find_by_pid_psn lookup insert erase add_entry install tombstone tombstone_entry forget
    check_compact compact keep_alive index_entries rebuild_lc_rs_links clear_links relink_loop
    relink_one relink_to reparent_children detach_from_parent attach_child mark_root unlink_sibling
    alive_ancestor reparent_loop link_or_orphan drain_orphans_for orphans_of push_orphan
    erase_orphans attach_each on_process_start start_rules try_inherit_manual on_process_exit
    exit_rules notify_tree_changed call_listeners events_end event_ends start_ends resolve_ends
run_resolve_lem_example =
    run_resolve_lem live_psn family nothing_known nothing_known curl fresh_manager
      empty_tree-IsValid (omega arith) refl refl refl refl refl

size-resolve_pid_now_example :
    size (resolve_pid_now live_psn live nothing_known nothing_known 11 fresh_manager).0.tree
    ≤ size empty_tree + 16
size-resolve_pid_now_example =
    size-resolve_pid_now live_psn live nothing_known nothing_known 11 fresh_manager

-- The orphan 10 is listed by its index 1. The STOP of 9 compacts the tree, so that 1 is the index of
-- the parent when it arrives: it becomes its own parent.
abbrev stale_index : List EtwEvent
stale_index =
    started (process 9 3 0 0)
    ∷ started (process 10 5 12 7)
    ∷ stopped (process 9 3 0 0)
    ∷ started (process 12 7 0 0)
    ∷ []

abbrev no_names : List ℕ → List ℕ → Bool
no_names a b = false

abbrev socket : WindivertSocket
socket = record {
  self_pid = 4;
  exclude_processes = [];
  parking = true;
  tree = small_tree;
  rules = engine;
  ttl_ticks = pos 100;
  flows = λ _. fresh;
  parker = idle_parker;
  counters = zero_counters;
}

abbrev connecting : SocketAddress
connecting = record {
  pid = 10;
  local_port = 50000;
  remote_port = 443;
  remote_addr = 0x01020304 ∷ 0 ∷ 0 ∷ 0 ∷ [];
  timestamp = pos 7;
}

decide_iff_example :
    ((decide no_names none connecting socket).0 ≡ goes_proxied 3)
    ↔ ((true ≡ true) × IsProxiedBy no_names 3 connecting socket small_tree engine)
unfolding resolved
decide_iff_example = decide_iff no_names none connecting socket 3

abbrev happenings : List Happening
happenings =
    record { event = connect connecting; races = no_race ∷ []; close_races = [] }
    ∷ record { event = close connecting; races = []; close_races = (notes 3 ∷ []) ∷ [] }
    ∷ []

handle_all-IsAccounted_example : IsAccounted (handle_all no_names none happenings socket).counters
handle_all-IsAccounted_example =
    handle_all-IsAccounted no_names none happenings socket
      (record { connects = refl; selves = omega arith; late = omega arith; closes = omega arith })

on_connect-IsAnswered_example :
    IsAnswered no_names none connecting
      (decide no_names none connecting socket).0
      ((on_connect no_names none (no_race ∷ []) connecting socket).flows (50000 % 2 ^ 16))
unfolding is_echo word_state empty_word
on_connect-IsAnswered_example =
    on_connect-IsAnswered no_names none (no_race ∷ []) connecting socket refl refl

stale_orphan :
    (entry_at 1
      (apply_events nothing_known nothing_known stale_index
        fresh_manager).tree.entries).parent_index
    ≡ 1
unfolding apply_events apply_etw_event_on_strand handle_start_or_rundown handle_stop find_by_pid
    find_by_pid_psn lookup insert erase add_entry install tombstone tombstone_entry forget
    check_compact compact keep_alive index_entries rebuild_lc_rs_links clear_links relink_loop
    relink_one relink_to reparent_children detach_from_parent attach_child mark_root unlink_sibling
    alive_ancestor reparent_loop link_or_orphan drain_orphans_for orphans_of push_orphan
    erase_orphans attach_each on_process_start start_rules try_inherit_manual on_process_exit
    exit_rules notify_tree_changed call_listeners
stale_orphan = refl

-- Such a run has no result.
stale_orphan_stuck : run_events nothing_known nothing_known stale_index fresh_manager ≡ none
unfolding apply_events apply_etw_event_on_strand handle_start_or_rundown handle_stop find_by_pid
    find_by_pid_psn lookup insert erase add_entry install tombstone tombstone_entry forget
    check_compact compact keep_alive index_entries rebuild_lc_rs_links clear_links relink_loop
    relink_one relink_to reparent_children detach_from_parent attach_child mark_root unlink_sibling
    alive_ancestor reparent_loop link_or_orphan drain_orphans_for orphans_of push_orphan
    erase_orphans attach_each on_process_start start_rules try_inherit_manual on_process_exit
    exit_rules notify_tree_changed call_listeners run_events event_ends start_ends
stale_orphan_stuck = refl

-- The parent of 11 has exited, and its PID 10 is now that of a child of 11.
abbrev recycled : ℕ → Option LiveProcess
recycled pid = some (record {
  pid = pid;
  parent_pid = if pid == 11 then 10 else 11;
  psn = if pid == 11 then 9 else 8;
  create_time = 9;
  name = 97 ∷ [];
})

parent_cycle_stuck :
    run_resolve nothing_known nothing_known live_psn recycled 11 fresh_manager ≡ none
unfolding apply_events apply_etw_event_on_strand handle_start_or_rundown handle_stop find_by_pid
    find_by_pid_psn lookup insert erase add_entry install tombstone tombstone_entry forget
    check_compact compact keep_alive index_entries rebuild_lc_rs_links clear_links relink_loop
    relink_one relink_to reparent_children detach_from_parent attach_child mark_root unlink_sibling
    alive_ancestor reparent_loop link_or_orphan drain_orphans_for orphans_of push_orphan
    erase_orphans attach_each on_process_start start_rules try_inherit_manual on_process_exit
    exit_rules notify_tree_changed call_listeners events_end event_ends start_ends resolve_ends
    run_resolve
parent_cycle_stuck = refl
