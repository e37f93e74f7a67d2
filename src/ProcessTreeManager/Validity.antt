-- ===== src/ProcessTreeManager/Validity.antt =====
-- src/domain/process_tree_manager.cpp: whatever happens to the manager, its tree stays valid.
use clew_proxy.Prelude.{
  ℕ, inl, inr, Bool, true, false, ◌==◌, Option, List, [], ◌∷◌, arith, Bool-cases,
}
use clew_proxy.FlatTree.Entry.{FlatTree, find_by_pid_psn, invalid_idx}
use clew_proxy.FlatTree.SideMap.Invariant.{IsValid}
use clew_proxy.FlatTree.SideMap.Preserved.{add_entry-IsValid}
use clew_proxy.FlatTree.SideMap.Compaction.{tombstone-IsValid}
use clew_proxy.FlatTree.SideMap.Kept.{
  KeepsIdents, KeepsIdents-entries, KeepsIdents-trans, IsValid-KeepsIdents,
}
use clew_proxy.Rules.Engine.{AutoRule, set_auto_rules}
use clew_proxy.Rules.Engine.Frame.Trees.{apply_auto_rules-KeepsIdents, exclude_pid-KeepsIdents}
use clew_proxy.ProcessTreeManager.{
  ProcessTreeManager, Posted, begin_rundown, push, start, stop, add_listener, run_posted,
  hijack_pid, unhijack_pid, batch_hijack, hijack_each, exclude_rule_pid, unexclude_rule_pid,
  apply_auto_rules_from_config, notify_tree_changed,
}
use clew_proxy.ProcessTreeManager.Events.{
  ProcessEvent, EtwEvent, started, rundown, stopped, events_lost, handle_start_or_rundown,
  handle_stop, handle_lost, apply_etw_event_on_strand, on_lost_timer, on_grace_timer, flush_all,
}
use clew_proxy.ProcessTreeManager.Resolve.{
  LiveProcess, event_of, parent_psn_in, insert_chain, resolve_chain, resolve_pid_now, climb,
  max_chain_depth,
}
use clew_proxy.ProcessTreeManager.Frame.{
  added, handle_start_or_rundown-KeepsIdents, flush_all-idents, hijack_tree_or_one-KeepsIdents,
  unhijack_tree_or_one-KeepsIdents, hijack_each-KeepsIdents, unhijack_each-KeepsIdents,
}

-- What can happen to the manager, each with its arguments.
pub data Operation : Type 0 where
  starts : (etw_ok : Bool) → Operation
  stops : Operation
  adds_listener : (listener : ℕ) → Operation
  runs_posted : Posted → Operation
  hijacks : (pid : ℕ) (tree_mode : Bool) (gid : ℕ) → Operation
  unhijacks : (pid : ℕ) (tree_mode : Bool) → Operation
  batches : (add remove : List ℕ) (tree_mode : Bool) (gid : ℕ) → Operation
  excludes : (rule_id : List ℕ) (pid : ℕ) → Operation
  unexcludes : (rule_id : List ℕ) (pid : ℕ) → Operation
  configures : List AutoRule → Operation
  traces : EtwEvent → Operation
  lost_timer : (cancelled : Bool) → Operation
  grace_timer : (cancelled : Bool) → Operation
  resolves : (pid : ℕ) → Operation

abbrev pub IsSound : ProcessTreeManager → Type 0
IsSound m = IsValid m.tree

kept : (m m' : ProcessTreeManager) → KeepsIdents m.tree m'.tree → IsSound m → IsSound m'
kept m m' k v = IsValid-KeepsIdents m.tree m'.tree k v

batch_hijack-IsSound :
    (add remove : List ℕ) (tree_mode : Bool) (gid : ℕ) (m : ProcessTreeManager)
    → IsSound m
    → IsSound (batch_hijack add remove tree_mode gid m).0
unfolding batch_hijack notify_tree_changed
batch_hijack-IsSound add remove tree_mode gid m v =
    let (t, n) = hijack_each tree_mode gid add (m.tree, 0) in
    let both =
      KeepsIdents-trans m.tree t _ (hijack_each-KeepsIdents tree_mode gid add m.tree 0)
        (unhijack_each-KeepsIdents tree_mode remove t n) in
    let valid = IsValid-KeepsIdents m.tree _ both v in ground (arith, valid)

exclude_rule_pid-IsSound :
    (rule_id : List ℕ) (pid : ℕ) (m : ProcessTreeManager)
    → IsSound m
    → IsSound (exclude_rule_pid rule_id pid m).0
unfolding exclude_rule_pid notify_tree_changed
exclude_rule_pid-IsSound rule_id pid m v =
    let valid =
      IsValid-KeepsIdents m.tree _ (exclude_pid-KeepsIdents rule_id pid m.tree m.rules) v in
    ground (arith, valid)

run_posted-IsSound : (p : Posted) (m : ProcessTreeManager) → IsSound m → IsSound (run_posted p m)
unfolding run_posted notify_tree_changed
run_posted-IsSound begin_rundown m v = v
run_posted-IsSound (push u) m v = v

hijack_pid-IsSound :
    (pid : ℕ) (tree_mode : Bool) (gid : ℕ) (m : ProcessTreeManager)
    → IsSound m
    → IsSound (hijack_pid pid tree_mode gid m).0
unfolding hijack_pid notify_tree_changed
hijack_pid-IsSound pid tree_mode gid m v =
    let valid =
      IsValid-KeepsIdents m.tree _ (hijack_tree_or_one-KeepsIdents tree_mode pid gid m.tree) v in
    ground (arith, valid)

unhijack_pid-IsSound :
    (pid : ℕ) (tree_mode : Bool) (m : ProcessTreeManager)
    → IsSound m
    → IsSound (unhijack_pid pid tree_mode m).0
unfolding unhijack_pid notify_tree_changed
unhijack_pid-IsSound pid tree_mode m v =
    let valid =
      IsValid-KeepsIdents m.tree _ (unhijack_tree_or_one-KeepsIdents tree_mode pid m.tree) v in
    ground (arith, valid)

handle_stop-IsSound :
    (evt : ProcessEvent) (m : ProcessTreeManager) → IsSound m → IsSound (handle_stop evt m)
unfolding handle_stop notify_tree_changed
handle_stop-IsSound evt m v =
    let valid = tombstone-IsValid evt.pid evt.psn m.tree v in ground (arith, valid)

on_grace_timer-IsSound :
    (cancelled : Bool) (m : ProcessTreeManager) → IsSound m → IsSound (on_grace_timer cancelled m)
unfolding on_grace_timer notify_tree_changed
on_grace_timer-IsSound cancelled m v =
    let t = m.tree in
    let flat =
      KeepsIdents-entries t (flush_all m.orphans (t.entries, 0)).0
        (flush_all-idents m.orphans t.entries 0) in
    let valid = IsValid-KeepsIdents t _ flat v in ground (arith, valid)

module _ (cmdline image_path : ℕ → List ℕ) where
  handle_start_or_rundown-IsSound :
      (evt : ProcessEvent) (notify : Bool) (m : ProcessTreeManager)
      → IsSound m
      → IsSound (handle_start_or_rundown cmdline image_path evt notify m)
  unfolding handle_start_or_rundown
  handle_start_or_rundown-IsSound evt notify m v =
      elim (Bool-cases (find_by_pid_psn evt.pid evt.psn m.tree == invalid_idx)) [
        | inl new ↦
            IsValid-KeepsIdents (added evt m.tree) _
              (handle_start_or_rundown-KeepsIdents cmdline image_path evt notify m new)
              (add_entry-IsValid evt.pid evt.parent_pid evt.psn evt.parent_psn evt.create_time
                evt.image_name m.tree v)
        | inr known ↦ rw (known, handle_start_or_rundown) v
      ]

  apply_auto_rules_from_config-IsSound :
      (rules : List AutoRule) (m : ProcessTreeManager)
      → IsSound m
      → IsSound (apply_auto_rules_from_config cmdline image_path rules m)
  unfolding apply_auto_rules_from_config notify_tree_changed
  apply_auto_rules_from_config-IsSound rules m v =
      IsValid-KeepsIdents m.tree _
        (apply_auto_rules-KeepsIdents cmdline image_path m.tree (set_auto_rules rules m.rules)) v

  pub apply_etw_event_on_strand-IsSound :
      (e : EtwEvent) (m : ProcessTreeManager)
      → IsSound m
      → IsSound (apply_etw_event_on_strand cmdline image_path e m)
  unfolding apply_etw_event_on_strand handle_lost
  apply_etw_event_on_strand-IsSound (started evt) m v = handle_start_or_rundown-IsSound evt true m v
  apply_etw_event_on_strand-IsSound (rundown evt) m v = handle_start_or_rundown-IsSound evt true m v
  apply_etw_event_on_strand-IsSound (stopped evt) m v = handle_stop-IsSound evt m v
  apply_etw_event_on_strand-IsSound events_lost m v = ground arith

  module _ (live_psn : ℕ → ℕ) (live_process : ℕ → Option LiveProcess) where
    pub insert_chain-IsSound :
        (t : FlatTree) (chain : List LiveProcess) (m : ProcessTreeManager)
        → IsSound m
        → IsSound (insert_chain live_psn live_process cmdline image_path t chain m)
    unfolding insert_chain
    insert_chain-IsSound t [] m v = v
    insert_chain-IsSound t (info ∷ chain) m v =
        handle_start_or_rundown-IsSound
          (event_of info (parent_psn_in live_psn live_process info chain t)) false
          (insert_chain live_psn live_process cmdline image_path t chain m)
          (insert_chain-IsSound t chain m v)

    resolve_chain-IsSound :
        (pid : ℕ) (chain : List LiveProcess) (m : ProcessTreeManager)
        → IsSound m
        → IsSound (resolve_chain live_psn live_process cmdline image_path pid chain m).0
    unfolding resolve_chain
    resolve_chain-IsSound pid [] m v = v
    resolve_chain-IsSound pid (info ∷ chain) m v =
        let valid = insert_chain-IsSound m.tree (info ∷ chain) m v in ground (arith, valid)

    resolve_pid_now-IsSound :
        (pid : ℕ) (m : ProcessTreeManager)
        → IsSound m
        → IsSound (resolve_pid_now live_psn live_process cmdline image_path pid m).0
    unfolding resolve_pid_now
    resolve_pid_now-IsSound pid m v =
        let chain = climb live_psn live_process max_chain_depth pid m.tree in
        let valid = resolve_chain-IsSound pid chain m v in ground (arith, valid)

    pub operate : Operation → ProcessTreeManager → ProcessTreeManager
    operate (starts etw_ok) m = start etw_ok m
    operate stops m = stop m
    operate (adds_listener l) m = add_listener l m
    operate (runs_posted p) m = run_posted p m
    operate (hijacks pid tree_mode gid) m = (hijack_pid pid tree_mode gid m).0
    operate (unhijacks pid tree_mode) m = (unhijack_pid pid tree_mode m).0
    operate (batches add remove tree_mode gid) m = (batch_hijack add remove tree_mode gid m).0
    operate (excludes rule_id pid) m = (exclude_rule_pid rule_id pid m).0
    operate (unexcludes rule_id pid) m = (unexclude_rule_pid rule_id pid m).0
    operate (configures rules) m = apply_auto_rules_from_config cmdline image_path rules m
    operate (traces e) m = apply_etw_event_on_strand cmdline image_path e m
    operate (lost_timer cancelled) m = on_lost_timer cancelled m
    operate (grace_timer cancelled) m = on_grace_timer cancelled m
    operate (resolves pid) m = (resolve_pid_now live_psn live_process cmdline image_path pid m).0

    operate-IsSound : (o : Operation) (m : ProcessTreeManager) → IsSound m → IsSound (operate o m)
    unfolding operate start stop add_listener unexclude_rule_pid on_lost_timer notify_tree_changed
    operate-IsSound (starts etw_ok) m v = ground arith
    operate-IsSound stops m v = ground arith
    operate-IsSound (adds_listener l) m v = v
    operate-IsSound (runs_posted p) m v = run_posted-IsSound p m v
    operate-IsSound (hijacks pid tree_mode gid) m v = hijack_pid-IsSound pid tree_mode gid m v
    operate-IsSound (unhijacks pid tree_mode) m v = unhijack_pid-IsSound pid tree_mode m v
    operate-IsSound (batches add remove tree_mode gid) m v =
        batch_hijack-IsSound add remove tree_mode gid m v
    operate-IsSound (excludes rule_id pid) m v = exclude_rule_pid-IsSound rule_id pid m v
    operate-IsSound (unexcludes rule_id pid) m v = ground arith
    operate-IsSound (configures rules) m v = apply_auto_rules_from_config-IsSound rules m v
    operate-IsSound (traces e) m v = apply_etw_event_on_strand-IsSound e m v
    operate-IsSound (lost_timer cancelled) m v = ground arith
    operate-IsSound (grace_timer cancelled) m v = on_grace_timer-IsSound cancelled m v
    operate-IsSound (resolves pid) m v = resolve_pid_now-IsSound pid m v

    pub operate_all : List Operation → ProcessTreeManager → ProcessTreeManager
    operate_all [] m = m
    operate_all (o ∷ os) m = operate_all os (operate o m)

    -- Whatever operations, events, timers and resolved PIDs come in whatever order, a valid tree
    -- stays valid: the side map leads from each PID to its one alive entry and to nothing else, and
    -- the counts of alive entries and tombstones are right.
    pub operate_all-IsValid :
        (os : List Operation) (m : ProcessTreeManager)
        → IsValid m.tree
        → IsValid (operate_all os m).tree
    unfolding operate_all
    operate_all-IsValid [] m v = v
    operate_all-IsValid (o ∷ os) m v = operate_all-IsValid os (operate o m) (operate-IsSound o m v)
