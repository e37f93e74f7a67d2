-- ===== src/ProcessTreeManager/Resolve.antt =====
-- src/domain/process_tree_manager.cpp: `resolve_pid_now`, which inserts a process and its unknown
-- ancestors before their events arrive. `query_live_psn` and `query_live_process` ask the operating
-- system and are parameters.
pub mod Freshness
use clew_proxy.Prelude.{
  ℕ, zero, suc, Bool, true, false, not, ◌&&◌, ◌||◌, ◌==◌, if◌then◌else◌, leb, Option, none, some,
  List, [], ◌∷◌, ◌++◌,
}
use clew_proxy.FlatTree.Entry.{
  FlatTree, entry_at, find_by_pid, invalid_idx, invalid_psn, root_psn_sentinel,
}
use clew_proxy.ProcessTreeManager.{ProcessTreeManager, PushUrgency, batched, Posted, push, is_known}
use clew_proxy.ProcessTreeManager.Events.{ProcessEvent, handle_start_or_rundown}

pub record LiveProcess : Type 0 where
  pub pid : ℕ
  pub parent_pid : ℕ
  pub psn : ℕ
  pub create_time : ℕ
  pub name : List ℕ

abbrev pub max_chain_depth : ℕ
max_chain_depth = 16

abbrev pub event_of : LiveProcess → ℕ → ProcessEvent
event_of info parent_psn = record {
  pid = info.pid;
  psn = info.psn;
  parent_pid = info.parent_pid;
  parent_psn = parent_psn;
  create_time = info.create_time;
  image_name = info.name;
}

module _ (query_live_psn : ℕ → ℕ) (query_live_process : ℕ → Option LiveProcess) where
  -- The walk up from the connecting process, for `depth` more turns.
  unfoldable pub climb : ℕ → ℕ → FlatTree → List LiveProcess
  unfolding find_by_pid
  climb zero cursor t = []
  climb (suc depth) cursor t = elim (query_live_process cursor) [
    | none ↦ []
    | some info ↦
        let above = climb depth info.parent_pid t in
        if info.parent_pid == 0
        then info ∷ []
        else if is_known info.parent_pid t
        then info ∷ []
        else info ∷ above
  ]

  -- The PSN of the parent of the topmost process.
  unfoldable pub psn_above : LiveProcess → FlatTree → ℕ
  unfolding find_by_pid
  psn_above top t =
      let pidx = find_by_pid top.parent_pid t in
      let known = entry_at pidx t.entries in
      if top.parent_pid == 0 then root_psn_sentinel else elim (query_live_process top.parent_pid) [
        | some ancestor ↦ ancestor.psn
        | none ↦
            if not (pidx == invalid_idx) && leb known.create_time top.create_time
            then known.psn
            else root_psn_sentinel
      ]

  -- The parent PSN of the process at the head, with the rest of the chain above it.
  unfoldable pub parent_psn_in : LiveProcess → List LiveProcess → FlatTree → ℕ
  unfolding psn_above
  parent_psn_in info [] t = psn_above info t
  parent_psn_in info (above ∷ chain) t = above.psn

  -- A known PID that is to be kept: its PSN cannot be read, or is the one in the tree.
  unfoldable pub is_current : ℕ → FlatTree → Bool
  unfolding find_by_pid
  is_current pid t =
      let live = query_live_psn pid in
      is_known pid t
      && (live == invalid_psn || live == (entry_at (find_by_pid pid t) t.entries).psn)

  module _ (query_cmdline query_image_path : ℕ → List ℕ) where
    -- The loop from the top of the chain down; `t` is the tree before it.
    unfoldable pub insert_chain :
        FlatTree → List LiveProcess → ProcessTreeManager → ProcessTreeManager
    unfolding parent_psn_in handle_start_or_rundown
    insert_chain t [] m = m
    insert_chain t (info ∷ chain) m =
        handle_start_or_rundown query_cmdline query_image_path
          (event_of info (parent_psn_in info chain t)) false (insert_chain t chain m)

    abbrev pub answer : ℕ → ProcessTreeManager → ProcessTreeManager × Bool
    answer pid m =
        if not (is_known pid m.tree)
        then (m, false)
        else (record m { posted = m.posted ++ push batched ∷ [] }, true)

    unfoldable pub resolve_chain :
        ℕ → List LiveProcess → ProcessTreeManager → ProcessTreeManager × Bool
    unfolding insert_chain
    resolve_chain pid [] m = (m, false)
    resolve_chain pid (info ∷ chain) m = answer pid (insert_chain m.tree (info ∷ chain) m)

    unfoldable pub resolve_pid_now : ℕ → ProcessTreeManager → ProcessTreeManager × Bool
    unfolding is_current resolve_chain climb
    resolve_pid_now pid m =
        if pid == 0
        then (m, false)
        else if is_current pid m.tree
        then (m, true)
        else resolve_chain pid (climb max_chain_depth pid m.tree) m
