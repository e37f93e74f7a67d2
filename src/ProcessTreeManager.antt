-- ===== src/ProcessTreeManager.antt =====
-- src/domain/process_tree_manager.cpp: the state of the manager, its listeners, its life cycle and the
-- changes that users ask for.
--
-- The pointers to listeners are numbers; `pushed` logs each call of `on_tree_changed`, the newest first.
-- Work posted to the strand waits in `posted`. `etw_ok` is the answer of the event consumer's `start`.
pub mod Events
pub mod Ends
pub mod Resolve
pub mod Frame
pub mod Validity
pub mod Owners
pub mod Batches
use clew_proxy.Prelude.{
  ℕ, ◌+◌, Bool, true, false, not, ◌==◌, if◌then◌else◌, ltb, Option, List, [], ◌∷◌, ◌++◌, map,
}
use clew_proxy.FlatTree.Entry.{FlatTree, empty_tree, find_by_pid, invalid_idx}
use clew_proxy.Rules.Engine.{AutoRule, RuleEngine, fresh_engine, set_auto_rules}
use clew_proxy.Rules.Engine.Match.{apply_auto_rules}
use clew_proxy.Rules.Engine.Hijack.{
  manual_hijack, manual_hijack_tree, manual_unhijack, manual_unhijack_tree, exclude_pid,
  unexclude_pid,
}

pub data PushUrgency : Type 0 where
  immediate batched : PushUrgency

-- What is posted to the strand: the start of the rundown, and a notification.
pub data Posted : Type 0 where
  begin_rundown : Posted
  push : PushUrgency → Posted

-- `orphans` has for the PSN of a parent the indices of the entries that wait for it.
pub record ProcessTreeManager : Type 0 where
  pub tree : FlatTree
  pub rules : RuleEngine
  pub orphans : List (ℕ × List ℕ)
  pub listeners : List ℕ
  pub pushed : List (ℕ × PushUrgency)
  pub posted : List Posted
  pub started : Bool
  pub lost_pending : Bool
  pub rundown_requests : ℕ
  pub grace_armed : Bool

abbrev pub fresh_manager : ProcessTreeManager
fresh_manager = record {
  tree = empty_tree;
  rules = fresh_engine;
  orphans = [];
  listeners = [];
  pushed = [];
  posted = [];
  started = false;
  lost_pending = false;
  rundown_requests = 0;
  grace_armed = false;
}

unfoldable pub start : Bool → ProcessTreeManager → ProcessTreeManager
start etw_ok m =
    let running = record m { started = true } in
    if m.started
    then m
    else if not etw_ok
    then running
    else record running { posted = m.posted ++ begin_rundown ∷ [] }

-- The timers that `stop` cancels call their handlers with an error.
unfoldable pub stop : ProcessTreeManager → ProcessTreeManager
stop m = if not m.started then m else record m { started = false }

unfoldable pub add_listener : ℕ → ProcessTreeManager → ProcessTreeManager
add_listener l m = record m { listeners = m.listeners ++ l ∷ [] }

-- The loop over the listeners.
unfoldable pub call_listeners :
    List ℕ → PushUrgency → List (ℕ × PushUrgency) → List (ℕ × PushUrgency)
call_listeners [] u log = log
call_listeners (l ∷ ls) u log = call_listeners ls u ((l, u) ∷ log)

unfoldable pub notify_tree_changed : PushUrgency → ProcessTreeManager → ProcessTreeManager
unfolding call_listeners
notify_tree_changed u m = record m { pushed = call_listeners m.listeners u m.pushed }

-- What is posted runs on a later turn of the strand.
unfoldable pub run_posted : Posted → ProcessTreeManager → ProcessTreeManager
unfolding notify_tree_changed
run_posted begin_rundown m = record m {
  rundown_requests = m.rundown_requests + 1;
  grace_armed = true;
}
run_posted (push u) m = notify_tree_changed u m

abbrev pub is_known : ℕ → FlatTree → Bool
is_known pid t = not (find_by_pid pid t == invalid_idx)

abbrev pub hijack_tree_or_one : Bool → ℕ → ℕ → FlatTree → FlatTree
hijack_tree_or_one tree_mode pid gid t =
    if tree_mode then manual_hijack_tree pid gid t else manual_hijack pid gid t

abbrev pub unhijack_tree_or_one : Bool → ℕ → FlatTree → FlatTree
unhijack_tree_or_one tree_mode pid t =
    if tree_mode then manual_unhijack_tree pid t else manual_unhijack pid t

unfoldable pub hijack_pid : ℕ → Bool → ℕ → ProcessTreeManager → ProcessTreeManager × Bool
unfolding notify_tree_changed find_by_pid
hijack_pid pid tree_mode gid m =
    let changed = record m { tree = hijack_tree_or_one tree_mode pid gid m.tree } in
    if not (is_known pid m.tree) then (m, false) else (notify_tree_changed immediate changed, true)

unfoldable pub unhijack_pid : ℕ → Bool → ProcessTreeManager → ProcessTreeManager × Bool
unfolding notify_tree_changed find_by_pid
unhijack_pid pid tree_mode m =
    let changed = record m { tree = unhijack_tree_or_one tree_mode pid m.tree } in
    if not (is_known pid m.tree) then (m, false) else (notify_tree_changed immediate changed, true)

-- The two loops of `batch_hijack`, with the number of changes.
unfoldable pub hijack_each : Bool → ℕ → List ℕ → FlatTree × ℕ → FlatTree × ℕ
unfolding find_by_pid
hijack_each tree_mode gid [] (t, n) = (t, n)
hijack_each tree_mode gid (pid ∷ pids) (t, n) =
    hijack_each tree_mode gid pids
      (if is_known pid t then (hijack_tree_or_one tree_mode pid gid t, n + 1) else (t, n))

unfoldable pub unhijack_each : Bool → List ℕ → FlatTree × ℕ → FlatTree × ℕ
unfolding find_by_pid
unhijack_each tree_mode [] (t, n) = (t, n)
unhijack_each tree_mode (pid ∷ pids) (t, n) =
    unhijack_each tree_mode pids
      (if is_known pid t then (unhijack_tree_or_one tree_mode pid t, n + 1) else (t, n))

unfoldable pub batch_hijack :
    List ℕ → List ℕ → Bool → ℕ → ProcessTreeManager → ProcessTreeManager × Bool
unfolding notify_tree_changed hijack_each unhijack_each
batch_hijack add remove tree_mode gid m =
    let (t, n) = unhijack_each tree_mode remove (hijack_each tree_mode gid add (m.tree, 0)) in
    let changed = record m { tree = t } in
    (if ltb 0 n then notify_tree_changed immediate changed else changed, ltb 0 n)

unfoldable pub exclude_rule_pid : List ℕ → ℕ → ProcessTreeManager → ProcessTreeManager × Bool
unfolding notify_tree_changed exclude_pid
exclude_rule_pid rule_id pid m =
    let ((t, e), ok) = exclude_pid rule_id pid (m.tree, m.rules) in
    let changed = record m { tree = t; rules = e } in
    (if ok then notify_tree_changed immediate changed else changed, ok)

unfoldable pub unexclude_rule_pid : List ℕ → ℕ → ProcessTreeManager → ProcessTreeManager × Bool
unfolding notify_tree_changed unexclude_pid
unexclude_rule_pid rule_id pid m =
    let (e, ok) = unexclude_pid rule_id pid m.rules in
    let changed = record m { rules = e } in
    (if ok then notify_tree_changed immediate changed else changed, ok)

module _ (query_cmdline query_image_path : ℕ → List ℕ) where
  unfoldable pub apply_auto_rules_from_config :
      List AutoRule → ProcessTreeManager → ProcessTreeManager
  unfolding notify_tree_changed set_auto_rules apply_auto_rules
  apply_auto_rules_from_config rules m =
      let (t, e) =
        apply_auto_rules query_cmdline query_image_path (m.tree, set_auto_rules rules m.rules) in
      notify_tree_changed immediate (record m { tree = t; rules = e })
