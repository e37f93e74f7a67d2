-- ===== src/ProcessTreeManager/Frame.antt =====
-- src/domain/process_tree_manager.cpp: links, orphans and rules leave what finds the entries alone, so a
-- START changes it as `add_entry` does.
use clew_proxy.Prelude.{
  ℕ, ◌+◌, ◌≡◌, refl, ◌∙◌, inl, inr, Bool, true, false, ◌==◌, if◌then◌else◌, List, [], ◌∷◌, arith,
  Option-cases, Bool-cases,
}
use mathlib.Core.Path.{subst}
use clew_proxy.FlatTree.Entry.{FlatTree, find_by_pid_psn, invalid_idx}
use clew_proxy.FlatTree.Links.{Entries, attach_child, mark_root}
use clew_proxy.FlatTree.Links.Frame.{idents, attach_child-idents, mark_root-idents}
use clew_proxy.FlatTree.SideMap.{add_entry}
use clew_proxy.FlatTree.SideMap.Kept.{
  KeepsIdents, KeepsIdents-refl, KeepsIdents-entries, KeepsIdents-trans,
}
use clew_proxy.Rules.Engine.Frame.Trees.{
  manual_hijack-KeepsIdents, manual_unhijack-KeepsIdents, manual_hijack_tree-KeepsIdents,
  manual_unhijack_tree-KeepsIdents, on_process_start-KeepsIdents,
}
use clew_proxy.ProcessTreeManager.{
  ProcessTreeManager, PushUrgency, is_known, hijack_tree_or_one, unhijack_tree_or_one, hijack_each,
  unhijack_each, notify_tree_changed,
}
use clew_proxy.ProcessTreeManager.Events.{
  ProcessEvent, link_or_orphan, is_waiting, attach_each, drain_orphans_for, orphans_of,
  forget_owner, with_entry, classify, handle_start_or_rundown, flush_each, flush_all,
}

link_or_orphan-KeepsIdents :
    (i : ℕ) (evt : ProcessEvent) (m : ProcessTreeManager)
    → KeepsIdents m.tree (link_or_orphan i evt m).tree
unfolding link_or_orphan
link_or_orphan-KeepsIdents i evt m =
    let t = m.tree in
    let p = find_by_pid_psn evt.parent_pid evt.parent_psn t in
    ground (
      arith,
      KeepsIdents-refl t,
      KeepsIdents-entries t (attach_child p i t.entries) (attach_child-idents p i t.entries),
      KeepsIdents-entries t (mark_root i t.entries) (mark_root-idents i t.entries),
    )

attach_each-idents : (p : ℕ) (is : List ℕ) (es : Entries) → idents (attach_each p is es) ≡ idents es
unfolding attach_each
attach_each-idents p [] es = refl
attach_each-idents p (i ∷ is) es =
    attach_each-idents p is (if is_waiting i es then attach_child p i es else es)
    ∙ ground (arith, attach_child-idents p i es)

drain_orphans_for-KeepsIdents :
    (psn i : ℕ) (m : ProcessTreeManager) → KeepsIdents m.tree (drain_orphans_for psn i m).tree
unfolding drain_orphans_for
drain_orphans_for-KeepsIdents psn i m = elim (Option-cases (orphans_of psn m.orphans)) [
  | inl n ↦ rw (n, drain_orphans_for) (KeepsIdents-refl m.tree)
  | inr (is, s) ↦
      rw (s, drain_orphans_for)
        (KeepsIdents-entries m.tree (attach_each i is m.tree.entries)
          (attach_each-idents i is m.tree.entries))
]

-- The tree to which a START adds its entry.
abbrev pub added : ProcessEvent → FlatTree → FlatTree
added evt t =
    (add_entry evt.pid evt.parent_pid evt.psn evt.parent_psn evt.create_time evt.image_name t).0

forget_owner-tree : (pid : ℕ) (m : ProcessTreeManager) → (forget_owner pid m).tree ≡ m.tree
forget_owner-tree pid m = ground arith

pub notify_tree_changed-tree :
    (u : PushUrgency) (m : ProcessTreeManager) → (notify_tree_changed u m).tree ≡ m.tree
unfolding notify_tree_changed
notify_tree_changed-tree u m = refl

module _ (cmdline image_path : ℕ → List ℕ) where
  classified-KeepsIdents :
      (evt : ProcessEvent) (m : ProcessTreeManager)
      → let (m1, idx) = with_entry evt (forget_owner evt.pid m) in
        KeepsIdents
          (added evt m.tree)
          (classify cmdline image_path idx
            (drain_orphans_for evt.psn idx (link_or_orphan idx evt m1))).tree
  classified-KeepsIdents evt m =
      let (m1, idx) = with_entry evt (forget_owner evt.pid m) in
      let m2 = link_or_orphan idx evt m1 in
      let m3 = drain_orphans_for evt.psn idx m2 in
      let from : KeepsIdents m1.tree (classify cmdline image_path idx m3).tree =
        KeepsIdents-trans m1.tree m2.tree _ (link_or_orphan-KeepsIdents idx evt m1) (
          KeepsIdents-trans m2.tree m3.tree _ (drain_orphans_for-KeepsIdents evt.psn idx m2)
            (on_process_start-KeepsIdents cmdline image_path idx m3.tree m3.rules)) in
      subst (λ t. KeepsIdents (added evt t) (classify cmdline image_path idx m3).tree)
        (forget_owner-tree evt.pid m) from

  -- A START of a process that is not known under its PSN.
  pub handle_start_or_rundown-KeepsIdents :
      (evt : ProcessEvent) (notify : Bool) (m : ProcessTreeManager)
      → (find_by_pid_psn evt.pid evt.psn m.tree == invalid_idx) ≡ true
      → KeepsIdents
          (added evt m.tree)
          (handle_start_or_rundown cmdline image_path evt notify m).tree
  unfolding handle_start_or_rundown notify_tree_changed
  handle_start_or_rundown-KeepsIdents evt true m h = rw h (classified-KeepsIdents evt m)
  handle_start_or_rundown-KeepsIdents evt false m h = rw h (classified-KeepsIdents evt m)

pub flush_each-idents :
    (is : List ℕ) (es : Entries) (n : ℕ) → idents (flush_each is (es, n)).0 ≡ idents es
unfolding flush_each
flush_each-idents [] es n = refl
flush_each-idents (i ∷ is) es n = elim (Bool-cases (is_waiting i es)) [
  | inl w ↦
      rw (w, flush_each) (flush_each-idents is (mark_root i es) (n + 1) ∙ mark_root-idents i es)
  | inr w ↦ rw (w, flush_each) (flush_each-idents is es n)
]

pub flush_all-idents :
    (o : List (ℕ × List ℕ)) (es : Entries) (n : ℕ) → idents (flush_all o (es, n)).0 ≡ idents es
unfolding flush_all
flush_all-idents [] es n = refl
flush_all-idents ((psn, is) ∷ o) es n =
    let (es1, n1) = flush_each is (es, n) in flush_all-idents o es1 n1 ∙ flush_each-idents is es n

pub hijack_tree_or_one-KeepsIdents :
    (tree_mode : Bool) (pid gid : ℕ) (t : FlatTree)
    → KeepsIdents t (hijack_tree_or_one tree_mode pid gid t)
hijack_tree_or_one-KeepsIdents true pid gid t = manual_hijack_tree-KeepsIdents pid gid t
hijack_tree_or_one-KeepsIdents false pid gid t = manual_hijack-KeepsIdents pid gid t

pub unhijack_tree_or_one-KeepsIdents :
    (tree_mode : Bool) (pid : ℕ) (t : FlatTree)
    → KeepsIdents t (unhijack_tree_or_one tree_mode pid t)
unhijack_tree_or_one-KeepsIdents true pid t = manual_unhijack_tree-KeepsIdents pid t
unhijack_tree_or_one-KeepsIdents false pid t = manual_unhijack-KeepsIdents pid t

pub hijack_each-KeepsIdents :
    (tree_mode : Bool) (gid : ℕ) (pids : List ℕ) (t : FlatTree) (n : ℕ)
    → KeepsIdents t (hijack_each tree_mode gid pids (t, n)).0
unfolding hijack_each
hijack_each-KeepsIdents tree_mode gid [] t n = KeepsIdents-refl t
hijack_each-KeepsIdents tree_mode gid (pid ∷ pids) t n = elim (Bool-cases (is_known pid t)) [
  | inl k ↦
      let u = hijack_tree_or_one tree_mode pid gid t in
      rw (k, hijack_each)
        (KeepsIdents-trans t u _ (hijack_tree_or_one-KeepsIdents tree_mode pid gid t)
          (hijack_each-KeepsIdents tree_mode gid pids u (n + 1)))
  | inr k ↦ rw (k, hijack_each) (hijack_each-KeepsIdents tree_mode gid pids t n)
]

pub unhijack_each-KeepsIdents :
    (tree_mode : Bool) (pids : List ℕ) (t : FlatTree) (n : ℕ)
    → KeepsIdents t (unhijack_each tree_mode pids (t, n)).0
unfolding unhijack_each
unhijack_each-KeepsIdents tree_mode [] t n = KeepsIdents-refl t
unhijack_each-KeepsIdents tree_mode (pid ∷ pids) t n = elim (Bool-cases (is_known pid t)) [
  | inl k ↦
      let u = unhijack_tree_or_one tree_mode pid t in
      rw (k, unhijack_each)
        (KeepsIdents-trans t u _ (unhijack_tree_or_one-KeepsIdents tree_mode pid t)
          (unhijack_each-KeepsIdents tree_mode pids u (n + 1)))
  | inr k ↦ rw (k, unhijack_each) (unhijack_each-KeepsIdents tree_mode pids t n)
]
