-- ===== src/ProcessTreeManager/Batches.antt =====
-- src/domain/process_tree_manager.cpp: which requests of users change the tree, and who hears of it.
use clew_proxy.Prelude.{
  ℕ, ◌+◌, ◌≡◌, refl, ◌∙◌, inl, inr, Bool, ltb, if◌then◌else◌, List, [], ◌∷◌, arith, Bool-cases,
}
use clew_proxy.FlatTree.Entry.{FlatTree, find_by_pid}
use clew_proxy.FlatTree.SideMap.Kept.{KeepsIdents}
use clew_proxy.ProcessTreeManager.{
  ProcessTreeManager, immediate, is_known, hijack_tree_or_one, unhijack_tree_or_one, hijack_each,
  unhijack_each, batch_hijack, call_listeners, notify_tree_changed,
}
use clew_proxy.ProcessTreeManager.Frame.{
  hijack_tree_or_one-KeepsIdents, unhijack_tree_or_one-KeepsIdents, hijack_each-KeepsIdents,
}

-- How many of the PIDs the tree knows.
pub known_in : List ℕ → FlatTree → ℕ
known_in [] t = 0
known_in (pid ∷ pids) t = known_in pids t + (if is_known pid t then 1 else 0)

known_in-KeepsIdents :
    (pids : List ℕ) (t t' : FlatTree) → KeepsIdents t t' → known_in pids t' ≡ known_in pids t
unfolding known_in find_by_pid
known_in-KeepsIdents [] t t' k = refl
known_in-KeepsIdents (pid ∷ pids) t t' k =
    ground (arith, k.side_map, known_in-KeepsIdents pids t t' k)

count-hijack_each :
    (tree_mode : Bool) (gid : ℕ) (pids : List ℕ) (t : FlatTree) (n : ℕ)
    → (hijack_each tree_mode gid pids (t, n)).1 ≡ n + known_in pids t
unfolding hijack_each known_in
count-hijack_each tree_mode gid [] t n = omega arith
count-hijack_each tree_mode gid (pid ∷ pids) t n = elim (Bool-cases (is_known pid t)) [
  | inl k ↦
      let u = hijack_tree_or_one tree_mode pid gid t in
      let same =
        known_in-KeepsIdents pids t u (hijack_tree_or_one-KeepsIdents tree_mode pid gid t) in
      rw (k, hijack_each) (count-hijack_each tree_mode gid pids u (n + 1) ∙ omega (arith, same))
  | inr k ↦ rw (k, hijack_each) (count-hijack_each tree_mode gid pids t n ∙ omega arith)
]

count-unhijack_each :
    (tree_mode : Bool) (pids : List ℕ) (t : FlatTree) (n : ℕ)
    → (unhijack_each tree_mode pids (t, n)).1 ≡ n + known_in pids t
unfolding unhijack_each known_in
count-unhijack_each tree_mode [] t n = omega arith
count-unhijack_each tree_mode (pid ∷ pids) t n = elim (Bool-cases (is_known pid t)) [
  | inl k ↦
      let u = unhijack_tree_or_one tree_mode pid t in
      let same = known_in-KeepsIdents pids t u (unhijack_tree_or_one-KeepsIdents tree_mode pid t) in
      rw (k, unhijack_each) (count-unhijack_each tree_mode pids u (n + 1) ∙ omega (arith, same))
  | inr k ↦ rw (k, unhijack_each) (count-unhijack_each tree_mode pids t n ∙ omega arith)
]

-- A batch answers `true` exactly if the tree knows one of the PIDs to add or to remove. Then each
-- listener is called once with an immediate urgency, whatever the number of PIDs; else nobody is.
pub batch_hijack_lem :
    (add remove : List ℕ) (tree_mode : Bool) (gid : ℕ) (m : ProcessTreeManager)
    → let hit = ltb 0 (known_in add m.tree + known_in remove m.tree) in
      ((batch_hijack add remove tree_mode gid m).1 ≡ hit)
      × ((batch_hijack add remove tree_mode gid m).0.pushed
          ≡ (if hit then call_listeners m.listeners immediate m.pushed else m.pushed))
unfolding batch_hijack notify_tree_changed
batch_hijack_lem add remove tree_mode gid m =
    let (t, n) = hijack_each tree_mode gid add (m.tree, 0) in
    let same =
      known_in-KeepsIdents remove m.tree t (hijack_each-KeepsIdents tree_mode gid add m.tree 0) in
    let count = count-unhijack_each tree_mode remove t n in
    let first = count-hijack_each tree_mode gid add m.tree 0 in ground (arith, same, count, first)
