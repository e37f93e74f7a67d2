-- ===== src/FlatTree/SideMap/Ends.antt =====
-- src/process/flat_tree.hpp: which insertions and tombstones come to an end. `compact` always does.
use clew_proxy.Prelude.{ℕ, Bool, true, not, ◌&&◌, ◌||◌, ◌==◌, none, some}
use clew_proxy.FlatTree.Entry.{FlatTree, entry_at, lookup}
use clew_proxy.FlatTree.Links.{reparent_children}
use clew_proxy.FlatTree.Links.Ends.{detach_ends, reparent_children_ends}

unfoldable pub tombstone_entry_ends : ℕ → FlatTree → Bool
unfolding reparent_children reparent_children_ends detach_ends
tombstone_entry_ends idx t =
    not (entry_at idx t.entries).alive
    || (reparent_children_ends idx t.entries && detach_ends idx (reparent_children idx t.entries))

unfoldable pub tombstone_ends : ℕ → ℕ → FlatTree → Bool
unfolding lookup tombstone_entry_ends
tombstone_ends pid psn t = elim (lookup pid t.side_map) [
  | none ↦ true
  | some s ↦ not (s.psn == psn) || tombstone_entry_ends s.index t
]

unfoldable pub add_entry_ends : ℕ → ℕ → FlatTree → Bool
unfolding lookup tombstone_entry_ends
add_entry_ends pid psn t = elim (lookup pid t.side_map) [
  | none ↦ true
  | some s ↦ s.psn == psn || tombstone_entry_ends s.index t
]
