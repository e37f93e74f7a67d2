-- ===== src/FlatTree/SideMap.antt =====
-- src/process/flat_tree.hpp: insertion, tombstones and compaction, which keep the side map.
pub mod Idents
pub mod Invariant
pub mod Preserved
pub mod Compaction
pub mod Owners
pub mod Kept
pub mod Size
pub mod Ends
use clew_proxy.Prelude.{
  ℕ, zero, suc, ◌+◌, ◌-◌, ◌/◌, Bool, true, false, not, ◌&&◌, if◌then◌else◌, ltb, ◌==◌, Option, none,
  some, List, [], ◌∷◌, ◌++◌, length,
}
use clew_proxy.FlatTree.Entry.{
  ProcessEntry, SideEntry, SideMap, FlatTree, no_entry, entry_at, update_at, lookup, insert, erase,
  no_proxy,
}
use clew_proxy.FlatTree.Links.{
  Entries, reparent_children, detach_from_parent, rebuild_lc_rs_links, attach_child, mark_root,
}

abbrev pub kill : ProcessEntry → ProcessEntry
kill e = record e { alive = false; group_id = no_proxy; flags = 0 }

-- Erase the PID from the side map, if it still leads to this index.
unfoldable pub forget : ℕ → ℕ → SideMap → SideMap
forget pid idx m = elim (lookup pid m) [
  | none ↦ m
  | some s ↦ if s.index == idx then erase pid m else m
]

unfoldable pub tombstone_entry : ℕ → FlatTree → FlatTree
unfolding forget
tombstone_entry idx t =
    let entry = entry_at idx t.entries in
    let unlinked = detach_from_parent idx (reparent_children idx t.entries) in
    if not entry.alive then t else record {
      entries = update_at idx kill unlinked;
      side_map = forget entry.pid idx t.side_map;
      alive_count = t.alive_count - 1;
      tombstone_count = t.tombstone_count + 1;
    }

-- `std::erase_if` of the entries that are not alive.
unfoldable pub keep_alive : Entries → Entries
keep_alive [] = []
keep_alive (e ∷ es) = let rest = keep_alive es in if e.alive then e ∷ rest else rest

-- The side map of a vector, from index `i` on, over a map `m`.
unfoldable pub index_entries : ℕ → Entries → SideMap → SideMap
index_entries i [] m = m
index_entries i (e ∷ es) m =
    index_entries (i + 1) es (insert e.pid (record { index = i; psn = e.psn }) m)

unfoldable pub compact : FlatTree → FlatTree
unfolding keep_alive index_entries
compact t =
    let kept = keep_alive t.entries in
    let m = index_entries 0 kept [] in
    record {
      entries = rebuild_lc_rs_links m kept;
      side_map = m;
      alive_count = length kept;
      tombstone_count = 0;
    }

unfoldable pub check_compact : FlatTree → FlatTree
check_compact t =
    if ltb 0 t.alive_count && ltb (t.alive_count / 5) t.tombstone_count then compact t else t

unfoldable pub tombstone : ℕ → ℕ → FlatTree → FlatTree × Bool
tombstone pid psn t = elim (lookup pid t.side_map) [
  | none ↦ (t, false)
  | some s ↦ if s.psn == psn then (check_compact (tombstone_entry s.index t), true) else (t, false)
]

-- The end of `add_entry`: install a new entry at the end of the vector.
unfoldable pub install : ℕ → ℕ → ℕ → ℕ → ℕ → List ℕ → FlatTree → FlatTree × ℕ
install pid parent_pid psn parent_psn create_time name t =
    let e = record no_entry {
      pid = pid;
      parent_pid = parent_pid;
      create_time = create_time;
      psn = psn;
      parent_psn = parent_psn;
      name_u8 = name;
    } in
    let idx = length t.entries in
    (
      record t {
        entries = t.entries ++ e ∷ [];
        side_map = insert pid (record { index = idx; psn = psn }) t.side_map;
        alive_count = t.alive_count + 1;
      },
      idx,
    )

unfoldable pub add_entry : ℕ → ℕ → ℕ → ℕ → ℕ → List ℕ → FlatTree → FlatTree × ℕ
add_entry pid parent_pid psn parent_psn create_time name t = elim (lookup pid t.side_map) [
  | none ↦ install pid parent_pid psn parent_psn create_time name t
  | some s ↦
      if s.psn == psn
      then (t, s.index)
      else install pid parent_pid psn parent_psn create_time name (tombstone_entry s.index t)
]
