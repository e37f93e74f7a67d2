-- ===== src/FlatTree/SideMap/Size.antt =====
-- src/process/flat_tree.hpp: how far the vector of entries grows.
use clew_proxy.Prelude.{
  ℕ, zero, suc, ◌+◌, ◌≤◌, ◌<◌, ◌≡◌, ap, sym, ◌∙◌, inl, inr, some, List, [], ◌∷◌, length,
  length-append, get_elem?, arith, Option-cases,
}
use clew_proxy.FlatTree.Entry.{FlatTree, lookup}
use clew_proxy.FlatTree.Links.{reparent_children, detach_from_parent}
use clew_proxy.FlatTree.Links.Frame.{
  Ident, idents, reparent_children-idents, detach_from_parent-idents,
}
use clew_proxy.FlatTree.SideMap.Idents.{Idents, idents-kill, length-bury}
use clew_proxy.FlatTree.SideMap.Compaction.{living, compact-idents}
use clew_proxy.FlatTree.SideMap.Preserved.{length-idents}
use clew_proxy.FlatTree.SideMap.{tombstone_entry, check_compact, tombstone, install, add_entry}

abbrev pub size : FlatTree → ℕ
size t = length (idents t.entries)

length-living : (ids : Idents) → length (living ids) ≤ length ids
length-living [] = omega arith
length-living (x ∷ xs) = ground (arith, length-living xs)

size-tombstone_entry : (i : ℕ) (t : FlatTree) → size (tombstone_entry i t) ≡ size t
unfolding tombstone_entry
size-tombstone_entry i t =
    let moved = reparent_children i t.entries in
    let unlinked = detach_from_parent i moved in
    let same = ap length (idents-kill i unlinked) ∙ length-bury i (idents unlinked) in
    let back =
      ap length (detach_from_parent-idents i moved ∙ reparent_children-idents i t.entries) in
    ground (arith, same, back)

size-check_compact : (t : FlatTree) → size (check_compact t) ≤ size t
unfolding check_compact
size-check_compact t =
    ground (arith, ap length (compact-idents t), length-living (idents t.entries))

-- A STOP adds no entry, and a START at most one.
pub size-tombstone : (pid psn : ℕ) (t : FlatTree) → size (tombstone pid psn t).0 ≤ size t
unfolding tombstone
size-tombstone pid psn t = elim (Option-cases (lookup pid t.side_map)) [
  | inl n ↦ ground arith
  | inr (s, e) ↦
      ground (arith, size-check_compact (tombstone_entry s.index t), size-tombstone_entry s.index t)
]

size-install :
    (pid parent_pid psn parent_psn create_time : ℕ) (name : List ℕ) (t : FlatTree)
    → size (install pid parent_pid psn parent_psn create_time name t).0 ≡ size t + 1
unfolding install
size-install pid parent_pid psn parent_psn create_time name t =
    length-idents _ ∙ (length-append t.entries _ ∙ ap (λ n. n + 1) (sym (length-idents t.entries)))

pub size-add_entry :
    (pid parent_pid psn parent_psn create_time : ℕ) (name : List ℕ) (t : FlatTree)
    → size (add_entry pid parent_pid psn parent_psn create_time name t).0 ≤ size t + 1
unfolding add_entry
size-add_entry pid parent_pid psn parent_psn create_time name t =
    elim (Option-cases (lookup pid t.side_map)) [
      | inl n ↦ ground (arith, size-install pid parent_pid psn parent_psn create_time name t)
      | inr (s, e) ↦ ground (
        arith,
        size-install pid parent_pid psn parent_psn create_time name (tombstone_entry s.index t),
        size-tombstone_entry s.index t,
      )
    ]

pub get_elem?-lt : (ids : Idents) (i : ℕ) (x : Ident) → get_elem? ids i ≡ some x → i < length ids
get_elem?-lt [] i x h = ground arith
get_elem?-lt (y ∷ ys) zero x h = omega arith
get_elem?-lt (y ∷ ys) (suc i) x h = omega (arith, get_elem?-lt ys i x h)
