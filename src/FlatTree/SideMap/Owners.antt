-- ===== src/FlatTree/SideMap/Owners.antt =====
-- src/process/flat_tree.hpp: the tree seen from outside, as the map from a PID to the PSN of its owner.
use clew_proxy.Prelude.{
  ℕ, ◌≡◌, refl, ap, sym, ◌∙◌, inl, inr, Bool, true, false, ◌&&◌, ◌==◌, if◌then◌else◌, Option, none,
  some, List, get_elem?, arith, Option-cases,
}
use clew_proxy.FlatTree.Entry.{SideEntry, FlatTree, lookup, insert}
use clew_proxy.FlatTree.Links.Frame.{Ident, idents}
use clew_proxy.FlatTree.SideMap.Idents.{lookup-erase}
use clew_proxy.FlatTree.SideMap.Invariant.{IsValid}
use clew_proxy.FlatTree.SideMap.Preserved.{tombstone_entry-IsValid, side_map-tombstone_entry}
use clew_proxy.FlatTree.SideMap.Compaction.{living-old, living-new, compact-IsValid, compact-idents}
use clew_proxy.FlatTree.SideMap.{
  compact, check_compact, tombstone, tombstone_entry, install, add_entry,
}

abbrev psn_in : Option SideEntry → Option ℕ
psn_in none = none
psn_in (some s) = some s.psn

-- The PSN of the alive process that has the PID.
unfoldable pub owner : ℕ → FlatTree → Option ℕ
owner pid t = psn_in (lookup pid t.side_map)

compact_finds :
    (p : ℕ) (s : SideEntry) (t : FlatTree)
    → IsValid t
    → lookup p t.side_map ≡ some s
    → owner p (compact t) ≡ some s.psn
unfolding owner
compact_finds p s t v h =
    let x : Ident = record { pid = p; psn = s.psn; alive = true } in
    let (j, g) = living-new (idents t.entries) x s.index (v.indexed.sound p s h) refl in
    let there =
      (compact-IsValid t v).indexed.complete j x
        (ap (λ ids. get_elem? ids j) (compact-idents t) ∙ g) refl in
    ap psn_in there

compact_loses :
    (p : ℕ) (t : FlatTree) → IsValid t → lookup p t.side_map ≡ none → owner p (compact t) ≡ none
unfolding owner
compact_loses p t v h = elim (Option-cases (lookup p (compact t).side_map)) [
  | inl n ↦ ap psn_in n
  | inr (s, e) ↦
      let there = (compact-IsValid t v).indexed.sound p s e in
      let x : Ident = record { pid = p; psn = s.psn; alive = true } in
      let (i, g, a) =
        living-old (idents t.entries) x s.index
          (sym (ap (λ ids. get_elem? ids s.index) (compact-idents t)) ∙ there) in
      absurd (ground (arith, v.indexed.complete i x g a))
]

-- Compaction is invisible.
owner-compact : (p : ℕ) (t : FlatTree) → IsValid t → owner p (compact t) ≡ owner p t
unfolding owner
owner-compact p t v = elim (Option-cases (lookup p t.side_map)) [
  | inl n ↦ compact_loses p t v n ∙ sym (ap psn_in n)
  | inr (s, e) ↦ compact_finds p s t v e ∙ sym (ap psn_in e)
]

owner-check_compact : (p : ℕ) (t : FlatTree) → IsValid t → owner p (check_compact t) ≡ owner p t
unfolding check_compact
owner-check_compact p t v = ground (arith, owner-compact p t v)

owner-tombstone_entry :
    (p pid : ℕ) (s : SideEntry) (t : FlatTree)
    → lookup pid t.side_map ≡ some s
    → IsValid t
    → owner p (tombstone_entry s.index t) ≡ (if pid == p then none else owner p t)
unfolding owner
owner-tombstone_entry p pid s t h v =
    ground (arith, side_map-tombstone_entry pid s t h v, lookup-erase p pid t.side_map)

-- Whether the PSN is the one found.
abbrev pub is_psn : ℕ → Option ℕ → Bool
is_psn psn none = false
is_psn psn (some k) = k == psn

-- A STOP removes the owner of its PID if the PSN is that owner's, and then answers `true`; a stale
-- STOP, of another PSN, answers `false`. No other PID changes its owner, with or without compaction.
pub tombstone-owner :
    (p pid psn : ℕ) (t : FlatTree)
    → IsValid t
    → (owner p (tombstone pid psn t).0
        ≡ (if is_psn psn (owner pid t) && pid == p then none else owner p t))
      × ((tombstone pid psn t).1 ≡ is_psn psn (owner pid t))
unfolding tombstone owner
tombstone-owner p pid psn t v = elim (Option-cases (lookup pid t.side_map)) [
  | inl n ↦ ground arith
  | inr (s, e) ↦
      let valid = tombstone_entry-IsValid s.index t _ (v.indexed.sound pid s e) v in
      ground (
        arith,
        owner-check_compact p (tombstone_entry s.index t) valid,
        owner-tombstone_entry p pid s t e v,
      )
]

-- Adding a process makes its PSN the owner of its PID and changes no other owner.
pub add_entry-owner :
    (p pid parent_pid psn parent_psn create_time : ℕ) (name : List ℕ) (t : FlatTree)
    → IsValid t
    → owner p (add_entry pid parent_pid psn parent_psn create_time name t).0
      ≡ (if pid == p then some psn else owner p t)
unfolding add_entry install owner insert lookup
add_entry-owner p pid parent_pid psn parent_psn create_time name t v =
    elim (Option-cases (lookup pid t.side_map)) [
      | inl n ↦ ground arith
      | inr (s, e) ↦ ground (arith, owner-tombstone_entry p pid s t e v)
    ]
