-- ===== src/FlatTree/SideMap/Preserved.antt =====
-- src/process/flat_tree.hpp: tombstones and insertions keep the side map right.
use clew_proxy.Prelude.{
  ℕ, zero, suc, ◌+◌, ◌-◌, ◌≡◌, refl, ap, sym, ◌∙◌, inl, inr, true, ◌==◌, none, some, List, [], ◌∷◌,
  ◌++◌, length, get_elem?, arith, Bool-cases, Option-cases, length-append,
}
use clew_proxy.FlatTree.Entry.{
  ProcessEntry, SideEntry, FlatTree, no_entry, entry_at, update_at, lookup, erase,
}
use clew_proxy.FlatTree.Links.{Entries, reparent_children, detach_from_parent}
use clew_proxy.FlatTree.Links.Frame.{
  Ident, ident, idents, reparent_children-idents, detach_from_parent-idents,
}
use clew_proxy.FlatTree.SideMap.Idents.{
  Idents, alive_in, lookup-erase, bury, idents-kill, alive_in-bury, length-bury,
}
use clew_proxy.FlatTree.SideMap.Invariant.{IsValid, bury-IsIndexed, append-IsIndexed}
use clew_proxy.FlatTree.SideMap.{kill, forget, tombstone_entry, install, add_entry}

-- The tree after an alive entry is killed.
abbrev pub buried : ℕ → FlatTree → FlatTree
buried i t = record {
  entries = update_at i kill (detach_from_parent i (reparent_children i t.entries));
  side_map = erase (entry_at i t.entries).pid t.side_map;
  alive_count = t.alive_count - 1;
  tombstone_count = t.tombstone_count + 1;
}

pub entry_at-idents :
    (i : ℕ) (es : Entries) (x : Ident)
    → get_elem? (idents es) i ≡ some x
    → ident (entry_at i es) ≡ x
entry_at-idents i [] x h = ground arith
entry_at-idents zero (e ∷ es) x h = ground arith
entry_at-idents (suc i) (e ∷ es) x h = entry_at-idents i es x h

buried-idents : (i : ℕ) (t : FlatTree) → idents (buried i t).entries ≡ bury i (idents t.entries)
buried-idents i t =
    idents-kill i (detach_from_parent i (reparent_children i t.entries))
    ∙ ap (bury i) (
        detach_from_parent-idents i (reparent_children i t.entries)
        ∙ reparent_children-idents i t.entries)

buried-IsValid :
    (i : ℕ) (t : FlatTree)
    → get_elem? (idents t.entries) i ≡ some (ident (entry_at i t.entries))
    → (entry_at i t.entries).alive ≡ true
    → IsValid t
    → IsValid (buried i t)
buried-IsValid i t g a v =
    let one_less = alive_in-bury i (idents t.entries) (ident (entry_at i t.entries)) g a in
    record {
      indexed = rw (buried-idents i t) (
          bury-IsIndexed (idents t.entries) t.side_map i (ident (entry_at i t.entries)) g a
            v.indexed);
      alive = rw (buried-idents i t) (omega (arith, v.alive, one_less));
      buried =
          rw (buried-idents i t)
            (omega (arith, v.alive, v.buried, one_less, length-bury i (idents t.entries)));
    }

tombstone_entry-buried :
    (i : ℕ) (t : FlatTree)
    → get_elem? (idents t.entries) i ≡ some (ident (entry_at i t.entries))
    → (entry_at i t.entries).alive ≡ true
    → IsValid t
    → tombstone_entry i t ≡ buried i t
unfolding tombstone_entry forget
tombstone_entry-buried i t g a v =
    ground (arith, v.indexed.complete i (ident (entry_at i t.entries)) g a)

-- Turning the entry at an index within the vector into a tombstone keeps the tree valid: the side map
-- leads from each PID to its alive entry, and the counts of alive entries and tombstones are right.
pub tombstone_entry-IsValid :
    (i : ℕ) (t : FlatTree) (x : Ident)
    → get_elem? (idents t.entries) i ≡ some x
    → IsValid t
    → IsValid (tombstone_entry i t)
unfolding tombstone_entry
tombstone_entry-IsValid i t x g v =
    let here = g ∙ ap some (sym (entry_at-idents i t.entries x g)) in
    elim (Bool-cases (entry_at i t.entries).alive) [
      | inl a ↦ rw (tombstone_entry-buried i t here a v) (buried-IsValid i t here a v)
      | inr d ↦ rw d v
    ]

idents-append :
    (es : Entries) (e : ProcessEntry) → idents (es ++ e ∷ []) ≡ idents es ++ ident e ∷ []
idents-append [] e = refl
idents-append (x ∷ es) e = ap (λ (xs : Idents). ident x ∷ xs) (idents-append es e)

pub length-idents : (es : Entries) → length (idents es) ≡ length es
length-idents [] = refl
length-idents (x ∷ es) = ap suc (length-idents es)

alive_in-append :
    (ids : Idents) (x : Ident) → x.alive ≡ true → alive_in (ids ++ x ∷ []) ≡ alive_in ids + 1
alive_in-append [] x a = ground arith
alive_in-append (y ∷ ys) x a = omega (arith, alive_in-append ys x a)

install-IsValid :
    (pid parent_pid psn parent_psn create_time : ℕ) (name : List ℕ) (t : FlatTree)
    → lookup pid t.side_map ≡ none
    → IsValid t
    → IsValid (install pid parent_pid psn parent_psn create_time name t).0
unfolding install
install-IsValid pid parent_pid psn parent_psn create_time name t h v =
    let e : ProcessEntry = record no_entry {
      pid = pid;
      parent_pid = parent_pid;
      create_time = create_time;
      psn = psn;
      parent_psn = parent_psn;
      name_u8 = name;
    } in
    let new : Ident = record { pid = pid; psn = psn; alive = true } in
    record {
      indexed =
          rw (idents-append t.entries e, sym (length-idents t.entries))
            (append-IsIndexed (idents t.entries) t.side_map pid psn h v.indexed);
      alive =
          rw (idents-append t.entries e, alive_in-append (idents t.entries) new refl)
            (omega (arith, v.alive));
      buried =
          rw (idents-append t.entries e, length-append (idents t.entries) (new ∷ []))
            (omega (arith, v.buried));
    }

-- The entry that the map has for a PID leaves the map.
pub side_map-tombstone_entry :
    (p : ℕ) (s : SideEntry) (t : FlatTree)
    → lookup p t.side_map ≡ some s
    → IsValid t
    → (tombstone_entry s.index t).side_map ≡ erase p t.side_map
unfolding tombstone_entry
side_map-tombstone_entry p s t h v =
    let found = v.indexed.sound p s h in
    let same =
      entry_at-idents s.index t.entries (record { pid = p; psn = s.psn; alive = true }) found in
    let here = found ∙ ap some (sym same) in
    rw (tombstone_entry-buried s.index t here (ap (λ (x : Ident). x.alive) same) v)
      (ap (λ q. erase q t.side_map) (ap (λ (x : Ident). x.pid) same))

lookup-tombstone_entry :
    (p : ℕ) (s : SideEntry) (t : FlatTree)
    → lookup p t.side_map ≡ some s
    → IsValid t
    → lookup p (tombstone_entry s.index t).side_map ≡ none
lookup-tombstone_entry p s t h v =
    ground (arith, side_map-tombstone_entry p s t h v, lookup-erase p p t.side_map)

-- Adding a process keeps the tree valid: a PID that is known with the same PSN, one that is known
-- with another PSN, whose old entry becomes a tombstone, and one that is new.
pub add_entry-IsValid :
    (pid parent_pid psn parent_psn create_time : ℕ) (name : List ℕ) (t : FlatTree)
    → IsValid t
    → IsValid (add_entry pid parent_pid psn parent_psn create_time name t).0
unfolding add_entry
add_entry-IsValid pid parent_pid psn parent_psn create_time name t v =
    elim (Option-cases (lookup pid t.side_map)) [
      | inl n ↦
          rw (n, add_entry) (install-IsValid pid parent_pid psn parent_psn create_time name t n v)
      | inr (s, e) ↦ elim (Bool-cases (s.psn == psn)) [
        | inl same ↦ rw (e, same, add_entry) v
        | inr other ↦
            rw (e, other, add_entry)
              (install-IsValid pid parent_pid psn parent_psn create_time name
                (tombstone_entry s.index t) (lookup-tombstone_entry pid s t e v)
                (tombstone_entry-IsValid s.index t _ (v.indexed.sound pid s e) v))
      ]
    ]
