-- ===== src/FlatTree/SideMap/Compaction.antt =====
-- src/process/flat_tree.hpp: compaction, which renumbers the entries, keeps the side map right.
use clew_proxy.Prelude.{
  ℕ, zero, suc, ◌+◌, ◌≡◌, refl, sym, ◌∙◌, ◌⊎◌, inl, inr, true, ◌==◌, if◌then◌else◌, some, [], ◌∷◌,
  length, get_elem?, arith, Option-cases, Bool-cases,
}
use clew_proxy.FlatTree.Entry.{SideEntry, SideMap, FlatTree, lookup, insert}
use clew_proxy.FlatTree.Links.{Entries}
use clew_proxy.FlatTree.Links.Frame.{Ident, idents, rebuild_lc_rs_links-idents}
use clew_proxy.FlatTree.SideMap.Idents.{Idents, alive_in, Fresh, Distinct}
use clew_proxy.FlatTree.SideMap.Invariant.{IsIndexed, IsValid}
use clew_proxy.FlatTree.SideMap.Preserved.{length-idents, tombstone_entry-IsValid}
use clew_proxy.FlatTree.SideMap.{
  keep_alive, index_entries, compact, check_compact, tombstone, tombstone_entry,
}

-- The identities that compaction keeps.
abbrev pub living : Idents → Idents
living [] = []
living (x ∷ xs) = if x.alive then x ∷ living xs else living xs

idents-keep_alive : (es : Entries) → idents (keep_alive es) ≡ living (idents es)
unfolding keep_alive
idents-keep_alive [] = refl
idents-keep_alive (e ∷ es) = ground (arith, idents-keep_alive es)

abbrev AllAlive : Idents → Type 0
AllAlive [] = Unit
AllAlive (x ∷ xs) = (x.alive ≡ true) × AllAlive xs

living-AllAlive : (ids : Idents) → AllAlive (living ids)
living-AllAlive [] = tt
living-AllAlive (x ∷ xs) = ground (arith, living-AllAlive xs)

living-Fresh : (p : ℕ) (ids : Idents) → Fresh p ids → Fresh p (living ids)
living-Fresh p [] f = tt
living-Fresh p (x ∷ xs) f = ground (arith, living-Fresh p xs f.1)

living-Distinct : (ids : Idents) → Distinct ids → Distinct (living ids)
living-Distinct [] d = tt
living-Distinct (x ∷ xs) d = elim (Bool-cases x.alive) [
  | inl a ↦ ground (arith, living-Distinct xs d.1, living-Fresh x.pid xs)
  | inr b ↦ ground (arith, living-Distinct xs d.1)
]

living-length : (ids : Idents) → AllAlive ids → alive_in ids ≡ length ids
living-length [] a = refl
living-length (x ∷ xs) a = ground (arith, living-length xs a.1)

-- An identity that is kept was there and is alive, and the other way round.
pub living-old :
    (ids : Idents) (x : Ident) (j : ℕ)
    → get_elem? (living ids) j ≡ some x
    → (i : ℕ) × (get_elem? ids i ≡ some x) × (x.alive ≡ true)
living-old [] x j g = ground arith
living-old (y ∷ ys) x j g = elim (Bool-cases y.alive) [
  | inl a ↦ at a j (living-old ys x) (ground arith)
  | inr d ↦ let (i, h, b) = living-old ys x j (ground arith) in (suc i, h, b)
]
  where
    at :
        y.alive ≡ true
        → (k : ℕ)
        → ((l : ℕ)
            → get_elem? (living ys) l ≡ some x
            → (i : ℕ) × (get_elem? ys i ≡ some x) × (x.alive ≡ true))
        → get_elem? (y ∷ living ys) k ≡ some x
        → (i : ℕ) × (get_elem? (y ∷ ys) i ≡ some x) × (x.alive ≡ true)
    at a zero rec h = (0, h, ground arith)
    at a (suc l) rec h = let (i, r, b) = rec l h in (suc i, r, b)

pub living-new :
    (ids : Idents) (x : Ident) (i : ℕ)
    → get_elem? ids i ≡ some x
    → x.alive ≡ true
    → (j : ℕ) × (get_elem? (living ids) j ≡ some x)
living-new [] x i g a = ground arith
living-new (y ∷ ys) x zero g a = (0, ground arith)
living-new (y ∷ ys) x (suc i) g a =
    let (j, r) = living-new ys x i g a in
    elim (Bool-cases y.alive) [ inl b ↦ (suc j, ground arith) | inr b ↦ (j, ground arith) ]

-- The map that `index_entries` builds.
index_entries-Fresh :
    (p i : ℕ) (es : Entries) (m : SideMap)
    → AllAlive (idents es)
    → Fresh p (idents es)
    → lookup p (index_entries i es m) ≡ lookup p m
unfolding index_entries lookup insert
index_entries-Fresh p i [] m a f = refl
index_entries-Fresh p i (e ∷ es) m a f = ground (
  arith,
  index_entries-Fresh p (i + 1) es (insert e.pid (record { index = i; psn = e.psn }) m) a.1 f.1,
)

index_entries_complete :
    (i j : ℕ) (es : Entries) (m : SideMap) (x : Ident)
    → AllAlive (idents es)
    → Distinct (idents es)
    → get_elem? (idents es) j ≡ some x
    → lookup x.pid (index_entries i es m) ≡ some (record { index = i + j; psn = x.psn })
unfolding index_entries lookup insert
index_entries_complete i j [] m x a d g = ground arith
index_entries_complete i zero (e ∷ es) m x a d g = ground (
  arith,
  index_entries-Fresh e.pid (i + 1) es (insert e.pid (record { index = i; psn = e.psn }) m) a.1,
)
index_entries_complete i (suc j) (e ∷ es) m x a d g =
    index_entries_complete (i + 1) j es (insert e.pid (record { index = i; psn = e.psn }) m) x a.1
      d.1 g
    ∙ ground arith

index_entries_sound :
    (p i : ℕ) (es : Entries) (m : SideMap) (s : SideEntry)
    → AllAlive (idents es)
    → lookup p (index_entries i es m) ≡ some s
    → (lookup p m ≡ some s)
      ⊎ ((j : ℕ) × (s.index ≡ i + j)
          × (get_elem? (idents es) j ≡ some (record { pid = p; psn = s.psn; alive = true })))
unfolding index_entries lookup insert
index_entries_sound p i [] m s a h = inl h
index_entries_sound p i (e ∷ es) m s a h =
    elim (index_entries_sound p (i + 1) es (insert e.pid (record { index = i; psn = e.psn }) m) s
      a.1 h) [
        | inl old ↦ elim (Bool-cases (e.pid == p)) [
          | inl same ↦ inr (0, ground arith, ground arith)
          | inr ne ↦ inl (ground arith)
        ]
        | inr (j, e, g) ↦ inr (suc j, omega (arith, e), g)
      ]

index_entries-IsIndexed :
    (es : Entries)
    → AllAlive (idents es)
    → Distinct (idents es)
    → IsIndexed (idents es) (index_entries 0 es [])
unfolding lookup
index_entries-IsIndexed es a d = record {
  sound = λ p s h. elim (index_entries_sound p 0 es [] s a h) [
    | inl none_old ↦ absurd (ground arith)
    | inr (j, e, g) ↦ ground (arith, e, g)
  ];
  complete = λ i x g b. index_entries_complete 0 i es [] x a d g ∙ ground arith;
  distinct = d;
}

-- Compaction keeps the tree valid.
pub compact-IsValid : (t : FlatTree) → IsValid t → IsValid (compact t)
unfolding compact
compact-IsValid t v =
    let kept = keep_alive t.entries in
    let same = idents-keep_alive t.entries in
    let back = rebuild_lc_rs_links-idents (index_entries 0 kept []) kept in
    let alive : AllAlive (idents kept) = rw same (living-AllAlive (idents t.entries)) in
    let distinct : Distinct (idents kept) =
      rw same (living-Distinct (idents t.entries) v.indexed.distinct) in
    record {
      indexed = rw back (index_entries-IsIndexed kept alive distinct);
      alive = rw (back, living-length (idents kept) alive) (sym (length-idents kept));
      buried = rw (back, length-idents kept) (omega arith);
    }

pub check_compact-IsValid : (t : FlatTree) → IsValid t → IsValid (check_compact t)
unfolding check_compact
check_compact-IsValid t v = ground (arith, compact-IsValid t v)

-- A STOP keeps the tree valid, with the compaction that it may set off.
pub tombstone-IsValid : (pid psn : ℕ) (t : FlatTree) → IsValid t → IsValid (tombstone pid psn t).0
unfolding tombstone
tombstone-IsValid pid psn t v = elim (Option-cases (lookup pid t.side_map)) [
  | inl n ↦ rw (n, tombstone) v
  | inr (s, e) ↦ elim (Bool-cases (s.psn == psn)) [
    | inl same ↦
        rw (e, same, tombstone)
          (check_compact-IsValid (tombstone_entry s.index t)
            (tombstone_entry-IsValid s.index t _ (v.indexed.sound pid s e) v))
    | inr other ↦ rw (e, other, tombstone) v
  ]
]

pub compact-idents : (t : FlatTree) → idents (compact t).entries ≡ living (idents t.entries)
unfolding compact
compact-idents t =
    let kept = keep_alive t.entries in
    rebuild_lc_rs_links-idents (index_entries 0 kept []) kept ∙ idents-keep_alive t.entries
