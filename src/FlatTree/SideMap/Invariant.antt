-- ===== src/FlatTree/SideMap/Invariant.antt =====
-- src/process/flat_tree.hpp: a valid tree, in which the side map leads from a PID to the alive entry of
-- that PID and to no other, and the counts are right.
use clew_proxy.Prelude.{
  ℕ, ◌+◌, ◌≡◌, sym, ◌∙◌, inl, inr, true, false, ◌==◌, none, some, [], ◌∷◌, ◌++◌, length, get_elem?,
  arith, Bool-cases, ℕ_discrete,
}
use clew_proxy.FlatTree.Entry.{SideEntry, SideMap, FlatTree, lookup, insert, erase}
use clew_proxy.FlatTree.Links.Frame.{Ident, idents}
use clew_proxy.FlatTree.SideMap.Idents.{
  Idents, alive_in, Distinct, lookup-erase, lookup-insert, bury, get_elem?-bury,
  get_elem?-bury_self, Distinct-bury, Distinct-append, get_elem?-append_last,
  get_elem?-append_cases, get_elem?-append_left, Fresh-of_none,
}

pub record IsIndexed (ids : Idents) (m : SideMap) : Type 0 where
  pub sound :
      (p : ℕ) (s : SideEntry)
      → lookup p m ≡ some s
      → get_elem? ids s.index ≡ some (record { pid = p; psn = s.psn; alive = true })
  pub complete :
      (i : ℕ) (x : Ident)
      → get_elem? ids i ≡ some x
      → x.alive ≡ true
      → lookup x.pid m ≡ some (record { index = i; psn = x.psn })
  pub distinct : Distinct ids

pub record IsValid (t : FlatTree) : Type 0 where
  pub indexed : IsIndexed (idents t.entries) t.side_map
  pub alive : t.alive_count ≡ alive_in (idents t.entries)
  pub buried : t.tombstone_count + t.alive_count ≡ length (idents t.entries)

-- A killed entry leaves the map.
pub bury-IsIndexed :
    (ids : Idents) (m : SideMap) (i : ℕ) (x : Ident)
    → get_elem? ids i ≡ some x
    → x.alive ≡ true
    → IsIndexed ids m
    → IsIndexed (bury i ids) (erase x.pid m)
bury-IsIndexed ids m i x g a v = record {
  sound = λ p s e.
      let other : (x.pid == p) ≡ false = ground (arith, lookup-erase p x.pid m) in
      let found : lookup p m ≡ some s = ground (arith, lookup-erase p x.pid m) in
      get_elem?-bury i s.index ids (λ same. ground (arith, v.sound p s found)) ∙ v.sound p s found;
  complete = λ j y e b. complete j y e b;
  distinct = Distinct-bury i ids v.distinct;
}
  where
    complete :
        (j : ℕ) (y : Ident)
        → get_elem? (bury i ids) j ≡ some y
        → y.alive ≡ true
        → lookup y.pid (erase x.pid m) ≡ some (record { index = j; psn = y.psn })
    complete j y e b = elim (ℕ_discrete i j) [
      | yes same ↦ absurd (ground (arith, get_elem?-bury_self i ids y, same))
      | no ne ↦ ground (
        arith,
        v.complete i x g a,
        v.complete j y (sym (get_elem?-bury i j ids ne) ∙ e) b,
        lookup-erase y.pid x.pid m,
      )
    ]

-- A new entry at the end, of a PID that the map does not have.
pub append-IsIndexed :
    (ids : Idents) (m : SideMap) (p psn : ℕ)
    → lookup p m ≡ none
    → IsIndexed ids m
    → IsIndexed
        (ids ++ record { pid = p; psn = psn; alive = true } ∷ [])
        (insert p (record { index = length ids; psn = psn }) m)
append-IsIndexed ids m p psn h v = record {
  sound = sound;
  complete = complete;
  distinct =
      Distinct-append ids new
        (Fresh-of_none p ids (λ i x g a same. ground (arith, v.complete i x g a))) v.distinct;
}
  where
    new : Ident
    new = record { pid = p; psn = psn; alive = true }

    sound :
        (q : ℕ) (s : SideEntry)
        → lookup q (insert p (record { index = length ids; psn = psn }) m) ≡ some s
        → get_elem? (ids ++ new ∷ []) s.index ≡ some (record { pid = q; psn = s.psn; alive = true })
    sound q s e = elim (Bool-cases (p == q)) [
      | inl same ↦ ground (
        arith,
        lookup-insert q p (record { index = length ids; psn = psn }) m,
        get_elem?-append_last ids new,
      )
      | inr other ↦ get_elem?-append_left ids new _ s.index (
          v.sound q s
            (ground (arith, lookup-insert q p (record { index = length ids; psn = psn }) m)))
    ]

    complete :
        (i : ℕ) (x : Ident)
        → get_elem? (ids ++ new ∷ []) i ≡ some x
        → x.alive ≡ true
        → lookup x.pid (insert p (record { index = length ids; psn = psn }) m)
          ≡ some (record { index = i; psn = x.psn })
    complete i x g a = elim (get_elem?-append_cases ids new x i g) [
      | inl old ↦ ground (
        arith,
        v.complete i x old a,
        lookup-insert x.pid p (record { index = length ids; psn = psn }) m,
      )
      | inr last ↦
          ground (arith, last, lookup-insert x.pid p (record { index = length ids; psn = psn }) m)
    ]
