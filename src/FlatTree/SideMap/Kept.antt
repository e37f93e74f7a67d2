-- ===== src/FlatTree/SideMap/Kept.antt =====
-- src/process/flat_tree.hpp: trees that differ in links, groups, flags and caches only.
use clew_proxy.Prelude.{ℕ, ◌≡◌, refl, ◌∙◌}
use clew_proxy.FlatTree.Entry.{FlatTree}
use clew_proxy.FlatTree.Links.{Entries}
use clew_proxy.FlatTree.Links.Frame.{idents}
use clew_proxy.FlatTree.SideMap.Invariant.{IsValid}
use clew_proxy.FlatTree.SideMap.Owners.{owner}

-- The tree after an operation: what finds the entries is as before.
pub record KeepsIdents (t t' : FlatTree) : Type 0 where
  pub entries : idents t'.entries ≡ idents t.entries
  pub side_map : t'.side_map ≡ t.side_map
  pub alive_count : t'.alive_count ≡ t.alive_count
  pub tombstone_count : t'.tombstone_count ≡ t.tombstone_count

pub KeepsIdents-refl : (t : FlatTree) → KeepsIdents t t
KeepsIdents-refl t = record {
  entries = refl;
  side_map = refl;
  alive_count = refl;
  tombstone_count = refl;
}

pub KeepsIdents-trans : (t u v : FlatTree) → KeepsIdents t u → KeepsIdents u v → KeepsIdents t v
KeepsIdents-trans t u v p q = record {
  entries = q.entries ∙ p.entries;
  side_map = q.side_map ∙ p.side_map;
  alive_count = q.alive_count ∙ p.alive_count;
  tombstone_count = q.tombstone_count ∙ p.tombstone_count;
}

-- A write of the entries alone.
pub KeepsIdents-entries :
    (t : FlatTree) (es : Entries)
    → idents es ≡ idents t.entries
    → KeepsIdents t (record t { entries = es })
KeepsIdents-entries t es e = record {
  entries = e;
  side_map = refl;
  alive_count = refl;
  tombstone_count = refl;
}

pub IsValid-KeepsIdents : (t t' : FlatTree) → KeepsIdents t t' → IsValid t → IsValid t'
IsValid-KeepsIdents t t' k v = record {
  indexed = rw (k.entries, k.side_map) v.indexed;
  alive = rw (k.entries, k.alive_count) v.alive;
  buried = rw (k.entries, k.alive_count, k.tombstone_count) v.buried;
}

pub owner-KeepsIdents : (p : ℕ) (t t' : FlatTree) → KeepsIdents t t' → owner p t' ≡ owner p t
unfolding owner
owner-KeepsIdents p t t' k = rw (k.side_map) refl
