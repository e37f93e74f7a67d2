-- ===== src/FlatTree/Links/Ends.antt =====
-- src/process/flat_tree.hpp: which walks along the links come to an end.
--
-- The loops of the source have no bound: on links with a cycle they do not return, where those of the
-- model stop with their fuel. A test here says that the loop of the source returns.
use clew_proxy.Prelude.{
  ℕ, zero, suc, ◌<◌, ◌≤◌, ◌≡◌, refl, ◌⊎◌, inl, inr, Bool, true, not, ◌&&◌, ◌||◌, ◌==◌,
  if◌then◌else◌, length, arith, Bool-cases,
}
use clew_proxy.FlatTree.Entry.{entry_at, invalid_idx}
use clew_proxy.FlatTree.Links.{Entries, alive_ancestor, reparent_one, visit_from}

-- The loop of `detach_from_parent`.
unfoldable pub unlink_ends : ℕ → ℕ → ℕ → Entries → Bool
unlink_ends zero cur idx es = cur == invalid_idx
unlink_ends (suc fuel) cur idx es =
    let next = (entry_at cur es).next_sibling_index in
    cur == invalid_idx || next == idx || unlink_ends fuel next idx es

unfoldable pub detach_ends : ℕ → Entries → Bool
unfolding unlink_ends
detach_ends idx es =
    let parent_idx = (entry_at idx es).parent_index in
    let first = (entry_at parent_idx es).first_child_index in
    parent_idx == invalid_idx || first == idx || unlink_ends (length es) first idx es

-- The loops of `reparent_children`.
unfoldable pub ancestor_ends : ℕ → ℕ → Entries → Bool
ancestor_ends zero ancestor es = ancestor == invalid_idx || (entry_at ancestor es).alive
ancestor_ends (suc fuel) ancestor es =
    ancestor == invalid_idx
    || (entry_at ancestor es).alive
    || ancestor_ends fuel (entry_at ancestor es).parent_index es

unfoldable pub reparent_ends : ℕ → ℕ → ℕ → Entries → Bool
unfolding reparent_one
reparent_ends zero ancestor child es = child == invalid_idx
reparent_ends (suc fuel) ancestor child es =
    let next = (entry_at child es).next_sibling_index in
    let moved = if (entry_at child es).alive then reparent_one ancestor child es else es in
    child == invalid_idx || reparent_ends fuel ancestor next moved

unfoldable pub reparent_children_ends : ℕ → Entries → Bool
unfolding alive_ancestor ancestor_ends reparent_ends
reparent_children_ends dying_idx es =
    let dying = entry_at dying_idx es in
    let ancestor = alive_ancestor (length es) dying.parent_index es in
    ancestor_ends (length es) dying.parent_index es
    && reparent_ends (length es) ancestor dying.first_child_index es

-- The recursion of `visit_descendants`.
unfoldable pub visit_ends : ℕ → ℕ → Entries → Bool
visit_ends zero child es = child == invalid_idx
visit_ends (suc fuel) child es =
    let below = visit_ends fuel (entry_at child es).first_child_index es in
    let later = visit_ends fuel (entry_at child es).next_sibling_index es in
    child == invalid_idx || (later && (not (entry_at child es).alive || below))

unfoldable pub visit_descendants_ends : ℕ → Entries → Bool
unfolding visit_ends
visit_descendants_ends idx es = visit_ends (length es) (entry_at idx es).first_child_index es

-- More fuel does not change a recursion that ends.
pub visit_from-ends :
    (fuel more child : ℕ) (es : Entries)
    → fuel ≤ more
    → visit_ends fuel child es ≡ true
    → visit_from more child es ≡ visit_from fuel child es
unfolding visit_from visit_ends
visit_from-ends zero zero child es l h = refl
visit_from-ends zero (suc more) child es l h = ground (arith, h)
visit_from-ends (suc fuel) zero child es l h = ground (arith, l)
visit_from-ends (suc fuel) (suc more) child es l h =
    let e = entry_at child es in
    let below = visit_from-ends fuel more e.first_child_index es (omega (arith, l)) in
    let later = visit_from-ends fuel more e.next_sibling_index es (omega (arith, l)) in
    elim (Bool-cases (child == invalid_idx)) [
      | inl y ↦ ground (arith, y)
      | inr n ↦
          let rest = later (ground (arith, h, n)) in
          elim (Bool-cases e.alive) [
            | inr d ↦ ground (arith, n, d, rest)
            | inl a ↦ let down = below (ground (arith, h, n, a)) in ground (arith, n, a, rest, down)
          ]
    ]

-- The recursion ends if the links have no cycle: they lead to entries of a smaller rank.
pub visit_ends-ranked :
    (rank : ℕ → ℕ) (es : Entries)
    → ((i : ℕ)
        → let e = entry_at i es in
          ((e.first_child_index == invalid_idx) ≡ true) ⊎ (rank e.first_child_index < rank i))
    → ((i : ℕ)
        → let e = entry_at i es in
          ((e.next_sibling_index == invalid_idx) ≡ true) ⊎ (rank e.next_sibling_index < rank i))
    → (fuel child : ℕ) → ((child == invalid_idx) ≡ true) ⊎ (rank child < fuel)
    → visit_ends fuel child es ≡ true
unfolding visit_ends
visit_ends-ranked rank es down along zero child h = ground (arith, h)
visit_ends-ranked rank es down along (suc fuel) child h = ground (
  arith,
  h,
  down child,
  along child,
  visit_ends-ranked rank es down along fuel (entry_at child es).first_child_index,
  visit_ends-ranked rank es down along fuel (entry_at child es).next_sibling_index,
)
