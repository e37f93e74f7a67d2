-- ===== src/FlatTree/Links.antt =====
-- src/process/flat_tree.hpp: the operations on the left-child right-sibling links.
--
-- A walk along the links takes fuel, the number of entries. On links without a cycle it visits no entry
-- twice and ends before the fuel. The loops of the source are not bounded: on a cycle they do not
-- return, where these stop. Ends says which do.
pub mod Frame
pub mod Ends
use clew_proxy.Prelude.{
  ℕ, zero, suc, ◌+◌, Bool, true, false, not, ◌&&◌, ◌||◌, if◌then◌else◌, ltb, ◌==◌, Option, none,
  some, List, [], ◌∷◌, ◌++◌, length,
}
use clew_proxy.FlatTree.Entry.{
  ProcessEntry, SideEntry, entry_at, update_at, invalid_idx, invalid_psn, root_psn_sentinel,
  SideMap, lookup,
}

abbrev pub Entries : Type 0
Entries = List ProcessEntry

abbrev pub set_parent : ℕ → ProcessEntry → ProcessEntry
set_parent p e = record e { parent_index = p }

abbrev pub set_first_child : ℕ → ProcessEntry → ProcessEntry
set_first_child c e = record e { first_child_index = c }

abbrev pub set_next_sibling : ℕ → ProcessEntry → ProcessEntry
set_next_sibling s e = record e { next_sibling_index = s }

abbrev pub set_links : ℕ → ℕ → ProcessEntry → ProcessEntry
set_links p s e = record e { parent_index = p; next_sibling_index = s }

-- A child of a dying entry under the ancestor `a`, and without one.
abbrev pub adopt : ℕ → ProcessEntry → ProcessEntry → ProcessEntry
adopt ancestor a e = record e {
  parent_index = ancestor;
  parent_pid = a.pid;
  parent_psn = a.psn;
  next_sibling_index = a.first_child_index;
}

abbrev pub become_root : ProcessEntry → ProcessEntry
become_root e = record e {
  parent_index = invalid_idx;
  parent_pid = 0;
  parent_psn = root_psn_sentinel;
  next_sibling_index = invalid_idx;
}

-- The loop of `detach_from_parent`: find the sibling before `idx` and link it past `idx`.
unfoldable pub unlink_sibling : ℕ → ℕ → ℕ → ℕ → Entries → Entries
unlink_sibling zero cur idx next es = es
unlink_sibling (suc fuel) cur idx next es =
    let rest = unlink_sibling fuel (entry_at cur es).next_sibling_index idx next es in
    if cur == invalid_idx
    then es
    else if (entry_at cur es).next_sibling_index == idx
    then update_at cur (set_next_sibling next) es
    else rest

-- The links of an entry without a parent.
abbrev pub clear_parent : ProcessEntry → ProcessEntry
clear_parent e = record e { parent_index = invalid_idx; next_sibling_index = invalid_idx }

unfoldable pub detach_from_parent : ℕ → Entries → Entries
unfolding unlink_sibling
detach_from_parent idx es =
    let child = entry_at idx es in
    let parent = entry_at child.parent_index es in
    let unlinked =
      if parent.first_child_index == idx
      then update_at child.parent_index (set_first_child child.next_sibling_index) es
      else unlink_sibling (length es) parent.first_child_index idx child.next_sibling_index es in
    if child.parent_index == invalid_idx then es else update_at idx clear_parent unlinked

unfoldable pub attach_child : ℕ → ℕ → Entries → Entries
unfolding detach_from_parent
attach_child parent_idx child_idx es =
    let ds = detach_from_parent child_idx es in
    let first = (entry_at parent_idx ds).first_child_index in
    let linked = update_at child_idx (set_links parent_idx first) ds in
    update_at parent_idx (set_first_child child_idx) linked

unfoldable pub mark_root : ℕ → Entries → Entries
unfolding detach_from_parent
mark_root idx es = update_at idx clear_parent (detach_from_parent idx es)

-- The first loop of `reparent_children`: the nearest alive ancestor from `ancestor` on.
unfoldable pub alive_ancestor : ℕ → ℕ → Entries → ℕ
alive_ancestor zero ancestor es = ancestor
alive_ancestor (suc fuel) ancestor es =
    let rest = alive_ancestor fuel (entry_at ancestor es).parent_index es in
    if ancestor == invalid_idx || (entry_at ancestor es).alive then ancestor else rest

-- What the second loop does to one alive child.
unfoldable pub reparent_one : ℕ → ℕ → Entries → Entries
reparent_one ancestor child es =
    let adopted = update_at child (adopt ancestor (entry_at ancestor es)) es in
    if ancestor == invalid_idx
    then update_at child become_root es
    else update_at ancestor (set_first_child child) adopted

unfoldable pub reparent_loop : ℕ → ℕ → ℕ → Entries → Entries
reparent_loop zero ancestor child es = es
reparent_loop (suc fuel) ancestor child es =
    let next = (entry_at child es).next_sibling_index in
    let moved = if (entry_at child es).alive then reparent_one ancestor child es else es in
    let rest = reparent_loop fuel ancestor next moved in if child == invalid_idx then es else rest

unfoldable pub reparent_children : ℕ → Entries → Entries
unfolding alive_ancestor reparent_loop
reparent_children dying_idx es =
    let dying = entry_at dying_idx es in
    let ancestor = alive_ancestor (length es) dying.parent_index es in
    update_at dying_idx (set_first_child invalid_idx)
      (reparent_loop (length es) ancestor dying.first_child_index es)

-- The first loop of `rebuild_lc_rs_links`.
unfoldable pub clear_links : Entries → Entries
clear_links [] = []
clear_links (e ∷ es) =
    record e {
      parent_index = invalid_idx;
      first_child_index = invalid_idx;
      next_sibling_index = invalid_idx;
    }
    ∷ clear_links es

-- The end of the body of its second loop, with what the side map has for the parent's PID.
unfoldable pub relink_to : ℕ → Entries → Option SideEntry → Entries
relink_to i es none = es
relink_to i es (some s) =
    if not (s.psn == (entry_at i es).parent_psn)
    then es
    else if s.index == i
    then es
    else if not (entry_at s.index es).alive
    then es
    else update_at s.index (set_first_child i)
        (update_at i (set_links s.index (entry_at s.index es).first_child_index) es)

-- The body of its second loop.
unfoldable pub relink_one : SideMap → ℕ → Entries → Entries
unfolding relink_to
relink_one m i es =
    let e = entry_at i es in
    if not e.alive
    then es
    else if e.parent_psn == root_psn_sentinel || e.parent_psn == invalid_psn
    then es
    else relink_to i es (lookup e.parent_pid m)

unfoldable pub relink_loop : SideMap → ℕ → ℕ → Entries → Entries
relink_loop m zero i es = es
relink_loop m (suc left) i es = relink_loop m left (i + 1) (relink_one m i es)

unfoldable pub rebuild_lc_rs_links : SideMap → Entries → Entries
unfolding clear_links relink_loop
rebuild_lc_rs_links m es = relink_loop m (length es) 0 (clear_links es)

-- `visit_descendants`: the alive descendants of `idx` in the order of the visits. `child` is the
-- next child of the entry at hand; an entry that is not alive is passed over with all below it.
-- These are the visits of the source if `Ends.visit_descendants_ends` holds.
unfoldable pub visit_from : ℕ → ℕ → Entries → List ℕ
visit_from zero child es = []
visit_from (suc fuel) child es =
    let below = visit_from fuel (entry_at child es).first_child_index es in
    let later = visit_from fuel (entry_at child es).next_sibling_index es in
    let here = if (entry_at child es).alive then child ∷ (below ++ later) else later in
    if child == invalid_idx then [] else here

unfoldable pub visit_descendants : ℕ → Entries → List ℕ
unfolding visit_from
visit_descendants idx es = visit_from (length es) (entry_at idx es).first_child_index es

unfoldable pub roots_from : ℕ → Entries → List ℕ
roots_from i [] = []
roots_from i (e ∷ es) =
    let rest = roots_from (i + 1) es in
    if e.alive && e.parent_index == invalid_idx then i ∷ rest else rest

unfoldable pub get_roots : Entries → List ℕ
unfolding roots_from
get_roots es = roots_from 0 es
