-- ===== src/FlatTree/Links/Frame.antt =====
-- src/process/flat_tree.hpp: the link operations leave PID, PSN and liveness of every entry alone.
use clew_proxy.Prelude.{
  ℕ, zero, suc, ◌+◌, ◌≡◌, refl, ap, ◌∙◌, Bool, Option, none, some, List, [], ◌∷◌, length, arith,
}
use clew_proxy.FlatTree.Entry.{
  ProcessEntry, SideEntry, entry_at, update_at, invalid_idx, SideMap, lookup,
}
use clew_proxy.FlatTree.Links.{
  Entries, set_first_child, set_next_sibling, set_links, adopt, become_root, clear_parent,
  unlink_sibling, detach_from_parent, attach_child, mark_root, alive_ancestor, reparent_one,
  reparent_loop, reparent_children, clear_links, relink_to, relink_one, relink_loop,
  rebuild_lc_rs_links,
}

-- What the links do not touch.
pub record Ident : Type 0 where
  pub pid : ℕ
  pub psn : ℕ
  pub alive : Bool

abbrev pub ident : ProcessEntry → Ident
ident e = record { pid = e.pid; psn = e.psn; alive = e.alive }

abbrev pub idents : Entries → List Ident
idents [] = []
idents (e ∷ es) = ident e ∷ idents es

pub idents-update_at :
    (i : ℕ) (f : ProcessEntry → ProcessEntry) (es : Entries)
    → ((e : ProcessEntry) → ident (f e) ≡ ident e)
    → idents (update_at i f es) ≡ idents es
idents-update_at i f [] h = refl
idents-update_at zero f (e ∷ es) h = ap (λ (x : Ident). x ∷ idents es) (h e)
idents-update_at (suc i) f (e ∷ es) h =
    ap (λ (xs : List Ident). ident e ∷ xs) (idents-update_at i f es h)

unlink_sibling-idents :
    (fuel cur idx next : ℕ) (es : Entries)
    → idents (unlink_sibling fuel cur idx next es) ≡ idents es
unfolding unlink_sibling
unlink_sibling-idents zero cur idx next es = refl
unlink_sibling-idents (suc fuel) cur idx next es = ground (
  arith,
  idents-update_at cur (set_next_sibling next) es (λ e. refl),
  unlink_sibling-idents fuel (entry_at cur es).next_sibling_index idx next es,
)

pub detach_from_parent-idents :
    (idx : ℕ) (es : Entries) → idents (detach_from_parent idx es) ≡ idents es
unfolding detach_from_parent
detach_from_parent-idents idx es =
    let child = entry_at idx es in
    let first = (entry_at child.parent_index es).first_child_index in
    let next = child.next_sibling_index in
    let shorter = update_at child.parent_index (set_first_child next) es in
    let unlinked = unlink_sibling (length es) first idx next es in
    ground (
      arith,
      idents-update_at idx clear_parent shorter (λ e. refl),
      idents-update_at idx clear_parent unlinked (λ e. refl),
      idents-update_at child.parent_index (set_first_child next) es (λ e. refl),
      unlink_sibling-idents (length es) first idx next es,
    )

pub attach_child-idents :
    (parent child : ℕ) (es : Entries) → idents (attach_child parent child es) ≡ idents es
unfolding attach_child
attach_child-idents parent child es =
    let ds = detach_from_parent child es in
    let first = (entry_at parent ds).first_child_index in
    idents-update_at parent (set_first_child child) (update_at child (set_links parent first) ds)
      (λ e. refl)
    ∙ (idents-update_at child (set_links parent first) ds (λ e. refl)
        ∙ detach_from_parent-idents child es)

pub mark_root-idents : (idx : ℕ) (es : Entries) → idents (mark_root idx es) ≡ idents es
unfolding mark_root
mark_root-idents idx es =
    idents-update_at idx clear_parent (detach_from_parent idx es) (λ e. refl)
    ∙ detach_from_parent-idents idx es

reparent_one-idents :
    (ancestor child : ℕ) (es : Entries) → idents (reparent_one ancestor child es) ≡ idents es
unfolding reparent_one
reparent_one-idents ancestor child es =
    let adopted = update_at child (adopt ancestor (entry_at ancestor es)) es in
    ground (
      arith,
      idents-update_at child become_root es (λ e. refl),
      idents-update_at ancestor (set_first_child child) adopted (λ e. refl),
      idents-update_at child (adopt ancestor (entry_at ancestor es)) es (λ e. refl),
    )

reparent_loop-idents :
    (fuel ancestor child : ℕ) (es : Entries)
    → idents (reparent_loop fuel ancestor child es) ≡ idents es
unfolding reparent_loop
reparent_loop-idents zero ancestor child es = refl
reparent_loop-idents (suc fuel) ancestor child es =
    let next = (entry_at child es).next_sibling_index in
    let moved = reparent_one ancestor child es in
    ground (
      arith,
      reparent_one-idents ancestor child es,
      reparent_loop-idents fuel ancestor next moved,
      reparent_loop-idents fuel ancestor next es,
    )

pub reparent_children-idents :
    (dying : ℕ) (es : Entries) → idents (reparent_children dying es) ≡ idents es
unfolding reparent_children
reparent_children-idents dying es =
    let e = entry_at dying es in
    let ancestor = alive_ancestor (length es) e.parent_index es in
    let moved = reparent_loop (length es) ancestor e.first_child_index es in
    idents-update_at dying (set_first_child invalid_idx) moved (λ e. refl)
    ∙ reparent_loop-idents (length es) ancestor e.first_child_index es

clear_links-idents : (es : Entries) → idents (clear_links es) ≡ idents es
unfolding clear_links
clear_links-idents [] = refl
clear_links-idents (e ∷ es) = ap (λ (xs : List Ident). ident e ∷ xs) (clear_links-idents es)

relink_to-idents :
    (i : ℕ) (es : Entries) (r : Option SideEntry) → idents (relink_to i es r) ≡ idents es
unfolding relink_to
relink_to-idents i es none = refl
relink_to-idents i es (some s) =
    let links = set_links s.index (entry_at s.index es).first_child_index in
    ground (
      arith,
      idents-update_at s.index (set_first_child i) (update_at i links es) (λ e. refl),
      idents-update_at i links es (λ e. refl),
    )

relink_one-idents : (m : SideMap) (i : ℕ) (es : Entries) → idents (relink_one m i es) ≡ idents es
unfolding relink_one
relink_one-idents m i es =
    ground (arith, relink_to-idents i es (lookup (entry_at i es).parent_pid m))

relink_loop-idents :
    (m : SideMap) (left i : ℕ) (es : Entries) → idents (relink_loop m left i es) ≡ idents es
unfolding relink_loop
relink_loop-idents m zero i es = refl
relink_loop-idents m (suc left) i es =
    relink_loop-idents m left (i + 1) (relink_one m i es) ∙ relink_one-idents m i es

pub rebuild_lc_rs_links-idents :
    (m : SideMap) (es : Entries) → idents (rebuild_lc_rs_links m es) ≡ idents es
unfolding rebuild_lc_rs_links
rebuild_lc_rs_links-idents m es =
    relink_loop-idents m (length es) 0 (clear_links es) ∙ clear_links-idents es
