-- ===== src/Rules/Engine/Frame/Trees.antt =====
-- src/rules/rule_engine_v3.hpp: the engine's operations on the tree keep what finds the entries.
use clew_proxy.Prelude.{
  ℕ, ◌≡◌, refl, ◌∙◌, inl, inr, Bool, true, false, not, if◌then◌else◌, ◌==◌, List, [], ◌∷◌, arith,
  Option-cases,
}
use clew_proxy.FlatTree.Entry.{
  ProcessEntry, FlatTree, entry_at, update_at, invalid_idx, has_flag, find_by_pid,
  manual_hijack_flag,
}
use clew_proxy.FlatTree.Links.{Entries, visit_descendants}
use clew_proxy.FlatTree.Links.Frame.{ident, idents, idents-update_at}
use clew_proxy.FlatTree.SideMap.Kept.{
  KeepsIdents, KeepsIdents-refl, KeepsIdents-entries, KeepsIdents-trans,
}
use clew_proxy.Rules.Engine.{RuleEngine, refresh_cmdline_flag}
use clew_proxy.Rules.Engine.Match.{clear_all_auto, apply_rules, apply_auto_rules, forget_matches}
use clew_proxy.Rules.Engine.Frame.{clear_all_auto-idents, apply_rules-idents, start_rules-idents}
use clew_proxy.Rules.Engine.Hijack.{
  hijack, unhijack, unmark, manual_hijack, manual_unhijack, hijack_over, unhijack_over,
  manual_hijack_tree, manual_unhijack_tree, exclude_pid, change_rule, excluding, try_inherit_manual,
  start_rules, on_process_start,
}

unhijack-ident : (e : ProcessEntry) → ident (unhijack e) ≡ ident e
unfolding unhijack
unhijack-ident e = ground arith

unmark-ident : (e : ProcessEntry) → ident (unmark e) ≡ ident e
unfolding unmark
unmark-ident e = ground arith

hijack-ident : (group : ℕ) (e : ProcessEntry) → ident (hijack group e) ≡ ident e
unfolding hijack
hijack-ident group e = refl

hijack_over-idents :
    (group : ℕ) (is : List ℕ) (es : Entries) → idents (hijack_over group is es) ≡ idents es
unfolding hijack_over
hijack_over-idents group [] es = refl
hijack_over-idents group (i ∷ is) es =
    hijack_over-idents group is (update_at i (hijack group) es)
    ∙ idents-update_at i (hijack group) es (hijack-ident group)

unhijack_over-idents : (is : List ℕ) (es : Entries) → idents (unhijack_over is es) ≡ idents es
unfolding unhijack_over
unhijack_over-idents [] es = refl
unhijack_over-idents (i ∷ is) es =
    let keep = not (has_flag manual_hijack_flag (entry_at i es)) in
    unhijack_over-idents is (if keep then es else update_at i unhijack es)
    ∙ ground (arith, idents-update_at i unhijack es unhijack-ident)

-- A write of the entries in one of two branches.
either :
    (t : FlatTree) (b : Bool) (es : Entries)
    → idents es ≡ idents t.entries
    → KeepsIdents t (if b then t else record t { entries = es })
either t true es e = KeepsIdents-refl t
either t false es e = KeepsIdents-entries t es e

pub manual_hijack-KeepsIdents :
    (pid group : ℕ) (t : FlatTree) → KeepsIdents t (manual_hijack pid group t)
unfolding manual_hijack
manual_hijack-KeepsIdents pid group t =
    let idx = find_by_pid pid t in
    either t (idx == invalid_idx) (update_at idx (hijack group) t.entries)
      (idents-update_at idx (hijack group) t.entries (hijack-ident group))

pub manual_unhijack-KeepsIdents : (pid : ℕ) (t : FlatTree) → KeepsIdents t (manual_unhijack pid t)
unfolding manual_unhijack
manual_unhijack-KeepsIdents pid t =
    let idx = find_by_pid pid t in
    either t (idx == invalid_idx) (update_at idx unhijack t.entries)
      (idents-update_at idx unhijack t.entries unhijack-ident)

pub manual_hijack_tree-KeepsIdents :
    (pid group : ℕ) (t : FlatTree) → KeepsIdents t (manual_hijack_tree pid group t)
unfolding manual_hijack_tree
manual_hijack_tree-KeepsIdents pid group t =
    let idx = find_by_pid pid t in
    let es = update_at idx (hijack group) t.entries in
    either t (idx == invalid_idx) (hijack_over group (visit_descendants idx es) es) (
      hijack_over-idents group (visit_descendants idx es) es
      ∙ idents-update_at idx (hijack group) t.entries (hijack-ident group))

pub manual_unhijack_tree-KeepsIdents :
    (pid : ℕ) (t : FlatTree) → KeepsIdents t (manual_unhijack_tree pid t)
unfolding manual_unhijack_tree
manual_unhijack_tree-KeepsIdents pid t =
    let idx = find_by_pid pid t in
    let es = update_at idx unhijack t.entries in
    either t (idx == invalid_idx) (unhijack_over (visit_descendants idx es) es) (
      unhijack_over-idents (visit_descendants idx es) es
      ∙ idents-update_at idx unhijack t.entries unhijack-ident)

pub exclude_pid-KeepsIdents :
    (id : List ℕ) (pid : ℕ) (t : FlatTree) (e : RuleEngine)
    → KeepsIdents t (exclude_pid id pid (t, e)).0.0
unfolding exclude_pid
exclude_pid-KeepsIdents id pid t e =
    let idx = find_by_pid pid t in
    elim (Option-cases (change_rule id (excluding pid) e.auto_rules)) [
      | inl n ↦ rw (n, exclude_pid) (KeepsIdents-refl t)
      | inr (rs, s) ↦
          rw (s, exclude_pid)
            (either t (idx == invalid_idx) (update_at idx unmark t.entries)
              (idents-update_at idx unmark t.entries unmark-ident))
    ]

pub try_inherit_manual-KeepsIdents :
    (idx : ℕ) (t : FlatTree) → KeepsIdents t (try_inherit_manual idx t).1
unfolding try_inherit_manual
try_inherit_manual-KeepsIdents idx t =
    let parent = entry_at (find_by_pid (entry_at idx t.entries).parent_pid t) t.entries in
    let same =
      idents-update_at idx (hijack parent.group_id) t.entries (hijack-ident parent.group_id) in
    let kept = KeepsIdents-entries t (update_at idx (hijack parent.group_id) t.entries) same in
    ground (arith, kept, KeepsIdents-refl t)

module _ (cmdline image_path : ℕ → List ℕ) where
  pub apply_auto_rules-KeepsIdents :
      (t : FlatTree) (e : RuleEngine) → KeepsIdents t (apply_auto_rules cmdline image_path (t, e)).0
  unfolding apply_auto_rules
  apply_auto_rules-KeepsIdents t e =
      let e1 = refresh_cmdline_flag e in
      let es = clear_all_auto t.entries in
      let rs = forget_matches e1.auto_rules in
      KeepsIdents-entries t (apply_rules cmdline image_path t.side_map rs es).0
        (apply_rules-idents cmdline image_path t.side_map rs es ∙ clear_all_auto-idents t.entries)

  pub on_process_start-KeepsIdents :
      (idx : ℕ) (t : FlatTree) (e : RuleEngine)
      → KeepsIdents t (on_process_start cmdline image_path idx (t, e)).1.0
  unfolding on_process_start
  on_process_start-KeepsIdents idx t e =
      let (hit, (rs, es)) = start_rules cmdline image_path idx e.auto_rules t.entries in
      let t1 : FlatTree = record t { entries = es } in
      let first =
        KeepsIdents-entries t es
          (start_rules-idents cmdline image_path idx e.auto_rules t.entries) in
      let later =
        KeepsIdents-trans t t1 (try_inherit_manual idx t1).1 first
          (try_inherit_manual-KeepsIdents idx t1) in
      ground (arith, KeepsIdents-refl t, first, later)
