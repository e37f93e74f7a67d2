-- ===== src/Rules/Engine/Frame.antt =====
-- src/rules/rule_engine_v3.hpp: the rules write groups, flags and caches, never who an entry is.
pub mod Trees
use clew_proxy.Prelude.{
  ℕ, zero, suc, ◌+◌, ◌≡◌, refl, ap, ◌∙◌, inl, inr, Bool, true, false, not, ◌&&◌, ◌||◌,
  if◌then◌else◌, ◌==◌, Option, none, some, List, [], ◌∷◌, length, arith, Option-cases,
}
use clew_proxy.FlatTree.Entry.{
  ProcessEntry, FlatTree, SideMap, lookup, entry_at, update_at, invalid_idx, has_flag, find_by_pid,
}
use clew_proxy.FlatTree.Links.{Entries, visit_descendants}
use clew_proxy.FlatTree.Links.Frame.{Ident, ident, idents, idents-update_at}
use clew_proxy.Rules.Engine.{AutoRule, RuleEngine, contains, add_pid, is_empty}
use clew_proxy.Rules.Engine.Match.{
  mark, mark_proxied, clear_auto, clear_all_auto, expand_over, expand_descendants, check_cmdline,
  check_image_path, name_match, try_match_one, scan_names, expand_roots, apply_single_rule,
  apply_rules, apply_auto_rules, set_cmdline, set_image_path, answer_or_sentinel,
}
use clew_proxy.Rules.Engine.Hijack.{
  hijack, unhijack, unmark, manual_hijack, manual_unhijack, hijack_over, unhijack_over,
  manual_hijack_tree, manual_unhijack_tree, exclude_pid, change_rule, excluding, try_inherit_manual,
  start_rules, on_process_start,
}

mark-ident : (group : ℕ) (e : ProcessEntry) → ident (mark group e) ≡ ident e
unfolding mark
mark-ident group e = ground arith

pub mark_proxied-idents :
    (i : ℕ) (r : AutoRule) (es : Entries) → idents (mark_proxied i r es) ≡ idents es
unfolding mark_proxied
mark_proxied-idents i r es =
    idents-update_at i (mark r.proxy_group_id) es (mark-ident r.proxy_group_id)

clear_auto-ident : (e : ProcessEntry) → ident (clear_auto e) ≡ ident e
unfolding clear_auto
clear_auto-ident e = ground arith

pub clear_all_auto-idents : (es : Entries) → idents (clear_all_auto es) ≡ idents es
unfolding clear_all_auto
clear_all_auto-idents [] = refl
clear_all_auto-idents (e ∷ es) = ground (arith, clear_auto-ident e, clear_all_auto-idents es)

expand_over-idents :
    (is : List ℕ) (r : AutoRule) (es : Entries) → idents (expand_over is r es).0 ≡ idents es
unfolding expand_over
expand_over-idents [] r es = refl
expand_over-idents (i ∷ is) r es =
    let child = entry_at i es in
    let pass = contains child.pid r.excluded_pids || contains child.pid r.matched_pids in
    let es' = if pass then es else mark_proxied i r es in
    let r' : AutoRule =
      if pass then r else record r { matched_pids = add_pid child.pid r.matched_pids } in
    expand_over-idents is r' es' ∙ ground (arith, mark_proxied-idents i r es)

pub expand_descendants-idents :
    (i : ℕ) (r : AutoRule) (es : Entries) → idents (expand_descendants i r es).0 ≡ idents es
unfolding expand_descendants
expand_descendants-idents i r es = expand_over-idents (visit_descendants i es) r es

-- Both sides of a choice have these identities.
choose :
    {A B : Type 0} (ids : List Ident) (b : Bool) (x y : A × (B × Entries))
    → idents x.1.1 ≡ ids
    → idents y.1.1 ≡ ids
    → idents (if b then x else y).1.1 ≡ ids
choose ids true x y p q = p
choose ids false x y p q = q

choose_first :
    {A : Type 0} (ids : List Ident) (b : Bool) (x y : Entries × A)
    → idents x.0 ≡ ids
    → idents y.0 ≡ ids
    → idents (if b then x else y).0 ≡ ids
choose_first ids true x y p q = p
choose_first ids false x y p q = q

module _ (cmdline image_path : ℕ → List ℕ) where
  check_cmdline-idents :
      (i : ℕ) (r : AutoRule) (es : Entries)
      → idents (check_cmdline cmdline image_path i r es).1 ≡ idents es
  unfolding check_cmdline
  check_cmdline-idents i r es =
      let old = (entry_at i es).cmdline_cache in
      let cache = if is_empty old then answer_or_sentinel (cmdline (entry_at i es).pid) else old in
      ground (arith, idents-update_at i (set_cmdline cache) es (λ e. refl))

  check_image_path-idents :
      (i : ℕ) (r : AutoRule) (es : Entries)
      → idents (check_image_path cmdline image_path i r es).1 ≡ idents es
  unfolding check_image_path
  check_image_path-idents i r es =
      let old = (entry_at i es).image_path_cache in
      let cache =
        if is_empty old then answer_or_sentinel (image_path (entry_at i es).pid) else old in
      ground (arith, idents-update_at i (set_image_path cache) es (λ e. refl))

  name_match-idents :
      (i : ℕ) (r : AutoRule) (es : Entries)
      → idents (name_match cmdline image_path i r es).1 ≡ idents es
  unfolding name_match
  name_match-idents i r es = ground (
    arith,
    check_cmdline-idents i r es,
    check_image_path-idents i r (check_cmdline cmdline image_path i r es).1,
  )

  try_match_one-idents :
      (i : ℕ) (r : AutoRule) (es : Entries)
      → idents (try_match_one cmdline image_path i r es).1 ≡ idents es
  unfolding try_match_one
  try_match_one-idents i r es = ground (arith, name_match-idents i r es)

  scan_names-idents :
      (left i : ℕ) (r : AutoRule) (es : Entries)
      → idents (scan_names cmdline image_path left i r es).1.0 ≡ idents es
  unfolding scan_names
  scan_names-idents zero i r es = refl
  scan_names-idents (suc left) i r es =
      let (kind, es1) = try_match_one cmdline image_path i r es in
      let pid = (entry_at i es1).pid in
      let plain = kind.name && not r.hack_tree in
      let es2 = if plain then mark_proxied i r es1 else es1 in
      let r2 : AutoRule =
        if plain then record r { matched_pids = add_pid pid r.matched_pids } else r in
      scan_names-idents left (i + 1) r2 es2
      ∙ ground (arith, mark_proxied-idents i r es1, try_match_one-idents i r es)

  expand_roots-idents :
      (pids matched : List ℕ) (m : SideMap) (r : AutoRule) (es : Entries)
      → idents (expand_roots cmdline image_path pids matched m r es).0 ≡ idents es
  unfolding expand_roots
  expand_roots-idents [] matched m r es = refl
  expand_roots-idents (pid ∷ pids) matched m r es =
      let idx : ℕ = elim (lookup pid m) [ none ↦ invalid_idx | some s ↦ s.index ] in
      let r1 : AutoRule = record r { matched_pids = add_pid pid r.matched_pids } in
      let es1 = mark_proxied idx r1 es in
      let (es2, r2) =
        if contains (entry_at idx es1).parent_pid matched
        then (es1, r1)
        else expand_descendants idx r1 es1 in
      let es3 = if idx == invalid_idx then es else es2 in
      let r3 = if idx == invalid_idx then r else r2 in
      expand_roots-idents pids matched m r3 es3
      ∙ ground (arith, mark_proxied-idents idx r1 es, expand_descendants-idents idx r1 es1)

  apply_single_rule-idents :
      (m : SideMap) (r : AutoRule) (es : Entries)
      → idents (apply_single_rule cmdline image_path m r es).0 ≡ idents es
  unfolding apply_single_rule
  apply_single_rule-idents m r es =
      let (pids, (es1, r1)) = scan_names cmdline image_path (length es) 0 r es in
      ground (arith, scan_names-idents (length es) 0 r es, expand_roots-idents pids pids m r1 es1)

  pub apply_rules-idents :
      (m : SideMap) (rs : List AutoRule) (es : Entries)
      → idents (apply_rules cmdline image_path m rs es).0 ≡ idents es
  unfolding apply_rules
  apply_rules-idents m [] es = refl
  apply_rules-idents m (r ∷ rs) es =
      let (es1, r1) = if r.enabled then apply_single_rule cmdline image_path m r es else (es, r) in
      apply_rules-idents m rs es1 ∙ ground (arith, apply_single_rule-idents m r es)

  pub start_rules-idents :
      (i : ℕ) (rs : List AutoRule) (es : Entries)
      → idents (start_rules cmdline image_path i rs es).1.1 ≡ idents es
  unfolding start_rules
  start_rules-idents i [] es = refl
  start_rules-idents i (r ∷ rs) es =
      let (kind, es1) = try_match_one cmdline image_path i r es in
      let r1 : AutoRule = record r { matched_pids = add_pid (entry_at i es1).pid r.matched_pids } in
      let es2 = mark_proxied i r1 es1 in
      let here = try_match_one-idents i r es in
      let marked = mark_proxied-idents i r1 es1 ∙ here in
      choose (idents es) (not kind.name && not kind.tree) _ _ (start_rules-idents i rs es1 ∙ here) (
        choose_first (idents es) (kind.name && r1.hack_tree) (expand_descendants i r1 es2) (es2, r1)
          (expand_descendants-idents i r1 es2 ∙ marked) marked)
