-- ===== src/Rules/Engine/Match/Scan.antt =====
-- src/rules/rule_engine_v3.hpp: the full scan, step by step, keeps what was hijacked by hand.
use clew_proxy.Prelude.{
  ℕ, zero, suc, ◌+◌, refl, Bool, true, false, not, ◌&&◌, ◌||◌, if◌then◌else◌, ◌==◌, none, some,
  List, [], ◌∷◌, length,
}
use clew_proxy.FlatTree.Entry.{
  FlatTree, SideMap, lookup, entry_at, update_at, invalid_idx, has_flag,
}
use clew_proxy.FlatTree.Links.{Entries, visit_descendants}
use clew_proxy.Rules.Engine.{
  AutoRule, RuleEngine, contains, add_pid, is_empty, refresh_cmdline_flag,
}
use clew_proxy.Rules.Wildcard.{wildcard_match}
use clew_proxy.Rules.Engine.Match.{
  mark, mark_proxied, clear_all_auto, expand_over, expand_descendants, check_cmdline,
  check_image_path, name_match, try_match_one, scan_names, expand_roots, apply_single_rule,
  apply_rules, apply_auto_rules, set_cmdline, set_image_path, forget_matches, answer_or_sentinel,
}
use clew_proxy.Rules.Engine.Match.Manual.{
  KeepsManual, KeepsManual-refl, KeepsManual-trans, KeepsManual-update_at, mark-Kept,
  clear_auto-Kept,
}

-- A branch keeps what both of its sides keep: of entries, and of the second or first of a pair.
keep_branch :
    (es : Entries) (b : Bool) (x y : Entries)
    → KeepsManual es x
    → KeepsManual es y
    → KeepsManual es (if b then x else y)
keep_branch es true x y p q = p
keep_branch es false x y p q = q

keep_second :
    {A : Type 0} (es : Entries) (b : Bool) (x y : A × Entries)
    → KeepsManual es x.1
    → KeepsManual es y.1
    → KeepsManual es (if b then x else y).1
keep_second es true x y p q = p
keep_second es false x y p q = q

keep_first :
    {A : Type 0} (es : Entries) (b : Bool) (x y : Entries × A)
    → KeepsManual es x.0
    → KeepsManual es y.0
    → KeepsManual es (if b then x else y).0
keep_first es true x y p q = p
keep_first es false x y p q = q

mark_proxied-KeepsManual :
    (i : ℕ) (r : AutoRule) (es : Entries) → KeepsManual es (mark_proxied i r es)
unfolding mark_proxied
mark_proxied-KeepsManual i r es =
    KeepsManual-update_at i (mark r.proxy_group_id) es (mark-Kept r.proxy_group_id)

clear_all_auto-KeepsManual : (es : Entries) → KeepsManual es (clear_all_auto es)
unfolding clear_all_auto KeepsManual
clear_all_auto-KeepsManual [] = tt
clear_all_auto-KeepsManual (e ∷ es) = (clear_auto-Kept e, clear_all_auto-KeepsManual es)

expand_over-KeepsManual :
    (is : List ℕ) (r : AutoRule) (es : Entries) → KeepsManual es (expand_over is r es).0
unfolding expand_over
expand_over-KeepsManual [] r es = KeepsManual-refl es
expand_over-KeepsManual (i ∷ is) r es =
    let child = entry_at i es in
    let pass = contains child.pid r.excluded_pids || contains child.pid r.matched_pids in
    let es' = if pass then es else mark_proxied i r es in
    let r' : AutoRule =
      if pass then r else record r { matched_pids = add_pid child.pid r.matched_pids } in
    KeepsManual-trans es es' (expand_over is r' es').0
      (keep_branch es pass es (mark_proxied i r es) (KeepsManual-refl es)
        (mark_proxied-KeepsManual i r es))
      (expand_over-KeepsManual is r' es')

expand_descendants-KeepsManual :
    (i : ℕ) (r : AutoRule) (es : Entries) → KeepsManual es (expand_descendants i r es).0
unfolding expand_descendants
expand_descendants-KeepsManual i r es = expand_over-KeepsManual (visit_descendants i es) r es

module _ (cmdline image_path : ℕ → List ℕ) where
  check_cmdline-KeepsManual :
      (i : ℕ) (r : AutoRule) (es : Entries)
      → KeepsManual es (check_cmdline cmdline image_path i r es).1
  unfolding check_cmdline has_flag
  check_cmdline-KeepsManual i r es =
      let old = (entry_at i es).cmdline_cache in
      let cache = if is_empty old then answer_or_sentinel (cmdline (entry_at i es).pid) else old in
      keep_second es (is_empty r.cmdline_pattern) (true, es) (_, update_at i (set_cmdline cache) es)
        (KeepsManual-refl es)
        (KeepsManual-update_at i (set_cmdline cache) es
          (λ e. record { manual = refl; group = λ _. refl }))

  check_image_path-KeepsManual :
      (i : ℕ) (r : AutoRule) (es : Entries)
      → KeepsManual es (check_image_path cmdline image_path i r es).1
  unfolding check_image_path has_flag
  check_image_path-KeepsManual i r es =
      let old = (entry_at i es).image_path_cache in
      let cache =
        if is_empty old then answer_or_sentinel (image_path (entry_at i es).pid) else old in
      keep_second es (is_empty r.image_path_pattern) (true, es)
        (_, update_at i (set_image_path cache) es) (KeepsManual-refl es)
        (KeepsManual-update_at i (set_image_path cache) es
          (λ e. record { manual = refl; group = λ _. refl }))

  name_match-KeepsManual :
      (i : ℕ) (r : AutoRule) (es : Entries)
      → KeepsManual es (name_match cmdline image_path i r es).1
  unfolding name_match
  name_match-KeepsManual i r es =
      let es1 = (check_cmdline cmdline image_path i r es).1 in
      let es2 = (check_image_path cmdline image_path i r es1).1 in
      let kept1 = check_cmdline-KeepsManual i r es in
      keep_second es
        (is_empty r.process_name
          || not (wildcard_match true r.process_name (entry_at i es).name_u8))
        (false, es) _ (KeepsManual-refl es)
        (keep_second es (not (check_cmdline cmdline image_path i r es).0) (false, es1) (_, es2)
          kept1 (KeepsManual-trans es es1 es2 kept1 (check_image_path-KeepsManual i r es1)))

  try_match_one-KeepsManual :
      (i : ℕ) (r : AutoRule) (es : Entries)
      → KeepsManual es (try_match_one cmdline image_path i r es).1
  unfolding try_match_one
  try_match_one-KeepsManual i r es =
      let same = KeepsManual-refl es in
      let by_name = name_match-KeepsManual i r es in
      keep_second es (not r.enabled) (_, es) _ same
        (keep_second es (not (entry_at i es).alive) (_, es) _ same
          (keep_second es (contains (entry_at i es).pid r.excluded_pids) (_, es) _ same
            (keep_second es (contains (entry_at i es).pid r.matched_pids) (_, es) _ same by_name)))

  scan_names-KeepsManual :
      (left i : ℕ) (r : AutoRule) (es : Entries)
      → KeepsManual es (scan_names cmdline image_path left i r es).1.0
  unfolding scan_names
  scan_names-KeepsManual zero i r es = KeepsManual-refl es
  scan_names-KeepsManual (suc left) i r es =
      let tried = try_match_one cmdline image_path i r es in
      let es1 = tried.1 in
      let plain = tried.0.name && not r.hack_tree in
      let es2 = if plain then mark_proxied i r es1 else es1 in
      let r2 : AutoRule =
        if plain
        then record r { matched_pids = add_pid (entry_at i es1).pid r.matched_pids }
        else r in
      KeepsManual-trans es es1 _ (try_match_one-KeepsManual i r es) (
        KeepsManual-trans es1 es2 _
          (keep_branch es1 plain (mark_proxied i r es1) es1 (mark_proxied-KeepsManual i r es1)
            (KeepsManual-refl es1))
          (scan_names-KeepsManual left (i + 1) r2 es2))

  expand_roots-KeepsManual :
      (pids matched : List ℕ) (m : SideMap) (r : AutoRule) (es : Entries)
      → KeepsManual es (expand_roots cmdline image_path pids matched m r es).0
  unfolding expand_roots
  expand_roots-KeepsManual [] matched m r es = KeepsManual-refl es
  expand_roots-KeepsManual (pid ∷ pids) matched m r es =
      let idx : ℕ = elim (lookup pid m) [ none ↦ invalid_idx | some s ↦ s.index ] in
      let r1 : AutoRule = record r { matched_pids = add_pid pid r.matched_pids } in
      let es1 = mark_proxied idx r1 es in
      let below = contains (entry_at idx es1).parent_pid matched in
      let grown : Entries × AutoRule = if below then (es1, r1) else expand_descendants idx r1 es1 in
      let marked = mark_proxied-KeepsManual idx r1 es in
      let es3 = if idx == invalid_idx then es else grown.0 in
      let r3 : AutoRule = if idx == invalid_idx then r else grown.1 in
      KeepsManual-trans es es3 _
        (keep_branch es (idx == invalid_idx) es grown.0 (KeepsManual-refl es) (
          keep_first es below (es1, r1) (expand_descendants idx r1 es1) marked
            (KeepsManual-trans es es1 _ marked (expand_descendants-KeepsManual idx r1 es1))))
        (expand_roots-KeepsManual pids matched m r3 es3)

  apply_single_rule-KeepsManual :
      (m : SideMap) (r : AutoRule) (es : Entries)
      → KeepsManual es (apply_single_rule cmdline image_path m r es).0
  unfolding apply_single_rule
  apply_single_rule-KeepsManual m r es =
      let (pids, (es1, r1)) = scan_names cmdline image_path (length es) 0 r es in
      let scanned = scan_names-KeepsManual (length es) 0 r es in
      keep_first es r.hack_tree (expand_roots cmdline image_path pids pids m r1 es1) (es1, r1)
        (KeepsManual-trans es es1 _ scanned (expand_roots-KeepsManual pids pids m r1 es1)) scanned

  apply_rules-KeepsManual :
      (m : SideMap) (rs : List AutoRule) (es : Entries)
      → KeepsManual es (apply_rules cmdline image_path m rs es).0
  unfolding apply_rules
  apply_rules-KeepsManual m [] es = KeepsManual-refl es
  apply_rules-KeepsManual m (r ∷ rs) es =
      let one = apply_single_rule cmdline image_path m r es in
      let es1 = (if r.enabled then one else (es, r)).0 in
      KeepsManual-trans es es1 _
        (keep_first es r.enabled one (es, r) (apply_single_rule-KeepsManual m r es)
          (KeepsManual-refl es))
        (apply_rules-KeepsManual m rs es1)

  -- The full scan leaves every entry that was hijacked by hand hijacked and in its group, and hijacks
  -- no other by hand, whatever the rules are and the system answers.
  pub apply_auto_rules-KeepsManual :
      (tree : FlatTree) (e : RuleEngine)
      → KeepsManual tree.entries (apply_auto_rules cmdline image_path (tree, e)).0.entries
  unfolding apply_auto_rules
  apply_auto_rules-KeepsManual tree e =
      let rs = forget_matches (refresh_cmdline_flag e).auto_rules in
      KeepsManual-trans tree.entries (clear_all_auto tree.entries) _
        (clear_all_auto-KeepsManual tree.entries)
        (apply_rules-KeepsManual tree.side_map rs (clear_all_auto tree.entries))
