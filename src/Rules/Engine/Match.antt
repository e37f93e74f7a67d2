-- ===== src/Rules/Engine/Match.antt =====
-- src/rules/rule_engine_v3.hpp: the match of one entry against one rule, and the full scan.
--
-- `query_cmdline` and `query_image_path` stand for the operating system's answers about a PID. The
-- scan of a rule visits the matched PIDs, whose set has no order, in the order of the entries.
pub mod Manual
pub mod Scan
use clew_proxy.Prelude.{
  ℕ, zero, suc, ◌+◌, Bool, true, false, not, ◌&&◌, ◌||◌, if◌then◌else◌, ◌==◌, Option, none, some,
  List, [], ◌∷◌, ◌++◌, length, map,
}
use clew_proxy.FlatTree.Entry.{
  ProcessEntry, FlatTree, SideMap, lookup, entry_at, update_at, find_by_pid, invalid_idx, no_proxy,
  is_proxied, has_flag, set_flag, clear_flag, manual_hijack_flag, auto_matched_flag,
}
use clew_proxy.FlatTree.Links.{Entries, visit_descendants}
use clew_proxy.Rules.Wildcard.{to_lower, wildcard_match, cmdline_match, starts_with}
use clew_proxy.Rules.Engine.{
  AutoRule, RuleEngine, same_text, is_empty, contains, add_pid, drop_pid, refresh_cmdline_flag,
}

-- The mark of a query that was made and had no answer.
abbrev pub sentinel : List ℕ
sentinel = 1 ∷ []

abbrev pub answer_or_sentinel : List ℕ → List ℕ
answer_or_sentinel [] = sentinel
answer_or_sentinel (c ∷ s) = c ∷ s

abbrev pub is_sentinel : List ℕ → Bool
is_sentinel [] = false
is_sentinel (c ∷ s) = c == 1

abbrev pub set_cmdline : List ℕ → ProcessEntry → ProcessEntry
set_cmdline s e = record e { cmdline_cache = s }

abbrev pub set_image_path : List ℕ → ProcessEntry → ProcessEntry
set_image_path s e = record e { image_path_cache = s }

-- The entry's group and flag, unless it was hijacked by hand.
unfoldable pub mark : ℕ → ProcessEntry → ProcessEntry
unfolding has_flag set_flag
mark group e =
    if has_flag manual_hijack_flag e
    then e
    else set_flag auto_matched_flag (record e { group_id = group })

unfoldable pub mark_proxied : ℕ → AutoRule → Entries → Entries
unfolding mark
mark_proxied idx r es = update_at idx (mark r.proxy_group_id) es

-- What the scan clears of an entry first.
unfoldable pub clear_auto : ProcessEntry → ProcessEntry
unfolding has_flag clear_flag
clear_auto e =
    let c = clear_flag auto_matched_flag e in
    if not e.alive
    then e
    else if not (has_flag auto_matched_flag e)
    then e
    else if has_flag manual_hijack_flag c
    then c
    else record c { group_id = no_proxy }

unfoldable pub clear_all_auto : Entries → Entries
unfolding clear_auto
clear_all_auto [] = []
clear_all_auto (e ∷ es) = clear_auto e ∷ clear_all_auto es

-- The loop over the descendants, whose visits were listed before it: a mark moves no link.
unfoldable pub expand_over : List ℕ → AutoRule → Entries → Entries × AutoRule
unfolding contains mark_proxied
expand_over [] r es = (es, r)
expand_over (i ∷ is) r es =
    let child = entry_at i es in
    let pass = contains child.pid r.excluded_pids || contains child.pid r.matched_pids in
    let es' = if pass then es else mark_proxied i r es in
    let r' = if pass then r else record r { matched_pids = add_pid child.pid r.matched_pids } in
    expand_over is r' es'

unfoldable pub expand_descendants : ℕ → AutoRule → Entries → Entries × AutoRule
unfolding expand_over visit_descendants
expand_descendants idx r es = expand_over (visit_descendants idx es) r es

pub record MatchKind : Type 0 where
  pub name : Bool
  pub tree : Bool

unfoldable pub forget_matches : List AutoRule → List AutoRule
forget_matches [] = []
forget_matches (r ∷ rs) = record r { matched_pids = [] } ∷ forget_matches rs

module _ (query_cmdline query_image_path : ℕ → List ℕ) where
  unfoldable pub check_cmdline : ℕ → AutoRule → Entries → Bool × Entries
  unfolding cmdline_match
  check_cmdline idx r es =
      let old = (entry_at idx es).cmdline_cache in
      let cache =
        if is_empty old then answer_or_sentinel (query_cmdline (entry_at idx es).pid) else old in
      if is_empty r.cmdline_pattern then (true, es) else (
        not (is_sentinel cache) && cmdline_match r.cmdline_pattern cache,
        update_at idx (set_cmdline cache) es,
      )

  unfoldable pub check_image_path : ℕ → AutoRule → Entries → Bool × Entries
  unfolding starts_with to_lower
  check_image_path idx r es =
      let old = (entry_at idx es).image_path_cache in
      let cache =
        if is_empty old then answer_or_sentinel (query_image_path (entry_at idx es).pid) else old in
      if is_empty r.image_path_pattern then (true, es) else (
        not (is_sentinel cache)
            && starts_with (map to_lower r.image_path_pattern) (map to_lower cache),
        update_at idx (set_image_path cache) es,
      )

  -- The name, then the command line, then the image path, each only if the ones before match.
  unfoldable pub name_match : ℕ → AutoRule → Entries → Bool × Entries
  unfolding check_cmdline check_image_path wildcard_match
  name_match idx r es =
      let (by_cmdline, es1) = check_cmdline idx r es in
      let (by_image_path, es2) = check_image_path idx r es1 in
      if is_empty r.process_name
        || not (wildcard_match true r.process_name (entry_at idx es).name_u8)
      then (false, es)
      else if not by_cmdline
      then (false, es1)
      else (by_image_path, es2)

  unfoldable pub try_match_one : ℕ → AutoRule → Entries → MatchKind × Entries
  unfolding name_match contains
  try_match_one idx r es =
      let entry = entry_at idx es in
      let no_match : MatchKind = record { name = false; tree = false } in
      let (by_name, es1) = name_match idx r es in
      let by_tree =
        not by_name
        && r.hack_tree
        && not (entry.parent_pid == 0)
        && contains entry.parent_pid r.matched_pids in
      if not r.enabled
      then (no_match, es)
      else if not entry.alive
      then (no_match, es)
      else if contains entry.pid r.excluded_pids
      then (no_match, es)
      else if contains entry.pid r.matched_pids
      then (no_match, es)
      else (record { name = by_name; tree = by_tree }, es1)

  -- Phase 1 of `apply_single_rule`, from index `i` on: the PIDs that match by name.
  unfoldable pub scan_names : ℕ → ℕ → AutoRule → Entries → List ℕ × (Entries × AutoRule)
  unfolding try_match_one mark_proxied
  scan_names zero i r es = ([], (es, r))
  scan_names (suc left) i r es =
      let (kind, es1) = try_match_one i r es in
      let pid = (entry_at i es1).pid in
      let hit = kind.name in
      let plain = hit && not r.hack_tree in
      let es2 = if plain then mark_proxied i r es1 else es1 in
      let r2 = if plain then record r { matched_pids = add_pid pid r.matched_pids } else r in
      let (pids, rest) = scan_names left (i + 1) r2 es2 in
      (if hit && r.hack_tree then pid ∷ pids else pids, rest)

  -- Phase 2: each matched process, and the descendants of those whose parent did not match.
  unfoldable pub expand_roots : List ℕ → List ℕ → SideMap → AutoRule → Entries → Entries × AutoRule
  unfolding lookup contains mark_proxied expand_descendants
  expand_roots [] matched m r es = (es, r)
  expand_roots (pid ∷ pids) matched m r es =
      let idx : ℕ = elim (lookup pid m) [ none ↦ invalid_idx | some s ↦ s.index ] in
      let r1 = record r { matched_pids = add_pid pid r.matched_pids } in
      let es1 = mark_proxied idx r1 es in
      let (es2, r2) =
        if contains (entry_at idx es1).parent_pid matched
        then (es1, r1)
        else expand_descendants idx r1 es1 in
      let es3 = if idx == invalid_idx then es else es2 in
      let r3 = if idx == invalid_idx then r else r2 in expand_roots pids matched m r3 es3

  unfoldable pub apply_single_rule : SideMap → AutoRule → Entries → Entries × AutoRule
  unfolding scan_names expand_roots
  apply_single_rule m r es =
      let (pids, (es1, r1)) = scan_names (length es) 0 r es in
      if r.hack_tree then expand_roots pids pids m r1 es1 else (es1, r1)

  -- The last loop of `apply_auto_rules`.
  unfoldable pub apply_rules : SideMap → List AutoRule → Entries → Entries × List AutoRule
  unfolding apply_single_rule
  apply_rules m [] es = (es, [])
  apply_rules m (r ∷ rs) es =
      let (es1, r1) = if r.enabled then apply_single_rule m r es else (es, r) in
      let (es2, rs2) = apply_rules m rs es1 in (es2, r1 ∷ rs2)

  unfoldable pub apply_auto_rules : FlatTree × RuleEngine → FlatTree × RuleEngine
  unfolding refresh_cmdline_flag apply_rules clear_all_auto forget_matches
  apply_auto_rules (tree, e) =
      let e1 = refresh_cmdline_flag e in
      let (es, rs) =
        apply_rules tree.side_map (forget_matches e1.auto_rules) (clear_all_auto tree.entries) in
      (record tree { entries = es }, record e1 { auto_rules = rs })
