-- ===== src/Rules/Engine/Hijack.antt =====
-- src/rules/rule_engine_v3.hpp: hijacks by hand, exclusions, and the start of a process.
pub mod Laws
use clew_proxy.Prelude.{
  ℕ, zero, suc, Bool, true, false, not, ◌&&◌, ◌||◌, if◌then◌else◌, ◌==◌, Option, none, some, List,
  [], ◌∷◌,
}
use clew_proxy.FlatTree.Entry.{
  ProcessEntry, FlatTree, entry_at, update_at, find_by_pid, invalid_idx, no_proxy, is_proxied,
  has_flag, set_flag, clear_flag, manual_hijack_flag, auto_matched_flag,
}
use clew_proxy.FlatTree.Links.{Entries, visit_descendants}
use clew_proxy.Rules.Engine.{
  AutoRule, RuleEngine, same_text, contains, add_pid, drop_pid, first_match,
}
use clew_proxy.Rules.Engine.Match.{MatchKind, mark_proxied, expand_descendants, try_match_one}

-- The writes to one entry.
unfoldable pub hijack : ℕ → ProcessEntry → ProcessEntry
unfolding set_flag
hijack group_id e = set_flag manual_hijack_flag (record e { group_id = group_id })

unfoldable pub unhijack : ProcessEntry → ProcessEntry
unfolding has_flag clear_flag
unhijack e =
    let c = clear_flag manual_hijack_flag e in
    if not (has_flag auto_matched_flag c) then record c { group_id = no_proxy } else c

unfoldable pub manual_hijack : ℕ → ℕ → FlatTree → FlatTree
unfolding find_by_pid hijack
manual_hijack pid group_id t =
    let idx = find_by_pid pid t in
    if idx == invalid_idx
    then t
    else record t { entries = update_at idx (hijack group_id) t.entries }

unfoldable pub manual_unhijack : ℕ → FlatTree → FlatTree
unfolding find_by_pid unhijack
manual_unhijack pid t =
    let idx = find_by_pid pid t in
    if idx == invalid_idx then t else record t { entries = update_at idx unhijack t.entries }

-- The loops over the descendants.
unfoldable pub hijack_over : ℕ → List ℕ → Entries → Entries
unfolding hijack
hijack_over group_id [] es = es
hijack_over group_id (i ∷ is) es = hijack_over group_id is (update_at i (hijack group_id) es)

unfoldable pub unhijack_over : List ℕ → Entries → Entries
unfolding unhijack has_flag
unhijack_over [] es = es
unhijack_over (i ∷ is) es =
    unhijack_over is
      (if not (has_flag manual_hijack_flag (entry_at i es)) then es else update_at i unhijack es)

unfoldable pub manual_hijack_tree : ℕ → ℕ → FlatTree → FlatTree
unfolding find_by_pid hijack hijack_over visit_descendants
manual_hijack_tree pid group_id t =
    let idx = find_by_pid pid t in
    let es = update_at idx (hijack group_id) t.entries in
    if idx == invalid_idx
    then t
    else record t { entries = hijack_over group_id (visit_descendants idx es) es }

unfoldable pub manual_unhijack_tree : ℕ → FlatTree → FlatTree
unfolding find_by_pid unhijack unhijack_over visit_descendants
manual_unhijack_tree pid t =
    let idx = find_by_pid pid t in
    let es = update_at idx unhijack t.entries in
    if idx == invalid_idx
    then t
    else record t { entries = unhijack_over (visit_descendants idx es) es }

unfoldable pub is_manually_hijacked : ℕ → FlatTree → Bool
unfolding find_by_pid has_flag
is_manually_hijacked pid t =
    let idx = find_by_pid pid t in
    if idx == invalid_idx then false else has_flag manual_hijack_flag (entry_at idx t.entries)

-- What an exclusion does to the rule and to the entry.
abbrev pub excluding : ℕ → AutoRule → AutoRule
excluding pid r = record r {
  excluded_pids = add_pid pid r.excluded_pids;
  matched_pids = drop_pid pid r.matched_pids;
}

unfoldable pub unmark : ProcessEntry → ProcessEntry
unfolding clear_flag has_flag
unmark e =
    let c = clear_flag auto_matched_flag e in
    if not (has_flag manual_hijack_flag c) then record c { group_id = no_proxy } else c

-- The first rule with the id is changed; `none` where no rule has it.
unfoldable pub change_rule : List ℕ → (AutoRule → AutoRule) → List AutoRule → Option (List AutoRule)
unfolding same_text
change_rule id f [] = none
change_rule id f (r ∷ rs) =
    let rest = change_rule id f rs in
    if same_text r.id id
    then some (f r ∷ rs)
    else elim rest [ none ↦ none | some rs' ↦ some (r ∷ rs') ]

unfoldable pub exclude_pid : List ℕ → ℕ → FlatTree × RuleEngine → (FlatTree × RuleEngine) × Bool
unfolding change_rule find_by_pid unmark
exclude_pid rule_id pid (t, e) =
    let idx = find_by_pid pid t in
    let t' : FlatTree =
      if idx == invalid_idx then t else record t { entries = update_at idx unmark t.entries } in
    elim (change_rule rule_id (excluding pid) e.auto_rules) [
      | none ↦ ((t, e), false)
      | some rs ↦ ((t', record e { auto_rules = rs }), true)
    ]

abbrev pub including : ℕ → AutoRule → AutoRule
including pid r = record r { excluded_pids = drop_pid pid r.excluded_pids }

unfoldable pub unexclude_pid : List ℕ → ℕ → RuleEngine → RuleEngine × Bool
unfolding change_rule
unexclude_pid rule_id pid e = elim (change_rule rule_id (including pid) e.auto_rules) [
  | none ↦ (e, false)
  | some rs ↦ (record e { auto_rules = rs }, true)
]

unfoldable pub get_hijacked_pids : Entries → List ℕ
unfolding is_proxied
get_hijacked_pids [] = []
get_hijacked_pids (e ∷ es) =
    let rest = get_hijacked_pids es in if e.alive && is_proxied e then e.pid ∷ rest else rest

-- The result is the parent's PID, or 0 where nothing is inherited.
unfoldable pub try_inherit_manual : ℕ → FlatTree → ℕ × FlatTree
unfolding find_by_pid has_flag hijack
try_inherit_manual idx t =
    let e = entry_at idx t.entries in
    let parent_idx = find_by_pid e.parent_pid t in
    let parent = entry_at parent_idx t.entries in
    if e.parent_pid == 0
    then (0, t)
    else if parent_idx == invalid_idx
    then (0, t)
    else if not parent.alive || not (has_flag manual_hijack_flag parent)
    then (0, t)
    else (e.parent_pid, record t { entries = update_at idx (hijack parent.group_id) t.entries })

-- How `on_process_start` ends: the id of a rule, "manual:tree:" with a PID, or nothing.
pub data StartMatch : Type 0 where
  by_rule : List ℕ → StartMatch
  by_parent : ℕ → StartMatch
  unmatched : StartMatch

module _ (query_cmdline query_image_path : ℕ → List ℕ) where
  -- The loop over the rules: those already tried are put back in front.
  unfoldable pub start_rules :
      ℕ → List AutoRule → Entries → Option (List ℕ) × (List AutoRule × Entries)
  unfolding try_match_one mark_proxied expand_descendants
  start_rules idx [] es = (none, ([], es))
  start_rules idx (r ∷ rs) es =
      let (kind, es1) = try_match_one query_cmdline query_image_path idx r es in
      let r1 : AutoRule = record r {
        matched_pids = add_pid (entry_at idx es1).pid r.matched_pids;
      } in
      let es2 = mark_proxied idx r1 es1 in
      let (es3, r3) =
        if kind.name && r1.hack_tree then expand_descendants idx r1 es2 else (es2, r1) in
      let (later, (rs', es')) = start_rules idx rs es1 in
      if not kind.name && not kind.tree
      then (later, (r ∷ rs', es'))
      else (some r.id, (r3 ∷ rs, es3))

  unfoldable pub on_process_start : ℕ → FlatTree × RuleEngine → StartMatch × (FlatTree × RuleEngine)
  unfolding start_rules try_inherit_manual
  on_process_start idx (t, e) =
      let (hit, (rs, es)) = start_rules idx e.auto_rules t.entries in
      let t1 = record t { entries = es } in
      let e1 = record e { auto_rules = rs } in
      let (parent_pid, t2) = try_inherit_manual idx t1 in
      let inherited =
        if parent_pid == 0 then (unmatched, (t1, e1)) else (by_parent parent_pid, (t2, e1)) in
      if not (entry_at idx t.entries).alive
      then (unmatched, (t, e))
      else elim hit [ none ↦ inherited | some id ↦ (by_rule id, (t1, e1)) ]
