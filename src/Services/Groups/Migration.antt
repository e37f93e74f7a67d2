-- ===== src/Services/Groups/Migration.antt =====
-- src/services/group_service.cpp: what a migration leaves.
use clew_proxy.Prelude.{
  ℕ, ◌≡◌, refl, inl, inr, Bool, false, ◌==◌, none, List, [], ◌∷◌, arith, Bool-cases,
}
use clew_proxy.Rules.Engine.{AutoRule}
use clew_proxy.FlatTree.Entry.{ProcessEntry}
use clew_proxy.Config.Store.{ConfigStore, mutate}
use clew_proxy.Services.Groups.{
  has_group, is_referenced, is_hijacked_by, count_manual, move_rules, move_entries, migrate_config,
  migrate_group,
}
use clew_proxy.Services.Groups.References.{erase_group-gone}

is_referenced-move_rules :
    (source target : ℕ) (rs : List AutoRule)
    → (target == source) ≡ false
    → is_referenced source (move_rules source target rs) ≡ false
unfolding is_referenced move_rules
is_referenced-move_rules source target [] n = refl
is_referenced-move_rules source target (r ∷ rs) n = elim (Bool-cases (r.proxy_group_id == source)) [
  | inl e ↦ ground (arith, e, n, is_referenced-move_rules source target rs n)
  | inr d ↦ ground (arith, d, n, is_referenced-move_rules source target rs n)
]

count_manual-move_entries :
    (source target : ℕ) (es : List ProcessEntry)
    → (target == source) ≡ false
    → count_manual source (move_entries source target es) ≡ 0
unfolding count_manual move_entries
count_manual-move_entries source target [] n = refl
count_manual-move_entries source target (e ∷ es) n = elim (Bool-cases (is_hijacked_by source e)) [
  | inl h ↦ ground (arith, h, n, count_manual-move_entries source target es n)
  | inr d ↦ ground (arith, d, n, count_manual-move_entries source target es n)
]

-- When the migration of a group to another one answers without an error, the group is gone, no rule
-- refers to it, and no live process of the tree is hijacked by hand into it.
pub migrate_group_lem :
    (source target : ℕ) (saved : Bool) (es : List ProcessEntry) (s : ConfigStore)
    → (target == source) ≡ false
    → (migrate_group source target saved es s).0.error ≡ none
    → let (r, es') = migrate_group source target saved es s in
      (has_group source r.store.live.proxy_groups ≡ false)
      × (is_referenced source r.store.live.auto_rules ≡ false)
      × (count_manual source es' ≡ 0)
unfolding migrate_group migrate_config mutate
migrate_group_lem source target saved es s n h = ground (
  arith,
  h,
  erase_group-gone source s.live.proxy_groups,
  is_referenced-move_rules source target s.live.auto_rules n,
  count_manual-move_entries source target es n,
)
