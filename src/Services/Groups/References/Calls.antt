-- ===== src/Services/Groups/References/Calls.antt =====
-- src/services/group_service.cpp: sequences of calls keep the references of the rules.
use clew_proxy.Prelude.{
  ℕ, ◌≡◌, sym, ◌∙◌, inl, inr, Bool, false, ◌||◌, ◌==◌, ltb, Option, List, [], ◌∷◌, ◌++◌, arith,
  Bool-cases, Option-cases,
}
use mathlib.Core.Path.{subst}
use clew_proxy.FlatTree.Entry.{ProcessEntry}
use clew_proxy.Config.Groups.{ConfigV2, bump}
use clew_proxy.Config.Store.{
  ConfigStore, Reply, ConfigChange, mutate, require, group_created, group_updated, group_deleted,
  group_migrated,
}
use clew_proxy.Services.Groups.{
  GroupPatch, has_group, erase_group, patch_first, is_referenced, move_rules, without_group,
  new_group, create_group, update_group, delete_group, migrate_config, migrate_group, manual_count,
}
use clew_proxy.Services.Groups.References.{
  IsReferential, AllKnown-map, AllKnown-erase_group, AllKnown-move_rules, has_group-append,
  has_group-patch_first, has_group-erase_group, mutate-live,
}

-- A call of the service, with what the file system and the process tree answered to it.
pub data GroupCall : Type 0 where
  creating : (body : GroupPatch) (saved : Bool) → GroupCall
  updating : (id : ℕ) (patch : GroupPatch) (saved : Bool) → GroupCall
  deleting : (id : ℕ) (tree : Option (List ProcessEntry)) (saved : Bool) → GroupCall
  migrating : (source target : ℕ) (saved : Bool) (es : List ProcessEntry) → GroupCall

-- A group is not migrated to itself.
abbrev pub IsProper : GroupCall → Type 0
IsProper (creating body saved) = Unit
IsProper (updating id patch saved) = Unit
IsProper (deleting id tree saved) = Unit
IsProper (migrating source target saved es) = (target == source) ≡ false

abbrev pub AllProper : List GroupCall → Type 0
AllProper [] = Unit
AllProper (o ∷ os) = IsProper o × AllProper os

mutate-IsReferential :
    (fn : ConfigV2 → ConfigV2) (tag : ConfigChange) (saved : Bool) (s : ConfigStore)
    → IsReferential (fn s.live)
    → IsReferential (mutate fn tag saved s).store.live
mutate-IsReferential fn tag saved s v = subst IsReferential (sym (mutate-live fn tag saved s)) v

require-live : (found : Bool) (r : Reply) → (require found r).store.live ≡ r.store.live
unfolding require
require-live found r = elim (Option-cases r.error) [
  | inl e ↦ elim (Bool-cases found) [ inl t ↦ ground (arith, e) | inr f ↦ ground (arith, e) ]
  | inr (x, e) ↦ ground (arith, e)
]

delete_group-IsReferential :
    (id : ℕ) (tree : Option (List ProcessEntry)) (saved : Bool) (s : ConfigStore)
    → IsReferential s.live
    → IsReferential (delete_group id tree saved s).store.live
unfolding delete_group
delete_group-IsReferential id tree saved s v = elim (Bool-cases (id == 0)) [
  | inl z ↦ rw z v
  | inr n ↦ elim (Bool-cases (has_group id s.live.proxy_groups)) [
    | inr m ↦ rw (n, m) v
    | inl h ↦
        elim (Bool-cases (is_referenced id s.live.auto_rules || ltb 0 (manual_count id tree))) [
          | inl c ↦ rw (n, h, c) v
          | inr c ↦
              rw (n, h, c)
                (mutate-IsReferential (without_group id) group_deleted saved s (
                  has_group-erase_group 0 id s.live.proxy_groups (ground arith) v.0,
                  AllKnown-erase_group id s.live.proxy_groups s.live.auto_rules (ground arith) v.1,
                ))
        ]
  ]
]

migrate_config-IsReferential :
    (source target : ℕ) (saved : Bool) (s : ConfigStore)
    → (target == source) ≡ false
    → IsReferential s.live
    → IsReferential (migrate_config source target saved s).store.live
unfolding migrate_config
migrate_config-IsReferential source target saved s d v = elim (Bool-cases (source == 0)) [
  | inl z ↦ rw z v
  | inr n ↦ elim (Bool-cases (has_group source s.live.proxy_groups)) [
    | inr m ↦ rw (n, m) v
    | inl h ↦ elim (Bool-cases (has_group target s.live.proxy_groups)) [
      | inr m ↦ rw (n, h, m) v
      | inl t ↦
          let gs = s.live.proxy_groups in
          rw (n, h, t)
            (mutate-IsReferential
              (λ c. record c {
                auto_rules = move_rules source target c.auto_rules;
                proxy_groups = erase_group source c.proxy_groups;
              })
              group_migrated saved s
              (
                has_group-erase_group 0 source gs (ground arith) v.0,
                AllKnown-move_rules source target gs s.live.auto_rules d t v.1,
              ))
    ]
  ]
]

module _ (group_name : ℕ → List ℕ) (default_host default_type default_test_url : List ℕ) where
  unfoldable pub call_group : GroupCall → ConfigStore → Reply
  call_group (creating body saved) s =
      create_group group_name default_host default_type default_test_url body saved s
  call_group (updating id patch saved) s = update_group id patch saved s
  call_group (deleting id tree saved) s = delete_group id tree saved s
  call_group (migrating source target saved es) s = (migrate_group source target saved es s).0

  unfoldable pub call_groups : List GroupCall → ConfigStore → ConfigStore
  unfolding call_group
  call_groups [] s = s
  call_groups (o ∷ os) s = call_groups os (call_group o s).store

  call_group-IsReferential :
      (o : GroupCall) (s : ConfigStore)
      → IsProper o
      → IsReferential s.live
      → IsReferential (call_group o s).store.live
  unfolding call_group create_group update_group migrate_group
  call_group-IsReferential (creating body saved) s p v =
      let g =
        new_group group_name default_host default_type default_test_url body s.live.next_group_id in
      let gs = s.live.proxy_groups in
      mutate-IsReferential
        (λ c. record c {
          proxy_groups =
              c.proxy_groups
              ++ new_group group_name default_host default_type default_test_url body
                  c.next_group_id
                ∷ [];
          next_group_id = bump c.next_group_id;
        })
        group_created saved s
        (
          has_group-append 0 gs g v.0,
          AllKnown-map gs (gs ++ g ∷ []) s.live.auto_rules (λ id h. has_group-append id gs g h) v.1,
        )
  call_group-IsReferential (updating id patch saved) s p v =
      let gs = s.live.proxy_groups in
      let fn : ConfigV2 → ConfigV2 =
        λ c. record c { proxy_groups = patch_first id patch c.proxy_groups } in
      subst IsReferential (sym (require-live (has_group id gs) (mutate fn group_updated saved s))) (
        mutate-IsReferential fn group_updated saved s (
          has_group-patch_first 0 id patch gs ∙ v.0,
          AllKnown-map gs (patch_first id patch gs) s.live.auto_rules
              (λ k h. has_group-patch_first k id patch gs ∙ h) v.1,
        ))
  call_group-IsReferential (deleting id tree saved) s p v =
      delete_group-IsReferential id tree saved s v
  call_group-IsReferential (migrating source target saved es) s p v =
      migrate_config-IsReferential source target saved s p v

  -- After any sequence of calls of the group service, the default group exists and every rule
  -- refers to a group, if both hold at first and no group is migrated to itself; the writes to disk
  -- may fail, and the query of the process tree.
  pub call_groups-IsReferential :
      (os : List GroupCall) (s : ConfigStore)
      → AllProper os
      → IsReferential s.live
      → IsReferential (call_groups os s).live
  unfolding call_groups
  call_groups-IsReferential [] s p v = v
  call_groups-IsReferential (o ∷ os) s p v =
      call_groups-IsReferential os (call_group o s).store p.1 (call_group-IsReferential o s p.0 v)
