-- ===== src/Examples/Configs.antt =====
-- Concrete inputs of the configuration and the services.
use clew_proxy.Prelude.{
  ℕ, ◌≡◌, refl, true, false, ◌&&◌, ◌==◌, none, some, List, [], ◌∷◌, length, pos, arith,
}
use clew_proxy.Config.Redirect.{any_host, is_dotted_quad}
use clew_proxy.Config.Redirect.Address.{is_dotted_quad_lem, parts, all_octets}
use clew_proxy.Config.Groups.{ProxyGroup, ConfigV2, ensure_proxy_groups}
use clew_proxy.Config.Groups.Migration.Placement.{
  ensure_proxy_groups-AllPlaced, AllPlaced, IsNumbered,
}
use clew_proxy.Config.Store.{ConfigStore}
use clew_proxy.Services.Groups.{
  GroupPatch, has_group, migrate_group, erase_group, create_group, update_group, delete_group,
  patch_first, is_referenced, move_rules, count_manual,
}
use clew_proxy.Services.Groups.References.{IsReferential}
use clew_proxy.Services.Groups.References.Calls.{
  GroupCall, creating, updating, deleting, migrating, call_groups, call_groups-IsReferential,
}
use clew_proxy.Services.Rules.{exclude_pid, unexclude_pid, find_rule}
use clew_proxy.Rules.Engine.{contains}
use clew_proxy.Services.Rules.Exclusion.{unexclude_pid-exclude_pid}
use clew_proxy.FlatTree.Entry.{ProcessEntry}
use clew_proxy.Services.Groups.Migration.{migrate_group_lem}
use clew_proxy.Examples.Data.{star_rule, hijacked}

-- "10.0.0.256".
abbrev over_host : List ℕ
over_host = 49 ∷ 48 ∷ 46 ∷ 48 ∷ 46 ∷ 48 ∷ 46 ∷ 50 ∷ 53 ∷ 54 ∷ []

abbrev name_of : ℕ → List ℕ
name_of id = 103 ∷ id ∷ []

abbrev old_config : ConfigV2
old_config = record {
  version = 2;
  default_proxy = record { type = []; host = 49 ∷ []; port = 1080; user = []; password = [] };
  proxy_groups = [];
  next_group_id = 1;
  default_exclude_cidrs = [];
  auto_rules = star_rule ∷ record star_rule { id = 115 ∷ [] } ∷ [];
  redirect = record {
    listen_host = any_host;
    listen_port = 0;
    tcp_idle_timeout_seconds = pos 0;
    udp_idle_timeout_seconds = pos 60;
    exclude_processes = [];
  };
}

abbrev group : ℕ → ProxyGroup
group id = record {
  id = id;
  name = name_of id;
  host = 104 ∷ [];
  port = 7890;
  type = [];
  test_url = [];
}

-- The rule uses group 5 of the groups 0, 5 and 6.
abbrev store : ConfigStore
store =
    let c : ConfigV2 = record old_config {
      proxy_groups = group 0 ∷ group 5 ∷ group 6 ∷ [];
      next_group_id = 7;
      auto_rules = star_rule ∷ [];
    } in
    record { live = c; disk = c }

abbrev patch : GroupPatch
patch = record { name = none; host = some (120 ∷ []); port = none; type = none; test_url = none }

abbrev calls : List GroupCall
calls =
    creating patch true
    ∷ updating 5 patch false
    ∷ migrating 5 7 true []
    ∷ deleting 6 (some []) true
    ∷ deleting 7 none true
    ∷ []

is_dotted_quad_lem_example :
    is_dotted_quad over_host ≡ ((length (parts over_host) == 4) && all_octets (parts over_host))
is_dotted_quad_lem_example = is_dotted_quad_lem over_host

over_host_is_refused : is_dotted_quad over_host ≡ false
unfolding is_dotted_quad
over_host_is_refused = refl

ensure_proxy_groups-AllPlaced_example :
    let c = ensure_proxy_groups name_of (100 ∷ []) [] old_config in
    IsNumbered c.proxy_groups c.next_group_id × AllPlaced c.proxy_groups c.auto_rules
ensure_proxy_groups-AllPlaced_example =
    ensure_proxy_groups-AllPlaced name_of (100 ∷ []) [] old_config refl (omega arith) (ground arith)

-- The two rules with one address share the new group.
two_groups : length (ensure_proxy_groups name_of (100 ∷ []) [] old_config).proxy_groups ≡ 2
unfolding ensure_proxy_groups
two_groups = refl

store-IsReferential : IsReferential store.live
unfolding has_group
store-IsReferential = (refl, (refl, tt))

call_groups-IsReferential_example : IsReferential (call_groups name_of [] [] [] calls store).live
call_groups-IsReferential_example =
    call_groups-IsReferential name_of [] [] [] calls store (tt, (tt, (refl, (tt, (tt, tt)))))
      store-IsReferential

-- Group 6 goes, and group 7, which the rule uses by then, stays.
kept_groups : length (call_groups name_of [] [] [] calls store).live.proxy_groups ≡ 2
unfolding call_groups delete_group has_group migrate_group update_group patch_first create_group
    erase_group is_referenced move_rules count_manual
kept_groups = refl

-- A migration of group 5 to itself answers without an error and leaves its rule without a group.
self_migration :
    let r = (migrate_group 5 5 true [] store).0 in
    (r.error ≡ none) × (has_group 5 r.store.live.proxy_groups ≡ false)
unfolding migrate_group has_group erase_group
self_migration = (refl, refl)

unexclude_pid-exclude_pid_example :
    let done = exclude_pid (114 ∷ []) 42 true store in
    let undone = unexclude_pid (114 ∷ []) 42 true done.store in
    (done.error ≡ none) × (undone.error ≡ none) × (undone.store.live ≡ store.live)
unfolding find_rule contains
unexclude_pid-exclude_pid_example =
    unexclude_pid-exclude_pid (114 ∷ []) 42 store star_rule refl refl

-- A live process hijacked into group 5.
abbrev caught : ProcessEntry
caught = record hijacked { group_id = 5; alive = true }

migrate_group_lem_example :
    let (r, es) = migrate_group 5 6 true (caught ∷ []) store in
    (has_group 5 r.store.live.proxy_groups ≡ false)
    × (is_referenced 5 r.store.live.auto_rules ≡ false)
    × (count_manual 5 es ≡ 0)
unfolding migrate_group has_group
migrate_group_lem_example = migrate_group_lem 5 6 true (caught ∷ []) store refl refl
