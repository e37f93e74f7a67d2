-- ===== src/Services/Groups.antt =====
-- src/services/group_service.cpp: the operations on proxy groups.
--
-- A body or a patch is the JSON object after the library's lookup: the fields it has, with values
-- of the right types. `tree` is what the query for the manual hijacks sees, `none` if it fails.
pub mod References
pub mod Migration
use clew_proxy.Prelude.{
  ℕ, ◌+◌, ◌<◌, Bool, true, false, not, ◌||◌, ◌&&◌, ◌==◌, ltb, if◌then◌else◌, Option, none, some,
  List, [], ◌∷◌, ◌++◌, map,
}
use clew_proxy.Rules.Engine.{AutoRule}
use clew_proxy.FlatTree.Entry.{ProcessEntry, has_flag, manual_hijack_flag}
use clew_proxy.Config.Groups.{ProxyGroup, ConfigV2, in_group, bump}
use clew_proxy.Config.Store.{
  ConfigStore, Reply, ConfigChange, group_created, group_updated, group_deleted, group_migrated,
  ApiError, invalid_argument, not_found, conflict, refused, mutate, require,
}

pub record GroupPatch : Type 0 where
  pub name : Option (List ℕ)
  pub host : Option (List ℕ)
  pub port : Option ℕ
  pub type : Option (List ℕ)
  pub test_url : Option (List ℕ)

abbrev pub value : {A : Type 0} → Option A → A → A
value none d = d
value (some x) d = x

unfoldable pub has_group : ℕ → List ProxyGroup → Bool
has_group id [] = false
has_group id (g ∷ gs) = g.id == id || has_group id gs

unfoldable pub erase_group : ℕ → List ProxyGroup → List ProxyGroup
erase_group id [] = []
erase_group id (g ∷ gs) = let rest = erase_group id gs in if g.id == id then rest else g ∷ rest

abbrev pub apply_patch : GroupPatch → ProxyGroup → ProxyGroup
apply_patch p g = record g {
  name = value p.name g.name;
  host = value p.host g.host;
  port = value p.port g.port;
  type = value p.type g.type;
  test_url = value p.test_url g.test_url;
}

unfoldable pub patch_first : ℕ → GroupPatch → List ProxyGroup → List ProxyGroup
patch_first id p [] = []
patch_first id p (g ∷ gs) =
    let rest = patch_first id p gs in if g.id == id then apply_patch p g ∷ gs else g ∷ rest

-- Whether a rule refers to the group.
unfoldable pub is_referenced : ℕ → List AutoRule → Bool
is_referenced id [] = false
is_referenced id (r ∷ rs) = r.proxy_group_id == id || is_referenced id rs

abbrev pub is_hijacked_by : ℕ → ProcessEntry → Bool
is_hijacked_by id e = e.alive && e.group_id == id && has_flag manual_hijack_flag e

unfoldable pub count_manual : ℕ → List ProcessEntry → ℕ
count_manual id [] = 0
count_manual id (e ∷ es) =
    if is_hijacked_by id e then 1 + count_manual id es else count_manual id es

abbrev pub manual_count : ℕ → Option (List ProcessEntry) → ℕ
manual_count id none = 0
manual_count id (some es) = count_manual id es

abbrev pub move_rule : ℕ → ℕ → AutoRule → AutoRule
move_rule source target r = if r.proxy_group_id == source then in_group target r else r

unfoldable pub move_rules : ℕ → ℕ → List AutoRule → List AutoRule
move_rules source target [] = []
move_rules source target (r ∷ rs) = move_rule source target r ∷ move_rules source target rs

-- The command that `migrate_group` sends to the strand.
unfoldable pub move_entries : ℕ → ℕ → List ProcessEntry → List ProcessEntry
move_entries source target [] = []
move_entries source target (e ∷ es) =
    (if is_hijacked_by source e then record e { group_id = target } else e)
    ∷ move_entries source target es

abbrev pub without_group : ℕ → ConfigV2 → ConfigV2
without_group id c = record c { proxy_groups = erase_group id c.proxy_groups }

module _ (group_name : ℕ → List ℕ) (default_host default_type default_test_url : List ℕ) where
  abbrev pub new_group : GroupPatch → ℕ → ProxyGroup
  new_group body id = record {
    id = id;
    name = value body.name (group_name id);
    host = value body.host default_host;
    port = value body.port 7890;
    type = value body.type default_type;
    test_url = value body.test_url default_test_url;
  }

  unfoldable pub create_group : GroupPatch → Bool → ConfigStore → Reply
  unfolding mutate
  create_group body saved s =
      mutate
        (λ c. record c {
          proxy_groups = c.proxy_groups ++ new_group body c.next_group_id ∷ [];
          next_group_id = bump c.next_group_id;
        })
        group_created saved s

unfoldable pub update_group : ℕ → GroupPatch → Bool → ConfigStore → Reply
unfolding require mutate
update_group id p saved s = require (has_group id s.live.proxy_groups) (
    mutate (λ c. record c { proxy_groups = patch_first id p c.proxy_groups }) group_updated saved s)

unfoldable pub delete_group : ℕ → Option (List ProcessEntry) → Bool → ConfigStore → Reply
unfolding mutate
delete_group id tree saved s =
    if id == 0
    then refused s invalid_argument
    else if not (has_group id s.live.proxy_groups)
    then refused s not_found
    else if is_referenced id s.live.auto_rules || ltb 0 (manual_count id tree)
    then refused s conflict
    else mutate (without_group id) group_deleted saved s

-- The part of `migrate_group` before the command to the strand.
unfoldable pub migrate_config : ℕ → ℕ → Bool → ConfigStore → Reply
unfolding mutate
migrate_config source target saved s =
    if source == 0
    then refused s invalid_argument
    else if not (has_group source s.live.proxy_groups)
    then refused s not_found
    else if not (has_group target s.live.proxy_groups)
    then refused s invalid_argument
    else mutate
        (λ c. record c {
          auto_rules = move_rules source target c.auto_rules;
          proxy_groups = erase_group source c.proxy_groups;
        })
        group_migrated saved s

abbrev pub move_on_success : ℕ → ℕ → Option ApiError → List ProcessEntry → List ProcessEntry
move_on_success source target (some e) es = es
move_on_success source target none es = move_entries source target es

-- The answer and the entries of the process tree, which the command changes.
unfoldable pub migrate_group :
    ℕ → ℕ → Bool → List ProcessEntry → ConfigStore → Reply × List ProcessEntry
unfolding migrate_config move_entries
migrate_group source target saved es s =
    let r = migrate_config source target saved s in (r, move_on_success source target r.error es)
