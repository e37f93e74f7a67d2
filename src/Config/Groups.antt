-- ===== src/Config/Groups.antt =====
-- src/config/types.hpp, src/config/config_manager.hpp: the proxy groups of a configuration and the
-- migration that makes them of the addresses in older files.
--
-- `group_name` stands for `std::format("group_{}", id)`; the name "default" and the default test
-- address are parameters. The parts of the configuration that no
-- definition here reads are left out.
pub mod Migration
use clew_proxy.Prelude.{
  ℕ, ◌+◌, ◌%◌, ◌^◌, Bool, true, false, ◌&&◌, ◌==◌, if◌then◌else◌, Option, none, some, List, [], ◌∷◌,
  ◌++◌,
}
use clew_proxy.Config.Target.{ProxyTarget}
use clew_proxy.Config.Redirect.{RedirectConfig}
use clew_proxy.Rules.Engine.{AutoRule, same_text, is_empty}

pub record ProxyGroup : Type 0 where
  pub id : ℕ
  pub name : List ℕ
  pub host : List ℕ
  pub port : ℕ
  pub type : List ℕ
  pub test_url : List ℕ

pub record ConfigV2 : Type 0 where
  pub version : ℕ
  pub default_proxy : ProxyTarget
  pub proxy_groups : List ProxyGroup
  pub next_group_id : ℕ
  pub default_exclude_cidrs : List (List ℕ)
  pub auto_rules : List AutoRule
  pub redirect : RedirectConfig

-- The address of a group is the one given.
unfoldable pub has_target : ProxyTarget → ProxyGroup → Bool
unfolding same_text
has_target p g = same_text g.host p.host && g.port == p.port && same_text g.type p.type

-- The first group with the address.
unfoldable pub find_target : ProxyTarget → List ProxyGroup → Option ℕ
unfolding has_target
find_target p [] = none
find_target p (g ∷ gs) = let rest = find_target p gs in if has_target p g then some g.id else rest

unfoldable pub get_group_by_id : ℕ → List ProxyGroup → Option ProxyGroup
get_group_by_id id [] = none
get_group_by_id id (g ∷ gs) =
    let rest = get_group_by_id id gs in if g.id == id then some g else rest

abbrev pub in_group : ℕ → AutoRule → AutoRule
in_group id r = record r { proxy_group_id = id }

abbrev pub bump : ℕ → ℕ
bump id = (id + 1) % 2 ^ 32

abbrev pub if_none : List ProxyGroup → ConfigV2 → ConfigV2 → ConfigV2
if_none [] new old = new
if_none (g ∷ gs) new old = old

module _ (group_name : ℕ → List ℕ) (default_name default_test_url : List ℕ) where
  abbrev pub group_for : ProxyTarget → ℕ → List ℕ → ProxyGroup
  group_for p id name = record {
    id = id;
    name = name;
    host = p.host;
    port = p.port;
    type = p.type;
    test_url = default_test_url;
  }

  -- The body of the loop over the rules, on the groups and the next id.
  unfoldable pub migrate_rule : AutoRule → List ProxyGroup × ℕ → AutoRule × (List ProxyGroup × ℕ)
  unfolding find_target
  migrate_rule r (groups, next) =
      if is_empty r.proxy.host
      then (in_group 0 r, (groups, next))
      else elim (find_target r.proxy groups) [
        | some id ↦ (in_group id r, (groups, next))
        | none ↦
            (in_group next r, (groups ++ group_for r.proxy next (group_name next) ∷ [], bump next))
      ]

  unfoldable pub migrate_rules :
      List AutoRule → List ProxyGroup × ℕ → List AutoRule × (List ProxyGroup × ℕ)
  unfolding migrate_rule
  migrate_rules [] acc = ([], acc)
  migrate_rules (r ∷ rs) acc =
      let (r', acc') = migrate_rule r acc in
      let (rs', last) = migrate_rules rs acc' in (r' ∷ rs', last)

  -- The configuration that `ensure_proxy_groups` saves; a configuration with groups is left alone.
  unfoldable pub ensure_proxy_groups : ConfigV2 → ConfigV2
  unfolding migrate_rules
  ensure_proxy_groups c =
      let first = group_for c.default_proxy 0 default_name in
      let (rules, (groups, next)) = migrate_rules c.auto_rules (first ∷ [], c.next_group_id) in
      if_none c.proxy_groups
        (record c { auto_rules = rules; proxy_groups = groups; next_group_id = next }) c
