-- ===== src/Services/Rules.antt =====
-- src/services/rule_service.cpp: the operations on auto rules.
--
-- A patch has the fields that the JSON object has, with values of the right types. `clock_name`
-- stands for the text of the steady clock's time.
pub mod Exclusion
use clew_proxy.Prelude.{
  ℕ, Bool, true, false, if◌then◌else◌, Option, none, some, List, [], ◌∷◌, ◌++◌,
}
use clew_proxy.Config.Target.{ProxyTarget}
use clew_proxy.Rules.TrafficFilter.{TrafficFilter}
use clew_proxy.Rules.Engine.{AutoRule, same_text, is_empty, add_pid, drop_pid, contains}
use clew_proxy.Config.Groups.{ConfigV2}
use clew_proxy.Config.Store.{
  ConfigStore, Reply, rule_created, rule_updated, rule_deleted, rule_excluded, rule_unexcluded,
  mutate, require,
}
use clew_proxy.Services.Groups.{value}

pub record RulePatch : Type 0 where
  pub name : Option (List ℕ)
  pub enabled : Option Bool
  pub process_name : Option (List ℕ)
  pub cmdline_pattern : Option (List ℕ)
  pub image_path_pattern : Option (List ℕ)
  pub hack_tree : Option Bool
  pub proxy_group_id : Option ℕ
  pub protocol : Option (List ℕ)
  pub proxy : Option ProxyTarget
  pub dst_filter : Option TrafficFilter

abbrev pub patch_rule : RulePatch → AutoRule → AutoRule
patch_rule p r = record r {
  name = value p.name r.name;
  enabled = value p.enabled r.enabled;
  process_name = value p.process_name r.process_name;
  cmdline_pattern = value p.cmdline_pattern r.cmdline_pattern;
  image_path_pattern = value p.image_path_pattern r.image_path_pattern;
  hack_tree = value p.hack_tree r.hack_tree;
  proxy_group_id = value p.proxy_group_id r.proxy_group_id;
  protocol = value p.protocol r.protocol;
  proxy = value p.proxy r.proxy;
  dst_filter = value p.dst_filter r.dst_filter;
}

unfoldable pub find_rule : List ℕ → List AutoRule → Option AutoRule
unfolding same_text
find_rule id [] = none
find_rule id (r ∷ rs) = let rest = find_rule id rs in if same_text r.id id then some r else rest

abbrev pub is_found : Option AutoRule → Bool
is_found none = false
is_found (some r) = true

-- The loops that change the first rule with the id.
unfoldable pub on_first : List ℕ → (AutoRule → AutoRule) → List AutoRule → List AutoRule
unfolding same_text
on_first id f [] = []
on_first id f (r ∷ rs) =
    let rest = on_first id f rs in if same_text r.id id then f r ∷ rs else r ∷ rest

unfoldable pub erase_first : List ℕ → List AutoRule → List AutoRule
unfolding same_text
erase_first id [] = []
erase_first id (r ∷ rs) = let rest = erase_first id rs in if same_text r.id id then rs else r ∷ rest

abbrev pub named : List ℕ → AutoRule → AutoRule
named clock_name r = if is_empty r.id then record r { id = clock_name } else r

unfoldable pub create_rule : List ℕ → AutoRule → Bool → ConfigStore → Reply
unfolding mutate
create_rule clock_name rule saved s =
    mutate (λ c. record c { auto_rules = c.auto_rules ++ named clock_name rule ∷ [] }) rule_created
      saved s

unfoldable pub update_rule : List ℕ → RulePatch → Bool → ConfigStore → Reply
unfolding require mutate find_rule on_first
update_rule id p saved s = require (is_found (find_rule id s.live.auto_rules)) (
    mutate (λ c. record c { auto_rules = on_first id (patch_rule p) c.auto_rules }) rule_updated
      saved s)

unfoldable pub delete_rule : List ℕ → Bool → ConfigStore → Reply
unfolding require mutate find_rule erase_first
delete_rule id saved s =
    require (is_found (find_rule id s.live.auto_rules))
      (mutate (λ c. record c { auto_rules = erase_first id c.auto_rules }) rule_deleted saved s)

abbrev pub exclude : ℕ → AutoRule → AutoRule
exclude pid r = record r { excluded_pids = add_pid pid r.excluded_pids }

abbrev pub unexclude : ℕ → AutoRule → AutoRule
unexclude pid r = record r { excluded_pids = drop_pid pid r.excluded_pids }

unfoldable pub exclude_pid : List ℕ → ℕ → Bool → ConfigStore → Reply
unfolding require mutate find_rule on_first
exclude_pid id pid saved s = require (is_found (find_rule id s.live.auto_rules)) (
    mutate (λ c. record c { auto_rules = on_first id (exclude pid) c.auto_rules }) rule_excluded
      saved s)

abbrev pub had_pid : ℕ → Option AutoRule → Bool
had_pid pid none = false
had_pid pid (some r) = contains pid r.excluded_pids

unfoldable pub unexclude_pid : List ℕ → ℕ → Bool → ConfigStore → Reply
unfolding require mutate find_rule on_first drop_pid
unexclude_pid id pid saved s = require (had_pid pid (find_rule id s.live.auto_rules)) (
    mutate (λ c. record c { auto_rules = on_first id (unexclude pid) c.auto_rules }) rule_unexcluded
      saved s)
