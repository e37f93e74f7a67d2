-- ===== src/Rules/Engine.antt =====
-- src/rules/rule_engine_v3.hpp: the rules, their policy ids and what the engine answers about a
-- process. A set of PIDs is a list of them.
pub mod Policy
pub mod Match
pub mod Hijack
pub mod Ids
pub mod Frame
use clew_proxy.Prelude.{
  ℕ, zero, suc, ◌+◌, Bool, true, false, not, ◌&&◌, ◌||◌, if◌then◌else◌, ◌==◌, Option, none, some,
  List, [], ◌∷◌, ◌++◌, length, map,
}
use clew_proxy.Config.Target.{ProxyTarget}
use clew_proxy.Rules.Cidr.{CidrRange}
use clew_proxy.Rules.TrafficFilter.{TrafficFilter}

-- Equality of strings.
unfoldable pub same_text : List ℕ → List ℕ → Bool
same_text [] [] = true
same_text [] (d ∷ t) = false
same_text (c ∷ s) [] = false
same_text (c ∷ s) (d ∷ t) = let rest = same_text s t in if c == d then rest else false

abbrev pub is_empty : List ℕ → Bool
is_empty [] = true
is_empty (c ∷ s) = false

unfoldable pub contains : ℕ → List ℕ → Bool
contains p [] = false
contains p (q ∷ s) = let rest = contains p s in if q == p then true else rest

abbrev pub add_pid : ℕ → List ℕ → List ℕ
add_pid p s = p ∷ s

unfoldable pub drop_pid : ℕ → List ℕ → List ℕ
drop_pid p [] = []
drop_pid p (q ∷ s) = let rest = drop_pid p s in if q == p then rest else q ∷ rest

-- "tcp", "udp" and "both".
abbrev pub tcp_text : List ℕ
tcp_text = 116 ∷ 99 ∷ 112 ∷ []

abbrev pub udp_text : List ℕ
udp_text = 117 ∷ 100 ∷ 112 ∷ []

abbrev pub both_text : List ℕ
both_text = 98 ∷ 111 ∷ 116 ∷ 104 ∷ []

pub record AutoRule : Type 0 where
  pub id : List ℕ
  pub name : List ℕ
  pub enabled : Bool
  pub process_name : List ℕ
  pub cmdline_pattern : List ℕ
  pub image_path_pattern : List ℕ
  pub hack_tree : Bool
  pub dst_filter : TrafficFilter
  pub proxy_group_id : ℕ
  pub protocol : List ℕ
  pub proxy : ProxyTarget
  pub excluded_pids : List ℕ
  pub matched_pids : List ℕ

unfoldable pub matches_tcp : AutoRule → Bool
unfolding same_text
matches_tcp r = same_text r.protocol tcp_text || same_text r.protocol both_text

unfoldable pub matches_udp : AutoRule → Bool
unfolding same_text
matches_udp r = same_text r.protocol udp_text || same_text r.protocol both_text

pub record RuleEngine : Type 0 where
  pub auto_rules : List AutoRule
  pub default_exclude_cidrs : List CidrRange
  pub any_rule_uses_cmdline : Bool
  pub policy_ids : List (List ℕ × ℕ)
  pub next_policy_id : ℕ

abbrev pub fresh_engine : RuleEngine
fresh_engine = record {
  auto_rules = [];
  default_exclude_cidrs = [];
  any_rule_uses_cmdline = false;
  policy_ids = [];
  next_policy_id = 1;
}

unfoldable pub find_policy_id : List ℕ → List (List ℕ × ℕ) → Option ℕ
unfolding same_text
find_policy_id id [] = none
find_policy_id id ((k, n) ∷ m) =
    let rest = find_policy_id id m in if same_text k id then some n else rest

unfoldable pub assign_policy_id : List ℕ → RuleEngine → RuleEngine
unfolding find_policy_id
assign_policy_id id e = if is_empty id then e else elim (find_policy_id id e.policy_ids) [
  | none ↦ record e {
    policy_ids = (id, e.next_policy_id) ∷ e.policy_ids;
    next_policy_id = e.next_policy_id + 1;
  }
  | some n ↦ e
]

unfoldable pub uses_cmdline : List AutoRule → Bool
uses_cmdline [] = false
uses_cmdline (r ∷ rs) = if is_empty r.cmdline_pattern then uses_cmdline rs else true

unfoldable pub refresh_cmdline_flag : RuleEngine → RuleEngine
unfolding uses_cmdline
refresh_cmdline_flag e = record e { any_rule_uses_cmdline = uses_cmdline e.auto_rules }

abbrev pub cleared : AutoRule → AutoRule
cleared r = record r { matched_pids = []; hack_tree = true }

-- The loop of `set_auto_rules`: the rules that it leaves, and the engine with their ids.
unfoldable pub clear_rules : List AutoRule → List AutoRule
clear_rules [] = []
clear_rules (r ∷ rs) = cleared r ∷ clear_rules rs

unfoldable pub assign_all : List AutoRule → RuleEngine → RuleEngine
unfolding assign_policy_id
assign_all [] e = e
assign_all (r ∷ rs) e = assign_all rs (assign_policy_id r.id e)

unfoldable pub set_auto_rules : List AutoRule → RuleEngine → RuleEngine
unfolding refresh_cmdline_flag assign_all clear_rules
set_auto_rules rules e =
    refresh_cmdline_flag (record (assign_all rules e) { auto_rules = clear_rules rules })

-- `parse` is `CidrRange::parse` with its library functions supplied, on strings that it reads.
unfoldable pub set_default_exclude_cidrs :
    (List ℕ → CidrRange) → List (List ℕ) → RuleEngine → RuleEngine
set_default_exclude_cidrs parse cidrs e = record e { default_exclude_cidrs = map parse cidrs }

-- The first rule that has matched the process.
unfoldable pub first_match : ℕ → List AutoRule → Option AutoRule
unfolding contains
first_match pid [] = none
first_match pid (r ∷ rs) =
    let rest = first_match pid rs in if contains pid r.matched_pids then some r else rest

unfoldable pub exit_rules : ℕ → List AutoRule → List AutoRule
unfolding drop_pid
exit_rules pid [] = []
exit_rules pid (r ∷ rs) =
    record r {
      matched_pids = drop_pid pid r.matched_pids;
      excluded_pids = drop_pid pid r.excluded_pids;
    }
    ∷ exit_rules pid rs

unfoldable pub on_process_exit : ℕ → RuleEngine → RuleEngine
unfolding exit_rules
on_process_exit pid e = record e { auto_rules = exit_rules pid e.auto_rules }
