-- ===== src/Rules/Engine/Policy.antt =====
-- src/rules/rule_engine_v3.hpp: the exclude policy of a process, asked of the engine directly and
-- through the policy table that the workers read.
pub mod Agreement
use clew_proxy.Prelude.{
  ℕ, zero, suc, ◌+◌, Bool, true, false, not, ◌&&◌, ◌||◌, if◌then◌else◌, ◌==◌, Option, none, some,
  List, [], ◌∷◌, length, get_elem?, set, replicate,
}
use clew_proxy.FlatTree.Entry.{
  ProcessEntry, FlatTree, find_by_pid, entry_at, invalid_idx, is_proxied, has_flag,
  manual_hijack_flag,
}
use clew_proxy.Rules.Cidr.{CidrRange}
use clew_proxy.Rules.TrafficFilter.{
  TrafficFilter, IpExcludeReason, nothing, global, rule, IpExcludePolicy, any_cidr,
}
use clew_proxy.Rules.PolicyTable.{PolicyTable, global_only_policy}
use clew_proxy.Rules.Engine.{
  AutoRule, RuleEngine, find_policy_id, first_match, same_text, tcp_text, udp_text, matches_tcp,
  matches_udp,
}

-- The guards before the rules: the rule whose excludes the process has, if any.
unfoldable pub governing_rule : FlatTree → ℕ → RuleEngine → Option AutoRule
unfolding find_by_pid is_proxied has_flag first_match
governing_rule tree pid e =
    let idx = find_by_pid pid tree in
    let entry = entry_at idx tree.entries in
    if idx == invalid_idx
    then none
    else if not entry.alive || not (is_proxied entry) || has_flag manual_hijack_flag entry
    then none
    else first_match pid e.auto_rules

unfoldable pub ip_exclude_policy : FlatTree → ℕ → RuleEngine → IpExcludePolicy
unfolding governing_rule
ip_exclude_policy tree pid e = elim (governing_rule tree pid e) [
  | none ↦ record { global_cidrs = e.default_exclude_cidrs; rule_cidrs = [] }
  | some r ↦ record {
    global_cidrs = e.default_exclude_cidrs;
    rule_cidrs = r.dst_filter.exclude_cidrs;
  }
]

-- The id that the engine has for a rule, and the row of every process without one.
unfoldable pub policy_row : Option AutoRule → RuleEngine → ℕ
unfolding find_policy_id
policy_row none e = global_only_policy
policy_row (some r) e = elim (find_policy_id r.id e.policy_ids) [
  | none ↦ global_only_policy
  | some n ↦ n
]

unfoldable pub policy_id_for : FlatTree → ℕ → RuleEngine → ℕ
unfolding governing_rule policy_row
policy_id_for tree pid e = policy_row (governing_rule tree pid e) e

unfoldable pub fill_rows : List AutoRule → RuleEngine → List IpExcludePolicy → List IpExcludePolicy
unfolding find_policy_id
fill_rows [] e rows = rows
fill_rows (r ∷ rs) e rows =
    let row : IpExcludePolicy = record {
      global_cidrs = e.default_exclude_cidrs;
      rule_cidrs = r.dst_filter.exclude_cidrs;
    } in
    fill_rows rs e
      (elim (find_policy_id r.id e.policy_ids) [ none ↦ rows | some n ↦ set rows n row ])

unfoldable pub build_policy_table : RuleEngine → PolicyTable
unfolding fill_rows
build_policy_table e = record {
  rows = fill_rows e.auto_rules e (
      replicate e.next_policy_id
        (record { global_cidrs = e.default_exclude_cidrs; rule_cidrs = [] }));
}

unfoldable pub rule_reason : Option AutoRule → ℕ → IpExcludeReason
rule_reason none dest_ip = nothing
rule_reason (some r) dest_ip = if any_cidr r.dst_filter.exclude_cidrs dest_ip then rule else nothing

unfoldable pub ip_exclude_reason : FlatTree → ℕ → ℕ → RuleEngine → IpExcludeReason
unfolding governing_rule rule_reason
ip_exclude_reason tree pid dest_ip e =
    if any_cidr e.default_exclude_cidrs dest_ip
    then global
    else rule_reason (governing_rule tree pid e) dest_ip

unfoldable pub protocol_of_rule : Option AutoRule → List ℕ → Bool
unfolding matches_tcp matches_udp same_text
protocol_of_rule none proto = false
protocol_of_rule (some r) proto =
    if same_text proto tcp_text
    then matches_tcp r
    else if same_text proto udp_text
    then matches_udp r
    else true

unfoldable pub should_proxy_protocol : FlatTree → ℕ → List ℕ → RuleEngine → Bool
unfolding find_by_pid is_proxied has_flag first_match protocol_of_rule
should_proxy_protocol tree pid proto e =
    let idx = find_by_pid pid tree in
    let entry = entry_at idx tree.entries in
    if idx == invalid_idx
    then false
    else if not entry.alive || not (is_proxied entry)
    then false
    else if has_flag manual_hijack_flag entry
    then true
    else protocol_of_rule (first_match pid e.auto_rules) proto
