-- ===== src/Examples/Rules.antt =====
-- The rules on concrete engines, ranges and filters.
use clew_proxy.Prelude.{◌≡◌, ◌↔◌, true, none, some, some, [], ◌∷◌}
use clew_proxy.Rules.Wildcard.{wildcard_match, match_loop, loop_fuel}
use clew_proxy.Rules.Wildcard.Glob.{glob}
use clew_proxy.Rules.Wildcard.Fuel.{wildcard_match-glob}
use clew_proxy.Rules.TrafficFilter.{should_proxy, MayProxy, should_proxy_iff}
use clew_proxy.Rules.PolicyTable.{evaluate}
use clew_proxy.Rules.Engine.{set_auto_rules, fresh_engine}
use clew_proxy.Rules.Engine.Policy.{policy_id_for, build_policy_table, ip_exclude_reason}
use clew_proxy.Rules.Engine.Policy.Agreement.{IsReady, evaluate-policy_id_for}
use clew_proxy.Rules.Engine.Ids.{Keeps, set_auto_rules-IsReady, fresh_engine-HasIds}
use clew_proxy.Rules.Engine.Match.{apply_auto_rules}
use clew_proxy.Rules.Engine.Match.Manual.{KeepsManual}
use clew_proxy.Rules.Engine.Match.Scan.{apply_auto_rules-KeepsManual}
use clew_proxy.Examples.Data.{
  small_tree, star_rule, engine, filter, star-Named, star-DistinctIds, ready_engine,
}

set_auto_rules-IsReady_example :
    IsReady (set_auto_rules (star_rule ∷ []) fresh_engine)
    × Keeps fresh_engine (set_auto_rules (star_rule ∷ []) fresh_engine)
set_auto_rules-IsReady_example =
    set_auto_rules-IsReady (star_rule ∷ []) fresh_engine star-Named star-DistinctIds
      fresh_engine-HasIds

evaluate-policy_id_for_example :
    evaluate (build_policy_table ready_engine) (policy_id_for small_tree 11 ready_engine) 0x01020304
    ≡ ip_exclude_reason small_tree 11 0x01020304 ready_engine
evaluate-policy_id_for_example =
    evaluate-policy_id_for small_tree 11 0x01020304 ready_engine
      (set_auto_rules-IsReady (star_rule ∷ []) fresh_engine star-Named star-DistinctIds
        fresh_engine-HasIds).0

apply_auto_rules-KeepsManual_example :
    KeepsManual small_tree.entries
      (apply_auto_rules (λ p. []) (λ p. []) (small_tree, engine)).0.entries
apply_auto_rules-KeepsManual_example =
    apply_auto_rules-KeepsManual (λ p. []) (λ p. []) small_tree engine

should_proxy_iff_example :
    (should_proxy 0x01020304 443 filter ≡ true) ↔ MayProxy 0x01020304 443 filter
should_proxy_iff_example = should_proxy_iff 0x01020304 443 filter

wildcard_match-glob_example :
    (match_loop (loop_fuel (97 ∷ 42 ∷ []) (65 ∷ 98 ∷ [])) true (97 ∷ 42 ∷ []) (65 ∷ 98 ∷ []) none
      ≡ some (wildcard_match true (97 ∷ 42 ∷ []) (65 ∷ 98 ∷ [])))
    × (wildcard_match true (97 ∷ 42 ∷ []) (65 ∷ 98 ∷ []) ≡ glob true (97 ∷ 42 ∷ []) (65 ∷ 98 ∷ []))
wildcard_match-glob_example = wildcard_match-glob true (97 ∷ 42 ∷ []) (65 ∷ 98 ∷ [])
