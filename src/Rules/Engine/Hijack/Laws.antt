-- ===== src/Rules/Engine/Hijack/Laws.antt =====
-- src/rules/rule_engine_v3.hpp: exclusions are honoured.
use clew_proxy.Prelude.{
  ℕ, ◌≡◌, refl, ap, ◌∙◌, sym, true, false, if◌then◌else◌, Option, none, some, List, [], ◌∷◌, arith,
  inl, inr, Bool-cases, Option-cases,
}
use clew_proxy.FlatTree.Entry.{FlatTree, entry_at}
use clew_proxy.FlatTree.Links.{Entries}
use clew_proxy.Rules.Engine.{AutoRule, RuleEngine, same_text, contains, drop_pid, add_pid}
use clew_proxy.Rules.Engine.Match.{try_match_one}
use clew_proxy.Rules.Engine.Hijack.{change_rule, excluding, exclude_pid}

contains-drop_pid : (p : ℕ) (s : List ℕ) → contains p (drop_pid p s) ≡ false
unfolding contains drop_pid
contains-drop_pid p [] = refl
contains-drop_pid p (q ∷ s) = ground (arith, contains-drop_pid p s)

-- The first rule that has an id.
unfoldable pub rule_with_id : List ℕ → List AutoRule → Option AutoRule
unfolding same_text
rule_with_id id [] = none
rule_with_id id (r ∷ rs) =
    let rest = rule_with_id id rs in if same_text r.id id then some r else rest

rule_with_id-change_rule :
    (id : List ℕ) (pid : ℕ) (rs rs' : List AutoRule)
    → change_rule id (excluding pid) rs ≡ some rs'
    → (r : AutoRule) × ((rule_with_id id rs ≡ some r)
        × (rule_with_id id rs' ≡ some (excluding pid r)))
unfolding change_rule rule_with_id
rule_with_id-change_rule id pid [] rs' h = ground arith
rule_with_id-change_rule id pid (x ∷ xs) rs' h = elim (Bool-cases (same_text x.id id)) [
  | inl same ↦
      let out : excluding pid x ∷ xs ≡ rs' = ground arith in
      let seen : rule_with_id id (excluding pid x ∷ xs) ≡ some (excluding pid x) =
        rw (same, rule_with_id) refl in
      (x, (rw (same, rule_with_id) refl, ap (rule_with_id id) (sym out) ∙ seen))
  | inr other ↦ elim (Option-cases (change_rule id (excluding pid) xs)) [
    | inl stuck ↦ ground arith
    | inr (ys, e) ↦
        let out : x ∷ ys ≡ rs' = ground (arith, e) in
        let (r, (before, after)) = rule_with_id-change_rule id pid xs ys e in
        let seen : rule_with_id id (x ∷ ys) ≡ some (excluding pid r) =
          rw (other, rule_with_id) after in
        (r, (rw (other, rule_with_id) before, ap (rule_with_id id) (sym out) ∙ seen))
  ]
]

contains-add_pid : (p q : ℕ) (s : List ℕ) → q ≡ p → contains q (add_pid p s) ≡ true
unfolding contains
contains-add_pid p q s h = ground (arith, h)

module _ (cmdline image_path : ℕ → List ℕ) where
  excluded_is_unmatched :
      (i : ℕ) (r : AutoRule) (es : Entries)
      → contains (entry_at i es).pid r.excluded_pids ≡ true
      → try_match_one cmdline image_path i r es ≡ (record { name = false; tree = false }, es)
  unfolding try_match_one
  excluded_is_unmatched i r es h = ground arith

  -- Where an exclusion succeeds: the first rule with the id no longer counts the process as matched,
  -- and no later try of that rule matches an entry of the process or changes anything.
  exclude_pid_lem :
      (id : List ℕ) (pid : ℕ) (t : FlatTree) (e : RuleEngine)
      → (exclude_pid id pid (t, e)).1 ≡ true
      → (r : AutoRule) × ((rule_with_id id (exclude_pid id pid (t, e)).0.1.auto_rules ≡ some r)
          × ((contains pid r.matched_pids ≡ false)
              × ((i : ℕ) (es : Entries)
                  → (entry_at i es).pid ≡ pid
                  → try_match_one cmdline image_path i r es
                    ≡ (record { name = false; tree = false }, es))))
  unfolding exclude_pid
  exclude_pid_lem id pid t e h = elim (Option-cases (change_rule id (excluding pid) e.auto_rules)) [
    | inl missing ↦ ground arith
    | inr (rs, found) ↦
        let (r, (before, after)) = rule_with_id-change_rule id pid e.auto_rules rs found in
        (
          excluding pid r,
          rw (found, exclude_pid)
              (
                after,
                (
                  contains-drop_pid pid r.matched_pids,
                  λ i es same.
                      excluded_is_unmatched i (excluding pid r) es
                        (contains-add_pid pid (entry_at i es).pid r.excluded_pids same),
                ),
              ),
        )
  ]
