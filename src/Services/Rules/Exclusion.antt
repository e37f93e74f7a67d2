-- ===== src/Services/Rules/Exclusion.antt =====
-- src/services/rule_service.cpp: excluding a process from a rule and taking it back.
use clew_proxy.Prelude.{
  ℕ, ◌≡◌, refl, ◌∙◌, ap, inl, inr, true, false, none, some, List, [], ◌∷◌, arith, Bool-cases,
}
use clew_proxy.Rules.Engine.{AutoRule, same_text, drop_pid, contains}
use clew_proxy.Config.Groups.{ConfigV2}
use clew_proxy.Config.Store.{ConfigStore, mutate, require}
use clew_proxy.Services.Rules.{find_rule, on_first, exclude, unexclude, exclude_pid, unexclude_pid}

drop_pid-absent : (p : ℕ) (s : List ℕ) → contains p s ≡ false → drop_pid p s ≡ s
unfolding contains drop_pid
drop_pid-absent p [] h = refl
drop_pid-absent p (q ∷ s) h = ground (arith, drop_pid-absent p s)

drop_pid-head : (p : ℕ) (s : List ℕ) → drop_pid p (p ∷ s) ≡ drop_pid p s
unfolding drop_pid
drop_pid-head p s = ground arith

contains-head : (p : ℕ) (s : List ℕ) → contains p (p ∷ s) ≡ true
unfolding contains
contains-head p s = ground arith

find_rule-exclude :
    (id : List ℕ) (pid : ℕ) (rs : List AutoRule) (r : AutoRule)
    → find_rule id rs ≡ some r
    → find_rule id (on_first id (exclude pid) rs) ≡ some (exclude pid r)
unfolding find_rule on_first
find_rule-exclude id pid [] r h = ground arith
find_rule-exclude id pid (x ∷ rs) r h = elim (Bool-cases (same_text x.id id)) [
  | inl e ↦ ground (arith, e)
  | inr n ↦ ground (arith, n, find_rule-exclude id pid rs r)
]

restored :
    (pid : ℕ) (r : AutoRule)
    → contains pid r.excluded_pids ≡ false
    → unexclude pid (exclude pid r) ≡ r
restored pid r h =
    ap (λ s. record r { excluded_pids = s })
      (drop_pid-head pid r.excluded_pids ∙ drop_pid-absent pid r.excluded_pids h)

on_first-restored :
    (id : List ℕ) (pid : ℕ) (rs : List AutoRule) (r : AutoRule)
    → find_rule id rs ≡ some r
    → contains pid r.excluded_pids ≡ false
    → on_first id (unexclude pid) (on_first id (exclude pid) rs) ≡ rs
unfolding find_rule on_first
on_first-restored id pid [] r h c = ground arith
on_first-restored id pid (x ∷ rs) r h c = elim (Bool-cases (same_text x.id id)) [
  | inl e ↦ ground (arith, e, restored pid x)
  | inr n ↦ ground (arith, n, on_first-restored id pid rs r)
]

-- The configuration with other rules.
abbrev with_rules : ConfigV2 → List AutoRule → ConfigV2
with_rules c rs = record c { auto_rules = rs }

-- Excluding a process from a rule that exists and does not exclude it, and taking it back, both
-- answer without an error when the file is written, and the configuration is the first one again.
pub unexclude_pid-exclude_pid :
    (id : List ℕ) (pid : ℕ) (s : ConfigStore) (r : AutoRule)
    → find_rule id s.live.auto_rules ≡ some r
    → contains pid r.excluded_pids ≡ false
    → let done = exclude_pid id pid true s in
      let undone = unexclude_pid id pid true done.store in
      (done.error ≡ none) × (undone.error ≡ none) × (undone.store.live ≡ s.live)
unfolding exclude_pid unexclude_pid require mutate
unexclude_pid-exclude_pid id pid s r h c =
    let f = find_rule-exclude id pid s.live.auto_rules r h in
    let k = contains-head pid r.excluded_pids in
    let e = on_first-restored id pid s.live.auto_rules r h c in
    rw (h, f, k) (refl, refl, ap (with_rules s.live) e)
