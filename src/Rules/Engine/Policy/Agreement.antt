-- ===== src/Rules/Engine/Policy/Agreement.antt =====
-- src/rules/rule_engine_v3.hpp: policy ids are never reused, and the published table answers as the
-- engine does.
use clew_proxy.Prelude.{
  ℕ, zero, suc, ◌<◌, ◌≡◌, ◌≢◌, refl, ap, sym, ◌∙◌, inl, inr, true, none, some, List, [], ◌∷◌,
  length, get_or, set, replicate, length-set, length-replicate, arith, Bool-cases, Option-cases,
}
use clew_proxy.FlatTree.Entry.{FlatTree}
use clew_proxy.Rules.TrafficFilter.{IpExcludePolicy, any_cidr, evaluate_policy}
use clew_proxy.Rules.PolicyTable.{evaluate, no_policy}
use clew_proxy.Rules.Engine.{AutoRule, RuleEngine, same_text, find_policy_id, first_match, contains}
use clew_proxy.Rules.Engine.Policy.{
  governing_rule, policy_row, policy_id_for, fill_rows, build_policy_table, rule_reason,
  ip_exclude_reason,
}

pub same_text_sound : (s t : List ℕ) → same_text s t ≡ true → s ≡ t
unfolding same_text
same_text_sound [] [] h = refl
same_text_sound [] (d ∷ t) h = ground arith
same_text_sound (c ∷ s) [] h = ground arith
same_text_sound (c ∷ s) (d ∷ t) h = ground (arith, same_text_sound s t)

pub same_text_refl : (s : List ℕ) → same_text s s ≡ true
unfolding same_text
same_text_refl [] = refl
same_text_refl (c ∷ s) = ground (arith, same_text_refl s)

-- The ids in use are below the next one, none is the reserved row, and no two rules share one.
pub record HasIds (e : RuleEngine) : Type 0 where
  pub bounded :
      (id : List ℕ) (n : ℕ)
      → find_policy_id id e.policy_ids ≡ some n
      → (0 < n) × (n < e.next_policy_id)
  pub injective :
      (s t : List ℕ) (n : ℕ)
      → find_policy_id s e.policy_ids ≡ some n
      → find_policy_id t e.policy_ids ≡ some n
      → s ≡ t
  pub positive : 0 < e.next_policy_id

-- No rule of the list has this id; no two have the same; each has a policy id.
unfoldable pub Unlike : List ℕ → List AutoRule → Type 0
Unlike id [] = Unit
Unlike id (r ∷ rs) = (id ≢ r.id) × Unlike id rs

unfoldable pub DistinctIds : List AutoRule → Type 0
unfolding Unlike
DistinctIds [] = Unit
DistinctIds (r ∷ rs) = Unlike r.id rs × DistinctIds rs

unfoldable pub Assigned : List (List ℕ × ℕ) → List AutoRule → Type 0
Assigned m [] = Unit
Assigned m (r ∷ rs) = ((n : ℕ) × (find_policy_id r.id m ≡ some n)) × Assigned m rs

pub record IsReady (e : RuleEngine) : Type 0 where
  pub ids : HasIds e
  pub distinct : DistinctIds e.auto_rules
  pub assigned : Assigned e.policy_ids e.auto_rules

-- No rule of the list owns row `n`.
unfoldable Misses : RuleEngine → ℕ → List AutoRule → Type 0
Misses e n [] = Unit
Misses e n (r ∷ rs) = (find_policy_id r.id e.policy_ids ≢ some n) × Misses e n rs

Unlike-Misses :
    (e : RuleEngine) (id : List ℕ) (n : ℕ) (rs : List AutoRule)
    → HasIds e
    → find_policy_id id e.policy_ids ≡ some n
    → Unlike id rs
    → Misses e n rs
unfolding Unlike Misses
Unlike-Misses e id n [] v f u = tt
Unlike-Misses e id n (r ∷ rs) v f u =
    (λ g. u.0 (v.injective id r.id n f g), Unlike-Misses e id n rs v f u.1)

Misses-reserved : (e : RuleEngine) (rs : List AutoRule) → HasIds e → Misses e 0 rs
unfolding Misses
Misses-reserved e [] v = tt
Misses-reserved e (r ∷ rs) v = (λ g. omega (arith, (v.bounded r.id 0 g).0), Misses-reserved e rs v)

get_or-set_self :
    (xs : List IpExcludePolicy) (i : ℕ) (v d : IpExcludePolicy)
    → i < length xs
    → get_or (set xs i v) i d ≡ v
get_or-set_self [] i v d h = ground arith
get_or-set_self (x ∷ xs) zero v d h = refl
get_or-set_self (x ∷ xs) (suc i) v d h = get_or-set_self xs i v d (omega arith)

get_or-set_ne :
    (xs : List IpExcludePolicy) (i j : ℕ) (v d : IpExcludePolicy)
    → i ≢ j
    → get_or (set xs i v) j d ≡ get_or xs j d
get_or-set_ne [] i j v d h = refl
get_or-set_ne (x ∷ xs) zero zero v d h = absurd (h refl)
get_or-set_ne (x ∷ xs) zero (suc j) v d h = refl
get_or-set_ne (x ∷ xs) (suc i) zero v d h = refl
get_or-set_ne (x ∷ xs) (suc i) (suc j) v d h = get_or-set_ne xs i j v d (λ e. h (ap suc e))

get_or-replicate : (n i : ℕ) (v d : IpExcludePolicy) → i < n → get_or (replicate n v) i d ≡ v
get_or-replicate zero i v d h = ground arith
get_or-replicate (suc n) zero v d h = refl
get_or-replicate (suc n) (suc i) v d h = get_or-replicate n i v d (omega arith)

-- The row of a rule.
abbrev row_of : RuleEngine → AutoRule → IpExcludePolicy
row_of e r = record {
  global_cidrs = e.default_exclude_cidrs;
  rule_cidrs = r.dst_filter.exclude_cidrs;
}

length-fill_rows :
    (rs : List AutoRule) (e : RuleEngine) (rows : List IpExcludePolicy)
    → length (fill_rows rs e rows) ≡ length rows
unfolding fill_rows
length-fill_rows [] e rows = refl
length-fill_rows (r ∷ rs) e rows = elim (Option-cases (find_policy_id r.id e.policy_ids)) [
  | inl h ↦ rw (h, fill_rows) (length-fill_rows rs e rows)
  | inr (n, h) ↦
      rw (h, fill_rows)
        (length-fill_rows rs e (set rows n (row_of e r)) ∙ length-set rows n (row_of e r))
]

fill_rows-missed :
    (rs : List AutoRule) (e : RuleEngine) (rows : List IpExcludePolicy) (n : ℕ)
    → Misses e n rs
    → get_or (fill_rows rs e rows) n no_policy ≡ get_or rows n no_policy
unfolding fill_rows Misses
fill_rows-missed [] e rows n m = refl
fill_rows-missed (r ∷ rs) e rows n m = elim (Option-cases (find_policy_id r.id e.policy_ids)) [
  | inl h ↦ rw (h, fill_rows) (fill_rows-missed rs e rows n m.1)
  | inr (k, h) ↦
      rw (h, fill_rows)
        (fill_rows-missed rs e (set rows k (row_of e r)) n m.1
          ∙ get_or-set_ne rows k n (row_of e r) no_policy (λ s. m.0 (h ∙ ap some s)))
]

-- The row of the first rule that has matched a process is that rule's.
fill_rows-first_match :
    (pid : ℕ) (rs : List AutoRule) (e : RuleEngine) (rows : List IpExcludePolicy) (r : AutoRule)
    (n : ℕ)
    → HasIds e
    → DistinctIds rs
    → first_match pid rs ≡ some r
    → find_policy_id r.id e.policy_ids ≡ some n
    → n < length rows
    → get_or (fill_rows rs e rows) n no_policy ≡ row_of e r
unfolding fill_rows DistinctIds first_match
fill_rows-first_match pid [] e rows r n v d f g b = ground arith
fill_rows-first_match pid (x ∷ rs) e rows r n v d f g b =
    elim (Bool-cases (contains pid x.matched_pids)) [
      | inl here ↦
          let same : x ≡ r = ground arith in
          let own : find_policy_id x.id e.policy_ids ≡ some n =
            ap (λ (y : AutoRule). find_policy_id y.id e.policy_ids) same ∙ g in
          rw (own, fill_rows)
            (fill_rows-missed rs e (set rows n (row_of e x)) n (Unlike-Misses e x.id n rs v own d.0)
              ∙ (get_or-set_self rows n (row_of e x) no_policy b ∙ ap (row_of e) same))
      | inr later ↦
          let found : first_match pid rs ≡ some r = ground arith in
          elim (Option-cases (find_policy_id x.id e.policy_ids)) [
            | inl h ↦ rw (h, fill_rows) (fill_rows-first_match pid rs e rows r n v d.1 found g b)
            | inr (k, h) ↦
                rw (h, fill_rows)
                  (fill_rows-first_match pid rs e (set rows k (row_of e x)) r n v d.1 found g
                    (omega (arith, length-set rows k (row_of e x))))
          ]
    ]

first_match-Assigned :
    (pid : ℕ) (rs : List AutoRule) (m : List (List ℕ × ℕ)) (r : AutoRule)
    → Assigned m rs
    → first_match pid rs ≡ some r
    → (n : ℕ) × (find_policy_id r.id m ≡ some n)
unfolding Assigned first_match
first_match-Assigned pid [] m r a f = ground arith
first_match-Assigned pid (x ∷ rs) m r a f = elim (Bool-cases (contains pid x.matched_pids)) [
  | inl here ↦
      let same : x ≡ r = ground arith in
      let (n, g) = a.0 in (n, ap (λ (y : AutoRule). find_policy_id y.id m) (sym same) ∙ g)
  | inr later ↦ first_match-Assigned pid rs m r a.1 (ground arith)
]

abbrev blank_row : RuleEngine → IpExcludePolicy
blank_row e = record { global_cidrs = e.default_exclude_cidrs; rule_cidrs = [] }

-- What a row of the table answers is what the engine answers for the rule of the row.
evaluate-row :
    (e : RuleEngine) (n ip : ℕ) (p : IpExcludePolicy)
    → 0 < e.next_policy_id
    → n < e.next_policy_id
    → get_or (build_policy_table e).rows n no_policy ≡ p
    → evaluate (build_policy_table e) n ip ≡ evaluate_policy p ip
unfolding evaluate build_policy_table
evaluate-row e n ip p z b h = ground (
  arith,
  length-fill_rows e.auto_rules e (replicate e.next_policy_id (blank_row e)),
  length-replicate e.next_policy_id (blank_row e),
)

evaluate_policy-reason :
    (e : RuleEngine) (tree : FlatTree) (pid ip : ℕ)
    → ((r : AutoRule)
        → governing_rule tree pid e ≡ some r
        → ip_exclude_reason tree pid ip e ≡ evaluate_policy (row_of e r) ip)
      × (governing_rule tree pid e ≡ none
          → ip_exclude_reason tree pid ip e ≡ evaluate_policy (blank_row e) ip)
unfolding ip_exclude_reason evaluate_policy rule_reason any_cidr
evaluate_policy-reason e tree pid ip =
    (λ r h. rw (h, ip_exclude_reason) refl, λ h. rw (h, ip_exclude_reason) refl)

governing_rule-first_match :
    (tree : FlatTree) (pid : ℕ) (e : RuleEngine) (r : AutoRule)
    → governing_rule tree pid e ≡ some r
    → first_match pid e.auto_rules ≡ some r
unfolding governing_rule
governing_rule-first_match tree pid e r h = ground arith

policy_id_for-governing_rule :
    (tree : FlatTree) (pid : ℕ) (e : RuleEngine) (r : AutoRule) (n : ℕ)
    → governing_rule tree pid e ≡ some r
    → find_policy_id r.id e.policy_ids ≡ some n
    → policy_id_for tree pid e ≡ n
unfolding policy_id_for policy_row
policy_id_for-governing_rule tree pid e r n h g = rw h (rw (g, policy_row) refl)

policy_id_for-ungoverned :
    (tree : FlatTree) (pid : ℕ) (e : RuleEngine)
    → governing_rule tree pid e ≡ none
    → policy_id_for tree pid e ≡ 0
unfolding policy_id_for policy_row
policy_id_for-ungoverned tree pid e h = rw h refl

-- Where the rules have distinct ids that all have policy ids, in range and different: the published
-- table, asked for the row of a process, gives for every address the reason that the engine gives
-- for that process.
pub evaluate-policy_id_for :
    (tree : FlatTree) (pid ip : ℕ) (e : RuleEngine)
    → IsReady e
    → evaluate (build_policy_table e) (policy_id_for tree pid e) ip
      ≡ ip_exclude_reason tree pid ip e
unfolding build_policy_table
evaluate-policy_id_for tree pid ip e v = elim (Option-cases (governing_rule tree pid e)) [
  | inl none_governs ↦ rw (policy_id_for-ungoverned tree pid e none_governs) (
      evaluate-row e 0 ip (blank_row e) v.ids.positive v.ids.positive (
        fill_rows-missed e.auto_rules e (replicate e.next_policy_id (blank_row e)) 0
          (Misses-reserved e e.auto_rules v.ids)
        ∙ get_or-replicate e.next_policy_id 0 (blank_row e) no_policy v.ids.positive)
      ∙ sym ((evaluate_policy-reason e tree pid ip).1 none_governs))
  | inr (r, governs) ↦
      let first = governing_rule-first_match tree pid e r governs in
      let (n, own) = first_match-Assigned pid e.auto_rules e.policy_ids r v.assigned first in
      let below = (v.ids.bounded r.id n own).1 in
      rw (policy_id_for-governing_rule tree pid e r n governs own) (
        evaluate-row e n ip (row_of e r) v.ids.positive below (
          fill_rows-first_match pid e.auto_rules e (replicate e.next_policy_id (blank_row e)) r n
            v.ids v.distinct first own (rw (length-replicate e.next_policy_id (blank_row e)) below))
        ∙ sym ((evaluate_policy-reason e tree pid ip).0 r governs))
]
