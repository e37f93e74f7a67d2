-- ===== src/Rules/Engine/Ids.antt =====
-- src/rules/rule_engine_v3.hpp: assign_policy_id and set_auto_rules hand out ids and never reuse one.
use clew_proxy.Prelude.{
  ℕ, ◌+◌, ◌≡◌, refl, ap, sym, ◌∙◌, inl, inr, false, none, some, List, [], ◌∷◌, arith, Bool-cases,
  Option-cases,
}
use clew_proxy.Rules.Engine.{
  AutoRule, RuleEngine, is_empty, same_text, find_policy_id, assign_policy_id, assign_all,
  clear_rules, set_auto_rules, refresh_cmdline_flag, fresh_engine,
}
use clew_proxy.Rules.Engine.Policy.Agreement.{
  HasIds, Unlike, DistinctIds, Assigned, IsReady, same_text_sound, same_text_refl,
}

-- Every id that was handed out stays with its rule.
unfoldable pub Keeps : RuleEngine → RuleEngine → Type 0
Keeps e e' =
    (id : List ℕ) (n : ℕ)
    → find_policy_id id e.policy_ids ≡ some n
    → find_policy_id id e'.policy_ids ≡ some n

abbrev with_id : List ℕ → RuleEngine → RuleEngine
with_id id e = record e {
  policy_ids = (id, e.next_policy_id) ∷ e.policy_ids;
  next_policy_id = e.next_policy_id + 1;
}

with_id-HasIds :
    (id : List ℕ) (e : RuleEngine)
    → find_policy_id id e.policy_ids ≡ none
    → HasIds e
    → HasIds (with_id id e)
unfolding find_policy_id
with_id-HasIds id e new v = record {
  bounded = λ s n f. elim (Bool-cases (same_text id s)) [
    | inl same ↦ let own : e.next_policy_id ≡ n = ground arith in omega (arith, own, v.positive)
    | inr other ↦
        let old : find_policy_id s e.policy_ids ≡ some n = ground arith in
        let (lo, hi) = v.bounded s n old in (lo, omega (arith, hi))
  ];
  injective = injective;
  positive = omega arith;
}
  where
    injective :
        (s t : List ℕ) (n : ℕ)
        → find_policy_id s (with_id id e).policy_ids ≡ some n
        → find_policy_id t (with_id id e).policy_ids ≡ some n
        → s ≡ t
    injective s t n f g = elim (Bool-cases (same_text id s)) [
      | inl a ↦ elim (Bool-cases (same_text id t)) [
        | inl b ↦ sym (same_text_sound id s a) ∙ same_text_sound id t b
        | inr b ↦
            let own : e.next_policy_id ≡ n = ground arith in
            let old : find_policy_id t e.policy_ids ≡ some n = ground arith in
            absurd (omega (arith, own, (v.bounded t n old).1))
      ]
      | inr a ↦
          let old_s : find_policy_id s e.policy_ids ≡ some n = ground arith in
          elim (Bool-cases (same_text id t)) [
            | inl b ↦
                let own : e.next_policy_id ≡ n = ground arith in
                absurd (omega (arith, own, (v.bounded s n old_s).1))
            | inr b ↦
                let old_t : find_policy_id t e.policy_ids ≡ some n = ground arith in
                v.injective s t n old_s old_t
          ]
    ]

with_id-Keeps :
    (id : List ℕ) (e : RuleEngine) → find_policy_id id e.policy_ids ≡ none → Keeps e (with_id id e)
unfolding Keeps find_policy_id
with_id-Keeps id e new s n f = elim (Bool-cases (same_text id s)) [
  | inl same ↦
      let clash : none ≡ some n =
        sym new
        ∙ (ap (λ (t : List ℕ). find_policy_id t e.policy_ids) (same_text_sound id s same) ∙ f) in
      ground arith
  | inr other ↦ rw (other, find_policy_id) f
]

find_policy_id-with_id :
    (id : List ℕ) (e : RuleEngine)
    → find_policy_id id (with_id id e).policy_ids ≡ some e.next_policy_id
unfolding find_policy_id
find_policy_id-with_id id e = rw (same_text_refl id) refl

assign_policy_id_lem :
    (id : List ℕ) (e : RuleEngine)
    → is_empty id ≡ false
    → HasIds e
    → HasIds (assign_policy_id id e)
      × (Keeps e (assign_policy_id id e)
          × ((n : ℕ) × (find_policy_id id (assign_policy_id id e).policy_ids ≡ some n)))
unfolding assign_policy_id Keeps
assign_policy_id_lem id e ne v = elim (Option-cases (find_policy_id id e.policy_ids)) [
  | inl new ↦
      rw (ne, new, assign_policy_id)
        (
          with_id-HasIds id e new v,
          (with_id-Keeps id e new, (e.next_policy_id, find_policy_id-with_id id e)),
        )
  | inr (n, old) ↦ rw (ne, old, assign_policy_id) (v, ((λ s k f. f), (n, old)))
]

-- The rules of a configuration: ids that are not empty and all different.
unfoldable pub Named : List AutoRule → Type 0
Named [] = Unit
Named (r ∷ rs) = (is_empty r.id ≡ false) × Named rs

Assigned-Keeps :
    (e e' : RuleEngine) (rs : List AutoRule)
    → Keeps e e'
    → Assigned e.policy_ids rs
    → Assigned e'.policy_ids rs
unfolding Assigned Keeps
Assigned-Keeps e e' [] k a = tt
Assigned-Keeps e e' (r ∷ rs) k a = ((a.0.0, k r.id a.0.0 a.0.1), Assigned-Keeps e e' rs k a.1)

assign_all_lem :
    (rs : List AutoRule) (e : RuleEngine)
    → Named rs
    → HasIds e
    → HasIds (assign_all rs e)
      × (Keeps e (assign_all rs e) × Assigned (assign_all rs e).policy_ids rs)
unfolding assign_all Named Assigned Keeps
assign_all_lem [] e nm v = (v, ((λ s n f. f), tt))
assign_all_lem (r ∷ rs) e nm v =
    let (v1, (k1, (n, f1))) = assign_policy_id_lem r.id e nm.0 v in
    let (v2, (k2, a2)) = assign_all_lem rs (assign_policy_id r.id e) nm.1 v1 in
    (v2, ((λ s k f. k2 s k (k1 s k f)), ((n, k2 r.id n f1), a2)))

Unlike-clear_rules : (id : List ℕ) (rs : List AutoRule) → Unlike id rs → Unlike id (clear_rules rs)
unfolding Unlike clear_rules
Unlike-clear_rules id [] u = tt
Unlike-clear_rules id (r ∷ rs) u = (u.0, Unlike-clear_rules id rs u.1)

DistinctIds-clear_rules : (rs : List AutoRule) → DistinctIds rs → DistinctIds (clear_rules rs)
unfolding DistinctIds clear_rules
DistinctIds-clear_rules [] d = tt
DistinctIds-clear_rules (r ∷ rs) d =
    (Unlike-clear_rules r.id rs d.0, DistinctIds-clear_rules rs d.1)

Assigned-clear_rules :
    (m : List (List ℕ × ℕ)) (rs : List AutoRule) → Assigned m rs → Assigned m (clear_rules rs)
unfolding Assigned clear_rules
Assigned-clear_rules m [] a = tt
Assigned-clear_rules m (r ∷ rs) a = (a.0, Assigned-clear_rules m rs a.1)

-- Loading rules whose ids are different and not empty, into an engine whose policy ids are in range
-- and different, leaves an engine that is ready: its ids are still so, and every rule has one.
-- Every id that was handed out before stays with its rule.
pub set_auto_rules-IsReady :
    (rules : List AutoRule) (e : RuleEngine)
    → Named rules
    → DistinctIds rules
    → HasIds e
    → IsReady (set_auto_rules rules e) × Keeps e (set_auto_rules rules e)
unfolding set_auto_rules refresh_cmdline_flag Keeps
set_auto_rules-IsReady rules e nm d v =
    let (v', (k, a)) = assign_all_lem rules e nm v in
    let ids : HasIds (set_auto_rules rules e) = record {
      bounded = v'.bounded;
      injective = v'.injective;
      positive = v'.positive;
    } in
    (
      record {
        ids = ids;
        distinct = DistinctIds-clear_rules rules d;
        assigned = Assigned-clear_rules (assign_all rules e).policy_ids rules a;
      },
      k,
    )

pub fresh_engine-HasIds : HasIds fresh_engine
unfolding find_policy_id
fresh_engine-HasIds = record {
  bounded = λ s n f. ground arith;
  injective = λ s t n f g. ground arith;
  positive = omega arith;
}
