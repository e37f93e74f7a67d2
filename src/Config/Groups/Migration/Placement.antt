-- ===== src/Config/Groups/Migration/Placement.antt =====
-- src/config/config_manager.hpp: after the migration every rule has its group.
use clew_proxy.Prelude.{
  ℕ, ◌+◌, ◌≤◌, ◌<◌, ◌^◌, ◌≡◌, refl, inl, inr, ◌⊎◌, true, false, some, List, [], ◌∷◌, length, arith,
  Option-cases, Bool-cases,
}
use clew_proxy.Config.Target.{ProxyTarget}
use clew_proxy.Rules.Engine.{AutoRule, is_empty}
use clew_proxy.Rules.Engine.Policy.Agreement.{same_text_refl}
use clew_proxy.Config.Groups.{
  ProxyGroup, ConfigV2, has_target, find_target, get_group_by_id, bump, group_for, migrate_rule,
  migrate_rules, ensure_proxy_groups, if_none,
}
use clew_proxy.Config.Groups.Migration.{
  Below, DistinctIds, Fresh-of_Below, Below-mono, Below-append, DistinctIds-append, find_target-get,
  get-append_old, get-append_new,
}

pub record IsNumbered (groups : List ProxyGroup) (next : ℕ) : Type 0 where
  pub distinct : DistinctIds groups
  pub below : Below next groups
  pub default : (g : ProxyGroup) × (get_group_by_id 0 groups ≡ some g)

-- The rule's group exists; it is the default group if the rule's proxy has no host, and has the
-- address of the proxy otherwise.
abbrev pub IsPlaced : List ProxyGroup → AutoRule → Type 0
IsPlaced groups r =
    (g : ProxyGroup) × (get_group_by_id r.proxy_group_id groups ≡ some g)
    × (((is_empty r.proxy.host ≡ true) × (r.proxy_group_id ≡ 0))
        ⊎ ((is_empty r.proxy.host ≡ false) × (has_target r.proxy g ≡ true)))

abbrev pub AllPlaced : List ProxyGroup → List AutoRule → Type 0
AllPlaced groups [] = Unit
AllPlaced groups (r ∷ rs) = IsPlaced groups r × AllPlaced groups rs

-- Every group that is found before is found after.
abbrev Extends : List ProxyGroup → List ProxyGroup → Type 0
Extends groups later =
    (id : ℕ) (g : ProxyGroup)
    → get_group_by_id id groups ≡ some g
    → get_group_by_id id later ≡ some g

abbrev IsMigrated : ConfigV2 → Type 0
IsMigrated c = IsNumbered c.proxy_groups c.next_group_id × AllPlaced c.proxy_groups c.auto_rules

chosen :
    (gs : List ProxyGroup) (new old : ConfigV2)
    → gs ≡ []
    → IsMigrated new
    → IsMigrated (if_none gs new old)
chosen [] new old e m = m
chosen (g ∷ gs) new old e m = ground (arith, e)

IsPlaced-Extends :
    (groups later : List ProxyGroup) (r : AutoRule)
    → Extends groups later
    → IsPlaced groups r
    → IsPlaced later r
IsPlaced-Extends groups later r x (g, e, w) = (g, x r.proxy_group_id g e, w)

module _ (group_name : ℕ → List ℕ) (default_name default_test_url : List ℕ) where
  has_target-group_for :
      (p : ProxyTarget) (id : ℕ) (name : List ℕ)
      → has_target p (group_for group_name default_name default_test_url p id name) ≡ true
  unfolding has_target
  has_target-group_for p id name = ground (arith, same_text_refl p.host, same_text_refl p.type)

  -- A step of the migration.
  record Step (groups later : List ProxyGroup) (next after : ℕ) (r : AutoRule) : Type 0 where
    numbered : IsNumbered later after
    extends : Extends groups later
    placed : IsPlaced later r
    grown : after ≤ next + 1

  migrate_rule-Step :
      (r : AutoRule) (groups : List ProxyGroup) (next : ℕ)
      → IsNumbered groups next
      → next + 1 < 2 ^ 32
      → let (r', (later, after)) =
          migrate_rule group_name default_name default_test_url r (groups, next) in
        Step groups later next after r'
  unfolding migrate_rule
  migrate_rule-Step r groups next v b = elim (Bool-cases (is_empty r.proxy.host)) [
    | inl e ↦
        rw (e, migrate_rule)
          (record {
            numbered = v;
            extends = λ id g h. h;
            placed = (v.default.0, v.default.1, inl (e, refl));
            grown = omega arith;
          })
    | inr n ↦ elim (Option-cases (find_target r.proxy groups)) [
      | inr (id, f) ↦
          let (g, e, t) = find_target-get r.proxy groups id v.distinct f in
          rw (n, f, migrate_rule)
            (record {
              numbered = v;
              extends = λ id g h. h;
              placed = (g, e, inr (n, t));
              grown = omega arith;
            })
      | inl f ↦
          let new =
            group_for group_name default_name default_test_url r.proxy next (group_name next) in
          let fresh = Fresh-of_Below next groups v.below in
          let next_id : bump next ≡ next + 1 = omega (arith, b) in
          let (g, d) = v.default in
          rw (n, f, migrate_rule)
            (record {
              numbered = record {
                distinct = DistinctIds-append groups new fresh v.distinct;
                below = rw next_id (
                    Below-append (next + 1) groups new (omega arith)
                      (Below-mono next (next + 1) groups (omega arith) v.below));
                default = (g, get-append_old 0 groups new g d);
              };
              extends = λ id g h. get-append_old id groups new g h;
              placed = (
                new,
                get-append_new groups new fresh,
                inr (n, has_target-group_for r.proxy next (group_name next)),
              );
              grown = omega (arith, next_id);
            })
    ]
  ]

  -- The whole loop.
  record Walk (groups later : List ProxyGroup) (next after : ℕ) (rs rs' : List AutoRule)
      : Type 0 where
    numbered : IsNumbered later after
    extends : Extends groups later
    placed : AllPlaced later rs'

  migrate_rules-Walk :
      (rs : List AutoRule) (groups : List ProxyGroup) (next : ℕ)
      → IsNumbered groups next
      → next + length rs < 2 ^ 32
      → let (rs', (later, after)) =
          migrate_rules group_name default_name default_test_url rs (groups, next) in
        Walk groups later next after rs rs'
  unfolding migrate_rules
  migrate_rules-Walk [] groups next v b = record {
    numbered = v;
    extends = λ id g h. h;
    placed = tt;
  }
  migrate_rules-Walk (r ∷ rs) groups next v b =
      let (r', (mid, n)) = migrate_rule group_name default_name default_test_url r (groups, next) in
      let (rs', (later, after)) =
        migrate_rules group_name default_name default_test_url rs (mid, n) in
      let s : Step groups mid next n r' = migrate_rule-Step r groups next v (omega (arith, b)) in
      let grown = s.grown in
      let w : Walk mid later n after rs rs' =
        migrate_rules-Walk rs mid n s.numbered (omega (arith, b, grown)) in
      record {
        numbered = w.numbered;
        extends = λ id g h. w.extends id g (s.extends id g h);
        placed = (IsPlaced-Extends mid later r' w.extends s.placed, w.placed);
      }

  -- After the migration of a configuration without groups, the ids of its groups are distinct and
  -- below the next id, the group 0 exists, and every rule refers to a group: the group 0 if its
  -- proxy has no host, a group with the address of its proxy otherwise. The next id is not zero and
  -- cannot wrap in the number of rules.
  pub ensure_proxy_groups-AllPlaced :
      (c : ConfigV2)
      → c.proxy_groups ≡ []
      → 1 ≤ c.next_group_id
      → c.next_group_id + length c.auto_rules < 2 ^ 32
      → let c' = ensure_proxy_groups group_name default_name default_test_url c in
        IsNumbered c'.proxy_groups c'.next_group_id × AllPlaced c'.proxy_groups c'.auto_rules
  unfolding ensure_proxy_groups
  ensure_proxy_groups-AllPlaced c e p b =
      let first =
        group_for group_name default_name default_test_url c.default_proxy 0 default_name in
      let (rs', (later, after)) =
        migrate_rules group_name default_name default_test_url c.auto_rules
          (first ∷ [], c.next_group_id) in
      let v : IsNumbered (first ∷ []) c.next_group_id = record {
        distinct = (tt, tt);
        below = (p, tt);
        default = (first, get-append_new [] first tt);
      } in
      let w : Walk (first ∷ []) later c.next_group_id after c.auto_rules rs' =
        migrate_rules-Walk c.auto_rules (first ∷ []) c.next_group_id v b in
      chosen c.proxy_groups
        (record c { auto_rules = rs'; proxy_groups = later; next_group_id = after }) c e
        (w.numbered, w.placed)
