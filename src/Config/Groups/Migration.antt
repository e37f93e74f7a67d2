-- ===== src/Config/Groups/Migration.antt =====
-- src/config/config_manager.hpp: groups with distinct ids, and what appending one does.
pub mod Placement
use clew_proxy.Prelude.{
  ℕ, zero, suc, ◌+◌, ◌%◌, ◌^◌, ◌≤◌, ◌<◌, ◌≡◌, refl, sym, ◌∙◌, ap, inl, inr, ◌⊎◌, Bool, true, false,
  not, ◌&&◌, ◌==◌, if◌then◌else◌, Option, none, some, List, [], ◌∷◌, ◌++◌, length, arith,
  Option-cases, Bool-cases,
}
use clew_proxy.Config.Target.{ProxyTarget}
use clew_proxy.Rules.Engine.{AutoRule, is_empty, same_text}
use clew_proxy.Rules.Engine.Policy.Agreement.{same_text_refl}
use clew_proxy.Config.Groups.{
  ProxyGroup, ConfigV2, has_target, find_target, get_group_by_id, in_group, bump, group_for,
  migrate_rule, migrate_rules, ensure_proxy_groups,
}

-- The ids of the groups are below `next` and no two are the same.
abbrev pub Fresh : ℕ → List ProxyGroup → Type 0
Fresh id [] = Unit
Fresh id (g ∷ gs) = ((g.id == id) ≡ false) × Fresh id gs

abbrev pub Below : ℕ → List ProxyGroup → Type 0
Below next [] = Unit
Below next (g ∷ gs) = (g.id < next) × Below next gs

abbrev pub DistinctIds : List ProxyGroup → Type 0
DistinctIds [] = Unit
DistinctIds (g ∷ gs) = Fresh g.id gs × DistinctIds gs

pub Fresh-of_Below : (next : ℕ) (gs : List ProxyGroup) → Below next gs → Fresh next gs
Fresh-of_Below next [] b = tt
Fresh-of_Below next (g ∷ gs) b = (ground arith, Fresh-of_Below next gs b.1)

pub Below-mono : (n m : ℕ) (gs : List ProxyGroup) → n ≤ m → Below n gs → Below m gs
Below-mono n m [] h b = tt
Below-mono n m (g ∷ gs) h b = (omega (arith, b.0), Below-mono n m gs h b.1)

pub Below-append :
    (next : ℕ) (gs : List ProxyGroup) (g : ProxyGroup)
    → g.id < next
    → Below next gs
    → Below next (gs ++ g ∷ [])
Below-append next [] g h b = (h, tt)
Below-append next (x ∷ gs) g h b = (b.0, Below-append next gs g h b.1)

Fresh-append :
    (id : ℕ) (gs : List ProxyGroup) (g : ProxyGroup)
    → (g.id == id) ≡ false
    → Fresh id gs
    → Fresh id (gs ++ g ∷ [])
Fresh-append id [] g h f = (h, tt)
Fresh-append id (x ∷ gs) g h f = (f.0, Fresh-append id gs g h f.1)

pub DistinctIds-append :
    (gs : List ProxyGroup) (g : ProxyGroup)
    → Fresh g.id gs
    → DistinctIds gs
    → DistinctIds (gs ++ g ∷ [])
DistinctIds-append [] g f d = (tt, tt)
DistinctIds-append (x ∷ gs) g f d =
    (Fresh-append x.id gs g (ground (arith, f.0)) d.0, DistinctIds-append gs g f.1 d.1)

-- The first group of a list whose ids are distinct that has an address is the group with its id.
pub find_target-get :
    (p : ProxyTarget) (gs : List ProxyGroup) (id : ℕ)
    → DistinctIds gs
    → find_target p gs ≡ some id
    → (g : ProxyGroup) × (get_group_by_id id gs ≡ some g) × (has_target p g ≡ true)
unfolding find_target get_group_by_id
find_target-get p [] id d h = ground arith
find_target-get p (g ∷ gs) id d h = elim (Bool-cases (has_target p g)) [
  | inl t ↦ (g, ground arith, t)
  | inr n ↦
      let (k, e, t) = find_target-get p gs id d.1 (ground arith) in
      (k, ground (arith, e, get-Fresh g.id gs k id d.0 e), t)
]
  where
    get-Fresh :
        (other : ℕ) (hs : List ProxyGroup) (k : ProxyGroup) (i : ℕ)
        → Fresh other hs
        → get_group_by_id i hs ≡ some k
        → (other == i) ≡ false
    get-Fresh other [] k i f e = ground arith
    get-Fresh other (x ∷ hs) k i f e = ground (arith, get-Fresh other hs k i f.1)

pub get-append_old :
    (id : ℕ) (gs : List ProxyGroup) (g k : ProxyGroup)
    → get_group_by_id id gs ≡ some k
    → get_group_by_id id (gs ++ g ∷ []) ≡ some k
unfolding get_group_by_id
get-append_old id [] g k h = ground arith
get-append_old id (x ∷ gs) g k h = ground (arith, get-append_old id gs g k)

pub get-append_new :
    (gs : List ProxyGroup) (g : ProxyGroup)
    → Fresh g.id gs
    → get_group_by_id g.id (gs ++ g ∷ []) ≡ some g
unfolding get_group_by_id
get-append_new [] g f = ground arith
get-append_new (x ∷ gs) g f = ground (arith, get-append_new gs g f.1)
