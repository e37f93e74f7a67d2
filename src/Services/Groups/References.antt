-- ===== src/Services/Groups/References.antt =====
-- src/services/group_service.cpp: the groups that rules refer to.
pub mod Calls
use clew_proxy.Prelude.{
  ℕ, ◌+◌, ◌<◌, ◌≡◌, refl, inl, inr, Bool, true, false, not, ◌||◌, ◌&&◌, ◌==◌, ltb, if◌then◌else◌,
  Option, none, some, List, [], ◌∷◌, ◌++◌, arith, Bool-cases,
}
use clew_proxy.Rules.Engine.{AutoRule}
use clew_proxy.FlatTree.Entry.{ProcessEntry}
use clew_proxy.Config.Groups.{ProxyGroup, ConfigV2, in_group, bump}
use clew_proxy.Config.Store.{
  ConfigStore, Reply, ConfigChange, mutate, require, ApiError, group_updated,
}
use clew_proxy.Services.Groups.{
  GroupPatch, has_group, erase_group, apply_patch, patch_first, is_referenced, move_rule,
  move_rules, new_group, create_group, update_group, delete_group, manual_count,
}

-- Every rule has a group of the list.
abbrev pub AllKnown : List ProxyGroup → List AutoRule → Type 0
AllKnown gs [] = Unit
AllKnown gs (r ∷ rs) = (has_group r.proxy_group_id gs ≡ true) × AllKnown gs rs

-- The default group exists, and so does the group of every rule.
abbrev pub IsReferential : ConfigV2 → Type 0
IsReferential c = (has_group 0 c.proxy_groups ≡ true) × AllKnown c.proxy_groups c.auto_rules

pub has_group-append :
    (id : ℕ) (gs : List ProxyGroup) (g : ProxyGroup)
    → has_group id gs ≡ true
    → has_group id (gs ++ g ∷ []) ≡ true
unfolding has_group
has_group-append id [] g h = ground arith
has_group-append id (x ∷ gs) g h = ground (arith, has_group-append id gs g)

pub has_group-patch_first :
    (id other : ℕ) (p : GroupPatch) (gs : List ProxyGroup)
    → has_group id (patch_first other p gs) ≡ has_group id gs
unfolding has_group patch_first
has_group-patch_first id other p [] = refl
has_group-patch_first id other p (g ∷ gs) = ground (arith, has_group-patch_first id other p gs)

pub has_group-erase_group :
    (id other : ℕ) (gs : List ProxyGroup)
    → (id == other) ≡ false
    → has_group id gs ≡ true
    → has_group id (erase_group other gs) ≡ true
unfolding has_group erase_group
has_group-erase_group id other [] n h = ground arith
has_group-erase_group id other (g ∷ gs) n h = ground (arith, has_group-erase_group id other gs n)

pub erase_group-gone : (id : ℕ) (gs : List ProxyGroup) → has_group id (erase_group id gs) ≡ false
unfolding has_group erase_group
erase_group-gone id [] = refl
erase_group-gone id (g ∷ gs) = ground (arith, erase_group-gone id gs)

-- A change of the groups that keeps those of the rules.
pub AllKnown-map :
    (gs later : List ProxyGroup) (rs : List AutoRule)
    → ((id : ℕ) → has_group id gs ≡ true → has_group id later ≡ true)
    → AllKnown gs rs
    → AllKnown later rs
AllKnown-map gs later [] f a = tt
AllKnown-map gs later (r ∷ rs) f a = (f r.proxy_group_id a.0, AllKnown-map gs later rs f a.1)

pub AllKnown-erase_group :
    (id : ℕ) (gs : List ProxyGroup) (rs : List AutoRule)
    → is_referenced id rs ≡ false
    → AllKnown gs rs
    → AllKnown (erase_group id gs) rs
unfolding is_referenced
AllKnown-erase_group id gs [] n a = tt
AllKnown-erase_group id gs (r ∷ rs) n a = (
  has_group-erase_group r.proxy_group_id id gs (ground arith) a.0,
  AllKnown-erase_group id gs rs (ground arith) a.1,
)

has_group-move_rule :
    (source target : ℕ) (gs : List ProxyGroup) (r : AutoRule)
    → (target == source) ≡ false
    → has_group target gs ≡ true
    → has_group r.proxy_group_id gs ≡ true
    → has_group (move_rule source target r).proxy_group_id (erase_group source gs) ≡ true
has_group-move_rule source target gs r n t h = elim (Bool-cases (r.proxy_group_id == source)) [
  | inl e ↦ ground (arith, has_group-erase_group target source gs n t)
  | inr d ↦ ground (arith, has_group-erase_group r.proxy_group_id source gs d h)
]

pub AllKnown-move_rules :
    (source target : ℕ) (gs : List ProxyGroup) (rs : List AutoRule)
    → (target == source) ≡ false
    → has_group target gs ≡ true
    → AllKnown gs rs
    → AllKnown (erase_group source gs) (move_rules source target rs)
unfolding move_rules
AllKnown-move_rules source target gs [] n t a = tt
AllKnown-move_rules source target gs (r ∷ rs) n t a = (
  has_group-move_rule source target gs r n t a.0,
  AllKnown-move_rules source target gs rs n t a.1,
)

-- Whether the file is written or not, `mutate` leaves the changed configuration.
pub mutate-live :
    (fn : ConfigV2 → ConfigV2) (tag : ConfigChange) (saved : Bool) (s : ConfigStore)
    → (mutate fn tag saved s).store.live ≡ fn s.live
unfolding mutate
mutate-live fn tag true s = refl
mutate-live fn tag false s = refl
