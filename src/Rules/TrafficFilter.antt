-- ===== src/Rules/TrafficFilter.antt =====
-- src/rules/traffic_filter.hpp and the TrafficFilter of src/config/types.hpp. An IPv4 address is a
-- number below 2 ^ 32 in host order.
use clew_proxy.Prelude.{
  ℕ, ◌/◌, ◌^◌, ◌≡◌, refl, ◌⊎◌, inl, inr, Bool, true, false, not, ◌&&◌, if◌then◌else◌, ◌==◌, List,
  [], ◌∷◌, arith, ◌↔◌, Bool-cases,
}
use clew_proxy.Rules.Cidr.{CidrRange, PortRange, matches, port_matches}

pub data IpExcludeReason : Type 0 where
  nothing global rule : IpExcludeReason

-- The loops "if one of them matches".
unfoldable pub any_cidr : List CidrRange → ℕ → Bool
any_cidr [] ip = false
any_cidr (c ∷ cs) ip = if matches c ip then true else any_cidr cs ip

pub any_port : List PortRange → ℕ → Bool
any_port [] port = false
any_port (r ∷ rs) port = if port_matches r port then true else any_port rs port

pub record IpExcludePolicy : Type 0 where
  pub global_cidrs : List CidrRange
  pub rule_cidrs : List CidrRange

unfoldable pub evaluate_policy : IpExcludePolicy → ℕ → IpExcludeReason
evaluate_policy p dest_ip =
    if any_cidr p.global_cidrs dest_ip
    then global
    else if any_cidr p.rule_cidrs dest_ip
    then rule
    else nothing

pub record TrafficFilter : Type 0 where
  pub include_cidrs : List CidrRange
  pub exclude_cidrs : List CidrRange
  pub include_ports : List PortRange
  pub exclude_ports : List PortRange

abbrev is_empty : {A : Type 0} → List A → Bool
is_empty [] = true
is_empty (x ∷ xs) = false

pub should_proxy : ℕ → ℕ → TrafficFilter → Bool
should_proxy dest_ip dest_port f =
    if dest_ip / 2 ^ 24 == 127
    then false
    else if any_cidr f.exclude_cidrs dest_ip
    then false
    else if any_port f.exclude_ports dest_port
    then false
    else if not (is_empty f.include_cidrs) && not (any_cidr f.include_cidrs dest_ip)
    then false
    else if not (is_empty f.include_ports) && not (any_port f.include_ports dest_port)
    then false
    else true

-- Some element of a list passes a test, and every element fails it.
abbrev pub Any : {A : Type 0} → (A → Bool) → List A → Type 0
Any p [] = ⊥
Any p (x ∷ xs) = (p x ≡ true) ⊎ Any p xs

abbrev pub None : {A : Type 0} → (A → Bool) → List A → Type 0
None p [] = Unit
None p (x ∷ xs) = (p x ≡ false) × None p xs

any_cidr-Any : (cs : List CidrRange) (ip : ℕ) → any_cidr cs ip ≡ true → Any (λ c. matches c ip) cs
unfolding any_cidr
any_cidr-Any [] ip h = ground arith
any_cidr-Any (c ∷ cs) ip h = ground (arith, any_cidr-Any cs ip)

any_cidr-None :
    (cs : List CidrRange) (ip : ℕ) → any_cidr cs ip ≡ false → None (λ c. matches c ip) cs
unfolding any_cidr
any_cidr-None [] ip h = tt
any_cidr-None (c ∷ cs) ip h = ground (arith, any_cidr-None cs ip)

Any-any_cidr : (cs : List CidrRange) (ip : ℕ) → Any (λ c. matches c ip) cs → any_cidr cs ip ≡ true
unfolding any_cidr
Any-any_cidr [] ip h = absurd h
Any-any_cidr (c ∷ cs) ip (inl h) = rw h
Any-any_cidr (c ∷ cs) ip (inr h) = rw (Any-any_cidr cs ip h) (ground arith)

None-any_cidr :
    (cs : List CidrRange) (ip : ℕ) → None (λ c. matches c ip) cs → any_cidr cs ip ≡ false
unfolding any_cidr
None-any_cidr [] ip h = refl
None-any_cidr (c ∷ cs) ip h = ground (arith, None-any_cidr cs ip)

any_port-Any : (rs : List PortRange) (p : ℕ) → any_port rs p ≡ true → Any (λ r. port_matches r p) rs
unfolding any_port
any_port-Any [] p h = ground arith
any_port-Any (r ∷ rs) p h = ground (arith, any_port-Any rs p)

any_port-None :
    (rs : List PortRange) (p : ℕ) → any_port rs p ≡ false → None (λ r. port_matches r p) rs
unfolding any_port
any_port-None [] p h = tt
any_port-None (r ∷ rs) p h = ground (arith, any_port-None rs p)

Any-any_port : (rs : List PortRange) (p : ℕ) → Any (λ r. port_matches r p) rs → any_port rs p ≡ true
unfolding any_port
Any-any_port [] p h = absurd h
Any-any_port (r ∷ rs) p (inl h) = rw h
Any-any_port (r ∷ rs) p (inr h) = rw (Any-any_port rs p h) (ground arith)

None-any_port :
    (rs : List PortRange) (p : ℕ) → None (λ r. port_matches r p) rs → any_port rs p ≡ false
unfolding any_port
None-any_port [] p h = refl
None-any_port (r ∷ rs) p h = ground (arith, None-any_port rs p)

-- The documented policy: not loopback, on no exclude list, and on each include list that is not empty.
abbrev pub MayProxy : ℕ → ℕ → TrafficFilter → Type 0
MayProxy ip port f =
    ((ip / 2 ^ 24 == 127) ≡ false)
    × None (λ c. matches c ip) f.exclude_cidrs
    × None (λ r. port_matches r port) f.exclude_ports
    × ((is_empty f.include_cidrs ≡ true) ⊎ Any (λ c. matches c ip) f.include_cidrs)
    × ((is_empty f.include_ports ≡ true) ⊎ Any (λ r. port_matches r port) f.include_ports)

-- `should_proxy` is true exactly when the destination is not loopback, no exclude range matches, and of
-- each include list that is not empty some range matches.
pub should_proxy_iff :
    (ip port : ℕ) (f : TrafficFilter) → (should_proxy ip port f ≡ true) ↔ MayProxy ip port f
unfolding should_proxy
should_proxy_iff ip port f = (
  λ h. (
    ground arith,
    any_cidr-None f.exclude_cidrs ip (ground arith),
    any_port-None f.exclude_ports port (ground arith),
    allowed_cidr h,
    allowed_port h,
  ),
  λ h. ground (
    arith,
    None-any_cidr f.exclude_cidrs ip h.1,
    None-any_port f.exclude_ports port h.2,
    included_cidr h.3,
    included_port h.4,
  ),
)
  where
    allowed_cidr :
        should_proxy ip port f ≡ true
        → (is_empty f.include_cidrs ≡ true) ⊎ Any (λ c. matches c ip) f.include_cidrs
    allowed_cidr h = elim (Bool-cases (is_empty f.include_cidrs)) [
      | inl e ↦ inl e
      | inr n ↦ inr (any_cidr-Any f.include_cidrs ip (ground arith))
    ]

    allowed_port :
        should_proxy ip port f ≡ true
        → (is_empty f.include_ports ≡ true) ⊎ Any (λ r. port_matches r port) f.include_ports
    allowed_port h = elim (Bool-cases (is_empty f.include_ports)) [
      | inl e ↦ inl e
      | inr n ↦ inr (any_port-Any f.include_ports port (ground arith))
    ]

    included_cidr :
        (is_empty f.include_cidrs ≡ true) ⊎ Any (λ c. matches c ip) f.include_cidrs
        → (is_empty f.include_cidrs ≡ true) ⊎ (any_cidr f.include_cidrs ip ≡ true)
    included_cidr (inl e) = inl e
    included_cidr (inr a) = inr (Any-any_cidr f.include_cidrs ip a)

    included_port :
        (is_empty f.include_ports ≡ true) ⊎ Any (λ r. port_matches r port) f.include_ports
        → (is_empty f.include_ports ≡ true) ⊎ (any_port f.include_ports port ≡ true)
    included_port (inl e) = inl e
    included_port (inr a) = inr (Any-any_port f.include_ports port a)
