-- ===== src/Rules/Cidr/Match.antt =====
-- src/config/types.hpp: what a CIDR range matches.
use Prim.Native.Nat.{bit_and}
use native.Mathlib.Nat.{div-lt_iff_lt-mul, one-le-pow}
use clew_proxy.Prelude.{
  ℕ, zero, suc, ◌-◌, ◌*◌, ◌/◌, ◌^◌, ◌≤◌, ◌<◌, ◌≡◌, refl, ap, sym, ◌∙◌, ◌↔◌, true, leb, ◌==◌, ==_iff,
  leb→le, Bool-cases, inl, inr, some, pos, arith,
}
use clew_proxy.Prelude.Bits.{
  passes_below, test-passes_below, ones, shifted, bit_and_mask, bit_and-zero, shifted_injective,
}
use clew_proxy.Rules.Cidr.{shl32, prefix_mask, prefix_loop, prefix_of_mask, matches}

-- The mask of each prefix length is that many ones above zeros, and `to_string` finds the length.
mask_table :
    passes_below 32 (λ p. shl32 0xFFFFFFFF (31 - p) == shifted (ones (suc p)) (31 - p)) ≡ true
unfolding passes_below ones shifted
mask_table = refl

length_table : passes_below 32 (λ p. prefix_of_mask (shl32 0xFFFFFFFF (31 - p)) == suc p) ≡ true
unfolding passes_below prefix_of_mask
length_table = refl

width_table : passes_below 32 (λ p. 2 ^ suc p * 2 ^ (31 - p) == 2 ^ 32) ≡ true
unfolding passes_below
width_table = refl

mask_eq : (p : ℕ) → p < 32 → shl32 0xFFFFFFFF (31 - p) ≡ shifted (ones (suc p)) (31 - p)
mask_eq p h = (==_iff _ _).0 (test-passes_below _ 32 p h mask_table)

length_eq : (p : ℕ) → p < 32 → prefix_of_mask (shl32 0xFFFFFFFF (31 - p)) ≡ suc p
length_eq p h = (==_iff _ _).0 (test-passes_below _ 32 p h length_table)

width_eq : (p : ℕ) → p < 32 → 2 ^ suc p * 2 ^ (31 - p) ≡ 2 ^ 32
width_eq p h = (==_iff _ _).0 (test-passes_below _ 32 p h width_table)

less_one : (p : ℕ) → 32 - suc p ≡ 31 - p
less_one p = omega arith

prefix_mask-suc :
    (p m : ℕ) → prefix_mask (pos (suc p)) ≡ some m → (p < 32) × (shl32 0xFFFFFFFF (31 - p) ≡ m)
unfolding prefix_mask
prefix_mask-suc p m e = elim (Bool-cases (leb (suc p) 32)) [
  | inl fits ↦ (leb→le _ _ fits, rw (← less_one p) (ground arith))
  | inr big ↦ ground arith
]

prefix_mask-zero : (m : ℕ) → prefix_mask (pos 0) ≡ some m → 0 ≡ m
unfolding prefix_mask
prefix_mask-zero m e = cc

-- `to_string` prints the prefix length that `parse` read, whenever the shift of `parse` is defined.
pub prefix_of_mask-prefix_mask :
    (p m : ℕ) → prefix_mask (pos p) ≡ some m → (p ≤ 32) × (prefix_of_mask m ≡ p)
unfolding prefix_of_mask prefix_loop
prefix_of_mask-prefix_mask zero m e = (omega arith, rw (← prefix_mask-zero m e) refl)
prefix_of_mask-prefix_mask (suc p) m e =
    let (small, is) = prefix_mask-suc p m e in (small, rw (← is) (length_eq p small))

masked :
    (p a : ℕ)
    → p < 32
    → a < 2 ^ 32
    → bit_and a (shl32 0xFFFFFFFF (31 - p)) ≡ shifted (a / 2 ^ (31 - p)) (31 - p)
masked p a h k =
    ap (bit_and a) (mask_eq p h)
    ∙ bit_and_mask a (suc p) (31 - p)
        ((div-lt_iff_lt-mul (one-le-pow (31 - p) 2 (omega arith))).1 (omega (arith, width_eq p h)))

masked_iff :
    (p addr ip : ℕ)
    → p < 32
    → addr < 2 ^ 32
    → ip < 2 ^ 32
    → let m = shl32 0xFFFFFFFF (31 - p) in
      (bit_and ip m ≡ bit_and addr m) ↔ (ip / 2 ^ (31 - p) ≡ addr / 2 ^ (31 - p))
masked_iff p addr ip small h k = (
  λ e. shifted_injective _ _ (31 - p) (sym (masked p ip small k) ∙ (e ∙ masked p addr small h)),
  λ e. masked p ip small k ∙ (ap (λ (t : ℕ). shifted t (31 - p)) e ∙ sym (masked p addr small h)),
)

-- A range that `parse` makes of a 32-bit address and a prefix length matches exactly the 32-bit
-- addresses that agree with it in that many upper bits.
matches_iff :
    (p m addr ip : ℕ)
    → prefix_mask (pos p) ≡ some m
    → addr < 2 ^ 32
    → ip < 2 ^ 32
    → (matches (record { network = bit_and addr m; mask = m }) ip ≡ true)
      ↔ (ip / 2 ^ (32 - p) ≡ addr / 2 ^ (32 - p))
unfolding matches
matches_iff zero m addr ip e h k =
    (λ _. omega arith, λ _. rw (← prefix_mask-zero m e, bit_and-zero ip, bit_and-zero addr))
matches_iff (suc p) m addr ip e h k =
    let (small, is) = prefix_mask-suc p m e in
    let (to, back) = masked_iff p addr ip small h k in
    rw (← is, less_one p) (λ same. to ((==_iff _ _).0 same), λ same. (==_iff _ _).1 (back same))
