-- ===== src/Rules/Cidr.antt =====
-- src/config/types.hpp: CIDR and port ranges, as the rules match them.
--
-- Text is the list of its bytes. `scan4` stands for `sscanf_s(…, "%u.%u.%u.%u", …)`, with the four
-- numbers when all are read, and `stoi` for `std::stoi`, which throws on what is not a number: both
-- are the C++ library's. A prefix length for which the shift of `parse` is undefined has no result.
pub mod Match
use Prim.Native.Nat.{bit_and, bit_or}
use clew_proxy.Prelude.{
  ℕ, zero, suc, ◌+◌, ◌-◌, ◌*◌, ◌/◌, ◌%◌, ◌^◌, Bool, true, false, ◌&&◌, if◌then◌else◌, ltb, leb,
  ◌==◌, Option, none, some, List, [], ◌∷◌, ℤ, pos, negsuc,
}

pub record CidrRange : Type 0 where
  pub network : ℕ
  pub mask : ℕ

abbrev pub no_range : CidrRange
no_range = record { network = 0; mask = 0 }

-- A `uint32_t` shift to the left.
abbrev pub shl32 : ℕ → ℕ → ℕ
shl32 x k = x * 2 ^ k % 2 ^ 32

pub record Scanned : Type 0 where
  pub a : ℕ
  pub b : ℕ
  pub c : ℕ
  pub d : ℕ

infixl 5 ◌>>=◌
abbrev ◌>>=◌ {ℓ κ} : {A : Type ℓ} {B : Type κ} → Option A → (A → Option B) → Option B
none >>= f = none
some a >>= f = f a

-- The bytes before the first `c`, and those after it if there is one.
pub split_at : ℕ → List ℕ → List ℕ × Option (List ℕ)
split_at c [] = ([], none)
split_at c (x ∷ xs) =
    let (front, back) = split_at c xs in if x == c then ([], some xs) else (x ∷ front, back)

-- The mask of a prefix length, where the shift of the code is defined.
unfoldable pub prefix_mask : ℤ → Option ℕ
prefix_mask (pos zero) = some 0
prefix_mask (pos (suc p)) = if leb (suc p) 32 then some (shl32 0xFFFFFFFF (32 - suc p)) else none
prefix_mask (negsuc p) = none

module _ (scan4 : List ℕ → Option Scanned) (stoi : List ℕ → Option ℤ) where
  pub ip_to_uint : List ℕ → ℕ
  ip_to_uint ip = elim (scan4 ip) [
    | none ↦ 0
    | some r ↦ bit_or (bit_or (bit_or (shl32 r.a 24) (shl32 r.b 16)) (shl32 r.c 8)) r.d
  ]

  -- Nothing, where `stoi` throws or the shift is undefined.
  pub parse : List ℕ → Option CidrRange
  parse cidr =
      let (front, back) = split_at b'/' cidr in
      elim back [
        | none ↦ some (record { network = ip_to_uint cidr; mask = 0xFFFFFFFF })
        | some digits ↦ do
          prefix_len ← stoi digits
          mask ← prefix_mask prefix_len
          some (record { network = bit_and (ip_to_uint front) mask; mask = mask })
      ]

pub matches : CidrRange → ℕ → Bool
matches r ip = bit_and ip r.mask == r.network

-- The loop of `to_string`: how often the top bit of the mask is set while it is shifted out. The mask
-- is 0 after 32 shifts.
pub prefix_loop : ℕ → ℕ → ℕ
prefix_loop zero m = 0
prefix_loop (suc left) m =
    let rest = prefix_loop left (shl32 m 1) in if bit_and m 0x80000000 == 0 then 0 else rest + 1

pub prefix_of_mask : ℕ → ℕ
unfolding prefix_loop
prefix_of_mask m = prefix_loop 32 m

pub record PortRange : Type 0 where
  pub start : ℕ
  pub stop : ℕ

pub port_matches : PortRange → ℕ → Bool
port_matches r port = leb r.start port && leb port r.stop
