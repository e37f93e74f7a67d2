-- ===== src/Udp/Packet.antt =====
-- src/udp/windivert_network_udp.hpp, src/udp/udp_relay.hpp: UDP packets as the UDP workers see them.
--
-- The header fields are the numbers that lie in memory in network order (x86: the byte swap of the
-- value). Parsing, checksums and sending are the WinDivert library's; `rest` is what nobody looks at.
use clew_proxy.Prelude.{ℕ, ◌+◌, ◌*◌, ◌/◌, ◌%◌, ◌^◌, ◌<◌, ◌≡◌, Bool, List, arith}

-- `htons` and `ntohs`, `htonl` and `ntohl`.
unfoldable pub swap_16 : ℕ → ℕ
swap_16 p = p % 256 * 256 + p / 256 % 256

unfoldable pub swap_32 : ℕ → ℕ
swap_32 a = a % 256 * 16777216 + a / 256 % 256 * 65536 + a / 65536 % 256 * 256 + a / 16777216 % 256

pub swap_16-involutive : (p : ℕ) → p < 2 ^ 16 → swap_16 (swap_16 p) ≡ p
unfolding swap_16
swap_16-involutive p h = omega arith

pub swap_16-lt : (p : ℕ) → swap_16 p < 2 ^ 16
unfolding swap_16
swap_16-lt p = omega arith

pub record UdpPacket : Type 0 where
  pub parsed : Bool
  pub src_addr : ℕ
  pub dst_addr : ℕ
  pub src_port : ℕ
  pub dst_port : ℕ
  pub payload : List ℕ
  pub rest : List ℕ

pub record UdpAddress : Type 0 where
  pub outbound : Bool
  pub ifidx : ℕ
  pub subifidx : ℕ
  pub other : List ℕ

pub record UdpSent : Type 0 where
  pub pkt : UdpPacket
  pub addr : UdpAddress

pub record UdpDivert : Type 0 where
  pub calc_checksums : UdpPacket → UdpAddress → UdpSent
  pub send_ok : UdpPacket → UdpAddress → Bool
