-- ===== src/SynParker/Packet.antt =====
-- src/core/syn_parker.hpp: packets as the program sees them, and the reflection of an outbound one.
--
-- Parsing, checksums and sending are the WinDivert library's. A packet is given parsed: `parsed` says
-- whether the parser found an IP and a TCP header, the header fields are in host byte order (so `htons`
-- is the identity), and `rest` is all that the program never looks at.
use clew_proxy.Prelude.{ℕ, Bool, false, if◌then◌else◌, List, ℤ}

pub record Packet : Type 0 where
  pub parsed : Bool
  pub src_addr : ℕ
  pub dst_addr : ℕ
  pub src_port : ℕ
  pub dst_port : ℕ
  pub seq_num : ℕ
  pub syn : Bool
  pub ack : Bool
  pub len : ℕ
  pub rest : List ℕ

-- WINDIVERT_ADDRESS.
pub record Address : Type 0 where
  pub timestamp : ℤ
  pub outbound : Bool
  pub interface : List ℕ

pub record Sent : Type 0 where
  pub pkt : Packet
  pub addr : Address

-- The library: `calc_checksums` rewrites a packet and its address, `send_ok` is the result of a send.
pub record Divert : Type 0 where
  pub calc_checksums : Packet → Address → Sent
  pub send_ok : Packet → Address → Bool

abbrev pub reflected : Divert → ℕ → Packet → Address → Sent
reflected d redirect_port pkt addr =
    d.calc_checksums
      (record pkt { src_addr = pkt.dst_addr; dst_addr = pkt.src_addr; dst_port = redirect_port })
      (record addr { outbound = false })

-- The one packet that is sent, and the result.
unfoldable pub reflect_outbound_packet : Divert → ℕ → Packet → Address → Sent × Bool
reflect_outbound_packet d redirect_port pkt addr =
    let out = reflected d redirect_port pkt addr in
    if pkt.parsed
    then (out, d.send_ok out.pkt out.addr)
    else (record { pkt = pkt; addr = addr }, false)
