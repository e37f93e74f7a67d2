-- ===== src/Udp/Relay/Transparency.antt =====
-- src/udp/udp_relay.hpp with src/udp/windivert_network_udp.hpp: a datagram goes to the proxy with its
-- destination, and the answer comes back to the application as from there.
use clew_proxy.Prelude.{ℕ, ◌+◌, ◌<◌, ◌^◌, ◌≡◌, refl, Bool, true, some, List, [], ◌∷◌, arith}
use clew_proxy.Udp.Codec.{encode, decode}
use clew_proxy.Udp.Codec.RoundTrip.{decode-encode}
use clew_proxy.Udp.Packet.{
  UdpPacket, UdpAddress, UdpDivert, swap_16, swap_16-involutive, swap_16-lt,
}
use clew_proxy.Udp.PortTracker.{UdpTrackerEntry}
use clew_proxy.Udp.SessionTable.{UdpSession, lookup}
use clew_proxy.Udp.Network.{session_of}
use clew_proxy.Udp.Manager.{get_or_create}
use clew_proxy.Udp.Relay.{
  UdpRelay, Endpoint, Received, failed, datagram, same_endpoint, recv_udp, send_udp, frame_of,
  forward, upstream_turn, reply, reply_address, inject_reply, deliver, downstream_turn,
}

-- The session that the worker recorded for a packet is in the relay's table.
abbrev pub IsRecorded : ℕ → UdpPacket → UdpAddress → UdpTrackerEntry → UdpRelay → Type 0
IsRecorded now pkt addr te r =
    lookup (swap_16 pkt.src_port) r.session_table ≡ some (session_of now pkt addr te)

-- The frame of a packet, whose address has 32 bits, decodes to the destination and the payload that
-- the application sent.
frame_round_trip :
    (now : ℕ) (pkt : UdpPacket) (addr : UdpAddress) (te : UdpTrackerEntry)
    → pkt.dst_addr < 2 ^ 32
    → decode (frame_of (session_of now pkt addr te) pkt.payload)
      ≡ some (record {
        addr_net = pkt.dst_addr;
        port_host = swap_16 pkt.dst_port;
        payload = pkt.payload;
      })
frame_round_trip now pkt addr te h =
    decode-encode pkt.dst_addr (swap_16 pkt.dst_port) pkt.payload h (swap_16-lt pkt.dst_port)

forward_frame :
    (now app_port i : ℕ) (s : UdpSession) (buf : List ℕ) (r : UdpRelay)
    → (r.socks5.session i).alive ≡ true
    → (forward true now app_port s buf (some i) r).frames ≡ (i, frame_of s buf) ∷ r.frames
unfolding forward send_udp
forward_frame now app_port i s buf r a = ground arith

-- A reflected packet whose session is recorded, for which the manager has or establishes a session
-- that is alive and whose send succeeds, goes to the proxy as one frame, which decodes to the
-- destination address, the destination port and the payload that the application sent.
pub upstream_turn-decode :
    (established : Bool) (now later i : ℕ) (pkt : UdpPacket) (addr : UdpAddress)
    (te : UdpTrackerEntry) (r : UdpRelay)
    → pkt.dst_addr < 2 ^ 32
    → IsRecorded now pkt addr te r
    → let app_port = swap_16 pkt.src_port in
      let (m, found) = get_or_create established app_port te.group_id r.socks5 in
      found ≡ some i
      → (m.session i).alive ≡ true
      → (frame : List ℕ) × ((upstream_turn established true later app_port pkt.payload r).frames
          ≡ (i, frame) ∷ r.frames)
        × (decode frame
            ≡ some (record {
              addr_net = pkt.dst_addr;
              port_host = swap_16 pkt.dst_port;
              payload = pkt.payload;
            }))
unfolding upstream_turn
upstream_turn-decode established now later i pkt addr te r h s f a =
    let app_port = swap_16 pkt.src_port in
    let session = session_of now pkt addr te in
    let (m, found) = get_or_create established app_port te.group_id r.socks5 in
    let sent = forward_frame later app_port i session pkt.payload (record r { socks5 = m }) a in
    (frame_of session pkt.payload, ground (arith, sent), frame_round_trip now pkt addr te h)

-- A frame of the proxy that decodes, for a packet whose session is recorded, is injected as one
-- packet: to the application's address and port, from the address and port it had sent to, with
-- the frame's payload. The source port of the packet has 16 bits.
pub downstream_turn-reply :
    (d : UdpDivert) (tick now : ℕ) (pkt : UdpPacket) (addr : UdpAddress) (te : UdpTrackerEntry)
    (from : Endpoint) (ip port : ℕ) (payload : List ℕ) (r : UdpRelay)
    → r.has_handle ≡ true
    → pkt.src_port < 2 ^ 16
    → ip < 2 ^ 32
    → port < 2 ^ 16
    → IsRecorded now pkt addr te r
    → let after =
        downstream_turn d tick (swap_16 pkt.src_port) (datagram from (encode ip port payload)) r in
      (answer : UdpPacket) × (after.injected
        ≡ d.calc_checksums answer (reply_address (session_of now pkt addr te)) ∷ r.injected)
      × (answer.src_addr ≡ pkt.dst_addr)
      × (answer.src_port ≡ pkt.dst_port)
      × (answer.dst_addr ≡ pkt.src_addr)
      × (answer.dst_port ≡ pkt.src_port)
      × (answer.payload ≡ payload)
unfolding downstream_turn deliver inject_reply encode
downstream_turn-reply d tick now pkt addr te from ip port payload r w p h k s =
    let session = session_of now pkt addr te in
    (
      reply tick session payload,
      ground (arith, decode-encode ip port payload h k),
      refl,
      refl,
      refl,
      swap_16-involutive pkt.src_port p,
      refl,
    )

-- Only datagrams of the relay get past the receive.
pub recv_udp-from :
    (relay from : Endpoint) (bytes : List ℕ) (arrivals : List Received) (drops : ℕ)
    → (recv_udp relay arrivals drops).0 ≡ datagram from bytes
    → same_endpoint from relay ≡ true
unfolding recv_udp
recv_udp-from relay from bytes [] drops h = ground arith
recv_udp-from relay from bytes (failed ∷ later) drops h = ground arith
recv_udp-from relay from bytes (datagram f b ∷ later) drops h =
    ground (arith, recv_udp-from relay from bytes later (drops + 1))
