-- ===== src/Udp/Relay.antt =====
-- src/udp/udp_relay.hpp, and the data sockets of src/udp/socks5_udp_session.hpp: the relay between the
-- reflected datagrams and the SOCKS5 sessions.
--
-- A turn of a coroutine's loop is a function of the datagram it receives. Whether a session can be
-- established and whether a send succeeds are arguments; `frames` logs what was sent to the proxy and
-- `injected` what was sent to applications, the newest first.
pub mod Transparency
use clew_proxy.Prelude.{
  ℕ, ◌+◌, ◌/◌, ◌%◌, ◌^◌, Bool, true, false, not, ◌&&◌, if◌then◌else◌, ◌==◌, ltb, Option, none, some,
  List, [], ◌∷◌, length,
}
use clew_proxy.Udp.Codec.{Socks5UdpFrame, encode, decode}
use clew_proxy.Udp.Packet.{UdpPacket, UdpAddress, UdpSent, UdpDivert, swap_16}
use clew_proxy.Udp.SessionTable.{UdpSession, UdpSessionTable, lookup, touch, cleanup_expired}
use clew_proxy.Udp.Manager.{Socks5UdpManager, get_or_create}

pub record UdpRelay : Type 0 where
  pub session_table : UdpSessionTable
  pub socks5 : Socks5UdpManager
  pub has_handle : Bool
  pub stopped : Bool
  pub running : Bool
  pub session_idle_timeout : ℕ
  pub upstream_count : ℕ
  pub downstream_count : ℕ
  pub injected_count : ℕ
  pub frames : List (ℕ × List ℕ)
  pub injected : List UdpSent

-- The time to the next sweep.
abbrev pub max : ℕ → ℕ → ℕ
max a b = if ltb a b then b else a

unfoldable pub sweep_interval : ℕ → ℕ
sweep_interval session_idle_timeout = max 1 (session_idle_timeout / 2)

-- The handler of the sweep timer, and whether it arms the timer again.
unfoldable pub on_sweep_timer : Bool → ℕ → UdpRelay → UdpRelay × Bool
unfolding cleanup_expired
on_sweep_timer cancelled now r =
    let (table, removed) = cleanup_expired now r.session_idle_timeout r.session_table in
    if cancelled
    then (r, false)
    else if r.stopped
    then (r, false)
    else (record r { session_table = table }, true)

unfoldable pub stop : UdpRelay → UdpRelay
stop r =
    let m = r.socks5 in
    if r.stopped
    then r
    else record r { stopped = true; running = false; socks5 = record m { has_callback = false } }

-- `async_send_udp` of the session `i`.
unfoldable pub send_udp : Bool → ℕ → List ℕ → UdpRelay → UdpRelay × Bool
send_udp send_ok i frame r =
    if not (r.socks5.session i).alive
    then (r, false)
    else if not send_ok
    then (r, false)
    else (record r { frames = (i, frame) ∷ r.frames }, true)

-- The frame for a datagram of the session.
abbrev pub frame_of : UdpSession → List ℕ → List ℕ
frame_of s buf = encode s.orig_dst_addr (swap_16 s.orig_dst_port) buf

-- The part of a turn of `upstream_loop` with the SOCKS5 session at hand.
unfoldable pub forward : Bool → ℕ → ℕ → UdpSession → List ℕ → Option ℕ → UdpRelay → UdpRelay
unfolding send_udp touch encode
forward send_ok now app_port s buf none r = r
forward send_ok now app_port s buf (some i) r =
    let (sent, ok) = send_udp send_ok i (frame_of s buf) r in
    if ok
    then record sent {
      upstream_count = r.upstream_count + 1;
      session_table = touch now app_port r.session_table;
    }
    else sent

unfoldable pub upstream_turn : Bool → Bool → ℕ → ℕ → List ℕ → UdpRelay → UdpRelay
unfolding lookup get_or_create forward
upstream_turn established send_ok now app_port buf r = elim (lookup app_port r.session_table) [
  | none ↦ r
  | some s ↦
      let (m, found) = get_or_create established app_port s.group_id r.socks5 in
      forward send_ok now app_port s buf found (record r { socks5 = m })
]

-- The header of a reply with its constants; `tick` is the system's tick count.
abbrev pub reply_rest : ℕ → List ℕ → List ℕ
reply_rest tick payload =
    4
    ∷ 5
    ∷ swap_16 ((20 + 8 + length payload) % 2 ^ 16)
    ∷ swap_16 (tick % 2 ^ 16)
    ∷ 64
    ∷ 17
    ∷ swap_16 ((8 + length payload) % 2 ^ 16)
    ∷ []

abbrev pub reply : ℕ → UdpSession → List ℕ → UdpPacket
reply tick s payload = record {
  parsed = true;
  src_addr = s.orig_dst_addr;
  dst_addr = s.app_src_addr;
  src_port = s.orig_dst_port;
  dst_port = swap_16 s.app_src_port;
  payload = payload;
  rest = reply_rest tick payload;
}

abbrev pub reply_address : UdpSession → UdpAddress
reply_address s = record { outbound = false; ifidx = s.ifidx; subifidx = s.subifidx; other = [] }

unfoldable pub inject_reply : UdpDivert → ℕ → UdpSession → List ℕ → UdpRelay → UdpRelay
unfolding swap_16
inject_reply d tick s payload r =
    let out = d.calc_checksums (reply tick s payload) (reply_address s) in
    if not r.has_handle then r else record r {
      injected = out ∷ r.injected;
      injected_count =
          if d.send_ok out.pkt out.addr then r.injected_count + 1 else r.injected_count;
    }

-- What a receive on the data socket of a session gives.
pub record Endpoint : Type 0 where
  pub addr : ℕ
  pub port : ℕ

abbrev pub same_endpoint : Endpoint → Endpoint → Bool
same_endpoint a b = a.addr == b.addr && a.port == b.port

pub data Received : Type 0 where
  failed : Received
  datagram : (from : Endpoint) (bytes : List ℕ) → Received

-- `async_recv_udp` on what arrives: a datagram of anyone but the relay is dropped. The result is the
-- first that is not, what arrives after it, and the count of the drops.
unfoldable pub recv_udp : Endpoint → List Received → ℕ → Received × (List Received × ℕ)
recv_udp relay [] drops = (failed, ([], drops))
recv_udp relay (failed ∷ later) drops = (failed, (later, drops))
recv_udp relay (datagram from bytes ∷ later) drops =
    if not (same_endpoint from relay)
    then recv_udp relay later (drops + 1)
    else (datagram from bytes, (later, drops))

-- The part of a turn of `downstream_for_session` with a frame and its session.
unfoldable pub deliver :
    UdpDivert → ℕ → Option Socks5UdpFrame → Option UdpSession → UdpRelay → UdpRelay
unfolding inject_reply
deliver d tick none s r = r
deliver d tick (some f) none r = r
deliver d tick (some f) (some s) r = inject_reply d tick s f.payload r

unfoldable pub downstream_turn : UdpDivert → ℕ → ℕ → Received → UdpRelay → UdpRelay
unfolding decode lookup deliver
downstream_turn d tick app_port failed r = r
downstream_turn d tick app_port (datagram from []) r = r
downstream_turn d tick app_port (datagram from (b ∷ bytes)) r =
    deliver d tick (decode (b ∷ bytes)) (lookup app_port r.session_table)
      (record r { downstream_count = r.downstream_count + 1 })
