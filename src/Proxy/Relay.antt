-- ===== src/Proxy/Relay.antt =====
-- src/proxy/relay.hpp: `handle_connection`, the relay of one redirected TCP connection.
--
-- The sockets are parameters: whether the peer's port can be read, and what the proxy does when it is
-- resolved and connected. The piping of the data is not modelled; it ends in any case. A posted clear
-- is a `clear_if` that the strand runs later.
use clew_proxy.Prelude.{
  ℕ, ◌≡◌, refl, ap, Bool, true, false, ◌==◌, if◌then◌else◌, Option, none, some, List, [], ◌∷◌, ℤ,
  eq_ℤ, not, ◌&&◌, arith, ◌++◌, ◌<◌, ◌^◌,
}
use clew_proxy.Prelude.Maps.{find}
use clew_proxy.PortTracker.Word.{empty, proxied, same_state, word_state, empty_word}
use clew_proxy.PortTracker.Race.{Shared, Attempt, finished, retry, clear_if}
use clew_proxy.PortTracker.Race.Outcome.{clear_if_quiet}
use clew_proxy.PortTracker.Slot.{TrackerEntry, TrackerSlot, Taken, take}
use clew_proxy.WindivertSocket.{first_word}
use clew_proxy.Proxy.Stream.{Stream, Result, ok, err}
use clew_proxy.Proxy.Handshake.{
  greeting, connect_request, socks5_handshake, Accepts, requested, requested-connect_request,
  socks5_handshake_done, socks5_handshake_iff,
}

pub record ProxyGroupConfig : Type 0 where
  pub host : List ℕ
  pub port : ℕ

-- How it goes with the proxy: resolving or connecting throws, or the bytes that it sends.
pub data Upstream : Type 0 where
  unreachable : Upstream
  connected : (replies : List ℕ) → Upstream

-- What the connection did: the clears that it posted, and the connection to the proxy.
pub record Relayed : Type 0 where
  pub posted_clears : List (ℕ × ℤ)
  pub proxy : Option (Stream × Bool)

abbrev pub untouched : Relayed
untouched = record { posted_clears = []; proxy = none }

-- 8.8.8.8.
abbrev pub clean_dns : ℕ
clean_dns = 0x08080808

-- The destination that the relay asks the proxy for.
unfoldable pub destination : TrackerEntry → ℕ
destination e = if e.remote_port == 53 then clean_dns else first_word e.remote_addr

abbrev is_ok : Result (Unit {0}) → Bool
is_ok (ok u) = true
is_ok (err e) = false

unfoldable pub tunnel : TrackerEntry → Upstream → Option (Stream × Bool)
unfolding socks5_handshake destination
tunnel e unreachable = none
tunnel e (connected replies) =
    let (r, s) =
      socks5_handshake (destination e) e.remote_port (record { input = replies; output = [] }) in
    some (s, is_ok r)

-- How the try block ends, with what it did.
pub data Tried : Type 0 where
  completed thrown : Relayed → Tried

unfoldable pub try_relay : TrackerEntry → Upstream → Relayed → Tried
unfolding tunnel
try_relay e up w = elim (tunnel e up) [
  | none ↦ thrown w
  | some (s, true) ↦ completed (record w { proxy = some (s, true) })
  | some (s, false) ↦ thrown (record w { proxy = some (s, false) })
]

-- The catch writes a line of the log.
abbrev pub caught : Tried → Relayed
caught (completed w) = w
caught (thrown w) = w

abbrev pub release_slot : ℕ → ℤ → Relayed → Relayed
release_slot src_port flow_ts w = record w {
  posted_clears = w.posted_clears ++ (src_port, flow_ts) ∷ [];
}

unfoldable pub relay_taken : ℕ → Taken → Option ProxyGroupConfig → Upstream → Relayed
unfolding try_relay
relay_taken src_port t none up = release_slot src_port t.connect_ts untouched
relay_taken src_port t (some cfg) up =
    release_slot src_port t.connect_ts (caught (try_relay t.entry up untouched))

unfoldable pub handle_connection :
    Option ℕ → (ℕ → TrackerSlot) → List (ℕ × ProxyGroupConfig) → Upstream → Relayed
unfolding take relay_taken find
handle_connection none slots groups up = untouched
handle_connection (some src_port) slots groups up = elim (take (slots src_port)) [
  | none ↦ untouched
  | some t ↦ relay_taken src_port t (find t.entry.group_id groups) up
]

-- The strand runs the clears that were posted, on the flows of that time.
abbrev ended : Attempt Bool → Shared
ended (finished w r) = w
ended (retry w) = w

unfoldable pub run_clears : List (ℕ × ℤ) → (ℕ → Shared) → ℕ → Shared
run_clears [] flows = flows
run_clears ((port, ts) ∷ cs) flows =
    run_clears cs (λ q. if q == port then ended (clear_if ts [] (flows q)) else flows q)

-- The try block posts nothing, however it ends.
try_relay_posts :
    (e : TrackerEntry) (up : Upstream) (w : Relayed)
    → (caught (try_relay e up w)).posted_clears ≡ w.posted_clears
unfolding try_relay
try_relay_posts e up w = go (tunnel e up)
  where
    go :
        (r : Option (Stream × Bool))
        → (caught (elim r [
          | none ↦ thrown w
          | some (s, true) ↦ completed (record w { proxy = some (s, true) })
          | some (s, false) ↦ thrown (record w { proxy = some (s, false) })
        ])).posted_clears
          ≡ w.posted_clears
    go none = refl
    go (some (s, true)) = refl
    go (some (s, false)) = refl

relay_taken_clears :
    (port : ℕ) (t : Taken) (cfg : Option ProxyGroupConfig) (up : Upstream)
    → (relay_taken port t cfg up).posted_clears ≡ (port, t.connect_ts) ∷ []
unfolding relay_taken
relay_taken_clears port t none up = refl
relay_taken_clears port t (some cfg) up =
    ap (λ cs. cs ++ (port, t.connect_ts) ∷ []) (try_relay_posts t.entry up untouched)

handle_connection_clears :
    (port : ℕ) (slots : ℕ → TrackerSlot) (groups : List (ℕ × ProxyGroupConfig)) (up : Upstream)
    → (handle_connection (some port) slots groups up).posted_clears ≡ (
        if same_state (word_state (slots port).word) proxied
        then (port, (slots port).connect_ts) ∷ []
        else [])
unfolding handle_connection take
handle_connection_clears port slots groups up =
    let s = slots port in
    let t : Taken = record { entry = s.entry; connect_ts = s.connect_ts } in
    ground (arith, relay_taken_clears port t (find s.entry.group_id groups) up)

-- The slot has the timestamp of the flow, and is not empty.
abbrev pub is_of_flow : ℤ → TrackerSlot → Bool
is_of_flow ts s = not (same_state (word_state s.word) empty) && eq_ℤ s.connect_ts ts

-- When a connection from a port is over, however the group, the proxy and the handshake turned out,
-- and the strand runs the clears that it posted, the slot of the port is emptied if it was proxied
-- when the connection was taken, is not empty and still has the timestamp that it had then; a slot
-- with another timestamp stays as it is, as do the slots of all other ports.
pub handle_connection_releases :
    (port : ℕ) (slots : ℕ → TrackerSlot) (groups : List (ℕ × ProxyGroupConfig)) (up : Upstream)
    (flows : ℕ → Shared) (q : ℕ)
    → let posted = (handle_connection (some port) slots groups up).posted_clears in
      let s = (flows q).slot in
      (run_clears posted flows q).slot ≡ (
        if (q == port)
          && same_state (word_state (slots port).word) proxied
          && is_of_flow (slots port).connect_ts s
        then record s { word = empty_word }
        else s)
unfolding run_clears
handle_connection_releases port slots groups up flows q = ground (
  arith,
  handle_connection_clears port slots groups up,
  clear_if_quiet (slots port).connect_ts (flows q),
)

-- A proxied connection whose group is known and whose proxy accepts sends the greeting and one
-- request, which names the port of the original destination and its address, or 8.8.8.8 for port
-- 53; the first address word has 32 bits and the port 16.
pub handle_connection_asks :
    (port : ℕ) (slots : ℕ → TrackerSlot) (groups : List (ℕ × ProxyGroupConfig))
    (cfg : ProxyGroupConfig) (replies : List ℕ)
    → let e = (slots port).entry in
      same_state (word_state (slots port).word) proxied ≡ true
      → find e.group_id groups ≡ some cfg
      → Accepts replies
      → first_word e.remote_addr < 2 ^ 32
      → e.remote_port < 2 ^ 16
      → (s : Stream) × (request : List ℕ) × ((handle_connection
            (some port)
            slots
            groups
            (connected replies)).proxy
          ≡ some (s, true))
        × (s.output ≡ greeting ++ request)
        × (requested request
            ≡ (if e.remote_port == 53 then clean_dns else first_word e.remote_addr, e.remote_port))
unfolding handle_connection take relay_taken try_relay tunnel destination
handle_connection_asks port slots groups cfg replies p g a h k =
    let e = (slots port).entry in
    let d = destination e in
    let r = socks5_handshake d e.remote_port (record { input = replies; output = [] }) in
    let good = (socks5_handshake_iff d e.remote_port replies []).1 a in
    let ended = socks5_handshake_done d e.remote_port replies [] a in
    let dns = requested-connect_request clean_dns e.remote_port (omega arith) k in
    let straight = requested-connect_request (first_word e.remote_addr) e.remote_port h k in
    (
      r.1,
      connect_request d e.remote_port,
      ground (arith, good),
      ap (λ s. s.output) ended,
      ground (arith, dns, straight),
    )
