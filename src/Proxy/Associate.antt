-- ===== src/Proxy/Associate.antt =====
-- src/udp/socks5_udp_session.hpp: `establish`, the handshake of a UDP association (RFC 1928), and the
-- watchdog that it starts on the control connection.
--
-- `proxy_v4` is what the library makes of the proxy's host name as a dotted quad; a name has none.
use clew_proxy.Prelude.{
  ℕ, Bool, true, false, ◌+◌, ◌*◌, ◌/◌, ◌%◌, ◌^◌, ◌<◌, ◌≡◌, ◌&&◌, ◌==◌, if◌then◌else◌, Option, none,
  some, List, [], ◌∷◌, ◌++◌, arith,
}
use clew_proxy.Proxy.Stream.{
  Stream, Result, auth_rejected, refused, unsupported_address, bad_host, ok, err, Io, ◌>>=◌, ◌>>◌,
  pure, fail, check, write, read, byte,
}
use clew_proxy.Proxy.Handshake.{greeting}
use clew_proxy.Udp.Relay.{Endpoint}

abbrev pub associate_request : List ℕ
associate_request = 5 ∷ 3 ∷ 0 ∷ 1 ∷ 0 ∷ 0 ∷ 0 ∷ 0 ∷ 0 ∷ 0 ∷ []

abbrev pub drop_one : List ℕ → List ℕ
drop_one [] = []
drop_one (c ∷ s) = s

abbrev pub make_address : Option ℕ → Io ℕ
make_address none = fail bad_host
make_address (some a) = pure a

abbrev pub address_of : List ℕ → ℕ
address_of bnd = byte bnd 0 * 16777216 + byte bnd 1 * 65536 + byte bnd 2 * 256 + byte bnd 3

unfoldable pub establish_v4 : Option ℕ → Io Endpoint
establish_v4 proxy_v4 = do
  bnd ← read 6
  addr ← if address_of bnd == 0 then make_address proxy_v4 else pure (address_of bnd)
  pure (record { addr = addr; port = byte bnd 4 * 256 + byte bnd 5 })

unfoldable pub establish_v6 : Option ℕ → Io Endpoint
establish_v6 proxy_v4 = do
  bnd ← read 18
  addr ← make_address proxy_v4
  pure (record { addr = addr; port = byte bnd 16 * 256 + byte bnd 17 })

unfoldable pub establish_bound : Option ℕ → ℕ → Io Endpoint
unfolding establish_v4 establish_v6
establish_bound proxy_v4 atyp =
    if atyp == 1
    then establish_v4 proxy_v4
    else if atyp == 4
    then establish_v6 proxy_v4
    else fail unsupported_address

-- The handshake, whose result is the endpoint of the relay.
unfoldable pub associate : Option ℕ → Io Endpoint
unfolding establish_bound
associate proxy_v4 = do
  write greeting
  auth_resp ← read 2
  check (byte auth_resp 0 == 5 && byte auth_resp 1 == 0) auth_rejected
  write associate_request
  resp ← read 4
  check (byte resp 1 == 0) (refused (byte resp 1))
  establish_bound proxy_v4 (byte resp 3)

-- The session and its control connection.
pub record Association : Type 0 where
  pub relay_endpoint : Option Endpoint
  pub alive : Bool
  pub control : Stream

abbrev pub established : Result Endpoint × Stream → Association × Bool
established (ok e, s) = (record { relay_endpoint = some e; alive = true; control = s }, true)
established (err e, s) = (record { relay_endpoint = none; alive = false; control = s }, false)

-- `establish` once the connection is made; after a success the watchdog waits for one byte.
unfoldable pub establish : Option ℕ → Stream → Association × Bool
unfolding associate
establish proxy_v4 s = established (associate proxy_v4 s)

-- The watchdog's read is over, with a byte or with an error: the session is dead.
unfoldable pub watchdog_read : Association → Association
watchdog_read a =
    let s = a.control in record a { alive = false; control = record s { input = drop_one s.input } }

-- What a server sends that grants an association at an IPv4 address.
abbrev pub grant : ℕ → ℕ → List ℕ → List ℕ
grant addr port later =
    5
    ∷ 0
    ∷ 5
    ∷ 0
    ∷ 0
    ∷ 1
    ∷ (addr / 16777216 % 256)
    ∷ (addr / 65536 % 256)
    ∷ (addr / 256 % 256)
    ∷ (addr % 256)
    ∷ (port / 256 % 256)
    ∷ (port % 256)
    ∷ later

-- A server that grants an association at an address of 32 bits other than 0.0.0.0 and a port of 16
-- bits is understood: `establish` answers `true`, the session is alive with that address and port as
-- its relay endpoint, the greeting and the request were written and the grant was read, no byte more.
-- The watchdog's read then takes one byte at most, whatever the server sends, and the session is dead.
pub establish-grant :
    (proxy_v4 : Option ℕ) (addr port : ℕ) (later output : List ℕ)
    → 0 < addr
    → addr < 2 ^ 32
    → port < 2 ^ 16
    → let s : Stream = record { input = grant addr port later; output = output } in
      let (a, answer) = establish proxy_v4 s in
      (answer ≡ true)
      × (a ≡ record {
        relay_endpoint = some (record { addr = addr; port = port });
        alive = true;
        control = record { input = later; output = (output ++ greeting) ++ associate_request };
      })
      × ((watchdog_read a).alive ≡ false)
      × ((watchdog_read a).control.input ≡ drop_one later)
unfolding establish associate establish_bound establish_v4 watchdog_read
establish-grant proxy_v4 addr port later output z h k = ground arith

-- A server that grants an association at 0.0.0.0, which stands for its own address, is refused if the
-- proxy is configured by a name that is no dotted quad: the session is not established, although
-- the name was resolved for the control connection.
pub establish-grant_any :
    (port : ℕ) (later output : List ℕ)
    → port < 2 ^ 16
    → (establish none (record { input = grant 0 port later; output = output })).1 ≡ false
unfolding establish associate establish_bound establish_v4
establish-grant_any port later output k = ground arith
