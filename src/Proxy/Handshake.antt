-- ===== src/Proxy/Handshake.antt =====
-- src/proxy/socks5_async.hpp: the SOCKS5 handshake for a TCP connection (RFC 1928, CONNECT to IPv4).
use clew_proxy.Prelude.{
  ℕ, ◌+◌, ◌*◌, ◌/◌, ◌%◌, ◌^◌, ◌≤◌, ◌<◌, ◌≡◌, ◌↔◌, ◌&&◌, ◌==◌, List, [], ◌∷◌, ◌++◌, length, drop,
  arith,
}
use clew_proxy.Proxy.Stream.{
  auth_rejected, bad_version, refused, ok, Io, ◌>>=◌, ◌>>◌, check, write, read, byte,
}

abbrev pub greeting : List ℕ
greeting = 5 ∷ 1 ∷ 0 ∷ []

-- The address and the port with the most significant byte first.
unfoldable pub connect_request : ℕ → ℕ → List ℕ
connect_request dest_ip dest_port =
    5
    ∷ 1
    ∷ 0
    ∷ 1
    ∷ (dest_ip / 16777216 % 256)
    ∷ (dest_ip / 65536 % 256)
    ∷ (dest_ip / 256 % 256)
    ∷ (dest_ip % 256)
    ∷ (dest_port / 256 % 256)
    ∷ (dest_port % 256)
    ∷ []

unfoldable pub socks5_handshake : ℕ → ℕ → Io (Unit {0})
socks5_handshake dest_ip dest_port = do
  write greeting
  greeting_reply ← read 2
  check (byte greeting_reply 0 == 5 && byte greeting_reply 1 == 0) auth_rejected
  write (connect_request dest_ip dest_port)
  connect_reply ← read 10
  check (byte connect_reply 0 == 5) bad_version
  check (byte connect_reply 1 == 0) (refused (byte connect_reply 1))

-- The server accepts: twelve bytes, the first two parts of which say version 5 and success.
abbrev pub Accepts : List ℕ → Type 0
Accepts input =
    (12 ≤ length input)
    × (byte input 0 ≡ 5)
    × (byte input 1 ≡ 0)
    × (byte input 2 ≡ 5)
    × (byte input 3 ≡ 0)

-- The handshake succeeds exactly if the server sends at least twelve bytes and says version 5 and
-- success in both of its replies.
pub socks5_handshake_iff :
    (dest_ip dest_port : ℕ) (input output : List ℕ)
    → ((socks5_handshake dest_ip dest_port (record { input = input; output = output })).0 ≡ ok tt)
      ↔ Accepts input
unfolding socks5_handshake
socks5_handshake_iff i p (a ∷ b ∷ c ∷ d ∷ e ∷ f ∷ g ∷ h ∷ k ∷ l ∷ m ∷ n ∷ rest) out = ground arith
socks5_handshake_iff i p input out = ground arith

-- After a handshake that succeeds, exactly the greeting and the request were written, and exactly
-- twelve bytes were read.
pub socks5_handshake_done :
    (dest_ip dest_port : ℕ) (input output : List ℕ)
    → Accepts input
    → (socks5_handshake dest_ip dest_port (record { input = input; output = output })).1 ≡ record {
      input = drop 12 input;
      output = (output ++ greeting) ++ connect_request dest_ip dest_port;
    }
unfolding socks5_handshake
socks5_handshake_done i p (a ∷ b ∷ c ∷ d ∷ e ∷ f ∷ g ∷ h ∷ k ∷ l ∷ m ∷ n ∷ rest) out v =
    ground arith
socks5_handshake_done i p input out v = ground arith

-- What the server reads in a request: the address and the port.
abbrev pub requested : List ℕ → ℕ × ℕ
requested buf = (
  byte buf 4 * 16777216 + byte buf 5 * 65536 + byte buf 6 * 256 + byte buf 7,
  byte buf 8 * 256 + byte buf 9,
)

pub requested-connect_request :
    (dest_ip dest_port : ℕ)
    → dest_ip < 2 ^ 32
    → dest_port < 2 ^ 16
    → requested (connect_request dest_ip dest_port) ≡ (dest_ip, dest_port)
unfolding connect_request
requested-connect_request i p h k = ground arith
