-- ===== src/Udp/Codec.antt =====
-- src/udp/socks5_udp_codec.hpp: SOCKS5 UDP frames (RFC 1928, section 7). A buffer is the list of its
-- bytes; a `uint32_t` in network order lies in memory with its least significant byte first (x86).
pub mod RoundTrip
use clew_proxy.Prelude.{
  ℕ, ◌+◌, ◌*◌, ◌/◌, ◌%◌, ◌^◌, Bool, if◌then◌else◌, ltb, ◌==◌, not, Option, none, some, List, [],
  ◌∷◌, ◌++◌, length, get_or, drop,
}

pub record Socks5UdpFrame : Type 0 where
  pub addr_net : ℕ
  pub port_host : ℕ
  pub payload : List ℕ

-- The four bytes of a `uint32_t` in memory, and back (`memcpy`).
abbrev pub bytes_of : ℕ → List ℕ
bytes_of n = n % 256 ∷ (n / 256 % 256) ∷ (n / 65536 % 256) ∷ (n / 16777216 % 256) ∷ []

abbrev pub of_bytes : ℕ → ℕ → ℕ → ℕ → ℕ
of_bytes a b c d = a + b * 256 + c * 65536 + d * 16777216

unfoldable pub encode : ℕ → ℕ → List ℕ → List ℕ
encode dst_ip_net dst_port_host payload =
    0
    ∷ 0
    ∷ 0
    ∷ 1
    ∷ (bytes_of dst_ip_net ++ (dst_port_host / 256 % 256) ∷ (dst_port_host % 256) ∷ payload)

abbrev pub byte : List ℕ → ℕ → ℕ
byte buf i = get_or buf i 0

-- The three branches on other address types all return nothing.
unfoldable pub decode : List ℕ → Option Socks5UdpFrame
decode buf =
    if ltb (length buf) 10
    then none
    else if not (byte buf 2 == 0)
    then none
    else if byte buf 3 == 1
    then some (record {
      addr_net = of_bytes (byte buf 4) (byte buf 5) (byte buf 6) (byte buf 7);
      port_host = byte buf 8 * 256 % 2 ^ 16 + byte buf 9;
      payload = drop 10 buf;
    })
    else none
