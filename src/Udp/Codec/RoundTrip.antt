-- ===== src/Udp/Codec/RoundTrip.antt =====
-- src/udp/socks5_udp_codec.hpp: decoding inverts encoding, both ways.
use clew_proxy.Prelude.{ℕ, ◌^◌, ◌<◌, ◌≡◌, ◌↔◌, none, some, List, [], ◌∷◌, length, arith, ◌≢◌, ◌⊎◌}
use clew_proxy.Udp.Codec.{Socks5UdpFrame, encode, byte, decode}

-- Decoding an encoded datagram, whose address has 32 bits and whose port has 16, gives the address,
-- the port and the payload back.
pub decode-encode :
    (ip port : ℕ) (payload : List ℕ)
    → ip < 2 ^ 32
    → port < 2 ^ 16
    → decode (encode ip port payload)
      ≡ some (record { addr_net = ip; port_host = port; payload = payload })
unfolding decode encode
decode-encode ip port payload h k = ground arith

abbrev pub AllBytes : List ℕ → Type 0
AllBytes [] = Unit
AllBytes (b ∷ bs) = (b < 256) × AllBytes bs

-- A frame of bytes whose two reserved bytes are zero is the encoding of what `decode` reads in it.
pub encode-decode :
    (buf : List ℕ) (f : Socks5UdpFrame)
    → AllBytes buf
    → byte buf 0 ≡ 0
    → byte buf 1 ≡ 0
    → decode buf ≡ some f
    → encode f.addr_net f.port_host f.payload ≡ buf
unfolding decode encode
encode-decode (r₁ ∷ r₂ ∷ g ∷ t ∷ a ∷ b ∷ c ∷ d ∷ p ∷ q ∷ rest) f h z₁ z₂ e = ground arith
encode-decode buf f h z₁ z₂ e = ground arith

-- `decode` refuses a buffer exactly when it is shorter than a header, is a fragment or has an address
-- that is not IPv4.
pub decode-none_iff :
    (buf : List ℕ) → (decode buf ≡ none) ↔ ((length buf < 10) ⊎ (byte buf 2 ≢ 0) ⊎ (byte buf 3 ≢ 1))
unfolding decode
decode-none_iff buf = (λ h. ground arith, λ h. ground arith)
