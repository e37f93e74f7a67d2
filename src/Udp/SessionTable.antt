-- ===== src/Udp/SessionTable.antt =====
-- src/udp/udp_session_table.hpp: the sessions by application port.
--
-- Times are readings of the steady clock in milliseconds; the map holds each port at most once,
-- since `upsert` erases the port before it adds it.
pub mod Laws
use clew_proxy.Prelude.{
  ℕ, zero, suc, ◌+◌, ◌-◌, ◌*◌, ◌/◌, Bool, true, false, not, if◌then◌else◌, ltb, ◌==◌, Option, none,
  some, List, [], ◌∷◌, length,
}

pub record UdpSession : Type 0 where
  pub orig_dst_addr : ℕ
  pub orig_dst_port : ℕ
  pub app_src_addr : ℕ
  pub app_src_port : ℕ
  pub pid : ℕ
  pub group_id : ℕ
  pub ifidx : ℕ
  pub subifidx : ℕ
  pub last_active : ℕ

abbrev pub UdpSessionTable : Type 0
UdpSessionTable = List (ℕ × UdpSession)

-- `htons(53)` on a little-endian machine.
abbrev pub dns_port : ℕ
dns_port = 53 * 256

unfoldable pub remove : ℕ → UdpSessionTable → UdpSessionTable
remove port [] = []
remove port ((p, s) ∷ t) = let rest = remove port t in if p == port then rest else (p, s) ∷ rest

unfoldable pub upsert : ℕ → UdpSession → UdpSessionTable → UdpSessionTable
unfolding remove
upsert port s t = (port, s) ∷ remove port t

unfoldable pub lookup : ℕ → UdpSessionTable → Option UdpSession
lookup port [] = none
lookup port ((p, s) ∷ t) = let rest = lookup port t in if p == port then some s else rest

unfoldable pub touch : ℕ → ℕ → UdpSessionTable → UdpSessionTable
touch now port [] = []
touch now port ((p, s) ∷ t) =
    let rest = touch now port t in
    if p == port then (p, record s { last_active = now }) ∷ t else (p, s) ∷ rest

-- The age in whole seconds and the timeout, as `cleanup_expired` compares them.
unfoldable pub is_expired : ℕ → ℕ → UdpSession → Bool
is_expired now timeout s =
    let age = (now - s.last_active) / 1000 in
    let effective_timeout = if s.orig_dst_port == dns_port then 10 else timeout in
    ltb effective_timeout age

-- `std::erase_if` with its count.
unfoldable pub cleanup_expired : ℕ → ℕ → UdpSessionTable → UdpSessionTable × ℕ
unfolding is_expired
cleanup_expired now timeout [] = ([], 0)
cleanup_expired now timeout ((p, s) ∷ t) =
    let rest = cleanup_expired now timeout t in
    if is_expired now timeout s then (rest.0, rest.1 + 1) else ((p, s) ∷ rest.0, rest.1)

unfoldable pub snapshot : UdpSessionTable → List UdpSession
snapshot [] = []
snapshot ((p, s) ∷ t) = s ∷ snapshot t

unfoldable pub size : UdpSessionTable → ℕ
size t = length t
