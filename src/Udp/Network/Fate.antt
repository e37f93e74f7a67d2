-- ===== src/Udp/Network/Fate.antt =====
-- src/udp/windivert_network_udp.hpp: what becomes of a packet.
use clew_proxy.Prelude.{
  ℕ, ◌≡◌, refl, sym, ◌⊎◌, inl, inr, true, some, List, ◌∷◌, arith, Option-cases, Bool-cases,
}
use mathlib.Core.Path.{subst}
use clew_proxy.Rules.TrafficFilter.{IpExcludeReason, nothing, global, rule}
use clew_proxy.Rules.PolicyTable.{PolicyTable}
use clew_proxy.Udp.Packet.{UdpPacket, UdpAddress, UdpDivert, swap_16}
use clew_proxy.Udp.PortTracker.{UdpTrackerEntry, get}
use clew_proxy.Udp.SessionTable.{lookup}
use clew_proxy.Udp.SessionTable.Laws.{lookup-upsert}
use clew_proxy.Udp.Network.{
  UdpWorker, session_of, reflected, untouched, ask, by_reason, reflect, worker_turn,
}

-- The packet is tracked under an entry whose policy lets its destination through.
abbrev pub IsTaken : List PolicyTable → UdpPacket → UdpWorker → UdpTrackerEntry → Type 0
IsTaken racing pkt w te =
    (pkt.parsed ≡ true)
    × (get (swap_16 pkt.src_port) w.tracker ≡ some te)
    × ((ask racing pkt te w).0 ≡ nothing)

-- A taken packet is reflected to the relay and its session is recorded; any other is sent unchanged
-- and the sessions stay.
abbrev pub Fate :
    UdpDivert → ℕ → List PolicyTable → UdpPacket → UdpAddress → UdpWorker → UdpWorker → Type 0
Fate d now racing pkt addr w v =
    ((te : UdpTrackerEntry) × IsTaken racing pkt w te
      × (v.sent ≡ reflected d w.relay_port pkt addr ∷ w.sent)
      × (lookup (swap_16 pkt.src_port) v.session_table ≡ some (session_of now pkt addr te)))
    ⊎ (((te : UdpTrackerEntry) → ¬ IsTaken racing pkt w te)
        × (v.sent ≡ untouched pkt addr ∷ w.sent)
        × (v.session_table ≡ w.session_table))

by_reason-Fate :
    (d : UdpDivert) (now : ℕ) (racing : List PolicyTable) (pkt : UdpPacket) (addr : UdpAddress)
    (te : UdpTrackerEntry) (w : UdpWorker) (r : IpExcludeReason)
    → (ask racing pkt te w).0 ≡ r
    → pkt.parsed ≡ true
    → get (swap_16 pkt.src_port) w.tracker ≡ some te
    → Fate d now racing pkt addr w (by_reason d now pkt addr te r (ask racing pkt te w).1)
unfolding by_reason reflect
by_reason-Fate d now racing pkt addr te w nothing e p g =
    let port = swap_16 pkt.src_port in
    inl (
      te,
      (p, g, e),
      refl,
      ground (arith, lookup-upsert port port (session_of now pkt addr te) w.session_table),
    )
by_reason-Fate d now racing pkt addr te w global e p g = inr (λ te' t. ground arith, refl, refl)
by_reason-Fate d now racing pkt addr te w rule e p g = inr (λ te' t. ground arith, refl, refl)

-- Each packet that a turn receives is sent exactly once. It is reflected to the relay, with its
-- session recorded under the source port, exactly if it was parsed, its port is tracked and the
-- policy of that entry excludes nothing about its destination; else it is sent as it came and the
-- sessions stay as they were.
pub worker_turn-Fate :
    (d : UdpDivert) (now : ℕ) (racing : List PolicyTable) (pkt : UdpPacket) (addr : UdpAddress)
    (w : UdpWorker)
    → Fate d now racing pkt addr w (worker_turn d now racing pkt addr w)
unfolding worker_turn
worker_turn-Fate d now racing pkt addr w = elim (Bool-cases pkt.parsed) [
  | inr n ↦ inr (λ te t. ground arith, ground arith, ground arith)
  | inl p ↦ elim (Option-cases (get (swap_16 pkt.src_port) w.tracker)) [
    | inl n ↦ inr (λ te t. ground arith, ground arith, ground arith)
    | inr (te, g) ↦
        let (reason, asked) = ask racing pkt te w in
        let turn : worker_turn d now racing pkt addr w ≡ by_reason d now pkt addr te reason asked =
          ground arith in
        subst (Fate d now racing pkt addr w) (sym turn)
          (by_reason-Fate d now racing pkt addr te w reason refl p g)
  ]
]
