-- ===== src/Udp/Network.antt =====
-- src/udp/windivert_network_udp.hpp: a turn of the UDP worker's loop on one received packet.
--
-- `racing` are the policy tables that the strand publishes during the turn, `now` the steady clock.
-- Sent packets are logged, the newest first.
pub mod Fate
use clew_proxy.Prelude.{
  ℕ, ◌+◌, Bool, true, false, not, if◌then◌else◌, Option, none, some, List, [], ◌∷◌,
}
use clew_proxy.Rules.TrafficFilter.{IpExcludeReason, nothing}
use clew_proxy.Rules.PolicyTable.{PolicyTable, PolicyPublisher, PolicyReader, reader_evaluate}
use clew_proxy.Udp.Packet.{UdpPacket, UdpAddress, UdpSent, UdpDivert, swap_16, swap_32}
use clew_proxy.Udp.PortTracker.{UdpPortTracker, UdpTrackerEntry, get}
use clew_proxy.Udp.SessionTable.{UdpSession, UdpSessionTable, upsert}

pub record UdpWorker : Type 0 where
  pub tracker : UdpPortTracker
  pub relay_port : ℕ
  pub session_table : UdpSessionTable
  pub policies : PolicyPublisher
  pub reader : PolicyReader
  pub reflect_count : ℕ
  pub pass_count : ℕ
  pub sent : List UdpSent

-- The session that is saved before the packet is changed.
abbrev pub session_of : ℕ → UdpPacket → UdpAddress → UdpTrackerEntry → UdpSession
session_of now pkt addr te = record {
  orig_dst_addr = pkt.dst_addr;
  orig_dst_port = pkt.dst_port;
  app_src_addr = pkt.src_addr;
  app_src_port = swap_16 pkt.src_port;
  pid = te.pid;
  group_id = te.group_id;
  ifidx = addr.ifidx;
  subifidx = addr.subifidx;
  last_active = now;
}

abbrev pub reflected : UdpDivert → ℕ → UdpPacket → UdpAddress → UdpSent
reflected d relay_port pkt addr =
    d.calc_checksums
      (record pkt {
        src_addr = pkt.dst_addr;
        dst_addr = pkt.src_addr;
        dst_port = swap_16 relay_port;
      })
      (record addr { outbound = false })

abbrev pub untouched : UdpPacket → UdpAddress → UdpSent
untouched pkt addr = record { pkt = pkt; addr = addr }

abbrev pub pass : UdpPacket → UdpAddress → UdpWorker → UdpWorker
pass pkt addr w = record w { sent = untouched pkt addr ∷ w.sent; pass_count = w.pass_count + 1 }

unfoldable pub reflect :
    UdpDivert → ℕ → UdpPacket → UdpAddress → UdpTrackerEntry → UdpWorker → UdpWorker
unfolding upsert swap_16
reflect d now pkt addr te w =
    let out = reflected d w.relay_port pkt addr in
    record w {
      session_table = upsert (swap_16 pkt.src_port) (session_of now pkt addr te) w.session_table;
      sent = out ∷ w.sent;
      reflect_count = if d.send_ok out.pkt out.addr then w.reflect_count + 1 else w.reflect_count;
    }

-- The policy of a tracked packet, and the worker with its reader's new view.
abbrev pub ask :
    List PolicyTable → UdpPacket → UdpTrackerEntry → UdpWorker → IpExcludeReason × UdpWorker
ask racing pkt te w =
    let (reason, (policies, reader)) =
      reader_evaluate racing te.policy_id (swap_32 pkt.dst_addr) (w.policies, w.reader) in
    (reason, record w { policies = policies; reader = reader })

unfoldable pub by_reason :
    UdpDivert
    → ℕ
    → UdpPacket
    → UdpAddress
    → UdpTrackerEntry
    → IpExcludeReason
    → UdpWorker
    → UdpWorker
unfolding reflect
by_reason d now pkt addr te nothing w = reflect d now pkt addr te w
by_reason d now pkt addr te excluded w = pass pkt addr w

unfoldable pub worker_turn :
    UdpDivert → ℕ → List PolicyTable → UdpPacket → UdpAddress → UdpWorker → UdpWorker
unfolding get by_reason swap_16 swap_32
worker_turn d now racing pkt addr w =
    if not pkt.parsed
    then record w { sent = untouched pkt addr ∷ w.sent }
    else elim (get (swap_16 pkt.src_port) w.tracker) [
      | none ↦ pass pkt addr w
      | some te ↦
          let (reason, asked) = ask racing pkt te w in by_reason d now pkt addr te reason asked
    ]
