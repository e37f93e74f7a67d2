-- ===== src/Examples/Datagrams.antt =====
-- The UDP workers, the session manager and the relay on concrete datagrams.
use clew_proxy.Prelude.{
  ℕ, ◌^◌, ◌<◌, ◌≡◌, ◌⊎◌, refl, Bool, true, false, not, if◌then◌else◌, Option, none, some, List, [],
  ◌∷◌, arith,
}
use clew_proxy.Prelude.Maps.{find}
use clew_proxy.FlatTree.Entry.{has_flag, find_by_pid, lookup, is_proxied}
use clew_proxy.Rules.Engine.{set_auto_rules}
use clew_proxy.Rules.Engine.Policy.{should_proxy_protocol}
use clew_proxy.Rules.PolicyTable.{fresh_publisher, refresh}
use clew_proxy.WindivertSocket.{SocketAddress}
use clew_proxy.Udp.Packet.{UdpPacket, UdpAddress, UdpDivert, swap_16}
use clew_proxy.Udp.PortTracker.{UdpTrackerEntry, fresh_tracker, put}
use clew_proxy.Udp.Codec.{encode, decode}
use clew_proxy.Udp.Network.{UdpWorker, worker_turn, session_of}
use clew_proxy.Udp.Network.Fate.{Fate, worker_turn-Fate}
use clew_proxy.Udp.Socket.{UdpSocket, bind, connect, resolved, counted, on_socket_event}
use clew_proxy.Udp.Socket.Policy.{is_admitted, Publishes, Connects, bind_lem, connect_lem}
use clew_proxy.Udp.Manager.{Socks5UdpManager, fresh_manager, get_or_create, create}
use clew_proxy.Udp.Manager.Ownership.{
  IsOwned, ManagerCall, gets, removes, loses, stops, call_all, call_all-IsOwned,
}
use clew_proxy.Udp.Relay.{UdpRelay, datagram, upstream_turn, downstream_turn, reply_address}
use clew_proxy.Udp.Relay.Transparency.{upstream_turn-decode, downstream_turn-reply}
use clew_proxy.Udp.SessionTable
use clew_proxy.Examples.Data.{small_tree, engine, ready_engine, ready_engine-IsReady}

abbrev library : UdpDivert
library = record { calc_checksums = λ p a. record { pkt = p; addr = a }; send_ok = λ p a. true }

-- From 10.0.0.1:40000 to 8.8.8.8:53, as the fields lie in memory.
abbrev query : UdpPacket
query = record {
  parsed = true;
  src_addr = 0x0100000A;
  dst_addr = 0x08080808;
  src_port = 0x409C;
  dst_port = 0x3500;
  payload = 7 ∷ 8 ∷ [];
  rest = [];
}

abbrev interface : UdpAddress
interface = record { outbound = true; ifidx = 4; subifidx = 0; other = [] }

abbrev tracked : UdpTrackerEntry
tracked = record { group_id = 3; pid = 10; policy_id = 0 }

abbrev udp_worker : UdpWorker
udp_worker = record {
  tracker = put 40000 tracked fresh_tracker;
  relay_port = 5000;
  session_table = [];
  policies = fresh_publisher;
  reader = refresh fresh_publisher;
  reflect_count = 0;
  pass_count = 0;
  sent = [];
}

worker_turn-Fate_example :
    Fate library 9 [] query interface udp_worker
      (worker_turn library 9 [] query interface udp_worker)
worker_turn-Fate_example = worker_turn-Fate library 9 [] query interface udp_worker

abbrev groups : List (ℕ × clew_proxy.Udp.Manager.UdpProxyGroupConfig)
groups = (3, record { host = []; port = 1080 }) ∷ []

fresh-IsOwned : IsOwned (fresh_manager groups)
unfolding find
fresh-IsOwned = record {
  bounded = λ p i h. ground arith;
  single = λ p q i h k. ground arith;
  held = λ i a. absurd (ground arith);
}

abbrev calls : List ManagerCall
calls =
    gets true 40000 3 ∷ gets true 40001 3 ∷ loses 0 ∷ gets true 40000 3 ∷ removes 40001 ∷ stops ∷ []

call_all-IsOwned_example : IsOwned (call_all calls (fresh_manager groups))
call_all-IsOwned_example = call_all-IsOwned calls (fresh_manager groups) fresh-IsOwned

abbrev relay : UdpRelay
relay = record {
  session_table = (40000, session_of 9 query interface tracked) ∷ [];
  socks5 = fresh_manager groups;
  has_handle = true;
  stopped = false;
  running = true;
  session_idle_timeout = 120;
  upstream_count = 0;
  downstream_count = 0;
  injected_count = 0;
  frames = [];
  injected = [];
}

upstream_turn-decode_example :
    (frame : List ℕ) × ((upstream_turn true true 12 (swap_16 0x409C) (7 ∷ 8 ∷ []) relay).frames
      ≡ (0, frame) ∷ [])
    × (decode frame
        ≡ some (record { addr_net = 0x08080808; port_host = swap_16 0x3500; payload = 7 ∷ 8 ∷ [] }))
unfolding swap_16 get_or_create create find clew_proxy.Udp.SessionTable.lookup
upstream_turn-decode_example =
    upstream_turn-decode true 9 12 0 query interface tracked relay (omega arith) refl refl refl

downstream_turn-reply_example :
    let after =
      downstream_turn library 1
        (swap_16 0x409C)
        (datagram (record { addr = 1; port = 2 }) (encode 0x08080808 53 (9 ∷ [])))
        relay in
    (answer : UdpPacket) × (after.injected
      ≡ library.calc_checksums answer (reply_address (session_of 9 query interface tracked)) ∷ [])
    × (answer.src_addr ≡ 0x08080808)
    × (answer.src_port ≡ 0x3500)
    × (answer.dst_addr ≡ 0x0100000A)
    × (answer.dst_port ≡ 0x409C)
    × (answer.payload ≡ 9 ∷ [])
unfolding swap_16 clew_proxy.Udp.SessionTable.lookup
downstream_turn-reply_example =
    downstream_turn-reply library 1 9 query interface tracked (record { addr = 1; port = 2 })
      0x08080808 53 (9 ∷ []) relay refl (omega arith) (omega arith) (omega arith) refl

-- Process 10 is hijacked by hand, so it is proxied for UDP whatever the rules say.
abbrev udp_socket : UdpSocket
udp_socket = record {
  tracker = fresh_tracker;
  tree = small_tree;
  rules = engine;
  event_count = 0;
  match_count = 0;
}

abbrev bound : SocketAddress
bound = record {
  pid = 10;
  local_port = 40000;
  remote_port = 53;
  remote_addr = 0x08080808 ∷ [];
  timestamp = clew_proxy.Prelude.pos 7;
}

abbrev ready_socket : UdpSocket
ready_socket = record udp_socket { rules = ready_engine }

connect_lem_example :
    let after = (on_socket_event none (connect bound) ready_socket).tracker in
    ((is_admitted none bound ready_socket ≡ true)
      × Connects bound (counted none bound ready_socket).1 fresh_tracker after)
    ⊎ ((is_admitted none bound ready_socket ≡ false) × (after ≡ fresh_tracker))
unfolding resolved set_auto_rules
connect_lem_example = connect_lem none bound ready_socket ready_engine-IsReady

bind_lem_example :
    let after = (on_socket_event none (bind bound) ready_socket).tracker in
    ((is_admitted none bound ready_socket ≡ true)
      × Publishes bound (counted none bound ready_socket).1 fresh_tracker after)
    ⊎ ((is_admitted none bound ready_socket ≡ false) × (after ≡ fresh_tracker))
unfolding resolved set_auto_rules
bind_lem_example = bind_lem none bound ready_socket ready_engine-IsReady

admitted_example : is_admitted none bound ready_socket ≡ true
unfolding resolved should_proxy_protocol find_by_pid lookup is_proxied has_flag
admitted_example = refl
