-- ===== src/Udp/Socket.antt =====
-- src/udp/windivert_socket_udp.hpp: the UDP SOCKET worker, which publishes the ports of processes whose
-- datagrams go to the relay. The resolver of unknown PIDs is a parameter, as it is in the source.
pub mod Policy
use clew_proxy.Prelude.{
  ℕ, ◌+◌, ◌%◌, ◌^◌, Bool, true, false, not, ◌&&◌, if◌then◌else◌, ◌==◌, Option, none, some, List,
}
use clew_proxy.FlatTree.Entry.{FlatTree, find_by_pid, entry_at, invalid_idx}
use clew_proxy.Rules.TrafficFilter.{IpExcludeReason, nothing}
use clew_proxy.Rules.Engine.{RuleEngine, udp_text}
use clew_proxy.Rules.Engine.Policy.{ip_exclude_reason, policy_id_for, should_proxy_protocol}
use clew_proxy.WindivertSocket.{SocketAddress, Resolver, first_word, port_of}
use clew_proxy.Udp.PortTracker.{UdpPortTracker, UdpTrackerEntry, put, clear, is_active}

pub data UdpSocketEvent : Type 0 where
  bind connect close other : SocketAddress → UdpSocketEvent

pub record UdpSocket : Type 0 where
  pub tracker : UdpPortTracker
  pub tree : FlatTree
  pub rules : RuleEngine
  pub event_count : ℕ
  pub match_count : ℕ

-- The call of the resolver, if there is one.
unfoldable pub resolved : Resolver → ℕ → UdpSocket → Bool × (FlatTree × RuleEngine)
resolved none pid w = (true, (w.tree, w.rules))
resolved (some resolve) pid w = resolve pid (w.tree, w.rules)

abbrev pub entry_for : ℕ → UdpSocket → UdpTrackerEntry
entry_for pid w = record {
  group_id = (entry_at (find_by_pid pid w.tree) w.tree.entries).group_id;
  pid = pid;
  policy_id = policy_id_for w.tree pid w.rules;
}

unfoldable pub publish_entry : SocketAddress → UdpSocket → UdpSocket
unfolding put find_by_pid policy_id_for
publish_entry a w = record w {
  tracker = put (port_of a.local_port) (entry_for a.pid w) w.tracker;
  match_count = w.match_count + 1;
}

abbrev pub is_nothing : IpExcludeReason → Bool
is_nothing nothing = true
is_nothing excluded = false

-- The checks of a CONNECT before its entry is written.
unfoldable pub connect_entry : SocketAddress → UdpSocket → UdpSocket
unfolding ip_exclude_reason clear is_active publish_entry
connect_entry a w =
    let port = port_of a.local_port in
    if not (is_nothing (ip_exclude_reason w.tree a.pid (first_word a.remote_addr) w.rules))
    then record w { tracker = clear port w.tracker }
    else if is_active port w.tracker
    then w
    else publish_entry a w

-- The process is in the tree and proxied for UDP.
abbrev pub is_wanted : ℕ → UdpSocket → Bool
is_wanted pid w =
    should_proxy_protocol w.tree pid udp_text w.rules && not (find_by_pid pid w.tree == invalid_idx)

-- The worker when the resolver has returned.
abbrev pub counted : Resolver → SocketAddress → UdpSocket → Bool × UdpSocket
counted resolve a w =
    let (known, (tree, rules)) = resolved resolve a.pid w in
    (known, record w { tree = tree; rules = rules; event_count = w.event_count + 1 })

unfoldable pub on_socket_event : Resolver → UdpSocketEvent → UdpSocket → UdpSocket
unfolding clear connect_entry publish_entry resolved should_proxy_protocol find_by_pid
on_socket_event resolve (bind a) w =
    let (known, v) = counted resolve a w in
    if not known then v else if not (is_wanted a.pid v) then v else publish_entry a v
on_socket_event resolve (connect a) w =
    let (known, v) = counted resolve a w in
    if not known then v else if not (is_wanted a.pid v) then v else connect_entry a v
on_socket_event resolve (close a) w = record w { tracker = clear (port_of a.local_port) w.tracker }
on_socket_event resolve (other a) w = w
