-- ===== src/Lib.antt =====
-- clew_proxy: a model of the core of clew, a transparent proxy for Windows that redirects the
-- connections of chosen processes, and theorems about it.
--
-- The program. WinDivert hands every outbound packet to the network workers and every CONNECT and
-- CLOSE to the strand, which runs the rule engine over the process tree. A worker looks at the slot
-- of the packet's source port: a decided slot says to reflect the packet to the local acceptor or to
-- let it pass; on an undecided one the worker parks the SYN in a pool until the strand publishes the
-- decision or the watchdog gives up. The injector thread sends what was parked. Published exclude
-- policies reach the workers as an immutable table.
--
-- The files and the code:
--   PortTracker.*       src/core/port_tracker.hpp. Word: pack_word and the accessors. Slot: one slot
--                       and the operations on it. Race: publish, on_close and clear_if, whose loops
--                       are given, round by round, the steps that other threads take between their
--                       load and their exchange. Table: PortTracker and sweep_idle.
--   SynParker.*         src/core/syn_parker.hpp. Packet: reflect_outbound_packet. Pool: syn_parker's
--                       pool, alloc, free, park. Injector: release, drain_queue, sweep,
--                       release_parked and the turns of injector_loop.
--   WindivertNetwork.*  src/core/windivert_network.hpp: passthrough, act, handle_syn, reflect_reply
--                       and one turn of worker_loop.
--   Rules.*             Cidr: the ranges of src/config/types.hpp. TrafficFilter:
--                       src/rules/traffic_filter.hpp. PolicyTable: src/rules/policy_table.hpp.
--                       Wildcard, Engine: src/rules/rule_engine_v3.hpp (Engine.Policy: policy ids and
--                       the table; Engine.Match: the match and the full scan; Engine.Hijack: hijacks,
--                       exclusions, process start).
--   FlatTree.*          src/process/flat_tree.hpp. Entry: process_entry and the side map. Links: the
--                       left-child right-sibling links. SideMap: add_entry, tombstone, compact.
--                       Links.Ends, SideMap.Ends: whether their loops return.
--   WindivertSocket.*   src/core/windivert_socket.hpp: decide, on_connect, on_close. Judgement, Accounting
--                       and Publishing are theorems about them.
--   ProcessTreeManager.* src/domain/process_tree_manager.cpp. The file itself: the state, the life cycle
--                       and the changes users ask for. Events: the traced events, the orphan buffer and
--                       the timers. Resolve: resolve_pid_now. Ends: the runs that return. Frame,
--                       Validity, Owners, Batches and Resolve.Freshness are theorems.
--   Udp.*               Codec: src/udp/socks5_udp_codec.hpp. SessionTable:
--                       src/udp/udp_session_table.hpp. PortTracker: src/udp/udp_port_tracker.hpp.
--                       Network: src/udp/windivert_network_udp.hpp. Socket:
--                       src/udp/windivert_socket_udp.hpp. Manager: src/udp/socks5_udp_manager.hpp.
--                       Relay: src/udp/udp_relay.hpp and the data sockets of
--                       src/udp/socks5_udp_session.hpp.
--   Proxy.*             Stream: the connection to a SOCKS5 server. Handshake:
--                       src/proxy/socks5_async.hpp. Associate: establish of
--                       src/udp/socks5_udp_session.hpp. Relay: src/proxy/relay.hpp.
--   Config.*            Target, Redirect: src/config/types.hpp (ProxyTarget, validate_redirect). Groups:
--                       ensure_proxy_groups of src/config/config_manager.hpp. Store:
--                       src/config/config_store.hpp and set_raw_config.
--   Services.*          Groups: src/services/group_service.cpp. Rules: src/services/rule_service.cpp.
--   Projection.*        src/projection/process_projection.cpp with CLEW_PROJECTION_COALESCE.
--   Prelude             shared names and lemmas. Examples: the theorems at concrete inputs.
--
-- Conventions. Machine integers are the native natural numbers, with the wrap-around written out
-- where the code relies on it; kernel timestamps are integers. The array of slots and the pool are
-- functions of the index. A map is an association list, a set of PIDs a list. An atomic operation is
-- one step; torn reads of plain fields are not modelled.
--
-- Loops and fuel. The loops of the port tracker take the list of rounds in which another thread
-- interferes and end in a last round without interference. The walks over the tree's links take the
-- number of entries as fuel: links without a cycle visit an entry at most once. A stale index in the
-- orphan buffer or a recycled PID of a parent can close a cycle, on which the loops of the code do not
-- return; FlatTree.Links.Ends,
-- FlatTree.SideMap.Ends and ProcessTreeManager.Ends tell when every loop does, and the runs there have
-- no result otherwise.
-- `wildcard_match` takes (P + 1) (T + 1) ^ 2 turns and more, for a pattern of P and a text of T bytes:
-- between two stars the text position and the retry position each advance at most T times.
--
-- `resolve_pid_now` walks up sixteen ancestors at most, as the code does.
--
-- Parameters. WinDivert's checksums and sends, `sscanf` and `stoi`, the comparison `_stricmp`, the
-- resolver that the SOCKET workers are given, `std::format`, whether a write to disk succeeds,
-- whether a proxy can be reached and what it answers, and the operating system's answers about a
-- process are arguments of the definitions that use them.
--
-- Not modelled: opening, closing and receiving on the WinDivert handles, the coroutines' scheduling, the
-- piping of TCP data, the event tracing itself, JSON and the files, the HTTP API, DNS and the user
-- interface.
pub mod Prelude
pub mod PortTracker
pub mod SynParker
pub mod WindivertNetwork
pub mod WindivertSocket
pub mod Udp
pub mod Proxy
pub mod Rules
pub mod FlatTree
pub mod ProcessTreeManager
pub mod Config
pub mod Services
pub mod Projection
mod Examples
