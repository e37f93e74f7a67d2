-- ===== src/WindivertSocket/Accounting.antt =====
-- src/core/windivert_socket.hpp: the counters that /api/stats reads.
use clew_proxy.Prelude.{ℕ, ◌+◌, ◌≤◌, ◌≡◌, Bool, List, [], ◌∷◌, arith}
use clew_proxy.PortTracker.Race.{
  Shared, Event, Attempt, finished, retry, PublishOutcome, stored, late_rejected, released_parked,
  PublishRace,
}
use clew_proxy.PortTracker.Race.Outcome.{EndsIn, Published, publish-EndsIn}
use clew_proxy.WindivertSocket.{
  SocketCounters, SocketAddress, SocketEvent, connect, close, other, WindivertSocket, Resolver,
  Decision, goes_direct, goes_proxied, self, unknown_pid, excluded_process, not_proxied,
  excluded_ip, state_of, tracker_entry, port_of, decide, deciding, count_decision, count_connect,
  after_publish, after_attempt, publish_decision, on_connect, after_close, on_close_event,
  on_socket_event,
}

-- Every CONNECT is counted in exactly one way, and the other counters are parts of these.
pub record IsAccounted (c : SocketCounters) : Type 0 where
  pub connects :
      c.connect_events
      ≡ c.echo_ignored + c.direct_decisions + c.proxied_decisions + c.late_rejected_proxied
  pub selves : c.self_direct ≤ c.direct_decisions
  pub late : c.late_rejected_proxied ≤ c.late_rejected
  pub closes : c.close_while_pending ≤ c.close_events

-- The counters after a decision and before its outcome: a `proxied` one is still to be counted.
abbrev owed : Decision → ℕ
owed (goes_direct why) = 0
owed (goes_proxied g) = 1

record IsOwed (d : Decision) (c : SocketCounters) : Type 0 where
  connects :
      c.connect_events
      ≡ c.echo_ignored + c.direct_decisions + c.proxied_decisions + c.late_rejected_proxied + owed d
  selves : c.self_direct ≤ c.direct_decisions
  late : c.late_rejected_proxied ≤ c.late_rejected
  closes : c.close_while_pending ≤ c.close_events

module _ (eq : List ℕ → List ℕ → Bool) (resolve : Resolver) where
  deciding-IsOwed :
      (d : Decision) (c : SocketCounters)
      → IsAccounted c
      → IsOwed d (count_decision eq d (count_connect eq c))
  deciding-IsOwed (goes_direct self) c v = ground arith
  deciding-IsOwed (goes_direct unknown_pid) c v = ground arith
  deciding-IsOwed (goes_direct excluded_process) c v = ground arith
  deciding-IsOwed (goes_direct not_proxied) c v = ground arith
  deciding-IsOwed (goes_direct (excluded_ip r)) c v = ground arith
  deciding-IsOwed (goes_proxied g) c v = ground arith

  after_publish-IsAccounted :
      (port : ℕ) (d : Decision) (v : Shared) (o : PublishOutcome) (w : WindivertSocket)
      → IsOwed d w.counters
      → IsAccounted (after_publish eq port d v o w).counters
  unfolding after_publish
  after_publish-IsAccounted port (goes_direct why) v stored w h = ground arith
  after_publish-IsAccounted port (goes_proxied g) v stored w h = ground arith
  after_publish-IsAccounted port (goes_direct why) v late_rejected w h = ground arith
  after_publish-IsAccounted port (goes_proxied g) v late_rejected w h = ground arith
  after_publish-IsAccounted port (goes_direct why) v (released_parked r) w h = ground arith
  after_publish-IsAccounted port (goes_proxied g) v (released_parked r) w h = ground arith

  after_attempt-IsAccounted :
      (r : Attempt PublishOutcome) (a : SocketAddress) (d : Decision) (w : WindivertSocket)
      → IsOwed d w.counters
      → EndsIn (Published (state_of d) (tracker_entry a d) a.timestamp) r
      → IsAccounted (after_attempt eq (port_of a.local_port) d r w).counters
  unfolding after_attempt
  after_attempt-IsAccounted (finished v o) a d w h p =
      after_publish-IsAccounted (port_of a.local_port) d v o w h
  after_attempt-IsAccounted (retry v) a d w h p = elim p [ ]

  publish_decision-IsAccounted :
      (races : List PublishRace) (a : SocketAddress) (d : Decision) (w : WindivertSocket)
      → IsOwed d w.counters
      → IsAccounted (publish_decision eq races a d w).counters
  unfolding publish_decision
  publish_decision-IsAccounted races a d w h = after_attempt-IsAccounted _ a d w h (
      publish-EndsIn (state_of d) (tracker_entry a d) a.timestamp races
        (w.flows (port_of a.local_port)))

  on_connect-IsAccounted :
      (races : List PublishRace) (a : SocketAddress) (w : WindivertSocket)
      → IsAccounted w.counters
      → IsAccounted (on_connect eq resolve races a w).counters
  unfolding on_connect
  on_connect-IsAccounted races a w v =
      let d = (decide eq resolve a w).0 in
      let owing = deciding-IsOwed d w.counters v in
      ground (arith, publish_decision-IsAccounted races a d (deciding eq resolve a w) owing)

  on_close_event-IsAccounted :
      (races : List (List Event)) (a : SocketAddress) (w : WindivertSocket)
      → IsAccounted w.counters
      → IsAccounted (on_close_event races a w).counters
  unfolding on_close_event after_close
  on_close_event-IsAccounted races a w v = ground arith

-- An event with what the other threads do during it.
pub record Happening : Type 0 where
  pub event : SocketEvent
  pub races : List PublishRace
  pub close_races : List (List Event)

module _ (eq : List ℕ → List ℕ → Bool) (resolve : Resolver) where
  pub handle_all : List Happening → WindivertSocket → WindivertSocket
  handle_all [] w = w
  handle_all (h ∷ hs) w = handle_all hs (on_socket_event eq resolve h.races h.close_races h.event w)

  on_socket_event-IsAccounted :
      (races : List PublishRace) (close_races : List (List Event)) (e : SocketEvent)
      (w : WindivertSocket)
      → IsAccounted w.counters
      → IsAccounted (on_socket_event eq resolve races close_races e w).counters
  unfolding on_socket_event
  on_socket_event-IsAccounted races close_races (connect a) w v =
      on_connect-IsAccounted eq resolve races a w v
  on_socket_event-IsAccounted races close_races (close a) w v =
      on_close_event-IsAccounted eq resolve close_races a w v
  on_socket_event-IsAccounted races close_races (other a) w v = v

  -- Whatever events the worker handles and whatever the other threads do meanwhile, each CONNECT it
  -- has counted is counted once more: as an echo, as direct, as proxied, or as a proxied decision
  -- that came too late. The decisions on the program itself are among the direct ones, the late
  -- proxied among the late ones, and the closes of pending slots among the closes.
  pub handle_all-IsAccounted :
      (hs : List Happening) (w : WindivertSocket)
      → IsAccounted w.counters
      → IsAccounted (handle_all hs w).counters
  unfolding handle_all
  handle_all-IsAccounted [] w v = v
  handle_all-IsAccounted (h ∷ hs) w v =
      handle_all-IsAccounted hs (on_socket_event eq resolve h.races h.close_races h.event w)
        (on_socket_event-IsAccounted h.races h.close_races h.event w v)
