-- ===== src/WindivertSocket.antt =====
-- src/core/windivert_socket.hpp: the SOCKET worker, which turns every CONNECT into one decision in the
-- port tracker and every CLOSE into the end of a flow.
--
-- The worker runs on the strand. `flows` has for each port the slot that the other threads share. The
-- comparison of file names and the resolver of unknown PIDs are parameters, as they are in the source;
-- the pointer `parker_` is the flag `parking` beside the parker.
pub mod Judgement
pub mod Accounting
pub mod Publishing
use clew_proxy.Prelude.{
  ℕ, ◌+◌, ◌%◌, ◌^◌, Bool, true, false, not, ◌&&◌, ◌||◌, if◌then◌else◌, ◌==◌, Option, none, some,
  List, [], ◌∷◌, ℤ,
}
use clew_proxy.PortTracker.Word.{SlotState, proxied, direct, same_state}
use clew_proxy.PortTracker.Slot.{TrackerEntry, is_echo}
use clew_proxy.PortTracker.Race.{
  Shared, Event, Attempt, finished, retry, ParkedRef, PublishOutcome, stored, late_rejected,
  released_parked, PublishRace, publish, on_close,
}
use clew_proxy.SynParker.Pool.{SynParker, free}
use clew_proxy.SynParker.Injector.{release}
use clew_proxy.FlatTree.Entry.{FlatTree, find_by_pid, entry_at, invalid_idx, no_proxy, is_proxied}
use clew_proxy.Rules.TrafficFilter.{IpExcludeReason, nothing, global, rule}
use clew_proxy.Rules.Engine.{RuleEngine}
use clew_proxy.Rules.Engine.Policy.{ip_exclude_reason}

pub record SocketCounters : Type 0 where
  pub connect_events : ℕ
  pub close_events : ℕ
  pub proxied_decisions : ℕ
  pub direct_decisions : ℕ
  pub self_direct : ℕ
  pub echo_ignored : ℕ
  pub late_rejected : ℕ
  pub late_rejected_proxied : ℕ
  pub close_while_pending : ℕ

abbrev pub zero_counters : SocketCounters
zero_counters = record {
  connect_events = 0;
  close_events = 0;
  proxied_decisions = 0;
  direct_decisions = 0;
  self_direct = 0;
  echo_ignored = 0;
  late_rejected = 0;
  late_rejected_proxied = 0;
  close_while_pending = 0;
}

-- What the worker reads of a `WINDIVERT_ADDRESS` of the SOCKET layer.
pub record SocketAddress : Type 0 where
  pub pid : ℕ
  pub local_port : ℕ
  pub remote_port : ℕ
  pub remote_addr : List ℕ  -- uint32_t[4]
  pub timestamp : ℤ

pub data SocketEvent : Type 0 where
  connect close other : SocketAddress → SocketEvent

-- The cast of a port to `uint16_t`.
abbrev pub port_of : ℕ → ℕ
port_of p = p % 2 ^ 16

abbrev pub first_word : List ℕ → ℕ
first_word [] = 0
first_word (w ∷ ws) = w

pub record WindivertSocket : Type 0 where
  pub self_pid : ℕ
  pub exclude_processes : List (List ℕ)
  pub parking : Bool
  pub tree : FlatTree
  pub rules : RuleEngine
  pub ttl_ticks : ℤ
  pub flows : ℕ → Shared
  pub parker : SynParker
  pub counters : SocketCounters

-- The reason of a `direct` decision, and the decision with the group of a `proxied` one.
pub data DirectReason : Type 0 where
  self unknown_pid excluded_process not_proxied : DirectReason
  excluded_ip : IpExcludeReason → DirectReason

pub data Decision : Type 0 where
  goes_direct : DirectReason → Decision
  goes_proxied : ℕ → Decision

abbrev pub state_of : Decision → SlotState
state_of (goes_direct why) = direct
state_of (goes_proxied g) = proxied

abbrev pub group_of : Decision → ℕ
group_of (goes_direct why) = no_proxy
group_of (goes_proxied g) = g

abbrev pub is_self : Decision → Bool
is_self (goes_direct self) = true
is_self _ = false

-- `te` with the group that `decide` fills in.
abbrev pub tracker_entry : SocketAddress → Decision → TrackerEntry
tracker_entry a d = record {
  remote_addr = a.remote_addr;
  remote_port = port_of a.remote_port;
  group_id = group_of d;
}

abbrev pub put_flow : (ℕ → Shared) → ℕ → Shared → ℕ → Shared
put_flow flows p v q = if p == q then v else flows q

abbrev pub Resolver : Type 0
Resolver = Option (ℕ → FlatTree × RuleEngine → Bool × (FlatTree × RuleEngine))

module _ (stricmp_eq : List ℕ → List ℕ → Bool) where
  unfoldable pub is_excluded_process : List (List ℕ) → List ℕ → Bool
  is_excluded_process [] name = false
  is_excluded_process (e ∷ es) name =
      let rest = is_excluded_process es name in if stricmp_eq name e then true else rest

  abbrev by_reason : IpExcludeReason → ℕ → Decision
  by_reason nothing g = goes_proxied g
  by_reason global g = goes_direct (excluded_ip global)
  by_reason rule g = goes_direct (excluded_ip rule)

  -- The part of `decide` after the PID is resolved.
  unfoldable pub judge : List (List ℕ) → ℕ → ℕ → FlatTree → RuleEngine → Decision
  unfolding is_excluded_process find_by_pid is_proxied
  judge excluded pid dest_ip tree rules =
      let idx = find_by_pid pid tree in
      let entry = entry_at idx tree.entries in
      if idx == invalid_idx
      then goes_direct unknown_pid
      else if is_excluded_process excluded entry.name_u8
      then goes_direct excluded_process
      else if not entry.alive || not (is_proxied entry)
      then goes_direct not_proxied
      else by_reason (ip_exclude_reason tree pid dest_ip rules) entry.group_id

  -- The call of the resolver: whether to go on, and the tree and the rules that it leaves.
  unfoldable pub resolved : Resolver → ℕ → WindivertSocket → Bool × (FlatTree × RuleEngine)
  resolved none pid w = (true, (w.tree, w.rules))
  resolved (some resolve) pid w =
      if w.parking then resolve pid (w.tree, w.rules) else (true, (w.tree, w.rules))

  unfoldable pub decide :
      Resolver → SocketAddress → WindivertSocket → Decision × (FlatTree × RuleEngine)
  unfolding judge resolved
  decide resolve a w =
      let (known, after) = resolved resolve a.pid w in
      let verdict = judge w.exclude_processes a.pid (first_word a.remote_addr) after.0 after.1 in
      if a.pid == w.self_pid
      then (goes_direct self, (w.tree, w.rules))
      else if not known
      then (goes_direct unknown_pid, after)
      else (verdict, after)

  -- The counters of a decision that was reached.
  abbrev pub count_decision : Decision → SocketCounters → SocketCounters
  count_decision (goes_direct self) c = record c {
    self_direct = c.self_direct + 1;
    direct_decisions = c.direct_decisions + 1;
  }
  count_decision (goes_direct why) c = record c { direct_decisions = c.direct_decisions + 1 }
  count_decision (goes_proxied g) c = c

  abbrev pub count_match : Decision → SocketCounters → SocketCounters
  count_match (goes_direct why) c = c
  count_match (goes_proxied g) c = record c { proxied_decisions = c.proxied_decisions + 1 }

  abbrev pub count_late : Decision → SocketCounters → SocketCounters
  count_late (goes_direct why) c = record c { late_rejected = c.late_rejected + 1 }
  count_late (goes_proxied g) c = record c {
    late_rejected = c.late_rejected + 1;
    late_rejected_proxied = c.late_rejected_proxied + 1;
  }

  -- What the worker does with the outcome of `publish`.
  unfoldable pub after_publish :
      ℕ → Decision → Shared → PublishOutcome → WindivertSocket → WindivertSocket
  after_publish port d v stored w = record w {
    flows = put_flow w.flows port v;
    counters = count_match d w.counters;
  }
  after_publish port d v late_rejected w = record w {
    flows = put_flow w.flows port v;
    counters = count_late d w.counters;
  }
  after_publish port d v (released_parked ref) w = record w {
    flows = put_flow w.flows port v;
    parker = if w.parking then release ref port (state_of d) w.parker else w.parker;
    counters = count_match d w.counters;
  }

  -- A `publish` whose rounds all lost keeps looping; that does not happen.
  unfoldable pub after_attempt :
      ℕ → Decision → Attempt PublishOutcome → WindivertSocket → WindivertSocket
  unfolding after_publish
  after_attempt port d (finished v o) w = after_publish port d v o w
  after_attempt port d (retry v) w = record w { flows = put_flow w.flows port v }

  unfoldable pub publish_decision :
      List PublishRace → SocketAddress → Decision → WindivertSocket → WindivertSocket
  unfolding after_attempt
  publish_decision races a d w =
      let port = port_of a.local_port in
      after_attempt port d
        (publish (state_of d) (tracker_entry a d) a.timestamp races (w.flows port)) w

  abbrev pub count_connect : SocketCounters → SocketCounters
  count_connect c = record c { connect_events = c.connect_events + 1 }

  abbrev pub count_echo : SocketCounters → SocketCounters
  count_echo c = record c { echo_ignored = c.echo_ignored + 1 }

  abbrev pub is_echo_of : SocketAddress → WindivertSocket → Bool
  is_echo_of a w =
      is_echo w.ttl_ticks a.timestamp a.remote_addr (port_of a.remote_port)
        (w.flows (port_of a.local_port)).slot

  -- The worker after `decide`.
  abbrev pub deciding : Resolver → SocketAddress → WindivertSocket → WindivertSocket
  deciding resolve a w =
      let (d, (tree, rules)) = decide resolve a w in
      record w {
        tree = tree;
        rules = rules;
        counters = count_decision d (count_connect w.counters);
      }

  unfoldable pub on_connect :
      Resolver → List PublishRace → SocketAddress → WindivertSocket → WindivertSocket
  unfolding publish_decision
  on_connect resolve races a w =
      let d = (decide resolve a w).0 in
      let decided = deciding resolve a w in
      if is_echo_of a w
      then record w { counters = count_echo (count_connect w.counters) }
      else if same_state (state_of d) direct && not w.parking
      then decided
      else publish_decision races a d decided

-- What the worker does with the result of `on_close`.
unfoldable pub after_close : ℕ → Shared → Option ParkedRef → WindivertSocket → WindivertSocket
after_close port v none w = record w { flows = put_flow w.flows port v }
after_close port v (some ref) w =
    let c = w.counters in
    record w {
      flows = put_flow w.flows port v;
      parker = if w.parking then free ref.idx w.parker else w.parker;
      counters = record c { close_while_pending = c.close_while_pending + 1 };
    }

abbrev pub count_close : WindivertSocket → WindivertSocket
count_close w =
    let c = w.counters in record w { counters = record c { close_events = c.close_events + 1 } }

unfoldable pub on_close_event :
    List (List Event) → SocketAddress → WindivertSocket → WindivertSocket
unfolding after_close
on_close_event races a w =
    let port = port_of a.local_port in
    elim (on_close a.timestamp races (w.flows port)) [
      | finished v o ↦ after_close port v o (count_close w)
      | retry v ↦ record (count_close w) { flows = put_flow w.flows port v }
    ]

module _ (stricmp_eq : List ℕ → List ℕ → Bool) (resolve : Resolver) where
  -- `races` and `close_races` are what the other threads do during the loops on the slot.
  unfoldable pub on_socket_event :
      List PublishRace → List (List Event) → SocketEvent → WindivertSocket → WindivertSocket
  unfolding on_connect on_close_event
  on_socket_event races close_races (connect a) w = on_connect stricmp_eq resolve races a w
  on_socket_event races close_races (close a) w = on_close_event close_races a w
  on_socket_event races close_races (other a) w = w
