-- ===== src/Examples/Data.antt =====
-- Test data: a packet, a parker, slots, a process tree and rules.
use clew_proxy.Prelude.{ℕ, true, false, [], ◌∷◌, pos, refl, arith}
use clew_proxy.PortTracker.Word.{pending, pack_word}
use clew_proxy.PortTracker.Slot.{TrackerSlot, fresh_slot}
use clew_proxy.PortTracker.Table.{PortTracker}
use clew_proxy.PortTracker.Race.{Shared, ref_of}
use clew_proxy.SynParker.Packet.{Packet, Address, Divert}
use clew_proxy.SynParker.Pool.{SynParker, PoolEntry, no_counts}
use clew_proxy.SynParker.Injector.{Net}
use clew_proxy.WindivertNetwork.{Worker}
use clew_proxy.FlatTree.Entry.{ProcessEntry, FlatTree, no_entry, empty_tree, lookup}
use clew_proxy.FlatTree.SideMap.Invariant.{IsValid}
use clew_proxy.Rules.TrafficFilter.{TrafficFilter}
use clew_proxy.Rules.Engine.{AutoRule, RuleEngine, fresh_engine, set_auto_rules}
use clew_proxy.Rules.Engine.Policy.Agreement.{Unlike, DistinctIds, IsReady}
use clew_proxy.Rules.Engine.Ids.{Named, set_auto_rules-IsReady, fresh_engine-HasIds}

abbrev pub syn_packet : Packet
syn_packet = record {
  parsed = true;
  src_addr = 0x0A000001;
  dst_addr = 0x01020304;
  src_port = 50000;
  dst_port = 443;
  seq_num = 77;
  syn = true;
  ack = false;
  len = 60;
  rest = [];
}

abbrev pub address : Address
address = record { timestamp = pos 100; outbound = true; interface = [] }

abbrev pub divert : Divert
divert = record { calc_checksums = λ p a. record { pkt = p; addr = a }; send_ok = λ p a. true }

abbrev pub tracker : PortTracker
tracker = record { slots = λ _. fresh_slot; qpc_freq = 10_000_000; ttl_ticks = pos 100_000 }

-- A pool whose entries are all in use, with a generation.
abbrev pub busy_entry : ℕ → PoolEntry
busy_entry gen = record {
  in_use = true;
  gen = gen;
  park_qpc = pos 0;
  syn_kernel_ts = pos 0;
  port = 50000;
  addr = address;
  pkt = syn_packet;
}

abbrev pub idle_entry : PoolEntry
idle_entry = record (busy_entry 1) { in_use = false }

abbrev pub idle_parker : SynParker
idle_parker = record {
  pool = λ _. idle_entry;
  pool_size = 2;
  watchdog_ms = 20;
  watchdog_ticks = pos 200_000;
  qpc_freq = 10_000_000;
  redirect_port = 4000;
  pool_hint = 0;
  pool_in_use = pos 0;
  pool_peak = pos 0;
  queue = [];
  counters = no_counts;
}

abbrev pub busy_parker : ℕ → SynParker
busy_parker gen = record idle_parker { pool = λ _. busy_entry gen; pool_in_use = pos 2 }

abbrev pub busy_net : ℕ → Net
busy_net gen = record { tracker = tracker; parker = busy_parker gen; sent = [] }

abbrev pub worker : Worker
worker = record {
  net = record { tracker = tracker; parker = idle_parker; sent = [] };
  nat_count = 0;
  pass_count = 0;
}

abbrev pub pending_slot : ℕ → TrackerSlot
pending_slot gen = record fresh_slot { word = pack_word pending gen 0 }

abbrev pub pending_shared : ℕ → Shared
pending_shared gen = record {
  slot = pending_slot gen;
  parked = ref_of (pack_word pending gen 0) ∷ [];
  pinned = [];
}

-- A process that was hijacked by hand, and one that was not.
abbrev pub hijacked : ProcessEntry
hijacked = record no_entry { pid = 10; psn = 1; group_id = 3; flags = 1; name_u8 = 97 ∷ [] }

abbrev pub plain : ProcessEntry
plain = record no_entry { pid = 11; psn = 2; name_u8 = 97 ∷ [] }

abbrev pub small_tree : FlatTree
small_tree = record {
  entries = hijacked ∷ plain ∷ [];
  side_map = (11, record { index = 1; psn = 2 }) ∷ (10, record { index = 0; psn = 1 }) ∷ [];
  alive_count = 2;
  tombstone_count = 0;
}

abbrev pub filter : TrafficFilter
filter = record { include_cidrs = []; exclude_cidrs = []; include_ports = []; exclude_ports = [] }

-- The rule "*" with the id "r".
abbrev pub star_rule : AutoRule
star_rule = record {
  id = 114 ∷ [];
  name = [];
  enabled = true;
  process_name = 42 ∷ [];
  cmdline_pattern = [];
  image_path_pattern = [];
  hack_tree = true;
  dst_filter = filter;
  proxy_group_id = 5;
  protocol = 116 ∷ 99 ∷ 112 ∷ [];
  proxy = record { type = []; host = 104 ∷ []; port = 7890; user = []; password = [] };
  excluded_pids = [];
  matched_pids = 11 ∷ [];
}

abbrev pub engine : RuleEngine
engine = record fresh_engine {
  auto_rules = star_rule ∷ [];
  policy_ids = (114 ∷ [], 1) ∷ [];
  next_policy_id = 2;
}

pub empty_tree-IsValid : IsValid empty_tree
unfolding lookup
empty_tree-IsValid = record {
  indexed = record {
    sound = λ p s h. ground arith;
    complete = λ i x h a. ground arith;
    distinct = tt;
  };
  alive = refl;
  buried = refl;
}

pub star-Named : Named (star_rule ∷ [])
unfolding Named
star-Named = (refl, tt)

pub star-DistinctIds : DistinctIds (star_rule ∷ [])
unfolding DistinctIds Unlike
star-DistinctIds = (tt, tt)

abbrev pub ready_engine : RuleEngine
ready_engine = set_auto_rules (star_rule ∷ []) fresh_engine

pub ready_engine-IsReady : IsReady ready_engine
ready_engine-IsReady =
    (set_auto_rules-IsReady (star_rule ∷ []) fresh_engine star-Named star-DistinctIds
      fresh_engine-HasIds).0
