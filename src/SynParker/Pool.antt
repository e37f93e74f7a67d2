-- ===== src/SynParker/Pool.antt =====
-- src/core/syn_parker.hpp: the bounded pool. The vector of entries is a function of the index below
-- `pool_size`; `pool_in_use` is an int32 that stays far from its limits, so it is an integer.
pub mod Laws
use clew_proxy.Prelude.{
  ℕ, zero, suc, ◌+◌, ◌%◌, ◌^◌, Bool, true, false, if◌then◌else◌, ltb, ◌==◌, Option, none, some,
  List, [], ℤ, pos, ◌+ℤ◌, ◌-ℤ◌, ltb_ℤ,
}
use clew_proxy.PortTracker.Word.{SlotState, no_pool_idx}
use clew_proxy.PortTracker.Race.{ParkedRef}
use clew_proxy.SynParker.Packet.{Packet, Address}

pub record PoolEntry : Type 0 where
  pub in_use : Bool
  pub gen : ℕ  -- uint32_t
  pub park_qpc : ℤ
  pub syn_kernel_ts : ℤ
  pub port : ℕ
  pub addr : Address
  pub pkt : Packet

pub record ReleaseReq : Type 0 where
  pub idx : ℕ
  pub gen : ℕ
  pub port : ℕ
  pub decision : SlotState

pub record SynParkingCounters : Type 0 where
  pub parked : ℕ
  pub released_by_decision : ℕ
  pub released_by_watchdog : ℕ
  pub released_by_drain : ℕ
  pub ttl_stale : ℕ
  pub retransmit_passed : ℕ
  pub dup_syn_dropped : ℕ
  pub cas_lost_to_decision : ℕ
  pub pool_exhausted : ℕ
  pub oversize : ℕ
  pub gen_mismatch : ℕ
  pub send_failures : ℕ
  pub park_us_max : ℕ
  pub park_us_sum : ℕ

pub record SynParker : Type 0 where
  pub pool : ℕ → PoolEntry
  pub pool_size : ℕ
  pub watchdog_ms : ℕ
  pub watchdog_ticks : ℤ
  pub qpc_freq : ℕ
  pub redirect_port : ℕ
  pub pool_hint : ℕ  -- uint32_t
  pub pool_in_use : ℤ
  pub pool_peak : ℤ
  pub queue : List ReleaseReq
  pub counters : SynParkingCounters

abbrev pub max_packet : ℕ
max_packet = 2048

abbrev pub clamp : ℕ → ℕ → ℕ → ℕ
clamp lo hi x = if ltb x lo then lo else if ltb hi x then hi else x

abbrev pub no_counts : SynParkingCounters
no_counts = record {
  parked = 0;
  released_by_decision = 0;
  released_by_watchdog = 0;
  released_by_drain = 0;
  ttl_stale = 0;
  retransmit_passed = 0;
  dup_syn_dropped = 0;
  cas_lost_to_decision = 0;
  pool_exhausted = 0;
  oversize = 0;
  gen_mismatch = 0;
  send_failures = 0;
  park_us_max = 0;
  park_us_sum = 0;
}

abbrev pub fresh_entry : Packet → Address → PoolEntry
fresh_entry blank_pkt blank_addr = record {
  in_use = false;
  gen = 1;
  park_qpc = pos 0;
  syn_kernel_ts = pos 0;
  port = 0;
  addr = blank_addr;
  pkt = blank_pkt;
}

-- The constructor; `ticks` converts milliseconds. The bytes of a fresh entry are not initialised:
-- any packet and address stand for them.
unfoldable pub make_parker : (ℕ → ℕ) → ℕ → ℕ → ℕ → ℕ → Packet → Address → SynParker
make_parker ticks qpc_freq redirect_port watchdog_ms pool_size blank_pkt blank_addr = record {
  pool = λ _. fresh_entry blank_pkt blank_addr;
  pool_size = clamp 32 4096 pool_size;
  watchdog_ms = clamp 5 50 watchdog_ms;
  watchdog_ticks = pos (ticks (clamp 5 50 watchdog_ms));
  qpc_freq = qpc_freq;
  redirect_port = redirect_port;
  pool_hint = 0;
  pool_in_use = pos 0;
  pool_peak = pos 0;
  queue = [];
  counters = no_counts;
}

abbrev pub put : (ℕ → PoolEntry) → ℕ → PoolEntry → ℕ → PoolEntry
put pool i e j = if i == j then e else pool j

-- The loop of `alloc`: the first free index among `(start + k) % n`, for `left` values of `k` on.
unfoldable pub find_free : ℕ → ℕ → ℕ → ℕ → (ℕ → PoolEntry) → Option ℕ
find_free zero k start n pool = none
find_free (suc left) k start n pool =
    let i = (start + k) % n in
    let rest = find_free left (k + 1) start n pool in if (pool i).in_use then rest else some i

abbrev pub max_ℤ : ℤ → ℤ → ℤ
max_ℤ a b = if ltb_ℤ a b then b else a

-- Take the entry `i`.
unfoldable pub claim : ℕ → SynParker → SynParker
claim i p =
    let used = p.pool_in_use +ℤ pos 1 in
    record p {
      pool = put p.pool i (record (p.pool i) { in_use = true });
      pool_in_use = used;
      pool_peak = max_ℤ p.pool_peak used;
    }

unfoldable pub alloc : SynParker → Option ℕ × SynParker
alloc p =
    let hinted = record p { pool_hint = (p.pool_hint + 1) % 2 ^ 32 } in
    elim (find_free p.pool_size 0 (p.pool_hint % p.pool_size) p.pool_size p.pool) [
      | none ↦ (none, hinted)
      | some i ↦ (some i, claim i hinted)
    ]

-- `free_slot` of the source is a call of this.
unfoldable pub free : ℕ → SynParker → SynParker
free i p =
    let e = p.pool i in
    record p {
      pool = put p.pool i (record e { gen = (e.gen + 1) % 2 ^ 32; in_use = false });
      pool_in_use = p.pool_in_use -ℤ pos 1;
    }

-- The part of `park` after the allocation.
unfoldable pub fill : ℤ → Packet → Address → ℕ → Option ℕ → SynParker → ParkedRef × SynParker
fill now pkt addr port none q = (record { idx = no_pool_idx; gen = 0 }, q)
fill now pkt addr port (some i) q = (
  record { idx = i; gen = (q.pool i).gen },
  record q {
    pool = put q.pool i (record (q.pool i) {
      pkt = pkt;
      addr = addr;
      port = port;
      syn_kernel_ts = addr.timestamp;
      park_qpc = now;
    });
  },
)

-- Copy the packet into a free entry. `now` is the performance counter.
unfoldable pub park : ℤ → Packet → Address → ℕ → SynParker → ParkedRef × SynParker
unfolding fill
park now pkt addr port p = let (found, q) = alloc p in fill now pkt addr port found q
