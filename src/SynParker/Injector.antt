-- ===== src/SynParker/Injector.antt =====
-- src/core/syn_parker.hpp: the release of parked SYNs by the injector thread: the queue of decisions,
-- the watchdog sweep and the shutdown drain. Sent packets are logged, the newest first.
pub mod Release
use clew_proxy.Prelude.{
  ℕ, zero, suc, ◌+◌, ◌*◌, ◌/◌, Bool, true, false, not, ◌&&◌, ◌||◌, if◌then◌else◌, ltb, ◌==◌, List,
  [], ◌∷◌, ◌++◌, ℤ, pos_part, ◌-ℤ◌, ltb_ℤ,
}
use clew_proxy.PortTracker.Word.{
  SlotState, pending, proxied, abandoned, same_state, word_state, word_idx, word_gen,
}
use clew_proxy.PortTracker.Slot.{TrackerSlot, pin_abandoned}
use clew_proxy.PortTracker.Table.{PortTracker, update}
use clew_proxy.PortTracker.Race.{ParkedRef}
use clew_proxy.SynParker.Packet.{Packet, Address, Sent, Divert, reflect_outbound_packet}
use clew_proxy.SynParker.Pool.{PoolEntry, ReleaseReq, SynParkingCounters, SynParker, put, free}

-- The tracker, the parker and what was sent.
pub record Net : Type 0 where
  pub tracker : PortTracker
  pub parker : SynParker
  pub sent : List Sent

-- The counter that a release bumps.
pub data ReleasePath : Type 0 where
  by_decision by_watchdog by_drain : ReleasePath

unfoldable pub count_release : ReleasePath → ℕ → SynParkingCounters → SynParkingCounters
count_release by_decision us c = record c {
  released_by_decision = c.released_by_decision + 1;
  park_us_sum = c.park_us_sum + us;
  park_us_max = if ltb c.park_us_max us then us else c.park_us_max;
}
count_release by_watchdog us c = record c { released_by_watchdog = c.released_by_watchdog + 1 }
count_release by_drain us c = record c { released_by_drain = c.released_by_drain + 1 }

-- For a span that is not negative; the counter does not run backwards.
unfoldable pub ticks_to_us : ℕ → ℤ → ℕ
ticks_to_us qpc_freq ticks = pos_part ticks * 1_000_000 / qpc_freq

-- The packet as it is sent for a decision, and whether the send succeeded.
unfoldable pub send_released : Divert → ℕ → SlotState → Packet → Address → Sent × Bool
unfolding reflect_outbound_packet
send_released d redirect_port decision pkt addr =
    if same_state decision proxied
    then reflect_outbound_packet d redirect_port pkt addr
    else (record { pkt = pkt; addr = addr }, d.send_ok pkt addr)

unfoldable pub release_parked : Divert → ℤ → ℕ → ℕ → SlotState → ReleasePath → Net → Net
unfolding free
release_parked d now idx gen decision path w =
    let p = w.parker in
    let e = p.pool idx in
    let freed = free idx p in
    let counted = count_release path (ticks_to_us p.qpc_freq (now -ℤ e.park_qpc)) p.counters in
    let (out, ok) = send_released d p.redirect_port decision e.pkt e.addr in
    let failed = if ok then counted.send_failures else counted.send_failures + 1 in
    let mismatch = p.counters in
    if e.gen == gen
    then record w {
      parker = record freed { counters = record counted { send_failures = failed } };
      sent = out ∷ w.sent;
    }
    else record w {
      parker = record p { counters = record mismatch { gen_mismatch = mismatch.gen_mismatch + 1 } };
    }

-- `release`: the strand queues the decision on a parked flow.
unfoldable pub release : ParkedRef → ℕ → SlotState → SynParker → SynParker
release ref port decision p = record p {
  queue = p.queue ++ record { idx = ref.idx; gen = ref.gen; port = port; decision = decision } ∷ [];
}

pub drain_requests : Divert → ℤ → List ReleaseReq → Net → Net
drain_requests d now [] w = w
drain_requests d now (r ∷ rs) w =
    drain_requests d now rs (release_parked d now r.idx r.gen r.decision by_decision w)

-- The loop pops one request after the other until the queue is empty; a release adds none.
pub drain_queue : Divert → ℤ → Net → Net
drain_queue d now w =
    let p = w.parker in drain_requests d now p.queue (record w { parker = record p { queue = [] } })

-- The body of the watchdog's loop for the entry `i`.
unfoldable pub sweep_entry : Divert → ℤ → Bool → ℕ → Net → Net
unfolding pin_abandoned
sweep_entry d now force i w =
    let e = w.parker.pool i in
    let t = w.tracker in
    let slot = t.slots e.port in
    let (s, won) = pin_abandoned slot.word e.syn_kernel_ts slot in
    let gen = word_gen slot.word in
    let path = if force then by_drain else by_watchdog in
    let pinned = record w { tracker = record t { slots = update t.slots e.port s } } in
    if not e.in_use
    then w
    else if not force && ltb_ℤ (now -ℤ e.park_qpc) w.parker.watchdog_ticks
    then w
    else if not (same_state (word_state slot.word) pending) || not (word_idx slot.word == i)
    then w
    else if won
    then release_parked d now i gen abandoned path pinned
    else pinned

-- The loop of `sweep` from the entry `i` on, for `left` entries.
pub sweep_entries : Divert → ℤ → Bool → ℕ → ℕ → Net → Net
sweep_entries d now force zero i w = w
sweep_entries d now force (suc left) i w =
    sweep_entries d now force left (i + 1) (sweep_entry d now force i w)

pub sweep : Divert → ℤ → Bool → Net → Net
sweep d now force w = sweep_entries d now force w.parker.pool_size 0 w

-- A turn of the injector's loop, and what it does when the loop has ended.
pub injector_turn : Divert → ℤ → Net → Net
injector_turn d now w = sweep d now false (drain_queue d now w)

pub shutdown_drain : Divert → ℤ → Net → Net
shutdown_drain d now w = sweep d now true (drain_queue d now w)
