-- ===== src/PortTracker/Table.antt =====
-- src/core/port_tracker.hpp: the whole table, and the idle sweep over it. The array of 65536 slots is a
-- function of the port. Each exchange of the sweep is made with no other thread in between.
use clew_proxy.Prelude.{
  ℕ, zero, suc, ◌+◌, ◌*◌, ◌/◌, ◌<◌, ◌≡◌, refl, Bool, not, ◌&&◌, ◌==◌, ltb, leb, if◌then◌else◌, ℤ,
  pos, ◌-ℤ◌, leb_ℤ, eq_ℤ, arith, Bool-cases, inl, inr,
}
use clew_proxy.PortTracker.Word.{word_state, empty_word}
use clew_proxy.PortTracker.Slot.{TrackerSlot, fresh_slot, is_decision, sweep_slot}

pub record PortTracker : Type 0 where
  pub slots : ℕ → TrackerSlot
  pub qpc_freq : ℕ
  pub ttl_ticks : ℤ

-- For a number of milliseconds that is not negative.
unfoldable pub ms_to_ticks : ℕ → ℕ → ℕ
ms_to_ticks qpc_freq ms = ms * qpc_freq / 1000

-- The constructor, with the frequency that the performance counter reports.
pub make_tracker : ℕ → PortTracker
unfolding ms_to_ticks
make_tracker reported =
    let freq = if ltb 0 reported then reported else 10_000_000 in
    record { slots = λ _. fresh_slot; qpc_freq = freq; ttl_ticks = pos (ms_to_ticks freq 10) }

abbrev pub update : (ℕ → TrackerSlot) → ℕ → TrackerSlot → ℕ → TrackerSlot
update slots p s q = if p == q then s else slots q

-- The loop of `sweep_idle` from port `p` on, for `n` ports.
pub sweep_loop : ℕ → ℕ → ℤ → ℤ → (ℕ → TrackerSlot) → (ℕ → TrackerSlot) × ℕ
sweep_loop zero p now idle slots = (slots, 0)
sweep_loop (suc n) p now idle slots =
    let (s, won) = sweep_slot now idle (slots p) in
    let (rest, cleared) = sweep_loop n (p + 1) now idle (update slots p s) in
    (rest, cleared + (if won then 1 else 0))

pub sweep_idle : ℤ → ℤ → PortTracker → PortTracker × ℕ
sweep_idle now idle t =
    if leb_ℤ idle (pos 0)
    then (t, 0)
    else let (slots, cleared) = sweep_loop 65536 0 now idle t.slots in
      (record t { slots = slots }, cleared)

-- A decided flow whose last sign of life, the CONNECT if there was none, is more than `idle` ago.
abbrev pub is_stale : ℤ → ℤ → TrackerSlot → Bool
is_stale now idle s =
    is_decision (word_state s.word)
    && not (leb_ℤ (now -ℤ (if eq_ℤ s.last_seen (pos 0) then s.connect_ts else s.last_seen)) idle)

sweep_slot_lem :
    (now idle : ℤ) (s : TrackerSlot)
    → ((sweep_slot now idle s).0
        ≡ (if is_stale now idle s then record s { word = empty_word } else s))
      × ((sweep_slot now idle s).1 ≡ is_stale now idle s)
unfolding sweep_slot
sweep_slot_lem now idle s = ground arith

sweep_loop_slot :
    (n p q : ℕ) (now idle : ℤ) (slots : ℕ → TrackerSlot)
    → (sweep_loop n p now idle slots).0 q
      ≡ (if leb p q && ltb q (p + n) then (sweep_slot now idle (slots q)).0 else slots q)
unfolding sweep_loop
sweep_loop_slot zero p q now idle slots = ground arith
sweep_loop_slot (suc n) p q now idle slots =
    ground (
      arith,
      sweep_loop_slot n (p + 1) q now idle (update slots p (sweep_slot now idle (slots p)).0),
    )

-- How many of the `n` ports from `p` on are stale.
pub stale_ports : ℕ → ℕ → ℤ → ℤ → (ℕ → TrackerSlot) → ℕ
stale_ports zero p now idle slots = 0
stale_ports (suc n) p now idle slots =
    stale_ports n (p + 1) now idle slots + (if is_stale now idle (slots p) then 1 else 0)

stale_ports-update :
    (n p : ℕ) (q : ℕ) (now idle : ℤ) (slots : ℕ → TrackerSlot) (s : TrackerSlot)
    → q < p
    → stale_ports n p now idle (update slots q s) ≡ stale_ports n p now idle slots
unfolding stale_ports
stale_ports-update zero p q now idle slots s h = refl
stale_ports-update (suc n) p q now idle slots s h =
    ground (arith, stale_ports-update n (p + 1) q now idle slots s (omega arith))

sweep_loop_count :
    (n p : ℕ) (now idle : ℤ) (slots : ℕ → TrackerSlot)
    → (sweep_loop n p now idle slots).1 ≡ stale_ports n p now idle slots
unfolding sweep_loop stale_ports
sweep_loop_count zero p now idle slots = refl
sweep_loop_count (suc n) p now idle slots = ground (
  arith,
  sweep_slot_lem now idle (slots p),
  sweep_loop_count n (p + 1) now idle (update slots p (sweep_slot now idle (slots p)).0),
  stale_ports-update n (p + 1) p now idle slots (sweep_slot now idle (slots p)).0 (omega arith),
)

-- With a positive timeout the idle sweep empties the word of exactly the stale ports below 65536 and
-- changes nothing else, and it returns their number. With any other timeout it does nothing.
pub sweep_idle_lem :
    (now idle : ℤ) (t : PortTracker) (q : ℕ)
    → q < 65536
    → let on = not (leb_ℤ idle (pos 0)) in
      ((sweep_idle now idle t).0.slots q ≡ (
        if on && is_stale now idle (t.slots q)
        then record (t.slots q) { word = empty_word }
        else t.slots q))
      × ((sweep_idle now idle t).1 ≡ (if on then stale_ports 65536 0 now idle t.slots else 0))
unfolding sweep_idle
sweep_idle_lem now idle t q h = elim (Bool-cases (leb_ℤ idle (pos 0))) [
  | inl off ↦ rw (off, sweep_idle) (refl, refl)
  | inr on ↦
      rw (on, sweep_idle)
        (
          ground (
            arith,
            sweep_loop_slot 65536 0 q now idle t.slots,
            sweep_slot_lem now idle (t.slots q),
          ),
          sweep_loop_count 65536 0 now idle t.slots,
        )
]
