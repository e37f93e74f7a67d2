-- ===== src/WindivertNetwork.antt =====
-- src/core/windivert_network.hpp: what a NETWORK worker does with each outbound TCP packet.
--
-- The worker's state is the tracker, the parker and the log of sent packets (`Net`), with the two
-- counters. What other threads do to the slot between the worker's load and its exchange is the
-- argument `race`; the clock that `park` reads is an argument too.
pub mod Fate
use clew_proxy.Prelude.{
  ℕ, ◌+◌, Bool, true, false, not, ◌&&◌, ◌||◌, if◌then◌else◌, ltb, ◌==◌, List, ◌∷◌, ℤ, ◌-ℤ◌, leb_ℤ,
}
use clew_proxy.PortTracker.Word.{
  SlotState, pending, proxied, direct, abandoned, same_state, word_state, no_pool_idx,
}
use clew_proxy.PortTracker.Slot.{
  TrackerSlot, load, note_syn, is_retransmit, try_park, pin_abandoned, should_reflect, touch, peek,
}
use clew_proxy.PortTracker.Table.{PortTracker, update}
use clew_proxy.PortTracker.Race.{ParkedRef}
use clew_proxy.SynParker.Packet.{Packet, Address, Sent, Divert, reflect_outbound_packet}
use clew_proxy.SynParker.Pool.{SynParkingCounters, SynParker, max_packet, park, free}
use clew_proxy.SynParker.Injector.{Net}

pub record Worker : Type 0 where
  pub net : Net
  pub nat_count : ℕ
  pub pass_count : ℕ

abbrev pub log : Sent → Worker → Worker
log s w = let n = w.net in record w { net = record n { sent = s ∷ n.sent } }

abbrev pub set_slot : ℕ → TrackerSlot → Worker → Worker
set_slot port s w =
    let n = w.net in
    let t = n.tracker in
    record w { net = record n { tracker = record t { slots = update t.slots port s } } }

abbrev pub slot_at : Worker → ℕ → TrackerSlot
slot_at w port = w.net.tracker.slots port

abbrev pub set_parker : SynParker → Worker → Worker
set_parker p w = let n = w.net in record w { net = record n { parker = p } }

abbrev pub bump : (SynParkingCounters → SynParkingCounters) → Worker → Worker
bump f w = let p = w.net.parker in set_parker (record p { counters = f p.counters }) w

unfoldable pub passthrough : Packet → Address → Worker → Worker
passthrough pkt addr w = record (log (record { pkt = pkt; addr = addr }) w) {
  pass_count = w.pass_count + 1;
}

unfoldable pub act : Divert → ℕ → SlotState → Packet → Address → Worker → Worker
unfolding passthrough reflect_outbound_packet
act d redirect_port st pkt addr w =
    if same_state st proxied
    then record (log (reflect_outbound_packet d redirect_port pkt addr).0 w) {
      nat_count = w.nat_count + 1;
    }
    else passthrough pkt addr w

-- The end of `handle_syn`, with the reference and the parker that `park` returned.
unfoldable pub commit_park :
    Divert
    → ℕ
    → (TrackerSlot → TrackerSlot)
    → ℕ
    → Packet
    → Address
    → Worker
    → ParkedRef
    → SynParker
    → Worker
commit_park d redirect_port race loaded pkt addr w ref p =
    let port = pkt.src_port in
    let parked = set_parker p w in
    let raced = race (slot_at w port) in
    let pinned = (pin_abandoned loaded addr.timestamp raced).0 in
    let (s, won) = try_park loaded ref.gen ref.idx raced in
    let lost =
      bump (λ c. record c { cas_lost_to_decision = c.cas_lost_to_decision + 1 })
        (set_slot port s parked) in
    if ref.idx == no_pool_idx
    then passthrough pkt addr (
        set_slot port pinned
          (bump (λ c. record c { pool_exhausted = c.pool_exhausted + 1 }) parked))
    else if won
    then bump (λ c. record c { parked = c.parked + 1 }) (set_slot port s parked)
    else act d redirect_port (word_state s.word) pkt addr
        (set_parker (free ref.idx lost.net.parker) lost)

-- The part of `handle_syn` from "Park" on, for a slot whose word was loaded as `loaded`.
unfoldable pub park_syn :
    Divert → ℕ → ℤ → (TrackerSlot → TrackerSlot) → ℕ → Packet → Address → Worker → Worker
park_syn d redirect_port now race loaded pkt addr w =
    let (ref, p) = park now pkt addr pkt.src_port w.net.parker in
    if ltb max_packet pkt.len
    then passthrough pkt addr (bump (λ c. record c { oversize = c.oversize + 1 }) w)
    else commit_park d redirect_port race loaded pkt addr w ref p

unfoldable pub handle_syn :
    Divert → ℕ → ℤ → (TrackerSlot → TrackerSlot) → Packet → Address → Worker → Worker
handle_syn d redirect_port now race pkt addr w =
    let port = pkt.src_port in
    let v = load (slot_at w port) in
    let st = word_state v.word in
    let ref = if same_state st abandoned then v.pinned_ts else v.connect_ts in
    let noted = set_slot port (note_syn pkt.seq_num (slot_at w port)) w in
    let stale = bump (λ c. record c { ttl_stale = c.ttl_stale + 1 }) noted in
    if same_state st proxied || same_state st direct || same_state st abandoned
    then if leb_ℤ (addr.timestamp -ℤ ref) w.net.tracker.ttl_ticks
      then act d redirect_port st pkt addr noted
      else if is_retransmit pkt.seq_num (slot_at w port)
      then act d redirect_port st pkt addr
          (bump (λ c. record c { retransmit_passed = c.retransmit_passed + 1 }) w)
      else park_syn d redirect_port now race v.word pkt addr stale
    else if same_state st pending
    then bump (λ c. record c { dup_syn_dropped = c.dup_syn_dropped + 1 }) w
    else park_syn d redirect_port now race v.word pkt addr noted

-- A packet from the local listener goes back to the application.
unfoldable pub reflect_reply : Divert → Packet → Address → Worker → Worker
reflect_reply d pkt addr w =
    let app_port = pkt.dst_port in
    let s = slot_at w app_port in
    let entry = peek s in
    let out =
      d.calc_checksums
        (record pkt {
          src_addr = pkt.dst_addr;
          dst_addr = pkt.src_addr;
          src_port = entry.remote_port;
        })
        (record addr { outbound = false }) in
    if not (should_reflect s)
    then log (record { pkt = pkt; addr = addr }) w
    else log out (set_slot app_port (touch addr.timestamp s) w)

-- The body of `worker_loop` for one packet; `parking` is whether there is a parker.
unfoldable pub worker_step :
    Divert → ℕ → Bool → ℤ → (TrackerSlot → TrackerSlot) → Packet → Address → Worker → Worker
worker_step d redirect_port parking now race pkt addr w =
    let s = slot_at w pkt.src_port in
    let replied = reflect_reply d pkt addr w in
    let touched = set_slot pkt.src_port (touch addr.timestamp s) w in
    if not pkt.parsed
    then log (record { pkt = pkt; addr = addr }) w
    else if pkt.src_port == redirect_port
    then record replied { nat_count = replied.nat_count + 1 }
    else if pkt.syn && not pkt.ack && parking
    then handle_syn d redirect_port now race pkt addr w
    else if should_reflect s
    then record (log (reflect_outbound_packet d redirect_port pkt addr).0 touched) {
      nat_count = w.nat_count + 1;
    }
    else passthrough pkt addr w
