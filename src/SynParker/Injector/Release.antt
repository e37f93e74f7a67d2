-- ===== src/SynParker/Injector/Release.antt =====
-- src/core/syn_parker.hpp: a parked SYN is sent once, as the decision says, and its entry is freed.
use clew_proxy.Prelude.{
  ℕ, ◌+◌, ◌%◌, ◌^◌, ◌≤◌, ◌<◌, ◌≡◌, refl, true, false, [], ◌∷◌, ℤ, arith, ap, ◌∙◌,
}
use native.Mathlib.Nat.{mod-eq_of_lt}
use clew_proxy.PortTracker.Word.{
  SlotState, pending, same_state, pack_word, word_state, word_gen, word_idx,
}
use clew_proxy.PortTracker.Word.Laws.{word_state-pack_word, word_gen-pack_word, word_idx-pack_word}
use clew_proxy.PortTracker.Slot.{TrackerEntry}
use clew_proxy.PortTracker.Race.{
  Shared, finished, retry, released_parked, publish, stored, late_rejected,
}
use clew_proxy.PortTracker.Race.Outcome.{publish_pending}
use clew_proxy.SynParker.Packet.{Sent, Divert}
use clew_proxy.SynParker.Pool.{free}
use clew_proxy.SynParker.Injector.{
  Net, ReleasePath, by_decision, send_released, release_parked, release, drain_requests,
  drain_queue,
}

-- The packet that a release of the entry `i` sends.
abbrev pub released_packet : Divert → SlotState → ℕ → Net → Sent
released_packet d decision i w =
    (send_released d w.parker.redirect_port decision (w.parker.pool i).pkt (w.parker.pool i).addr).0

-- Where the generation of an entry has 32 bits: a release by a reference of that generation sends
-- the parked packet, once, and frees the entry; a second release by the same reference, whatever
-- its decision, sends nothing and leaves the pool as it is.
pub release_parked_once :
    (d : Divert) (now later : ℤ) (i : ℕ) (decision other : SlotState) (path again : ReleasePath)
    (w : Net)
    → (w.parker.pool i).gen < 2 ^ 32
    → let g = (w.parker.pool i).gen in
      let v = release_parked d now i g decision path w in
      let u = release_parked d later i g other again v in
      (v.sent ≡ released_packet d decision i w ∷ w.sent)
      × ((v.parker.pool i).in_use ≡ false)
      × (u.sent ≡ v.sent)
      × (u.parker.pool ≡ v.parker.pool)
unfolding release_parked free
release_parked_once d now later i decision other path again w h = ground arith

-- `publish` on the slot, `release` of the reference that it returns, and a turn of the queue.
pub decide : Divert → ℤ → ℕ → SlotState → TrackerEntry → ℤ → Shared → Net → Net
decide d now port decision e ts s w = elim (publish decision e ts [] s) [
  | retry v ↦ w
  | finished v o ↦ elim o [
    | stored ↦ w
    | late_rejected ↦ w
    | released_parked ref ↦
        drain_queue d now (record w { parker = release ref port decision w.parker })
  ]
]

module _ (d : Divert) (now : ℤ) (port : ℕ) (decision : SlotState) (e : TrackerEntry) (ts : ℤ)
    (s : Shared) (w : Net) (i : ℕ) (small : i < 2 ^ 32) (idle : w.parker.queue ≡ [])
    (parked : s.slot.word ≡ pack_word pending (w.parker.pool i).gen i) where
  abbrev gen : ℕ
  gen = (w.parker.pool i).gen

  is_pending : same_state (word_state s.slot.word) pending ≡ true
  is_pending = ground (arith, parked, word_state-pack_word pending gen i tt small)

  idx_lem : word_idx s.slot.word ≡ i
  idx_lem = ap word_idx parked ∙ word_idx-pack_word pending gen i small

  gen_lem : word_gen s.slot.word ≡ gen % 2 ^ 24
  gen_lem = ap word_gen parked ∙ word_gen-pack_word pending gen i small

  decide_lem :
      decide d now port decision e ts s w
      ≡ release_parked d now i
          (gen % 2 ^ 24)
          decision
          by_decision
          (record w { parker = record w.parker { queue = [] } })
  unfolding decide drain_queue drain_requests release
  decide_lem = rw (publish_pending decision e ts s is_pending, decide, idx_lem, gen_lem, idle) refl

  -- A SYN is parked in the entry `i`, an index of 32 bits, the slot is pending on it, the release
  -- queue is empty and no other thread interferes. If the generation of the entry is below 2 ^ 24,
  -- then a decision that is published, queued and drained sends the parked packet, once, as the
  -- decision says, and the entry is free again.
  pub decided_syn_is_sent :
      gen < 2 ^ 24
      → let v = decide d now port decision e ts s w in
        (v.sent ≡ released_packet d decision i w ∷ w.sent) × ((v.parker.pool i).in_use ≡ false)
  unfolding release_parked free
  decided_syn_is_sent h = rw decide_lem (ground (arith, mod-eq_of_lt h))

  -- In the same situation, with a generation of the entry from 2 ^ 24 on, of which the word keeps
  -- 24 bits: the reference that `publish` returns does not match the entry, the parked packet is
  -- not sent, the entry stays as much in use as it was, and the mismatch is counted.
  pub decided_syn_is_lost :
      2 ^ 24 ≤ gen
      → let v = decide d now port decision e ts s w in
        (v.sent ≡ w.sent)
        × ((v.parker.pool i).in_use ≡ (w.parker.pool i).in_use)
        × (v.parker.counters.gen_mismatch ≡ w.parker.counters.gen_mismatch + 1)
  unfolding release_parked
  decided_syn_is_lost h = rw decide_lem (ground arith)
