-- ===== src/WindivertNetwork/Fate.antt =====
-- src/core/windivert_network.hpp: what becomes of each packet that a worker takes off the wire.
use clew_proxy.Prelude.{
  ℕ, ◌<◌, ◌≡◌, refl, ◌⊎◌, inl, inr, Bool, true, false, ◌||◌, if◌then◌else◌, ltb, ◌==◌, ◌∷◌, ℤ,
  leb_ℤ, ◌-ℤ◌, arith, Bool-cases,
}
use clew_proxy.PortTracker.Word.{
  SlotState, pending, proxied, direct, abandoned, same_state, word_state, no_pool_idx, pack_word,
}
use clew_proxy.PortTracker.Slot.{TrackerSlot, load, note_syn, is_retransmit, try_park}
use clew_proxy.PortTracker.Table.{update}
use clew_proxy.SynParker.Packet.{Packet, Address, Divert, reflect_outbound_packet}
use clew_proxy.SynParker.Pool.{SynParker, max_packet}
use clew_proxy.PortTracker.Race.{ParkedRef}
use clew_proxy.SynParker.Pool.Laws.{Parked, park-Parked}
use clew_proxy.WindivertNetwork.{
  commit_park, Worker, passthrough, act, park_syn, handle_syn, slot_at,
}

-- The packet went out once: as it was, or reflected, and that only if `saw` is true.
abbrev pub SentOnce : Divert → ℕ → Bool → Packet → Address → Worker → Worker → Type 0
SentOnce d port saw pkt addr w v =
    (v.net.sent ≡ record { pkt = pkt; addr = addr } ∷ w.net.sent)
    ⊎ ((v.net.sent ≡ (reflect_outbound_packet d port pkt addr).0 ∷ w.net.sent) × (saw ≡ true))

-- Nothing was sent; the packet is in a pool entry in use, and the slot is pending on that entry.
abbrev pub HeldBack : Packet → Address → Worker → Worker → Type 0
HeldBack pkt addr w v =
    (i : ℕ) × (v.net.sent ≡ w.net.sent)
    × ((slot_at v pkt.src_port).word ≡ pack_word pending (v.net.parker.pool i).gen i)
    × ((v.net.parker.pool i).in_use ≡ true)
    × ((v.net.parker.pool i).pkt ≡ pkt)
    × ((v.net.parker.pool i).addr ≡ addr)
    × ((v.net.parker.pool i).port ≡ pkt.src_port)

act-SentOnce :
    (d : Divert) (port : ℕ) (saw : Bool) (st : SlotState) (pkt : Packet) (addr : Address)
    (w : Worker)
    → (same_state st proxied ≡ true → saw ≡ true)
    → SentOnce d port saw pkt addr w (act d port st pkt addr w)
unfolding act passthrough
act-SentOnce d port saw st pkt addr w h = ground arith

try_park_won :
    (x g i : ℕ) (s : TrackerSlot)
    → (try_park x g i s).1 ≡ true
    → (try_park x g i s).0.word ≡ pack_word pending g i
unfolding try_park
try_park_won x g i s h = ground arith

try_park_lost :
    (x g i : ℕ) (s : TrackerSlot) → (try_park x g i s).1 ≡ false → (try_park x g i s).0 ≡ s
unfolding try_park
try_park_lost x g i s h = ground arith

module _ (d : Divert) (port : ℕ) (now : ℤ) (race : TrackerSlot → TrackerSlot) (loaded : ℕ)
    (pkt : Packet) (addr : Address) (saw : Bool) (w : Worker)
    (seen : same_state (word_state (race (slot_at w pkt.src_port)).word) proxied ≡ true
      → saw ≡ true) where
  commit_park-fate :
      (ref : ParkedRef) (p : SynParker)
      → Parked now pkt addr pkt.src_port w.net.parker ref p
      → let v = commit_park d port race loaded pkt addr w ref p in
        SentOnce d port saw pkt addr w v ⊎ HeldBack pkt addr w v
  unfolding commit_park passthrough
  commit_park-fate ref p (inl full) = inl (inl (ground (arith, full.0)))
  commit_park-fate ref p (inr held) = elim (Bool-cases (ref.idx == no_pool_idx)) [
    | inl full ↦ rw (full, commit_park) (inl (inl refl))
    | inr room ↦ elim (Bool-cases (try_park loaded ref.gen ref.idx raced).1) [
      | inl won ↦
          rw (room, won, commit_park)
            (inr (
              ref.idx,
              refl,
              ground (arith, held.2, try_park_won loaded ref.gen ref.idx raced won),
              ground (arith, held.2),
              ground (arith, held.2),
              ground (arith, held.2),
              ground (arith, held.2),
            ))
      | inr lost ↦
          rw (room, lost, commit_park)
            (inl (
              act-SentOnce d port saw _ pkt addr _
                (λ e. seen (ground (arith, try_park_lost loaded ref.gen ref.idx raced lost)))))
    ]
  ]
    where
      raced : TrackerSlot
      raced = race (slot_at w pkt.src_port)

  park_syn-fate :
      0 < w.net.parker.pool_size
      → let v = park_syn d port now race loaded pkt addr w in
        SentOnce d port saw pkt addr w v ⊎ HeldBack pkt addr w v
  unfolding park_syn passthrough
  park_syn-fate h = elim (Bool-cases (ltb max_packet pkt.len)) [
    | inl large ↦ rw (large, park_syn) (inl (inl refl))
    | inr fits ↦
        rw (fits, park_syn)
          (commit_park-fate _ _ (park-Parked now pkt addr pkt.src_port w.net.parker h))
  ]

-- A `proxied` decision in the slot, at the load or at the exchange after it.
abbrev pub saw_proxied : (TrackerSlot → TrackerSlot) → Packet → Worker → Bool
saw_proxied race pkt w =
    let s = slot_at w pkt.src_port in
    same_state (word_state s.word) proxied
    || same_state (word_state (race (note_syn pkt.seq_num s)).word) proxied

-- With a pool that is not of size 0: of every SYN that `handle_syn` is given, whatever other
-- threads do to the slot meanwhile, one of three things becomes. It is sent once, unchanged or,
-- only if the slot said `proxied`, reflected; or it is held in a pool entry that the pending slot
-- points to; or the slot was pending already, and neither the tracker, nor the pool, nor what was
-- sent changes.
pub handle_syn-fate :
    (d : Divert) (port : ℕ) (now : ℤ) (race : TrackerSlot → TrackerSlot) (pkt : Packet)
    (addr : Address) (w : Worker)
    → 0 < w.net.parker.pool_size
    → let v = handle_syn d port now race pkt addr w in
      SentOnce d port (saw_proxied race pkt w) pkt addr w v
      ⊎ HeldBack pkt addr w v
      ⊎ ((same_state (word_state (slot_at w pkt.src_port).word) pending ≡ true)
          × (v.net.sent ≡ w.net.sent)
          × (v.net.tracker ≡ w.net.tracker)
          × (v.net.parker.pool ≡ w.net.parker.pool))
unfolding handle_syn load
handle_syn-fate d port now race pkt addr w h =
    elim (Bool-cases (same_state st proxied || same_state st direct || same_state st abandoned)) [
      | inl held ↦ elim (Bool-cases (leb_ℤ (addr.timestamp -ℤ ref) w.net.tracker.ttl_ticks)) [
        | inl young ↦
            rw (held, young, handle_syn) (inl (act-SentOnce d port saw st pkt addr _ loaded))
        | inr old ↦ elim (Bool-cases (is_retransmit pkt.seq_num s)) [
          | inl again ↦
              rw (held, old, again, handle_syn) (inl (act-SentOnce d port saw st pkt addr _ loaded))
          | inr fresh ↦
              rw (held, old, fresh, handle_syn)
                (left (park_syn-fate d port now race s.word pkt addr saw _ (λ e. raced e) h))
        ]
      ]
      | inr undecided ↦ elim (Bool-cases (same_state st pending)) [
        | inl dup ↦ rw (undecided, dup, handle_syn) (inr (inr (refl, refl, refl, refl)))
        | inr vacant ↦
            rw (undecided, vacant, handle_syn)
              (left (park_syn-fate d port now race s.word pkt addr saw _ (λ e. raced e) h))
      ]
    ]
  where
    s : TrackerSlot
    s = slot_at w pkt.src_port

    st : SlotState
    st = word_state s.word

    ref : ℤ
    ref = if same_state st abandoned then s.pinned_ts else s.connect_ts

    saw : Bool
    saw = saw_proxied race pkt w

    loaded : same_state st proxied ≡ true → saw ≡ true
    loaded e = ground arith

    self :
        (update w.net.tracker.slots pkt.src_port (note_syn pkt.seq_num s)) pkt.src_port
        ≡ note_syn pkt.seq_num s
    self = ground arith

    raced :
        same_state
            (word_state
              (race (
                update w.net.tracker.slots pkt.src_port
                  (note_syn pkt.seq_num s)
                  pkt.src_port)).word)
            proxied
          ≡ true
        → saw ≡ true
    raced e = ground (arith, self)

    left : {A B C : Type 0} → A ⊎ B → A ⊎ B ⊎ C
    left (inl a) = inl a
    left (inr b) = inr (inl b)
