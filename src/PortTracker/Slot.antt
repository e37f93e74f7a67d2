-- ===== src/PortTracker/Slot.antt =====
-- src/core/port_tracker.hpp: the slot and the methods that take one step on it.
--
-- A method is a function on the slot that the call indexes. Timestamps are int64 ticks that do not
-- overflow, so they are integers. Memory orders are not modelled: each access is one step.
use clew_proxy.Prelude.{
  ℕ, Bool, true, false, not, ◌&&◌, ◌||◌, ◌==◌, if◌then◌else◌, Option, none, some, List, [], ◌∷◌, ℤ,
  ◌-ℤ◌, leb_ℤ, ltb_ℤ, eq_ℤ, pos,
}
use clew_proxy.PortTracker.Word.{
  SlotState, pending, proxied, direct, abandoned, same_state, pack_word, word_state, decided_word,
  empty_word,
}

pub record TrackerEntry : Type 0 where
  pub remote_addr : List ℕ  -- uint32_t[4]
  pub remote_port : ℕ  -- uint16_t
  pub group_id : ℕ  -- uint32_t

abbrev pub no_entry : TrackerEntry
no_entry = record { remote_addr = 0 ∷ 0 ∷ 0 ∷ 0 ∷ []; remote_port = 0; group_id = 0 }

pub record TrackerSlot : Type 0 where
  pub word : ℕ
  pub connect_ts : ℤ
  pub pinned_ts : ℤ
  pub last_seen : ℤ
  pub entry : TrackerEntry
  pub syn_seq : ℕ

abbrev pub fresh_slot : TrackerSlot
fresh_slot = record {
  word = empty_word;
  connect_ts = pos 0;
  pinned_ts = pos 0;
  last_seen = pos 0;
  entry = no_entry;
  syn_seq = 0;
}

-- `word.compare_exchange_strong(expected, desired)`.
unfoldable pub cas : ℕ → ℕ → TrackerSlot → TrackerSlot × Bool
cas expected desired s =
    if s.word == expected then (record s { word = desired }, true) else (s, false)

-- What `load` returns: a consistent copy of the three fields.
pub record SlotView : Type 0 where
  pub word : ℕ
  pub connect_ts : ℤ
  pub pinned_ts : ℤ

unfoldable pub load : TrackerSlot → SlotView
load s = record { word = s.word; connect_ts = s.connect_ts; pinned_ts = s.pinned_ts }

unfoldable pub should_reflect : TrackerSlot → Bool
should_reflect s = same_state (word_state s.word) proxied

unfoldable pub peek : TrackerSlot → TrackerEntry
peek s = s.entry

unfoldable pub note_syn : ℕ → TrackerSlot → TrackerSlot
note_syn seq s = record s { syn_seq = seq }

unfoldable pub is_retransmit : ℕ → TrackerSlot → Bool
is_retransmit seq s = s.syn_seq == seq

unfoldable pub touch : ℤ → TrackerSlot → TrackerSlot
touch ts s = record s { last_seen = ts }

unfoldable pub try_park : ℕ → ℕ → ℕ → TrackerSlot → TrackerSlot × Bool
unfolding cas
try_park expected gen idx = cas expected (pack_word pending gen idx)

unfoldable pub pin_abandoned : ℕ → ℤ → TrackerSlot → TrackerSlot × Bool
unfolding cas
pin_abandoned expected syn_ts s =
    cas expected (decided_word abandoned) (record s { pinned_ts = syn_ts })

-- A decided state, `proxied` or `direct`.
abbrev pub is_decision : SlotState → Bool
is_decision st = same_state st proxied || same_state st direct

list_eq : List ℕ → List ℕ → Bool
list_eq [] [] = true
list_eq (x ∷ xs) (y ∷ ys) = x == y && list_eq xs ys
list_eq _ _ = false

unfoldable pub is_echo : ℤ → ℤ → List ℕ → ℕ → TrackerSlot → Bool
unfolding list_eq
is_echo ttl_ticks connect_ts remote_addr remote_port s =
    if not (is_decision (word_state s.word))
    then false
    else if ltb_ℤ ttl_ticks (connect_ts -ℤ s.connect_ts)
    then false
    else s.entry.remote_port == remote_port && list_eq s.entry.remote_addr remote_addr

pub record Taken : Type 0 where
  pub entry : TrackerEntry
  pub connect_ts : ℤ

unfoldable pub take : TrackerSlot → Option Taken
take s =
    if same_state (word_state s.word) proxied
    then some (record { entry = s.entry; connect_ts = s.connect_ts })
    else none

-- The body of the loop of `sweep_idle` on one slot, and whether it counts a cleared slot.
unfoldable pub sweep_slot : ℤ → ℤ → TrackerSlot → TrackerSlot × Bool
unfolding cas
sweep_slot now idle_ticks s =
    let base = if eq_ℤ s.last_seen (pos 0) then s.connect_ts else s.last_seen in
    if not (is_decision (word_state s.word))
    then (s, false)
    else if leb_ℤ (now -ℤ base) idle_ticks
    then (s, false)
    else cas s.word empty_word s
