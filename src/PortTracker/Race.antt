-- ===== src/PortTracker/Race.antt =====
-- src/core/port_tracker.hpp: the strand's compare-exchange loops (`publish`, `on_close`, `clear_if`)
-- while the NETWORK workers, the injector and the idle sweep run.
--
-- An `Event` is one step of another thread on the slot; a loop takes, for each round, the events that
-- fall between its accesses. After the rounds given, nobody interferes. `Shared` keeps beside the slot
-- a log of the pool references that the other threads parked in it and took out of it.
pub mod Ownership
pub mod History
pub mod Outcome
pub mod Close
use clew_proxy.Prelude.{
  ℕ, Bool, true, false, ◌&&◌, if◌then◌else◌, Option, none, some, List, [], ◌∷◌, ℤ, ltb_ℤ, eq_ℤ,
}
use clew_proxy.PortTracker.Word.{
  SlotState, empty, pending, proxied, abandoned, same_state, word_state, word_gen, word_idx,
  pack_word, decided_word, empty_word,
}
use clew_proxy.PortTracker.Slot.{
  TrackerEntry, TrackerSlot, cas, note_syn, touch, try_park, fresh_slot,
}

pub record ParkedRef : Type 0 where
  pub idx : ℕ
  pub gen : ℕ

abbrev pub ref_of : ℕ → ParkedRef
ref_of w = record { idx = word_idx w; gen = word_gen w }

pub record Shared : Type 0 where
  pub slot : TrackerSlot
  pub parked : List ParkedRef
  pub pinned : List ParkedRef

abbrev pub fresh : Shared
fresh = record { slot = fresh_slot; parked = []; pinned = [] }

-- `pin_abandoned` is two steps, the write of `pinned_ts` and the exchange.
pub data Event : Type 0 where
  notes : (seq : ℕ) → Event
  touches : (ts : ℤ) → Event
  parks : (expected gen idx : ℕ) → Event
  pin_writes : (ts : ℤ) → Event
  pin_swaps : (expected : ℕ) → Event
  sweeps : (expected : ℕ) → Event

-- The exchange of `pin_abandoned`: a winner that found the slot pending owns its reference.
pub pin_swap : ℕ → Shared → Shared
unfolding cas
pin_swap expected w =
    let (s, won) = cas expected (decided_word abandoned) w.slot in
    let taken =
      if same_state (word_state expected) pending then ref_of expected ∷ w.pinned else w.pinned in
    if won then record w { slot = s; pinned = taken } else w

pub park_swap : ℕ → ℕ → ℕ → Shared → Shared
park_swap expected gen idx w =
    let (s, won) = try_park expected gen idx w.slot in
    if won then record w { slot = s; parked = ref_of (pack_word pending gen idx) ∷ w.parked } else w

pub event : Event → Shared → Shared
unfolding pin_swap park_swap note_syn touch cas
event (notes seq) w = record w { slot = note_syn seq w.slot }
event (touches ts) w = record w { slot = touch ts w.slot }
event (parks expected gen idx) w = park_swap expected gen idx w
event (pin_writes ts) w = let s = w.slot in record w { slot = record s { pinned_ts = ts } }
event (pin_swaps expected) w = pin_swap expected w
event (sweeps expected) w = record w { slot = (cas expected empty_word w.slot).0 }

pub events : List Event → Shared → Shared
events [] w = w
events (e ∷ es) w = events es (event e w)

-- One round of a loop: it ends with a result, or its exchange failed.
pub data Attempt (R : Type 0) : Type 0 where
  finished : Shared → R → Attempt R
  retry : Shared → Attempt R

module _ {R : Type 0} {E : Type 0} (quiet : E) (round : E → Shared → Attempt R) where
  pub loop : List E → Shared → Attempt R
  loop [] w = round quiet w
  loop (e ∷ es) w = elim (round e w) [ finished v r ↦ finished v r | retry v ↦ loop es v ]

pub data PublishOutcome : Type 0 where
  stored late_rejected : PublishOutcome
  released_parked : ParkedRef → PublishOutcome

-- The events between the load of the word and the read of `pinned_ts`, and those between the writes
-- of the auxiliary fields and the exchange.
pub record PublishRace : Type 0 where
  pub before_read : List Event
  pub before_cas : List Event

abbrev pub no_race : PublishRace
no_race = record { before_read = []; before_cas = [] }

pub write_aux : TrackerEntry → ℤ → TrackerSlot → TrackerSlot
write_aux e connect_ts s = record s { connect_ts = connect_ts; entry = e; last_seen = connect_ts }

module _ {R : Type 0} where
  -- The end of a round: exchange the loaded word, or go round again.
  pub swap_or_retry : ℕ → ℕ → R → Shared → Attempt R
  unfolding cas
  swap_or_retry loaded desired r w =
      let (s, won) = cas loaded desired w.slot in
      if won then finished (record w { slot = s }) r else retry w

pub publish_outcome : ℕ → PublishOutcome
publish_outcome loaded =
    if same_state (word_state loaded) pending then released_parked (ref_of loaded) else stored

pub publish_round : SlotState → TrackerEntry → ℤ → PublishRace → Shared → Attempt PublishOutcome
publish_round decision e connect_ts race w =
    let loaded = w.slot.word in
    let w₁ = events race.before_read w in
    let w₂ = events race.before_cas (record w₁ { slot = write_aux e connect_ts w₁.slot }) in
    if same_state (word_state loaded) abandoned && ltb_ℤ connect_ts w₁.slot.pinned_ts
    then finished w₁ late_rejected
    else swap_or_retry loaded (decided_word decision) (publish_outcome loaded) w₂

pub publish : SlotState → TrackerEntry → ℤ → List PublishRace → Shared → Attempt PublishOutcome
publish decision e connect_ts = loop no_race (publish_round decision e connect_ts)

-- The result of `on_close` with the generation beside the pool index that the code returns.
pub close_outcome : ℕ → Option ParkedRef
close_outcome loaded = if same_state (word_state loaded) pending then some (ref_of loaded) else none

pub close_round : ℤ → List Event → Shared → Attempt (Option ParkedRef)
close_round close_ts race w =
    let loaded = w.slot.word in
    let w₁ = events race w in
    if same_state (word_state loaded) empty
    then finished w none
    else if ltb_ℤ close_ts w.slot.connect_ts
    then finished w none
    else if same_state (word_state loaded) proxied
    then finished w none
    else swap_or_retry loaded empty_word (close_outcome loaded) w₁

pub on_close : ℤ → List (List Event) → Shared → Attempt (Option ParkedRef)
on_close close_ts = loop [] (close_round close_ts)

pub clear_round : ℤ → List Event → Shared → Attempt Bool
clear_round connect_ts race w =
    let loaded = w.slot.word in
    let w₁ = events race w in
    if same_state (word_state loaded) empty
    then finished w false
    else if eq_ℤ w.slot.connect_ts connect_ts
    then swap_or_retry loaded empty_word true w₁
    else finished w false

pub clear_if : ℤ → List (List Event) → Shared → Attempt Bool
clear_if connect_ts = loop [] (clear_round connect_ts)
