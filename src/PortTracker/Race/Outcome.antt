-- ===== src/PortTracker/Race/Outcome.antt =====
-- src/core/port_tracker.hpp: how the strand's loops end, under any interference.
use clew_proxy.Prelude.{
  ℕ, ◌≡◌, refl, ◌⊎◌, Bool, true, false, not, ◌&&◌, if◌then◌else◌, some, List, [], ◌∷◌, ℤ, arith,
  ltb_ℤ, eq_ℤ,
}
use clew_proxy.PortTracker.Word.{
  SlotState, empty, pending, same_state, word_state, decided_word, empty_word,
}
use clew_proxy.PortTracker.Word.Laws.{word_state-empty_word}
use clew_proxy.PortTracker.Slot.{TrackerEntry, TrackerSlot, try_park}
use clew_proxy.PortTracker.Race.{
  ParkedRef, ref_of, Shared, Event, notes, parks, pin_swaps, sweeps, event, events, Attempt,
  finished, retry, loop, PublishOutcome, late_rejected, released_parked, PublishRace, no_race,
  write_aux, swap_or_retry, publish_outcome, publish_round, publish, close_round, close_outcome,
  on_close, clear_round, clear_if,
}
use clew_proxy.PortTracker.Race.Ownership.{same_ref, Balance}

-- Only the strand writes these two fields.
abbrev pub SameOwned : TrackerSlot → TrackerSlot → Type 0
SameOwned s t = (t.connect_ts ≡ s.connect_ts) × (t.entry ≡ s.entry)

pub event-SameOwned : (e : Event) (w : Shared) → SameOwned w.slot (event e w).slot
unfolding event try_park
event-SameOwned (notes seq) w = (refl, refl)
event-SameOwned (parks x g i) w = ground arith
event-SameOwned (pin_swaps x) w = ground arith
event-SameOwned (sweeps x) w = ground arith
event-SameOwned e w = (refl, refl)

pub events-SameOwned : (es : List Event) (w : Shared) → SameOwned w.slot (events es w).slot
unfolding events
events-SameOwned [] w = (refl, refl)
events-SameOwned (e ∷ es) w = ground (arith, event-SameOwned e w, events-SameOwned es (event e w))

-- An attempt that ended, with a result that fits; and one that fits if it ended.
abbrev pub EndsIn : {R : Type 0} → (Shared → R → Type 0) → Attempt R → Type 0
EndsIn Post (finished v o) = Post v o
EndsIn Post (retry v) = ⊥

abbrev MayEndIn : {R : Type 0} → (Shared → R → Type 0) → Attempt R → Type 0
MayEndIn Post (finished v o) = Post v o
MayEndIn Post (retry v) = Unit

-- A loop ends if its quiet round ends.
module _ {R : Type 0} {E : Type 0} (quiet : E) (round : E → Shared → Attempt R)
    (Post : Shared → R → Type 0) where
  loop-EndsIn :
      ((w : Shared) → EndsIn Post (round quiet w))
      → ((e : E) (w : Shared) → MayEndIn Post (round e w))
      → (es : List E) (w : Shared) → EndsIn Post (loop quiet round es w)
  unfolding loop
  loop-EndsIn q m [] w = q w
  loop-EndsIn q m (e ∷ es) w = go (round e w) (m e w) (loop-EndsIn q m es)
    where
      go :
          (a : Attempt R)
          → MayEndIn Post a
          → ((v : Shared) → EndsIn Post (loop quiet round es v))
          → EndsIn Post (elim a [ finished v o ↦ finished v o | retry v ↦ loop quiet round es v ])
      go (finished v o) h k = h
      go (retry v) h k = k v

-- A publish is refused as late only if the flow was pinned after its CONNECT; else the slot holds the
-- decision, the entry and the timestamp.
abbrev pub Published : SlotState → TrackerEntry → ℤ → Shared → PublishOutcome → Type 0
Published d e ts v late_rejected = ltb_ℤ ts v.slot.pinned_ts ≡ true
Published d e ts v _ =
    (v.slot.word ≡ decided_word d) × (v.slot.entry ≡ e) × (v.slot.connect_ts ≡ ts)

module _ (d : SlotState) (e : TrackerEntry) (ts : ℤ) where
  publish_round-MayEndIn :
      (race : PublishRace) (w : Shared) → MayEndIn (Published d e ts) (publish_round d e ts race w)
  unfolding publish_round swap_or_retry write_aux publish_outcome
  publish_round-MayEndIn race w =
      let w₁ = events race.before_read w in
      ground (arith, events-SameOwned race.before_cas (record w₁ { slot = write_aux e ts w₁.slot }))

  publish_round-EndsIn : (w : Shared) → EndsIn (Published d e ts) (publish_round d e ts no_race w)
  unfolding publish_round swap_or_retry write_aux publish_outcome events
  publish_round-EndsIn w = ground arith

  -- Whatever the other threads do in the rounds given, `publish` returns. It refuses the decision as
  -- late only when the slot is pinned after `ts`; otherwise the word is the decision and the slot has
  -- the new entry and timestamp.
  pub publish-EndsIn :
      (races : List PublishRace) (w : Shared) → EndsIn (Published d e ts) (publish d e ts races w)
  unfolding publish
  publish-EndsIn =
      loop-EndsIn no_race (publish_round d e ts) (Published d e ts) publish_round-EndsIn
        publish_round-MayEndIn

-- After `clear_if` the slot is empty, or it was left alone because it belongs to another flow.
abbrev pub Cleared : ℤ → Shared → Bool → Type 0
Cleared ts v true = v.slot.word ≡ empty_word
Cleared ts v false =
    (same_state (word_state v.slot.word) empty ≡ true) ⊎ (eq_ℤ v.slot.connect_ts ts ≡ false)

module _ (ts : ℤ) where
  clear_round-MayEndIn :
      (race : List Event) (w : Shared) → MayEndIn (Cleared ts) (clear_round ts race w)
  unfolding clear_round swap_or_retry
  clear_round-MayEndIn race w = ground arith

  clear_round-EndsIn : (w : Shared) → EndsIn (Cleared ts) (clear_round ts [] w)
  unfolding clear_round swap_or_retry events
  clear_round-EndsIn w = ground arith

  -- Whatever the other threads do in the rounds given, `clear_if` returns; with `true` the slot is
  -- empty, with `false` it is empty or its timestamp is not the one given.
  clear_if-EndsIn :
      (races : List (List Event)) (w : Shared) → EndsIn (Cleared ts) (clear_if ts races w)
  unfolding clear_if
  clear_if-EndsIn =
      loop-EndsIn [] (clear_round ts) (Cleared ts) clear_round-EndsIn clear_round-MayEndIn

-- A pending slot, whose word holds the reference `r` of a parked SYN, still has the timestamp of
-- the flow before. When the relay of that flow calls `clear_if` with it and no thread interferes,
-- the slot is emptied and nobody is handed `r`: an account of `r` that balanced before does not
-- balance after.
pub clear_if_drops_parked :
    (r : ParkedRef) (w : Shared) (n : ℕ)
    → same_state (word_state w.slot.word) pending ≡ true
    → same_ref r (ref_of w.slot.word) ≡ true
    → Balance r w n
    → EndsIn (λ v o. (o ≡ true) × ¬ Balance r v n) (clear_if w.slot.connect_ts [] w)
unfolding clear_if loop clear_round swap_or_retry events
clear_if_drops_parked r w n p q b = ground (arith, word_state-empty_word)

-- With no interference a publish on a pending slot hands over the reference in its word.
pub publish_pending :
    (d : SlotState) (e : TrackerEntry) (ts : ℤ) (w : Shared)
    → same_state (word_state w.slot.word) pending ≡ true
    → publish d e ts [] w
      ≡ finished
          (record w { slot = record (write_aux e ts w.slot) { word = decided_word d } })
          (released_parked (ref_of w.slot.word))
unfolding publish loop publish_round swap_or_retry write_aux publish_outcome events
publish_pending d e ts w h = ground arith

-- With no interference a close that is not older than a pending slot empties it and hands over the
-- reference in its word.
pub on_close_pending :
    (ts : ℤ) (w : Shared)
    → same_state (word_state w.slot.word) pending ≡ true
    → ltb_ℤ ts w.slot.connect_ts ≡ false
    → let s = w.slot in
      on_close ts [] w
      ≡ finished (record w { slot = record s { word = empty_word } }) (some (ref_of w.slot.word))
unfolding on_close loop close_round swap_or_retry events close_outcome
on_close_pending ts w h l = ground arith

-- With no interference `clear_if` empties a slot that is not empty and has the timestamp, and leaves any
-- other as it is.
pub clear_if_quiet :
    (ts : ℤ) (w : Shared)
    → let s = w.slot in
      clear_if ts [] w ≡ (
        if not (same_state (word_state s.word) empty) && eq_ℤ s.connect_ts ts
        then finished (record w { slot = record s { word = empty_word } }) true
        else finished w false)
unfolding clear_if loop clear_round swap_or_retry events
clear_if_quiet ts w = ground arith
