-- ===== src/PortTracker/Race/Ownership.antt =====
-- src/core/port_tracker.hpp: "the CAS winner owns the pool index". Of every SYN that is parked in a
-- slot exactly one party gets the pool reference, whatever the interleaving.
use clew_proxy.Prelude.{
  ℕ, ◌+◌, ◌^◌, ◌<◌, ◌≡◌, inl, inr, Bool, true, false, ◌&&◌, ◌==◌, if◌then◌else◌, Option, none, some,
  List, [], ◌∷◌, ℤ, arith, Bool-cases, ltb_ℤ,
}
use clew_proxy.PortTracker.Word.{
  SlotState, pending, abandoned, same_state, word_state, decided_word, empty_word,
}
use clew_proxy.PortTracker.Word.Laws.{
  word_state-pack_word, word_state-decided_word, word_state-empty_word,
}
use clew_proxy.PortTracker.Slot.{TrackerEntry, try_park, is_decision}
use clew_proxy.PortTracker.Race.{
  ParkedRef, ref_of, Shared, Event, notes, touches, parks, pin_writes, pin_swaps, sweeps, pin_swap,
  park_swap, event, events, Attempt, finished, retry, loop, PublishOutcome, released_parked,
  PublishRace, no_race, swap_or_retry, publish_outcome, publish_round, publish, close_outcome,
  close_round, on_close, write_aux,
}

abbrev pub same_ref : ParkedRef → ParkedRef → Bool
same_ref p q = p.idx == q.idx && p.gen == q.gen

abbrev pub one : ParkedRef → ParkedRef → ℕ
one r q = if same_ref r q then 1 else 0

abbrev pub count : ParkedRef → List ParkedRef → ℕ
count r [] = 0
count r (q ∷ qs) = one r q + count r qs

-- Whether a word holds the reference `r` of a parked SYN.
abbrev pub held : ParkedRef → ℕ → ℕ
held r x = if same_state (word_state x) pending then one r (ref_of x) else 0

-- Every time `r` was parked it is still in the word, or the injector took it, or it is one of the
-- `n` times that the strand took it.
abbrev pub Balance : ParkedRef → Shared → ℕ → Type 0
Balance r w n = count r w.parked ≡ held r w.slot.word + count r w.pinned + n

-- What the other threads' own code guarantees of their exchanges: a worker parks only over a word
-- that is not pending, with an index of 32 bits, and the idle sweep exchanges decided words only.
abbrev pub IsAllowed : Event → Type 0
IsAllowed (parks x g i) = (same_state (word_state x) pending ≡ false) × (i < 2 ^ 32)
IsAllowed (sweeps x) = is_decision (word_state x) ≡ true
IsAllowed _ = Unit

abbrev pub AllAllowed : List Event → Type 0
AllAllowed [] = Unit
AllAllowed (e ∷ es) = IsAllowed e × AllAllowed es

park_swap-Balance :
    (r : ParkedRef) (w : Shared) (n x g i : ℕ)
    → same_state (word_state x) pending ≡ false
    → i < 2 ^ 32
    → Balance r w n
    → Balance r (park_swap x g i w) n
unfolding park_swap try_park
park_swap-Balance r w n x g i h k b = ground (arith, word_state-pack_word pending g i tt k)

pin_swap-Balance :
    (r : ParkedRef) (w : Shared) (n x : ℕ) → Balance r w n → Balance r (pin_swap x w) n
unfolding pin_swap
pin_swap-Balance r w n x b = ground (arith, word_state-decided_word abandoned tt)

event-Balance :
    (r : ParkedRef) (e : Event) (w : Shared) (n : ℕ)
    → IsAllowed e
    → Balance r w n
    → Balance r (event e w) n
unfolding event
event-Balance r (notes seq) w n a b = b
event-Balance r (touches ts) w n a b = b
event-Balance r (parks x g i) w n a b = park_swap-Balance r w n x g i a.0 a.1 b
event-Balance r (pin_writes ts) w n a b = b
event-Balance r (pin_swaps x) w n a b = pin_swap-Balance r w n x b
event-Balance r (sweeps x) w n a b = ground (arith, word_state-empty_word)

pub events-Balance :
    (r : ParkedRef) (es : List Event) (w : Shared) (n : ℕ)
    → AllAllowed es
    → Balance r w n
    → Balance r (events es w) n
unfolding events
events-Balance r [] w n a b = b
events-Balance r (e ∷ es) w n a b =
    events-Balance r es (event e w) n a.1 (event-Balance r e w n a.0 b)

-- What a result hands to the strand.
abbrev pub released : ParkedRef → PublishOutcome → ℕ
released r (released_parked q) = one r q
released r _ = 0

abbrev pub closed : ParkedRef → Option ParkedRef → ℕ
closed r none = 0
closed r (some q) = one r q

-- A round keeps the balance, with what its result hands over.
abbrev pub RoundBalance : {R : Type 0} → ParkedRef → ℕ → (R → ℕ) → Attempt R → Type 0
RoundBalance r n out (finished v o) = Balance r v (n + out o)
RoundBalance r n out (retry v) = Balance r v n

swap_or_retry-Balance :
    {R : Type 0} (r : ParkedRef) (n loaded desired : ℕ) (out : R → ℕ) (o : R) (w : Shared)
    → same_state (word_state desired) pending ≡ false
    → out o ≡ held r loaded
    → Balance r w n
    → RoundBalance r n out (swap_or_retry loaded desired o w)
unfolding swap_or_retry
swap_or_retry-Balance r n loaded desired out o w h e b = elim (Bool-cases (w.slot.word == loaded)) [
  | inl hit ↦ rw hit (ground arith)
  | inr miss ↦ rw miss b
]

publish_outcome-held : (r : ParkedRef) (x : ℕ) → released r (publish_outcome x) ≡ held r x
unfolding publish_outcome
publish_outcome-held r x = ground arith

close_outcome-held : (r : ParkedRef) (x : ℕ) → closed r (close_outcome x) ≡ held r x
unfolding close_outcome
close_outcome-held r x = ground arith

-- What is allowed of the rounds of a loop, the quiet last one included.
abbrev pub AllRounds : {E : Type 0} → E → (E → Type 0) → List E → Type 0
AllRounds quiet Allowed [] = Allowed quiet
AllRounds quiet Allowed (e ∷ es) = Allowed e × AllRounds quiet Allowed es

abbrev pub RaceAllowed : PublishRace → Type 0
RaceAllowed race = AllAllowed race.before_read × AllAllowed race.before_cas

-- A loop keeps what each of its rounds keeps.
module _ {R : Type 0} {E : Type 0} (quiet : E) (round : E → Shared → Attempt R) (r : ParkedRef)
    (out : R → ℕ) (Allowed : E → Type 0)
    (keeps : (e : E) (w : Shared) (n : ℕ)
      → Allowed e
      → Balance r w n
      → RoundBalance r n out (round e w)) where
  loop-Balance :
      (es : List E) (w : Shared) (n : ℕ)
      → AllRounds quiet Allowed es
      → Balance r w n
      → RoundBalance r n out (loop quiet round es w)
  unfolding loop
  loop-Balance [] w n a b = keeps quiet w n a b
  loop-Balance (e ∷ es) w n a b = go (round e w) (keeps e w n a.0 b) (λ v. loop-Balance es v n a.1)
    where
      go :
          (a : Attempt R)
          → RoundBalance r n out a
          → ((v : Shared) → Balance r v n → RoundBalance r n out (loop quiet round es v))
          → RoundBalance r n out
              (elim a [ finished v o ↦ finished v o | retry v ↦ loop quiet round es v ])
      go (finished v o) h k = h
      go (retry v) h k = k v h

publish_round-Balance :
    (r : ParkedRef) (d : SlotState) (e : TrackerEntry) (ts : ℤ) (race : PublishRace) (w : Shared)
    (n : ℕ)
    → same_state (word_state (decided_word d)) pending ≡ false
    → AllAllowed race.before_read × AllAllowed race.before_cas
    → Balance r w n
    → RoundBalance r n (released r) (publish_round d e ts race w)
unfolding publish_round write_aux
publish_round-Balance r d e ts race w n dh a b = elim (Bool-cases late) [
  | inl h ↦ rw (h, publish_round) (ground (arith, b₁))
  | inr h ↦
      rw (h, publish_round)
        (swap_or_retry-Balance r n w.slot.word (decided_word d) (released r)
          (publish_outcome w.slot.word) _ dh (publish_outcome-held r w.slot.word)
          (events-Balance r race.before_cas _ n a.1 b₁))
]
  where
    w₁ : Shared
    w₁ = events race.before_read w

    late : Bool
    late = same_state (word_state w.slot.word) abandoned && ltb_ℤ ts w₁.slot.pinned_ts

    b₁ : Balance r w₁ n
    b₁ = events-Balance r race.before_read w n a.0 b

close_round-Balance :
    (r : ParkedRef) (ts : ℤ) (race : List Event) (w : Shared) (n : ℕ)
    → AllAllowed race
    → Balance r w n
    → RoundBalance r n (closed r) (close_round ts race w)
unfolding close_round
close_round-Balance r ts race w n a b = ground (
  arith,
  swap_or_retry-Balance r n w.slot.word empty_word (closed r) (close_outcome w.slot.word)
      (events race w) (ground (arith, word_state-empty_word)) (close_outcome-held r w.slot.word)
      (events-Balance r race w n a b),
)

pub publish-Balance :
    (r : ParkedRef) (d : SlotState) (e : TrackerEntry) (ts : ℤ) (races : List PublishRace)
    (w : Shared) (n : ℕ)
    → same_state (word_state (decided_word d)) pending ≡ false
    → AllRounds no_race RaceAllowed races
    → Balance r w n
    → RoundBalance r n (released r) (publish d e ts races w)
unfolding publish
publish-Balance r d e ts races w n h a b =
    loop-Balance no_race (publish_round d e ts) r (released r) RaceAllowed
      (λ race v m ok c. publish_round-Balance r d e ts race v m h ok c) races w n a b

pub on_close-Balance :
    (r : ParkedRef) (ts : ℤ) (races : List (List Event)) (w : Shared) (n : ℕ)
    → AllRounds [] AllAllowed races
    → Balance r w n
    → RoundBalance r n (closed r) (on_close ts races w)
unfolding on_close
on_close-Balance r ts races w n a b =
    loop-Balance [] (close_round ts) r (closed r) AllAllowed (close_round-Balance r ts) races w n a
      b
