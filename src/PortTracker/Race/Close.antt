-- ===== src/PortTracker/Race/Close.antt =====
-- src/core/port_tracker.hpp: which slots `on_close` leaves alone, and what it does to the others.
use clew_proxy.Prelude.{
  ℕ, ◌^◌, ◌<◌, ◌≡◌, refl, sym, ◌∙◌, ap, inl, inr, Bool, true, false, ◌||◌, ◌==◌, if◌then◌else◌,
  Option, none, some, List, [], ◌∷◌, ℤ, arith, ltb_ℤ, Bool-cases,
}
use mathlib.Core.Path.{subst}
use clew_proxy.PortTracker.Word.{
  SlotState, empty, pending, proxied, abandoned, same_state, word_state, empty_word,
}
use clew_proxy.PortTracker.Word.Laws.{
  word_state-pack_word, word_state-decided_word, word_state-empty_word,
}
use clew_proxy.PortTracker.Slot.{TrackerSlot, try_park, cas}
use clew_proxy.PortTracker.Race.{
  ParkedRef, ref_of, Shared, Event, notes, touches, parks, pin_writes, pin_swaps, sweeps, pin_swap,
  park_swap, event, events, Attempt, finished, retry, loop, swap_or_retry, close_round,
  close_outcome, on_close,
}
use clew_proxy.PortTracker.Race.Outcome.{EndsIn, SameOwned, events-SameOwned}

-- Pool indices have 32 bits.
abbrev pub Fits : Event → Type 0
Fits (parks expected gen idx) = idx < 2 ^ 32
Fits e = Unit

abbrev pub AllFit : List Event → Type 0
AllFit [] = Unit
AllFit (e ∷ es) = Fits e × AllFit es

abbrev pub AllRoundsFit : List (List Event) → Type 0
AllRoundsFit [] = Unit
AllRoundsFit (es ∷ ess) = AllFit es × AllRoundsFit ess

abbrev is_in : SlotState → TrackerSlot → Bool
is_in st s = same_state (word_state s.word) st

-- No step of another thread makes a slot proxied.
event-unproxied :
    (e : Event) (w : Shared)
    → Fits e
    → is_in proxied w.slot ≡ false
    → is_in proxied (event e w).slot ≡ false
unfolding event pin_swap park_swap cas try_park
event-unproxied (notes seq) w f h = h
event-unproxied (touches ts) w f h = h
event-unproxied (parks x g i) w f h = ground (arith, word_state-pack_word pending g i tt f)
event-unproxied (pin_writes ts) w f h = h
event-unproxied (pin_swaps x) w f h = ground (arith, word_state-decided_word abandoned tt)
event-unproxied (sweeps x) w f h = ground (arith, word_state-empty_word)

events-unproxied :
    (es : List Event) (w : Shared)
    → AllFit es
    → is_in proxied w.slot ≡ false
    → is_in proxied (events es w).slot ≡ false
unfolding events
events-unproxied [] w f h = h
events-unproxied (e ∷ es) w f h = events-unproxied es (event e w) f.1 (event-unproxied e w f.0 h)

-- A slot that a close at `ts` leaves alone.
abbrev pub is_kept : ℤ → TrackerSlot → Bool
is_kept ts s = is_in empty s || ltb_ℤ ts s.connect_ts || is_in proxied s

-- The slot is empty and has the fields that only the strand writes.
abbrev pub IsEmptied : TrackerSlot → Shared → Option ParkedRef → Type 0
IsEmptied s v o = (is_in empty v.slot ≡ true) × SameOwned s v.slot

choose :
    {A : Type 0} (P : A → Type 0) (b : Bool) (x y : A)
    → (b ≡ true → P x)
    → (b ≡ false → P y)
    → P (if b then x else y)
choose P true x y f g = f refl
choose P false x y f g = g refl

differ : true ≡ false → ⊥
differ h = ground (arith, h)

module _ (ts : ℤ) (s : TrackerSlot) where
  record IsOpen (w : Shared) : Type 0 where
    owned : SameOwned s w.slot
    earlier : ltb_ℤ ts w.slot.connect_ts ≡ false
    unproxied : is_in proxied w.slot ≡ false

  -- A round that goes on leaves a slot that the close may still empty.
  abbrev GoesOn : Attempt (Option ParkedRef) → Type 0
  GoesOn (finished v o) = IsEmptied s v o
  GoesOn (retry v) = IsOpen v

  swap-GoesOn :
      (loaded : ℕ) (r : Option ParkedRef) (v : Shared)
      → IsOpen v
      → GoesOn (swap_or_retry loaded empty_word r v)
  unfolding swap_or_retry cas
  swap-GoesOn loaded r v o = go (v.slot.word == loaded)
    where
      go :
          (b : Bool)
          → GoesOn (
              let t = v.slot in
              let (t', won) : TrackerSlot × Bool =
                if b then (record t { word = empty_word }, true) else (v.slot, false) in
              if won then finished (record v { slot = t' }) r else retry v)
      go true = (ap (λ st. same_state st empty) word_state-empty_word, o.owned)
      go false = o

  close_round-GoesOn :
      (race : List Event) (w : Shared) → AllFit race → IsOpen w → GoesOn (close_round ts race w)
  unfolding close_round
  close_round-GoesOn race w f o =
      let v = events race w in
      let step = events-SameOwned race w in
      let left : Attempt (Option ParkedRef) = finished w none in
      let last = swap_or_retry w.slot.word empty_word (close_outcome w.slot.word) v in
      let tested = if is_in proxied w.slot then left else last in
      choose GoesOn (is_in empty w.slot) left (if ltb_ℤ ts w.slot.connect_ts then left else tested)
        (λ e. (e, o.owned))
        (λ _.
          choose GoesOn (ltb_ℤ ts w.slot.connect_ts) left tested
            (λ l. elim (differ (sym l ∙ o.earlier)) [ ])
            (λ _.
              choose GoesOn (is_in proxied w.slot) left last
                (λ p. elim (differ (sym p ∙ o.unproxied)) [ ])
                (λ _. swap-GoesOn w.slot.word (close_outcome w.slot.word) v (record {
                  owned = (step.0 ∙ o.owned.0, step.1 ∙ o.owned.1);
                  earlier = ap (λ c. ltb_ℤ ts c) step.0 ∙ o.earlier;
                  unproxied = events-unproxied race w f o.unproxied;
                }))))

  -- What the last round does to a slot that is not kept.
  close_round_quiet :
      (w : Shared)
      → is_kept ts w.slot ≡ false
      → let t = w.slot in
        close_round ts [] w
        ≡ finished (record w { slot = record t { word = empty_word } }) (close_outcome w.slot.word)
  unfolding close_round swap_or_retry events
  close_round_quiet w k = ground (arith, k)

  close_round_empty :
      (w : Shared) → is_in empty w.slot ≡ true → close_round ts [] w ≡ finished w none
  unfolding close_round
  close_round_empty w e = ground (arith, e)

  on_close-IsEmptied :
      (races : List (List Event)) (w : Shared)
      → AllRoundsFit races
      → IsOpen w
      → EndsIn (IsEmptied s) (on_close ts races w)
  unfolding on_close loop
  on_close-IsEmptied [] w f o = elim (Bool-cases (is_in empty w.slot)) [
    | inl e ↦ subst (EndsIn (IsEmptied s)) (sym (close_round_empty w e)) (e, o.owned)
    | inr n ↦
        let loose : is_kept ts w.slot ≡ false =
          let x = o.earlier in let y = o.unproxied in ground (arith, n, x, y) in
        subst (EndsIn (IsEmptied s)) (sym (close_round_quiet w loose))
          (ap (λ st. same_state st empty) word_state-empty_word, o.owned)
  ]
  on_close-IsEmptied (es ∷ ess) w f o =
      go (close_round ts es w) (close_round-GoesOn es w f.0 o) (λ v. on_close-IsEmptied ess v f.1)
    where
      go :
          (a : Attempt (Option ParkedRef))
          → GoesOn a
          → ((v : Shared) → IsOpen v → EndsIn (IsEmptied s) (on_close ts ess v))
          → EndsIn
              (IsEmptied s)
              (elim a [ finished v r ↦ finished v r | retry v ↦ on_close ts ess v ])
      go (finished v r) h k = h
      go (retry v) h k = k v h

on_close_kept :
    (ts : ℤ) (races : List (List Event)) (w : Shared)
    → is_kept ts w.slot ≡ true
    → on_close ts races w ≡ finished w none
unfolding on_close loop close_round
on_close_kept ts [] w k = ground (arith, k)
on_close_kept ts (es ∷ ess) w k = ground (arith, k)

-- How a close ends, in a slot that is kept and in one that is not.
abbrev pub ClosesTo : Bool → ℤ → List (List Event) → Shared → Type 0
ClosesTo true ts races w = on_close ts races w ≡ finished w none
ClosesTo false ts races w =
    EndsIn (IsEmptied w.slot) (on_close ts races w)
    × let t = w.slot in
      (on_close ts [] w
        ≡ finished (record w { slot = record t { word = empty_word } })
            (if same_state (word_state t.word) pending then some (ref_of t.word) else none))

-- `on_close` leaves a slot as it finds it, and returns nothing, if the slot is empty, if its CONNECT is
-- later than the close, or if it is proxied. In every other case it returns and the slot is empty,
-- with the timestamp and the entry that it had, whatever the other threads do in the rounds given;
-- and if they do nothing, only the word is changed and the result is the reference of a pending slot
-- and nothing for any other. The pool indices that are parked have 32 bits.
pub on_close_lem :
    (ts : ℤ) (races : List (List Event)) (w : Shared)
    → AllRoundsFit races
    → ClosesTo (is_kept ts w.slot) ts races w
unfolding on_close loop close_outcome
on_close_lem ts races w f = go (is_kept ts w.slot) refl
  where
    go : (b : Bool) → is_kept ts w.slot ≡ b → ClosesTo b ts races w
    go true k = on_close_kept ts races w k
    go false k = (
      on_close-IsEmptied ts w.slot races w f (record {
        owned = (refl, refl);
        earlier = ground (arith, k);
        unproxied = ground (arith, k);
      }),
      close_round_quiet ts w.slot w k,
    )
