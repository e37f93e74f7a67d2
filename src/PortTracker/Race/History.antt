-- ===== src/PortTracker/Race/History.antt =====
-- src/core/port_tracker.hpp: any sequence of publishes, closes and steps of other threads on a slot.
use clew_proxy.Prelude.{ℕ, ◌+◌, ◌≡◌, false, Option, none, some, List, [], ◌∷◌, ℤ, arith}
use clew_proxy.PortTracker.Word.{
  SlotState, pending, proxied, direct, same_state, word_state, decided_word,
}
use clew_proxy.PortTracker.Word.Laws.{word_state-decided_word}
use clew_proxy.PortTracker.Slot.{TrackerEntry}
use clew_proxy.PortTracker.Race.{
  ParkedRef, Shared, Event, events, Attempt, finished, retry, PublishOutcome, stored, late_rejected,
  released_parked, PublishRace, no_race, publish, on_close,
}
use clew_proxy.PortTracker.Race.Ownership.{
  AllAllowed, AllRounds, RaceAllowed, Balance, RoundBalance, count, released, closed,
  events-Balance, publish-Balance, on_close-Balance,
}

-- `publish` is called with one of the two decisions.
pub data Decision : Type 0 where
  to_proxy to_direct : Decision

abbrev pub decision_state : Decision → SlotState
decision_state to_proxy = proxied
decision_state to_direct = direct

pub data Call : Type 0 where
  publishes : (d : Decision) (e : TrackerEntry) (ts : ℤ) (races : List PublishRace) → Call
  closes : (ts : ℤ) (races : List (List Event)) → Call
  others : (es : List Event) → Call

pub record History : Type 0 where
  pub shared : Shared
  pub taken : List ParkedRef

abbrev pub take_published : PublishOutcome → List ParkedRef → List ParkedRef
take_published (released_parked q) qs = q ∷ qs
take_published _ qs = qs

abbrev pub take_closed : Option ParkedRef → List ParkedRef → List ParkedRef
take_closed none qs = qs
take_closed (some q) qs = q ∷ qs

pub settle :
    {R : Type 0} → (R → List ParkedRef → List ParkedRef) → List ParkedRef → Attempt R → History
settle give qs (finished v o) = record { shared = v; taken = give o qs }
settle give qs (retry v) = record { shared = v; taken = qs }

pub step : Call → History → History
unfolding settle
step (publishes d e ts races) h =
    settle take_published h.taken (publish (decision_state d) e ts races h.shared)
step (closes ts races) h = settle take_closed h.taken (on_close ts races h.shared)
step (others es) h = record h { shared = events es h.shared }

pub run : List Call → History → History
run [] h = h
run (c ∷ cs) h = run cs (step c h)

abbrev pub CallAllowed : Call → Type 0
CallAllowed (publishes d e ts races) = AllRounds no_race RaceAllowed races
CallAllowed (closes ts races) = AllRounds [] AllAllowed races
CallAllowed (others es) = AllAllowed es

abbrev pub CallsAllowed : List Call → Type 0
CallsAllowed [] = Unit
CallsAllowed (c ∷ cs) = CallAllowed c × CallsAllowed cs

abbrev pub Conserved : ParkedRef → History → Type 0
Conserved r h = Balance r h.shared (count r h.taken)

settle-Conserved :
    {R : Type 0} (r : ParkedRef) (give : R → List ParkedRef → List ParkedRef) (out : R → ℕ)
    (qs : List ParkedRef) (a : Attempt R)
    → ((o : R) → count r (give o qs) ≡ count r qs + out o)
    → RoundBalance r (count r qs) out a
    → Conserved r (settle give qs a)
unfolding settle
settle-Conserved r give out qs (finished v o) g b = omega (arith, g o)
settle-Conserved r give out qs (retry v) g b = b

take_published-count :
    (r : ParkedRef) (qs : List ParkedRef) (o : PublishOutcome)
    → count r (take_published o qs) ≡ count r qs + released r o
take_published-count r qs stored = omega arith
take_published-count r qs late_rejected = omega arith
take_published-count r qs (released_parked q) = omega arith

take_closed-count :
    (r : ParkedRef) (qs : List ParkedRef) (o : Option ParkedRef)
    → count r (take_closed o qs) ≡ count r qs + closed r o
take_closed-count r qs none = omega arith
take_closed-count r qs (some q) = omega arith

not_pending :
    (d : Decision) → same_state (word_state (decided_word (decision_state d))) pending ≡ false
not_pending to_proxy = ground (arith, word_state-decided_word proxied tt)
not_pending to_direct = ground (arith, word_state-decided_word direct tt)

step-Conserved :
    (r : ParkedRef) (c : Call) (h : History)
    → CallAllowed c
    → Conserved r h
    → Conserved r (step c h)
unfolding step
step-Conserved r (publishes d e ts races) h a b =
    settle-Conserved r take_published (released r) h.taken _ (take_published-count r h.taken)
      (publish-Balance r (decision_state d) e ts races h.shared _ (not_pending d) a b)
step-Conserved r (closes ts races) h a b =
    settle-Conserved r take_closed (closed r) h.taken _ (take_closed-count r h.taken)
      (on_close-Balance r ts races h.shared _ a b)
step-Conserved r (others es) h a b = events-Balance r es h.shared _ a b

-- Over any history of publishes and closes by the strand, interleaved with steps of the other threads
-- that their own guards allow: if every time the reference `r` was parked in the slot is accounted
-- for, once, by the word, by the injector or by the strand, then so it is after the history.
pub run-Conserved :
    (r : ParkedRef) (cs : List Call) (h : History)
    → CallsAllowed cs
    → Conserved r h
    → Conserved r (run cs h)
unfolding run
run-Conserved r [] h a b = b
run-Conserved r (c ∷ cs) h a b = run-Conserved r cs (step c h) a.1 (step-Conserved r c h a.0 b)
