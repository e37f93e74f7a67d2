-- ===== src/Examples/Tracker.antt =====
-- The port tracker on concrete slots.
use clew_proxy.Prelude.{
  false, ◌^◌, ◌%◌, ◌≡◌, refl, true, not, ◌&&◌, if◌then◌else◌, List, [], ◌∷◌, pos, leb_ℤ, arith,
}
use clew_proxy.PortTracker.Word.{
  pending, proxied, pack_word, word_state, word_gen, word_idx, empty_word,
}
use clew_proxy.PortTracker.Word.Laws.{pack_word_round_trip}
use clew_proxy.PortTracker.Slot.{no_entry}
use clew_proxy.PortTracker.Table.{sweep_idle, is_stale, stale_ports, sweep_idle_lem}
use clew_proxy.PortTracker.Race.{fresh, no_race, publish, clear_if, ref_of, notes, touches, parks}
use clew_proxy.PortTracker.Race.Ownership.{Balance}
use clew_proxy.PortTracker.Race.History.{
  Call, publishes, closes, others, to_proxy, History, run, Conserved, run-Conserved,
}
use clew_proxy.PortTracker.Race.Outcome.{EndsIn, Published, publish-EndsIn, clear_if_drops_parked}
use clew_proxy.PortTracker.Race.Close.{ClosesTo, on_close_lem}
use clew_proxy.Examples.Data.{tracker, pending_shared}

abbrev calls : List Call
calls =
    others (notes 77 ∷ touches (pos 3) ∷ [])
    ∷ publishes to_proxy no_entry (pos 5) (no_race ∷ [])
    ∷ closes (pos 9) ([] ∷ [])
    ∷ []

abbrev start : History
start = record { shared = pending_shared 1; taken = [] }

run-Conserved_example : Conserved (ref_of (pack_word pending 1 0)) (run calls start)
unfolding pack_word word_state word_gen word_idx
run-Conserved_example =
    run-Conserved (ref_of (pack_word pending 1 0)) calls start
      ((tt, (tt, tt)), (((tt, tt), (tt, tt)), ((tt, tt), tt))) refl

publish-EndsIn_example :
    EndsIn
      (Published proxied no_entry (pos 5))
      (publish proxied no_entry (pos 5) (no_race ∷ []) fresh)
publish-EndsIn_example = publish-EndsIn proxied no_entry (pos 5) (no_race ∷ []) fresh

-- The close is later than the CONNECT of a pending slot, and a park fails meanwhile.
on_close_lem_example : ClosesTo false (pos 9) ((parks 0 1 0 ∷ []) ∷ []) (pending_shared 1)
unfolding word_state pack_word
on_close_lem_example =
    on_close_lem (pos 9) ((parks 0 1 0 ∷ []) ∷ []) (pending_shared 1) ((omega arith, tt), tt)

clear_if_drops_parked_example :
    EndsIn
      (λ v o. (o ≡ true) × ¬ Balance (ref_of (pack_word pending 1 0)) v 0)
      (clear_if (pos 0) [] (pending_shared 1))
unfolding pack_word word_state word_gen word_idx
clear_if_drops_parked_example =
    clear_if_drops_parked (ref_of (pack_word pending 1 0)) (pending_shared 1) 0 refl refl refl

sweep_idle_lem_example :
    ((sweep_idle (pos 9) (pos 1) tracker).0.slots 80 ≡ (
      if not (leb_ℤ (pos 1) (pos 0)) && is_stale (pos 9) (pos 1) (tracker.slots 80)
      then record (tracker.slots 80) { word = empty_word }
      else tracker.slots 80))
    × ((sweep_idle (pos 9) (pos 1) tracker).1 ≡ (
        if not (leb_ℤ (pos 1) (pos 0))
        then stale_ports 65536 0 (pos 9) (pos 1) tracker.slots
        else 0))
sweep_idle_lem_example = sweep_idle_lem (pos 9) (pos 1) tracker 80 (omega arith)

pack_word_round_trip_example :
    (word_state (pack_word proxied 0x1000001 7) ≡ proxied)
    × (word_gen (pack_word proxied 0x1000001 7) ≡ 0x1000001 % 2 ^ 24)
    × (word_idx (pack_word proxied 0x1000001 7) ≡ 7)
pack_word_round_trip_example = pack_word_round_trip proxied 0x1000001 7 tt (omega arith)
