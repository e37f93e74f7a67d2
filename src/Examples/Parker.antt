-- ===== src/Examples/Parker.antt =====
-- The SYN-parking pool, its injector and the network worker on concrete packets.
use clew_proxy.Prelude.{◌≡◌, ◌⊎◌, refl, true, false, [], ◌∷◌, pos, arith}
use clew_proxy.PortTracker.Word.{pending, proxied, direct, same_state, word_state}
use clew_proxy.PortTracker.Slot.{no_entry}
use clew_proxy.SynParker.Injector.{by_decision, by_watchdog, release_parked}
use clew_proxy.SynParker.Injector.Release.{
  released_packet, release_parked_once, decide, decided_syn_is_sent, decided_syn_is_lost,
}
use clew_proxy.WindivertNetwork.{handle_syn, slot_at}
use clew_proxy.WindivertNetwork.Fate.{SentOnce, HeldBack, saw_proxied, handle_syn-fate}
use clew_proxy.Examples.Data.{syn_packet, address, divert, busy_net, worker, pending_shared}

handle_syn-fate_example :
    let v = handle_syn divert 4000 (pos 7) (λ s. s) syn_packet address worker in
    SentOnce divert 4000 (saw_proxied (λ s. s) syn_packet worker) syn_packet address worker v
    ⊎ HeldBack syn_packet address worker v
    ⊎ ((same_state (word_state (slot_at worker syn_packet.src_port).word) pending ≡ true)
        × (v.net.sent ≡ worker.net.sent)
        × (v.net.tracker ≡ worker.net.tracker)
        × (v.net.parker.pool ≡ worker.net.parker.pool))
handle_syn-fate_example =
    handle_syn-fate divert 4000 (pos 7) (λ s. s) syn_packet address worker (omega arith)

release_parked_once_example :
    let v = release_parked divert (pos 7) 0 1 proxied by_decision (busy_net 1) in
    let u = release_parked divert (pos 8) 0 1 direct by_watchdog v in
    (v.sent ≡ released_packet divert proxied 0 (busy_net 1) ∷ [])
    × ((v.parker.pool 0).in_use ≡ false)
    × (u.sent ≡ v.sent)
    × (u.parker.pool ≡ v.parker.pool)
release_parked_once_example =
    release_parked_once divert (pos 7) (pos 8) 0 proxied direct by_decision by_watchdog (busy_net 1)
      (omega arith)

decided_syn_is_sent_example :
    let v = decide divert (pos 7) 50000 proxied no_entry (pos 5) (pending_shared 1) (busy_net 1) in
    (v.sent ≡ released_packet divert proxied 0 (busy_net 1) ∷ [])
    × ((v.parker.pool 0).in_use ≡ false)
decided_syn_is_sent_example =
    decided_syn_is_sent divert (pos 7) 50000 proxied no_entry (pos 5) (pending_shared 1)
      (busy_net 1) 0 (omega arith) refl refl (omega arith)

decided_syn_is_lost_example :
    let v =
      decide divert
        (pos 7)
        50000
        proxied
        no_entry
        (pos 5)
        (pending_shared 16777216)
        (busy_net 16777216) in
    (v.sent ≡ []) × ((v.parker.pool 0).in_use ≡ true) × (v.parker.counters.gen_mismatch ≡ 1)
decided_syn_is_lost_example =
    decided_syn_is_lost divert (pos 7) 50000 proxied no_entry (pos 5) (pending_shared 16777216)
      (busy_net 16777216) 0 (omega arith) refl refl (omega arith)
