-- ===== src/Examples/Proxies.antt =====
-- The SOCKS5 handshakes and the TCP relay against concrete servers.
use clew_proxy.Prelude.{false, ℕ, ◌≡◌, ◌↔◌, true, none, some, List, [], ◌∷◌, ◌++◌, pos, arith}
use clew_proxy.Prelude.Maps.{find}
use clew_proxy.PortTracker.Word.{proxied, word_state, decided_word, pack_word, empty_word}
use clew_proxy.PortTracker.Race.{Shared, fresh}
use clew_proxy.PortTracker.Slot.{TrackerSlot, fresh_slot}
use clew_proxy.Proxy.Stream.{Stream, ok}
use clew_proxy.Proxy.Handshake.{
  greeting, socks5_handshake, Accepts, socks5_handshake_iff, requested,
}
use clew_proxy.Proxy.Associate.{establish, watchdog_read, grant, associate_request, establish-grant}
use clew_proxy.Proxy.Relay.{
  ProxyGroupConfig, connected, handle_connection, run_clears, handle_connection_releases,
  handle_connection_asks,
}

abbrev accepting : List ℕ
accepting = 5 ∷ 0 ∷ 5 ∷ 0 ∷ 0 ∷ 1 ∷ 0 ∷ 0 ∷ 0 ∷ 0 ∷ 0 ∷ 0 ∷ 72 ∷ []

socks5_handshake_iff_example :
    ((socks5_handshake 0x01020304 443 (record { input = accepting; output = [] })).0 ≡ ok tt)
    ↔ Accepts accepting
socks5_handshake_iff_example = socks5_handshake_iff 0x01020304 443 accepting []

abbrev granting : Stream
granting = record { input = grant 0x7F000001 9000 (1 ∷ 2 ∷ []); output = [] }

establish-grant_example :
    let (a, answer) = establish none granting in
    (answer ≡ true)
    × (a ≡ record {
      relay_endpoint = some (record { addr = 0x7F000001; port = 9000 });
      alive = true;
      control = record { input = 1 ∷ 2 ∷ []; output = greeting ++ associate_request };
    })
    × ((watchdog_read a).alive ≡ false)
    × ((watchdog_read a).control.input ≡ 2 ∷ [])
establish-grant_example =
    establish-grant none 0x7F000001 9000 (1 ∷ 2 ∷ []) [] (omega arith) (omega arith) (omega arith)

abbrev redirected : TrackerSlot
redirected = record fresh_slot {
  word = decided_word proxied;
  connect_ts = pos 7;
  entry = record { remote_addr = 0x01020304 ∷ []; remote_port = 443; group_id = 3 };
}

abbrev groups : List (ℕ × ProxyGroupConfig)
groups = (3, record { host = []; port = 7890 }) ∷ []

-- The flow of the port when the clear runs.
abbrev later_flow : ℕ → Shared
later_flow _ = record fresh { slot = redirected }

handle_connection_releases_example :
    let posted =
      (handle_connection (some 50000) (λ _. redirected) groups (connected [])).posted_clears in
    (run_clears posted later_flow 50000).slot ≡ record redirected { word = empty_word }
unfolding word_state decided_word pack_word
handle_connection_releases_example =
    handle_connection_releases 50000 (λ _. redirected) groups (connected []) later_flow 50000

handle_connection_asks_example :
    (s : Stream) × (request : List ℕ) × ((handle_connection
        (some 50000)
        (λ _. redirected)
        groups
        (connected accepting)).proxy
      ≡ some (s, true))
    × (s.output ≡ greeting ++ request)
    × (requested request ≡ (0x01020304, 443))
unfolding word_state decided_word pack_word find
handle_connection_asks_example =
    handle_connection_asks 50000 (λ _. redirected) groups (record { host = []; port = 7890 })
      accepting (ground arith) (ground arith) (ground arith) (omega arith) (omega arith)
