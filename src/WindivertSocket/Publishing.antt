-- ===== src/WindivertSocket/Publishing.antt =====
-- src/core/windivert_socket.hpp: the decision that a CONNECT publishes, and the parked SYN behind it.
use clew_proxy.Prelude.{ℕ, ◌≡◌, ap, ◌∙◌, ◌⊎◌, Bool, true, false, List, [], ltb_ℤ, arith}
use clew_proxy.PortTracker.Word.{pending, direct, same_state, word_state, decided_word, empty_word}
use clew_proxy.PortTracker.Race.{
  Shared, Attempt, finished, retry, ref_of, PublishOutcome, stored, late_rejected, released_parked,
  PublishRace,
}
use clew_proxy.PortTracker.Race.Outcome.{
  EndsIn, Published, publish-EndsIn, publish_pending, on_close_pending,
}
use clew_proxy.SynParker.Pool.{free}
use clew_proxy.SynParker.Injector.{release}
use clew_proxy.WindivertSocket.{
  SocketAddress, WindivertSocket, Resolver, Decision, state_of, tracker_entry, port_of, decide,
  deciding, is_echo_of, after_publish, after_attempt, publish_decision, on_connect, on_close_event,
  after_close,
}

module _ (eq : List ℕ → List ℕ → Bool) (resolve : Resolver) where
  -- The slot of the CONNECT's port holds the decision with its entry, or was pinned after it.
  abbrev pub IsAnswered : SocketAddress → Decision → Shared → Type 0
  IsAnswered a d v =
      ((v.slot.word ≡ decided_word (state_of d))
        × (v.slot.entry ≡ tracker_entry a d)
        × (v.slot.connect_ts ≡ a.timestamp))
      ⊎ (ltb_ℤ a.timestamp v.slot.pinned_ts ≡ true)

  after_publish-IsAnswered :
      (a : SocketAddress) (d : Decision) (v : Shared) (o : PublishOutcome) (w : WindivertSocket)
      → Published (state_of d) (tracker_entry a d) a.timestamp v o
      → IsAnswered a d
          ((after_publish eq (port_of a.local_port) d v o w).flows (port_of a.local_port))
  unfolding after_publish
  after_publish-IsAnswered a d v stored w p = ground arith
  after_publish-IsAnswered a d v late_rejected w p = ground arith
  after_publish-IsAnswered a d v (released_parked r) w p = ground arith

  after_attempt-IsAnswered :
      (a : SocketAddress) (d : Decision) (r : Attempt PublishOutcome) (w : WindivertSocket)
      → EndsIn (Published (state_of d) (tracker_entry a d) a.timestamp) r
      → IsAnswered a d
          ((after_attempt eq (port_of a.local_port) d r w).flows (port_of a.local_port))
  unfolding after_attempt
  after_attempt-IsAnswered a d (finished v o) w p = after_publish-IsAnswered a d v o w p
  after_attempt-IsAnswered a d (retry v) w p = elim p [ ]

  publish_decision-IsAnswered :
      (races : List PublishRace) (a : SocketAddress) (d : Decision) (w : WindivertSocket)
      → IsAnswered a d ((publish_decision eq races a d w).flows (port_of a.local_port))
  unfolding publish_decision
  publish_decision-IsAnswered races a d w = after_attempt-IsAnswered a d _ w (
      publish-EndsIn (state_of d) (tracker_entry a d) a.timestamp races
        (w.flows (port_of a.local_port)))

  -- With parking on, a CONNECT that is not an echo leaves an answer in the slot of its port,
  -- whatever the other threads do meanwhile: the word is the decision, with the entry and the
  -- timestamp of the CONNECT, unless the slot was pinned after the CONNECT.
  pub on_connect-IsAnswered :
      (races : List PublishRace) (a : SocketAddress) (w : WindivertSocket)
      → w.parking ≡ true
      → is_echo_of eq a w ≡ false
      → IsAnswered a
          (decide eq resolve a w).0
          ((on_connect eq resolve races a w).flows (port_of a.local_port))
  unfolding on_connect
  on_connect-IsAnswered races a w p e =
      let d = (decide eq resolve a w).0 in
      ground (arith, publish_decision-IsAnswered races a d (deciding eq resolve a w))

  publish_decision_queues :
      (a : SocketAddress) (d : Decision) (w : WindivertSocket)
      → w.parking ≡ true
      → same_state (word_state (w.flows (port_of a.local_port)).slot.word) pending ≡ true
      → (publish_decision eq [] a d w).parker
        ≡ release
            (ref_of (w.flows (port_of a.local_port)).slot.word)
            (port_of a.local_port)
            (state_of d)
            w.parker
  unfolding publish_decision after_attempt after_publish
  publish_decision_queues a d w p h =
      let port = port_of a.local_port in
      ap (λ r. (after_attempt eq port d r w).parker)
        (publish_pending (state_of d) (tracker_entry a d) a.timestamp (w.flows port) h)
      ∙ ground arith

  -- With parking on, a CONNECT that is not an echo and whose port is pending, with no interference,
  -- queues one request: to release the SYN that the word refers to, with the decision.
  pub on_connect_queues :
      (a : SocketAddress) (w : WindivertSocket)
      → w.parking ≡ true
      → is_echo_of eq a w ≡ false
      → same_state (word_state (w.flows (port_of a.local_port)).slot.word) pending ≡ true
      → let d = (decide eq resolve a w).0 in
        (on_connect eq resolve [] a w).parker
        ≡ release
            (ref_of (w.flows (port_of a.local_port)).slot.word)
            (port_of a.local_port)
            (state_of d)
            w.parker
  unfolding on_connect
  on_connect_queues a w p e h =
      let d = (decide eq resolve a w).0 in
      ground (arith, publish_decision_queues a d (deciding eq resolve a w) p h)

  -- With parking off, a CONNECT that is decided direct changes no slot and does not touch the
  -- parker.
  pub on_connect_keeps_direct :
      (races : List PublishRace) (a : SocketAddress) (w : WindivertSocket)
      → w.parking ≡ false
      → same_state (state_of (decide eq resolve a w).0) direct ≡ true
      → ((on_connect eq resolve races a w).flows ≡ w.flows)
        × ((on_connect eq resolve races a w).parker ≡ w.parker)
  unfolding on_connect
  on_connect_keeps_direct races a w p h = ground arith

-- With parking on, a CLOSE of a pending flow that is not older than the slot, with no interference,
-- empties the slot and gives the parked SYN's entry back to the pool.
pub on_close_frees :
    (a : SocketAddress) (w : WindivertSocket)
    → let port = port_of a.local_port in
      let old = (w.flows port).slot in
      w.parking ≡ true
      → same_state (word_state old.word) pending ≡ true
      → ltb_ℤ a.timestamp old.connect_ts ≡ false
      → let after = on_close_event [] a w in
        ((after.flows port).slot.word ≡ empty_word)
        × (after.parker ≡ free (ref_of old.word).idx w.parker)
unfolding on_close_event after_close
on_close_frees a w p h l =
    let port = port_of a.local_port in
    ground (arith, on_close_pending a.timestamp (w.flows port) h l)
