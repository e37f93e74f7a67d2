-- ===== src/Udp/Socket/Policy.antt =====
-- src/udp/windivert_socket_udp.hpp: what the SOCKET worker publishes for a port: the process, the group
-- that the tree has for it, and the policy that the rule engine has for it.
use clew_proxy.Prelude.{
  ℕ, ◌≡◌, refl, sym, ◌⊎◌, inl, inr, Bool, true, false, ◌&&◌, ◌==◌, none, some, arith, Bool-cases,
  Option-cases,
}
use mathlib.Core.Path.{subst}
use clew_proxy.FlatTree.Entry.{SideEntry, lookup, entry_at, find_by_pid}
use clew_proxy.Rules.PolicyTable.{evaluate}
use clew_proxy.Rules.Engine.Policy.{ip_exclude_reason, build_policy_table}
use clew_proxy.Rules.Engine.Policy.Agreement.{IsReady, evaluate-policy_id_for}
use clew_proxy.WindivertSocket.{SocketAddress, Resolver, first_word, port_of}
use clew_proxy.Udp.PortTracker.{UdpPortTracker, UdpTrackerEntry, get, get-put, get-clear, is_active}
use clew_proxy.Udp.Socket.{
  UdpSocket, bind, connect, counted, is_wanted, entry_for, publish_entry, connect_entry, is_nothing,
  on_socket_event,
}

-- The entry of a process: its PID, the group of the tree's entry for the PID, and a policy for which
-- the published table answers as the engine answers for the process.
pub record IsEntryOf (pid : ℕ) (v : UdpSocket) (te : UdpTrackerEntry) : Type 0 where
  pub owner : te.pid ≡ pid
  pub group :
      (s : SideEntry) × (lookup pid v.tree.side_map ≡ some s)
      × (te.group_id ≡ (entry_at s.index v.tree.entries).group_id)
  pub policy :
      (ip : ℕ)
      → evaluate (build_policy_table v.rules) te.policy_id ip
        ≡ ip_exclude_reason v.tree pid ip v.rules

-- The port has an entry of the process, and the other ports what they had.
abbrev pub Publishes : SocketAddress → UdpSocket → UdpPortTracker → UdpPortTracker → Type 0
Publishes a v before after =
    ((te : UdpTrackerEntry) × (get (port_of a.local_port) after ≡ some te) × IsEntryOf a.pid v te)
    × ((q : ℕ) → (q == port_of a.local_port) ≡ false → get q after ≡ get q before)

-- The resolver, if there is one, has succeeded, and the process is proxied for UDP.
abbrev pub is_admitted : Resolver → SocketAddress → UdpSocket → Bool
is_admitted resolve a w = let (known, v) = counted resolve a w in known && is_wanted a.pid v

wanted-entry :
    (pid : ℕ) (v : UdpSocket)
    → IsReady v.rules
    → is_wanted pid v ≡ true
    → IsEntryOf pid v (entry_for pid v)
unfolding find_by_pid
wanted-entry pid v r h = elim (Option-cases (lookup pid v.tree.side_map)) [
  | inl n ↦ ground (arith, n, h)
  | inr (s, e) ↦ record {
    owner = refl;
    group = (s, e, ground (arith, e));
    policy = λ ip. evaluate-policy_id_for v.tree pid ip v.rules r;
  }
]

publish_entry-Publishes :
    (a : SocketAddress) (v : UdpSocket)
    → IsReady v.rules
    → is_wanted a.pid v ≡ true
    → Publishes a v v.tracker (publish_entry a v).tracker
unfolding publish_entry
publish_entry-Publishes a v r h =
    let port = port_of a.local_port in
    (
      (
        entry_for a.pid v,
        ground (arith, get-put port port (entry_for a.pid v) v.tracker),
        wanted-entry a.pid v r h,
      ),
      λ q n. ground (arith, n, get-put q port (entry_for a.pid v) v.tracker),
    )

-- A BIND of a process that is admitted publishes for its port an entry with its PID, the group that the
-- tree has for the PID, and a policy for which the published table answers for every address as the
-- engine does for the process; the other ports keep what they have. Any other BIND leaves every port
-- as it was. The rules are ready.
pub bind_lem :
    (resolve : Resolver) (a : SocketAddress) (w : UdpSocket)
    → IsReady (counted resolve a w).1.rules
    → let after = (on_socket_event resolve (bind a) w).tracker in
      ((is_admitted resolve a w ≡ true) × Publishes a (counted resolve a w).1 w.tracker after)
      ⊎ ((is_admitted resolve a w ≡ false) × (after ≡ w.tracker))
unfolding on_socket_event
bind_lem resolve a w r =
    let (known, v) = counted resolve a w in
    elim (Bool-cases known) [
      | inr n ↦ inr (ground (arith, n), ground (arith, n))
      | inl k ↦ elim (Bool-cases (is_wanted a.pid v)) [
        | inr n ↦ inr (ground (arith, n), ground (arith, k, n))
        | inl h ↦
            let e : on_socket_event resolve (bind a) w ≡ publish_entry a v = ground (arith, k, h) in
            inl (
              ground (arith, k, h),
              subst (λ x. Publishes a v w.tracker x.tracker) (sym e)
                  (publish_entry-Publishes a v r h),
            )
      ]
    ]

-- What a CONNECT of an admitted process does: it clears the port if the engine excludes the
-- destination; else it keeps the entry that the port has, or publishes one.
abbrev pub Connects : SocketAddress → UdpSocket → UdpPortTracker → UdpPortTracker → Type 0
Connects a v before after =
    let port = port_of a.local_port in
    let open_to = is_nothing (ip_exclude_reason v.tree a.pid (first_word a.remote_addr) v.rules) in
    ((open_to ≡ false) × (get port after ≡ none))
    ⊎ ((open_to ≡ true) × (is_active port before ≡ true) × (after ≡ before))
    ⊎ ((open_to ≡ true) × (is_active port before ≡ false) × Publishes a v before after)

connect_entry-Connects :
    (a : SocketAddress) (v : UdpSocket)
    → IsReady v.rules
    → is_wanted a.pid v ≡ true
    → Connects a v v.tracker (connect_entry a v).tracker
unfolding connect_entry
connect_entry-Connects a v r h =
    let port = port_of a.local_port in
    let open_to = is_nothing (ip_exclude_reason v.tree a.pid (first_word a.remote_addr) v.rules) in
    elim (Bool-cases open_to) [
      | inr n ↦ inl (n, ground (arith, n, get-clear port port v.tracker))
      | inl y ↦ elim (Bool-cases (is_active port v.tracker)) [
        | inl k ↦ inr (inl (y, k, ground (arith, y, k)))
        | inr k ↦
            let e : connect_entry a v ≡ publish_entry a v = ground (arith, y, k) in
            inr (
              inr (
                y,
                k,
                subst (λ x. Publishes a v v.tracker x.tracker) (sym e)
                    (publish_entry-Publishes a v r h),
              ))
      ]
    ]

-- A CONNECT of a process that is admitted leaves no entry for its port if the engine excludes the
-- destination, changes nothing if it does not and the port has an entry, and else publishes for
-- the port an entry with the PID, its group in the tree and its policy, as a BIND does; any other
-- CONNECT leaves every port as it was. The rules are ready.
pub connect_lem :
    (resolve : Resolver) (a : SocketAddress) (w : UdpSocket)
    → IsReady (counted resolve a w).1.rules
    → let after = (on_socket_event resolve (connect a) w).tracker in
      ((is_admitted resolve a w ≡ true) × Connects a (counted resolve a w).1 w.tracker after)
      ⊎ ((is_admitted resolve a w ≡ false) × (after ≡ w.tracker))
unfolding on_socket_event
connect_lem resolve a w r =
    let (known, v) = counted resolve a w in
    elim (Bool-cases known) [
      | inr n ↦ inr (ground (arith, n), ground (arith, n))
      | inl k ↦ elim (Bool-cases (is_wanted a.pid v)) [
        | inr n ↦ inr (ground (arith, n), ground (arith, k, n))
        | inl h ↦
            let e : on_socket_event resolve (connect a) w ≡ connect_entry a v =
              ground (arith, k, h) in
            inl (
              ground (arith, k, h),
              subst (λ x. Connects a v w.tracker x.tracker) (sym e)
                  (connect_entry-Connects a v r h),
            )
      ]
    ]
