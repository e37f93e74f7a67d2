-- ===== src/Udp/Manager/Ownership.antt =====
-- src/udp/socks5_udp_manager.hpp: no two ports share a session, and no session outlives its port.
use clew_proxy.Prelude.{
  ℕ, ◌<◌, ◌≡◌, inl, inr, Bool, true, false, ◌==◌, Option, none, some, List, [], ◌∷◌, arith,
  Option-cases, Bool-cases,
}
use clew_proxy.Prelude.Maps.{find, assign, find-delete, find-assign}
use clew_proxy.Udp.Manager.{
  UdpProxyGroupConfig, Socks5UdpSession, Socks5UdpManager, close_session, set_on_session_created,
  install_session, create, get_or_create, remove_session, close_each, stop, lose_session,
}

pub record IsOwned (m : Socks5UdpManager) : Type 0 where
  pub bounded : (p i : ℕ) → find p m.sessions ≡ some i → i < m.made
  pub single : (p q i : ℕ) → find p m.sessions ≡ some i → find q m.sessions ≡ some i → p ≡ q
  pub held : (i : ℕ) → (m.session i).alive ≡ true → (p : ℕ) × (find p m.sessions ≡ some i)

install_session-IsOwned :
    (port : ℕ) (cfg : UdpProxyGroupConfig) (m : Socks5UdpManager)
    → ((i : ℕ) → find port m.sessions ≡ some i → (m.session i).alive ≡ false)
    → IsOwned m
    → IsOwned (install_session port cfg m)
install_session-IsOwned port cfg m dead v = record {
  bounded = λ p i h. ground (arith, find-assign p port m.made m.sessions, v.bounded p i);
  single = λ p q i h k. ground (
    arith,
    find-assign p port m.made m.sessions,
    find-assign q port m.made m.sessions,
    v.single p q i,
    v.bounded p i,
    v.bounded q i,
  );
  held = λ i a. held i a;
}
  where
    held :
        (i : ℕ)
        → ((install_session port cfg m).session i).alive ≡ true
        → (p : ℕ) × (find p (assign port m.made m.sessions) ≡ some i)
    held i a = elim (Bool-cases (m.made == i)) [
      | inl new ↦ (port, ground (arith, find-assign port port m.made m.sessions))
      | inr old ↦
          let (p, h) = v.held i (ground arith) in
          (p, ground (arith, find-assign p port m.made m.sessions, dead i))
    ]

create-IsOwned :
    (established : Bool) (port : ℕ) (cfg : Option UdpProxyGroupConfig) (m : Socks5UdpManager)
    → ((i : ℕ) → find port m.sessions ≡ some i → (m.session i).alive ≡ false)
    → IsOwned m
    → IsOwned (create established port cfg m).0
unfolding create
create-IsOwned established port none m dead v = v
create-IsOwned true port (some cfg) m dead v = install_session-IsOwned port cfg m dead v
create-IsOwned false port (some cfg) m dead v = v

get_or_create-IsOwned :
    (established : Bool) (port group : ℕ) (m : Socks5UdpManager)
    → IsOwned m
    → IsOwned (get_or_create established port group m).0
unfolding get_or_create
get_or_create-IsOwned established port group m v = elim (Bool-cases m.stopped) [
  | inl s ↦ ground arith
  | inr r ↦
      let made = create-IsOwned established port (find group m.groups) m in
      elim (Option-cases (find port m.sessions)) [
        | inl n ↦ ground (arith, made (λ i h. ground arith) v)
        | inr (i, e) ↦ elim (Bool-cases (m.session i).alive) [
          | inl a ↦ ground arith
          | inr d ↦ ground (arith, made (λ j h. ground arith) v)
        ]
      ]
]

remove_session-IsOwned :
    (port : ℕ) (m : Socks5UdpManager) → IsOwned m → IsOwned (remove_session port m)
unfolding remove_session
remove_session-IsOwned port m v = elim (Option-cases (find port m.sessions)) [
  | inl n ↦ rw (n, remove_session) v
  | inr (i, e) ↦
      rw (e, remove_session)
        (record {
          bounded = λ p j h. ground (arith, find-delete p port m.sessions, v.bounded p j);
          single = λ p q j h k.
              ground (
                arith,
                find-delete p port m.sessions,
                find-delete q port m.sessions,
                v.single p q j,
              );
          held = λ j a.
              let (p, h) = v.held j (ground arith) in
              (p, ground (arith, find-delete p port m.sessions));
        })
]

lose_session-IsOwned : (i : ℕ) (m : Socks5UdpManager) → IsOwned m → IsOwned (lose_session i m)
unfolding lose_session
lose_session-IsOwned i m v = record {
  bounded = v.bounded;
  single = v.single;
  held = λ j a. v.held j (ground arith);
}

-- Closing leaves what is dead dead, and kills all that a port leads to.
close_each_dead :
    (m : List (ℕ × ℕ)) (f : ℕ → Socks5UdpSession) (i : ℕ)
    → (f i).alive ≡ false
    → (close_each m f i).alive ≡ false
unfolding close_each
close_each_dead [] f i h = h
close_each_dead ((p, j) ∷ m) f i h = close_each_dead m (close_session j f) i (ground arith)

close_each_found :
    (m : List (ℕ × ℕ)) (f : ℕ → Socks5UdpSession) (p i : ℕ)
    → find p m ≡ some i
    → (close_each m f i).alive ≡ false
unfolding close_each find
close_each_found [] f p i h = ground arith
close_each_found ((q, j) ∷ m) f p i h = elim (Bool-cases (q == p)) [
  | inl same ↦ close_each_dead m (close_session j f) i (ground arith)
  | inr other ↦ close_each_found m (close_session j f) p i (ground arith)
]

-- After `stop` of a manager that was running no session at all is alive, registered or not.
pub stop_kills :
    (m : Socks5UdpManager) (i : ℕ)
    → IsOwned m
    → m.stopped ≡ false
    → ((stop m).session i).alive ≡ false
unfolding stop
stop_kills m i v r = elim (Bool-cases (m.session i).alive) [
  | inl a ↦ let (p, h) = v.held i a in ground (arith, close_each_found m.sessions m.session p i h)
  | inr d ↦ ground (arith, close_each_dead m.sessions m.session i d)
]

stop-IsOwned : (m : Socks5UdpManager) → IsOwned m → IsOwned (stop m)
unfolding stop find
stop-IsOwned m v = elim (Bool-cases m.stopped) [
  | inl s ↦ ground arith
  | inr r ↦
      rw (r, stop)
        (record {
          bounded = λ p i h. ground arith;
          single = λ p q i h k. ground arith;
          held = λ i a. absurd (ground (arith, stop_kills m i v r));
        })
]

-- What the relay, the sockets and the owner do with the manager.
pub data ManagerCall : Type 0 where
  gets : (established : Bool) (app_port group_id : ℕ) → ManagerCall
  removes : (app_port : ℕ) → ManagerCall
  loses : (session : ℕ) → ManagerCall
  stops : ManagerCall
  sets_callback : Bool → ManagerCall

pub call : ManagerCall → Socks5UdpManager → Socks5UdpManager
call (gets established app_port group_id) m = (get_or_create established app_port group_id m).0
call (removes app_port) m = remove_session app_port m
call (loses i) m = lose_session i m
call stops m = stop m
call (sets_callback has) m = set_on_session_created has m

pub call_all : List ManagerCall → Socks5UdpManager → Socks5UdpManager
call_all [] m = m
call_all (c ∷ cs) m = call_all cs (call c m)

call-IsOwned : (c : ManagerCall) (m : Socks5UdpManager) → IsOwned m → IsOwned (call c m)
unfolding call set_on_session_created
call-IsOwned (gets established port group) m v = get_or_create-IsOwned established port group m v
call-IsOwned (removes port) m v = remove_session-IsOwned port m v
call-IsOwned (loses i) m v = lose_session-IsOwned i m v
call-IsOwned stops m v = stop-IsOwned m v
call-IsOwned (sets_callback has) m v = record {
  bounded = v.bounded;
  single = v.single;
  held = v.held;
}

-- Whatever calls are made in whatever order, with sessions that die in between: no two ports lead to
-- the same session, and every session that is alive is the one of a port.
pub call_all-IsOwned :
    (cs : List ManagerCall) (m : Socks5UdpManager) → IsOwned m → IsOwned (call_all cs m)
unfolding call_all
call_all-IsOwned [] m v = v
call_all-IsOwned (c ∷ cs) m v = call_all-IsOwned cs (call c m) (call-IsOwned c m v)
