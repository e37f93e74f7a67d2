-- ===== src/Udp/Manager.antt =====
-- src/udp/socks5_udp_manager.hpp: the SOCKS5 sessions by application port.
--
-- A shared pointer is the number under which `session` has its object; `made` objects were established.
-- Whether `establish` succeeds is an argument. The lock makes each operation one step; `created` logs the
-- calls of the callback, the newest first.
pub mod Ownership
use clew_proxy.Prelude.{
  ℕ, ◌+◌, Bool, true, false, not, if◌then◌else◌, ◌==◌, Option, none, some, List, [], ◌∷◌,
}
use clew_proxy.Prelude.Maps.{find, delete, assign}

pub record UdpProxyGroupConfig : Type 0 where
  pub host : List ℕ
  pub port : ℕ

-- The parts of a `Socks5UdpSession` that the manager and the relay look at.
pub record Socks5UdpSession : Type 0 where
  pub proxy : UdpProxyGroupConfig
  pub alive : Bool

abbrev pub no_session : Socks5UdpSession
no_session = record { proxy = record { host = []; port = 0 }; alive = false }

pub record Socks5UdpManager : Type 0 where
  pub groups : List (ℕ × UdpProxyGroupConfig)
  pub stopped : Bool
  pub sessions : List (ℕ × ℕ)
  pub has_callback : Bool
  pub created : List (ℕ × ℕ)
  pub session : ℕ → Socks5UdpSession
  pub made : ℕ

abbrev pub fresh_manager : List (ℕ × UdpProxyGroupConfig) → Socks5UdpManager
fresh_manager groups = record {
  groups = groups;
  stopped = false;
  sessions = [];
  has_callback = false;
  created = [];
  session = λ _. no_session;
  made = 0;
}

abbrev pub put_session : (ℕ → Socks5UdpSession) → ℕ → Socks5UdpSession → ℕ → Socks5UdpSession
put_session f i s j = if i == j then s else f j

abbrev pub closed : Socks5UdpSession → Socks5UdpSession
closed s = record s { alive = false }

abbrev pub close_session : ℕ → (ℕ → Socks5UdpSession) → ℕ → Socks5UdpSession
close_session i f = put_session f i (closed (f i))

unfoldable pub set_on_session_created : Bool → Socks5UdpManager → Socks5UdpManager
set_on_session_created has m = record m { has_callback = has }

-- A new session for the port.
abbrev pub install_session : ℕ → UdpProxyGroupConfig → Socks5UdpManager → Socks5UdpManager
install_session app_port cfg m = record m {
  sessions = assign app_port m.made m.sessions;
  session = put_session m.session m.made (record { proxy = cfg; alive = true });
  made = m.made + 1;
  created = if m.has_callback then (app_port, m.made) ∷ m.created else m.created;
}

-- The part of `get_or_create` without a session that is alive.
unfoldable pub create :
    Bool → ℕ → Option UdpProxyGroupConfig → Socks5UdpManager → Socks5UdpManager × Option ℕ
unfolding assign
create established app_port none m = (m, none)
create established app_port (some cfg) m =
    if not established then (m, none) else (install_session app_port cfg m, some m.made)

unfoldable pub get_or_create : Bool → ℕ → ℕ → Socks5UdpManager → Socks5UdpManager × Option ℕ
unfolding find create
get_or_create established app_port group_id m =
    let made = create established app_port (find group_id m.groups) m in
    if m.stopped then (m, none) else elim (find app_port m.sessions) [
      | none ↦ made
      | some i ↦ if (m.session i).alive then (m, some i) else made
    ]

unfoldable pub remove_session : ℕ → Socks5UdpManager → Socks5UdpManager
unfolding find delete
remove_session app_port m = elim (find app_port m.sessions) [
  | none ↦ m
  | some i ↦ record m { session = close_session i m.session; sessions = delete app_port m.sessions }
]

-- The loop of `stop`.
unfoldable pub close_each : List (ℕ × ℕ) → (ℕ → Socks5UdpSession) → ℕ → Socks5UdpSession
close_each [] f = f
close_each ((port, i) ∷ m) f = close_each m (close_session i f)

unfoldable pub stop : Socks5UdpManager → Socks5UdpManager
unfolding close_each
stop m = if m.stopped then m else record m {
  stopped = true;
  has_callback = false;
  session = close_each m.sessions m.session;
  sessions = [];
}

unfoldable pub count_alive : List (ℕ × ℕ) → (ℕ → Socks5UdpSession) → ℕ
count_alive [] f = 0
count_alive ((port, i) ∷ m) f = count_alive m f + (if (f i).alive then 1 else 0)

unfoldable pub active_count : Socks5UdpManager → ℕ
unfolding count_alive
active_count m = count_alive m.sessions m.session

-- The watchdog of a session's control connection, and `close` by its owner.
unfoldable pub lose_session : ℕ → Socks5UdpManager → Socks5UdpManager
lose_session i m = record m { session = close_session i m.session }
