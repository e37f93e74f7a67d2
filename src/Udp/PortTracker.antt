-- ===== src/Udp/PortTracker.antt =====
-- src/udp/udp_port_tracker.hpp: the array of slots by UDP port. A port is a number below 65536, so
-- every port has its slot. The writer and the readers take their steps one at a time.
use clew_proxy.Prelude.{
  ℕ, ◌≡◌, refl, Bool, true, false, if◌then◌else◌, ◌==◌, Option, none, some, List, [], ◌∷◌, arith,
  ◌∙◌, ap,
}
use clew_proxy.Rules.PolicyTable.{global_only_policy}

pub record UdpTrackerEntry : Type 0 where
  pub group_id : ℕ
  pub pid : ℕ
  pub policy_id : ℕ

pub record UdpTrackerSlot : Type 0 where
  pub active : Bool
  pub entry : UdpTrackerEntry

abbrev pub no_udp_entry : UdpTrackerEntry
no_udp_entry = record { group_id = 0; pid = 0; policy_id = global_only_policy }

abbrev pub UdpPortTracker : Type 0
UdpPortTracker = ℕ → UdpTrackerSlot

abbrev pub fresh_tracker : UdpPortTracker
fresh_tracker port = record { active = false; entry = no_udp_entry }

-- A write to one slot of the array.
unfoldable pub store : ℕ → UdpTrackerSlot → UdpPortTracker → UdpPortTracker
store port s t p = if p == port then s else t p

unfoldable pub put : ℕ → UdpTrackerEntry → UdpPortTracker → UdpPortTracker
unfolding store
put src_port e t = store src_port (record { active = true; entry = e }) t

unfoldable pub is_active : ℕ → UdpPortTracker → Bool
is_active port t = (t port).active

unfoldable pub peek : ℕ → UdpPortTracker → UdpTrackerEntry
peek port t = (t port).entry

unfoldable pub get : ℕ → UdpPortTracker → Option UdpTrackerEntry
get port t = if (t port).active then some (t port).entry else none

unfoldable pub clear : ℕ → UdpPortTracker → UdpPortTracker
unfolding store
clear port t = store port (record { active = false; entry = no_udp_entry }) t

-- What the writer does.
pub data Write : Type 0 where
  puts : ℕ → UdpTrackerEntry → Write
  clears : ℕ → Write

unfoldable pub apply_writes : List Write → UdpPortTracker → UdpPortTracker
apply_writes [] t = t
apply_writes (puts p e ∷ ws) t = apply_writes ws (put p e t)
apply_writes (clears p ∷ ws) t = apply_writes ws (clear p t)

-- The entry that the last write to a port leaves there.
unfoldable pub last_entry : ℕ → List Write → Option UdpTrackerEntry → Option UdpTrackerEntry
last_entry q [] last = last
last_entry q (puts p e ∷ ws) last = last_entry q ws (if q == p then some e else last)
last_entry q (clears p ∷ ws) last = last_entry q ws (if q == p then none else last)

pub get-put :
    (q p : ℕ) (e : UdpTrackerEntry) (t : UdpPortTracker)
    → get q (put p e t) ≡ (if q == p then some e else get q t)
unfolding get put store
get-put q p e t = ground arith

pub get-clear :
    (q p : ℕ) (t : UdpPortTracker) → get q (clear p t) ≡ (if q == p then none else get q t)
unfolding get clear store
get-clear q p t = ground arith

-- After any sequence of puts and clears, a reader of a port gets the entry of the last write to that
-- port, none after a clear, and what it got before if no write was to that port.
pub get-apply_writes :
    (ws : List Write) (q : ℕ) (t : UdpPortTracker)
    → get q (apply_writes ws t) ≡ last_entry q ws (get q t)
unfolding apply_writes last_entry
get-apply_writes [] q t = refl
get-apply_writes (puts p e ∷ ws) q t =
    get-apply_writes ws q (put p e t) ∙ ap (last_entry q ws) (get-put q p e t)
get-apply_writes (clears p ∷ ws) q t =
    get-apply_writes ws q (clear p t) ∙ ap (last_entry q ws) (get-clear q p t)
