-- ===== src/Projection.antt =====
-- src/projection/process_projection.cpp, as CMakeLists.txt configures it: with the coalescing timer.
--
-- Serialisation is a library's: an operation that refreshes has the text of the tree at that time. The
-- timer has at most one wait that is not cancelled; a cancelled wait leaves a handler that runs later.
pub mod Coalescing
use clew_proxy.Prelude.{
  ℕ, ◌+◌, ◌-◌, Bool, true, false, not, ◌==◌, if◌then◌else◌, Option, none, some, List, [], ◌∷◌,
}

pub record ProcessProjection : Type 0 where
  pub frontend_visible : Bool
  pub has_sink : Bool
  pub pending_flush : Bool
  -- The time at which the wait expires.
  pub coalesce_timer : Option ℕ
  -- The handlers of cancelled waits that have not run.
  pub cancelled : ℕ
  pub snapshot : List ℕ
  -- What the sink was given, the last first.
  pub pushed : List (List ℕ)

pub data PushUrgency : Type 0 where
  immediate batched : PushUrgency

abbrev pub coalesce_window : ℕ
coalesce_window = 100

abbrev pub count_wait : Option ℕ → ℕ
count_wait none = 0
count_wait (some t) = 1

abbrev pub cancel : ProcessProjection → ProcessProjection
cancel p = record p { coalesce_timer = none; cancelled = p.cancelled + count_wait p.coalesce_timer }

abbrev pub refresh_snapshot : List ℕ → ProcessProjection → ProcessProjection
refresh_snapshot text p = record p { snapshot = text }

abbrev pub push_current_snapshot : ProcessProjection → ProcessProjection
push_current_snapshot p = if not p.has_sink then p else record p { pushed = p.snapshot ∷ p.pushed }

-- Refresh, then push, with no flush pending.
unfoldable pub flush : List ℕ → ProcessProjection → ProcessProjection
flush text p = push_current_snapshot (refresh_snapshot text (record p { pending_flush = false }))

unfoldable pub schedule_coalesced_push : ℕ → ProcessProjection → ProcessProjection
schedule_coalesced_push now p =
    if p.pending_flush
    then p
    else record (cancel p) { pending_flush = true; coalesce_timer = some (now + coalesce_window) }

abbrev on_urgency : PushUrgency → ℕ → List ℕ → ProcessProjection → ProcessProjection
on_urgency immediate now text p = flush text (cancel p)
on_urgency batched now text p = schedule_coalesced_push now p

unfoldable pub on_tree_changed : PushUrgency → ℕ → List ℕ → ProcessProjection → ProcessProjection
unfolding flush schedule_coalesced_push
on_tree_changed urgency now text p =
    if not p.frontend_visible then p else on_urgency urgency now text p

unfoldable pub replay_to_frontend : List ℕ → ProcessProjection → ProcessProjection
unfolding flush
replay_to_frontend text p = flush text (cancel p)

-- The timer's handler: of the wait, once it expires, and of a cancelled one.
unfoldable pub on_expired : List ℕ → ProcessProjection → ProcessProjection
unfolding flush
on_expired text p = elim p.coalesce_timer [
  | none ↦ p
  | some t ↦ flush text (record p { coalesce_timer = none })
]

unfoldable pub on_cancelled : ProcessProjection → ProcessProjection
on_cancelled p =
    if p.cancelled == 0 then p else record p { pending_flush = false; cancelled = p.cancelled - 1 }

abbrev pub set_frontend_visible : Bool → ProcessProjection → ProcessProjection
set_frontend_visible v p = record p { frontend_visible = v }
