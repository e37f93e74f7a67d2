-- ===== src/Projection/Coalescing.antt =====
-- src/projection/process_projection.cpp: a change of the tree is shown or about to be shown.
use clew_proxy.Prelude.{
  ℕ, ◌+◌, ◌-◌, ◌≡◌, refl, ◌⊎◌, inl, inr, Bool, true, false, not, ◌==◌, if◌then◌else◌, Option, none,
  some, List, [], ◌∷◌, arith,
}
use clew_proxy.Projection.{
  ProcessProjection, PushUrgency, immediate, batched, flush, cancel, schedule_coalesced_push,
  on_tree_changed, replay_to_frontend, on_expired, on_cancelled, set_frontend_visible,
  coalesce_window,
}

-- What happens on the strand; `text` is the tree at that time.
pub data ProjectionEvent : Type 0 where
  changed : (urgency : PushUrgency) (now : ℕ) (text : List ℕ) → ProjectionEvent
  replayed : (text : List ℕ) → ProjectionEvent
  expired : (text : List ℕ) → ProjectionEvent
  cancelled_ran : ProjectionEvent
  visible_set : (v : Bool) → ProjectionEvent

unfoldable pub handle : ProjectionEvent → ProcessProjection → ProcessProjection
unfolding on_tree_changed replay_to_frontend on_expired on_cancelled
handle (changed urgency now text) p = on_tree_changed urgency now text p
handle (replayed text) p = replay_to_frontend text p
handle (expired text) p = on_expired text p
handle cancelled_ran p = on_cancelled p
handle (visible_set v) p = set_frontend_visible v p

abbrev pub is_armed : Option ℕ → Bool
is_armed none = false
is_armed (some t) = true

-- The last tree that was reported to a visible frontend, or asked for.
abbrev pub latest : ProjectionEvent → ProcessProjection → List ℕ → List ℕ
latest (changed urgency now text) p old = if p.frontend_visible then text else old
latest (replayed text) p old = text
latest (expired text) p old = if is_armed p.coalesce_timer then text else old
latest cancelled_ran p old = old
latest (visible_set v) p old = old

unfoldable pub handle_all :
    List ProjectionEvent → ProcessProjection × List ℕ → ProcessProjection × List ℕ
unfolding handle
handle_all [] (p, seen) = (p, seen)
handle_all (e ∷ es) (p, seen) = handle_all es (handle e p, latest e p seen)

abbrev pub last_push : List (List ℕ) → Option (List ℕ)
last_push [] = none
last_push (t ∷ ts) = some t

-- A pending flush has a wait, and the tree is shown unless there is a wait.
pub record IsCurrent (p : ProcessProjection) (seen : List ℕ) : Type 0 where
  pub sink : p.has_sink ≡ true
  pub pending : (p.pending_flush ≡ false) ⊎ (is_armed p.coalesce_timer ≡ true)
  pub shown : (last_push p.pushed ≡ some seen) ⊎ (is_armed p.coalesce_timer ≡ true)

-- Both branches of a test satisfy a property.
choose :
    (P : ProcessProjection → Type 0) (b : Bool) (x y : ProcessProjection)
    → (b ≡ true → P x)
    → (b ≡ false → P y)
    → P (if b then x else y)
choose P true x y f g = f refl
choose P false x y f g = g refl

flush-IsCurrent :
    (text : List ℕ) (p : ProcessProjection) → p.has_sink ≡ true → IsCurrent (flush text p) text
unfolding flush
flush-IsCurrent text p s =
    let quiet : ProcessProjection = record p { pending_flush = false; snapshot = text } in
    choose (λ q. IsCurrent q text) (not p.has_sink) quiet
      (record quiet { pushed = text ∷ p.pushed }) (λ n. ground (arith, n, s))
      (λ y. record { sink = s; pending = inl refl; shown = inl refl })

schedule-IsCurrent :
    (now : ℕ) (p : ProcessProjection) (seen text : List ℕ)
    → IsCurrent p seen
    → IsCurrent (schedule_coalesced_push now p) text
unfolding schedule_coalesced_push
schedule-IsCurrent now p seen text c =
    choose (λ q. IsCurrent q text) p.pending_flush p
      (record (cancel p) { pending_flush = true; coalesce_timer = some (now + coalesce_window) })
      (λ y.
        let w = c.pending in
        let armed : is_armed p.coalesce_timer ≡ true = ground (arith, w, y) in
        record { sink = c.sink; pending = inr armed; shown = inr armed })
      (λ n. record { sink = c.sink; pending = inr refl; shown = inr refl })

changed-IsCurrent :
    (b : Bool) (p q : ProcessProjection) (seen text : List ℕ)
    → IsCurrent p seen
    → IsCurrent q text
    → IsCurrent (if not b then p else q) (if b then text else seen)
changed-IsCurrent true p q seen text c d = d
changed-IsCurrent false p q seen text c d = c

expired-IsCurrent :
    (o : Option ℕ) (p q : ProcessProjection) (seen text : List ℕ)
    → IsCurrent p seen
    → IsCurrent q text
    → IsCurrent (elim o [ none ↦ p | some t ↦ q ]) (if is_armed o then text else seen)
expired-IsCurrent none p q seen text c d = c
expired-IsCurrent (some t) p q seen text c d = d

handle-IsCurrent :
    (e : ProjectionEvent) (p : ProcessProjection) (seen : List ℕ)
    → IsCurrent p seen
    → IsCurrent (handle e p) (latest e p seen)
unfolding handle on_tree_changed replay_to_frontend on_expired on_cancelled
handle-IsCurrent (changed immediate now text) p seen c =
    changed-IsCurrent p.frontend_visible p (flush text (cancel p)) seen text c
      (flush-IsCurrent text (cancel p) c.sink)
handle-IsCurrent (changed batched now text) p seen c =
    changed-IsCurrent p.frontend_visible p (schedule_coalesced_push now p) seen text c
      (schedule-IsCurrent now p seen text c)
handle-IsCurrent (replayed text) p seen c = flush-IsCurrent text (cancel p) c.sink
handle-IsCurrent (expired text) p seen c =
    let idle : ProcessProjection = record p { coalesce_timer = none } in
    expired-IsCurrent p.coalesce_timer p (flush text idle) seen text c
      (flush-IsCurrent text idle c.sink)
handle-IsCurrent cancelled_ran p seen c =
    choose (λ q. IsCurrent q seen) (p.cancelled == 0) p
      (record p { pending_flush = false; cancelled = p.cancelled - 1 }) (λ z. c)
      (λ n. record { sink = c.sink; pending = inl refl; shown = c.shown })
handle-IsCurrent (visible_set v) p seen c = record {
  sink = c.sink;
  pending = c.pending;
  shown = c.shown;
}

-- From a projection that has a sink and is current, any sequence of events leads to one that is
-- current: the sink was given the last tree that was reported while the frontend was visible or asked
-- for, or the timer has a wait that will push.
pub handle_all-IsCurrent :
    (es : List ProjectionEvent) (p : ProcessProjection) (seen : List ℕ)
    → IsCurrent p seen
    → let (p', seen') = handle_all es (p, seen) in IsCurrent p' seen'
unfolding handle_all
handle_all-IsCurrent [] p seen c = c
handle_all-IsCurrent (e ∷ es) p seen c =
    handle_all-IsCurrent es (handle e p) (latest e p seen) (handle-IsCurrent e p seen c)
