-- ===== src/Examples/Projections.antt =====
-- The projection of the process tree on concrete events.
use clew_proxy.Prelude.{◌≡◌, refl, inl, true, false, none, some, List, [], ◌∷◌}
use clew_proxy.Projection.{
  ProcessProjection, immediate, batched, on_tree_changed, on_expired, on_cancelled, flush,
  schedule_coalesced_push,
}
use clew_proxy.Projection.Coalescing.{
  ProjectionEvent, changed, cancelled_ran, handle, handle_all, last_push, IsCurrent,
  handle_all-IsCurrent,
}

-- The text 1 is shown, and nothing is pending.
abbrev projection : ProcessProjection
projection = record {
  frontend_visible = true;
  has_sink = true;
  pending_flush = false;
  coalesce_timer = none;
  cancelled = 0;
  snapshot = 1 ∷ [];
  pushed = (1 ∷ []) ∷ [];
}

-- A burst of batched changes around one that the user asked for.
abbrev burst : List ProjectionEvent
burst =
    changed batched 0 (2 ∷ [])
    ∷ changed immediate 50 (3 ∷ [])
    ∷ changed batched 60 (4 ∷ [])
    ∷ cancelled_ran
    ∷ changed batched 150 (5 ∷ [])
    ∷ cancelled_ran
    ∷ changed batched 240 (6 ∷ [])
    ∷ []

handle_all-IsCurrent_example :
    let (p, seen) = handle_all burst (projection, 1 ∷ []) in IsCurrent p seen
handle_all-IsCurrent_example =
    handle_all-IsCurrent burst projection (1 ∷ [])
      (record { sink = refl; pending = inl refl; shown = inl refl })

-- The change at 60 is not shown at 240, and the wait has moved to 340.
postponed :
    let p = (handle_all burst (projection, 1 ∷ [])).0 in
    (last_push p.pushed ≡ some (3 ∷ [])) × (p.coalesce_timer ≡ some 340)
unfolding handle_all handle on_tree_changed on_cancelled flush schedule_coalesced_push
postponed = (refl, refl)

-- Once the wait expires, the tree of that time is shown.
caught_up :
    let p = (handle_all burst (projection, 1 ∷ [])).0 in
    last_push (on_expired (6 ∷ []) p).pushed ≡ some (6 ∷ [])
unfolding handle_all handle on_tree_changed on_cancelled on_expired flush schedule_coalesced_push
caught_up = refl
