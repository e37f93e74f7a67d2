-- ===== src/ProcessTreeManager/Owners.antt =====
-- src/domain/process_tree_manager.cpp: the traced events and the resolver, seen as writes to the map
-- from a PID to the PSN of its owner.
use clew_proxy.Prelude.{
  ℕ, ◌+◌, ◌≤◌, ◌≡◌, refl, ap, ◌∙◌, inl, inr, Bool, true, false, ◌&&◌, ◌==◌, if◌then◌else◌, Option,
  none, some, List, [], ◌∷◌, length, arith, Option-cases, Bool-cases,
}
use mathlib.Core.Path.{fun_ext}
use clew_proxy.FlatTree.Entry.{FlatTree, lookup, find_by_pid_psn, invalid_idx}
use clew_proxy.FlatTree.Links.Frame.{idents}
use clew_proxy.FlatTree.SideMap.Invariant.{IsValid}
use clew_proxy.FlatTree.SideMap.Owners.{owner, is_psn, tombstone-owner, add_entry-owner}
use clew_proxy.FlatTree.SideMap.Kept.{owner-KeepsIdents}
use clew_proxy.FlatTree.SideMap.Size.{size, size-tombstone, size-add_entry, get_elem?-lt}
use clew_proxy.ProcessTreeManager.{ProcessTreeManager, notify_tree_changed}
use clew_proxy.ProcessTreeManager.Events.{
  ProcessEvent, EtwEvent, started, rundown, stopped, events_lost, handle_start_or_rundown,
  handle_stop, handle_lost, apply_etw_event_on_strand,
}
use clew_proxy.ProcessTreeManager.Ends.{events_end, run_events}
use clew_proxy.ProcessTreeManager.Frame.{added, handle_start_or_rundown-KeepsIdents}
use clew_proxy.ProcessTreeManager.Validity.{apply_etw_event_on_strand-IsSound}

-- The specification: what an event does to the owners.
abbrev pub Owners : Type 0
Owners = ℕ → Option ℕ

abbrev pub owners : FlatTree → Owners
owners t p = owner p t

abbrev pub set_owner : ℕ → ℕ → Owners → Owners
set_owner pid psn o p = if pid == p then some psn else o p

abbrev pub drop_owner : ℕ → ℕ → Owners → Owners
drop_owner pid psn o p = if is_psn psn (o pid) && pid == p then none else o p

abbrev pub trace : EtwEvent → Owners → Owners
trace (started evt) o = set_owner evt.pid evt.psn o
trace (rundown evt) o = set_owner evt.pid evt.psn o
trace (stopped evt) o = drop_owner evt.pid evt.psn o
trace events_lost o = o

known-owner :
    (pid psn : ℕ) (t : FlatTree)
    → (find_by_pid_psn pid psn t == invalid_idx) ≡ false
    → owner pid t ≡ some psn
unfolding find_by_pid_psn owner
known-owner pid psn t h = ground arith

-- In a vector whose indices fit 32 bits an entry is not found only if it is not there.
unknown-owner :
    (pid psn : ℕ) (t : FlatTree)
    → IsValid t
    → size t ≤ invalid_idx
    → (find_by_pid_psn pid psn t == invalid_idx) ≡ true
    → is_psn psn (owner pid t) ≡ false
unfolding find_by_pid_psn owner
unknown-owner pid psn t v b h = elim (Option-cases (lookup pid t.side_map)) [
  | inl n ↦ ground arith
  | inr (s, e) ↦ ground (arith, get_elem?-lt (idents t.entries) s.index _ (v.indexed.sound pid s e))
]

handle_stop-owner :
    (p : ℕ) (evt : ProcessEvent) (m : ProcessTreeManager)
    → IsValid m.tree
    → size m.tree ≤ invalid_idx
    → owner p (handle_stop evt m).tree ≡ drop_owner evt.pid evt.psn (owners m.tree) p
unfolding handle_stop notify_tree_changed
handle_stop-owner p evt m v b =
    let gone = tombstone-owner p evt.pid evt.psn m.tree v in
    ground (arith, gone, unknown-owner evt.pid evt.psn m.tree v b)

size-handle_stop :
    (evt : ProcessEvent) (m : ProcessTreeManager) → size (handle_stop evt m).tree ≤ size m.tree
unfolding handle_stop notify_tree_changed
size-handle_stop evt m = ground (arith, size-tombstone evt.pid evt.psn m.tree)

module _ (cmdline image_path : ℕ → List ℕ) where
  pub handle_start_or_rundown-owner :
      (p : ℕ) (evt : ProcessEvent) (notify : Bool) (m : ProcessTreeManager)
      → IsValid m.tree
      → owner p (handle_start_or_rundown cmdline image_path evt notify m).tree
        ≡ set_owner evt.pid evt.psn (owners m.tree) p
  unfolding handle_start_or_rundown
  handle_start_or_rundown-owner p evt notify m v =
      elim (Bool-cases (find_by_pid_psn evt.pid evt.psn m.tree == invalid_idx)) [
        | inl new ↦
            owner-KeepsIdents p (added evt m.tree) _
              (handle_start_or_rundown-KeepsIdents cmdline image_path evt notify m new)
            ∙ add_entry-owner p evt.pid evt.parent_pid evt.psn evt.parent_psn evt.create_time
                evt.image_name m.tree v
        | inr known ↦
            rw (known, handle_start_or_rundown)
              (ground (arith, known-owner evt.pid evt.psn m.tree known))
      ]

  pub size-handle_start_or_rundown :
      (evt : ProcessEvent) (notify : Bool) (m : ProcessTreeManager)
      → size (handle_start_or_rundown cmdline image_path evt notify m).tree ≤ size m.tree + 1
  unfolding handle_start_or_rundown
  size-handle_start_or_rundown evt notify m =
      elim (Bool-cases (find_by_pid_psn evt.pid evt.psn m.tree == invalid_idx)) [
        | inl new ↦
            let k = handle_start_or_rundown-KeepsIdents cmdline image_path evt notify m new in
            rw (k.entries) (
              size-add_entry evt.pid evt.parent_pid evt.psn evt.parent_psn evt.create_time
                evt.image_name m.tree)
        | inr known ↦ rw (known, handle_start_or_rundown) (omega arith)
      ]

  handle-owner :
      (p : ℕ) (e : EtwEvent) (m : ProcessTreeManager)
      → IsValid m.tree
      → size m.tree ≤ invalid_idx
      → owner p (apply_etw_event_on_strand cmdline image_path e m).tree ≡ trace e (owners m.tree) p
  unfolding apply_etw_event_on_strand handle_lost
  handle-owner p (started evt) m v b = handle_start_or_rundown-owner p evt true m v
  handle-owner p (rundown evt) m v b = handle_start_or_rundown-owner p evt true m v
  handle-owner p (stopped evt) m v b = handle_stop-owner p evt m v b
  handle-owner p events_lost m v b = ground arith

  size-handle :
      (e : EtwEvent) (m : ProcessTreeManager)
      → size (apply_etw_event_on_strand cmdline image_path e m).tree ≤ size m.tree + 1
  unfolding apply_etw_event_on_strand handle_lost
  size-handle (started evt) m = size-handle_start_or_rundown evt true m
  size-handle (rundown evt) m = size-handle_start_or_rundown evt true m
  size-handle (stopped evt) m = omega (arith, size-handle_stop evt m)
  size-handle events_lost m = ground arith

  unfoldable pub apply_events : List EtwEvent → ProcessTreeManager → ProcessTreeManager
  apply_events [] m = m
  apply_events (e ∷ es) m = apply_events es (apply_etw_event_on_strand cmdline image_path e m)

pub trace_all : List EtwEvent → Owners → Owners
trace_all [] o = o
trace_all (e ∷ es) o = trace_all es (trace e o)

module _ (cmdline image_path : ℕ → List ℕ) where
  trace_all-ext :
      (es : List EtwEvent) (o o' : Owners) (p : ℕ)
      → ((q : ℕ) → o q ≡ o' q)
      → trace_all es o p ≡ trace_all es o' p
  unfolding trace_all
  trace_all-ext es o o' p h = ap (λ x. trace_all es x p) (fun_ext h)

  owner-apply_events :
      (es : List EtwEvent) (m : ProcessTreeManager) (p : ℕ)
      → IsValid m.tree
      → size m.tree + length es ≤ invalid_idx
      → owner p (apply_events cmdline image_path es m).tree ≡ trace_all es (owners m.tree) p
  unfolding apply_events trace_all
  owner-apply_events [] m p v b = refl
  owner-apply_events (e ∷ es) m p v b =
      let m' = apply_etw_event_on_strand cmdline image_path e m in
      let grown = size-handle cmdline image_path e m in
      owner-apply_events es m' p (apply_etw_event_on_strand-IsSound cmdline image_path e m v)
        (omega (arith, b, grown))
      ∙ trace_all-ext es (owners m'.tree) (trace e (owners m.tree)) p
          (λ q. handle-owner cmdline image_path q e m v (omega (arith, b)))

  run_events-apply_events :
      (es : List EtwEvent) (m : ProcessTreeManager)
      → events_end cmdline image_path es m ≡ true
      → run_events cmdline image_path es m ≡ some (apply_events cmdline image_path es m)
  unfolding run_events events_end apply_events
  run_events-apply_events [] m h = refl
  run_events-apply_events (e ∷ es) m h =
      let rest = run_events-apply_events es (apply_etw_event_on_strand cmdline image_path e m) in
      ground (arith, h, rest (ground (arith, h)))

  -- From a valid tree, events of as many processes as 32-bit indices leave room for are handled as
  -- the map of owners says, if each is handled to its end, that is, no loop meets a cycle of links
  -- and no entry is attached to itself: the run has a result, and in its tree a START or RUNDOWN made
  -- its PSN the owner of its PID, whoever had the PID, a STOP removed the owner only if the PSN was
  -- the owner's, and a loss of events changed nothing, whatever the rules matched and whether the
  -- tree was compacted on the way.
  pub run_events-owners :
      (es : List EtwEvent) (m : ProcessTreeManager)
      → IsValid m.tree
      → size m.tree + length es ≤ invalid_idx
      → events_end cmdline image_path es m ≡ true
      → (m' : ProcessTreeManager) × (run_events cmdline image_path es m ≡ some m')
        × ((p : ℕ) → owner p m'.tree ≡ trace_all es (owners m.tree) p)
  run_events-owners es m v b h = (
    apply_events cmdline image_path es m,
    run_events-apply_events es m h,
    λ p. owner-apply_events es m p v b,
  )
