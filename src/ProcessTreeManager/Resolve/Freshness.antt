-- ===== src/ProcessTreeManager/Resolve/Freshness.antt =====
-- src/domain/process_tree_manager.cpp: what `resolve_pid_now` leaves in the tree, and how much it adds.
use clew_proxy.Prelude.{
  ℕ, zero, suc, ◌+◌, ◌≤◌, ◌≡◌, refl, ap, ◌∙◌, inl, inr, true, false, ◌||◌, ◌==◌, Option, some, List,
  [], ◌∷◌, length, arith, Option-cases, Bool-cases,
}
use clew_proxy.FlatTree.Entry.{FlatTree, lookup, find_by_pid, invalid_idx, invalid_psn}
use clew_proxy.FlatTree.Links.Frame.{idents}
use clew_proxy.FlatTree.SideMap.Invariant.{IsValid}
use clew_proxy.FlatTree.SideMap.Owners.{owner}
use clew_proxy.FlatTree.SideMap.Preserved.{entry_at-idents}
use clew_proxy.FlatTree.SideMap.Size.{size, get_elem?-lt}
use clew_proxy.ProcessTreeManager.{ProcessTreeManager, is_known}
use clew_proxy.ProcessTreeManager.Ends.{resolve_ends, run_resolve}
use clew_proxy.ProcessTreeManager.Validity.{insert_chain-IsSound}
use clew_proxy.ProcessTreeManager.Owners.{
  handle_start_or_rundown-owner, size-handle_start_or_rundown,
}
use clew_proxy.ProcessTreeManager.Resolve.{
  LiveProcess, event_of, parent_psn_in, climb, insert_chain, resolve_chain, resolve_pid_now,
  is_current, max_chain_depth,
}

known-of_owner :
    (pid psn : ℕ) (t : FlatTree)
    → IsValid t
    → size t ≤ invalid_idx
    → owner pid t ≡ some psn
    → is_known pid t ≡ true
unfolding owner find_by_pid
known-of_owner pid psn t v b h = elim (Option-cases (lookup pid t.side_map)) [
  | inl n ↦ ground arith
  | inr (s, e) ↦ ground (arith, get_elem?-lt (idents t.entries) s.index _ (v.indexed.sound pid s e))
]

module _ (live_psn : ℕ → ℕ) (live_process : ℕ → Option LiveProcess) where
  length-climb :
      (depth cursor : ℕ) (t : FlatTree)
      → length (climb live_psn live_process depth cursor t) ≤ depth
  unfolding climb
  length-climb zero cursor t = omega arith
  length-climb (suc depth) cursor t = elim (Option-cases (live_process cursor)) [
    | inl n ↦ ground arith
    | inr (info, e) ↦ ground (arith, length-climb depth info.parent_pid t)
  ]

  climb_head :
      (depth cursor : ℕ) (info : LiveProcess) (t : FlatTree)
      → live_process cursor ≡ some info
      → (chain : List LiveProcess) × (climb live_psn live_process (suc depth) cursor t
          ≡ info ∷ chain)
        × (length chain ≤ depth)
  unfolding climb
  climb_head depth cursor info t e =
      let above = climb live_psn live_process depth info.parent_pid t in
      let alone = info.parent_pid == 0 || is_known info.parent_pid t in
      elim (Bool-cases alone) [
        | inl y ↦ ([], ground arith, omega arith)
        | inr n ↦ (above, ground arith, length-climb depth info.parent_pid t)
      ]

  current-owner :
      (pid psn : ℕ) (t : FlatTree)
      → IsValid t
      → live_psn pid ≡ psn
      → (psn == invalid_psn) ≡ false
      → is_current live_psn live_process pid t ≡ true
      → owner pid t ≡ some psn
  unfolding is_current owner find_by_pid
  current-owner pid psn t v q z h = elim (Option-cases (lookup pid t.side_map)) [
    | inl n ↦ ground arith
    | inr (s, e) ↦
        ground
          (arith, ap (λ x. x.psn) (entry_at-idents s.index t.entries _ (v.indexed.sound pid s e)))
  ]

  module _ (cmdline image_path : ℕ → List ℕ) where
    size-insert_chain :
        (t : FlatTree) (chain : List LiveProcess) (m : ProcessTreeManager)
        → size (insert_chain live_psn live_process cmdline image_path t chain m).tree
          ≤ size m.tree + length chain
    unfolding insert_chain
    size-insert_chain t [] m = omega arith
    size-insert_chain t (info ∷ chain) m =
        let above = insert_chain live_psn live_process cmdline image_path t chain m in
        let evt = event_of info (parent_psn_in live_psn live_process info chain t) in
        omega (
          arith,
          size-insert_chain t chain m,
          size-handle_start_or_rundown cmdline image_path evt false above,
        )

    size-resolve_chain :
        (pid : ℕ) (chain : List LiveProcess) (m : ProcessTreeManager)
        → size (resolve_chain live_psn live_process cmdline image_path pid chain m).0.tree
          ≤ size m.tree + length chain
    unfolding resolve_chain
    size-resolve_chain pid [] m = omega arith
    size-resolve_chain pid (info ∷ chain) m =
        ground (arith, size-insert_chain m.tree (info ∷ chain) m)

    -- Resolving a PID adds at most sixteen entries to the tree, however long the chain of unknown
    -- ancestors is, and even if the parents that the system reports form a cycle.
    pub size-resolve_pid_now :
        (pid : ℕ) (m : ProcessTreeManager)
        → size (resolve_pid_now live_psn live_process cmdline image_path pid m).0.tree
          ≤ size m.tree + 16
    unfolding resolve_pid_now
    size-resolve_pid_now pid m =
        let chain = climb live_psn live_process max_chain_depth pid m.tree in
        let bound = length-climb max_chain_depth pid m.tree in
        let grown = size-resolve_chain pid chain m in
        elim (Bool-cases (pid == 0)) [
          | inl z ↦ rw (z, resolve_pid_now) (omega arith)
          | inr p ↦ elim (Bool-cases (is_current live_psn live_process pid m.tree)) [
            | inl c ↦ rw (p, c, resolve_pid_now) (omega arith)
            | inr c ↦ rw (p, c, resolve_pid_now) (omega (arith, grown, bound))
          ]
        ]

    insert_chain-owner :
        (t : FlatTree) (info : LiveProcess) (chain : List LiveProcess) (m : ProcessTreeManager)
        → IsValid m.tree
        → owner info.pid
            (insert_chain live_psn live_process cmdline image_path t (info ∷ chain) m).tree
          ≡ some info.psn
    unfolding insert_chain
    insert_chain-owner t info chain m v =
        let above = insert_chain live_psn live_process cmdline image_path t chain m in
        let evt = event_of info (parent_psn_in live_psn live_process info chain t) in
        handle_start_or_rundown-owner cmdline image_path info.pid evt false above
          (insert_chain-IsSound cmdline image_path live_psn live_process t chain m v)
        ∙ ground arith

    resolve_chain_lem :
        (info : LiveProcess) (chain : List LiveProcess) (m : ProcessTreeManager)
        → IsValid m.tree
        → size m.tree + suc (length chain) ≤ invalid_idx
        → let r =
            resolve_chain live_psn live_process cmdline image_path info.pid (info ∷ chain) m in
          (r.1 ≡ true) × (owner info.pid r.0.tree ≡ some info.psn)
    unfolding resolve_chain
    resolve_chain_lem info chain m v b =
        let after = insert_chain live_psn live_process cmdline image_path m.tree (info ∷ chain) m in
        let owned = insert_chain-owner m.tree info chain m v in
        let fits : size after.tree ≤ invalid_idx =
          omega (arith, b, size-insert_chain m.tree (info ∷ chain) m) in
        let known =
          known-of_owner info.pid info.psn after.tree
            (insert_chain-IsSound cmdline image_path live_psn live_process m.tree (info ∷ chain) m
              v)
            fits owned in
        ground (arith, known, owned)

    resolve_pid_now_known :
        (info : LiveProcess) (m : ProcessTreeManager)
        → IsValid m.tree
        → size m.tree + 16 ≤ invalid_idx
        → (info.pid == 0) ≡ false
        → (info.psn == invalid_psn) ≡ false
        → live_process info.pid ≡ some info
        → live_psn info.pid ≡ info.psn
        → let r = resolve_pid_now live_psn live_process cmdline image_path info.pid m in
          (r.1 ≡ true) × (owner info.pid r.0.tree ≡ some info.psn)
    unfolding resolve_pid_now
    resolve_pid_now_known info m v b p z e q =
        let (chain, climbed, short) = climb_head 15 info.pid info m.tree e in
        elim (Bool-cases (is_current live_psn live_process info.pid m.tree)) [
          | inl c ↦ rw (p, c) (refl, current-owner info.pid info.psn m.tree v q z c)
          | inr c ↦ rw (p, c, climbed) (resolve_chain_lem info chain m v (omega (arith, b, short)))
        ]

    -- A PID other than 0 that the system knows as a live process with a PSN is resolved: the call
    -- returns with the answer `true`, and the owner of the PID in the tree is that process, whether
    -- the tree knew it, knew a dead process under the PID or knew nothing. The tree is valid before,
    -- with room for sixteen entries below the 32-bit limit of indices, and the insertions that the
    -- call makes come to an end, that is, no loop meets a cycle of links and no entry is attached to
    -- itself.
    pub run_resolve_lem :
        (info : LiveProcess) (m : ProcessTreeManager)
        → IsValid m.tree
        → size m.tree + 16 ≤ invalid_idx
        → (info.pid == 0) ≡ false
        → (info.psn == invalid_psn) ≡ false
        → live_process info.pid ≡ some info
        → live_psn info.pid ≡ info.psn
        → resolve_ends cmdline image_path live_psn live_process info.pid m ≡ true
        → (after : ProcessTreeManager) × (run_resolve cmdline image_path live_psn live_process
              info.pid m
            ≡ some (after, true))
          × (owner info.pid after.tree ≡ some info.psn)
    unfolding run_resolve
    run_resolve_lem info m v b p z e q h =
        let r = resolve_pid_now live_psn live_process cmdline image_path info.pid m in
        let (done, owned) = resolve_pid_now_known info m v b p z e q in
        (r.0, rw (h) (ap (λ x. some (r.0, x)) done), owned)
