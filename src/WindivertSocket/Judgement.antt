-- ===== src/WindivertSocket/Judgement.antt =====
-- src/core/windivert_socket.hpp: when a CONNECT is proxied.
use clew_proxy.Prelude.{
  ℕ, ◌≡◌, ◌↔◌, Bool, true, false, ◌==◌, List, [], ◌∷◌, arith, Bool-cases, inl, inr,
}
use clew_proxy.FlatTree.Entry.{FlatTree, find_by_pid, entry_at, invalid_idx, is_proxied}
use clew_proxy.Rules.TrafficFilter.{nothing}
use clew_proxy.Rules.Engine.{RuleEngine}
use clew_proxy.Rules.Engine.Policy.{ip_exclude_reason}
use clew_proxy.WindivertSocket.{
  SocketAddress, WindivertSocket, Resolver, goes_proxied, is_excluded_process, judge, resolved,
  decide, first_word,
}

-- No name of the list is the name.
abbrev pub NoneIs : (List ℕ → List ℕ → Bool) → List (List ℕ) → List ℕ → Type 0
NoneIs eq [] name = Unit
NoneIs eq (e ∷ es) name = (eq name e ≡ false) × NoneIs eq es name

module _ (stricmp_eq : List ℕ → List ℕ → Bool) where
  is_excluded_process-NoneIs :
      (es : List (List ℕ)) (name : List ℕ)
      → (is_excluded_process stricmp_eq es name ≡ false) ↔ NoneIs stricmp_eq es name
  unfolding is_excluded_process
  is_excluded_process-NoneIs [] name = ground arith
  is_excluded_process-NoneIs (e ∷ es) name = ground (arith, is_excluded_process-NoneIs es name)

  -- What makes the process of a CONNECT proxied, in the tree that the resolver leaves.
  pub record IsProxiedBy (g : ℕ) (a : SocketAddress) (w : WindivertSocket) (t : FlatTree)
      (e : RuleEngine) : Type 0 where
    pub foreign : (a.pid == w.self_pid) ≡ false
    pub known : (find_by_pid a.pid t == invalid_idx) ≡ false
    pub allowed :
        NoneIs stricmp_eq w.exclude_processes (entry_at (find_by_pid a.pid t) t.entries).name_u8
    pub alive : (entry_at (find_by_pid a.pid t) t.entries).alive ≡ true
    pub marked : is_proxied (entry_at (find_by_pid a.pid t) t.entries) ≡ true
    pub group : (entry_at (find_by_pid a.pid t) t.entries).group_id ≡ g
    pub reachable : ip_exclude_reason t a.pid (first_word a.remote_addr) e ≡ nothing

  judge_iff :
      (a : SocketAddress) (w : WindivertSocket) (t : FlatTree) (e : RuleEngine) (g : ℕ)
      → (a.pid == w.self_pid) ≡ false
      → (judge stricmp_eq w.exclude_processes a.pid (first_word a.remote_addr) t e ≡ goes_proxied g)
        ↔ IsProxiedBy g a w t e
  unfolding judge
  judge_iff a w t e g h = ground (
    arith,
    is_excluded_process-NoneIs w.exclude_processes
        (entry_at (find_by_pid a.pid t) t.entries).name_u8,
  )

  -- `decide` answers `proxied` with the group `g` exactly when the resolver, if it is asked,
  -- succeeds, and in the tree and rules that it leaves the PID is not the program's own, is known,
  -- has no excluded file name, is alive and proxied by `g`, and no exclude has the destination.
  pub decide_iff :
      (resolve : Resolver) (a : SocketAddress) (w : WindivertSocket) (g : ℕ)
      → let (known, (t, e)) = resolved stricmp_eq resolve a.pid w in
        ((decide stricmp_eq resolve a w).0 ≡ goes_proxied g)
        ↔ ((known ≡ true) × IsProxiedBy g a w t e)
  unfolding decide
  decide_iff resolve a w g =
      let (known, (t, e)) = resolved stricmp_eq resolve a.pid w in
      elim (Bool-cases (a.pid == w.self_pid)) [
        | inl same ↦ ground arith
        | inr foreign ↦ ground (arith, judge_iff a w t e g foreign)
      ]
