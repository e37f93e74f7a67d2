-- ===== src/Rules/PolicyTable.antt =====
-- src/rules/policy_table.hpp: the table of exclude policies, its publication and its readers. A shared
-- pointer to an immutable table is the table. The generation is a uint64 that does not wrap.
use clew_proxy.Prelude.{
  ℕ, ◌+◌, ◌≤◌, ◌≡◌, refl, ◌⊎◌, inl, inr, if◌then◌else◌, ltb, ◌==◌, List, [], ◌∷◌, arith, length,
  get_or, Bool-cases, ==_iff, ap,
}
use clew_proxy.Rules.TrafficFilter.{IpExcludeReason, nothing, IpExcludePolicy, evaluate_policy}

abbrev pub global_only_policy : ℕ
global_only_policy = 0

abbrev pub no_policy : IpExcludePolicy
no_policy = record { global_cidrs = []; rule_cidrs = [] }

pub record PolicyTable : Type 0 where
  pub rows : List IpExcludePolicy

unfoldable pub evaluate : PolicyTable → ℕ → ℕ → IpExcludeReason
unfolding evaluate_policy
evaluate t policy_id host_order_ip =
    let row = if ltb policy_id (length t.rows) then policy_id else global_only_policy in
    if length t.rows == 0
    then nothing
    else evaluate_policy (get_or t.rows row no_policy) host_order_ip

pub record PolicyPublisher : Type 0 where
  pub table : PolicyTable
  pub generation : ℕ

abbrev pub fresh_publisher : PolicyPublisher
fresh_publisher = record { table = record { rows = no_policy ∷ [] }; generation = 0 }

pub publish : PolicyTable → PolicyPublisher → PolicyPublisher
publish t p = if length t.rows == 0 then p else record { table = t; generation = p.generation + 1 }

pub publish_all : List PolicyTable → PolicyPublisher → PolicyPublisher
publish_all [] p = p
publish_all (t ∷ ts) p = publish_all ts (publish t p)

pub record PolicyReader : Type 0 where
  pub table : PolicyTable
  pub seen_generation : ℕ

-- `snapshot` reads the table and its generation together, under the lock.
pub refresh : PolicyPublisher → PolicyReader
refresh p = record { table = p.table; seen_generation = p.generation }

-- A reader's `evaluate`. `racing` are the tables that the strand publishes between the load of the
-- generation and the snapshot.
pub reader_evaluate :
    List PolicyTable
    → ℕ
    → ℕ
    → PolicyPublisher × PolicyReader
    → IpExcludeReason × (PolicyPublisher × PolicyReader)
unfolding refresh
reader_evaluate racing policy_id ip (p, r) =
    let later = publish_all racing p in
    let r' = if r.seen_generation == p.generation then r else refresh later in
    (evaluate r'.table policy_id ip, (later, r'))

-- A reader that has seen the current generation has the current table.
pub record IsInSync (p : PolicyPublisher) (r : PolicyReader) : Type 0 where
  pub behind : r.seen_generation ≤ p.generation
  pub same : r.seen_generation ≡ p.generation → r.table ≡ p.table

pub refresh-IsInSync : (p : PolicyPublisher) → IsInSync p (refresh p)
unfolding refresh
refresh-IsInSync p = record { behind = omega arith; same = λ _. refl }

publish-IsInSync :
    (t : PolicyTable) (p : PolicyPublisher) (r : PolicyReader)
    → IsInSync p r
    → IsInSync (publish t p) r
unfolding publish
publish-IsInSync t p r s = record { behind = ground arith; same = λ e. ground (arith, s.same) }

pub publish_all-IsInSync :
    (ts : List PolicyTable) (p : PolicyPublisher) (r : PolicyReader)
    → IsInSync p r
    → IsInSync (publish_all ts p) r
unfolding publish_all
publish_all-IsInSync [] p r s = s
publish_all-IsInSync (t ∷ ts) p r s =
    publish_all-IsInSync ts (publish t p) r (publish-IsInSync t p r s)

-- A reader in sync answers from the table that is published when it loads the generation or from the
-- one that is published when its call ends, and it stays in sync.
reader_evaluate_lem :
    (racing : List PolicyTable) (policy_id ip : ℕ) (p : PolicyPublisher) (r : PolicyReader)
    → IsInSync p r
    → let (reason, (p', r')) = reader_evaluate racing policy_id ip (p, r) in
      ((reason ≡ evaluate p.table policy_id ip) ⊎ (reason ≡ evaluate p'.table policy_id ip))
      × IsInSync p' r'
unfolding reader_evaluate refresh
reader_evaluate_lem racing policy_id ip p r s =
    elim (Bool-cases (r.seen_generation == p.generation)) [
      | inl current ↦
          rw (current, reader_evaluate)
            (
              inl (
                  ap (λ (t : PolicyTable). evaluate t policy_id ip)
                    (s.same ((==_iff _ _).0 current))),
              publish_all-IsInSync racing p r s,
            )
      | inr old ↦ rw (old, reader_evaluate) (inr refl, refresh-IsInSync (publish_all racing p))
    ]
