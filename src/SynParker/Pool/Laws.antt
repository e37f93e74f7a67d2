-- ===== src/SynParker/Pool/Laws.antt =====
-- src/core/syn_parker.hpp: the allocator finds a free entry if there is one, and the count is right.
use clew_proxy.Prelude.{
  ℕ, zero, suc, ◌+◌, ◌-◌, ◌%◌, ◌^◌, ◌≤◌, ◌<◌, ◌≡◌, ◌≢◌, refl, ◌⊎◌, inl, inr, true, false,
  if◌then◌else◌, Option, none, some, ℤ, pos, ◌+ℤ◌, ◌-ℤ◌, arith, Option-cases, dec_lt, ℕ_discrete,
  ap, ◌∙◌,
}
use native.Mathlib.Nat.{mod-eq_of_lt, add-mod-mod, add-mod_right, mod-lt}
use clew_proxy.SynParker.Pool.{PoolEntry, SynParker, put, find_free, claim, alloc, free, fill, park}
use clew_proxy.SynParker.Packet.{Packet, Address}
use clew_proxy.PortTracker.Word.{no_pool_idx}
use clew_proxy.PortTracker.Race.{ParkedRef}

find_free-some :
    (left k start n : ℕ) (pool : ℕ → PoolEntry) (i : ℕ)
    → 0 < n
    → find_free left k start n pool ≡ some i
    → (i < n) × ((pool i).in_use ≡ false)
unfolding find_free
find_free-some zero k start n pool i h e = ground arith
find_free-some (suc left) k start n pool i h e =
    ground (arith, find_free-some left (k + 1) start n pool i h)

find_free-none :
    (left k start n : ℕ) (pool : ℕ → PoolEntry) (j : ℕ)
    → find_free left k start n pool ≡ none
    → k ≤ j
    → j < k + left
    → (pool ((start + j) % n)).in_use ≡ true
unfolding find_free
find_free-none zero k start n pool j e a b = absurd (omega arith)
find_free-none (suc left) k start n pool j e a b = elim (ℕ_discrete k j) [
  | yes here ↦ rw (← here) (ground arith)
  | no later ↦ find_free-none left (k + 1) start n pool j (ground arith) (omega arith) (omega arith)
]

-- The index that the search looks at in round `(i + n - start) % n` is `i`.
round_of : (i n start : ℕ) → i < n → start < n → (start + (i + n - start) % n) % n ≡ i
round_of i n start h k =
    add-mod-mod start (i + n - start) n
    ∙ (ap (λ (x : ℕ). x % n) (omega arith) ∙ (add-mod_right i n ∙ mod-eq_of_lt h))

-- The entries below `n` that are in use.
unfoldable pub in_use_count : ℕ → (ℕ → PoolEntry) → ℕ
in_use_count zero pool = 0
in_use_count (suc n) pool = in_use_count n pool + (if (pool n).in_use then 1 else 0)

in_use_count-put_ge :
    (n i : ℕ) (e : PoolEntry) (pool : ℕ → PoolEntry)
    → n ≤ i
    → in_use_count n (put pool i e) ≡ in_use_count n pool
unfolding in_use_count
in_use_count-put_ge zero i e pool h = refl
in_use_count-put_ge (suc n) i e pool h =
    ground (arith, in_use_count-put_ge n i e pool (omega arith))

pub in_use_count-put :
    (n i : ℕ) (e : PoolEntry) (pool : ℕ → PoolEntry)
    → i < n
    → in_use_count n (put pool i e) + (if (pool i).in_use then 1 else 0)
      ≡ in_use_count n pool + (if e.in_use then 1 else 0)
unfolding in_use_count
in_use_count-put zero i e pool h = absurd (omega arith)
in_use_count-put (suc n) i e pool h = elim (dec_lt i n) [
  | yes below ↦ ground (arith, in_use_count-put n i e pool below)
  | no last ↦ ground (arith, in_use_count-put_ge n i e pool (omega arith))
]

-- The counter of the code, against the entries.
pub record IsCounted (p : SynParker) : Type 0 where
  pub some_entries : 0 < p.pool_size
  pub count : p.pool_in_use ≡ pos (in_use_count p.pool_size p.pool)

-- What `alloc` may return: nothing, when every entry is in use; else the index of an entry that was
-- free and is now in use, with its generation and all other entries as before.
abbrev pub Allocated : SynParker → Option ℕ → SynParker → Type 0
Allocated p none q = (q.pool ≡ p.pool) × ((j : ℕ) → j < p.pool_size → (p.pool j).in_use ≡ true)
Allocated p (some i) q =
    (i < p.pool_size)
    × ((p.pool i).in_use ≡ false)
    × (q.pool ≡ put p.pool i (record (p.pool i) { in_use = true }))

find_free-none_all :
    (n start : ℕ) (pool : ℕ → PoolEntry) (j : ℕ)
    → start < n
    → find_free n 0 start n pool ≡ none
    → j < n
    → (pool j).in_use ≡ true
find_free-none_all n start pool j s e h = rw (round_of j n start h s) at (
    find_free-none n 0 start n pool ((j + n - start) % n) e (omega arith)
      (omega (arith, mod-lt (j + n - start) {m = n} (omega arith))))

-- `alloc` on a pool that is not of size 0 fails only if all of its entries are in use, and otherwise
-- takes a free one and changes no other.
pub alloc-Allocated : (p : SynParker) → 0 < p.pool_size → Allocated p (alloc p).0 (alloc p).1
unfolding alloc claim
alloc-Allocated p h = elim (Option-cases (find_free p.pool_size 0 start p.pool_size p.pool)) [
  | inl full ↦
      rw (full, alloc)
        (refl, λ j k. find_free-none_all p.pool_size start p.pool j (mod-lt p.pool_hint h) full k)
  | inr (i, found) ↦
      let (below, idle) = find_free-some p.pool_size 0 start p.pool_size p.pool i h found in
      rw (found, alloc) (below, idle, refl)
]
  where
    start : ℕ
    start = p.pool_hint % p.pool_size

-- `alloc` keeps `pool_in_use` equal to the number of entries in use, also when it fails.
pub alloc-IsCounted : (p : SynParker) → IsCounted p → IsCounted (alloc p).1
unfolding alloc claim ◌+ℤ◌
alloc-IsCounted p c =
    elim (Option-cases (find_free p.pool_size 0 (p.pool_hint % p.pool_size) p.pool_size p.pool)) [
      | inl full ↦ rw (full, alloc) (record { some_entries = c.some_entries; count = c.count })
      | inr (i, found) ↦
          let (below, idle) =
            find_free-some p.pool_size 0 (p.pool_hint % p.pool_size) p.pool_size p.pool i
              c.some_entries found in
          rw (found, alloc)
            (ground (
              arith,
              in_use_count-put p.pool_size i (record (p.pool i) { in_use = true }) p.pool below,
            ))
    ]

-- `free` of an entry that is in use keeps `pool_in_use` equal to the number of entries in use.
pub free-IsCounted :
    (p : SynParker) (i : ℕ)
    → i < p.pool_size
    → (p.pool i).in_use ≡ true
    → IsCounted p
    → IsCounted (free i p)
unfolding free ◌-ℤ◌
free-IsCounted p i h used c = ground (
  arith,
  in_use_count-put p.pool_size i
      (record (p.pool i) { gen = ((p.pool i).gen + 1) % 2 ^ 32; in_use = false }) p.pool h,
)

-- What `park` returns: no index, when the pool is full; else an entry that was free and now holds
-- the packet, under the generation that goes with the index, all other entries as before.
abbrev pub Parked : ℤ → Packet → Address → ℕ → SynParker → ParkedRef → SynParker → Type 0
Parked now pkt addr port p ref q =
    ((ref.idx ≡ no_pool_idx) × ((j : ℕ) → j < p.pool_size → (p.pool j).in_use ≡ true))
    ⊎ ((ref.idx < p.pool_size)
        × ((p.pool ref.idx).in_use ≡ false)
        × (q.pool ref.idx ≡ record {
          in_use = true;
          gen = ref.gen;
          park_qpc = now;
          syn_kernel_ts = addr.timestamp;
          port = port;
          addr = addr;
          pkt = pkt;
        })
        × (ref.gen ≡ (p.pool ref.idx).gen)
        × ((j : ℕ) → ref.idx ≢ j → q.pool j ≡ p.pool j))

fill-Parked :
    (now : ℤ) (pkt : Packet) (addr : Address) (port : ℕ) (p : SynParker) (r : Option ℕ)
    (q : SynParker)
    → Allocated p r q
    → let out = fill now pkt addr port r q in Parked now pkt addr port p out.0 out.1
unfolding fill
fill-Parked now pkt addr port p none q a = inl (refl, a.1)
fill-Parked now pkt addr port p (some i) q a =
    inr (a.0, a.1, here, ap (λ (e : PoolEntry). e.gen) claimed, λ j ne. other j ne)
  where
    at_put : (j : ℕ) → q.pool j ≡ put p.pool i (record (p.pool i) { in_use = true }) j
    at_put j = ap (λ (f : ℕ → PoolEntry). f j) a.2

    claimed : q.pool i ≡ record (p.pool i) { in_use = true }
    claimed = ground (arith, at_put i)

    here : (fill now pkt addr port (some i) q).1.pool i ≡ record {
      in_use = true;
      gen = (q.pool i).gen;
      park_qpc = now;
      syn_kernel_ts = addr.timestamp;
      port = port;
      addr = addr;
      pkt = pkt;
    }
    here = ground (arith, claimed)

    other : (j : ℕ) → i ≢ j → (fill now pkt addr port (some i) q).1.pool j ≡ p.pool j
    other j ne = ground (arith, at_put j)

-- `park` on a pool that is not of size 0 refuses the packet only if every entry is in use, and
-- otherwise copies it into a free entry and returns the index with the generation of the entry.
pub park-Parked :
    (now : ℤ) (pkt : Packet) (addr : Address) (port : ℕ) (p : SynParker)
    → 0 < p.pool_size
    → let out = park now pkt addr port p in Parked now pkt addr port p out.0 out.1
unfolding park
park-Parked now pkt addr port p h =
    fill-Parked now pkt addr port p (alloc p).0 (alloc p).1 (alloc-Allocated p h)
