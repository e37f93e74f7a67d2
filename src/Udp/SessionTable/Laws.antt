-- ===== src/Udp/SessionTable/Laws.antt =====
-- src/udp/udp_session_table.hpp: what the sweep leaves of the tables that the operations make.
use clew_proxy.Prelude.{
  ℕ, ◌+◌, ◌-◌, ◌*◌, ◌/◌, ◌≤◌, ◌↔◌, ◌≡◌, refl, sym, false, if◌then◌else◌, ◌==◌, Option, none, some,
  List, [], ◌∷◌, arith, inl, inr, Bool-cases, ==_iff,
}
use mathlib.Core.Path.{subst}
use clew_proxy.Udp.SessionTable.{
  UdpSession, UdpSessionTable, remove, upsert, lookup, touch, is_expired, cleanup_expired, size,
}

lookup-remove :
    (q p : ℕ) (t : UdpSessionTable) → lookup q (remove p t) ≡ (if p == q then none else lookup q t)
unfolding lookup remove
lookup-remove q p [] = ground arith
lookup-remove q p ((k, s) ∷ t) = ground (arith, lookup-remove q p t)

pub lookup-upsert :
    (q p : ℕ) (s : UdpSession) (t : UdpSessionTable)
    → lookup q (upsert p s t) ≡ (if p == q then some s else lookup q t)
unfolding lookup upsert
lookup-upsert q p s t = ground (arith, lookup-remove q p t)

-- A port is in the table at most once.
unfoldable pub Absent : ℕ → UdpSessionTable → Type 0
Absent p [] = Unit
Absent p ((k, s) ∷ t) = ((k == p) ≡ false) × Absent p t

unfoldable pub IsMap : UdpSessionTable → Type 0
unfolding Absent
IsMap [] = Unit
IsMap ((k, s) ∷ t) = Absent k t × IsMap t

-- What the sweep leaves of a session.
unfoldable pub unexpired : ℕ → ℕ → Option UdpSession → Option UdpSession
unfolding is_expired
unexpired now timeout none = none
unexpired now timeout (some s) = if is_expired now timeout s then none else some s

lookup-Absent : (p : ℕ) (t : UdpSessionTable) → Absent p t → lookup p t ≡ none
unfolding lookup Absent
lookup-Absent p [] h = refl
lookup-Absent p ((k, s) ∷ t) h = ground (arith, h.0, lookup-Absent p t h.1)

lookup-cleanup_expired :
    (now timeout q : ℕ) (t : UdpSessionTable)
    → IsMap t
    → (lookup q (cleanup_expired now timeout t).0 ≡ unexpired now timeout (lookup q t))
      × (size (cleanup_expired now timeout t).0 + (cleanup_expired now timeout t).1 ≡ size t)
unfolding lookup cleanup_expired unexpired size IsMap is_expired
lookup-cleanup_expired now timeout q [] m = (refl, refl)
lookup-cleanup_expired now timeout q ((k, s) ∷ t) m =
    let rest = lookup-cleanup_expired now timeout q t m.1 in
    let gone = lookup-Absent k t m.0 in ground (arith, rest.0, rest.1, gone, ==_iff k q)

empty-IsMap : IsMap []
unfolding IsMap
empty-IsMap = tt

Absent-remove : (p q : ℕ) (t : UdpSessionTable) → Absent q t → Absent q (remove p t)
unfolding Absent remove
Absent-remove p q [] h = tt
Absent-remove p q ((k, s) ∷ t) h = elim (Bool-cases (k == p)) [
  | inl e ↦ rw (e, remove) (Absent-remove p q t h.1)
  | inr e ↦ rw (e, remove) (h.0, Absent-remove p q t h.1)
]

Absent-removed : (p : ℕ) (t : UdpSessionTable) → Absent p (remove p t)
unfolding Absent remove
Absent-removed p [] = tt
Absent-removed p ((k, s) ∷ t) = elim (Bool-cases (k == p)) [
  | inl e ↦ rw (e, remove) (Absent-removed p t)
  | inr e ↦ rw (e, remove) (e, Absent-removed p t)
]

remove-IsMap : (p : ℕ) (t : UdpSessionTable) → IsMap t → IsMap (remove p t)
unfolding IsMap remove
remove-IsMap p [] m = tt
remove-IsMap p ((k, s) ∷ t) m = elim (Bool-cases (k == p)) [
  | inl e ↦ rw (e, remove) (remove-IsMap p t m.1)
  | inr e ↦ rw (e, remove) (Absent-remove p k t m.0, remove-IsMap p t m.1)
]

Absent-touch : (now p q : ℕ) (t : UdpSessionTable) → Absent q t → Absent q (touch now p t)
unfolding Absent touch
Absent-touch now p q [] h = tt
Absent-touch now p q ((k, s) ∷ t) h = elim (Bool-cases (k == p)) [
  | inl e ↦ rw (e, touch) h
  | inr e ↦ rw (e, touch) (h.0, Absent-touch now p q t h.1)
]

touch-IsMap : (now p : ℕ) (t : UdpSessionTable) → IsMap t → IsMap (touch now p t)
unfolding IsMap touch
touch-IsMap now p [] m = tt
touch-IsMap now p ((k, s) ∷ t) m = elim (Bool-cases (k == p)) [
  | inl e ↦ rw (e, touch) m
  | inr e ↦ rw (e, touch) (Absent-touch now p k t m.0, touch-IsMap now p t m.1)
]

Absent-cleanup_expired :
    (now timeout q : ℕ) (t : UdpSessionTable)
    → Absent q t
    → Absent q (cleanup_expired now timeout t).0
unfolding Absent cleanup_expired
Absent-cleanup_expired now timeout q [] h = tt
Absent-cleanup_expired now timeout q ((k, s) ∷ t) h = elim (Bool-cases (is_expired now timeout s)) [
  | inl e ↦ rw (e, cleanup_expired) (Absent-cleanup_expired now timeout q t h.1)
  | inr e ↦ rw (e, cleanup_expired) (h.0, Absent-cleanup_expired now timeout q t h.1)
]

cleanup_expired-IsMap :
    (now timeout : ℕ) (t : UdpSessionTable) → IsMap t → IsMap (cleanup_expired now timeout t).0
unfolding IsMap cleanup_expired
cleanup_expired-IsMap now timeout [] m = tt
cleanup_expired-IsMap now timeout ((k, s) ∷ t) m = elim (Bool-cases (is_expired now timeout s)) [
  | inl e ↦ rw (e, cleanup_expired) (cleanup_expired-IsMap now timeout t m.1)
  | inr e ↦
      rw (e, cleanup_expired)
        (Absent-cleanup_expired now timeout k t m.0, cleanup_expired-IsMap now timeout t m.1)
]

-- The operations that change the table.
pub data Operation : Type 0 where
  upserted : ℕ → UdpSession → Operation
  touched : ℕ → ℕ → Operation
  removed : ℕ → Operation
  swept : ℕ → ℕ → Operation

unfoldable pub perform : Operation → UdpSessionTable → UdpSessionTable
perform (upserted p s) t = upsert p s t
perform (touched now p) t = touch now p t
perform (removed p) t = remove p t
perform (swept now timeout) t = (cleanup_expired now timeout t).0

unfoldable pub perform_all : List Operation → UdpSessionTable → UdpSessionTable
unfolding perform
perform_all [] t = t
perform_all (o ∷ os) t = perform_all os (perform o t)

perform-IsMap : (o : Operation) (t : UdpSessionTable) → IsMap t → IsMap (perform o t)
unfolding perform upsert IsMap
perform-IsMap (upserted p s) t m = (Absent-removed p t, remove-IsMap p t m)
perform-IsMap (touched now p) t m = touch-IsMap now p t m
perform-IsMap (removed p) t m = remove-IsMap p t m
perform-IsMap (swept now timeout) t m = cleanup_expired-IsMap now timeout t m

perform_all-IsMap : (os : List Operation) (t : UdpSessionTable) → IsMap t → IsMap (perform_all os t)
unfolding perform_all
perform_all-IsMap [] t m = m
perform_all-IsMap (o ∷ os) t m = perform_all-IsMap os (perform o t) (perform-IsMap o t m)

-- Whole seconds of silence at most: ten for a session to port 53, the timeout for any other.
abbrev pub IsFresh : ℕ → ℕ → UdpSession → Type 0
IsFresh now timeout s =
    (now - s.last_active) / 1000 ≤ (if s.orig_dst_port == 53 * 256 then 10 else timeout)

unexpired_iff :
    (now timeout : ℕ) (o : Option UdpSession) (s : UdpSession)
    → (unexpired now timeout o ≡ some s) ↔ ((o ≡ some s) × IsFresh now timeout s)
unfolding unexpired is_expired
unexpired_iff now timeout none s = ground arith
unexpired_iff now timeout (some r) s = ground arith

-- In a table that any sequence of operations makes of the empty one, a sweep keeps a session under its
-- port exactly if it is fresh: silent for ten whole seconds at most if its destination port is 53, and
-- for at most the timeout in seconds otherwise. The sweep returns the number of sessions it removes.
pub cleanup_expired_lem :
    (os : List Operation) (now timeout port : ℕ) (s : UdpSession)
    → let t = perform_all os [] in
      let (kept, removed_count) = cleanup_expired now timeout t in
      ((lookup port kept ≡ some s) ↔ ((lookup port t ≡ some s) × IsFresh now timeout s))
      × (size kept + removed_count ≡ size t)
cleanup_expired_lem os now timeout port s =
    let t = perform_all os [] in
    let m = perform_all-IsMap os [] empty-IsMap in
    let r = lookup-cleanup_expired now timeout port t m in
    (
      subst (λ o. (o ≡ some s) ↔ ((lookup port t ≡ some s) × IsFresh now timeout s)) (sym r.0)
          (unexpired_iff now timeout (lookup port t) s),
      r.1,
    )
