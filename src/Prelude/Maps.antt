-- ===== src/Prelude/Maps.antt =====
-- Association lists under numbers, each key at most once: a write erases the key first.
use Prim.Native.Nat.{ℕ}
use mathlib.Core.Path.{◌≡◌}
use mathlib.Core.List.{List, [], ◌∷◌}
use mathlib.Core.Option.{Option, none, some}
use native.Mathlib.Omega.{arith}
use clew_proxy.Prelude.Tests.{◌==◌, if◌then◌else◌}

module _ {ℓ} {V : Type ℓ} where
  unfoldable pub find : ℕ → List (ℕ × V) → Option V
  find k [] = none
  find k ((j, v) ∷ m) = let rest = find k m in if j == k then some v else rest

  unfoldable pub delete : ℕ → List (ℕ × V) → List (ℕ × V)
  delete k [] = []
  delete k ((j, v) ∷ m) = let rest = delete k m in if j == k then rest else (j, v) ∷ rest

  unfoldable pub assign : ℕ → V → List (ℕ × V) → List (ℕ × V)
  unfolding delete
  assign k v m = (k, v) ∷ delete k m

module _ {ℓ} {V : Type ℓ} where
  pub find-delete :
      (q k : ℕ) (m : List (ℕ × V)) → find q (delete k m) ≡ (if k == q then none else find q m)
  unfolding find delete
  find-delete q k [] = ground arith
  find-delete q k ((j, v) ∷ m) = ground (arith, find-delete q k m)

  pub find-assign :
      (q k : ℕ) (v : V) (m : List (ℕ × V))
      → find q (assign k v m) ≡ (if k == q then some v else find q m)
  unfolding find assign
  find-assign q k v m = ground (arith, find-delete q k m)
