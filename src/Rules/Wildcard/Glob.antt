-- ===== src/Rules/Wildcard/Glob.antt =====
-- src/rules/rule_engine_v3.hpp: the recursive reading of a wildcard pattern.
use clew_proxy.Prelude.{
  ℕ, suc, ◌+◌, ◌≤◌, ◌≡◌, refl, ap, sym, inl, inr, Bool, true, false, ◌&&◌, ◌||◌, if◌then◌else◌,
  ◌==◌, List, [], ◌∷◌, ◌++◌, length, arith, Bool-cases,
}
use clew_proxy.Rules.Wildcard.{fold_case, question_mark, star, only_stars, to_lower}

-- Whether a test passes on the text or on what is left of it after some of its characters.
unfoldable pub some_suffix : (List ℕ → Bool) → List ℕ → Bool
some_suffix test [] = test []
some_suffix test (c ∷ t) = test (c ∷ t) || some_suffix test t

-- One character that a pattern's character accepts, and a test on the rest.
unfoldable pub accept : Bool → ℕ → (List ℕ → Bool) → List ℕ → Bool
accept ci pc test [] = false
accept ci pc test (c ∷ t) = (pc == question_mark || pc == fold_case ci c) && test t

unfoldable pub glob : Bool → List ℕ → List ℕ → Bool
unfolding some_suffix accept
glob ci [] [] = true
glob ci [] (c ∷ t) = false
glob ci (d ∷ p) t =
    if fold_case ci d == star
    then some_suffix (glob ci p) t
    else accept ci (fold_case ci d) (glob ci p) t

fold_case-star : (ci : Bool) (d : ℕ) → (fold_case ci d == star) ≡ (d == star)
unfolding fold_case to_lower
fold_case-star true d = ground arith
fold_case-star false d = refl

pub glob-only_stars : (ci : Bool) (p : List ℕ) → glob ci p [] ≡ only_stars p
unfolding glob some_suffix accept only_stars
glob-only_stars ci [] = refl
glob-only_stars ci (d ∷ p) = ground (arith, fold_case-star ci d, glob-only_stars ci p)

pub some_suffix-split :
    (test : List ℕ → Bool) (t : List ℕ)
    → some_suffix test t ≡ true
    → (a b : List ℕ) × ((t ≡ a ++ b) × (test b ≡ true))
unfolding some_suffix
some_suffix-split test [] h = ([], [], (refl, h))
some_suffix-split test (c ∷ t) h = elim (Bool-cases (test (c ∷ t))) [
  | inl here ↦ ([], c ∷ t, (refl, here))
  | inr not_here ↦
      let (a, b, (e, k)) = some_suffix-split test t (ground arith) in
      (c ∷ a, b, (ap (λ (xs : List ℕ). c ∷ xs) e, k))
]

pub some_suffix-append :
    (test : List ℕ → Bool) (x t : List ℕ)
    → some_suffix test t ≡ true
    → some_suffix test (x ++ t) ≡ true
unfolding some_suffix
some_suffix-append test [] t h = h
some_suffix-append test (c ∷ x) t h = ground (arith, some_suffix-append test x t h)

-- A run of pattern characters without a star.
unfoldable pub StarFree : Bool → List ℕ → Type 0
StarFree ci [] = Unit
StarFree ci (d ∷ p) = ((fold_case ci d == star) ≡ false) × StarFree ci p

-- Such a run takes as many characters as it has.
pub glob-StarFree :
    (ci : Bool) (run p u : List ℕ)
    → StarFree ci run
    → glob ci (run ++ p) u ≡ true
    → (w v : List ℕ) × ((u ≡ w ++ v) × ((length w ≡ length run) × (glob ci p v ≡ true)))
unfolding glob StarFree accept
glob-StarFree ci [] p u s h = ([], u, (refl, (refl, h)))
glob-StarFree ci (d ∷ run) p [] s h = ground (arith, s.0)
glob-StarFree ci (d ∷ run) p (c ∷ u) s h =
    let (w, v, (e, (k, g))) = glob-StarFree ci run p u s.1 (ground (arith, s.0)) in
    (c ∷ w, v, (ap (λ (xs : List ℕ). c ∷ xs) e, (ap suc k, g)))

-- Where two splits of a text meet: the later rest is a rest of the earlier one.
pub split-split :
    (l v pre t : List ℕ)
    → l ++ v ≡ pre ++ t
    → length pre ≤ length l
    → (x : List ℕ) × ((t ≡ x ++ v) × (length pre + length x ≡ length l))
split-split l v [] t e h = (l, (sym e, omega arith))
split-split [] v (c ∷ pre) t e h = elim h [ ]
split-split (b ∷ l) v (c ∷ pre) t e h =
    let (x, (s, k)) = split-split l v pre t (ground arith) (omega arith) in
    (x, (s, omega (arith, k)))
