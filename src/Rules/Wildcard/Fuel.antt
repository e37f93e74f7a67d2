-- ===== src/Rules/Wildcard/Fuel.antt =====
-- src/rules/rule_engine_v3.hpp: the loop of wildcard_match ends, and how.
use Prim.Native.Nat.{◌*◌}
use native.Mathlib.Nat.{mul-le-mul_right}
use clew_proxy.Prelude.{
  ℕ, zero, suc, ◌+◌, ◌<◌, ◌≤◌, ◌≡◌, refl, ap, sym, ◌∙◌, inl, inr, Bool, false, ◌==◌, none, some,
  List, [], ◌∷◌, ◌++◌, length, length-append, arith, Bool-cases,
}
use clew_proxy.Rules.Wildcard.{
  StarAt, Turn, go_on, stop, backtrack, turn, match_loop, loop_fuel, wildcard_match, fold_case,
  question_mark, star,
}
use clew_proxy.Rules.Wildcard.Glob.{glob, StarFree}
use clew_proxy.Rules.Wildcard.Loop.{later, verdict, verdict_of, Aligned, append_assoc, turn-verdict}

StarFree-append :
    (ci : Bool) (run : List ℕ) (d : ℕ)
    → StarFree ci run
    → (fold_case ci d == star) ≡ false
    → StarFree ci (run ++ d ∷ [])
unfolding StarFree
StarFree-append ci [] d clear free = (free, tt)
StarFree-append ci (r ∷ run) d clear free = (clear.0, StarFree-append ci run d clear.1 free)

-- What is left to do, for a pattern of `P` and a text of `N` characters.
unfoldable stars : ℕ → StarAt → ℕ
stars P none = suc P
stars P (some (sp, st)) = length sp

unfoldable texts : ℕ → StarAt → ℕ
texts N none = N
texts N (some (sp, st)) = length st

unfoldable left : ℕ → ℕ → List ℕ → StarAt → ℕ
unfolding stars texts
left P N t s = stars P s * (suc N * suc N) + (texts N s * suc N + length t)

record IsBounded (P N : ℕ) (p t : List ℕ) (s : StarAt) : Type 0 where
  pub pattern : length p ≤ stars P s
  pub text : length t ≤ texts N s
  pub whole : texts N s ≤ N

-- The next position is aligned and bounded, and there is less left to do.
unfoldable IsNext : Bool → ℕ → ℕ → ℕ → Turn → Type 0
unfolding Aligned left
IsNext ci P N bound (stop b) = Unit
IsNext ci P N bound (go_on p t s) =
    Aligned ci p t s × (IsBounded P N p t s × (left P N t s < bound))

backtrack-IsNext :
    (ci : Bool) (P N : ℕ) (p t : List ℕ) (s : StarAt)
    → IsBounded P N p t s
    → IsNext ci P N (left P N t s) (backtrack s)
unfolding IsNext backtrack Aligned left stars texts StarFree
backtrack-IsNext ci P N p t none b = tt
backtrack-IsNext ci P N p t (some (sp, [])) b = tt
backtrack-IsNext ci P N p t (some (sp, c ∷ u)) b = (
  ([], [], (refl, (refl, (refl, tt)))),
  (
    record { pattern = omega arith; text = omega arith; whole = omega (arith, b.whole) },
    omega (arith, b.whole, b.text),
  ),
)

-- The pattern and the text advance by one character each.
advance-IsNext :
    (ci : Bool) (P N d c : ℕ) (p t : List ℕ) (s : StarAt)
    → (fold_case ci d == star) ≡ false
    → Aligned ci (d ∷ p) (c ∷ t) s
    → IsBounded P N (d ∷ p) (c ∷ t) s
    → IsNext ci P N (left P N (c ∷ t) s) (go_on p t s)
unfolding IsNext Aligned left
advance-IsNext ci P N d c p t s free a b = (
  shift s a,
  (
    record { pattern = omega (arith, b.pattern); text = omega (arith, b.text); whole = b.whole },
    omega arith,
  ),
)
  where
    shift : (r : StarAt) → Aligned ci (d ∷ p) (c ∷ t) r → Aligned ci p t r
    shift none h = tt
    shift (some (sp, st)) (run, pre, (e, (f, (k, clear)))) = (
      run ++ d ∷ [],
      pre ++ c ∷ [],
      (
        e ∙ sym (append_assoc run (d ∷ []) p),
        (
          f ∙ sym (append_assoc pre (c ∷ []) t),
          (
            omega (arith, k, length-append run (d ∷ []), length-append pre (c ∷ [])),
            StarFree-append ci run d clear free,
          ),
        ),
      ),
    )

-- A new star.
star-IsNext :
    (ci : Bool) (P N d c : ℕ) (p t : List ℕ) (s : StarAt)
    → IsBounded P N (d ∷ p) (c ∷ t) s
    → IsNext ci P N (left P N (c ∷ t) s) (go_on p (c ∷ t) (some (p, c ∷ t)))
unfolding IsNext Aligned left StarFree stars texts
star-IsNext ci P N d c p t s b =
    let shorter : suc (length p) ≤ stars P s = b.pattern in
    let fits : suc (suc (length t)) ≤ suc N = omega (arith, b.text, b.whole) in
    (
      ([], [], (refl, (refl, (refl, tt)))),
      (
        record {
          pattern = omega arith;
          text = omega arith;
          whole = omega (arith, b.text, b.whole);
        },
        omega
            (arith, mul-le-mul_right (suc N * suc N) shorter, mul-le-mul_right (suc N) fits, fits),
      ),
    )

turn-IsNext :
    (ci : Bool) (P N : ℕ) (p t : List ℕ) (s : StarAt)
    → Aligned ci p t s
    → IsBounded P N p t s
    → IsNext ci P N (left P N t s) (turn ci p t s)
unfolding turn IsNext
turn-IsNext ci P N p [] s a b = tt
turn-IsNext ci P N [] (c ∷ t) s a b = backtrack-IsNext ci P N [] (c ∷ t) s b
turn-IsNext ci P N (d ∷ p) (c ∷ t) s a b = elim (Bool-cases (fold_case ci d == question_mark)) [
  | inl any ↦ rw (any, turn) (advance-IsNext ci P N d c p t s (ground (arith, any)) a b)
  | inr other ↦ elim (Bool-cases (fold_case ci d == star)) [
    | inl is ↦ rw (other, is, turn) (star-IsNext ci P N d c p t s b)
    | inr free ↦ elim (Bool-cases (fold_case ci d == fold_case ci c)) [
      | inl same ↦ rw (other, free, same, turn) (advance-IsNext ci P N d c p t s free a b)
      | inr differs ↦ rw (other, free, differs, turn) (backtrack-IsNext ci P N (d ∷ p) (c ∷ t) s b)
    ]
  ]
]

match_loop-verdict :
    (fuel : ℕ) (ci : Bool) (P N : ℕ) (p t : List ℕ) (s : StarAt)
    → left P N t s < fuel
    → Aligned ci p t s
    → IsBounded P N p t s
    → match_loop fuel ci p t s ≡ some (verdict ci p t s)
unfolding match_loop IsNext verdict verdict_of
match_loop-verdict zero ci P N p t s enough a b = elim enough [ ]
match_loop-verdict (suc fuel) ci P N p t s enough a b =
    go (λ p' t' s' less. match_loop-verdict fuel ci P N p' t' s' less) (turn ci p t s)
      (turn-verdict ci p t s a) (turn-IsNext ci P N p t s a b)
  where
    go :
        ((p' t' : List ℕ) (s' : StarAt)
          → left P N t' s' < fuel
          → Aligned ci p' t' s'
          → IsBounded P N p' t' s'
          → match_loop fuel ci p' t' s' ≡ some (verdict ci p' t' s'))
        → (r : Turn) → verdict_of ci r ≡ verdict ci p t s
        → IsNext ci P N (left P N t s) r
        → elim r [ go_on p' t' s' ↦ match_loop fuel ci p' t' s' | stop b ↦ some b ]
          ≡ some (verdict ci p t s)
    go again (stop b) e n = ap some e
    go again (go_on p' t' s') e (a', (b', less)) =
        again p' t' s' (omega (arith, less)) a' b' ∙ ap some e

verdict-start : (ci : Bool) (p t : List ℕ) → verdict ci p t none ≡ glob ci p t
unfolding verdict later
verdict-start ci p t = ground arith

start_Aligned : (ci : Bool) (p t : List ℕ) → Aligned ci p t none
unfolding Aligned
start_Aligned ci p t = tt

enough : (p t : List ℕ) → left (length p) (length t) t none < loop_fuel p t
unfolding left stars texts
enough p t = omega arith

bounded : (p t : List ℕ) → IsBounded (length p) (length t) p t none
unfolding stars texts
bounded p t = record { pattern = omega arith; text = omega arith; whole = omega arith }

-- `wildcard_match` never runs out of fuel, and it answers as the recursive reading of the pattern does:
-- `?` is any character, `*` is any run of characters, and any other character is itself, up to case
-- if case does not matter.
pub wildcard_match-glob :
    (case_insensitive : Bool) (pattern text : List ℕ)
    → (match_loop (loop_fuel pattern text) case_insensitive pattern text none
        ≡ some (wildcard_match case_insensitive pattern text))
      × (wildcard_match case_insensitive pattern text ≡ glob case_insensitive pattern text)
unfolding wildcard_match
wildcard_match-glob ci pattern text =
    let ended =
      match_loop-verdict (loop_fuel pattern text) ci (length pattern) (length text) pattern text
        none (enough pattern text) start (bounded pattern text) in
    let only : verdict ci pattern text none ≡ glob ci pattern text =
      verdict-start ci pattern text in
    (rw (ended, wildcard_match) refl, rw (ended, wildcard_match) only)
  where
    start : Aligned ci pattern text none
    start = start_Aligned ci pattern text
