-- ===== src/Rules/Wildcard/Loop.antt =====
-- src/rules/rule_engine_v3.hpp: the loop of wildcard_match against the recursive reading.
use clew_proxy.Prelude.{
  ℕ, ◌<◌, ◌≡◌, refl, ap, sym, ◌∙◌, inl, inr, Bool, true, false, ◌||◌, ◌==◌, none, some, List, [],
  ◌∷◌, ◌++◌, length, length-append, arith, Bool-cases,
}
use clew_proxy.Rules.Wildcard.{
  StarAt, Turn, go_on, stop, backtrack, turn, fold_case, question_mark, star,
}
use clew_proxy.Rules.Wildcard.Glob.{
  some_suffix, accept, glob, glob-only_stars, some_suffix-split, some_suffix-append, StarFree,
  glob-StarFree, split-split,
}

-- What going back to the last star can still find, and what the loop decides from a position on.
unfoldable pub later : Bool → StarAt → Bool
unfolding some_suffix glob
later ci none = false
later ci (some (sp, [])) = false
later ci (some (sp, c ∷ u)) = some_suffix (glob ci sp) u

unfoldable pub verdict : Bool → List ℕ → List ℕ → StarAt → Bool
unfolding later glob
verdict ci p t s = glob ci p t || later ci s

unfoldable pub verdict_of : Bool → Turn → Bool
unfolding verdict
verdict_of ci (stop b) = b
verdict_of ci (go_on p t s) = verdict ci p t s

-- Since the last star the pattern and the text advanced alike, over no other star.
unfoldable pub Aligned : Bool → List ℕ → List ℕ → StarAt → Type 0
unfolding StarFree
Aligned ci p t none = Unit
Aligned ci p t (some (sp, st)) =
    (run pre : List ℕ) × ((sp ≡ run ++ p)
      × ((st ≡ pre ++ t) × ((length pre ≡ length run) × StarFree ci run)))

pub append_assoc : (a b c : List ℕ) → (a ++ b) ++ c ≡ a ++ (b ++ c)
append_assoc [] b c = refl
append_assoc (x ∷ a) b c = ap (λ (xs : List ℕ). x ∷ xs) (append_assoc a b c)

verdict-backtrack : (ci : Bool) (s : StarAt) → verdict_of ci (backtrack s) ≡ later ci s
unfolding verdict_of verdict later backtrack some_suffix
verdict-backtrack ci none = refl
verdict-backtrack ci (some (sp, [])) = refl
verdict-backtrack ci (some (sp, c ∷ [])) = ground arith
verdict-backtrack ci (some (sp, c ∷ d ∷ u)) = refl

-- What is found later lies in a proper rest of the text at hand.
later_reaches :
    (ci : Bool) (p t : List ℕ) (s : StarAt)
    → Aligned ci p t s
    → later ci s ≡ true
    → (x v : List ℕ) × ((t ≡ x ++ v) × ((0 < length x) × (glob ci p v ≡ true)))
unfolding Aligned later
later_reaches ci p t none a h = ground arith
later_reaches ci p t (some (sp, [])) a h = ground arith
later_reaches ci p t (some (sp, c ∷ u)) (run, pre, (e, (f, (k, free)))) h =
    let (a, b, (split, g)) = some_suffix-split (glob ci sp) u h in
    let (w, v, (split', (k', g'))) =
      glob-StarFree ci run p b free (ap (λ (q : List ℕ). glob ci q b) (sym e) ∙ g) in
    let whole : (c ∷ (a ++ w)) ++ v ≡ pre ++ t =
      ap (λ (xs : List ℕ). c ∷ xs)
        (append_assoc a w v ∙ (ap (λ (xs : List ℕ). a ++ xs) (sym split') ∙ sym split))
      ∙ f in
    let (x, (cut, count)) =
      split-split (c ∷ (a ++ w)) v pre t whole (omega (arith, length-append a w, k, k')) in
    (x, v, (cut, (omega (arith, length-append a w, k, k', count), g')))

false_unless : (b : Bool) → (b ≡ true → ⊥) → b ≡ false
false_unless true h = absurd (h refl)
false_unless false h = refl

-- At the end of the text nothing is found later.
later-end : (ci : Bool) (p : List ℕ) (s : StarAt) → Aligned ci p [] s → later ci s ≡ false
later-end ci p s a = false_unless (later ci s) (λ h.
    let (x, v, (cut, (some_left, g))) = later_reaches ci p [] s a h in
    omega (arith, ap length cut ∙ length-append x v))

-- At a new star, what would be found later by the old one is found by the new one.
later-star :
    (ci : Bool) (d : ℕ) (p t : List ℕ) (s : StarAt)
    → (fold_case ci d == star) ≡ true
    → Aligned ci (d ∷ p) t s
    → later ci s ≡ true
    → some_suffix (glob ci p) t ≡ true
unfolding glob
later-star ci d p t s is a h =
    let (x, v, (cut, (some_left, g))) = later_reaches ci (d ∷ p) t s a h in
    let found : some_suffix (glob ci p) v ≡ true = ground (arith, is) in
    ap (some_suffix (glob ci p)) cut ∙ some_suffix-append (glob ci p) x v found

-- A turn leaves the verdict as it was.
pub turn-verdict :
    (ci : Bool) (p t : List ℕ) (s : StarAt)
    → Aligned ci p t s
    → verdict_of ci (turn ci p t s) ≡ verdict ci p t s
unfolding turn verdict verdict_of glob accept some_suffix later
turn-verdict ci p [] s a = ground (arith, later-end ci p s a, glob-only_stars ci p)
turn-verdict ci [] (c ∷ t) s a = verdict-backtrack ci s
turn-verdict ci (d ∷ p) (c ∷ t) s a = elim (Bool-cases (fold_case ci d == question_mark)) [
  | inl any ↦ ground (arith, any)
  | inr other ↦ elim (Bool-cases (fold_case ci d == star)) [
    | inl is ↦ ground (arith, other, is, later-star ci d p (c ∷ t) s is a)
    | inr not_star ↦ elim (Bool-cases (fold_case ci d == fold_case ci c)) [
      | inl same ↦ ground (arith, other, not_star, same)
      | inr differs ↦ ground (arith, other, not_star, differs, verdict-backtrack ci s)
    ]
  ]
]
