-- ===== src/Rules/Wildcard.antt =====
-- src/rules/rule_engine_v3.hpp: wildcard_match and cmdline_match. A string is the list of its bytes,
-- and a position in a string is the list from there on.
pub mod Glob
pub mod Loop
pub mod Fuel
use clew_proxy.Prelude.{
  ℕ, zero, suc, ◌+◌, ◌*◌, Bool, true, false, ◌&&◌, ◌||◌, if◌then◌else◌, leb, ◌==◌, Option, none,
  some, List, [], ◌∷◌, length, map,
}

-- `std::tolower` in the "C" locale.
unfoldable pub to_lower : ℕ → ℕ
to_lower c = if leb 65 c && leb c 90 then c + 32 else c

abbrev pub question_mark : ℕ
question_mark = 63

abbrev pub star : ℕ
star = 42

abbrev pub space : ℕ
space = 32

unfoldable pub fold_case : Bool → ℕ → ℕ
unfolding to_lower
fold_case case_insensitive c = if case_insensitive then to_lower c else c

-- Where the last star was met: the pattern after it, and the text from there on.
abbrev pub StarAt : Type 0
StarAt = Option (List ℕ × List ℕ)

-- `go_on` carries the rest of the pattern, the rest of the text and the last star.
pub data Turn : Type 0 where
  go_on : List ℕ → List ℕ → StarAt → Turn
  stop : Bool → Turn

-- The end of the loop's body: back to the last star, which takes one more character.
unfoldable pub backtrack : StarAt → Turn
backtrack none = stop false
backtrack (some (p, [])) = stop false
backtrack (some (p, c ∷ t)) = go_on p t (some (p, t))

-- `while (pi < pattern.size() && pattern[pi] == '*') pi++; return pi == pattern.size();`
unfoldable pub only_stars : List ℕ → Bool
only_stars [] = true
only_stars (c ∷ p) = if c == star then only_stars p else false

-- One turn of the loop, the test of the loop included.
unfoldable pub turn : Bool → List ℕ → List ℕ → StarAt → Turn
unfolding backtrack only_stars fold_case
turn ci p [] s = stop (only_stars p)
turn ci [] (c ∷ t) s = backtrack s
turn ci (d ∷ p) (c ∷ t) s =
    let pc = fold_case ci d in
    let tc = fold_case ci c in
    if pc == question_mark
    then go_on p t s
    else if pc == star
    then go_on p (c ∷ t) (some (p, c ∷ t))
    else if pc == tc
    then go_on p t s
    else backtrack s

-- The loop, with fuel for its turns.
unfoldable pub match_loop : ℕ → Bool → List ℕ → List ℕ → StarAt → Option Bool
unfolding turn
match_loop zero ci p t s = none
match_loop (suc fuel) ci p t s = elim (turn ci p t s) [
  | go_on p' t' s' ↦ match_loop fuel ci p' t' s'
  | stop b ↦ some b
]

abbrev pub loop_fuel : List ℕ → List ℕ → ℕ
loop_fuel p t =
    suc (
      (suc (length p)) * (suc (length t) * suc (length t)) + (length t * suc (length t) + length t))

unfoldable pub wildcard_match : Bool → List ℕ → List ℕ → Bool
unfolding match_loop
wildcard_match case_insensitive pattern text =
    elim (match_loop (loop_fuel pattern text) case_insensitive pattern text none) [
      | none ↦ false
      | some b ↦ b
    ]

-- Keyword mode. `find` of a fragment, and the fragments between the spaces.
unfoldable pub starts_with : List ℕ → List ℕ → Bool
starts_with [] t = true
starts_with (c ∷ f) [] = false
starts_with (c ∷ f) (d ∷ t) = let rest = starts_with f t in if c == d then rest else false

unfoldable pub find : List ℕ → List ℕ → Bool
unfolding starts_with
find f [] = starts_with f []
find f (d ∷ t) = let rest = find f t in if starts_with f (d ∷ t) then true else rest

-- The first fragment, which ends at a space, and the fragments after it.
unfoldable pub fragments_from : List ℕ → List ℕ × List (List ℕ)
fragments_from [] = ([], [])
fragments_from (c ∷ p) =
    let rest = fragments_from p in
    if c == space then ([], rest.0 ∷ rest.1) else (c ∷ rest.0, rest.1)

-- An empty fragment, where spaces follow one another, is skipped.
unfoldable pub all_found : List (List ℕ) → List ℕ → Bool
unfolding find
all_found [] t = true
all_found ([] ∷ fs) t = all_found fs t
all_found ((c ∷ f) ∷ fs) t = let rest = all_found fs t in if find (c ∷ f) t then rest else false

unfoldable pub is_glob : List ℕ → Bool
is_glob [] = false
is_glob (c ∷ p) = let rest = is_glob p in if c == star || c == question_mark then true else rest

unfoldable pub cmdline_match : List ℕ → List ℕ → Bool
unfolding is_glob wildcard_match fragments_from all_found
cmdline_match pattern cmdline =
    let fragments = fragments_from (map to_lower pattern) in
    if is_glob pattern
    then wildcard_match true pattern cmdline
    else all_found (fragments.0 ∷ fragments.1) (map to_lower cmdline)
