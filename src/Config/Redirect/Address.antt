-- ===== src/Config/Redirect/Address.antt =====
-- src/config/types.hpp: which hosts `validate_redirect` accepts.
use clew_proxy.Prelude.{
  ℕ, zero, suc, ◌+◌, ◌-◌, ◌*◌, ◌≤◌, ◌≡◌, refl, inl, inr, Bool, true, not, ◌&&◌, ◌||◌, ◌==◌, ltb,
  leb, if◌then◌else◌, Option, none, some, List, [], ◌∷◌, length, arith, Bool-cases,
}
use clew_proxy.Config.Redirect.{
  is_digit, dot, OctetScan, bad, scanned, scan_octet, count_octets, is_dotted_quad,
}

-- The text between the dots.
abbrev cons_first : ℕ → List (List ℕ) → List (List ℕ)
cons_first c [] = []
cons_first c (p ∷ ps) = (c ∷ p) ∷ ps

pub parts : List ℕ → List (List ℕ)
parts [] = [] ∷ []
parts (c ∷ s) = if c == dot then [] ∷ parts s else cons_first c (parts s)

-- The decimal value of a text after the value `val`.
abbrev pub value_from : ℕ → List ℕ → ℕ
value_from val [] = val
value_from val (c ∷ s) = value_from (val * 10 + (c - 48)) s

abbrev pub all_digits : List ℕ → Bool
all_digits [] = true
all_digits (c ∷ s) = is_digit c && all_digits s

-- One to three digits whose value is 255 at most.
abbrev pub is_octet : List ℕ → Bool
is_octet s = all_digits s && ltb 0 (length s) && leb (length s) 3 && leb (value_from 0 s) 255

abbrev pub all_octets : List (List ℕ) → Bool
all_octets [] = true
all_octets (p ∷ ps) = is_octet p && all_octets ps

-- What the inner loop still wants of a part, after `digits` digits of the value `val`.
abbrev fits : ℕ → ℕ → List ℕ → Bool
fits val digits [] = ltb 0 digits
fits val digits (c ∷ s) =
    is_digit c
    && not (ltb 3 (digits + 1) || ltb 255 (val * 10 + (c - 48)))
    && fits (val * 10 + (c - 48)) (digits + 1) s

fits-is_octet : (s : List ℕ) → fits 0 0 s ≡ is_octet s
fits-is_octet [] = refl
fits-is_octet (a ∷ []) = ground arith
fits-is_octet (a ∷ b ∷ []) = ground arith
fits-is_octet (a ∷ b ∷ c ∷ []) = ground arith
fits-is_octet (a ∷ b ∷ c ∷ d ∷ s) = ground arith

abbrev fit_all : ℕ → ℕ → List (List ℕ) → Bool
fit_all val digits [] = true
fit_all val digits (p ∷ ps) = fits val digits p && all_octets ps

parts_cons : (s : List ℕ) → (p : List ℕ) × (ps : List (List ℕ)) × (parts s ≡ p ∷ ps)
unfolding parts
parts_cons [] = ([], [], refl)
parts_cons (c ∷ s) = elim (Bool-cases (c == dot)) [
  | inl d ↦ ([], parts s, ground arith)
  | inr n ↦ let (p, ps, e) = parts_cons s in (c ∷ p, ps, ground (arith, e))
]

-- What the outer loop does with the stop of the inner one.
abbrev resume : ℕ → ℕ → OctetScan → Option ℕ
resume fuel octets bad = none
resume fuel octets (scanned digits []) = if digits == 0 then none else some (octets + 1)
resume fuel octets (scanned digits (c ∷ rest)) =
    if digits == 0
    then none
    else if not (c == dot)
    then none
    else count_octets fuel rest (octets + 1)

count_octets-resume :
    (fuel : ℕ) (s : List ℕ) (octets : ℕ)
    → count_octets (suc fuel) s octets ≡ resume fuel octets (scan_octet s 0 0)
unfolding count_octets
count_octets-resume fuel s octets = go (scan_octet s 0 0)
  where
    go :
        (r : OctetScan)
        → elim r [
          | bad ↦ none
          | scanned digits [] ↦ if digits == 0 then none else some (octets + 1)
          | scanned digits (c ∷ rest) ↦
              let more = count_octets fuel rest (octets + 1) in
              if digits == 0 then none else if not (c == dot) then none else more
        ]
          ≡ resume fuel octets r
    go bad = refl
    go (scanned digits []) = refl
    go (scanned digits (c ∷ rest)) = refl

all_octets-fit_all : (s : List ℕ) → all_octets (parts s) ≡ fit_all 0 0 (parts s)
all_octets-fit_all s = let (p, ps, e) = parts_cons s in ground (arith, e, fits-is_octet p)

-- The loops from any point of a part on.
resume-fit_all :
    (fuel : ℕ) (s : List ℕ) (val digits octets : ℕ)
    → length s ≤ fuel
    → resume fuel octets (scan_octet s val digits)
      ≡ (if fit_all val digits (parts s) then some (octets + length (parts s)) else none)
unfolding scan_octet parts
resume-fit_all fuel [] val digits octets h = ground arith
resume-fit_all zero (c ∷ s) val digits octets h = ground arith
resume-fit_all (suc fuel) (c ∷ s) val digits octets h =
    let (p, ps, e) = parts_cons s in
    elim (Bool-cases (is_digit c)) [
      | inl d ↦ ground (
        arith,
        e,
        resume-fit_all (suc fuel) s (val * 10 + (c - 48)) (digits + 1) octets (omega (arith, h)),
      )
      | inr n ↦ elim (Bool-cases (c == dot)) [
        | inl dt ↦ ground (
          arith,
          e,
          count_octets-resume fuel s (octets + 1),
          resume-fit_all fuel s 0 0 (octets + 1) (omega (arith, h)),
          all_octets-fit_all s,
        )
        | inr nd ↦ ground (arith, e)
      ]
    ]

-- A host is accepted as an address exactly if it has four parts between its dots, each of one to
-- three decimal digits with a value of 255 at most. The loops end for every text.
pub is_dotted_quad_lem :
    (host : List ℕ) → is_dotted_quad host ≡ ((length (parts host) == 4) && all_octets (parts host))
unfolding is_dotted_quad
is_dotted_quad_lem host = ground (
  arith,
  count_octets-resume (length host) host 0,
  resume-fit_all (length host) host 0 0 0 (omega arith),
  all_octets-fit_all host,
)
