-- ===== src/Config/Redirect.antt =====
-- src/config/types.hpp: `validate_redirect`. Strings are lists of character codes; the integers of the
-- timeouts are signed. An error message is the name of what is wrong.
pub mod Address
use clew_proxy.Prelude.{
  ℕ, zero, suc, ◌+◌, ◌-◌, ◌*◌, Bool, true, false, not, ◌&&◌, ◌||◌, ◌==◌, ltb, leb, if◌then◌else◌,
  Option, none, some, List, [], ◌∷◌, length, ℤ, pos, ltb_ℤ, leb_ℤ,
}

pub record RedirectConfig : Type 0 where
  pub listen_host : List ℕ
  pub listen_port : ℕ
  pub tcp_idle_timeout_seconds : ℤ
  pub udp_idle_timeout_seconds : ℤ
  pub exclude_processes : List (List ℕ)

pub data RedirectError : Type 0 where
  empty_host bad_host bad_tcp_timeout bad_udp_timeout empty_name path_name : RedirectError

abbrev pub is_digit : ℕ → Bool
is_digit c = leb 48 c && leb c 57

abbrev pub dot : ℕ
dot = 46

-- The inner loop: how it stops, with the digits it has seen and what is left.
pub data OctetScan : Type 0 where
  bad : OctetScan
  scanned : (digits : ℕ) (rest : List ℕ) → OctetScan

unfoldable pub scan_octet : List ℕ → ℕ → ℕ → OctetScan
scan_octet [] val digits = scanned digits []
scan_octet (c ∷ s) val digits =
    let val' = val * 10 + (c - 48) in
    let later = scan_octet s val' (digits + 1) in
    if not (is_digit c)
    then scanned digits (c ∷ s)
    else if ltb 3 (digits + 1) || ltb 255 val'
    then bad
    else later

-- The outer loop, with the octets counted so far; `none` where it returns an error.
unfoldable pub count_octets : ℕ → List ℕ → ℕ → Option ℕ
unfolding scan_octet
count_octets zero s octets = none
count_octets (suc fuel) s octets = elim (scan_octet s 0 0) [
  | bad ↦ none
  | scanned digits [] ↦ if digits == 0 then none else some (octets + 1)
  | scanned digits (c ∷ rest) ↦
      let more = count_octets fuel rest (octets + 1) in
      if digits == 0 then none else if not (c == dot) then none else more
]

abbrev pub is_four : Option ℕ → Bool
is_four none = false
is_four (some n) = n == 4

-- The check of a host other than "0.0.0.0".
unfoldable pub is_dotted_quad : List ℕ → Bool
unfolding count_octets
is_dotted_quad host = is_four (count_octets (suc (length host)) host 0)

same_host : List ℕ → List ℕ → Bool
same_host [] [] = true
same_host (c ∷ s) (d ∷ t) = c == d && same_host s t
same_host s t = false

-- "0.0.0.0".
abbrev pub any_host : List ℕ
any_host = 48 ∷ 46 ∷ 48 ∷ 46 ∷ 48 ∷ 46 ∷ 48 ∷ []

unfoldable pub has_slash : List ℕ → Bool
has_slash [] = false
has_slash (c ∷ s) = c == 47 || c == 92 || has_slash s

unfoldable pub check_names : List (List ℕ) → Option RedirectError
unfolding has_slash
check_names [] = none
check_names ([] ∷ names) = some empty_name
check_names ((c ∷ name) ∷ names) =
    let rest = check_names names in if has_slash (c ∷ name) then some path_name else rest

abbrev pub is_empty_host : List ℕ → Bool
is_empty_host [] = true
is_empty_host (c ∷ s) = false

unfoldable pub validate_redirect : RedirectConfig → Option RedirectError
unfolding is_dotted_quad same_host check_names
validate_redirect r =
    if is_empty_host r.listen_host
    then some empty_host
    else if not (same_host r.listen_host any_host) && not (is_dotted_quad r.listen_host)
    then some bad_host
    else if ltb_ℤ r.tcp_idle_timeout_seconds (pos 0)
    then some bad_tcp_timeout
    else if leb_ℤ r.udp_idle_timeout_seconds (pos 0)
    then some bad_udp_timeout
    else check_names r.exclude_processes
