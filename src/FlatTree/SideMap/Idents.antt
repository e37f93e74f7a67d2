-- ===== src/FlatTree/SideMap/Idents.antt =====
-- src/process/flat_tree.hpp: lists of identities, and what killing or appending an entry does to one.
use clew_proxy.Prelude.{
  ℕ, zero, suc, ◌+◌, ◌≡◌, ◌≢◌, refl, ap, ◌⊎◌, inl, inr, Bool, true, false, ◌&&◌, if◌then◌else◌,
  ◌==◌, none, some, List, [], ◌∷◌, ◌++◌, length, get_elem?, arith,
}
use clew_proxy.FlatTree.Entry.{SideEntry, SideMap, update_at, lookup, insert, erase}
use clew_proxy.FlatTree.Links.{Entries}
use clew_proxy.FlatTree.Links.Frame.{Ident, ident, idents}
use clew_proxy.FlatTree.SideMap.{kill}

abbrev pub Idents : Type 0
Idents = List Ident

abbrev pub alive_in : Idents → ℕ
alive_in [] = 0
alive_in (x ∷ xs) = (if x.alive then 1 else 0) + alive_in xs

-- No alive entry of the list has this PID; no two alive entries share one.
abbrev pub Fresh : ℕ → Idents → Type 0
Fresh p [] = Unit
Fresh p (x ∷ xs) = ((x.alive && x.pid == p) ≡ false) × Fresh p xs

abbrev pub Distinct : Idents → Type 0
Distinct [] = Unit
Distinct (x ∷ xs) = (if x.alive then Fresh x.pid xs else Unit) × Distinct xs

-- The map.
pub lookup-erase :
    (k j : ℕ) (m : SideMap) → lookup k (erase j m) ≡ (if j == k then none else lookup k m)
unfolding lookup erase
lookup-erase k j [] = ground arith
lookup-erase k j ((i, v) ∷ m) = ground (arith, lookup-erase k j m)

pub lookup-insert :
    (k j : ℕ) (v : SideEntry) (m : SideMap)
    → lookup k (insert j v m) ≡ (if j == k then some v else lookup k m)
unfolding lookup insert
lookup-insert k j v m = refl

-- The identities of a vector in which one entry is killed.
abbrev pub bury : ℕ → Idents → Idents
bury i [] = []
bury zero (x ∷ xs) = record x { alive = false } ∷ xs
bury (suc i) (x ∷ xs) = x ∷ bury i xs

pub idents-kill : (i : ℕ) (es : Entries) → idents (update_at i kill es) ≡ bury i (idents es)
idents-kill i [] = refl
idents-kill zero (e ∷ es) = refl
idents-kill (suc i) (e ∷ es) = ap (λ (xs : Idents). ident e ∷ xs) (idents-kill i es)

pub get_elem?-bury : (i j : ℕ) (ids : Idents) → i ≢ j → get_elem? (bury i ids) j ≡ get_elem? ids j
get_elem?-bury i j [] h = refl
get_elem?-bury zero zero (x ∷ xs) h = absurd (h refl)
get_elem?-bury zero (suc j) (x ∷ xs) h = refl
get_elem?-bury (suc i) zero (x ∷ xs) h = refl
get_elem?-bury (suc i) (suc j) (x ∷ xs) h = get_elem?-bury i j xs (λ e. h (ap suc e))

pub get_elem?-bury_self :
    (i : ℕ) (ids : Idents) (x : Ident) → get_elem? (bury i ids) i ≡ some x → x.alive ≡ false
get_elem?-bury_self i [] x h = ground arith
get_elem?-bury_self zero (y ∷ ys) x h = ground arith
get_elem?-bury_self (suc i) (y ∷ ys) x h = get_elem?-bury_self i ys x h

pub alive_in-bury :
    (i : ℕ) (ids : Idents) (x : Ident)
    → get_elem? ids i ≡ some x
    → x.alive ≡ true
    → alive_in (bury i ids) + 1 ≡ alive_in ids
alive_in-bury i [] x h a = ground arith
alive_in-bury zero (y ∷ ys) x h a = ground arith
alive_in-bury (suc i) (y ∷ ys) x h a = omega (arith, alive_in-bury i ys x h a)

pub length-bury : (i : ℕ) (ids : Idents) → length (bury i ids) ≡ length ids
length-bury i [] = refl
length-bury zero (y ∷ ys) = refl
length-bury (suc i) (y ∷ ys) = ap suc (length-bury i ys)

pub Fresh-bury : (p i : ℕ) (ids : Idents) → Fresh p ids → Fresh p (bury i ids)
Fresh-bury p i [] h = tt
Fresh-bury p zero (y ∷ ys) h = (refl, h.1)
Fresh-bury p (suc i) (y ∷ ys) h = (h.0, Fresh-bury p i ys h.1)

pub Distinct-bury : (i : ℕ) (ids : Idents) → Distinct ids → Distinct (bury i ids)
Distinct-bury i [] h = tt
Distinct-bury zero (y ∷ ys) h = (tt, h.1)
Distinct-bury (suc i) (y ∷ ys) h = (head y.alive h.0, Distinct-bury i ys h.1)
  where
    head :
        (b : Bool)
        → (if b then Fresh y.pid ys else Unit)
        → (if b then Fresh y.pid (bury i ys) else Unit)
    head true f = Fresh-bury y.pid i ys f
    head false f = tt

pub Fresh-append :
    (p : ℕ) (ids : Idents) (x : Ident)
    → (x.pid == p) ≡ false
    → Fresh p ids
    → Fresh p (ids ++ x ∷ [])
Fresh-append p [] x h f = (ground arith, tt)
Fresh-append p (y ∷ ys) x h f = (f.0, Fresh-append p ys x h f.1)

pub Distinct-append :
    (ids : Idents) (x : Ident) → Fresh x.pid ids → Distinct ids → Distinct (ids ++ x ∷ [])
Distinct-append [] x f d = (last x.alive, tt)
  where
    last : (b : Bool) → (if b then Unit {0} else Unit {0})
    last true = tt
    last false = tt
Distinct-append (y ∷ ys) x f d = (head y.alive d.0 f.0, Distinct-append ys x f.1 d.1)
  where
    head :
        (b : Bool)
        → (if b then Fresh y.pid ys else Unit)
        → ((b && y.pid == x.pid) ≡ false)
        → (if b then Fresh y.pid (ys ++ x ∷ []) else Unit)
    head true g n = Fresh-append y.pid ys x (ground arith) g
    head false g n = tt

pub get_elem?-append_last :
    (ids : Idents) (x : Ident) → get_elem? (ids ++ x ∷ []) (length ids) ≡ some x
get_elem?-append_last [] x = refl
get_elem?-append_last (y ∷ ys) x = get_elem?-append_last ys x

pub get_elem?-append_cases :
    (ids : Idents) (x y : Ident) (i : ℕ)
    → get_elem? (ids ++ x ∷ []) i ≡ some y
    → (get_elem? ids i ≡ some y) ⊎ ((i ≡ length ids) × (x ≡ y))
get_elem?-append_cases [] x y zero h = inr (refl, ground arith)
get_elem?-append_cases [] x y (suc i) h = ground arith
get_elem?-append_cases (z ∷ zs) x y zero h = inl h
get_elem?-append_cases (z ∷ zs) x y (suc i) h = ground (arith, get_elem?-append_cases zs x y i h)

pub get_elem?-append_left :
    (ids : Idents) (x y : Ident) (i : ℕ)
    → get_elem? ids i ≡ some y
    → get_elem? (ids ++ x ∷ []) i ≡ some y
get_elem?-append_left [] x y i h = ground arith
get_elem?-append_left (z ∷ zs) x y zero h = h
get_elem?-append_left (z ∷ zs) x y (suc i) h = get_elem?-append_left zs x y i h

-- An alive entry in the vector of which the map knows nothing does not exist.
pub Fresh-of_none :
    (p : ℕ) (ids : Idents)
    → ((i : ℕ) (x : Ident) → get_elem? ids i ≡ some x → x.alive ≡ true → x.pid ≢ p)
    → Fresh p ids
Fresh-of_none p [] h = tt
Fresh-of_none p (x ∷ xs) h = (here, Fresh-of_none p xs (λ i. h (suc i)))
  where
    here : (x.alive && x.pid == p) ≡ false
    here = ground (arith, h 0 x refl)
