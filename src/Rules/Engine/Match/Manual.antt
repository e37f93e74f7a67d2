-- ===== src/Rules/Engine/Match/Manual.antt =====
-- src/rules/rule_engine_v3.hpp: the rules never take a process that was hijacked by hand.
use Prim.Native.Nat.{bit_and, bit_or, bit_or-bitwise}
use clew_proxy.Prelude.{
  ℕ, zero, suc, ◌/◌, ◌%◌, ◌≡◌, refl, ◌∙◌, inl, inr, true, [], ◌∷◌, arith, Bool-cases,
}
use clew_proxy.Prelude.Bits.{bit_and_step, bit_and-zero}
use clew_proxy.FlatTree.Entry.{
  ProcessEntry, update_at, has_flag, set_flag, clear_flag, manual_hijack_flag, auto_matched_flag,
}
use clew_proxy.FlatTree.Links.{Entries}
use clew_proxy.Rules.Engine.Match.{mark, clear_auto}

bit_and-one : (x : ℕ) → bit_and x 1 ≡ x % 2
bit_and-one x = omega (arith, bit_and_step x 1, bit_and-zero (x / 2))

bit_or-two : (x : ℕ) → bit_or x 2 % 2 ≡ x % 2
bit_or-two zero = refl
bit_or-two (suc x) = omega (arith, bit_or-bitwise (suc x) 2)

bit_and-odd : (x : ℕ) → bit_and x 253 % 2 ≡ x % 2
bit_and-odd x = omega (arith, bit_and_step x 253)

has_flag-set_flag :
    (e : ProcessEntry)
    → has_flag manual_hijack_flag (set_flag auto_matched_flag e) ≡ has_flag manual_hijack_flag e
unfolding has_flag set_flag
has_flag-set_flag e =
    ground (arith, bit_and-one e.flags, bit_and-one (bit_or e.flags 2), bit_or-two e.flags)

has_flag-clear_flag :
    (e : ProcessEntry)
    → has_flag manual_hijack_flag (clear_flag auto_matched_flag e) ≡ has_flag manual_hijack_flag e
unfolding has_flag clear_flag
has_flag-clear_flag e =
    ground (arith, bit_and-one e.flags, bit_and-one (bit_and e.flags 253), bit_and-odd e.flags)

-- The two entries are hijacked by hand alike, and in the same group if they are.
pub record Kept (e e' : ProcessEntry) : Type 0 where
  pub manual : has_flag manual_hijack_flag e' ≡ has_flag manual_hijack_flag e
  pub group : has_flag manual_hijack_flag e ≡ true → e'.group_id ≡ e.group_id

unfoldable pub KeepsManual : Entries → Entries → Type 0
KeepsManual [] [] = Unit
KeepsManual [] (y ∷ ys) = ⊥
KeepsManual (x ∷ xs) [] = ⊥
KeepsManual (x ∷ xs) (y ∷ ys) = Kept x y × KeepsManual xs ys

pub KeepsManual-refl : (es : Entries) → KeepsManual es es
unfolding KeepsManual
KeepsManual-refl [] = tt
KeepsManual-refl (e ∷ es) = (record { manual = refl; group = λ _. refl }, KeepsManual-refl es)

Kept-trans : (x y z : ProcessEntry) → Kept x y → Kept y z → Kept x z
Kept-trans x y z a b = record {
  manual = b.manual ∙ a.manual;
  group = λ m. b.group (a.manual ∙ m) ∙ a.group m;
}

pub KeepsManual-trans :
    (xs ys zs : Entries) → KeepsManual xs ys → KeepsManual ys zs → KeepsManual xs zs
unfolding KeepsManual
KeepsManual-trans [] [] zs a b = b
KeepsManual-trans [] (y ∷ ys) zs a b = absurd a
KeepsManual-trans (x ∷ xs) [] zs a b = absurd a
KeepsManual-trans (x ∷ xs) (y ∷ ys) [] a b = absurd b
KeepsManual-trans (x ∷ xs) (y ∷ ys) (z ∷ zs) a b =
    (Kept-trans x y z a.0 b.0, KeepsManual-trans xs ys zs a.1 b.1)

pub KeepsManual-update_at :
    (i : ℕ) (f : ProcessEntry → ProcessEntry) (es : Entries)
    → ((e : ProcessEntry) → Kept e (f e))
    → KeepsManual es (update_at i f es)
unfolding KeepsManual
KeepsManual-update_at i f [] h = tt
KeepsManual-update_at zero f (e ∷ es) h = (h e, KeepsManual-refl es)
KeepsManual-update_at (suc i) f (e ∷ es) h =
    (record { manual = refl; group = λ _. refl }, KeepsManual-update_at i f es h)

pub mark-Kept : (group : ℕ) (e : ProcessEntry) → Kept e (mark group e)
unfolding mark
mark-Kept group e = elim (Bool-cases (has_flag manual_hijack_flag e)) [
  | inl m ↦ rw (m, mark) (record { manual = refl; group = λ _. refl })
  | inr o ↦
      rw (o, mark)
        (record {
          manual = has_flag-set_flag (record e { group_id = group }) ∙ same;
          group = λ m. ground (arith, o, m);
        })
]
  where
    same :
        has_flag manual_hijack_flag (record e { group_id = group }) ≡ has_flag manual_hijack_flag e
    same = refl

pub clear_auto-Kept : (e : ProcessEntry) → Kept e (clear_auto e)
unfolding clear_auto
clear_auto-Kept e = record { manual = manual; group = group }
  where
    c : ProcessEntry
    c = clear_flag auto_matched_flag e

    manual : has_flag manual_hijack_flag (clear_auto e) ≡ has_flag manual_hijack_flag e
    manual = ground (arith, has_flag-clear_flag e, cleared_manual)
      where
        cleared_manual :
            has_flag manual_hijack_flag (record c { group_id = 0xFFFFFFFF })
            ≡ has_flag manual_hijack_flag c
        cleared_manual = refl

    group : has_flag manual_hijack_flag e ≡ true → (clear_auto e).group_id ≡ e.group_id
    group m = ground (arith, has_flag-clear_flag e, kept)
      where
        kept : c.group_id ≡ e.group_id
        kept = refl
