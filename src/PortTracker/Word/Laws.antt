-- ===== src/PortTracker/Word/Laws.antt =====
-- src/core/port_tracker.hpp: the packed word gives its three fields back.
use clew_proxy.Prelude.{ℕ, ◌/◌, ◌%◌, ◌^◌, ◌<◌, ◌≡◌, refl, ap, ◌∙◌, arith}
use clew_proxy.PortTracker.Word.{
  SlotState, empty, pending, proxied, direct, abandoned, unnamed, state_code, state_of_code,
  no_pool_idx, pack_word, word_state, word_gen, word_idx, decided_word, empty_word,
}

pub pack_word-code :
    (st : SlotState) (g i : ℕ) → i < 2 ^ 32 → pack_word st g i / 2 ^ 56 ≡ state_code st
unfolding pack_word
pack_word-code st g i h = omega arith

-- The enumerators, as opposed to the other values of the byte.
abbrev pub IsNamed : SlotState → Type 0
IsNamed (unnamed _) = ⊥
IsNamed _ = Unit

pub state_of_code_code : (st : SlotState) → IsNamed st → state_of_code (state_code st) ≡ st
state_of_code_code empty h = refl
state_of_code_code pending h = refl
state_of_code_code proxied h = refl
state_of_code_code direct h = refl
state_of_code_code abandoned h = refl
state_of_code_code (unnamed n) h = absurd h

pub word_state-pack_word :
    (st : SlotState) (g i : ℕ) → IsNamed st → i < 2 ^ 32 → word_state (pack_word st g i) ≡ st
unfolding word_state
word_state-pack_word st g i n h =
    ap state_of_code (pack_word-code st g i h) ∙ state_of_code_code st n

pub word_gen-pack_word :
    (st : SlotState) (g i : ℕ) → i < 2 ^ 32 → word_gen (pack_word st g i) ≡ g % 2 ^ 24
unfolding word_gen pack_word
word_gen-pack_word st g i h = omega arith

pub word_idx-pack_word : (st : SlotState) (g i : ℕ) → i < 2 ^ 32 → word_idx (pack_word st g i) ≡ i
unfolding word_idx pack_word
word_idx-pack_word st g i h = omega arith

-- Packing a state, a generation and a pool index and reading the word back gives the state, the low
-- 24 bits of the generation and the index, for an index of 32 bits.
pub pack_word_round_trip :
    (st : SlotState) (g i : ℕ)
    → IsNamed st
    → i < 2 ^ 32
    → (word_state (pack_word st g i) ≡ st)
      × (word_gen (pack_word st g i) ≡ g % 2 ^ 24)
      × (word_idx (pack_word st g i) ≡ i)
pack_word_round_trip st g i n h =
    (word_state-pack_word st g i n h, word_gen-pack_word st g i h, word_idx-pack_word st g i h)

pub word_state-decided_word : (st : SlotState) → IsNamed st → word_state (decided_word st) ≡ st
unfolding decided_word
word_state-decided_word st n = word_state-pack_word st 0 no_pool_idx n (omega arith)

pub word_state-empty_word : word_state empty_word ≡ empty
unfolding empty_word
word_state-empty_word = word_state-decided_word empty tt
