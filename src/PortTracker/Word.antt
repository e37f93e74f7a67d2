-- ===== src/PortTracker/Word.antt =====
-- src/core/port_tracker.hpp: slot states and the packed 64-bit word.
pub mod Laws
use Prim.Native.String.{String}
use clew_proxy.Prelude.{
  ℕ, zero, suc, ◌+◌, ◌*◌, ◌/◌, ◌%◌, ◌^◌, ◌==◌, Bool, true, false, if◌then◌else◌,
}

-- `unnamed` is a value of the enum's `uint8_t` that no enumerator has.
pub data SlotState : Type 0 where
  empty pending proxied direct abandoned : SlotState
  unnamed : ℕ → SlotState

pub slot_state_name : SlotState → String
slot_state_name empty = "empty"
slot_state_name pending = "pending"
slot_state_name proxied = "proxied"
slot_state_name direct = "direct"
slot_state_name abandoned = "abandoned"
slot_state_name (unnamed _) = "?"

abbrev pub state_code : SlotState → ℕ
state_code empty = 0
state_code pending = 1
state_code proxied = 2
state_code direct = 3
state_code abandoned = 4
state_code (unnamed n) = n

abbrev pub state_of_code : ℕ → SlotState
state_of_code zero = empty
state_of_code (suc zero) = pending
state_of_code (suc (suc zero)) = proxied
state_of_code (suc (suc (suc zero))) = direct
state_of_code (suc (suc (suc (suc zero)))) = abandoned
state_of_code n = unnamed n

-- The comparison `st == slot_state::s` of two enum values.
abbrev pub same_state : SlotState → SlotState → Bool
same_state s t = state_code s == state_code t

abbrev pub no_pool_idx : ℕ
no_pool_idx = 0xFFFFFFFF

-- `gen & 0xFFFFFF` is `% 2 ^ 24`, and the three fields share no bit, so `|` is `+`.
unfoldable pub pack_word : SlotState → ℕ → ℕ → ℕ
pack_word st gen idx = state_code st * 2 ^ 56 + gen % 2 ^ 24 * 2 ^ 32 + idx

unfoldable pub word_state : ℕ → SlotState
word_state w = state_of_code (w / 2 ^ 56)

unfoldable pub word_gen : ℕ → ℕ
word_gen w = w / 2 ^ 32 % 2 ^ 24

unfoldable pub word_idx : ℕ → ℕ
word_idx w = w % 2 ^ 32

unfoldable pub decided_word : SlotState → ℕ
unfolding pack_word
decided_word st = pack_word st 0 no_pool_idx

unfoldable pub empty_word : ℕ
unfolding decided_word
empty_word = decided_word empty
