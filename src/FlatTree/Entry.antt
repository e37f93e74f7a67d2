-- ===== src/FlatTree/Entry.antt =====
-- src/process/flat_tree.hpp: entries, the vector of entries and the side map.
use Prim.Native.Nat.{bit_and, bit_or}
use clew_proxy.Prelude.{
  ℕ, zero, suc, ◌-◌, Bool, true, not, if◌then◌else◌, ◌==◌, Option, none, some, List, [], ◌∷◌,
  get_elem?,
}

abbrev pub no_proxy : ℕ
no_proxy = 0xFFFFFFFF

abbrev pub invalid_idx : ℕ
invalid_idx = 0xFFFFFFFF

abbrev pub root_psn_sentinel : ℕ
root_psn_sentinel = 0xFFFFFFFFFFFFFFFF

abbrev pub invalid_psn : ℕ
invalid_psn = 0

abbrev pub manual_hijack_flag : ℕ
manual_hijack_flag = 0x01

abbrev pub auto_matched_flag : ℕ
auto_matched_flag = 0x02

-- The name and the two caches are lists of bytes.
pub record ProcessEntry : Type 0 where
  pub pid : ℕ
  pub parent_pid : ℕ
  pub create_time : ℕ
  pub psn : ℕ
  pub parent_psn : ℕ
  pub parent_index : ℕ
  pub first_child_index : ℕ
  pub next_sibling_index : ℕ
  pub name_u8 : List ℕ
  pub alive : Bool
  pub group_id : ℕ
  pub flags : ℕ
  pub cmdline_cache : List ℕ
  pub image_path_cache : List ℕ

unfoldable pub is_proxied : ProcessEntry → Bool
is_proxied e = not (e.group_id == no_proxy)

unfoldable pub has_flag : ℕ → ProcessEntry → Bool
has_flag f e = not (bit_and e.flags f == 0)

unfoldable pub set_flag : ℕ → ProcessEntry → ProcessEntry
set_flag f e = record e { flags = bit_or e.flags f }

-- `flags &= ~f` on a `uint8_t`.
unfoldable pub clear_flag : ℕ → ProcessEntry → ProcessEntry
clear_flag f e = record e { flags = bit_and e.flags (255 - f) }

pub record SideEntry : Type 0 where
  pub index : ℕ
  pub psn : ℕ

abbrev pub SideMap : Type 0
SideMap = List (ℕ × SideEntry)

unfoldable pub lookup : ℕ → SideMap → Option SideEntry
lookup k [] = none
lookup k ((j, v) ∷ m) = if j == k then some v else lookup k m

unfoldable pub insert : ℕ → SideEntry → SideMap → SideMap
insert k v m = (k, v) ∷ m

-- `erase` of a key, of all its entries in the list.
unfoldable pub erase : ℕ → SideMap → SideMap
erase k [] = []
erase k ((j, v) ∷ m) = let rest = erase k m in if j == k then rest else (j, v) ∷ rest

pub record FlatTree : Type 0 where
  pub entries : List ProcessEntry
  pub side_map : SideMap
  pub alive_count : ℕ
  pub tombstone_count : ℕ

abbrev pub empty_tree : FlatTree
empty_tree = record { entries = []; side_map = []; alive_count = 0; tombstone_count = 0 }

unfoldable pub find_by_pid : ℕ → FlatTree → ℕ
find_by_pid pid t = elim (lookup pid t.side_map) [ none ↦ invalid_idx | some s ↦ s.index ]

unfoldable pub find_by_pid_psn : ℕ → ℕ → FlatTree → ℕ
find_by_pid_psn pid expected_psn t = elim (lookup pid t.side_map) [
  | none ↦ invalid_idx
  | some s ↦ if s.psn == expected_psn then s.index else invalid_idx
]

-- The bounds-safe accessor.
unfoldable pub try_at : ℕ → FlatTree → Option ProcessEntry
try_at idx t = get_elem? t.entries idx

-- A write through `entries_[i]`; an index that is out of range does not occur and changes nothing.
abbrev pub update_at : ℕ → (ProcessEntry → ProcessEntry) → List ProcessEntry → List ProcessEntry
update_at i f [] = []
update_at zero f (e ∷ es) = f e ∷ es
update_at (suc i) f (e ∷ es) = e ∷ update_at i f es

abbrev pub no_entry : ProcessEntry
no_entry = record {
  pid = 0;
  parent_pid = 0;
  create_time = 0;
  psn = invalid_psn;
  parent_psn = root_psn_sentinel;
  parent_index = invalid_idx;
  first_child_index = invalid_idx;
  next_sibling_index = invalid_idx;
  name_u8 = [];
  alive = true;
  group_id = no_proxy;
  flags = 0;
  cmdline_cache = [];
  image_path_cache = [];
}

-- A read of `entries_[i]`.
abbrev pub entry_at : ℕ → List ProcessEntry → ProcessEntry
entry_at i [] = no_entry
entry_at zero (e ∷ es) = e
entry_at (suc i) (e ∷ es) = entry_at i es
