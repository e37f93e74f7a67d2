-- ===== src/Config/Store.antt =====
-- src/config/config_store.hpp, src/config/config_store.cpp, src/config/config_manager.hpp: the store
-- of the configuration, its changes and their observers.
--
-- The JSON library and `save` are outside the model: a change has the parsed configuration and
-- whether the file was written. What the observers are told is a list.
use clew_proxy.Prelude.{Bool, not, ◌&&◌, ◌==◌, if◌then◌else◌, Option, none, some, List, [], ◌∷◌}
use clew_proxy.Config.Redirect.{validate_redirect}
use clew_proxy.Config.Groups.{ConfigV2}

pub data ConfigChange : Type 0 where
  rule_created rule_updated rule_deleted rule_excluded rule_unexcluded : ConfigChange
  group_created group_updated group_deleted group_migrated wholesale_replaced : ConfigChange

pub data ApiError : Type 0 where
  not_found invalid_argument conflict unsupported io_error internal : ApiError

-- The live configuration and the one on disk.
pub record ConfigStore : Type 0 where
  pub live : ConfigV2
  pub disk : ConfigV2

-- The store after a call, what the observers were told, and the exception.
pub record Reply : Type 0 where
  pub store : ConfigStore
  pub told : List (ConfigV2 × ConfigChange)
  pub error : Option ApiError

abbrev pub refused : ConfigStore → ApiError → Reply
refused s e = record { store = s; told = []; error = some e }

abbrev pub announced : ConfigV2 → ConfigV2 → ConfigChange → Reply
announced live disk tag = record {
  store = record { live = live; disk = disk };
  told = (live, tag) ∷ [];
  error = none;
}

unfoldable pub mutate : (ConfigV2 → ConfigV2) → ConfigChange → Bool → ConfigStore → Reply
mutate fn tag saved s =
    let after = fn s.live in
    if not saved
    then refused (record { live = after; disk = s.disk }) io_error
    else announced after after tag

-- The caller's check after `mutate` returned.
unfoldable pub require : Bool → Reply → Reply
require found r = elim r.error [
  | some e ↦ r
  | none ↦ if found then r else record r { error = some not_found }
]

-- `set_raw_config`: the configuration to take, or `none` where it answers with a text.
unfoldable pub set_raw_config : Option ConfigV2 → Option ConfigV2
set_raw_config none = none
set_raw_config (some test) =
    if not (test.version == 2) && not (test.version == 3)
    then none
    else elim (validate_redirect test.redirect) [ some e ↦ none | none ↦ some test ]

unfoldable pub replace_from_json : Option ConfigV2 → Bool → ConfigStore → Reply
unfolding set_raw_config
replace_from_json parsed saved s = elim (set_raw_config parsed) [
  | none ↦ refused s invalid_argument
  | some test ↦ announced test (if saved then test else s.disk) wholesale_replaced
]
