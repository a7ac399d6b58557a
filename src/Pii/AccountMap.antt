-- ===== src/Pii/AccountMap.antt =====
-- app/services/account_map_in_memory.py and the record of app/repositories/interfaces/pii_mapping.py.
-- A `datetime` is its position on the time line, a number.
pub mod Laws
pub mod Refines
use data_api.Prelude.{ℕ, Option, none, some, List, [], ◌∷◌, ltb, length, if◌then◌else◌}
use data_api.Text.{Text}
use data_api.Dict.{Dict, get, put}

pub record PiiMappingRecord : Type 0 where
  pub token : Text
  pub mapped_value : Text
  pub created_at : Option ℕ

-- `_last_synced_at` has its property's name
pub record AccountMapInMemory : Type 0 where
  pub token_to_value : Dict Text
  pub value_to_token : Dict Text
  pub last_synced_at : Option ℕ

-- `__init__`
abbrev pub init : AccountMapInMemory
init = record { token_to_value = []; value_to_token = []; last_synced_at = none }

-- what `_update_last_synced_at` stores
unfoldable pub newer : Option ℕ → ℕ → Option ℕ
newer none value = some value
newer (some last) value = if ltb last value then some value else some last

unfoldable pub update_last_synced_at : AccountMapInMemory → ℕ → AccountMapInMemory
unfolding newer
update_last_synced_at m value = record m { last_synced_at = newer m.last_synced_at value }

abbrev stamp : AccountMapInMemory → Option ℕ → AccountMapInMemory
unfolding update_last_synced_at
stamp m none = m
stamp m (some at) = update_last_synced_at m at

unfoldable pub add_record : AccountMapInMemory → PiiMappingRecord → AccountMapInMemory
unfolding update_last_synced_at
add_record m r =
    stamp
      (record m {
        token_to_value = put m.token_to_value r.token r.mapped_value;
        value_to_token = put m.value_to_token r.mapped_value r.token;
      })
      r.created_at

unfoldable pub add_records : AccountMapInMemory → List PiiMappingRecord → AccountMapInMemory
add_records m [] = m
add_records m (r ∷ rs) = add_records (add_record m r) rs

unfoldable pub clear : AccountMapInMemory → AccountMapInMemory
clear m = record { token_to_value = []; value_to_token = []; last_synced_at = none }

unfoldable pub size : AccountMapInMemory → ℕ
size m = length m.token_to_value
