-- ===== src/Pii/Rules.antt =====
-- app/services/query_engine/pii_rules.py, power_bi_rules.py and users_rules.py. A transformer
-- returns `null` for Python's None.
pub mod Laws
use data_api.Prelude.{
  ℕ, ◌+◌, ◌-◌, Bool, true, false, Option, none, some, List, [], ◌∷◌, ◌++◌, leb, ◌==◌, if◌then◌else◌,
  length, take, drop,
}
use data_api.Text.{Text, codes}
use data_api.Dict.{Dict, get, keys}
use data_api.Value.{Value, null, str, Runtime, to_str}

abbrev pub PiiValueTransformer : Type 0
PiiValueTransformer = Value → Dict Text → Value

-- the mapped value with its suffix, or None where there is no mapping
abbrev pub with_suffix : Option Text → Text → Value
with_suffix none suffix = null
with_suffix (some mapped) suffix = str (mapped ++ suffix)

unfoldable pub transform_token : Text → Dict Text → Value
transform_token token pii_cache =
    if length token == 32
    then with_suffix (get pii_cache token) []
    else if length token == 33
    then with_suffix (get pii_cache (take 32 token)) (drop 32 token)
    else null

unfoldable pub transform_by_token_length : Runtime → PiiValueTransformer
unfolding transform_token
transform_by_token_length rt null pii_cache = null
transform_by_token_length rt value pii_cache = transform_token (to_str rt value) pii_cache

unfoldable pub transform_long : ℕ → Bool → Text → Dict Text → Value
transform_long min_length strip_last_character token pii_cache =
    if leb (length token) min_length
    then null
    else if strip_last_character
    then with_suffix (get pii_cache (take (length token - 1) token)) (drop (length token - 1) token)
    else with_suffix (get pii_cache token) []

unfoldable pub transform_when_exceeds_length : Runtime → ℕ → Bool → PiiValueTransformer
unfolding transform_long
transform_when_exceeds_length rt min_length strip_last_character null pii_cache = null
transform_when_exceeds_length rt min_length strip_last_character value pii_cache =
    transform_long min_length strip_last_character (to_str rt value) pii_cache

pub record PiiColumnRule : Type 0 where
  pub transformer : PiiValueTransformer

-- `statement` is what the service executes, in the type of its builder.
pub record QuerySpec (S : Type 0) : Type 0 where
  pub route_name : Text
  pub statement : S
  pub column_pii_rules : Dict PiiColumnRule

unfoldable pub pii_columns : {S : Type 0} → QuerySpec S → List Text
pii_columns spec = keys spec.column_pii_rules

unfoldable pub get_pii_rule : {S : Type 0} → QuerySpec S → Text → Option PiiColumnRule
get_pii_rule spec column_name = get spec.column_pii_rules column_name

unfoldable pub power_bi_account_pii_rules : Runtime → Dict PiiColumnRule
power_bi_account_pii_rules rt =
    (codes "accountid", record { transformer = transform_by_token_length rt }) ∷ []

unfoldable pub users_pii_rules : Runtime → Dict PiiColumnRule
users_pii_rules rt =
    (codes "customer_id", record { transformer = transform_by_token_length rt }) ∷ []
