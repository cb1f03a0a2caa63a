-- ===== src/Settings.antt =====
-- engine/appsettings/store.py: the runtime settings, a table of keyed rows. Encryption comes from
-- a library (engine/appsettings/crypto.py), so a `Cipher` is a record of functions.
pub mod Store
pub mod Llm
pub mod Keys
use Prim.Native.String.{◌++◌ as concat, len, slice}
use text.Mathlib.Text.{starts_with}
use capital.Prelude.{
  String, ◌==◌, Bool, true, false, not, ◌&&◌, ◌||◌, Option, none, some, List, [], ◌∷◌,
  ◌++◌ as append, map, find, select, contains, lookup, if◌then◌else◌,
}
use capital.Models.{Setting, Database}
use capital.Effects.{Result, ok, err, value_error}
use capital.Effects.Fallible.{◌>>=◌}
use capital.Effects.Stateful.{Action}

pub record Cipher : Type 0 where
  pub encrypt : String → String
  pub decrypt : String → Result String

pub data TradingMode : Type 0 where
  sim : TradingMode
  testnet : TradingMode
  live : TradingMode

abbrev pub mode_value : TradingMode → String
mode_value sim = "sim"
mode_value testnet = "testnet"
mode_value live = "live"

-- `TradingMode(value)`
abbrev pub parse_mode : String → Result TradingMode
parse_mode v =
    if v == "sim"
    then ok sim
    else (if v == "testnet" then ok testnet else (if v == "live" then ok live else err value_error))

abbrev pub has_key : String → Setting → Bool
has_key key s = s.key == key

-- `_get`
unfoldable pub get_row : String → List Setting → Option Setting
get_row key rows = find (has_key key) rows

unfoldable pub replace_row : Setting → List Setting → List Setting
replace_row new [] = []
replace_row new (s ∷ ss) = if has_key new.key s then new ∷ ss else s ∷ replace_row new ss

abbrev pub upsert : Option Setting → Setting → List Setting → List Setting
upsert none new rows = append rows (new ∷ [])
upsert (some old) new rows = replace_row new rows

-- `_put`, with the value as it is stored.
unfoldable pub put_row : String → String → Bool → List Setting → List Setting
unfolding get_row replace_row
put_row key stored is_secret rows =
    upsert (get_row key rows) (record { key = key; value = stored; is_secret = is_secret }) rows

abbrev pub value_of : Option Setting → Option String
value_of (some s) = some s.value
value_of none = none

unfoldable pub get_setting : String → List Setting → Option String
unfolding get_row
get_setting key rows = value_of (get_row key rows)

unfoldable pub set_setting : String → String → List Setting → List Setting
unfolding put_row
set_setting key value rows = put_row key value false rows

-- `value or default`: an empty text counts as none.
abbrev pub or_text : Option String → String → String
or_text none default = default
or_text (some v) default = if v == "" then default else v

abbrev pub mode_of : Option Setting → Result TradingMode
mode_of (some s) = parse_mode s.value
mode_of none = ok sim

unfoldable pub get_mode : List Setting → Result TradingMode
unfolding get_row
get_mode rows = mode_of (get_row "trading_mode" rows)

unfoldable pub set_mode : TradingMode → List Setting → List Setting
unfolding put_row
set_mode mode rows = put_row "trading_mode" (mode_value mode) false rows

unfoldable pub get_active_venue : List Setting → String
unfolding get_setting
get_active_venue rows = or_text (get_setting "active_venue" rows) "binance"

unfoldable pub set_active_venue : String → List Setting → List Setting
unfolding set_setting
set_active_venue venue rows = set_setting "active_venue" venue rows

-- `f"venue:{venue}:"` and `f"venue:{venue}:{field}"`
abbrev pub venue_prefix : String → String
venue_prefix venue = concat "venue:" (concat venue ":")

abbrev pub venue_cred_key : String → String → String
venue_cred_key venue field = concat (venue_prefix venue) field

-- `key.removeprefix(prefix)` of a key that starts with it.
abbrev pub remove_prefix : String → String → String
remove_prefix prefix key = slice key (len prefix) (len key)

unfoldable pub set_venue_credentials :
    Cipher → String → List (String × String) → List Setting → List Setting
unfolding put_row
set_venue_credentials cipher venue [] rows = rows
set_venue_credentials cipher venue ((field, value) ∷ rest) rows =
    set_venue_credentials cipher venue rest
      (put_row (venue_cred_key venue field) (cipher.encrypt value) true rows)

-- `{row.key.removeprefix(prefix): decrypt(row.value) for row in rows}`
abbrev pub decrypt_all : Cipher → String → List Setting → Result (List (String × String))
decrypt_all cipher prefix [] = ok []
decrypt_all cipher prefix (s ∷ ss) = do
  plain ← cipher.decrypt s.value
  rest ← decrypt_all cipher prefix ss
  ok ((remove_prefix prefix s.key, plain) ∷ rest)

unfoldable pub get_venue_credentials :
    Cipher → String → List Setting → Result (List (String × String))
get_venue_credentials cipher venue rows =
    decrypt_all cipher (venue_prefix venue)
      (select (λ s. starts_with s.key (venue_prefix venue)) rows)

abbrev pub stored_fields : String → List Setting → List String
stored_fields venue rows =
    map (λ s. remove_prefix (venue_prefix venue) s.key)
      (select (λ s. starts_with s.key (venue_prefix venue)) rows)

abbrev pub all_in : List String → List String → Bool
all_in [] stored = true
all_in (f ∷ fs) stored = contains f stored && all_in fs stored

abbrev pub is_empty : List String → Bool
is_empty [] = true
is_empty (x ∷ xs) = false

unfoldable pub venue_credentials_configured : String → List String → List Setting → Bool
venue_credentials_configured venue required rows =
    not (is_empty required) && all_in required (stored_fields venue rows)

-- `_normalise_mode`
abbrev pub normalise_mode : Option String → String → String
normalise_mode (some v) default = if v == "notify" || v == "auto" then v else default
normalise_mode none default = default

unfoldable pub get_ai_action_mode : List Setting → String
unfolding get_setting
get_ai_action_mode rows = normalise_mode (get_setting "ai_action_mode" rows) "notify"

unfoldable pub set_ai_action_mode : String → List Setting → List Setting
unfolding set_setting
set_ai_action_mode mode rows =
    set_setting "ai_action_mode" (normalise_mode (some mode) "notify") rows

abbrev pub action_mode_key : String → String
action_mode_key strategy = concat "ai:" (concat strategy ":action_mode")

unfoldable pub get_strategy_action_mode : String → List Setting → String
unfolding get_setting get_ai_action_mode
get_strategy_action_mode strategy rows =
    normalise_mode (get_setting (action_mode_key strategy) rows) (get_ai_action_mode rows)

unfoldable pub set_strategy_action_mode : String → String → List Setting → List Setting
unfolding set_setting
set_strategy_action_mode strategy mode rows =
    set_setting (action_mode_key strategy) (normalise_mode (some mode) "notify") rows

-- The provider and the model of an AI strategy, with the global setting behind them.
abbrev pub AiConfig : Type 0
AiConfig = String × String

abbrev pub provider_key : String → String
provider_key strategy = concat "ai:" (concat strategy ":provider")

abbrev pub model_key : String → String
model_key strategy = concat "ai:" (concat strategy ":model")

unfoldable pub get_ai_settings : List Setting → String × String × String
unfolding get_setting
get_ai_settings rows = (
  or_text (get_setting "ai_provider" rows) "claude",
  or_text (get_setting "ai_model" rows) "",
  or_text (get_setting "ai_base_url" rows) "",
)

unfoldable pub get_strategy_ai_config : String → List Setting → AiConfig
unfolding get_setting get_ai_settings
get_strategy_ai_config strategy rows =
    let ai = get_ai_settings rows in
    (
      or_text (get_setting (provider_key strategy) rows) ai.0,
      or_text (get_setting (model_key strategy) rows) ai.1,
    )

unfoldable pub set_strategy_ai_config : String → String → String → List Setting → List Setting
unfolding set_setting
set_strategy_ai_config strategy provider model rows =
    set_setting (model_key strategy) model (set_setting (provider_key strategy) provider rows)
