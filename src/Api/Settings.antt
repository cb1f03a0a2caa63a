-- ===== src/Api/Settings.antt =====
-- engine/api/settings.py: the endpoints of the Settings page, for admins only.
pub mod Switching
pub mod Secrets
use capital.Prelude.{
  String, ◌==◌, Bool, true, false, not, ◌&&◌, ◌||◌, Option, none, some, List, [], ◌∷◌, map,
  contains, if◌then◌else◌,
}
use capital.Rational.{ℚ}
use capital.Context.{Context}
use capital.Models.{Setting, Position, Database, Time}
use capital.Effects.{Result, ok, err, http_error}
use capital.Effects.Fallible as F
use capital.Effects.Stateful.{Action, ◌>>=◌, ◌>>◌, raise_if, gets, modify}
use capital.Portfolio.Positions.{list_positions}
use capital.Risk.{start_of_day}
use capital.Ai.Usage.{spend_since}
use capital.Settings.{
  TradingMode, sim, testnet, live, mode_value, Cipher, get_mode, set_mode, get_active_venue,
  get_ai_settings, get_ai_action_mode, set_ai_action_mode, set_venue_credentials,
  venue_credentials_configured, all_in,
}
use capital.Settings.Llm.{
  get_ai_spend_cap, set_ai_spend_cap, set_llm_credentials, llm_provider_configured,
}
use capital.Settings.Keys.{
  set_binance_keys, binance_keys_configured, ai_key_configured, set_ai_settings,
}
use capital.Routing.{VenueInfo, available_venues, get_venue}
use capital.Json.{Json, text, obj, field, end}
use capital.Auth.{User, Library, record_audit}
use capital.Api.{Console, on_db, on_accounts, ask}
use capital.Api.Strategies.{llm_providers}

pub record SettingsRead : Type 0 where
  pub mode : TradingMode
  pub binance_keys : Bool
  pub venue_credentials : List (String × Bool)
  -- provider, model and base URL
  pub ai : String × String × String
  pub ai_key : Bool
  pub ai_spend_cap : ℚ
  pub ai_spend_today : ℚ
  pub ai_action_mode : String
  pub llm_configured : List (String × Bool)

pub record ModeUpdate : Type 0 where
  pub mode : TradingMode
  pub confirm : Bool

pub record AiSettingsUpdate : Type 0 where
  pub provider : String
  pub model : String
  pub base_url : String
  pub api_key : String

-- The cipher, `Decimal(text)`, `str` of a Decimal and `str.strip`.
pub record Tools : Type 0 where
  pub cipher : Cipher
  pub parse : String → Result ℚ
  pub show : ℚ → String
  pub strip : String → String

-- `text or None`
abbrev pub or_none : String → Option String
or_none s = if s == "" then none else some s

abbrev pub is_open : List Position → Bool
is_open [] = false
is_open (p ∷ ps) = true

-- `body.mode == TradingMode.live and not body.confirm`
abbrev pub is_unconfirmed : TradingMode → Bool → Bool
is_unconfirmed live confirm = not confirm
is_unconfirmed sim confirm = false
is_unconfirmed testnet confirm = false

abbrev pub lacks_sandbox : Option VenueInfo → Bool
lacks_sandbox none = false
lacks_sandbox (some v) = not v.supports_sandbox

-- Whether a mode is Testnet, on a venue that has none.
abbrev pub is_unsupported : TradingMode → Option VenueInfo → Bool
is_unsupported testnet venue = lacks_sandbox venue
is_unsupported sim venue = false
is_unsupported live venue = false

abbrev pub names_of : List (String × String) → List String
names_of fields = map (λ f. f.0) fields

abbrev pub any_blank : (String → String) → List (String × String) → Bool
any_blank strip [] = false
any_blank strip (f ∷ fs) = strip f.1 == "" || any_blank strip fs

-- What is wrong with the fields of a venue's credentials.
abbrev pub checked :
    (String → String) → List (String × String) → Option VenueInfo → Result (Unit {0})
checked strip fields none = err (http_error 404)
checked strip fields (some v) =
    if not
      (all_in (names_of fields) v.credential_fields && all_in v.credential_fields (names_of fields))
    then err (http_error 400)
    else if any_blank strip fields
    then err (http_error 400)
    else ok tt

abbrev pub on_settings : (List Setting → List Setting) → Action Console (Unit {0})
on_settings f = on_db (modify (λ db. record db { settings = f db.settings }))

module _ ⦃c : Context⦄ (lib : Library) (tools : Tools) where
  -- `_read`
  unfoldable pub read : Time → Database → Result SettingsRead
  unfolding get_mode binance_keys_configured venue_credentials_configured get_ai_settings
      ai_key_configured get_ai_spend_cap spend_since get_ai_action_mode llm_provider_configured
  read now db = F.◌>>=◌ (get_mode db.settings) λ mode.
      F.◌>>=◌ (get_ai_spend_cap tools.parse db.settings) λ cap. ok (record {
        mode = mode;
        binance_keys = binance_keys_configured db.settings;
        venue_credentials =
            map (λ v. (v.name, venue_credentials_configured v.name v.credential_fields db.settings))
              available_venues;
        ai = get_ai_settings db.settings;
        ai_key = ai_key_configured db.settings;
        ai_spend_cap = cap;
        ai_spend_today = spend_since (start_of_day now) db;
        ai_action_mode = get_ai_action_mode db.settings;
        llm_configured = map (λ p. (p, llm_provider_configured p db.settings)) llm_providers;
      })

  abbrev pub audit : User → String → Option Json → Action Console (Unit {0})
  audit admin action detail =
      modify (on_accounts (record_audit lib admin.username action none detail))

  -- What follows the test that the mode is another one.
  abbrev pub switch : ModeUpdate → User → Time → TradingMode → Action Console SettingsRead
  switch body admin now current = do
    held ← gets (λ t. list_positions none true t.world.db)
    raise_if (is_open held) (http_error 409)
    raise_if (is_unconfirmed body.mode body.confirm) (http_error 400)
    venue ← gets (λ t. get_venue (get_active_venue t.world.db.settings))
    raise_if (is_unsupported body.mode venue) (http_error 409)
    on_settings (set_mode body.mode)
    audit admin "settings.mode" (
        some (
          obj (
            field "from" (text (mode_value current))
              (field "to" (text (mode_value body.mode)) end))))
    ask (read now)

  unfoldable pub update_mode : ModeUpdate → User → Time → Action Console SettingsRead
  unfolding get_mode set_mode list_positions get_venue get_active_venue read
  update_mode body admin now = do
    current ← ask (λ db. get_mode db.settings)
    if mode_value body.mode == mode_value current
        then ask (read now)
        else switch body admin now current

  unfoldable pub update_binance_keys : String → String → User → Action Console (Unit {0})
  unfolding set_binance_keys
  update_binance_keys key secret admin = do
    on_settings (set_binance_keys tools.cipher key secret)
    audit admin "settings.binance_keys" none

  unfoldable pub update_venue_credentials :
      String → List (String × String) → User → Action Console (Unit {0})
  unfolding set_venue_credentials get_venue
  update_venue_credentials venue fields admin = do
    (λ t. (checked tools.strip fields (get_venue venue), t))
    on_settings (set_venue_credentials tools.cipher venue fields)
    audit admin "settings.venue_credentials" (some (obj (field "venue" (text venue) end)))

  unfoldable pub update_llm_credentials :
      String → String → String → User → Time → Action Console SettingsRead
  unfolding set_llm_credentials read
  update_llm_credentials provider api_key base_url admin now = do
    raise_if (not (contains provider llm_providers)) (http_error 404)
    on_settings (set_llm_credentials tools.cipher provider (or_none api_key) (or_none base_url))
    audit admin "settings.llm_credentials" (some (obj (field "provider" (text provider) end)))
    ask (read now)

  unfoldable pub update_ai_spend_cap : ℚ → User → Time → Action Console SettingsRead
  unfolding set_ai_spend_cap read
  update_ai_spend_cap cap admin now = do
    on_settings (set_ai_spend_cap tools.show cap)
    audit admin "settings.ai_spend_cap" (some (obj (field "cap" (text (tools.show cap)) end)))
    ask (read now)

  unfoldable pub update_ai_settings : AiSettingsUpdate → User → Time → Action Console SettingsRead
  unfolding set_ai_settings read
  update_ai_settings body admin now = do
    on_settings
        (set_ai_settings tools.cipher body.provider body.model body.base_url (or_none body.api_key))
    audit admin "settings.ai"
        (some (obj (field "provider" (text body.provider) (field "model" (text body.model) end))))
    ask (read now)

  unfoldable pub update_ai_action_mode : String → User → Time → Action Console SettingsRead
  unfolding set_ai_action_mode read
  update_ai_action_mode mode admin now = do
    raise_if (not (mode == "notify" || mode == "auto")) (http_error 400)
    on_settings (set_ai_action_mode mode)
    audit admin "settings.ai_action_mode" (some (obj (field "mode" (text mode) end)))
    ask (read now)
