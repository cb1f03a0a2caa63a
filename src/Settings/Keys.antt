-- ===== src/Settings/Keys.antt =====
-- engine/appsettings/store.py: the wrappers for the keys of Binance, and the one AI provider.
use capital.Prelude.{
  String, ◌==◌, Bool, true, Option, none, some, List, [], ◌∷◌, lookup, if◌then◌else◌,
}
use capital.Models.{Setting}
use capital.Effects.{Result, ok}
use capital.Effects.Fallible.{◌>>=◌}
use capital.Settings.{
  Cipher, get_row, put_row, set_setting, set_venue_credentials, get_venue_credentials,
  venue_credentials_configured,
}
use capital.Settings.Llm.{decrypted, is_present}

unfoldable pub set_binance_keys : Cipher → String → String → List Setting → List Setting
unfolding set_venue_credentials
set_binance_keys cipher key secret rows =
    set_venue_credentials cipher "binance" (("api_key", key) ∷ ("api_secret", secret) ∷ []) rows

unfoldable pub binance_keys_configured : List Setting → Bool
unfolding venue_credentials_configured
binance_keys_configured rows =
    venue_credentials_configured "binance" ("api_key" ∷ "api_secret" ∷ []) rows

-- Both of two texts, or none.
abbrev pub both : Option String → Option String → Option (String × String)
both (some key) (some secret) = some (key, secret)
both (some key) none = none
both none secret = none

unfoldable pub get_binance_keys : Cipher → List Setting → Result (Option (String × String))
unfolding get_venue_credentials
get_binance_keys cipher rows = do
  creds ← get_venue_credentials cipher "binance" rows
  ok (both (lookup "api_key" creds) (lookup "api_secret" creds))

unfoldable pub ai_key_configured : List Setting → Bool
unfolding get_row
ai_key_configured rows = is_present (get_row "ai_api_key" rows)

unfoldable pub get_ai_api_key : Cipher → List Setting → Result String
unfolding get_row
get_ai_api_key cipher rows = decrypted cipher (get_row "ai_api_key" rows)

-- `if api_key: ...`
abbrev pub put_ai_key : Cipher → Option String → List Setting → List Setting
put_ai_key cipher none rows = rows
put_ai_key cipher (some key) rows =
    if key == "" then rows else put_row "ai_api_key" (cipher.encrypt key) true rows

unfoldable pub set_ai_settings :
    Cipher → String → String → String → Option String → List Setting → List Setting
unfolding set_setting put_row
set_ai_settings cipher provider model base_url api_key rows = put_ai_key cipher api_key (
    set_setting "ai_base_url" base_url
      (set_setting "ai_model" model (set_setting "ai_provider" provider rows)))
