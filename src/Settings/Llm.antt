-- ===== src/Settings/Llm.antt =====
-- engine/appsettings/store.py: the spend cap and the credentials of the language-model providers.
-- `parse` and `print` are `Decimal(text)` and `str(value)` of the standard library.
use Prim.Native.String.{◌++◌ as concat}
use capital.Prelude.{String, ◌==◌, Bool, true, false, Option, none, some, List, if◌then◌else◌}
use capital.Rational.{ℚ, of_ℕ}
use capital.Models.{Setting}
use capital.Effects.{Result, ok}
use capital.Effects.Fallible.{◌>>=◌}
use capital.Settings.{Cipher, get_row, put_row, get_setting, set_setting, or_text}

abbrev pub cap_of : (String → Result ℚ) → Option String → Result ℚ
cap_of parse none = ok (of_ℕ 0)
cap_of parse (some v) = if v == "" then ok (of_ℕ 0) else parse v

-- 0 means unlimited.
unfoldable pub get_ai_spend_cap : (String → Result ℚ) → List Setting → Result ℚ
unfolding get_setting
get_ai_spend_cap parse rows = cap_of parse (get_setting "ai_spend_cap_usd" rows)

unfoldable pub set_ai_spend_cap : (ℚ → String) → ℚ → List Setting → List Setting
unfolding set_setting
set_ai_spend_cap print cap rows = set_setting "ai_spend_cap_usd" (print cap) rows

abbrev pub api_key_key : String → String
api_key_key provider = concat "llm:" (concat provider ":api_key")

abbrev pub base_url_key : String → String
base_url_key provider = concat "llm:" (concat provider ":base_url")

-- `if api_key: ...`: an empty key is not stored.
abbrev pub put_api_key : Cipher → String → Option String → List Setting → List Setting
put_api_key cipher provider none rows = rows
put_api_key cipher provider (some key) rows =
    if key == "" then rows else put_row (api_key_key provider) (cipher.encrypt key) true rows

abbrev pub put_base_url : String → Option String → List Setting → List Setting
put_base_url provider none rows = rows
put_base_url provider (some url) rows = set_setting (base_url_key provider) url rows

unfoldable pub set_llm_credentials :
    Cipher → String → Option String → Option String → List Setting → List Setting
unfolding put_row set_setting
set_llm_credentials cipher provider api_key base_url rows =
    put_base_url provider base_url (put_api_key cipher provider api_key rows)

abbrev pub decrypted : Cipher → Option Setting → Result String
decrypted cipher none = ok ""
decrypted cipher (some row) = cipher.decrypt row.value

-- The decrypted key and the base URL, blank where unset.
unfoldable pub get_llm_credentials : Cipher → String → List Setting → Result (String × String)
unfolding get_row get_setting
get_llm_credentials cipher provider rows = do
  key ← decrypted cipher (get_row (api_key_key provider) rows)
  ok (key, or_text (get_setting (base_url_key provider) rows) "")

abbrev pub is_present : Option Setting → Bool
is_present (some row) = true
is_present none = false

unfoldable pub llm_provider_configured : String → List Setting → Bool
unfolding get_row
llm_provider_configured provider rows =
    if provider == "ollama" then true else is_present (get_row (api_key_key provider) rows)
