-- ===== src/Api/Settings/Secrets.antt =====
-- engine/api/settings.py: what of a credential reaches the tables and the answer.
use capital.Prelude.{String, ◌==◌, ◌≡◌, Bool, true, false, ◌||◌, List, [], ◌∷◌, map}
use capital.Context.{Context}
use capital.Models.{Setting, Time}
use capital.Effects.{Result, ok, err}
use capital.Effects.Stateful.{Action}
use capital.Settings.{venue_cred_key, put_row}
use capital.Auth.{User, Library}
use capital.Api.{Console}
use capital.Api.Settings.{
  Tools, update_venue_credentials, update_binance_keys, update_llm_credentials, update_ai_settings,
  AiSettingsUpdate,
}

-- A request that carries credentials.
pub data Request : Type 0 where
  for_venue : String → List (String × String) → Request
  for_binance : String → String → Request
  for_llm : String → String → String → Request
  for_ai : AiSettingsUpdate → Request

abbrev pub done : {A : Type 0} → Result A × Console → Result (Unit {0}) × Console
done (ok a, s) = (ok tt, s)
done (err e, s) = (err e, s)

module _ (tools : Tools) where
  -- A field as it is stored: its name, the encrypted value, and whether the value is blank.
  abbrev pub sealed : List (String × String) → List (String × String × Bool)
  sealed fields = map (λ f. (f.0, tools.cipher.encrypt f.1, tools.strip f.1 == "")) fields

  -- Requests that differ only in values with one encryption.
  pub data Alike : Request → Request → Type 0 where
    venue_alike :
        (venue : String) (fs gs : List (String × String))
        → sealed fs ≡ sealed gs
        → Alike (for_venue venue fs) (for_venue venue gs)
    binance_alike :
        (k l s t : String)
        → tools.cipher.encrypt k ≡ tools.cipher.encrypt l
        → tools.cipher.encrypt s ≡ tools.cipher.encrypt t
        → Alike (for_binance k s) (for_binance l t)
    llm_alike :
        (provider k l url : String)
        → tools.cipher.encrypt k ≡ tools.cipher.encrypt l
        → (k == "") ≡ (l == "")
        → Alike (for_llm provider k url) (for_llm provider l url)
    ai_alike :
        (body : AiSettingsUpdate) (l : String)
        → tools.cipher.encrypt body.api_key ≡ tools.cipher.encrypt l
        → (body.api_key == "") ≡ (l == "")
        → Alike (for_ai body) (for_ai (record body { api_key = l }))

  abbrev any_marked : List (String × String × Bool) → Bool
  any_marked [] = false
  any_marked (f ∷ fs) = f.2 || any_marked fs

  abbrev put_sealed : String → List (String × String × Bool) → List Setting → List Setting
  put_sealed venue [] rows = rows
  put_sealed venue (f ∷ fs) rows =
      put_sealed venue fs (put_row (venue_cred_key venue f.0) f.1 true rows)

  module _ ⦃c : Context⦄ (lib : Library) where
    abbrev pub handle : Request → User → Time → Action Console (Unit {0})
    handle (for_venue venue fields) admin now s =
        update_venue_credentials lib tools venue fields admin s
    handle (for_binance key secret) admin now s = update_binance_keys lib tools key secret admin s
    handle (for_llm provider key url) admin now s =
        done (update_llm_credentials lib tools provider key url admin now s)
    handle (for_ai body) admin now s = done (update_ai_settings lib tools body admin now s)
