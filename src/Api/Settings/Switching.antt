-- ===== src/Api/Settings/Switching.antt =====
-- engine/api/settings.py: when the trading mode switches.
use capital.Prelude.{◌==◌, ◌≡◌, ◌⊎◌, true, false, none, some, [], ◌∷◌, ◌++◌}
use capital.Context.{Context}
use capital.Effects.{Error, ok, err}
use capital.Portfolio.Positions.{list_positions}
use capital.Settings.{TradingMode, testnet, live, mode_value, get_mode, set_mode, get_active_venue}
use capital.Routing.{get_venue}
use capital.Json.{text, obj, field, end}
use capital.Auth.{User, Library, audit_entry}
use capital.Api.{Console}
use capital.Api.Settings.{ModeUpdate, Tools, is_open, is_unconfirmed, is_unsupported, lacks_sandbox}

module _ ⦃c : Context⦄ (lib : Library) (tools : Tools) (body : ModeUpdate) (admin : User) where
  -- What stands behind a switch, and all that it changes.
  pub record Switched (s t : Console) : Type 0 where
    pub old : TradingMode
    pub was : get_mode s.world.db.settings ≡ ok old
    pub flat : list_positions none true s.world.db ≡ []
    pub confirmed : body.mode ≡ live → body.confirm ≡ true
    pub supported :
        body.mode ≡ testnet
        → lacks_sandbox (get_venue (get_active_venue s.world.db.settings)) ≡ false
    pub reads : get_mode t.world.db.settings ≡ ok body.mode
    pub stored : t.world ≡ record s.world {
      db = record s.world.db { settings = set_mode body.mode s.world.db.settings };
    }
    pub audited : t.accounts ≡ record s.accounts {
      audit =
          s.accounts.audit
          ++ audit_entry lib admin.username "settings.mode" none (
              some (
                obj (
                  field "from"
                    (text (mode_value old))
                    (field "to" (text (mode_value body.mode)) end))))
            ∷ [];
    }

  -- Why the mode stays as it is.
  pub data Blocked (s : Console) : Type 0 where
    unreadable : (e : Error) → get_mode s.world.db.settings ≡ err e → Blocked s
    unchanged :
        (old : TradingMode)
        → get_mode s.world.db.settings ≡ ok old
        → (mode_value body.mode == mode_value old) ≡ true
        → Blocked s
    held : is_open (list_positions none true s.world.db) ≡ true → Blocked s
    unconfirmed : is_unconfirmed body.mode body.confirm ≡ true → Blocked s
    unsupported :
        is_unsupported body.mode (get_venue (get_active_venue s.world.db.settings)) ≡ true
        → Blocked s

  -- A switch that was made, or one that was not and has changed nothing.
  abbrev pub Outcome : Console → Console → Type 0
  Outcome s t = (Blocked s × (t ≡ s)) ⊎ Switched s t
