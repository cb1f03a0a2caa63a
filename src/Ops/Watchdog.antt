-- ===== src/Ops/Watchdog.antt =====
-- engine/ops/watchdog.py. A heartbeat is a text in the settings; `isoformat` and `fromisoformat`
-- of the standard library are the two functions of a `Calendar`.
pub mod Alerts
use capital.Prelude.{
  ℕ, zero, ◌+◌, ◌-◌, ◌*◌, ◌<◌, String, ◌==◌, Bool, true, false, not, ◌&&◌, ◌||◌, Option, none, some,
  List, length, ltb, if◌then◌else◌,
}
use capital.Models.{Database, Setting, Time}
use capital.Effects.{Result, ok, err}
use capital.Effects.Fallible.{◌>>=◌}
use capital.Portfolio.Positions.{list_positions}
use capital.Settings.{get_setting, set_setting}

pub record Calendar : Type 0 where
  pub isoformat : Time → String
  pub fromisoformat : String → Result Time

pub record WatchdogStatus : Type 0 where
  pub alive : Bool
  pub stale : Bool
  pub alert : Bool
  pub last_beat : Option Time
  -- how far the clock is past the beat, in microseconds; 0 for a beat in the future
  pub age : Option Time
  pub open_positions : ℕ

-- The default threshold of 180 seconds.
abbrev pub default_max_age : Time
default_max_age = 180_000_000

abbrev pub with_settings : List Setting → Database → Database
with_settings rows db = record db { settings = rows }

module _ (cal : Calendar) where
  unfoldable pub record_heartbeat : Time → Database → Database
  unfolding set_setting
  record_heartbeat now db =
      with_settings (set_setting "engine_heartbeat" (cal.isoformat now) db.settings) db

  -- `datetime.fromisoformat(raw) if raw else None`
  abbrev pub parse_beat : Option String → Result (Option Time)
  parse_beat none = ok none
  parse_beat (some raw) =
      if raw == "" then ok none else (do beat ← cal.fromisoformat raw; ok (some beat))

  unfoldable pub last_heartbeat : Database → Result (Option Time)
  unfolding get_setting
  last_heartbeat db = parse_beat (get_setting "engine_heartbeat" db.settings)

  abbrev pub assess : Time → Time → ℕ → Option Time → WatchdogStatus
  assess max_age now count none = record {
    alive = false;
    stale = true;
    alert = false;
    last_beat = none;
    age = none;
    open_positions = count;
  }
  assess max_age now count (some beat) =
      let stale = ltb (beat + max_age) now in
      record {
        alive = not stale;
        stale = stale;
        alert = stale && ltb 0 count;
        last_beat = some beat;
        age = some (now - beat);
        open_positions = count;
      }

  unfoldable pub watchdog_status : Time → Time → Database → Result WatchdogStatus
  unfolding last_heartbeat list_positions
  watchdog_status max_age now db = do
    beat ← last_heartbeat db
    ok (assess max_age now (length (list_positions none true db)) beat)
