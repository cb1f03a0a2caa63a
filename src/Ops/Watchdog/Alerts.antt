-- ===== src/Ops/Watchdog/Alerts.antt =====
-- engine/ops/watchdog.py: the status after a heartbeat.
use capital.Prelude.{◌+◌, ◌≡◌, refl, ◌==◌, true, false, ◌&&◌, none, some, length, ltb, leb, arith}
use capital.Models.{Database, Time}
use capital.Effects.{ok}
use capital.Portfolio.Positions.{list_positions}
use capital.Settings.Store.{get_setting-set_setting}
use capital.Ops.Watchdog.{
  Calendar, WatchdogStatus, record_heartbeat, last_heartbeat, watchdog_status, assess,
}

-- The standard library's round trip on the times that a clock gives: a time prints as a text that
-- is not empty and that reads as the time.
pub record IsCalendar (cal : Calendar) : Type 0 where
  pub printed : (t : Time) → (cal.isoformat t == "") ≡ false
  pub reads : (t : Time) → cal.fromisoformat (cal.isoformat t) ≡ ok t

-- After a heartbeat at a time, a later check reads that heartbeat; the engine counts as alive as
-- long as the threshold is not passed, and an alert is raised just when it is passed while
-- positions are open.
pub watchdog_status-record_heartbeat :
    (cal : Calendar)
    → IsCalendar cal
    → (max_age beat now : Time) (db : Database)
    → (status : WatchdogStatus) × ((watchdog_status cal max_age now (record_heartbeat cal beat db)
          ≡ ok status)
        × ((status.last_beat ≡ some beat)
            × (status.alive ≡ leb now (beat + max_age))
            × (status.alert
                ≡ (ltb (beat + max_age) now && ltb 0 (length (list_positions none true db))))))
unfolding watchdog_status last_heartbeat record_heartbeat list_positions
watchdog_status-record_heartbeat cal law max_age beat now db = (
  assess cal max_age now (length (list_positions none true db)) (some beat),
  (
    rw ((get_setting-set_setting "engine_heartbeat" (cal.isoformat beat) db.settings).0)
        (rw (law.printed beat) (rw (law.reads beat) refl)),
    (refl, ground arith, refl),
  ),
)
