-- ===== src/Api.antt =====
-- engine/api: the endpoints that act on the trading core. FastAPI has checked the body and the role
-- of the caller before they run. Their state is the engine's world and the tables of engine/auth.
pub mod Orders
pub mod Strategies
pub mod Settings
use capital.Models.{Database}
use capital.Effects.{Result}
use capital.Effects.Stateful.{Action}
use capital.Engine.{World}
use capital.Auth.{Accounts}

pub record Console : Type 0 where
  pub world : World
  pub accounts : Accounts

-- An action on the world, or on the database in it.
abbrev pub on_world : {A : Type 0} → Action World A → Action Console A
on_world m s = let out = m s.world in (out.0, record s { world = out.1 })

abbrev pub on_db : {A : Type 0} → Action Database A → Action Console A
on_db m s = let out = m s.world.db in (out.0, record s { world = record s.world { db = out.1 } })

abbrev pub on_accounts : (Accounts → Accounts) → Console → Console
on_accounts f s = record s { accounts = f s.accounts }

-- A function of the database that may raise.
abbrev pub ask : {A : Type 0} → (Database → Result A) → Action Console A
ask f s = (f s.world.db, s)
