-- ===== src/Tests/Panels.antt =====
-- The theorems on the settings endpoints at concrete inputs.
use capital.Prelude.{true}
use capital.Effects.{ok}
use capital.Rational.{of_ℕ}
use capital.Settings.{live}
use capital.Api.{Console}
use capital.Api.Settings.{ModeUpdate, Tools}
use capital.Tests.Data.{empty_db, world_of}
use capital.Tests.Accounts.{accounts}

-- A cipher that shows nothing of what it encrypts.
abbrev opaque_tools : Tools
opaque_tools = record {
  cipher = record { encrypt = λ s. "*"; decrypt = λ s. ok s };
  parse = λ s. ok (of_ℕ 0);
  show = λ q. "0";
  strip = λ s. s;
}

abbrev console : Console
console = record { world = world_of empty_db; accounts = accounts }

abbrev go_live : ModeUpdate
go_live = record { mode = live; confirm = true }
