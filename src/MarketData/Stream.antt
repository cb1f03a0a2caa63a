-- ===== src/MarketData/Stream.antt =====
-- engine/marketdata/stream.py: the live tickers of a set of symbols, over a connection that is made
-- again when it drops. What the network and the other tasks do is a sequence of steps.
pub mod Backoff
pub mod Stopping
use Prim.Native.String.{◌++◌ as concat}
use capital.Prelude.{
  ◌≡◌, ℕ, suc, ◌+◌, String, Bool, true, false, Option, none, some, List, [], ◌∷◌, map, lookup, put,
  if◌then◌else◌,
}
use capital.Rational.{ℚ, of_ℕ, ◌*ℚ◌, le?}
use capital.Effects.{Result, ok, err, other_error}
use capital.Effects.Fallible as F
use capital.Effects.Stateful.{Action, ◌>>=◌, ◌>>◌, lift, pure, modify}
use capital.Exchange.Market.{Market, spot, futures, Ticker, decimal_at}
use capital.Json.{
  Json, Items, null, bool, num, text, arr, obj, nil, cons, Reader, to_list, find_field, get,
  is_list,
}

-- `"/".join(...)`
abbrev pub join : List String → String
join [] = ""
join (s ∷ []) = s
join (s ∷ t ∷ ts) = concat s (concat "/" (join (t ∷ ts)))

-- `lower` is `str.lower`.
unfoldable pub combined_url : (String → String) → String → List String → String → String
combined_url lower base symbols suffix =
    concat base (join (map (λ s. concat (lower s) suffix) symbols))

-- The latest ticker of each symbol, in the order in which the symbols came.
abbrev pub Snapshot : Type 0
Snapshot = List (String × Ticker)

abbrev pub enveloped : Json → Option Json → Json
enveloped msg none = msg
enveloped msg (some data_value) = data_value

-- `if isinstance(msg, dict) and "data" in msg: msg = msg["data"]`
abbrev pub unwrapped : Json → Json
unwrapped (obj fs) = enveloped (obj fs) (find_field "data" fs)
unwrapped null = null
unwrapped (bool b) = bool b
unwrapped (num q) = num q
unwrapped (text s) = text s
unwrapped (arr xs) = arr xs

-- `msg if isinstance(msg, list) else [msg]`
abbrev pub items_of : Json → List Json
items_of (arr xs) = to_list xs
items_of null = null ∷ []
items_of (bool b) = bool b ∷ []
items_of (num q) = num q ∷ []
items_of (text s) = text s ∷ []
items_of (obj fs) = obj fs ∷ []

-- The symbol of an item; a ticker without one is passed over, and one that is no text is refused.
abbrev pub symbol_of : Option Json → Result (Option String)
symbol_of none = ok none
symbol_of (some null) = ok none
symbol_of (some (text s)) = ok (some s)
symbol_of (some (bool b)) = err other_error
symbol_of (some (num q)) = err other_error
symbol_of (some (arr xs)) = err other_error
symbol_of (some (obj fs)) = err other_error

module _ (reader : Reader) where
  abbrev pub ticker_of : String → Json → Result Ticker
  ticker_of symbol it = F.◌>>=◌ (decimal_at reader "c" it) λ last.
      F.◌>>=◌ (decimal_at reader "P" it) λ change. F.◌>>=◌ (decimal_at reader "q" it) λ volume.
        ok (record {
          symbol = symbol;
          price = last;
          change_pct_24h = change;
          quote_volume_24h = volume;
        })

  abbrev pub record_ticker : Json → Option String → Action Snapshot (Unit {0})
  record_ticker it none = pure tt
  record_ticker it (some symbol) = do
    ticker ← lift (ticker_of symbol it)
    modify (put symbol ticker)

  -- The loop over the items; what came before an exception stays.
  abbrev pub take_in : List Json → Action Snapshot (Unit {0})
  take_in [] = pure tt
  take_in (it ∷ its) = do
    listed ← lift (get "s" it)
    symbol ← lift (symbol_of listed)
    record_ticker it symbol
    take_in its

  -- `TickerHub.handle`, with `loads` for `json.loads`.
  unfoldable pub handle : (String → Result Json) → String → Action Snapshot (Unit {0})
  handle loads raw = do msg ← lift (loads raw); take_in (items_of (unwrapped msg))

-- `TickerHub.snapshot` and `TickerHub.latest`
abbrev pub snapshot : Snapshot → List Ticker
snapshot hub = map (λ t. t.1) hub

abbrev pub latest : String → Snapshot → Option Ticker
latest symbol hub = lookup symbol hub

-- The two hubs of a `StreamManager`.
pub record Hubs : Type 0 where
  pub spot_hub : Snapshot
  pub futures_hub : Snapshot

abbrev pub hub : Market → Hubs → Snapshot
hub futures hubs = hubs.futures_hub
hub spot hubs = hubs.spot_hub

-- Where `run` stands.
pub data Phase : Type 0 where
  connecting : Phase
  consuming : Phase
  sleeping : Phase
  finished : Phase

pub record Stream : Type 0 where
  pub running : Bool
  pub phase : Phase
  pub backoff : ℚ
  pub snapshot : Snapshot
  -- how often `run` has connected, and how many messages it has passed on
  pub connects : ℕ
  pub handled : ℕ

abbrev pub initial_backoff : ℚ
initial_backoff = of_ℕ 1

abbrev pub max_backoff : ℚ
max_backoff = of_ℕ 60

-- The start of `run`.
abbrev pub started : Snapshot → Stream
started hub = record {
  running = true;
  phase = connecting;
  backoff = initial_backoff;
  snapshot = hub;
  connects = 0;
  handled = 0;
}

-- `min(backoff * 2, _MAX_BACKOFF)`
abbrev pub doubled : ℚ → ℚ
doubled backoff = if le? (backoff *ℚ of_ℕ 2) max_backoff then backoff *ℚ of_ℕ 2 else max_backoff

-- `if not self._running: return`, before what follows.
abbrev pub unless_stopped : Phase → Stream → Stream
unless_stopped next s = record s { phase = if s.running then next else finished }

-- A clean connect resets the backoff.
abbrev pub connected : Stream → Stream
connected s = record s { phase = consuming; backoff = initial_backoff; connects = suc s.connects }

-- The end of a connection, or an exception: both come to the pause, unless `stop` was called.
abbrev pub dropped : Stream → Stream
dropped s = unless_stopped sleeping s

-- The end of the pause, and the test of the loop.
abbrev pub slept : Stream → Stream
slept s = unless_stopped connecting (record s { backoff = doubled s.backoff })

-- What the handler of a message came to; an exception in it drops the connection.
abbrev pub after_message : Stream → Result (Unit {0}) × Snapshot → Stream
after_message s (ok a, h) =
    unless_stopped consuming (record s { snapshot = h; handled = suc s.handled })
after_message s (err e, h) = dropped (record s { snapshot = h; handled = suc s.handled })

-- `stop`
abbrev pub stopped : Stream → Stream
stopped s = record s { running = false }

module _ (reader : Reader) (loads : String → Result Json) where
  -- One step of `run`, or a call of `stop` by another task.
  pub data Step (s : Stream) : Stream → Type 0 where
    connect : s.phase ≡ connecting → Step s (connected s)
    refuse : s.phase ≡ connecting → Step s (dropped s)
    message :
        (raw : String)
        → s.phase ≡ consuming
        → Step s (after_message s (handle reader loads raw s.snapshot))
    drop : s.phase ≡ consuming → Step s (dropped s)
    sleep : s.phase ≡ sleeping → Step s (slept s)
    stop : Step s (stopped s)

  -- Any number of steps.
  pub data Run (s : Stream) : Stream → Type 0 where
    here : Run s s
    then_step : (t u : Stream) → Run s t → Step t u → Run s u
