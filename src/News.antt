-- ===== src/News.antt =====
-- engine/news/models.py and engine/news/service.py: headlines from RSS feeds. `feedparser`, the
-- download, `json.loads`, `str` and `str.lower` are parameters.
pub mod Refresh
use package.text.Mathlib.Text.{find?}
use Prim.Native.String.{◌++◌ as concat, slice}
use capital.Prelude.{
  ℕ, ◌+◌, String, ◌==◌, Bool, true, false, ◌||◌, Option, none, some, List, [], ◌∷◌, ◌++◌ as append,
  find, select, take, reverse, sort_by, if◌then◌else◌,
}
use capital.Models.{Time, Setting}
use capital.Effects.{Result, ok, err, Error, json_error, key_error, other_error}
use capital.Effects.Fallible.{◌>>=◌, traverse}
use capital.Settings.{get_setting}
use capital.Json.{Json, text, get, at_key, iterate, or_json, truthy}

pub record NewsItem : Type 0 where
  pub source : String
  pub title : String
  pub url : String
  pub summary : String
  pub category : String
  pub symbol : Option String
  pub published_at : Option Time
  pub fetched_at : Time

pub record Feed : Type 0 where
  pub name : String
  pub url : String
  pub category : String
  pub symbol : Option String

-- An entry of a parsed feed; a missing text is "".
pub record Entry : Type 0 where
  pub link : String
  pub title : String
  pub summary : String
  pub published_parsed : Option Time
  pub updated_parsed : Option Time

pub record Library : Type 0 where
  pub fetch : String → Result String
  pub parse : String → Result (List Entry)
  pub loads : String → Result Json
  pub show : Json → String
  pub lower : String → String
  -- `text[:n]`
  pub cut : ℕ → String → String

abbrev pub default_feeds : List Feed
default_feeds =
    record {
      name = "CoinDesk";
      url = "https://www.coindesk.com/arc/outboundfeeds/rss/";
      category = "asset";
      symbol = none;
    }
    ∷ record {
      name = "Cointelegraph";
      url = "https://cointelegraph.com/rss";
      category = "asset";
      symbol = none;
    }
    ∷ record {
      name = "Yahoo Finance";
      url = "https://finance.yahoo.com/news/rssindex";
      category = "world";
      symbol = none;
    }
    ∷ record {
      name = "Reuters Business";
      url = "https://www.reutersagency.com/feed/?best-topics=business-finance";
      category = "world";
      symbol = none;
    }
    ∷ []

abbrev pub symbol_aliases : List (String × String)
symbol_aliases =
    ("bitcoin", "BTCUSDT")
    ∷ ("btc", "BTCUSDT")
    ∷ ("ethereum", "ETHUSDT")
    ∷ ("ether ", "ETHUSDT")
    ∷ ("eth ", "ETHUSDT")
    ∷ ("solana", "SOLUSDT")
    ∷ ("ripple", "XRPUSDT")
    ∷ ("xrp", "XRPUSDT")
    ∷ ("dogecoin", "DOGEUSDT")
    ∷ ("cardano", "ADAUSDT")
    ∷ ("tether", "USDT")
    ∷ ("nvidia", "NVDA")
    ∷ ("amd ", "AMD")
    ∷ ("tesla", "TSLA")
    ∷ ("apple", "AAPL")
    ∷ ("microsoft", "MSFT")
    ∷ []

abbrev pub is_some {ℓ} : {A : Type ℓ} → Option A → Bool
is_some none = false
is_some (some a) = true

abbrev pub scan : List (String × String) → String → Option String → Option String
scan [] haystack default = default
scan ((alias, symbol) ∷ rest) haystack default =
    if is_some (find? haystack alias) then some symbol else scan rest haystack default

abbrev pub has_url : String → NewsItem → Bool
has_url url i = i.url == url

-- The outcome of one headline: the table, and whether a row was added.
abbrev pub upsert_unless : Option NewsItem → NewsItem → List NewsItem → List NewsItem × ℕ
upsert_unless (some old) item rows = (rows, 0)
upsert_unless none item rows = (append rows (item ∷ []), 1)

-- `_upsert`
unfoldable pub upsert : NewsItem → List NewsItem → List NewsItem × ℕ
upsert item rows = upsert_unless (find (has_url item.url) rows) item rows

abbrev pub upsert_all : List NewsItem → List NewsItem → ℕ → List NewsItem × ℕ
upsert_all [] rows added = (rows, added)
upsert_all (item ∷ items) rows added =
    let (next, n) = upsert item rows in upsert_all items next (added + n)

-- `except Exception: log and continue`
abbrev pub upsert_result : Result (List NewsItem) → List NewsItem → ℕ → List NewsItem × ℕ
upsert_result (ok items) rows added = upsert_all items rows added
upsert_result (err e) rows added = (rows, added)

abbrev pub is_symbol : Option String → String → Bool
is_symbol none s = false
is_symbol (some t) s = t == s

abbrev pub first_time : Option Time → Option Time → Option Time
first_time (some t) other = some t
first_time none other = other

abbrev pub symbol_fits : Option String → NewsItem → Bool
symbol_fits none i = true
symbol_fits (some s) i = if s == "" then true else is_symbol i.symbol s

-- Newest first.
unfoldable pub recent : Option String → ℕ → List NewsItem → List NewsItem
recent symbol limit rows =
    take limit (reverse (sort_by (λ i. i.fetched_at) (select (symbol_fits symbol) rows)))

module _ (lib : Library) where
  unfoldable pub match_symbol : String → Option String → Option String
  match_symbol words default =
      scan symbol_aliases (concat " " (concat (lib.lower words) " ")) default

  -- `str(i["symbol"]) if i.get("symbol") else None`
  abbrev pub pinned : Option Json → Option String
  pinned none = none
  pinned (some s) = if truthy s then some (lib.show s) else none

  abbrev pub feed_of : Json → Result Feed
  feed_of i = do
    name ← at_key "name" i
    url ← at_key "url" i
    category ← get "category" i
    symbol ← get "symbol" i
    ok (record {
      name = lib.show name;
      url = lib.show url;
      category = lib.show (or_json (text "world") category);
      symbol = pinned symbol;
    })

  -- `except (JSONDecodeError, KeyError, TypeError)`, the only exceptions here.
  abbrev pub or_defaults : Result (List Feed) → List Feed
  or_defaults (ok feeds) = feeds
  or_defaults (err e) = default_feeds

  abbrev pub feeds_in : Option String → List Feed
  feeds_in none = default_feeds
  feeds_in (some raw) =
      if raw == ""
      then default_feeds
      else or_defaults (do items ← lib.loads raw; rows ← iterate items; traverse feed_of rows)

  unfoldable pub configured_feeds : List Setting → List Feed
  unfolding get_setting
  configured_feeds rows = feeds_in (get_setting "news_feeds" rows)

  -- `_published`
  abbrev pub published : Entry → Option Time
  published e = first_time e.published_parsed e.updated_parsed

  abbrev pub category_of : Option String → Feed → String
  category_of none feed = feed.category
  category_of (some s) feed = if s == "" then feed.category else "asset"

  abbrev pub item_of : Feed → Entry → Time → NewsItem
  item_of feed e now =
      let symbol = match_symbol (concat e.title (concat " " e.summary)) feed.symbol in
      record {
        source = feed.name;
        title = lib.cut 512 e.title;
        url = lib.cut 1024 e.link;
        summary = e.summary;
        category = category_of symbol feed;
        symbol = symbol;
        published_at = published e;
        fetched_at = now;
      }

  abbrev pub items_of : Feed → Time → List Entry → List NewsItem
  items_of feed now [] = []
  items_of feed now (e ∷ es) =
      let rest = items_of feed now es in
      if e.link == "" || e.title == "" then rest else item_of feed e now ∷ rest

  unfoldable pub parse_feed : String → Feed → Time → Result (List NewsItem)
  unfolding match_symbol
  parse_feed content feed now = do entries ← lib.parse content; ok (items_of feed now entries)

  -- What a feed brings, or the exception on the way.
  abbrev pub read_feed : Time → Feed → Result (List NewsItem)
  read_feed now feed = do content ← lib.fetch feed.url; parse_feed content feed now

  abbrev pub refresh_from : Time → List Feed → List NewsItem → ℕ → List NewsItem × ℕ
  refresh_from now [] rows added = (rows, added)
  refresh_from now (feed ∷ feeds) rows added =
      let (next, n) = upsert_result (read_feed now feed) rows added in refresh_from now feeds next n

  -- `feeds if feeds is not None else configured_feeds(session)`
  abbrev pub sources : Option (List Feed) → List Setting → List Feed
  sources (some feeds) settings = feeds
  sources none settings = configured_feeds settings

  unfoldable pub refresh :
      Option (List Feed) → Time → List Setting → List NewsItem → List NewsItem × ℕ
  unfolding configured_feeds parse_feed upsert
  refresh feeds now settings rows = refresh_from now (sources feeds settings) rows 0
