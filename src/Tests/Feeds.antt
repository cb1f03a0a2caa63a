-- ===== src/Tests/Feeds.antt =====
-- The theorems on the headlines and on the graph of related assets at concrete inputs.
use capital.Prelude.{String, ◌==◌, if◌then◌else◌, none, some, List, [], ◌∷◌, All}
use capital.Context.{unlimited}
use capital.Effects.{ok, err, other_error}
use capital.Json.{text, arr, obj, field, end, cons, nil}
use capital.News.{Feed, Entry, Library, read_feed, sources, refresh}
use capital.News.Refresh.{Grown, Covered, refresh_lem}
use capital.Connections.{GraphNode, Keys}
use capital.Connections.Suggest.{Texts, GraphSession, suggest}
use capital.Connections.Pending.{OnlyPending, suggest-OnlyPending}
use capital.Tests.Data.{empty_db, advisor}

abbrev entry : Entry
entry = record {
  link = "http://a/1";
  title = "Up";
  summary = "";
  published_parsed = none;
  updated_parsed = none;
}

-- One feed answers with the same entry twice, the other cannot be downloaded.
abbrev rss : Library
rss = record {
  fetch = λ url. if url == "down" then err other_error else ok url;
  parse = λ content. ok (entry ∷ entry ∷ []);
  loads = λ raw. err other_error;
  show = λ x. "";
  lower = λ t. t;
  cut = λ n t. t;
}

abbrev feed_at : String → Feed
feed_at url = record { name = "feed"; url = url; category = "world"; symbol = some "BTC" }

abbrev two_feeds : List Feed
two_feeds = feed_at "down" ∷ feed_at "up" ∷ []

refresh_lem_example :
    let out = refresh rss (some two_feeds) 5 [] [] in
    Grown [] out.1 out.0
    × All (λ feed. Covered out.0 (read_feed rss 5 feed)) (sources rss (some two_feeds) [])
refresh_lem_example = refresh_lem rss (some two_feeds) 5 [] []

abbrev subject : GraphNode
subject = record { id = 1; label = "GPU"; kind = "product"; symbol = none; icon = none }

abbrev session : GraphSession
session = record { graph = record { nodes = subject ∷ []; edges = [] }; db = empty_db }

abbrev keys : Keys
keys = record { node_id = λ rows. 2; edge_id = λ rows. 1; slice = λ n t. t }

-- The model names one related entity.
abbrev texts : Texts
texts = record {
  norm = λ t. t;
  prompt = λ node. node.label;
  array_in = λ t. some t;
  loads = λ t. ok (arr (cons (obj (field "label" (text "AI") end)) nil));
  show = λ x. "AI";
  strip = λ t. t;
  lower = λ t. t;
}

suggest-OnlyPending_example :
    OnlyPending keys texts session (suggest keys texts ⦃c = unlimited⦄ advisor none 1 9 session)
suggest-OnlyPending_example =
    suggest-OnlyPending keys texts ⦃c = unlimited⦄ advisor none 1 9 session
