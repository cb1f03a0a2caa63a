-- ===== src/News/Refresh.antt =====
-- engine/news/service.py: what a refresh adds to the headlines.
use capital.Prelude.{
  ℕ, ◌+◌, eq_iff, eq_refl, ◌≡◌, refl, sym, ap, ◌∙◌, subst, true, false, Bool-cases, Option-cases,
  inl, inr, Option, none, List, [], ◌∷◌, ◌++◌, find, length, length-append, All, All-append, arith,
}
use mathlib.Core.List.{append-nil, append_assoc}
use capital.Models.{Time, Setting}
use capital.Effects.{Result, ok, err}
use capital.News.{
  NewsItem, Feed, Library, has_url, is_some, upsert, upsert_all, upsert_result, read_feed,
  refresh_from, sources, refresh,
}

-- No two headlines have one URL.
abbrev pub Distinct : List NewsItem → Type 0
Distinct [] = Unit
Distinct (i ∷ is) = All (λ j. has_url i.url j ≡ false) is × Distinct is

-- A headline with a URL is stored.
abbrev pub Stored : List NewsItem → NewsItem → Type 0
Stored rows item = is_some (find (has_url item.url) rows) ≡ true

-- The rows have grown at the end, by as many as were counted, and are as distinct as they were.
pub record Grown (before : List NewsItem) (added : ℕ) (after : List NewsItem) : Type 0 where
  pub news : List NewsItem
  pub after_lem : after ≡ before ++ news
  pub added_lem : added ≡ length news
  pub distinct : Distinct before → Distinct after

Stored-append :
    (rows news : List NewsItem) (item : NewsItem) → Stored rows item → Stored (rows ++ news) item
Stored-append [] news item h = cc
Stored-append (i ∷ rows) news item h = elim (Bool-cases (has_url item.url i)) [
  | inl e ↦ rw e refl
  | inr e ↦ rw e (Stored-append rows news item (rw e at h))
]

Stored-last : (rows : List NewsItem) (item : NewsItem) → Stored (rows ++ item ∷ []) item
Stored-last [] item = rw (eq_refl item.url) refl
Stored-last (i ∷ rows) item = elim (Bool-cases (has_url item.url i)) [
  | inl e ↦ rw e refl
  | inr e ↦ rw e (Stored-last rows item)
]

Distinct-last :
    (rows : List NewsItem) (item : NewsItem)
    → find (has_url item.url) rows ≡ none
    → Distinct rows
    → Distinct (rows ++ item ∷ [])
Distinct-last [] item h d = (tt, tt)
Distinct-last (i ∷ rows) item h d = elim (Bool-cases (has_url item.url i)) [
  | inl e ↦ let k = rw e at h in cc
  | inr e ↦ (
    All-append (λ j. has_url i.url j ≡ false) rows (item ∷ []) d.0
        (ground (arith, eq_iff i.url item.url, eq_iff item.url i.url), tt),
    Distinct-last rows item (rw e at h) d.1,
  )
]

Grown-same : (rows : List NewsItem) → Grown rows 0 rows
Grown-same rows = record {
  news = [];
  after_lem = sym (append-nil rows);
  added_lem = refl;
  distinct = λ d. d;
}

Grown-trans : (a b c : List NewsItem) (m n : ℕ) → Grown a m b → Grown b n c → Grown a (m + n) c
Grown-trans a b c m n g h = record {
  news = g.news ++ h.news;
  after_lem = h.after_lem ∙ (ap (λ t. t ++ h.news) g.after_lem ∙ append_assoc a g.news h.news);
  added_lem = omega (arith, g.added_lem, h.added_lem, length-append g.news h.news);
  distinct = λ d. h.distinct (g.distinct d);
}

Grown-Stored :
    (a b : List NewsItem) (n : ℕ) (item : NewsItem) → Grown a n b → Stored a item → Stored b item
Grown-Stored a b n item g s =
    subst (λ t. Stored t item) (sym g.after_lem) (Stored-append a g.news item s)

-- A count that goes on from another, over rows that have grown by the difference.
record Counted (before : List NewsItem) (added : ℕ) (out : List NewsItem × ℕ) : Type 0 where
  fresh : ℕ
  count_lem : out.1 ≡ added + fresh
  grown : Grown before fresh out.0

upsert_lem :
    (item : NewsItem) (rows : List NewsItem)
    → Grown rows (upsert item rows).1 (upsert item rows).0 × Stored (upsert item rows).0 item
unfolding upsert
upsert_lem item rows = elim (Option-cases (find (has_url item.url) rows)) [
  | inl e ↦ rw e (
    record {
      news = item ∷ [];
      after_lem = refl;
      added_lem = refl;
      distinct = Distinct-last rows item e;
    },
    Stored-last rows item,
  )
  | inr (old, e) ↦ rw e (Grown-same rows, ap is_some e)
]

upsert_all_lem :
    (items rows : List NewsItem) (added : ℕ)
    → Counted rows added (upsert_all items rows added)
      × All (Stored (upsert_all items rows added).0) items
upsert_all_lem [] rows added =
    (record { fresh = 0; count_lem = omega arith; grown = Grown-same rows }, tt)
upsert_all_lem (item ∷ items) rows added =
    let (g, s) = upsert_lem item rows in
    let (rest, all) = upsert_all_lem items (upsert item rows).0 (added + (upsert item rows).1) in
    (
      record {
        fresh = (upsert item rows).1 + rest.fresh;
        count_lem = omega (arith, rest.count_lem);
        grown = Grown-trans rows (upsert item rows).0 _ _ _ g rest.grown;
      },
      (Grown-Stored (upsert item rows).0 _ rest.fresh item rest.grown s, all),
    )

-- Every headline that a feed brought is stored; a feed that failed brought none.
abbrev pub Covered : List NewsItem → Result (List NewsItem) → Type 0
Covered rows (ok items) = All (Stored rows) items
Covered rows (err e) = Unit

upsert_result_lem :
    (r : Result (List NewsItem)) (rows : List NewsItem) (added : ℕ)
    → Counted rows added (upsert_result r rows added) × Covered (upsert_result r rows added).0 r
upsert_result_lem (ok items) rows added = upsert_all_lem items rows added
upsert_result_lem (err e) rows added =
    (record { fresh = 0; count_lem = omega arith; grown = Grown-same rows }, tt)

All-Stored :
    (a b : List NewsItem) (n : ℕ) (items : List NewsItem)
    → Grown a n b
    → All (Stored a) items
    → All (Stored b) items
All-Stored a b n [] g h = tt
All-Stored a b n (item ∷ items) g h = (Grown-Stored a b n item g h.0, All-Stored a b n items g h.1)

Grown-Covered :
    (a b : List NewsItem) (n : ℕ) (r : Result (List NewsItem))
    → Grown a n b
    → Covered a r
    → Covered b r
Grown-Covered a b n (ok items) g h = All-Stored a b n items g h
Grown-Covered a b n (err e) g h = tt

module _ (lib : Library) where
  refresh_from_lem :
      (now : Time) (feeds : List Feed) (rows : List NewsItem) (added : ℕ)
      → let out = refresh_from lib now feeds rows added in
        Counted rows added out × All (λ feed. Covered out.0 (read_feed lib now feed)) feeds
  refresh_from_lem now [] rows added =
      (record { fresh = 0; count_lem = omega arith; grown = Grown-same rows }, tt)
  refresh_from_lem now (feed ∷ feeds) rows added =
      let r : Result (List NewsItem) = read_feed lib now feed in
      let (one, covered) = upsert_result_lem r rows added in
      let (rest, all) =
        refresh_from_lem now feeds (upsert_result r rows added).0 (upsert_result r rows added).1 in
      (
        record {
          fresh = one.fresh + rest.fresh;
          count_lem = omega (arith, rest.count_lem, one.count_lem);
          grown = Grown-trans rows (upsert_result r rows added).0 _ _ _ one.grown rest.grown;
        },
        (Grown-Covered (upsert_result r rows added).0 _ rest.fresh r rest.grown covered, all),
      )

  -- A refresh keeps every headline, appends as many as it counts, and brings no URL in twice. A feed
  -- that cannot be downloaded or parsed stops no other: every headline of every other feed is
  -- stored afterwards.
  pub refresh_lem :
      (feeds : Option (List Feed)) (now : Time) (settings : List Setting) (rows : List NewsItem)
      → let out = refresh lib feeds now settings rows in
        Grown rows out.1 out.0
        × All (λ feed. Covered out.0 (read_feed lib now feed)) (sources lib feeds settings)
  unfolding refresh
  refresh_lem feeds now settings rows =
      let (counted, all) = refresh_from_lem now (sources lib feeds settings) rows 0 in
      (
        subst (λ n. Grown rows n (refresh_from lib now (sources lib feeds settings) rows 0).0)
            (omega (arith, counted.count_lem)) counted.grown,
        all,
      )
