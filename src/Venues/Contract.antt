-- ===== src/Venues/Contract.antt =====
-- engine/venues/base.py: what a venue promises about its fills, for every venue that the factory
-- builds.
use capital.Prelude.{String, ◌==◌, ◌≡◌, refl, subst, inl, inr, Bool-cases, Option, none, some, List}
use capital.Rational.{ℚ, of_ℕ, le?}
use capital.Context.{Context}
use capital.Models.{Setting}
use capital.Effects.{Result, ok, err}
use capital.Effects.Fallible as F
use capital.Effects.Fallible.{ok-injective, Result-cases}
use capital.Executors.Venue.{
  OrderType, market_order, limit_order, market_only, OrderRequest, OrderResult, Venue,
}
use capital.Exchange.Market.{decimal_or}
use capital.Json.{Json, get, at_key}
use capital.Settings.{TradingMode, Cipher, get_venue_credentials}
use capital.Venues.Binance.{BinanceVenue, BinanceState, OrderClient, side_text}
use capital.Venues.BinanceAlpha.{BinanceAlphaVenue}
use capital.Venues.BinanceAlpha as BinanceAlpha
use capital.Venues.Binance.Orders.{Answers, Placed, place_order-Placed, place_order-market}
use capital.Venues.Alpaca.{AlpacaVenue}
use capital.Venues.Polymarket.{PolymarketVenue, SigningClient, normalised}
use capital.Venues.Factory.{
  Wiring, Credentials, build_venue, build_named, build_binance, binance_over,
}
use capital.Venues.Binance as Binance
use capital.Venues.Alpaca as Alpaca
use capital.Venues.Polymarket as Polymarket

-- A result that a venue returns is of a positive quantity, for the symbol and the side that were
-- asked for, and for a market order.
abbrev pub Fulfils : OrderRequest → OrderResult → Type 0
Fulfils request result = Answers request result × (request.order_type ≡ market_order)

-- Every result of the venue is one of those.
abbrev pub KeepsContract : Venue → Type 0
KeepsContract venue =
    (request : OrderRequest) (result : OrderResult)
    → venue.place_order request ≡ ok result
    → Fulfils request result

-- What a value that may be an exception satisfies, if it is none.
abbrev IfOk : {A : Type 0} → (A → Type 0) → Result A → Type 0
IfOk P (ok a) = P a
IfOk P (err e) = Unit

IfOk-bind :
    {A B : Type 0} (P : B → Type 0) (r : Result A) (f : A → Result B)
    → ((a : A) → IfOk P (f a))
    → IfOk P (F.◌>>=◌ r f)
IfOk-bind P (ok a) f h = h a
IfOk-bind P (err e) f h = tt

IfOk-apply : {A : Type 0} (P : A → Type 0) (r : Result A) (a : A) → IfOk P r → r ≡ ok a → P a
IfOk-apply P (ok b) a h e = subst P (ok-injective b a e) h
IfOk-apply P (err x) a h e = cc

-- No result comes after the check of the type of an order that is no market order.
IfOk-market_only :
    (kind : OrderType) (rest : Result OrderResult)
    → IfOk (λ r. kind ≡ market_order) (F.◌>>=◌ (market_only kind) (λ u. rest))
IfOk-market_only market_order (ok r) = refl
IfOk-market_only market_order (err e) = tt
IfOk-market_only limit_order rest = tt

module _ ⦃c : Context⦄ where
  alpaca-KeepsContract : (v : AlpacaVenue) → KeepsContract (Alpaca.as_venue v)
  unfolding Alpaca.place_order
  alpaca-KeepsContract v request result h = (
    IfOk-apply P (Alpaca.place_order v request) result
        (IfOk-bind P (market_only request.order_type) _ λ u.
          IfOk-bind P (Alpaca.post_order v request) (Alpaca.read_placed v request) λ placed.
            IfOk-bind P (at_key "id" placed) (Alpaca.read_back v request) λ id.
              IfOk-bind P (Alpaca.fetch_order v id) (Alpaca.settle v request) λ order.
                IfOk-bind P (Alpaca.decimal_or_0 v "filled_qty" order)
                  (Alpaca.settle_filled v request order) (filled order))
        h,
    IfOk-apply (λ r. request.order_type ≡ market_order) (Alpaca.place_order v request) result
        (IfOk-market_only request.order_type _) h,
  )
    where
      P : OrderResult → Type 0
      P = Answers request

      filled : (order : Json) (q : ℚ) → IfOk P (Alpaca.settle_filled v request order q)
      filled order q = elim (Bool-cases (le? q (of_ℕ 0))) [
        | inl e ↦ rw e tt
        | inr e ↦ rw e (
            IfOk-bind P (Alpaca.decimal_or_0 v "filled_avg_price" order)
              (λ p. F.◌>>=◌ (at_key "id" order) (λ id. ok (Alpaca.result_of v request q p id)))
              (λ p.
                IfOk-bind P (at_key "id" order) (λ id. ok (Alpaca.result_of v request q p id))
                  (λ id. (refl, refl, e))))
      ]

  polymarket-KeepsContract : (v : PolymarketVenue) → KeepsContract (Polymarket.as_venue v)
  unfolding Polymarket.place_order
  polymarket-KeepsContract v request result h = (
    IfOk-apply P (Polymarket.place_order v request) result (by_client v.order_client) h,
    IfOk-apply (λ r. request.order_type ≡ market_order) (Polymarket.place_order v request) result
        (market_by v.order_client) h,
  )
    where
      P : OrderResult → Type 0
      P = Answers request

      filled : (x : Json) (q : ℚ) → IfOk P (Polymarket.settle_filled v request x q)
      filled x q = elim (Bool-cases (le? q (of_ℕ 0))) [
        | inl e ↦ rw e tt
        | inr e ↦ rw e (
            IfOk-bind P (decimal_or v.reader (of_ℕ 0) "price" x)
              (λ p. F.◌>>=◌ (decimal_or v.reader (of_ℕ 0) "fee" x) (λ fee.
                F.◌>>=◌ (get "orderID" x) (λ id. ok (Polymarket.result_of v request q p fee id))))
              (λ p.
                IfOk-bind P (decimal_or v.reader (of_ℕ 0) "fee" x)
                  (λ fee.
                    F.◌>>=◌ (get "orderID" x)
                      (λ id. ok (Polymarket.result_of v request q p fee id)))
                  (λ fee.
                    IfOk-bind P (get "orderID" x)
                      (λ id. ok (Polymarket.result_of v request q p fee id))
                      (λ id. (refl, refl, e)))))
      ]

      market_by :
          (client : Option SigningClient)
          → IfOk (λ r. request.order_type ≡ market_order) (Polymarket.place_by v request client)
      market_by none = tt
      market_by (some client) = IfOk-market_only request.order_type _

      by_client : (client : Option SigningClient) → IfOk P (Polymarket.place_by v request client)
      by_client none = tt
      by_client (some client) = IfOk-bind P (market_only request.order_type) _ λ u.
          IfOk-bind P (normalised (client request.symbol (side_text request.side) request.quantity))
            (Polymarket.settle v request)
            λ x.
              IfOk-bind P (decimal_or v.reader (of_ℕ 0) "size" x)
                (Polymarket.settle_filled v request x) (filled x)

  binance-KeepsContract :
      (v : BinanceVenue) (s : BinanceState) → KeepsContract (Binance.as_venue v s)
  binance-KeepsContract v s request result h = (
    by_outcome (Binance.place_order v request s) (place_order-Placed v request s) h,
    place_order-market v request s result h,
  )
    where
      by_outcome :
          (out : Result OrderResult × BinanceState)
          → Placed v request s out
          → out.0 ≡ ok result
          → Answers request result
      by_outcome (ok x, t) placed k = subst (Answers request) (ok-injective x result k) placed.1
      by_outcome (err e, t) placed k = cc

  alpha-KeepsContract : (v : BinanceAlphaVenue) → KeepsContract (BinanceAlpha.as_venue v)
  unfolding BinanceAlpha.place_order
  alpha-KeepsContract v request result h = cc

  module _ (w : Wiring) where
    build_binance-IfOk :
        (key secret : Option String) (mode : TradingMode)
        → IfOk KeepsContract (build_binance w key secret mode)
    build_binance-IfOk (some key) (some secret) mode =
        IfOk-bind KeepsContract _ (λ clients. ok (binance_over w clients.0 (some clients.1)))
          (λ clients. binance-KeepsContract _ _)
    build_binance-IfOk (some key) none mode = binance-KeepsContract _ _
    build_binance-IfOk none secret mode = binance-KeepsContract _ _

    build_named-IfOk :
        (name : String) (mode : TradingMode) (creds : Credentials)
        → IfOk KeepsContract (build_named w name mode creds)
    build_named-IfOk name mode creds = elim (Bool-cases (name == "binance")) [
      | inl a ↦ rw a (build_binance-IfOk _ _ mode)
      | inr a ↦ elim (Bool-cases (name == "alpaca")) [
        | inl b ↦ rw (a, b) (alpaca-KeepsContract _)
        | inr b ↦ elim (Bool-cases (name == "polymarket")) [
          | inl d ↦ rw (a, b, d) (polymarket-KeepsContract _)
          | inr d ↦ elim (Bool-cases (name == "binance-alpha")) [
            | inl e ↦ rw (a, b, d, e) (alpha-KeepsContract _)
            | inr e ↦ rw (a, b, d, e) tt
          ]
        ]
      ]
    ]

    -- Every venue that the factory builds, from whatever is stored, keeps the contract of the
    -- interface: an order either raises, or it is a market order and fills a positive quantity of
    -- the symbol and on the side that were asked for.
    pub build_venue-KeepsContract :
        (cipher : Cipher) (rows : List Setting) (name : String) (mode : TradingMode) (venue : Venue)
        (request : OrderRequest) (result : OrderResult)
        → build_venue w cipher rows name mode ≡ ok venue
        → venue.place_order request ≡ ok result
        → Fulfils request result
    unfolding build_venue
    build_venue-KeepsContract cipher rows name mode venue request result h k =
        IfOk-apply KeepsContract (build_venue w cipher rows name mode) venue
          (IfOk-bind KeepsContract (get_venue_credentials cipher name rows)
            (build_named w name mode) (build_named-IfOk name mode))
          h request result k
