-- ===== src/Venues/Binance/Orders.antt =====
-- engine/venues/binance.py: what `place_order` sends to the exchange, and what it answers.
use capital.Prelude.{
  ℕ, subst, String, ◌≡◌, refl, ap, ◌∙◌, ◌⊎◌, inl, inr, Bool-cases, Option, none, some, List, [],
  ◌∷◌, ◌++◌, contains, if◌then◌else◌,
}
use capital.Rational.{ℚ, of_ℕ, le?}
use capital.Rational.Order.{◌<ℚ◌}
use capital.Context.{Context}
use capital.Effects.{Result, ok, err, venue_error}
use capital.Effects.Fallible as F
use capital.Effects.Fallible.{ok-injective}
use capital.Effects.Stateful.{continue, ◌>>=◌}
use capital.Executors.Venue.{
  OrderType, market_order, limit_order, market_only, OrderRequest, OrderResult,
}
use capital.Exchange.Market.{Market, spot, futures}
use capital.Json.{Json, get, or_json, text}
use capital.Venues.Binance.{
  BinanceVenue, BinanceState, OrderClient, OrderParams, Sent, leverage_sent, margin_sent,
  order_sent, params_of, configure_futures, set_leverage, set_margin, submit, settle, parse_fill,
  place_order, market_or, place_by, rejected, result_of,
}

abbrev pub order_in : Sent → List (Market × OrderParams) → List (Market × OrderParams)
order_in (leverage_sent symbol n) rest = rest
order_in (margin_sent symbol kind) rest = rest
order_in (order_sent m params) rest = (m, params) ∷ rest

-- The orders among the requests, in the order of sending.
abbrev pub orders_of : List Sent → List (Market × OrderParams)
orders_of [] = []
orders_of (x ∷ xs) = order_in x (orders_of xs)

-- A request that is no order.
abbrev IsQuiet : Sent → Type 0
IsQuiet x = (rest : List (Market × OrderParams)) → order_in x rest ≡ rest

orders_of-quiet : (xs : List Sent) (x : Sent) → IsQuiet x → orders_of (xs ++ x ∷ []) ≡ orders_of xs
orders_of-quiet [] x q = q []
orders_of-quiet (y ∷ xs) x q = ap (order_in y) (orders_of-quiet xs x q)

orders_of-order :
    (xs : List Sent) (m : Market) (params : OrderParams)
    → orders_of (xs ++ order_sent m params ∷ []) ≡ orders_of xs ++ (m, params) ∷ []
orders_of-order [] m params = refl
orders_of-order (leverage_sent symbol n ∷ xs) m params = orders_of-order xs m params
orders_of-order (margin_sent symbol kind ∷ xs) m params = orders_of-order xs m params
orders_of-order (order_sent m' p' ∷ xs) m params =
    ap (λ t. (m', p') ∷ t) (orders_of-order xs m params)

-- No order is sent between two states.
abbrev pub SameOrders : BinanceState → BinanceState → Type 0
SameOrders s t = orders_of t.sent ≡ orders_of s.sent

-- Exactly one order is sent between two states.
abbrev pub OneOrder : Market → OrderParams → BinanceState → BinanceState → Type 0
OneOrder m params s t = orders_of t.sent ≡ orders_of s.sent ++ (m, params) ∷ []

continue-SameOrders :
    {A B : Type 0} (f : A → BinanceState → Result B × BinanceState) (out : Result A × BinanceState)
    (s : BinanceState)
    → SameOrders s out.1
    → ((a : A) (t : BinanceState) → SameOrders s t → SameOrders s (f a t).1)
    → SameOrders s (continue f out).1
continue-SameOrders f (ok a, t) s h k = k a t h
continue-SameOrders f (err e, t) s h k = h

-- What is known once an order may have been sent, by the outcome.
abbrev Sends : {A : Type 0} → Market → OrderParams → BinanceState → Result A × BinanceState → Type 0
Sends m params s (ok a, t) = OneOrder m params s t
Sends m params s (err e, t) = SameOrders s t ⊎ OneOrder m params s t

ordered :
    {A : Type 0} (m : Market) (params : OrderParams) (s t : BinanceState) (r : Result A)
    → OneOrder m params s t
    → Sends m params s (r, t)
ordered m params s t (ok a) h = h
ordered m params s t (err e) h = inr h

-- A result is for the order that was asked for, and of a positive quantity.
abbrev pub Answers : OrderRequest → OrderResult → Type 0
Answers request result =
    (result.symbol ≡ request.symbol)
    × (result.side ≡ request.side)
    × (of_ℕ 0 <ℚ result.filled_quantity)

module _ (v : BinanceVenue) where
  set_leverage-SameOrders :
      (client : OrderClient) (symbol : String) (n : Option ℕ) (s t : BinanceState)
      → SameOrders s t
      → SameOrders s (set_leverage v client symbol n t).1
  set_leverage-SameOrders client symbol none s t h = h
  set_leverage-SameOrders client symbol (some n) s t h =
      orders_of-quiet t.sent (leverage_sent symbol n) (λ rest. refl) ∙ h

  set_margin-SameOrders :
      (client : OrderClient) (symbol : String) (kind : Option String) (s t : BinanceState)
      → SameOrders s t
      → SameOrders s (set_margin v client symbol kind t).1
  set_margin-SameOrders client symbol none s t h = h
  set_margin-SameOrders client symbol (some kind) s t h =
      orders_of-quiet t.sent (margin_sent symbol kind) (λ rest. refl) ∙ h

  configure-SameOrders :
      (client : OrderClient) (symbol : String) (s : BinanceState)
      → SameOrders s (configure_futures v client symbol s).1
  unfolding configure_futures
  configure-SameOrders client symbol s = elim (Bool-cases (contains symbol s.configured)) [
    | inl e ↦ rw e refl
    | inr e ↦ rw e (
        continue-SameOrders _ (set_leverage v client symbol v.futures_leverage s) s
          (set_leverage-SameOrders client symbol v.futures_leverage s s refl)
          λ a t h.
            continue-SameOrders _ (set_margin v client symbol v.futures_margin_type t) s
              (set_margin-SameOrders client symbol v.futures_margin_type s t h) (λ b u k. k))
  ]

  -- The futures order, once its symbol is set up.
  after_setup :
      (client : OrderClient) (params : OrderParams) (s : BinanceState)
      (out : Result (Unit {0}) × BinanceState)
      → SameOrders s out.1
      → Sends futures params s (
          continue
            (λ a t. (
              rejected (client.futures_create_order params),
              record t { sent = t.sent ++ order_sent futures params ∷ [] },
            ))
            out)
  after_setup client params s (ok a, t) h =
      ordered futures params s _ (rejected (client.futures_create_order params))
        (orders_of-order t.sent futures params ∙ ap (λ x. x ++ (futures, params) ∷ []) h)
  after_setup client params s (err e, t) h = inl h

  submit-Sends :
      (client : OrderClient) (m : Market) (params : OrderParams) (s : BinanceState)
      → Sends m params s (submit v client m params s)
  submit-Sends client spot params s =
      ordered spot params s _ (rejected (client.create_order params))
        (orders_of-order s.sent spot params)
  submit-Sends client futures params s =
      after_setup client params s (configure_futures v client params.symbol s)
        (configure-SameOrders client params.symbol s)

  module _ ⦃c : Context⦄ where
    -- A result comes with exactly one order sent, on the market that was asked for; an exception
    -- with one, or with none.
    abbrev pub Placed : OrderRequest → BinanceState → Result OrderResult × BinanceState → Type 0
    Placed request s (ok result, t) =
        ((m : Market) × (market_or v.market request.market ≡ ok m)
          × OneOrder m (params_of request) s t)
        × Answers request result
    Placed request s (err e, t) =
        SameOrders s t ⊎ ((m : Market) × OneOrder m (params_of request) s t)

    settle-Answers :
        (request : OrderRequest) (response : Json) (result : OrderResult)
        → settle v request response ≡ ok result
        → Answers request result
    settle-Answers request response result h = by_fill (parse_fill v response) h
      where
        by_id :
            (p filled fee : ℚ) (id : Result (Option Json))
            → of_ℕ 0 <ℚ filled
            → F.◌>>=◌ id
                (λ x. ok (result_of v request p filled fee (v.reader.show (or_json (text "") x))))
              ≡ ok result
            → Answers request result
        by_id p filled fee (err e) pos k = cc
        by_id p filled fee (ok x) pos k =
            subst (Answers request) (ok-injective _ _ k) (refl, refl, pos)

        by_fill :
            (fill : Result (ℚ × ℚ × ℚ))
            → F.◌>>=◌ fill (λ (p, filled, fee).
              if le? filled (of_ℕ 0)
              then err venue_error
              else F.◌>>=◌ (get "orderId" response) λ id.
                ok (result_of v request p filled fee (v.reader.show (or_json (text "") id))))
              ≡ ok result
            → Answers request result
        by_fill (err e) k = cc
        by_fill (ok (p, filled, fee)) k = elim (Bool-cases (le? filled (of_ℕ 0))) [
          | inl e ↦ let n = rw e at k in cc
          | inr e ↦ by_id p filled fee (get "orderId" response) e (rw e at k)
        ]

    settle-Placed :
        (request : OrderRequest) (m : Market) (s : BinanceState) (out : Result Json × BinanceState)
        → market_or v.market request.market ≡ ok m
        → Sends m (params_of request) s out
        → Placed request s (continue (λ response t. (settle v request response, t)) out)
    settle-Placed request m s (err e, t) on (inl h) = inl h
    settle-Placed request m s (err e, t) on (inr h) = inr (m, h)
    settle-Placed request m s (ok response, t) on h =
        by_result (settle v request response) (settle-Answers request response)
      where
        by_result :
            (r : Result OrderResult)
            → ((result : OrderResult) → r ≡ ok result → Answers request result)
            → Placed request s (r, t)
        by_result (ok result) k = ((m, on, h), k result refl)
        by_result (err e) k = inr (m, h)

    on_market :
        (request : OrderRequest) (client : OrderClient) (s : BinanceState) (m : Result Market)
        → market_or v.market request.market ≡ m
        → Placed request s (
            continue
              (λ market.
                ◌>>=◌
                  (submit v client market (params_of request))
                  (λ response t. (settle v request response, t)))
              (m, s))
    on_market request client s (err e) on = inl refl
    on_market request client s (ok m) on =
        settle-Placed request m s (submit v client m (params_of request) s) on
          (submit-Sends client m (params_of request) s)

    by_type :
        (request : OrderRequest) (client : OrderClient) (kind : OrderType) (s : BinanceState)
        → Placed request s (
            continue
              (λ u.
                ◌>>=◌
                  (λ t. (market_or v.market request.market, t))
                  (λ market.
                    ◌>>=◌
                      (submit v client market (params_of request))
                      (λ response t. (settle v request response, t))))
              (market_only kind, s))
    by_type request client limit_order s = inl refl
    by_type request client market_order s =
        on_market request client s (market_or v.market request.market) refl

    by_client :
        (request : OrderRequest) (client : Option OrderClient) (s : BinanceState)
        → Placed request s (place_by v request client s)
    by_client request none s = inl refl
    by_client request (some client) s = by_type request client request.order_type s

    market_by :
        (request : OrderRequest) (client : Option OrderClient) (kind : OrderType) (s : BinanceState)
        (result : OrderResult)
        → request.order_type ≡ kind
        → (place_by v request client s).0 ≡ ok result
        → kind ≡ market_order
    market_by request client market_order s result at h = refl
    market_by request none limit_order s result at h = cc
    market_by request (some client) limit_order s result at h = let k = rw at at h in cc

    -- Only a market order has a result.
    pub place_order-market :
        (request : OrderRequest) (s : BinanceState) (result : OrderResult)
        → (place_order v request s).0 ≡ ok result
        → request.order_type ≡ market_order
    unfolding place_order
    place_order-market request s result h =
        market_by request v.order_client request.order_type s result refl h

    -- An order is sent at most once: whatever the exchange answers, `place_order` either returns a
    -- result of a positive quantity, for the symbol and the side that were asked for, after sending
    -- exactly the one order; or it raises, after sending that order or none.
    pub place_order-Placed :
        (request : OrderRequest) (s : BinanceState) → Placed request s (place_order v request s)
    unfolding place_order
    place_order-Placed request s = by_client request v.order_client s

  -- Without an order client nothing is sent, and every order is refused.
  pub place_order_read_only :
      ⦃c : Context⦄ (request : OrderRequest) (s : BinanceState)
      → v.order_client ≡ none
      → place_order v request s ≡ (err venue_error, s)
  unfolding place_order
  place_order_read_only request s h = rw h refl
