-- ===== src/Executors/Sim/Log.antt =====
-- engine/trading/executors/sim.py: paper orders and the trade log.
use capital.Prelude.{refl, subst, ◌∙◌, none}
use capital.Rational.{ℚ, of_ℕ, le?}
use capital.Rational.Order.{lt?}
use capital.Context.{Context, ◌⊗◌}
use capital.Models.{Order, Fill, Database, Time}
use capital.Effects.{execution_error}
use capital.Effects.Stateful.{Action, ◌>>=◌, ◌>>◌, raise_if, lift}
use capital.Portfolio.Fills.{record_fill}
use capital.Portfolio.Fills.Log.{Logged, continue-Logged, raise_if-trades, record_fill-Logged}
use capital.Executors.{round_quantity, round_price}
use capital.Executors.Sim.{SimExecutor, execute, filters_for, raw_price}

-- A paper order either returns a fill, and exactly the row of that fill is appended to the trade
-- log; or it raises, because of the size filters, the notional filter or the arithmetic, and the
-- log is as it was.
pub execute-Logged :
    ⦃c : Context⦄ (sim : SimExecutor) (order : Order) (ref : ℚ) (now : Time) (db : Database)
    → Logged db.trades (execute sim order ref now db)
unfolding execute
execute-Logged sim order ref now db =
    let filt = filters_for sim order.symbol in
    let book : ℚ → ℚ → Action Database Fill = λ qty price.
      raise_if (lt? (qty ⊗ price) filt.min_notional) execution_error
      >> record_fill "sim" order qty price (qty ⊗ price ⊗ sim.fee_rate) none now in
    let priced : ℚ → Action Database Fill =
      λ qty. lift (round_price filt (raw_price sim order.side ref)) >>= book qty in
    continue-Logged db.trades (λ qty. raise_if (le? qty (of_ℕ 0)) execution_error >> priced qty)
      (round_quantity filt order.quantity, db) refl
      λ qty w k.
        continue-Logged db.trades (λ u. priced qty) (raise_if (le? qty (of_ℕ 0)) execution_error w)
          (raise_if-trades (le? qty (of_ℕ 0)) execution_error w ∙ k)
          λ u v j.
            continue-Logged db.trades (book qty)
              (round_price filt (raw_price sim order.side ref), v) j
              λ price x i.
                continue-Logged db.trades
                  (λ u'. record_fill "sim" order qty price (qty ⊗ price ⊗ sim.fee_rate) none now)
                  (raise_if (lt? (qty ⊗ price) filt.min_notional) execution_error x)
                  (raise_if-trades (lt? (qty ⊗ price) filt.min_notional) execution_error x ∙ i)
                  λ u' y h.
                    subst
                      (λ log.
                        Logged log (
                          record_fill "sim" order qty price (qty ⊗ price ⊗ sim.fee_rate) none now
                            y))
                      h
                      (record_fill-Logged "sim" order qty price (qty ⊗ price ⊗ sim.fee_rate) none
                        now y)
