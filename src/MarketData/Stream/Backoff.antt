-- ===== src/MarketData/Stream/Backoff.antt =====
-- engine/marketdata/stream.py: the pauses stay within bounds, and a stream heals until it is stopped.
use capital.Prelude.{
  suc, String, ◌≡◌, ◌≢◌, refl, ap, Bool, true, false, Bool-cases, inl, inr, if◌then◌else◌,
}
use capital.Rational.{ℚ, of_ℕ, le?, ◌*ℚ◌}
use capital.Rational.Order.{◌≤ℚ◌, ≤ℚ_trans, *ℚ_mono}
use capital.Effects.{Result, ok, err}
use capital.Json.{Json, Reader}
use capital.MarketData.Stream.{
  Snapshot, Phase, connecting, consuming, sleeping, finished, Stream, Step, connect, refuse,
  message, drop, sleep, stop, Run, here, then_step, after_message, handle, doubled, started,
  connected, dropped, slept, initial_backoff, max_backoff,
}

-- A pause is between one second and a minute.
abbrev pub InBounds : ℚ → Type 0
InBounds q = (initial_backoff ≤ℚ q) × (q ≤ℚ max_backoff)

initial-InBounds : InBounds initial_backoff
unfolding le?
initial-InBounds = (refl, refl)

doubled-InBounds : (q : ℚ) → InBounds q → InBounds (doubled q)
unfolding le? ◌*ℚ◌
doubled-InBounds q (low, high) = elim (Bool-cases (le? (q *ℚ of_ℕ 2) max_backoff)) [
  | inl e ↦ rw e (
    ≤ℚ_trans initial_backoff (initial_backoff *ℚ of_ℕ 2) (q *ℚ of_ℕ 2) refl
        (*ℚ_mono initial_backoff q (of_ℕ 2) refl low),
    e,
  )
  | inr e ↦ rw e (refl, refl)
]

-- The pause is within bounds, and a stream that was not stopped has not ended.
record IsHealthy (s : Stream) : Type 0 where
  bounds : InBounds s.backoff
  alive : s.running ≡ true → s.phase ≢ finished

alive-if : (b : Bool) (p : Phase) → p ≢ finished → b ≡ true → (if b then p else finished) ≢ finished
alive-if true p h e = h
alive-if false p h e = cc

module _ (reader : Reader) (loads : String → Result Json) where
  message-IsHealthy :
      (s : Stream) (out : Result (Unit {0}) × Snapshot)
      → IsHealthy s
      → IsHealthy (after_message s out)
  message-IsHealthy s (ok a, h) k = record {
    bounds = k.bounds;
    alive = alive-if s.running consuming (λ e. cc);
  }
  message-IsHealthy s (err e, h) k = record {
    bounds = k.bounds;
    alive = alive-if s.running sleeping (λ e. cc);
  }

  step-IsHealthy : (s t : Stream) → IsHealthy s → Step reader loads s t → IsHealthy t
  step-IsHealthy s _ k (connect at) = record { bounds = initial-InBounds; alive = λ on e. cc }
  step-IsHealthy s _ k (refuse at) = record {
    bounds = k.bounds;
    alive = alive-if s.running sleeping (λ e. cc);
  }
  step-IsHealthy s _ k (message raw at) = message-IsHealthy s (handle reader loads raw s.snapshot) k
  step-IsHealthy s _ k (drop at) = record {
    bounds = k.bounds;
    alive = alive-if s.running sleeping (λ e. cc);
  }
  step-IsHealthy s _ k (sleep at) = record {
    bounds = doubled-InBounds s.backoff k.bounds;
    alive = alive-if s.running connecting (λ e. cc);
  }
  step-IsHealthy s _ k stop = record { bounds = k.bounds; alive = λ on. cc }

  run-IsHealthy : (s t : Stream) → IsHealthy s → Run reader loads s t → IsHealthy t
  run-IsHealthy s t k here = k
  run-IsHealthy s _ k (then_step t u run step) = step-IsHealthy t u (run-IsHealthy s t k run) step

  -- The stream can be connected once more.
  abbrev pub Reconnects : Stream → Type 0
  Reconnects s =
      (t : Stream) × Run reader loads s t
      × (t.phase ≡ consuming)
      × (t.connects ≡ suc s.connects)
      × (t.backoff ≡ initial_backoff)

  sleeping-Reconnects :
      (s t : Stream)
      → s.running ≡ true
      → t.running ≡ true
      → t.phase ≡ sleeping
      → t.connects ≡ s.connects
      → Run reader loads s t
      → Reconnects s
  sleeping-Reconnects s t on still at same run = (
    connected (slept t),
    then_step (slept t) _ (then_step t _ run (sleep at)) (connect (rw still refl)),
    refl,
    ap suc same,
    refl,
  )

  phase-Reconnects :
      (s : Stream) (p : Phase) → s.phase ≡ p → s.running ≡ true → s.phase ≢ finished → Reconnects s
  phase-Reconnects s connecting at on alive =
      (connected s, then_step s _ here (connect at), refl, refl, refl)
  phase-Reconnects s sleeping at on alive = sleeping-Reconnects s s on on at refl here
  phase-Reconnects s consuming at on alive =
      sleeping-Reconnects s (dropped s) on on (rw on refl) refl (then_step s _ here (drop at))
  phase-Reconnects s finished at on alive = absurd (alive at)

  -- Whatever the network and the messages do, the pause before the next attempt is between one
  -- second and a minute; and as long as `stop` was not called, `run` has not ended and can connect
  -- once more, which resets the pause to one second.
  pub run-started :
      (hub : Snapshot) (s : Stream)
      → Run reader loads (started hub) s
      → InBounds s.backoff × (s.running ≡ true → Reconnects s)
  run-started hub s run =
      let k =
        run-IsHealthy (started hub) s (record { bounds = initial-InBounds; alive = λ on e. cc })
          run in
      (k.bounds, λ on. phase-Reconnects s s.phase refl on (k.alive on))
