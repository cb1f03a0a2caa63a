-- ===== src/MarketData/Freshness.antt =====
-- engine/marketdata/freshness.py. Texts are lists of ASCII codes here; an age is in microseconds.
use Prim.Native.Char.{code}
use Prim.Native.String.{String}
use capital.Prelude.{
  ℕ, ◌+◌, ◌-◌, ◌*◌, Bool, ◌&&◌, ◌||◌, Option, none, some, List, [], ◌∷◌, reverse, leb, ltb, eqb,
  if◌then◌else◌,
}
use capital.Models.{Candle, Time}
use capital.Effects.{Result, ok, err, value_error}
use capital.Effects.Fallible.{◌>>=◌}

abbrev pub codes : String → List ℕ
codes String.[] = []
codes (String.◌∷◌ c s) = code c ∷ codes s

-- The ASCII characters that `str.strip` removes.
abbrev pub is_space : ℕ → Bool
is_space c = eqb c 32 || ((leb 9 c && leb c 13) || (leb 28 c && leb c 31))

abbrev pub skip_spaces : List ℕ → List ℕ
skip_spaces [] = []
skip_spaces (c ∷ cs) = if is_space c then skip_spaces cs else c ∷ cs

abbrev pub is_digit : ℕ → Bool
is_digit c = leb b'0' c && leb c b'9'

-- `int(...)` of digits, given most significant first.
abbrev pub digits_from : ℕ → List ℕ → Option ℕ
digits_from n [] = some n
digits_from n (c ∷ cs) = if is_digit c then digits_from (n * 10 + (c - b'0')) cs else none

-- The count of `interval[:-1]`, which must be one digit or more.
abbrev pub count_of : List ℕ → Option ℕ
count_of [] = none
count_of (c ∷ cs) = digits_from 0 (c ∷ cs)

abbrev pub unit_seconds : ℕ → Option ℕ
unit_seconds u =
    if eqb u b'M'
    then some 2_592_000
    else (if eqb u b'm'
        then some 60
        else (if eqb u b'h'
            then some 3600
            else (if eqb u b'd' then some 86_400 else (if eqb u b'w' then some 604_800 else none))))

abbrev pub times : Option ℕ → Option ℕ → Result ℕ
times (some n) (some u) = ok (n * u)
times _ _ = err value_error

-- The interval's unit first, then its digits from the last to the first.
abbrev pub seconds_of : List ℕ → Result ℕ
seconds_of [] = err value_error
seconds_of (u ∷ count) = times (count_of (reverse count)) (unit_seconds u)

unfoldable pub interval_seconds : List ℕ → Result ℕ
interval_seconds interval = seconds_of (skip_spaces (reverse (skip_spaces interval)))

-- Stale when the newest candle opened more than two intervals ago.
unfoldable pub feed_is_stale : Candle → List ℕ → Time → Result Bool
unfolding interval_seconds
feed_is_stale latest interval now = do
  seconds ← interval_seconds interval
  ok (ltb (latest.open_time + 2 * seconds * 1_000_000) now)
