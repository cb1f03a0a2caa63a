-- ===== src/Settings/Store.antt =====
-- engine/appsettings/store.py: what is written is read back, and nothing else is touched.
use capital.Prelude.{
  String, ◌==◌, ◌≡◌, ◌⊎◌, inl, inr, arith, Option-cases, refl, subst, ap, ◌∙◌, sym, Bool, false,
  Bool-cases, Option, none, some, List, [], ◌∷◌, ◌++◌, find, eq_iff, eq_refl, if◌then◌else◌,
}
use capital.Models.{Setting}
use capital.Effects.{ok}
use capital.Settings.{
  TradingMode, sim, testnet, live, has_key, get_row, put_row, replace_row, get_setting, set_setting,
  value_of, get_mode, set_mode, mode_value, normalise_mode, get_strategy_action_mode,
  set_strategy_action_mode, get_ai_action_mode, action_mode_key, mode_of, parse_mode, or_text,
  get_active_venue,
}

find-replace_self :
    (new old : Setting) (rows : List Setting)
    → find (has_key new.key) rows ≡ some old
    → find (has_key new.key) (replace_row new rows) ≡ some new
unfolding replace_row
find-replace_self new old [] h = cc
find-replace_self new old (s ∷ ss) h = ground (arith, eq_refl new.key, find-replace_self new old ss)

find-replace_other :
    (key : String) (new : Setting) (rows : List Setting)
    → (new.key == key) ≡ false
    → find (has_key key) (replace_row new rows) ≡ find (has_key key) rows
unfolding replace_row
find-replace_other key new [] h = refl
find-replace_other key new (s ∷ ss) h =
    ground (arith, eq_iff s.key new.key, find-replace_other key new ss h)

find-append_self :
    (new : Setting) (rows : List Setting)
    → find (has_key new.key) rows ≡ none
    → find (has_key new.key) (rows ++ new ∷ []) ≡ some new
find-append_self new [] h = rw (eq_refl new.key) refl
find-append_self new (s ∷ ss) h = ground (arith, find-append_self new ss)

find-append_other :
    (key : String) (new : Setting) (rows : List Setting)
    → (new.key == key) ≡ false
    → find (has_key key) (rows ++ new ∷ []) ≡ find (has_key key) rows
find-append_other key new [] h = rw h refl
find-append_other key new (s ∷ ss) h = ground (arith, find-append_other key new ss h)

-- A row that was put is the row that its key finds, and every other key finds what it found before.
pub get_row-put_row :
    (key stored : String) (is_secret : Bool) (rows : List Setting)
    → (get_row key (put_row key stored is_secret rows)
        ≡ some (record { key = key; value = stored; is_secret = is_secret }))
      × ((other : String)
          → (key == other) ≡ false
          → get_row other (put_row key stored is_secret rows) ≡ get_row other rows)
unfolding get_row put_row
get_row-put_row key stored is_secret rows =
    let new : Setting = record { key = key; value = stored; is_secret = is_secret } in
    elim (Option-cases (find (has_key key) rows)) [
      | inl e ↦ rw e (find-append_self new rows e, λ other h. find-append_other other new rows h)
      | inr (old, e) ↦
          rw e (find-replace_self new old rows e, λ other h. find-replace_other other new rows h)
    ]

-- A plain setting reads back as it was set, and no other setting changes its value.
pub get_setting-set_setting :
    (key value : String) (rows : List Setting)
    → (get_setting key (set_setting key value rows) ≡ some value)
      × ((other : String)
          → (key == other) ≡ false
          → get_setting other (set_setting key value rows) ≡ get_setting other rows)
unfolding get_setting set_setting
get_setting-set_setting key value rows =
    let put = get_row-put_row key value false rows in
    (ap value_of put.0, λ other h. ap value_of (put.1 other h))

-- The trading mode reads back as it was set, and setting it leaves the active venue alone.
pub get_mode-set_mode :
    (mode : TradingMode) (rows : List Setting)
    → (get_mode (set_mode mode rows) ≡ ok mode)
      × (get_active_venue (set_mode mode rows) ≡ get_active_venue rows)
unfolding get_mode set_mode get_active_venue get_setting
get_mode-set_mode mode rows =
    let put = get_row-put_row "trading_mode" (mode_value mode) false rows in
    (
      ap mode_of put.0 ∙ parsed mode,
      ap (λ row. or_text (value_of row) "binance") (put.1 "active_venue" refl),
    )
  where
    parsed : (m : TradingMode) → parse_mode (mode_value m) ≡ ok m
    parsed sim = refl
    parsed testnet = refl
    parsed live = refl

normalise_mode-cases :
    (v : Option String) (default : String)
    → (default ≡ "notify") ⊎ (default ≡ "auto")
    → (normalise_mode v default ≡ "notify") ⊎ (normalise_mode v default ≡ "auto")
normalise_mode-cases none default h = h
normalise_mode-cases (some v) default h = elim (Bool-cases (v == "notify")) [
  | inl e ↦ rw e (inl ((eq_iff v "notify").0 e))
  | inr e ↦ elim (Bool-cases (v == "auto")) [
    | inl f ↦ rw e (rw f (inr ((eq_iff v "auto").0 f)))
    | inr f ↦ rw e (rw f h)
  ]
]

abbrev Settled : String → String → Type 0
Settled d mode =
    normalise_mode (some (normalise_mode (some mode) "notify")) d
    ≡ (if mode == "auto" then "auto" else "notify")

normalise_mode_twice : (mode d : String) → Settled d mode
normalise_mode_twice mode d = elim (Bool-cases (mode == "auto")) [
  | inl e ↦ subst (Settled d) (sym ((eq_iff mode "auto").0 e)) refl
  | inr e ↦ elim (Bool-cases (mode == "notify")) [
    | inl f ↦ subst (Settled d) (sym ((eq_iff mode "notify").0 f)) refl
    | inr f ↦ rw e (rw f refl)
  ]
]

-- Whatever the settings hold, the action mode of a strategy is "notify" or "auto"; and what was set
-- for the strategy is the mode that is read, with any text but "auto" read as "notify".
pub action_mode-cases :
    (strategy mode : String) (rows : List Setting)
    → ((get_strategy_action_mode strategy rows ≡ "notify")
        ⊎ (get_strategy_action_mode strategy rows ≡ "auto"))
      × (get_strategy_action_mode strategy (set_strategy_action_mode strategy mode rows)
          ≡ (if mode == "auto" then "auto" else "notify"))
unfolding get_strategy_action_mode set_strategy_action_mode get_ai_action_mode
action_mode-cases strategy mode rows = (
  normalise_mode-cases (get_setting (action_mode_key strategy) rows) (get_ai_action_mode rows)
      (normalise_mode-cases (get_setting "ai_action_mode" rows) "notify" (inl refl)),
  ap (λ v. normalise_mode v (get_ai_action_mode (set_strategy_action_mode strategy mode rows)))
        (get_setting-set_setting (action_mode_key strategy) (normalise_mode (some mode) "notify")
          rows).0
      ∙ normalise_mode_twice mode _,
)
