-- ===== src/Api/Strategies/Switch.antt =====
-- engine/api/strategies.py: a strategy that an operator switches off trades no more.
use capital.Prelude.{
  String, ◌==◌, eq_iff, ◌≡◌, refl, sym, ap, ◌∙◌, false, Bool-cases, inl, inr, some, List, [], ◌∷◌,
  ◌++◌,
}
use capital.Rational.{of_ℕ}
use capital.Context.{Context}
use capital.Models.{Time}
use capital.Effects.{ok}
use capital.Lifecycle.{is_enabled, set_enabled}
use capital.Lifecycle.Safety.{is_enabled-set_enabled}
use capital.Engine.{Runner, plain, advised}
use capital.Engine.Tick.{address_of, tick_strategy}
use capital.Engine.Frozen.{Unmoved, disabled-Unmoved}
use capital.Json.{bool}
use capital.Auth.{User, Library, audit_entry}
use capital.Api.{Console}
use capital.Api.Strategies.{Page, name_of, find_strategy, from_to, update_enabled}

address-name_of : (s : Runner) → (address_of s).name ≡ name_of s
address-name_of (plain s) = refl
address-name_of (advised s) = refl

name-find_strategy :
    (name : String) (ss : List Runner) (s : Runner)
    → find_strategy name ss ≡ ok s
    → name_of s ≡ name
name-find_strategy name [] s h = cc
name-find_strategy name (x ∷ ss) s h = elim (Bool-cases (name_of x == name)) [
  | inl e ↦
      let k = rw e at h in
      let same : x ≡ s = cc in ap name_of (sym same) ∙ (eq_iff (name_of x) name).0 e
  | inr e ↦ name-find_strategy name ss s (rw e at h)
]

-- Once an operator has switched a strategy off, its next tick, at whatever time, makes no trade,
-- writes no allocation, records no model call and no signal, and sends nothing; the other
-- strategies stay as they were, and the trail has the entry of the switch. Provided that the
-- strategy is registered and that the stop-loss and the take-profit are off.
pub update_enabled-Unmoved :
    ⦃c : Context⦄ (lib : Library) (page : Page) (name : String) (s : Runner) (user : User)
    (now : Time) (t : Console)
    → find_strategy name page.engine.strategies ≡ ok s
    → page.engine.risk.stop_loss_pct ≡ of_ℕ 0
    → page.engine.risk.take_profit_pct ≡ of_ℕ 0
    → let t' = (update_enabled lib page name false user t).1 in
      Unmoved t'.world (tick_strategy page.engine s now t'.world).1
      × ((other : String)
          → (name == other) ≡ false
          → is_enabled other t'.world.db ≡ is_enabled other t.world.db)
      × (t'.accounts.audit
          ≡ t.accounts.audit
            ++ audit_entry lib user.username "strategy.enabled"
                (some name)
                (some (from_to lib page (bool (is_enabled name t.world.db)) (bool false)))
              ∷ [])
unfolding update_enabled set_enabled
update_enabled-Unmoved lib page name s user now t found sl tp =
    let (off, kept, others) = is_enabled-set_enabled name false t.world.db in
    let named : (address_of s).name ≡ name =
      address-name_of s ∙ name-find_strategy name page.engine.strategies s found in
    rw found (
      disabled-Unmoved page.engine s now _
          (ap (λ n. is_enabled n (set_enabled name false t.world.db).1) named ∙ off) sl tp,
      λ other differs. (others other differs).0,
      refl,
    )
