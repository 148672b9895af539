-- ===== src/Engine/Ticks.antt =====
-- One round of the engine's loop.
use mathlib.Core.Option
use orderbook_c.Base.{
  Bool, Option, ap, false, inl, inr, none, refl, some, sym, true, ℕ, ◌<◌, ◌∙◌, ◌≡◌, ◌⊎◌,
}
use orderbook_c.Base.Int.{◌≤ℤ◌}
use orderbook_c.Engine.Actions.{apply_action-cases}
use orderbook_c.Engine.Fills.{filled_position, filled_position-entered}
use orderbook_c.Engine.Ledger.{Filled-ledger, fills_of, ledger}
use orderbook_c.Engine.Loop.{observe, react_to, snapshot_of, tick}
use orderbook_c.Engine.Refresh.{Between, Shown}
use orderbook_c.Engine.Shown.{refresh_quotes-Shown}
use orderbook_c.Engine.State.{Fill, TradingEngine, equity_at}
use orderbook_c.Engine.Taking.{apply_action, gated, quote_qty}
use orderbook_c.Feed.{MarketEvent, MarketEventKind, book_ticker, error}
use orderbook_c.Risk.{RiskConfig, RiskManager, abs_ℤ, observe_equity}
use orderbook_c.Risk.Halt.{observe_equity-halted}
use orderbook_c.Strategy.{MarketSnapshot, StrategyAction, mid}
use orderbook_c.Types.{u64_mod}

abbrev pub config_of : Option RiskManager → Option RiskConfig
config_of none = none
config_of (some r) = some r.cfg

abbrev pub IsEvent : MarketEvent → Type 0
IsEvent ev = (ev.bid_qty < u64_mod) × (ev.ask_qty < u64_mod)

abbrev pub is_halted : Option RiskManager → Bool
is_halted none = false
is_halted (some r) = r.halted

-- A position is within a limit.
abbrev pub Within : RiskConfig → TradingEngine → Type 0
Within cfg e = abs_ℤ e.position.btc_qty ≤ℤ cfg.max_position_qty

-- What a tick makes of an engine: it is again between ticks with the same limits, the position has the
-- fill that is reported, and a fill comes from an action of the strategy that the gate has passed.
pub record Ticked (e : TradingEngine) (proposed : Option StrategyAction) (e' : TradingEngine)
    (f : Option Fill) : Type 0 where
  pub between : Between e'
  pub same_config : config_of e'.risk ≡ config_of e.risk
  pub still_halted : is_halted e.risk ≡ true → is_halted e'.risk ≡ true
  pub accounted : e'.position ≡ ledger e.position (fills_of f)
  pub moved :
      (e'.position ≡ e.position)
      ⊎ ((now : ℕ) × (s : MarketSnapshot) × (a : StrategyAction) × (a' : StrategyAction)
          × (e1 : TradingEngine) × (proposed ≡ some a)
          × (e1.position ≡ e.position)
          × (config_of e1.risk ≡ config_of e.risk)
          × (is_halted e.risk ≡ true → is_halted e1.risk ≡ true)
          × (gated e1 a ≡ some a')
          × (0 < a'.qty)
          × (0 < quote_qty a'.side e1)
          × (e'.position ≡ filled_position now a' s e1))

observe-config :
    (s : MarketSnapshot) (e : TradingEngine) → config_of (observe s e).risk ≡ config_of e.risk
unfolding observe observe_equity
observe-config s e = config_of-map s e e.risk
  where
    config_of-map :
        (s : MarketSnapshot) (e : TradingEngine) (r : Option RiskManager)
        → config_of (Option.map (λ r. observe_equity r (equity_at e (mid s))) r) ≡ config_of r
    config_of-map s e none = refl
    config_of-map s e (some r) = refl

observe-halted :
    (s : MarketSnapshot) (e : TradingEngine)
    → is_halted e.risk ≡ true
    → is_halted (observe s e).risk ≡ true
unfolding observe
observe-halted s e h = by_risk e.risk h
  where
    by_risk :
        (r : Option RiskManager)
        → is_halted r ≡ true
        → is_halted (Option.map (λ r. observe_equity r (equity_at e (mid s))) r) ≡ true
    by_risk none h = h
    by_risk (some r) h = observe_equity-halted r (equity_at e (mid s)) h

observe-Between : (s : MarketSnapshot) (e : TradingEngine) → Between e → Between (observe s e)
unfolding observe
observe-Between s e x = record {
  free = x.free;
  clock = x.clock;
  bid = x.bid;
  ask = x.ask;
  book_is = x.book_is;
  bid_live = x.bid_live;
  ask_live = x.ask_live;
  room = x.room;
}

observe-position : (s : MarketSnapshot) (e : TradingEngine) → (observe s e).position ≡ e.position
unfolding observe
observe-position s e = refl

module _ {S : Type 0} (on_tick : S → MarketSnapshot → Option StrategyAction × S) where
  react_to-Ticked :
      (e e1 : TradingEngine) (now : ℕ) (s : MarketSnapshot) (act : Option StrategyAction) (st : S)
      → Shown e1
      → e1.position ≡ e.position
      → config_of e1.risk ≡ config_of e.risk
      → (is_halted e.risk ≡ true → is_halted e1.risk ≡ true)
      → let r = (react_to on_tick now s e1 (act, st)).0 in Ticked e act r.0 r.1
  unfolding ledger
  react_to-Ticked e e1 now s none st x p c t = record {
    between = x.between;
    same_config = c;
    still_halted = t;
    accounted = p;
    moved = inl p;
  }
  react_to-Ticked e e1 now s (some a) st x p c t = elim (apply_action-cases now a s e1 x) [
    | inl i ↦ record {
      between = i.between;
      same_config = ap config_of i.same_risk ∙ c;
      still_halted = λ h. ap is_halted i.same_risk ∙ t h;
      accounted = (i.same_position ∙ p) ∙ sym (ap (λ f. ledger e.position (fills_of f)) i.silent);
      moved = inl (i.same_position ∙ p);
    }
    | inr (a', g, z, k, f) ↦ record {
      between = f.between;
      same_config = ap config_of f.same_risk ∙ c;
      still_halted = λ h. ap is_halted f.same_risk ∙ t h;
      accounted =
          Filled-ledger now a' s e1 (apply_action now a s e1) f
          ∙ ap (λ q. ledger q (fills_of (apply_action now a s e1).1)) p;
      moved = inr (
        now,
        s,
        a,
        a',
        e1,
        refl,
        p,
        c,
        t,
        g,
        z,
        k,
        f.booked ∙ sym (filled_position-entered now a' s e1),
      );
    }
  ]

  -- A tick on an engine between ticks has a result, again one between ticks.
  pub tick-Ticked :
      (e : TradingEngine) (st : S) (ev : MarketEvent) (now : ℕ)
      → IsEvent ev
      → Between e
      → (e' : TradingEngine) × (f : Option Fill) × (st' : S) × (tick on_tick e st (ev, now)
          ≡ some ((e', f), st'))
        × Ticked e (on_tick st (snapshot_of ev)).0 e' f
  unfolding tick ledger
  tick-Ticked e st ev now h x = by_kind ev.kind refl
    where
      Result : Type 0
      Result =
          (e' : TradingEngine) × (f : Option Fill) × (st' : S) × (tick on_tick e st (ev, now)
            ≡ some ((e', f), st'))
          × Ticked e (on_tick st (snapshot_of ev)).0 e' f

      by_kind : (k : MarketEventKind) → ev.kind ≡ k → Result
      by_kind error is = (
        e,
        none,
        st,
        rw (is, tick) refl,
        record {
          between = x;
          same_config = refl;
          still_halted = λ h. h;
          accounted = refl;
          moved = inl refl;
        },
      )
      by_kind book_ticker is =
          let s = snapshot_of ev in
          let (e1, r, shown, (same_risk, same_position), follows) =
            refresh_quotes-Shown (observe s e) s h (observe-Between s e x) in
          let p = same_position ∙ observe-position s e in
          let c = ap config_of same_risk ∙ observe-config s e in
          let y = react_to on_tick now s e1 (on_tick st s) in
          (
            y.0.0,
            y.0.1,
            y.1,
            rw (is, r, tick) refl,
            react_to-Ticked e e1 now s (on_tick st s).0 (on_tick st s).1 shown p c
                (λ h. ap is_halted same_risk ∙ observe-halted s e h),
          )
