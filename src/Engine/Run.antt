-- ===== src/Engine/Run.antt =====
-- Whole runs of the engine: no dangling pointer, a book of two quotes at most, and a position within
-- the limit.
use orderbook_c.Base.{
  All, List, Option, [], arith, inl, inr, length, none, refl, some, subst, suc, sym, true, zero, ℕ,
  ◌<◌, ◌∙◌, ◌∷◌, ◌≡◌, ◌≤◌,
}
use orderbook_c.Base.Int.{pos, ◌<ℤ◌, ◌≤ℤ◌}
use orderbook_c.Engine.Limit.{filled-within, halted-position}
use orderbook_c.Engine.Loop.{Tick, run_engine, snapshot_of, tick}
use orderbook_c.Engine.Quotes.{Quote, entries}
use orderbook_c.Engine.Refresh.{Between}
use orderbook_c.Engine.State.{Fill, TradingEngine, new_engine}
use orderbook_c.Engine.Ticks.{IsEvent, Within, config_of, is_halted, tick-Ticked}
use orderbook_c.Feed.{MarketEvent}
use orderbook_c.OrderBook.State.{new_book, resting_orders, slots_from}
use orderbook_c.Risk.{RiskConfig, abs_ℤ}
use orderbook_c.Strategy.{MarketSnapshot, StrategyAction, on_tick}
use orderbook_c.Types.{u64_mod}

module _ {S : Type 0} (on_tick : S → MarketSnapshot → Option StrategyAction × S) where
  -- A strategy's quantities fit their type.
  abbrev pub IsStrategy : Type 0
  IsStrategy =
      (st : S) (s : MarketSnapshot) (a : StrategyAction)
      → (on_tick st s).0 ≡ some a
      → a.qty < u64_mod

  -- Between two ticks, under a limit.
  record Safe (cfg : RiskConfig) (e : TradingEngine) : Type 0 where
    pub between : Between e
    pub limits : config_of e.risk ≡ some cfg
    pub within : Within cfg e

  tick-Safe :
      (cfg : RiskConfig) (e : TradingEngine) (st : S) (ev : MarketEvent) (now : ℕ)
      → IsStrategy
      → IsEvent ev
      → pos 0 <ℤ cfg.max_position_qty
      → Safe cfg e
      → (e' : TradingEngine) × (f : Option Fill) × (st' : S) × (tick on_tick e st (ev, now)
          ≡ some ((e', f), st'))
        × Safe cfg e'
  tick-Safe cfg e st ev now q h m x =
      let (e', f, st', is, t) = tick-Ticked on_tick e st ev now h x.between in
      (
        e',
        f,
        st',
        is,
        record {
          between = t.between;
          limits = t.same_config ∙ x.limits;
          within = elim t.moved [
            | inl same ↦ subst (λ p. abs_ℤ p.btc_qty ≤ℤ cfg.max_position_qty) (sym same) x.within
            | inr (at, s, a, a', e1, proposed, p, c, t, g, z, k, booked) ↦
                subst (λ p. abs_ℤ p.btc_qty ≤ℤ cfg.max_position_qty) (sym booked)
                  (filled-within cfg at s a a' e1 (q st (snapshot_of ev) a proposed) m
                    (c ∙ x.limits)
                    (subst (λ p. abs_ℤ p.btc_qty ≤ℤ cfg.max_position_qty) (sym p) x.within) g z k)
          ];
        },
      )

  run_engine-Safe :
      (cfg : RiskConfig) (e : TradingEngine) (st : S) (ts : List Tick)
      → IsStrategy
      → All (λ t. IsEvent t.0) ts
      → pos 0 <ℤ cfg.max_position_qty
      → Safe cfg e
      → (e' : TradingEngine) × (st' : S) × (run_engine on_tick e st ts ≡ some (e', st'))
        × Safe cfg e'
  unfolding run_engine
  run_engine-Safe cfg e st [] q h m x = (e, st, refl, x)
  run_engine-Safe cfg e st ((ev, now) ∷ ts) q (h, hs) m x =
      let (e1, f, st1, is, x1) = tick-Safe cfg e st ev now q h m x in
      let (e2, st2, is2, x2) = run_engine-Safe cfg e1 st1 ts q hs m x1 in
      (e2, st2, rw (is, run_engine) is2, x2)

  run_engine-Between :
      (e : TradingEngine) (st : S) (ts : List Tick)
      → All (λ t. IsEvent t.0) ts
      → Between e
      → (e' : TradingEngine) × (st' : S) × (run_engine on_tick e st ts ≡ some (e', st'))
        × Between e'
        × (is_halted e.risk ≡ true → e'.position ≡ e.position)
  unfolding run_engine
  run_engine-Between e st [] h x = (e, st, refl, x, λ t. refl)
  run_engine-Between e st ((ev, now) ∷ ts) (h, hs) x =
      let (e1, f, st1, is, t) = tick-Ticked on_tick e st ev now h x in
      let (e2, st2, is2, x2, y) = run_engine-Between e1 st1 ts hs t.between in
      (
        e2,
        st2,
        rw (is, run_engine) is2,
        x2,
        λ k. y (t.still_halted k) ∙ halted-position e _ e1 f t k,
      )

length-slots_from : (s n : ℕ) → length (slots_from s n) ≡ n
unfolding slots_from
length-slots_from s zero = refl
length-slots_from s (suc n) = omega (arith, length-slots_from (suc s) n)

pub new_engine-Between : (n : ℕ) (cfg : Option RiskConfig) → 3 ≤ n → Between (new_engine n cfg)
unfolding new_engine new_book
new_engine-Between n cfg h = record {
  free = slots_from 0 n;
  clock = 0;
  bid = none;
  ask = none;
  book_is = refl;
  bid_live = refl;
  ask_live = refl;
  room = omega (arith, length-slots_from 0 n);
}

-- With a position limit, no events and no strategy take the position of a new engine beyond it, and
-- no event leads to a dangling pointer. Quantities are those of their type, and the pool has at least
-- three slots.
pub run_engine-within :
    {S : Type 0} (on_tick : S → MarketSnapshot → Option StrategyAction × S) (cfg : RiskConfig)
    (n : ℕ) (st : S) (ts : List Tick)
    → IsStrategy on_tick
    → All (λ t. IsEvent t.0) ts
    → pos 0 <ℤ cfg.max_position_qty
    → 3 ≤ n
    → (e : TradingEngine) × (st' : S) × (run_engine on_tick (new_engine n (some cfg)) st ts
        ≡ some (e, st'))
      × (abs_ℤ e.position.btc_qty ≤ℤ cfg.max_position_qty)
unfolding new_engine
run_engine-within on_tick cfg n st ts q h m r =
    let start : Safe on_tick cfg (new_engine n (some cfg)) = record {
      between = new_engine-Between n (some cfg) r;
      limits = refl;
      within = ground arith;
    } in
    let (e, st', is, x) = run_engine-Safe on_tick cfg (new_engine n (some cfg)) st ts q h m start in
    (e, st', is, x.within)

length-entries : (bid ask : Option Quote) → length (entries 2 ask (entries 1 bid [])) ≤ 2
length-entries none none = omega arith
length-entries none (some a) = omega arith
length-entries (some q) none = omega arith
length-entries (some q) (some a) = omega arith

Between-resting : (e : TradingEngine) → Between e → resting_orders e.book ≤ 2
unfolding resting_orders
Between-resting e x =
    subst (λ b. length b.id_index ≤ 2) (sym x.book_is) (length-entries x.bid x.ask)

-- A run of a new engine, with any strategy and with or without limits, has a result: no cancellation
-- follows a dangling pointer, and every call of `match` ends its loop by the loop's own tests. The book then
-- holds one order for each live quote and no other, so at most two. Quantities of the events are those
-- of their type, and the pool has at least three slots. Sums and products of prices and quantities
-- beyond 64 bits, undefined in C++, are not in the model.
pub run_engine-book :
    {S : Type 0} (on_tick : S → MarketSnapshot → Option StrategyAction × S)
    (cfg : Option RiskConfig) (n : ℕ) (st : S) (ts : List Tick)
    → All (λ t. IsEvent t.0) ts
    → 3 ≤ n
    → (e : TradingEngine) × (st' : S) × (run_engine on_tick (new_engine n cfg) st ts
        ≡ some (e, st'))
      × Between e
      × (resting_orders e.book ≤ 2)
run_engine-book on_tick cfg n st ts h r =
    let (e, st', is, x, y) =
      run_engine-Between on_tick (new_engine n cfg) st ts h (new_engine-Between n cfg r) in
    (e, st', is, x, Between-resting e x)

-- Once the risk manager has halted, no events and no strategy move the position of an engine between
-- two events. Quantities of the events are those of their type.
pub run_engine-halted :
    {S : Type 0} (on_tick : S → MarketSnapshot → Option StrategyAction × S) (e : TradingEngine)
    (st : S) (ts : List Tick)
    → All (λ t. IsEvent t.0) ts
    → Between e
    → is_halted e.risk ≡ true
    → (e' : TradingEngine) × (st' : S) × (run_engine on_tick e st ts ≡ some (e', st'))
      × (e'.position ≡ e.position)
run_engine-halted on_tick e st ts h x k =
    let (e', st', is, x', y) = run_engine-Between on_tick e st ts h x in (e', st', is, y k)
