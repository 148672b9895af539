-- ===== src/Engine/Ledger.antt =====
-- The position of an engine of src/trading_engine.cpp as the ledger of the fills that it reports.
use orderbook_c.Base.{List, Option, [], ap, none, refl, some, sym, ℕ, ◌++◌, ◌∙◌, ◌∷◌, ◌≡◌}
use orderbook_c.Engine.Fills.{Filled, entered}
use orderbook_c.Engine.State.{Fill, Position, TradingEngine}
use orderbook_c.Strategy.{MarketSnapshot, StrategyAction}

-- The fills entered in their order.
unfoldable pub ledger : Position → List Fill → Position
ledger p [] = p
ledger p (f ∷ fs) = ledger (entered p f) fs

abbrev pub fills_of : Option Fill → List Fill
fills_of none = []
fills_of (some f) = f ∷ []

pub ledger-append :
    (p : Position) (fs gs : List Fill) → ledger p (fs ++ gs) ≡ ledger (ledger p fs) gs
unfolding ledger
ledger-append p [] gs = refl
ledger-append p (f ∷ fs) gs = ledger-append (entered p f) fs gs

pub Filled-ledger :
    (now : ℕ) (a : StrategyAction) (s : MarketSnapshot) (e : TradingEngine)
    (r : TradingEngine × Option Fill)
    → Filled now a s e r
    → r.0.position ≡ ledger e.position (fills_of r.1)
unfolding ledger
Filled-ledger now a s e r x = x.booked ∙ sym (ap (λ f. ledger e.position (fills_of f)) x.reported)
