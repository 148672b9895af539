-- ===== src/Strategy/Tests.antt =====
-- A window of two prices over three snapshots.
use orderbook_c.Base.{List, [], false, refl, ℕ, ◌∷◌, ◌≡◌}
use orderbook_c.Base.Int.{ltb_ℤ, pos, ◌+ℤ◌, ◌-ℤ◌, ◌/ℤ◌}
use orderbook_c.Strategy.{MarketSnapshot, ReversionConfig, mid, new_reversion, on_tick, slide}
use orderbook_c.Strategy.Window.{Tracks, mids, watch, watch-Tracks}

abbrev at_price : ℕ → MarketSnapshot
at_price n = record {
  best_bid = pos n;
  best_ask = pos n;
  bid_qty = 1;
  ask_qty = 1;
  last_trade = pos n;
  event_ts = 0;
}

abbrev two_prices : ReversionConfig
two_prices = record {
  window = 2;
  is_low = λ sum n px. ltb_ℤ px (pos 10);
  is_high = λ sum n px. false;
  trade_qty = 5;
  cool_down = 0;
}

abbrev ticks : List MarketSnapshot
ticks = at_price 12 ∷ at_price 0 ∷ at_price 11 ∷ at_price 9 ∷ []

watch-Tracks_example : Tracks two_prices (watch two_prices new_reversion ticks) (mids ticks)
watch-Tracks_example = watch-Tracks two_prices ticks

window_of_ticks : (watch two_prices new_reversion ticks).prices ≡ pos 11 ∷ pos 9 ∷ []
unfolding watch on_tick slide mid ◌+ℤ◌ ◌-ℤ◌ ◌/ℤ◌
window_of_ticks = refl
