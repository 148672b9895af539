-- ===== src/Feed/Synthetic.antt =====
-- A round of `SyntheticFeed::run` of src/feed.cpp. Doubles and their operations are parameters, and so
-- are the steps that the random generator draws.
use orderbook_c.Base.{All, Bool, Bool-cases, List, [], false, if◌then◌else◌, inl, inr, ℕ, ◌∷◌, ◌≡◌}
use orderbook_c.Base.Int.{ℤ, ◌≤ℤ◌}
use orderbook_c.Feed.{MarketEvent, book_ticker}
use orderbook_c.Feed.Parse.{to_price, to_qty}

module _ {D : Type 0} (scaled : D → ℕ → D) (llround : D → ℤ) (plus minus : D → D → D) (half : D → D)
    (less_than : D → D → Bool) (one : D) where
  -- `mid` after the draw of `step`.
  unfoldable pub next_mid : D → D → D
  next_mid mid step = let moved = plus mid step in if less_than moved one then one else moved

  -- The event of a round.
  unfoldable pub synthetic_event : D → D → ℕ → MarketEvent
  synthetic_event spread mid now = record {
    kind = book_ticker;
    best_bid = to_price scaled llround (minus mid (half spread));
    best_ask = to_price scaled llround (plus mid (half spread));
    bid_qty = to_qty scaled llround one;
    ask_qty = to_qty scaled llround one;
    last_trade = to_price scaled llround mid;
    ts = now;
  }

  -- The events of the rounds, each with its draw and its time.
  unfoldable pub synthetic_events : D → D → List (D × ℕ) → List MarketEvent
  synthetic_events spread mid [] = []
  synthetic_events spread mid ((step, now) ∷ draws) =
      synthetic_event spread (next_mid mid step) now
      ∷ synthetic_events spread (next_mid mid step) draws

  -- The prices in order, and the last trade not below a price.
  abbrev pub Ordered : ℤ → MarketEvent → Type 0
  Ordered least ev =
      (ev.best_bid ≤ℤ ev.last_trade) × ((ev.last_trade ≤ℤ ev.best_ask) × (least ≤ℤ ev.last_trade))

  module _
      (to_price_mono : (x y : D)
        → less_than y x ≡ false
        → to_price scaled llround x ≤ℤ to_price scaled llround y)
      (spread : D) (minus_below : (x : D) → less_than x (minus x (half spread)) ≡ false)
      (plus_above : (x : D) → less_than (plus x (half spread)) x ≡ false)
      (one_refl : less_than one one ≡ false) where
    next_mid-floor : (mid step : D) → less_than (next_mid mid step) one ≡ false
    unfolding next_mid
    next_mid-floor mid step = elim (Bool-cases (less_than (plus mid step) one)) [
      | inl h ↦ rw h one_refl
      | inr h ↦ rw h h
    ]

    -- Whatever the draws, every event of the synthetic feed has its bid at most its last trade, that at
    -- most its ask, and the last trade at least the price of one dollar. The conversion to a price is
    -- monotone, half the spread taken off a number does not raise it and added does not lower it.
    pub synthetic_events-Ordered :
        (mid : D) (draws : List (D × ℕ))
        → All (Ordered (to_price scaled llround one)) (synthetic_events spread mid draws)
    unfolding synthetic_events synthetic_event
    synthetic_events-Ordered mid [] = tt
    synthetic_events-Ordered mid ((step, now) ∷ draws) =
        let m = next_mid mid step in
        (
          (
            to_price_mono (minus m (half spread)) m (minus_below m),
            (
              to_price_mono m (plus m (half spread)) (plus_above m),
              to_price_mono one m (next_mid-floor mid step),
            ),
          ),
          synthetic_events-Ordered m draws,
        )
