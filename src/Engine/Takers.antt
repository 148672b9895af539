-- ===== src/Engine/Takers.antt =====
-- A taker fills against the quote that it crosses, at its price, as far as its quantity goes.
use orderbook_c.Base.{
  Bool-cases, List, Option, ap, arith, false, if◌then◌else◌, inl, inr, length, ltb, min, refl, some,
  subst, suc, sym, true, ℕ, ◌+◌, ◌<◌, ◌∙◌, ◌∷◌, ◌≡◌, ◌≤◌,
}
use orderbook_c.Base.Int.{pos, ◌==ℤ◌}
use orderbook_c.Engine.Fills.{
  Filled, book_fill-some, collect_one, filled_position-entered, the_fill,
}
use orderbook_c.Engine.Quotes.{Quote, book_of, quote_levels}
use orderbook_c.Engine.Quotes.Take.{free_after, left_of, submit-take_ask, submit-take_bid}
use orderbook_c.Engine.Refresh.{is_some, size}
use orderbook_c.Engine.State.{TradingEngine}
use orderbook_c.Engine.Taking.{
  Collected, drop_used_quote, moved_position, signed_cash, take_quote, trade_notional,
}
use orderbook_c.OrderBook.State.{best_ask, best_bid, best_price}
use orderbook_c.Strategy.{MarketSnapshot, StrategyAction}
use orderbook_c.Types.{Side, Trade, add64, buy, sell, u64_mod}

left_live :
    (id : ℕ) (side : Side) (q : Quote) (n : ℕ)
    → (q.price ==ℤ pos 0) ≡ false
    → (if best_price (quote_levels id side (left_of q n)) ==ℤ pos 0 then false else true)
      ≡ is_some (left_of q n)
unfolding best_price
left_live id side q n h = elim (Bool-cases (ltb n q.qty)) [
  | inl part ↦ rw (part, h) refl
  | inr whole ↦ rw whole refl
]

free_after-room :
    (s : ℕ) (free : List ℕ) (q : Quote) (n : ℕ)
    → length (free_after s free q n) + size (left_of q n) ≡ suc (suc (length free))
free_after-room s free q n = elim (Bool-cases (ltb n q.qty)) [
  | inl part ↦ rw part (omega arith)
  | inr whole ↦ rw whole (omega arith)
]

pub take_quote-buy :
    (now n : ℕ) (sn : MarketSnapshot) (e : TradingEngine) (s slot ts : ℕ) (free : List ℕ)
    (clock : ℕ) (bid : Option Quote)
    → let q : Quote = record { slot = slot; price = e.cur_ask; qty = e.cur_ask_qty; ts = ts } in
      e.book ≡ book_of (s ∷ free) clock bid (some q)
      → e.bid_quote_live ≡ is_some bid
      → e.ask_quote_live ≡ true
      → (e.cur_ask ==ℤ pos 0) ≡ false
      → 0 < n
      → 0 < e.cur_ask_qty
      → e.cur_ask_qty < u64_mod
      → 1 ≤ length free + size bid
      → let a : StrategyAction = record { side = buy; qty = n } in
        Filled now a sn e (take_quote now a sn e)
unfolding take_quote best_ask
take_quote-buy now n sn e s slot ts free clock bid b f g z h k w room =
    subst (Filled now a sn e) (sym is) (record {
      between = record {
        free = free_after s free q n;
        clock = add64 clock 1;
        bid = bid;
        ask = left_of q n;
        book_is = refl;
        bid_live = f;
        ask_live =
            ap (λ l. if best_ask e1.book ==ℤ pos 0 then false else l) g ∙ left_live 2 sell q n z;
        room = omega (arith, free_after-room s free q n, room);
      };
      same_risk = refl;
      booked = filled_position-entered now a sn e;
      reported = refl;
    })
  where
    q : Quote
    q = record { slot = slot; price = e.cur_ask; qty = e.cur_ask_qty; ts = ts }

    a : StrategyAction
    a = record { side = buy; qty = n }

    t : Trade
    t = record {
      maker_id = 2;
      taker_id = e.next_id;
      price = e.cur_ask;
      qty = min n e.cur_ask_qty;
      ts = add64 clock 1;
    }

    c : Collected
    c = record {
      filled = t.qty;
      cash_delta = signed_cash buy (trade_notional t);
      agg_volume = t.qty;
      last_px = t.price;
    }

    e1 : TradingEngine
    e1 = record e {
      book = book_of (free_after s free q n) (add64 clock 1) bid (left_of q n);
      next_id = add64 e.next_id 1;
    }

    is : take_quote now a sn e ≡ (
      record (drop_used_quote buy e1) { position = moved_position buy c e.position },
      some (the_fill now a sn e),
    )
    is =
        rw
          (
            b,
            submit-take_ask s free clock bid q e.next_id n h k w,
            collect_one buy t (ground arith),
          )
          refl
        ∙ book_fill-some now a sn c (drop_used_quote buy e1) (ground arith)

pub take_quote-sell :
    (now n : ℕ) (sn : MarketSnapshot) (e : TradingEngine) (s slot ts : ℕ) (free : List ℕ)
    (clock : ℕ) (ask : Option Quote)
    → let q : Quote = record { slot = slot; price = e.cur_bid; qty = e.cur_bid_qty; ts = ts } in
      e.book ≡ book_of (s ∷ free) clock (some q) ask
      → e.ask_quote_live ≡ is_some ask
      → e.bid_quote_live ≡ true
      → (e.cur_bid ==ℤ pos 0) ≡ false
      → 0 < n
      → 0 < e.cur_bid_qty
      → e.cur_bid_qty < u64_mod
      → 1 ≤ length free + size ask
      → let a : StrategyAction = record { side = sell; qty = n } in
        Filled now a sn e (take_quote now a sn e)
unfolding take_quote best_bid
take_quote-sell now n sn e s slot ts free clock ask b f g z h k w room =
    subst (Filled now a sn e) (sym is) (record {
      between = record {
        free = free_after s free q n;
        clock = add64 clock 1;
        bid = left_of q n;
        ask = ask;
        book_is = refl;
        ask_live = f;
        bid_live =
            ap (λ l. if best_bid e1.book ==ℤ pos 0 then false else l) g ∙ left_live 1 buy q n z;
        room = omega (arith, free_after-room s free q n, room);
      };
      same_risk = refl;
      booked = filled_position-entered now a sn e;
      reported = refl;
    })
  where
    q : Quote
    q = record { slot = slot; price = e.cur_bid; qty = e.cur_bid_qty; ts = ts }

    a : StrategyAction
    a = record { side = sell; qty = n }

    t : Trade
    t = record {
      maker_id = 1;
      taker_id = e.next_id;
      price = e.cur_bid;
      qty = min n e.cur_bid_qty;
      ts = add64 clock 1;
    }

    c : Collected
    c = record {
      filled = t.qty;
      cash_delta = signed_cash sell (trade_notional t);
      agg_volume = t.qty;
      last_px = t.price;
    }

    e1 : TradingEngine
    e1 = record e {
      book = book_of (free_after s free q n) (add64 clock 1) (left_of q n) ask;
      next_id = add64 e.next_id 1;
    }

    is : take_quote now a sn e ≡ (
      record (drop_used_quote sell e1) { position = moved_position sell c e.position },
      some (the_fill now a sn e),
    )
    is =
        rw
          (
            b,
            submit-take_bid s free clock q ask e.next_id n h k w,
            collect_one sell t (ground arith),
          )
          refl
        ∙ book_fill-some now a sn c (drop_used_quote sell e1) (ground arith)
