-- ===== src/Engine/Crossing.antt =====
-- `cross_quote` after `refresh_quotes`: the quote is in the book or is put there, and the taker fills.
use orderbook_c.Base.{
  List, Option, [], ap, arith, false, if◌then◌else◌, inl, inr, length, none, refl, some, subst, sym,
  true, ℕ, ◌+◌, ◌<◌, ◌==◌, ◌∙◌, ◌∷◌, ◌≡◌, ◌≤◌,
}
use orderbook_c.Base.Int.{pos, ℤ, ◌==ℤ◌}
use orderbook_c.Engine.Fills.{Filled}
use orderbook_c.Engine.Quotes.{Quote, book_of}
use orderbook_c.Engine.Quoting.{put_ask, put_bid}
use orderbook_c.Engine.Refresh.{Shown, Shows, is_some, put_ask-of, put_bid-of, size}
use orderbook_c.Engine.State.{TradingEngine}
use orderbook_c.Engine.Takers.{take_quote-buy, take_quote-sell}
use orderbook_c.Engine.Taking.{
  cross_quote, ensure_quote, quote_live, quote_px, quote_qty, take_quote,
}
use orderbook_c.Strategy.{MarketSnapshot, StrategyAction}
use orderbook_c.Types.{Side, add64, buy, sell, u64_mod}

cross_quote-live :
    (now : ℕ) (a : StrategyAction) (s : MarketSnapshot) (e e1 : TradingEngine)
    → (quote_px a.side e ==ℤ pos 0) ≡ false
    → 0 < quote_qty a.side e
    → ensure_quote a.side e ≡ e1
    → quote_live a.side e1 ≡ true
    → cross_quote now a s e ≡ take_quote now a s e1
unfolding cross_quote
cross_quote-live now a s e e1 z k i l =
    let some_qty : (quote_qty a.side e == 0) ≡ false = ground arith in rw (z, some_qty, i, l) refl

quote_is :
    (q : Quote) (px : ℤ) (n : ℕ)
    → q.price ≡ px
    → q.qty ≡ n
    → q ≡ record { slot = q.slot; price = px; qty = n; ts = q.ts }
quote_is q px n p m = λ i. record { slot = q.slot; price = p i; qty = m i; ts = q.ts }

empty-buy :
    (now n : ℕ) (sn : MarketSnapshot) (e : TradingEngine) (free : List ℕ) (clock : ℕ)
    → e.book ≡ book_of free clock none none
    → e.bid_quote_live ≡ false
    → e.ask_quote_live ≡ false
    → 3 ≤ length free
    → (e.cur_ask ==ℤ pos 0) ≡ false
    → 0 < n
    → 0 < e.cur_ask_qty
    → e.cur_ask_qty < u64_mod
    → let a : StrategyAction = record { side = buy; qty = n } in
      Filled now a sn e (cross_quote now a sn e)
unfolding ensure_quote
empty-buy now n sn e [] clock b f g r z h k w = absurd (omega (arith, r))
empty-buy now n sn e (s ∷ []) clock b f g r z h k w = absurd (omega (arith, r))
empty-buy now n sn e (s ∷ s' ∷ free) clock b f g r z h k w =
    let a : StrategyAction = record { side = buy; qty = n } in
    let e1 : TradingEngine = record e {
      book =
          book_of (s' ∷ free) (add64 clock 1) none (
            some (record { slot = s; price = e.cur_ask; qty = e.cur_ask_qty; ts = add64 clock 1 }));
      ask_quote_live = true;
    } in
    let put = put_ask-of e s (s' ∷ free) clock none b k w (λ q e'. absurd (ground (arith, e'))) in
    let made : ensure_quote buy e ≡ e1 = ap (λ l. if l then e else put_ask e) g ∙ put in
    let x =
      take_quote-buy now n sn e1 s' s (add64 clock 1) free (add64 clock 1) none refl f refl z h k w
        (omega (arith, r)) in
    subst (Filled now a sn e) (sym (cross_quote-live now a sn e e1 z k made refl)) (record {
      between = x.between;
      same_risk = x.same_risk;
      booked = x.booked;
      reported = x.reported;
    })

shown-buy :
    (now n : ℕ) (sn : MarketSnapshot) (e : TradingEngine) (free : List ℕ) (clock : ℕ)
    (bid ask : Option Quote)
    → e.book ≡ book_of free clock bid ask
    → e.bid_quote_live ≡ is_some bid
    → e.ask_quote_live ≡ is_some ask
    → 3 ≤ length free + size bid + size ask
    → Shows ask e.cur_ask e.cur_ask_qty
    → (e.cur_ask ==ℤ pos 0) ≡ false
    → 0 < n
    → 0 < e.cur_ask_qty
    → e.cur_ask_qty < u64_mod
    → let a : StrategyAction = record { side = buy; qty = n } in
      Filled now a sn e (cross_quote now a sn e)
unfolding ensure_quote
shown-buy now n sn e free clock bid none b f g r none_shown z h k w = absurd (omega arith)
shown-buy now n sn e [] clock none (some q) b f g r (p, m, d) z h k w = absurd (omega (arith, r))
shown-buy now n sn e [] clock (some c) (some q) b f g r (p, m, d) z h k w =
    absurd (omega (arith, r))
shown-buy now n sn e (s ∷ free) clock bid (some q) b f g r (p, m, d) z h k w =
    let a : StrategyAction = record { side = buy; qty = n } in
    let b' =
      subst (λ y. e.book ≡ book_of (s ∷ free) clock bid (some y))
        (quote_is q e.cur_ask e.cur_ask_qty p m) b in
    let same : ensure_quote buy e ≡ e = ap (λ l. if l then e else put_ask e) g in
    subst (Filled now a sn e) (sym (cross_quote-live now a sn e e z k same g))
      (take_quote-buy now n sn e s q.slot q.ts free clock bid b' f g z h k w (omega (arith, r)))

empty-sell :
    (now n : ℕ) (sn : MarketSnapshot) (e : TradingEngine) (free : List ℕ) (clock : ℕ)
    → e.book ≡ book_of free clock none none
    → e.bid_quote_live ≡ false
    → e.ask_quote_live ≡ false
    → 3 ≤ length free
    → (e.cur_bid ==ℤ pos 0) ≡ false
    → 0 < n
    → 0 < e.cur_bid_qty
    → e.cur_bid_qty < u64_mod
    → let a : StrategyAction = record { side = sell; qty = n } in
      Filled now a sn e (cross_quote now a sn e)
unfolding ensure_quote
empty-sell now n sn e [] clock b f g r z h k w = absurd (omega (arith, r))
empty-sell now n sn e (s ∷ []) clock b f g r z h k w = absurd (omega (arith, r))
empty-sell now n sn e (s ∷ s' ∷ free) clock b f g r z h k w =
    let a : StrategyAction = record { side = sell; qty = n } in
    let e1 : TradingEngine = record e {
      book =
          book_of (s' ∷ free) (add64 clock 1)
            (some (record { slot = s; price = e.cur_bid; qty = e.cur_bid_qty; ts = add64 clock 1 }))
            none;
      bid_quote_live = true;
    } in
    let put = put_bid-of e s (s' ∷ free) clock b k w in
    let made : ensure_quote sell e ≡ e1 = ap (λ l. if l then e else put_bid e) f ∙ put in
    let x =
      take_quote-sell now n sn e1 s' s (add64 clock 1) free (add64 clock 1) none refl g refl z h k w
        (omega (arith, r)) in
    subst (Filled now a sn e) (sym (cross_quote-live now a sn e e1 z k made refl)) (record {
      between = x.between;
      same_risk = x.same_risk;
      booked = x.booked;
      reported = x.reported;
    })

shown-sell :
    (now n : ℕ) (sn : MarketSnapshot) (e : TradingEngine) (free : List ℕ) (clock : ℕ)
    (bid ask : Option Quote)
    → e.book ≡ book_of free clock bid ask
    → e.bid_quote_live ≡ is_some bid
    → e.ask_quote_live ≡ is_some ask
    → 3 ≤ length free + size bid + size ask
    → Shows bid e.cur_bid e.cur_bid_qty
    → (e.cur_bid ==ℤ pos 0) ≡ false
    → 0 < n
    → 0 < e.cur_bid_qty
    → e.cur_bid_qty < u64_mod
    → let a : StrategyAction = record { side = sell; qty = n } in
      Filled now a sn e (cross_quote now a sn e)
unfolding ensure_quote
shown-sell now n sn e free clock none ask b f g r none_shown z h k w = absurd (omega arith)
shown-sell now n sn e [] clock (some q) none b f g r (p, m, d) z h k w = absurd (omega (arith, r))
shown-sell now n sn e [] clock (some q) (some c) b f g r (p, m, d) z h k w =
    absurd (omega (arith, r))
shown-sell now n sn e (s ∷ free) clock (some q) ask b f g r (p, m, d) z h k w =
    let a : StrategyAction = record { side = sell; qty = n } in
    let b' =
      subst (λ y. e.book ≡ book_of (s ∷ free) clock (some y) ask)
        (quote_is q e.cur_bid e.cur_bid_qty p m) b in
    let same : ensure_quote sell e ≡ e = ap (λ l. if l then e else put_bid e) f in
    subst (Filled now a sn e) (sym (cross_quote-live now a sn e e z k same f))
      (take_quote-sell now n sn e s q.slot q.ts free clock ask b' g f z h k w (omega (arith, r)))

pub cross_quote-side :
    (now n : ℕ) (sn : MarketSnapshot) (side : Side) (e : TradingEngine)
    → Shown e
    → (quote_px side e ==ℤ pos 0) ≡ false
    → 0 < n
    → 0 < quote_qty side e
    → let a : StrategyAction = record { side = side; qty = n } in
      Filled now a sn e (cross_quote now a sn e)
cross_quote-side now n sn side e x z h k = elim x.shows [
  | inl (locked, nb, na) ↦
      let b' =
        subst (λ y. e.book ≡ book_of x.between.free x.between.clock y none) nb
          (subst (λ y. e.book ≡ book_of x.between.free x.between.clock x.between.bid y) na
            x.between.book_is) in
      let f = x.between.bid_live ∙ ap is_some nb in
      let g = x.between.ask_live ∙ ap is_some na in
      let r : 3 ≤ length x.between.free = omega (arith, x.between.room, ap size nb, ap size na) in
      on_empty side z k b' f g r
  | inr (apart, sb, sa) ↦ on_shown side z k sb sa
]
  where
    on_empty :
        (side : Side)
        → (quote_px side e ==ℤ pos 0) ≡ false
        → 0 < quote_qty side e
        → e.book ≡ book_of x.between.free x.between.clock none none
        → e.bid_quote_live ≡ false
        → e.ask_quote_live ≡ false
        → 3 ≤ length x.between.free
        → let a : StrategyAction = record { side = side; qty = n } in
          Filled now a sn e (cross_quote now a sn e)
    on_empty buy z k b f g r =
        empty-buy now n sn e x.between.free x.between.clock b f g r z h k x.ask_small
    on_empty sell z k b f g r =
        empty-sell now n sn e x.between.free x.between.clock b f g r z h k x.bid_small

    on_shown :
        (side : Side)
        → (quote_px side e ==ℤ pos 0) ≡ false
        → 0 < quote_qty side e
        → Shows x.between.bid e.cur_bid e.cur_bid_qty
        → Shows x.between.ask e.cur_ask e.cur_ask_qty
        → let a : StrategyAction = record { side = side; qty = n } in
          Filled now a sn e (cross_quote now a sn e)
    on_shown buy z k sb sa =
        shown-buy now n sn e x.between.free x.between.clock x.between.bid x.between.ask
          x.between.book_is x.between.bid_live x.between.ask_live x.between.room sa z h k
          x.ask_small
    on_shown sell z k sb sa =
        shown-sell now n sn e x.between.free x.between.clock x.between.bid x.between.ask
          x.between.book_is x.between.bid_live x.between.ask_live x.between.room sb z h k
          x.bid_small
