-- ===== src/Engine/Shown.antt =====
-- What the quotes in the book are after `refresh_quotes`.
use orderbook_c.Base.{
  Bool-cases, List, Option, [], ap, arith, false, if_cases, if◌then◌else◌, inl, inr, length, ltb,
  none, refl, some, subst, suc, sym, true, ℕ, ◌+◌, ◌<◌, ◌∷◌, ◌≡◌, ◌≤◌, ◌⊎◌,
}
use orderbook_c.Base.Int.{==ℤ-eq, ltb_ℤ, pos, ℤ, ◌<ℤ◌, ◌==ℤ◌}
use orderbook_c.Engine.Quotes.{Quote, book_of}
use orderbook_c.Engine.Quoting.{
  is_skipped, put_ask, put_bid, refresh_quotes, rest_quotes, set_quotes, show_quotes,
}
use orderbook_c.Engine.Refresh.{
  Between, SameRest, Shown, Shows, cleared, is_some, put_ask-of, put_bid-of, refresh_quotes-cleared,
  size,
}
use orderbook_c.Engine.State.{TradingEngine}
use orderbook_c.Strategy.{MarketSnapshot}
use orderbook_c.Types.{add64, u64_mod}

-- An engine after both cancellations, with the quotes that it is to show.
pub record Empty (e : TradingEngine) : Type 0 where
  pub free : List ℕ
  pub clock : ℕ
  pub book_is : e.book ≡ book_of free clock none none
  pub no_bid : e.bid_quote_live ≡ false
  pub no_ask : e.ask_quote_live ≡ false
  pub room : 3 ≤ length free
  pub bid_small : e.cur_bid_qty < u64_mod
  pub ask_small : e.cur_ask_qty < u64_mod
  pub locked : ltb_ℤ e.cur_bid e.cur_ask ≡ false

Empty-Shown : (e : TradingEngine) → Empty e → Shown e
Empty-Shown e x = record {
  between = record {
    free = x.free;
    clock = x.clock;
    bid = none;
    ask = none;
    book_is = x.book_is;
    bid_live = x.no_bid;
    ask_live = x.no_ask;
    room = omega (arith, x.room);
  };
  bid_small = x.bid_small;
  ask_small = x.ask_small;
  shows = inl (x.locked, refl, refl);
}

abbrev new_quote : ℕ → ℤ → ℕ → ℕ → Option Quote
new_quote s px n clock = some (record { slot = s; price = px; qty = n; ts = add64 clock 1 })

abbrev with_quotes : TradingEngine → List ℕ → ℕ → Option Quote → Option Quote → TradingEngine
with_quotes e free clock bid ask = record e {
  book = book_of free clock bid ask;
  bid_quote_live = is_some bid;
  ask_quote_live = is_some ask;
}

with_quotes-Shown :
    (e : TradingEngine) (free : List ℕ) (clock : ℕ) (bid ask : Option Quote)
    → 3 ≤ length free + size bid + size ask
    → e.cur_bid_qty < u64_mod
    → e.cur_ask_qty < u64_mod
    → ltb_ℤ e.cur_bid e.cur_ask ≡ true
    → Shows bid e.cur_bid e.cur_bid_qty
    → Shows ask e.cur_ask e.cur_ask_qty
    → Shown (with_quotes e free clock bid ask)
with_quotes-Shown e free clock bid ask r k l apart h i = record {
  between = record {
    free = free;
    clock = clock;
    bid = bid;
    ask = ask;
    book_is = refl;
    bid_live = refl;
    ask_live = refl;
    room = r;
  };
  bid_small = k;
  ask_small = l;
  shows = inr (apart, h, i);
}

Shows-below :
    (bid : Option Quote) (px : ℤ) (n : ℕ) (bound : ℤ)
    → ltb_ℤ px bound ≡ true
    → Shows bid px n
    → (q : Quote) → bid ≡ some q
    → ltb_ℤ q.price bound ≡ true
Shows-below none px n bound lt h q e = absurd (ground (arith, e))
Shows-below (some b) px n bound lt (same, m, z) q e =
    let is : b ≡ q = ground (arith, e) in
    subst (λ c. ltb_ℤ c.price bound ≡ true) is (subst (λ p. ltb_ℤ p bound ≡ true) (sym same) lt)

rest_ask :
    (e : TradingEngine) (s : ℕ) (free : List ℕ) (clock : ℕ) (bid : Option Quote)
    → 3 ≤ suc (length free) + size bid
    → e.cur_bid_qty < u64_mod
    → e.cur_ask_qty < u64_mod
    → ltb_ℤ e.cur_bid e.cur_ask ≡ true
    → Shows bid e.cur_bid e.cur_bid_qty
    → let e1 = with_quotes e (s ∷ free) clock bid none in
      let e' = if ltb 0 e.cur_ask_qty then put_ask e1 else e1 in Shown e' × SameRest e e'
rest_ask e s free clock bid r k l apart h = elim (Bool-cases (ltb 0 e.cur_ask_qty)) [
  | inl some_ask ↦
      let e1 = with_quotes e (s ∷ free) clock bid none in
      let below : (q : Quote) → bid ≡ some q → ltb_ℤ q.price e.cur_ask ≡ true =
        λ q is. Shows-below bid e.cur_bid e.cur_bid_qty e.cur_ask apart h q is in
      let made = put_ask-of e1 s free clock bid refl (ground arith) l below in
      rw (some_ask, made)
        (
          with_quotes-Shown e free (add64 clock 1) bid (new_quote s e.cur_ask e.cur_ask_qty clock)
              (omega (arith, r)) k l apart h (refl, refl, ground arith),
          (refl, refl),
        )
  | inr no_ask ↦ rw no_ask (
    with_quotes-Shown e (s ∷ free) clock bid none (omega (arith, r)) k l apart h (ground arith),
    (refl, refl),
  )
]

rest_quotes-Shown :
    (e : TradingEngine) (s s' : ℕ) (free : List ℕ) (clock : ℕ)
    → 1 ≤ length free
    → e.cur_bid_qty < u64_mod
    → e.cur_ask_qty < u64_mod
    → ltb_ℤ e.cur_bid e.cur_ask ≡ true
    → let e' = rest_quotes (with_quotes e (s ∷ s' ∷ free) clock none none) in
      Shown e' × SameRest e e'
unfolding rest_quotes
rest_quotes-Shown e s s' free clock r k l apart = elim (Bool-cases (ltb 0 e.cur_bid_qty)) [
  | inl some_bid ↦
      let e1 = with_quotes e (s ∷ s' ∷ free) clock none none in
      rw (some_bid, put_bid-of e1 s (s' ∷ free) clock refl (ground arith) k)
        (rest_ask e s' free (add64 clock 1) (new_quote s e.cur_bid e.cur_bid_qty clock)
          (omega (arith, r)) k l apart (refl, refl, ground arith))
  | inr no_bid ↦
      rw no_bid (rest_ask e s (s' ∷ free) clock none (omega (arith, r)) k l apart (ground arith))
]

with_quotes-empty :
    (e : TradingEngine) (free : List ℕ) (clock : ℕ)
    → e.book ≡ book_of free clock none none
    → e.bid_quote_live ≡ false
    → e.ask_quote_live ≡ false
    → with_quotes e free clock none none ≡ e
with_quotes-empty e free clock b f g =
    λ i. record e { book = sym b i; bid_quote_live = sym f i; ask_quote_live = sym g i }

Empty-rest_quotes :
    (e : TradingEngine) (free : List ℕ) (clock : ℕ)
    → e.book ≡ book_of free clock none none
    → e.bid_quote_live ≡ false
    → e.ask_quote_live ≡ false
    → 3 ≤ length free
    → e.cur_bid_qty < u64_mod
    → e.cur_ask_qty < u64_mod
    → ltb_ℤ e.cur_bid e.cur_ask ≡ true
    → Shown (rest_quotes e) × SameRest e (rest_quotes e)
Empty-rest_quotes e [] clock b f g r k l apart = absurd (omega (arith, r))
Empty-rest_quotes e (s ∷ []) clock b f g r k l apart = absurd (omega (arith, r))
Empty-rest_quotes e (s ∷ s' ∷ free) clock b f g r k l apart =
    subst (λ c. Shown (rest_quotes c) × SameRest e (rest_quotes c))
      (with_quotes-empty e (s ∷ s' ∷ free) clock b f g)
      (rest_quotes-Shown e s s' free clock (omega (arith, r)) k l apart)

-- The quantities of a snapshot fit their type.
abbrev pub IsSnapshot : MarketSnapshot → Type 0
IsSnapshot s = (s.bid_qty < u64_mod) × (s.ask_qty < u64_mod)

show_quotes-Shown :
    (s : MarketSnapshot) (e : TradingEngine) (free : List ℕ) (clock : ℕ)
    → IsSnapshot s
    → 3 ≤ length free
    → let e' = show_quotes s (cleared e free clock) in Shown e' × SameRest e e'
unfolding show_quotes
show_quotes-Shown s e free clock h r = elim (Bool-cases (is_skipped s)) [
  | inl skipped ↦
      let e1 = set_quotes (pos 0) (pos 0) 0 0 (cleared e free clock) in
      rw skipped (
        Empty-Shown e1 (record {
          free = free;
          clock = clock;
          book_is = refl;
          no_bid = refl;
          no_ask = refl;
          room = r;
          bid_small = ground arith;
          ask_small = ground arith;
          locked = ground arith;
        }),
        (refl, refl),
      )
  | inr kept ↦
      let e1 = set_quotes s.best_bid s.best_ask s.bid_qty s.ask_qty (cleared e free clock) in
      elim (Bool-cases (ltb_ℤ s.best_bid s.best_ask)) [
        | inl apart ↦
            rw (kept, apart) (Empty-rest_quotes e1 free clock refl refl refl r h.0 h.1 apart)
        | inr locked ↦
            rw (kept, locked)
              (
                Empty-Shown e1 (record {
                  free = free;
                  clock = clock;
                  book_is = refl;
                  no_bid = refl;
                  no_ask = refl;
                  room = r;
                  bid_small = h.0;
                  ask_small = h.1;
                  locked = locked;
                }),
                (refl, refl),
              )
      ]
]

-- A snapshot without one of the prices, or with an ask below its bid.
abbrev pub NoMarket : MarketSnapshot → Type 0
NoMarket s = (s.best_bid ≡ pos 0) ⊎ ((s.best_ask ≡ pos 0) ⊎ (s.best_ask <ℤ s.best_bid))

-- The prices and quantities that the engine trades at.
abbrev pub TradesAt : ℤ → ℤ → ℕ → ℕ → TradingEngine → Type 0
TradesAt bid ask bid_qty ask_qty e =
    (e.cur_bid ≡ bid) × (e.cur_ask ≡ ask) × (e.cur_bid_qty ≡ bid_qty) × (e.cur_ask_qty ≡ ask_qty)

-- They are those of the snapshot, or all zero if the snapshot is no market.
abbrev pub Follows : MarketSnapshot → TradingEngine → Type 0
Follows s e =
    (NoMarket s × TradesAt (pos 0) (pos 0) 0 0 e)
    ⊎ ((NoMarket s → ⊥) × TradesAt s.best_bid s.best_ask s.bid_qty s.ask_qty e)

NoMarket-of : (s : MarketSnapshot) → is_skipped s ≡ true → NoMarket s
NoMarket-of s h = elim (Bool-cases (s.best_bid ==ℤ pos 0)) [
  | inl z ↦ inl (==ℤ-eq s.best_bid (pos 0) z)
  | inr n ↦ elim (Bool-cases (s.best_ask ==ℤ pos 0)) [
    | inl z ↦ inr (inl (==ℤ-eq s.best_ask (pos 0) z))
    | inr k ↦ inr (inr (ground arith))
  ]
]

market_of : (s : MarketSnapshot) → is_skipped s ≡ false → NoMarket s → ⊥
market_of s h (inl e) =
    let z : (s.best_bid ==ℤ pos 0) ≡ true = ap (λ p. p ==ℤ pos 0) e in ground arith
market_of s h (inr (inl e)) =
    let z : (s.best_ask ==ℤ pos 0) ≡ true = ap (λ p. p ==ℤ pos 0) e in ground arith
market_of s h (inr (inr lt)) = ground arith

rest_quotes-TradesAt :
    (e : TradingEngine) → TradesAt e.cur_bid e.cur_ask e.cur_bid_qty e.cur_ask_qty (rest_quotes e)
unfolding rest_quotes put_bid put_ask
rest_quotes-TradesAt e =
    let Same = TradesAt e.cur_bid e.cur_ask e.cur_bid_qty e.cur_ask_qty in
    let e1 = if ltb 0 e.cur_bid_qty then put_bid e else e in
    let bid : Same e1 =
      if_cases Same (ltb 0 e.cur_bid_qty) (put_bid e) e (λ h. (refl, refl, refl, refl))
        (λ h. (refl, refl, refl, refl)) in
    if_cases Same (ltb 0 e1.cur_ask_qty) (put_ask e1) e1 (λ h. bid) (λ h. bid)

show_quotes-Follows : (s : MarketSnapshot) (e : TradingEngine) → Follows s (show_quotes s e)
unfolding show_quotes
show_quotes-Follows s e = elim (Bool-cases (is_skipped s)) [
  | inl skipped ↦ rw skipped (inl (NoMarket-of s skipped, (refl, refl, refl, refl)))
  | inr kept ↦
      let e1 = set_quotes s.best_bid s.best_ask s.bid_qty s.ask_qty e in
      rw kept (
        inr (
          market_of s kept,
          if_cases (TradesAt s.best_bid s.best_ask s.bid_qty s.ask_qty)
              (ltb_ℤ s.best_bid s.best_ask) (rest_quotes e1) e1 (λ apart. rest_quotes-TradesAt e1)
              (λ locked. (refl, refl, refl, refl)),
        ))
]

-- `refresh_quotes` on an engine between two ticks has a result: it follows no dangling pointer. The
-- engine then trades at the prices and quantities of the snapshot, or at none if a price of the snapshot
-- is zero or its ask is below its bid. If the bid is below the ask, the book shows both sides at these
-- prices with these quantities, a quantity of zero as no order, and otherwise it is empty; it has no other
-- order. Risk and position stay. The snapshot's quantities are those of their type.
pub refresh_quotes-Shown :
    (e : TradingEngine) (s : MarketSnapshot)
    → IsSnapshot s
    → Between e
    → (e' : TradingEngine) × (refresh_quotes e s ≡ some e')
      × Shown e'
      × SameRest e e'
      × Follows s e'
refresh_quotes-Shown e s h x =
    let (free, is, room) = refresh_quotes-cleared e s x in
    let (shown, same) = show_quotes-Shown s e free x.clock h room in
    let e1 = cleared e free x.clock in (show_quotes s e1, is, shown, same, show_quotes-Follows s e1)
