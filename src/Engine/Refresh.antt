-- ===== src/Engine/Refresh.antt =====
-- `refresh_quotes` never follows a dangling pointer, and leaves the quotes that it shows in the book.
use orderbook_c.Base.{
  Bool, List, Option, arith, false, length, none, refl, some, true, ℕ, ◌+◌, ◌<◌, ◌∷◌, ◌≡◌, ◌≤◌, ◌⊎◌,
}
use orderbook_c.Base.Int.{ltb_ℤ, ℤ}
use orderbook_c.Engine.Quotes.{Quote, book_of}
use orderbook_c.Engine.Quotes.Cancel.{cancel-ask, cancel-bid}
use orderbook_c.Engine.Quotes.Submit.{submit-ask, submit-bid}
use orderbook_c.Engine.Quoting.{
  cancel_ask, cancel_bid, put_ask, put_bid, refresh_quotes, show_quotes,
}
use orderbook_c.Engine.State.{TradingEngine}
use orderbook_c.Strategy.{MarketSnapshot}
use orderbook_c.Types.{add64, u64_mod}

abbrev pub is_some {ℓ} : {A : Type ℓ} → Option A → Bool
is_some none = false
is_some (some a) = true

abbrev pub size {ℓ} : {A : Type ℓ} → Option A → ℕ
size none = 0
size (some a) = 1

-- Between two ticks the book holds the live quotes and nothing else, no call of `match` is stuck, and the pool has slots for them
-- and a taker.
pub record Between (e : TradingEngine) : Type 0 where
  pub free : List ℕ
  pub clock : ℕ
  pub bid : Option Quote
  pub ask : Option Quote
  pub book_is : e.book ≡ book_of free clock bid ask
  pub bid_live : e.bid_quote_live ≡ is_some bid
  pub ask_live : e.ask_quote_live ≡ is_some ask
  pub room : 3 ≤ length free + size bid + size ask

-- The engine after both cancellations.
abbrev pub cleared : TradingEngine → List ℕ → ℕ → TradingEngine
cleared e free clock = record e {
  book = book_of free clock none none;
  bid_quote_live = false;
  ask_quote_live = false;
}

cancel_bid-of :
    (e : TradingEngine) (free : List ℕ) (clock : ℕ) (bid ask : Option Quote)
    → e.book ≡ book_of free clock bid ask
    → e.bid_quote_live ≡ is_some bid
    → (free' : List ℕ) × (cancel_bid e
        ≡ some (record e { book = book_of free' clock none ask; bid_quote_live = false }))
      × (length free' ≡ length free + size bid)
unfolding cancel_bid
cancel_bid-of e free clock none ask b f = (free, rw (b, f) refl, omega arith)
cancel_bid-of e free clock (some q) ask b f =
    (q.slot ∷ free, rw (f, b, cancel-bid free clock q ask) refl, omega arith)

cancel_ask-of :
    (e : TradingEngine) (free : List ℕ) (clock : ℕ) (ask : Option Quote)
    → e.book ≡ book_of free clock none ask
    → e.ask_quote_live ≡ is_some ask
    → (free' : List ℕ) × (cancel_ask e
        ≡ some (record e { book = book_of free' clock none none; ask_quote_live = false }))
      × (length free' ≡ length free + size ask)
unfolding cancel_ask
cancel_ask-of e free clock none b f = (free, rw (b, f) refl, omega arith)
cancel_ask-of e free clock (some q) b f =
    (q.slot ∷ free, rw (f, b, cancel-ask free clock q) refl, omega arith)

pub refresh_quotes-cleared :
    (e : TradingEngine) (s : MarketSnapshot) (x : Between e)
    → (free : List ℕ) × (refresh_quotes e s ≡ some (show_quotes s (cleared e free x.clock)))
      × (3 ≤ length free)
unfolding refresh_quotes
refresh_quotes-cleared e s x =
    let (f1, c1, n1) = cancel_bid-of e x.free x.clock x.bid x.ask x.book_is x.bid_live in
    let e1 : TradingEngine = record e {
      book = book_of f1 x.clock none x.ask;
      bid_quote_live = false;
    } in
    let (f2, c2, n2) = cancel_ask-of e1 f1 x.clock x.ask refl x.ask_live in
    (f2, rw (c1, c2, refresh_quotes) refl, omega (arith, n1, n2, x.room))

-- The side shows its price and quantity, or its quantity is zero.
abbrev pub Shows : Option Quote → ℤ → ℕ → Type 0
Shows none px n = n ≡ 0
Shows (some q) px n = (q.price ≡ px) × (q.qty ≡ n) × (0 < n)

-- After `refresh_quotes`: with a bid below the ask the book shows both sides, and otherwise it is empty.
pub record Shown (e : TradingEngine) : Type 0 where
  pub between : Between e
  pub bid_small : e.cur_bid_qty < u64_mod
  pub ask_small : e.cur_ask_qty < u64_mod
  pub shows :
      ((ltb_ℤ e.cur_bid e.cur_ask ≡ false) × (between.bid ≡ none) × (between.ask ≡ none))
      ⊎ ((ltb_ℤ e.cur_bid e.cur_ask ≡ true)
          × Shows between.bid e.cur_bid e.cur_bid_qty
          × Shows between.ask e.cur_ask e.cur_ask_qty)

-- Nothing but the quotes and the book changes.
abbrev pub SameRest : TradingEngine → TradingEngine → Type 0
SameRest e e' = (e'.risk ≡ e.risk) × (e'.position ≡ e.position)

pub put_bid-of :
    (e : TradingEngine) (s : ℕ) (free : List ℕ) (clock : ℕ)
    → e.book ≡ book_of (s ∷ free) clock none none
    → 0 < e.cur_bid_qty
    → e.cur_bid_qty < u64_mod
    → put_bid e ≡ record e {
      book =
          book_of free
            (add64 clock 1)
            (some (record { slot = s; price = e.cur_bid; qty = e.cur_bid_qty; ts = add64 clock 1 }))
            none;
      bid_quote_live = true;
    }
unfolding put_bid
put_bid-of e s free clock b h k = rw (b, submit-bid s free clock e.cur_bid e.cur_bid_qty h k) refl

pub put_ask-of :
    (e : TradingEngine) (s : ℕ) (free : List ℕ) (clock : ℕ) (bid : Option Quote)
    → e.book ≡ book_of (s ∷ free) clock bid none
    → 0 < e.cur_ask_qty
    → e.cur_ask_qty < u64_mod
    → ((q : Quote) → bid ≡ some q → ltb_ℤ q.price e.cur_ask ≡ true)
    → put_ask e ≡ record e {
      book =
          book_of free (add64 clock 1) bid (
            some (record { slot = s; price = e.cur_ask; qty = e.cur_ask_qty; ts = add64 clock 1 }));
      ask_quote_live = true;
    }
unfolding put_ask
put_ask-of e s free clock bid b h k apart =
    rw (b, submit-ask s free clock bid e.cur_ask e.cur_ask_qty h k apart) refl
