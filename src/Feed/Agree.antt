-- ===== src/Feed/Agree.antt =====
-- The parsers of src/feed.cpp on every outcome, and the two transports against each other.
use Prim.Native.String.{String}
use orderbook_c.Base.{
  Bool, List, Option, Option-cases, ap, false, inl, inr, none, refl, some, subst, true, ℕ, ◌∙◌, ◌≡◌,
  ◌⊎◌,
}
use orderbook_c.Base.Int.{ℤ, ◌≤ℤ◌}
use orderbook_c.Feed.{MarketEvent, book_ticker}
use orderbook_c.Feed.Numbers.{midpoint-between, to_unsigned}
use orderbook_c.Feed.Parse.{
  Quote, caught, fetch_once, fetched, new_event, number_at, on_message, parse_ws_book_ticker,
  performed, pushed_event, read_quote, rest_quote, set_quote, stamped, to_price, to_qty, ws_quote,
}

module _ {D J : Type 0} (scaled : D → ℕ → D) (llround : D → ℤ) (parse : List ℕ → Option J)
    (at : J → String → Option J) (get_string : J → Option (List ℕ)) (stod : List ℕ → Option D) where
  -- The member of the object under a key is a text that reads as this number.
  pub record Holds (j : J) (key : String) (x : D) : Type 0 where
    pub member : J
    pub found : at j key ≡ some member
    pub text : List ℕ
    pub is_text : get_string member ≡ some text
    pub read : stod text ≡ some x

  abbrev pub HasNo : J → String → Type 0
  HasNo j key = (x : D) → Holds j key x → ⊥

  -- The payload is an object with the four numbers under the stream's keys.
  pub record IsTicker (payload : List ℕ) (bid ask bqty aqty : D) : Type 0 where
    pub object : J
    pub is_object : parse payload ≡ some object
    pub has_bid : Holds object "b" bid
    pub has_ask : Holds object "a" ask
    pub has_bqty : Holds object "B" bqty
    pub has_aqty : Holds object "A" aqty

  -- The event with these numbers: prices and quantities scaled, the last trade between the prices, the
  -- stamp as it was.
  abbrev pub HasQuote : MarketEvent → D → D → D → D → MarketEvent → Type 0
  HasQuote out bid ask bqty aqty ev =
      (ev.kind ≡ book_ticker)
      × (ev.best_bid ≡ llround (scaled bid 100))
      × (ev.best_ask ≡ llround (scaled ask 100))
      × (ev.bid_qty ≡ to_unsigned (llround (scaled bqty 1000000)))
      × (ev.ask_qty ≡ to_unsigned (llround (scaled aqty 1000000)))
      × (ev.ts ≡ out.ts)
      × (ev.best_bid ≤ℤ ev.best_ask
          → (ev.best_bid ≤ℤ ev.last_trade) × (ev.last_trade ≤ℤ ev.best_ask))

  -- A parse succeeds with the event of the payload's four numbers, or fails and leaves the event, and
  -- then the payload is no such object.
  abbrev pub Parsed : List ℕ → MarketEvent → Bool × MarketEvent → Type 0
  Parsed payload out (true, ev) =
      (bid : D) × (ask : D) × (bqty : D) × (aqty : D) × IsTicker payload bid ask bqty aqty
      × HasQuote out bid ask bqty aqty ev
  Parsed payload out (false, ev) =
      (ev ≡ out) × ((bid ask bqty aqty : D) → IsTicker payload bid ask bqty aqty → ⊥)

  number_at-Holds :
      (j : J) (key : String)
      → ((x : D) × (number_at scaled llround parse at get_string stod j key ≡ some x)
          × Holds j key x)
        ⊎ ((number_at scaled llround parse at get_string stod j key ≡ none) × HasNo j key)
  number_at-Holds j key = elim (Option-cases (at j key)) [
    | inl n ↦ inr (rw n refl, λ x h. let e = h.found in cc)
    | inr (v, f) ↦ elim (Option-cases (get_string v)) [
      | inl n ↦ inr (rw (f, n) refl, λ x h. let e = h.found in let g = h.is_text in cc)
      | inr (s, t) ↦ elim (Option-cases (stod s)) [
        | inl n ↦
            inr (
              rw (f, t, n) refl,
              λ x h. let e = h.found in let g = h.is_text in let r = h.read in cc,
            )
        | inr (x, r) ↦ inl (
          x,
          rw (f, t, r) refl,
          record { member = v; found = f; text = s; is_text = t; read = r },
        )
      ]
    ]
  ]

  at_object :
      (payload : List ℕ) (j : J) (bid ask bqty aqty : D)
      → parse payload ≡ some j
      → (t : IsTicker payload bid ask bqty aqty) → t.object ≡ j
  at_object payload j bid ask bqty aqty e t = let f = t.is_object in cc

  -- The parser finds the four numbers exactly if the payload has them.
  ws_quote-cases :
      (payload : List ℕ)
      → ((bid : D) × (ask : D) × (bqty : D) × (aqty : D) × (ws_quote scaled llround parse at
              get_string stod payload
            ≡ some (record { bid = bid; ask = ask; bqty = bqty; aqty = aqty }))
          × IsTicker payload bid ask bqty aqty)
        ⊎ ((ws_quote scaled llround parse at get_string stod payload ≡ none)
            × ((bid ask bqty aqty : D) → IsTicker payload bid ask bqty aqty → ⊥))
  unfolding read_quote
  ws_quote-cases payload = elim (Option-cases (parse payload)) [
    | inl n ↦ inr (rw n refl, λ b a c d t. let f = t.is_object in cc)
    | inr (j, p) ↦ elim (number_at-Holds j "b") [
      | inr (n, lacks) ↦ inr (
        rw (p, n) refl,
        λ b a c d t.
            lacks b (subst (λ k. Holds k "b" b) (at_object payload j b a c d p t) t.has_bid),
      )
      | inl (bid, e1, h1) ↦ elim (number_at-Holds j "a") [
        | inr (n, lacks) ↦ inr (
          rw (p, e1, n) refl,
          λ b a c d t.
              lacks a (subst (λ k. Holds k "a" a) (at_object payload j b a c d p t) t.has_ask),
        )
        | inl (ask, e2, h2) ↦ elim (number_at-Holds j "B") [
          | inr (n, lacks) ↦ inr (
            rw (p, e1, e2, n) refl,
            λ b a c d t.
                lacks c (subst (λ k. Holds k "B" c) (at_object payload j b a c d p t) t.has_bqty),
          )
          | inl (bqty, e3, h3) ↦ elim (number_at-Holds j "A") [
            | inr (n, lacks) ↦ inr (
              rw (p, e1, e2, e3, n) refl,
              λ b a c d t.
                  lacks d (subst (λ k. Holds k "A" d) (at_object payload j b a c d p t) t.has_aqty),
            )
            | inl (aqty, e4, h4) ↦ inl (
              bid,
              ask,
              bqty,
              aqty,
              rw (p, e1, e2, e3, e4) refl,
              record {
                object = j;
                is_object = p;
                has_bid = h1;
                has_ask = h2;
                has_bqty = h3;
                has_aqty = h4;
              },
            )
          ]
        ]
      ]
    ]
  ]

  -- parse_ws_book_ticker succeeds exactly if the payload is an object whose members b, a, B and A are texts
  -- of numbers: the event is then a book ticker with these as its bid, ask and quantities, scaled; it keeps
  -- its stamp, and its last trade lies between its prices, if these are not crossed. Otherwise it leaves the
  -- event alone.
  pub parse_ws_book_ticker-Parsed :
      (payload : List ℕ) (out : MarketEvent)
      → Parsed payload out
          (parse_ws_book_ticker scaled llround parse at get_string stod payload out)
  unfolding parse_ws_book_ticker set_quote to_price to_qty
  parse_ws_book_ticker-Parsed payload out = elim (ws_quote-cases payload) [
    | inl (bid, ask, bqty, aqty, e, t) ↦
        let between =
          midpoint-between (to_price scaled llround bid) (to_price scaled llround ask) in
        rw e (bid, ask, bqty, aqty, t, (refl, refl, refl, refl, refl, refl, between))
    | inr (e, lacks) ↦ rw e (refl, lacks)
  ]

  stamped-caught :
      (q : Option (Quote D)) (now : ℕ)
      → let f = caught scaled llround parse at get_string stod in
        pushed_event scaled llround parse at get_string stod now (f q new_event)
        ≡ fetched (stamped scaled llround parse at get_string stod now (f q new_event))
  stamped-caught none now = refl
  stamped-caught (some q) now = refl

  -- A WebSocket message and the body of a completed request that hold the same four numbers, or both
  -- lack one, lead to the same event, or to none.
  pub on_message-fetch_once :
      (payload body : List ℕ) (now : ℕ)
      → ws_quote scaled llround parse at get_string stod payload
        ≡ rest_quote scaled llround parse at get_string stod body
      → on_message scaled llround parse at get_string stod true payload now
        ≡ fetched (
            fetch_once scaled llround parse at get_string stod
              (performed true 200 body)
              now
              new_event)
  unfolding on_message parse_ws_book_ticker fetch_once
  on_message-fetch_once payload body now h =
      let f = caught scaled llround parse at get_string stod in
      ap (λ q. pushed_event scaled llround parse at get_string stod now (f q new_event)) h
      ∙ stamped-caught (rest_quote scaled llround parse at get_string stod body) now
