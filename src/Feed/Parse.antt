-- ===== src/Feed/Parse.antt =====
-- The two parsers of src/feed.cpp, with what the JSON library and the doubles do as parameters. A
-- missing result of theirs stands for an exception.
use Prim.Native.String.{String}
use orderbook_c.Base.{
  Bool, List, Option, codes, false, if◌then◌else◌, leb, map, none, not, some, true, ℕ, ◌&&◌, ◌++◌,
  ◌+◌, ◌==◌, ◌>>=◌, ◌||◌,
}
use orderbook_c.Base.Int.{pos, ℤ}
use orderbook_c.Feed.{MarketEvent, book_ticker, price_scale, quantity_scale}
use orderbook_c.Feed.Numbers.{midpoint, to_unsigned}

pub data BinanceMarket : Type 0 where
  spot futures : BinanceMarket

-- `MarketEvent ev;`
abbrev pub new_event : MarketEvent
new_event = record {
  kind = book_ticker;
  best_bid = pos 0;
  best_ask = pos 0;
  bid_qty = 0;
  ask_qty = 0;
  last_trade = pos 0;
  ts = 0;
}

-- The event that `run` pushes after `fetch_once`, if any.
abbrev pub fetched : Bool × MarketEvent → Option MarketEvent
fetched (true, ev) = some ev
fetched (false, ev) = none

-- The end of a request: no handle, or what `curl_easy_perform` said, the code and the body.
pub data Response : Type 0 where
  no_handle : Response
  performed : Bool → ℕ → List ℕ → Response

abbrev upper_to_lower : ℕ → ℕ
upper_to_lower c = if leb 65 c && leb c 90 then c + 32 else c

unfoldable pub lower : List ℕ → List ℕ
lower s = map upper_to_lower s

unfoldable pub rest_url : BinanceMarket → List ℕ → List ℕ
rest_url futures symbol =
    codes "https://fapi.binance.com/fapi/v1/ticker/bookTicker?symbol=" ++ symbol
rest_url spot symbol = codes "https://api.binance.com/api/v3/ticker/bookTicker?symbol=" ++ symbol

unfoldable pub ws_url : BinanceMarket → List ℕ → List ℕ
ws_url futures symbol =
    codes "wss://fstream.binance.com/ws/" ++ (lower symbol ++ codes "@bookTicker")
ws_url spot symbol =
    codes "wss://stream.binance.com:9443/ws/" ++ (lower symbol ++ codes "@bookTicker")

pub record Quote (D : Type 0) : Type 0 where
  pub bid : D
  pub ask : D
  pub bqty : D
  pub aqty : D

-- `scaled x k` is the product with the integer `k`.
module _ {D : Type 0} (scaled : D → ℕ → D) (llround : D → ℤ) where
  unfoldable pub to_price : D → ℤ
  to_price usd = llround (scaled usd price_scale)

  unfoldable pub to_qty : D → ℕ
  to_qty btc = to_unsigned (llround (scaled btc quantity_scale))

  -- The assignments of both parsers.
  unfoldable pub set_quote : Quote D → MarketEvent → MarketEvent
  set_quote q out = record out {
    kind = book_ticker;
    best_bid = to_price q.bid;
    best_ask = to_price q.ask;
    bid_qty = to_qty q.bqty;
    ask_qty = to_qty q.aqty;
    last_trade = midpoint (to_price q.bid) (to_price q.ask);
  }

  -- `parse` is that of the JSON library, `at` finds a member, `get_string` its text, `stod` a number.
  module _ {J : Type 0} (parse : List ℕ → Option J) (at : J → String → Option J)
      (get_string : J → Option (List ℕ)) (stod : List ℕ → Option D) where
    abbrev pub number_at : J → String → Option D
    number_at j key = do v ← at j key; s ← get_string v; stod s

    unfoldable pub read_quote : J → String → String → String → String → Option (Quote D)
    read_quote j bid_key ask_key bqty_key aqty_key = do
      bid ← number_at j bid_key
      ask ← number_at j ask_key
      bqty ← number_at j bqty_key
      aqty ← number_at j aqty_key
      some (record { bid = bid; ask = ask; bqty = bqty; aqty = aqty })

    -- The assignments, or the handler of the exceptions.
    abbrev pub caught : Option (Quote D) → MarketEvent → Bool × MarketEvent
    caught none out = (false, out)
    caught (some q) out = (true, set_quote q out)

    abbrev pub ws_quote : List ℕ → Option (Quote D)
    ws_quote payload = do j ← parse payload; read_quote j "b" "a" "B" "A"

    abbrev pub rest_quote : List ℕ → Option (Quote D)
    rest_quote body = do j ← parse body; read_quote j "bidPrice" "askPrice" "bidQty" "askQty"

    unfoldable pub parse_ws_book_ticker : List ℕ → MarketEvent → Bool × MarketEvent
    parse_ws_book_ticker payload out = caught (ws_quote payload) out

    -- `out.ts = now_ns();`
    abbrev pub stamped : ℕ → Bool × MarketEvent → Bool × MarketEvent
    stamped now (true, out) = (true, record out { ts = now })
    stamped now (false, out) = (false, out)

    unfoldable pub fetch_once : Response → ℕ → MarketEvent → Bool × MarketEvent
    fetch_once no_handle now out = (false, out)
    fetch_once (performed done http_code body) now out =
        if not done || not (http_code == 200)
        then (false, out)
        else stamped now (caught (rest_quote body) out)

    -- The event that the callback of the WebSocket pushes, if any; its first argument says whether the
    -- message is one.
    abbrev pub pushed_event : ℕ → Bool × MarketEvent → Option MarketEvent
    pushed_event now (true, ev) = some (record ev { ts = now })
    pushed_event now (false, ev) = none

    unfoldable pub on_message : Bool → List ℕ → ℕ → Option MarketEvent
    on_message is_message payload now =
        if is_message then pushed_event now (parse_ws_book_ticker payload new_event) else none
