-- ===== src/Engine/Quotes/Submit.antt =====
-- `submit` of a quote that crosses nothing.
use orderbook_c.Base.{
  List, Option, [], arith, false, ltb, none, refl, some, true, ℕ, ◌%◌, ◌+◌, ◌<◌, ◌==◌, ◌∷◌, ◌≡◌,
}
use orderbook_c.Base.Int.{leb_ℤ, ltb_ℤ, ℤ}
use orderbook_c.Engine.Quotes.{Quote, book_of}
use orderbook_c.OrderBook.Match.{match_book, match_loop, may_trade, price_crosses}
use orderbook_c.OrderBook.State.{emplace, find_id}
use orderbook_c.OrderBook.Submit.{is_killed, place, rest, submit, submit_with}
use orderbook_c.SideBook.{find_level, get_or_insert, push_back, stands_at}
use orderbook_c.Types.{add64, buy, limit, sell, u64_mod}

pub submit-bid :
    (s : ℕ) (free : List ℕ) (clock : ℕ) (px : ℤ) (qty : ℕ)
    → 0 < qty
    → qty < u64_mod
    → submit (book_of (s ∷ free) clock none none) 1 buy limit px qty 0 ≡ record {
      accepted = true;
      trades = [];
      book =
          book_of free
            (add64 clock 1)
            (some (record { slot = s; price = px; qty = qty; ts = add64 clock 1 }))
            none;
    }
unfolding submit submit_with place match_book match_loop is_killed rest get_or_insert find_level
    stands_at push_back emplace find_id
submit-bid s free clock px qty h k =
    let e : (qty == 0) ≡ false = ground arith in
    let f : ltb 0 qty ≡ true = ground arith in
    let g : (0 + qty) % u64_mod ≡ qty = omega arith in rw (e, f, g) refl

pub submit-ask :
    (s : ℕ) (free : List ℕ) (clock : ℕ) (bid : Option Quote) (px : ℤ) (qty : ℕ)
    → 0 < qty
    → qty < u64_mod
    → ((q : Quote) → bid ≡ some q → ltb_ℤ q.price px ≡ true)
    → submit (book_of (s ∷ free) clock bid none) 2 sell limit px qty 0 ≡ record {
      accepted = true;
      trades = [];
      book =
          book_of free
            (add64 clock 1)
            bid
            (some (record { slot = s; price = px; qty = qty; ts = add64 clock 1 }));
    }
unfolding submit submit_with place match_book match_loop is_killed rest get_or_insert find_level
    stands_at push_back emplace find_id may_trade price_crosses
submit-ask s free clock none px qty h k apart =
    let e : (qty == 0) ≡ false = ground arith in
    let f : ltb 0 qty ≡ true = ground arith in
    let g : (0 + qty) % u64_mod ≡ qty = omega arith in rw (e, f, g) refl
submit-ask s free clock (some q) px qty h k apart =
    let e : (qty == 0) ≡ false = ground arith in
    let f : ltb 0 qty ≡ true = ground arith in
    let g : (0 + qty) % u64_mod ≡ qty = omega arith in
    let x : leb_ℤ px q.price ≡ false = ground (arith, apart q refl) in rw (e, x, f, g) refl
