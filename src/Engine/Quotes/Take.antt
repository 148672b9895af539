-- ===== src/Engine/Quotes/Take.antt =====
-- An immediate-or-cancel order at the price of the quote that it crosses.
use orderbook_c.Base.{
  Bool, Bool-cases, List, Option, [], arith, false, if◌then◌else◌, inl, inr, ltb, min, none, refl,
  some, true, ℕ, ◌&&◌, ◌-◌, ◌<◌, ◌==◌, ◌∷◌, ◌≡◌,
}
use orderbook_c.Base.Int.{==ℤ_refl, leb_ℤ}
use orderbook_c.Engine.Quotes.{Quote, book_of, entries}
use orderbook_c.OrderBook.Match.{match_book, match_loop, match_orders, may_trade, price_crosses}
use orderbook_c.OrderBook.State.{erase_id}
use orderbook_c.OrderBook.Submit.{is_killed, place, submit, submit_with}
use orderbook_c.SideBook.{erase_if_empty, find_level, stands_at}
use orderbook_c.SideBook.Sorted.{less_for_side_irrefl}
use orderbook_c.Types.{add64, buy, ioc, sell, sub64, u64_mod}

-- What is left of a quote after `n` of it have traded.
abbrev pub left_of : Quote → ℕ → Option Quote
left_of q n = if ltb n q.qty then some (record q { qty = q.qty - n }) else none

-- The pool's free list afterwards, from that before.
abbrev pub free_after : ℕ → List ℕ → Quote → ℕ → List ℕ
free_after s free q n = if ltb n q.qty then s ∷ free else s ∷ q.slot ∷ free

and_false : (b : Bool) → (b && false) ≡ false
and_false true = refl
and_false false = refl

pub submit-take_ask :
    (s : ℕ) (free : List ℕ) (clock : ℕ) (bid : Option Quote) (q : Quote) (id n : ℕ)
    → 0 < n
    → 0 < q.qty
    → q.qty < u64_mod
    → submit (book_of (s ∷ free) clock bid (some q)) id buy ioc q.price n 0 ≡ record {
      accepted = true;
      trades =
          record {
            maker_id = 2;
            taker_id = id;
            price = q.price;
            qty = min n q.qty;
            ts = add64 clock 1;
          }
          ∷ [];
      book = book_of (free_after s free q n) (add64 clock 1) bid (left_of q n);
    }
unfolding submit submit_with place match_book match_loop match_orders is_killed erase_id
    erase_if_empty find_level stands_at may_trade price_crosses
submit-take_ask s free clock bid q id n h k w = elim (Bool-cases (ltb n q.qty)) [
  | inl part ↦
      let e : (n == 0) ≡ false = ground arith in
      let x : leb_ℤ q.price q.price ≡ true = ground arith in
      let m : min n q.qty ≡ n = ground arith in
      let d : (q.qty - n == 0) ≡ false = ground arith in
      let z : n - n ≡ 0 = omega arith in
      let t : sub64 q.qty n ≡ q.qty - n = ground arith in rw (part, e, x, m, d, z, t) refl
  | inr whole ↦
      let e : (n == 0) ≡ false = ground arith in
      let x : leb_ℤ q.price q.price ≡ true = ground arith in
      let m : min n q.qty ≡ q.qty = ground arith in
      let d : (q.qty - q.qty == 0) ≡ true = ground arith in
      let b : (ltb 0 (n - q.qty) && false) ≡ false = and_false (ltb 0 (n - q.qty)) in
      rw (whole, e, x, m, d, less_for_side_irrefl sell q.price, ==ℤ_refl q.price, b) refl
]

erase_id-bid :
    (s : ℕ) (ask : Option Quote) → erase_id 1 (entries 2 ask ((1, s) ∷ [])) ≡ entries 2 ask []
unfolding erase_id
erase_id-bid s none = refl
erase_id-bid s (some q) = refl

pub submit-take_bid :
    (s : ℕ) (free : List ℕ) (clock : ℕ) (q : Quote) (ask : Option Quote) (id n : ℕ)
    → 0 < n
    → 0 < q.qty
    → q.qty < u64_mod
    → submit (book_of (s ∷ free) clock (some q) ask) id sell ioc q.price n 0 ≡ record {
      accepted = true;
      trades =
          record {
            maker_id = 1;
            taker_id = id;
            price = q.price;
            qty = min n q.qty;
            ts = add64 clock 1;
          }
          ∷ [];
      book = book_of (free_after s free q n) (add64 clock 1) (left_of q n) ask;
    }
unfolding submit submit_with place match_book match_loop match_orders is_killed erase_if_empty
    find_level stands_at may_trade price_crosses
submit-take_bid s free clock q ask id n h k w = elim (Bool-cases (ltb n q.qty)) [
  | inl part ↦
      let e : (n == 0) ≡ false = ground arith in
      let x : leb_ℤ q.price q.price ≡ true = ground arith in
      let m : min n q.qty ≡ n = ground arith in
      let d : (q.qty - n == 0) ≡ false = ground arith in
      let z : n - n ≡ 0 = omega arith in
      let t : sub64 q.qty n ≡ q.qty - n = ground arith in rw (part, e, x, m, d, z, t) refl
  | inr whole ↦
      let e : (n == 0) ≡ false = ground arith in
      let x : leb_ℤ q.price q.price ≡ true = ground arith in
      let m : min n q.qty ≡ q.qty = ground arith in
      let d : (q.qty - q.qty == 0) ≡ true = ground arith in
      let b : (ltb 0 (n - q.qty) && false) ≡ false = and_false (ltb 0 (n - q.qty)) in
      rw
        (
          whole,
          e,
          x,
          m,
          d,
          less_for_side_irrefl buy q.price,
          ==ℤ_refl q.price,
          b,
          erase_id-bid q.slot ask,
        )
        refl
]
