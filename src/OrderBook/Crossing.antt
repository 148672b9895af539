-- ===== src/OrderBook/Crossing.antt =====
-- When an order would trade with the best level of the other side, and that what stays after `match`
-- does not.
use orderbook_c.Base.{List, [], arith, false, refl, true, ◌<◌, ◌∙◌, ◌∷◌, ◌≡◌}
use orderbook_c.Base.Int.{ℤ}
use orderbook_c.OrderBook.Levels.{sweep-Below}
use orderbook_c.OrderBook.Match.{Progress, is_market, may_trade, price_crosses}
use orderbook_c.OrderBook.State.{opposite}
use orderbook_c.OrderBook.Sweep.{best_match, match_orders-stops, sweep, sweep_cases}
use orderbook_c.SideBook.{PriceLevel, less_for_side, push_back, unlink}
use orderbook_c.SideBook.Held.{take_out_cases}
use orderbook_c.SideBook.Insert.{put_in}
use orderbook_c.SideBook.Remove.{take_out}
use orderbook_c.SideBook.Sorted.{Below, IsSorted}
use orderbook_c.Types.{Order, Side, buy, sell}

-- An order of side `s` at price `p` trades with nothing on the other side.
abbrev pub Clear : Side → ℤ → List PriceLevel → Type 0
Clear s p [] = Unit {0}
Clear s p (l ∷ ls) = price_crosses s p l.price ≡ false

-- The best level of side `s` is clear of the other side.
abbrev pub Apart : Side → List PriceLevel → List PriceLevel → Type 0
Apart s [] theirs = Unit {0}
Apart s (l ∷ ls) theirs = Clear s l.price theirs

price_crosses_sym : (s : Side) (a b : ℤ) → price_crosses (opposite s) b a ≡ price_crosses s a b
unfolding price_crosses
price_crosses_sym buy a b = refl
price_crosses_sym sell a b = refl

pub Apart-sym :
    (s : Side) (ours theirs : List PriceLevel)
    → Apart s ours theirs
    → Apart (opposite s) theirs ours
Apart-sym s [] [] h = tt
Apart-sym s [] (t ∷ ts) h = tt
Apart-sym s (l ∷ ls) [] h = tt
Apart-sym s (l ∷ ls) (t ∷ ts) h = price_crosses_sym s l.price t.price ∙ h

-- A worse price crosses less.
price_crosses-worse :
    (s : Side) (p a b : ℤ)
    → less_for_side (opposite s) b a ≡ true
    → price_crosses s p a ≡ false
    → price_crosses s p b ≡ false
unfolding price_crosses less_for_side
price_crosses-worse buy p a b h c = ground arith
price_crosses-worse sell p a b h c = ground arith

pub Clear-Below :
    (s : Side) (p q : ℤ) (ls : List PriceLevel)
    → Below (opposite s) q ls
    → price_crosses s p q ≡ false
    → Clear s p ls
Clear-Below s p q [] b h = tt
Clear-Below s p q (l ∷ ls) b h = price_crosses-worse s p q l.price b.0 h

-- `match` takes levels off the best end only.
pub Clear-sweep :
    (s : Side) (p : ℤ) (taker : Order) (ls : List PriceLevel) (pr : Progress)
    → IsSorted (opposite s) ls
    → Clear s p ls
    → Clear s p (sweep taker ls pr).levels
Clear-sweep s p taker [] pr b c = unfold sweep in tt
Clear-sweep s p taker (l ∷ ls) pr b c =
    sweep_cases taker l ls pr (λ r. Clear s p r.levels) (λ _. c) (λ _. c)
      (λ _ _.
        Clear-Below s p l.price _
          (sweep-Below (opposite s) l.price taker ls (best_match taker l ls pr).progress b) c)
      (λ _ _. c)

-- A taker that is left with some quantity can trade with nothing that stays.
pub sweep-exhausts :
    (taker : Order) (ls : List PriceLevel) (p : Progress)
    → is_market taker.type ≡ false
    → 0 < (sweep taker ls p).progress.qty
    → Clear taker.side taker.price (sweep taker ls p).levels
sweep-exhausts taker [] p m h = unfold sweep in tt
sweep-exhausts taker (l ∷ ls) p m h =
    (sweep_cases taker l ls p (λ r. 0 < r.progress.qty → Clear taker.side taker.price r.levels)
        (λ z k. absurd (ground arith)) (λ o k. unfold may_trade in ground arith)
        (λ _ _ k. sweep-exhausts taker ls (best_match taker l ls p).progress m k)
        (λ _ e k.
          absurd (omega (arith, match_orders-stops taker l.price l.total_qty l.orders p e))))
      h

-- An order that rests clear of the other side leaves the sides apart.
pub Apart-put_in :
    (s : Side) (o : Order) (ours theirs : List PriceLevel)
    → Clear s o.price theirs
    → Apart s ours theirs
    → Apart s (put_in s o ours) theirs
unfolding put_in push_back
Apart-put_in s o [] theirs c a = c
Apart-put_in s o (l ∷ ls) theirs c a = ground arith

Clear-worse :
    (s : Side) (a b : ℤ) (theirs : List PriceLevel)
    → less_for_side s b a ≡ true
    → Clear s a theirs
    → Clear s b theirs
unfolding price_crosses less_for_side
Clear-worse s a b [] h c = tt
Clear-worse buy a b (t ∷ ts) h c = ground arith
Clear-worse sell a b (t ∷ ts) h c = ground arith

Apart-tail :
    (s : Side) (l : PriceLevel) (ls theirs : List PriceLevel)
    → Below s l.price ls
    → Clear s l.price theirs
    → Apart s ls theirs
Apart-tail s l [] theirs b a = tt
Apart-tail s l (k ∷ ks) theirs b a = Clear-worse s l.price k.price theirs b.0 a

-- Taking an order out of a side makes its best price no better.
pub Apart-take_out :
    (o : Order) (ours theirs : List PriceLevel)
    → IsSorted o.side ours
    → Apart o.side ours theirs
    → Apart o.side (take_out o ours) theirs
Apart-take_out o [] theirs b a = unfold take_out in tt
Apart-take_out o (l ∷ ls) theirs b a =
    take_out_cases o l ls (λ r. Apart o.side r theirs) (λ _. a)
      (λ _ _. Apart-tail o.side l ls theirs b a) (λ _ _. unfold unlink in a) (λ _. a)
