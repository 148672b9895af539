-- ===== src/SideBook/Levels.antt =====
-- The invariant of a side: its levels are sorted, none is empty, each counts its orders' quantity,
-- and an order rests at the level of its price.
use orderbook_c.Base.{
  All, All-append, Bool-cases, List, [], arith, false, inl, inr, refl, true, ℕ, ◌%◌, ◌++◌, ◌+◌, ◌<◌,
  ◌∷◌, ◌≡◌,
}
use orderbook_c.Base.Int.{==ℤ-eq, ℤ, ◌==ℤ◌}
use orderbook_c.SideBook.{PriceLevel, is_empty, less_for_side, new_level, push_back}
use orderbook_c.SideBook.Insert.{put_in}
use orderbook_c.SideBook.Sorted.{Below, IsSorted, less_of_not}
use orderbook_c.Types.{Order, Side, u64_mod}

abbrev pub sum_qty : List Order → ℕ
sum_qty [] = 0
sum_qty (o ∷ os) = o.qty + sum_qty os

-- An order that rests on side `s` at price `p`, with something left to fill.
pub record Rests (s : Side) (p : ℤ) (o : Order) : Type 0 where
  pub side_eq : o.side ≡ s
  pub price_eq : o.price ≡ p
  pub qty_pos : 0 < o.qty
  pub qty_lt : o.qty < u64_mod

-- `total_qty` is the sum up to the wrap-around of its type.
pub record IsLevel (s : Side) (l : PriceLevel) : Type 0 where
  pub nonempty : is_empty l.orders ≡ false
  pub total : l.total_qty ≡ sum_qty l.orders % u64_mod
  pub resting : All (Rests s l.price) l.orders

pub record IsSide (s : Side) (ls : List PriceLevel) : Type 0 where
  pub sorted : IsSorted s ls
  pub levels : All (IsLevel s) ls

sum_qty-append : (os us : List Order) → sum_qty (os ++ us) ≡ sum_qty os + sum_qty us
sum_qty-append [] us = omega arith
sum_qty-append (o ∷ os) us = omega (arith, sum_qty-append os us)

is_empty-append : (os : List Order) (o : Order) → is_empty (os ++ o ∷ []) ≡ false
is_empty-append [] o = refl
is_empty-append (x ∷ os) o = refl

push_back-IsLevel :
    (s : Side) (o : Order) (l : PriceLevel)
    → l.total_qty ≡ sum_qty l.orders % u64_mod
    → All (Rests s l.price) l.orders
    → Rests s l.price o
    → IsLevel s (push_back o l)
unfolding push_back
push_back-IsLevel s o l t r h = record {
  nonempty = is_empty-append l.orders o;
  total = omega (arith, sum_qty-append l.orders (o ∷ []));
  resting = All-append (Rests s l.price) l.orders (o ∷ []) r (h, tt);
}

put_in-Below :
    (s : Side) (o : Order) (q : ℤ) (ls : List PriceLevel)
    → less_for_side s o.price q ≡ true
    → Below s q ls
    → Below s q (put_in s o ls)
unfolding put_in push_back
put_in-Below s o q [] h b = (h, tt)
put_in-Below s o q (l ∷ ls) h b = elim (Bool-cases (less_for_side s l.price o.price)) [
  | inl e ↦ rw e (h, (e, b.1))
  | inr e ↦ rw e (elim (Bool-cases (l.price ==ℤ o.price)) [
    | inl n ↦ rw n (b.0, b.1)
    | inr n ↦ rw n (b.0, put_in-Below s o l.price ls (less_of_not s l.price o.price e n) b.1)
  ])
]

put_in-IsSorted :
    (s : Side) (o : Order) (ls : List PriceLevel) → IsSorted s ls → IsSorted s (put_in s o ls)
unfolding put_in push_back
put_in-IsSorted s o [] b = tt
put_in-IsSorted s o (l ∷ ls) b = elim (Bool-cases (less_for_side s l.price o.price)) [
  | inl e ↦ rw e (e, b)
  | inr e ↦ rw e (elim (Bool-cases (l.price ==ℤ o.price)) [
    | inl n ↦ rw n b
    | inr n ↦ rw n (put_in-Below s o l.price ls (less_of_not s l.price o.price e n) b)
  ])
]

new_level-IsLevel :
    (s : Side) (o : Order) → Rests s o.price o → IsLevel s (push_back o (new_level o.price))
new_level-IsLevel s o r = push_back-IsLevel s o (new_level o.price) (omega arith) tt r

put_in-IsLevel :
    (s : Side) (o : Order) (ls : List PriceLevel)
    → Rests s o.price o
    → All (IsLevel s) ls
    → All (IsLevel s) (put_in s o ls)
unfolding put_in
put_in-IsLevel s o [] r v = (new_level-IsLevel s o r, tt)
put_in-IsLevel s o (l ∷ ls) r v = elim (Bool-cases (less_for_side s l.price o.price)) [
  | inl e ↦ rw e (new_level-IsLevel s o r, v)
  | inr e ↦ rw e (elim (Bool-cases (l.price ==ℤ o.price)) [
    | inl n ↦
        rw n (push_back-IsLevel s o l v.0.total v.0.resting (rw (==ℤ-eq l.price o.price n) r), v.1)
    | inr n ↦ rw n (v.0, put_in-IsLevel s o ls r v.1)
  ])
]

-- An order that comes to rest keeps the side's invariant.
pub put_in-IsSide :
    (s : Side) (o : Order) (ls : List PriceLevel)
    → Rests s o.price o
    → IsSide s ls
    → IsSide s (put_in s o ls)
put_in-IsSide s o ls r v = record {
  sorted = put_in-IsSorted s o ls v.sorted;
  levels = put_in-IsLevel s o ls r v.levels;
}
