-- ===== src/SideBook/Sorted.antt =====
-- The order of a side's levels, and what the searches of SideBook find in a sorted vector.
use orderbook_c.Base.{List, [], arith, false, refl, true, ◌∷◌, ◌≡◌}
use orderbook_c.Base.Int.{==ℤ_refl, eq_of_parts, ℤ, ◌==ℤ◌}
use orderbook_c.SideBook.{
  PriceLevel, erase_if_empty, find_level, is_empty, less_for_side, stands_at,
}
use orderbook_c.Types.{Side, buy, sell}

pub less_for_side_irrefl : (s : Side) (a : ℤ) → less_for_side s a a ≡ false
unfolding less_for_side
less_for_side_irrefl buy a = ground arith
less_for_side_irrefl sell a = ground arith

pub less_for_side_trans :
    (s : Side) (a b c : ℤ)
    → less_for_side s a b ≡ true
    → less_for_side s b c ≡ true
    → less_for_side s a c ≡ true
unfolding less_for_side
less_for_side_trans buy a b c h k = ground arith
less_for_side_trans sell a b c h k = ground arith

pub less_for_side_asymm :
    (s : Side) (a b : ℤ) → less_for_side s a b ≡ true → less_for_side s b a ≡ false
unfolding less_for_side
less_for_side_asymm buy a b h = ground arith
less_for_side_asymm sell a b h = ground arith

pub less_for_side_total :
    (s : Side) (a b : ℤ) → less_for_side s a b ≡ false → less_for_side s b a ≡ false → a ≡ b
unfolding less_for_side
less_for_side_total buy a b h k = eq_of_parts a b (ground arith)
less_for_side_total sell a b h k = eq_of_parts a b (ground arith)

-- The prices get worse along the list, and the first is worse than `p`.
abbrev pub Below : Side → ℤ → List PriceLevel → Type 0
Below s p [] = Unit {0}
Below s p (l ∷ ls) = (less_for_side s l.price p ≡ true) × Below s l.price ls

-- The best level stands at the back of the vector, and no price occurs twice.
abbrev pub IsSorted : Side → List PriceLevel → Type 0
IsSorted s [] = Unit {0}
IsSorted s (l ∷ ls) = Below s l.price ls

pub IsSorted-of_Below : (s : Side) (p : ℤ) (ls : List PriceLevel) → Below s p ls → IsSorted s ls
IsSorted-of_Below s p [] b = tt
IsSorted-of_Below s p (l ∷ ls) b = b.1

pub Below-mono :
    (s : Side) (p q : ℤ) (ls : List PriceLevel)
    → less_for_side s p q ≡ true
    → Below s p ls
    → Below s q ls
Below-mono s p q [] h b = tt
Below-mono s p q (l ∷ ls) h b = (less_for_side_trans s l.price p q b.0 h, b.1)

pub find_level-Below :
    (s : Side) (p : ℤ) (ls : List PriceLevel) → Below s p ls → find_level s p ls ≡ 0
unfolding find_level
find_level-Below s p [] b = refl
find_level-Below s p (l ∷ ls) b = ground arith

-- A level that the sorted vector ends with is found again, and erased if it is empty.
pub erase_if_empty-best :
    (s : Side) (l : PriceLevel) (ls : List PriceLevel)
    → Below s l.price ls
    → erase_if_empty s l (l ∷ ls) ≡ (elim (is_empty l.orders) [ true ↦ ls | false ↦ l ∷ ls ])
unfolding erase_if_empty find_level stands_at
erase_if_empty-best s l ls b =
    ground
      (arith, find_level-Below s l.price ls b, less_for_side_irrefl s l.price, ==ℤ_refl l.price)

pub less_of_not :
    (s : Side) (a b : ℤ)
    → less_for_side s a b ≡ false
    → (a ==ℤ b) ≡ false
    → less_for_side s b a ≡ true
unfolding less_for_side
less_of_not buy a b h n = ground arith
less_of_not sell a b h n = ground arith
