-- ===== src/Feed/Numbers.antt =====
-- Numbers of src/feed.cpp: casts and the mean of two prices.
-- `static_cast<Quantity>` of a 64-bit integer.
use orderbook_c.Base.{arith, suc, ℕ, ◌%◌, ◌+◌, ◌-◌, ◌≡◌}
use orderbook_c.Base.Int.{add_ℤ_parts, neg_part, negsuc, pos, pos_part, ℤ, ◌+ℤ◌, ◌/ℤ◌, ◌≤ℤ◌}

abbrev pub to_unsigned : ℤ → ℕ
to_unsigned (pos n) = n % 18446744073709551616
to_unsigned (negsuc n) =
    (18446744073709551616 - suc n % 18446744073709551616) % 18446744073709551616

-- Division rounds towards zero.
abbrev pub midpoint : ℤ → ℤ → ℤ
midpoint bid ask = (bid +ℤ ask) /ℤ pos 2

half_of_sum :
    (a b z : ℤ)
    → a ≤ℤ b
    → pos_part z + neg_part a + neg_part b ≡ neg_part z + pos_part a + pos_part b
    → (a ≤ℤ (z /ℤ pos 2)) × ((z /ℤ pos 2) ≤ℤ b)
unfolding ◌/ℤ◌
half_of_sum (pos a) (pos b) (pos n) h e = (omega arith, omega arith)
half_of_sum (pos a) (negsuc b) (pos n) h e = omega arith
half_of_sum (negsuc a) (pos b) (pos n) h e = (omega arith, omega arith)
half_of_sum (negsuc a) (negsuc b) (pos n) h e = omega arith
half_of_sum (pos a) (pos b) (negsuc n) h e = omega arith
half_of_sum (pos a) (negsuc b) (negsuc n) h e = omega arith
half_of_sum (negsuc a) (pos b) (negsuc n) h e = ground arith
half_of_sum (negsuc a) (negsuc b) (negsuc n) h e = ground arith

pub midpoint-between : (a b : ℤ) → a ≤ℤ b → (a ≤ℤ midpoint a b) × (midpoint a b ≤ℤ b)
midpoint-between a b h = half_of_sum a b (a +ℤ b) h (add_ℤ_parts a b)
