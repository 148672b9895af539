-- ===== src/SideBook/Insert.antt =====
-- `get_or_insert` followed by `push_back`, which is how `rest` uses them, on a sorted vector.
use orderbook_c.Base.{
  Bool-cases, List, [], ap, false, get_elem?, if◌then◌else◌, inl, inr, modify_at, refl, subst, suc,
  suc_sub_one, zero, ℕ, ◌∙◌, ◌∷◌, ◌≡◌,
}
use orderbook_c.Base.Int.{==ℤ-eq, ◌==ℤ◌}
use orderbook_c.SideBook.{
  PriceLevel, find_level, get_or_insert, insert_if_absent, less_for_side, new_level, push_back,
  stands_at,
}
use orderbook_c.SideBook.Sorted.{Below, IsSorted, IsSorted-of_Below, find_level-Below}
use orderbook_c.Types.{Order, Side}

abbrev pub put_at : Order → ℕ × List PriceLevel → List PriceLevel
put_at o r = modify_at r.1 r.0 (push_back o)

-- An order joins the back of its price's level, or a new level in the place that its price asks for.
unfoldable pub put_in : Side → Order → List PriceLevel → List PriceLevel
put_in s o [] = push_back o (new_level o.price) ∷ []
put_in s o (l ∷ ls) =
    let more = l ∷ put_in s o ls in
    if less_for_side s l.price o.price
    then push_back o (new_level o.price) ∷ l ∷ ls
    else (if l.price ==ℤ o.price then push_back o l ∷ ls else more)

put_at-cons :
    (o : Order) (l : PriceLevel) (ls : List PriceLevel) (k : ℕ)
    → (l.price ==ℤ o.price) ≡ false
    → put_at o (insert_if_absent o.price (l ∷ ls) (suc k))
      ≡ l ∷ put_at o (insert_if_absent o.price ls k)
unfolding stands_at
put_at-cons o l ls zero h = rw h
put_at-cons o l ls (suc k) h = elim (Bool-cases (stands_at (get_elem? ls k) o.price)) [
  | inl e ↦ rw (e, suc_sub_one (suc k), suc_sub_one k) refl
  | inr e ↦ rw e refl
]

-- On a sorted vector, `get_or_insert` and `push_back` put an order where one pass from the best
-- level would.
pub get_or_insert-put_in :
    (s : Side) (o : Order) (ls : List PriceLevel)
    → IsSorted s ls
    → put_at o (get_or_insert s o.price ls) ≡ put_in s o ls
unfolding get_or_insert put_in find_level stands_at
get_or_insert-put_in s o [] h = refl
get_or_insert-put_in s o (l ∷ ls) h = elim (Bool-cases (less_for_side s l.price o.price)) [
  | inl e ↦ rw e refl
  | inr e ↦ rw e (elim (Bool-cases (l.price ==ℤ o.price)) [
    | inl q ↦
        rw
          (
            find_level-Below s o.price ls (subst (λ p. Below s p ls) (==ℤ-eq l.price o.price q) h),
            q,
          )
          refl
    | inr n ↦ rw n (
        put_at-cons o l ls (find_level s o.price ls) n
        ∙ ap (◌∷◌ l) (get_or_insert-put_in s o ls (IsSorted-of_Below s l.price ls h)))
  ])
]
