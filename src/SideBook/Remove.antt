-- ===== src/SideBook/Remove.antt =====
-- `find` followed by `unlink` and `erase_if_empty`, which is how `cancel` uses them, on a sorted
-- vector.
use mathlib.Core.Option
use orderbook_c.Base.{
  Bool-cases, List, Option, [], ap, arith, false, get_elem?, if◌then◌else◌, inl, inr, modify_at,
  none, refl, some, subst, suc, suc_sub_one, true, zero, ℕ, ◌-◌, ◌∙◌, ◌∷◌, ◌≡◌,
}
use orderbook_c.Base.Int.{==ℤ-eq, ℤ, ◌==ℤ◌}
use orderbook_c.SideBook.{
  PriceLevel, erase_if_empty, erase_if_there, find, find_level, is_empty, less_for_side, position,
  stands_at, unlink,
}
use orderbook_c.SideBook.Sorted.{
  Below, IsSorted, IsSorted-of_Below, erase_if_empty-best, find_level-Below,
}
use orderbook_c.Types.{Order, Side}

-- `if (lvl->empty()) book.erase_if_empty(lvl)`.
abbrev erase_at : Side → List PriceLevel → Option PriceLevel → List PriceLevel
erase_at side ls none = ls
erase_at side ls (some lvl) = if is_empty lvl.orders then erase_if_empty side lvl ls else ls

abbrev pub unlink_at : Order → List PriceLevel → Option ℕ → List PriceLevel
unlink_at o ls none = ls
unlink_at o ls (some i) =
    let ls' = modify_at ls i (unlink o) in erase_at o.side ls' (get_elem? ls' i)

-- What `cancel` does with the levels of the order's side.
unfoldable pub unlink_in : Order → List PriceLevel → List PriceLevel
unlink_in o ls = unlink_at o ls (find o.side o.price ls)

-- The order leaves the level of its price, and the level goes with its last order.
unfoldable pub take_out : Order → List PriceLevel → List PriceLevel
take_out o [] = []
take_out o (l ∷ ls) =
    let more = l ∷ take_out o ls in
    let l' = unlink o l in
    if less_for_side o.side l.price o.price
    then l ∷ ls
    else (if l.price ==ℤ o.price then (if is_empty l'.orders then ls else l' ∷ ls) else more)

-- The searches of a vector, when the best level is not the one that is looked for.
module _ (p : ℤ) (l : PriceLevel) (ls : List PriceLevel) (other : (l.price ==ℤ p) ≡ false) where
  position-cons : (k : ℕ) → position p (l ∷ ls) (suc k) ≡ Option.map suc (position p ls k)
  unfolding stands_at
  position-cons zero = rw other refl
  position-cons (suc k) = elim (Bool-cases (stands_at (get_elem? ls k) p)) [
    | inl e ↦ rw (e, suc_sub_one (suc k), suc_sub_one k) refl
    | inr e ↦ rw e refl
  ]

  erase_if_there-cons : (k : ℕ) → erase_if_there p (l ∷ ls) (suc k) ≡ l ∷ erase_if_there p ls k
  unfolding stands_at
  erase_if_there-cons zero = rw other refl
  erase_if_there-cons (suc k) = elim (Bool-cases (stands_at (get_elem? ls k) p)) [
    | inl e ↦ rw (e, suc_sub_one (suc k), suc_sub_one k) refl
    | inr e ↦ rw e refl
  ]

erase_if_empty-cons :
    (s : Side) (lvl l : PriceLevel) (ls : List PriceLevel)
    → less_for_side s l.price lvl.price ≡ false
    → (l.price ==ℤ lvl.price) ≡ false
    → erase_if_empty s lvl (l ∷ ls) ≡ l ∷ erase_if_empty s lvl ls
unfolding erase_if_empty find_level
erase_if_empty-cons s lvl l ls h n = rw h (elim (Bool-cases (is_empty lvl.orders)) [
  | inl e ↦ rw e (erase_if_there-cons lvl.price l ls n (find_level s lvl.price ls))
  | inr e ↦ rw e refl
])

erase_at-cons :
    (s : Side) (p : ℤ) (l : PriceLevel) (ls : List PriceLevel) (o : Option PriceLevel)
    → less_for_side s l.price p ≡ false
    → (l.price ==ℤ p) ≡ false
    → stands_at o p ≡ true
    → erase_at s (l ∷ ls) o ≡ l ∷ erase_at s ls o
erase_at-cons s p l ls none h n e = unfold stands_at in cc
erase_at-cons s p l ls (some lvl) h n e = elim (Bool-cases (is_empty lvl.orders)) [
  | inl q ↦ rw q (erase_if_empty-cons s lvl l ls (rw same h) (rw same n))
  | inr q ↦ rw q refl
]
  where
    same : lvl.price ≡ p
    same = ==ℤ-eq lvl.price p (unfold stands_at in e)

stands_at_of_position :
    (p : ℤ) (ls : List PriceLevel) (k i : ℕ)
    → position p ls k ≡ some i
    → stands_at (get_elem? ls i) p ≡ true
unfolding stands_at
stands_at_of_position p ls zero i h = cc
stands_at_of_position p ls (suc k) i h = elim (Bool-cases (stands_at (get_elem? ls k) p)) [
  | inl e ↦
      let h' : some (suc k - 1) ≡ some i = rw e at h in
      let j : k ≡ i = ground (arith, suc_sub_one k) in
      subst (λ n. stands_at (get_elem? ls n) p ≡ true) j e
  | inr e ↦ let h' : none ≡ some i = rw e at h in cc
]

stands_at-modify_at :
    (p : ℤ) (o : Order) (ls : List PriceLevel) (i : ℕ)
    → stands_at (get_elem? (modify_at ls i (unlink o)) i) p ≡ stands_at (get_elem? ls i) p
unfolding stands_at unlink
stands_at-modify_at p o [] i = refl
stands_at-modify_at p o (l ∷ ls) zero = refl
stands_at-modify_at p o (l ∷ ls) (suc i) = stands_at-modify_at p o ls i

unlink_at-cons :
    (o : Order) (l : PriceLevel) (ls : List PriceLevel) (i : Option ℕ)
    → less_for_side o.side l.price o.price ≡ false
    → (l.price ==ℤ o.price) ≡ false
    → ((k : ℕ) → i ≡ some k → stands_at (get_elem? ls k) o.price ≡ true)
    → unlink_at o (l ∷ ls) (Option.map suc i) ≡ l ∷ unlink_at o ls i
unlink_at-cons o l ls none h n st = refl
unlink_at-cons o l ls (some k) h n st =
    erase_at-cons o.side o.price l (modify_at ls k (unlink o)) _ h n
      (stands_at-modify_at o.price o ls k ∙ st k refl)

unlink_at-best :
    (o : Order) (l : PriceLevel) (ls : List PriceLevel)
    → Below o.side l.price ls
    → unlink_at o (l ∷ ls) (some 0) ≡ (if is_empty (unlink o l).orders then ls else unlink o l ∷ ls)
unlink_at-best o l ls b = elim (Bool-cases (is_empty (unlink o l).orders)) [
  | inl e ↦ rw e (erase_if_empty-best o.side (unlink o l) ls (unfold unlink in b) ∙ rw e refl)
  | inr e ↦ rw e refl
]

-- On a sorted vector, `find`, `unlink` and `erase_if_empty` take an order out where one pass from
-- the best level would.
pub unlink_in-take_out :
    (o : Order) (ls : List PriceLevel) → IsSorted o.side ls → unlink_in o ls ≡ take_out o ls
unfolding unlink_in take_out find find_level stands_at
unlink_in-take_out o [] h = refl
unlink_in-take_out o (l ∷ ls) h = elim (Bool-cases (less_for_side o.side l.price o.price)) [
  | inl e ↦ rw e refl
  | inr e ↦ rw e (elim (Bool-cases (l.price ==ℤ o.price)) [
    | inl q ↦
        rw
          (
            find_level-Below o.side o.price ls
                (subst (λ p. Below o.side p ls) (==ℤ-eq l.price o.price q) h),
            q,
          )
          (unlink_at-best o l ls h)
    | inr n ↦
        rw (n, position-cons o.price l ls n (find_level o.side o.price ls))
          (unlink_at-cons o l ls (position o.price ls (find_level o.side o.price ls)) e n
              (stands_at_of_position o.price ls (find_level o.side o.price ls))
            ∙ ap (◌∷◌ l) (unlink_in-take_out o ls (IsSorted-of_Below o.side l.price ls h)))
  ])
]
