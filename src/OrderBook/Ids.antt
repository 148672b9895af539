-- ===== src/OrderBook/Ids.antt =====
-- The index of ids against the resting orders.
pub mod Match
pub mod Calls
pub mod Cancel
use orderbook_c.Base.{
  Bool, Bool-cases, List, [], arith, inl, inr, none, refl, some, ℕ, ◌&&◌, ◌+◌, ◌-◌, ◌==◌, ◌∷◌, ◌≡◌,
  ◌≢◌, ◌≤◌,
}
use orderbook_c.OrderBook.State.{Index, emplace, erase_id, find_id}
use orderbook_c.SideBook.{order_at}
use orderbook_c.SideBook.Counts.{count_by, one_if}
use orderbook_c.Types.{Order}

abbrev pub count_key : ℕ → Index → ℕ
count_key i [] = 0
count_key i ((k, s) ∷ m) = one_if (k == i) + count_key i m

abbrev pub count_entry : ℕ → ℕ → Index → ℕ
count_entry i s [] = 0
count_entry i s ((k, t) ∷ m) = one_if ((k == i) && (t == s)) + count_entry i s m

-- The tests for the orders with an id, and for those with an id and an address.
abbrev pub has_id : ℕ → Order → Bool
has_id i o = o.id == i

abbrev pub is_at : ℕ → ℕ → Order → Bool
is_at i s o = (o.id == i) && (o.slot == s)

abbrev pub count_id : ℕ → List Order → ℕ
count_id i = count_by (has_id i)

abbrev pub count_order : ℕ → ℕ → List Order → ℕ
count_order i s = count_by (is_at i s)

-- The index names each id once, and each of its entries leads to a resting order with that id.
pub record IsIndex (index : Index) (os : List Order) : Type 0 where
  pub unique : (i : ℕ) → count_key i index ≤ 1
  pub live : (i s : ℕ) → count_entry i s index ≤ count_order i s os

-- Every resting order can be found by its id, and no two have the same.
abbrev pub IsComplete : Index → List Order → Type 0
IsComplete index os = (i : ℕ) → count_id i os ≤ count_key i index

pub count_entry-le-key : (i s : ℕ) (m : Index) → count_entry i s m ≤ count_key i m
count_entry-le-key i s [] = omega arith
count_entry-le-key i s ((k, t) ∷ m) = ground (arith, count_entry-le-key i s m)

pub count_key-erase_id :
    (j i : ℕ) (m : Index) → count_key i (erase_id j m) ≡ count_key i m - one_if (j == i)
unfolding erase_id
count_key-erase_id j i [] = ground arith
count_key-erase_id j i ((k, t) ∷ m) = ground (arith, count_key-erase_id j i m)

pub count_entry-erase_id :
    (j i s : ℕ) (m : Index) → j ≢ i → count_entry i s (erase_id j m) ≡ count_entry i s m
unfolding erase_id
count_entry-erase_id j i s [] n = refl
count_entry-erase_id j i s ((k, t) ∷ m) n = ground (arith, count_entry-erase_id j i s m)

pub find_id-entry : (i s : ℕ) (m : Index) → find_id i m ≡ some s → 1 ≤ count_entry i s m
unfolding find_id
find_id-entry i s [] h = cc
find_id-entry i s ((k, t) ∷ m) h = ground (arith, find_id-entry i s m)

pub find_id-none : (i : ℕ) (m : Index) → find_id i m ≡ none → count_key i m ≡ 0
unfolding find_id
find_id-none i [] h = refl
find_id-none i ((k, t) ∷ m) h = ground (arith, find_id-none i m)

-- An order with the address is found there.
pub order_at_of_count :
    (i s : ℕ) (os : List Order) → 1 ≤ count_order i s os → (o : Order) × (order_at s os ≡ some o)
unfolding order_at
order_at_of_count i s [] h = absurd (omega arith)
order_at_of_count i s (x ∷ os) h = elim (Bool-cases (x.slot == s)) [
  | inl e ↦ (x, rw e refl)
  | inr e ↦ let (o, f) = order_at_of_count i s os (ground arith) in (o, rw e f)
]

pub count_key-emplace :
    (j s i : ℕ) (m : Index) → count_key i m ≤ 1 → count_key i (emplace j s m) ≤ 1
unfolding emplace
count_key-emplace j s i m h = ground (arith, find_id-none j m)

pub count_entry-emplace :
    (j s i t : ℕ) (m : Index)
    → count_entry i t (emplace j s m) ≤ one_if ((j == i) && (s == t)) + count_entry i t m
unfolding emplace
count_entry-emplace j s i t m = ground arith

-- An id that is not in the index gets an entry.
pub count_key-emplace_fresh :
    (j s i : ℕ) (m : Index)
    → find_id j m ≡ none
    → count_key i (emplace j s m) ≡ one_if (j == i) + count_key i m
unfolding emplace
count_key-emplace_fresh j s i m h = ground arith

count_order-le-slot :
    (i s : ℕ) (os : List Order) → count_order i s os ≤ count_by (λ x. x.slot == s) os
count_order-le-slot i s [] = omega arith
count_order-le-slot i s (x ∷ os) = ground (arith, count_order-le-slot i s os)

-- Where a slot is used once, the order that stands there is the one that was counted.
pub id_of_count :
    (i s : ℕ) (os : List Order) (o : Order)
    → count_by (λ x. x.slot == s) os ≤ 1
    → order_at s os ≡ some o
    → 1 ≤ count_order i s os
    → o.id ≡ i
unfolding order_at
id_of_count i s [] o u h c = cc
id_of_count i s (x ∷ os) o u h c = ground (arith, id_of_count i s os o, count_order-le-slot i s os)
