-- ===== src/OrderBook/Ids/Cancel.antt =====
-- `cancel` follows no dangling pointer, and takes out exactly the order that it is asked to.
use orderbook_c.Base.{
  Bool, List, Option-cases, [], arith, false, inl, inr, none, refl, some, true, ℕ, ◌+◌, ◌∷◌, ◌≡◌,
  ◌≤◌, ◌⊎◌,
}
use orderbook_c.OrderBook.Cancel.{cancel, without}
use orderbook_c.OrderBook.Ids.{
  IsIndex, count_entry-erase_id, count_entry-le-key, count_key, count_key-erase_id, is_at,
}
use orderbook_c.OrderBook.Ids.Calls.{
  IsIndexed, NoSharing, find_id-resting, resting, resting_side, resting_with_levels,
}
use orderbook_c.OrderBook.Invariant.{IsBook, IsSide-of}
use orderbook_c.OrderBook.Invariant.Cancel.{order_at-side}
use orderbook_c.OrderBook.State.{Index, OrderBook, erase_id, find_id, levels_of, put_levels}
use orderbook_c.SideBook.{PriceLevel, order_at}
use orderbook_c.SideBook.Counts.{count_by, count_by-take_out, one_if}
use orderbook_c.SideBook.Remove.{take_out, unlink_in-take_out}
use orderbook_c.Types.{Order}

-- The book without the order `o`, which stands at the slot that the index gives for `id`.
pub without-resting :
    (f : Order → Bool) (b : OrderBook) (id s : ℕ) (o : Order)
    → IsBook b
    → order_at s (resting b) ≡ some o
    → one_if (f o) + count_by f (resting (without b id s o)) ≡ count_by f (resting b)
without-resting f b id s o v h = rw (unlink_in-take_out o ls (IsSide-of o.side b v).sorted) (
    omega (
      arith,
      resting_with_levels f o.side (take_out o ls) (erase_id id b.id_index)
          (s ∷ (put_levels o.side (take_out o ls) b).free) b,
      resting_side f o.side b,
      count_by-take_out f o ls (IsSide-of o.side b v) (order_at-side b s o v h),
    ))
  where
    ls : List PriceLevel
    ls = levels_of o.side b

erase_id-gone : (id : ℕ) (m : Index) → count_key id m ≤ 1 → count_key id (erase_id id m) ≡ 0
erase_id-gone id m h = ground (arith, count_key-erase_id id id m)

without-IsIndexed :
    (b : OrderBook) (id s : ℕ) (o : Order)
    → IsBook b
    → IsIndexed b
    → order_at s (resting b) ≡ some o
    → o.id ≡ id
    → IsIndex (erase_id id b.id_index) (resting (without b id s o))
without-IsIndexed b id s o v x h e = record {
  unique = λ i. omega (arith, x.unique i, count_key-erase_id id i b.id_index);
  live = λ i t. ground (
    arith,
    x.live i t,
    count_entry-erase_id id i t b.id_index,
    count_entry-le-key i t (erase_id id b.id_index),
    erase_id-gone id b.id_index (x.unique id),
    without-resting (is_at i t) b id s o v h,
  );
}

pub find_id_of_key : (i : ℕ) (m : Index) → count_key i m ≡ 0 → find_id i m ≡ none
unfolding find_id
find_id_of_key i [] h = refl
find_id_of_key i ((k, s) ∷ m) h = ground (arith, find_id_of_key i m)

-- The two outcomes of `cancel`: the id is unknown and nothing changes, or one resting order with the
-- id leaves the book, which loses nothing else and no longer knows the id.
abbrev pub Cancels : OrderBook → ℕ → Type 0
Cancels b id =
    ((find_id id b.id_index ≡ none) × (cancel b id ≡ some (false, b)))
    ⊎ ((o : Order) × (b' : OrderBook) × (cancel b id ≡ some (true, b'))
        × (o.id ≡ id)
        × ((f : Order → Bool) → one_if (f o) + count_by f (resting b') ≡ count_by f (resting b))
        × (find_id id b'.id_index ≡ none)
        × IsIndexed b')

index-without :
    (b : OrderBook) (id s : ℕ) (o : Order) → (without b id s o).id_index ≡ erase_id id b.id_index
index-without b id s o = refl

-- `cancel` always has a result: it never follows a dangling pointer. For an unknown id it changes
-- nothing; for a known one it takes exactly one order with that id out of the book.
pub cancel-Cancels : (b : OrderBook) (id : ℕ) → IsBook b → IsIndexed b → NoSharing b → Cancels b id
unfolding cancel
cancel-Cancels b id v x n = elim (Option-cases (find_id id b.id_index)) [
  | inl e ↦ inl (e, rw (e, cancel) refl)
  | inr (s, e) ↦
      let (o, f, i) = find_id-resting b id s x n e in
      inr (
        o,
        without b id s o,
        rw (e, f, cancel) refl,
        i,
        (λ g. without-resting g b id s o v f),
        find_id_of_key id (erase_id id b.id_index) (erase_id-gone id b.id_index (x.unique id)),
        without-IsIndexed b id s o v x f i,
      )
]
