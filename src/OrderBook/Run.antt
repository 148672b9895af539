-- ===== src/OrderBook/Run.antt =====
-- Histories of calls on a new book: none of them fails, and all the invariants hold after each.
use mathlib.Core.Option
use orderbook_c.Base.{
  All, Bool, List, Option, [], arith, false, inl, inr, leb, ltb, none, refl, some, suc, true, zero,
  ℕ, ◌&&◌, ◌+◌, ◌<◌, ◌∙◌, ◌∷◌, ◌≡◌, ◌≤◌,
}
use orderbook_c.Base.Int.{ℤ}
use orderbook_c.OrderBook.Cancel.{cancel}
use orderbook_c.OrderBook.Ended.{cancel-stuck, submit-stuck}
use orderbook_c.OrderBook.Ids.Calls.{IsIndexed, NoSharing, submit-IsIndexed}
use orderbook_c.OrderBook.Ids.Cancel.{Cancels, cancel-Cancels}
use orderbook_c.OrderBook.Invariant.{IsBook}
use orderbook_c.OrderBook.Invariant.Cancel.{cancel-IsBook}
use orderbook_c.OrderBook.Invariant.Submit.{submit-IsBook}
use orderbook_c.OrderBook.Slots.{count, uses}
use orderbook_c.OrderBook.Slots.Calls.{cancel-uses, submit-uses}
use orderbook_c.OrderBook.State.{OrderBook, new_book, slots_from}
use orderbook_c.OrderBook.Submit.{submit}
use orderbook_c.SideBook.Counts.{one_if}
use orderbook_c.Types.{OrderType, Side, u64_mod}

-- A call of `submit` with its arguments, or of `cancel`.
pub data Call : Type 0 where
  submits : ℕ → Side → OrderType → ℤ → ℕ → ℕ → Call
  cancels : ℕ → Call

-- The book after a call, `none` for undefined behaviour.
unfoldable pub step : OrderBook → Call → Option OrderBook
step b (submits id side type price qty ts) = some (submit b id side type price qty ts).book
step b (cancels id) = Option.map (λ r. r.1) (cancel b id)

unfoldable pub run : OrderBook → List Call → Option OrderBook
run b [] = some b
run b (c ∷ cs) = elim (step b c) [ none ↦ none | some b' ↦ run b' cs ]

-- A quantity fits its type.
abbrev pub IsCall : Call → Type 0
IsCall (submits id side type price qty ts) = qty < u64_mod
IsCall (cancels id) = Unit {0}

-- Everything that holds of a book between calls, for a pool whose slots are those below `capacity`.
pub record IsSound (capacity : ℕ) (b : OrderBook) : Type 0 where
  pub book : IsBook b
  pub indexed : IsIndexed b
  pub slots : (k : ℕ) → uses k b ≡ one_if (ltb k capacity)
  pub ended : b.stuck ≡ false

one_if-le : (x : Bool) → one_if x ≤ 1
one_if-le true = omega arith
one_if-le false = omega arith

pub IsSound-NoSharing : (n : ℕ) (b : OrderBook) → IsSound n b → NoSharing b
IsSound-NoSharing n b v k = omega (arith, v.slots k, one_if-le (ltb k n))

pub count-slots_from : (s n k : ℕ) → count k (slots_from s n) ≡ one_if (leb s k && ltb k (s + n))
unfolding slots_from
count-slots_from s zero k = ground arith
count-slots_from s (suc n) k = ground (arith, count-slots_from (suc s) n k)

pub new_book-IsSound : (n : ℕ) → IsSound n (new_book n)
unfolding new_book
new_book-IsSound n = record {
  book = record {
    bids = record { sorted = tt; levels = tt };
    asks = record { sorted = tt; levels = tt };
    apart = tt;
  };
  indexed = record { unique = λ i. omega arith; live = λ i s. omega arith };
  slots = λ k. ground (arith, count-slots_from 0 n k);
  ended = refl;
}

pub step-IsSound :
    (n : ℕ) (b : OrderBook) (c : Call)
    → IsCall c
    → IsSound n b
    → (b' : OrderBook) × (step b c ≡ some b') × IsSound n b'
unfolding step
step-IsSound n b (submits id side type price qty ts) h v = (
  (submit b id side type price qty ts).book,
  refl,
  record {
    book = submit-IsBook b id side type price qty ts v.book h;
    indexed = submit-IsIndexed b id side type price qty ts v.book v.indexed;
    slots = λ k. submit-uses k b id side type price qty ts v.book ∙ v.slots k;
    ended = submit-stuck b id side type price qty ts v.book ∙ v.ended;
  },
)
step-IsSound n b (cancels id) h v =
    cancelled (cancel-Cancels b id v.book v.indexed (IsSound-NoSharing n b v))
  where
    cancelled :
        Cancels b id
        → (b' : OrderBook) × (Option.map (λ r. r.1) (cancel b id) ≡ some b') × IsSound n b'
    cancelled (inl (e, c)) = (b, rw c refl, v)
    cancelled (inr (o, b', c, e, f, g, x)) = (
      b',
      rw c refl,
      record {
        book = cancel-IsBook b b' id true v.book c;
        indexed = x;
        slots = λ k. cancel-uses k b b' id true v.book c ∙ v.slots k;
        ended = cancel-stuck b b' id true c ∙ v.ended;
      },
    )

run-IsSound :
    (n : ℕ) (b : OrderBook) (cs : List Call)
    → All IsCall cs
    → IsSound n b
    → (b' : OrderBook) × (run b cs ≡ some b') × IsSound n b'
unfolding run
run-IsSound n b [] h v = (b, refl, v)
run-IsSound n b (c ∷ cs) h v =
    let (b1, e1, v1) = step-IsSound n b c h.0 v in
    let (b2, e2, v2) = run-IsSound n b1 cs h.1 v1 in (b2, rw (e1, run) e2, v2)

-- Any history of submissions and cancellations on a new book has a result, whatever the ids: no call
-- follows a dangling pointer, and every call of `match` ends its loop by the loop's own tests. It leaves
-- the book sound: sides sorted without empty levels, the total of a level the sum of its quantities modulo
-- 2^64, best bid below best ask, index without dangling or doubled entries, and each of the pool's slots
-- free or held by one resting order. The capacity is at least one, and quantities are those of their type.
pub run-new_book :
    (n : ℕ) (cs : List Call)
    → 0 < n
    → All IsCall cs
    → (b : OrderBook) × (run (new_book n) cs ≡ some b) × IsSound n b
run-new_book n cs p h = run-IsSound n (new_book n) cs h (new_book-IsSound n)
