-- ===== src/OrderBook/Complete/Run.antt =====
-- Histories of calls in which no id is submitted twice.
use mathlib.Core.Option
use orderbook_c.Base.{
  All, Bool-cases, List, Option-cases, [], ap, arith, false, inl, inr, ltb, refl, some, subst, true,
  ℕ, ◌+◌, ◌==◌, ◌∷◌, ◌≡◌, ◌≤◌,
}
use orderbook_c.Base.Int.{ℤ}
use orderbook_c.OrderBook.Cancel.{cancel, without}
use orderbook_c.OrderBook.Complete.{Complete, Grows, place-Complete}
use orderbook_c.OrderBook.Ids.{count_id, count_key, count_key-erase_id, find_id-none, has_id}
use orderbook_c.OrderBook.Ids.Calls.{IsIndexed, find_id-resting, resting}
use orderbook_c.OrderBook.Ids.Cancel.{without-resting}
use orderbook_c.OrderBook.Invariant.{IsBook}
use orderbook_c.OrderBook.Run.{
  Call, IsCall, IsSound, IsSound-NoSharing, cancels, new_book-IsSound, run, step, step-IsSound,
  submits,
}
use orderbook_c.OrderBook.Slots.{count}
use orderbook_c.OrderBook.State.{OrderBook, find_id, new_book}
use orderbook_c.OrderBook.Submit.{new_order, submit, submit_with, tick_clock}
use orderbook_c.SideBook.Counts.{one_if}
use orderbook_c.Types.{OrderType, Side}

abbrev pub submitted : List Call → List ℕ
submitted [] = []
submitted (submits id side type price qty ts ∷ cs) = id ∷ submitted cs
submitted (cancels id ∷ cs) = submitted cs

submit-Grows :
    (b : OrderBook) (id : ℕ) (side : Side) (type : OrderType) (price : ℤ) (qty ts : ℕ)
    → IsBook b
    → IsIndexed b
    → count_key id b.id_index ≡ 0
    → Complete b
    → Grows b (submit b id side type price qty ts).book id
unfolding submit
submit-Grows b id side type price qty ts v x fresh c = elim (Bool-cases (qty == 0)) [
  | inl z ↦ rw z (c, λ i. omega arith)
  | inr z ↦ rw z (go b.free)
]
  where
    go : (free : List ℕ) → Grows b (submit_with free b id side type price qty ts).book id
    go [] = unfold submit_with in (c, λ i. omega arith)
    go (s ∷ free) =
        unfold submit_with in
        place-Complete (new_order s id side type price qty ts b.clock)
          (record b { free = free; clock = tick_clock ts b.clock })
          (record { bids = v.bids; asks = v.asks; apart = v.apart }) x fresh c

-- What `cancel` on a book that knows its orders does: it succeeds exactly if an order with the id rests.
abbrev pub CancelsResting : OrderBook → Type 0
CancelsResting b =
    (id : ℕ) → (b' : OrderBook) × (cancel b id ≡ some (ltb 0 (count_id id (resting b)), b'))

-- `cancel` takes the id out of the index and its order out of the book.
cancel-Grows :
    (n : ℕ) (b : OrderBook) (id : ℕ)
    → IsSound n b
    → Complete b
    → (b' : OrderBook) × (cancel b id ≡ some (ltb 0 (count_id id (resting b)), b'))
      × Complete b'
      × ((i : ℕ) → count_key i b'.id_index ≤ count_key i b.id_index)
unfolding cancel
cancel-Grows n b id v c = elim (Option-cases (find_id id b.id_index)) [
  | inl e ↦
      let gone : ltb 0 (count_id id (resting b)) ≡ false =
        ground (arith, c id, find_id-none id b.id_index e) in
      (b, rw (e, gone, cancel) refl, c, λ i. omega arith)
  | inr (s, e) ↦
      let (o, f, same) = find_id-resting b id s v.indexed (IsSound-NoSharing n b v) e in
      let taken = λ (i : ℕ). without-resting (has_id i) b id s o v.book f in
      let erased = λ (i : ℕ). count_key-erase_id id i b.id_index in
      let there : ltb 0 (count_id id (resting b)) ≡ true = ground (arith, taken id) in
      (
        without b id s o,
        rw (e, f, there, cancel) refl,
        (λ i. ground (arith, c i, taken i, erased i, v.indexed.unique i)),
        λ i. omega (arith, erased i),
      )
]

-- A sound book that knows its orders, whose ids are among those used.
record IsFresh (n : ℕ) (b : OrderBook) (used : ℕ → ℕ) : Type 0 where
  sound : IsSound n b
  complete : Complete b
  known : (i : ℕ) → count_key i b.id_index ≤ used i

step-IsFresh :
    (n : ℕ) (b : OrderBook) (c : Call) (cs : List Call) (used : ℕ → ℕ)
    → IsCall c
    → ((i : ℕ) → used i + count i (submitted (c ∷ cs)) ≤ 1)
    → IsFresh n b used
    → (b' : OrderBook) × (used' : ℕ → ℕ) × (step b c ≡ some b')
      × ((i : ℕ) → used' i + count i (submitted cs) ≤ 1)
      × IsFresh n b' used'
unfolding step
step-IsFresh n b (submits id side type price qty ts) cs used h u v =
    let b' = (submit b id side type price qty ts).book in
    let (b1, e, s) = step-IsSound n b (submits id side type price qty ts) h v.sound in
    let same : b1 ≡ b' = cc in
    let fresh : count_key id b.id_index ≡ 0 = ground (arith, u id, v.known id) in
    let g =
      submit-Grows b id side type price qty ts v.sound.book v.sound.indexed fresh v.complete in
    (
      b',
      (λ i. one_if (id == i) + used i),
      refl,
      (λ i. ground (arith, u i)),
      record {
        sound = subst (IsSound n) same s;
        complete = g.0;
        known = λ i. omega (arith, g.1 i, v.known i);
      },
    )
step-IsFresh n b (cancels id) cs used h u v =
    let (b', e, c, k) = cancel-Grows n b id v.sound v.complete in
    let (b1, e1, s) = step-IsSound n b (cancels id) h v.sound in
    let e' : step b (cancels id) ≡ some b' = ap (Option.map (λ r. r.1)) e in
    let same : b1 ≡ b' = cc in
    (
      b',
      used,
      e',
      u,
      record {
        sound = subst (IsSound n) same s;
        complete = c;
        known = λ i. omega (arith, k i, v.known i);
      },
    )

new_book-IsFresh : (n : ℕ) → IsFresh n (new_book n) (λ i. 0)
unfolding new_book
new_book-IsFresh n = record {
  sound = new_book-IsSound n;
  complete = λ i. omega arith;
  known = λ i. omega arith;
}

run-IsFresh :
    (n : ℕ) (cs : List Call) (b : OrderBook) (used : ℕ → ℕ)
    → All IsCall cs
    → ((i : ℕ) → used i + count i (submitted cs) ≤ 1)
    → IsFresh n b used
    → (b' : OrderBook) × (used' : ℕ → ℕ) × (run b cs ≡ some b') × IsFresh n b' used'
unfolding run
run-IsFresh n [] b used h u v = (b, used, refl, v)
run-IsFresh n (c ∷ cs) b used h u v =
    let (b1, used1, e1, u1, v1) = step-IsFresh n b c cs used h.0 u v in
    let (b2, used2, e2, v2) = run-IsFresh n cs b1 used1 h.1 u1 v1 in
    (b2, used2, rw (e1, run) e2, v2)

-- After any history on a new book that submits no id twice, the index knows every resting order and no
-- two have the same id; so cancel of an id then succeeds exactly if an order with that id rests.
-- Quantities are those of their type.
pub run-CancelsResting :
    (n : ℕ) (cs : List Call)
    → All IsCall cs
    → ((i : ℕ) → count i (submitted cs) ≤ 1)
    → (b : OrderBook) × (run (new_book n) cs ≡ some b)
      × ((i : ℕ) → count_id i (resting b) ≤ 1)
      × Complete b
      × CancelsResting b
run-CancelsResting n cs h u =
    let start = new_book-IsFresh n in
    let (b, used, e, v) =
      run-IsFresh n cs (new_book n) (λ i. 0) h (λ i. omega (arith, u i)) start in
    (
      b,
      e,
      (λ i. omega (arith, v.complete i, v.sound.indexed.unique i)),
      v.complete,
      λ id. let (b', k, c, g) = cancel-Grows n b id v.sound v.complete in (b', k),
    )
