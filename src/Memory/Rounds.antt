-- ===== src/Memory/Rounds.antt =====
-- The rounds of the inner loop of `match` on the links, against the recursion on the list of the makers.
use mathlib.Core.List.{append_assoc, append-nil}
use orderbook_c.Base.{
  Bool-cases, List, Option, [], ap, arith, false, inl, inr, length, min, none, refl, some, subst,
  suc, sym, true, zero, ℕ, ◌++◌, ◌-◌, ◌<◌, ◌==◌, ◌>>=◌, ◌∙◌, ◌∷◌, ◌≡◌,
}
use orderbook_c.Memory.Fill.{Filling, fill_loop, fill_round}
use orderbook_c.Memory.Filled.{
  Filled, Stands, drop_maker_lem, fill_maker_lem, filled_maker, filled_maker-Stands, listed,
  progress_of,
}
use orderbook_c.Memory.Seg.{SameOutside}
use orderbook_c.OrderBook.Match.{LevelMatch, add_trade, fill_whole, match_orders, trade_of}
use orderbook_c.Types.{Order}

-- The maker in front is filled whole: the rest of the loop, from the state `f2` behind it.
Filled-whole :
    (taker maker : Order) (os : List Order) (f f2 g : Filling) (r : LevelMatch)
    → (let fill = min f.qty maker.qty in
        f2.trades ≡ f.trades ++ trade_of taker f.level.price maker fill ∷ [])
    → f2.level.price ≡ f.level.price
    → SameOutside (maker ∷ os) f.pool.1 f2.pool.1
    → Filled f2 g os r
    → Filled f g
        (maker ∷ os)
        (add_trade (trade_of taker f.level.price maker (min f.qty maker.qty)) r)
Filled-whole taker maker os f f2 g r t p s v =
    let trade = trade_of taker f.level.price maker (min f.qty maker.qty) in
    record {
      stands = v.stands;
      trades_eq =
          v.trades_eq ∙ (ap (λ z. z ++ r.trades) t ∙ append_assoc f.trades (trade ∷ []) r.trades);
      qty_eq = v.qty_eq;
      index_eq = v.index_eq;
      total_eq = v.total_eq;
      price_eq = v.price_eq ∙ p;
      same = λ i z. v.same i (ground arith) ∙ s i z;
    }

-- What the loop has to do where the recursion has the result `r`.
abbrev Fills : ℕ → Order → Filling → List Order → LevelMatch → Type 0
Fills k taker f os r = (g : Filling) × (fill_loop k taker f ≡ some g) × Filled f g os r

stays :
    (f : Filling) (os : List Order) (free : List ℕ)
    → Stands f os free
    → Filled f f os (record {
      progress = progress_of f free;
      trades = [];
      total_qty = f.level.total_qty;
      orders = os;
    })
stays f os free v = record {
  stands = v;
  trades_eq = sym (append-nil f.trades);
  qty_eq = refl;
  index_eq = refl;
  total_eq = refl;
  price_eq = refl;
  same = λ s z. refl;
}

fill_loop-stays :
    (k : ℕ) (taker : Order) (f : Filling) (os : List Order) (free : List ℕ)
    → Stands f os free
    → (f.qty == 0) ≡ true
    → Fills (suc k) taker f os (record {
      progress = progress_of f free;
      trades = [];
      total_qty = f.level.total_qty;
      orders = os;
    })
unfolding fill_loop
fill_loop-stays k taker f os free v e = (f, rw e refl, stays f os free v)

fill_loop-none :
    (k : ℕ) (taker : Order) (f : Filling) (free : List ℕ)
    → Stands f [] free
    → Fills (suc k) taker f [] (listed taker f [] free)
unfolding fill_loop match_orders
fill_loop-none k taker f free v = (f, rw (v.chain.0) (ground arith), stays f [] free v)

enter :
    (h : Option ℕ) (a : ℕ) (r : Option Filling) (go : ℕ → Option Filling)
    → h ≡ some a
    → elim h [ none ↦ r | some b ↦ go b ] ≡ go a
enter h a r go e = rw e refl

-- A round with a maker that keeps a quantity; the loop then ends.
fill_loop-part :
    (k : ℕ) (taker maker : Order) (os : List Order) (free : List ℕ) (f : Filling)
    → Stands f (maker ∷ os) free
    → (f.qty == 0) ≡ false
    → (maker.qty - min f.qty maker.qty == 0) ≡ false
    → Fills (suc (suc k)) taker f (maker ∷ os) (listed taker f (maker ∷ os) free)
unfolding fill_loop fill_round match_orders
fill_loop-part k taker maker os free f v e kept =
    let (head, (next, here, back)) = v.chain in
    let g = filled_maker taker maker next f in
    let w = fill_maker_lem taker maker next f here in
    let spent : (f.qty - min f.qty maker.qty == 0) ≡ true = ground arith in
    (
      g,
      rw e (
          enter f.level.head maker.slot (some f)
            (λ a. fill_round taker a f >>= fill_loop (suc k) taker) head
          ∙ rw (here, w, kept) (rw spent refl)),
      rw (e, kept)
          (record {
            stands = filled_maker-Stands taker maker os free f next v head back;
            trades_eq = refl;
            qty_eq = refl;
            index_eq = refl;
            total_eq = refl;
            price_eq = refl;
            same = λ s z. ground arith;
          }),
    )

-- A round with a maker that is filled whole, and the rounds behind it.
fill_loop-whole :
    (k : ℕ) (taker maker : Order) (os : List Order) (free : List ℕ) (f : Filling)
    → ((f2 : Filling)
        → Stands f2 os (maker.slot ∷ free)
        → Fills k taker f2 os (listed taker f2 os (maker.slot ∷ free)))
    → Stands f (maker ∷ os) free
    → (f.qty == 0) ≡ false
    → (maker.qty - min f.qty maker.qty == 0) ≡ true
    → Fills (suc k) taker f (maker ∷ os) (listed taker f (maker ∷ os) free)
unfolding fill_loop fill_round match_orders
fill_loop-whole k taker maker os free f ih v e gone =
    let (head, (next, here, back)) = v.chain in
    let f1 = filled_maker taker maker next f in
    let maker' = record maker { qty = maker.qty - min f.qty maker.qty } in
    let w = fill_maker_lem taker maker next f here in
    let v1 = filled_maker-Stands taker maker os free f next v head back in
    let (f2, w2, v2, t, q, i, total, price, same) = drop_maker_lem maker' os free f1 maker.id v1 in
    let (g, w3, done) = ih f2 v2 in
    let r =
      match_orders taker f.level.price f1.level.total_qty os
        (fill_whole maker (progress_of f free)) in
    let listed_eq : listed taker f2 os (maker.slot ∷ free) ≡ r = rw (price, total, q, i) refl in
    (
      g,
      rw (e, head, here, w, gone, w2) w3,
      rw (e, gone)
          (Filled-whole taker maker os f f2 g r t price (λ s z. same s z ∙ ground arith)
            (subst (Filled f2 g os) listed_eq done)),
    )

fill_loop-Filled :
    (k : ℕ) (taker : Order) (os : List Order) (free : List ℕ) (f : Filling)
    → Stands f os free
    → length os < k
    → Fills k taker f os (listed taker f os free)
unfolding match_orders
fill_loop-Filled zero taker os free f v h = absurd (omega arith)
fill_loop-Filled (suc k) taker [] free f v h = fill_loop-none k taker f free v
fill_loop-Filled (suc zero) taker (maker ∷ os) free f v h = absurd (omega arith)
fill_loop-Filled (suc (suc k)) taker (maker ∷ os) free f v h = elim (Bool-cases (f.qty == 0)) [
  | inl e ↦
      subst (Fills (suc (suc k)) taker f (maker ∷ os)) (rw e refl)
        (fill_loop-stays (suc k) taker f (maker ∷ os) free v e)
  | inr e ↦ elim (Bool-cases (maker.qty - min f.qty maker.qty == 0)) [
    | inl gone ↦
        fill_loop-whole (suc k) taker maker os free f
          (λ f2 v2. fill_loop-Filled (suc k) taker os (maker.slot ∷ free) f2 v2 (omega arith)) v e
          gone
    | inr kept ↦ fill_loop-part k taker maker os free f v e kept
  ]
]

-- Where the makers of the level stand linked in memory and the pool's links are its free list, the loop
-- has a result, with one round more than there are makers: the trades, the taker's quantity, the index,
-- the level's total, its list and the free list are those that the recursion on the list of the makers
-- leaves, the two lists again linked. No slot of memory is written but those of the makers.
pub fill_loop-refines :
    (taker : Order) (os : List Order) (free : List ℕ) (f : Filling)
    → Stands f os free
    → (g : Filling) × (fill_loop (suc (length os)) taker f ≡ some g)
      × Filled f g os (listed taker f os free)
fill_loop-refines taker os free f v =
    fill_loop-Filled (suc (length os)) taker os free f v (omega arith)
