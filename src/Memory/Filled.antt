-- ===== src/Memory/Filled.antt =====
-- The inner loop of `match` on the links does what the recursion on the list of the makers does.
use orderbook_c.Base.{
  Bool-cases, List, Option, [], ap, arith, false, inl, inr, min, none, refl, some, true, ℕ, ◌++◌,
  ◌-◌, ◌<◌, ◌∙◌, ◌∷◌, ◌≡◌,
}
use orderbook_c.Memory.{Memory, pool_release, set_qty, unused, write}
use orderbook_c.Memory.Fill.{Filling, drop_maker, fill_maker}
use orderbook_c.Memory.FreeList.{FreeChain, FreeChain-frame, FreeChain-live, is_live}
use orderbook_c.Memory.Relink.{link_prev-Seg}
use orderbook_c.Memory.Seg.{Distinct, SameOutside, Seg, Seg-frame, has, node}
use orderbook_c.OrderBook.Match.{LevelMatch, Progress, match_orders, trade_of}
use orderbook_c.OrderBook.Slots.{count}
use orderbook_c.OrderBook.State.{erase_id}
use orderbook_c.Types.{Order, sub64}

abbrev pub progress_of : Filling → List ℕ → Progress
progress_of f free = record { qty = f.qty; id_index = f.id_index; free = free }

-- The recursion on the makers, from where the loop stands.
abbrev pub listed : Order → Filling → List Order → List ℕ → LevelMatch
listed taker f os free = match_orders taker f.level.price f.level.total_qty os (progress_of f free)

-- The level has the makers `os`, and the pool the free slots.
pub record Stands (f : Filling) (os : List Order) (free : List ℕ) : Type 0 where
  pub chain : Seg f.pool.1 none f.level.head os f.level.tail none
  pub apart : Distinct os
  pub free_chain : FreeChain f.pool.1 f.pool.0 free

-- The loop went from `f` to `g` as the recursion with the result `r` does.
pub record Filled (f g : Filling) (os : List Order) (r : LevelMatch) : Type 0 where
  pub stands : Stands g r.orders r.progress.free
  pub trades_eq : g.trades ≡ f.trades ++ r.trades
  pub qty_eq : g.qty ≡ r.progress.qty
  pub index_eq : g.id_index ≡ r.progress.id_index
  pub total_eq : g.level.total_qty ≡ r.total_qty
  pub price_eq : g.level.price ≡ f.level.price
  pub same : SameOutside os f.pool.1 g.pool.1

Seg-live :
    (m : Memory) (b f : Option ℕ) (os : List Order) (l a : Option ℕ) (s : ℕ)
    → Seg m b f os l a
    → has s os ≡ true
    → is_live (m s) ≡ true
Seg-live m b f [] l a s c h = cc
Seg-live m b f (o ∷ os) l a s (e, (q, n, c)) h =
    ground (arith, ap is_live n, Seg-live m (some o.slot) q os l a s c)

-- A free slot stands on no list.
free-apart :
    (f : Filling) (os : List Order) (free : List ℕ) (s : ℕ)
    → Stands f os free
    → 0 < count s free
    → has s os ≡ false
free-apart f os free s v h = elim (Bool-cases (has s os)) [
  | inl e ↦
      let l = Seg-live f.pool.1 none f.level.head os f.level.tail none s v.chain e in
      let z = FreeChain-live f.pool.1 f.pool.0 free s v.free_chain l in ground arith
  | inr e ↦ e
]

set_qty-node :
    (o : Order) (m : Memory) (b n : Option ℕ) (qty : ℕ)
    → m o.slot ≡ node o b n
    → set_qty o.slot qty m ≡ some (write m o.slot (node (record o { qty = qty }) b n))
unfolding set_qty
set_qty-node o m b n qty h = rw h refl

-- The state after the quantities of a fill are written.
abbrev pub filled_maker : Order → Order → Option ℕ → Filling → Filling
filled_maker taker maker next f =
    let fill = min f.qty maker.qty in
    record f {
      qty = f.qty - fill;
      pool = (
        f.pool.0,
        write f.pool.1 maker.slot (node (record maker { qty = maker.qty - fill }) none next),
      );
      level = record f.level { total_qty = sub64 f.level.total_qty fill };
      trades = f.trades ++ trade_of taker f.level.price maker fill ∷ [];
    }

pub fill_maker_lem :
    (taker maker : Order) (next : Option ℕ) (f : Filling)
    → f.pool.1 maker.slot ≡ node maker none next
    → fill_maker taker maker.slot maker f ≡ some (filled_maker taker maker next f)
unfolding fill_maker
fill_maker_lem taker maker next f h =
    rw (set_qty-node maker f.pool.1 none next (maker.qty - min f.qty maker.qty) h) refl

pub filled_maker-Stands :
    (taker maker : Order) (os : List Order) (free : List ℕ) (f : Filling) (next : Option ℕ)
    → Stands f (maker ∷ os) free
    → f.level.head ≡ some maker.slot
    → Seg f.pool.1 (some maker.slot) next os f.level.tail none
    → let fill = min f.qty maker.qty in
      Stands (filled_maker taker maker next f) (record maker { qty = maker.qty - fill } ∷ os) free
filled_maker-Stands taker maker os free f next v e c =
    let g = filled_maker taker maker next f in
    record {
      chain = (
        e,
        (
          next,
          ground arith,
          Seg-frame f.pool.1 g.pool.1 (some maker.slot) next os f.level.tail none
              (λ s z. ground (arith, v.apart.0)) c,
        ),
      );
      apart = v.apart;
      free_chain =
          FreeChain-frame f.pool.1 g.pool.1 f.pool.0 free
            (λ s z. ground (arith, free-apart f (maker ∷ os) free s v z)) v.free_chain;
    }

-- The maker at the head is taken off the list and released.
pub drop_maker_lem :
    (maker : Order) (os : List Order) (free : List ℕ) (f : Filling) (id : ℕ)
    → Stands f (maker ∷ os) free
    → (g : Filling) × (drop_maker maker.slot id f ≡ some g)
      × Stands g os (maker.slot ∷ free)
      × (g.trades ≡ f.trades)
      × (g.qty ≡ f.qty)
      × (g.id_index ≡ erase_id id f.id_index)
      × (g.level.total_qty ≡ f.level.total_qty)
      × (g.level.price ≡ f.level.price)
      × SameOutside (maker ∷ os) f.pool.1 g.pool.1
unfolding drop_maker pool_release
drop_maker_lem maker os free f id v =
    let (e, (next, here, back)) = v.chain in
    let (out, apart) = v.apart in
    let (tail, m, run_eq, chain, same) =
      link_prev-Seg os f.pool.1 (some maker.slot) next f.level.tail none back apart in
    let here' : m maker.slot ≡ node maker none next = same maker.slot out ∙ here in
    let g = write m maker.slot (unused f.pool.0) in
    (
      record f {
        id_index = erase_id id f.id_index;
        pool = (some maker.slot, g);
        level = record f.level { head = next; tail = tail };
      },
      rw (here, run_eq, here') refl,
      record {
        chain = Seg-frame m g none next os tail none (λ s z. ground arith) chain;
        apart = apart;
        free_chain = (
          refl,
          (
            f.pool.0,
            ground arith,
            FreeChain-frame f.pool.1 g f.pool.0 free
                (λ s z. ground (arith, free-apart f (maker ∷ os) free s v z, same s)) v.free_chain,
          ),
        );
      },
      refl,
      refl,
      refl,
      refl,
      refl,
      λ s z. ground (arith, same s),
    )
