-- ===== src/Memory/Seg.antt =====
-- Orders that stand in memory as a doubly linked list.
-- Whether one of the orders stands at an address.
use orderbook_c.Base.{
  Bool, List, Option, [], arith, false, none, refl, some, subst, sym, true, ℕ, ◌++◌, ◌==◌, ◌||◌,
  ◌∙◌, ◌∷◌, ◌≡◌,
}
use orderbook_c.Memory.{LinkedLevel, Memory, Slot, live}
use orderbook_c.SideBook.{PriceLevel}
use orderbook_c.Types.{Order}

abbrev pub has : ℕ → List Order → Bool
has s [] = false
has s (o ∷ os) = (o.slot == s) || has s os

abbrev pub Distinct : List Order → Type 0
Distinct [] = Unit {0}
Distinct (o ∷ os) = (has o.slot os ≡ false) × Distinct os

abbrev pub SameOutside : List Order → Memory → Memory → Type 0
SameOutside xs m g = (s : ℕ) → has s xs ≡ false → g s ≡ m s

abbrev pub node : Order → Option ℕ → Option ℕ → Slot
node o p n = live (record { order = o; prev = p; next = n })

-- The orders `xs` are linked in both directions, from `first`, whose `prev` is `before`, to `last`,
-- whose `next` is `after`.
abbrev pub Seg : Memory → Option ℕ → Option ℕ → List Order → Option ℕ → Option ℕ → Type 0
Seg m before first [] last after = (first ≡ after) × (last ≡ before)
Seg m before first (o ∷ os) last after =
    (first ≡ some o.slot)
    × ((q : Option ℕ) × (m o.slot ≡ node o before q) × Seg m (some o.slot) q os last after)

-- The level in memory is the level with its list of orders.
pub record IsLinked (m : Memory) (p : LinkedLevel) (l : PriceLevel) : Type 0 where
  pub price_eq : p.price ≡ l.price
  pub total_eq : p.total_qty ≡ l.total_qty
  pub chain : Seg m none p.head l.orders p.tail none
  pub apart : Distinct l.orders

pub has-append : (s : ℕ) (xs ys : List Order) → has s (xs ++ ys) ≡ (has s xs || has s ys)
has-append s [] ys = refl
has-append s (x ∷ xs) ys = ground (arith, has-append s xs ys)

-- A segment stays when its nodes do.
pub Seg-frame :
    (m g : Memory) (b f : Option ℕ) (xs : List Order) (l a : Option ℕ)
    → ((s : ℕ) → has s xs ≡ true → g s ≡ m s)
    → Seg m b f xs l a
    → Seg g b f xs l a
Seg-frame m g b f [] l a same h = h
Seg-frame m g b f (o ∷ os) l a same (e, (q, n, h)) = (
  e,
  (
    q,
    same o.slot (ground arith) ∙ n,
    Seg-frame m g (some o.slot) q os l a (λ s k. same s (ground arith)) h,
  ),
)

pub Seg-append :
    (m : Memory) (b f : Option ℕ) (xs ys : List Order) (c d l a : Option ℕ)
    → Seg m b f xs c d
    → Seg m c d ys l a
    → Seg m b f (xs ++ ys) l a
Seg-append m b f [] ys c d l a (e, h) k =
    subst (λ z. Seg m z f ys l a) h (subst (λ z. Seg m c z ys l a) (sym e) k)
Seg-append m b f (x ∷ xs) ys c d l a (e, (q, n, h)) k =
    (e, (q, n, Seg-append m (some x.slot) q xs ys c d l a h k))

-- A segment of two parts, with the two links where they meet.
pub Seg-split :
    (m : Memory) (b f : Option ℕ) (xs ys : List Order) (l a : Option ℕ)
    → Seg m b f (xs ++ ys) l a
    → (c : Option ℕ) × (d : Option ℕ) × Seg m b f xs c d × Seg m c d ys l a
Seg-split m b f [] ys l a h = (b, f, (refl, refl), h)
Seg-split m b f (x ∷ xs) ys l a (e, (q, n, h)) =
    let (c, d, k, k') = Seg-split m (some x.slot) q xs ys l a h in (c, d, (e, (q, n, k)), k')
