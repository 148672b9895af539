-- ===== src/Memory/Unlink.antt =====
-- `PriceLevel::unlink` on the links takes the order out of the list.
use orderbook_c.Base.{
  Bool-cases, List, [], ap, arith, false, inl, inr, none, refl, some, subst, sym, true, ℕ, ◌++◌,
  ◌==◌, ◌∙◌, ◌∷◌, ◌≡◌,
}
use orderbook_c.Memory.{LinkedLevel, Memory, linked_unlink, write}
use orderbook_c.Memory.Relink.{link_next-Seg, link_prev-Seg, set_next-node, set_prev-node}
use orderbook_c.Memory.Seg.{
  Distinct, IsLinked, SameOutside, Seg, Seg-append, Seg-frame, Seg-split, has, has-append, node,
}
use orderbook_c.OrderBook.Run.{run}
use orderbook_c.SideBook.{PriceLevel, order_at, remove_order, unlink}
use orderbook_c.Types.{Order, sub64}

Distinct-parts :
    (xs ys : List Order) (o : Order)
    → Distinct (xs ++ o ∷ ys)
    → Distinct xs
      × Distinct ys
      × (has o.slot xs ≡ false)
      × (has o.slot ys ≡ false)
      × ((s : ℕ) → has s xs ≡ true → has s ys ≡ false)
      × Distinct (xs ++ ys)
Distinct-parts [] ys o (d, ds) = (tt, ds, refl, d, λ s z. cc, ds)
Distinct-parts (x ∷ xs) ys o (d, ds) =
    let (dx, dy, ox, oy, apart, dxy) = Distinct-parts xs ys o ds in
    let k = has-append x.slot xs (o ∷ ys) in
    let k' = has-append x.slot xs ys in
    ((ground arith, dx), dy, ground arith, oy, λ s z. ground (arith, apart s), (ground arith, dxy))

-- The place of an order that a search by its address finds.
order_at-place :
    (s : ℕ) (os : List Order) (o : Order)
    → order_at s os ≡ some o
    → (xs : List Order) × (ys : List Order) × (os ≡ xs ++ o ∷ ys)
unfolding order_at
order_at-place s [] o h = cc
order_at-place s (x ∷ os) o h = elim (Bool-cases (x.slot == s)) [
  | inl e ↦
      let k : some x ≡ some o = rw e at h in let z : x ≡ o = cc in ([], os, ap (λ w. w ∷ os) z)
  | inr e ↦
      let k : order_at s os ≡ some o = rw e at h in
      let (xs, ys, z) = order_at-place s os o k in (x ∷ xs, ys, ap (λ w. x ∷ w) z)
]

remove_order-place :
    (xs ys : List Order) (o : Order)
    → has o.slot xs ≡ false
    → remove_order o.slot (xs ++ o ∷ ys) ≡ xs ++ ys
unfolding remove_order
remove_order-place [] ys o h = ground arith
remove_order-place (x ∷ xs) ys o h = ground (arith, remove_order-place xs ys o)

-- What unlink leaves of a level whose orders are `xs`, `o` and `ys`.
record Unlinked (m g : Memory) (p p' : LinkedLevel) (o : Order) (xs ys : List Order) : Type 0 where
  price_eq : p'.price ≡ p.price
  total_eq : p'.total_qty ≡ sub64 p.total_qty o.qty
  chain : Seg g none p'.head (xs ++ ys) p'.tail none
  free_links : g o.slot ≡ node o none none
  same : SameOutside (xs ++ o ∷ ys) m g

unlink_between :
    (o : Order) (m : Memory) (p : LinkedLevel) (xs ys : List Order)
    → Seg m none p.head (xs ++ o ∷ ys) p.tail none
    → Distinct (xs ++ o ∷ ys)
    → (p' : LinkedLevel) × (g : Memory) × (linked_unlink o.slot p m ≡ some (p', g))
      × Unlinked m g p p' o xs ys
unfolding linked_unlink
unlink_between o m p xs ys chain d =
    let (dx, dy, ox, oy, apart, dxy) = Distinct-parts xs ys o d in
    let (before, at, front, (at_eq, (after, here, back))) =
      Seg-split m none p.head xs (o ∷ ys) p.tail none chain in
    let front' = subst (λ z. Seg m none p.head xs before z) at_eq front in
    let (head, m1, e1, front1, same1) =
      link_next-Seg xs m p.head before (some o.slot) after front' dx in
    let here1 : m1 o.slot ≡ node o before after = same1 o.slot ox ∙ here in
    let back1 =
      Seg-frame m m1 (some o.slot) after ys p.tail none (λ s z. same1 s (ground (arith, apart s)))
        back in
    let (tail, m2, e2, back2, same2) =
      link_prev-Seg ys m1 (some o.slot) after p.tail before back1 dy in
    let here2 : m2 o.slot ≡ node o before after = same2 o.slot oy ∙ here1 in
    let front2 = Seg-frame m1 m2 none head xs before after (λ s z. same2 s (apart s z)) front1 in
    let m3 = write m2 o.slot (node o before none) in
    let e3 = set_next-node o m2 before after none here2 in
    let here3 : m3 o.slot ≡ node o before none = ground arith in
    let m4 = write m3 o.slot (node o none none) in
    let e4 = set_prev-node o m3 before none none here3 in
    let joined = Seg-append m2 none head xs ys before after tail none front2 back2 in
    (
      record p { head = head; tail = tail; total_qty = sub64 p.total_qty o.qty },
      m4,
      rw (here, e1, here1, e2, here2, e3, e4) refl,
      record {
        price_eq = refl;
        total_eq = refl;
        chain =
            Seg-frame m2 m4 none head (xs ++ ys) tail none
              (λ s z. ground (arith, has-append s xs ys)) joined;
        free_links = ground arith;
        same = λ s z.
            let k = has-append s xs (o ∷ ys) in
            let k1 = same1 s in let k2 = same2 s in ground arith;
      },
    )

-- Where an order of the level stands, unlink on the links has a result: the level without the order,
-- linked in both directions, its total lowered by the order's quantity. The links of the order are
-- clear, and no slot of memory is written but those of the level's orders.
pub linked_unlink-IsLinked :
    (o : Order) (m : Memory) (p : LinkedLevel) (l : PriceLevel)
    → IsLinked m p l
    → order_at o.slot l.orders ≡ some o
    → (p' : LinkedLevel) × (g : Memory) × (linked_unlink o.slot p m ≡ some (p', g))
      × IsLinked g p' (unlink o l)
      × (g o.slot ≡ node o none none)
      × SameOutside l.orders m g
unfolding unlink
linked_unlink-IsLinked o m p l is found =
    let (xs, ys, e) = order_at-place o.slot l.orders o found in
    let d = subst Distinct e is.apart in
    let chain = subst (λ z. Seg m none p.head z p.tail none) e is.chain in
    let (dx, dy, ox, oy, apart, dxy) = Distinct-parts xs ys o d in
    let (p', g, run, u) = unlink_between o m p xs ys chain d in
    let left = ap (remove_order o.slot) e ∙ remove_order-place xs ys o ox in
    (
      p',
      g,
      run,
      record {
        price_eq = u.price_eq ∙ is.price_eq;
        total_eq = u.total_eq ∙ ap (λ t. sub64 t o.qty) is.total_eq;
        chain = subst (λ z. Seg g none p'.head z p'.tail none) (sym left) u.chain;
        apart = subst Distinct (sym left) dxy;
      },
      u.free_links,
      subst (λ z. SameOutside z m g) (sym e) u.same,
    )
