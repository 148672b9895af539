-- ===== src/Memory/PushBack.antt =====
-- `PriceLevel::push_back` on the links appends to the list of the orders.
use orderbook_c.Base.{List, Option, [], ap, arith, false, none, refl, some, ℕ, ◌++◌, ◌∙◌, ◌∷◌, ◌≡◌}
use orderbook_c.Memory.{LinkedLevel, Memory, linked_push_back, write}
use orderbook_c.Memory.Relink.{link_next-Seg, set_next-node, set_prev-node}
use orderbook_c.Memory.Seg.{
  Distinct, IsLinked, SameOutside, Seg-append, Seg-frame, has, has-append, node,
}
use orderbook_c.SideBook.{PriceLevel, push_back}
use orderbook_c.Types.{Order, add64}

Distinct-append :
    (xs : List Order) (o : Order) → Distinct xs → has o.slot xs ≡ false → Distinct (xs ++ o ∷ [])
Distinct-append [] o d h = (refl, tt)
Distinct-append (x ∷ xs) o (d, ds) h =
    (ground (arith, has-append x.slot xs (o ∷ [])), Distinct-append xs o ds (ground arith))

-- Where an order stands in memory that no order of the level shares, push_back on the links has a
-- result: the level with the order behind the others, linked in both directions, its total raised by
-- the order's quantity. No other slot of memory than those of the level and of the order is written.
pub linked_push_back-IsLinked :
    (o : Order) (m : Memory) (before after : Option ℕ) (p : LinkedLevel) (l : PriceLevel)
    → IsLinked m p l
    → m o.slot ≡ node o before after
    → has o.slot l.orders ≡ false
    → (p' : LinkedLevel) × (g : Memory) × (linked_push_back o.slot p m ≡ some (p', g))
      × IsLinked g p' (push_back o l)
      × SameOutside (o ∷ l.orders) m g
unfolding linked_push_back push_back
linked_push_back-IsLinked o m before after p l is here out =
    let m1 = write m o.slot (node o p.tail after) in
    let e1 = set_prev-node o m before after p.tail here in
    let here1 : m1 o.slot ≡ node o p.tail after = ground arith in
    let m2 = write m1 o.slot (node o p.tail none) in
    let e2 = set_next-node o m1 p.tail after none here1 in
    let kept = Seg-frame m m2 none p.head l.orders p.tail none (λ s z. ground arith) is.chain in
    let (head, m3, e3, front, same) =
      link_next-Seg l.orders m2 p.head p.tail none (some o.slot) kept is.apart in
    let here3 : m3 o.slot ≡ node o p.tail none = same o.slot out ∙ ground arith in
    (
      record p { head = head; tail = some o.slot; total_qty = add64 p.total_qty o.qty },
      m3,
      rw (e1, e2, e3, here3) refl,
      record {
        price_eq = is.price_eq;
        total_eq = ap (λ t. add64 t o.qty) is.total_eq;
        chain =
            Seg-append m3 none head l.orders (o ∷ []) p.tail (some o.slot) (some o.slot) none front
              (refl, (none, here3, (refl, refl)));
        apart = Distinct-append l.orders o is.apart out;
      },
      λ s z. same s (ground arith) ∙ ground arith,
    )
