-- ===== src/Memory/Relink.antt =====
-- What a write to the link at an end of a doubly linked list leaves.
use orderbook_c.Base.{List, Option, [], arith, none, refl, some, ℕ, ◌∙◌, ◌∷◌, ◌≡◌}
use orderbook_c.Memory.{Memory, link_next, link_prev, set_next, set_prev, write}
use orderbook_c.Memory.Seg.{Distinct, SameOutside, Seg, Seg-frame, node}
use orderbook_c.Types.{Order}

pub set_next-node :
    (o : Order) (m : Memory) (b n q : Option ℕ)
    → m o.slot ≡ node o b n
    → set_next o.slot q m ≡ some (write m o.slot (node o b q))
unfolding set_next
set_next-node o m b n q h = rw h refl

pub set_prev-node :
    (o : Order) (m : Memory) (b n q : Option ℕ)
    → m o.slot ≡ node o b n
    → set_prev o.slot q m ≡ some (write m o.slot (node o q n))
unfolding set_prev
set_prev-node o m b n q h = rw h refl

-- The last node gets another `next`.
set_last :
    (o : Order) (os : List Order) (m : Memory) (b f l a q : Option ℕ)
    → Seg m b f (o ∷ os) l a
    → Distinct (o ∷ os)
    → (t : ℕ) × (g : Memory) × (l ≡ some t)
      × (set_next t q m ≡ some g)
      × Seg g b f (o ∷ os) l q
      × SameOutside (o ∷ os) m g
set_last o [] m b f l a q (e, (n, h, (k, k'))) d = (
  o.slot,
  write m o.slot (node o b q),
  k',
  set_next-node o m b n q h,
  (e, (q, ground arith, (refl, k'))),
  λ s z. ground arith,
)
set_last o (x ∷ xs) m b f l a q (e, (n, h, k)) (d, ds) =
    let (t, g, z, w, c, s) = set_last x xs m (some o.slot) n l a q k ds in
    (t, g, z, w, (e, (n, s o.slot d ∙ h, c)), λ i u. s i (ground arith))

-- After `if (last) last->next = q; else first = q;` the list ends in `q`.
pub link_next-Seg :
    (xs : List Order) (m : Memory) (f l a q : Option ℕ)
    → Seg m none f xs l a
    → Distinct xs
    → (f' : Option ℕ) × (g : Memory) × (link_next l q f m ≡ some (f', g))
      × Seg g none f' xs l q
      × SameOutside xs m g
unfolding link_next
link_next-Seg [] m f l a q (e, k) d = (q, m, rw k refl, (refl, k), λ s z. refl)
link_next-Seg (o ∷ os) m f l a q h d =
    let (t, g, z, w, c, s) = set_last o os m none f l a q h d in (f, g, rw (z, w) refl, c, s)

-- After `if (first) first->prev = q; else last = q;` the list begins behind `q`.
pub link_prev-Seg :
    (xs : List Order) (m : Memory) (b f l q : Option ℕ)
    → Seg m b f xs l none
    → Distinct xs
    → (l' : Option ℕ) × (g : Memory) × (link_prev f q l m ≡ some (l', g))
      × Seg g q f xs l' none
      × SameOutside xs m g
unfolding link_prev
link_prev-Seg [] m b f l q (e, k) d = (q, m, rw e refl, (e, refl), λ s z. refl)
link_prev-Seg (o ∷ os) m b f l q (e, (n, h, k)) (d, ds) =
    let g = write m o.slot (node o q n) in
    (
      l,
      g,
      rw (e, set_prev-node o m b n q h) refl,
      (e, (n, ground arith, Seg-frame m g (some o.slot) n os l none (λ s z. ground arith) k)),
      λ s z. ground arith,
    )
