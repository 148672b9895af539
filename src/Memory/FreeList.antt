-- ===== src/Memory/FreeList.antt =====
-- The free list of the pool on its links.
use orderbook_c.Base.{
  Bool, List, Option, [], ap, arith, false, none, refl, some, suc, true, zero, ℕ, ◌+◌, ◌<◌, ◌∙◌,
  ◌∷◌, ◌≡◌,
}
use orderbook_c.Memory.{Memory, Slot, link_slots, live, new_pool, unused, write}
use orderbook_c.OrderBook.Slots.{count}
use orderbook_c.OrderBook.State.{slots_from}

abbrev pub FreeChain : Memory → Option ℕ → List ℕ → Type 0
FreeChain m h [] = h ≡ none
FreeChain m h (s ∷ ss) = (h ≡ some s) × ((q : Option ℕ) × (m s ≡ unused q) × FreeChain m q ss)

abbrev pub is_live : Slot → Bool
is_live (live n) = true
is_live (unused q) = false

-- The chain stays where its slots do.
pub FreeChain-frame :
    (m g : Memory) (h : Option ℕ) (ss : List ℕ)
    → ((s : ℕ) → 0 < count s ss → g s ≡ m s)
    → FreeChain m h ss
    → FreeChain g h ss
FreeChain-frame m g h [] same c = c
FreeChain-frame m g h (s ∷ ss) same (e, (q, u, c)) =
    (e, (q, same s (ground arith) ∙ u, FreeChain-frame m g q ss (λ k z. same k (omega arith)) c))

-- A slot with an order is not in the free list.
pub FreeChain-live :
    (m : Memory) (h : Option ℕ) (ss : List ℕ) (a : ℕ)
    → FreeChain m h ss
    → is_live (m a) ≡ true
    → count a ss ≡ 0
FreeChain-live m h [] a c l = refl
FreeChain-live m h (s ∷ ss) a (e, (q, u, c)) l =
    ground (arith, FreeChain-live m q ss a c l, ap is_live u)

-- What the constructor's loop leaves.
link_slots-kept : (k i : ℕ) (m : Memory) (s : ℕ) → s < i → link_slots k i m s ≡ m s
unfolding link_slots
link_slots-kept zero i m s h = refl
link_slots-kept (suc k) i m s h =
    link_slots-kept k (suc i) (write m i (unused (some (suc i)))) s (omega arith) ∙ ground arith

link_slots-FreeChain :
    (k i n : ℕ) (m : Memory)
    → n ≡ k + i
    → FreeChain (write (link_slots k i m) n (unused none)) (some i) (slots_from i (suc k))
unfolding link_slots slots_from
link_slots-FreeChain zero i n m e = (refl, (none, ground arith, refl))
link_slots-FreeChain (suc k) i n m e =
    let m' = write m i (unused (some (suc i))) in
    let z = link_slots-kept k (suc i) m' i (omega arith) in
    (refl, (some (suc i), ground arith, link_slots-FreeChain k (suc i) n m' (omega arith)))

pub new_pool-FreeChain :
    (n : ℕ)
    → (h : Option ℕ) × (m : Memory) × (new_pool (suc n) ≡ some (h, m))
      × FreeChain m h (slots_from 0 (suc n))
unfolding new_pool
new_pool-FreeChain n = (
  some 0,
  write (link_slots n 0 (λ s. unused none)) n (unused none),
  refl,
  link_slots-FreeChain n 0 n (λ s. unused none) (omega arith),
)
