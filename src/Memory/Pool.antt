-- ===== src/Memory/Pool.antt =====
-- Calls of the pool on its links against calls of a plain list of free slots.
use orderbook_c.Base.{
  Bool, Bool-cases, List, Option, Option-cases, [], arith, false, if◌then◌else◌, inl, inr, ltb,
  none, refl, some, subst, suc, true, ℕ, ◌+◌, ◌<◌, ◌==◌, ◌>>=◌, ◌∷◌, ◌≡◌, ◌≤◌,
}
use orderbook_c.Memory.{
  LinkedPool, Memory, Node, Slot, live, new_pool, node_in, pool_acquire, pool_release, unused,
  write,
}
use orderbook_c.Memory.FreeList.{
  FreeChain, FreeChain-frame, FreeChain-live, is_live, new_pool-FreeChain,
}
use orderbook_c.Memory.Seg.{node}
use orderbook_c.OrderBook.Run.{count-slots_from}
use orderbook_c.OrderBook.Slots.{count}
use orderbook_c.OrderBook.State.{slots_from}
use orderbook_c.SideBook.Counts.{one_if}
use orderbook_c.Types.{Order}

pub data PoolCall : Type 0 where
  acquires : Order → PoolCall
  releases : ℕ → PoolCall

-- The free slots and those that are given out.
pub record ListPool : Type 0 where
  pub free : List ℕ
  pub held : List ℕ

unfoldable remove_one : ℕ → List ℕ → List ℕ
remove_one s [] = []
remove_one s (k ∷ ks) = if k == s then ks else k ∷ remove_one s ks

abbrev list_acquire : List ℕ → ListPool → Option (Option ℕ × ListPool)
list_acquire [] p = some (none, p)
list_acquire (s ∷ ss) p = some (some s, record { free = ss; held = s ∷ p.held })

-- A slot that is not given out may not be released.
unfoldable pub list_call : PoolCall → ListPool → Option (Option ℕ × ListPool)
unfolding remove_one
list_call (acquires o) p = list_acquire p.free p
list_call (releases s) p =
    if count s p.held == 0
    then none
    else some (none, record { free = s ∷ p.free; held = remove_one s p.held })

unfoldable pub list_calls : List PoolCall → ListPool → Option (List (Option ℕ) × ListPool)
list_calls [] p = some ([], p)
list_calls (c ∷ cs) p = do
  (out, p1) ← list_call c p
  (outs, p2) ← list_calls cs p1
  some (out ∷ outs, p2)

unfoldable pub linked_call : PoolCall → LinkedPool → Option (Option ℕ × LinkedPool)
linked_call (acquires o) (h, m) = pool_acquire h o m
linked_call (releases s) (h, m) = do p ← pool_release (some s) h m; some (none, p)

unfoldable pub linked_calls : List PoolCall → LinkedPool → Option (List (Option ℕ) × LinkedPool)
linked_calls [] p = some ([], p)
linked_calls (c ∷ cs) p = do
  (out, p1) ← linked_call c p
  (outs, p2) ← linked_calls cs p1
  some (out ∷ outs, p2)

-- The pool in memory is the pool of lists, and each slot below the capacity is free or given out, once.
pub record IsPool (capacity : ℕ) (q : LinkedPool) (p : ListPool) : Type 0 where
  pub chain : FreeChain q.1 q.0 p.free
  pub once : (k : ℕ) → count k p.free + count k p.held ≡ one_if (ltb k capacity)
  pub holds : (k : ℕ) → 0 < count k p.held → is_live (q.1 k) ≡ true

count-remove_one :
    (k s : ℕ) (ks : List ℕ)
    → 0 < count s ks
    → count k (remove_one s ks) + one_if (s == k) ≡ count k ks
unfolding remove_one
count-remove_one k s [] h = omega arith
count-remove_one k s (x ∷ xs) h = ground (arith, count-remove_one k s xs)

one_if-most : (b : Bool) → one_if b ≤ 1
one_if-most true = omega arith
one_if-most false = omega arith

-- What a call that gives `z` on the lists has to give on the links.
abbrev Matches : ℕ → Option (Option ℕ × LinkedPool) → Option ℕ × ListPool → Type 0
Matches n r z = (q : LinkedPool) × (r ≡ some (z.0, q)) × IsPool n q z.1

acquire-IsPool :
    (n : ℕ) (o : Order) (free : List ℕ) (h : Option ℕ) (m : Memory) (p : ListPool)
    (z : Option ℕ × ListPool)
    → p.free ≡ free
    → IsPool n (h, m) p
    → list_acquire free p ≡ some z
    → Matches n (pool_acquire h o m) z
unfolding pool_acquire
acquire-IsPool n o [] h m p z e is f =
    let c : h ≡ none = subst (FreeChain m h) e is.chain in
    let k : (none, p) ≡ z = cc in subst (Matches n (pool_acquire h o m)) k ((h, m), rw c refl, is)
acquire-IsPool n o (s ∷ ss) h m p z e is f =
    let (head, (q, u, c)) = subst (FreeChain m h) e is.chain in
    let p' : ListPool = record { free = ss; held = s ∷ p.held } in
    let k : (some s, p') ≡ z = cc in
    let g = write m s (live (record { order = o; prev = none; next = none })) in
    let once = subst (λ fs. (i : ℕ) → count i fs + count i p.held ≡ one_if (ltb i n)) e is.once in
    let alone : count s ss ≡ 0 = ground (arith, once s, one_if-most (ltb s n)) in
    subst (Matches n (pool_acquire h o m)) k (
      (q, g),
      rw (head, u) refl,
      record {
        chain = FreeChain-frame m g q ss (λ i w. ground arith) c;
        once = λ i. ground (arith, once i);
        holds = λ i w. ground (arith, is.holds i);
      },
    )

live-node : (c : Slot) → is_live c ≡ true → (n : Node) × (node_in c ≡ some n)
live-node (live n) h = (n, refl)
live-node (unused q) h = cc

release-IsPool :
    (n s : ℕ) (h : Option ℕ) (m : Memory) (p : ListPool)
    → IsPool n (h, m) p
    → 0 < count s p.held
    → (q : LinkedPool) × (pool_release (some s) h m ≡ some q)
      × IsPool n q (record { free = s ∷ p.free; held = remove_one s p.held })
unfolding pool_release
release-IsPool n s h m p is out =
    let (node, l) = live-node (m s) (is.holds s out) in
    let g = write m s (unused h) in
    let alone = FreeChain-live m h p.free s is.chain (is.holds s out) in
    (
      (some s, g),
      rw l refl,
      record {
        chain =
            (refl, (h, ground arith, FreeChain-frame m g h p.free (λ i w. ground arith) is.chain));
        once = λ i. ground (arith, is.once i, count-remove_one i s p.held out);
        holds = λ i w.
            ground (
              arith,
              is.holds i,
              is.once i,
              count-remove_one i s p.held out,
              one_if-most (ltb i n),
            );
      },
    )

linked_call-IsPool :
    (n : ℕ) (c : PoolCall) (q : LinkedPool) (p : ListPool) (z : Option ℕ × ListPool)
    → IsPool n q p
    → list_call c p ≡ some z
    → Matches n (linked_call c q) z
unfolding list_call linked_call
linked_call-IsPool n (acquires o) (h, m) p z is f = acquire-IsPool n o p.free h m p z refl is f
linked_call-IsPool n (releases s) (h, m) p z is f = elim (Bool-cases (count s p.held == 0)) [
  | inl e ↦ let k : none ≡ some z = rw e at f in cc
  | inr e ↦
      let k : some (none, record { free = s ∷ p.free; held = remove_one s p.held }) ≡ some z =
        rw e at f in
      let k' : (none, record { free = s ∷ p.free; held = remove_one s p.held }) ≡ z = cc in
      let (q, w, is') = release-IsPool n s h m p is (ground arith) in
      subst (Matches n (linked_call (releases s) (h, m))) k' (q, rw w refl, is')
]

linked_calls-IsPool :
    (n : ℕ) (cs : List PoolCall) (q : LinkedPool) (p : ListPool) (z : List (Option ℕ) × ListPool)
    → IsPool n q p
    → list_calls cs p ≡ some z
    → (q' : LinkedPool) × (linked_calls cs q ≡ some (z.0, q')) × IsPool n q' z.1
unfolding list_calls linked_calls
linked_calls-IsPool n [] q p z is f =
    let y : List (Option ℕ) × ListPool = ([], p) in
    let k : y ≡ z = cc in
    subst (λ y. (q' : LinkedPool) × (linked_calls [] q ≡ some (y.0, q')) × IsPool n q' y.1) k
      (q, refl, is)
linked_calls-IsPool n (c ∷ cs) q p z is f = elim (Option-cases (list_call c p)) [
  | inl e ↦ let k : none ≡ some z = rw e at f in cc
  | inr ((out, p1), e) ↦
      let (q1, r1, is1) = linked_call-IsPool n c q p (out, p1) is e in
      let f1 = rw e at f in
      elim (Option-cases (list_calls cs p1)) [
        | inl e2 ↦ let k : none ≡ some z = rw e2 at f1 in cc
        | inr ((outs, p2), e2) ↦
            let k : ◌≡◌ {A = Option (List (Option ℕ) × ListPool)} (some (out ∷ outs, p2)) (some z) =
              rw e2 at f1 in
            let y : List (Option ℕ) × ListPool = (out ∷ outs, p2) in
            let k' : y ≡ z = cc in
            let (q2, r2, is2) = linked_calls-IsPool n cs q1 p1 (outs, p2) is1 e2 in
            subst
              (λ y.
                (q' : LinkedPool) × (linked_calls (c ∷ cs) q ≡ some (y.0, q')) × IsPool n q' y.1)
              k' (q2, rw (r1, r2) refl, is2)
      ]
]

-- A new pool with all its slots free.
abbrev pub full : ℕ → ListPool
full n = record { free = slots_from 0 n; held = [] }

-- The pool on its links is a stack of free slots. From a new pool of at least one slot, calls of which
-- none releases a slot that is not given out have a result, follow no dangling link, and return the
-- addresses that the list returns: its front, or a null pointer exactly if it is empty. At the end the
-- links are that list, and each slot below the capacity, and no other, is free or given out, once.
pub new_pool-IsPool :
    (n : ℕ) (cs : List PoolCall) (outs : List (Option ℕ)) (p : ListPool)
    → list_calls cs (full (suc n)) ≡ some (outs, p)
    → (fresh : LinkedPool) × (new_pool (suc n) ≡ some fresh)
      × (q : LinkedPool) × (linked_calls cs fresh ≡ some (outs, q))
      × IsPool (suc n) q p
new_pool-IsPool n cs outs p f =
    let (h, m, e, c) = new_pool-FreeChain n in
    let is : IsPool (suc n) (h, m) (full (suc n)) = record {
      chain = c;
      once = λ k. ground (arith, count-slots_from 0 (suc n) k);
      holds = λ k w. ground arith;
    } in
    let (q, r, is') = linked_calls-IsPool (suc n) cs (h, m) (full (suc n)) (outs, p) is f in
    ((h, m), e, q, r, is')
