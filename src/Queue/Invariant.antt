-- ===== src/Queue/Invariant.antt =====
-- What holds between the steps of include/order_book/spsc_queue.hpp. The indices wrap, so the
-- invariant counts with the numbers of values pushed and popped.
use native.Mathlib.Nat.{mod-lt}
use orderbook_c.Base.{
  List, [], ap, arith, get_elem?, inl, inr, length, length-append, set, some, subst, suc, sym, true,
  ℕ, ◌%◌, ◌++◌, ◌+◌, ◌<◌, ◌^◌, ◌∙◌, ◌∷◌, ◌≡◌, ◌≢◌, ◌≤◌,
}
use orderbook_c.Queue.{
  Consumer, Producer, SpscQueue, c_idle, c_publish, c_read, c_reload, has_room, p_idle, p_publish,
  p_reload, p_write, slot_index,
}
use orderbook_c.Queue.Index.{
  get_elem?-append, get_elem?-lt, get_elem?-set_other, get_elem?-set_same, length-set, mod-mod_wrap,
  mod_apart,
}
use orderbook_c.Types.{add64, u64_mod}

-- Of the queue: `m` values have been popped and `w` wait; the cached indices are those that stood
-- when `ct` had been popped and `ch` pushed.
pub record Linked {ℓ} {A : Type ℓ} (q : SpscQueue A) (m : ℕ) (w : List A) (ct ch : ℕ) : Type ℓ where
  pub sized : length q.slots ≡ suc q.mask
  pub bounded : suc q.mask ≤ 2 ^ 63
  pub divides : u64_mod % suc q.mask ≡ 0
  pub head_of : q.head ≡ (m + length w) % u64_mod
  pub tail_of : q.tail ≡ m % u64_mod
  pub cached_tail_of : q.cached_tail ≡ ct % u64_mod
  pub cached_head_of : q.cached_head ≡ ch % u64_mod
  pub tail_old : ct ≤ m
  pub head_new : m ≤ ch
  pub head_old : ch ≤ m + length w
  pub fits : m + length w ≤ ct + suc q.mask
  pub stored :
      (i : ℕ) (v : A) → get_elem? w i ≡ some v → get_elem? q.slots ((m + i) % suc q.mask) ≡ some v

module _ {ℓ} {A : Type ℓ} where
  -- `n` values have been pushed.
  abbrev pub PushReady : Producer A → SpscQueue A → ℕ → ℕ → Type ℓ
  PushReady p_idle q n ct = Unit
  PushReady (p_reload v) q n ct = Unit
  PushReady (p_write v) q n ct = (suc n ≤ ct + suc q.mask) × Unit
  PushReady (p_publish v) q n ct =
      (suc n ≤ ct + suc q.mask) × (get_elem? q.slots (n % suc q.mask) ≡ some v)

  abbrev pub PopReady : Consumer A → ℕ → List A → ℕ → Type ℓ
  PopReady c_idle m w ch = Unit
  PopReady c_reload m w ch = Unit
  PopReady c_read m w ch = (m < ch) × Unit
  PopReady (c_publish v) m w ch = (m < ch) × (get_elem? w 0 ≡ some v)

  pub has_room-fits :
      (q : SpscQueue A) (m : ℕ) (w : List A) (ct ch : ℕ)
      → Linked q m w ct ch
      → has_room q ≡ true
      → suc (m + length w) ≤ ct + suc q.mask
  has_room-fits q m w ct ch l h =
      ground (arith, l.sized, l.bounded, l.head_of, l.cached_tail_of, l.tail_old, l.fits)

module _ {ℓ} {A : Type ℓ} (q : SpscQueue A) (m : ℕ) (w : List A) (ct ch : ℕ)
    (l : Linked q m w ct ch) where
  pub reload_tail-Linked : Linked (record q { cached_tail = q.tail }) m w m ch
  reload_tail-Linked = record {
    sized = l.sized;
    bounded = l.bounded;
    divides = l.divides;
    head_of = l.head_of;
    tail_of = l.tail_of;
    cached_tail_of = l.tail_of;
    cached_head_of = l.cached_head_of;
    tail_old = omega arith;
    head_new = l.head_new;
    head_old = l.head_old;
    fits = omega (arith, l.fits, l.tail_old);
    stored = l.stored;
  }

  pub reload_head-Linked : Linked (record q { cached_head = q.head }) m w ct (m + length w)
  reload_head-Linked = record {
    sized = l.sized;
    bounded = l.bounded;
    divides = l.divides;
    head_of = l.head_of;
    tail_of = l.tail_of;
    cached_tail_of = l.cached_tail_of;
    cached_head_of = l.head_of;
    tail_old = l.tail_old;
    head_new = omega arith;
    head_old = omega arith;
    fits = l.fits;
    stored = l.stored;
  }

  pub head_slot : slot_index q q.head ≡ (m + length w) % suc q.mask
  head_slot =
      ap (λ h. h % suc q.mask) l.head_of ∙ mod-mod_wrap (m + length w) (suc q.mask) l.divides

  pub tail_slot : slot_index q q.tail ≡ m % suc q.mask
  tail_slot = ap (λ t. t % suc q.mask) l.tail_of ∙ mod-mod_wrap m (suc q.mask) l.divides

  pub write_slot-Linked :
      (v : A)
      → suc (m + length w) ≤ ct + suc q.mask
      → Linked (record q { slots = set q.slots (slot_index q q.head) v }) m w ct ch
  write_slot-Linked v room = record {
    sized = length-set q.slots (slot_index q q.head) v ∙ l.sized;
    bounded = l.bounded;
    divides = l.divides;
    head_of = l.head_of;
    tail_of = l.tail_of;
    cached_tail_of = l.cached_tail_of;
    cached_head_of = l.cached_head_of;
    tail_old = l.tail_old;
    head_new = l.head_new;
    head_old = l.head_old;
    fits = l.fits;
    stored = λ i x e.
        let in_w = get_elem?-lt w i x e in
        let apart : slot_index q q.head ≢ (m + i) % suc q.mask = λ same.
          mod_apart (m + i) (m + length w) (suc q.mask) (omega (arith, in_w))
            (omega (arith, room, l.tail_old)) (sym same ∙ head_slot) in
        get_elem?-set_other q.slots (slot_index q q.head) ((m + i) % suc q.mask) v apart
        ∙ l.stored i x e;
  }

  pub write_slot-stored :
      (v : A)
      → get_elem? (set q.slots (slot_index q q.head) v) ((m + length w) % suc q.mask) ≡ some v
  write_slot-stored v =
      let below : q.head % suc q.mask < suc q.mask = mod-lt q.head (ground arith) in
      subst (λ k. get_elem? (set q.slots (slot_index q q.head) v) k ≡ some v) head_slot
        (get_elem?-set_same q.slots (slot_index q q.head) v (omega (arith, l.sized, below)))

  pub publish_head-Linked :
      (v : A)
      → suc (m + length w) ≤ ct + suc q.mask
      → get_elem? q.slots ((m + length w) % suc q.mask) ≡ some v
      → Linked (record q { head = add64 q.head 1 }) m (w ++ (v ∷ [])) ct ch
  publish_head-Linked v room here =
      let longer : length (w ++ (v ∷ [])) ≡ length w + 1 = length-append w (v ∷ []) in
      record {
        sized = l.sized;
        bounded = l.bounded;
        divides = l.divides;
        head_of = omega (arith, longer, l.head_of);
        tail_of = l.tail_of;
        cached_tail_of = l.cached_tail_of;
        cached_head_of = l.cached_head_of;
        tail_old = l.tail_old;
        head_new = l.head_new;
        head_old = omega (arith, longer, l.head_old);
        fits = omega (arith, longer, room);
        stored = λ i x e. elim (get_elem?-append w v x i e) [
          | inl old ↦ l.stored i x old
          | inr (last, same) ↦
              subst (λ y. get_elem? q.slots ((m + i) % suc q.mask) ≡ some y) same
                (subst (λ k. get_elem? q.slots ((m + k) % suc q.mask) ≡ some v) (sym last) here)
        ];
      }

pub publish_tail-Linked {ℓ} :
    {A : Type ℓ} (q : SpscQueue A) (m : ℕ) (v : A) (w : List A) (ct ch : ℕ)
    → Linked q m (v ∷ w) ct ch
    → m < ch
    → Linked (record q { tail = add64 q.tail 1 }) (suc m) w ct ch
publish_tail-Linked q m v w ct ch l some_left = record {
  sized = l.sized;
  bounded = l.bounded;
  divides = l.divides;
  head_of = omega (arith, l.head_of);
  tail_of = omega (arith, l.tail_of);
  cached_tail_of = l.cached_tail_of;
  cached_head_of = l.cached_head_of;
  tail_old = omega (arith, l.tail_old);
  head_new = some_left;
  head_old = omega (arith, l.head_old);
  fits = omega (arith, l.fits);
  stored = λ i x e.
      subst (λ k. get_elem? q.slots (k % suc q.mask) ≡ some x) (ground arith)
        (l.stored (suc i) x e);
}
