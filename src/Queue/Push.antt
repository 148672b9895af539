-- ===== src/Queue/Push.antt =====
-- The steps of `try_push` of include/order_book/spsc_queue.hpp keep the invariant of the two threads.
use mathlib.Core.List.{append_assoc}
use orderbook_c.Base.{
  Bool, List, [], ap, arith, false, get_elem?, if◌then◌else◌, length, refl, some, subst, suc, true,
  ℕ, ◌%◌, ◌++◌, ◌+◌, ◌∙◌, ◌∷◌, ◌≡◌, ◌≤◌,
}
use orderbook_c.Queue.{
  Consumer, Producer, SpscQueue, System, c_idle, c_publish, c_read, c_reload, has_room, p_idle,
  p_publish, p_reload, p_write, step_producer,
}
use orderbook_c.Queue.Invariant.{
  Linked, PopReady, PushReady, has_room-fits, publish_head-Linked, reload_tail-Linked,
  write_slot-Linked, write_slot-stored,
}

-- The values that wait are those pushed and not yet popped, and they stand in the slots.
pub record Sound {ℓ} {A : Type ℓ} (s : System A) : Type ℓ where
  pub waiting : List A
  pub ct : ℕ
  pub ch : ℕ
  pub linked : Linked s.queue (length s.popped) waiting ct ch
  pub in_order : s.pushed ≡ s.popped ++ waiting
  pub push_ready : PushReady s.producer s.queue (length s.popped + length waiting) ct
  pub pop_ready : PopReady s.consumer (length s.popped) waiting ch

module _ {ℓ} {A : Type ℓ} where
  -- A thread's own steps keep what the other thread relies on.
  pub PushReady-same :
      (p : Producer A) (q q' : SpscQueue A) (n ct : ℕ)
      → q.mask ≡ q'.mask
      → q.slots ≡ q'.slots
      → PushReady p q n ct
      → PushReady p q' n ct
  PushReady-same p_idle q q' n ct e f h = h
  PushReady-same (p_reload v) q q' n ct e f h = h
  PushReady-same (p_write v) q q' n ct e f h = subst (λ m. (suc n ≤ ct + suc m) × Unit) e h
  PushReady-same (p_publish v) q q' n ct e f (h, k) = (
    subst (λ m. suc n ≤ ct + suc m) e h,
    subst (λ m. get_elem? q'.slots (n % suc m) ≡ some v) e
        (subst (λ xs. get_elem? xs (n % suc q.mask) ≡ some v) f k),
  )

  PopReady-append :
      (c : Consumer A) (m : ℕ) (w : List A) (v : A) (ch : ℕ)
      → PopReady c m w ch
      → PopReady c m (w ++ (v ∷ [])) ch
  PopReady-append c_idle m w v ch h = h
  PopReady-append c_reload m w v ch h = h
  PopReady-append c_read m w v ch h = h
  PopReady-append (c_publish x) m [] v ch (h, k) = absurd (ground (arith, k))
  PopReady-append (c_publish x) m (y ∷ w) v ch (h, k) = (h, k)

  PushReady-room :
      (b : Bool) (v : A) (other : Producer A) (q : SpscQueue A) (m : ℕ) (w : List A) (ct ch : ℕ)
      → Linked q m w ct ch
      → has_room q ≡ b
      → PushReady other q (m + length w) ct
      → PushReady (if b then p_write v else other) q (m + length w) ct
  PushReady-room true v other q m w ct ch l e h = (has_room-fits q m w ct ch l e, tt)
  PushReady-room false v other q m w ct ch l e h = h

  pub step_producer-Sound :
      (v : A) (p : Producer A) (s : System A)
      → s.producer ≡ p
      → Sound s
      → Sound (step_producer v p s)
  unfolding step_producer
  step_producer-Sound v p_idle s e x = record {
    waiting = x.waiting;
    ct = x.ct;
    ch = x.ch;
    linked = x.linked;
    in_order = x.in_order;
    push_ready =
        PushReady-room (has_room s.queue) v (p_reload v) s.queue (length s.popped) x.waiting x.ct
          x.ch x.linked refl tt;
    pop_ready = x.pop_ready;
  }
  step_producer-Sound v (p_reload w) s e x =
      let q' = record s.queue { cached_tail = s.queue.tail } in
      let l' = reload_tail-Linked s.queue (length s.popped) x.waiting x.ct x.ch x.linked in
      record {
        waiting = x.waiting;
        ct = length s.popped;
        ch = x.ch;
        linked = l';
        in_order = x.in_order;
        push_ready =
            PushReady-room (has_room q') w p_idle q' (length s.popped) x.waiting (length s.popped)
              x.ch l' refl tt;
        pop_ready = x.pop_ready;
      }
  step_producer-Sound v (p_write w) s e x =
      let (room, u) =
        subst (λ p. PushReady p s.queue (length s.popped + length x.waiting) x.ct) e x.push_ready in
      record {
        waiting = x.waiting;
        ct = x.ct;
        ch = x.ch;
        linked = write_slot-Linked s.queue (length s.popped) x.waiting x.ct x.ch x.linked w room;
        in_order = x.in_order;
        push_ready =
            (room, write_slot-stored s.queue (length s.popped) x.waiting x.ct x.ch x.linked w);
        pop_ready = x.pop_ready;
      }
  step_producer-Sound v (p_publish w) s e x =
      let (room, here) =
        subst (λ p. PushReady p s.queue (length s.popped + length x.waiting) x.ct) e x.push_ready in
      record {
        waiting = x.waiting ++ (w ∷ []);
        ct = x.ct;
        ch = x.ch;
        linked =
            publish_head-Linked s.queue (length s.popped) x.waiting x.ct x.ch x.linked w room here;
        in_order = ap (λ xs. xs ++ (w ∷ [])) x.in_order ∙ append_assoc s.popped x.waiting (w ∷ []);
        push_ready = tt;
        pop_ready = PopReady-append s.consumer (length s.popped) x.waiting w x.ch x.pop_ready;
      }
