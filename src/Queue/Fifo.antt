-- ===== src/Queue/Fifo.antt =====
-- What every interleaving of the two threads of include/order_book/spsc_queue.hpp keeps.
use native.Mathlib.Nat.{one-le-pow, pow-le-pow_right}
use orderbook_c.Base.{
  List, [], arith, length, refl, subst, suc, sym, zero, ℕ, ◌%◌, ◌++◌, ◌+◌, ◌-◌, ◌^◌, ◌∙◌, ◌∷◌, ◌≡◌,
  ◌≢◌, ◌≤◌,
}
use orderbook_c.Queue.{
  Event, System, c_read, consumer_steps, copies, new_queue, new_system, p_write, producer_steps,
  round_up, run_events, slot_index, step,
}
use orderbook_c.Queue.Capacity.{round_up-IsCapacity, wrap-mod_pow}
use orderbook_c.Queue.Index.{mod_apart}
use orderbook_c.Queue.Invariant.{PopReady, PushReady, head_slot, tail_slot}
use orderbook_c.Queue.Pop.{step_consumer-Sound}
use orderbook_c.Queue.Push.{Sound, step_producer-Sound}
use orderbook_c.Types.{u64_mod}

module _ {ℓ} {A : Type ℓ} where
  step-Sound : (s : System A) (e : Event A) → Sound s → Sound (step s e)
  unfolding step
  step-Sound s (producer_steps v) x = step_producer-Sound v s.producer s refl x
  step-Sound s consumer_steps x = step_consumer-Sound s.consumer s refl x

  run_events-Sound : (s : System A) (es : List (Event A)) → Sound s → Sound (run_events s es)
  unfolding run_events
  run_events-Sound s [] x = x
  run_events-Sound s (e ∷ es) x = run_events-Sound (step s e) es (step-Sound s e x)

  length-copies : (n : ℕ) (v : A) → length (copies n v) ≡ n
  length-copies zero v = refl
  length-copies (suc n) v = omega (arith, length-copies n v)

  new_system-Sound : (value : A) (m : ℕ) → m ≤ 2 ^ 63 → Sound (new_system value m)
  unfolding new_queue
  new_system-Sound value m h =
      let c = round_up-IsCapacity m h in
      let positive : 1 ≤ 2 ^ c.exponent = one-le-pow c.exponent 2 (ground arith) in
      let at_most : 2 ^ c.exponent ≤ 2 ^ 63 = pow-le-pow_right (ground arith) c.small in
      let whole : suc (round_up 64 1 m - 1) ≡ 2 ^ c.exponent = omega (arith, positive, c.is_pow) in
      record {
        waiting = [];
        ct = 0;
        ch = 0;
        linked = record {
          sized = length-copies (round_up 64 1 m) value ∙ (c.is_pow ∙ sym whole);
          bounded = omega (arith, whole, at_most);
          divides =
              subst (λ n. u64_mod % n ≡ 0) (sym whole)
                (wrap-mod_pow c.exponent (omega (arith, c.small)));
          head_of = refl;
          tail_of = refl;
          cached_tail_of = refl;
          cached_head_of = refl;
          tail_old = omega arith;
          head_new = omega arith;
          head_old = omega arith;
          fits = omega arith;
          stored = λ i v e. absurd (ground (arith, e));
        };
        in_order = refl;
        push_ready = tt;
        pop_ready = tt;
      }

  reach :
      (value : A) (m : ℕ) (es : List (Event A))
      → m ≤ 2 ^ 63
      → Sound (run_events (new_system value m) es)
  reach value m es h = run_events-Sound (new_system value m) es (new_system-Sound value m h)

  -- The values popped are a prefix of the values pushed, and at most the capacity of the queue are
  -- on their way.
  abbrev pub InOrder : System A → Type ℓ
  InOrder s =
      (waiting : List A) × (s.pushed ≡ s.popped ++ waiting)
      × (length waiting ≤ length s.queue.slots)

  -- In every interleaving of the steps of the two threads, the values come out in the order in which
  -- they went in, none lost or doubled, and at most as many as the capacity are on their way. The
  -- capacity asked for is at most 2^63.
  pub run_events-InOrder :
      (value : A) (m : ℕ) (es : List (Event A))
      → m ≤ 2 ^ 63
      → InOrder (run_events (new_system value m) es)
  run_events-InOrder value m es h =
      let x = reach value m es h in
      let l = x.linked in (x.waiting, x.in_order, omega (arith, l.fits, l.tail_old, l.sized))

  slots_apart :
      (s : System A) (v : A)
      → Sound s
      → s.producer ≡ p_write v
      → s.consumer ≡ c_read
      → slot_index s.queue s.queue.head ≢ slot_index s.queue s.queue.tail
  slots_apart s v x p c same =
      let m = length s.popped in
      let l = x.linked in
      let (room, u) = subst (λ t. PushReady t s.queue (m + length x.waiting) x.ct) p x.push_ready in
      let (some_left, w) = subst (λ t. PopReady t m x.waiting x.ch) c x.pop_ready in
      mod_apart m (m + length x.waiting) (suc s.queue.mask) (omega (arith, some_left, l.head_old))
        (omega (arith, room, l.tail_old))
        (sym (tail_slot s.queue m x.waiting x.ct x.ch l)
          ∙ (sym same ∙ head_slot s.queue m x.waiting x.ct x.ch l))

  -- In no interleaving is one thread about to write the slot that the other is about to read: the
  -- slots need no lock. The capacity asked for is at most 2^63.
  pub run_events-apart :
      (value : A) (m : ℕ) (es : List (Event A)) (v : A)
      → m ≤ 2 ^ 63
      → (run_events (new_system value m) es).producer ≡ p_write v
      → (run_events (new_system value m) es).consumer ≡ c_read
      → slot_index
          (run_events (new_system value m) es).queue
          (run_events (new_system value m) es).queue.head
        ≢ slot_index
            (run_events (new_system value m) es).queue
            (run_events (new_system value m) es).queue.tail
  run_events-apart value m es v h p c =
      slots_apart (run_events (new_system value m) es) v (reach value m es h) p c
