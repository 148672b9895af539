-- ===== src/Queue/Pop.antt =====
-- The steps of `try_pop` of include/order_book/spsc_queue.hpp keep the invariant of the two threads.
use mathlib.Core.List.{append_assoc}
use orderbook_c.Base.{
  Bool, List, Option-cases, [], ap, arith, false, get_elem?, if◌then◌else◌, inl, inr, length,
  length-append, none, refl, some, subst, suc, sym, true, ℕ, ◌%◌, ◌++◌, ◌+◌, ◌<◌, ◌==◌, ◌∙◌, ◌∷◌,
  ◌≡◌,
}
use orderbook_c.Queue.{
  Consumer, SpscQueue, System, c_idle, c_publish, c_read, c_reload, publish_tail, read_slot,
  slot_index, step_consumer,
}
use orderbook_c.Queue.Invariant.{
  Linked, PopReady, PushReady, publish_tail-Linked, reload_head-Linked, tail_slot,
}
use orderbook_c.Queue.Push.{PushReady-same, Sound}
use orderbook_c.Types.{add64}

module _ {ℓ} {A : Type ℓ} where
  get_elem?-empty : (w : List A) → get_elem? w 0 ≡ none → length w ≡ 0
  get_elem?-empty [] e = refl
  get_elem?-empty (x ∷ w) e = absurd (ground (arith, e))

  read_slot-found :
      (s : System A) (v : A)
      → get_elem? s.queue.slots (slot_index s.queue s.queue.tail) ≡ some v
      → read_slot s ≡ record s { consumer = c_publish v }
  read_slot-found s v e = rw (e, read_slot) refl

  PopReady-tail :
      (b : Bool) (other : Consumer A) (q : SpscQueue A) (m : ℕ) (w : List A) (ct ch : ℕ)
      → Linked q m w ct ch
      → (q.tail == q.cached_head) ≡ b
      → PopReady other m w ch
      → PopReady (if b then other else c_read) m w ch
  PopReady-tail true other q m w ct ch l e h = h
  PopReady-tail false other q m w ct ch l e h =
      (ground (arith, l.tail_of, l.cached_head_of, l.head_new), tt)

  read_slot-Sound : (s : System A) (x : Sound s) → length s.popped < x.ch → Sound (read_slot s)
  read_slot-Sound s x h = elim (Option-cases (get_elem? x.waiting 0)) [
    | inl empty ↦
        let none_waits : length x.waiting ≡ 0 = get_elem?-empty x.waiting empty in
        absurd (omega (arith, none_waits, h, x.linked.head_old))
    | inr (v, first) ↦
        let m = length s.popped in
        let here : get_elem? s.queue.slots ((m + 0) % suc s.queue.mask) ≡ some v =
          x.linked.stored 0 v first in
        let same : (m + 0) % suc s.queue.mask ≡ slot_index s.queue s.queue.tail =
          ap (λ k. k % suc s.queue.mask) (omega arith)
          ∙ sym (tail_slot s.queue m x.waiting x.ct x.ch x.linked) in
        let found : get_elem? s.queue.slots (slot_index s.queue s.queue.tail) ≡ some v =
          subst (λ k. get_elem? s.queue.slots k ≡ some v) same here in
        let after : Sound (record s { consumer = c_publish v }) = record {
          waiting = x.waiting;
          ct = x.ct;
          ch = x.ch;
          linked = x.linked;
          in_order = x.in_order;
          push_ready = x.push_ready;
          pop_ready = (h, first);
        } in
        subst Sound (sym (read_slot-found s v found)) after
  ]

  get_elem?-first : (w : List A) (v : A) → get_elem? w 0 ≡ some v → (w' : List A) × (w ≡ v ∷ w')
  get_elem?-first [] v e = absurd (ground (arith, e))
  get_elem?-first (y ∷ w) v e = (w, ground (arith, e))

  publish_tail-waiting :
      (s : System A) (v : A) (w : List A) (ct ch : ℕ)
      → Linked s.queue (length s.popped) (v ∷ w) ct ch
      → s.pushed ≡ s.popped ++ (v ∷ w)
      → PushReady s.producer s.queue (length s.popped + length (v ∷ w)) ct
      → length s.popped < ch
      → Sound (publish_tail v s)
  publish_tail-waiting s v w ct ch l o r h =
      let q' = record s.queue { tail = add64 s.queue.tail 1 } in
      let m = length s.popped in
      let longer : length (s.popped ++ (v ∷ [])) ≡ m + 1 = length-append s.popped (v ∷ []) in
      let longer_suc : suc m ≡ length (s.popped ++ (v ∷ [])) = omega (arith, longer) in
      let as_many : m + suc (length w) ≡ length (s.popped ++ (v ∷ [])) + length w =
        omega (arith, longer) in
      record {
        waiting = w;
        ct = ct;
        ch = ch;
        linked =
            subst (λ k. Linked q' k w ct ch) longer_suc
              (publish_tail-Linked s.queue m v w ct ch l h);
        in_order = o ∙ sym (append_assoc s.popped (v ∷ []) w);
        push_ready =
            subst (λ n. PushReady s.producer q' n ct) as_many
              (PushReady-same s.producer s.queue q' (m + suc (length w)) ct refl refl r);
        pop_ready = tt;
      }

  publish_tail-Sound :
      (s : System A) (v : A) (x : Sound s)
      → length s.popped < x.ch
      → get_elem? x.waiting 0 ≡ some v
      → Sound (publish_tail v s)
  publish_tail-Sound s v x h first =
      let (w, e) = get_elem?-first x.waiting v first in
      publish_tail-waiting s v w x.ct x.ch
        (subst (λ y. Linked s.queue (length s.popped) y x.ct x.ch) e x.linked)
        (subst (λ y. s.pushed ≡ s.popped ++ y) e x.in_order)
        (subst (λ y. PushReady s.producer s.queue (length s.popped + length y) x.ct) e x.push_ready)
        h

  pub step_consumer-Sound :
      (c : Consumer A) (s : System A) → s.consumer ≡ c → Sound s → Sound (step_consumer c s)
  unfolding step_consumer
  step_consumer-Sound c_idle s e x = record {
    waiting = x.waiting;
    ct = x.ct;
    ch = x.ch;
    linked = x.linked;
    in_order = x.in_order;
    push_ready = x.push_ready;
    pop_ready =
        PopReady-tail (s.queue.tail == s.queue.cached_head) c_reload s.queue (length s.popped)
          x.waiting x.ct x.ch x.linked refl tt;
  }
  step_consumer-Sound c_reload s e x =
      let q' = record s.queue { cached_head = s.queue.head } in
      let n = length s.popped + length x.waiting in
      let l' = reload_head-Linked s.queue (length s.popped) x.waiting x.ct x.ch x.linked in
      record {
        waiting = x.waiting;
        ct = x.ct;
        ch = n;
        linked = l';
        in_order = x.in_order;
        push_ready = PushReady-same s.producer s.queue q' n x.ct refl refl x.push_ready;
        pop_ready =
            PopReady-tail (s.queue.tail == s.queue.head) c_idle q' (length s.popped) x.waiting x.ct
              n l' refl tt;
      }
  step_consumer-Sound c_read s e x =
      let (h, u) = subst (λ c. PopReady c (length s.popped) x.waiting x.ch) e x.pop_ready in
      read_slot-Sound s x h
  step_consumer-Sound (c_publish v) s e x =
      let (h, first) = subst (λ c. PopReady c (length s.popped) x.waiting x.ch) e x.pop_ready in
      publish_tail-Sound s v x h first
