-- ===== src/Queue.antt =====
-- include/order_book/spsc_queue.hpp: `SPSCQueue`, with one thread that pushes and one that pops. A
-- step of a thread does at most one access to an index or a slot that the threads share, and the
-- threads' steps interleave in any order. `&` with the mask, one less than a power of two, is the
-- remainder by the power.
pub mod Index
pub mod Capacity
pub mod Invariant
pub mod Push
pub mod Pop
pub mod Fifo
pub mod Tests
use orderbook_c.Base.{
  Bool, List, [], get_elem?, if◌then◌else◌, leb, length, ltb, none, set, some, suc, zero, ℕ, ◌%◌,
  ◌*◌, ◌++◌, ◌-◌, ◌==◌, ◌∷◌,
}
use orderbook_c.Types.{add64, sub64, u64_mod}

-- The loop of the constructor, with fuel for its rounds.
unfoldable pub round_up : ℕ → ℕ → ℕ → ℕ
round_up zero cap min_capacity = cap
round_up (suc fuel) cap min_capacity =
    let more = round_up fuel ((cap * 2) % u64_mod) min_capacity in
    if ltb cap min_capacity then more else cap

pub record SpscQueue {ℓ} (A : Type ℓ) : Type ℓ where
  pub mask : ℕ
  pub head : ℕ
  pub cached_tail : ℕ
  pub tail : ℕ
  pub cached_head : ℕ
  pub slots : List A

-- Where the thread that pushes stands in `try_push`: outside, before the second test, before the
-- write of the slot, before the store of `head_`.
pub data Producer {ℓ} (A : Type ℓ) : Type ℓ where
  p_idle : Producer A
  p_reload p_write p_publish : A → Producer A

-- Where the thread that pops stands in `try_pop`.
pub data Consumer {ℓ} (A : Type ℓ) : Type ℓ where
  c_idle c_reload c_read : Consumer A
  c_publish : A → Consumer A

-- The queue, the threads, and the values of the calls that have returned `true`, in order.
pub record System {ℓ} (A : Type ℓ) : Type ℓ where
  pub queue : SpscQueue A
  pub producer : Producer A
  pub consumer : Consumer A
  pub pushed : List A
  pub popped : List A

module _ {ℓ} {A : Type ℓ} where
  abbrev pub copies : ℕ → A → List A
  copies zero v = []
  copies (suc n) v = v ∷ copies n v

  unfoldable pub new_queue : A → ℕ → SpscQueue A
  new_queue value min_capacity =
      let cap = round_up 64 1 min_capacity in
      record {
        mask = cap - 1;
        head = 0;
        cached_tail = 0;
        tail = 0;
        cached_head = 0;
        slots = copies cap value;
      }

  abbrev pub slot_index : SpscQueue A → ℕ → ℕ
  slot_index q i = i % suc q.mask

  -- Not `next - cached_tail_ > slots_.size()`.
  abbrev pub has_room : SpscQueue A → Bool
  has_room q = leb (sub64 (add64 q.head 1) q.cached_tail) (length q.slots)

  abbrev pub begin_push : A → System A → System A
  begin_push v s = record s { producer = if has_room s.queue then p_write v else p_reload v }

  abbrev pub reload_tail : A → System A → System A
  reload_tail v s =
      let q = record s.queue { cached_tail = s.queue.tail } in
      record s { queue = q; producer = if has_room q then p_write v else p_idle }

  abbrev pub write_slot : A → System A → System A
  write_slot v s = record s {
    queue = record s.queue { slots = set s.queue.slots (slot_index s.queue s.queue.head) v };
    producer = p_publish v;
  }

  abbrev pub publish_head : A → System A → System A
  publish_head v s = record s {
    queue = record s.queue { head = add64 s.queue.head 1 };
    producer = p_idle;
    pushed = s.pushed ++ (v ∷ []);
  }

  abbrev pub begin_pop : System A → System A
  begin_pop s = record s {
    consumer = if s.queue.tail == s.queue.cached_head then c_reload else c_read;
  }

  abbrev pub reload_head : System A → System A
  reload_head s = record s {
    queue = record s.queue { cached_head = s.queue.head };
    consumer = if s.queue.tail == s.queue.head then c_idle else c_read;
  }

  -- A read past the slots, which the index never asks for, would take no value.
  abbrev pub read_slot : System A → System A
  read_slot s = elim (get_elem? s.queue.slots (slot_index s.queue s.queue.tail)) [
    | none ↦ record s { consumer = c_idle }
    | some v ↦ record s { consumer = c_publish v }
  ]

  abbrev pub publish_tail : A → System A → System A
  publish_tail v s = record s {
    queue = record s.queue { tail = add64 s.queue.tail 1 };
    consumer = c_idle;
    popped = s.popped ++ (v ∷ []);
  }

  -- The next step of `try_push`; outside it, a call with the value.
  unfoldable pub step_producer : A → Producer A → System A → System A
  step_producer v p_idle s = begin_push v s
  step_producer v (p_reload w) s = reload_tail w s
  step_producer v (p_write w) s = write_slot w s
  step_producer v (p_publish w) s = publish_head w s

  unfoldable pub step_consumer : Consumer A → System A → System A
  step_consumer c_idle s = begin_pop s
  step_consumer c_reload s = reload_head s
  step_consumer c_read s = read_slot s
  step_consumer (c_publish v) s = publish_tail v s

-- Which thread takes the next step: the one that pushes, with the value of its next call, or the one
-- that pops.
pub data Event {ℓ} (A : Type ℓ) : Type ℓ where
  producer_steps : A → Event A
  consumer_steps : Event A

module _ {ℓ} {A : Type ℓ} where
  unfoldable pub step : System A → Event A → System A
  step s (producer_steps v) = step_producer v s.producer s
  step s consumer_steps = step_consumer s.consumer s

  unfoldable pub run_events : System A → List (Event A) → System A
  run_events s [] = s
  run_events s (e ∷ es) = run_events (step s e) es

  abbrev pub new_system : A → ℕ → System A
  new_system value min_capacity = record {
    queue = new_queue value min_capacity;
    producer = p_idle;
    consumer = c_idle;
    pushed = [];
    popped = [];
  }
