-- ===== src/Feed/Delivery.antt =====
-- What the thread of a feed of src/feed.cpp delivers to the queue, whatever the order of the steps.
use mathlib.Core.List.{append_assoc, append-nil}
use orderbook_c.Base.{
  Bool, Bool-cases, List, Option, [], ap, false, get_elem?, if_cases, inl, inr, length, none, refl,
  some, subst, sym, true, ℕ, ◌++◌, ◌^◌, ◌∙◌, ◌∷◌, ◌≡◌, ◌≤◌,
}
use orderbook_c.Feed.Thread.{
  FeedEvent, FeedSystem, Feeder, after_call, at_top, calling, ended, feeder_steps, fetch,
  popper_steps, push_step, pushing, run_feed, started_feed, step_feed, step_feeder, stop_called,
}
use orderbook_c.Queue.{
  Consumer, Event, Producer, System, c_idle, c_publish, c_read, c_reload, consumer_steps, has_room,
  new_system, p_idle, p_publish, p_reload, p_write, producer_steps, run_events, slot_index, step,
  step_consumer, step_producer,
}
use orderbook_c.Queue.Fifo.{InOrder, run_events-InOrder}

module _ {ℓ} {A : Type ℓ} where
  abbrev one_or_none : Option A → List A
  one_or_none none = []
  one_or_none (some a) = a ∷ []

  -- The event that is fetched and not pushed.
  abbrev pub pending : Feeder A → List A
  pending (at_top lost) = one_or_none lost
  pending (pushing ev) = ev ∷ []
  pending (calling ev) = ev ∷ []
  pending (ended lost) = one_or_none lost

  abbrev value_of : Producer A → Option A
  value_of p_idle = none
  value_of (p_reload w) = some w
  value_of (p_write w) = some w
  value_of (p_publish w) = some w

  -- The value that a call under way pushes.
  abbrev called : Feeder A → Option A
  called (calling ev) = some ev
  called f = none

  abbrev pub gave_up : Feeder A → Bool
  gave_up (at_top (some ev)) = true
  gave_up (ended lost) = true
  gave_up f = false

  record FeedKept (value : A) (m : ℕ) (s : FeedSystem A) : Type ℓ where
    steps : List (Event A)
    reached : s.system ≡ run_events (new_system value m) steps
    delivered : s.fetched ≡ s.system.pushed ++ pending s.feeder
    in_call : value_of s.system.producer ≡ called s.feeder
    no_loss : s.running ≡ true → gave_up s.feeder ≡ false

  run_events-append :
      (s : System A) (es : List (Event A)) (e : Event A)
      → run_events s (es ++ e ∷ []) ≡ step (run_events s es) e
  unfolding run_events
  run_events-append s [] e = refl
  run_events-append s (x ∷ es) e = run_events-append (step s x) es e

  read-kept :
      (o : Option A) (s : System A)
      → let t : System A = elim o [
        | none ↦ record s { consumer = c_idle }
        | some v ↦ record s { consumer = c_publish v }
      ] in
        (t.pushed ≡ s.pushed) × (t.producer ≡ s.producer)
  read-kept none s = (refl, refl)
  read-kept (some v) s = (refl, refl)

  -- The thread that pops leaves the other's part of the queue alone.
  pub step_consumer-pushed :
      (c : Consumer A) (s : System A)
      → ((step_consumer c s).pushed ≡ s.pushed) × ((step_consumer c s).producer ≡ s.producer)
  unfolding step_consumer
  step_consumer-pushed c_idle s = (refl, refl)
  step_consumer-pushed c_reload s = (refl, refl)
  step_consumer-pushed c_read s =
      read-kept (get_elem? s.queue.slots (slot_index s.queue s.queue.tail)) s
  step_consumer-pushed (c_publish v) s = (refl, refl)

  -- What a step of `try_push` leaves for the thread.
  record Called (ev : A) (p : Producer A) (s next : System A) : Type ℓ where
    delivered : s.pushed ++ ev ∷ [] ≡ next.pushed ++ pending (after_call ev p next.producer)
    in_call : value_of next.producer ≡ called (after_call ev p next.producer)
    no_loss : gave_up (after_call ev p next.producer) ≡ false

  idle-Called : (ev : A) (s : System A) → Called ev p_idle s (step_producer ev p_idle s)
  unfolding step_producer
  idle-Called ev s = elim (Bool-cases (has_room s.queue)) [
    | inl e ↦ rw e (record { delivered = refl; in_call = refl; no_loss = refl })
    | inr e ↦ rw e (record { delivered = refl; in_call = refl; no_loss = refl })
  ]

  in_call-Called :
      (ev : A) (p : Producer A) (s : System A)
      → value_of p ≡ some ev
      → Called ev p s (step_producer ev p s)
  unfolding step_producer
  in_call-Called ev p_idle s h = cc
  in_call-Called ev (p_reload w) s h =
      let k : w ≡ ev = cc in
      let b = has_room (record s.queue { cached_tail = s.queue.tail }) in
      elim (Bool-cases b) [
        | inl e ↦ rw e (record { delivered = refl; in_call = ap some k; no_loss = refl })
        | inr e ↦ rw e (record { delivered = refl; in_call = refl; no_loss = refl })
      ]
  in_call-Called ev (p_write w) s h = record { delivered = refl; in_call = h; no_loss = refl }
  in_call-Called ev (p_publish w) s h =
      let k : w ≡ ev = cc in
      record {
        delivered = ap (λ a. s.pushed ++ a ∷ []) (sym k) ∙ sym (append-nil (s.pushed ++ w ∷ []));
        in_call = refl;
        no_loss = refl;
      }

  module _ (value : A) (m : ℕ) where
    popper-FeedKept :
        (s : FeedSystem A)
        → FeedKept value m s
        → FeedKept value m (record s { system = step s.system consumer_steps })
    unfolding step
    popper-FeedKept s k =
        let same = step_consumer-pushed s.system.consumer s.system in
        record {
          steps = k.steps ++ consumer_steps ∷ [];
          reached =
              ap (λ q. step q consumer_steps) k.reached
              ∙ sym (run_events-append (new_system value m) k.steps consumer_steps);
          delivered = k.delivered ∙ ap (λ t. t ++ pending s.feeder) (sym same.0);
          in_call = ap value_of same.1 ∙ k.in_call;
          no_loss = k.no_loss;
        }

    push_step-FeedKept :
        (s : FeedSystem A) (ev : A)
        → FeedKept value m s
        → pending s.feeder ≡ ev ∷ []
        → Called ev s.system.producer s.system (step_producer ev s.system.producer s.system)
        → FeedKept value m (push_step ev s)
    unfolding step
    push_step-FeedKept s ev k e c = record {
      steps = k.steps ++ producer_steps ev ∷ [];
      reached =
          ap (λ q. step q (producer_steps ev)) k.reached
          ∙ sym (run_events-append (new_system value m) k.steps (producer_steps ev));
      delivered = k.delivered ∙ (ap (λ t. s.system.pushed ++ t) e ∙ c.delivered);
      in_call = c.in_call;
      no_loss = λ r. c.no_loss;
    }

    idle_of : (p : Producer A) → value_of p ≡ none → p ≡ p_idle
    idle_of p_idle h = refl
    idle_of (p_reload w) h = cc
    idle_of (p_write w) h = cc
    idle_of (p_publish w) h = cc

    fetch-FeedKept :
        (outcome : Option A) (s : FeedSystem A) (lost : Option A)
        → s.feeder ≡ at_top lost
        → s.running ≡ true
        → FeedKept value m s
        → FeedKept value m (fetch outcome s)
    fetch-FeedKept none s lost e r k = k
    fetch-FeedKept (some ev) s (some a) e r k =
        let g = k.no_loss r in let t : gave_up s.feeder ≡ true = ap gave_up e in cc
    fetch-FeedKept (some ev) s none e r k = record {
      steps = k.steps;
      reached = k.reached;
      delivered =
          ap (λ t. t ++ ev ∷ [])
            (k.delivered ∙ (ap (λ f. s.system.pushed ++ pending f) e ∙ append-nil s.system.pushed));
      in_call = k.in_call ∙ ap called e;
      no_loss = λ q. refl;
    }

    step_feeder-FeedKept :
        (f : Feeder A) (outcome : Option A) (s : FeedSystem A)
        → s.feeder ≡ f
        → FeedKept value m s
        → FeedKept value m (step_feeder f outcome s)
    unfolding step_feeder
    step_feeder-FeedKept (at_top lost) outcome s e k =
        if_cases (FeedKept value m) s.running (fetch outcome s) (record s { feeder = ended lost })
          (λ r. fetch-FeedKept outcome s lost e r k)
          (λ r. record {
            steps = k.steps;
            reached = k.reached;
            delivered = k.delivered ∙ ap (λ t. s.system.pushed ++ pending t) e;
            in_call = k.in_call ∙ ap called e;
            no_loss = λ q. cc;
          })
    step_feeder-FeedKept (pushing ev) outcome s e k =
        let idle = idle_of s.system.producer (k.in_call ∙ ap called e) in
        if_cases (FeedKept value m) s.running (push_step ev s)
          (record s { feeder = at_top (some ev) })
          (λ r. push_step-FeedKept s ev k (ap pending e) (
            subst (λ p. Called ev p s.system (step_producer ev p s.system)) (sym idle)
              (idle-Called ev s.system)))
          (λ r. record {
            steps = k.steps;
            reached = k.reached;
            delivered = k.delivered ∙ ap (λ t. s.system.pushed ++ pending t) e;
            in_call = k.in_call ∙ ap called e;
            no_loss = λ q. cc;
          })
    step_feeder-FeedKept (calling ev) outcome s e k =
        push_step-FeedKept s ev k (ap pending e)
          (in_call-Called ev s.system.producer s.system (k.in_call ∙ ap called e))
    step_feeder-FeedKept (ended lost) outcome s e k = k

    run_feed-FeedKept :
        (es : List (FeedEvent A)) (s : FeedSystem A)
        → FeedKept value m s
        → FeedKept value m (run_feed s es)
    unfolding run_feed step_feed
    run_feed-FeedKept [] s k = k
    run_feed-FeedKept (feeder_steps outcome ∷ es) s k =
        run_feed-FeedKept es (step_feeder s.feeder outcome s)
          (step_feeder-FeedKept s.feeder outcome s refl k)
    run_feed-FeedKept (popper_steps ∷ es) s k =
        run_feed-FeedKept es (record s { system = step s.system consumer_steps })
          (popper-FeedKept s k)
    run_feed-FeedKept (stop_called ∷ es) s k =
        run_feed-FeedKept es (record s { running = false })
          (record {
            steps = k.steps;
            reached = k.reached;
            delivered = k.delivered;
            in_call = k.in_call;
            no_loss = λ q. cc;
          })

    started_feed-FeedKept : FeedKept value m (started_feed value m)
    unfolding run_events
    started_feed-FeedKept = record {
      steps = [];
      reached = refl;
      delivered = refl;
      in_call = refl;
      no_loss = λ q. refl;
    }

  -- A feed that polls (`BinanceFeed`, `SyntheticFeed`), on a new queue, after any steps of its thread, of the thread that pops, and of `stop`: the events
  -- that come out of the queue are events fetched, in their order, none lost or doubled. Behind them come
  -- those that wait in the queue, at most as many as its capacity, and at most one more event, which the
  -- thread has not pushed yet, or gave up when the feed stopped. While the feed runs none is given up. The
  -- capacity asked for is at most 2^63.
  pub run_feed-delivers :
      (value : A) (m : ℕ) (es : List (FeedEvent A))
      → m ≤ 2 ^ 63
      → let s = run_feed (started_feed value m) es in
        ((waiting : List A) × (s.fetched ≡ s.system.popped ++ (waiting ++ pending s.feeder))
          × (length waiting ≤ length s.system.queue.slots))
        × (s.running ≡ true → gave_up s.feeder ≡ false)
  run_feed-delivers value m es h =
      let s = run_feed (started_feed value m) es in
      let k = run_feed-FeedKept value m es (started_feed value m) (started_feed-FeedKept value m) in
      let (waiting, w, l) = subst InOrder (sym k.reached) (run_events-InOrder value m k.steps h) in
      (
        (
          waiting,
          k.delivered
              ∙ (ap (λ t. t ++ pending s.feeder) w
                  ∙ append_assoc s.system.popped waiting (pending s.feeder)),
          l,
        ),
        k.no_loss,
      )
