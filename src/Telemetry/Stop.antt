-- ===== src/Telemetry/Stop.antt =====
-- Runs of the publisher of include/order_book/telemetry.hpp, and what `stop` waits for.
use orderbook_c.Base.{
  All, Bool, List, [], ap, false, refl, subst, suc, sym, true, zero, ℕ, ◌++◌, ◌∙◌, ◌∷◌, ◌≡◌,
}
use orderbook_c.Telemetry.Drain.{AllHave, Delivered, emit-AllHave}
use orderbook_c.Telemetry.Kept.{Kept, in_hand-exited, is_draining, step-Kept}
use orderbook_c.Telemetry.Publisher.{
  Event, Publisher, Worker, asleep, draining, emit, emitting, exited, falling_asleep, joining,
  no_lines, publish, run_events, started, step, step_stopper, step_worker, stopper_steps,
  test_queue, testing, wakes_up, worker_steps,
}

-- A step of the worker or of the stopping thread.
abbrev pub is_thread_step {ℓ} : {R : Type ℓ} → Event R → Bool
is_thread_step worker_steps = true
is_thread_step stopper_steps = true
is_thread_step e = false

-- Before the test of its wait or with a batch: not blocked, not about to block, not at its end.
abbrev pub is_awake {ℓ} : {R : Type ℓ} → Worker R → Bool
is_awake asleep = false
is_awake falling_asleep = false
is_awake exited = false
is_awake w = true

-- The worker finds its queue empty, `stop` clears `running_` and notifies, and the worker blocks.
abbrev pub lost_wakeup {ℓ} : {R : Type ℓ} → List (Event R)
lost_wakeup = worker_steps ∷ stopper_steps ∷ stopper_steps ∷ worker_steps ∷ []

abbrev pub four_steps {ℓ} : {R : Type ℓ} → List (Event R)
four_steps = worker_steps ∷ worker_steps ∷ worker_steps ∷ worker_steps ∷ []

module _ {ℓ κ} {R : Type ℓ} {L : Type κ} (line_of : R → L) where
  run_events-Kept :
      (es : List (Event R)) (p : Publisher R L)
      → Kept line_of p
      → Kept line_of (run_events line_of p es)
  unfolding run_events
  run_events-Kept [] p x = x
  run_events-Kept (e ∷ es) p x = run_events-Kept es (step line_of p e) (step-Kept line_of p e x)

  no_lines-AllHave : (n : ℕ) → AllHave line_of (no_lines n) []
  no_lines-AllHave zero = tt
  no_lines-AllHave (suc n) = (refl, no_lines-AllHave n)

  started-Kept : (n : ℕ) → Kept line_of (started n)
  started-Kept n = record {
    in_order = record { kept = refl; lines = no_lines-AllHave n };
    exits_first = λ d. d;
  }

  -- From a publisher that has just been started with `n` sinks, after any steps of the producers, the
  -- worker and the stopping thread in any order: every sink has the lines of the records written so
  -- far, in order, and the records published are those written, then those in the worker's hands, then
  -- those in the queue. No record is lost, doubled or moved.
  pub run_events-Delivered :
      (n : ℕ) (es : List (Event R)) → Delivered line_of (run_events line_of (started n) es)
  run_events-Delivered n es = (run_events-Kept es (started n) (started-Kept n)).in_order

  drains-all :
      (p : Publisher R L)
      → p.stopper ≡ draining
      → Kept line_of p
      → let q = step_stopper line_of draining p in
        AllHave line_of q.sinks q.published × (q.queue ≡ [])
  unfolding step_stopper
  drains-all p e x =
      let h = in_hand-exited line_of p.worker (x.exits_first (ap is_draining e)) in
      let k = x.in_order.kept ∙ ap (λ t. p.written ++ (t ++ p.queue)) h in
      (
        subst (AllHave line_of (emit line_of p.queue p.sinks)) (sym k)
            (emit-AllHave line_of p.queue p.sinks p.written x.in_order.lines),
        refl,
      )

  step-draining :
      (p : Publisher R L)
      → p.stopper ≡ draining
      → step line_of p stopper_steps ≡ step_stopper line_of draining p
  unfolding step
  step-draining p e = ap (λ s. step_stopper line_of s p) e

  -- When `stop` has joined the worker in such a run, its drain leaves in every sink the lines of all the
  -- records published so far, and an empty queue.
  pub drain-all :
      (n : ℕ) (es : List (Event R))
      → (run_events line_of (started n) es).stopper ≡ draining
      → let p = step line_of (run_events line_of (started n) es) stopper_steps in
        AllHave line_of p.sinks p.published × (p.queue ≡ [])
  drain-all n es h =
      let p = run_events line_of (started n) es in
      subst (λ q. AllHave line_of q.sinks q.published × (q.queue ≡ [])) (sym (step-draining p h))
        (drains-all p h (run_events-Kept es (started n) (started-Kept n)))

  exits :
      (w : Worker R) (q : List R) (p : Publisher R L)
      → is_awake w ≡ true
      → let r =
          run_events line_of (record p { worker = w; queue = q; running = false }) four_steps in
        (r.worker ≡ exited) × (r.queue ≡ [])
  unfolding run_events step step_worker test_queue
  exits testing [] p h = (refl, refl)
  exits testing (r ∷ rs) p h = (refl, refl)
  exits falling_asleep q p h = cc
  exits asleep q p h = cc
  exits exited q p h = cc
  exits (emitting batch) [] p h = (refl, refl)
  exits (emitting batch) (r ∷ rs) p h = (refl, refl)

  -- Once `stop` has cleared `running_`, four steps of the worker alone end it with an empty queue, if it
  -- stands before the test of its wait or emits a batch.
  pub worker-exits :
      (p : Publisher R L)
      → p.running ≡ false
      → is_awake p.worker ≡ true
      → let q = run_events line_of p four_steps in (q.worker ≡ exited) × (q.queue ≡ [])
  worker-exits p e h =
      subst
        (λ b.
          let q = run_events line_of (record p { running = b }) four_steps in
          (q.worker ≡ exited) × (q.queue ≡ []))
        (sym e) (exits p.worker p.queue p h)

  run_events-hung :
      (n : ℕ) (es : List (Event R))
      → All (λ e. is_thread_step e ≡ true) es
      → let p = run_events line_of (started n) lost_wakeup in run_events line_of p es ≡ p
  unfolding run_events step step_worker step_stopper test_queue
  run_events-hung n [] h = refl
  run_events-hung n (publish r ∷ es) (h, hs) = cc
  run_events-hung n (worker_steps ∷ es) (h, hs) = run_events-hung n es hs
  run_events-hung n (stopper_steps ∷ es) (h, hs) = run_events-hung n es hs
  run_events-hung n (wakes_up ∷ es) (h, hs) = cc

  -- From a publisher that has just been started: the worker tests its empty queue, `stop` clears
  -- `running_` and notifies without the mutex, the worker blocks; whatever steps the two threads then
  -- take, with no record published and no spurious wakeup, `stop` stays in `join`.
  pub stop-hangs :
      (n : ℕ) (es : List (Event R))
      → All (λ e. is_thread_step e ≡ true) es
      → (run_events line_of (run_events line_of (started n) lost_wakeup) es).stopper ≡ joining
  unfolding run_events step step_worker step_stopper test_queue
  stop-hangs n es h = ap (λ p. p.stopper) (run_events-hung n es h)
