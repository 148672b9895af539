-- ===== src/Telemetry/Publisher.antt =====
-- `TelemetryPublisher` of include/order_book/telemetry.hpp: the producers, the worker thread and the
-- thread that stops it take steps in any order. The worker holds the mutex from the test of its wait
-- to the moment when it blocks. A sink is the list of the lines written to it.
use orderbook_c.Base.{Bool, List, [], false, if◌then◌else◌, suc, true, zero, ℕ, ◌++◌, ◌∷◌}

-- Where the worker stands in `run`: before the test of the wait, after a test that failed, blocked,
-- with a batch that it emits, at its end.
pub data Worker {ℓ} (R : Type ℓ) : Type ℓ where
  testing falling_asleep asleep exited : Worker R
  emitting : List R → Worker R

-- Where `stop` stands: before it, before the notification, before the end of `join`, before the
-- drain, after it, or after the early return.
pub data Stopper : Type 0 where
  not_called notifying joining draining stopped returned_early : Stopper

pub record Publisher {ℓ κ} (R : Type ℓ) (L : Type κ) : Type (ℓ ⊔ κ) where
  pub queue : List R
  pub running : Bool
  pub sinks : List (List L)
  pub worker : Worker R
  pub stopper : Stopper
  pub published : List R
  pub written : List R

-- A producer publishes, the worker takes a step, the stopping thread takes a step, or the worker's
-- wait wakes up by itself.
pub data Event {ℓ} (R : Type ℓ) : Type ℓ where
  publish : R → Event R
  worker_steps stopper_steps wakes_up : Event R

module _ {ℓ} {R : Type ℓ} where
  abbrev pub woken : Worker R → Worker R
  woken asleep = testing
  woken w = w

  abbrev pub has_exited : Worker R → Bool
  has_exited exited = true
  has_exited w = false

module _ {ℓ κ} {R : Type ℓ} {L : Type κ} where
  -- `publish`: while the worker is about to block, it holds the mutex and the producer waits.
  abbrev pub push_record : R → Publisher R L → Publisher R L
  push_record r p = record p {
    queue = p.queue ++ (r ∷ []);
    published = p.published ++ (r ∷ []);
    worker = woken p.worker;
  }

  unfoldable pub publish_with : Worker R → R → Publisher R L → Publisher R L
  publish_with falling_asleep r p = p
  publish_with testing r p = push_record r p
  publish_with asleep r p = push_record r p
  publish_with exited r p = push_record r p
  publish_with (emitting batch) r p = push_record r p

  -- The test of the wait, and what follows while the mutex is held.
  unfoldable pub test_queue : List R → Publisher R L → Publisher R L
  test_queue [] p = record p { worker = if p.running then falling_asleep else exited }
  test_queue (r ∷ rs) p = record p { worker = emitting (r ∷ rs); queue = [] }

module _ {ℓ κ} {R : Type ℓ} {L : Type κ} (line_of : R → L) where
  -- `write_line` of one line to every sink.
  abbrev pub write_line : L → List (List L) → List (List L)
  write_line l [] = []
  write_line l (k ∷ ks) = (k ++ (l ∷ [])) ∷ write_line l ks

  unfoldable pub emit : List R → List (List L) → List (List L)
  emit [] sinks = sinks
  emit (r ∷ rs) sinks = emit rs (write_line (line_of r) sinks)

  unfoldable pub step_worker : Worker R → Publisher R L → Publisher R L
  step_worker testing p = test_queue p.queue p
  step_worker falling_asleep p = record p { worker = asleep }
  step_worker asleep p = p
  step_worker exited p = p
  step_worker (emitting batch) p = record p {
    worker = testing;
    sinks = emit batch p.sinks;
    written = p.written ++ batch;
  }

  unfoldable pub step_stopper : Stopper → Publisher R L → Publisher R L
  step_stopper not_called p = record p {
    running = false;
    stopper = if p.running then notifying else returned_early;
  }
  step_stopper notifying p = record p { worker = woken p.worker; stopper = joining }
  step_stopper joining p = record p { stopper = if has_exited p.worker then draining else joining }
  step_stopper draining p = record p {
    queue = [];
    sinks = emit p.queue p.sinks;
    written = p.written ++ p.queue;
    stopper = stopped;
  }
  step_stopper stopped p = p
  step_stopper returned_early p = p

  unfoldable pub step : Publisher R L → Event R → Publisher R L
  step p (publish r) = publish_with p.worker r p
  step p worker_steps = step_worker p.worker p
  step p stopper_steps = step_stopper p.stopper p
  step p wakes_up = record p { worker = woken p.worker }

  unfoldable pub run_events : Publisher R L → List (Event R) → Publisher R L
  run_events p [] = p
  run_events p (e ∷ es) = run_events (step p e) es

-- A publisher that has been started, with `n` sinks attached.
abbrev pub no_lines {ℓ} : {L : Type ℓ} → ℕ → List (List L)
no_lines zero = []
no_lines (suc n) = [] ∷ no_lines n

abbrev pub started {ℓ κ} : {R : Type ℓ} {L : Type κ} → ℕ → Publisher R L
started n = record {
  queue = [];
  running = true;
  sinks = no_lines n;
  worker = testing;
  stopper = not_called;
  published = [];
  written = [];
}
