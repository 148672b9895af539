-- ===== src/Telemetry/Kept.antt =====
-- What each step of the publisher of include/order_book/telemetry.hpp keeps.
use mathlib.Core.List.{append_assoc, append-nil}
use orderbook_c.Base.{
  Bool, List, [], ap, false, if◌then◌else◌, refl, subst, sym, true, ◌++◌, ◌∙◌, ◌∷◌, ◌≡◌,
}
use orderbook_c.Telemetry.Drain.{Delivered, emit-AllHave, in_hand}
use orderbook_c.Telemetry.Publisher.{
  Event, Publisher, Stopper, Worker, asleep, draining, emitting, exited, falling_asleep, has_exited,
  joining, not_called, notifying, publish, publish_with, push_record, returned_early, step,
  step_stopper, step_worker, stopped, stopper_steps, test_queue, testing, wakes_up, woken,
  worker_steps,
}

abbrev pub is_draining : Stopper → Bool
is_draining draining = true
is_draining s = false

module _ {ℓ κ} {R : Type ℓ} {L : Type κ} (line_of : R → L) where
  pub record Kept (p : Publisher R L) : Type (ℓ ⊔ κ) where
    pub in_order : Delivered line_of p
    pub exits_first : is_draining p.stopper ≡ true → has_exited p.worker ≡ true

  in_hand-woken : (w : Worker R) → in_hand (woken w) ≡ in_hand w
  in_hand-woken testing = refl
  in_hand-woken falling_asleep = refl
  in_hand-woken asleep = refl
  in_hand-woken exited = refl
  in_hand-woken (emitting batch) = refl

  has_exited-woken : (w : Worker R) → has_exited w ≡ true → has_exited (woken w) ≡ true
  has_exited-woken testing h = h
  has_exited-woken falling_asleep h = h
  has_exited-woken asleep h = cc
  has_exited-woken exited h = h
  has_exited-woken (emitting batch) h = h

  pub in_hand-exited : (w : Worker R) → has_exited w ≡ true → in_hand w ≡ []
  in_hand-exited testing h = refl
  in_hand-exited falling_asleep h = refl
  in_hand-exited asleep h = refl
  in_hand-exited exited h = refl
  in_hand-exited (emitting batch) h = cc

  push_record-Kept : (r : R) (p : Publisher R L) → Kept p → Kept (push_record r p)
  push_record-Kept r p x = record {
    in_order = record {
      kept =
          ap (λ t. t ++ (r ∷ [])) x.in_order.kept
          ∙ (append_assoc p.written (in_hand p.worker ++ p.queue) (r ∷ [])
              ∙ ap (λ t. p.written ++ t)
                  (append_assoc (in_hand p.worker) p.queue (r ∷ [])
                    ∙ ap (λ t. t ++ (p.queue ++ (r ∷ []))) (sym (in_hand-woken p.worker))));
      lines = x.in_order.lines;
    };
    exits_first = λ d. has_exited-woken p.worker (x.exits_first d);
  }

  publish_with-Kept :
      (w : Worker R) (r : R) (p : Publisher R L) → Kept p → Kept (publish_with w r p)
  unfolding publish_with
  publish_with-Kept testing r p x = push_record-Kept r p x
  publish_with-Kept falling_asleep r p x = x
  publish_with-Kept asleep r p x = push_record-Kept r p x
  publish_with-Kept exited r p x = push_record-Kept r p x
  publish_with-Kept (emitting batch) r p x = push_record-Kept r p x

  wakes_up-Kept : (p : Publisher R L) → Kept p → Kept (record p { worker = woken p.worker })
  wakes_up-Kept p x = record {
    in_order = record {
      kept = x.in_order.kept ∙ ap (λ t. p.written ++ (t ++ p.queue)) (sym (in_hand-woken p.worker));
      lines = x.in_order.lines;
    };
    exits_first = λ d. has_exited-woken p.worker (x.exits_first d);
  }

  in_hand-testing : (b : Bool) → in_hand {R = R} (if b then falling_asleep else exited) ≡ []
  in_hand-testing true = refl
  in_hand-testing false = refl

  test_queue-Kept :
      (q : List R) (p : Publisher R L)
      → p.queue ≡ q
      → p.worker ≡ testing
      → Kept p
      → Kept (test_queue q p)
  unfolding test_queue
  test_queue-Kept [] p e f x = record {
    in_order = record {
      kept =
          x.in_order.kept
          ∙ ap (λ w. p.written ++ (w ++ p.queue)) (ap in_hand f ∙ sym (in_hand-testing p.running));
      lines = x.in_order.lines;
    };
    exits_first = λ d.
        let h = x.exits_first d in
        let k : has_exited {R = R} testing ≡ true = subst (λ w. has_exited w ≡ true) f h in cc;
  }
  test_queue-Kept (r ∷ rs) p e f x = record {
    in_order = record {
      kept =
          x.in_order.kept
          ∙ ap (λ t. p.written ++ t)
              (ap (λ w. in_hand w ++ p.queue) f ∙ (e ∙ sym (append-nil (r ∷ rs))));
      lines = x.in_order.lines;
    };
    exits_first = λ d.
        let h = x.exits_first d in
        let k : has_exited {R = R} testing ≡ true = subst (λ w. has_exited w ≡ true) f h in cc;
  }

  step_worker-Kept :
      (w : Worker R) (p : Publisher R L) → p.worker ≡ w → Kept p → Kept (step_worker line_of w p)
  unfolding step_worker
  step_worker-Kept testing p e x = test_queue-Kept p.queue p refl e x
  step_worker-Kept falling_asleep p e x = record {
    in_order = record {
      kept = x.in_order.kept ∙ ap (λ w. p.written ++ (in_hand w ++ p.queue)) e;
      lines = x.in_order.lines;
    };
    exits_first = λ d.
        let h = x.exits_first d in
        let k : has_exited {R = R} falling_asleep ≡ true = subst (λ w. has_exited w ≡ true) e h in
        cc;
  }
  step_worker-Kept asleep p e x = x
  step_worker-Kept exited p e x = x
  step_worker-Kept (emitting batch) p e x = record {
    in_order = record {
      kept =
          x.in_order.kept
          ∙ (ap (λ w. p.written ++ (in_hand w ++ p.queue)) e
              ∙ sym (append_assoc p.written batch p.queue));
      lines = emit-AllHave line_of batch p.sinks p.written x.in_order.lines;
    };
    exits_first = λ d.
        let h = x.exits_first d in
        let k : has_exited (emitting batch) ≡ true = subst (λ w. has_exited w ≡ true) e h in cc;
  }

  is_draining-called : (b : Bool) → is_draining (if b then notifying else returned_early) ≡ false
  is_draining-called true = refl
  is_draining-called false = refl

  is_draining-joins : (b : Bool) → is_draining (if b then draining else joining) ≡ true → b ≡ true
  is_draining-joins true h = refl
  is_draining-joins false h = h

  step_stopper-Kept :
      (s : Stopper) (p : Publisher R L) → p.stopper ≡ s → Kept p → Kept (step_stopper line_of s p)
  unfolding step_stopper
  step_stopper-Kept not_called p e x = record {
    in_order = record { kept = x.in_order.kept; lines = x.in_order.lines };
    exits_first = λ d. let k = is_draining-called p.running in cc;
  }
  step_stopper-Kept notifying p e x = record {
    in_order = record {
      kept = x.in_order.kept ∙ ap (λ t. p.written ++ (t ++ p.queue)) (sym (in_hand-woken p.worker));
      lines = x.in_order.lines;
    };
    exits_first = λ d. cc;
  }
  step_stopper-Kept joining p e x = record {
    in_order = record { kept = x.in_order.kept; lines = x.in_order.lines };
    exits_first = is_draining-joins (has_exited p.worker);
  }
  step_stopper-Kept draining p e x = record {
    in_order = record {
      kept =
          let h = in_hand-exited p.worker (x.exits_first (ap is_draining e)) in
          x.in_order.kept
          ∙ (ap (λ t. p.written ++ (t ++ p.queue)) h
              ∙ (sym (append-nil (p.written ++ p.queue))
                  ∙ ap (λ t. (p.written ++ p.queue) ++ (t ++ [])) (sym h)));
      lines = emit-AllHave line_of p.queue p.sinks p.written x.in_order.lines;
    };
    exits_first = λ d. cc;
  }
  step_stopper-Kept stopped p e x = x
  step_stopper-Kept returned_early p e x = x

  pub step-Kept : (p : Publisher R L) (e : Event R) → Kept p → Kept (step line_of p e)
  unfolding step
  step-Kept p (publish r) x = publish_with-Kept p.worker r p x
  step-Kept p worker_steps x = step_worker-Kept p.worker p refl x
  step-Kept p stopper_steps x = step_stopper-Kept p.stopper p refl x
  step-Kept p wakes_up x = wakes_up-Kept p x
