-- ===== src/Pipeline/Handled.antt =====
-- What the steps of a pipeline of src/live_trade.cpp keep.
use mathlib.Core.List.{append-nil}
use orderbook_c.Base.{
  All, All-append, List, Option, Option-cases, [], ap, get_elem?, if_cases, inl, inr, none, refl,
  some, subst, sym, ℕ, ◌++◌, ◌∙◌, ◌∷◌, ◌≡◌,
}
use orderbook_c.Base.Int.{pos}
use orderbook_c.Engine.Loop.{Tick, run_engine, tick}
use orderbook_c.Engine.State.{Fill, Position, TradingEngine}
use orderbook_c.Feed.{MarketEvent}
use orderbook_c.Feed.Thread.{
  FeedEvent, FeedSystem, Feeder, at_top, calling, ended, fetch, push_step, pushing, run_feed,
  step_feed, step_feeder,
}
use orderbook_c.Options.Pipeline.{fill_latency}
use orderbook_c.Queue.{
  Consumer, Producer, System, c_idle, c_publish, c_read, c_reload, p_idle, p_publish, p_reload,
  p_write, slot_index, step, step_consumer, step_producer,
}
use orderbook_c.Strategy.{MarketSnapshot, StrategyAction}

module _ {ℓ} {A : Type ℓ} where
  pub run_feed-append :
      (s : FeedSystem A) (es : List (FeedEvent A)) (e : FeedEvent A)
      → run_feed s (es ++ e ∷ []) ≡ step_feed (run_feed s es) e
  unfolding run_feed
  run_feed-append s [] e = refl
  run_feed-append s (x ∷ es) e = run_feed-append (step_feed s x) es e

  push_step-popped :
      (v : A) (p : Producer A) (s : System A) → (step_producer v p s).popped ≡ s.popped
  unfolding step_producer
  push_step-popped v p_idle s = refl
  push_step-popped v (p_reload w) s = refl
  push_step-popped v (p_write w) s = refl
  push_step-popped v (p_publish w) s = refl

  pub step_feeder-popped :
      (f : Feeder A) (outcome : Option A) (s : FeedSystem A)
      → (step_feeder f outcome s).system.popped ≡ s.system.popped
  unfolding step_feeder step
  step_feeder-popped (at_top lost) none s =
      if_cases (λ t. t.system.popped ≡ s.system.popped) s.running s
        (record s { feeder = ended lost }) (λ r. refl) (λ r. refl)
  step_feeder-popped (at_top lost) (some ev) s =
      if_cases (λ t. t.system.popped ≡ s.system.popped) s.running (fetch (some ev) s)
        (record s { feeder = ended lost }) (λ r. refl) (λ r. refl)
  step_feeder-popped (pushing ev) outcome s =
      if_cases (λ t. t.system.popped ≡ s.system.popped) s.running (push_step ev s)
        (record s { feeder = at_top (some ev) })
        (λ r. push_step-popped ev s.system.producer s.system) (λ r. refl)
  step_feeder-popped (calling ev) outcome s = push_step-popped ev s.system.producer s.system
  step_feeder-popped (ended lost) outcome s = refl

  -- What the next step of `try_pop` brings out.
  abbrev pub popped_by : Consumer A → List A
  popped_by (c_publish v) = v ∷ []
  popped_by c = []

  read_slot-popped :
      (o : Option A) (s : System A)
      → let t : System A = elim o [
        | none ↦ record s { consumer = c_idle }
        | some v ↦ record s { consumer = c_publish v }
      ] in
        t.popped ≡ s.popped
  read_slot-popped none s = refl
  read_slot-popped (some v) s = refl

  pub step_consumer-popped :
      (c : Consumer A) (s : System A) → (step_consumer c s).popped ≡ s.popped ++ popped_by c
  unfolding step_consumer
  step_consumer-popped c_idle s = sym (append-nil s.popped)
  step_consumer-popped c_reload s = sym (append-nil s.popped)
  step_consumer-popped c_read s =
      read_slot-popped (get_elem? s.queue.slots (slot_index s.queue s.queue.tail)) s
      ∙ sym (append-nil s.popped)
  step_consumer-popped (c_publish v) s = refl

  -- A property of the outcome of a fetch.
  abbrev pub AllOf {κ} : (A → Type κ) → Option A → Type κ
  AllOf P none = Unit
  AllOf P (some a) = P a

  fetch-All {κ} :
      (P : A → Type κ) (outcome : Option A) (s : FeedSystem A)
      → AllOf P outcome
      → All P s.fetched
      → All P (fetch outcome s).fetched
  fetch-All P none s h k = k
  fetch-All P (some ev) s h k = All-append P s.fetched (ev ∷ []) k (h, tt)

  pub step_feeder-All {κ} :
      (P : A → Type κ) (f : Feeder A) (outcome : Option A) (s : FeedSystem A)
      → AllOf P outcome
      → All P s.fetched
      → All P (step_feeder f outcome s).fetched
  unfolding step_feeder
  step_feeder-All P (at_top lost) outcome s h k =
      if_cases (λ t. All P t.fetched) s.running (fetch outcome s) (record s { feeder = ended lost })
        (λ r. fetch-All P outcome s h k) (λ r. k)
  step_feeder-All P (pushing ev) outcome s h k =
      if_cases (λ t. All P t.fetched) s.running (push_step ev s)
        (record s { feeder = at_top (some ev) }) (λ r. k) (λ r. k)
  step_feeder-All P (calling ev) outcome s h k = k
  step_feeder-All P (ended lost) outcome s h k = k

-- The latencies of the fills, the last one first.
abbrev pub newest_first : List ℕ → List Fill → List ℕ
newest_first acc [] = acc
newest_first acc (f ∷ fs) = newest_first (fill_latency f ∷ acc) fs

pub newest_first-append :
    (acc : List ℕ) (fs : List Fill) (f : Fill)
    → newest_first acc (fs ++ f ∷ []) ≡ fill_latency f ∷ newest_first acc fs
newest_first-append acc [] f = refl
newest_first-append acc (g ∷ fs) f = newest_first-append (fill_latency g ∷ acc) fs f

abbrev pub events_of : List Tick → List MarketEvent
events_of [] = []
events_of (t ∷ ts) = t.0 ∷ events_of ts

pub events_of-append :
    (ts : List Tick) (t : Tick) → events_of (ts ++ t ∷ []) ≡ events_of ts ++ t.0 ∷ []
events_of-append [] t = refl
events_of-append (u ∷ ts) t = ap (λ l. u.0 ∷ l) (events_of-append ts t)

module _ {S : Type 0} (on_tick : S → MarketSnapshot → Option StrategyAction × S) where
  pub run_engine-append :
      (ts : List Tick) (t : Tick) (e e1 e2 : TradingEngine) (st st1 st2 : S) (f : Option Fill)
      → run_engine on_tick e st ts ≡ some (e1, st1)
      → tick on_tick e1 st1 t ≡ some ((e2, f), st2)
      → run_engine on_tick e st (ts ++ t ∷ []) ≡ some (e2, st2)
  unfolding run_engine
  run_engine-append [] t e e1 e2 st st1 st2 f h k =
      let same : ◌≡◌ {A = TradingEngine × S} (e, st) (e1, st1) = cc in
      let k' : tick on_tick e st t ≡ some ((e2, f), st2) =
        subst (λ x. tick on_tick x.0 x.1 t ≡ some ((e2, f), st2)) (sym same) k in
      let goal : run_engine on_tick e st (t ∷ []) ≡ some (e2, st2) = rw (k', run_engine) refl in
      goal
  run_engine-append (u ∷ ts) t e e1 e2 st st1 st2 f h k =
      elim (Option-cases (tick on_tick e st u)) [
        | inl n ↦
            let h' : ◌≡◌ {A = Option (TradingEngine × S)} none (some (e1, st1)) =
              rw (n, run_engine) at h in
            cc
        | inr (((e', g), st'), n) ↦
            let h' : run_engine on_tick e' st' ts ≡ some (e1, st1) = rw (n, run_engine) at h in
            let goal : run_engine on_tick e st (u ∷ (ts ++ t ∷ [])) ≡ some (e2, st2) =
              rw (n, run_engine) (run_engine-append ts t e' e1 e2 st' st1 st2 f h' k) in
            goal
      ]

abbrev pub no_position : Position
no_position = record { btc_qty = pos 0; cash = pos 0; gross_volume = 0; fills = 0 }
