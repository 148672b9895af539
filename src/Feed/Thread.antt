-- ===== src/Feed/Thread.antt =====
-- The threads of a feed of src/feed.cpp that polls, `BinanceFeed` or `SyntheticFeed`: the loop that fetches
-- an event and pushes it until the queue takes it, `stop` of the feed, and the thread that pops. The
-- callback of `WebSocketBinanceFeed`, which may give up one event after another once it is stopped, is not
-- such a loop.
-- Where the thread of a feed stands: at the test of its loop, at the test in front of a call of
-- `try_push`, inside that call, or behind the loop, with the event that it gave up, if any.
use orderbook_c.Base.{Bool, List, Option, [], false, if◌then◌else◌, none, some, true, ℕ, ◌++◌, ◌∷◌}
use orderbook_c.Queue.{
  Producer, System, consumer_steps, new_system, p_idle, p_publish, producer_steps, step,
}

pub data Feeder {ℓ} (A : Type ℓ) : Type ℓ where
  at_top : Option A → Feeder A
  pushing calling : A → Feeder A
  ended : Option A → Feeder A

pub record FeedSystem {ℓ} (A : Type ℓ) : Type ℓ where
  pub system : System A
  pub feeder : Feeder A
  pub running : Bool
  pub fetched : List A

-- The thread of the feed takes a step, where a fetch has this outcome; the thread that pops takes one; or
-- `stop` clears `running_`.
pub data FeedEvent {ℓ} (A : Type ℓ) : Type ℓ where
  feeder_steps : Option A → FeedEvent A
  popper_steps stop_called : FeedEvent A

module _ {ℓ} {A : Type ℓ} where
  -- Where the thread stands after a step of `try_push`: the store of `head_` is the last step of a call
  -- that returns `true`.
  abbrev pub after_call : A → Producer A → Producer A → Feeder A
  after_call ev (p_publish w) after = at_top none
  after_call ev before p_idle = pushing ev
  after_call ev before after = calling ev

  -- `fetch_once` and what follows it.
  abbrev pub fetch : Option A → FeedSystem A → FeedSystem A
  fetch none s = s
  fetch (some ev) s = record s { feeder = pushing ev; fetched = s.fetched ++ ev ∷ [] }

  abbrev pub push_step : A → FeedSystem A → FeedSystem A
  push_step ev s =
      let next = step s.system (producer_steps ev) in
      record s { system = next; feeder = after_call ev s.system.producer next.producer }

  unfoldable pub step_feeder : Feeder A → Option A → FeedSystem A → FeedSystem A
  step_feeder (at_top lost) outcome s =
      if s.running then fetch outcome s else record s { feeder = ended lost }
  step_feeder (pushing ev) outcome s =
      if s.running then push_step ev s else record s { feeder = at_top (some ev) }
  step_feeder (calling ev) outcome s = push_step ev s
  step_feeder (ended lost) outcome s = s

  unfoldable pub step_feed : FeedSystem A → FeedEvent A → FeedSystem A
  step_feed s (feeder_steps outcome) = step_feeder s.feeder outcome s
  step_feed s popper_steps = record s { system = step s.system consumer_steps }
  step_feed s stop_called = record s { running = false }

  unfoldable pub run_feed : FeedSystem A → List (FeedEvent A) → FeedSystem A
  run_feed s [] = s
  run_feed s (e ∷ es) = run_feed (step_feed s e) es

  -- A feed that has been started on a new queue.
  abbrev pub started_feed : A → ℕ → FeedSystem A
  started_feed value min_capacity = record {
    system = new_system value min_capacity;
    feeder = at_top none;
    running = true;
    fetched = [];
  }
