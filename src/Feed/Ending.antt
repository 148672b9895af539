-- ===== src/Feed/Ending.antt =====
-- The end of the thread of a feed of src/feed.cpp, which `stop` waits for.
use orderbook_c.Base.{
  Bool, List, Option, [], ap, arith, false, if_cases, refl, subst, suc, sym, true, ℕ, ◌∷◌, ◌≡◌, ◌≤◌,
}
use orderbook_c.Feed.Delivery.{step_consumer-pushed}
use orderbook_c.Feed.Thread.{
  FeedEvent, FeedSystem, Feeder, after_call, at_top, calling, ended, feeder_steps, popper_steps,
  pushing, run_feed, step_feed, step_feeder, stop_called,
}
use orderbook_c.Queue.{
  Producer, System, consumer_steps, has_room, p_idle, p_publish, p_reload, p_write, step,
  step_producer,
}

module _ {ℓ} {A : Type ℓ} where
  -- How many steps a thread of a stopped feed has left at most.
  call_rank : Producer A → ℕ
  call_rank p_idle = 5
  call_rank (p_reload w) = 4
  call_rank (p_write w) = 3
  call_rank (p_publish w) = 2

  rank : Feeder A → Producer A → ℕ
  rank (ended lost) p = 0
  rank (at_top lost) p = 1
  rank (pushing ev) p = 2
  rank (calling ev) p = call_rank p

  abbrev pub is_ended : Feeder A → Bool
  is_ended (ended lost) = true
  is_ended f = false

  abbrev pub feeder_turns : List (FeedEvent A) → ℕ
  feeder_turns [] = 0
  feeder_turns (feeder_steps outcome ∷ es) = suc (feeder_turns es)
  feeder_turns (e ∷ es) = feeder_turns es

  rank-most : (f : Feeder A) (p : Producer A) → rank f p ≤ 5
  unfolding rank call_rank
  rank-most (ended lost) p = omega arith
  rank-most (at_top lost) p = omega arith
  rank-most (pushing ev) p = omega arith
  rank-most (calling ev) p_idle = omega arith
  rank-most (calling ev) (p_reload w) = omega arith
  rank-most (calling ev) (p_write w) = omega arith
  rank-most (calling ev) (p_publish w) = omega arith

  rank-ended : (f : Feeder A) (p : Producer A) → rank f p ≤ 0 → is_ended f ≡ true
  unfolding rank call_rank
  rank-ended (ended lost) p h = refl
  rank-ended (at_top lost) p h = absurd (omega arith)
  rank-ended (pushing ev) p h = absurd (omega arith)
  rank-ended (calling ev) p_idle h = absurd (omega arith)
  rank-ended (calling ev) (p_reload w) h = absurd (omega arith)
  rank-ended (calling ev) (p_write w) h = absurd (omega arith)
  rank-ended (calling ev) (p_publish w) h = absurd (omega arith)

  -- A step inside a call.
  call_rank-push_step :
      (ev : A) (p : Producer A) (s : System A)
      → let next = (step_producer ev p s).producer in
        suc (rank (after_call ev p next) next) ≤ call_rank p
  unfolding step_producer rank call_rank
  call_rank-push_step ev p_idle s =
      if_cases (λ q. suc (rank (after_call ev p_idle q) q) ≤ 5) (has_room s.queue) (p_write ev)
        (p_reload ev) (λ e. omega arith) (λ e. omega arith)
  call_rank-push_step ev (p_reload w) s =
      if_cases (λ q. suc (rank (after_call ev (p_reload w) q) q) ≤ 4)
        (has_room (record s.queue { cached_tail = s.queue.tail })) (p_write w) p_idle
        (λ e. omega arith) (λ e. omega arith)
  call_rank-push_step ev (p_write w) s = omega arith
  call_rank-push_step ev (p_publish w) s = omega arith

  rank_of : FeedSystem A → ℕ
  rank_of s = rank s.feeder s.system.producer

  step_feeder-rank :
      (f : Feeder A) (outcome : Option A) (s : FeedSystem A) (n : ℕ)
      → s.feeder ≡ f
      → s.running ≡ false
      → rank f s.system.producer ≤ suc n
      → rank_of (step_feeder f outcome s) ≤ n
  unfolding step_feeder step rank rank_of
  step_feeder-rank (at_top lost) outcome s n e r h = rw r (omega arith)
  step_feeder-rank (pushing ev) outcome s n e r h = rw r (omega arith)
  step_feeder-rank (calling ev) outcome s n e r h =
      omega (arith, call_rank-push_step ev s.system.producer s.system, h)
  step_feeder-rank (ended lost) outcome s n e r h =
      let k : rank_of s ≡ 0 = ap (λ f. rank f s.system.producer) e in omega (arith, k)

  step_feeder-stopped :
      (f : Feeder A) (outcome : Option A) (s : FeedSystem A)
      → s.running ≡ false
      → (step_feeder f outcome s).running ≡ false
  unfolding step_feeder
  step_feeder-stopped (at_top lost) outcome s r = rw r refl
  step_feeder-stopped (pushing ev) outcome s r = rw r refl
  step_feeder-stopped (calling ev) outcome s r = r
  step_feeder-stopped (ended lost) outcome s r = r

  run_feed-stopped :
      (es : List (FeedEvent A)) (s : FeedSystem A)
      → s.running ≡ false
      → rank_of s ≤ feeder_turns es
      → is_ended (run_feed s es).feeder ≡ true
  unfolding run_feed step_feed step rank_of
  run_feed-stopped [] s r h = rank-ended s.feeder s.system.producer h
  run_feed-stopped (feeder_steps outcome ∷ es) s r h =
      run_feed-stopped es (step_feeder s.feeder outcome s)
        (step_feeder-stopped s.feeder outcome s r)
        (step_feeder-rank s.feeder outcome s (feeder_turns es) refl r h)
  run_feed-stopped (popper_steps ∷ es) s r h =
      let same = (step_consumer-pushed s.system.consumer s.system).1 in
      run_feed-stopped es (record s { system = step s.system consumer_steps }) r
        (subst (λ p. rank s.feeder p ≤ feeder_turns es) (sym same) h)
  run_feed-stopped (stop_called ∷ es) s r h =
      run_feed-stopped es (record s { running = false }) refl h

  -- Once `stop` has cleared `running_`, five steps of the feed's thread end it, so that `stop` returns from
  -- `join`: wherever the thread stands, also inside a call of `try_push` on a full queue, and whatever steps
  -- the thread that pops takes in between.
  pub run_feed-ends :
      (s : FeedSystem A) (es : List (FeedEvent A))
      → 5 ≤ feeder_turns es
      → is_ended (run_feed (step_feed s stop_called) es).feeder ≡ true
  unfolding step_feed rank_of
  run_feed-ends s es h =
      let most = rank-most s.feeder s.system.producer in
      run_feed-stopped es (record s { running = false }) refl (omega (arith, most, h))
