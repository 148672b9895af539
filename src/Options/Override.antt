-- ===== src/Options/Override.antt =====
-- The loop over the arguments of src/live_trade.cpp, on a sequence that sets every option.
use Prim.Native.String.{String}
use text.Mathlib.Text.{◌==◌}
use orderbook_c.Base.{
  All, Bool, List, Option, [], ap, arith, false, if◌then◌else◌, none, refl, some, true, ◌%◌, ◌++◌,
  ◌<◌, ◌||◌, ◌∙◌, ◌∷◌, ◌≡◌,
}
use orderbook_c.Base.Int.{pos, ℤ}
use orderbook_c.Options.Arguments.{
  Settings, helped, missing_value, option_of, parse_arguments, parsed, unknown_argument,
  without_value,
}

module _ {D : Type 0} (atoi : String → ℤ) (atof : String → D) (text_of_int : ℤ → String)
    (text_of_double : D → String) where
  -- Every option with its value.
  abbrev pub all_arguments : Settings D → List String
  all_arguments t =
      "--source"
      ∷ t.source
      ∷ "--feed"
      ∷ t.feed_kind
      ∷ "--market"
      ∷ t.market
      ∷ "--symbol"
      ∷ t.symbol
      ∷ "--poll-ms"
      ∷ text_of_int t.poll_ms
      ∷ "--seconds"
      ∷ text_of_int t.run_seconds
      ∷ "--seed"
      ∷ text_of_int (pos t.seed)
      ∷ "--start-price"
      ∷ text_of_double t.start_price
      ∷ "--sigma"
      ∷ text_of_double t.sigma
      ∷ "--drift"
      ∷ text_of_double t.drift
      ∷ "--max-pos"
      ∷ text_of_double t.max_pos_btc
      ∷ "--max-notional"
      ∷ text_of_double t.max_notional
      ∷ "--max-drawdown"
      ∷ text_of_double t.max_drawdown
      ∷ "--log"
      ∷ t.log_path
      ∷ "--serve"
      ∷ text_of_int t.serve_port
      ∷ []

  helped_or_unknown :
      (b : Bool) (a : String) (u : Settings D) {P : Type 0}
      → (if b then helped else unknown_argument a) ≡ parsed u
      → P
  helped_or_unknown true a u h = cc
  helped_or_unknown false a u h = cc

  after_one :
      (o : Option (String → Settings D → Settings D)) (a : String) (u : Settings D) {P : Type 0}
      → elim o [ none ↦ without_value atoi atof a | some assign ↦ missing_value a ] ≡ parsed u
      → P
  after_one none a u h = helped_or_unknown ((a == "-h") || (a == "--help")) a u h
  after_one (some assign) a u h = cc

  after_two :
      (o : Option (String → Settings D → Settings D)) (a v : String) (xs ys : List String)
      (s u : Settings D)
      → ((r : Settings D)
          → parse_arguments atoi atof xs r ≡ parsed u
          → parse_arguments atoi atof (xs ++ ys) r ≡ parse_arguments atoi atof ys u)
      → elim o [
        | none ↦ without_value atoi atof a
        | some assign ↦ parse_arguments atoi atof xs (assign v s)
      ]
        ≡ parsed u
      → elim o [
        | none ↦ without_value atoi atof a
        | some assign ↦ parse_arguments atoi atof (xs ++ ys) (assign v s)
      ]
        ≡ parse_arguments atoi atof ys u
  after_two none a v xs ys s u ih h = helped_or_unknown ((a == "-h") || (a == "--help")) a u h
  after_two (some assign) a v xs ys s u ih h = ih (assign v s) h

  parse_arguments-append :
      (xs ys : List String) (s u : Settings D)
      → parse_arguments atoi atof xs s ≡ parsed u
      → parse_arguments atoi atof (xs ++ ys) s ≡ parse_arguments atoi atof ys u
  unfolding parse_arguments
  parse_arguments-append [] ys s u h = let k : s ≡ u = cc in ap (parse_arguments atoi atof ys) k
  parse_arguments-append (a ∷ []) ys s u h = after_one (option_of atoi atof a) a u h
  parse_arguments-append (a ∷ v ∷ xs) ys s u h =
      after_two (option_of atoi atof a) a v xs ys s u (λ r. parse_arguments-append xs ys r u) h

  -- Arguments that are accepted, followed by all the options of some assigntings, yield these settings,
  -- whatever the first arguments and the defaults set. The text of each number of the settings is read
  -- back as that number, and the seed has 32 bits.
  pub parse_arguments-override :
      (args : List String) (s u t : Settings D)
      → All
          (λ n. atoi (text_of_int n) ≡ n)
          (t.poll_ms ∷ t.run_seconds ∷ t.serve_port ∷ pos t.seed ∷ [])
      → All
          (λ x. atof (text_of_double x) ≡ x)
          (t.start_price ∷ t.sigma ∷ t.drift ∷ t.max_pos_btc ∷ t.max_notional ∷ t.max_drawdown ∷ [])
      → t.seed < 4294967296
      → parse_arguments atoi atof args s ≡ parsed u
      → parse_arguments atoi atof (args ++ all_arguments t) s ≡ parsed t
  unfolding parse_arguments
  parse_arguments-override args s u t (a, (b, (c, (d, x)))) (e, (f, (g, (h, (i, (j, y))))))
        seed_fits k =
      let m : t.seed % 4294967296 ≡ t.seed = omega arith in
      parse_arguments-append args (all_arguments t) s u k
      ∙ rw (a, b, c, d, e, f, g, h, i, j, m) refl
