-- ===== src/Telemetry/Tests.antt =====
-- Runs of the telemetry model on small inputs.
-- Records are numbers here, and a line is the number with a closing byte.
use orderbook_c.Base.{
  List, [], ap, arith, codes, false, if◌then◌else◌, length, length-append, ltb, refl, some, suc,
  true, zero, ℕ, ◌%◌, ◌++◌, ◌+◌, ◌/◌, ◌∷◌, ◌≡◌, ◌≤◌,
}
use orderbook_c.Telemetry.Drain.{AllHave, Delivered}
use orderbook_c.Telemetry.Fields.{
  TelemetryRecord, make_fill, make_meta, make_status, set_field, text_of,
}
use orderbook_c.Telemetry.Fits.{IsShort, to_json_line-fits}
use orderbook_c.Telemetry.Json.{
  fill_line, line_of_kind, meta_line, read_buffer, status_line, to_json_line,
}
use orderbook_c.Telemetry.Lines.{
  file_write_all-read_lines, has_newline, has_newline-append, read_lines,
}
use orderbook_c.Telemetry.Publisher.{
  Event, Publisher, emit, emitting, joining, publish, publish_with, run_events, started, step,
  step_stopper, step_worker, stopper_steps, test_queue, worker_steps,
}
use orderbook_c.Telemetry.Sinks.{file_write_all, open_file, ws_write_line}
use orderbook_c.Telemetry.Stop.{drain-all, lost_wakeup, run_events-Delivered, stop-hangs}
use orderbook_c.Types.{sell}

abbrev line_of_number : ℕ → List ℕ
line_of_number r = r ∷ 125 ∷ []

-- Two records are published, the worker takes both and emits them, a third comes during `stop`.
abbrev some_events : List (Event ℕ)
some_events =
    publish 7
    ∷ publish 8
    ∷ worker_steps
    ∷ publish 9
    ∷ stopper_steps
    ∷ worker_steps
    ∷ stopper_steps
    ∷ worker_steps
    ∷ worker_steps
    ∷ worker_steps
    ∷ stopper_steps
    ∷ []

run_events-Delivered_example :
    Delivered line_of_number (run_events line_of_number (started 2) some_events)
run_events-Delivered_example = run_events-Delivered line_of_number 2 some_events

drain-all_example :
    let p = step line_of_number (run_events line_of_number (started 2) some_events) stopper_steps in
    AllHave line_of_number p.sinks p.published × (p.queue ≡ [])
unfolding run_events step step_worker step_stopper test_queue publish_with emit
drain-all_example = drain-all line_of_number 2 some_events refl

abbrev stopping : Publisher ℕ (List ℕ)
stopping = record (started 1) { running = false; queue = 3 ∷ []; worker = emitting (4 ∷ []) }

stop-hangs_example :
    (run_events line_of_number
      (run_events line_of_number (started 1) lost_wakeup)
      (stopper_steps ∷ worker_steps ∷ stopper_steps ∷ [])).stopper
    ≡ joining
stop-hangs_example =
    stop-hangs line_of_number 1 (stopper_steps ∷ worker_steps ∷ stopper_steps ∷ [])
      (refl, (refl, (refl, tt)))

-- Numbers of up to 20 digits, and whole numbers with zeros behind the point.
unfoldable digits : ℕ → ℕ → List ℕ
digits zero n = []
digits (suc fuel) n =
    let rest = digits fuel (n / 10) in
    if ltb n 10 then (48 + n) ∷ [] else rest ++ ((48 + n % 10) ∷ [])

abbrev zero_digits : ℕ → List ℕ
zero_digits zero = []
zero_digits (suc k) = 48 ∷ zero_digits k

abbrev behind_point : ℕ → List ℕ
behind_point zero = []
behind_point (suc k) = 46 ∷ zero_digits (suc k)

abbrev whole : ℕ → ℕ → List ℕ
whole k n = digits 20 n ++ behind_point k

length-digits : (fuel n : ℕ) → length (digits fuel n) ≤ fuel
unfolding digits
length-digits zero n = omega arith
length-digits (suc fuel) n =
    ground (
      arith,
      length-digits fuel (n / 10),
      length-append (digits fuel (n / 10)) ((48 + n % 10) ∷ []),
    )

length-zero_digits : (k : ℕ) → length (zero_digits k) ≡ k
length-zero_digits zero = refl
length-zero_digits (suc k) = ap suc (length-zero_digits k)

length-behind_point : (k : ℕ) → length (behind_point k) ≤ suc k
length-behind_point zero = omega arith
length-behind_point (suc k) = omega (arith, length-zero_digits k)

whole-IsShort : (n : ℕ) → IsShort whole n
whole-IsShort n k h =
    omega (
      arith,
      length-digits 20 n,
      length-append (digits 20 n) (behind_point k),
      length-behind_point k,
    )

abbrev a_fill : TelemetryRecord ℕ
a_fill = make_fill 0 1700 (codes "BTCUSDT") sell 80000 1 12

fill_line_test :
    to_json_line (digits 20) whole a_fill
    ≡ some (
        codes
          "{\"t\":\"fill\",\"ts_ns\":1700,\"sym\":\"BTCUSDT\",\"side\":\"SELL\",\"px\":80000.00,\"qty\":1.000000,\"lat_us\":12.000}")
unfolding to_json_line line_of_kind fill_line make_fill set_field text_of read_buffer digits
fill_line_test = refl

abbrev a_meta : TelemetryRecord ℕ
a_meta = make_meta 0 1700 (codes "binance") (codes "ws") (codes "\"BTCUSDT\"")

abbrev a_status : TelemetryRecord ℕ
a_status = make_status 0 1700 (codes "BTCUSDT") 80000 79999 80001 1 5 6 2

to_json_line-fits_example :
    (to_json_line (digits 20) whole a_meta ≡ some (meta_line (digits 20) whole a_meta))
    × ((to_json_line (digits 20) whole a_status ≡ some (status_line (digits 20) whole a_status))
        × (to_json_line (digits 20) whole a_fill ≡ some (fill_line (digits 20) whole a_fill)))
to_json_line-fits_example =
    to_json_line-fits 0 (digits 20) whole (λ n h. length-digits 20 n) 1700 2 (codes "BTCUSDT")
      (codes "binance") (codes "ws") (codes "\"BTCUSDT\"") sell 80000 79999 80001 1 5 6 80000 1 12
      (omega arith) (omega arith)
      (
        whole-IsShort 80000,
        (
          whole-IsShort 79999,
          (whole-IsShort 80001, (whole-IsShort 1, (whole-IsShort 5, (whole-IsShort 6, tt)))),
        ),
      )
      (whole-IsShort 80000, (whole-IsShort 1, (whole-IsShort 12, tt)))

digits-without_newline : (fuel n : ℕ) → has_newline (digits fuel n) ≡ false
unfolding digits
digits-without_newline zero n = refl
digits-without_newline (suc fuel) n =
    let k =
      has_newline-append (digits fuel (n / 10)) ((48 + n % 10) ∷ [])
        (digits-without_newline fuel (n / 10)) (ground arith) in
    ground arith

zero_digits-without_newline : (k : ℕ) → has_newline (zero_digits k) ≡ false
zero_digits-without_newline zero = refl
zero_digits-without_newline (suc k) = zero_digits-without_newline k

behind_point-without_newline : (k : ℕ) → has_newline (behind_point k) ≡ false
behind_point-without_newline zero = refl
behind_point-without_newline (suc k) = zero_digits-without_newline k

whole-without_newline : (k n : ℕ) → has_newline (whole k n) ≡ false
whole-without_newline k n =
    has_newline-append (digits 20 n) (behind_point k) (digits-without_newline 20 n)
      (behind_point-without_newline k)

abbrev two_lines : List (List ℕ)
two_lines = fill_line (digits 20) whole a_fill ∷ meta_line (digits 20) whole a_meta ∷ []

file_write_all-read_lines_example :
    read_lines (file_write_all two_lines (open_file true)).bytes ≡ two_lines
unfolding to_json_line line_of_kind fill_line meta_line make_fill make_meta set_field text_of
    read_buffer digits
file_write_all-read_lines_example =
    file_write_all-read_lines (digits 20) whole (digits-without_newline 20) whole-without_newline
      (a_fill ∷ a_meta ∷ []) two_lines
      (
        record { sym_ok = refl; source_ok = refl; feed_ok = refl; symbols_ok = refl },
        (record { sym_ok = refl; source_ok = refl; feed_ok = refl; symbols_ok = refl }, tt),
      )
      refl

-- A client that is open gets the line, a closed one does not; a server that is not bound sends nothing.
ws_write_line_test :
    (ws_write_line (1 ∷ []) (record {
      listening = true;
      clients =
          record { is_open = true; received = [] } ∷ record { is_open = false; received = [] } ∷ [];
    })).clients
    ≡ record { is_open = true; received = (1 ∷ []) ∷ [] }
      ∷ record { is_open = false; received = [] }
      ∷ []
unfolding ws_write_line
ws_write_line_test = refl
