-- ===== src/Telemetry/Json.antt =====
-- `to_json_line` of include/order_book/telemetry.hpp: the text that `snprintf` prints into a buffer of
-- 512 bytes, and the string of as many bytes as the text would have. How `snprintf` prints a number
-- is a parameter. A result of `none` stands for a read behind the end of the buffer.
use Prim.Native.String.{String}
use orderbook_c.Base.{
  List, Option, [], codes, if◌then◌else◌, leb, length, none, some, take, ℕ, ◌++◌, ◌∷◌,
}
use orderbook_c.Telemetry.Fields.{
  RecordKind, TelemetryRecord, fill_record, meta_record, status_record, text_of,
}
use orderbook_c.Types.{Side, buy, sell}

-- A text of many pieces.
abbrev pub concat_all : List (List ℕ) → List ℕ
concat_all [] = []
concat_all (t ∷ ts) = t ++ concat_all ts

-- What `std::string(buf, n)` reads, where `line` has the `n` bytes of the whole text.
unfoldable pub read_buffer : List ℕ → Option (List ℕ)
read_buffer line =
    if leb (length line) 512 then some (take (length line) (take 511 line ++ (0 ∷ []))) else none

abbrev pub side_text : Side → String
side_text buy = "BUY"
side_text sell = "SELL"

-- `decimal` prints `%llu`, `fixed k` prints `%.kf`.
module _ {D : Type 0} (decimal : ℕ → List ℕ) (fixed : ℕ → D → List ℕ) where
  abbrev pub meta_pieces : TelemetryRecord D → List (List ℕ)
  meta_pieces r =
      codes "{\"t\":\"meta\",\"ts_ns\":"
      ∷ decimal r.ts_ns
      ∷ codes ",\"source\":\""
      ∷ text_of r.meta_source
      ∷ codes "\",\"feed\":\""
      ∷ text_of r.meta_feed
      ∷ codes "\",\"symbols\":["
      ∷ text_of r.meta_symbols
      ∷ codes "]}"
      ∷ []

  unfoldable pub meta_line : TelemetryRecord D → List ℕ
  meta_line r = concat_all (meta_pieces r)

  abbrev pub status_pieces : TelemetryRecord D → List (List ℕ)
  status_pieces r =
      codes "{\"t\":\"status\",\"ts_ns\":"
      ∷ decimal r.ts_ns
      ∷ codes ",\"sym\":\""
      ∷ text_of r.sym
      ∷ codes "\",\"mid\":"
      ∷ fixed 2 r.mid_px
      ∷ codes ",\"bid\":"
      ∷ fixed 2 r.bid
      ∷ codes ",\"ask\":"
      ∷ fixed 2 r.ask
      ∷ codes ",\"pos_btc\":"
      ∷ fixed 6 r.pos_btc
      ∷ codes ",\"cash\":"
      ∷ fixed 2 r.cash_usd
      ∷ codes ",\"equity\":"
      ∷ fixed 2 r.equity
      ∷ codes ",\"fills\":"
      ∷ decimal r.fill_count
      ∷ codes "}"
      ∷ []

  unfoldable pub status_line : TelemetryRecord D → List ℕ
  status_line r = concat_all (status_pieces r)

  abbrev pub fill_pieces : TelemetryRecord D → List (List ℕ)
  fill_pieces r =
      codes "{\"t\":\"fill\",\"ts_ns\":"
      ∷ decimal r.ts_ns
      ∷ codes ",\"sym\":\""
      ∷ text_of r.sym
      ∷ codes "\",\"side\":\""
      ∷ codes (side_text r.side)
      ∷ codes "\",\"px\":"
      ∷ fixed 2 r.px
      ∷ codes ",\"qty\":"
      ∷ fixed 6 r.amount
      ∷ codes ",\"lat_us\":"
      ∷ fixed 3 r.lat_us
      ∷ codes "}"
      ∷ []

  unfoldable pub fill_line : TelemetryRecord D → List ℕ
  fill_line r = concat_all (fill_pieces r)

  unfoldable pub line_of_kind : RecordKind → TelemetryRecord D → List ℕ
  line_of_kind meta_record r = meta_line r
  line_of_kind status_record r = status_line r
  line_of_kind fill_record r = fill_line r

  unfoldable pub to_json_line : TelemetryRecord D → Option (List ℕ)
  to_json_line r = read_buffer (line_of_kind r.kind r)
