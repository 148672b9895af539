-- ===== src/Telemetry/Fields.antt =====
-- `set_field` and the fields of include/order_book/telemetry.hpp: texts as lists of bytes in buffers
-- of fixed size.
use orderbook_c.Base.{
  All, List, [], ap, arith, drop, false, if◌then◌else◌, length, length-append, length-drop,
  length-take, min, refl, suc, sym, take, zero, ℕ, ◌++◌, ◌-◌, ◌<◌, ◌==◌, ◌∙◌, ◌∷◌, ◌≡◌,
}
use orderbook_c.Types.{Side, buy}

-- `memcpy` of at most all but one byte, and the NUL behind them; the rest of the buffer stays.
unfoldable pub set_field : List ℕ → List ℕ → List ℕ
set_field dst src =
    let n = min (length src) (length dst - 1) in take n src ++ (0 ∷ drop (suc n) dst)

-- The text that a reader of the buffer sees, up to its first NUL.
unfoldable pub text_of : List ℕ → List ℕ
text_of [] = []
text_of (c ∷ cs) = if c == 0 then [] else c ∷ text_of cs

abbrev pub HasNoNul : List ℕ → Type 0
HasNoNul s = All (λ c. (c == 0) ≡ false) s

text_of-take : (n : ℕ) (s rest : List ℕ) → HasNoNul s → text_of (take n s ++ (0 ∷ rest)) ≡ take n s
unfolding text_of
text_of-take zero s rest h = refl
text_of-take (suc n) [] rest h = refl
text_of-take (suc n) (c ∷ s) rest (h, hs) = rw h (ap (λ t. c ∷ t) (text_of-take n s rest hs))

take-min : (n : ℕ) (s : List ℕ) → take (min (length s) n) s ≡ take n s
take-min zero s = let k : min (length s) 0 ≡ 0 = omega arith in ap (λ i. take i s) k
take-min (suc n) [] = let k : min 0 (suc n) ≡ 0 = omega arith in ap (λ i. take i []) k
take-min (suc n) (c ∷ s) =
    let k : min (suc (length s)) (suc n) ≡ suc (min (length s) n) = omega arith in
    ap (λ i. take i (c ∷ s)) k ∙ ap (λ t. c ∷ t) (take-min n s)

-- A field of any buffer but an empty one keeps its size, so the write stays inside, and a reader sees
-- the text, cut to one byte less than the buffer. The text has no NUL.
pub set_field-text :
    (dst src : List ℕ)
    → 0 < length dst
    → HasNoNul src
    → (length (set_field dst src) ≡ length dst)
      × (text_of (set_field dst src) ≡ take (length dst - 1) src)
unfolding set_field
set_field-text dst src h z =
    let n = min (length src) (length dst - 1) in
    let rest = drop (suc n) dst in
    (
      length-append (take n src) (0 ∷ rest)
          ∙ omega (arith, length-take n src, length-drop (suc n) dst),
      text_of-take n src rest z ∙ take-min (length dst - 1) src,
    )

-- `TelemetryRecord`; its numbers with a fraction are doubles, a parameter.
pub data RecordKind : Type 0 where
  meta_record status_record fill_record : RecordKind

pub record TelemetryRecord (D : Type 0) : Type 0 where
  pub kind : RecordKind
  pub ts_ns : ℕ
  pub sym : List ℕ
  pub mid_px : D
  pub bid : D
  pub ask : D
  pub pos_btc : D
  pub cash_usd : D
  pub equity : D
  pub fill_count : ℕ
  pub side : Side
  pub px : D
  pub amount : D
  pub lat_us : D
  pub meta_source : List ℕ
  pub meta_feed : List ℕ
  pub meta_symbols : List ℕ

abbrev pub nuls : ℕ → List ℕ
nuls zero = []
nuls (suc n) = 0 ∷ nuls n

module _ {D : Type 0} (zero_d : D) where
  abbrev pub blank : TelemetryRecord D
  blank = record {
    kind = status_record;
    ts_ns = 0;
    sym = nuls 16;
    mid_px = zero_d;
    bid = zero_d;
    ask = zero_d;
    pos_btc = zero_d;
    cash_usd = zero_d;
    equity = zero_d;
    fill_count = 0;
    side = buy;
    px = zero_d;
    amount = zero_d;
    lat_us = zero_d;
    meta_source = nuls 16;
    meta_feed = nuls 8;
    meta_symbols = nuls 256;
  }

  -- The time that each record is stamped with is an argument.
  unfoldable pub make_meta : ℕ → List ℕ → List ℕ → List ℕ → TelemetryRecord D
  make_meta now source feed joined = record blank {
    kind = meta_record;
    ts_ns = now;
    meta_source = set_field blank.meta_source source;
    meta_feed = set_field blank.meta_feed feed;
    meta_symbols = set_field blank.meta_symbols joined;
  }

  unfoldable pub make_status : ℕ → List ℕ → D → D → D → D → D → D → ℕ → TelemetryRecord D
  make_status now sym mid_px bid ask pos_btc cash_usd equity fills = record blank {
    kind = status_record;
    ts_ns = now;
    sym = set_field blank.sym sym;
    mid_px = mid_px;
    bid = bid;
    ask = ask;
    pos_btc = pos_btc;
    cash_usd = cash_usd;
    equity = equity;
    fill_count = fills;
  }

  unfoldable pub make_fill : ℕ → List ℕ → Side → D → D → D → TelemetryRecord D
  make_fill now sym side px qty lat_us = record blank {
    kind = fill_record;
    ts_ns = now;
    sym = set_field blank.sym sym;
    side = side;
    px = px;
    amount = qty;
    lat_us = lat_us;
  }
