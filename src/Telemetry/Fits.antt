-- ===== src/Telemetry/Fits.antt =====
-- The lines of `to_json_line` of include/order_book/telemetry.hpp fit in its buffer.
use orderbook_c.Base.{
  All, List, [], ap, arith, codes, drop, leb, length, length-append, min, refl, some, suc, sym,
  take, take-all, true, zero, ℕ, ◌++◌, ◌+◌, ◌-◌, ◌<◌, ◌∙◌, ◌∷◌, ◌≡◌, ◌≤◌,
}
use orderbook_c.OrderBook.Submit.{rest}
use orderbook_c.Telemetry.Fields.{make_fill, make_meta, make_status, nuls, set_field, text_of}
use orderbook_c.Telemetry.Json.{
  concat_all, fill_line, fill_pieces, line_of_kind, meta_line, meta_pieces, read_buffer, side_text,
  status_line, status_pieces, to_json_line,
}
use orderbook_c.Types.{Side, buy, sell}

abbrev length_all : List (List ℕ) → ℕ
length_all [] = 0
length_all (t ∷ ts) = length t + length_all ts

length-concat_all : (ts : List (List ℕ)) → length (concat_all ts) ≡ length_all ts
length-concat_all [] = refl
length-concat_all (t ∷ ts) =
    length-append t (concat_all ts) ∙ ap (λ n. length t + n) (length-concat_all ts)

take-length : (l m : List ℕ) → take (length l) (l ++ m) ≡ l
take-length [] m = refl
take-length (c ∷ l) m = ap (λ t. c ∷ t) (take-length l m)

read_buffer-fits : (l : List ℕ) → length l ≤ 511 → read_buffer l ≡ some l
unfolding read_buffer
read_buffer-fits l h =
    let e = take-all 511 l h in
    let k : leb (length l) 512 ≡ true = ground arith in rw (k, e, take-length l (0 ∷ [])) refl

length-text_of-take : (n : ℕ) (s rest : List ℕ) → length (text_of (take n s ++ (0 ∷ rest))) ≤ n
unfolding text_of
length-text_of-take zero s rest = omega arith
length-text_of-take (suc n) [] rest = omega arith
length-text_of-take (suc n) (c ∷ s) rest = ground (arith, length-text_of-take n s rest)

length-field : (dst src : List ℕ) → length (text_of (set_field dst src)) ≤ length dst - 1
unfolding set_field
length-field dst src =
    let n = min (length src) (length dst - 1) in
    omega (arith, length-text_of-take n src (drop (suc n) dst))

-- A number that `snprintf` prints in at most 48 bytes with up to six decimals.
abbrev pub IsShort : {D : Type 0} → (ℕ → D → List ℕ) → D → Type 0
IsShort fixed x = (k : ℕ) → k ≤ 6 → length (fixed k x) ≤ 48

module _ {D : Type 0} (zero_d : D) (decimal : ℕ → List ℕ) (fixed : ℕ → D → List ℕ)
    (decimal_short : (n : ℕ) → n < 18446744073709551616 → length (decimal n) ≤ 20) where
  length-meta_line :
      (now : ℕ) (source feed joined : List ℕ)
      → now < 18446744073709551616
      → length (meta_line decimal fixed (make_meta zero_d now source feed joined)) ≤ 511
  unfolding meta_line make_meta
  length-meta_line now source feed joined h =
      let r = make_meta zero_d now source feed joined in
      omega (
        arith,
        length-concat_all (meta_pieces decimal fixed r),
        decimal_short now h,
        length-field (nuls 16) source,
        length-field (nuls 8) feed,
        length-field (nuls 256) joined,
      )

  length-status_line :
      (now : ℕ) (sym : List ℕ) (mid_px bid ask pos_btc cash_usd equity : D) (fills : ℕ)
      → now < 18446744073709551616
      → fills < 18446744073709551616
      → All (IsShort fixed) (mid_px ∷ bid ∷ ask ∷ pos_btc ∷ cash_usd ∷ equity ∷ [])
      → length (
          status_line decimal fixed
            (make_status zero_d now sym mid_px bid ask pos_btc cash_usd equity fills))
        ≤ 511
  unfolding status_line make_status
  length-status_line now sym mid_px bid ask pos_btc cash_usd equity fills h k
        (a, (b, (c, (d, (e, (f, u)))))) =
      let r = make_status zero_d now sym mid_px bid ask pos_btc cash_usd equity fills in
      omega (
        arith,
        length-concat_all (status_pieces decimal fixed r),
        decimal_short now h,
        decimal_short fills k,
        length-field (nuls 16) sym,
        a 2 (omega arith),
        b 2 (omega arith),
        c 2 (omega arith),
        d 6 (omega arith),
        e 2 (omega arith),
        f 2 (omega arith),
      )

  length-side_text : (s : Side) → length (codes (side_text s)) ≤ 4
  length-side_text buy = omega arith
  length-side_text sell = omega arith

  length-fill_line :
      (now : ℕ) (sym : List ℕ) (side : Side) (px qty lat_us : D)
      → now < 18446744073709551616
      → All (IsShort fixed) (px ∷ qty ∷ lat_us ∷ [])
      → length (fill_line decimal fixed (make_fill zero_d now sym side px qty lat_us)) ≤ 511
  unfolding fill_line make_fill
  length-fill_line now sym side px qty lat_us h (a, (b, (c, u))) =
      let r = make_fill zero_d now sym side px qty lat_us in
      omega (
        arith,
        length-concat_all (fill_pieces decimal fixed r),
        decimal_short now h,
        length-side_text side,
        length-field (nuls 16) sym,
        a 2 (omega arith),
        b 6 (omega arith),
        c 3 (omega arith),
      )

  -- The line of a status record has every byte of the text, and so have those of a meta and of a fill
  -- record: nothing is cut and nothing is read behind the buffer. The times and the count are below
  -- 2^64, `%llu` prints such a number in at most 20 bytes, and each other number is one that is printed
  -- in at most 48 bytes with up to six decimals.
  pub to_json_line-fits :
      (now fills : ℕ) (sym source feed joined : List ℕ) (side : Side)
      → (mid_px bid ask pos_btc cash_usd equity px qty lat_us : D) → now < 18446744073709551616
      → fills < 18446744073709551616
      → All (IsShort fixed) (mid_px ∷ bid ∷ ask ∷ pos_btc ∷ cash_usd ∷ equity ∷ [])
      → All (IsShort fixed) (px ∷ qty ∷ lat_us ∷ [])
      → let meta = make_meta zero_d now source feed joined in
        let status = make_status zero_d now sym mid_px bid ask pos_btc cash_usd equity fills in
        let filled = make_fill zero_d now sym side px qty lat_us in
        (to_json_line decimal fixed meta ≡ some (meta_line decimal fixed meta))
        × ((to_json_line decimal fixed status ≡ some (status_line decimal fixed status))
            × (to_json_line decimal fixed filled ≡ some (fill_line decimal fixed filled)))
  unfolding to_json_line line_of_kind make_meta make_status make_fill
  to_json_line-fits now fills sym source feed joined side mid_px bid ask pos_btc cash_usd equity px
        qty lat_us h k a b =
      (
        read_buffer-fits _ (length-meta_line now source feed joined h),
        (
          read_buffer-fits _
              (length-status_line now sym mid_px bid ask pos_btc cash_usd equity fills h k a),
          read_buffer-fits _ (length-fill_line now sym side px qty lat_us h b),
        ),
      )
