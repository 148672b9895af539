-- ===== src/Telemetry/Lines.antt =====
-- The file of include/order_book/telemetry.hpp read back line by line.
use mathlib.Core.List.{append_assoc, append-nil}
use orderbook_c.Base.{
  All, Bool, Bool-cases, List, [], ap, arith, codes, false, if◌then◌else◌, inl, inr, leb, length,
  map, none, refl, some, subst, suc, sym, take, true, zero, ℕ, ◌++◌, ◌==◌, ◌||◌, ◌∙◌, ◌∷◌, ◌≡◌,
}
use orderbook_c.Telemetry.Fields.{
  RecordKind, TelemetryRecord, fill_record, meta_record, status_record, text_of,
}
use orderbook_c.Telemetry.Json.{
  concat_all, fill_line, fill_pieces, line_of_kind, meta_line, meta_pieces, read_buffer, side_text,
  status_line, status_pieces, to_json_line,
}
use orderbook_c.Telemetry.Sinks.{file_write_all, file_write_line, open_file}
use orderbook_c.Types.{Side, buy, sell}

infixr 40 ◌&◌
-- Proofs for the items of a list.
◌&◌ {ℓ κ} : {A : Type ℓ} {B : Type κ} → A → B → A × B
a & b = (a, b)

abbrev pub has_newline : List ℕ → Bool
has_newline [] = false
has_newline (c ∷ s) = (c == 10) || has_newline s

-- The lines that end in a newline.
abbrev add_to_line : ℕ → List (List ℕ) → List (List ℕ)
add_to_line c [] = []
add_to_line c (t ∷ ts) = (c ∷ t) ∷ ts

unfoldable pub read_lines : List ℕ → List (List ℕ)
read_lines [] = []
read_lines (c ∷ s) = let rest = read_lines s in if c == 10 then [] ∷ rest else add_to_line c rest

read_lines-line :
    (line rest : List ℕ)
    → has_newline line ≡ false
    → read_lines (line ++ 10 ∷ rest) ≡ line ∷ read_lines rest
unfolding read_lines
read_lines-line [] rest h = refl
read_lines-line (c ∷ line) rest h =
    let k : (c == 10) ≡ false = ground arith in
    rw (k, read_lines-line line rest (ground arith)) refl

-- The bytes that writing the lines adds to the file.
abbrev bytes_of : List (List ℕ) → List ℕ
bytes_of [] = []
bytes_of (l ∷ ls) = l ++ 10 ∷ bytes_of ls

file_write_all-bytes :
    (ls : List (List ℕ)) (b : List ℕ)
    → (file_write_all ls (record { good = true; bytes = b })).bytes ≡ b ++ bytes_of ls
unfolding file_write_all file_write_line
file_write_all-bytes [] b = sym (append-nil b)
file_write_all-bytes (l ∷ ls) b =
    file_write_all-bytes ls (b ++ (l ++ 10 ∷ []))
    ∙ (append_assoc b (l ++ 10 ∷ []) (bytes_of ls)
        ∙ ap (λ t. b ++ t) (append_assoc l (10 ∷ []) (bytes_of ls)))

read_lines-bytes_of :
    (ls : List (List ℕ)) → All (λ l. has_newline l ≡ false) ls → read_lines (bytes_of ls) ≡ ls
unfolding read_lines
read_lines-bytes_of [] h = refl
read_lines-bytes_of (l ∷ ls) h =
    read_lines-line l (bytes_of ls) h.0 ∙ ap (λ t. l ∷ t) (read_lines-bytes_of ls h.1)

pub has_newline-append :
    (s t : List ℕ) → has_newline s ≡ false → has_newline t ≡ false → has_newline (s ++ t) ≡ false
has_newline-append [] t h k = k
has_newline-append (c ∷ s) t h k = ground (arith, has_newline-append s t)

has_newline-concat_all :
    (ts : List (List ℕ)) → All (λ t. has_newline t ≡ false) ts → has_newline (concat_all ts) ≡ false
has_newline-concat_all [] h = refl
has_newline-concat_all (t ∷ ts) h =
    has_newline-append t (concat_all ts) h.0 (has_newline-concat_all ts h.1)

has_newline-take : (n : ℕ) (s : List ℕ) → has_newline s ≡ false → has_newline (take n s) ≡ false
has_newline-take zero s h = refl
has_newline-take (suc n) [] h = refl
has_newline-take (suc n) (c ∷ s) h = ground (arith, has_newline-take n s)

has_newline-read_buffer :
    (line l : List ℕ) → has_newline line ≡ false → read_buffer line ≡ some l → has_newline l ≡ false
unfolding read_buffer
has_newline-read_buffer line l h e = elim (Bool-cases (leb (length line) 512)) [
  | inl k ↦
      let cut = take (length line) (take 511 line ++ 0 ∷ []) in
      let e' : some cut ≡ some l = rw k at e in
      let same : cut ≡ l = cc in
      subst (λ t. has_newline t ≡ false) same
        (has_newline-take (length line) (take 511 line ++ 0 ∷ [])
          (has_newline-append (take 511 line) (0 ∷ []) (has_newline-take 511 line h) refl))
  | inr k ↦ let e' : none ≡ some l = rw k at e in cc
]

-- The texts in a record have no newline.
pub record OneLine {D : Type 0} (r : TelemetryRecord D) : Type 0 where
  pub sym_ok : has_newline (text_of r.sym) ≡ false
  pub source_ok : has_newline (text_of r.meta_source) ≡ false
  pub feed_ok : has_newline (text_of r.meta_feed) ≡ false
  pub symbols_ok : has_newline (text_of r.meta_symbols) ≡ false

module _ {D : Type 0} (decimal : ℕ → List ℕ) (fixed : ℕ → D → List ℕ)
    (decimal_ok : (n : ℕ) → has_newline (decimal n) ≡ false)
    (fixed_ok : (k : ℕ) (x : D) → has_newline (fixed k x) ≡ false) where
  side_text_ok : (s : Side) → has_newline (codes (side_text s)) ≡ false
  side_text_ok buy = refl
  side_text_ok sell = refl

  has_newline-line :
      (kind : RecordKind) (r : TelemetryRecord D)
      → OneLine r
      → has_newline (line_of_kind decimal fixed kind r) ≡ false
  unfolding line_of_kind meta_line status_line fill_line
  has_newline-line meta_record r v = has_newline-concat_all (meta_pieces decimal fixed r) (
      refl
      & decimal_ok r.ts_ns
      & refl
      & v.source_ok
      & refl
      & v.feed_ok
      & refl
      & v.symbols_ok
      & refl
      & tt)
  has_newline-line status_record r v = has_newline-concat_all (status_pieces decimal fixed r) (
      refl
      & decimal_ok r.ts_ns
      & refl
      & v.sym_ok
      & refl
      & fixed_ok 2 r.mid_px
      & refl
      & fixed_ok 2 r.bid
      & refl
      & fixed_ok 2 r.ask
      & refl
      & fixed_ok 6 r.pos_btc
      & refl
      & fixed_ok 2 r.cash_usd
      & refl
      & fixed_ok 2 r.equity
      & refl
      & decimal_ok r.fill_count
      & refl
      & tt)
  has_newline-line fill_record r v = has_newline-concat_all (fill_pieces decimal fixed r) (
      refl
      & decimal_ok r.ts_ns
      & refl
      & v.sym_ok
      & refl
      & side_text_ok r.side
      & refl
      & fixed_ok 2 r.px
      & refl
      & fixed_ok 6 r.amount
      & refl
      & fixed_ok 3 r.lat_us
      & refl
      & tt)

  json_lines-without_newline :
      (rs : List (TelemetryRecord D)) (ls : List (List ℕ))
      → All OneLine rs
      → map (to_json_line decimal fixed) rs ≡ map some ls
      → All (λ l. has_newline l ≡ false) ls
  unfolding to_json_line
  json_lines-without_newline [] [] v e = tt
  json_lines-without_newline [] (l ∷ ls) v e = cc
  json_lines-without_newline (r ∷ rs) [] v e = cc
  json_lines-without_newline (r ∷ rs) (l ∷ ls) v e =
      let line = line_of_kind decimal fixed r.kind r in
      let here : read_buffer line ≡ some l = cc in
      let there : map (to_json_line decimal fixed) rs ≡ map some ls = cc in
      (
        has_newline-read_buffer line l (has_newline-line r.kind r v.0) here,
        json_lines-without_newline rs ls v.1 there,
      )

  -- The file of a sink that opened holds one line for each record and can be read back: cut at its
  -- newlines it is the list of the lines that to_json_line gave for the records, in order. The texts in the
  -- records and the numbers as they are printed have no newline.
  pub file_write_all-read_lines :
      (rs : List (TelemetryRecord D)) (ls : List (List ℕ))
      → All OneLine rs
      → map (to_json_line decimal fixed) rs ≡ map some ls
      → read_lines (file_write_all ls (open_file true)).bytes ≡ ls
  unfolding open_file
  file_write_all-read_lines rs ls v e =
      ap read_lines (file_write_all-bytes ls [])
      ∙ read_lines-bytes_of ls (json_lines-without_newline rs ls v e)
