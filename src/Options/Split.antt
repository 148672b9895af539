-- ===== src/Options/Split.antt =====
-- `parse_symbols` of src/live_trade.cpp finds what splitting at every comma and trimming every piece
-- finds.
use mathlib.Core.List.{append_assoc, append-nil}
use orderbook_c.Base.{
  Bool, Bool-cases, List, Option, [], ap, arith, drop, false, if◌then◌else◌, inl, inr, leb, length,
  length-drop, none, refl, some, suc, sym, take, take-all, true, zero, ℕ, ◌++◌, ◌+◌, ◌-◌, ◌<◌, ◌==◌,
  ◌∙◌, ◌∷◌, ◌≡◌, ◌≤◌,
}
use orderbook_c.Options.Symbols.{
  end_of, find_comma, find_first_not_blank, find_last_not_blank, is_blank, next_position, or_here,
  parse_symbols, push_between, push_trimmed, shift_position, substr, symbol_loop,
}
-- The pieces between the commas.
use orderbook_c.Base.{
  Bool, Bool-cases, List, Option, [], ap, drop, false, if◌then◌else◌, inl, inr, none, refl, some,
  suc, take, true, ℕ, ◌++◌, ◌==◌, ◌∙◌, ◌∷◌, ◌≡◌,
}
use orderbook_c.Options.Symbols.{
  find_comma, find_last_not_blank, is_blank, next_position, push_trimmed,
}

abbrev add_to_first : ℕ → List (List ℕ) → List (List ℕ)
add_to_first c [] = (c ∷ []) ∷ []
add_to_first c (t ∷ ts) = (c ∷ t) ∷ ts

unfoldable pub split_at_commas : List ℕ → List (List ℕ)
split_at_commas [] = [] ∷ []
split_at_commas (c ∷ s) =
    if c == 44 then [] ∷ split_at_commas s else add_to_first c (split_at_commas s)

unfoldable pub trim_start : List ℕ → List ℕ
trim_start [] = []
trim_start (c ∷ s) = if is_blank c then trim_start s else c ∷ s

abbrev cons_unless : Bool → ℕ → List ℕ → List ℕ
cons_unless b c (d ∷ s) = c ∷ d ∷ s
cons_unless true c [] = []
cons_unless false c [] = c ∷ []

unfoldable pub trim_end : List ℕ → List ℕ
trim_end [] = []
trim_end (c ∷ s) = cons_unless (is_blank c) c (trim_end s)

-- A piece that is not empty.
abbrev unless_empty : List ℕ → List (List ℕ)
unless_empty [] = []
unless_empty (c ∷ s) = (c ∷ s) ∷ []

abbrev pub trimmed_pieces : List (List ℕ) → List (List ℕ)
trimmed_pieces [] = []
trimmed_pieces (t ∷ ts) = unless_empty (trim_end (trim_start t)) ++ trimmed_pieces ts

-- Splitting goes on behind the first comma.
abbrev split_from : Option ℕ → List ℕ → List (List ℕ)
split_from none s = s ∷ []
split_from (some i) s = take i s ∷ split_at_commas (drop (suc i) s)

split_from-next :
    (o : Option ℕ) (c : ℕ) (s : List ℕ)
    → add_to_first c (split_from o s) ≡ split_from (next_position o) (c ∷ s)
split_from-next none c s = refl
split_from-next (some i) c s = refl

split-find_comma : (s : List ℕ) → split_at_commas s ≡ split_from (find_comma s) s
unfolding split_at_commas find_comma
split-find_comma [] = refl
split-find_comma (c ∷ s) = elim (Bool-cases (c == 44)) [
  | inl h ↦ rw h refl
  | inr h ↦ rw h (ap (add_to_first c) (split-find_comma s) ∙ split_from-next (find_comma s) c s)
]

-- A text cut behind a position.
abbrev end_at : Option ℕ → List ℕ → List ℕ
end_at none s = []
end_at (some e) s = take (suc e) s

cons_unless-end_at :
    (b : Bool) (c : ℕ) (o : Option ℕ) (s : List ℕ)
    → (s ≡ [] → o ≡ none)
    → cons_unless b c (end_at o s) ≡ end_at (or_here b o) (c ∷ s)
cons_unless-end_at true c none s h = refl
cons_unless-end_at false c none s h = refl
cons_unless-end_at b c (some i) [] h = let k = h refl in cc
cons_unless-end_at b c (some i) (d ∷ s) h = refl

find_last_of_nil : (s : List ℕ) → s ≡ [] → find_last_not_blank s ≡ none
unfolding find_last_not_blank
find_last_of_nil s e = ap find_last_not_blank e

trim_end-find_last : (s : List ℕ) → trim_end s ≡ end_at (find_last_not_blank s) s
unfolding trim_end find_last_not_blank
trim_end-find_last [] = refl
trim_end-find_last (c ∷ s) =
    ap (cons_unless (is_blank c) c) (trim_end-find_last s)
    ∙ cons_unless-end_at (is_blank c) c (find_last_not_blank s) s (find_last_of_nil s)

or_here-none : (b : Bool) (o : Option ℕ) → or_here b o ≡ none → (b ≡ true) × (o ≡ none)
or_here-none true none h = (refl, refl)
or_here-none false none h = cc
or_here-none b (some i) h = cc

-- Where no byte stands last, none stands first.
find_first-find_last : (s : List ℕ) → find_last_not_blank s ≡ none → find_first_not_blank s ≡ none
unfolding find_first_not_blank find_last_not_blank
find_first-find_last [] h = refl
find_first-find_last (c ∷ s) h =
    let (k, l) = or_here-none (is_blank c) (find_last_not_blank s) h in
    rw k (ap next_position (find_first-find_last s l))

push_between-blank :
    (o p : Option ℕ) (c : ℕ) (s : List ℕ) (out : List (List ℕ))
    → (p ≡ none → o ≡ none)
    → push_between (next_position o) (or_here true p) (c ∷ s) out ≡ push_between o p s out
push_between-blank none p c s out h = refl
push_between-blank (some b) none c s out h = let k = h refl in cc
push_between-blank (some b) (some e) c s out h =
    let k : suc e - suc b + 1 ≡ e - b + 1 = omega arith in
    ap (λ n. out ++ (take n (drop b s) ∷ [])) k

push_between-first :
    (c : ℕ) (s : List ℕ) (o : Option ℕ) (out : List (List ℕ))
    → push_between (some 0) (or_here false o) (c ∷ s) out
      ≡ out ++ unless_empty (end_at (or_here false o) (c ∷ s))
push_between-first c s none out = refl
push_between-first c s (some i) out =
    let k : suc i - 0 + 1 ≡ suc (suc i) = omega arith in ap (λ n. out ++ (take n (c ∷ s) ∷ [])) k

push_trimmed_lem :
    (tok : List ℕ) (out : List (List ℕ))
    → push_trimmed tok out ≡ out ++ unless_empty (trim_end (trim_start tok))
unfolding push_trimmed find_first_not_blank find_last_not_blank trim_start trim_end
push_trimmed_lem [] out = sym (append-nil out)
push_trimmed_lem (c ∷ s) out = elim (Bool-cases (is_blank c)) [
  | inl h ↦ rw h (
      push_between-blank (find_first_not_blank s) (find_last_not_blank s) c s out
        (find_first-find_last s)
      ∙ push_trimmed_lem s out)
  | inr h ↦ rw h (
      push_between-first c s (find_last_not_blank s) out
      ∙ ap (λ t. out ++ unless_empty t)
          (sym (
            ap (cons_unless false c) (trim_end-find_last s)
            ∙ cons_unless-end_at false c (find_last_not_blank s) s (find_last_of_nil s)))
      ∙ ap (λ b. out ++ unless_empty (cons_unless b c (trim_end s))) (sym h))
]

drop-suc : (n i : ℕ) (s : List ℕ) → drop (suc (n + i)) s ≡ drop (suc i) (drop n s)
drop-suc zero i s = let k : suc (0 + i) ≡ suc i = omega arith in ap (λ n. drop n s) k
drop-suc (suc n) i [] = refl
drop-suc (suc n) i (c ∷ s) =
    let k : suc n + i ≡ suc (n + i) = omega arith in ap (λ m. drop m s) k ∙ drop-suc n i s

next_position-inside :
    (o : Option ℕ) (i n : ℕ) → ((j : ℕ) → o ≡ some j → j < n) → next_position o ≡ some i → i < suc n
next_position-inside none i n h e = cc
next_position-inside (some j) i n h e = let k = h j refl in let l : suc j ≡ i = cc in omega arith

comma_or_next-inside :
    (b : Bool) (o : Option ℕ) (i n : ℕ)
    → ((j : ℕ) → o ≡ some j → j < n)
    → (if b then some 0 else next_position o) ≡ some i
    → i < suc n
comma_or_next-inside true o i n h e = let k : 0 ≡ i = cc in omega arith
comma_or_next-inside false o i n h e = next_position-inside o i n h e

find_comma-inside : (s : List ℕ) (i : ℕ) → find_comma s ≡ some i → i < length s
unfolding find_comma
find_comma-inside [] i h = cc
find_comma-inside (c ∷ s) i h =
    comma_or_next-inside (c == 44) (find_comma s) i (length s) (find_comma-inside s) h

-- One round that finds a comma, and the rest of the list.
pieces-comma :
    (d : List ℕ) (i : ℕ) (out : List (List ℕ))
    → find_comma d ≡ some i
    → push_trimmed (take i d) out ++ trimmed_pieces (split_at_commas (drop (suc i) d))
      ≡ out ++ trimmed_pieces (split_at_commas d)
pieces-comma d i out e =
    let t = trim_end (trim_start (take i d)) in
    let ts = trimmed_pieces (split_at_commas (drop (suc i) d)) in
    ap (λ o. o ++ ts) (push_trimmed_lem (take i d) out)
    ∙ (append_assoc out (unless_empty t) ts
        ∙ ap (λ o. out ++ trimmed_pieces o) (sym (split-find_comma d ∙ ap (λ o. split_from o d) e)))

-- The round that finds none.
pieces-last :
    (d : List ℕ) (out : List (List ℕ))
    → find_comma d ≡ none
    → push_trimmed d out ≡ out ++ trimmed_pieces (split_at_commas d)
pieces-last d out e =
    let t = trim_end (trim_start d) in
    push_trimmed_lem d out
    ∙ (ap (λ o. out ++ o) (sym (append-nil (unless_empty t)))
        ∙ ap (λ o. out ++ trimmed_pieces o) (sym (split-find_comma d ∙ ap (λ o. split_from o d) e)))

-- A round, for what the search for the comma finds, where the rounds behind it are known.
round_lem :
    (fuel : ℕ) (csv : List ℕ) (start : ℕ) (out : List (List ℕ)) (o : Option ℕ)
    → find_comma (drop start csv) ≡ o
    → ((i : ℕ) (done : List (List ℕ))
        → o ≡ some i
        → symbol_loop fuel csv (suc (start + i)) done
          ≡ done ++ trimmed_pieces (split_at_commas (drop (suc (start + i)) csv)))
    → let comma = shift_position start o in
      let pushed = push_trimmed (substr csv start (end_of comma csv - start)) out in
      elim comma [ none ↦ pushed | some i ↦ symbol_loop fuel csv (suc i) pushed ]
      ≡ out ++ trimmed_pieces (split_at_commas (drop start csv))
round_lem fuel csv start out none e h =
    let d = drop start csv in
    let n : length d ≡ length csv - start = length-drop start csv in
    ap (λ t. push_trimmed t out) (take-all (length csv - start) d (omega arith))
    ∙ pieces-last d out e
round_lem fuel csv start out (some i) e h =
    let d = drop start csv in
    let c : start + i - start ≡ i = omega arith in
    let pushed = push_trimmed (take i d) out in
    ap (λ m. symbol_loop fuel csv (suc (start + i)) (push_trimmed (take m d) out)) c
    ∙ (h i pushed refl
        ∙ (ap (λ o. pushed ++ trimmed_pieces (split_at_commas o)) (drop-suc start i csv)
            ∙ pieces-comma d i out e))

symbol_loop_lem :
    (fuel : ℕ) (csv : List ℕ) (start : ℕ) (out : List (List ℕ))
    → start ≤ length csv
    → length csv - start < fuel
    → symbol_loop fuel csv start out ≡ out ++ trimmed_pieces (split_at_commas (drop start csv))
unfolding symbol_loop
symbol_loop_lem zero csv start out h k = ground arith
symbol_loop_lem (suc fuel) csv start out h k =
    let d = drop start csv in
    let n : length d ≡ length csv - start = length-drop start csv in
    let b : leb start (length csv) ≡ true = ground arith in
    rw b (
      round_lem fuel csv start out (find_comma d) refl (λ i done e.
        let inside = find_comma-inside d i e in
        symbol_loop_lem fuel csv (suc (start + i)) done (omega arith) (omega arith)))

-- parse_symbols yields what splitting the list at every comma, trimming blanks and tabs off both ends
-- of each piece and dropping the empty pieces yields, in order.
pub parse_symbols-split : (csv : List ℕ) → parse_symbols csv ≡ trimmed_pieces (split_at_commas csv)
unfolding parse_symbols
parse_symbols-split csv = symbol_loop_lem (suc (length csv)) csv 0 [] (omega arith) (omega arith)
