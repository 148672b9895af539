-- ===== src/Options/Symbols.antt =====
-- `parse_symbols` of src/live_trade.cpp. A text is a list of bytes, a position that was not found is
-- `none`.
use orderbook_c.Base.{
  Bool, List, Option, [], drop, false, if◌then◌else◌, leb, length, none, some, suc, take, true,
  zero, ℕ, ◌%◌, ◌++◌, ◌+◌, ◌-◌, ◌==◌, ◌||◌, ◌∷◌,
}

abbrev pub is_blank : ℕ → Bool
is_blank c = (c == 32) || (c == 9)

abbrev pub next_position : Option ℕ → Option ℕ
next_position none = none
next_position (some i) = some (suc i)

-- `find(',')`
unfoldable pub find_comma : List ℕ → Option ℕ
find_comma [] = none
find_comma (c ∷ s) = if c == 44 then some 0 else next_position (find_comma s)

-- `find(',', start)`
abbrev pub shift_position : ℕ → Option ℕ → Option ℕ
shift_position start none = none
shift_position start (some i) = some (start + i)

abbrev pub find_comma_from : List ℕ → ℕ → Option ℕ
find_comma_from s start = shift_position start (find_comma (drop start s))

abbrev pub substr : List ℕ → ℕ → ℕ → List ℕ
substr s start count = take count (drop start s)

unfoldable pub find_first_not_blank : List ℕ → Option ℕ
find_first_not_blank [] = none
find_first_not_blank (c ∷ s) = if is_blank c then next_position (find_first_not_blank s) else some 0

abbrev pub or_here : Bool → Option ℕ → Option ℕ
or_here b (some i) = some (suc i)
or_here true none = none
or_here false none = some 0

unfoldable pub find_last_not_blank : List ℕ → Option ℕ
find_last_not_blank [] = none
find_last_not_blank (c ∷ s) = or_here (is_blank c) (find_last_not_blank s)

-- `e - b + 1` in 64 bits, where the missing position is the greatest number.
abbrev pub count_between : ℕ → Option ℕ → ℕ
count_between b none = (18446744073709551616 - b) % 18446744073709551616
count_between b (some e) = e - b + 1

abbrev pub push_between : Option ℕ → Option ℕ → List ℕ → List (List ℕ) → List (List ℕ)
push_between none e tok out = out
push_between (some b) e tok out = out ++ (substr tok b (count_between b e) ∷ [])

unfoldable pub push_trimmed : List ℕ → List (List ℕ) → List (List ℕ)
push_trimmed tok out = push_between (find_first_not_blank tok) (find_last_not_blank tok) tok out

abbrev pub end_of : Option ℕ → List ℕ → ℕ
end_of none csv = length csv
end_of (some comma) csv = comma

-- The loop. A round that finds a comma moves `start` behind it, so a list of `n` bytes has at most
-- `n + 1` rounds.
unfoldable pub symbol_loop : ℕ → List ℕ → ℕ → List (List ℕ) → List (List ℕ)
symbol_loop zero csv start out = out
symbol_loop (suc fuel) csv start out =
    let comma = find_comma_from csv start in
    let pushed = push_trimmed (substr csv start (end_of comma csv - start)) out in
    if leb start (length csv)
    then elim comma [ none ↦ pushed | some i ↦ symbol_loop fuel csv (suc i) pushed ]
    else out

unfoldable pub parse_symbols : List ℕ → List (List ℕ)
parse_symbols csv = symbol_loop (suc (length csv)) csv 0 []
