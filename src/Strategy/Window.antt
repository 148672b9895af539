-- ===== src/Strategy/Window.antt =====
-- The rolling window of `MeanReversion` of src/trading_engine.cpp.
use mathlib.Core.List.{append_assoc, append-nil}
use orderbook_c.Base.{
  Bool, Bool-cases, List, Option, [], ap, arith, drop, false, if◌then◌else◌, inl, inr, length,
  length-append, length-drop, ltb, refl, subst, suc, sym, true, zero, zero_sub, ℕ, ◌++◌, ◌+◌, ◌-◌,
  ◌<◌, ◌∙◌, ◌∷◌, ◌≡◌, ◌≤◌,
}
use orderbook_c.Base.Int.{add_ℤ_parts, eq_of_parts, pos, sub_ℤ_parts, ℤ, ◌+ℤ◌, ◌-ℤ◌, ◌==ℤ◌}
use orderbook_c.Strategy.{
  MarketSnapshot, MeanReversion, ReversionConfig, StrategyAction, mid, new_reversion, on_tick,
  pop_front, react, slide,
}
use orderbook_c.Types.{add64}

unfoldable pub sum_ℤ : List ℤ → ℤ
sum_ℤ [] = pos 0
sum_ℤ (x ∷ xs) = x +ℤ sum_ℤ xs

-- The mid-prices of the snapshots that count, oldest first.
unfoldable pub mids : List MarketSnapshot → List ℤ
mids [] = []
mids (s ∷ ss) = let rest = mids ss in if mid s ==ℤ pos 0 then rest else mid s ∷ rest

-- The strategy after the snapshots.
unfoldable pub watch : ReversionConfig → MeanReversion → List MarketSnapshot → MeanReversion
watch cfg m [] = m
watch cfg m (s ∷ ss) = watch cfg (on_tick cfg m s).1 ss

-- The window holds the last prices of those seen, as many as it is long, and the sum is theirs.
pub record Tracks (cfg : ReversionConfig) (m : MeanReversion) (seen : List ℤ) : Type 0 where
  pub last : m.prices ≡ drop (length seen - cfg.window) seen
  pub summed : m.sum ≡ sum_ℤ m.prices

add_ℤ_assoc : (a b c : ℤ) → (a +ℤ b) +ℤ c ≡ a +ℤ (b +ℤ c)
add_ℤ_assoc a b c = eq_of_parts ((a +ℤ b) +ℤ c) (a +ℤ (b +ℤ c)) (
    omega (arith, add_ℤ_parts a b, add_ℤ_parts (a +ℤ b) c, add_ℤ_parts b c, add_ℤ_parts a (b +ℤ c)))

sum_ℤ-append : (xs : List ℤ) (x : ℤ) → sum_ℤ (xs ++ (x ∷ [])) ≡ sum_ℤ xs +ℤ x
unfolding sum_ℤ
sum_ℤ-append [] x =
    eq_of_parts (x +ℤ pos 0) (pos 0 +ℤ x)
      (omega (arith, add_ℤ_parts x (pos 0), add_ℤ_parts (pos 0) x))
sum_ℤ-append (y ∷ xs) x = ap (λ s. y +ℤ s) (sum_ℤ-append xs x) ∙ sym (add_ℤ_assoc y (sum_ℤ xs) x)

sum_ℤ-drop : (x : ℤ) (s : ℤ) → (x +ℤ s) -ℤ x ≡ s
sum_ℤ-drop x s =
    eq_of_parts ((x +ℤ s) -ℤ x) s (omega (arith, add_ℤ_parts x s, sub_ℤ_parts (x +ℤ s) x))

drop-append :
    (n : ℕ) (xs : List ℤ) (x : ℤ) → n ≤ length xs → drop n (xs ++ (x ∷ [])) ≡ drop n xs ++ (x ∷ [])
drop-append zero xs x h = refl
drop-append (suc n) [] x h = absurd (omega arith)
drop-append (suc n) (y ∷ xs) x h = drop-append n xs x (omega arith)

drop-suc : (n : ℕ) (xs ys : List ℤ) (y : ℤ) → drop n xs ≡ y ∷ ys → drop (suc n) xs ≡ ys
drop-suc zero [] ys y e = absurd (ground (arith, e))
drop-suc zero (x ∷ xs) ys y e = ground (arith, e)
drop-suc (suc n) [] ys y e = absurd (ground (arith, e))
drop-suc (suc n) (x ∷ xs) ys y e = drop-suc n xs ys y e

pop_front-Tracks :
    (k : ℕ) (seen ps : List ℤ) (s : ℤ) (n : ℕ)
    → ps ≡ drop k seen
    → s ≡ sum_ℤ ps
    → 0 < length ps
    → let m : MeanReversion = pop_front (record { prices = ps; sum = s; since_action = n }) in
      (m.prices ≡ drop (suc k) seen) × (m.sum ≡ sum_ℤ m.prices)
unfolding sum_ℤ
pop_front-Tracks k seen [] s n e f h = absurd (omega arith)
pop_front-Tracks k seen (y ∷ ys) s n e f h =
    (sym (drop-suc k seen ys y (sym e)), ap (λ t. t -ℤ y) f ∙ sum_ℤ-drop y (sum_ℤ ys))

slide-Tracks :
    (cfg : ReversionConfig) (m : MeanReversion) (px : ℤ) (seen : List ℤ)
    → Tracks cfg m seen
    → Tracks cfg (slide cfg px m) (seen ++ (px ∷ []))
unfolding slide
slide-Tracks cfg m px seen t =
    let k = length seen - cfg.window in
    let ps = m.prices ++ (px ∷ []) in
    let longer : length (seen ++ (px ∷ [])) ≡ length seen + 1 = length-append seen (px ∷ []) in
    let held : ps ≡ drop k (seen ++ (px ∷ [])) =
      ap (λ xs. xs ++ (px ∷ [])) t.last ∙ sym (drop-append k seen px (omega arith)) in
    let total : m.sum +ℤ px ≡ sum_ℤ ps =
      ap (λ s. s +ℤ px) t.summed ∙ sym (sum_ℤ-append m.prices px) in
    let many : length ps ≡ suc (length seen - k) =
      ap length held ∙ (length-drop k (seen ++ (px ∷ [])) ∙ omega (arith, longer)) in
    elim (Bool-cases (ltb cfg.window (length ps))) [
      | inl full ↦
          let next : suc k ≡ length (seen ++ (px ∷ [])) - cfg.window =
            ground (arith, longer, many, full) in
          let (p, s) =
            pop_front-Tracks k (seen ++ (px ∷ [])) ps (m.sum +ℤ px) m.since_action held total
              (omega (arith, many)) in
          rw full (record { last = p ∙ ap (λ n. drop n (seen ++ (px ∷ []))) next; summed = s })
      | inr room ↦
          let next : k ≡ length (seen ++ (px ∷ [])) - cfg.window =
            ground (arith, longer, many, room) in
          rw room
            (record { last = held ∙ ap (λ n. drop n (seen ++ (px ∷ []))) next; summed = total })
    ]

none_yet : (n : ℕ) → ◌≡◌ {A = List ℤ} [] (drop (0 - n) [])
none_yet n = ap (λ k. drop k []) (sym (zero_sub n))

sum_nil : pos 0 ≡ sum_ℤ []
unfolding sum_ℤ
sum_nil = refl

if_both {ℓ κ} :
    {A : Type ℓ} (P : A → Type κ) {x y : A} (b : Bool) → P x → P y → P (if b then x else y)
if_both P true h k = h
if_both P false h k = k

abbrev SameWindow : MeanReversion → Option StrategyAction × MeanReversion → Type 0
SameWindow m r = (r.1.prices ≡ m.prices) × (r.1.sum ≡ m.sum)

react-SameWindow :
    (cfg : ReversionConfig) (px : ℤ) (m : MeanReversion) → SameWindow m (react cfg px m)
react-SameWindow cfg px m =
    if_both (SameWindow m) (cfg.is_low m.sum (length m.prices) px) (refl, refl)
      (if_both (SameWindow m) (cfg.is_high m.sum (length m.prices) px) (refl, refl) (refl, refl))

on_tick-window :
    (cfg : ReversionConfig) (m : MeanReversion) (s : MarketSnapshot)
    → (mid s ==ℤ pos 0) ≡ false
    → SameWindow (slide cfg (mid s) m) (on_tick cfg m s)
unfolding on_tick
on_tick-window cfg m s e =
    let m1 = slide cfg (mid s) m in
    rw e (
      if_both (SameWindow m1) (ltb (length m1.prices) cfg.window) (refl, refl)
        (if_both (SameWindow m1) (ltb m1.since_action cfg.cool_down) (refl, refl)
          (react-SameWindow cfg (mid s) (record m1 { since_action = add64 m1.since_action 1 }))))

on_tick-still :
    (cfg : ReversionConfig) (m : MeanReversion) (s : MarketSnapshot)
    → (mid s ==ℤ pos 0) ≡ true
    → (on_tick cfg m s).1 ≡ m
unfolding on_tick
on_tick-still cfg m s e = rw (e, on_tick) refl

watch-from :
    (cfg : ReversionConfig) (m : MeanReversion) (ss : List MarketSnapshot) (seen : List ℤ)
    → Tracks cfg m seen
    → Tracks cfg (watch cfg m ss) (seen ++ mids ss)
unfolding watch mids
watch-from cfg m [] seen t = subst (λ xs. Tracks cfg m xs) (sym (append-nil seen)) t
watch-from cfg m (s ∷ ss) seen t = elim (Bool-cases (mid s ==ℤ pos 0)) [
  | inl still ↦ rw still (
      subst (λ n. Tracks cfg (watch cfg n ss) (seen ++ mids ss)) (sym (on_tick-still cfg m s still))
        (watch-from cfg m ss seen t))
  | inr moved ↦
      let t' = slide-Tracks cfg m (mid s) seen t in
      let (same_prices, same_sum) = on_tick-window cfg m s moved in
      let here : Tracks cfg (on_tick cfg m s).1 (seen ++ (mid s ∷ [])) = record {
        last = same_prices ∙ t'.last;
        summed = same_sum ∙ (t'.summed ∙ ap sum_ℤ (sym same_prices));
      } in
      rw moved (
        subst (λ xs. Tracks cfg (watch cfg (on_tick cfg m s).1 ss) xs)
          (append_assoc seen (mid s ∷ []) (mids ss))
          (watch-from cfg (on_tick cfg m s).1 ss (seen ++ (mid s ∷ [])) here))
]

-- After any snapshots the window holds the last mid-prices of them, those that are not zero and as
-- many as it is long, and the running sum is theirs, whatever the strategy did.
pub watch-Tracks :
    (cfg : ReversionConfig) (ss : List MarketSnapshot)
    → Tracks cfg (watch cfg new_reversion ss) (mids ss)
watch-Tracks cfg ss =
    watch-from cfg new_reversion ss [] (record { last = none_yet cfg.window; summed = sum_nil })
