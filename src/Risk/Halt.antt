-- ===== src/Risk/Halt.antt =====
-- The drawdown halt of include/order_book/risk.hpp over a sequence of observations.
use orderbook_c.Base.{Bool, List, [], arith, false, refl, true, ◌||◌, ◌∷◌, ◌≡◌}
use orderbook_c.Base.Int.{ltb_ℤ, pos, sub_ℤ_parts, ℤ, ◌-ℤ◌, ◌<ℤ◌, ◌≤ℤ◌}
use orderbook_c.Risk.{RiskConfig, RiskManager, new_manager, observe_equity}

unfoldable pub observe_all : RiskManager → List ℤ → RiskManager
observe_all m [] = m
observe_all m (e ∷ es) = observe_all (observe_equity m e) es

-- Some value of the list is more than `d` below `h`.
unfoldable pub falls_from : ℤ → ℤ → List ℤ → Bool
falls_from d h [] = false
falls_from d h (e ∷ es) = ltb_ℤ d (h -ℤ e) || falls_from d h es

-- Some value of the list is followed by one that is more than `d` below it.
unfoldable pub has_drawdown : ℤ → List ℤ → Bool
has_drawdown d [] = false
has_drawdown d (h ∷ es) = falls_from d h es || has_drawdown d es

pub observe_equity-halted :
    (m : RiskManager) (e : ℤ) → m.halted ≡ true → (observe_equity m e).halted ≡ true
unfolding observe_equity
observe_equity-halted m e h = ground arith

observe_all-halted :
    (m : RiskManager) (es : List ℤ) → m.halted ≡ true → (observe_all m es).halted ≡ true
unfolding observe_all observe_equity
observe_all-halted m [] h = h
observe_all-halted m (e ∷ es) h = ground (arith, observe_all-halted (observe_equity m e) es)

falls_from-higher :
    (d h e : ℤ) (es : List ℤ) → e ≤ℤ h → falls_from d h es ≡ falls_from d h es || falls_from d e es
unfolding falls_from
falls_from-higher d h e [] le = refl
falls_from-higher d h e (x ∷ es) le =
    ground (arith, falls_from-higher d h e es, sub_ℤ_parts h x, sub_ℤ_parts e x)

observe_all-peak :
    (m : RiskManager) (es : List ℤ)
    → m.halted ≡ false
    → pos 0 <ℤ m.cfg.max_drawdown
    → (observe_all m es).halted ≡ has_drawdown m.cfg.max_drawdown (m.peak_equity ∷ es)
unfolding observe_all observe_equity has_drawdown falls_from
observe_all-peak m [] h d = h
observe_all-peak m (e ∷ es) h d = ground (
  arith,
  observe_all-peak (observe_equity m e) es,
  observe_all-halted (observe_equity m e) es,
  falls_from-higher m.cfg.max_drawdown m.peak_equity e es,
  falls_from-higher m.cfg.max_drawdown e m.peak_equity es,
  sub_ℤ_parts m.peak_equity e,
  sub_ℤ_parts e e,
)

-- With a drawdown limit, the manager is halted after a sequence of observations exactly if some
-- equity of it, or the zero that it starts from, is followed by one more than the limit below it.
pub observe_all-drawdown :
    (cfg : RiskConfig) (es : List ℤ)
    → pos 0 <ℤ cfg.max_drawdown
    → (observe_all (new_manager cfg) es).halted ≡ has_drawdown cfg.max_drawdown (pos 0 ∷ es)
observe_all-drawdown cfg es d = observe_all-peak (new_manager cfg) es refl d
