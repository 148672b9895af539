-- ===== src/Telemetry/Drain.antt =====
-- The publisher of include/order_book/telemetry.hpp loses no record and writes each once, in order.
use mathlib.Core.List.{append_assoc, append-nil}
use orderbook_c.Base.{All, List, [], ap, map, refl, subst, sym, ◌++◌, ◌∙◌, ◌∷◌, ◌≡◌}
use orderbook_c.Telemetry.Publisher.{Publisher, Worker, emit, emitting, write_line}

-- What the worker has taken from the queue and not yet written.
abbrev pub in_hand {ℓ} : {R : Type ℓ} → Worker R → List R
in_hand (emitting batch) = batch
in_hand w = []

module _ {ℓ κ} {R : Type ℓ} {L : Type κ} (line_of : R → L) where
  -- Every sink has the lines of `rs`.
  abbrev pub AllHave : List (List L) → List R → Type κ
  AllHave sinks rs = All (λ k. k ≡ map line_of rs) sinks

  pub record Delivered (p : Publisher R L) : Type (ℓ ⊔ κ) where
    pub kept : p.published ≡ p.written ++ (in_hand p.worker ++ p.queue)
    pub lines : AllHave p.sinks p.written

  map-append : (xs ys : List R) → map line_of (xs ++ ys) ≡ map line_of xs ++ map line_of ys
  map-append [] ys = refl
  map-append (x ∷ xs) ys = ap (λ t. line_of x ∷ t) (map-append xs ys)

  write_line-AllHave :
      (r : R) (sinks : List (List L)) (rs : List R)
      → AllHave sinks rs
      → AllHave (write_line line_of (line_of r) sinks) (rs ++ (r ∷ []))
  write_line-AllHave r [] rs h = tt
  write_line-AllHave r (k ∷ ks) rs (e, h) = (
    ap (λ t. t ++ (line_of r ∷ [])) e ∙ sym (map-append rs (r ∷ [])),
    write_line-AllHave r ks rs h,
  )

  pub emit-AllHave :
      (batch : List R) (sinks : List (List L)) (rs : List R)
      → AllHave sinks rs
      → AllHave (emit line_of batch sinks) (rs ++ batch)
  unfolding emit
  emit-AllHave [] sinks rs h = subst (AllHave sinks) (sym (append-nil rs)) h
  emit-AllHave (r ∷ batch) sinks rs h =
      subst (AllHave (emit line_of batch (write_line line_of (line_of r) sinks)))
        (append_assoc rs (r ∷ []) batch)
        (emit-AllHave batch (write_line line_of (line_of r) sinks) (rs ++ (r ∷ []))
          (write_line-AllHave r sinks rs h))
