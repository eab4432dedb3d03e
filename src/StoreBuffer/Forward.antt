-- ===== src/StoreBuffer/Forward.antt =====
-- The backward walk of `forward_load`.
use inspectre.Base.{
  [], length, slot, prev_slot, prev_slot-slot, tabulate-snoc, ring_at, window, ℕ, zero, suc, ◌≤◌,
  ◌<◌, ◌≡◌, refl, sym, ap, ◌∙◌, List, ◌∷◌, ◌++◌, arith,
}
use inspectre.Signals.{MemWidth}
use inspectre.StoreBuffer.{
  StoreBuffer, StoreBufferEntry, ForwardResult, default_entry, forward_entry, or_else, scan_stores,
  forward_load,
}
use inspectre.StoreBuffer.Spec
use inspectre.StoreBuffer.Invariant.{IsValid, stores}

or_else-miss : (r : ForwardResult) → or_else r ForwardResult.miss ≡ r
or_else-miss ForwardResult.miss = refl
or_else-miss (ForwardResult.hit v) = refl
or_else-miss ForwardResult.stall = refl

or_else_assoc : (r s t : ForwardResult) → or_else (or_else r s) t ≡ or_else r (or_else s t)
or_else_assoc ForwardResult.miss s t = refl
or_else_assoc (ForwardResult.hit v) s t = refl
or_else_assoc ForwardResult.stall s t = refl

module _ (paddr : ℕ) (width : MemWidth) where
  -- The youngest store is asked first.
  forward-snoc :
      (q : Spec.Stores) (e : StoreBufferEntry)
      → Spec.forward paddr width (q ++ (e ∷ []))
        ≡ or_else (forward_entry e paddr width) (Spec.forward paddr width q)
  forward-snoc [] e = sym (or_else-miss (forward_entry e paddr width))
  forward-snoc (x ∷ q) e =
      ap (λ r. or_else r (forward_entry x paddr width)) (forward-snoc q e)
      ∙ or_else_assoc (forward_entry e paddr width) (Spec.forward paddr width q) _

  scan-window :
      (es : List StoreBufferEntry) (h n : ℕ)
      → h < length es
      → n ≤ length es
      → scan_stores es paddr width n (prev_slot (length es) (slot (length es) h n))
        ≡ Spec.forward paddr width (window default_entry es h n)
  scan-window es h zero p q = refl
  scan-window es h (suc n) p q = rw (prev_slot-slot (length es) h n p q) (
      ap (or_else (forward_entry (ring_at default_entry es h n) paddr width))
        (scan-window es h n p (omega arith))
      ∙ sym (forward-snoc (window default_entry es h n) (ring_at default_entry es h n))
      ∙ ap (Spec.forward paddr width) (sym (tabulate-snoc (ring_at default_entry es h) n)))

  -- On a valid buffer `forward_load` asks the pending stores from the youngest to the oldest, and
  -- returns the first answer.
  pub forward_load_refines :
      (b : StoreBuffer)
      → IsValid b
      → forward_load b paddr width ≡ Spec.forward paddr width (stores b)
  unfolding forward_load
  forward_load_refines b v =
      rw v.tail_at (scan-window b.entries b.head b.count v.head_in v.count_le)
