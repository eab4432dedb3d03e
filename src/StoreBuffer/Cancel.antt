-- ===== src/StoreBuffer/Cancel.antt =====
-- `cancel`: a store that failed leaves, or drains without writing.
use mathlib.Core.Path.{subst}
use inspectre.Base.{
  ◌==◌, ==_iff, ==_false, ==_ne, Bool-cases, length-set, slot, slot-injective, prev_slot,
  prev_slot-slot, tabulate, tabulate_ext, ring_at-set_ne, ℕ, zero, suc, ◌-◌, ◌<◌, ◌≡◌, refl, sym,
  ap, ◌∙◌, inl, inr, true, false, some, ◌∷◌, arith,
}
use inspectre.Rob.{RobTag}
use inspectre.StoreBuffer.{
  StoreBuffer, StoreBufferEntry, default_entry, capacity, invalidate, marks_committed, retract,
  cancel_slot, cancel,
}
use inspectre.StoreBuffer.Spec
use inspectre.StoreBuffer.Invariant.{IsValid, store_at, stores}
use inspectre.StoreBuffer.Update.{
  IsFirst, Untagged, find_slot-cases, written-IsValid, stores-written,
}

module _ (t : RobTag) where
  cancel-none :
      (g : ℕ → StoreBufferEntry) (n : ℕ)
      → Untagged g t n
      → Spec.cancel t (tabulate g n) ≡ tabulate g n
  cancel-none g zero u = refl
  cancel-none g (suc n) u =
      rw (u 0 (omega arith))
        (ap (◌∷◌ (g 0)) (cancel-none (λ j. g (suc j)) n (λ j p. u (suc j) (omega arith))))

  -- The youngest store goes.
  cancel-last :
      (g : ℕ → StoreBufferEntry) (n : ℕ)
      → IsFirst g t (suc n) n
      → Spec.cancel t (tabulate g (suc n)) ≡ tabulate g n
  cancel-last g zero i = rw i.here refl
  cancel-last g (suc n) i = rw (i.before 0 (omega arith)) (
      ap (◌∷◌ (g 0)) (
        cancel-last (λ j. g (suc j)) n
          (record {
            below = omega arith;
            here = i.here;
            before = λ j p. i.before (suc j) (omega arith);
          })))

  -- An older one stays, committed.
  cancel-older :
      (g : ℕ → StoreBufferEntry) (n k : ℕ)
      → IsFirst g t n k
      → suc k < n
      → Spec.cancel t (tabulate g n) ≡ Spec.update_first t marks_committed (tabulate g n)
  cancel-older g zero k i p = absurd (omega arith)
  cancel-older g (suc zero) k i p = absurd (omega arith)
  cancel-older g (suc (suc n)) zero i p = rw i.here refl
  cancel-older g (suc (suc n)) (suc k) i p = rw (i.before 0 (omega arith)) (
      ap (◌∷◌ (g 0)) (
        cancel-older (λ j. g (suc j)) (suc n) k
          (record {
            below = omega arith;
            here = i.here;
            before = λ j p. i.before (suc j) (omega arith);
          })
          (omega arith)))

module _ (b : StoreBuffer) (t : RobTag) (v : IsValid b) where
  module _ (n : ℕ) (e : b.count ≡ suc n) where
    -- The slot in front of `tail`.
    prev_slot-tail : prev_slot (capacity b) b.tail ≡ slot (capacity b) b.head n
    prev_slot-tail =
        ap (prev_slot (capacity b)) (v.tail_at ∙ ap (slot (capacity b) b.head) e)
        ∙ prev_slot-slot (capacity b) b.head n v.head_in (omega (arith, v.count_le))

    abbrev retracted : StoreBuffer
    retracted = retract b (slot (capacity b) b.head n)

    store_at-retracted : (k : ℕ) → k < n → store_at retracted k ≡ store_at b k
    store_at-retracted k p =
        ring_at-set_ne default_entry b.entries b.head k n (invalidate (store_at b n)) v.head_in
          (omega (arith, v.count_le)) (omega (arith, v.count_le)) (λ q. omega arith)

    one_less : b.count - 1 ≡ n
    one_less = omega arith

    retracted-IsValid : IsValid retracted
    retracted-IsValid = record {
      head_in = rw length-set v.head_in;
      count_le = rw length-set (omega (arith, v.count_le));
      tail_at = rw (length-set, one_less) prev_slot-tail;
      live = λ k p. rw (store_at-retracted k (omega arith)) (v.live k (omega arith));
    }

    stores-retracted :
        IsFirst (store_at b) t (suc n) n → stores retracted ≡ Spec.cancel t (stores b)
    stores-retracted i =
        ap (tabulate (store_at retracted)) one_less
        ∙ tabulate_ext _ (store_at b) n store_at-retracted
        ∙ sym (ap (λ m. Spec.cancel t (tabulate (store_at b) m)) e ∙ cancel-last t (store_at b) n i)

    is_last : (k : ℕ) → k ≡ n → (slot (capacity b) b.head k == prev_slot (capacity b) b.tail) ≡ true
    is_last k q = (==_iff _ _).1 (ap (slot (capacity b) b.head) q ∙ sym prev_slot-tail)

    is_older :
        (k : ℕ) → k < n → (slot (capacity b) b.head k == prev_slot (capacity b) b.tail) ≡ false
    is_older k p = ==_ne _ _ (λ q. differs (q ∙ prev_slot-tail))
      where
        differs : slot (capacity b) b.head k ≡ slot (capacity b) b.head n → ⊥
        differs q = omega (
          arith,
          slot-injective (capacity b) b.head k n v.head_in (omega (arith, v.count_le))
              (omega (arith, v.count_le)) q,
        )

    abbrev Cancelled : ℕ → Type 0
    Cancelled k =
        IsValid (cancel_slot b (some (slot (capacity b) b.head k)))
        × (stores (cancel_slot b (some (slot (capacity b) b.head k))) ≡ Spec.cancel t (stores b))

    Cancelled-last : IsFirst (store_at b) t b.count n → Cancelled n
    Cancelled-last i =
        rw (is_last n refl)
          (retracted-IsValid, stores-retracted (subst (λ m. IsFirst (store_at b) t m n) e i))

    cancelled : (k : ℕ) → IsFirst (store_at b) t b.count k → Cancelled k
    cancelled k i = elim (Bool-cases (k == n)) [
      | inl q ↦
          subst Cancelled (sym ((==_iff k n).0 q))
            (Cancelled-last (subst (IsFirst (store_at b) t b.count) ((==_iff k n).0 q) i))
      | inr q ↦ rw (is_older k (omega (arith, i.below, ==_false k n q))) (
        written-IsValid b t marks_committed v (λ e. refl) k i.below,
        stores-written b t marks_committed v k i
            ∙ sym
                (cancel-older t (store_at b) b.count k i (omega (arith, i.below, ==_false k n q))),
      )
    ]

  -- `cancel` keeps a valid buffer valid. Of the stores with the tag the oldest goes if it is the
  -- youngest of all, and otherwise stays, committed; without one nothing changes.
  pub cancel_refines : IsValid (cancel b t) × (stores (cancel b t) ≡ Spec.cancel t (stores b))
  unfolding cancel
  cancel_refines = elim (find_slot-cases b.entries t b.count b.head v.head_in) [
    | inl (q, u) ↦ rw q (v, sym (cancel-none t (store_at b) b.count u))
    | inr (k, q, i) ↦ rw q (cancelled (b.count - 1) (omega (arith, i.below)) k i)
  ]
