-- ===== src/StoreBuffer/Compact.antt =====
-- The compaction loops of `flush_speculative` and `flush_after`: one round.
pub mod Run
use mathlib.Core.Path.{subst}
use mathlib.Core.List.{append-nil}
use native.Mathlib.Numerals.{add-one}
use inspectre.Base.{
  [], ◌==◌, if◌then◌else◌, ==_iff, ==_false, ==_ne, Bool-cases, and_true, length, set, length-set,
  slot, slot-injective, slot-suc, tabulate, tabulate_ext, tabulate-snoc, ring_at, ring_at-set_self,
  ring_at-set_ne, ℕ, suc, ◌+◌, ◌≤◌, ◌<◌, ◌≡◌, refl, sym, ap, ◌∙◌, ◌≢◌, inl, inr, Bool, true, false,
  ◌&&◌, List, ◌∷◌, ◌++◌, arith,
}
use inspectre.StoreBuffer.{StoreBufferEntry, default_entry, invalidate, Compaction, compact_step}
use inspectre.StoreBuffer.Spec

-- The writes of one round that keeps the entry at place `i`, the next free place being `c`.
module _ (es : List StoreBufferEntry) (h c i : ℕ) (e : StoreBufferEntry) (inside : h < length es)
    (order : c ≤ i) (below : i < length es) where
  abbrev moved : List StoreBufferEntry
  moved =
      if slot (length es) h i == slot (length es) h c
      then es
      else set (set es (slot (length es) h c) e) (slot (length es) h i) (invalidate e)

  abbrev first : List StoreBufferEntry
  first = set es (slot (length es) h c) e

  moved-stays : i ≡ c → moved ≡ es
  moved-stays q = rw (same) refl
    where
      same : (slot (length es) h i == slot (length es) h c) ≡ true
      same = (==_iff _ _).1 (ap (slot (length es) h) q)

  moved-writes : i ≢ c → moved ≡ set first (slot (length first) h i) (invalidate e)
  moved-writes ne = rw (apart) (rw length-set refl)
    where
      apart : (slot (length es) h i == slot (length es) h c) ≡ false
      apart = ==_ne _ _ (λ q. ne (slot-injective (length es) h i c inside below (omega arith) q))

  length-moved : length moved ≡ length es
  length-moved = elim (Bool-cases (i == c)) [
    | inl q ↦ rw (moved-stays ((==_iff i c).0 q)) refl
    | inr q ↦ rw (moved-writes (==_false i c q)) (rw (length-set) (length-set es _ e))
  ]

  -- Away from the two places nothing changes.
  moved-at_ne :
      (k : ℕ)
      → k < length es
      → k ≢ i
      → k ≢ c
      → ring_at default_entry moved h k ≡ ring_at default_entry es h k
  moved-at_ne k p ni nc = elim (Bool-cases (i == c)) [
    | inl q ↦ rw (moved-stays ((==_iff i c).0 q)) refl
    | inr q ↦ rw (moved-writes (==_false i c q)) (
        ring_at-set_ne default_entry first h k i (invalidate e) (rw length-set inside)
          (rw length-set below) (rw length-set p) (λ r. ni (sym r))
        ∙ ring_at-set_ne default_entry es h k c e inside (omega arith) p (λ r. nc (sym r)))
  ]

  -- At the free place stands the entry.
  moved-at : ring_at default_entry es h i ≡ e → ring_at default_entry moved h c ≡ e
  moved-at here = elim (Bool-cases (i == c)) [
    | inl q ↦
        rw (moved-stays ((==_iff i c).0 q))
          (ap (ring_at default_entry es h) (sym ((==_iff i c).0 q)) ∙ here)
    | inr q ↦ rw (moved-writes (==_false i c q)) (
        ring_at-set_ne default_entry first h c i (invalidate e) (rw length-set inside)
          (rw length-set below) (rw length-set (omega arith)) (==_false i c q)
        ∙ ring_at-set_self default_entry es h c e inside (omega arith))
  ]

module _ (test : StoreBufferEntry → Bool) (h : ℕ) where
  abbrev pub passes : StoreBufferEntry → Bool
  passes e = e.valid && test e

  abbrev pub at : Compaction → ℕ → StoreBufferEntry
  at c k = ring_at default_entry c.slots h k

  -- Before round `i`: what is kept stands live at the head.
  pub record IsLoop (i : ℕ) (c : Compaction) : Type 0 where
    pub inside : h < length c.slots
    pub tail_at : c.new_tail ≡ slot (length c.slots) h c.new_count
    pub count_le : c.new_count ≤ i
    pub live : (k : ℕ) → k < c.new_count → (at c k).valid ≡ true

  -- One round.
  pub record IsRound (i : ℕ) (c d : Compaction) : Type 0 where
    pub loop : IsLoop (suc i) d
    pub size : length d.slots ≡ length c.slots
    pub kept :
        tabulate (at d) d.new_count ≡ tabulate (at c) c.new_count ++ Spec.keep passes (at c i ∷ [])
    pub ahead : (k : ℕ) → i < k → k < length c.slots → at d k ≡ at c k

  module _ (i : ℕ) (c : Compaction) (l : IsLoop i c) (below : i < length c.slots) where
    abbrev pub step : Compaction
    step = compact_step test c (slot (length c.slots) h i)

    abbrev keeping : Compaction
    keeping = record {
      slots = moved c.slots h c.new_count i (at c i) l.inside l.count_le below;
      new_tail = slot (length c.slots) c.new_tail 1;
      new_count = c.new_count + 1;
    }

    abbrev dropping : Compaction
    dropping = record c { slots = set c.slots (slot (length c.slots) h i) (invalidate (at c i)) }

    step-keeping : passes (at c i) ≡ true → step ≡ keeping
    step-keeping e = rw (e, l.tail_at) refl

    step-dropping : passes (at c i) ≡ false → step ≡ dropping
    step-dropping e = rw e refl

    keeping-IsRound : passes (at c i) ≡ true → IsRound i c keeping
    keeping-IsRound e = record {
      loop = record {
        inside = rw size l.inside;
        tail_at =
            rw (size, l.tail_at)
              (slot-suc (length c.slots) h c.new_count
                ∙ ap (slot (length c.slots) h) (sym (add-one c.new_count)));
        count_le = omega (arith, l.count_le);
        live = λ k p. still_live k (omega arith);
      };
      size = size;
      kept =
          ap (tabulate (at keeping)) (add-one c.new_count)
          ∙ tabulate-snoc (at keeping) c.new_count
          ∙ rw e (λ j. tabulate_ext (at keeping) (at c) c.new_count same j ++ (last j ∷ []));
      ahead = λ k p q.
          moved-at_ne c.slots h c.new_count i (at c i) l.inside l.count_le below k q
            (λ r. omega arith) (λ r. omega (arith, l.count_le));
    }
      where
        size : length keeping.slots ≡ length c.slots
        size = length-moved c.slots h c.new_count i (at c i) l.inside l.count_le below

        last : at keeping c.new_count ≡ at c i
        last = moved-at c.slots h c.new_count i (at c i) l.inside l.count_le below refl

        same : (k : ℕ) → k < c.new_count → at keeping k ≡ at c k
        same k p =
            moved-at_ne c.slots h c.new_count i (at c i) l.inside l.count_le below k
              (omega (arith, l.count_le)) (λ r. omega (arith, l.count_le)) (λ r. omega arith)

        still_live : (k : ℕ) → k ≤ c.new_count → (at keeping k).valid ≡ true
        still_live k p = elim (Bool-cases (k == c.new_count)) [
          | inl q ↦
              subst (λ m. (at keeping m).valid ≡ true) (sym ((==_iff k c.new_count).0 q))
                (ap (λ (x : StoreBufferEntry). x.valid) last ∙ (and_true _ _ e).0)
          | inr q ↦
              ap (λ (x : StoreBufferEntry). x.valid)
                (same k (omega (arith, ==_false k c.new_count q)))
              ∙ l.live k (omega (arith, ==_false k c.new_count q))
        ]

    dropping-IsRound : passes (at c i) ≡ false → IsRound i c dropping
    dropping-IsRound e = record {
      loop = record {
        inside = rw size l.inside;
        tail_at = rw size l.tail_at;
        count_le = omega (arith, l.count_le);
        live =
            λ k p. rw (same k (omega (arith, l.count_le)) (omega (arith, l.count_le))) (l.live k p);
      };
      size = size;
      kept = rw e (
          tabulate_ext _ _ c.new_count
            (λ k p. same k (omega (arith, l.count_le)) (omega (arith, l.count_le)))
          ∙ sym (append-nil _));
      ahead = λ k p q. same k q (omega arith);
    }
      where
        size : length dropping.slots ≡ length c.slots
        size = length-set c.slots _ _

        same : (k : ℕ) → k < length c.slots → i ≢ k → at dropping k ≡ at c k
        same k p ne =
            ring_at-set_ne default_entry c.slots h k i (invalidate (at c i)) l.inside below p ne

    pub compact_step-IsRound : IsRound i c step
    compact_step-IsRound = elim (Bool-cases (passes (at c i))) [
      | inl e ↦ rw (step-keeping e) (keeping-IsRound e)
      | inr e ↦ rw (step-dropping e) (dropping-IsRound e)
    ]
