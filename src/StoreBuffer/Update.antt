-- ===== src/StoreBuffer/Update.antt =====
-- The changes of one store by its tag: the search loop, `resolve` and `mark_committed`.
use inspectre.Base.{
  ◌==◌, if◌then◌else◌, Bool-cases, length, get_or, set, length-set, slot, slot-lt, slot-zero,
  slot-head_suc, tabulate, tabulate_ext, ring_at, ring_at-set, ℕ, zero, suc, ◌<◌, ◌≡◌, refl, sym,
  ap, ◌∙◌, ◌⊎◌, inl, inr, true, false, none, some, List, ◌∷◌, arith,
}
use mathlib.Core.Path.{ap₂}
use inspectre.Rob.{RobTag}
use inspectre.StoreBuffer.{
  StoreBuffer, StoreBufferEntry, default_entry, capacity, has_tag, find_slot, update_entry,
  resolves, commits, resolve, mark_committed, is_ready,
}
use inspectre.StoreBuffer.Spec
use inspectre.StoreBuffer.Invariant.{IsValid, store_at, stores}

-- The `k`-th of `n` places is the first whose entry has the tag.
pub record IsFirst (g : ℕ → StoreBufferEntry) (t : RobTag) (n k : ℕ) : Type 0 where
  pub below : k < n
  pub here : has_tag t (g k) ≡ true
  pub before : (j : ℕ) → j < k → has_tag t (g j) ≡ false

abbrev pub Untagged : (ℕ → StoreBufferEntry) → RobTag → ℕ → Type 0
Untagged g t n = (j : ℕ) → j < n → has_tag t (g j) ≡ false

module _ (es : List StoreBufferEntry) (t : RobTag) where
  abbrev Search : ℕ → ℕ → Type 0
  Search n h =
      ((find_slot es t n h ≡ none) × Untagged (ring_at default_entry es h) t n)
      ⊎ ((k : ℕ) × (find_slot es t n h ≡ some (slot (length es) h k))
          × IsFirst (ring_at default_entry es h) t n k)

  module _ (h : ℕ) (inside : h < length es) where
    first_at : has_tag t (ring_at default_entry es h 0) ≡ has_tag t (get_or es h default_entry)
    first_at = ap (λ m. has_tag t (get_or es m default_entry)) (slot-zero (length es) h inside)

    next_at :
        (k : ℕ)
        → has_tag t (ring_at default_entry es h (suc k))
          ≡ has_tag t (ring_at default_entry es (slot (length es) h 1) k)
    next_at k =
        ap (λ m. has_tag t (get_or es m default_entry)) (sym (slot-head_suc (length es) h k))

    later :
        (n : ℕ)
        → has_tag t (get_or es h default_entry) ≡ false
        → Search n (slot (length es) h 1)
        → Search (suc n) h
    later n e (inl (q, u)) = inl (rw e q, passed)
      where
        passed : Untagged (ring_at default_entry es h) t (suc n)
        passed zero p = first_at ∙ e
        passed (suc j) p = next_at j ∙ u j (omega arith)
    later n e (inr (k, q, f)) = inr (
      suc k,
      rw e (q ∙ ap some (slot-head_suc (length es) h k)),
      record { below = omega (arith, f.below); here = next_at k ∙ f.here; before = passed },
    )
      where
        passed : Untagged (ring_at default_entry es h) t (suc k)
        passed zero p = first_at ∙ e
        passed (suc j) p = next_at j ∙ f.before j (omega arith)

  pub find_slot-cases : (n h : ℕ) → h < length es → Search n h
  find_slot-cases zero h inside = inl (refl, λ j p. absurd (omega arith))
  find_slot-cases (suc n) h inside = elim (Bool-cases (has_tag t (get_or es h default_entry))) [
    | inl e ↦ inr (
      0,
      rw e (ap some (sym (slot-zero (length es) h inside))),
      record {
        below = omega arith;
        here = first_at h inside ∙ e;
        before = λ j p. absurd (omega arith);
      },
    )
    | inr e ↦
        later h inside n e
          (find_slot-cases n (slot (length es) h 1) (slot-lt (length es) h 1 (omega arith)))
  ]

-- The specification's change, place by place.
module _ (t : RobTag) (f : StoreBufferEntry → StoreBufferEntry) where
  update_first-none :
      (g : ℕ → StoreBufferEntry) (n : ℕ)
      → Untagged g t n
      → Spec.update_first t f (tabulate g n) ≡ tabulate g n
  update_first-none g zero u = refl
  update_first-none g (suc n) u =
      rw (u 0 (omega arith))
        (ap (◌∷◌ (g 0)) (update_first-none (λ j. g (suc j)) n (λ j p. u (suc j) (omega arith))))

  update_first-some :
      (g : ℕ → StoreBufferEntry) (n k : ℕ)
      → IsFirst g t n k
      → Spec.update_first t f (tabulate g n) ≡ tabulate (λ j. if k == j then f (g k) else g j) n
  update_first-some g zero k i = absurd (omega (arith, i.below))
  update_first-some g (suc n) zero i =
      rw i.here (ap (◌∷◌ (f (g 0))) (tabulate_ext _ _ n (λ j p. rest j)))
    where
      rest : (j : ℕ) → g (suc j) ≡ (if 0 == suc j then f (g 0) else g (suc j))
      rest j = ground arith
  update_first-some g (suc n) (suc k) i = rw (i.before 0 (omega arith)) (
      ap₂ ◌∷◌ first (
        update_first-some (λ j. g (suc j)) n k
          (record {
            below = omega (arith, i.below);
            here = i.here;
            before = λ j p. i.before (suc j) (omega arith);
          })
        ∙ tabulate_ext _ _ n (λ j p. step j)))
    where
      first : g 0 ≡ (if suc k == 0 then f (g (suc k)) else g 0)
      first = ground arith

      step :
          (j : ℕ)
          → (if k == j then f (g (suc k)) else g (suc j))
            ≡ (if suc k == suc j then f (g (suc k)) else g (suc j))
      step j = ground arith

module _ (b : StoreBuffer) (t : RobTag) (f : StoreBufferEntry → StoreBufferEntry)
    (v : IsValid b) where
  abbrev pub written : ℕ → StoreBuffer
  written k = record b { entries = set b.entries (slot (capacity b) b.head k) (f (store_at b k)) }

  store_at-written :
      (i k : ℕ)
      → i < b.count
      → k < b.count
      → store_at (written i) k ≡ (if i == k then f (store_at b i) else store_at b k)
  store_at-written i k hi hk =
      ring_at-set default_entry b.entries b.head k i (f (store_at b i)) v.head_in
        (omega (arith, v.count_le)) (omega (arith, v.count_le))

  pub written-IsValid :
      ((e : StoreBufferEntry) → (f e).valid ≡ e.valid) → (k : ℕ) → k < b.count → IsValid (written k)
  written-IsValid keeps k below = record {
    head_in = rw length-set v.head_in;
    count_le = rw length-set v.count_le;
    tail_at = rw length-set v.tail_at;
    live = λ j p.
        ground
          (arith, store_at-written k j below p, keeps (store_at b k), v.live k below, v.live j p);
  }

  pub stores-written :
      (k : ℕ)
      → IsFirst (store_at b) t b.count k
      → stores (written k) ≡ Spec.update_first t f (stores b)
  stores-written k i =
      tabulate_ext _ _ b.count (λ j p. store_at-written k j i.below p)
      ∙ sym (update_first-some t f (store_at b) b.count k i)

  -- A change that keeps a store live keeps the buffer valid, and is the specification's.
  pub update_entry_refines :
      ((e : StoreBufferEntry) → (f e).valid ≡ e.valid)
      → IsValid (update_entry b t f)
        × (stores (update_entry b t f) ≡ Spec.update_first t f (stores b))
  update_entry_refines keeps = elim (find_slot-cases b.entries t b.count b.head v.head_in) [
    | inl (q, u) ↦ rw q (v, sym (update_first-none t f (store_at b) b.count u))
    | inr (k, q, i) ↦ rw q (written-IsValid keeps k i.below, stores-written k i)
  ]

-- Resolving a store and committing it keep a valid buffer valid. Each changes the oldest store
-- with the tag, as its body says, and no other; a commit leaves a store alone that is not ready.
pub store_marks_refine :
    (b : StoreBuffer) (t : RobTag) (vaddr paddr value : ℕ)
    → IsValid b
    → (IsValid (resolve b t vaddr paddr value)
        × (stores (resolve b t vaddr paddr value)
            ≡ Spec.update_first t (resolves vaddr paddr value) (stores b)))
      × (IsValid (mark_committed b t)
          × (stores (mark_committed b t) ≡ Spec.update_first t commits (stores b)))
unfolding resolve mark_committed
store_marks_refine b t vaddr paddr value v = (
  update_entry_refines b t (resolves vaddr paddr value) v (λ e. refl),
  update_entry_refines b t commits v
      (λ e. elim (Bool-cases (is_ready e.state)) [ inl q ↦ rw q refl | inr q ↦ rw q refl ]),
)
