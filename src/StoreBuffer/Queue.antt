-- ===== src/StoreBuffer/Queue.antt =====
-- The store buffer as a queue: allocation, changes by tag, draining and the flush of everything.
use inspectre.Base.{
  [], ◌==◌, if◌then◌else◌, Bool-cases, zero-cases, get_or, length-set, length-replicate, length-map,
  slot, slot-lt, slot-zero, slot-suc, slot-head_suc, tabulate, length-tabulate, tabulate_ext,
  ring_at-set, window-push, ring_at-pop, ℕ, suc, ◌-◌, ◌<◌, ◌≡◌, refl, sym, ap, ◌∙◌, inl, inr, true,
  false, Option, none, some, ◌∷◌, ◌++◌, arith,
}
use native.Mathlib.Numerals.{add-one}
use inspectre.Rob.{RobTag}
use inspectre.Signals.{MemWidth}
use inspectre.StoreBuffer.{
  StoreBuffer, StoreBufferEntry, default_entry, new, capacity, is_full, fresh_entry, allocated,
  allocate, is_committed, invalidate, head_entry, drained, drain_one, flush_all,
}
use inspectre.StoreBuffer.Spec
use inspectre.StoreBuffer.Invariant.{IsValid, store_at, stores, room-lt}

-- A store buffer with at least one slot starts valid and empty.
pub new-IsValid : (n : ℕ) → 0 < n → IsValid (new n)
unfolding new
new-IsValid n h = record {
  head_in = rw length-replicate h;
  count_le = omega arith;
  tail_at = sym (slot-zero _ 0 (rw length-replicate h));
  live = λ k p. absurd (omega arith);
}

module _ (b : StoreBuffer) (v : IsValid b) where
  module _ (e : StoreBufferEntry) (room : b.count < capacity b) where
    store_at-allocated :
        (k : ℕ)
        → k < capacity b
        → store_at (allocated b e) k ≡ (if b.count == k then e else store_at b k)
    store_at-allocated k h =
        rw v.tail_at (ring_at-set default_entry b.entries b.head k b.count e v.head_in room h)

    stores-allocated : stores (allocated b e) ≡ stores b ++ (e ∷ [])
    stores-allocated =
        rw (v.tail_at, add-one)
          (window-push default_entry b.entries b.head b.count e v.head_in room)

    allocated-IsValid : e.valid ≡ true → IsValid (allocated b e)
    allocated-IsValid ok = record {
      head_in = rw length-set v.head_in;
      count_le = rw length-set (omega arith);
      tail_at = rw (length-set, v.tail_at, add-one b.count) (slot-suc (capacity b) b.head b.count);
      live = λ k p. ground (arith, store_at-allocated k (omega arith), v.live k);
    }

  module _ (t : RobTag) (width : MemWidth) where
    allocate-IsValid : IsValid (allocate b t width).0
    unfolding allocate is_full
    allocate-IsValid = elim (Bool-cases (b.count == capacity b)) [
      | inl full ↦ rw full v
      | inr room ↦ rw room (allocated-IsValid (fresh_entry t width) (room-lt v room) refl)
    ]

    -- Allocation keeps a valid buffer valid. It refuses exactly when the buffer is full, and
    -- otherwise appends a pending store without an address.
    pub allocate_store_refines :
        IsValid (allocate b t width).0
        × ((stores (allocate b t width).0, (allocate b t width).1)
            ≡ Spec.push (capacity b) (stores b) (fresh_entry t width))
    unfolding allocate is_full
    allocate_store_refines = (
      allocate-IsValid,
      rw (length-tabulate (store_at b) b.count) (elim (Bool-cases (b.count == capacity b)) [
        | inl full ↦ rw full refl
        | inr room ↦
            rw room (λ i. (stores-allocated (fresh_entry t width) (room-lt v room) i, true))
      ]),
    )

  module _ (n : ℕ) (e : b.count ≡ suc n) where
    store_at-zero : store_at b 0 ≡ head_entry b
    store_at-zero =
        ap (λ j. get_or b.entries j default_entry) (slot-zero (capacity b) b.head v.head_in)

    store_at-drained : (k : ℕ) → k < n → store_at (drained b) k ≡ store_at b (suc k)
    store_at-drained k h =
        ring_at-pop default_entry b.entries b.head k _ v.head_in (omega (arith, v.count_le))

    one_less : b.count - 1 ≡ n
    one_less = omega arith

    stores-drained : stores b ≡ head_entry b ∷ stores (drained b)
    stores-drained =
        ap (tabulate (store_at b)) e
        ∙ (λ i. store_at-zero i ∷ behind i)
        ∙ ap (λ m. head_entry b ∷ tabulate (store_at (drained b)) m) (sym one_less)
      where
        behind : tabulate (λ k. store_at b (suc k)) n ≡ tabulate (store_at (drained b)) n
        behind = tabulate_ext _ _ n (λ k h. sym (store_at-drained k h))

    head-valid : (head_entry b).valid ≡ true
    head-valid = ap (λ (x : StoreBufferEntry). x.valid) (sym store_at-zero) ∙ v.live 0 (omega arith)

    slot-drained :
        (k : ℕ) → slot (capacity (drained b)) (drained b).head k ≡ slot (capacity b) b.head (suc k)
    slot-drained k = rw length-set (slot-head_suc (capacity b) b.head k)

    drained-IsValid : IsValid (drained b)
    drained-IsValid = record {
      head_in = rw length-set (slot-lt (capacity b) b.head 1 (omega (arith, v.head_in)));
      count_le = rw length-set (omega (arith, v.count_le));
      tail_at =
          v.tail_at
          ∙ ap (slot (capacity b) b.head) (e ∙ ap suc (sym one_less))
          ∙ sym (slot-drained (b.count - 1));
      live = λ k p. rw (store_at-drained k (omega arith)) (v.live (suc k) (omega arith));
    }

    drain_one-waiting : is_committed (head_entry b).state ≡ false → drain_one b ≡ (b, none)
    unfolding drain_one
    drain_one-waiting w = rw (w, head-valid) (ground arith)

    drain_one-done :
        is_committed (head_entry b).state ≡ true → drain_one b ≡ (drained b, some (head_entry b))
    unfolding drain_one
    drain_one-done d = rw (d, head-valid) (ground arith)

  drain_one-empty : b.count ≡ 0 → drain_one b ≡ (b, none)
  unfolding drain_one
  drain_one-empty e = ground arith

  -- Draining keeps a valid buffer valid: the oldest store leaves, and no other, exactly when it
  -- is committed.
  pub drain_one_refines :
      IsValid (drain_one b).0 × ((stores (drain_one b).0, (drain_one b).1) ≡ Spec.drain (stores b))
  drain_one_refines = elim (zero-cases b.count) [
    | inl none_left ↦ (
      rw (drain_one-empty none_left) v,
      rw (drain_one-empty none_left) (
          ap (λ n. (tabulate (store_at b) n, none)) none_left
          ∙ sym (ap (λ n. Spec.drain (tabulate (store_at b) n)) none_left)),
    )
    | inr (n, e) ↦ elim (Bool-cases (is_committed (head_entry b).state)) [
      | inl done ↦ (
        rw (drain_one-done n e done) (drained-IsValid n e),
        rw (drain_one-done n e done) (sym (ap Spec.drain (stores-drained n e) ∙ rw done)),
      )
      | inr waiting ↦ (
        rw (drain_one-waiting n e waiting) v,
        ap pending (drain_one-waiting n e waiting)
            ∙ ap (λ q. (q, none)) (stores-drained n e)
            ∙ sym (ap Spec.drain (stores-drained n e) ∙ rw waiting),
      )
    ]
  ]
    where
      pending : StoreBuffer × Option StoreBufferEntry → Spec.Stores × Option StoreBufferEntry
      pending (s, out) = (stores s, out)

  -- A flush of everything leaves a valid empty buffer of the same capacity.
  pub flush_all_lem :
      IsValid (flush_all b) × (stores (flush_all b) ≡ []) × (capacity (flush_all b) ≡ capacity b)
  unfolding flush_all
  flush_all_lem = (empty, refl, length-map invalidate b.entries)
    where
      empty : IsValid (flush_all b)
      empty = record {
        head_in = rw length-map (omega (arith, v.head_in));
        count_le = omega arith;
        tail_at = sym (slot-zero _ 0 (rw length-map (omega (arith, v.head_in))));
        live = λ k p. absurd (omega arith);
      }
