-- ===== src/Rob/Allocate.antt =====
-- The empty reorder buffer, and the allocation of an entry.
use inspectre.Base.{
  ℕ, ◌+◌, ◌≡◌, refl, sym, ◌<◌, inl, inr, Bool, true, Option, none, some, [], ◌∷◌, ◌++◌, length-set,
  length-replicate, slot, slot-zero, slot-suc, ring_at-set, window-push, ◌==◌, if◌then◌else◌,
  Bool-cases, arith, length-tabulate,
}
use native.Mathlib.Numerals.{add-one}
use inspectre.Signals.{ControlSignals}
use inspectre.Rob.{
  Rob, RobTag, RobEntry, default_entry, capacity, new, is_full, fresh_entry, allocate, allocated,
}
use inspectre.Rob.Spec
use inspectre.Rob.Invariant.{IsValid, room-lt, entry_at, contents}

-- A reorder buffer with at least one slot starts valid and empty.
pub new-IsValid : (n : ℕ) → 0 < n → IsValid (new n)
unfolding new
new-IsValid n h = record {
  head_in = rw length-replicate h;
  count_le = omega arith;
  tail_at = sym (slot-zero _ 0 (rw length-replicate h));
  live = λ k p. absurd (omega arith);
  indexed = λ k p. absurd (omega arith);
  index_live = λ t j e. absurd (none_ne e);
}
  where
    none_ne : {j : ℕ} → none ≡ some j → ⊥
    none_ne e = cc

module _ (r : Rob) (e : RobEntry) (v : IsValid r) (room : r.count < capacity r) where
  entry_at-allocated :
      (k : ℕ)
      → k < capacity r
      → entry_at (allocated r e) k ≡ (if r.count == k then e else entry_at r k)
  entry_at-allocated k h =
      rw v.tail_at (ring_at-set default_entry r.entries r.head k r.count e v.head_in room h)

  -- The new entry goes behind the others.
  pub contents-allocated : contents (allocated r e) ≡ contents r ++ (e ∷ [])
  contents-allocated =
      rw (v.tail_at, add-one) (window-push default_entry r.entries r.head r.count e v.head_in room)

  -- Storing a valid entry under a tag that is not in flight keeps the invariant.
  pub allocated-IsValid : e.valid ≡ true → r.tag_index e.tag ≡ none → IsValid (allocated r e)
  allocated-IsValid ok fresh = record {
    head_in = rw length-set v.head_in;
    count_le = rw length-set (omega arith);
    tail_at = rw (length-set, v.tail_at, add-one r.count) (slot-suc (capacity r) r.head r.count);
    live = λ k p. ground (arith, entry_at-allocated k (omega arith), v.live k);
    indexed = λ k p. ground (
      arith,
      entry_at-allocated k (omega arith),
      length-set r.entries r.tail e,
      v.indexed k,
      v.tail_at,
    );
    index_live = λ t j q. found t j q;
  }
    where
      found :
          (t : RobTag) (j : ℕ)
          → (allocated r e).tag_index t ≡ some j
          → (k : ℕ) × (k < r.count + 1)
            × (slot (capacity (allocated r e)) r.head k ≡ j)
            × ((entry_at (allocated r e) k).tag ≡ t)
      found t j q = elim (Bool-cases (t == e.tag)) [
        | inl same ↦ (
          r.count,
          omega arith,
          ground (arith, length-set r.entries r.tail e, v.tail_at),
          ground (arith, entry_at-allocated r.count room),
        )
        | inr differ ↦ keep (v.index_live t j (ground arith))
      ]
        where
          keep :
              (k : ℕ) × (k < r.count) × (slot (capacity r) r.head k ≡ j) × ((entry_at r k).tag ≡ t)
              → (k : ℕ) × (k < r.count + 1)
                × (slot (capacity (allocated r e)) r.head k ≡ j)
                × ((entry_at (allocated r e) k).tag ≡ t)
          keep (k, below, here, tagged) = (
            k,
            omega arith,
            ground (arith, length-set r.entries r.tail e),
            ground (arith, entry_at-allocated k (omega arith)),
          )

module _ (r : Rob) (pc inst inst_size rd : ℕ) (rd_fp : Bool) (ctrl : ControlSignals) where
  abbrev after : Rob × Option RobTag
  after = allocate r pc inst inst_size rd rd_fp ctrl

  abbrev entry : RobEntry
  entry = fresh_entry r.next_tag pc inst inst_size rd rd_fp ctrl

  -- Allocation keeps a valid buffer valid, when the next tag is not in flight.
  pub allocate-IsValid : IsValid r → r.tag_index r.next_tag ≡ none → IsValid after.0
  unfolding allocate is_full
  allocate-IsValid v fresh = elim (Bool-cases (r.count == capacity r)) [
    | inl full ↦ rw full v
    | inr room ↦ rw room (allocated-IsValid r entry v (room-lt v room) refl fresh)
  ]

  -- On a valid buffer `allocate` is the queue's `push` of a fresh entry: it refuses exactly when
  -- the buffer is full, and otherwise appends the entry and returns its tag.
  pub allocate_refines :
      IsValid r → (contents after.0, after.1) ≡ Spec.push (capacity r) (contents r) entry
  unfolding allocate is_full
  allocate_refines v =
      rw (length-tabulate (entry_at r) r.count) (elim (Bool-cases (r.count == capacity r)) [
        | inl full ↦ rw full refl
        | inr room ↦
            rw room (λ i. (contents-allocated r entry v (room-lt v room) i, some r.next_tag))
      ])

pub contents-new : (n : ℕ) → contents (new n) ≡ []
unfolding new
contents-new n = refl
