-- ===== src/Rob/Invariant.antt =====
-- The representation invariant of the reorder buffer, and what it holds, oldest first.
use inspectre.Base.{
  ℕ, ◌≡◌, ◌≤◌, ◌<◌, ap, true, false, some, List, slot, slot-injective, ring_at, window, ◌==◌,
  ==_false, arith,
}
use inspectre.Rob.{Rob, RobTag, RobEntry, default_entry, capacity}

-- The entry `k` places behind the oldest one.
abbrev pub entry_at : Rob → ℕ → RobEntry
entry_at r k = ring_at default_entry r.entries r.head k

-- The abstract view: the in-flight instructions in program order.
abbrev pub contents : Rob → List RobEntry
contents r = window default_entry r.entries r.head r.count

-- Every index is in range, the live slots are those from `head` to `tail`, and the tag index
-- finds exactly the live entries.
pub record IsValid (r : Rob) : Type 0 where
  pub head_in : r.head < capacity r
  pub count_le : r.count ≤ capacity r
  pub tail_at : r.tail ≡ slot (capacity r) r.head r.count
  pub live : (k : ℕ) → k < r.count → (entry_at r k).valid ≡ true
  pub indexed :
      (k : ℕ) → k < r.count → r.tag_index (entry_at r k).tag ≡ some (slot (capacity r) r.head k)
  pub index_live :
      (t : RobTag) (j : ℕ)
      → r.tag_index t ≡ some j
      → (k : ℕ) × (k < r.count) × (slot (capacity r) r.head k ≡ j) × ((entry_at r k).tag ≡ t)

pub room-lt : {r : Rob} → IsValid r → (r.count == capacity r) ≡ false → r.count < capacity r
room-lt {r} v room = omega (arith, v.count_le, ==_false r.count (capacity r) room)

-- No two live entries have the same tag.
pub tags_distinct :
    {r : Rob} (i k : ℕ)
    → IsValid r
    → i < r.count
    → k < r.count
    → (entry_at r i).tag ≡ (entry_at r k).tag
    → i ≡ k
tags_distinct {r} i k v hi hk e =
    slot-injective (capacity r) r.head i k v.head_in (omega (arith, v.count_le))
      (omega (arith, v.count_le)) (cc (v.indexed i hi, ap r.tag_index e, v.indexed k hk))
