-- ===== src/StoreBuffer/Invariant.antt =====
-- The representation invariant of the store buffer, and what it holds, oldest first.
use inspectre.Base.{
  ℕ, ◌≡◌, ◌≤◌, ◌<◌, true, false, List, slot, ring_at, window, ◌==◌, ==_false, arith,
}
use inspectre.StoreBuffer.{StoreBuffer, StoreBufferEntry, default_entry, capacity}

abbrev pub store_at : StoreBuffer → ℕ → StoreBufferEntry
store_at b k = ring_at default_entry b.entries b.head k

-- The abstract view: the pending stores in program order.
abbrev pub stores : StoreBuffer → List StoreBufferEntry
stores b = window default_entry b.entries b.head b.count

pub record IsValid (b : StoreBuffer) : Type 0 where
  pub head_in : b.head < capacity b
  pub count_le : b.count ≤ capacity b
  pub tail_at : b.tail ≡ slot (capacity b) b.head b.count
  pub live : (k : ℕ) → k < b.count → (store_at b k).valid ≡ true

pub room-lt : {b : StoreBuffer} → IsValid b → (b.count == capacity b) ≡ false → b.count < capacity b
room-lt {b} v room = omega (arith, v.count_le, ==_false b.count (capacity b) room)
