-- ===== src/Rob/Flush.antt =====
-- `Rob::flush_after` (crates/hardware/src/core/pipeline/rob.rs): the search for the entry to keep,
-- the loop that invalidates what follows it, and the loop that counts what is left. The two
-- unbounded loops take fuel; `none` means that it ran out.
pub mod Find
pub mod Remove
pub mod Refine
pub mod Keep
use inspectre.Base.{
  ℕ, zero, suc, ◌+◌, Option, none, some, List, length, get_or, set, slot, ◌==◌, if◌then◌else◌,
}
use inspectre.Rob.{Rob, RobTag, RobEntry, TagIndex, default_entry, invalidate, remove_tag, capacity}

-- `for _ in 0..count`: the slot at which the tag stands, searched from `idx` on.
pub find_slot : List RobEntry → RobTag → ℕ → ℕ → Option ℕ
find_slot es tag zero idx = none
find_slot es tag (suc rounds) idx =
    let rest = find_slot es tag rounds (slot (length es) idx 1) in
    if (get_or es idx default_entry).tag == tag then some idx else rest

-- `while remove_idx != self.tail`.
pub remove_until : ℕ → ℕ → ℕ → List RobEntry → TagIndex → Option (List RobEntry × TagIndex)
remove_until zero tail idx es index = none
remove_until (suc fuel) tail idx es index =
    let entry = get_or es idx default_entry in
    let rest =
      remove_until fuel tail (slot (length es) idx 1) (set es idx (invalidate entry))
        (remove_tag entry.tag index) in
    if idx == tail then some (es, index) else rest

-- `loop { if i == self.tail { break; } … }`.
pub count_until : ℕ → ℕ → ℕ → List RobEntry → ℕ → Option ℕ
count_until zero tail i es acc = none
count_until (suc fuel) tail i es acc =
    let rest =
      count_until fuel tail (slot (length es) i 1) es
        (if (get_or es i default_entry).valid then acc + 1 else acc) in
    if i == tail then some acc else rest

infixl 5 ◌>>=◌
abbrev pub ◌>>=◌ {ℓ κ} : {A : Type ℓ} {B : Type κ} → Option A → (A → Option B) → Option B
none >>= f = none
some a >>= f = f a

-- What is done once the entry to keep is found in slot `idx`.
pub flush_from : Rob → ℕ → Option Rob
flush_from r idx = do
  let keep_idx = slot (capacity r) idx 1
  (es, index) ← remove_until (capacity r) r.tail keep_idx r.entries r.tag_index
  n ← count_until (capacity r) keep_idx r.head es 0
  some (record r { entries = es; tag_index = index; tail = keep_idx; count = n })

pub flush_after : Rob → RobTag → Option Rob
unfolding find_slot flush_from
flush_after r tag = if r.count == 0 then some r else elim (find_slot r.entries tag r.count r.head) [
  | none ↦ some r
  | some idx ↦ flush_from r idx
]
