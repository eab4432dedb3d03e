-- ===== src/StoreBuffer/Spec.antt =====
-- What the store buffer promises: a bounded queue of stores in program order, oldest first.
use inspectre.Base.{
  [], ◌==◌, if◌then◌else◌, length, ℕ, Bool, true, false, Option, none, some, List, ◌∷◌, ◌++◌,
}
use inspectre.Rob.{RobTag}
use inspectre.Signals.{MemWidth}
use inspectre.StoreBuffer.{
  StoreBufferEntry, ForwardResult, has_tag, forward_entry, or_else, is_committed, marks_committed,
}

abbrev pub Stores : Type 0
Stores = List StoreBufferEntry

abbrev pub push : ℕ → Stores → StoreBufferEntry → Stores × Bool
push capacity q e = if length q == capacity then (q, false) else (q ++ (e ∷ []), true)

-- A change of the oldest store with the tag.
abbrev pub update_first : RobTag → (StoreBufferEntry → StoreBufferEntry) → Stores → Stores
update_first t f [] = []
update_first t f (e ∷ q) =
    let rest = update_first t f q in if has_tag t e then f e ∷ q else e ∷ rest

-- The youngest store that overlaps the load answers it.
abbrev pub forward : ℕ → MemWidth → Stores → ForwardResult
forward paddr width [] = ForwardResult.miss
forward paddr width (e ∷ q) = or_else (forward paddr width q) (forward_entry e paddr width)

-- The oldest store leaves once it is committed.
abbrev pub drain : Stores → Stores × Option StoreBufferEntry
drain [] = ([], none)
drain (e ∷ q) = if is_committed e.state then (q, some e) else (e ∷ q, none)

abbrev pub keep : (StoreBufferEntry → Bool) → Stores → Stores
keep p [] = []
keep p (e ∷ q) = let rest = keep p q in if p e then e ∷ rest else rest

-- A cancelled store leaves when it is the youngest, and otherwise stays, committed.
abbrev pub cancel_at : StoreBufferEntry → Stores → Stores
cancel_at e [] = []
cancel_at e (f ∷ q) = marks_committed e ∷ f ∷ q

abbrev pub cancel : RobTag → Stores → Stores
cancel t [] = []
cancel t (e ∷ q) = let rest = cancel t q in if has_tag t e then cancel_at e q else e ∷ rest
