-- ===== src/StoreBuffer.antt =====
-- core/pipeline/store_buffer.rs: the pending stores of a core, as a circular buffer, with
-- store-to-load forwarding.
--
-- Addresses and data are u64. Sums of an address and a size wrap at 2 ^ 64, as they do in a build
-- without overflow checks.
pub mod Spec
pub mod Invariant
pub mod Queue
pub mod Update
pub mod Forward
pub mod Memory
pub mod Compact
pub mod Cancel
mod Tests
use inspectre.Base.{
  ltb, leb, ◌==◌, if◌then◌else◌, length, get_or, set, replicate, slot, prev_slot, ℕ, zero, suc, ◌+◌,
  ◌-◌, ◌*◌, ◌/◌, ◌%◌, ◌^◌, bit_and, Bool, true, false, not, ◌&&◌, ◌||◌, Option, none, some, List,
  map,
}
use inspectre.Signals.{MemWidth}
use inspectre.Rob.{RobTag}

pub data ForwardResult : Type 0 where
  hit : ℕ → ForwardResult
  miss : ForwardResult
  stall : ForwardResult

pub data StoreState : Type 0 where
  pending : StoreState
  ready : StoreState
  committed : StoreState

pub record StoreBufferEntry : Type 0 where
  pub rob_tag : RobTag
  pub vaddr : ℕ
  pub paddr : Option ℕ
  pub data_value : ℕ
  pub width : MemWidth
  pub state : StoreState
  pub valid : Bool

unfoldable pub default_entry : StoreBufferEntry
default_entry = record {
  rob_tag = 0;
  vaddr = 0;
  paddr = none;
  data_value = 0;
  width = MemWidth.nop;
  state = StoreState.pending;
  valid = false;
}

pub record StoreBuffer : Type 0 where
  pub entries : List StoreBufferEntry
  pub head : ℕ
  pub tail : ℕ
  pub count : ℕ

unfoldable pub new : ℕ → StoreBuffer
new capacity = record { entries = replicate capacity default_entry; head = 0; tail = 0; count = 0 }

abbrev pub capacity : StoreBuffer → ℕ
capacity b = length b.entries

unfoldable pub is_full : StoreBuffer → Bool
is_full b = b.count == capacity b

abbrev pub is_committed : StoreState → Bool
is_committed StoreState.committed = true
is_committed _ = false

abbrev pub is_ready : StoreState → Bool
is_ready StoreState.ready = true
is_ready _ = false

abbrev pub width_to_bytes : MemWidth → ℕ
width_to_bytes MemWidth.byte = 1
width_to_bytes MemWidth.half = 2
width_to_bytes MemWidth.word = 4
width_to_bytes MemWidth.double = 8
width_to_bytes MemWidth.nop = 0

-- What `allocate` stores.
abbrev pub fresh_entry : RobTag → MemWidth → StoreBufferEntry
fresh_entry rob_tag width = record {
  rob_tag = rob_tag;
  vaddr = 0;
  paddr = none;
  data_value = 0;
  width = width;
  state = StoreState.pending;
  valid = true;
}

abbrev pub allocated : StoreBuffer → StoreBufferEntry → StoreBuffer
allocated b e = record b {
  entries = set b.entries b.tail e;
  tail = slot (capacity b) b.tail 1;
  count = b.count + 1;
}

pub allocate : StoreBuffer → RobTag → MemWidth → StoreBuffer × Bool
unfolding is_full
allocate b rob_tag width =
    if is_full b then (b, false) else (allocated b (fresh_entry rob_tag width), true)

abbrev pub has_tag : RobTag → StoreBufferEntry → Bool
has_tag t e = e.valid && e.rob_tag == t

-- The loop of `find_by_tag_mut`, with the rounds that are left: the slot of the oldest entry
-- with the tag.
abbrev pub find_slot : List StoreBufferEntry → RobTag → ℕ → ℕ → Option ℕ
find_slot es t zero idx = none
find_slot es t (suc n) idx =
    let rest = find_slot es t n (slot (length es) idx 1) in
    if has_tag t (get_or es idx default_entry) then some idx else rest

abbrev pub write_slot : StoreBuffer → (StoreBufferEntry → StoreBufferEntry) → Option ℕ → StoreBuffer
write_slot b f none = b
write_slot b f (some idx) = record b {
  entries = set b.entries idx (f (get_or b.entries idx default_entry));
}

-- A change of the entry that `find_by_tag_mut` finds.
abbrev pub update_entry : StoreBuffer → RobTag → (StoreBufferEntry → StoreBufferEntry) → StoreBuffer
update_entry b t f = write_slot b f (find_slot b.entries t b.count b.head)

abbrev pub resolves : ℕ → ℕ → ℕ → StoreBufferEntry → StoreBufferEntry
resolves vaddr paddr data_value e = record e {
  vaddr = vaddr;
  paddr = some paddr;
  data_value = data_value;
  state = StoreState.ready;
}

abbrev pub commits : StoreBufferEntry → StoreBufferEntry
commits e = if is_ready e.state then record e { state = StoreState.committed } else e

unfoldable pub resolve : StoreBuffer → RobTag → ℕ → ℕ → ℕ → StoreBuffer
resolve b t vaddr paddr data_value = update_entry b t (resolves vaddr paddr data_value)

unfoldable pub mark_committed : StoreBuffer → RobTag → StoreBuffer
mark_committed b t = update_entry b t commits

-- What a store at `store_paddr` says of a load; `miss` goes on to the next older store.
abbrev pub overlap : ℕ → MemWidth → ℕ → MemWidth → ℕ → ForwardResult
overlap store_paddr store_width data_value width paddr =
    let load_size = width_to_bytes width in
    let load_end = (paddr + load_size) % 2 ^ 64 in
    let store_end = (store_paddr + width_to_bytes store_width) % 2 ^ 64 in
    if ltb paddr store_end && ltb store_paddr load_end
    then (if leb store_paddr paddr && leb load_end store_end
        then (let shifted = data_value / 2 ^ ((paddr - store_paddr) * 8) in
            let mask = if leb 8 load_size then 2 ^ 64 - 1 else 2 ^ (load_size * 8) - 1 in
            ForwardResult.hit (bit_and shifted mask))
        else ForwardResult.stall)
    else ForwardResult.miss

abbrev pub resolved_at : Option ℕ → StoreBufferEntry → ℕ → MemWidth → ForwardResult
resolved_at none e paddr width = ForwardResult.miss
resolved_at (some store_paddr) e paddr width = overlap store_paddr e.width e.data_value width paddr

pub forward_entry : StoreBufferEntry → ℕ → MemWidth → ForwardResult
forward_entry e paddr width =
    if e.valid then resolved_at e.paddr e paddr width else ForwardResult.miss

-- The first of two that returns.
abbrev pub or_else : ForwardResult → ForwardResult → ForwardResult
or_else ForwardResult.miss r = r
or_else (ForwardResult.hit v) r = ForwardResult.hit v
or_else ForwardResult.stall r = ForwardResult.stall

-- The loop of `forward_load`, with the rounds that are left.
abbrev pub scan_stores : List StoreBufferEntry → ℕ → MemWidth → ℕ → ℕ → ForwardResult
scan_stores es paddr width zero idx = ForwardResult.miss
scan_stores es paddr width (suc n) idx =
    or_else (forward_entry (get_or es idx default_entry) paddr width)
      (scan_stores es paddr width n (prev_slot (length es) idx))

unfoldable pub forward_load : StoreBuffer → ℕ → MemWidth → ForwardResult
forward_load b paddr width =
    scan_stores b.entries paddr width b.count (prev_slot (capacity b) b.tail)

abbrev pub invalidate : StoreBufferEntry → StoreBufferEntry
invalidate e = record e { valid = false }

abbrev pub head_entry : StoreBuffer → StoreBufferEntry
head_entry b = get_or b.entries b.head default_entry

abbrev pub drained : StoreBuffer → StoreBuffer
drained b = record b {
  entries = set b.entries b.head (invalidate (head_entry b));
  head = slot (capacity b) b.head 1;
  count = b.count - 1;
}

pub drain_one : StoreBuffer → StoreBuffer × Option StoreBufferEntry
drain_one b =
    if b.count == 0
    then (b, none)
    else (if not (head_entry b).valid || not (is_committed (head_entry b).state)
        then (b, none)
        else (drained b, some (head_entry b)))

-- The state of the compaction loops: the entries, `new_tail` and `new_count`.
pub record Compaction : Type 0 where
  pub slots : List StoreBufferEntry
  pub new_tail : ℕ
  pub new_count : ℕ

-- One round of the loop at slot `idx`. `keep` is the test on the entry.
abbrev pub compact_step : (StoreBufferEntry → Bool) → Compaction → ℕ → Compaction
compact_step keep c idx =
    let entry = get_or c.slots idx default_entry in
    if entry.valid && keep entry
    then (record {
      slots =
          if idx == c.new_tail
          then c.slots
          else set (set c.slots c.new_tail entry) idx (invalidate entry);
      new_tail = slot (length c.slots) c.new_tail 1;
      new_count = c.new_count + 1;
    })
    else record c { slots = set c.slots idx (invalidate entry) }

-- The loop, with the rounds that are left.
abbrev pub compact : (StoreBufferEntry → Bool) → ℕ → Compaction → ℕ → Compaction
compact keep zero c idx = c
compact keep (suc n) c idx = compact keep n (compact_step keep c idx) (slot (length c.slots) idx 1)

abbrev pub start : StoreBuffer → Compaction
start b = record { slots = b.entries; new_tail = b.head; new_count = 0 }

abbrev pub compacted : StoreBuffer → Compaction → StoreBuffer
compacted b c = record b { entries = c.slots; tail = c.new_tail; count = c.new_count }

abbrev pub keep_only : StoreBuffer → (StoreBufferEntry → Bool) → StoreBuffer
keep_only b keep = if b.count == 0 then b else compacted b (compact keep b.count (start b) b.head)

unfoldable pub flush_speculative : StoreBuffer → StoreBuffer
flush_speculative b = keep_only b (λ e. is_committed e.state)

unfoldable pub flush_after : StoreBuffer → RobTag → StoreBuffer
flush_after b keep_tag = keep_only b (λ e. leb e.rob_tag keep_tag)

unfoldable pub flush_all : StoreBuffer → StoreBuffer
flush_all b = record { entries = map invalidate b.entries; head = 0; tail = 0; count = 0 }

abbrev pub marks_committed : StoreBufferEntry → StoreBufferEntry
marks_committed e = record e { state = StoreState.committed }

abbrev pub retract : StoreBuffer → ℕ → StoreBuffer
retract b idx = record b {
  entries = set b.entries idx (invalidate (get_or b.entries idx default_entry));
  tail = prev_slot (capacity b) b.tail;
  count = b.count - 1;
}

abbrev pub cancel_slot : StoreBuffer → Option ℕ → StoreBuffer
cancel_slot b none = b
cancel_slot b (some idx) =
    if idx == prev_slot (capacity b) b.tail
    then retract b idx
    else write_slot b marks_committed (some idx)

-- The loop of `cancel` looks for the same entry as that of `find_by_tag_mut`.
unfoldable pub cancel : StoreBuffer → RobTag → StoreBuffer
cancel b t = cancel_slot b (find_slot b.entries t b.count b.head)
