-- ===== src/Rob.antt =====
-- crates/hardware/src/core/pipeline/rob.rs: the reorder buffer, a circular buffer of in-flight
-- instructions with an index from tags to slots. An operation on `&mut self` returns the new
-- buffer. A read of `entries` out of range, which panics in the source, gives `default_entry`;
-- `Rob/Invariant.antt` shows that no operation makes one. The hash map is a function from tags.
pub mod Flush
pub mod Search
pub mod Invariant
pub mod Spec
pub mod Allocate
pub mod Update
pub mod Marks
pub mod Commit
mod Tests
use inspectre.Base.{
  ℕ, ◌+◌, ◌-◌, ◌%◌, ◌^◌, Bool, true, false, Option, none, some, List, map, length, get_or, set,
  replicate, slot, ◌==◌, if◌then◌else◌,
}
use inspectre.Signals.{ControlSignals, default_signals}
use inspectre.Trap.{Trap, ExceptionStage}

abbrev pub RobTag : Type 0
RobTag = ℕ

pub data RobState : Type 0 where
  issued completed faulted : RobState

abbrev pub is_issued : RobState → Bool
is_issued RobState.issued = true
is_issued _ = false

abbrev pub is_completed : RobState → Bool
is_completed RobState.completed = true
is_completed _ = false

abbrev pub is_faulted : RobState → Bool
is_faulted RobState.faulted = true
is_faulted _ = false

pub record CsrUpdate : Type 0 where
  pub addr : ℕ
  pub old_val : ℕ
  pub new_val : ℕ

pub record RobEntry : Type 0 where
  pub tag : RobTag
  pub pc : ℕ
  pub inst : ℕ
  pub inst_size : ℕ
  pub rd : ℕ
  pub rd_fp : Bool
  pub result : ℕ
  pub store_data : ℕ
  pub store_addr : ℕ
  pub ctrl : ControlSignals
  pub state : RobState
  pub trap : Option Trap
  pub exception_stage : Option ExceptionStage
  pub csr_update : Option CsrUpdate
  pub valid : Bool

unfoldable pub default_entry : RobEntry
default_entry = record {
  tag = 0;
  pc = 0;
  inst = 0;
  inst_size = 0;
  rd = 0;
  rd_fp = false;
  result = 0;
  store_data = 0;
  store_addr = 0;
  ctrl = default_signals;
  state = RobState.issued;
  trap = none;
  exception_stage = none;
  csr_update = none;
  valid = false;
}

-- `HashMap<RobTag, usize>`.
abbrev pub TagIndex : Type 0
TagIndex = RobTag → Option ℕ

abbrev pub insert_tag : RobTag → ℕ → TagIndex → TagIndex
insert_tag t i m u = if u == t then some i else m u

abbrev pub remove_tag : RobTag → TagIndex → TagIndex
remove_tag t m u = if u == t then none else m u

pub record Rob : Type 0 where
  pub entries : List RobEntry
  pub head : ℕ
  pub tail : ℕ
  pub count : ℕ
  pub next_tag : ℕ
  pub tag_index : TagIndex

unfoldable pub new : ℕ → Rob
new capacity = record {
  entries = replicate capacity default_entry;
  head = 0;
  tail = 0;
  count = 0;
  next_tag = 1;
  tag_index = λ t. none;
}

abbrev pub capacity : Rob → ℕ
capacity r = length r.entries

pub is_empty : Rob → Bool
is_empty r = r.count == 0

pub is_full : Rob → Bool
is_full r = r.count == capacity r

-- The subtraction does not underflow, since `count` is at most the capacity.
unfoldable pub free_slots : Rob → ℕ
free_slots r = capacity r - r.count

-- What `allocate` stores.
abbrev pub fresh_entry : RobTag → ℕ → ℕ → ℕ → ℕ → Bool → ControlSignals → RobEntry
fresh_entry tag pc inst inst_size rd rd_fp ctrl = record default_entry {
  tag = tag;
  pc = pc;
  inst = inst;
  inst_size = inst_size;
  rd = rd;
  rd_fp = rd_fp;
  ctrl = ctrl;
  valid = true;
}

-- `wrapping_add(1)` on 32 bits, skipping 0.
pub bump_tag : RobTag → RobTag
bump_tag t = let next = (t + 1) % 2 ^ 32 in if next == 0 then 1 else next

-- The state once the entry is stored at the tail and its tag is indexed.
abbrev pub allocated : Rob → RobEntry → Rob
allocated r entry = record r {
  entries = set r.entries r.tail entry;
  tail = slot (capacity r) r.tail 1;
  count = r.count + 1;
  next_tag = bump_tag r.next_tag;
  tag_index = insert_tag entry.tag r.tail r.tag_index;
}

pub allocate : Rob → ℕ → ℕ → ℕ → ℕ → Bool → ControlSignals → Rob × Option RobTag
unfolding is_full
allocate r pc inst inst_size rd rd_fp ctrl =
    if is_full r
    then (r, none)
    else (allocated r (fresh_entry r.next_tag pc inst inst_size rd rd_fp ctrl), some r.next_tag)

-- `if let Some(entry) = self.find_entry_mut(tag) { … }` with the body `f`.
pub update_entry : Rob → RobTag → (RobEntry → RobEntry) → Rob
update_entry r tag f = elim (r.tag_index tag) [
  | none ↦ r
  | some idx ↦
      let entry = get_or r.entries idx default_entry in
      if entry.valid then record r { entries = set r.entries idx (f entry) } else r
]

abbrev pub completes : ℕ → RobEntry → RobEntry
completes result e =
    if is_faulted e.state then e else record e { state = RobState.completed; result = result }

abbrev pub faults : Trap → ExceptionStage → RobEntry → RobEntry
faults trap stage e = record e {
  state = RobState.faulted;
  trap = some trap;
  exception_stage = some stage;
}

abbrev pub sets_csr : CsrUpdate → RobEntry → RobEntry
sets_csr update e = record e { csr_update = some update }

abbrev pub sets_store : ℕ → ℕ → RobEntry → RobEntry
sets_store addr value e = record e { store_addr = addr; store_data = value }

pub complete : Rob → RobTag → ℕ → Rob
complete r tag result = update_entry r tag (completes result)

pub fault : Rob → RobTag → Trap → ExceptionStage → Rob
fault r tag trap stage = update_entry r tag (faults trap stage)

pub set_csr_update : Rob → RobTag → CsrUpdate → Rob
set_csr_update r tag update = update_entry r tag (sets_csr update)

pub set_store_info : Rob → RobTag → ℕ → ℕ → Rob
set_store_info r tag addr value = update_entry r tag (sets_store addr value)

pub find_entry : Rob → RobTag → Option RobEntry
find_entry r tag = elim (r.tag_index tag) [
  | none ↦ none
  | some idx ↦
      let entry = get_or r.entries idx default_entry in if entry.valid then some entry else none
]

abbrev pub head_entry : Rob → RobEntry
head_entry r = get_or r.entries r.head default_entry

pub peek_head : Rob → Option RobEntry
peek_head r = if r.count == 0 then none else some (head_entry r)

abbrev pub invalidate : RobEntry → RobEntry
invalidate e = record e { valid = false }

-- The state once the head entry has left.
abbrev pub retired : Rob → Rob
retired r = record r {
  entries = set r.entries r.head (invalidate (head_entry r));
  head = slot (capacity r) r.head 1;
  count = r.count - 1;
  tag_index = remove_tag (head_entry r).tag r.tag_index;
}

pub commit_head : Rob → Rob × Option RobEntry
commit_head r =
    if r.count == 0
    then (r, none)
    else if is_issued (head_entry r).state
    then (r, none)
    else (retired r, some (head_entry r))

pub flush_all : Rob → Rob
flush_all r = record r {
  entries = map invalidate r.entries;
  tag_index = λ t. none;
  head = 0;
  tail = 0;
  count = 0;
}
