-- ===== src/Rob/Tests.antt =====
-- Small reorder buffers, and the theorems at them.
use inspectre.Base.{[], ◌==◌, if◌then◌else◌, ◌≡◌, refl, true, false, not, ◌&&◌, none, some, arith}
use inspectre.Signals.{ControlSignals, default_signals}
use inspectre.Trap.{Trap, ExceptionStage}
use inspectre.Rob.{
  Rob, new, is_full, fresh_entry, bump_tag, allocate, completes, faults, sets_csr, sets_store,
  complete, fault, set_csr_update, set_store_info, find_entry, commit_head, default_entry,
}
use inspectre.Rob.Spec
use inspectre.Rob.Invariant.{IsValid, contents}
use inspectre.Rob.Allocate.{new-IsValid, allocate-IsValid, allocate_refines}
use inspectre.Rob.Update.{find_entry_refines}
use inspectre.Rob.Marks.{marks_refine, Marked, complete-Marked}
use inspectre.Rob.Commit.{commit_head_refines, seen}
use inspectre.Rob.Flush.{flush_after}
use inspectre.Rob.Flush.Keep.{flush_after_refines, flush_after_loses}
use inspectre.Rob.Search.{targets, result_of, find_latest_result, find_latest_producer}
use inspectre.Rob.Search.Laws.{
  produces, producer_of, find_latest_result_refines, find_latest_producer_refines,
}

abbrev writer : ControlSignals
writer = record default_signals { reg_write = true }

abbrev one : Rob
one = (allocate (new 2) 0x1000 0x13 4 5 false writer).0

-- Full: two instructions in flight, both with destination x5.
abbrev two : Rob
two = (allocate one 0x1004 0x13 4 5 false writer).0

one-IsValid : IsValid one
unfolding new
one-IsValid =
    allocate-IsValid (new 2) 0x1000 0x13 4 5 false writer (new-IsValid 2 (omega arith)) refl

two-IsValid : IsValid two
unfolding new allocate bump_tag
two-IsValid = allocate-IsValid one 0x1004 0x13 4 5 false writer one-IsValid refl

two-is_full : is_full two ≡ true
unfolding new allocate is_full
two-is_full = refl

-- The second allocation wraps the tail, and the tags count up from 1.
two_contents : (two.tail ≡ 0) × (two.count ≡ 2) × (two.next_tag ≡ 3)
unfolding new allocate bump_tag
two_contents = (refl, refl, refl)

allocate_refines_example :
    (
      contents (allocate two 0x1008 0x13 4 6 false writer).0,
      (allocate two 0x1008 0x13 4 6 false writer).1,
    )
    ≡ Spec.push 2 (contents two) (fresh_entry 3 0x1008 0x13 4 6 false writer)
unfolding new allocate bump_tag
allocate_refines_example = allocate_refines two 0x1008 0x13 4 6 false writer two-IsValid

marks_refine_example :
    Marked two 2 two-IsValid (completes 7) (complete two 2 7)
    × Marked two 2 two-IsValid
        (faults (Trap.breakpoint 0) ExceptionStage.decode)
        (fault two 2 (Trap.breakpoint 0) ExceptionStage.decode)
    × Marked two 2 two-IsValid
        (sets_csr (record { addr = 0x300; old_val = 1; new_val = 2 }))
        (set_csr_update two 2 (record { addr = 0x300; old_val = 1; new_val = 2 }))
    × Marked two 2 two-IsValid (sets_store 64 9) (set_store_info two 2 64 9)
marks_refine_example =
    marks_refine two 2 two-IsValid 7 (Trap.breakpoint 0) ExceptionStage.decode
      (record { addr = 0x300; old_val = 1; new_val = 2 }) 64 9

find_entry_refines_example : find_entry two 2 ≡ Spec.find 2 (contents two)
find_entry_refines_example = find_entry_refines two 2 two-IsValid

commit_head_refines_example :
    seen (commit_head (complete two 1 100)) ≡ Spec.commit (contents (complete two 1 100))
commit_head_refines_example =
    commit_head_refines (complete two 1 100) (complete-Marked two 1 two-IsValid 100).0

flush_after_refines_example :
    (s : Rob) × (flush_after two 1 ≡ some s)
    × IsValid s
    × (contents s ≡ Spec.flush_after 1 (contents two))
unfolding new allocate bump_tag default_entry
flush_after_refines_example = flush_after_refines two 1 two-IsValid (λ h. omega (arith, h.1))

flush_after_loses_example :
    (s : Rob) × (flush_after two 2 ≡ some s)
    × (contents s ≡ [])
    × (Spec.flush_after 2 (contents two) ≡ contents two)
unfolding new allocate bump_tag default_entry
flush_after_loses_example = flush_after_loses two 2 two-IsValid (refl, refl)

find_latest_result_refines_example : find_latest_result two 5 false ≡ (
    if not false && 5 == 0
    then none
    else Spec.and_then result_of (Spec.latest (targets 5 false) (contents two)))
find_latest_result_refines_example = find_latest_result_refines two two-IsValid 5 false

find_latest_producer_refines_example : find_latest_producer two 5 false ≡ (
    if not false && 5 == 0
    then none
    else Spec.and_then producer_of (Spec.latest (produces 5 false) (contents two)))
find_latest_producer_refines_example = find_latest_producer_refines two two-IsValid 5 false
