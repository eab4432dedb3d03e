-- ===== src/StoreBuffer/Tests.antt =====
-- Runs of the store buffer, and the theorems at them.
use inspectre.Base.{leb, ◌≡◌, refl, arith}
use inspectre.Signals.{MemWidth}
use inspectre.StoreBuffer.{
  StoreBuffer, ForwardResult, capacity, default_entry, fresh_entry, new, is_full, allocate, resolve,
  mark_committed, forward_entry, forward_load, drain_one, flush_speculative, flush_after,
  is_committed, cancel,
}
use inspectre.StoreBuffer.Spec
use inspectre.StoreBuffer.Invariant.{IsValid, stores}
use inspectre.StoreBuffer.Queue.{new-IsValid, allocate_store_refines, drain_one_refines}
use inspectre.StoreBuffer.Update.{store_marks_refine}
use inspectre.StoreBuffer.Memory.{Memory, drain_all}
use inspectre.StoreBuffer.Memory.Answers.{Answers, forward_load-Answers}
use inspectre.StoreBuffer.Compact.Run.{flushes_refine}
use inspectre.StoreBuffer.Cancel.{cancel_refines}

-- Two stores, a word at 256 and a byte at 512, the first of them committed.
abbrev one : StoreBuffer
unfolding new allocate is_full default_entry
one = (allocate (new 3) 7 MemWidth.word).0

abbrev two : StoreBuffer
unfolding new allocate is_full default_entry
two = (allocate one 9 MemWidth.byte).0

abbrev resolved : StoreBuffer
unfolding new allocate is_full default_entry resolve
resolved = resolve (resolve two 7 256 256 0x11223344) 9 512 512 0xab

abbrev half_committed : StoreBuffer
unfolding new allocate is_full default_entry resolve mark_committed
half_committed = mark_committed resolved 7

abbrev zeros : Memory
zeros x = 0

one-IsValid : IsValid one
unfolding new one allocate
one-IsValid = (allocate_store_refines (new 3) (new-IsValid 3 (omega arith)) 7 MemWidth.word).0

two-IsValid : IsValid two
unfolding two allocate
two-IsValid = (allocate_store_refines one one-IsValid 9 MemWidth.byte).0

resolved-IsValid : IsValid resolved
unfolding resolved resolve
resolved-IsValid =
    (store_marks_refine (resolve two 7 256 256 0x11223344) 9 512 512 0xab
      (store_marks_refine two 7 256 256 0x11223344 two-IsValid).0.0).0.0

half_committed-IsValid : IsValid half_committed
unfolding half_committed mark_committed
half_committed-IsValid = (store_marks_refine resolved 7 0 0 0 resolved-IsValid).1.0

-- A half word inside the word is forwarded, a double word over it stalls.
forwards : forward_load half_committed 258 MemWidth.half ≡ ForwardResult.hit 0x1122
unfolding new allocate is_full default_entry resolve mark_committed forward_load forward_entry one
    two resolved half_committed
forwards = refl

stalls : forward_load half_committed 252 MemWidth.double ≡ ForwardResult.stall
unfolding new allocate is_full default_entry resolve mark_committed forward_load forward_entry one
    two resolved half_committed
stalls = refl

allocate_store_refines_example :
    IsValid (allocate one 9 MemWidth.byte).0
    × ((stores (allocate one 9 MemWidth.byte).0, (allocate one 9 MemWidth.byte).1)
        ≡ Spec.push (capacity one) (stores one) (fresh_entry 9 MemWidth.byte))
allocate_store_refines_example = allocate_store_refines one one-IsValid 9 MemWidth.byte

drain_one_refines_example :
    IsValid (drain_one half_committed).0
    × ((stores (drain_one half_committed).0, (drain_one half_committed).1)
        ≡ Spec.drain (stores half_committed))
drain_one_refines_example = drain_one_refines half_committed half_committed-IsValid

forward_load-Answers_example :
    Answers
      (forward_load half_committed 258 MemWidth.half)
      zeros
      (drain_all zeros (stores half_committed))
      258
      MemWidth.half
unfolding new allocate is_full default_entry resolve mark_committed one two resolved half_committed
forward_load-Answers_example =
    forward_load-Answers 258 MemWidth.half (omega arith) half_committed zeros half_committed-IsValid
      (omega arith, (omega arith, tt))

flushes_refine_example :
    (IsValid (flush_speculative half_committed)
      × (stores (flush_speculative half_committed)
          ≡ Spec.keep (λ e. is_committed e.state) (stores half_committed)))
    × (IsValid (flush_after half_committed 7)
        × (stores (flush_after half_committed 7)
            ≡ Spec.keep (λ e. leb e.rob_tag 7) (stores half_committed)))
flushes_refine_example = flushes_refine half_committed 7 half_committed-IsValid

cancel_refines_example :
    IsValid (cancel half_committed 9)
    × (stores (cancel half_committed 9) ≡ Spec.cancel 9 (stores half_committed))
cancel_refines_example = cancel_refines half_committed 9 half_committed-IsValid
