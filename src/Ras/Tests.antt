-- ===== src/Ras/Tests.antt =====
-- Runs of the return address stack, and the theorems at them.
use inspectre.Base.{◌≡◌, refl, some, arith}
use inspectre.Ras.{Ras, new, push, pop, top}
use inspectre.Ras.Returns.{
  IsValid, addresses, pushed, popped, first, new-IsValid, push-IsValid, ras_refines,
}

abbrev one : Ras
one = push (new 2) 0x1000

one-IsValid : IsValid one
one-IsValid = push-IsValid (new 2) (new-IsValid 2 (omega arith)) 0x1000

-- The third call overwrites the second.
overflows : (pop (push (push one 0x2000) 0x3000)).1 ≡ some 0x3000
unfolding new push pop
overflows = refl

ras_refines_example :
    (IsValid (push one 0x2000) × (addresses (push one 0x2000) ≡ pushed 2 (addresses one) 0x2000))
    × (IsValid (pop one).0 × ((addresses (pop one).0, (pop one).1) ≡ popped (addresses one)))
    × (top one ≡ first (addresses one))
unfolding new push
ras_refines_example = ras_refines one one-IsValid 0x2000
