-- ===== src/Tlb/Tests.antt =====
-- Runs of the translation lookaside buffer, and the theorems at them.
use inspectre.Base.{[], ◌≡◌, refl, none, List, ◌∷◌}
use inspectre.Tlb.{Tlb, new, lookup, insert}
use inspectre.Tlb.Lookup.{new-IsValid}
use inspectre.Tlb.History.{TlbOp, run, described, Agrees, new-Agrees, run-Agrees}

abbrev empty : Tlb
empty = new 4

-- Pages 3 and 7 share a slot.
abbrev ops : List TlbOp
ops =
    TlbOp.inserts 3 0x80 0xcf
    ∷ TlbOp.inserts 5 0x81 0x4f
    ∷ TlbOp.inserts 7 0x82 0x5f
    ∷ TlbOp.invalidates 5
    ∷ []

shares : lookup (insert (insert (new 4) 3 0x80 0xcf) 7 0x82 0x5f) 3 ≡ none
unfolding new lookup insert
shares = refl

run-Agrees_example : Agrees (run empty ops) (described (λ page. none) ops)
run-Agrees_example = run-Agrees empty (λ page. none) ops (new-IsValid 4) (new-Agrees 4)
