-- ===== src/Tlb/History.antt =====
-- The buffer against the page table that its operations describe.
use inspectre.Base.{
  [], ◌==◌, if◌then◌else◌, get_or-replicate, ℕ, ◌≡◌, sym, ap, ◌∙◌, Bool, true, false, Option, none,
  some, List, ◌∷◌,
}
use inspectre.Tlb.{
  Tlb, default_entry, safe_size, hit, new, index, Translation, translation, filled, lookup, insert,
  invalidate, flush,
}
use inspectre.Tlb.Lookup.{
  IsValid, insert-IsValid, lookup-insert, invalidate-IsValid, lookup-invalidate, lookup-flush,
}

pub data TlbOp : Type 0 where
  inserts : ℕ → ℕ → ℕ → TlbOp
  invalidates : ℕ → TlbOp
  flushes : TlbOp

pub perform : Tlb → TlbOp → Tlb
perform t (TlbOp.inserts vpn ppn pte) = insert t vpn ppn pte
perform t (TlbOp.invalidates vpn) = invalidate t vpn
perform t TlbOp.flushes = flush t

abbrev pub run : Tlb → List TlbOp → Tlb
run t [] = t
run t (o ∷ os) = run (perform t o) os

-- What was last said of each page: inserted and not invalidated or flushed since.
abbrev pub PageMap : Type 0
PageMap = ℕ → Option Translation

abbrev pub describe : PageMap → TlbOp → PageMap
describe m (TlbOp.inserts vpn ppn pte) page =
    if vpn == page then some (translation (filled vpn ppn pte)) else m page
describe m (TlbOp.invalidates vpn) page = if vpn == page then none else m page
describe m TlbOp.flushes page = none

abbrev pub described : PageMap → List TlbOp → PageMap
described m [] = m
described m (o ∷ os) = described (describe m o) os

abbrev pub Agrees : Tlb → PageMap → Type 0
Agrees t m = (page : ℕ) (a : Translation) → lookup t page ≡ some a → m page ≡ some a

none-ne : {a : Translation} → none ≡ some a → ⊥
none-ne e = cc

-- A test that only drops an answer.
drop-some :
    (b : Bool) (o m : Option Translation) (a : Translation)
    → (o ≡ some a → m ≡ some a)
    → (if b then none else o) ≡ some a
    → m ≡ some a
drop-some true o m a h e = absurd (none-ne e)
drop-some false o m a h e = h e

-- The same test on both sides.
both-some :
    (b : Bool) (x o m : Option Translation) (a : Translation)
    → (o ≡ some a → m ≡ some a)
    → (if b then x else o) ≡ some a
    → (if b then x else m) ≡ some a
both-some true x o m a h e = e
both-some false x o m a h e = h e

perform-Agrees :
    (t : Tlb) (m : PageMap) (o : TlbOp)
    → IsValid t
    → Agrees t m
    → IsValid (perform t o) × Agrees (perform t o) (describe m o)
unfolding perform
perform-Agrees t m (TlbOp.inserts vpn ppn pte) v g = (
  insert-IsValid t v vpn ppn pte,
  λ page a e.
      both-some (vpn == page) _ _ (m page) a
        (drop-some (index t vpn == index t page) (lookup t page) (m page) a (g page a))
        (sym (lookup-insert t v vpn ppn pte page) ∙ e),
)
perform-Agrees t m (TlbOp.invalidates vpn) v g = (
  invalidate-IsValid t v vpn,
  λ page a e.
      both-some (vpn == page) none (lookup t page) (m page) a (g page a)
        (sym (lookup-invalidate t v vpn page) ∙ e),
)
perform-Agrees t m TlbOp.flushes v g =
    ((lookup-flush t v 0).0, λ page a e. absurd (none-ne (sym (lookup-flush t v page).1 ∙ e)))

-- From a valid buffer that agrees with what was said of the pages so far, whatever operations
-- follow, a translation that the buffer returns is the one last inserted for that page, and the
-- page has not been invalidated nor the buffer flushed since.
pub run-Agrees :
    (t : Tlb) (m : PageMap) (os : List TlbOp)
    → IsValid t
    → Agrees t m
    → Agrees (run t os) (described m os)
run-Agrees t m [] v g = g
run-Agrees t m (o ∷ os) v g =
    run-Agrees (perform t o) (describe m o) os (perform-Agrees t m o v g).0
      (perform-Agrees t m o v g).1

-- A new buffer holds nothing.
pub new-Agrees : (size : ℕ) → Agrees (new size) (λ page. none)
unfolding new lookup
new-Agrees size page a e = absurd (
    none-ne (
      sym (
        ap (λ f. hit f page)
          (get_or-replicate (safe_size size) default_entry (index (new size) page)))
      ∙ e))
