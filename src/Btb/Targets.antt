-- ===== src/Btb/Targets.antt =====
-- What the branch target buffer predicts.
use inspectre.Base.{
  [], ◌==◌, if◌then◌else◌, ==_iff, ==_false, ==_ne, Bool-cases, length, get_or, set, replicate,
  length-set, length-replicate, get_or-replicate, get_or-set_self, get_or-set_ne, bit_and-le, ℕ,
  ◌-◌, ◌/◌, ◌^◌, ◌<◌, ◌≡◌, refl, sym, ap, ◌∙◌, inl, inr, Bool, true, false, Option, none, some,
  List, ◌∷◌, arith,
}
use inspectre.Btb.{Btb, BtbEntry, default_entry, new, index, predicts, lookup, update}

-- Every index is in range.
pub record IsValid (b : Btb) : Type 0 where
  pub in_range : b.size - 1 < length b.table

pub new-IsValid : (size : ℕ) → 0 < size → IsValid (new size)
unfolding new
new-IsValid size p = record { in_range = rw length-replicate (omega arith) }

pub update-IsValid : (b : Btb) (pc target : ℕ) → IsValid b → IsValid (update b pc target)
unfolding update
update-IsValid b pc target v = record { in_range = rw length-set v.in_range }

-- After an update of a valid buffer the branch is predicted to go to the target; of the other
-- branches only the one that shared its slot is forgotten.
pub lookup-update :
    (b : Btb) (pc target branch : ℕ)
    → IsValid b
    → lookup (update b pc target) branch ≡ (
        if pc == branch
        then some target
        else (if index b pc == index b branch then none else lookup b branch))
unfolding lookup update
lookup-update b pc target branch v = elim (Bool-cases (index b pc == index b branch)) [
  | inl same ↦ ap (λ e. predicts e branch) (at_same ((==_iff _ _).0 same)) ∙ rw same refl
  | inr other ↦
      ap (λ e. predicts e branch) (get_or-set_ne b.table _ _ _ default_entry (==_false _ _ other))
      ∙ rw (other, apart other) refl
]
  where
    entry : BtbEntry
    entry = record { tag = pc; target = target; valid = true }

    at_same :
        index b pc ≡ index b branch
        → get_or (set b.table (index b pc) entry) (index b branch) default_entry ≡ entry
    at_same q =
        ap (λ j. get_or (set b.table (index b pc) entry) j default_entry) (sym q)
        ∙ get_or-set_self b.table (index b pc) entry default_entry
            (omega (arith, v.in_range, bit_and-le (pc / 2 ^ 2) (b.size - 1)))

    apart : (index b pc == index b branch) ≡ false → (pc == branch) ≡ false
    apart other = ==_ne pc branch (λ q. ==_false _ _ other (ap (index b) q))

-- The updates of a run of branches, and the last target of each.
abbrev pub train : Btb → List (ℕ × ℕ) → Btb
train b [] = b
train b ((pc, target) ∷ rest) = train (update b pc target) rest

abbrev pub last_target : (ℕ → Option ℕ) → List (ℕ × ℕ) → ℕ → Option ℕ
last_target m [] = m
last_target m ((pc, target) ∷ rest) =
    last_target (λ branch. if pc == branch then some target else m branch) rest

abbrev pub Agrees : Btb → (ℕ → Option ℕ) → Type 0
Agrees b m = (branch target : ℕ) → lookup b branch ≡ some target → m branch ≡ some target

-- A new buffer predicts nothing.
pub new-Agrees : (size : ℕ) → Agrees (new size) (λ branch. none)
unfolding new lookup
new-Agrees size branch target e = absurd (nothing (sym missing ∙ e))
  where
    nothing : {a : ℕ} → none ≡ some a → ⊥
    nothing q = cc

    missing :
        predicts
          (get_or (replicate size default_entry) (index (new size) branch) default_entry)
          branch
        ≡ none
    missing =
        ap (λ d. predicts d branch) (get_or-replicate size default_entry (index (new size) branch))

pick :
    (p q : Bool) (x o m : Option ℕ) (a : ℕ)
    → (o ≡ some a → m ≡ some a)
    → (if p then x else (if q then none else o)) ≡ some a
    → (if p then x else m) ≡ some a
pick true q x o m a h e = e
pick false true x o m a h e = absurd (cc)
pick false false x o m a h e = h e

-- From a valid buffer whose predictions agree with the last targets so far, a prediction after any
-- run of updates is the target of the branch's last update, however the branches share slots.
pub train-Agrees :
    (b : Btb) (m : ℕ → Option ℕ) (run : List (ℕ × ℕ))
    → IsValid b
    → Agrees b m
    → Agrees (train b run) (last_target m run)
train-Agrees b m [] v g = g
train-Agrees b m ((pc, target) ∷ rest) v g =
    train-Agrees (update b pc target) _ rest (update-IsValid b pc target v) (λ branch a e.
      pick (pc == branch) (index b pc == index b branch) (some target) (lookup b branch) (m branch)
        a (g branch a) (sym (lookup-update b pc target branch v) ∙ e))
