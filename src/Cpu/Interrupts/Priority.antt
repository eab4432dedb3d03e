-- ===== src/Cpu/Interrupts/Priority.antt =====
-- core/pipeline/backend/shared/commit.rs: the interrupt taken is the one of highest priority among
-- those that are pending, enabled and admitted.
use inspectre.Base.{
  [], if◌then◌else◌, Bool-cases, if_true, if_false, test_bit, has-bit, ℕ, ◌^◌, ◌≡◌, refl, sym, ap,
  subst, ◌∙◌, ◌⊎◌, inl, inr, Bool, true, false, not, ◌&&◌, ◌||◌, Option, none, some, List, ◌∷◌,
}
use inspectre.Cpu.{Cpu}
use inspectre.Cpu.Interrupts.{check_interrupts, check, admits, irq_to_trap, or_else}
use inspectre.Privilege.{PrivilegeMode}
use inspectre.Trap.{Trap}

-- The interrupts by falling priority, each as the number of its bit.
abbrev pub priorities : List ℕ
priorities = 11 ∷ 3 ∷ 7 ∷ 9 ∷ 1 ∷ 5 ∷ []

-- An interrupt can be taken: its bit is set in MIP and in MIE, and its target mode, which is
-- supervisor mode where it is delegated, lets it in.
pub takes : Cpu → ℕ → Bool
takes c k =
    test_bit c.csrs.mip k
    && test_bit c.csrs.mie k
    && admits c
        (if test_bit c.csrs.mideleg k then PrivilegeMode.supervisor else PrivilegeMode.machine)

-- `check` of the interrupt of bit `k`.
abbrev checked : Cpu → ℕ → Option Trap
checked c k = check c (2 ^ k) (2 ^ k) (2 ^ k)

-- The outcome for a list of interrupts: none of them can be taken and there is none, or it is the
-- trap of one that can be taken, and none before it can.
pub Decided : Cpu → List ℕ → Option Trap → Type 0
Decided c [] o = o ≡ none
Decided c (k ∷ ks) o =
    ((takes c k ≡ true) × (o ≡ some (irq_to_trap (2 ^ k)))) ⊎ ((takes c k ≡ false) × Decided c ks o)

checked-takes :
    (c : Cpu) (k : ℕ) → checked c k ≡ (if takes c k then some (irq_to_trap (2 ^ k)) else none)
unfolding takes check
checked-takes c k =
    rw (has-bit c.csrs.mip k, has-bit c.csrs.mie k, has-bit c.csrs.mideleg k)
      (branches (test_bit c.csrs.mip k) (test_bit c.csrs.mie k)
        (admits c
          (if test_bit c.csrs.mideleg k then PrivilegeMode.supervisor else PrivilegeMode.machine))
        (some (irq_to_trap (2 ^ k))))
  where
    branches :
        (a b d : Bool) (o : Option Trap)
        → (if not a || not b then none else (if d then o else none))
          ≡ (if a && b && d then o else none)
    branches true true d o = refl
    branches true false d o = refl
    branches false b d o = refl

-- The chain of `or_else` over a list of interrupts.
abbrev first_of : Cpu → List ℕ → Option Trap
first_of c [] = none
first_of c (k ∷ ks) = or_else (checked c k) (first_of c ks)

first_of-Decided : (c : Cpu) (ks : List ℕ) → Decided c ks (first_of c ks)
unfolding Decided
first_of-Decided c [] = refl
first_of-Decided c (k ∷ ks) = elim (Bool-cases (takes c k)) [
  | inl e ↦ inl (e, ap (λ o. or_else o (first_of c ks)) (checked-takes c k ∙ if_true _ _ _ e))
  | inr e ↦ inr (
    e,
    subst (Decided c ks)
        (sym (ap (λ o. or_else o (first_of c ks)) (checked-takes c k ∙ if_false _ _ _ e)))
        (first_of-Decided c ks),
  )
]

-- The interrupt that is taken is the one of highest priority, in the order MEI, MSI, MTI, SEI, SSI,
-- STI, among those that are pending in MIP, enabled in MIE and let in by their target mode; where
-- there is none, no interrupt is taken.
pub check_interrupts-Decided : (c : Cpu) → Decided c priorities (check_interrupts c)
unfolding check_interrupts
check_interrupts-Decided c = subst (Decided c priorities) last (first_of-Decided c priorities)
  where
    none_after : (o : Option Trap) → or_else o none ≡ o
    none_after none = refl
    none_after (some t) = refl

    last : first_of c priorities ≡ check_interrupts c
    last =
        ap
          (λ o. or_else (checked c 11) (
            or_else (checked c 3)
              (or_else (checked c 7) (or_else (checked c 9) (or_else (checked c 1) o)))))
          (none_after (checked c 5))
