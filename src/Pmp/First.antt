-- ===== src/Pmp/First.antt =====
-- Which entry decides an access.
use mathlib.Core.Path.{subst}
use inspectre.Base.{
  ◌==◌, if◌then◌else◌, ==_iff, ==_false, Bool-cases, length, ℕ, zero, suc, ◌+◌, ◌<◌, ◌≡◌, refl, sym,
  ◌∙◌, ◌⊎◌, inl, inr, Bool, true, false, not, ◌&&◌, arith,
}
use inspectre.Pmp.{
  Pmp, PmpResult, Access, entry_at, covers, permitted, verdict, default_verdict, is_locked,
  check_from, check,
}

-- Entry `i` is the lowest-numbered one that covers the access.
pub record IsFirst (p : Pmp) (a : Access) (i : ℕ) : Type 0 where
  pub below : i < length p.entries
  pub here : covers p i a ≡ true
  pub before : (j : ℕ) → j < i → covers p j a ≡ false

-- The rule for one entry, on the mode, the lock and the permission.
abbrev rule : Bool → Bool → Bool → PmpResult
rule machine locked granted =
    if machine && not locked
    then PmpResult.allow
    else (if granted then PmpResult.allow else PmpResult.deny)

rule-allow : (l g : Bool) → rule false l g ≡ PmpResult.allow → g ≡ true
rule-allow l true e = refl
rule-allow l false e = absurd (cc)

rule-deny : (l g : Bool) → rule true l g ≡ PmpResult.deny → (l ≡ true) × (g ≡ false)
rule-deny true true e = absurd (cc)
rule-deny true false e = (refl, refl)
rule-deny false g e = absurd (cc)

module _ (p : Pmp) (a : Access) where
  -- The loop's answer, once the entries below `i` have been passed.
  loop :
      (n i : ℕ)
      → i + n ≡ length p.entries
      → ((j : ℕ) → j < i → covers p j a ≡ false)
      → ((k : ℕ) × IsFirst p a k × (check_from p a n i ≡ verdict (entry_at p k) a))
        ⊎ (((j : ℕ) → j < length p.entries → covers p j a ≡ false)
            × (check_from p a n i ≡ default_verdict a))
  loop zero i e u = inr ((λ j q. u j (omega arith)), refl)
  loop (suc n) i e u = elim (Bool-cases (covers p i a)) [
    | inl c ↦ inl (i, record { below = omega arith; here = c; before = u }, rw c refl)
    | inr c ↦ rw c (loop n (suc i) (omega arith) (passed c))
  ]
    where
      passed : covers p i a ≡ false → (j : ℕ) → j < suc i → covers p j a ≡ false
      passed c j q = elim (Bool-cases (j == i)) [
        | inl same ↦ subst (λ k. covers p k a ≡ false) (sym ((==_iff j i).0 same)) c
        | inr ne ↦ u j (omega (arith, ==_false j i ne))
      ]

  -- The lowest-numbered entry that covers the access decides it, by the rule for one entry; when
  -- none does, machine mode is allowed and the other modes have no match.
  pub check_decides :
      ((k : ℕ) × IsFirst p a k × (check p a ≡ verdict (entry_at p k) a))
      ⊎ (((j : ℕ) → j < length p.entries → covers p j a ≡ false) × (check p a ≡ default_verdict a))
  unfolding check
  check_decides = loop (length p.entries) 0 (omega arith) (λ j q. absurd (omega arith))

  -- Outside machine mode an access is allowed only if the lowest-numbered entry that covers it
  -- grants every permission that it asks for.
  pub check-allow :
      a.is_machine_mode ≡ false
      → check p a ≡ PmpResult.allow
      → (k : ℕ) × IsFirst p a k × (permitted (entry_at p k) a ≡ true)
  check-allow user ok = elim check_decides [
    | inl (k, f, q) ↦ (
      k,
      f,
      rule-allow (is_locked (entry_at p k)) (permitted (entry_at p k) a) (
          subst
            (λ m. rule m (is_locked (entry_at p k)) (permitted (entry_at p k) a) ≡ PmpResult.allow)
            user (sym q ∙ ok)),
    )
    | inr (u, q) ↦ absurd (
        cc (
          subst (λ m. (if m then PmpResult.allow else PmpResult.no_match) ≡ PmpResult.allow) user
            (sym q ∙ ok)))
  ]

  -- Machine mode is denied an access only by a locked entry that lacks the permission.
  pub check-deny_machine :
      a.is_machine_mode ≡ true
      → check p a ≡ PmpResult.deny
      → (k : ℕ) × IsFirst p a k
        × ((is_locked (entry_at p k) ≡ true) × (permitted (entry_at p k) a ≡ false))
  check-deny_machine machine no_access = elim check_decides [
    | inl (k, f, q) ↦ (
      k,
      f,
      rule-deny (is_locked (entry_at p k)) (permitted (entry_at p k) a) (
          subst
            (λ m. rule m (is_locked (entry_at p k)) (permitted (entry_at p k) a) ≡ PmpResult.deny)
            machine (sym q ∙ no_access)),
    )
    | inr (u, q) ↦ absurd (
        cc (
          subst (λ m. (if m then PmpResult.allow else PmpResult.no_match) ≡ PmpResult.deny) machine
            (sym q ∙ no_access)))
  ]
