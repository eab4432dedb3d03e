-- ===== src/Mmu/Translate/Again.antt =====
-- core/units/mmu/: a translation that succeeds is answered again from the buffer.
use inspectre.Base.{
  ◌==◌, if◌then◌else◌, ==_iff, Bool-cases, if_true, if_false, ℕ, ◌^◌, ◌<◌, ◌≡◌, refl, sym, ap,
  subst, ◌∙◌, inl, inr, Bool, true, false, not, ◌||◌, Option, none, some,
}
use inspectre.Csr.{Csrs}
use inspectre.Mmu.{AccessType, is_fetch, TranslationResult, success, fault, page_fault, Mmu, BusOps}
use inspectre.Mmu.Translate.{
  access_fault, permits, needs_dirty, hit_paddr, is_canonical, mode_of, resolve, translate,
}
use inspectre.Mmu.Translate.Hit.{translate-insert_tlb}
use inspectre.Mmu.Walk.{page_table_walk, page_of}
use inspectre.Mmu.Walk.Found.{Found, page_table_walk-Found}
use inspectre.Privilege.{PrivilegeMode, is_mode}
use inspectre.Tlb.{Translation, lookup, invalidate}
use inspectre.Tlb.Lookup.{IsValid, invalidate-IsValid}
use inspectre.Trap.{Trap}

-- Both buffers are valid.
pub record IsReady (mmu : Mmu) : Type 0 where
  pub dtlb : IsValid mmu.dtlb
  pub itlb : IsValid mmu.itlb

module _ {B : Type 0} (ops : BusOps B) (va : ℕ) (access : AccessType) (privilege : PrivilegeMode)
    (csrs : Csrs) where
  -- What a translation that succeeds leaves answers as it did.
  unfoldable Again : TranslationResult × Mmu × B → Type 0
  Again t =
      t.0.trap ≡ none
      → translate ops t.1 t.2 va access privilege csrs ≡ (success t.0.paddr 0, t.1, t.2)

  fault-Again :
      (trap : Trap) (cycles : ℕ) (mmu : Mmu) (bus : B) → Again (fault trap cycles, mmu, bus)
  unfolding Again
  fault-Again trap cycles mmu bus e = absurd (cc)

  bare-Again :
      (mmu : Mmu) (bus : B)
      → (is_mode privilege PrivilegeMode.machine || mode_of csrs == 0) ≡ true
      → Again (success va 0, mmu, bus)
  unfolding Again translate
  bare-Again mmu bus e h =
      if_true (is_mode privilege PrivilegeMode.machine || mode_of csrs == 0) _ _ e

  module _ (user : is_mode privilege PrivilegeMode.machine ≡ false) (mode : mode_of csrs ≡ 8)
      (canonical : is_canonical va ≡ true) (small : va < 2 ^ 64) where
    Found-Again :
        (mmu : Mmu) (t : TranslationResult × Mmu × B)
        → IsReady mmu
        → Found ops mmu va access privilege csrs t
        → Again t
    unfolding Again Found
    Found-Again mmu (r, m, b) ready (inl (x, e)) h = absurd (cc)
    Found-Again mmu (r, m, b) ready (inr (level, pte, ok, at, put)) h =
        rw (put, at)
          (translate-insert_tlb ops mmu b va level pte access privilege csrs ready.dtlb ready.itlb
            small user mode canonical ok)

    looked : Mmu → Option Translation
    looked mmu =
        if is_fetch access then lookup mmu.itlb (page_of va) else lookup mmu.dtlb (page_of va)

    opened :
        (mmu : Mmu) (bus : B)
        → translate ops mmu bus va access privilege csrs
          ≡ resolve ops (looked mmu) mmu bus va access privilege csrs
    unfolding translate looked
    opened mmu bus =
        if_false (is_mode privilege PrivilegeMode.machine || mode_of csrs == 0) _ _
          (rw (user, mode) refl)
        ∙ if_false (not (mode_of csrs == 8)) _ _ (rw mode refl)
        ∙ if_false (not (is_canonical va)) _ _ (ap not canonical)

    hit-Again :
        (t : Translation) (mmu : Mmu) (bus : B)
        → looked mmu ≡ some t
        → needs_dirty t access ≡ false
        → permits t access privilege csrs ≡ true
        → Again (success (hit_paddr t va) 0, mmu, bus)
    unfolding Again resolve
    hit-Again t mmu bus e d p h =
        opened mmu bus
        ∙ ap (λ o. resolve ops o mmu bus va access privilege csrs) e
        ∙ if_false (needs_dirty t access) _ _ d
        ∙ if_true (permits t access privilege csrs) _ _ p

    resolve-Again :
        (o : Option Translation) (mmu : Mmu) (bus : B)
        → IsReady mmu
        → looked mmu ≡ o
        → Again (resolve ops o mmu bus va access privilege csrs)
    unfolding resolve
    resolve-Again none mmu bus ready e =
        Found-Again mmu _ ready (page_table_walk-Found ops mmu va access privilege csrs bus)
    resolve-Again (some t) mmu bus ready e =
        let stale = record mmu { dtlb = invalidate mmu.dtlb (page_of va) } in
        let walked = page_table_walk ops stale bus va access privilege csrs in
        let hit : TranslationResult × Mmu × B = (success (hit_paddr t va) 0, mmu, bus) in
        let refused : TranslationResult × Mmu × B = (fault (page_fault va access) 0, mmu, bus) in
        elim (Bool-cases (needs_dirty t access)) [
          | inl d ↦ subst Again (sym (if_true _ walked _ d)) (
              Found-Again stale walked
                (record {
                  dtlb = invalidate-IsValid mmu.dtlb ready.dtlb (page_of va);
                  itlb = ready.itlb;
                })
                (page_table_walk-Found ops stale va access privilege csrs bus))
          | inr d ↦
              subst Again (sym (if_false _ walked _ d))
                (elim (Bool-cases (permits t access privilege csrs)) [
                  | inl p ↦ subst Again (sym (if_true _ hit refused p)) (hit-Again t mmu bus e d p)
                  | inr p ↦
                      subst Again (sym (if_false _ hit refused p))
                        (fault-Again (page_fault va access) 0 mmu bus)
                ])
        ]

  translate-Again :
      (mmu : Mmu) (bus : B)
      → IsReady mmu
      → va < 2 ^ 64
      → Again (translate ops mmu bus va access privilege csrs)
  unfolding translate looked
  translate-Again mmu bus ready small =
      let bare : TranslationResult × Mmu × B = (success va 0, mmu, bus) in
      let unsupported : TranslationResult × Mmu × B =
        (fault (Trap.instruction_access_fault va) 0, mmu, bus) in
      let outside : TranslationResult × Mmu × B = (fault (access_fault va access) 0, mmu, bus) in
      elim (Bool-cases (is_mode privilege PrivilegeMode.machine || mode_of csrs == 0)) [
        | inl e ↦ subst Again (sym (if_true _ bare _ e)) (bare-Again mmu bus e)
        | inr e ↦ subst Again (sym (if_false _ bare _ e)) (elim (Bool-cases (mode_of csrs == 8)) [
          | inr m ↦
              subst Again (sym (if_true _ unsupported _ (ap not m)))
                (fault-Again (Trap.instruction_access_fault va) 0 mmu bus)
          | inl m ↦
              subst Again (sym (if_false _ unsupported _ (ap not m)))
                (elim (Bool-cases (is_canonical va)) [
                  | inr c ↦
                      subst Again (sym (if_true _ outside _ (ap not c)))
                        (fault-Again (access_fault va access) 0 mmu bus)
                  | inl c ↦ subst Again (sym (if_false _ outside _ (ap not c))) (
                      resolve-Again (first_off _ _ e) ((==_iff (mode_of csrs) 8).0 m) c small _ mmu
                        bus ready refl)
                ])
        ])
      ]
    where
      first_off : (a b : Bool) → (a || b) ≡ false → a ≡ false
      first_off true b e = absurd (cc)
      first_off false b e = refl

-- When a translation succeeds (from valid buffers, by a walk, from the buffer or without translation),
-- the same access translated again with the buffers and the bus that it leaves succeeds with the same
-- address, in no cycles, and changes neither the buffers nor the bus.
pub translate-translate :
    {B : Type 0} (ops : BusOps B) (mmu : Mmu) (bus : B) (va : ℕ) (access : AccessType)
    (privilege : PrivilegeMode) (csrs : Csrs)
    → IsReady mmu
    → va < 2 ^ 64
    → let t = translate ops mmu bus va access privilege csrs in
      t.0.trap ≡ none
      → translate ops t.1 t.2 va access privilege csrs ≡ (success t.0.paddr 0, t.1, t.2)
unfolding Again
translate-translate ops mmu bus va access privilege csrs ready small =
    translate-Again ops va access privilege csrs mmu bus ready small
