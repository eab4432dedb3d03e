-- ===== src/StoreBuffer/Memory/Answers.antt =====
-- A forwarded load reads what memory holds once the pending stores have drained.
use mathlib.Core.Path.{subst}
use native.Mathlib.Nat.{mod-eq_of_lt}
use inspectre.Base.{
  [], ltb, leb, if◌then◌else◌, Bool-cases, tabulate, ℕ, zero, suc, ◌+◌, ◌-◌, ◌*◌, ◌/◌, ◌%◌, ◌^◌,
  ◌≤◌, ◌<◌, ◌≡◌, refl, sym, ap, ◌∙◌, ◌⊎◌, inl, inr, true, false, ◌&&◌, Option, none, some, List,
  ◌∷◌, arith,
}
use inspectre.Signals.{MemWidth}
use inspectre.StoreBuffer.{
  StoreBuffer, StoreBufferEntry, ForwardResult, width_to_bytes, overlap, resolved_at, forward_entry,
  or_else, forward_load,
}
use inspectre.StoreBuffer.Spec
use inspectre.StoreBuffer.Invariant.{IsValid, stores}
use inspectre.StoreBuffer.Forward.{forward_load_refines}
use inspectre.StoreBuffer.Memory.{
  Memory, write_bytes, write_at, write_store, drain_all, load_bytes, load-write, load-write_outside,
  two-pow-bytes, mask-bytes,
}

-- The store does not run past the end of the address space.
abbrev pub FitsAt : Option ℕ → MemWidth → Type 0
FitsAt none width = Unit {0}
FitsAt (some paddr) width = paddr + width_to_bytes width < 2 ^ 64

abbrev pub Fits : List StoreBufferEntry → Type 0
Fits [] = Unit {0}
Fits (e ∷ q) = FitsAt e.paddr e.width × Fits q

-- What an answer to a load says of the memory `m` and of the memory `l` that more stores left: a
-- hit is the load's value in `l`, a miss says that the stores did not touch it, a stall nothing.
abbrev pub Answers : ForwardResult → Memory → Memory → ℕ → MemWidth → Type 0
Answers (ForwardResult.hit v) m l paddr width = load_bytes l paddr (width_to_bytes width) ≡ v
Answers ForwardResult.miss m l paddr width =
    load_bytes l paddr (width_to_bytes width) ≡ load_bytes m paddr (width_to_bytes width)
Answers ForwardResult.stall m l paddr width = Unit {0}

-- Two stretches of addresses that do not overlap.
apart-sides : (p n a s : ℕ) → (ltb p (a + s) && ltb a (p + n)) ≡ false → p + n ≤ a ⊎ a + s ≤ p
apart-sides p n a s e = elim (Bool-cases (ltb p (a + s))) [
  | inl t ↦ inl (ground arith)
  | inr f ↦ inr (ground arith)
]

module _ (paddr : ℕ) (width : MemWidth) (room : paddr + width_to_bytes width < 2 ^ 64) where
  module _ (m : Memory) (at value : ℕ) (w : MemWidth) (fits : at + width_to_bytes w < 2 ^ 64) where
    abbrev answer : ForwardResult
    answer = overlap at w value width paddr

    abbrev after : Memory
    after = write_bytes at value (width_to_bytes w) m

    ends :
        ((paddr + width_to_bytes width) % 2 ^ 64 ≡ paddr + width_to_bytes width)
        × ((at + width_to_bytes w) % 2 ^ 64 ≡ at + width_to_bytes w)
    ends = (mod-eq_of_lt room, mod-eq_of_lt fits)

    covered :
        (leb at paddr && leb (paddr + width_to_bytes width) (at + width_to_bytes w)) ≡ true
        → load_bytes after paddr (width_to_bytes width)
          ≡ value / 2 ^ ((paddr - at) * 8) % 256 ^ width_to_bytes width
    covered c =
        ap (λ j. load_bytes after j (width_to_bytes width)) (ground arith)
        ∙ load-write m at value (width_to_bytes w) (paddr - at) (width_to_bytes width)
            (ground arith)
        ∙ ap (λ t. value / t % 256 ^ width_to_bytes width) (sym (two-pow-bytes (paddr - at)))

    -- One store's answer.
    overlap-Answers : Answers answer m after paddr width
    overlap-Answers =
        rw (ends.0, ends.1)
          (elim (Bool-cases
            (ltb paddr (at + width_to_bytes w) && ltb at (paddr + width_to_bytes width))) [
              | inr apart ↦ rw apart (
                  load-write_outside m at value (width_to_bytes w) paddr (width_to_bytes width)
                    (apart-sides paddr (width_to_bytes width) at (width_to_bytes w) apart))
              | inl meets ↦
                  rw meets
                    (elim (Bool-cases (
                      leb at paddr && leb (paddr + width_to_bytes width) (at + width_to_bytes w))) [
                        | inr partly ↦ rw partly tt
                        | inl covers ↦ rw covers (
                            covered covers
                            ∙ sym (mask-bytes width (value / 2 ^ ((paddr - at) * 8))))
                      ])
            ])

  entry-Answers :
      (m : Memory) (e : StoreBufferEntry)
      → e.valid ≡ true
      → FitsAt e.paddr e.width
      → Answers (forward_entry e paddr width) m (write_store m e) paddr width
  unfolding forward_entry
  entry-Answers m e live fits =
      subst
        (λ v.
          Answers (if v then resolved_at e.paddr e paddr width else ForwardResult.miss) m
            (write_store m e) paddr width)
        (sym live) (at e.paddr fits)
    where
      at :
          (o : Option ℕ)
          → FitsAt o e.width
          → Answers (resolved_at o e paddr width) m (write_at o e m) paddr width
      at none f = refl
      at (some p) f = overlap-Answers m p e.data_value e.width f

  or_else-Answers :
      (r s : ForwardResult) (m k l : Memory)
      → Answers s m k paddr width
      → Answers r k l paddr width
      → Answers (or_else r s) m l paddr width
  or_else-Answers (ForwardResult.hit v) s m k l a b = b
  or_else-Answers ForwardResult.stall s m k l a b = tt
  or_else-Answers ForwardResult.miss (ForwardResult.hit v) m k l a b = b ∙ a
  or_else-Answers ForwardResult.miss ForwardResult.miss m k l a b = b ∙ a
  or_else-Answers ForwardResult.miss ForwardResult.stall m k l a b = tt

  tabulate-Answers :
      (g : ℕ → StoreBufferEntry) (n : ℕ) (m : Memory)
      → ((k : ℕ) → k < n → (g k).valid ≡ true)
      → Fits (tabulate g n)
      → Answers (Spec.forward paddr width (tabulate g n)) m (drain_all m (tabulate g n)) paddr width
  tabulate-Answers g zero m live fits = refl
  tabulate-Answers g (suc n) m live fits =
      or_else-Answers (Spec.forward paddr width (tabulate (λ k. g (suc k)) n)) _ m _ _
        (entry-Answers m (g 0) (live 0 (omega arith)) fits.0)
        (tabulate-Answers (λ k. g (suc k)) n (write_store m (g 0))
          (λ k p. live (suc k) (omega arith)) fits.1)

  -- A load forwarded from a valid buffer reads what the little-endian memory holds once the
  -- pending stores have drained in order: a hit is the value there, and on a miss the stores with
  -- an address leave the loaded bytes as they were. The condition is that no store and not the
  -- load runs past the end of the address space.
  pub forward_load-Answers :
      (b : StoreBuffer) (m : Memory)
      → IsValid b
      → Fits (stores b)
      → Answers (forward_load b paddr width) m (drain_all m (stores b)) paddr width
  forward_load-Answers b m v fits =
      rw (forward_load_refines paddr width b v) (tabulate-Answers _ b.count m v.live fits)
