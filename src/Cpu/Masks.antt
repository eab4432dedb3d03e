-- ===== src/Cpu/Masks.antt =====
-- core/cpu/csr.rs: what supervisor mode may change through its views of the machine registers.
use inspectre.Base.{
  bit_and-le, test_bit, test_bit-and, merge, test_bit-merge, bit_and-le_left, words_ext, Within,
  merge-Within, ℕ, ◌^◌, ◌<◌, bit_and, ◌≡◌, refl, sym, ap, ◌∙◌, Bool, true, false, not, ◌&&◌, ◌||◌,
  arith,
}
use inspectre.Cpu.{Cpu}
use inspectre.Cpu.Csr.{csr_read, csr_write, write_arms, write_sstatus}
use inspectre.Csr.{select}
use inspectre.Csr.Addr
use inspectre.Csr.Fields

-- Reading back a merge through its mask gives what was written.
merge-read : (mask x y : ℕ) → mask < 2 ^ 64 → bit_and (merge mask x y) mask ≡ bit_and y mask
merge-read mask x y hm =
    words_ext (bit_and (merge mask x y) mask) (bit_and y mask)
      (omega (arith, bit_and-le (merge mask x y) mask)) (omega (arith, bit_and-le y mask))
      (λ k hk.
        test_bit-and (merge mask x y) mask k
        ∙ ap (λ t. t && test_bit mask k) (test_bit-merge mask x y k hm hk)
        ∙ pick (test_bit x k) (test_bit y k) (test_bit mask k)
        ∙ sym (test_bit-and y mask k))
  where
    pick : (x y m : Bool) → ((x && not m || y && m) && m) ≡ (y && m)
    pick true true true = refl
    pick true true false = refl
    pick true false true = refl
    pick true false false = refl
    pick false true true = refl
    pick false true false = refl
    pick false false true = refl
    pick false false false = refl

-- A write of SIE changes MIE, one of SIP changes MIP and one of SSTATUS changes MSTATUS only within
-- what is delegated (of MIP only SSIP) or writable; and SIE then reads as the written value within
-- the delegated bits. MIDELEG is a word.
pub supervisor_writes :
    (c : Cpu) (val : ℕ)
    → c.csrs.mideleg < 2 ^ 64
    → Within c.csrs.mideleg (csr_write c Addr.sie val).csrs.mie c.csrs.mie
      × Within
          (bit_and c.csrs.mideleg Fields.mip_ssip)
          (csr_write c Addr.sip val).csrs.mip
          c.csrs.mip
      × Within Fields.writable_mask (csr_write c Addr.sstatus val).csrs.mstatus c.csrs.mstatus
      × (csr_read (csr_write c Addr.sie val) Addr.sie ≡ bit_and val c.csrs.mideleg)
unfolding csr_write csr_read select write_arms write_sstatus
supervisor_writes c val h = (
  merge-Within c.csrs.mideleg c.csrs.mie val h,
  merge-Within (bit_and c.csrs.mideleg Fields.mip_ssip) c.csrs.mip val
      (omega (arith, bit_and-le_left c.csrs.mideleg Fields.mip_ssip)),
  merge-Within Fields.writable_mask c.csrs.mstatus val (omega arith),
  merge-read c.csrs.mideleg c.csrs.mie val h,
)
