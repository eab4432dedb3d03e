-- ===== src/Csr.antt =====
-- core/arch/csr.rs: the register file of control and status registers, with its own plain accessors,
-- and the serialization that a write needs. The registers are u64.
pub mod Addr
pub mod Fields
use inspectre.Base.{
  [], ◌==◌, if◌then◌else◌, if_either, clear, ℕ, ◌*◌, ◌/◌, ◌%◌, ◌^◌, bit_and, bit_or, List, ◌∷◌,
}
use inspectre.Csr.Addr
use inspectre.Csr.Fields.{satp_mode_sv39, satp_mode_shift, satp_mode_mask}

pub record Csrs : Type 0 where
  pub mstatus : ℕ
  pub misa : ℕ
  pub medeleg : ℕ
  pub mideleg : ℕ
  pub mie : ℕ
  pub mtvec : ℕ
  pub mscratch : ℕ
  pub mepc : ℕ
  pub mcause : ℕ
  pub mtval : ℕ
  pub mip : ℕ
  pub sstatus : ℕ
  pub sie : ℕ
  pub stvec : ℕ
  pub sscratch : ℕ
  pub sepc : ℕ
  pub scause : ℕ
  pub stval : ℕ
  pub sip : ℕ
  pub satp : ℕ
  pub cycle : ℕ
  pub time : ℕ
  pub instret : ℕ
  pub mcycle : ℕ
  pub minstret : ℕ
  pub stimecmp : ℕ
  pub fflags : ℕ
  pub frm : ℕ
  pub mcounteren : ℕ
  pub scounteren : ℕ

abbrev pub zeroed : Csrs
zeroed = record {
  mstatus = 0;
  misa = 0;
  medeleg = 0;
  mideleg = 0;
  mie = 0;
  mtvec = 0;
  mscratch = 0;
  mepc = 0;
  mcause = 0;
  mtval = 0;
  mip = 0;
  sstatus = 0;
  sie = 0;
  stvec = 0;
  sscratch = 0;
  sepc = 0;
  scause = 0;
  stval = 0;
  sip = 0;
  satp = 0;
  cycle = 0;
  time = 0;
  instret = 0;
  mcycle = 0;
  minstret = 0;
  stimecmp = 0;
  fflags = 0;
  frm = 0;
  mcounteren = 0;
  scounteren = 0;
}

-- The first arm whose address matches, or the default: a `match` on an address.
unfoldable pub select {ℓ} : {A : Type ℓ} → List (ℕ × A) → ℕ → A → A
select [] addr default = default
select ((a, x) ∷ arms) addr default =
    let rest = select arms addr default in if addr == a then x else rest

unfoldable pub fcsr_value : Csrs → ℕ
fcsr_value c = bit_or (bit_and c.frm 7 * 2 ^ 5 % 2 ^ 64) (bit_and c.fflags 31)

unfoldable pub read : Csrs → ℕ → ℕ
read c addr =
    select
      ((Addr.fflags, bit_and c.fflags 31)
        ∷ (Addr.frm, bit_and c.frm 7)
        ∷ (Addr.fcsr, fcsr_value c)
        ∷ (Addr.mstatus, c.mstatus)
        ∷ (Addr.misa, c.misa)
        ∷ (Addr.medeleg, c.medeleg)
        ∷ (Addr.mideleg, c.mideleg)
        ∷ (Addr.mie, c.mie)
        ∷ (Addr.mtvec, c.mtvec)
        ∷ (Addr.mscratch, c.mscratch)
        ∷ (Addr.mepc, c.mepc)
        ∷ (Addr.mcause, c.mcause)
        ∷ (Addr.mtval, c.mtval)
        ∷ (Addr.mip, c.mip)
        ∷ (Addr.sstatus, c.sstatus)
        ∷ (Addr.sie, c.sie)
        ∷ (Addr.stvec, c.stvec)
        ∷ (Addr.sscratch, c.sscratch)
        ∷ (Addr.sepc, c.sepc)
        ∷ (Addr.scause, c.scause)
        ∷ (Addr.stval, c.stval)
        ∷ (Addr.sip, c.sip)
        ∷ (Addr.satp, c.satp)
        ∷ (Addr.cycle, c.cycle)
        ∷ (Addr.time, c.time)
        ∷ (Addr.instret, c.instret)
        ∷ (Addr.mcycle, c.mcycle)
        ∷ (Addr.minstret, c.minstret)
        ∷ (Addr.mcounteren, c.mcounteren)
        ∷ (Addr.scounteren, c.scounteren)
        ∷ [])
      addr 0

-- SATP keeps the mode only where it is Sv39.
unfoldable pub written_satp : ℕ → ℕ
written_satp val =
    let mode = bit_and (val / 2 ^ satp_mode_shift) satp_mode_mask in
    bit_or (clear val (satp_mode_mask * 2 ^ satp_mode_shift))
      ((if mode == satp_mode_sv39 then satp_mode_sv39 else 0) * 2 ^ satp_mode_shift % 2 ^ 64)

unfoldable pub write : Csrs → ℕ → ℕ → Csrs
write c addr val =
    select
      ((Addr.fflags, record c { fflags = bit_and val 31 })
        ∷ (Addr.frm, record c { frm = bit_and val 7 })
        ∷ (Addr.fcsr, record c { fflags = bit_and val 31; frm = bit_and (val / 2 ^ 5) 7 })
        ∷ (Addr.mstatus, record c { mstatus = val })
        ∷ (Addr.misa, record c { misa = val })
        ∷ (Addr.medeleg, record c { medeleg = val })
        ∷ (Addr.mideleg, record c { mideleg = val })
        ∷ (Addr.mie, record c { mie = val })
        ∷ (Addr.mtvec, record c { mtvec = val })
        ∷ (Addr.mscratch, record c { mscratch = val })
        ∷ (Addr.mepc, record c { mepc = val })
        ∷ (Addr.mcause, record c { mcause = val })
        ∷ (Addr.mtval, record c { mtval = val })
        ∷ (Addr.mip, record c { mip = val })
        ∷ (Addr.sstatus, record c { sstatus = val })
        ∷ (Addr.sie, record c { sie = val })
        ∷ (Addr.stvec, record c { stvec = val })
        ∷ (Addr.sscratch, record c { sscratch = val })
        ∷ (Addr.sepc, record c { sepc = val })
        ∷ (Addr.scause, record c { scause = val })
        ∷ (Addr.stval, record c { stval = val })
        ∷ (Addr.sip, record c { sip = val })
        ∷ (Addr.satp, record c { satp = written_satp val })
        ∷ (Addr.cycle, record c { cycle = val })
        ∷ (Addr.time, record c { time = val })
        ∷ (Addr.instret, record c { instret = val })
        ∷ (Addr.mcycle, record c { mcycle = val })
        ∷ (Addr.minstret, record c { minstret = val })
        ∷ (Addr.mcounteren, record c { mcounteren = val })
        ∷ (Addr.scounteren, record c { scounteren = val })
        ∷ [])
      addr c

pub data CsrSerializationType : Type 0 where
  fence_required serializing relaxed : CsrSerializationType

unfoldable pub csr_serialization_type : ℕ → CsrSerializationType
csr_serialization_type addr =
    select
      ((Addr.satp, CsrSerializationType.fence_required)
        ∷ (Addr.mstatus, CsrSerializationType.serializing)
        ∷ (Addr.sstatus, CsrSerializationType.serializing)
        ∷ (Addr.mtvec, CsrSerializationType.serializing)
        ∷ (Addr.stvec, CsrSerializationType.serializing)
        ∷ (Addr.medeleg, CsrSerializationType.serializing)
        ∷ (Addr.mideleg, CsrSerializationType.serializing)
        ∷ [])
      addr CsrSerializationType.relaxed

-- A property of every arm is one of the arm taken.
unfoldable pub AllArms {ℓ} : {A : Type ℓ} → (A → Type 0) → List (ℕ × A) → Type 0
AllArms P [] = Unit {0}
AllArms P ((a, x) ∷ arms) = P x × AllArms P arms

pub select-All {ℓ} :
    {A : Type ℓ} (P : A → Type 0) (arms : List (ℕ × A)) (addr : ℕ) (default : A)
    → AllArms P arms
    → P default
    → P (select arms addr default)
unfolding select AllArms
select-All P [] addr default all d = d
select-All P ((a, x) ∷ arms) addr default (here, rest) d =
    if_either P (addr == a) x (select arms addr default) here
      (select-All P arms addr default rest d)
