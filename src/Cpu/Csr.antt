-- ===== src/Cpu/Csr.antt =====
-- core/cpu/csr.rs: what an instruction reads from a CSR, and what a write of one does.
use inspectre.Base.{
  [], leb, ◌==◌, if◌then◌else◌, clear, merge, ℕ, zero, suc, ◌+◌, ◌-◌, ◌*◌, ◌/◌, ◌^◌, bit_and,
  bit_or, Bool, ◌&&◌, ◌||◌, List, ◌∷◌,
}
use inspectre.Cache.Sim
use inspectre.Cpu.{Cpu, clear_reservation}
use inspectre.Cpu.Trap.{trap}
use inspectre.Csr.{Csrs, fcsr_value, select}
use inspectre.Csr.Addr
use inspectre.Csr.Fields
use inspectre.Pmp.{Pmp, get_cfg, set_cfg, get_addr, set_addr}
use inspectre.Tlb
use inspectre.Trap.{Trap}

-- The configurations of the entries `base + i`, each in byte `i`, for `n` bytes from `i` on.
unfoldable pub packed_cfgs : Pmp → ℕ → ℕ → ℕ → ℕ
packed_cfgs p base i zero = 0
packed_cfgs p base i (suc n) =
    bit_or (get_cfg p (base + i) * 2 ^ (i * 8)) (packed_cfgs p base (i + 1) n)

-- `n` rounds of the loop, from byte `i` of `val` on.
unfoldable pub set_cfgs : Pmp → ℕ → ℕ → ℕ → ℕ → Pmp
set_cfgs p base val i zero = p
set_cfgs p base val i (suc n) =
    set_cfgs (set_cfg p (base + i) (bit_and (val / 2 ^ (i * 8)) 255)) base val (i + 1) n

abbrev pub is_pmpaddr : ℕ → Bool
is_pmpaddr addr = leb 944 addr && leb addr 959

-- The code panics where it divides by a `clint_divider` of 0; here TIME then reads as 0.
unfoldable pub csr_read : Cpu → ℕ → ℕ
csr_read c addr =
    select
      ((Addr.fflags, bit_and c.csrs.fflags 31)
        ∷ (Addr.frm, bit_and c.csrs.frm 7)
        ∷ (Addr.fcsr, fcsr_value c.csrs)
        ∷ (Addr.mvendorid, 0)
        ∷ (Addr.marchid, 0)
        ∷ (Addr.mimpid, 0)
        ∷ (Addr.mhartid, 0)
        ∷ (Addr.mstatus, c.csrs.mstatus)
        ∷ (Addr.medeleg, c.csrs.medeleg)
        ∷ (Addr.mideleg, c.csrs.mideleg)
        ∷ (Addr.mie, c.csrs.mie)
        ∷ (Addr.mtvec, c.csrs.mtvec)
        ∷ (Addr.misa, c.csrs.misa)
        ∷ (Addr.mscratch, c.csrs.mscratch)
        ∷ (Addr.mepc, c.csrs.mepc)
        ∷ (Addr.mcause, c.csrs.mcause)
        ∷ (Addr.mtval, c.csrs.mtval)
        ∷ (Addr.mip, c.csrs.mip)
        ∷ (Addr.sstatus, c.csrs.sstatus)
        ∷ (Addr.sie, bit_and c.csrs.mie c.csrs.mideleg)
        ∷ (Addr.stvec, c.csrs.stvec)
        ∷ (Addr.sscratch, c.csrs.sscratch)
        ∷ (Addr.sepc, c.csrs.sepc)
        ∷ (Addr.scause, c.csrs.scause)
        ∷ (Addr.stval, c.csrs.stval)
        ∷ (Addr.sip, bit_and c.csrs.mip c.csrs.mideleg)
        ∷ (Addr.stimecmp, c.csrs.stimecmp)
        ∷ (Addr.satp, c.csrs.satp)
        ∷ (Addr.mcounteren, c.csrs.mcounteren)
        ∷ (Addr.scounteren, c.csrs.scounteren)
        ∷ (Addr.cycle, c.stats.cycles)
        ∷ (Addr.mcycle, c.stats.cycles)
        ∷ (Addr.time, c.stats.cycles / c.clint_divider)
        ∷ (Addr.instret, c.stats.instructions_retired)
        ∷ (Addr.minstret, c.stats.instructions_retired)
        ∷ (928, packed_cfgs c.pmp 0 0 8)
        ∷ (930, packed_cfgs c.pmp 8 0 8)
        ∷ [])
      addr (if is_pmpaddr addr then get_addr c.pmp (addr - 944) else 0)

-- UXL and SXL stay as they are.
unfoldable pub written_mstatus : ℕ → ℕ → ℕ
written_mstatus mstatus val =
    bit_or (clear val Fields.uxl_sxl_mask) (bit_and mstatus Fields.uxl_sxl_mask)

unfoldable pub write_mstatus : Csrs → ℕ → Csrs
write_mstatus c val =
    let mstatus = written_mstatus c.mstatus val in
    record c { mstatus = mstatus; sstatus = bit_and mstatus Fields.read_mask }

unfoldable pub write_sstatus : Csrs → ℕ → Csrs
write_sstatus c val =
    let mstatus = merge Fields.writable_mask c.mstatus val in
    record c { mstatus = mstatus; sstatus = bit_and mstatus Fields.read_mask }

abbrev pub mip_mask : ℕ
mip_mask = bit_or (bit_or Fields.mip_ssip Fields.mip_stip) Fields.mip_seip

-- SATP keeps a mode of Bare or Sv39 and makes any other Bare.
unfoldable pub legal_satp : ℕ → ℕ
legal_satp val =
    let mode = bit_and (val / 2 ^ Fields.satp_mode_shift) Fields.satp_mode_mask in
    if mode == Fields.satp_mode_sv39 || mode == 0
    then val
    else clear val (Fields.satp_mode_mask * 2 ^ Fields.satp_mode_shift)

unfoldable pub write_satp : Cpu → ℕ → Cpu
write_satp c val =
    let d = clear_reservation (record c { csrs = record c.csrs { satp = legal_satp val } }) in
    record d {
      l1_i_cache = Sim.flush d.l1_i_cache;
      l1_d_cache = Sim.flush d.l1_d_cache;
      mmu = record d.mmu { dtlb = Tlb.flush d.mmu.dtlb; itlb = Tlb.flush d.mmu.itlb };
    }

-- The arms that write one register, or the fields of one, in `csrs`.
unfoldable pub write_arms : Csrs → ℕ → List (ℕ × Csrs)
write_arms c val =
    (Addr.fflags, record c { fflags = bit_and val 31 })
    ∷ (Addr.frm, record c { frm = bit_and val 7 })
    ∷ (Addr.fcsr, record c { fflags = bit_and val 31; frm = bit_and (val / 2 ^ 5) 7 })
    ∷ (Addr.mstatus, write_mstatus c val)
    ∷ (Addr.medeleg, record c { medeleg = val })
    ∷ (Addr.mideleg, record c { mideleg = val })
    ∷ (Addr.mie, record c { mie = val })
    ∷ (Addr.mtvec, record c { mtvec = val })
    ∷ (Addr.misa, c)
    ∷ (Addr.mscratch, record c { mscratch = val })
    ∷ (Addr.mepc, record c { mepc = clear val 1 })
    ∷ (Addr.mcause, record c { mcause = val })
    ∷ (Addr.mtval, record c { mtval = val })
    ∷ (Addr.mip, record c { mip = merge mip_mask c.mip val })
    ∷ (Addr.sstatus, write_sstatus c val)
    ∷ (Addr.sie, record c { mie = merge c.mideleg c.mie val })
    ∷ (Addr.stvec, record c { stvec = val })
    ∷ (Addr.sscratch, record c { sscratch = val })
    ∷ (Addr.sepc, record c { sepc = clear val 1 })
    ∷ (Addr.scause, record c { scause = val })
    ∷ (Addr.stval, record c { stval = val })
    ∷ (Addr.sip, record c { mip = merge (bit_and c.mideleg Fields.mip_ssip) c.mip val })
    ∷ (Addr.mcounteren, record c { mcounteren = val })
    ∷ (Addr.scounteren, record c { scounteren = val })
    ∷ (Addr.stimecmp, record c { stimecmp = val; mip = clear c.mip Fields.mip_stip })
    ∷ []

-- The write, with the arms that touch more than `csrs` first; no address has two arms.
unfoldable pub csr_write : Cpu → ℕ → ℕ → Cpu
csr_write c addr val =
    select
      ((Addr.csr_sim_panic, trap c (Trap.requested_trap val) c.pc)
        ∷ (Addr.mcycle, record c { stats = record c.stats { cycles = val } })
        ∷ (Addr.minstret, record c { stats = record c.stats { instructions_retired = val } })
        ∷ (928, record c { pmp = set_cfgs c.pmp 0 val 0 8 })
        ∷ (930, record c { pmp = set_cfgs c.pmp 8 val 0 8 })
        ∷ (Addr.satp, write_satp c val)
        ∷ [])
      addr
      (if is_pmpaddr addr
        then record c { pmp = set_addr c.pmp (addr - 944) val }
        else record c { csrs = select (write_arms c.csrs val) addr c.csrs })
