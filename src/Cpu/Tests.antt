-- ===== src/Cpu/Tests.antt =====
-- A processor, and runs of its traps, returns and CSR writes.
use inspectre.Base.{
  [], has, clear, Within, ℕ, ◌+◌, ◌^◌, ◌≤◌, bit_and, ◌≡◌, refl, ◌⊎◌, false, none, some, ◌∷◌, arith,
}
use inspectre.Cache.Policy.{Policy}
use inspectre.Cache.Sim.{CacheSim}
use inspectre.Cpu.{Cpu}
use inspectre.Cpu.Csr.{csr_read, csr_write}
use inspectre.Cpu.Interrupts.{check_interrupts, check, irq_to_trap, admits}
use inspectre.Cpu.Interrupts.Priority.{Decided, priorities, check_interrupts-Decided}
use inspectre.Cpu.Masks.{supervisor_writes}
use inspectre.Cpu.Returns.Machine
use inspectre.Cpu.Returns.Supervisor
use inspectre.Cpu.Status.{IsSynced}
use inspectre.Cpu.Status.Run.{Op, run, run-IsSynced}
use inspectre.Cpu.Taken.{privilege-trap}
use inspectre.Cpu.Trap.{trap, delegate_to_s, delegated, do_mret, do_sret, handler_pc, relocated}
use inspectre.Cpu.Warl.{mode, satp_write}
use inspectre.Csr.{Csrs, zeroed}
use inspectre.Csr.Addr
use inspectre.Csr.Fields
use inspectre.Gpr
use inspectre.Pmp
use inspectre.Privilege.{PrivilegeMode, to_u8}
use inspectre.Tlb.{lookup}
use inspectre.Tlb
use inspectre.Tlb.Lookup.{new-IsValid}
use inspectre.Trap.{Trap}

abbrev cache : CacheSim
cache = record {
  latency = 1;
  enabled = false;
  prefetcher = none;
  lines = [];
  num_sets = 1;
  ways = 1;
  line_bytes = 64;
  policy = Policy.lru (record { usage = [] });
}

-- Interrupts are enabled in both modes, and everything that may be is delegated.
abbrev csrs : Csrs
csrs = record zeroed {
  mstatus = 42949672970;
  sstatus = bit_and 42949672970 Fields.read_mask;
  mtvec = 2147483648;
  stvec = 2147487744;
  mideleg = 546;
  medeleg = 256;
  mip = 2184;
  mie = 2184;
}

abbrev cpu : PrivilegeMode → Cpu
cpu p = record {
  regs = Gpr.new;
  pc = 4096;
  direct_mode = false;
  exit_code = none;
  csrs = csrs;
  privilege = p;
  load_reservation = some 64;
  mmu = record { dtlb = Tlb.new 4; itlb = Tlb.new 4 };
  pmp = Pmp.new;
  l1_i_cache = cache;
  l1_d_cache = cache;
  stats = record { cycles = 0; instructions_retired = 0; traps_taken = 0 };
  clint_divider = 10;
}

run-IsSynced_example :
    IsSynced
      (run (cpu PrivilegeMode.user) (
        Op.enter Trap.environment_call_from_u_mode 4096
        ∷ Op.write Addr.sstatus 24576
        ∷ Op.write_fp
        ∷ Op.sret
        ∷ [])).csrs
unfolding IsSynced
run-IsSynced_example =
    run-IsSynced (cpu PrivilegeMode.user)
      (Op.enter Trap.environment_call_from_u_mode 4096
        ∷ Op.write Addr.sstatus 24576
        ∷ Op.write_fp
        ∷ Op.sret
        ∷ [])
      (omega arith, refl)

do_mret-trap_example :
    Machine.IsRestored 4096
      (do_mret (trap (cpu PrivilegeMode.supervisor) (Trap.load_access_fault 8) 4097))
      (cpu PrivilegeMode.supervisor)
unfolding delegate_to_s delegated handler_pc clear to_u8 has
do_mret-trap_example =
    Machine.do_mret-trap (cpu PrivilegeMode.supervisor) (Trap.load_access_fault 8) 4097 refl refl
      refl

do_sret-trap_example :
    Supervisor.IsRestored 4096
      (do_sret (trap (cpu PrivilegeMode.user) Trap.environment_call_from_u_mode 4097))
      (cpu PrivilegeMode.user)
unfolding delegate_to_s delegated handler_pc clear to_u8 has relocated
do_sret-trap_example =
    Supervisor.do_sret-trap (cpu PrivilegeMode.user) Trap.environment_call_from_u_mode 4097 refl
      refl refl

privilege-trap_example :
    to_u8 PrivilegeMode.user
    ≤ to_u8 (trap (cpu PrivilegeMode.user) Trap.environment_call_from_u_mode 4096).privilege
privilege-trap_example =
    privilege-trap (cpu PrivilegeMode.user) Trap.environment_call_from_u_mode 4096

check_interrupts-Decided_example :
    Decided (cpu PrivilegeMode.machine) priorities (check_interrupts (cpu PrivilegeMode.machine))
check_interrupts-Decided_example = check_interrupts-Decided (cpu PrivilegeMode.machine)

supervisor_writes_example :
    let c = cpu PrivilegeMode.supervisor in
    Within 546 (csr_write c Addr.sie 2184).csrs.mie 2184
    × Within 2 (csr_write c Addr.sip 2184).csrs.mip 2184
    × Within Fields.writable_mask (csr_write c Addr.sstatus 2184).csrs.mstatus c.csrs.mstatus
    × (csr_read (csr_write c Addr.sie 2184) Addr.sie ≡ bit_and 2184 546)
supervisor_writes_example = supervisor_writes (cpu PrivilegeMode.supervisor) 2184 (omega arith)

satp_write_example :
    let d = csr_write (cpu PrivilegeMode.supervisor) Addr.satp (2 ^ 63 + 524288) in
    ((mode d.csrs.satp ≡ 0) ⊎ (mode d.csrs.satp ≡ 8))
    × ((page : ℕ) → (lookup d.mmu.dtlb page ≡ none) × (lookup d.mmu.itlb page ≡ none))
    × (d.load_reservation ≡ none)
satp_write_example =
    satp_write (cpu PrivilegeMode.supervisor) (2 ^ 63 + 524288) (new-IsValid 4) (new-IsValid 4)

-- The machine external interrupt comes first.
external_first : check_interrupts (cpu PrivilegeMode.machine) ≡ some Trap.machine_external_interrupt
unfolding check_interrupts check has irq_to_trap admits to_u8
external_first = refl
