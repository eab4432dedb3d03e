-- ===== src/Csr/Addr.antt =====
-- core/arch/csr.rs: the addresses of the control and status registers.
use inspectre.Base.{ℕ}

abbrev pub fflags : ℕ
fflags = 1

abbrev pub frm : ℕ
frm = 2

abbrev pub fcsr : ℕ
fcsr = 3

abbrev pub mvendorid : ℕ
mvendorid = 3857

abbrev pub marchid : ℕ
marchid = 3858

abbrev pub mimpid : ℕ
mimpid = 3859

abbrev pub mhartid : ℕ
mhartid = 3860

abbrev pub mstatus : ℕ
mstatus = 768

abbrev pub misa : ℕ
misa = 769

abbrev pub medeleg : ℕ
medeleg = 770

abbrev pub mideleg : ℕ
mideleg = 771

abbrev pub mie : ℕ
mie = 772

abbrev pub mtvec : ℕ
mtvec = 773

abbrev pub mcounteren : ℕ
mcounteren = 774

abbrev pub mscratch : ℕ
mscratch = 832

abbrev pub mepc : ℕ
mepc = 833

abbrev pub mcause : ℕ
mcause = 834

abbrev pub mtval : ℕ
mtval = 835

abbrev pub mip : ℕ
mip = 836

abbrev pub sstatus : ℕ
sstatus = 256

abbrev pub sie : ℕ
sie = 260

abbrev pub stvec : ℕ
stvec = 261

abbrev pub scounteren : ℕ
scounteren = 262

abbrev pub sscratch : ℕ
sscratch = 320

abbrev pub sepc : ℕ
sepc = 321

abbrev pub scause : ℕ
scause = 322

abbrev pub stval : ℕ
stval = 323

abbrev pub sip : ℕ
sip = 324

abbrev pub satp : ℕ
satp = 384

abbrev pub stimecmp : ℕ
stimecmp = 333

abbrev pub cycle : ℕ
cycle = 3072

abbrev pub time : ℕ
time = 3073

abbrev pub instret : ℕ
instret = 3074

abbrev pub mcycle : ℕ
mcycle = 2816

abbrev pub minstret : ℕ
minstret = 2818

abbrev pub csr_sim_panic : ℕ
csr_sim_panic = 2303
