-- ===== src/Csr/Fields.antt =====
-- core/arch/csr.rs and common/constants.rs: the bits and the fields of the registers.
use inspectre.Base.{ℕ, ◌*◌, ◌^◌, bit_or}

abbrev pub mstatus_sie : ℕ
mstatus_sie = 2 ^ 1

abbrev pub mstatus_mie : ℕ
mstatus_mie = 2 ^ 3

abbrev pub mie_ssip : ℕ
mie_ssip = 2 ^ 1

abbrev pub mie_msip : ℕ
mie_msip = 2 ^ 3

abbrev pub mie_stie : ℕ
mie_stie = 2 ^ 5

abbrev pub mie_mtie : ℕ
mie_mtie = 2 ^ 7

abbrev pub mie_seip : ℕ
mie_seip = 2 ^ 9

abbrev pub mie_meip : ℕ
mie_meip = 2 ^ 11

abbrev pub mip_usip : ℕ
mip_usip = 2 ^ 0

abbrev pub mip_ssip : ℕ
mip_ssip = 2 ^ 1

abbrev pub mip_msip : ℕ
mip_msip = 2 ^ 3

abbrev pub mip_stip : ℕ
mip_stip = 2 ^ 5

abbrev pub mip_mtip : ℕ
mip_mtip = 2 ^ 7

abbrev pub mip_ueip : ℕ
mip_ueip = 2 ^ 8

abbrev pub mip_seip : ℕ
mip_seip = 2 ^ 9

abbrev pub mip_meip : ℕ
mip_meip = 2 ^ 11

abbrev pub mstatus_spie : ℕ
mstatus_spie = 2 ^ 5

abbrev pub mstatus_mpie : ℕ
mstatus_mpie = 2 ^ 7

abbrev pub mstatus_spp : ℕ
mstatus_spp = 2 ^ 8

abbrev pub mstatus_mpp : ℕ
mstatus_mpp = 3 * 2 ^ 11

abbrev pub mstatus_fs : ℕ
mstatus_fs = 3 * 2 ^ 13

abbrev pub mstatus_fs_init : ℕ
mstatus_fs_init = 2 ^ 13

abbrev pub mstatus_fs_dirty : ℕ
mstatus_fs_dirty = 3 * 2 ^ 13

abbrev pub mstatus_mprv : ℕ
mstatus_mprv = 2 ^ 17

abbrev pub mstatus_sum : ℕ
mstatus_sum = 2 ^ 18

abbrev pub mstatus_mxr : ℕ
mstatus_mxr = 2 ^ 19

abbrev pub mstatus_uxl : ℕ
mstatus_uxl = 3 * 2 ^ 32

-- `satp.mode` of Sv39.
abbrev pub satp_mode_sv39 : ℕ
satp_mode_sv39 = 8

abbrev pub satp_mode_shift : ℕ
satp_mode_shift = 60

abbrev pub satp_mode_mask : ℕ
satp_mode_mask = 15

-- `CAUSE_INTERRUPT_BIT`.
abbrev pub cause_interrupt_bit : ℕ
cause_interrupt_bit = 2 ^ 63

abbrev pub mstatus_default_rv64 : ℕ
mstatus_default_rv64 = 42949672960

-- What an SSTATUS write may change.
abbrev pub writable_mask : ℕ
writable_mask =
    bit_or
      (bit_or (bit_or (bit_or (bit_or mstatus_sie mstatus_spie) mstatus_spp) mstatus_fs)
        mstatus_sum)
      mstatus_mxr

-- What SSTATUS shows of MSTATUS.
abbrev pub read_mask : ℕ
read_mask = bit_or writable_mask mstatus_uxl

-- What a trap to supervisor mode and a return from it change.
abbrev pub sstatus_mask : ℕ
sstatus_mask = bit_or (bit_or mstatus_sie mstatus_spie) mstatus_spp

abbrev pub uxl_sxl_mask : ℕ
uxl_sxl_mask = 15 * 2 ^ 32
