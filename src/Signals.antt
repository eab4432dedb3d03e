-- ===== src/Signals.antt =====
-- crates/hardware/src/core/pipeline/signals.rs: the control signals that decode attaches to an
-- instruction, with the enums that they are made of and the derived default of each.
use inspectre.Base.{ℕ, Bool, false}

pub data AluOp : Type 0 where
  add sub sll slt sltu xor srl sra or and : AluOp
  mul mulh mulhsu mulhu div divu rem remu : AluOp
  f_add f_sub f_mul f_div f_sqrt f_min f_max : AluOp
  f_m_add f_m_sub f_n_m_add f_n_m_sub : AluOp
  f_cvt_w_s f_cvt_l_s f_cvt_s_w f_cvt_s_l f_cvt_wu_s f_cvt_lu_s f_cvt_s_wu f_cvt_s_lu : AluOp
  f_cvt_s_d f_cvt_d_s f_sgn_j f_sgn_j_n f_sgn_j_x : AluOp
  f_eq f_lt f_le f_class f_mv_to_x f_mv_to_f : AluOp

pub data AtomicOp : Type 0 where
  none lr sc swap add xor and or min max minu maxu : AtomicOp

pub data MemWidth : Type 0 where
  nop byte half word double : MemWidth

pub data OpASrc : Type 0 where
  reg1 pc zero : OpASrc

pub data OpBSrc : Type 0 where
  imm reg2 zero : OpBSrc

pub data CsrOp : Type 0 where
  none rw rs rc rwi rsi rci : CsrOp

pub record ControlSignals : Type 0 where
  pub reg_write : Bool
  pub fp_reg_write : Bool
  pub mem_read : Bool
  pub mem_write : Bool
  pub branch : Bool
  pub jump : Bool
  pub is_rv32 : Bool
  pub width : MemWidth
  pub signed_load : Bool
  pub alu : AluOp
  pub a_src : OpASrc
  pub b_src : OpBSrc
  pub is_system : Bool
  pub csr_addr : ℕ
  pub is_mret : Bool
  pub is_sret : Bool
  pub csr_op : CsrOp
  pub rs1_fp : Bool
  pub rs2_fp : Bool
  pub rs3_fp : Bool
  pub atomic_op : AtomicOp
  pub is_fence_i : Bool

abbrev pub default_signals : ControlSignals
default_signals = record {
  reg_write = false;
  fp_reg_write = false;
  mem_read = false;
  mem_write = false;
  branch = false;
  jump = false;
  is_rv32 = false;
  width = MemWidth.nop;
  signed_load = false;
  alu = AluOp.add;
  a_src = OpASrc.reg1;
  b_src = OpBSrc.imm;
  is_system = false;
  csr_addr = 0;
  is_mret = false;
  is_sret = false;
  csr_op = CsrOp.none;
  rs1_fp = false;
  rs2_fp = false;
  rs3_fp = false;
  atomic_op = AtomicOp.none;
  is_fence_i = false;
}
