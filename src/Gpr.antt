-- ===== src/Gpr.antt =====
-- core/arch/gpr.rs: the general-purpose registers.
use inspectre.Base.{get_or, set, replicate, ℕ, zero, suc, List}

pub record Gpr : Type 0 where
  pub regs : List ℕ

unfoldable pub new : Gpr
new = record { regs = replicate 32 0 }

unfoldable pub read : Gpr → ℕ → ℕ
read g zero = 0
read g (suc idx) = get_or g.regs (suc idx) 0

unfoldable pub write : Gpr → ℕ → ℕ → Gpr
write g zero val = g
write g (suc idx) val = record g { regs = set g.regs (suc idx) val }
