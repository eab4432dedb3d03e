-- ===== src/Privilege.antt =====
-- core/arch/mode.rs: the privilege modes.
use inspectre.Base.{◌==◌, ℕ, zero, suc, Bool}

pub data PrivilegeMode : Type 0 where
  user supervisor machine : PrivilegeMode

unfoldable pub from_u8 : ℕ → PrivilegeMode
from_u8 zero = PrivilegeMode.user
from_u8 (suc zero) = PrivilegeMode.supervisor
from_u8 (suc (suc val)) = PrivilegeMode.machine

unfoldable pub to_u8 : PrivilegeMode → ℕ
to_u8 PrivilegeMode.user = 0
to_u8 PrivilegeMode.supervisor = 1
to_u8 PrivilegeMode.machine = 3

-- The comparisons of the source, which are those of the numbers.
abbrev pub is_mode : PrivilegeMode → PrivilegeMode → Bool
is_mode p q = to_u8 p == to_u8 q
