-- ===== src/Ras.antt =====
-- core/units/bru/ras.rs: the return address stack. Addresses are u64.
pub mod Returns
mod Tests
use inspectre.Base.{
  ltb, ◌==◌, if◌then◌else◌, get_or, set, replicate, ℕ, ◌+◌, ◌-◌, Option, none, some, List,
}

pub record Ras : Type 0 where
  pub stack : List ℕ
  pub ptr : ℕ
  pub capacity : ℕ

unfoldable pub new : ℕ → Ras
new capacity = record { stack = replicate capacity 0; ptr = 0; capacity = capacity }

pub push : Ras → ℕ → Ras
push r addr =
    if ltb r.ptr r.capacity
    then record r { stack = set r.stack r.ptr addr; ptr = r.ptr + 1 }
    else record r { stack = set r.stack (r.capacity - 1) addr }

pub pop : Ras → Ras × Option ℕ
pop r =
    if r.ptr == 0
    then (r, none)
    else (record r { ptr = r.ptr - 1 }, some (get_or r.stack (r.ptr - 1) 0))

pub top : Ras → Option ℕ
top r = if r.ptr == 0 then none else some (get_or r.stack (r.ptr - 1) 0)
