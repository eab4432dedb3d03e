-- ===== src/Fence.antt =====
-- core/units/lsu/ordering.rs: the operands of a FENCE instruction. Instructions are u32.
pub mod Fields
mod Tests
use inspectre.Base.{◌==◌, ℕ, ◌*◌, ◌/◌, ◌^◌, bit_and, bit_or, Bool, true, false, not, ◌&&◌}

pub record FenceSet : Type 0 where
  pub i : Bool
  pub o : Bool
  pub r : Bool
  pub w : Bool

pub from_bits : ℕ → FenceSet
from_bits bits = record {
  i = not (bit_and bits 8 == 0);
  o = not (bit_and bits 4 == 0);
  r = not (bit_and bits 2 == 0);
  w = not (bit_and bits 1 == 0);
}

-- `b as u8`.
abbrev pub bit : Bool → ℕ
bit true = 1
bit false = 0

pub to_bits : FenceSet → ℕ
to_bits s = bit_or (bit_or (bit_or (bit s.i * 2 ^ 3) (bit s.o * 2 ^ 2)) (bit s.r * 2 ^ 1)) (bit s.w)

pub is_empty : FenceSet → Bool
is_empty s = not s.i && not s.o && not s.r && not s.w

pub is_full : FenceSet → Bool
is_full s = s.i && s.o && s.r && s.w

pub record Fence : Type 0 where
  pub pred : FenceSet
  pub succ : FenceSet

pub decode : ℕ → Fence
decode inst = record {
  pred = from_bits (bit_and (inst / 2 ^ 24) 15);
  succ = from_bits (bit_and (inst / 2 ^ 20) 15);
}

pub is_tso : Fence → Bool
is_tso f =
    f.pred.r
    && f.pred.w
    && not f.pred.i
    && not f.pred.o
    && f.succ.r
    && f.succ.w
    && not f.succ.i
    && not f.succ.o

pub is_nop : Fence → Bool
is_nop f = is_empty f.pred && is_empty f.succ

pub is_full_barrier : Fence → Bool
is_full_barrier f = is_full f.pred && is_full f.succ
