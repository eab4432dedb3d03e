-- ===== src/Lsu/Atomic.antt =====
-- core/units/lsu/atomic.rs: what an atomic operation writes back. A signed integer stands by its
-- two's complement.
use inspectre.Base.{
  ltb, if◌then◌else◌, ℕ, ◌+◌, ◌%◌, ◌^◌, bit_and, bit_or, bit_xor, Bool, true, false,
}
use inspectre.Alu.Signed.{truncate, sign_extend, less}
use inspectre.Signals.{AtomicOp, MemWidth}

-- The operation on two integers of `w` bits.
unfoldable pub combine : ℕ → AtomicOp → ℕ → ℕ → ℕ
combine w op a b = elim op [
  | AtomicOp.swap ↦ b
  | AtomicOp.add ↦ (a + b) % 2 ^ w
  | AtomicOp.xor ↦ bit_xor a b
  | AtomicOp.and ↦ bit_and a b
  | AtomicOp.or ↦ bit_or a b
  | AtomicOp.min ↦ if less w b a then b else a
  | AtomicOp.max ↦ if less w b a then a else b
  | AtomicOp.minu ↦ if ltb b a then b else a
  | AtomicOp.maxu ↦ if ltb b a then a else b
  | _ ↦ 0
]

abbrev pub is_word : MemWidth → Bool
is_word width = elim width [ MemWidth.word ↦ true | _ ↦ false ]

unfoldable pub atomic_alu : AtomicOp → ℕ → ℕ → MemWidth → ℕ
atomic_alu op mem_val reg_val width =
    if is_word width
    then sign_extend (combine 32 op (truncate 32 mem_val) (truncate 32 reg_val))
    else combine 64 op mem_val reg_val
