-- ===== src/Fence/Tests.antt =====
-- Decoding of FENCE instructions.
use inspectre.Base.{◌≡◌, refl, true}
use inspectre.Fence.{from_bits, decode, is_tso, is_full_barrier, is_full}

-- `fence rw, rw`, and `fence iorw, iorw`.
fence_rw : is_tso (decode 0x0330000f) ≡ true
unfolding is_tso decode from_bits
fence_rw = refl

fence_iorw : is_full_barrier (decode 0x0ff0000f) ≡ true
unfolding is_full_barrier is_full decode from_bits
fence_iorw = refl
