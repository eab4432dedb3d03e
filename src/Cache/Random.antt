-- ===== src/Cache/Random.antt =====
-- core/units/cache/policies/random.rs: a victim drawn by xorshift.
use inspectre.Base.{◌==◌, if◌then◌else◌, ℕ, ◌*◌, ◌/◌, ◌%◌, ◌^◌, bit_xor, Option, none, some}

pub record RandomPolicy : Type 0 where
  pub ways : ℕ
  pub state : ℕ

unfoldable pub new : ℕ → ℕ → RandomPolicy
new sets ways = record { ways = ways; state = 123456789 }

-- The three shifts of a draw.
unfoldable pub next_state : ℕ → ℕ
next_state state =
    let x = bit_xor state (state * 2 ^ 13 % 2 ^ 64) in
    let y = bit_xor x (x / 2 ^ 7) in bit_xor y (y * 2 ^ 17 % 2 ^ 64)

-- The victim, and the policy afterwards; it panics on a set without ways.
unfoldable pub get_victim : RandomPolicy → Option (ℕ × RandomPolicy)
get_victim p =
    if p.ways == 0
    then none
    else some (next_state p.state % p.ways, record p { state = next_state p.state })
