-- ===== src/Cache/Plru.antt =====
-- core/units/cache/policies/plru.rs: one bit of use for each way of a set, all cleared but the last
-- when every way has been used. A shift count wraps at 64, as in a build without overflow checks.
use inspectre.Base.{
  ◌==◌, if◌then◌else◌, get_or, set, replicate, ℕ, zero, suc, ◌+◌, ◌-◌, ◌/◌, ◌%◌, ◌^◌, bit_and,
  bit_or, List,
}

pub record PlruPolicy : Type 0 where
  pub usage : List ℕ
  pub ways : ℕ

unfoldable pub new : ℕ → ℕ → PlruPolicy
new sets ways = record { usage = replicate sets 0; ways = ways }

unfoldable pub all_ones : PlruPolicy → ℕ
all_ones p = (2 ^ (p.ways % 64) + (2 ^ 64 - 1)) % 2 ^ 64

-- The usage bits of a set after `way` was used.
unfoldable pub used : PlruPolicy → ℕ → ℕ → ℕ
used p bits way =
    let mask = 2 ^ (way % 64) in
    if bit_and (bit_or bits mask) (all_ones p) == all_ones p then mask else bit_or bits mask

unfoldable pub update : PlruPolicy → ℕ → ℕ → PlruPolicy
update p idx way = record p { usage = set p.usage idx (used p (get_or p.usage idx 0) way) }

-- The first of `n` ways from `i` on whose bit is clear, or way 0.
unfoldable pub victim_from : ℕ → ℕ → ℕ → ℕ
victim_from bits i zero = 0
victim_from bits i (suc n) =
    let rest = victim_from bits (i + 1) n in
    if bit_and (bits / 2 ^ (i % 64)) 1 == 0 then i else rest

unfoldable pub get_victim : PlruPolicy → ℕ → ℕ
get_victim p idx = victim_from (get_or p.usage idx 0) 0 p.ways
