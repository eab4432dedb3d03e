-- ===== src/Cache/Policy.antt =====
-- core/units/cache/policies/mod.rs: the interface that the cache sees, for every policy.
use inspectre.Base.{ℕ, Option, none, some}
use inspectre.Cache.Fifo
use inspectre.Cache.Fifo.{FifoPolicy}
use inspectre.Cache.Lru
use inspectre.Cache.Lru.{Usage, lru_victim, mru_victim}
use inspectre.Cache.Plru
use inspectre.Cache.Plru.{PlruPolicy}
use inspectre.Cache.Random
use inspectre.Cache.Random.{RandomPolicy}

pub data Policy : Type 0 where
  fifo : FifoPolicy → Policy
  random : RandomPolicy → Policy
  plru : PlruPolicy → Policy
  lru : Usage → Policy
  mru : Usage → Policy

unfoldable pub update : Policy → ℕ → ℕ → Policy
update (Policy.fifo p) idx way = Policy.fifo (Fifo.update p idx way)
update (Policy.random p) idx way = Policy.random p
update (Policy.plru p) idx way = Policy.plru (Plru.update p idx way)
update (Policy.lru p) idx way = Policy.lru (Lru.update p idx way)
update (Policy.mru p) idx way = Policy.mru (Lru.update p idx way)

abbrev pub with_policy : Policy → Option ℕ → Option (ℕ × Policy)
with_policy p none = none
with_policy p (some way) = some (way, p)

abbrev pub drawn : Option (ℕ × RandomPolicy) → Option (ℕ × Policy)
drawn none = none
drawn (some (way, p)) = some (way, Policy.random p)

-- The way to replace, and the policy afterwards; `none` where the policy panics.
unfoldable pub get_victim : Policy → ℕ → Option (ℕ × Policy)
get_victim (Policy.fifo p) idx = some (Fifo.get_victim p idx, Policy.fifo p)
get_victim (Policy.random p) idx = drawn (Random.get_victim p)
get_victim (Policy.plru p) idx = some (Plru.get_victim p idx, Policy.plru p)
get_victim (Policy.lru p) idx = with_policy (Policy.lru p) (lru_victim p idx)
get_victim (Policy.mru p) idx = with_policy (Policy.mru p) (mru_victim p idx)
