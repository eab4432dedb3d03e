-- ===== src/Cache/Lru.antt =====
-- core/units/cache/policies/lru.rs and mru.rs: a stack of the ways of each set, the most recently
-- used first. The two differ in the end of the stack that they replace.
pub mod Order
pub mod Recency
use inspectre.Base.{
  [], ◌==◌, if◌then◌else◌, get_or, set, replicate, ℕ, zero, suc, ◌+◌, Option, none, some, List, ◌∷◌,
}

pub record Usage : Type 0 where
  pub usage : List (List ℕ)

abbrev pub ways_from : ℕ → ℕ → List ℕ
ways_from way zero = []
ways_from way (suc n) = way ∷ ways_from (way + 1) n

unfoldable pub new : ℕ → ℕ → Usage
new sets ways = record { usage = replicate sets (ways_from 0 ways) }

-- `stack.remove(pos)` at the first place that holds the way.
abbrev pub remove_way : ℕ → List ℕ → List ℕ
remove_way way [] = []
remove_way way (x ∷ stack) = let rest = remove_way way stack in if x == way then stack else x ∷ rest

abbrev pub stack_of : Usage → ℕ → List ℕ
stack_of p idx = get_or p.usage idx []

unfoldable pub update : Usage → ℕ → ℕ → Usage
update p idx way = record p { usage = set p.usage idx (way ∷ remove_way way (stack_of p idx)) }

abbrev pub last : List ℕ → Option ℕ
last [] = none
last (x ∷ []) = some x
last (x ∷ y ∷ stack) = last (y ∷ stack)

abbrev pub first : List ℕ → Option ℕ
first [] = none
first (x ∷ stack) = some x

-- `LruPolicy::get_victim`; it panics on a set without ways.
unfoldable pub lru_victim : Usage → ℕ → Option ℕ
lru_victim p idx = last (stack_of p idx)

-- `MruPolicy::get_victim`.
unfoldable pub mru_victim : Usage → ℕ → Option ℕ
mru_victim p idx = first (stack_of p idx)
