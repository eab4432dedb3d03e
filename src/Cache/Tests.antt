-- ===== src/Cache/Tests.antt =====
-- Runs of the replacement policies, and the theorems at them.
use inspectre.Base.{[], replicate, ℕ, ◌≡◌, refl, true, false, none, some, ◌∷◌, arith}
use inspectre.Cache.Fifo
use inspectre.Cache.Lru
use inspectre.Cache.Lru.{lru_victim}
use inspectre.Cache.Policy.{Policy, get_victim}
use inspectre.Cache.Sim.{CacheSim, default_line, access, contains}
use inspectre.Cache.Sim.Access.{access-contains}
use inspectre.Cache.Lru.Recency.{touch, lru_victim-touch}

abbrev queue : Fifo.FifoPolicy
queue = Fifo.new 2 4

abbrev stack : Lru.Usage
stack = Lru.new 2 4

-- Way 3 is last although the others have been used again.
victims :
    (Lru.lru_victim (touch stack 1 (0 ∷ 2 ∷ 1 ∷ 0 ∷ [])) 1 ≡ some 3)
    × (Lru.mru_victim (touch stack 1 (0 ∷ 2 ∷ [])) 1 ≡ some 2)
unfolding Lru.new Lru.update Lru.lru_victim Lru.mru_victim
victims = (refl, refl)

-- Way 1, which was not the last, is when the three others have been used.
lru_victim-touch_example : Lru.lru_victim (touch stack 1 (3 ∷ 0 ∷ 2 ∷ 0 ∷ [])) 1 ≡ some 1
unfolding Lru.new
lru_victim-touch_example =
    lru_victim-touch 1 1 stack (3 ∷ 0 ∷ 2 ∷ 0 ∷ []) (omega arith) refl refl refl refl

-- Two sets of two ways.
abbrev small : CacheSim
small = record {
  latency = 1;
  enabled = true;
  prefetcher = none;
  lines = replicate 4 default_line;
  num_sets = 2;
  ways = 2;
  line_bytes = 64;
  policy = Policy.lru (Lru.new 2 2);
}

access-contains_example :
    (d : CacheSim) × (penalty : ℕ) × (access small 4096 false 10
      ≡ some ((contains small 4096, penalty), d))
    × (contains d 4096 ≡ true)
unfolding get_victim lru_victim Lru.new
access-contains_example =
    access-contains small 4096 10 false (record { some_set = omega arith; lines_of_sets = refl })
      refl refl (1, Policy.lru (Lru.new 2 2)) refl (omega arith)
