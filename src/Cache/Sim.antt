-- ===== src/Cache/Sim.antt =====
-- core/units/cache/mod.rs: the tags of a set-associative cache. It keeps no contents: an access
-- yields whether it hits, and the cycles of a write-back.
--
-- Indices are in the vector of lines as `set_index * ways + i`. A set index is a remainder by
-- `num_sets`; the code panics where there are no sets, and here the remainder is then the number.
pub mod Access
use inspectre.Base.{
  [], ◌==◌, if◌then◌else◌, get_or, set, ℕ, zero, suc, ◌+◌, ◌*◌, ◌/◌, ◌%◌, Bool, true, false, not,
  ◌&&◌, Option, none, some, List, ◌∷◌, map,
}
use inspectre.Cache.Policy
use inspectre.Cache.Policy.{Policy}
use inspectre.Prefetch.{Prefetcher, observe}

pub record CacheLine : Type 0 where
  pub tag : ℕ
  pub valid : Bool
  pub dirty : Bool

abbrev pub default_line : CacheLine
default_line = record { tag = 0; valid = false; dirty = false }

pub record CacheSim : Type 0 where
  pub latency : ℕ
  pub enabled : Bool
  pub prefetcher : Option Prefetcher
  pub lines : List CacheLine
  pub num_sets : ℕ
  pub ways : ℕ
  pub line_bytes : ℕ
  pub policy : Policy

abbrev pub set_index : CacheSim → ℕ → ℕ
set_index c addr = addr / c.line_bytes % c.num_sets

abbrev pub tag_of : CacheSim → ℕ → ℕ
tag_of c addr = addr / (c.line_bytes * c.num_sets)

abbrev pub base_idx : CacheSim → ℕ → ℕ
base_idx c addr = set_index c addr * c.ways

unfoldable pub line_at : CacheSim → ℕ → CacheLine
line_at c idx = get_or c.lines idx default_line

abbrev pub holds : CacheSim → ℕ → ℕ → Bool
holds c idx tag = (line_at c idx).valid && (line_at c idx).tag == tag

-- The first of `n` ways from `i` on whose line holds the tag.
unfoldable pub find_way : CacheSim → ℕ → ℕ → ℕ → ℕ → Option ℕ
find_way c base tag i zero = none
find_way c base tag i (suc n) =
    let rest = find_way c base tag (i + 1) n in if holds c (base + i) tag then some i else rest

abbrev pub is_some {ℓ} : {A : Type ℓ} → Option A → Bool
is_some none = false
is_some (some a) = true

unfoldable pub way_of : CacheSim → ℕ → Option ℕ
way_of c addr = find_way c (base_idx c addr) (tag_of c addr) 0 c.ways

unfoldable pub contains : CacheSim → ℕ → Bool
contains c addr = if not c.enabled then false else is_some (way_of c addr)

-- The cycles that the replaced line costs.
abbrev pub penalty_of : CacheLine → ℕ → ℕ
penalty_of line next_level_latency = if line.valid && line.dirty then next_level_latency else 0

-- The replacement of `victim_way`, after the policy chose it.
unfoldable pub place : CacheSim → ℕ → Bool → ℕ × Policy → CacheSim
place c addr is_write (victim_way, policy) = record c {
  lines =
      set c.lines (base_idx c addr + victim_way)
        (record { tag = tag_of c addr; valid = true; dirty = is_write });
  policy = Policy.update policy (set_index c addr) victim_way;
}

-- The replacement of the way that the policy chose, and its cost.
abbrev pub installed : CacheSim → ℕ → Bool → ℕ → Option (ℕ × Policy) → Option (ℕ × CacheSim)
installed c addr is_write next_level_latency none = none
installed c addr is_write next_level_latency (some v) =
    some
      (penalty_of (line_at c (base_idx c addr + v.0)) next_level_latency, place c addr is_write v)

-- `none` where the policy panics.
unfoldable pub install_line : CacheSim → ℕ → Bool → ℕ → Option (ℕ × CacheSim)
install_line c addr is_write next_level_latency =
    installed c addr is_write next_level_latency (Policy.get_victim c.policy (set_index c addr))

-- A hit in way `i`.
unfoldable pub touch : CacheSim → ℕ → Bool → ℕ → CacheSim
touch c addr is_write i =
    let idx = base_idx c addr + i in
    record c {
      policy = Policy.update c.policy (set_index c addr) i;
      lines =
          if is_write then set c.lines idx (record (line_at c idx) { dirty = true }) else c.lines;
    }

-- The prefetches of an access, in their order.
unfoldable pub install_prefetches : CacheSim → ℕ → List ℕ → Option CacheSim
install_prefetches c next_level_latency [] = some c
install_prefetches c next_level_latency (target ∷ targets) = elim (contains c target) [
  | true ↦ install_prefetches c next_level_latency targets
  | false ↦ elim (install_line c target false next_level_latency) [
    | none ↦ none
    | some r ↦ install_prefetches r.1 next_level_latency targets
  ]
]

unfoldable pub observed : Option Prefetcher → ℕ → Bool → List ℕ × Option Prefetcher
observed none addr hit = ([], none)
observed (some p) addr hit = ((observe p addr hit).0, some (observe p addr hit).1)

-- The end of an access: the prefetcher sees it, and what it asks for is installed.
unfoldable pub prefetched : CacheSim → ℕ → Bool → ℕ → Option CacheSim
prefetched c addr hit next_level_latency =
    let seen = observed c.prefetcher addr hit in
    install_prefetches (record c { prefetcher = seen.1 }) next_level_latency seen.0

abbrev pub finished : Bool → ℕ → Option CacheSim → Option ((Bool × ℕ) × CacheSim)
finished hit penalty none = none
finished hit penalty (some c) = some ((hit, penalty), c)

-- The end of an access that missed, after its own line was installed.
abbrev pub missed : ℕ → ℕ → Option (ℕ × CacheSim) → Option ((Bool × ℕ) × CacheSim)
missed addr next_level_latency none = none
missed addr next_level_latency (some r) =
    finished false r.0 (prefetched r.1 addr false next_level_latency)

-- The access, after the way that holds the address was looked for.
unfoldable pub access_way : CacheSim → ℕ → Bool → ℕ → Option ℕ → Option ((Bool × ℕ) × CacheSim)
access_way c addr is_write next_level_latency (some i) =
    finished true 0 (prefetched (touch c addr is_write i) addr true next_level_latency)
access_way c addr is_write next_level_latency none =
    missed addr next_level_latency (install_line c addr is_write next_level_latency)

-- Whether it hit, the penalty, and the cache afterwards.
unfoldable pub access : CacheSim → ℕ → Bool → ℕ → Option ((Bool × ℕ) × CacheSim)
access c addr is_write next_level_latency =
    if not c.enabled
    then some ((false, 0), c)
    else access_way c addr is_write next_level_latency (way_of c addr)

abbrev pub cleaned : CacheLine → CacheLine
cleaned line =
    if line.valid && line.dirty then record line { dirty = false; valid = false } else line

unfoldable pub flush : CacheSim → CacheSim
flush c = if not c.enabled then c else record c { lines = map cleaned c.lines }
