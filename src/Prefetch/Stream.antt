-- ===== src/Prefetch/Stream.antt =====
-- core/units/prefetch/stream.rs: runs of accesses to neighbouring lines, upwards or downwards.
use inspectre.Base.{
  [], ltb, leb, ◌==◌, if◌then◌else◌, ℕ, zero, suc, ◌+◌, ◌-◌, ◌*◌, ◌%◌, ◌^◌, Bool, true, false, not,
  List, ◌∷◌,
}
use inspectre.Prefetch.NextLine.{align, safe_degree}

pub data Direction : Type 0 where
  no_direction ascending descending : Direction

pub record StreamPrefetcher : Type 0 where
  pub line_bytes : ℕ
  pub degree : ℕ
  pub last_addr : ℕ
  pub direction : Direction
  pub confidence : ℕ

unfoldable pub new : ℕ → ℕ → StreamPrefetcher
new line_bytes degree = record {
  line_bytes = line_bytes;
  degree = safe_degree degree;
  last_addr = 0;
  direction = Direction.no_direction;
  confidence = 0;
}

abbrev pub same : Direction → Direction → Bool
same Direction.no_direction Direction.no_direction = true
same Direction.ascending Direction.ascending = true
same Direction.descending Direction.descending = true
same Direction.no_direction Direction.ascending = false
same Direction.no_direction Direction.descending = false
same Direction.ascending Direction.no_direction = false
same Direction.ascending Direction.descending = false
same Direction.descending Direction.no_direction = false
same Direction.descending Direction.ascending = false

-- `(addr as i64) - (last as i64)`.
abbrev pub difference : ℕ → ℕ → ℕ
difference addr last = (addr + (2 ^ 64 - last)) % 2 ^ 64

unfoldable pub current_dir : StreamPrefetcher → ℕ → Direction
current_dir p addr =
    if difference addr p.last_addr == p.line_bytes
    then Direction.ascending
    else (if difference addr p.last_addr == (2 ^ 64 - p.line_bytes) % 2 ^ 64
        then Direction.descending
        else Direction.no_direction)

unfoldable pub trained : StreamPrefetcher → Direction → StreamPrefetcher
trained p dir =
    if not (same dir Direction.no_direction)
    then (if same dir p.direction
        then (if ltb p.confidence 3 then record p { confidence = p.confidence + 1 } else p)
        else record p { direction = dir; confidence = 1 })
    else (if ltb 0 p.confidence
        then record p { confidence = p.confidence - 1 }
        else record p { direction = Direction.no_direction })

-- The offset of round `k`.
unfoldable pub offset : StreamPrefetcher → ℕ → ℕ
offset p k =
    if same p.direction Direction.ascending
    then k * p.line_bytes % 2 ^ 64
    else k * ((2 ^ 64 - p.line_bytes) % 2 ^ 64) % 2 ^ 64

unfoldable pub targets : StreamPrefetcher → ℕ → ℕ → ℕ → List ℕ
targets p addr k zero = []
targets p addr k (suc rounds) =
    (align p.line_bytes addr + offset p k) % 2 ^ 64 ∷ targets p addr (k + 1) rounds

unfoldable pub observe : StreamPrefetcher → ℕ → List ℕ × StreamPrefetcher
observe p addr =
    let q = trained p (current_dir p addr) in
    (if leb 2 q.confidence then targets q addr 1 q.degree else [], record q { last_addr = addr })
