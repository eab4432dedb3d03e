-- ===== src/Prefetch/NextLine.antt =====
-- core/units/prefetch/next_line.rs: the lines after the one accessed.
use inspectre.Base.{
  [], ◌==◌, if◌then◌else◌, complement, ℕ, zero, suc, ◌+◌, ◌-◌, ◌*◌, ◌%◌, ◌^◌, bit_and, List, ◌∷◌,
}

pub record NextLinePrefetcher : Type 0 where
  pub line_bytes : ℕ
  pub degree : ℕ

-- `if degree == 0 { 1 } else { degree }`, as every prefetcher has it.
abbrev pub safe_degree : ℕ → ℕ
safe_degree degree = if degree == 0 then 1 else degree

unfoldable pub new : ℕ → ℕ → NextLinePrefetcher
new line_bytes degree = record { line_bytes = line_bytes; degree = safe_degree degree }

-- `addr & !(line_bytes - 1)`.
abbrev pub align : ℕ → ℕ → ℕ
align line_bytes addr = bit_and addr (complement (line_bytes - 1))

-- The targets of the rounds `k`, `k + 1`, … of the loop.
unfoldable pub targets : ℕ → ℕ → ℕ → ℕ → List ℕ
targets line_bytes addr k zero = []
targets line_bytes addr k (suc rounds) =
    (align line_bytes addr + line_bytes * k) % 2 ^ 64 ∷ targets line_bytes addr (k + 1) rounds

unfoldable pub observe : NextLinePrefetcher → ℕ → List ℕ
observe p addr = targets p.line_bytes addr 1 p.degree
