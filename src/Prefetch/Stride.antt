-- ===== src/Prefetch/Stride.antt =====
-- core/units/prefetch/stride.rs: accesses at a constant distance, one entry for each group of lines.
use inspectre.Base.{
  [], ltb, ◌==◌, if◌then◌else◌, get_or, set, replicate, ℕ, zero, suc, ◌+◌, ◌-◌, ◌*◌, ◌/◌, ◌%◌, ◌^◌,
  bit_and, ◌&&◌, List, ◌∷◌,
}
use inspectre.Prefetch.NextLine.{align, safe_degree}
use inspectre.Prefetch.Stream.{difference}

pub record StreamEntry : Type 0 where
  pub last_addr : ℕ
  pub stride : ℕ
  pub confidence : ℕ

abbrev pub default_entry : StreamEntry
default_entry = record { last_addr = 0; stride = 0; confidence = 0 }

pub record StridePrefetcher : Type 0 where
  pub table : List StreamEntry
  pub line_bytes : ℕ
  pub table_mask : ℕ
  pub degree : ℕ

abbrev pub safe_size : ℕ → ℕ
safe_size table_size =
    if ltb 0 table_size && bit_and table_size (table_size - 1) == 0 then table_size else 64

unfoldable pub new : ℕ → ℕ → ℕ → StridePrefetcher
new line_bytes table_size degree = record {
  table = replicate (safe_size table_size) default_entry;
  line_bytes = line_bytes;
  table_mask = safe_size table_size - 1;
  degree = safe_degree degree;
}

abbrev pub index : StridePrefetcher → ℕ → ℕ
index p addr = bit_and (addr / 2 ^ 6) p.table_mask

unfoldable pub targets : ℕ → StreamEntry → ℕ → ℕ → ℕ → List ℕ
targets line_bytes entry addr k zero = []
targets line_bytes entry addr k (suc rounds) =
    align line_bytes ((addr + entry.stride * k) % 2 ^ 64)
    ∷ targets line_bytes entry addr (k + 1) rounds

-- What one access does to its entry, and what it asks for.
unfoldable pub trained : StridePrefetcher → StreamEntry → ℕ → List ℕ × StreamEntry
trained p entry addr =
    if difference addr entry.last_addr == entry.stride
    then (if ltb entry.confidence 3
        then ([], record entry { confidence = entry.confidence + 1 })
        else (targets p.line_bytes entry addr 1 p.degree, entry))
    else (if ltb 0 entry.confidence
        then ([], record entry { confidence = entry.confidence - 1 })
        else ([], record entry { stride = difference addr entry.last_addr }))

unfoldable pub observe : StridePrefetcher → ℕ → List ℕ × StridePrefetcher
observe p addr =
    let step = trained p (get_or p.table (index p addr) default_entry) addr in
    (step.0, record p { table = set p.table (index p addr) (record step.1 { last_addr = addr }) })
