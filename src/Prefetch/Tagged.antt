-- ===== src/Prefetch/Tagged.antt =====
-- core/units/prefetch/tagged.rs: the next lines after a miss, or after a line that was prefetched.
use inspectre.Base.{
  [], ◌==◌, if◌then◌else◌, get_or, set, replicate, ℕ, zero, suc, ◌+◌, ◌*◌, ◌/◌, ◌%◌, ◌^◌, bit_and,
  Bool, not, ◌||◌, List, ◌∷◌,
}
use inspectre.Prefetch.NextLine.{align, safe_degree}

pub record TaggedPrefetcher : Type 0 where
  pub line_bytes : ℕ
  pub degree : ℕ
  pub prefetched_filter : List ℕ
  pub filter_mask : ℕ

unfoldable pub new : ℕ → ℕ → TaggedPrefetcher
new line_bytes degree = record {
  line_bytes = line_bytes;
  degree = safe_degree degree;
  prefetched_filter = replicate 64 0;
  filter_mask = 63;
}

abbrev pub index : TaggedPrefetcher → ℕ → ℕ
index p addr = bit_and (addr / 2 ^ 6) p.filter_mask

unfoldable pub was_prefetched : TaggedPrefetcher → ℕ → Bool
was_prefetched p addr = get_or p.prefetched_filter (index p addr) 0 == addr

unfoldable pub mark_prefetched : TaggedPrefetcher → ℕ → TaggedPrefetcher
mark_prefetched p addr = record p {
  prefetched_filter = set p.prefetched_filter (index p addr) addr;
}

-- The rounds `k`, `k + 1`, … of the loop: each target is pushed and marked.
unfoldable pub mark_targets : TaggedPrefetcher → ℕ → ℕ → ℕ → List ℕ × TaggedPrefetcher
mark_targets p aligned_addr k zero = ([], p)
mark_targets p aligned_addr k (suc rounds) =
    let target = (aligned_addr + p.line_bytes * k) % 2 ^ 64 in
    let rest = mark_targets (mark_prefetched p target) aligned_addr (k + 1) rounds in
    (target ∷ rest.0, rest.1)

unfoldable pub observe : TaggedPrefetcher → ℕ → Bool → List ℕ × TaggedPrefetcher
observe p addr hit =
    if not hit || was_prefetched p (align p.line_bytes addr)
    then mark_targets p (align p.line_bytes addr) 1 p.degree
    else ([], p)
