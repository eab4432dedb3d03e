-- ===== src/Prefetch.antt =====
-- core/units/prefetch/: what each prefetcher asks for after an access.
--
-- Addresses are u64 and an i64 stands by its two's complement, so that sums, differences and
-- products wrap at 2 ^ 64, as they do in a build without overflow checks.
pub mod NextLine
pub mod Stream
pub mod Stride
pub mod Tagged
use inspectre.Base.{ℕ, Bool, List}
use inspectre.Prefetch.NextLine.{NextLinePrefetcher}
use inspectre.Prefetch.Stream.{StreamPrefetcher}
use inspectre.Prefetch.Stride.{StridePrefetcher}
use inspectre.Prefetch.Tagged.{TaggedPrefetcher}

-- The trait object of the cache.
pub data Prefetcher : Type 0 where
  next_line : NextLinePrefetcher → Prefetcher
  stream : StreamPrefetcher → Prefetcher
  stride : StridePrefetcher → Prefetcher
  tagged : TaggedPrefetcher → Prefetcher

-- The addresses to fetch, and the prefetcher afterwards.
unfoldable pub observe : Prefetcher → ℕ → Bool → List ℕ × Prefetcher
observe (Prefetcher.next_line p) addr hit = (NextLine.observe p addr, Prefetcher.next_line p)
observe (Prefetcher.stream p) addr hit =
    ((Stream.observe p addr).0, Prefetcher.stream (Stream.observe p addr).1)
observe (Prefetcher.stride p) addr hit =
    ((Stride.observe p addr).0, Prefetcher.stride (Stride.observe p addr).1)
observe (Prefetcher.tagged p) addr hit =
    ((Tagged.observe p addr hit).0, Prefetcher.tagged (Tagged.observe p addr hit).1)
