-- ===== src/StoreBuffer/Memory.antt =====
-- What the drained stores leave in a little-endian memory, and what a forwarded load reads.
-- A drain writes a store as core/pipeline/backend/shared/commit.rs writes it to RAM; the accesses
-- that it hands to the bus instead are not modelled.
pub mod Answers
use native.Mathlib.Nat.{pow-suc, one-le-pow, div-div-eq-div-mul}
use inspectre.Base.{
  [], ltb, leb, if◌then◌else◌, mod-byte_mul, bit_and-mask, ℕ, zero, suc, ◌+◌, ◌-◌, ◌*◌, ◌/◌, ◌%◌,
  ◌^◌, ◌≤◌, ◌<◌, bit_and, ◌≡◌, refl, sym, ap, ◌∙◌, ◌⊎◌, inl, inr, true, false, ◌&&◌, Option, none,
  some, List, ◌∷◌, arith,
}
use inspectre.Signals.{MemWidth}
use inspectre.StoreBuffer.{StoreBufferEntry, width_to_bytes}

-- A memory gives the byte at each address.
abbrev pub Memory : Type 0
Memory = ℕ → ℕ

-- The `n` low bytes of `value` at `paddr`, the lowest first.
abbrev pub write_bytes : ℕ → ℕ → ℕ → Memory → Memory
write_bytes paddr value n m x =
    if leb paddr x && ltb x (paddr + n) then value / 256 ^ (x - paddr) % 256 else m x

-- The write of a drained store; one without an address writes nothing.
abbrev pub write_at : Option ℕ → StoreBufferEntry → Memory → Memory
write_at none e m = m
write_at (some paddr) e m = write_bytes paddr e.data_value (width_to_bytes e.width) m

abbrev pub write_store : Memory → StoreBufferEntry → Memory
write_store m e = write_at e.paddr e m

-- The memory once the stores have drained, the oldest first.
abbrev pub drain_all : Memory → List StoreBufferEntry → Memory
drain_all m [] = m
drain_all m (e ∷ q) = drain_all (write_store m e) q

abbrev pub load_bytes : Memory → ℕ → ℕ → ℕ
load_bytes m paddr zero = 0
load_bytes m paddr (suc n) = m paddr + 256 * load_bytes m (suc paddr) n

load_bytes_ext :
    (m l : Memory) (paddr n : ℕ)
    → ((x : ℕ) → paddr ≤ x → x < paddr + n → m x ≡ l x)
    → load_bytes m paddr n ≡ load_bytes l paddr n
load_bytes_ext m l paddr zero h = refl
load_bytes_ext m l paddr (suc n) h =
    rw
      (
        h paddr (omega arith) (omega arith),
        load_bytes_ext m l (suc paddr) n (λ x p q. h x (omega arith) (omega arith)),
      )
      refl

-- Reading inside what was written gives a field of the value.
pub load-write :
    (m : Memory) (paddr value size k n : ℕ)
    → k + n ≤ size
    → load_bytes (write_bytes paddr value size m) (paddr + k) n ≡ value / 256 ^ k % 256 ^ n
load-write m paddr value size k zero p = omega arith
load-write m paddr value size k (suc n) p =
    (λ j. byte j + 256 * rest (load-write m paddr value size (suc k) n (omega arith)) j)
    ∙ sym (mod-byte_mul (value / 256 ^ k) (256 ^ n) (one-le-pow n 256 (omega arith)))
    ∙ ap (λ t. value / 256 ^ k % t) (omega (arith, pow-suc 256 n))
  where
    byte : write_bytes paddr value size m (paddr + k) ≡ value / 256 ^ k % 256
    byte = rw inside (ap (λ j. value / 256 ^ j % 256) (omega arith))
      where
        inside : (leb paddr (paddr + k) && ltb (paddr + k) (paddr + size)) ≡ true
        inside = ground arith

    shifted : value / 256 ^ suc k ≡ value / 256 ^ k / 256
    shifted = ap (λ t. value / t) (pow-suc 256 k) ∙ sym (div-div-eq-div-mul value (256 ^ k) 256)

    rest :
        load_bytes (write_bytes paddr value size m) (paddr + suc k) n
          ≡ value / 256 ^ suc k % 256 ^ n
        → load_bytes (write_bytes paddr value size m) (suc (paddr + k)) n
          ≡ value / 256 ^ k / 256 % 256 ^ n
    rest behind =
        ap (λ j. load_bytes (write_bytes paddr value size m) j n) (omega arith)
        ∙ behind
        ∙ ap (λ t. t % 256 ^ n) shifted

-- Reading beside what was written gives the memory before.
pub load-write_outside :
    (m : Memory) (paddr value size start n : ℕ)
    → start + n ≤ paddr ⊎ paddr + size ≤ start
    → load_bytes (write_bytes paddr value size m) start n ≡ load_bytes m start n
load-write_outside m paddr value size start n apart =
    load_bytes_ext (write_bytes paddr value size m) m start n
      (λ x lo hi. rw (beside x lo hi apart) refl)
  where
    beside :
        (x : ℕ)
        → start ≤ x
        → x < start + n
        → start + n ≤ paddr ⊎ paddr + size ≤ start
        → (leb paddr x && ltb x (paddr + size)) ≡ false
    beside x lo hi (inl q) = ground arith
    beside x lo hi (inr q) = ground arith

two-pow_plus_eight : (m : ℕ) → 2 ^ (m + 8) ≡ 256 * 2 ^ m
two-pow_plus_eight zero = refl
two-pow_plus_eight (suc m) =
    omega (arith, two-pow_plus_eight m, pow-suc 2 m, pow-suc 2 (m + 8), ap (λ t. 2 ^ t) (shift m))
  where
    shift : (m : ℕ) → suc m + 8 ≡ suc (m + 8)
    shift m = omega arith

pub two-pow-bytes : (k : ℕ) → 2 ^ (k * 8) ≡ 256 ^ k
two-pow-bytes zero = refl
two-pow-bytes (suc k) =
    omega
      (arith, two-pow-bytes k, pow-suc 256 k, ap (λ t. 2 ^ t) (eight k), two-pow_plus_eight (k * 8))
  where
    eight : (k : ℕ) → suc k * 8 ≡ k * 8 + 8
    eight k = omega arith

-- The load's mask keeps its bytes.
pub mask-bytes :
    (width : MemWidth) (x : ℕ)
    → bit_and x
        (if leb 8 (width_to_bytes width) then 2 ^ 64 - 1 else 2 ^ (width_to_bytes width * 8) - 1)
      ≡ x % 256 ^ width_to_bytes width
mask-bytes MemWidth.nop x = bit_and-mask 0 x
mask-bytes MemWidth.byte x = bit_and-mask 8 x
mask-bytes MemWidth.half x = bit_and-mask 16 x
mask-bytes MemWidth.word x = bit_and-mask 32 x
mask-bytes MemWidth.double x = bit_and-mask 64 x
