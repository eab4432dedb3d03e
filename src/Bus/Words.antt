-- ===== src/Bus/Words.antt =====
-- soc/interconnect.rs and soc/memory/mod.rs: the words of the memory behind the bus, read and written
-- through it.
use native.Mathlib.Nat.{pow-suc}
use inspectre.Base.{
  ltb, leb, ◌==◌, if◌then◌else◌, ==_iff, ==_false, ==_ne, leb→le, Bool-cases, and_true, if_true,
  if_false, ℕ, zero, suc, ◌+◌, ◌-◌, ◌*◌, ◌/◌, ◌%◌, ◌^◌, ◌≤◌, ◌<◌, ◌≡◌, refl, sym, ap, subst, ◌∙◌,
  ◌≢◌, ◌⊎◌, inl, inr, true, ◌&&◌, some, arith,
}
use inspectre.Bus.{
  Bus, read_le_bytes, write_le_bytes, find_device, read_at, write_at, read_u64, write_u64, in_ram,
  walk_ops,
}
use inspectre.Mmu.{BusLaws, Word}

read_le_bytes-lt : (buffer : ℕ → ℕ) (i n : ℕ) → read_le_bytes buffer i n < 256 ^ n
unfolding read_le_bytes
read_le_bytes-lt buffer i zero = omega arith
read_le_bytes-lt buffer i (suc n) = omega (arith, pow-suc 256 n, read_le_bytes-lt buffer (i + 1) n)

-- A write leaves the bytes outside it.
write_le_bytes-below :
    (buffer : ℕ → ℕ) (i n val a : ℕ) → a < i → write_le_bytes buffer i n val a ≡ buffer a
unfolding write_le_bytes
write_le_bytes-below buffer i zero val a h = refl
write_le_bytes-below buffer i (suc n) val a h =
    write_le_bytes-below (λ x. if x == i then val % 256 else buffer x) (i + 1) n (val / 256) a
      (omega arith)
    ∙ if_false (a == i) _ _ (==_ne a i (λ e. absurd (omega arith)))

write_le_bytes-above :
    (buffer : ℕ → ℕ) (i n val a : ℕ) → i + n ≤ a → write_le_bytes buffer i n val a ≡ buffer a
unfolding write_le_bytes
write_le_bytes-above buffer i zero val a h = refl
write_le_bytes-above buffer i (suc n) val a h =
    write_le_bytes-above (λ x. if x == i then val % 256 else buffer x) (i + 1) n (val / 256) a
      (omega arith)
    ∙ if_false (a == i) _ _ (==_ne a i (λ e. absurd (omega arith)))

-- A read depends on its bytes only.
read_bytes_ext :
    (f g : ℕ → ℕ) (i n : ℕ)
    → ((a : ℕ) → i ≤ a → a < i + n → f a ≡ g a)
    → read_le_bytes f i n ≡ read_le_bytes g i n
unfolding read_le_bytes
read_bytes_ext f g i zero same = refl
read_bytes_ext f g i (suc n) same =
    rw
      (
        same i (omega arith) (omega arith),
        read_bytes_ext f g (i + 1) n (λ a le lt. same a (omega arith) (omega arith)),
      )
      refl

-- A read of what was written there.
read-write :
    (buffer : ℕ → ℕ) (i n val : ℕ)
    → val < 256 ^ n
    → read_le_bytes (write_le_bytes buffer i n val) i n ≡ val
unfolding read_le_bytes write_le_bytes
read-write buffer i zero val h = omega arith
read-write buffer i (suc n) val h =
    rw
      (
        write_le_bytes-below (λ a. if a == i then val % 256 else buffer a) (i + 1) n (val / 256) i
            (omega arith),
        if_true (i == i) (val % 256) (buffer i) ((==_iff i i).1 refl),
        read-write (λ a. if a == i then val % 256 else buffer a) (i + 1) n (val / 256)
            (omega (arith, pow-suc 256 n)),
      )
      whole
  where
    whole : val % 256 % 256 + 256 * (val / 256) ≡ val
    whole = omega arith

-- A read beside what was written.
read-write_apart :
    (buffer : ℕ → ℕ) (i j val : ℕ)
    → (i + 8 ≤ j) ⊎ (j + 8 ≤ i)
    → read_le_bytes (write_le_bytes buffer i 8 val) j 8 ≡ read_le_bytes buffer j 8
read-write_apart buffer i j val (inl after) =
    read_bytes_ext (write_le_bytes buffer i 8 val) buffer j 8
      (λ a le lt. write_le_bytes-above buffer i 8 val a (omega arith))
read-write_apart buffer i j val (inr before) =
    read_bytes_ext (write_le_bytes buffer i 8 val) buffer j 8
      (λ a le lt. write_le_bytes-below buffer i 8 val a (omega arith))

-- A word of memory is found at its offset.
in_ram-bounds :
    (b : Bus) (addr : ℕ)
    → in_ram b addr ≡ true
    → (b.memory.base_addr ≤ addr) × (addr + 8 ≤ b.memory.base_addr + b.memory.size)
unfolding in_ram
in_ram-bounds b addr e = (
  leb→le b.memory.base_addr addr (and_true _ _ e).0,
  leb→le (addr + 8) (b.memory.base_addr + b.memory.size) (and_true _ _ e).1,
)

found :
    (b : Bus) (addr : ℕ)
    → in_ram b addr ≡ true
    → find_device b addr ≡ some (addr - b.memory.base_addr)
unfolding find_device
found b addr e = if_true _ _ _ (claimed (in_ram-bounds b addr e))
  where
    claimed :
        (b.memory.base_addr ≤ addr) × (addr + 8 ≤ b.memory.base_addr + b.memory.size)
        → (leb b.memory.base_addr addr && ltb addr (b.memory.base_addr + b.memory.size)) ≡ true
    claimed (low, high) = ground arith

read_u64-found :
    (b : Bus) (buffer : ℕ → ℕ) (addr : ℕ)
    → in_ram b addr ≡ true
    → read_u64 b buffer addr ≡ read_le_bytes buffer (addr - b.memory.base_addr) 8
unfolding read_u64 read_at
read_u64-found b buffer addr e = ap (read_at buffer) (found b addr e)

write_u64-found :
    (b : Bus) (buffer : ℕ → ℕ) (addr val : ℕ)
    → in_ram b addr ≡ true
    → write_u64 b buffer addr val ≡ write_le_bytes buffer (addr - b.memory.base_addr) 8 val
unfolding write_u64 write_at
write_u64-found b buffer addr val e = ap (λ o. write_at buffer o val) (found b addr e)

-- An aligned word is read as it was written, and another one as before.
read_u64-write_u64 :
    (b : Bus) (buffer : ℕ → ℕ) (addr val a : ℕ)
    → Word (walk_ops b) addr
    → Word (walk_ops b) a
    → val < 2 ^ 64
    → read_u64 b (write_u64 b buffer addr val) a ≡ (if a == addr then val else read_u64 b buffer a)
read_u64-write_u64 b buffer addr val a (e, m) (f, n) h = elim (Bool-cases (a == addr)) [
  | inl same ↦
      stored
      ∙ ap (λ t. read_le_bytes written (t - b.memory.base_addr) 8) ((==_iff a addr).0 same)
      ∙ read-write buffer (addr - b.memory.base_addr) 8 val h
      ∙ sym (if_true (a == addr) val (read_u64 b buffer a) same)
  | inr other ↦
      stored
      ∙ read-write_apart buffer (addr - b.memory.base_addr) (a - b.memory.base_addr) val
          (apart (==_false a addr other) (in_ram-bounds b addr e) (in_ram-bounds b a f))
      ∙ sym (read_u64-found b buffer a f)
      ∙ sym (if_false (a == addr) val (read_u64 b buffer a) other)
]
  where
    written : ℕ → ℕ
    written = write_le_bytes buffer (addr - b.memory.base_addr) 8 val

    stored :
        read_u64 b (write_u64 b buffer addr val) a
        ≡ read_le_bytes written (a - b.memory.base_addr) 8
    stored =
        read_u64-found b (write_u64 b buffer addr val) a f
        ∙ ap (λ g. read_le_bytes g (a - b.memory.base_addr) 8) (write_u64-found b buffer addr val e)

    apart :
        a ≢ addr
        → (b.memory.base_addr ≤ addr) × (addr + 8 ≤ b.memory.base_addr + b.memory.size)
        → (b.memory.base_addr ≤ a) × (a + 8 ≤ b.memory.base_addr + b.memory.size)
        → (addr - b.memory.base_addr + 8 ≤ a - b.memory.base_addr)
          ⊎ (a - b.memory.base_addr + 8 ≤ addr - b.memory.base_addr)
    apart ne (low, high) (low_a, high_a) = ground arith

-- The bus reaches the words of its memory as a walk needs it.
pub walk_ops_laws : (b : Bus) → BusLaws (ℕ → ℕ) (walk_ops b)
walk_ops_laws b = record {
  word = λ buffer addr w.
      subst (λ t. t < 2 ^ 64) (sym (read_u64-found b buffer addr w.0))
        (read_le_bytes-lt buffer (addr - b.memory.base_addr) 8);
  read-value = λ buffer addr w. refl;
  read-keeps = λ buffer addr a w x. refl;
  write-value = read_u64-write_u64 b;
}
