-- ===== src/Lsu/Unaligned/Bytes.antt =====
-- core/units/lsu/unaligned.rs: a load of the bytes that a store wrote gives back the value.
use native.Mathlib.Nat.{mod-lt, one-le-pow, mod-eq_of_lt, mul-le-mul_right, pow-le-pow_right}
use inspectre.Base.{
  ◌==◌, if◌then◌else◌, ==_iff, ==_false, ==_ne, Bool-cases, if_true, if_false, bit_and-le, test_bit,
  test_bit-and, test_bit-or, test_bit-above, bits_ext, test_bit-shift, test_bit-mask, test_bit-rem,
  test_bit-multiple, test_bit-scaled, ℕ, zero, suc, ◌+◌, ◌-◌, ◌*◌, ◌/◌, ◌%◌, ◌^◌, ◌≤◌, ◌<◌, bit_and,
  bit_or, ◌≡◌, refl, sym, ap, subst, ◌∙◌, ◌⊎◌, inl, inr, Bool, true, false, ◌&&◌, ◌||◌, arith,
}
use inspectre.Lsu.Unaligned.{load_bytes, split_load, store_bytes, split_store}

-- A memory of bytes.
abbrev pub write_byte : (ℕ → ℕ) → ℕ → ℕ → ℕ → ℕ
write_byte m addr v a = if a == addr then v else m a

abbrev pub read_byte : (ℕ → ℕ) → ℕ → ℕ × (ℕ → ℕ)
read_byte m addr = (m addr, m)

abbrev byte_of : ℕ → ℕ → ℕ
byte_of val i = bit_and (val / 2 ^ (i * 8 % 64)) 255

-- A store leaves the bytes below its own.
store_bytes-before :
    (addr val i n j : ℕ) (m : ℕ → ℕ)
    → j < i
    → i + n ≤ 8
    → store_bytes write_byte addr val i n m ((addr + j) % 2 ^ 64) ≡ m ((addr + j) % 2 ^ 64)
unfolding store_bytes
store_bytes-before addr val i zero j m h le = refl
store_bytes-before addr val i (suc n) j m h le =
    store_bytes-before addr val (i + 1) n j (write_byte m ((addr + i) % 2 ^ 64) (byte_of val i))
      (omega arith) (omega arith)
    ∙ if_false _ _ _ (==_ne ((addr + j) % 2 ^ 64) ((addr + i) % 2 ^ 64) (λ e. absurd (omega arith)))

-- Each byte is where a load looks for it.
store_bytes-at :
    (addr val i n j : ℕ) (m : ℕ → ℕ)
    → i ≤ j
    → j < i + n
    → i + n ≤ 8
    → store_bytes write_byte addr val i n m ((addr + j) % 2 ^ 64) ≡ byte_of val j
unfolding store_bytes
store_bytes-at addr val i zero j m h lt le = absurd (omega arith)
store_bytes-at addr val i (suc n) j m h lt le = elim (Bool-cases (i == j)) [
  | inl e ↦
      store_bytes-before addr val (i + 1) n j (write_byte m ((addr + i) % 2 ^ 64) (byte_of val i))
        (omega (arith, (==_iff i j).0 e)) (omega arith)
      ∙ if_true _ _ _
          ((==_iff ((addr + j) % 2 ^ 64) ((addr + i) % 2 ^ 64)).1 (omega (arith, (==_iff i j).0 e)))
      ∙ ap (byte_of val) ((==_iff i j).0 e)
  | inr e ↦
      store_bytes-at addr val (i + 1) n j (write_byte m ((addr + i) % 2 ^ 64) (byte_of val i))
        (omega (arith, ==_false i j e)) (omega arith) (omega arith)
]

-- The next byte above the bytes so far.
append_byte :
    (val s : ℕ)
    → s + 8 ≤ 64
    → bit_or (val % 2 ^ s) (bit_and (val / 2 ^ s) 255 * 2 ^ s % 2 ^ 64) ≡ val % 2 ^ (s + 8)
append_byte val s h =
    bits_ext (bit_or (val % 2 ^ s) (byte * 2 ^ s % 2 ^ 64)) (val % 2 ^ (s + 8)) (λ k.
      test_bit-or (val % 2 ^ s) (byte * 2 ^ s % 2 ^ 64) k
      ∙ ap (λ t. test_bit (val % 2 ^ s) k || test_bit t k) fits
      ∙ at k (split k))
  where
    low_bytes : s ≤ 56
    low_bytes = omega arith

    byte : ℕ
    byte = bit_and (val / 2 ^ s) 255

    fits : byte * 2 ^ s % 2 ^ 64 ≡ byte * 2 ^ s
    fits = mod-eq_of_lt (
        omega (
          arith,
          mul-le-mul_right (2 ^ s) (bit_and-le (val / 2 ^ s) 255),
          pow-le-pow_right {n = 2} (omega arith) low_bytes,
        ))

    split : (k : ℕ) → (k < s) ⊎ ((j : ℕ) × (k ≡ j + s))
    split k = elim (le-cases k) [ inl lt ↦ inl lt | inr ge ↦ inr (k - s, omega arith) ]
      where
        le-cases : (k : ℕ) → (k < s) ⊎ (s ≤ k)
        le-cases k = ground arith

    low-lt : val % 2 ^ s < 2 ^ s
    low-lt = mod-lt val (one-le-pow s 2 (omega arith))

    or_false : (a : Bool) → (a || false) ≡ a
    or_false true = refl
    or_false false = refl

    and_on : (a b : Bool) → b ≡ true → (a && b) ≡ a
    and_on true b e = e
    and_on false b e = refl

    upper : (j : ℕ) → (j < 8) ⊎ (8 ≤ j) → test_bit byte j ≡ test_bit (val % 2 ^ (s + 8)) (j + s)
    upper j (inl lt) =
        test_bit-and (val / 2 ^ s) 255 j
        ∙ and_on (test_bit (val / 2 ^ s) j) (test_bit 255 j) (test_bit-mask 8 j lt)
        ∙ test_bit-shift s j val
        ∙ sym (test_bit-rem (s + 8) (j + s) val (omega arith))
    upper j (inr ge) =
        test_bit-above 8 j byte (omega (arith, bit_and-le (val / 2 ^ s) 255)) ge
        ∙ sym (
            test_bit-above (s + 8) (j + s) (val % 2 ^ (s + 8))
              (mod-lt val (one-le-pow (s + 8) 2 (omega arith))) (omega arith))

    at :
        (k : ℕ)
        → (k < s) ⊎ ((j : ℕ) × (k ≡ j + s))
        → (test_bit (val % 2 ^ s) k || test_bit (byte * 2 ^ s) k) ≡ test_bit (val % 2 ^ (s + 8)) k
    at k (inl lt) =
        ap (λ t. test_bit (val % 2 ^ s) k || t) (test_bit-multiple s k byte lt)
        ∙ or_false (test_bit (val % 2 ^ s) k)
        ∙ test_bit-rem s k val lt
        ∙ sym (test_bit-rem (s + 8) k val (omega arith))
    at k (inr (j, e)) =
        subst
          (λ k.
            (test_bit (val % 2 ^ s) k || test_bit (byte * 2 ^ s) k)
            ≡ test_bit (val % 2 ^ (s + 8)) k)
          (sym e)
          (ap (λ t. t || test_bit (byte * 2 ^ s) (j + s))
              (test_bit-above s (j + s) (val % 2 ^ s) low-lt (omega arith))
            ∙ test_bit-scaled s j byte
            ∙ upper j (halves j))
      where
        halves : (j : ℕ) → (j < 8) ⊎ (8 ≤ j)
        halves j = ground arith

-- A load of bytes that are in their places.
load_bytes-at :
    (addr val i n : ℕ) (m : ℕ → ℕ)
    → i + n ≤ 8
    → ((j : ℕ) → i ≤ j → j < i + n → m ((addr + j) % 2 ^ 64) ≡ byte_of val j)
    → (load_bytes read_byte addr i n m (val % 2 ^ (i * 8))).0 ≡ val % 2 ^ ((i + n) * 8)
unfolding load_bytes
load_bytes-at addr val i zero m le bytes = ap (λ t. val % 2 ^ t) same
  where
    same : i * 8 ≡ (i + 0) * 8
    same = omega arith
load_bytes-at addr val i (suc n) m le bytes =
    ap (λ acc. (load_bytes read_byte addr (i + 1) n m acc).0)
      (ap (λ b. bit_or (val % 2 ^ (i * 8)) (b * 2 ^ (i * 8 % 64) % 2 ^ 64))
          (bytes i (omega arith) (omega arith))
        ∙ ap (λ t. bit_or (val % 2 ^ (i * 8)) (bit_and (val / 2 ^ t) 255 * 2 ^ t % 2 ^ 64)) small
        ∙ append_byte val (i * 8) (omega arith)
        ∙ ap (λ t. val % 2 ^ t) next)
    ∙ load_bytes-at addr val (i + 1) n m (omega arith)
        (λ j le lt. bytes j (omega arith) (omega arith))
    ∙ ap (λ t. val % 2 ^ t) total
  where
    small : i * 8 % 64 ≡ i * 8
    small = omega arith

    next : i * 8 + 8 ≡ (i + 1) * 8
    next = omega arith

    total : (i + 1 + n) * 8 ≡ (i + suc n) * 8
    total = omega arith

-- In a memory of bytes, a split load after a split store of the same address and size, of at most
-- eight bytes, yields the low bytes of the value; the address may wrap around the end of memory.
pub split_load-split_store :
    (m : ℕ → ℕ) (addr size val : ℕ)
    → size ≤ 8
    → (split_load read_byte addr size (split_store write_byte addr size val m)).0
      ≡ val % 2 ^ (size * 8)
unfolding split_load split_store
split_load-split_store m addr size val le =
    ap (λ acc. (load_bytes read_byte addr 0 size stored acc).0) none_yet
    ∙ load_bytes-at addr val 0 size stored (omega arith)
        (λ j lo lt. store_bytes-at addr val 0 size j m (omega arith) (omega arith) (omega arith))
    ∙ ap (λ t. val % 2 ^ t) (ap (λ t. t * 8) whole)
  where
    stored : ℕ → ℕ
    stored = store_bytes write_byte addr val 0 size m

    whole : 0 + size ≡ size
    whole = omega arith

    none_yet : 0 ≡ val % 2 ^ (0 * 8)
    none_yet = omega arith
