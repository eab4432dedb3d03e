-- ===== src/Ras/Returns.antt =====
-- The return address stack as a bounded stack, and the returns that it predicts.
use native.Mathlib.Numerals.{add-one}
use inspectre.Base.{
  [], ltb, ◌==◌, if◌then◌else◌, ltb→lt, Bool-cases, zero-cases, length, get_or, set, length-set,
  length-replicate, get_or-set_self, get_or-set_ne, ℕ, zero, suc, ◌-◌, ◌≤◌, ◌<◌, ◌≡◌, refl, sym, ap,
  ◌∙◌, ◌⊎◌, inl, inr, true, false, Option, none, some, List, ◌∷◌, arith,
}
use inspectre.Ras.{Ras, new, push, pop, top}

pub record IsValid (r : Ras) : Type 0 where
  pub some_room : 0 < r.capacity
  pub size : length r.stack ≡ r.capacity
  pub ptr_le : r.ptr ≤ r.capacity

-- The `n` lowest places, the highest first.
abbrev newest_first : List ℕ → ℕ → List ℕ
newest_first es zero = []
newest_first es (suc n) = get_or es n 0 ∷ newest_first es n

-- The abstract view: the addresses to return to, the innermost first.
abbrev pub addresses : Ras → List ℕ
addresses r = newest_first r.stack r.ptr

-- A full stack forgets its innermost address.
abbrev pub pushed : ℕ → List ℕ → ℕ → List ℕ
pushed capacity [] addr = addr ∷ []
pushed capacity (a ∷ q) addr = if ltb (suc (length q)) capacity then addr ∷ a ∷ q else addr ∷ q

abbrev pub popped : List ℕ → List ℕ × Option ℕ
popped [] = ([], none)
popped (a ∷ q) = (q, some a)

abbrev pub first : List ℕ → Option ℕ
first [] = none
first (a ∷ q) = some a

length-newest_first : (es : List ℕ) (n : ℕ) → length (newest_first es n) ≡ n
length-newest_first es zero = refl
length-newest_first es (suc n) = ap suc (length-newest_first es n)

-- A write above the places does not reach them.
newest_first-set :
    (es : List ℕ) (n i v : ℕ) → n ≤ i → newest_first (set es i v) n ≡ newest_first es n
newest_first-set es zero i v p = refl
newest_first-set es (suc n) i v p =
    λ j. get_or-set_ne es i n v 0 (λ q. omega arith) j ∷ newest_first-set es n i v (omega arith) j

pushed-room :
    (capacity : ℕ) (q : List ℕ) (addr : ℕ)
    → ltb (length q) capacity ≡ true
    → pushed capacity q addr ≡ addr ∷ q
pushed-room capacity [] addr e = refl
pushed-room capacity (a ∷ q) addr e = rw e refl

pub new-IsValid : (n : ℕ) → 0 < n → IsValid (new n)
unfolding new
new-IsValid n p = record { some_room = p; size = length-replicate n 0; ptr_le = omega arith }

module _ (r : Ras) (v : IsValid r) where
  pub push-IsValid : (addr : ℕ) → IsValid (push r addr)
  unfolding push
  push-IsValid addr = elim (Bool-cases (ltb r.ptr r.capacity)) [
    | inl e ↦ rw e (record {
      some_room = v.some_room;
      size = length-set r.stack r.ptr addr ∙ v.size;
      ptr_le = omega (arith, ltb→lt r.ptr r.capacity e);
    })
    | inr e ↦ rw e (record {
      some_room = v.some_room;
      size = length-set r.stack (r.capacity - 1) addr ∙ v.size;
      ptr_le = v.ptr_le;
    })
  ]

  pop-IsValid : IsValid (pop r).0
  unfolding pop
  pop-IsValid = elim (Bool-cases (r.ptr == 0)) [
    | inl e ↦ rw e v
    | inr e ↦
        rw e (record { some_room = v.some_room; size = v.size; ptr_le = omega (arith, v.ptr_le) })
  ]

  push-room :
      (addr : ℕ) → ltb r.ptr r.capacity ≡ true → addresses (push r addr) ≡ addr ∷ addresses r
  unfolding push
  push-room addr e =
      rw (e, add-one r.ptr)
        (λ j.
          get_or-set_self r.stack r.ptr addr 0 (omega (arith, ltb→lt r.ptr r.capacity e, v.size)) j
          ∷ newest_first-set r.stack r.ptr r.ptr addr (omega arith) j)

  push-full :
      (addr k : ℕ)
      → ltb r.ptr r.capacity ≡ false
      → r.ptr ≡ suc k
      → addresses (push r addr) ≡ addr ∷ newest_first r.stack k
  unfolding push
  push-full addr k e q =
      rw (e, last, q)
        (λ j.
          get_or-set_self r.stack k addr 0 (omega (arith, v.ptr_le, v.size)) j
          ∷ newest_first-set r.stack k k addr (omega arith) j)
    where
      last : r.capacity - 1 ≡ k
      last = ground (arith, v.ptr_le)

  pushed-full :
      (addr k : ℕ)
      → ltb r.ptr r.capacity ≡ false
      → r.ptr ≡ suc k
      → pushed r.capacity (addresses r) addr ≡ addr ∷ newest_first r.stack k
  pushed-full addr k e q =
      ap (λ n. pushed r.capacity (newest_first r.stack n) addr) q
      ∙ rw (length-newest_first r.stack k, ← q, e) refl

  addresses-push : (addr : ℕ) → addresses (push r addr) ≡ pushed r.capacity (addresses r) addr
  addresses-push addr = elim (Bool-cases (ltb r.ptr r.capacity)) [
    | inl e ↦
        push-room addr e
        ∙ sym (pushed-room r.capacity (addresses r) addr (rw (length-newest_first r.stack r.ptr) e))
    | inr e ↦ full e (zero-cases r.ptr)
  ]
    where
      full :
          ltb r.ptr r.capacity ≡ false
          → (r.ptr ≡ 0) ⊎ ((k : ℕ) × (r.ptr ≡ suc k))
          → addresses (push r addr) ≡ pushed r.capacity (addresses r) addr
      full e (inl q) = absurd (ground (arith, v.some_room))
      full e (inr (k, q)) = push-full addr k e q ∙ sym (pushed-full addr k e q)

  module _ (k : ℕ) (q : r.ptr ≡ suc k) where
    some_left : (r.ptr == 0) ≡ false
    some_left = ground arith

    less : r.ptr - 1 ≡ k
    less = omega arith

    pop-some : pop r ≡ (record r { ptr = r.ptr - 1 }, some (get_or r.stack (r.ptr - 1) 0))
    unfolding pop
    pop-some = rw some_left refl

    top-some : top r ≡ some (get_or r.stack (r.ptr - 1) 0)
    unfolding top
    top-some = rw some_left refl

  abbrev seen : Ras × Option ℕ → List ℕ × Option ℕ
  seen (s, out) = (addresses s, out)

  pop-none : r.ptr ≡ 0 → pop r ≡ (r, none)
  unfolding pop
  pop-none q = ground arith

  pop-refines : seen (pop r) ≡ popped (addresses r)
  pop-refines = elim (zero-cases r.ptr) [
    | inl q ↦ ap seen (pop-none q) ∙ nothing q
    | inr (k, q) ↦
        ap seen (pop-some k q)
        ∙ ap (λ n. (newest_first r.stack n, some (get_or r.stack n 0))) (less k q)
        ∙ sym (ap (λ n. popped (newest_first r.stack n)) q)
  ]
    where
      nothing : r.ptr ≡ 0 → (addresses r, none) ≡ popped (addresses r)
      nothing q =
          ap (λ n. (newest_first r.stack n, none)) q
          ∙ sym (ap (λ n. popped (newest_first r.stack n)) q)

  top-none : r.ptr ≡ 0 → top r ≡ none
  unfolding top
  top-none q = ground arith

  top-refines : top r ≡ first (addresses r)
  top-refines = elim (zero-cases r.ptr) [
    | inl q ↦ top-none q ∙ sym (ap (λ n. first (newest_first r.stack n)) q)
    | inr (k, q) ↦
        top-some k q
        ∙ ap (λ n. some (get_or r.stack n 0)) (less k q)
        ∙ sym (ap (λ n. first (newest_first r.stack n)) q)
  ]

  -- A valid stack is a bounded one, and stays valid: a push puts the address on top, in place of
  -- the innermost one when the stack is full; a pop takes the innermost address, and `top` reads
  -- it.
  pub ras_refines :
      (addr : ℕ)
      → (IsValid (push r addr) × (addresses (push r addr) ≡ pushed r.capacity (addresses r) addr))
        × (IsValid (pop r).0 × ((addresses (pop r).0, (pop r).1) ≡ popped (addresses r)))
        × (top r ≡ first (addresses r))
  ras_refines addr =
      ((push-IsValid addr, addresses-push addr), (pop-IsValid, pop-refines), top-refines)
