-- ===== src/Base/Slots.antt =====
-- The slots of a circular buffer of `len` places: `k` places on from slot `h` stands slot
-- `(h + k) % len`, as the reorder buffer and the store buffer step their indices.
use Prim.Native.Nat.{ℕ, suc, ◌+◌, ◌-◌, ◌%◌, ◌≤◌, ◌<◌}
use mathlib.Core.Path.{◌≡◌, ap, ◌∙◌}
use mathlib.Core.Logic.{◌≢◌, ◌⊎◌, inl, inr}
use native.Mathlib.Nat.{mod-add-mod, mod-eq_of_lt, mod-eq-sub-mod, mod-lt}
use native.Mathlib.Decide.{dec_lt}
use native.Mathlib.Omega.{arith}
use inspectre.Base.Tests.{◌==◌, if◌then◌else◌}

abbrev pub slot : ℕ → ℕ → ℕ → ℕ
slot len h k = (h + k) % len

-- Going at most once round, the remainder is a subtraction.
pub slot-cases :
    (len h k : ℕ)
    → h < len
    → k ≤ len
    → ((h + k < len) × (slot len h k ≡ h + k)) ⊎ ((len ≤ h + k) × (slot len h k ≡ h + k - len))
slot-cases len h k p q = elim (dec_lt (h + k) len) [
  | yes lt ↦ inl (lt, mod-eq_of_lt lt)
  | no ge ↦ inr (
    omega arith,
    omega (
      arith,
      mod-eq-sub-mod {n = h + k} {m = len} (omega arith),
      mod-eq_of_lt {n = h + k - len} {m = len} (omega arith),
    ),
  )
]

pub slot-lt : (len h k : ℕ) → 0 < len → slot len h k < len
slot-lt len h k p = mod-lt (h + k) p

pub slot-zero : (len h : ℕ) → h < len → slot len h 0 ≡ h
slot-zero len h p = omega (arith, mod-eq_of_lt {n = h + 0} {m = len} (omega arith))

-- Different distances below `len` are different slots.
pub slot-injective :
    (len h i j : ℕ) → h < len → i < len → j < len → slot len h i ≡ slot len h j → i ≡ j
slot-injective len h i j p q r e =
    omega (arith, slot-cases len h i p (omega arith), slot-cases len h j p (omega arith))

-- One step on, as the loops take it.
pub slot-suc : (len h k : ℕ) → slot len (slot len h k) 1 ≡ slot len h (suc k)
slot-suc len h k = mod-add-mod (h + k) len 1 ∙ ap (λ t. t % len) (omega arith)

-- The head moved on by one.
pub slot-head_suc : (len h k : ℕ) → slot len (slot len h 1) k ≡ slot len h (suc k)
slot-head_suc len h k = mod-add-mod (h + 1) len k ∙ ap (λ t. t % len) (omega arith)

-- The loops that go backwards step from slot `0` to the last slot.
abbrev pub prev_slot : ℕ → ℕ → ℕ
prev_slot len i = if i == 0 then len - 1 else i - 1

pub prev_slot-slot :
    (len h k : ℕ) → h < len → suc k ≤ len → prev_slot len (slot len h (suc k)) ≡ slot len h k
prev_slot-slot len h k p q =
    ground (arith, slot-cases len h k p (omega arith), slot-cases len h (suc k) p (omega arith))

-- A walk that starts behind the head does not meet the slot at its end before it is there, not
-- even all the way round.
pub slot-ne : (len h i n : ℕ) → h < len → 1 ≤ i → i < n → n ≤ len → slot len h i ≢ slot len h n
slot-ne len h i n p lo hi top e =
    omega (arith, slot-cases len h i p (omega arith), slot-cases len h n p top)

-- A window shorter than the buffer ends at another slot than any of its own.
pub slot-ne_lt : (len h i n : ℕ) → h < len → i < n → n < len → slot len h i ≢ slot len h n
slot-ne_lt len h i n p hi top e =
    omega (arith, slot-cases len h i p (omega arith), slot-cases len h n p (omega arith))
