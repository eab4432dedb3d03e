-- ===== src/Base/Tabulate.antt =====
-- The list `f 0, f 1, …, f (n - 1)`: what a circular buffer holds, oldest first.
use Prim.Native.Nat.{ℕ, zero, suc, ◌<◌, ◌≤◌}
use mathlib.Core.Path.{◌≡◌, refl, ap, ap₂}
use mathlib.Core.List.{List, [], ◌∷◌, ◌++◌, map}
use native.Mathlib.Omega.{arith}
use inspectre.Base.Lists.{length, get_or, take}

module _ {ℓ} {A : Type ℓ} where
  abbrev pub tabulate : (ℕ → A) → ℕ → List A
  tabulate f zero = []
  tabulate f (suc n) = f 0 ∷ tabulate (λ i. f (suc i)) n

  pub length-tabulate : (f : ℕ → A) (n : ℕ) → length (tabulate f n) ≡ n
  length-tabulate f zero = refl
  length-tabulate f (suc n) = ap suc (length-tabulate (λ i. f (suc i)) n)

  pub tabulate_ext :
      (f g : ℕ → A) (n : ℕ) → ((i : ℕ) → i < n → f i ≡ g i) → tabulate f n ≡ tabulate g n
  tabulate_ext f g zero h = refl
  tabulate_ext f g (suc n) h =
      ap₂ ◌∷◌ (h 0 (omega arith))
        (tabulate_ext (λ i. f (suc i)) (λ i. g (suc i)) n (λ i p. h (suc i) (omega arith)))

  pub tabulate-snoc : (f : ℕ → A) (n : ℕ) → tabulate f (suc n) ≡ tabulate f n ++ (f n ∷ [])
  tabulate-snoc f zero = refl
  tabulate-snoc f (suc n) = ap (◌∷◌ (f 0)) (tabulate-snoc (λ i. f (suc i)) n)

  pub get_or-tabulate : (f : ℕ → A) (n k : ℕ) (d : A) → k < n → get_or (tabulate f n) k d ≡ f k
  get_or-tabulate f zero k d h = elim h [ ]
  get_or-tabulate f (suc n) zero d h = refl
  get_or-tabulate f (suc n) (suc k) d h = get_or-tabulate (λ i. f (suc i)) n k d (omega arith)

  pub take-tabulate : (f : ℕ → A) (n k : ℕ) → k ≤ n → take k (tabulate f n) ≡ tabulate f k
  take-tabulate f n zero h = refl
  take-tabulate f zero (suc k) h = absurd (omega arith)
  take-tabulate f (suc n) (suc k) h =
      ap (◌∷◌ (f 0)) (take-tabulate (λ i. f (suc i)) n k (omega arith))

module _ {ℓ κ} {A : Type ℓ} {B : Type κ} (g : A → B) where
  pub map-tabulate : (f : ℕ → A) (n : ℕ) → map g (tabulate f n) ≡ tabulate (λ i. g (f i)) n
  map-tabulate f zero = refl
  map-tabulate f (suc n) = ap (◌∷◌ (g (f 0))) (map-tabulate (λ i. f (suc i)) n)
