-- ===== src/Base/Ring.antt =====
-- A circular buffer over a vector: the entry `k` places behind the head, and the entries of a
-- window. The reorder buffer and the store buffer both keep their state so.
use Prim.Native.Nat.{ℕ, suc, ◌≤◌, ◌<◌}
use mathlib.Core.Path.{◌≡◌, refl, sym, ap, ◌∙◌}
use mathlib.Core.Logic.{◌≢◌, inl, inr}
use mathlib.Core.Bool.{true, false}
use mathlib.Core.List.{List, [], ◌∷◌, ◌++◌}
use native.Mathlib.Omega.{arith}
use inspectre.Base.Tests.{◌==◌, ==_iff, ==_ne, if◌then◌else◌, Bool-cases}
use inspectre.Base.Lists.{length, get_or, set, length-set, get_or-set_self, get_or-set_ne}
use inspectre.Base.Slots.{slot, slot-lt, slot-zero, slot-injective, slot-head_suc}
use inspectre.Base.Tabulate.{tabulate, tabulate_ext, tabulate-snoc}

module _ {ℓ} {A : Type ℓ} (d : A) where
  -- `d` stands for a read out of range.
  abbrev pub ring_at : List A → ℕ → ℕ → A
  ring_at es h k = get_or es (slot (length es) h k) d

  abbrev pub window : List A → ℕ → ℕ → List A
  window es h n = tabulate (ring_at es h) n

  pub ring_at-set :
      (es : List A) (h k i : ℕ) (v : A)
      → h < length es
      → i < length es
      → k < length es
      → ring_at (set es (slot (length es) h i) v) h k ≡ (if i == k then v else ring_at es h k)
  ring_at-set es h k i v hh hi hk =
      rw (length-set es (slot (length es) h i) v) (elim (Bool-cases (i == k)) [
        | inl e ↦
            rw (e, ← (==_iff i k).0 e) (get_or-set_self es _ v d (slot-lt _ h i (omega arith)))
        | inr e ↦
            rw e (get_or-set_ne es _ _ v d (λ q. differ e (slot-injective _ h i k hh hi hk q)))
      ])
    where
      differ : (i == k) ≡ false → i ≢ k
      differ e = ground arith

  pub ring_at-set_self :
      (es : List A) (h i : ℕ) (v : A)
      → h < length es
      → i < length es
      → ring_at (set es (slot (length es) h i) v) h i ≡ v
  ring_at-set_self es h i v hh hi = ring_at-set es h i i v hh hi hi ∙ rw ((==_iff i i).1 refl) refl

  pub ring_at-set_ne :
      (es : List A) (h k i : ℕ) (v : A)
      → h < length es
      → i < length es
      → k < length es
      → i ≢ k
      → ring_at (set es (slot (length es) h i) v) h k ≡ ring_at es h k
  ring_at-set_ne es h k i v hh hi hk ne = ring_at-set es h k i v hh hi hk ∙ rw (==_ne i k ne) refl

  -- A write outside the window leaves it alone.
  pub window-set_outside :
      (es : List A) (h n i : ℕ) (v : A)
      → h < length es
      → i < length es
      → n ≤ i
      → window (set es (slot (length es) h i) v) h n ≡ window es h n
  window-set_outside es h n i v hh hi hn =
      tabulate_ext _ _ n λ k hk. ring_at-set es h k i v hh hi (omega arith) ∙ skip k (omega arith)
    where
      skip : (k : ℕ) → k < i → (if i == k then v else ring_at es h k) ≡ ring_at es h k
      skip k hk = rw (lt-ne k hk)
        where
          lt-ne : (k : ℕ) → k < i → (i == k) ≡ false
          lt-ne k hk = ground arith

  -- Writing just behind the window extends it.
  pub window-push :
      (es : List A) (h n : ℕ) (v : A)
      → h < length es
      → n < length es
      → window (set es (slot (length es) h n) v) h (suc n) ≡ window es h n ++ (v ∷ [])
  window-push es h n v hh hn =
      tabulate-snoc (ring_at (set es (slot (length es) h n) v) h) n
      ∙ (λ i. window-set_outside es h n n v hh hn (omega arith) i ++ (last i ∷ []))
    where
      same : (n == n) ≡ true
      same = ground arith

      last : ring_at (set es (slot (length es) h n) v) h n ≡ v
      last = ring_at-set es h n n v hh hn hn ∙ rw same

  -- The oldest entry, and the window that starts behind it.
  pub window-pop :
      (es : List A) (h n : ℕ)
      → h < length es
      → window es h (suc n) ≡ get_or es h d ∷ window es (slot (length es) h 1) n
  window-pop es h n hh = λ i. get_or es (slot-zero (length es) h hh i) d ∷ rest i
    where
      rest : tabulate (λ k. ring_at es h (suc k)) n ≡ window es (slot (length es) h 1) n
      rest =
          tabulate_ext _ _ n (λ k _. ap (λ j. get_or es j d) (sym (slot-head_suc (length es) h k)))

  -- Once the head is written over and has moved on, what stood behind it is unchanged.
  pub ring_at-pop :
      (es : List A) (h k : ℕ) (v : A)
      → h < length es
      → suc k < length es
      → ring_at (set es h v) (slot (length es) h 1) k ≡ ring_at es h (suc k)
  ring_at-pop es h k v hh hk =
      rw (length-set es h v, slot-head_suc (length es) h k)
        (get_or-set_ne es h _ v d (λ q. behind (slot-zero (length es) h hh ∙ q)))
    where
      behind : slot (length es) h 0 ≡ slot (length es) h (suc k) → ⊥
      behind q = omega (arith, slot-injective (length es) h 0 (suc k) hh (omega arith) hk q)
