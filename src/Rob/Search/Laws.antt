-- ===== src/Rob/Search/Laws.antt =====
-- The walks against the queue: backwards they find the youngest entry that qualifies, forwards
-- they meet every live entry once, oldest first.
use inspectre.Base.{
  ℕ, zero, suc, ◌+◌, ◌≡◌, refl, ap, sym, ◌∙◌, ◌≤◌, ◌<◌, inl, inr, Bool, true, false, not, ◌&&◌,
  ◌||◌, Option, some, none, List, length, tabulate, tabulate_ext, tabulate-snoc, slot, slot-zero,
  slot-suc, prev_slot, prev_slot-slot, ring_at, window, ◌==◌, ==_iff, if◌then◌else◌, Bool-cases,
  arith,
}
use mathlib.Core.List.{foldl}
use inspectre.Rob.{Rob, RobEntry, default_entry, capacity, is_completed}
use inspectre.Rob.Search.{
  targets, writes, result_of, scan_result, find_latest_result, scan_producer, find_latest_producer,
  fold_slots, for_each_valid,
}
use inspectre.Rob.Spec
use inspectre.Rob.Invariant.{IsValid, entry_at, contents}

-- A test on the youngest of a window comes before the tests on the others.
latest-window :
    (p : RobEntry → Bool) (es : List RobEntry) (h n : ℕ)
    → Spec.latest p (window default_entry es h (suc n)) ≡ (
        if p (ring_at default_entry es h n)
        then some (ring_at default_entry es h n)
        else Spec.latest p (window default_entry es h n))
latest-window p es h n =
    ap (Spec.latest p) (tabulate-snoc (ring_at default_entry es h) n)
    ∙ Spec.latest-snoc p (window default_entry es h n) (ring_at default_entry es h n)

and_then-if {ℓ} :
    {B : Type ℓ} (f : RobEntry → Option B) (b : Bool) (e : RobEntry) (o : Option RobEntry)
    → (if b then f e else Spec.and_then f o) ≡ Spec.and_then f (if b then some e else o)
and_then-if f true e o = refl
and_then-if f false e o = refl

-- What `find_latest_producer` returns of an entry.
abbrev pub producer_of : RobEntry → Option (ℕ × Bool)
producer_of e = some (e.result, is_completed e.state)

abbrev pub produces : ℕ → Bool → RobEntry → Bool
produces reg is_fp e = targets reg is_fp e && writes is_fp e

module _ (es : List RobEntry) (reg : ℕ) (is_fp : Bool) (h : ℕ) (hh : h < length es) where
  scan_result_lem :
      (n : ℕ)
      → n ≤ length es
      → scan_result es reg is_fp n (prev_slot (length es) (slot (length es) h n))
        ≡ Spec.and_then result_of (Spec.latest (targets reg is_fp) (window default_entry es h n))
  unfolding scan_result
  scan_result_lem zero top = refl
  scan_result_lem (suc n) top =
      rw (prev_slot-slot (length es) h n hh top, scan_result_lem n (omega arith))
        (and_then-if result_of (targets reg is_fp (ring_at default_entry es h n)) _ _)
      ∙ ap (Spec.and_then result_of) (sym (latest-window (targets reg is_fp) es h n))

  scan_producer_lem :
      (n : ℕ)
      → n ≤ length es
      → scan_producer es reg is_fp n (prev_slot (length es) (slot (length es) h n))
        ≡ Spec.and_then producer_of (Spec.latest (produces reg is_fp) (window default_entry es h n))
  unfolding scan_producer
  scan_producer_lem zero top = refl
  scan_producer_lem (suc n) top =
      rw (prev_slot-slot (length es) h n hh top, scan_producer_lem n (omega arith))
        (and_then-if producer_of (produces reg is_fp (ring_at default_entry es h n)) _ _)
      ∙ ap (Spec.and_then producer_of) (sym (latest-window (produces reg is_fp) es h n))

fold_slots_lem {ℓ} :
    {S : Type ℓ} (es : List RobEntry) (f : S → RobEntry → S) (h i n : ℕ) (s : S)
    → ((k : ℕ) → k < i + n → (ring_at default_entry es h k).valid ≡ true)
    → fold_slots es f n (slot (length es) h i) s
      ≡ foldl f s (tabulate (λ k. ring_at default_entry es h (i + k)) n)
unfolding fold_slots
fold_slots_lem es f h i zero s live = refl
fold_slots_lem es f h i (suc n) s live =
    rw (live i (omega arith), slot-suc (length es) h i)
      (fold_slots_lem es f h (suc i) n (f s (ring_at default_entry es h i))
        (λ k p. live k (omega arith)))
    ∙ (λ j. foldl f (f s (ring_at default_entry es h (first j))) (shifted j))
  where
    first : i ≡ i + 0
    first = omega arith

    shifted :
        tabulate (λ k. ring_at default_entry es h (suc i + k)) n
        ≡ tabulate (λ k. ring_at default_entry es h (i + suc k)) n
    shifted = tabulate_ext _ _ n (λ k _. ap (ring_at default_entry es h) (omega arith))

guarded {ℓ} :
    {B : Type ℓ} (z b : Bool) (x y : Option B)
    → (z ≡ true → y ≡ none)
    → x ≡ y
    → (if z || b then none else x) ≡ (if b then none else y)
guarded true true x y empty same = refl
guarded true false x y empty same = sym (empty refl)
guarded false true x y empty same = refl
guarded false false x y empty same = same

module _ (r : Rob) (v : IsValid r) where
  -- Of an empty buffer nothing is found.
  latest-empty {ℓ} :
      {B : Type ℓ} (f : RobEntry → Option B) (p : RobEntry → Bool)
      → (r.count == 0) ≡ true
      → Spec.and_then f (Spec.latest p (contents r)) ≡ none
  latest-empty f p z =
      ap (λ n. Spec.and_then f (Spec.latest p (tabulate (entry_at r) n))) ((==_iff r.count 0).0 z)

  -- On a valid buffer `for_each_valid` calls the closure on every in-flight instruction once,
  -- oldest first.
  pub for_each_valid_refines {ℓ} :
      {S : Type ℓ} (f : S → RobEntry → S) (s : S) → for_each_valid r f s ≡ foldl f s (contents r)
  unfolding for_each_valid
  for_each_valid_refines f s = elim (Bool-cases (r.count == 0)) [
    | inl z ↦ rw z (ap (λ n. foldl f s (tabulate (entry_at r) n)) (sym ((==_iff r.count 0).0 z)))
    | inr some_left ↦ rw some_left (
        ap (λ i. fold_slots r.entries f r.count i s) (sym (slot-zero (capacity r) r.head v.head_in))
        ∙ fold_slots_lem r.entries f r.head 0 r.count s (λ k p. v.live k (omega arith))
        ∙ ap (foldl f s) (tabulate_ext _ _ r.count (λ k _. ap (entry_at r) (omega arith))))
  ]

  -- On a valid buffer `find_latest_result` finds the youngest live entry whose destination is the
  -- register, and returns its value if that entry has completed; x0 has none.
  pub find_latest_result_refines :
      (reg : ℕ) (is_fp : Bool)
      → find_latest_result r reg is_fp ≡ (
          if not is_fp && reg == 0
          then none
          else Spec.and_then result_of (Spec.latest (targets reg is_fp) (contents r)))
  unfolding find_latest_result
  find_latest_result_refines reg is_fp = rw v.tail_at (
      guarded (r.count == 0) (not is_fp && reg == 0) _ _
        (latest-empty result_of (targets reg is_fp))
        (scan_result_lem r.entries reg is_fp r.head v.head_in r.count v.count_le))

  -- On a valid buffer `find_latest_producer` finds the youngest live entry that writes the
  -- register, and returns its value with whether it has completed; x0 has none.
  pub find_latest_producer_refines :
      (reg : ℕ) (is_fp : Bool)
      → find_latest_producer r reg is_fp ≡ (
          if not is_fp && reg == 0
          then none
          else Spec.and_then producer_of (Spec.latest (produces reg is_fp) (contents r)))
  unfolding find_latest_producer
  find_latest_producer_refines reg is_fp = rw v.tail_at (
      guarded (r.count == 0) (not is_fp && reg == 0) _ _
        (latest-empty producer_of (produces reg is_fp))
        (scan_producer_lem r.entries reg is_fp r.head v.head_in r.count v.count_le))
