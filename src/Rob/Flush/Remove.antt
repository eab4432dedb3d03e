-- ===== src/Rob/Flush/Remove.antt =====
-- The two unbounded loops of `flush_after`: what they return, and that the fuel suffices.
use inspectre.Base.{
  ℕ, zero, suc, ◌+◌, ◌-◌, ◌≡◌, ◌≢◌, refl, ap, sym, ◌∙◌, ◌≤◌, ◌<◌, inl, inr, true, false, Option,
  none, some, List, length, set, length-set, slot, slot-ne, slot-ne_lt, slot-suc, ring_at,
  ring_at-set, ◌==◌, ==_iff, ==_false, ==_ne, Bool-cases, arith,
}
use inspectre.Rob.{RobTag, RobEntry, TagIndex, default_entry, invalidate, remove_tag}
use inspectre.Rob.Flush.{remove_until, count_until}

-- The places from `lo` to `n` have been taken out of the tag index; those below are untouched.
pub record IsRemoved (es : List RobEntry) (index : TagIndex) (h lo n : ℕ)
    (out : Option (List RobEntry × TagIndex)) : Type 0 where
  pub rest : List RobEntry
  pub rest_index : TagIndex
  pub returns : out ≡ some (rest, rest_index)
  pub same_length : length rest ≡ length es
  pub kept : (k : ℕ) → k < lo → ring_at default_entry rest h k ≡ ring_at default_entry es h k
  pub index_kept :
      (u : RobTag)
      → ((k : ℕ) → lo ≤ k → k < n → (ring_at default_entry es h k).tag ≢ u)
      → rest_index u ≡ index u
  pub index_gone : (k : ℕ) → lo ≤ k → k < n → rest_index (ring_at default_entry es h k).tag ≡ none

-- The vector with one place invalidated, as the loop writes it.
abbrev dropped : List RobEntry → ℕ → ℕ → List RobEntry
dropped es h i = set es (slot (length es) h i) (invalidate (ring_at default_entry es h i))

-- Invalidating an entry leaves every tag as it was.
tag-dropped :
    (es : List RobEntry) (h i k : ℕ)
    → h < length es
    → i < length es
    → k < length es
    → (ring_at default_entry (dropped es h i) h k).tag ≡ (ring_at default_entry es h k).tag
tag-dropped es h i k hh hi hk =
    ground (
      arith,
      ring_at-set default_entry es h k i (invalidate (ring_at default_entry es h i)) hh hi hk,
    )

-- In the window of `n` places no two tags are equal.
abbrev pub HasDistinctTags : List RobEntry → ℕ → ℕ → Type 0
HasDistinctTags es h n =
    (i k : ℕ)
    → i < k
    → k < n
    → (ring_at default_entry es h k).tag ≢ (ring_at default_entry es h i).tag

module _ (h n : ℕ) where
  IsRemoved-step :
      (es : List RobEntry) (index : TagIndex) (lo : ℕ) {out : Option (List RobEntry × TagIndex)}
      → h < length es
      → lo < n
      → n ≤ length es
      → HasDistinctTags es h n
      → IsRemoved
          (dropped es h lo)
          (remove_tag (ring_at default_entry es h lo).tag index)
          h
          (suc lo)
          n
          out
      → IsRemoved es index h lo n out
  IsRemoved-step es index lo {out} hh hi top distinct s = record {
    rest = s.rest;
    rest_index = s.rest_index;
    returns = s.returns;
    same_length = s.same_length ∙ length-set es _ _;
    kept = λ k p. s.kept k (omega arith) ∙ before k p;
    index_kept =
        λ u away. s.index_kept u (λ k p q. away' u away k p q) ∙ skip u (away lo (omega arith) hi);
    index_gone = λ k p q. gone k p q;
  }
    where
      here : RobEntry
      here = ring_at default_entry es h lo

      before :
          (k : ℕ)
          → k < lo
          → ring_at default_entry (dropped es h lo) h k ≡ ring_at default_entry es h k
      before k p = ground (
        arith,
        ring_at-set default_entry es h k lo (invalidate here) hh (omega arith) (omega arith),
      )

      same_tag :
          (k : ℕ)
          → k < n
          → (ring_at default_entry (dropped es h lo) h k).tag ≡ (ring_at default_entry es h k).tag
      same_tag k p = tag-dropped es h lo k hh (omega arith) (omega arith)

      away' :
          (u : RobTag)
          → ((k : ℕ) → lo ≤ k → k < n → (ring_at default_entry es h k).tag ≢ u)
          → (k : ℕ) → suc lo ≤ k
          → k < n
          → (ring_at default_entry (dropped es h lo) h k).tag ≢ u
      away' u away k p q e = away k (omega arith) q (sym (same_tag k q) ∙ e)

      skip : (u : RobTag) → here.tag ≢ u → remove_tag here.tag index u ≡ index u
      skip u ne = ground arith

      gone : (k : ℕ) → lo ≤ k → k < n → s.rest_index (ring_at default_entry es h k).tag ≡ none
      gone k p q = elim (Bool-cases (lo == k)) [
        | inl same ↦
            rw (← (==_iff lo k).0 same) (
              s.index_kept here.tag (λ j a b e. distinct lo j a b (sym (same_tag j b) ∙ e))
              ∙ erased)
        | inr differ ↦
            ap s.rest_index (sym (same_tag k q))
            ∙ s.index_gone k (omega (arith, ==_false lo k differ)) q
      ]
        where
          erased : remove_tag here.tag index here.tag ≡ none
          erased = ground arith

  -- With a round for each place and one for the test that ends the loop, it ends at the tail.
  pub remove_until-IsRemoved :
      (fuel : ℕ) (es : List RobEntry) (index : TagIndex) (lo : ℕ)
      → h < length es
      → 1 ≤ lo
      → lo ≤ n
      → n ≤ length es
      → n - lo < fuel
      → HasDistinctTags es h n
      → IsRemoved es index h lo n
          (remove_until fuel (slot (length es) h n) (slot (length es) h lo) es index)
  unfolding remove_until
  remove_until-IsRemoved zero es index lo hh one hi top enough distinct = absurd (omega arith)
  remove_until-IsRemoved (suc fuel) es index lo hh one hi top enough distinct =
      elim (Bool-cases (lo == n)) [
        | inl last ↦ rw ((==_iff lo n).0 last) (
            rw (self (slot (length es) h n)) (record {
              rest = es;
              rest_index = index;
              returns = refl;
              same_length = refl;
              kept = λ k p. refl;
              index_kept = λ u away. refl;
              index_gone = λ k p q. absurd (omega arith);
            }))
        | inr more ↦
            rw
              (
                ==_ne _ _ (slot-ne (length es) h lo n hh one (below more) top),
                slot-suc (length es) h lo,
              )
              (IsRemoved-step es index lo hh (below more) top distinct (
                rw length-set at (
                  remove_until-IsRemoved fuel (dropped es h lo) index' (suc lo) (rw length-set hh)
                    (omega arith) (below more) (rw length-set top) (omega (arith, below more))
                    (still (below more)))))
      ]
    where
      index' : TagIndex
      index' = remove_tag (ring_at default_entry es h lo).tag index

      below : (lo == n) ≡ false → lo < n
      below more = omega (arith, ==_false lo n more)

      still : lo < n → HasDistinctTags (dropped es h lo) h n
      still b i k p q e = distinct i k p q (
          sym (tag-dropped es h lo k hh (omega arith) (omega arith))
          ∙ e
          ∙ tag-dropped es h lo i hh (omega arith) (omega arith))

      self : (a : ℕ) → (a == a) ≡ true
      self a = ground arith

-- A window of live entries that does not fill the buffer is counted whole.
pub count_until_lem :
    (fuel : ℕ) (es : List RobEntry) (h i m acc : ℕ)
    → h < length es
    → i ≤ m
    → m < length es
    → m - i < fuel
    → ((k : ℕ) → k < m → (ring_at default_entry es h k).valid ≡ true)
    → count_until fuel (slot (length es) h m) (slot (length es) h i) es acc ≡ some (acc + (m - i))
unfolding count_until
count_until_lem zero es h i m acc hh le top enough live = absurd (omega arith)
count_until_lem (suc fuel) es h i m acc hh le top enough live = elim (Bool-cases (i == m)) [
  | inl last ↦ rw ((==_iff i m).0 last) (rw (self (slot (length es) h m)) (ap some (omega arith)))
  | inr more ↦
      rw
        (
          ==_ne _ _ (slot-ne_lt (length es) h i m hh (below more) top),
          slot-suc (length es) h i,
          live i (below more),
        )
        (count_until_lem fuel es h (suc i) m (acc + 1) hh (below more) top
            (omega (arith, below more)) live
          ∙ ap some (omega (arith, below more)))
]
  where
    self : (a : ℕ) → (a == a) ≡ true
    self a = ground arith

    below : (i == m) ≡ false → i < m
    below more = omega (arith, ==_false i m more)

-- Where the walk would begin at its end, nothing is counted.
pub count_until-here :
    (fuel tail i : ℕ) (es : List RobEntry) (acc : ℕ)
    → 0 < fuel
    → i ≡ tail
    → count_until fuel tail i es acc ≡ some acc
unfolding count_until
count_until-here zero tail i es acc h e = elim h [ ]
count_until-here (suc fuel) tail i es acc h e = rw ((==_iff i tail).1 e)
