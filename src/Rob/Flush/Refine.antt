-- ===== src/Rob/Flush/Refine.antt =====
-- The partial flush as a whole: it keeps the instructions up to the tag, but for one state. With
-- the buffer full and the tag that of the newest entry, the recount stops before it starts.
use inspectre.Base.{
  ℕ, zero, suc, ◌≡◌, ◌≢◌, refl, ap, sym, ◌∙◌, ◌≤◌, ◌<◌, inl, inr, true, false, none, some, ◌∷◌,
  length, slot, slot-suc, slot-zero, tabulate, ==_iff, ==_ne, Option-cases, arith,
}
use native.Mathlib.Decide.{dec_lt}
use inspectre.Rob.{Rob, RobTag, RobEntry, capacity}
use inspectre.Rob.Flush.{find_slot, remove_until, count_until, flush_from, flush_after}
use inspectre.Rob.Flush.Find.{find_slot-at, find_slot-none}
use inspectre.Rob.Flush.Remove.{IsRemoved, HasDistinctTags, remove_until-IsRemoved, count_until_lem}
use inspectre.Rob.Spec
use inspectre.Rob.Invariant.{IsValid, entry_at, contents, tags_distinct}

up_to-tabulate :
    (f : ℕ → RobEntry) (t : RobTag) (n k : ℕ)
    → k < n
    → (f k).tag ≡ t
    → ((j : ℕ) → j < k → (f j).tag ≢ t)
    → (Spec.has_tag t (tabulate f n) ≡ true) × (Spec.up_to t (tabulate f n) ≡ tabulate f (suc k))
up_to-tabulate f t zero k h e before = elim h [ ]
up_to-tabulate f t (suc n) zero h e before = rw ((==_iff (f 0).tag t).1 e) (refl, refl)
up_to-tabulate f t (suc n) (suc k) h e before = rw (==_ne _ _ (before 0 (omega arith))) (
    extend
      (up_to-tabulate (λ i. f (suc i)) t n k (omega arith) e (λ j p. before (suc j) (omega arith))))
  where
    extend :
        (Spec.has_tag t (tabulate (λ i. f (suc i)) n) ≡ true)
          × (Spec.up_to t (tabulate (λ i. f (suc i)) n) ≡ tabulate (λ i. f (suc i)) (suc k))
        → (Spec.has_tag t (tabulate (λ i. f (suc i)) n) ≡ true)
          × (f 0 ∷ Spec.up_to t (tabulate (λ i. f (suc i)) n) ≡ tabulate f (suc (suc k)))
    extend (has, up) = (has, ap (◌∷◌ (f 0)) up)

has_tag-none :
    (f : ℕ → RobEntry) (t : RobTag) (n : ℕ)
    → ((j : ℕ) → j < n → (f j).tag ≢ t)
    → Spec.has_tag t (tabulate f n) ≡ false
has_tag-none f t zero before = refl
has_tag-none f t (suc n) before =
    rw (==_ne _ _ (before 0 (omega arith)))
      (has_tag-none (λ i. f (suc i)) t n (λ j p. before (suc j) (omega arith)))

module _ (r : Rob) (t : RobTag) (v : IsValid r) where
  distinct : HasDistinctTags r.entries r.head r.count
  distinct i k p q e = omega (arith, tags_distinct i k v (omega arith) q (sym e))

  -- The flush of a tag that is not in flight changes nothing.
  pub flush_after-missing :
      r.tag_index t ≡ none
      → (flush_after r t ≡ some r) × (Spec.flush_after t (contents r) ≡ contents r)
  unfolding flush_after
  flush_after-missing e = (ground (arith, search), rw (has_tag-none (entry_at r) t r.count away))
    where
      away : (k : ℕ) → k < r.count → (entry_at r k).tag ≢ t
      away k h q = cc (v.indexed k h, ap r.tag_index q)

      search : find_slot r.entries t r.count r.head ≡ none
      search =
          ap (find_slot r.entries t r.count) (sym (slot-zero (capacity r) r.head v.head_in))
          ∙ find_slot-none r.entries t r.head 0 r.count (λ j p. away j (omega arith))

  module _ (k : ℕ) (below : k < r.count) (tagged : (entry_at r k).tag ≡ t) where
    before : (j : ℕ) → j < k → (entry_at r j).tag ≢ t
    before j p e = omega (arith, tags_distinct j k v (omega arith) below (e ∙ sym tagged))

    pub flush_after-found : flush_after r t ≡ flush_from r (slot (capacity r) r.head k)
    unfolding flush_after
    flush_after-found = ground (arith, search)
      where
        search : find_slot r.entries t r.count r.head ≡ some (slot (capacity r) r.head k)
        search =
            ap (find_slot r.entries t r.count) (sym (slot-zero (capacity r) r.head v.head_in))
            ∙ find_slot-at r.entries t r.head 0 k r.count v.head_in (omega arith) (omega arith)
                (omega (arith, v.count_le)) tagged before

    pub spec-found : Spec.flush_after t (contents r) ≡ tabulate (entry_at r) (suc k)
    spec-found = rw (up.0) (up.1)
      where
        up :
            (Spec.has_tag t (contents r) ≡ true)
            × (Spec.up_to t (contents r) ≡ tabulate (entry_at r) (suc k))
        up = up_to-tabulate (entry_at r) t r.count k below tagged before

    pub removed :
        IsRemoved r.entries r.tag_index r.head (suc k) r.count (
          remove_until (capacity r) r.tail (slot (capacity r) r.head (suc k)) r.entries r.tag_index)
    removed = rw v.tail_at (
        remove_until-IsRemoved r.head r.count (capacity r) r.entries r.tag_index (suc k) v.head_in
          (omega arith) below v.count_le (omega (arith, v.head_in, v.count_le)) distinct)

    -- The buffer that is left when `n` entries are counted.
    abbrev pub left : ℕ → Rob
    left n = record r {
      entries = removed.rest;
      tag_index = removed.rest_index;
      tail = slot (capacity r) r.head (suc k);
      count = n;
    }

    pub flush_from-count :
        (n : ℕ)
        → count_until (capacity r) (slot (capacity r) r.head (suc k)) r.head removed.rest 0 ≡ some n
        → flush_from r (slot (capacity r) r.head k) ≡ some (left n)
    unfolding flush_from
    flush_from-count n e = rw (slot-suc (capacity r) r.head k, removed.returns) (rw e)

    pub entry_at-left : (n j : ℕ) → j < suc k → entry_at (left n) j ≡ entry_at r j
    entry_at-left n j p = removed.kept j p

    slot-left : (j : ℕ) → slot (length removed.rest) r.head j ≡ slot (capacity r) r.head j
    slot-left j = ap (λ n. slot n r.head j) removed.same_length

    -- What the recount finds, unless the entries that stay fill the buffer.
    pub counted :
        suc k < capacity r
        → count_until (capacity r) (slot (capacity r) r.head (suc k)) r.head removed.rest 0
          ≡ some (suc k)
    counted room =
        (λ i. count_until (capacity r) (sym (slot-left (suc k)) i) (start i) removed.rest 0)
        ∙ count_until_lem (capacity r) removed.rest r.head 0 (suc k) 0
            (rw removed.same_length v.head_in) (omega arith) (rw removed.same_length room)
            (omega arith) (λ j p. rw (removed.kept j p) (v.live j (omega arith)))
        ∙ ap some (omega arith)
      where
        start : r.head ≡ slot (length removed.rest) r.head 0
        start = sym (slot-left 0 ∙ slot-zero (capacity r) r.head v.head_in)

    -- A tag that stays is none of those that go.
    index-left :
        (x : ℕ) (u : RobTag)
        → x < suc k
        → (entry_at r x).tag ≡ u
        → removed.rest_index u ≡ r.tag_index u
    index-left x u p e =
        removed.index_kept u
          λ y a b q. lt_irrefl y a (tags_distinct x y v (omega arith) b (e ∙ sym q))
      where
        lt_irrefl : (y : ℕ) → suc k ≤ y → x ≡ y → ⊥
        lt_irrefl y a e = omega arith

    Place : RobTag → ℕ → Type 0
    Place u j =
        (x : ℕ) × (x < suc k)
        × (slot (length removed.rest) r.head x ≡ j)
        × ((entry_at (left (suc k)) x).tag ≡ u)

    found :
        (u : RobTag) (j i : ℕ)
        → removed.rest_index u ≡ some j
        → r.tag_index u ≡ some i
        → (x : ℕ) × (x < r.count) × (slot (capacity r) r.head x ≡ i) × ((entry_at r x).tag ≡ u)
        → Place u j
    unfolding Place
    found u j i q e (x, p, here, tag) = elim (dec_lt x (suc k)) [
      | yes low ↦ (
        x,
        low,
        slot-left x ∙ here ∙ same (sym e ∙ sym (index-left x u low tag) ∙ q),
        ap (λ (a : RobEntry). a.tag) (entry_at-left (suc k) x low) ∙ tag,
      )
      | no high ↦ absurd (cc (removed.index_gone x (omega arith) p))
    ]
      where
        same : some i ≡ some j → i ≡ j
        same e = cc

    placed : (u : RobTag) (j : ℕ) → removed.rest_index u ≡ some j → Place u j
    placed u j q = elim (Option-cases (r.tag_index u)) [
      | inl e ↦ absurd (cc (removed.index_kept u (λ y a b tag. cc (v.indexed y b))))
      | inr (i, e) ↦ found u j i q e (v.index_live u i e)
    ]

    pub left-IsValid : suc k ≤ capacity r → IsValid (left (suc k))
    unfolding Place
    left-IsValid room = record {
      head_in = rw removed.same_length v.head_in;
      count_le = rw removed.same_length room;
      tail_at = rw removed.same_length refl;
      live = λ j p. rw (entry_at-left (suc k) j p) (v.live j (omega arith));
      indexed = λ j p.
          ap (λ (a : RobEntry). removed.rest_index a.tag) (entry_at-left (suc k) j p)
          ∙ index-left j _ p refl
          ∙ v.indexed j (omega arith)
          ∙ ap some (sym (slot-left j));
      index_live = placed;
    }
