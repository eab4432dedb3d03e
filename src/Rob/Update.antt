-- ===== src/Rob/Update.antt =====
-- The operations that change one entry by its tag: `complete`, `fault`, `set_csr_update` and
-- `set_store_info`; and the lookup by tag.
use inspectre.Base.{
  ℕ, zero, suc, ◌≡◌, ◌≢◌, refl, ap, sym, ◌∙◌, ◌<◌, inl, inr, false, none, some, set, length-set,
  slot, ring_at-set, tabulate, tabulate_ext, map-tabulate, ◌==◌, ==_iff, Option-cases, arith,
}
use inspectre.Rob.{Rob, RobTag, RobEntry, default_entry, capacity, update_entry, find_entry}
use inspectre.Rob.Spec
use inspectre.Rob.Invariant.{IsValid, entry_at, contents, tags_distinct}

-- A change of an entry that keeps its tag and its place in the buffer.
pub record IsLocal (f : RobEntry → RobEntry) : Type 0 where
  pub keeps_tag : (e : RobEntry) → (f e).tag ≡ e.tag
  pub keeps_valid : (e : RobEntry) → (f e).valid ≡ e.valid

module _ (r : Rob) (t : RobTag) (f : RobEntry → RobEntry) (v : IsValid r) where
  -- The buffer with the `i`-th entry changed.
  abbrev written : ℕ → Rob
  written i = record r { entries = set r.entries (slot (capacity r) r.head i) (f (entry_at r i)) }

  update_entry-missing : r.tag_index t ≡ none → update_entry r t f ≡ r
  unfolding update_entry
  update_entry-missing e = rw (e, update_entry)

  -- The tag's entry is live, so the guard on `valid` passes.
  update_entry-found :
      (i : ℕ)
      → i < r.count
      → r.tag_index t ≡ some (slot (capacity r) r.head i)
      → update_entry r t f ≡ written i
  unfolding update_entry
  update_entry-found i h e = rw (e, update_entry) (rw (v.live i h))

  entry_at-written :
      (i k : ℕ)
      → i < r.count
      → k < r.count
      → (entry_at r i).tag ≡ t
      → entry_at (written i) k ≡ Spec.at_tag t f (entry_at r k)
  entry_at-written i k hi hk e = ground (
    arith,
    ring_at-set default_entry r.entries r.head k i (f (entry_at r i)) v.head_in
        (omega (arith, v.count_le)) (omega (arith, v.count_le)),
    tags_distinct i k v hi hk,
  )

  contents-written :
      (i : ℕ)
      → i < r.count
      → (entry_at r i).tag ≡ t
      → contents (written i) ≡ Spec.update t f (contents r)
  contents-written i h e =
      rw (map-tabulate (Spec.at_tag t f) (entry_at r) r.count)
        (tabulate_ext (entry_at (written i)) _ r.count (λ k hk. entry_at-written i k h hk e))

  untagged :
      r.tag_index t ≡ none → (k : ℕ) → k < r.count → Spec.at_tag t f (entry_at r k) ≡ entry_at r k
  untagged e k h = rw (differs (λ q. elsewhere q))
    where
      elsewhere : (entry_at r k).tag ≡ t → ⊥
      elsewhere q = cc (v.indexed k h, ap r.tag_index q)

      differs : ((entry_at r k).tag ≡ t → ⊥) → ((entry_at r k).tag == t) ≡ false
      differs ne = ground arith

  -- The change reaches the live entry with the tag, and no other.
  pub update_entry_refines : contents (update_entry r t f) ≡ Spec.update t f (contents r)
  update_entry_refines = elim (Option-cases (r.tag_index t)) [
    | inl e ↦
        rw (update_entry-missing e, map-tabulate (Spec.at_tag t f) (entry_at r) r.count)
          (tabulate_ext (entry_at r) _ r.count (λ k h. sym (untagged e k h)))
    | inr (j, e) ↦ found j e (v.index_live t j e)
  ]
    where
      found :
          (j : ℕ)
          → r.tag_index t ≡ some j
          → (k : ℕ) × (k < r.count) × (slot (capacity r) r.head k ≡ j) × ((entry_at r k).tag ≡ t)
          → contents (update_entry r t f) ≡ Spec.update t f (contents r)
      found j e (k, below, here, tagged) =
          rw (update_entry-found k below (e ∙ ap some (sym here))) (contents-written k below tagged)

  written-IsValid : (i : ℕ) → i < r.count → (entry_at r i).tag ≡ t → IsLocal f → IsValid (written i)
  written-IsValid i h e l = record {
    head_in = rw length-set v.head_in;
    count_le = rw length-set v.count_le;
    tail_at = rw length-set v.tail_at;
    live =
        λ k p. ground (arith, entry_at-written i k h p e, l.keeps_valid (entry_at r k), v.live k);
    indexed = λ k p. tags k p ∙ v.indexed k p ∙ ap some (same_slot k);
    index_live = λ u j q. moved u j (v.index_live u j q);
  }
    where
      same_slot : (k : ℕ) → slot (capacity r) r.head k ≡ slot (capacity (written i)) r.head k
      same_slot k = rw length-set

      tag_at : (k : ℕ) → k < r.count → (entry_at (written i) k).tag ≡ (entry_at r k).tag
      tag_at k p = ground (arith, entry_at-written i k h p e, l.keeps_tag (entry_at r k))

      tags :
          (k : ℕ)
          → k < r.count
          → r.tag_index (entry_at (written i) k).tag ≡ r.tag_index (entry_at r k).tag
      tags k p = ap r.tag_index (tag_at k p)

      moved :
          (u : RobTag) (j : ℕ)
          → (k : ℕ) × (k < r.count) × (slot (capacity r) r.head k ≡ j) × ((entry_at r k).tag ≡ u)
          → (k : ℕ) × (k < r.count)
            × (slot (capacity (written i)) r.head k ≡ j)
            × ((entry_at (written i) k).tag ≡ u)
      moved u j (k, below, here, tagged) = (k, below, rw length-set here, tag_at k below ∙ tagged)

  pub update_entry-IsValid : IsLocal f → IsValid (update_entry r t f)
  update_entry-IsValid l = elim (Option-cases (r.tag_index t)) [
    | inl e ↦ rw (update_entry-missing e) v
    | inr (j, e) ↦ found j e (v.index_live t j e)
  ]
    where
      found :
          (j : ℕ)
          → r.tag_index t ≡ some j
          → (k : ℕ) × (k < r.count) × (slot (capacity r) r.head k ≡ j) × ((entry_at r k).tag ≡ t)
          → IsValid (update_entry r t f)
      found j e (k, below, here, tagged) =
          rw (update_entry-found k below (e ∙ ap some (sym here)))
            (written-IsValid k below tagged l)

-- A lookup by tag: the first live entry with the tag.
find-tabulate :
    (f : ℕ → RobEntry) (t : RobTag) (n k : ℕ)
    → k < n
    → (f k).tag ≡ t
    → ((i j : ℕ) → i < n → j < n → (f i).tag ≡ (f j).tag → i ≡ j)
    → Spec.find t (tabulate f n) ≡ some (f k)
find-tabulate f t zero k h e d = elim h [ ]
find-tabulate f t (suc n) zero h e d = rw ((==_iff (f 0).tag t).1 e)
find-tabulate f t (suc n) (suc k) h e d =
    rw (first (λ q. d 0 (suc k) (omega arith) h (q ∙ sym e))) (
      find-tabulate (λ i. f (suc i)) t n k (omega arith) e
        (λ i j hi hj q. omega (arith, d (suc i) (suc j) (omega arith) (omega arith) q)))
  where
    first : ((f 0).tag ≡ t → 0 ≡ suc k) → ((f 0).tag == t) ≡ false
    first ne = ground arith

find-missing :
    (f : ℕ → RobEntry) (t : RobTag) (n : ℕ)
    → ((k : ℕ) → k < n → (f k).tag ≢ t)
    → Spec.find t (tabulate f n) ≡ none
find-missing f t zero d = refl
find-missing f t (suc n) d =
    rw (first (d 0 (omega arith)))
      (find-missing (λ i. f (suc i)) t n (λ k h. d (suc k) (omega arith)))
  where
    first : (f 0).tag ≢ t → ((f 0).tag == t) ≡ false
    first ne = ground arith

-- On a valid buffer `find_entry` finds a tag exactly when a live entry has it, and returns that
-- entry.
pub find_entry_refines :
    (r : Rob) (t : RobTag) → IsValid r → find_entry r t ≡ Spec.find t (contents r)
unfolding find_entry
find_entry_refines r t v = elim (Option-cases (r.tag_index t)) [
  | inl e ↦
      rw (e, find_entry)
        (sym (find-missing (entry_at r) t r.count (λ k h q. cc (v.indexed k h, ap r.tag_index q))))
  | inr (j, e) ↦ found j e (v.index_live t j e)
]
  where
    found :
        (j : ℕ)
        → r.tag_index t ≡ some j
        → (k : ℕ) × (k < r.count) × (slot (capacity r) r.head k ≡ j) × ((entry_at r k).tag ≡ t)
        → find_entry r t ≡ Spec.find t (contents r)
    found j e (k, below, here, tagged) =
        rw (e ∙ ap some (sym here), find_entry)
          (rw (v.live k below) (
            sym (
              find-tabulate (entry_at r) t r.count k below tagged
                (λ a b ha hb q. tags_distinct a b v ha hb q))))
