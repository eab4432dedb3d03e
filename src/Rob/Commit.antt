-- ===== src/Rob/Commit.antt =====
-- In-order retirement, and the flush of the whole buffer.
use inspectre.Base.{
  ℕ, zero, suc, ◌-◌, ◌≡◌, ◌≢◌, refl, ap, sym, ◌∙◌, ◌<◌, ◌⊎◌, inl, inr, true, false, Option, none,
  some, [], ◌∷◌, get_or, length-set, length-map, slot, slot-lt, slot-head_suc, slot-zero,
  ring_at-pop, tabulate, tabulate_ext, ◌==◌, ==_false, Bool-cases, arith,
}
use inspectre.Rob.{
  Rob, RobTag, RobEntry, default_entry, capacity, is_issued, head_entry, retired, commit_head,
  invalidate, flush_all,
}
use inspectre.Rob.Spec
use inspectre.Rob.Invariant.{IsValid, entry_at, contents, tags_distinct}

module _ (r : Rob) (n : ℕ) (v : IsValid r) (e : r.count ≡ suc n) where
  entry_at-zero : entry_at r 0 ≡ head_entry r
  entry_at-zero =
      ap (λ j. get_or r.entries j default_entry) (slot-zero (capacity r) r.head v.head_in)

  -- Behind the head nothing moves.
  entry_at-retired : (k : ℕ) → k < n → entry_at (retired r) k ≡ entry_at r (suc k)
  entry_at-retired k h =
      ring_at-pop default_entry r.entries r.head k _ v.head_in (omega (arith, v.count_le))

  one_less : r.count - 1 ≡ n
  one_less = omega arith

  -- The contents are the head entry and what is left once it has retired.
  pub contents-retired : contents r ≡ head_entry r ∷ contents (retired r)
  contents-retired =
      ap (tabulate (entry_at r)) e
      ∙ (λ i. entry_at-zero i ∷ behind i)
      ∙ ap (λ m. head_entry r ∷ tabulate (entry_at (retired r)) m) (sym one_less)
    where
      behind : tabulate (λ k. entry_at r (suc k)) n ≡ tabulate (entry_at (retired r)) n
      behind = tabulate_ext _ _ n (λ k h. sym (entry_at-retired k h))

  -- The tag that leaves is none of those that stay.
  pub tag-retired-ne :
      (k : ℕ) → k < (retired r).count → (entry_at (retired r) k).tag ≢ (head_entry r).tag
  tag-retired-ne k h q = absurd (
      omega (
        arith,
        tags_distinct 0 (suc k) v (omega arith) (omega arith) (
            ap (λ (x : RobEntry). x.tag) entry_at-zero
            ∙ sym q
            ∙ ap (λ (x : RobEntry). x.tag) (entry_at-retired k (omega arith))),
      ))

  slot-retired :
      (k : ℕ) → slot (capacity (retired r)) (retired r).head k ≡ slot (capacity r) r.head (suc k)
  slot-retired k = rw length-set (slot-head_suc (capacity r) r.head k)

  pub retired-IsValid : IsValid (retired r)
  retired-IsValid = record {
    head_in = rw length-set (slot-lt (capacity r) r.head 1 (omega (arith, v.head_in)));
    count_le = rw length-set (omega (arith, v.count_le));
    tail_at =
        v.tail_at
        ∙ ap (slot (capacity r) r.head) (e ∙ ap suc (sym one_less))
        ∙ sym (slot-retired (r.count - 1));
    live = λ k p. rw (entry_at-retired k (omega arith)) (v.live (suc k) (omega arith));
    indexed = λ k p. ground (
      arith,
      entry_at-retired k (omega arith),
      entry_at-zero,
      v.indexed (suc k) (omega arith),
      slot-retired k,
      tags_distinct 0 (suc k) v (omega arith) (omega arith),
    );
    index_live = λ t j q. moved t j q;
  }
    where
      Place : (t : RobTag) (j : ℕ) → Type 0
      Place t j =
          (k : ℕ) × (k < r.count - 1)
          × (slot (capacity (retired r)) (retired r).head k ≡ j)
          × ((entry_at (retired r) k).tag ≡ t)

      behind :
          (t : RobTag) (j : ℕ)
          → (t == (head_entry r).tag) ≡ false
          → (k : ℕ) × (k < r.count) × (slot (capacity r) r.head k ≡ j) × ((entry_at r k).tag ≡ t)
          → Place t j
      behind t j ne (zero, below, here, tagged) =
          absurd (==_false _ _ ne (sym tagged ∙ ap (λ (x : RobEntry). x.tag) entry_at-zero))
      behind t j ne (suc k, below, here, tagged) = (
        k,
        omega arith,
        slot-retired k ∙ here,
        ap (λ (x : RobEntry). x.tag) (entry_at-retired k (omega arith)) ∙ tagged,
      )

      moved : (t : RobTag) (j : ℕ) → (retired r).tag_index t ≡ some j → Place t j
      moved t j q = elim (Bool-cases (t == (head_entry r).tag)) [
        | inl same ↦ ground arith
        | inr ne ↦ behind t j ne (v.index_live t j (ground arith))
      ]

count-cases : (r : Rob) → (r.count ≡ 0) ⊎ ((n : ℕ) × (r.count ≡ suc n))
count-cases r = elim r.count as (λ c. (c ≡ 0) ⊎ ((n : ℕ) × (c ≡ suc n))) [
  | zero ↦ inl refl
  | suc n ↦ inr (n, refl)
]

-- What an operation leaves in flight, and what it returns.
abbrev pub seen : Rob × Option RobEntry → Spec.Queue × Option RobEntry
seen (s, out) = (contents s, out)

module _ (r : Rob) where
  commit_head-empty : r.count ≡ 0 → commit_head r ≡ (r, none)
  unfolding commit_head
  commit_head-empty e = ground arith

  commit_head-waiting : is_issued (head_entry r).state ≡ true → commit_head r ≡ (r, none)
  unfolding commit_head
  commit_head-waiting w = rw w (ground arith)

  pub commit_head-done :
      r.count ≢ 0
      → is_issued (head_entry r).state ≡ false
      → commit_head r ≡ (retired r, some (head_entry r))
  unfolding commit_head
  commit_head-done ne d = rw d (ground arith)

  -- What an entry's departure says of the state before it.
  pub commit_head-some :
      (e : RobEntry)
      → (commit_head r).1 ≡ some e
      → (n : ℕ) × (r.count ≡ suc n)
        × (commit_head r ≡ (retired r, some (head_entry r)))
        × (head_entry r ≡ e)
  commit_head-some e out = elim (count-cases r) [
    | inl none_left ↦
        absurd (cc (ap (λ (p : Rob × Option RobEntry). p.1) (commit_head-empty none_left)))
    | inr (n, c) ↦ elim (Bool-cases (is_issued (head_entry r).state)) [
      | inl waiting ↦
          absurd (cc (ap (λ (p : Rob × Option RobEntry). p.1) (commit_head-waiting waiting)))
      | inr done ↦ (
        n,
        c,
        commit_head-done (omega arith) done,
        cc (ap (λ (p : Rob × Option RobEntry). p.1) (commit_head-done (omega arith) done)),
      )
    ]
  ]

  -- Committing keeps a valid buffer valid, whether or not an entry leaves.
  pub commit_head-IsValid : IsValid r → IsValid (commit_head r).0
  commit_head-IsValid v = elim (count-cases r) [
    | inl none_left ↦ rw (commit_head-empty none_left) v
    | inr (n, e) ↦ elim (Bool-cases (is_issued (head_entry r).state)) [
      | inl waiting ↦ rw (commit_head-waiting waiting) v
      | inr done ↦ rw (commit_head-done (omega arith) done) (retired-IsValid r n v e)
    ]
  ]

  -- On a valid buffer `commit_head` is the queue's `commit`: the oldest entry leaves, and no
  -- other, exactly when it is no longer waiting; a waiting head stops it although younger entries
  -- may have completed.
  pub commit_head_refines : IsValid r → seen (commit_head r) ≡ Spec.commit (contents r)
  commit_head_refines v = elim (count-cases r) [
    | inl none_left ↦ rw (commit_head-empty none_left) (
        ap (λ n. (tabulate (entry_at r) n, none)) none_left
        ∙ sym (ap (λ n. Spec.commit (tabulate (entry_at r) n)) none_left))
    | inr (n, e) ↦ elim (Bool-cases (is_issued (head_entry r).state)) [
      | inl waiting ↦
          ap seen (commit_head-waiting waiting)
          ∙ ap (λ q. (q, none)) (contents-retired r n v e)
          ∙ sym (ap Spec.commit (contents-retired r n v e) ∙ rw waiting)
      | inr done ↦
          ap seen (commit_head-done (omega arith) done)
          ∙ sym (ap Spec.commit (contents-retired r n v e) ∙ rw done)
    ]
  ]

-- A flush of everything turns a valid buffer into an empty valid one of the same capacity, which
-- goes on counting tags where it was.
pub flush_all_lem :
    (r : Rob)
    → IsValid r
    → IsValid (flush_all r)
      × (contents (flush_all r) ≡ [])
      × (capacity (flush_all r) ≡ capacity r)
      × ((flush_all r).next_tag ≡ r.next_tag)
unfolding flush_all
flush_all_lem r v = (empty, refl, length-map invalidate r.entries, refl)
  where
    empty : IsValid (flush_all r)
    empty = record {
      head_in = rw length-map (omega (arith, v.head_in));
      count_le = omega arith;
      tail_at = sym (slot-zero _ 0 (rw length-map (omega (arith, v.head_in))));
      live = λ k p. absurd (omega arith);
      indexed = λ k p. absurd (omega arith);
      index_live = λ t j q. absurd (cc);
    }
