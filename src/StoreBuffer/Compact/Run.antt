-- ===== src/StoreBuffer/Compact/Run.antt =====
-- The compaction loops of `flush_speculative` and `flush_after`: all rounds, and the two flushes.
use mathlib.Core.Path.{subst}
use mathlib.Core.List.{append-nil, append_assoc}
use inspectre.Base.{
  [], leb, ◌==◌, ==_iff, Bool-cases, length, slot, slot-zero, slot-suc, tabulate, tabulate_ext, ℕ,
  zero, suc, ◌+◌, ◌≤◌, ◌<◌, ◌≡◌, refl, sym, ap, ◌∙◌, inl, inr, Bool, true, List, ◌∷◌, ◌++◌, arith,
}
use inspectre.Rob.{RobTag}
use inspectre.StoreBuffer.{
  StoreBuffer, StoreBufferEntry, capacity, is_committed, Compaction, compact, start, keep_only,
  flush_speculative, flush_after,
}
use inspectre.StoreBuffer.Spec
use inspectre.StoreBuffer.Invariant.{IsValid, store_at, stores}
use inspectre.StoreBuffer.Compact.{IsLoop, IsRound, passes, at, step, compact_step-IsRound}

module _ (test : StoreBufferEntry → Bool) (h : ℕ) where
  -- What `n` rounds from `i` on make of the loop's state.
  record IsRun (i n : ℕ) (c d : Compaction) : Type 0 where
    loop : IsLoop test h (i + n) d
    size : length d.slots ≡ length c.slots
    kept :
        tabulate (at test h d) d.new_count
        ≡ tabulate (at test h c) c.new_count
          ++ Spec.keep (passes test h) (tabulate (λ k. at test h c (i + k)) n)

  keep-cons :
      (e : StoreBufferEntry) (q : List StoreBufferEntry)
      → Spec.keep (passes test h) (e ∷ []) ++ Spec.keep (passes test h) q
        ≡ Spec.keep (passes test h) (e ∷ q)
  keep-cons e q = elim (Bool-cases (passes test h e)) [ inl t ↦ rw t refl | inr f ↦ rw f refl ]

  -- A round and the rest of the run.
  IsRun-suc :
      (n i : ℕ) (c d o : Compaction)
      → i + suc n ≤ length c.slots
      → IsRound test h i c d
      → IsRun (suc i) n d o
      → IsRun i (suc n) c o
  IsRun-suc n i c d o p r t = record {
    loop = subst (λ m. IsLoop test h m o) (omega arith) t.loop;
    size = t.size ∙ r.size;
    kept =
        t.kept
        ∙ (λ j. r.kept j ++ Spec.keep (passes test h) (tabulate_ext _ _ n (λ k q. later k q) j))
        ∙ append_assoc (tabulate (at test h c) c.new_count)
            (Spec.keep (passes test h) (at test h c i ∷ [])) _
        ∙ ap (λ q. tabulate (at test h c) c.new_count ++ q)
            (keep-cons (at test h c i) (tabulate (λ k. at test h c (i + suc k)) n)
              ∙ ap
                  (λ (m : ℕ).
                    Spec.keep (passes test h)
                      (at test h c m ∷ tabulate (λ k. at test h c (i + suc k)) n))
                  (omega arith));
  }
    where
      later : (k : ℕ) → k < n → at test h d (suc i + k) ≡ at test h c (i + suc k)
      later k q = r.ahead (suc i + k) (omega arith) (omega arith) ∙ ap (at test h c) (omega arith)

  compact-IsRun :
      (n i : ℕ) (c : Compaction)
      → IsLoop test h i c
      → i + n ≤ length c.slots
      → IsRun i n c (compact test n c (slot (length c.slots) h i))
  compact-IsRun zero i c l p = record {
    loop = subst (λ m. IsLoop test h m c) (omega arith) l;
    size = refl;
    kept = sym (append-nil _);
  }
  compact-IsRun (suc n) i c l p = IsRun-suc n i c d _ p r (
      subst (λ m. IsRun (suc i) n d (compact test n d m)) here
        (compact-IsRun n (suc i) d r.loop (rw r.size (omega arith))))
    where
      below : i < length c.slots
      below = omega arith

      d : Compaction
      d = step test h i c l below

      r : IsRound test h i c d
      r = compact_step-IsRound test h i c l below

      here : slot (length d.slots) h (suc i) ≡ slot (length c.slots) (slot (length c.slots) h i) 1
      here = ap (λ m. slot m h (suc i)) r.size ∙ sym (slot-suc (length c.slots) h i)

-- All stores of a valid buffer are live, so the loops' guard on `valid` passes.
keep-live :
    (test : StoreBufferEntry → Bool) (h : ℕ) (g : ℕ → StoreBufferEntry) (n : ℕ)
    → ((k : ℕ) → k < n → (g k).valid ≡ true)
    → Spec.keep (passes test h) (tabulate g n) ≡ Spec.keep test (tabulate g n)
keep-live test h g zero v = refl
keep-live test h g (suc n) v =
    rw (v 0 (omega arith), keep-live test h (λ k. g (suc k)) n (λ k p. v (suc k) (omega arith)))
      refl

module _ (b : StoreBuffer) (test : StoreBufferEntry → Bool) (v : IsValid b) where
  run : IsRun test b.head 0 b.count (start b) (compact test b.count (start b) b.head)
  run =
      subst (λ m. IsRun test b.head 0 b.count (start b) (compact test b.count (start b) m))
        (slot-zero (capacity b) b.head v.head_in)
        (compact-IsRun test b.head b.count 0 (start b) begins (omega (arith, v.count_le)))
    where
      begins : IsLoop test b.head 0 (start b)
      begins = record {
        inside = v.head_in;
        tail_at = sym (slot-zero (capacity b) b.head v.head_in);
        count_le = omega arith;
        live = λ k p. absurd (omega arith);
      }

  keep_only_refines :
      IsValid (keep_only b test) × (stores (keep_only b test) ≡ Spec.keep test (stores b))
  keep_only_refines = elim (Bool-cases (b.count == 0)) [
    | inl e ↦ rw e (v, nothing ((==_iff b.count 0).0 e))
    | inr e ↦ rw e (
      record {
        head_in = run.loop.inside;
        count_le = omega (arith, run.loop.count_le, run.size, v.count_le);
        tail_at = run.loop.tail_at;
        live = run.loop.live;
      },
      run.kept
          ∙ ap (Spec.keep (passes test b.head))
              (tabulate_ext _ (store_at b) b.count (λ k p. ap (store_at b) (omega arith)))
          ∙ keep-live test b.head (store_at b) b.count v.live,
    )
  ]
    where
      nothing : b.count ≡ 0 → stores b ≡ Spec.keep test (stores b)
      nothing e =
          ap (tabulate (store_at b)) e ∙ sym (ap (λ n. Spec.keep test (tabulate (store_at b) n)) e)

-- A flush of the speculative stores keeps a valid buffer valid and keeps exactly the committed
-- stores, in order; one after a tag keeps exactly the stores whose tag is not above it, in order.
pub flushes_refine :
    (b : StoreBuffer) (t : RobTag)
    → IsValid b
    → (IsValid (flush_speculative b)
        × (stores (flush_speculative b) ≡ Spec.keep (λ e. is_committed e.state) (stores b)))
      × (IsValid (flush_after b t)
          × (stores (flush_after b t) ≡ Spec.keep (λ e. leb e.rob_tag t) (stores b)))
unfolding flush_speculative flush_after
flushes_refine b t v = (
  keep_only_refines b (λ e. is_committed e.state) v,
  keep_only_refines b (λ e. leb e.rob_tag t) v,
)
