-- ===== src/Plic/Highest.antt =====
-- crates/hardware/src/soc/devices/plic.rs: the interrupt that a context claims has the highest
-- priority.
use native.Mathlib.Nat.{le_refl}
use inspectre.Base.{
  ltb, ◌==◌, if◌then◌else◌, ==_iff, ltb→lt, Bool-cases, and_true, if_true, if_false, length,
  test_bit-zero, has, has-bit, ℕ, zero, suc, ◌+◌, ◌*◌, ◌/◌, ◌%◌, ◌^◌, ◌≤◌, ◌<◌, ◌≡◌, refl, sym, ap,
  subst, ◌∙◌, ◌⊎◌, inl, inr, Bool, true, false, not, ◌&&◌, arith,
}
use inspectre.Plic.{
  Plic, Highest, threshold_of, priority_of, num_words, active, qualifies, better, scan_word,
  scan_from, calc_max_id,
}

module _ (p : Plic) (ctx : ℕ) where
  -- Whether interrupt `i` is pending, enabled and of a priority above the threshold.
  abbrev pub qual : ℕ → Bool
  qual i = qualifies p ctx (i / 32) (i % 32)

  -- Among the interrupts below `upto` none qualifies and the pair is zero, or it is one that qualifies
  -- with its priority, no one has a higher priority, and none before it an equal one.
  unfoldable pub Best : ℕ → Highest → Type 0
  Best upto (max_prio, max_id) =
      ((max_id ≡ 0) × (max_prio ≡ 0) × ((i : ℕ) → i < upto → qual i ≡ false))
      ⊎ ((max_id < upto)
          × (qual max_id ≡ true)
          × (max_prio ≡ priority_of p max_id)
          × ((i : ℕ) → i < upto → qual i ≡ true → priority_of p i ≤ max_prio)
          × ((i : ℕ) → i < max_id → qual i ≡ true → priority_of p i < max_prio))

  qual-at : (word k : ℕ) → k < 32 → qual (word * 32 + k) ≡ qualifies p ctx word k
  qual-at word k h =
      ap (λ t. qualifies p ctx t ((word * 32 + k) % 32)) quotient ∙ ap (qualifies p ctx word) rest
    where
      quotient : (word * 32 + k) / 32 ≡ word
      quotient = omega arith

      rest : (word * 32 + k) % 32 ≡ k
      rest = omega arith

  -- Interrupts that do not qualify change nothing.
  extend :
      (u v : ℕ) (b : Highest)
      → u ≤ v
      → ((i : ℕ) → u ≤ i → i < v → qual i ≡ false)
      → Best u b
      → Best v b
  unfolding Best
  extend u v (mp, mi) le off (inl (z, w, dark)) =
      inl (z, w, λ i lt. elim (split i) [ inl below ↦ dark i below | inr above ↦ off i above lt ])
    where
      split : (i : ℕ) → (i < u) ⊎ (u ≤ i)
      split i = ground arith
  extend u v (mp, mi) le off (inr (lt, q, e, most, first)) = inr (
    omega arith,
    q,
    e,
    (λ i below on. elim (split i) [
      | inl less ↦ most i less on
      | inr above ↦ clash (sym (off i above below) ∙ on)
    ]),
    first,
  )
    where
      split : (i : ℕ) → (i < u) ⊎ (u ≤ i)
      split i = ground arith

      clash : {A : Type 0} → false ≡ true → A
      clash e = absurd (cc)

  -- One that qualifies with a priority above those so far is the best.
  replaced :
      (u mp mi : ℕ)
      → qual u ≡ true
      → mp < priority_of p u
      → Best u (mp, mi)
      → Best (u + 1) (priority_of p u, u)
  unfolding Best
  replaced u mp mi on gt (inl (z, w, dark)) = inr (
    omega arith,
    on,
    refl,
    (λ i below q. elim (split i below) [
      | inl less ↦ clash (sym (dark i less) ∙ q)
      | inr e ↦ subst (λ t. priority_of p t ≤ priority_of p u) (sym e) (le_refl (priority_of p u))
    ]),
    (λ i below q. clash (sym (dark i below) ∙ q)),
  )
    where
      split : (i : ℕ) → i < u + 1 → (i < u) ⊎ (i ≡ u)
      split i h = ground arith

      clash : {A : Type 0} → false ≡ true → A
      clash e = absurd (cc)
  replaced u mp mi on gt (inr (lt, q, e, most, first)) = inr (
    omega arith,
    on,
    refl,
    (λ i below q. elim (split i below) [
      | inl less ↦ omega (arith, most i less q)
      | inr e ↦ subst (λ t. priority_of p t ≤ priority_of p u) (sym e) (le_refl (priority_of p u))
    ]),
    (λ i below q. omega (arith, most i below q)),
  )
    where
      split : (i : ℕ) → i < u + 1 → (i < u) ⊎ (i ≡ u)
      split i h = ground arith

  -- One whose priority is not above those so far changes nothing.
  kept :
      (u mp mi : ℕ)
      → (qual u ≡ true → 0 < priority_of p u)
      → (qual u && ltb mp (priority_of p u)) ≡ false
      → Best u (mp, mi)
      → Best (u + 1) (mp, mi)
  unfolding Best
  kept u mp mi pos hold best = elim (Bool-cases (qual u)) [
    | inr off ↦
        extend u (u + 1) (mp, mi) (omega arith) (λ i ge lt. ap qual (same i ge lt) ∙ off) best
    | inl on ↦
        staying on
          (lower (priority_of p u) (sym (ap (λ t. t && ltb mp (priority_of p u)) on) ∙ hold)) best
  ]
    where
      lower : (x : ℕ) → ltb mp x ≡ false → x ≤ mp
      lower x e = ground arith

      split : (i : ℕ) → i < u + 1 → (i < u) ⊎ (i ≡ u)
      split i h = ground arith

      staying : qual u ≡ true → priority_of p u ≤ mp → Best u (mp, mi) → Best (u + 1) (mp, mi)
      staying on le (inl (z, w, dark)) = absurd (omega (arith, pos on))
      staying on le (inr (lt, q, e, most, first)) = inr (
        omega arith,
        q,
        e,
        (λ i below r. elim (split i below) [
          | inl less ↦ most i less r
          | inr same ↦ subst (λ t. priority_of p t ≤ mp) (sym same) le
        ]),
        first,
      )

      same : (i : ℕ) → u ≤ i → i < u + 1 → i ≡ u
      same i ge lt = omega arith

  -- What qualifies has a priority.
  qualifies-positive :
      (word k : ℕ) → qualifies p ctx word k ≡ true → 0 < priority_of p (word * 32 + k)
  unfolding qualifies
  qualifies-positive word k e =
      omega (arith, ltb→lt (threshold_of p ctx) (priority_of p (word * 32 + k)) (and_true _ _ e).1)

  -- A word without active bits.
  qualifies-inactive : (word k : ℕ) → active p ctx word ≡ 0 → qualifies p ctx word k ≡ false
  unfolding qualifies
  qualifies-inactive word k e =
      ap
        (λ t.
          not (word * 32 + k == 0)
          && t
          && ltb (word * 32 + k) (length p.priorities)
          && ltb (threshold_of p ctx) (priority_of p (word * 32 + k)))
        (ap (λ t. has t (2 ^ k)) e ∙ has-bit 0 k ∙ test_bit-zero k)
      ∙ dark (not (word * 32 + k == 0)) (ltb (word * 32 + k) (length p.priorities))
          (ltb (threshold_of p ctx) (priority_of p (word * 32 + k)))
    where
      dark : (a b c : Bool) → (a && false && b && c) ≡ false
      dark true b c = refl
      dark false b c = refl

  better-Best :
      (word k : ℕ) (b : Highest)
      → k < 32
      → Best (word * 32 + k) b
      → Best (word * 32 + k + 1) (better p ctx word k b)
  unfolding better
  better-Best word k (mp, mi) h best =
      elim (Bool-cases (qualifies p ctx word k && ltb mp (priority_of p (word * 32 + k)))) [
        | inl e ↦
            subst (Best (word * 32 + k + 1))
              (sym (if_true _ (priority_of p (word * 32 + k), word * 32 + k) (mp, mi) e))
              (replaced (word * 32 + k) mp mi (qual-at word k h ∙ (and_true _ _ e).0)
                (ltb→lt mp (priority_of p (word * 32 + k)) (and_true _ _ e).1) best)
        | inr e ↦
            subst (Best (word * 32 + k + 1))
              (sym (if_false _ (priority_of p (word * 32 + k), word * 32 + k) (mp, mi) e))
              (kept (word * 32 + k) mp mi
                (λ q. qualifies-positive word k (sym (qual-at word k h) ∙ q))
                (ap (λ t. t && ltb mp (priority_of p (word * 32 + k))) (qual-at word k h) ∙ e) best)
      ]

  scan_word-Best :
      (word k n : ℕ) (b : Highest)
      → k + n ≤ 32
      → Best (word * 32 + k) b
      → Best (word * 32 + (k + n)) (scan_word p ctx word k n b)
  unfolding scan_word
  scan_word-Best word k zero b le best = subst (λ t. Best t b) same best
    where
      same : word * 32 + k ≡ word * 32 + (k + 0)
      same = omega arith
  scan_word-Best word k (suc n) b le best =
      subst (λ t. Best t (scan_word p ctx word (k + 1) n (better p ctx word k b))) total
        (scan_word-Best word (k + 1) n (better p ctx word k b) (omega arith) (
          subst (λ t. Best t (better p ctx word k b)) next
            (better-Best word k b (omega arith) best)))
    where
      next : word * 32 + k + 1 ≡ word * 32 + (k + 1)
      next = omega arith

      total : word * 32 + (k + 1 + n) ≡ word * 32 + (k + suc n)
      total = omega arith

  scan_from-Best :
      (word n : ℕ) (b : Highest)
      → Best (word * 32) b
      → Best ((word + n) * 32) (scan_from p ctx word n b)
  unfolding scan_from
  scan_from-Best word zero b best = subst (λ t. Best t b) same best
    where
      same : word * 32 ≡ (word + 0) * 32
      same = omega arith
  scan_from-Best word (suc n) b best =
      let taken = if active p ctx word == 0 then b else scan_word p ctx word 0 32 b in
      subst (λ t. Best t (scan_from p ctx (word + 1) n taken)) total
        (scan_from-Best (word + 1) n taken (elim (Bool-cases (active p ctx word == 0)) [
          | inl e ↦
              subst (Best ((word + 1) * 32)) (sym (if_true _ b (scan_word p ctx word 0 32 b) e)) (
                extend (word * 32) ((word + 1) * 32) b (omega arith)
                  (λ i ge lt. qualifies-inactive' i ge lt ((==_iff (active p ctx word) 0).0 e))
                  best)
          | inr e ↦
              subst (Best ((word + 1) * 32)) (sym (if_false _ b (scan_word p ctx word 0 32 b) e)) (
                subst (λ t. Best t (scan_word p ctx word 0 32 b)) whole
                  (scan_word-Best word 0 32 b (omega arith) (subst (λ t. Best t b) start best)))
        ]))
    where
      total : (word + 1 + n) * 32 ≡ (word + suc n) * 32
      total = omega arith

      whole : word * 32 + (0 + 32) ≡ (word + 1) * 32
      whole = omega arith

      start : word * 32 ≡ word * 32 + 0
      start = omega arith

      qualifies-inactive' :
          (i : ℕ) → word * 32 ≤ i → i < (word + 1) * 32 → active p ctx word ≡ 0 → qual i ≡ false
      qualifies-inactive' i ge lt e =
          ap (λ t. qualifies p ctx t (i % 32)) quotient ∙ qualifies-inactive word (i % 32) e
        where
          quotient : i / 32 ≡ word
          quotient = omega arith

  -- The interrupt that a context finds qualifies, has the highest priority of those that do, and is
  -- the lowest-numbered of these; it is 0 where none of its words has one that qualifies.
  pub calc_max_id-Best : (max_prio : ℕ) × Best (num_words p ctx * 32) (max_prio, calc_max_id p ctx)
  unfolding calc_max_id Best
  calc_max_id-Best = (
    (scan_from p ctx 0 (num_words p ctx) (0, 0)).0,
    subst (λ t. Best t (scan_from p ctx 0 (num_words p ctx) (0, 0))) same
        (scan_from-Best 0 (num_words p ctx) (0, 0)
          (inl (refl, refl, λ i lt. absurd (omega arith)))),
  )
    where
      same : (0 + num_words p ctx) * 32 ≡ num_words p ctx * 32
      same = omega arith
