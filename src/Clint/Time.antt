-- ===== src/Clint/Time.antt =====
-- crates/hardware/src/soc/devices/clint.rs: how fast the timer runs.
use native.Mathlib.Nat.{mod-eq_of_lt, mul-add-div_right, mul-add-mod_self_right, div-eq_of_lt}
use inspectre.Base.{
  leb, leb→le, Bool-cases, if_true, if_false, ℕ, zero, suc, ◌+◌, ◌*◌, ◌/◌, ◌%◌, ◌^◌, ◌≤◌, ◌<◌, ◌≡◌,
  refl, sym, ap, subst, ◌∙◌, inl, inr, false, arith,
}
use inspectre.Clint.{Clint, advanced, tick}

-- `n` cycles.
unfoldable pub ticks : ℕ → Clint → Clint
ticks zero c = c
ticks (suc n) c = ticks n (tick c).1

-- What `n` cycles make of a timer.
unfoldable pub Runs : ℕ → Clint → Clint → Type 0
Runs n c d =
    (d.mtime ≡ (c.mtime + (c.counter + n) / c.divider) % 2 ^ 64)
    × (d.counter ≡ (c.counter + n) % c.divider)
    × (d.mtimecmp ≡ c.mtimecmp)

-- From a counter below the divider and a time below 2 ^ 64, after `n` cycles the timer has advanced
-- by the cycles counted so far divided by the divider, with wrap-around, and the counter is what is
-- left; the comparison is unchanged.
pub mtime-ticks :
    (n : ℕ) (c : Clint) → c.counter < c.divider → c.mtime < 2 ^ 64 → Runs n c (ticks n c)
unfolding ticks tick advanced Runs
mtime-ticks zero c h hm = (
  sym (
      ap (λ t. (c.mtime + t) % 2 ^ 64) (ap (λ t. t / c.divider) same ∙ div-eq_of_lt h)
      ∙ ap (λ t. t % 2 ^ 64) whole
      ∙ mod-eq_of_lt hm),
  sym (ap (λ t. t % c.divider) same ∙ mod-eq_of_lt h),
  refl,
)
  where
    same : c.counter + 0 ≡ c.counter
    same = omega arith

    whole : c.mtime + 0 ≡ c.mtime
    whole = omega arith
mtime-ticks (suc n) c h hm = elim (Bool-cases (leb c.divider (c.counter + 1))) [
  | inl e ↦
      subst (λ d. Runs (suc n) c (ticks n d))
        (sym (if_true (leb c.divider (c.counter + 1)) wrapped counted e))
        (after_wrap (leb→le c.divider (c.counter + 1) e)
          (mtime-ticks n wrapped (omega arith) (omega arith)))
  | inr e ↦
      subst (λ d. Runs (suc n) c (ticks n d))
        (sym (if_false (leb c.divider (c.counter + 1)) wrapped counted e))
        (after_count (mtime-ticks n counted (below e) hm))
]
  where
    wrapped : Clint
    wrapped = record c { counter = 0; mtime = (c.mtime + 1) % 2 ^ 64 }

    counted : Clint
    counted = record c { counter = c.counter + 1 }

    below : leb c.divider (c.counter + 1) ≡ false → c.counter + 1 < c.divider
    below e = ground arith

    after_count : Runs n counted (ticks n counted) → Runs (suc n) c (ticks n counted)
    after_count (t, k, m) =
        (t ∙ ap (λ x. (c.mtime + x / c.divider) % 2 ^ 64) next, k ∙ ap (λ x. x % c.divider) next, m)
      where
        next : c.counter + 1 + n ≡ c.counter + suc n
        next = omega arith

    after_wrap :
        c.divider ≤ c.counter + 1
        → Runs n wrapped (ticks n wrapped)
        → Runs (suc n) c (ticks n wrapped)
    after_wrap le (t, k, m) = (
      t ∙ sums (0 + n) (c.counter + suc n) quotient,
      k
          ∙ ap (λ x. x % c.divider) plain
          ∙ sym (ap (λ x. x % c.divider) whole ∙ mul-add-mod_self_right 1 c.divider n),
      m,
    )
      where
        plain : 0 + n ≡ n
        plain = omega arith

        whole : c.counter + suc n ≡ 1 * c.divider + n
        whole = omega arith

        quotient : (c.counter + suc n) / c.divider ≡ 1 + (0 + n) / c.divider
        quotient =
            ap (λ x. x / c.divider) whole
            ∙ mul-add-div_right (omega arith) 1 n
            ∙ ap (λ x. 1 + x / c.divider) (sym plain)

        sums :
            (x y : ℕ)
            → y / c.divider ≡ 1 + x / c.divider
            → ((c.mtime + 1) % 2 ^ 64 + x / c.divider) % 2 ^ 64 ≡ (c.mtime + y / c.divider) % 2 ^ 64
        sums x y e = omega arith
