-- ===== src/Cache/Fifo/Rotation.antt =====
-- The order in which the ways of a set are replaced.
use mathlib.Core.Path.{subst}
use inspectre.Base.{
  ==_iff, ==_ne, length, set, length-set, length-replicate, get_or-replicate, get_or-set_self, slot,
  slot-lt, slot-zero, slot-head_suc, ℕ, zero, suc, ◌<◌, ◌≡◌, refl, sym, ap, ◌∙◌, ◌≢◌, arith,
}
use inspectre.Cache.Fifo.{FifoPolicy, new, get_victim, update}

-- The next way of each of the sets is a way.
pub record IsValid (p : FifoPolicy) (idx : ℕ) : Type 0 where
  pub in_range : idx < length p.next_way
  pub a_way : get_victim p idx < p.ways

pub new-IsValid : (sets ways idx : ℕ) → idx < sets → 0 < ways → IsValid (new sets ways) idx
unfolding new
new-IsValid sets ways idx p q = record {
  in_range = rw length-replicate p;
  a_way = subst (λ t. t < ways) (sym (get_or-replicate {A = ℕ} sets 0 idx)) q;
}

-- `n` misses in the set: each time the victim is filled.
abbrev pub fill : FifoPolicy → ℕ → ℕ → FifoPolicy
fill p idx zero = p
fill p idx (suc n) = fill (update p idx (get_victim p idx)) idx n

module _ (p : FifoPolicy) (idx : ℕ) (v : IsValid p idx) where
  update-victim :
      update p idx (get_victim p idx)
      ≡ record p { next_way = set p.next_way idx (slot p.ways (get_victim p idx) 1) }
  unfolding update
  update-victim = rw ((==_iff (get_victim p idx) (get_victim p idx)).1 refl) refl

  -- A use of another way than the next one changes nothing.
  update-other : (way : ℕ) → get_victim p idx ≢ way → update p idx way ≡ p
  unfolding update
  update-other way ne = rw (==_ne (get_victim p idx) way ne) refl

  victim-after : get_victim (update p idx (get_victim p idx)) idx ≡ slot p.ways (get_victim p idx) 1
  victim-after = rw update-victim (get_or-set_self p.next_way idx _ 0 v.in_range)

  after-IsValid : IsValid (update p idx (get_victim p idx)) idx
  after-IsValid = rw update-victim (record {
    in_range = rw length-set v.in_range;
    a_way =
        rw (get_or-set_self p.next_way idx (slot p.ways (get_victim p idx) 1) 0 v.in_range)
          (slot-lt p.ways (get_victim p idx) 1 (omega (arith, v.a_way)));
  })

victim-fill :
    (p : FifoPolicy) (idx n : ℕ)
    → IsValid p idx
    → get_victim (fill p idx n) idx ≡ slot p.ways (get_victim p idx) n
victim-fill p idx zero v = sym (slot-zero p.ways (get_victim p idx) v.a_way)
victim-fill p idx (suc n) v =
    victim-fill (update p idx (get_victim p idx)) idx n (after-IsValid p idx v)
    ∙ (λ j. slot (ways_kept j) (victim-after p idx v j) n)
    ∙ slot-head_suc p.ways (get_victim p idx) n
  where
    ways_kept : (update p idx (get_victim p idx)).ways ≡ p.ways
    ways_kept = ap (λ (x : FifoPolicy). x.ways) (update-victim p idx v)

-- In a set whose next way is a way: after `n` misses the victim is `n` places on, round the set; a
-- use of another way than the next victim changes nothing.
pub rotates :
    (p : FifoPolicy) (idx n : ℕ)
    → IsValid p idx
    → (get_victim (fill p idx n) idx ≡ slot p.ways (get_victim p idx) n)
      × ((way : ℕ) → get_victim p idx ≢ way → update p idx way ≡ p)
rotates p idx n v = (victim-fill p idx n v, update-other p idx v)
