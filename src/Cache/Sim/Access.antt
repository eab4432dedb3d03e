-- ===== src/Cache/Sim/Access.antt =====
-- core/units/cache/mod.rs: what an access leaves in the cache.
use native.Mathlib.Nat.{mul-le-mul_right, mod-lt, add-mul}
use inspectre.Base.{
  ◌==◌, ==_iff, ==_false, Bool-cases, Option-cases, if_true, if_false, length, get_or-set_self, ℕ,
  zero, suc, ◌+◌, ◌*◌, ◌/◌, ◌≤◌, ◌<◌, ◌≡◌, refl, sym, ap, subst, ◌∙◌, inl, inr, Bool, true, false,
  not, ◌&&◌, Option, none, some, arith,
}
use inspectre.Cache.Policy
use inspectre.Cache.Policy.{Policy}
use inspectre.Cache.Sim.{
  CacheSim, default_line, set_index, tag_of, base_idx, line_at, holds, find_way, is_some, way_of,
  contains, penalty_of, place, install_line, touch, install_prefetches, observed, prefetched,
  finished, access, access_way, installed, missed,
}

-- The lines are those of the sets, and there is a set.
pub record IsValid (c : CacheSim) : Type 0 where
  pub some_set : 0 < c.num_sets
  pub lines_of_sets : length c.lines ≡ c.num_sets * c.ways

abbrev value_or : ℕ → Option ℕ → ℕ
value_or d none = d
value_or d (some x) = x

-- A way that is found holds the tag, and is one of those looked at.
find_way-some :
    (c : CacheSim) (base tag i n j : ℕ)
    → find_way c base tag i n ≡ some j
    → (holds c (base + j) tag ≡ true) × (i ≤ j) × (j < i + n)
unfolding find_way
find_way-some c base tag i zero j e = absurd (cc)
find_way-some c base tag i (suc n) j e = elim (Bool-cases (holds c (base + i) tag)) [
  | inl h ↦
      let same : i ≡ j = ap (value_or 0) (sym (if_true _ _ _ h) ∙ e) in
      (subst (λ t. holds c (base + t) tag ≡ true) same h, omega arith, omega arith)
  | inr h ↦
      let below = find_way-some c base tag (i + 1) n j (sym (if_false _ _ _ h) ∙ e) in
      (below.0, omega (arith, below.1), omega (arith, below.2))
]

-- A way that holds the tag is found, or one before it.
find_way-holds :
    (c : CacheSim) (base tag i n j : ℕ)
    → holds c (base + j) tag ≡ true
    → i ≤ j
    → j < i + n
    → is_some (find_way c base tag i n) ≡ true
unfolding find_way
find_way-holds c base tag i zero j h le lt = absurd (omega arith)
find_way-holds c base tag i (suc n) j h le lt = elim (Bool-cases (holds c (base + i) tag)) [
  | inl here ↦ ap is_some (if_true _ _ _ here)
  | inr away ↦
      ap is_some (if_false _ _ _ away)
      ∙ find_way-holds c base tag (i + 1) n j h (later away) (omega arith)
]
  where
    clash : {A : Type 0} → false ≡ true → A
    clash e = absurd (cc)

    later : holds c (base + i) tag ≡ false → i + 1 ≤ j
    later away = elim (Bool-cases (i == j)) [
      | inl e ↦ absurd (clash (sym away ∙ ap (λ t. holds c (base + t) tag) ((==_iff i j).0 e) ∙ h))
      | inr e ↦ omega (arith, ==_false i j e)
    ]

-- The line of a way of the set of an address.
index-lt :
    (c : CacheSim) (addr way : ℕ)
    → IsValid c
    → way < c.ways
    → base_idx c addr + way < length c.lines
index-lt c addr way v h =
    subst (λ t. base_idx c addr + way < t) (sym v.lines_of_sets)
      (within (set_index c addr) c.num_sets c.ways way (mod-lt (addr / c.line_bytes) v.some_set) h)
  where
    within : (s n w i : ℕ) → s < n → i < w → s * w + i < n * w
    within s n w i hs hi = omega (arith, mul-le-mul_right w (step hs), add-mul s 1 w)
      where
        step : s < n → s + 1 ≤ n
        step lt = omega arith

-- After a hit the line still holds its tag.
touch-holds :
    (c : CacheSim) (addr i : ℕ) (w : Bool)
    → IsValid c
    → i < c.ways
    → holds c (base_idx c addr + i) (tag_of c addr) ≡ true
    → holds (touch c addr w i) (base_idx c addr + i) (tag_of c addr) ≡ true
unfolding touch line_at
touch-holds c addr i false v lt h = h
touch-holds c addr i true v lt h =
    ap (λ l. l.valid && l.tag == tag_of c addr)
      (get_or-set_self c.lines (base_idx c addr + i)
        (record (line_at c (base_idx c addr + i)) { dirty = true }) default_line
        (index-lt c addr i v lt))
    ∙ h

-- After a replacement the line holds the tag.
place-holds :
    (c : CacheSim) (addr : ℕ) (w : Bool) (v : ℕ × Policy)
    → IsValid c
    → v.0 < c.ways
    → holds (place c addr w v) (base_idx c addr + v.0) (tag_of c addr) ≡ true
unfolding place line_at
place-holds c addr w (way, policy) v lt =
    ap (λ l. l.valid && l.tag == tag_of c addr)
      (get_or-set_self c.lines (base_idx c addr + way)
        (record { tag = tag_of c addr; valid = true; dirty = w }) default_line
        (index-lt c addr way v lt))
    ∙ (==_iff (tag_of c addr) (tag_of c addr)).1 refl

-- An access of an enabled cache without a prefetcher, which has a set and the lines of its sets and
-- whose policy names a way of the set, reports a hit exactly where the cache contained the address,
-- and the cache contains it afterwards.
pub access-contains :
    (c : CacheSim) (addr lat : ℕ) (w : Bool)
    → IsValid c
    → c.enabled ≡ true
    → c.prefetcher ≡ none
    → (v : ℕ × Policy) → Policy.get_victim c.policy (set_index c addr) ≡ some v
    → v.0 < c.ways
    → (d : CacheSim) × (penalty : ℕ) × (access c addr w lat ≡ some ((contains c addr, penalty), d))
      × (contains d addr ≡ true)
unfolding access access_way contains prefetched observed install_prefetches install_line way_of
    touch place line_at
access-contains c addr lat w valid on quiet v chosen lt = elim (Option-cases (way_of c addr)) [
  | inr (i, found) ↦
      let d = record (touch c addr w i) { prefetcher = none } in
      let at = find_way-some c (base_idx c addr) (tag_of c addr) 0 c.ways i found in
      (
        d,
        0,
        opened c addr lat w on
            ∙ ap (access_way c addr w lat) found
            ∙ ap
                (λ p.
                  finished true 0
                    (prefetched (record (touch c addr w i) { prefetcher = p }) addr true lat))
                quiet
            ∙ ap (λ h. some ((h, 0), d)) (sym (if_false _ _ _ (ap not on) ∙ ap is_some found)),
        holds_then d addr i on (omega (arith, at.2))
            (touch-holds c addr i w valid (omega (arith, at.2)) at.0),
      )
  | inl miss ↦
      let d = record (place c addr w v) { prefetcher = none } in
      (
        d,
        penalty_of (line_at c (base_idx c addr + v.0)) lat,
        opened c addr lat w on
            ∙ ap (access_way c addr w lat) miss
            ∙ ap (λ o. missed addr lat (installed c addr w lat o)) chosen
            ∙ ap
                (λ p.
                  finished false (penalty_of (line_at c (base_idx c addr + v.0)) lat)
                    (prefetched (record (place c addr w v) { prefetcher = p }) addr false lat))
                quiet
            ∙ ap (λ h. some ((h, penalty_of (line_at c (base_idx c addr + v.0)) lat), d))
                (sym (if_false _ _ _ (ap not on) ∙ ap is_some miss)),
        holds_then d addr v.0 on lt (place-holds c addr w v valid lt),
      )
]
  where
    opened :
        (c : CacheSim) (addr lat : ℕ) (w : Bool)
        → c.enabled ≡ true
        → access c addr w lat ≡ access_way c addr w lat (way_of c addr)
    opened c addr lat w on = if_false (not c.enabled) _ _ (ap not on)

    holds_then :
        (d : CacheSim) (addr i : ℕ)
        → d.enabled ≡ true
        → i < d.ways
        → holds d (base_idx d addr + i) (tag_of d addr) ≡ true
        → contains d addr ≡ true
    holds_then d addr i on lt h =
        if_false (not d.enabled) _ _ (ap not on)
        ∙ find_way-holds d (base_idx d addr) (tag_of d addr) 0 d.ways i h (omega arith)
            (omega arith)
