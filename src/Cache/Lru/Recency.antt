-- ===== src/Cache/Lru/Recency.antt =====
-- core/units/cache/policies/lru.rs: the victim is the way that has not been used for longest.
use inspectre.Base.{
  [], ◌==◌, ==_iff, ==_ne, length, get_or, replicate, length-set, get_or-set_self, ℕ, zero, suc,
  ◌+◌, ◌<◌, ◌≡◌, refl, sym, subst, true, false, ◌||◌, some, List, ◌∷◌, arith,
}
use inspectre.Cache.Lru.{Usage, ways_from, new, remove_way, stack_of, update, lru_victim}
use inspectre.Cache.Lru.Order.{
  among, distinct, others_among, older, or-cases, clash, chosen, among-remove, distinct-remove,
  remove-removes, among-older, distinct-older, older-remove, last-older, older-excludes,
  others_among-lem, among-kept, among-ne_flip,
}

-- The stack of a new set names no way twice.
ways_from-absent : (x way n : ℕ) → x < way → among x (ways_from way n) ≡ false
ways_from-absent x way zero h = refl
ways_from-absent x way (suc n) h =
    rw (==_ne way x (λ e. absurd (omega arith)), ways_from-absent x (way + 1) n (omega arith)) refl

ways_from-distinct : (way n : ℕ) → distinct (ways_from way n) ≡ true
ways_from-distinct way zero = refl
ways_from-distinct way (suc n) =
    rw (ways_from-absent way (way + 1) n (omega arith), ways_from-distinct (way + 1) n) refl

new-distinct : (sets ways idx : ℕ) → idx < sets → distinct (stack_of (new sets ways) idx) ≡ true
unfolding new
new-distinct sets ways idx h = at sets idx h
  where
    at :
        (sets idx : ℕ)
        → idx < sets
        → distinct (get_or (replicate sets (ways_from 0 ways)) idx []) ≡ true
    at zero idx h = absurd (omega arith)
    at (suc n) zero h = ways_from-distinct 0 ways
    at (suc n) (suc i) h = at n i (omega arith)

-- The uses of ways of the set, one after another.
abbrev pub touch : Usage → ℕ → List ℕ → Usage
touch p idx [] = p
touch p idx (w ∷ ws) = touch (update p idx w) idx ws

module _ (idx v : ℕ) where
  stack-update :
      (p : Usage) (way : ℕ)
      → idx < length p.usage
      → stack_of (update p idx way) idx ≡ way ∷ remove_way way (stack_of p idx)
  unfolding update
  stack-update p way inside = get_or-set_self p.usage idx _ [] inside

  length-update : (p : Usage) (way : ℕ) → length (update p idx way).usage ≡ length p.usage
  unfolding update
  length-update p way = length-set p.usage idx _

  -- What one use leaves of the ways older than another one.
  still_older :
      (w y : ℕ) (q ws : List ℕ)
      → distinct q ≡ true
      → (w == v) ≡ false
      → ((z : ℕ) → among z (older v q) ≡ true → among z (w ∷ ws) ≡ true)
      → among y (older v (w ∷ remove_way w q)) ≡ true
      → among y ws ≡ true
  still_older w y q ws d ne used e =
      let taken = among-remove w y (older v q) (distinct-older v q d) (
        subst (λ t. among y t ≡ true) (older-remove w v q d ne)
          (chosen _ _ false (λ t. among y t ≡ true) ne e)) in
      subst (λ b. (b || among y ws) ≡ true) taken.1 (used y taken.0)

  -- The proof by the ways older than `v`, which the uses exhaust.
  victim-exhausted :
      (p : Usage) (ws : List ℕ)
      → idx < length p.usage
      → distinct (stack_of p idx) ≡ true
      → among v (stack_of p idx) ≡ true
      → among v ws ≡ false
      → ((y : ℕ) → among y (older v (stack_of p idx)) ≡ true → among y ws ≡ true)
      → lru_victim (touch p idx ws) idx ≡ some v
  unfolding lru_victim
  victim-exhausted p [] inside d on off used =
      last-older v (stack_of p idx) on (empty (older v (stack_of p idx)) used)
    where
      empty : (q : List ℕ) → ((y : ℕ) → among y q ≡ true → false ≡ true) → q ≡ []
      empty [] h = refl
      empty (x ∷ q) h = clash (h x (rw ((==_iff x x).1 refl) refl))
  victim-exhausted p (w ∷ ws) inside d on off used =
      let q = stack_of p idx in
      let parts = or-cases (w == v) (among v ws) off in
      let moved = sym (stack-update p w inside) in
      victim-exhausted (update p idx w) ws (subst (λ n. idx < n) (sym (length-update p w)) inside)
        (subst (λ t. distinct t ≡ true) moved
          (rw (remove-removes w q d, distinct-remove w q d) refl))
        (subst (λ t. among v t ≡ true) moved (rw parts.0 (among-kept w v q parts.0 on))) parts.1
        (subst (λ t. (y : ℕ) → among y (older v t) ≡ true → among y ws ≡ true) moved
          (λ y e. still_older w y q ws d parts.0 used e))

  -- In an existing set whose stack names no way twice, once every way of the stack but `v` has been
  -- used, in any order and as often as one likes, and `v` has not, the LRU victim is `v`.
  pub lru_victim-touch :
      (p : Usage) (ws : List ℕ)
      → idx < length p.usage
      → distinct (stack_of p idx) ≡ true
      → among v (stack_of p idx) ≡ true
      → others_among v ws (stack_of p idx) ≡ true
      → among v ws ≡ false
      → lru_victim (touch p idx ws) idx ≡ some v
  lru_victim-touch p ws inside d on others off =
      let q = stack_of p idx in
      victim-exhausted p ws inside d on off (λ y e.
        others_among-lem v ws y q others (among-older v y q e)
          (among-ne_flip v y (older v q) (older-excludes v q d) e))
